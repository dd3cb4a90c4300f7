-- ===== src/Http/Request/FirstLine.antt =====
-- `parseFirstLine` of src/HttpRequest.cpp on what `buildFirstLine` writes.
use jhcommon.Prelude.{
  ℕ, zero, suc, ◌+◌, ◌<◌, ◌≡◌, refl, sym, ◌∙◌, true, false, some, [], ◌∷◌, ◌++◌, length, get_elem?,
  drop, ltb, leb, ◌==◌, arith, append_assoc, append-nil, length-append,
}
use jhcommon.Prelude.Text.{Text, Lacks, Lacks-cons}
use jhcommon.Http.Lines.{byte_of_drop}
use jhcommon.Http.{cr, lf, space}
use jhcommon.Http.Response.FirstLine.{drop-past, get_elem?-below}
use jhcommon.Http.Request.{
  take_word, skip_spaces, take_words, max_method_size, max_uri_size, max_proto_size,
}

module _ (s : Text) (stop max : ℕ) where
  take_word-stop :
      (n i : ℕ) (acc : Text)
      → get_elem? s i ≡ some stop
      → take_word (suc n) stop max (length s) i (get_elem? s) acc ≡ some (acc, suc i)
  unfolding take_word
  take_word-stop n i acc here =
      let inside : ltb (length s) (suc i) ≡ false =
        let b = get_elem?-below s i stop here in ground arith in
      let same : (stop == stop) ≡ true = ground arith in rw (take_word, here, inside, same) refl

  take_word-next :
      (n i c : ℕ) (acc : Text)
      → get_elem? s i ≡ some c
      → (c == stop) ≡ false
      → suc (length acc) < max
      → take_word (suc n) stop max (length s) i (get_elem? s) acc
        ≡ take_word n stop max (length s) (suc i) (get_elem? s) (acc ++ c ∷ [])
  unfolding take_word
  take_word-next n i c acc here ne room =
      let inside : ltb (length s) (suc i) ≡ false =
        let b = get_elem?-below s i c here in ground arith in
      let fits : leb max (suc (length acc)) ≡ false = ground arith in
      rw (take_word, here, inside, ne, fits) refl

  pub take_word_lem :
      (n i : ℕ) (acc w r : Text)
      → Lacks stop w
      → length acc + length w < max
      → length w < n
      → drop i s ≡ w ++ stop ∷ r
      → take_word n stop max (length s) i (get_elem? s) acc ≡ some (acc ++ w, suc (i + length w))
  take_word_lem zero i acc w r h room f e = elim f [ ]
  take_word_lem (suc n) i acc [] r h room f e =
      let k : i + 0 ≡ i = omega arith in
      rw (k, append-nil acc) (take_word-stop n i acc (byte_of_drop s i stop r e).0)
  take_word_lem (suc n) i acc (c ∷ w) r h room f e =
      let (ne, h') = Lacks-cons stop c w h in
      let (here, e1) = byte_of_drop s i c (w ++ stop ∷ r) e in
      let k : i + suc (length w) ≡ suc i + length w = omega arith in
      let more = length-append acc (c ∷ []) in
      rw (k, sym (append_assoc acc (c ∷ []) w))
        (take_word-next n i c acc here ne (omega arith)
          ∙ take_word_lem n (suc i) (acc ++ c ∷ []) w r h' (omega arith) (omega arith) e1)

pub skip_spaces_lem :
    (s : Text) (n i t : ℕ) (r : Text)
    → (t == space) ≡ false
    → drop i s ≡ t ∷ r
    → skip_spaces (suc n) (length s) i (get_elem? s) ≡ some i
unfolding skip_spaces
skip_spaces_lem s n i t r ne e =
    let (here, e1) = byte_of_drop s i t r e in rw (skip_spaces, here, ne) refl

-- The words of a line in its order, and the length of the line.
pub take_words_lem :
    (m t : ℕ) (ms ts p r : Text) (s : Text)
    → Lacks space (m ∷ ms)
    → Lacks space (t ∷ ts)
    → Lacks cr p
    → length (m ∷ ms) < max_method_size
    → length (t ∷ ts) < max_uri_size
    → length p < max_proto_size
    → s ≡ (m ∷ ms) ++ space ∷ ((t ∷ ts) ++ space ∷ (p ++ cr ∷ lf ∷ r))
    → take_words (length s) (get_elem? s)
      ≡ some (record {
        method = m ∷ ms;
        uri = t ∷ ts;
        protocol = p;
        size = length ms + length ts + length p + 6;
      })
unfolding take_words
take_words_lem m t ms ts p r s hm ht hp lm lt lp e =
    let rest = (t ∷ ts) ++ space ∷ (p ++ cr ∷ lf ∷ r) in
    let w1 =
      take_word_lem s space max_method_size max_method_size 0 [] (m ∷ ms) rest hm (omega arith)
        (omega arith) e in
    let i = suc (0 + length (m ∷ ms)) in
    let e1 = drop-past s 0 (m ∷ ms) (space ∷ rest) e in
    let e2 = (byte_of_drop s (0 + length (m ∷ ms)) space rest e1).1 in
    let (nt, _) = Lacks-cons space t ts ht in
    let sp = skip_spaces_lem s (length s) i t (ts ++ space ∷ (p ++ cr ∷ lf ∷ r)) nt e2 in
    let w2 =
      take_word_lem s space max_uri_size max_uri_size i [] (t ∷ ts) (p ++ cr ∷ lf ∷ r) ht
        (omega arith) (omega arith) e2 in
    let j = i + length (t ∷ ts) in
    let e3 = drop-past s i (t ∷ ts) (space ∷ (p ++ cr ∷ lf ∷ r)) e2 in
    let e4 = (byte_of_drop s j space (p ++ cr ∷ lf ∷ r) e3).1 in
    let w3 =
      take_word_lem s cr max_proto_size max_proto_size (suc j) [] p (lf ∷ r) hp (omega arith)
        (omega arith) e4 in
    let k = suc j + length p in
    let e5 = drop-past s (suc j) p (cr ∷ lf ∷ r) e4 in
    let e6 = (byte_of_drop s k cr (lf ∷ r) e5).1 in
    let (last, _) = byte_of_drop s (suc k) lf r e6 in
    let n : suc (suc k) ≡ length ms + length ts + length p + 6 = omega arith in
    rw (w1, sp, w2, w3, last, n) refl
