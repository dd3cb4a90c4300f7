-- ===== src/Http/Request/Build.antt =====
-- The first line of a request that src/HttpRequest.cpp writes is parsed to its method and target.
use jhcommon.Prelude.{
  ℕ, zero, suc, ◌+◌, ◌<◌, ◌≡◌, refl, sym, ap, ◌∙◌, Bool, true, false, ◌&&◌, Option, none, some,
  List, [], ◌∷◌, ◌++◌, length, get_elem?, ltb, ◌==◌, ◌>>=◌, arith, append_assoc, length-append,
}
use jhcommon.Prelude.Int.{ℤ}
use jhcommon.Prelude.Text.{Text, codes, Lacks}
use jhcommon.CircularBuffer.{CircularBuffer}
use jhcommon.CircularBuffer.Inv.{IsValid, contents, length-contents}
use jhcommon.Uri.{Uri, set_string}
use jhcommon.Uri.Access.{get_query}
use jhcommon.Uri.Parse.{set_string_ends}
use jhcommon.Http.Lines.{byte_at-contents}
use jhcommon.Http.Names.{and_left, and_right}
use jhcommon.Http.Parse.{c_str-Lacks}
use jhcommon.Http.{cr, lf, space, c_str}
use jhcommon.Http.Response.Message.{lacks, lacks-Lacks}
use jhcommon.Http.Request.{
  Request, method_types, max_method_size, max_uri_size, find_method, parse_method, take_words,
  set_words, target, parse_first_line, build_first_line,
}
use jhcommon.Http.Request.FirstLine.{take_words_lem}

abbrev is_index : ℕ → Option ℕ → Bool
is_index k none = false
is_index k (some j) = j == k

abbrev is_method : ℕ → Text → Bool
is_method k [] = false
is_method k (m ∷ ms) =
    lacks space (m ∷ ms)
    && ltb (length (m ∷ ms)) max_method_size
    && is_index k (parse_method (m ∷ ms))

abbrev all_methods : ℕ → List Text → Bool
all_methods i [] = true
all_methods i (n ∷ ns) = is_method i n && all_methods (suc i) ns

methods_ok : all_methods 0 method_types ≡ true
unfolding find_method
methods_ok = refl

some_inj : {x y : Text} → some x ≡ some y → x ≡ y
some_inj e = cc

all_methods-get_elem? :
    (i k : ℕ) (ns : List Text) {name : Text}
    → all_methods i ns ≡ true
    → get_elem? ns k ≡ some name
    → is_method (i + k) name ≡ true
all_methods-get_elem? i k [] h e = cc
all_methods-get_elem? i zero (n ∷ ns) h e =
    let k : i + 0 ≡ i = omega arith in rw k (ap (is_method i) (sym (some_inj e)) ∙ and_left _ _ h)
all_methods-get_elem? i (suc k) (n ∷ ns) h e =
    let k' : i + suc k ≡ suc i + k = omega arith in
    rw k' (all_methods-get_elem? (suc i) k ns (and_right _ _ h) e)

method_named :
    (k : ℕ) {name : Text} → get_elem? method_types k ≡ some name → is_method k name ≡ true
method_named k {name} h =
    let zero_k : 0 + k ≡ k = omega arith in
    ap (λ j. is_method j name) (sym zero_k) ∙ all_methods-get_elem? 0 k method_types methods_ok h

is_index_iff : (k : ℕ) (o : Option ℕ) → is_index k o ≡ true → o ≡ some k
is_index_iff k none h = cc
is_index_iff k (some j) h = ground arith

-- What the words of a method's name are.
record IsMethod (k : ℕ) (name : Text) : Type 0 where
  letter : ℕ
  letters : Text
  split : name ≡ letter ∷ letters
  no_space : Lacks space (letter ∷ letters)
  short : length (letter ∷ letters) < max_method_size
  found : parse_method (letter ∷ letters) ≡ some k

is_method-IsMethod : (k : ℕ) (name : Text) → is_method k name ≡ true → IsMethod k name
is_method-IsMethod k [] h = ground (arith, h)
is_method-IsMethod k (m ∷ ms) h =
    let a = and_left _ _ h in
    record {
      letter = m;
      letters = ms;
      split = refl;
      no_space = lacks-Lacks space (m ∷ ms) (and_left _ _ a);
      short =
          let b = and_right (lacks space (m ∷ ms)) (ltb (length (m ∷ ms)) max_method_size) a in
          ground arith;
      found = is_index_iff k (parse_method (m ∷ ms)) (and_right _ _ h);
    }

line_split :
    (m t : ℕ) (ms ts r : Text)
    → ((((m ∷ ms) ++ space ∷ []) ++ t ∷ ts) ++ (codes " HTTP/1.1" ++ cr ∷ lf ∷ [])) ++ r
      ≡ (m ∷ ms) ++ space ∷ ((t ∷ ts) ++ space ∷ (codes "HTTP/1.1" ++ cr ∷ lf ∷ r))
line_split m t ms ts r = simp append_assoc

length-line :
    (m t : ℕ) (ms ts : Text)
    → length ((((m ∷ ms) ++ space ∷ []) ++ t ∷ ts) ++ (codes " HTTP/1.1" ++ cr ∷ lf ∷ []))
      ≡ length ms + length ts + length (codes "HTTP/1.1") + 6
length-line m t ms ts =
    let a =
      length-append (((m ∷ ms) ++ space ∷ []) ++ t ∷ ts) (codes " HTTP/1.1" ++ cr ∷ lf ∷ []) in
    let b = length-append ((m ∷ ms) ++ space ∷ []) (t ∷ ts) in
    let c = length-append (m ∷ ms) (space ∷ []) in omega arith

-- the name in a line that was built
built_lem :
    (q : Request) (k t : ℕ) (ts line : Text)
    → q.method ≡ some k
    → target q.uri.path (get_query q.uri).0 ≡ t ∷ ts
    → build_first_line q ≡ some line
    → (name : Text) × (get_elem? method_types k ≡ some name)
      × (((name ++ space ∷ []) ++ t ∷ ts) ++ (codes " HTTP/1.1" ++ cr ∷ lf ∷ []) ≡ line)
built_lem q k t ts line known goal built = named (get_elem? method_types k) refl
  where
    named :
        (o : Option Text)
        → get_elem? method_types k ≡ o
        → (name : Text) × (get_elem? method_types k ≡ some name)
          × (((name ++ space ∷ []) ++ t ∷ ts) ++ (codes " HTTP/1.1" ++ cr ∷ lf ∷ []) ≡ line)
    named none h = let bad = rw (known, h) at built in cc
    named (some name) h = (name, h, some_inj (rw (known, h, goal) at built))

-- The request with what a line with this target says, and the URI that the target is parsed to.
abbrev pub received : (Text → ℤ × ℤ → ℤ × ℤ) → ℕ → Request → Uri → Request
received sscanf k q u =
    let v : ℤ × ℤ = sscanf (codes "HTTP/1.1") (q.major, q.minor) in
    record { method = some k; major = v.0; minor = v.1; uri = u }

set_words_lem :
    (sscanf : Text → ℤ × ℤ → ℤ × ℤ) (q : Request) (k : ℕ) (b : Bool) (u : Uri) (m : ℕ)
    → (ms uri : Text) (size : ℕ) → parse_method (m ∷ ms) ≡ some k
    → set_string (c_str uri) q.uri ≡ some (b, u)
    → set_words sscanf
        (record { method = m ∷ ms; uri = uri; protocol = codes "HTTP/1.1"; size = size })
        q
      ≡ some (size, received sscanf k q u)
set_words_lem sscanf q k b u m ms uri size found parsed =
    ap
      (λ o. o >>= λ r. some (
        size,
        record {
          method = parse_method (m ∷ ms);
          major = (sscanf (codes "HTTP/1.1") (q.major, q.minor)).0;
          minor = (sscanf (codes "HTTP/1.1") (q.major, q.minor)).1;
          uri = r.1;
        },
      ))
      parsed
    ∙ ap (λ o. some (size, record (received sscanf k q u) { method = o })) found

-- The first line that `buildFirstLine` writes for a known method and a target of less than 2048
-- bytes with no space and no NUL, at the start of the ring, is parsed by `parseFirstLine`, with the
-- line's length, to the method, the version that `sscanf` reads and the URI of the target, whose
-- parse ends, whatever the request was before.
pub request_line_lem :
    (sscanf : Text → ℤ × ℤ → ℤ × ℤ) (q q0 : Request) (k t : ℕ) (ts line r : Text)
    → {c : CircularBuffer} → IsValid c
    → q.method ≡ some k
    → target q.uri.path (get_query q.uri).0 ≡ t ∷ ts
    → Lacks space (t ∷ ts)
    → Lacks 0 (t ∷ ts)
    → length (t ∷ ts) < max_uri_size
    → build_first_line q ≡ some line
    → contents c ≡ line ++ r
    → (b : Bool) × (u : Uri) × (set_string (t ∷ ts) q0.uri ≡ some (b, u))
      × (parse_first_line sscanf c q0 ≡ some (length line, received sscanf k q0 u))
unfolding parse_first_line
request_line_lem sscanf q q0 k t ts line r {c} v known goal space_free nul_free short built e =
    let (name, named, line_is) = built_lem q k t ts line known goal built in
    let m = is_method-IsMethod k name (method_named k named) in
    let line_is' =
      ap (λ x. ((x ++ space ∷ []) ++ t ∷ ts) ++ (codes " HTTP/1.1" ++ cr ∷ lf ∷ [])) (sym m.split)
      ∙ line_is in
    let ((b, u), parsed) = set_string_ends (t ∷ ts) q0.uri in
    let whole = e ∙ ap (λ l. l ++ r) (sym line_is') ∙ line_split m.letter t m.letters ts r in
    let words =
      take_words_lem m.letter t m.letters ts (codes "HTTP/1.1") r (contents c) m.no_space space_free
        refl m.short short (omega arith) whole in
    let size = length-line m.letter t m.letters ts in
    let uri = c_str-Lacks (t ∷ ts) nul_free in
    (
      b,
      u,
      parsed,
      ap (λ f. take_words c.len f >>= λ w. set_words sscanf w q0) (byte_at-contents v)
          ∙ ap (λ i. take_words i (get_elem? (contents c)) >>= λ w. set_words sscanf w q0)
              (sym (length-contents c))
          ∙ ap (λ o. o >>= λ w. set_words sscanf w q0) words
          ∙ set_words_lem sscanf q0 k b u m.letter m.letters (t ∷ ts) _ m.found
              (ap (λ x. set_string x q0.uri) uri ∙ parsed)
          ∙ ap (λ i. some (i, received sscanf k q0 u)) (sym size ∙ ap length line_is'),
    )
