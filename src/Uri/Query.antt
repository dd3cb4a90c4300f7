-- ===== src/Uri/Query.antt =====
-- `buildQuery` and `parseQuery` of src/URI.cpp, each the inverse of the other.
use jhcommon.Prelude.{
  ℕ, zero, suc, ◌+◌, ◌==◌, false, ◌<◌, ◌≤◌, ◌≡◌, refl, sym, ap, ◌∙◌, true, some, List, [], ◌∷◌,
  ◌++◌, length, drop, arith, append_assoc, append-nil, All, Option-cases, Bool-cases, inl, inr,
  length-append, Bool,
}
use jhcommon.Prelude.Text.{
  Text, Lacks, find, find-at, find-none, slice, slice-at, drop-at, find-bounds,
}
use jhcommon.Uri.{
  QueryParam, Uri, equals, ampersand, query_text, params_from, parse_query, build_query, is_empty,
}
use jhcommon.Uri.Access.{get_query, set_query}

abbrev pub param_text : QueryParam → Text
param_text p = p.key ++ equals ∷ p.param

-- the parameters behind the first one
abbrev pub more_text : List QueryParam → Text
more_text [] = []
more_text (p ∷ ps) = ampersand ∷ param_text p ++ more_text ps

abbrev pub joined : List QueryParam → Text
joined [] = []
joined (p ∷ ps) = param_text p ++ more_text ps

-- A key ends at the first '=', a value at the first '&'.
abbrev pub IsPlain : QueryParam → Type 0
IsPlain p = Lacks equals p.key × Lacks ampersand p.param

query_text-more :
    (i : ℕ) (str : Text) (ps : List QueryParam) → query_text (suc i) str ps ≡ str ++ more_text ps
unfolding query_text
query_text-more i str [] = sym (append-nil str)
query_text-more i str (p ∷ ps) =
    let later : (suc i == 0) ≡ false = ground arith in
    rw later (
      query_text-more (suc i) ((((str ++ ampersand ∷ []) ++ p.key) ++ equals ∷ []) ++ p.param) ps
      ∙ (simp append_assoc))

pub query_text-joined : (ps : List QueryParam) → query_text 0 [] ps ≡ joined ps
unfolding query_text
query_text-joined [] = refl
query_text-joined (p ∷ ps) =
    query_text-more 0 ((p.key ++ equals ∷ []) ++ p.param) ps ∙ (simp append_assoc)

-- What the loop reads of the parameter `p` at start, with r behind it.
module _ (start : ℕ) (s : Text) (p : QueryParam) (r : Text) (ok : IsPlain p)
    (e : drop start s ≡ param_text p ++ r) where
  key_first : drop start s ≡ p.key ++ equals ∷ (p.param ++ r)
  key_first = e ∙ append_assoc p.key (equals ∷ p.param) r

  find-key : find equals start s ≡ some (start + length p.key)
  find-key = find-at start s equals p.key (p.param ++ r) key_first ok.0

  slice-key : slice s start (start + length p.key) ≡ p.key
  slice-key = slice-at start s p.key (equals ∷ (p.param ++ r)) key_first

  drop-key : drop (start + length p.key + 1) s ≡ p.param ++ r
  drop-key = drop-at start s equals p.key (p.param ++ r) key_first

params_from-joined :
    (fuel start : ℕ) (s : Text) (acc : List QueryParam) (p : QueryParam) (ps : List QueryParam)
    → length ps < fuel
    → All IsPlain (p ∷ ps)
    → drop start s ≡ joined (p ∷ ps)
    → params_from fuel start s acc ≡ some (true, acc ++ p ∷ ps)
unfolding params_from
params_from-joined zero start s acc p ps h ok e = absurd (omega arith)
params_from-joined (suc fuel) start s acc p [] h ok e =
    let value = drop-key start s p [] ok.0 e ∙ append-nil p.param in
    let stop = find-none (start + length p.key + 1) s ampersand p.param value ok.0.1 in
    rw (find-key start s p [] ok.0 e, params_from, stop, slice-key start s p [] ok.0 e, value)
params_from-joined (suc fuel) start s acc p (q ∷ ps) h ok e =
    let rest = joined (q ∷ ps) in
    let at = start + length p.key + 1 in
    let value = drop-key start s p (ampersand ∷ rest) ok.0 e in
    let next = at + length p.param + 1 in
    let behind = drop-at at s ampersand p.param rest value in
    let tail = params_from-joined fuel next s (acc ++ p ∷ []) q ps (omega arith) ok.1 behind in
    rw
      (
        find-key start s p (ampersand ∷ rest) ok.0 e,
        params_from,
        find-at at s ampersand p.param rest value ok.0.1,
        find-key next s q (more_text ps) ok.1.0 behind,
        slice-key start s p (ampersand ∷ rest) ok.0 e,
        slice-at at s p.param (ampersand ∷ rest) value,
      )
      (tail ∙ ap (λ a. some (true, a)) (append_assoc acc (p ∷ []) (q ∷ ps)))

length-more_text : (ps : List QueryParam) → length ps ≤ length (more_text ps)
length-more_text [] = omega arith
length-more_text (p ∷ ps) =
    omega (arith, length-more_text ps, length-append (param_text p) (more_text ps))

filled_behind : (x : Text) (c : ℕ) (y z : Text) → is_empty ((x ++ c ∷ y) ++ z) ≡ false
filled_behind [] c y z = refl
filled_behind (a ∷ x) c y z = refl

pub joined_filled : (p : QueryParam) (ps : List QueryParam) → is_empty (joined (p ∷ ps)) ≡ false
joined_filled p ps = filled_behind p.key equals (p.param) (more_text ps)

set_query-some :
    (u : Uri) (p : QueryParam) (ps : List QueryParam)
    → All IsPlain (p ∷ ps)
    → set_query (joined (p ∷ ps)) u
      ≡ some (
        true,
        record u {
          query_string = joined (p ∷ ps);
          modified_query = false;
          query_params = u.query_params ++ p ∷ ps;
        },
      )
unfolding parse_query
set_query-some u p ps ok =
    let text = joined (p ∷ ps) in
    let fuel : length ps < suc (length text) =
      omega (arith, length-more_text ps, length-append (param_text p) (more_text ps)) in
    let filled : is_empty text ≡ false = joined_filled p ps in
    rw (filled, params_from-joined (suc (length text)) 0 text u.query_params p ps fuel ok refl) refl

-- The parameters behind `setQuery` with the text of some: an empty text takes them all away.
abbrev pub appended : List QueryParam → List QueryParam → List QueryParam
appended old [] = []
appended old (p ∷ ps) = old ++ p ∷ ps

-- `setQuery`, and its `parseQuery`, on the text of parameters of which no key has '=' and no value
-- has '&': it ends, it returns true, the text is the query string, and the parameters are those that
-- were there followed by those of the text, where the text is not empty, and none where it is.
pub parse_query-joined :
    (u : Uri) (ps : List QueryParam)
    → All IsPlain ps
    → set_query (joined ps) u
      ≡ some (
        true,
        record u {
          query_string = joined ps;
          modified_query = false;
          query_params = appended u.query_params ps;
        },
      )
unfolding parse_query
parse_query-joined u [] ok = refl
parse_query-joined u (p ∷ ps) ok = set_query-some u p ps ok

pub set_query-joined :
    (u : Uri) (ps : List QueryParam)
    → All IsPlain ps
    → u.query_params ≡ []
    → set_query (joined ps) u
      ≡ some
          (true, record u { query_string = joined ps; modified_query = false; query_params = ps })
unfolding parse_query
set_query-joined u [] ok e = refl
set_query-joined u (p ∷ ps) ok e =
    set_query-some u p ps ok
    ∙ ap
        (λ old. some (
          true,
          record u {
            query_string = joined (p ∷ ps);
            modified_query = false;
            query_params = old ++ p ∷ ps;
          },
        ))
        e

pub build_query-joined :
    (u : Uri)
    → u.modified_query ≡ true
    → build_query u ≡ record u { query_string = joined u.query_params; modified_query = false }
build_query-joined u flag = rw (flag, query_text-joined u.query_params) refl

-- The text that `buildQuery` makes of parameters of which no key has '=' and no value has '&' is
-- parsed to the same parameters, by a URI that has none.
pub parse_query-build_query :
    (u v : Uri)
    → v.modified_query ≡ true
    → All IsPlain v.query_params
    → u.query_params ≡ []
    → set_query (get_query v).0 u
      ≡ some (
        true,
        record u {
          query_string = joined v.query_params;
          modified_query = false;
          query_params = v.query_params;
        },
      )
parse_query-build_query u v flag ok none_yet =
    ap (λ w. set_query w.query_string u) (build_query-joined v flag)
    ∙ set_query-joined u v.query_params ok none_yet

-- The loop ends on every text: it takes one round for each '='.
params_from_ends :
    (fuel start : ℕ) (s : Text) (acc : List QueryParam)
    → start ≤ length s
    → length s < start + fuel
    → (r : Bool × List QueryParam) × (params_from fuel start s acc ≡ some r)
unfolding params_from
params_from_ends zero start s acc le h = absurd (omega arith)
params_from_ends (suc fuel) start s acc le h = elim (Option-cases (find equals start s)) [
  | inl e ↦ ((false, acc), rw (e, params_from) refl)
  | inr (off, e) ↦
      let read = λ (value : Text). acc ++ record { key = slice s start off; param = value } ∷ [] in
      elim (Option-cases (find ampersand (off + 1) s)) [
        | inl e' ↦ ((true, read (drop (off + 1) s)), rw (e, params_from, e') refl)
        | inr (amp, e') ↦
            let acc' = read (slice s (off + 1) amp) in
            elim (Option-cases (find equals (amp + 1) s)) [
              | inl e'' ↦ ((true, acc'), rw (e, params_from, e', e'') refl)
              | inr (eq, e'') ↦
                  let off_in = find-bounds equals start s e in
                  let amp_in = find-bounds ampersand (off + 1) s e' in
                  let r = params_from_ends fuel (amp + 1) s acc' (omega arith) (omega arith) in
                  (r.0, rw (e, params_from, e', e'') r.1)
            ]
      ]
]

-- `parseQuery` ends on every query string.
pub parse_query_ends : (u : Uri) → (r : Bool × Uri) × (parse_query u ≡ some r)
unfolding parse_query
parse_query_ends u = elim (Bool-cases (is_empty u.query_string)) [
  | inl e ↦ ((true, record u { modified_query = false; query_params = [] }), rw e refl)
  | inr e ↦
      let r =
        params_from_ends (suc (length u.query_string)) 0 u.query_string u.query_params (omega arith)
          (omega arith) in
      ((r.0.0, record u { modified_query = false; query_params = r.0.1 }), rw (e, r.1) refl)
]
