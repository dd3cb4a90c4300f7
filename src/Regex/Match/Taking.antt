-- ===== src/Regex/Match/Taking.antt =====
-- src/Regex.cpp: what the loops of `processElement` do at a terminal or a class.
use jhcommon.Prelude.{
  ℕ, zero, suc, ◌+◌, ◌-◌, ◌≤◌, ◌<◌, ◌≡◌, refl, sym, ◌∙◌, ap, Bool, true, false, not, some, List, [],
  length, drop, length-drop, get_elem?, arith, tests, ltb, leb, if◌then◌else◌, Bool-cases, inl, inr,
}
use mathlib.Core.Path.{subst}
use jhcommon.Prelude.Text.{Text}
use jhcommon.Regex.{Run, ok, ◌>>=◌, Element, Elements, elem_at, char_at, defined}
use jhcommon.Regex.Match.{advance, process_terminal, repeat_while, take_one_more, try_from}
use jhcommon.Regex.Groups.{GroupData, ParseData, backtrack_groups}
use jhcommon.Regex.Match.Greedy.{
  first_char, run_length, taken, moved, found, char_at-drop, repeat_while-run,
}
use jhcommon.Regex.Match.Rounds.{
  consumed, run_length-more, if_true, if_false, taken-le, consumed-more, consumed-all, Ends,
  bind-Ends, backtrack_groups-Ends,
}

module _ (s : Text) (t : Elements) (cur : ℕ) (e : Element) (p : ℕ → Bool)
    (at : get_elem? t cur ≡ some e)
    (test : (i c : ℕ) → char_at s i ≡ ok c → process_terminal s t cur i ≡ ok (p c))
    (stops : p 0 ≡ false) where
  -- what the inner loop takes, and whether the element accepts one more
  abbrev count_at : ParseData → ℕ
  count_at d = taken e.repeat_max 0 (run_length p (drop d.cur_pos s))

  abbrev more_at : ParseData → Bool
  more_at d = p (first_char (drop (count_at d) (drop d.cur_pos s)))

  -- one round of the outer loop, behind the inner one
  abbrev after_run : ℕ → ℕ → Bool → ParseData → Run (Bool × ParseData)
  after_run fuel start more d =
      if more
      then ok (take_one_more e.repeat_min d)
      else if leb e.repeat_min d.match_count
      then ok (true, d)
      else if not (ltb d.backtrack_pos start)
      then ok (false, d)
      else do
        gs ← backtrack_groups d.groups (start - 1)
        try_from fuel s cur (start - 1) (record d { cur_pos = start - 1; groups = gs })

  abbrev end_at : Bool → ParseData → ParseData
  end_at true d = record (advance d) {
    backtrack_pos = suc d.cur_pos - (suc d.match_count - e.repeat_min);
  }
  end_at false d = d

  after_run-enough :
      (fuel start : ℕ) (more : Bool) (d : ParseData)
      → leb e.repeat_min d.match_count ≡ true
      → after_run fuel start more d ≡ ok (true, end_at more d)
  unfolding take_one_more
  after_run-enough fuel start true d l = rw l refl
  after_run-enough fuel start false d l = rw l refl

  after_run-Ends :
      (fuel start : ℕ) (more : Bool) (d : ParseData)
      → start < suc fuel
      → start ≤ length s
      → ((gs : List GroupData)
          → 0 < start
          → Ends (try_from fuel s cur (start - 1) (record d { cur_pos = start - 1; groups = gs })))
      → Ends (after_run fuel start more d)
  after_run-Ends fuel start true d f l k = tt
  after_run-Ends fuel start false d f l k = elim (Bool-cases (leb e.repeat_min d.match_count)) [
    | inl m ↦ rw m tt
    | inr m ↦ elim (Bool-cases (ltb d.backtrack_pos start)) [
      | inr b ↦ rw (m, b) tt
      | inl b ↦
          rw (m, b)
            (bind-Ends _ _ (backtrack_groups-Ends d.groups (start - 1))
              (λ gs. k gs (omega (tests, b))))
    ]
  ]

  after_run-back :
      (fuel start : ℕ) (d : ParseData)
      → leb e.repeat_min d.match_count ≡ false
      → ltb d.backtrack_pos start ≡ true
      → d.groups ≡ []
      → after_run fuel start false d
        ≡ try_from fuel s cur (start - 1) (record d { cur_pos = start - 1; groups = [] })
  unfolding backtrack_groups
  after_run-back fuel start d l b gs = simp (l, b, gs) refl

  after_run-short :
      (fuel start : ℕ) (more : Bool) (d : ParseData)
      → leb e.repeat_min d.match_count ≡ false
      → ltb d.backtrack_pos start ≡ false
      → after_run fuel start more d ≡ ok (false, d)
  unfolding take_one_more
  after_run-short fuel start true d l b = rw l refl
  after_run-short fuel start false d l b = rw (l, b) refl

  try_from-step :
      (fuel start : ℕ) (d d1 : ParseData) (res more : Bool)
      → elem_at d.tree cur ≡ ok e
      → process_terminal s d.tree cur d.cur_pos ≡ ok res
      → repeat_while (suc (suc (length s))) s cur (record d { match_count = 0 }) res ≡ found more d1
      → try_from (suc fuel) s cur start d ≡ after_run fuel start more d1
  unfolding try_from
  try_from-step fuel start d d1 res more l r w = rw (l, r, w) refl

  try_from-round :
      (fuel start : ℕ) (d : ParseData)
      → d.tree ≡ t
      → d.cur_pos ≤ length s
      → try_from (suc fuel) s cur start d
        ≡ after_run fuel start (more_at d) (moved (count_at d) (record d { match_count = 0 }))
  try_from-round fuel start d dt h =
      let rd = test d.cur_pos _ (char_at-drop s d.cur_pos h) in
      let short : length (drop d.cur_pos s) < suc (suc (length s)) =
        omega (arith, length-drop d.cur_pos s) in
      try_from-step fuel start d _ _ _ (ap (λ x. elem_at x cur) dt ∙ ap defined at)
        (ap (λ x. process_terminal s x cur d.cur_pos) dt ∙ rd)
        (repeat_while-run s t cur e p at test stops (drop d.cur_pos s) (suc (suc (length s)))
          (record d { match_count = 0 }) dt refl h short)

  pub try_from-takes :
      (fuel start : ℕ) (d : ParseData)
      → d.tree ≡ t
      → d.cur_pos ≤ length s
      → e.repeat_min ≤ count_at d
      → (g : ParseData) × (try_from (suc fuel) s cur start d ≡ ok (true, g))
        × (g.cur_pos ≡ d.cur_pos + consumed e.repeat_max (run_length p (drop d.cur_pos s)))
        × (g.groups ≡ d.groups)
        × (g.tree ≡ d.tree)
        × (g.backtrack_pos ≡ (
            if ltb (count_at d) (run_length p (drop d.cur_pos s))
            then d.cur_pos + e.repeat_min
            else d.backtrack_pos))
  try_from-takes fuel start d dt h low =
      let low0 : leb e.repeat_min (0 + count_at d) ≡ true = ground arith in
      let m =
        run_length-more p (drop d.cur_pos s) (count_at d) stops
          (taken-le e.repeat_max (run_length p (drop d.cur_pos s))) in
      let round =
        try_from-round fuel start d dt h
        ∙ after_run-enough fuel start (more_at d)
            (moved (count_at d) (record d { match_count = 0 })) low0 in
      elim (Bool-cases (more_at d)) [
        | inl k ↦
            let c = consumed-more e.repeat_max (run_length p (drop d.cur_pos s)) (sym m ∙ k) in
            (
              end_at true (moved (count_at d) (record d { match_count = 0 })),
              round ∙ rw k refl,
              omega (arith, c),
              refl,
              refl,
              if_true d.backtrack_pos _ (sym m ∙ k) (omega arith),
            )
        | inr k ↦
            let c = consumed-all e.repeat_max (run_length p (drop d.cur_pos s)) (sym m ∙ k) in
            (
              end_at false (moved (count_at d) (record d { match_count = 0 })),
              round ∙ rw k refl,
              omega (arith, c),
              refl,
              refl,
              if_false (d.cur_pos + e.repeat_min) _ (sym m ∙ k) refl,
            )
      ]

  -- An element that falls short and may go back is tried one place to the left.
  pub try_from-back :
      (fuel start : ℕ) (d : ParseData)
      → d.tree ≡ t
      → d.cur_pos ≤ length s
      → count_at d < e.repeat_min
      → more_at d ≡ false
      → d.backtrack_pos < start
      → d.groups ≡ []
      → try_from (suc fuel) s cur start d
        ≡ try_from fuel s cur
            (start - 1)
            (record d { cur_pos = start - 1; groups = []; match_count = 0 + count_at d })
  try_from-back fuel start d dt h low miss back gs =
      let low0 : leb e.repeat_min (0 + count_at d) ≡ false = ground arith in
      let b : ltb d.backtrack_pos start ≡ true = ground arith in
      try_from-round fuel start d dt h
      ∙ ap (λ x. after_run fuel start x (moved (count_at d) (record d { match_count = 0 }))) miss
      ∙ after_run-back fuel start (moved (count_at d) (record d { match_count = 0 })) low0 b gs

  pub try_from-short :
      (fuel start : ℕ) (d : ParseData)
      → d.tree ≡ t
      → d.cur_pos ≤ length s
      → count_at d < e.repeat_min
      → start ≤ d.backtrack_pos
      → (g : ParseData) × (try_from (suc fuel) s cur start d ≡ ok (false, g))
  try_from-short fuel start d dt h low back =
      let low0 : leb e.repeat_min (0 + count_at d) ≡ false = ground arith in
      let b : ltb d.backtrack_pos start ≡ false = ground arith in
      (
        _,
        try_from-round fuel start d dt h
            ∙ after_run-short fuel start (more_at d)
                (moved (count_at d) (record d { match_count = 0 })) low0 b,
      )

  -- The loops end: each round goes one place to the left.
  pub try_from-Ends :
      (fuel start : ℕ) (d : ParseData)
      → d.tree ≡ t
      → d.cur_pos ≤ length s
      → start < fuel
      → start ≤ length s
      → Ends (try_from fuel s cur start d)
  try_from-Ends zero start d dt h f l = absurd (omega arith)
  try_from-Ends (suc fuel) start d dt h f l = subst Ends (sym (try_from-round fuel start d dt h)) (
      after_run-Ends fuel start (more_at d) (moved (count_at d) (record d { match_count = 0 })) f l
        (λ gs k.
          try_from-Ends fuel (start - 1)
            (record (moved (count_at d) (record d { match_count = 0 })) {
              cur_pos = start - 1;
              groups = gs;
            })
            dt (omega arith) (omega arith) (omega arith)))
