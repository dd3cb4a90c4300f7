-- ===== src/Dispatcher/Removal.antt =====
-- The walk over the listeners in src/EventDispatcher.cpp while the listeners remove listeners.
use jhcommon.Prelude.{
  ℕ, zero, suc, ◌+◌, ◌≤◌, ◌<◌, ◌∙◌, true, false, Bool-cases, inl, inr, ◌≡◌, refl, ap, Option, some,
  List, [], ◌∷◌, ◌++◌, length, length-append, All, arith,
}
use jhcommon.Prelude.Int.{ℤ}
use jhcommon.Event.{Event}
use jhcommon.Dispatcher.{
  ListenerNode, Change, add_listener, remove_listener, is_node, clear_first, Walk, change, changes,
  wants, lookup_from, lookup_listeners,
}
use jhcommon.Dispatcher.Lookup.{callees, listener-cases}

-- The first list is the second with some of its entries left out.
pub data Sub : List ℕ → List ℕ → Type 0 where
  done : Sub [] []
  keep : (l : ℕ) (xs ys : List ℕ) → Sub xs ys → Sub (l ∷ xs) (l ∷ ys)
  skip : (l : ℕ) (xs ys : List ℕ) → Sub xs ys → Sub xs (l ∷ ys)

Sub-refl : (xs : List ℕ) → Sub xs xs
Sub-refl [] = done
Sub-refl (l ∷ xs) = keep l xs xs (Sub-refl xs)

Sub-trans : (xs ys zs : List ℕ) → Sub xs ys → Sub ys zs → Sub xs zs
Sub-trans xs ys zs s done = s
Sub-trans xs ys zs s (skip l ys1 zs1 t) = skip l xs zs1 (Sub-trans xs ys1 zs1 s t)
Sub-trans xs ys zs (keep _ xs1 _ s) (keep l ys1 zs1 t) = keep l xs1 zs1 (Sub-trans xs1 ys1 zs1 s t)
Sub-trans xs ys zs (skip _ _ _ s) (keep l ys1 zs1 t) = skip l xs zs1 (Sub-trans xs ys1 zs1 s t)

abbrev pub IsRemoval : Change → Type 0
IsRemoval (add_listener l id) = ⊥
IsRemoval (remove_listener l id) = Unit {0}

length-clear_first :
    (l : ℕ) (id : ℤ) (ns : List ListenerNode) → length (clear_first l id ns).1 ≡ length ns
unfolding clear_first
length-clear_first l id [] = refl
length-clear_first l id (n ∷ ns) = elim (Bool-cases (is_node l id n)) [
  | inl e ↦ rw e refl
  | inr e ↦ rw e (ap suc (length-clear_first l id ns))
]

cons-Sub :
    (ev : Event) (n : ListenerNode) (xs ys : List ListenerNode)
    → Sub (callees ev xs) (callees ev ys)
    → Sub (callees ev (n ∷ xs)) (callees ev (n ∷ ys))
cons-Sub ev n xs ys s = elim (listener-cases n.listener) [
  | inl dead ↦ rw dead s
  | inr (l, alive) ↦ elim (Bool-cases (wants ev n)) [
    | inl e ↦ rw (alive, e) (keep l (callees ev xs) (callees ev ys) s)
    | inr e ↦ rw (alive, e) s
  ]
]

tail-Sub :
    (ev : Event) (n : ListenerNode) (ns : List ListenerNode)
    → Sub (callees ev ns) (callees ev (n ∷ ns))
tail-Sub ev n ns =
    let same = Sub-refl (callees ev ns) in
    elim (listener-cases n.listener) [
      | inl dead ↦ rw dead same
      | inr (l, alive) ↦ elim (Bool-cases (wants ev n)) [
        | inl e ↦ rw (alive, e) (skip l (callees ev ns) (callees ev ns) same)
        | inr e ↦ rw (alive, e) same
      ]
    ]

clear_first-Sub :
    (ev : Event) (l : ℕ) (id : ℤ) (ns : List ListenerNode)
    → Sub (callees ev (clear_first l id ns).1) (callees ev ns)
unfolding clear_first
clear_first-Sub ev l id [] = done
clear_first-Sub ev l id (n ∷ ns) = elim (Bool-cases (is_node l id n)) [
  | inl e ↦ rw e (tail-Sub ev n ns)
  | inr e ↦ rw e (cons-Sub ev n (clear_first l id ns).1 ns (clear_first-Sub ev l id ns))
]

-- What removals during a walk leave as it is.
record Shrinks (ev : Event) (w v : Walk) : Type 0 where
  same_passed : length v.passed ≡ length w.passed
  same_ahead : length v.ahead ≡ length w.ahead
  sub_ahead : Sub (callees ev v.ahead) (callees ev w.ahead)

change-Shrinks : (ev : Event) (c : Change) (w : Walk) → IsRemoval c → Shrinks ev w (change c w)
change-Shrinks ev (add_listener l id) w r = absurd r
change-Shrinks ev (remove_listener l id) w r = elim (Bool-cases (clear_first l id w.passed).0) [
  | inl e ↦ rw e (record {
    same_passed = length-clear_first l id w.passed;
    same_ahead = refl;
    sub_ahead = Sub-refl (callees ev w.ahead);
  })
  | inr e ↦ rw e (record {
    same_passed = refl;
    same_ahead = length-clear_first l id w.ahead;
    sub_ahead = clear_first-Sub ev l id w.ahead;
  })
]

changes-Shrinks :
    (ev : Event) (cs : List Change) (w : Walk) → All IsRemoval cs → Shrinks ev w (changes cs w)
changes-Shrinks ev [] w r = record {
  same_passed = refl;
  same_ahead = refl;
  sub_ahead = Sub-refl (callees ev w.ahead);
}
changes-Shrinks ev (c ∷ cs) w r =
    let one = change-Shrinks ev c w r.0 in
    let more = changes-Shrinks ev cs (change c w) r.1 in
    record {
      same_passed = more.same_passed ∙ one.same_passed;
      same_ahead = more.same_ahead ∙ one.same_ahead;
      sub_ahead =
          Sub-trans (callees ev (changes cs (change c w)).ahead) (callees ev (change c w).ahead)
            (callees ev w.ahead) more.sub_ahead one.sub_ahead;
    }

-- A walk that ended, with calls among those of the nodes that were before it.
pub record Walked (ev : Event) (passed ns : List ListenerNode)
    (walk : Option (List ListenerNode × List ℕ)) : Type 0 where
  pub kept : List ListenerNode
  pub calls : List ℕ
  pub gives : walk ≡ some (kept, calls)
  pub bounded : length kept ≤ length passed + length ns
  pub calls-Sub : Sub calls (callees ev ns)

module _ (react : ℕ → Event → List Change) where
  Walked-call :
      (ev : Event) (fuel : ℕ) (passed : List ListenerNode) (n : ListenerNode)
      → (ns : List ListenerNode) (l : ℕ) → n.listener ≡ some l
      → wants ev n ≡ true
      → Shrinks ev
          (record { passed = passed ++ n ∷ []; ahead = ns })
          (changes (react l ev) (record { passed = passed ++ n ∷ []; ahead = ns }))
      → Walked ev
          (changes (react l ev) (record { passed = passed ++ n ∷ []; ahead = ns })).passed
          (changes (react l ev) (record { passed = passed ++ n ∷ []; ahead = ns })).ahead
          (lookup_from react fuel ev
            (changes (react l ev) (record { passed = passed ++ n ∷ []; ahead = ns })).passed
            (changes (react l ev) (record { passed = passed ++ n ∷ []; ahead = ns })).ahead)
      → Walked ev passed (n ∷ ns) (lookup_from react (suc fuel) ev passed (n ∷ ns))
  unfolding lookup_from
  Walked-call ev fuel passed n ns l alive e s r =
      let v = changes (react l ev) (record { passed = passed ++ n ∷ []; ahead = ns }) in
      let more = length-append passed (n ∷ []) in
      let p = s.same_passed in
      let a = s.same_ahead in
      let b = r.bounded in
      record {
        kept = r.kept;
        calls = l ∷ r.calls;
        gives = rw (alive, e, r.gives) refl;
        bounded = omega arith;
        calls-Sub =
            rw (alive, e)
              (keep l r.calls (callees ev ns)
                (Sub-trans r.calls (callees ev v.ahead) (callees ev ns) r.calls-Sub s.sub_ahead));
      }

  Walked-pass :
      (ev : Event) (fuel : ℕ) (passed : List ListenerNode) (n : ListenerNode)
      → (ns : List ListenerNode) (l : ℕ) → n.listener ≡ some l
      → wants ev n ≡ false
      → Walked ev (passed ++ n ∷ []) ns (lookup_from react fuel ev (passed ++ n ∷ []) ns)
      → Walked ev passed (n ∷ ns) (lookup_from react (suc fuel) ev passed (n ∷ ns))
  unfolding lookup_from
  Walked-pass ev fuel passed n ns l alive e r =
      let more = length-append passed (n ∷ []) in
      let b = r.bounded in
      record {
        kept = r.kept;
        calls = r.calls;
        gives = rw (alive, e) r.gives;
        bounded = omega arith;
        calls-Sub = rw (alive, e) r.calls-Sub;
      }

  lookup_from-Walked :
      (ev : Event) (fuel : ℕ) (passed ns : List ListenerNode)
      → ((l : ℕ) → All IsRemoval (react l ev))
      → length ns < fuel
      → Walked ev passed ns (lookup_from react fuel ev passed ns)
  unfolding lookup_from
  lookup_from-Walked ev zero passed ns only h = elim h [ ]
  lookup_from-Walked ev (suc fuel) passed [] only h = record {
    kept = passed;
    calls = [];
    gives = refl;
    bounded = omega arith;
    calls-Sub = done;
  }
  lookup_from-Walked ev (suc fuel) passed (n ∷ ns) only h = elim (listener-cases n.listener) [
    | inl dead ↦
        let r = lookup_from-Walked ev fuel passed ns only (omega arith) in
        let b = r.bounded in
        record {
          kept = r.kept;
          calls = r.calls;
          gives = rw dead r.gives;
          bounded = omega arith;
          calls-Sub = rw dead r.calls-Sub;
        }
    | inr (l, alive) ↦ elim (Bool-cases (wants ev n)) [
      | inl e ↦
          let w : Walk = record { passed = passed ++ n ∷ []; ahead = ns } in
          let v = changes (react l ev) w in
          let s = changes-Shrinks ev (react l ev) w (only l) in
          let a = s.same_ahead in
          Walked-call ev fuel passed n ns l alive e s
            (lookup_from-Walked ev fuel v.passed v.ahead only (omega arith))
      | inr e ↦
          Walked-pass ev fuel passed n ns l alive e
            (lookup_from-Walked ev fuel (passed ++ n ∷ []) ns only (omega arith))
    ]
  ]

-- Where the listeners that are called only remove listeners, the walk of `lookupListeners` ends
-- with a step for each node and one more; it calls, in order, some of the listeners that were live
-- and wanted the event when it started, and no other, and leaves no more nodes than there were.
pub lookup_listeners-Walked :
    (react : ℕ → Event → List Change) (ev : Event) (fuel : ℕ) (ns : List ListenerNode)
    → ((l : ℕ) → All IsRemoval (react l ev))
    → length ns < fuel
    → Walked ev [] ns (lookup_listeners react fuel ev ns)
unfolding lookup_listeners
lookup_listeners-Walked react ev fuel ns only h = lookup_from-Walked react ev fuel [] ns only h
