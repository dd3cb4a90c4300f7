-- ===== src/Dispatcher/Lookup.antt =====
-- The walk over the listeners in src/EventDispatcher.cpp.
use jhcommon.Prelude.{
  ℕ, zero, suc, ◌<◌, Bool-cases, inl, inr, ◌≡◌, ◌⊎◌, refl, Option, none, some, List, [], ◌∷◌, ◌++◌,
  append_assoc, append-nil, if◌then◌else◌, length, arith,
}
use jhcommon.Event.{Event}
use jhcommon.Dispatcher.{ListenerNode, Change, wants, lookup_from, lookup_listeners}

abbrev pub live : List ListenerNode → List ListenerNode
live [] = []
live (n ∷ ns) = elim n.listener [ none ↦ live ns | some l ↦ n ∷ live ns ]

abbrev pub callees : Event → List ListenerNode → List ℕ
callees ev [] = []
callees ev (n ∷ ns) = elim n.listener [
  | none ↦ callees ev ns
  | some l ↦ if wants ev n then l ∷ callees ev ns else callees ev ns
]

pub listener-cases : (o : Option ℕ) → (o ≡ none) ⊎ ((l : ℕ) × (o ≡ some l))
listener-cases none = inl refl
listener-cases (some l) = inr (l, refl)

snoc-append :
    (ps : List ListenerNode) (n : ListenerNode) (ns : List ListenerNode)
    → (ps ++ n ∷ []) ++ ns ≡ ps ++ n ∷ ns
snoc-append ps n ns = append_assoc ps (n ∷ []) ns

module _ (react : ℕ → Event → List Change) where
  lookup_from-quiet :
      (ev : Event) (fuel : ℕ) (passed ns : List ListenerNode)
      → ((l : ℕ) → react l ev ≡ [])
      → length ns < fuel
      → lookup_from react fuel ev passed ns ≡ some (passed ++ live ns, callees ev ns)
  unfolding lookup_from
  lookup_from-quiet ev zero passed ns quiet h = elim h [ ]
  lookup_from-quiet ev (suc fuel) passed [] quiet h = rw (append-nil passed) refl
  lookup_from-quiet ev (suc fuel) passed (n ∷ ns) quiet h = elim (listener-cases n.listener) [
    | inl dead ↦ rw dead (lookup_from-quiet ev fuel passed ns quiet (omega arith))
    | inr (l, alive) ↦
        let rest = lookup_from-quiet ev fuel (passed ++ n ∷ []) ns quiet (omega arith) in
        elim (Bool-cases (wants ev n)) [
          | inl e ↦ rw (alive, e, quiet l, rest, snoc-append passed n (live ns)) refl
          | inr e ↦ rw (alive, e, rest, snoc-append passed n (live ns)) refl
        ]
  ]

-- Where no listener that is called adds or removes any, the walk of `lookupListeners` ends with a
-- step for each node and one more, calls exactly the live listeners for the event's id or for all
-- events, in the order they were added, and leaves the live nodes in their order.
pub lookup_listeners_lem :
    (react : ℕ → Event → List Change) (ev : Event) (fuel : ℕ) (ns : List ListenerNode)
    → ((l : ℕ) → react l ev ≡ [])
    → length ns < fuel
    → lookup_listeners react fuel ev ns ≡ some (live ns, callees ev ns)
unfolding lookup_listeners
lookup_listeners_lem react ev fuel ns quiet h = lookup_from-quiet react ev fuel [] ns quiet h
