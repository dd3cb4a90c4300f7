-- ===== src/Timer/Order.antt =====
-- The order of the pending list of src/Timer.cpp. The 32-bit tick wraps, so the order is that of the
-- distance from a base tick, and it is sound while all distances are below 2^31.
use jhcommon.Prelude.{
  ℕ, ◌≤◌, ◌<◌, ◌≡◌, refl, ap, inl, inr, List, [], ◌∷◌, ◌++◌, leb, All, arith, Bool-cases,
}
use jhcommon.Timer.{TimerNode, add_node, diff, u32, i32_limit}

-- how far a node lies ahead of the base tick
abbrev pub key : ℕ → TimerNode → ℕ
key base n = diff n.tick base

abbrev pub InWindow : ℕ → TimerNode → Type 0
InWindow base n = (n.tick < u32) × (key base n < i32_limit)

-- sorted by distance from the base, all distances from `lo` on and in the window
abbrev pub SortedFrom : ℕ → ℕ → List TimerNode → Type 0
SortedFrom base lo [] = Unit {0}
SortedFrom base lo (x ∷ xs) = (lo ≤ key base x) × InWindow base x × SortedFrom base (key base x) xs

pub SortedFrom-weaken :
    (base lo lo' : ℕ) (l : List TimerNode) → lo' ≤ lo → SortedFrom base lo l → SortedFrom base lo' l
SortedFrom-weaken base lo lo' [] h s = tt
SortedFrom-weaken base lo lo' (x ∷ xs) h s = (omega arith, s.1, s.2)

-- `addTimerNode` keeps the list sorted.
pub add_node-SortedFrom :
    (base lo : ℕ) (new : TimerNode) (l : List TimerNode)
    → base < u32
    → InWindow base new
    → lo ≤ key base new
    → SortedFrom base lo l
    → SortedFrom base lo (add_node new l)
unfolding add_node
add_node-SortedFrom base lo new [] hb hn h s = (h, hn, tt)
add_node-SortedFrom base lo new (x ∷ xs) hb hn h s =
    elim (Bool-cases (leb i32_limit (diff new.tick x.tick))) [
      | inl sooner ↦ rw sooner (h, hn, (ground arith, s.1, s.2))
      | inr later ↦
          rw later (s.0, s.1, add_node-SortedFrom base (key base x) new xs hb hn ground arith s.2)
    ]

-- Where `addTimerNode` puts a node: behind all that are due no later, and before all that are due later.
pub record Inserted (base : ℕ) (new : TimerNode) (l l' : List TimerNode) : Type 0 where
  pub before : List TimerNode
  pub behind : List TimerNode
  pub old : l ≡ before ++ behind
  pub now : l' ≡ before ++ new ∷ behind
  pub no_later : All (λ x. key base x ≤ key base new) before
  pub later : All (λ x. key base new < key base x) behind

pub SortedFrom-All :
    (base lo : ℕ) (k : ℕ) (l : List TimerNode)
    → k < lo
    → SortedFrom base lo l
    → All (λ x. k < key base x) l
SortedFrom-All base lo k [] h s = tt
SortedFrom-All base lo k (x ∷ xs) h s =
    (omega arith, SortedFrom-All base (key base x) k xs (omega arith) s.2)

-- `addTimerNode` keeps the order of the nodes, and is fair: a node goes behind those of the same tick.
pub add_node-Inserted :
    (base lo : ℕ) (new : TimerNode) (l : List TimerNode)
    → base < u32
    → InWindow base new
    → SortedFrom base lo l
    → Inserted base new l (add_node new l)
unfolding add_node
add_node-Inserted base lo new [] hb hn s = record {
  before = [];
  behind = [];
  old = refl;
  now = refl;
  no_later = tt;
  later = tt;
}
add_node-Inserted base lo new (x ∷ xs) hb hn s =
    elim (Bool-cases (leb i32_limit (diff new.tick x.tick))) [
      | inl sooner ↦ rw sooner (record {
        before = [];
        behind = x ∷ xs;
        old = refl;
        now = refl;
        no_later = tt;
        later =
            let h : key base new < key base x = ground arith in
            (h, SortedFrom-All base (key base x) (key base new) xs h s.2);
      })
      | inr later ↦
          let rest = add_node-Inserted base (key base x) new xs hb hn s.2 in
          rw later (record {
            before = x ∷ rest.before;
            behind = rest.behind;
            old = ap (◌∷◌ x) rest.old;
            now = ap (◌∷◌ x) rest.now;
            no_later = (ground arith, rest.no_later);
            later = rest.later;
          })
    ]
