-- ===== src/Timer/Tick.antt =====
-- `handleTick` of src/Timer.cpp.
use jhcommon.Prelude.{
  ℕ, zero, suc, ◌+◌, ◌-◌, ◌*◌, ◌%◌, ◌≤◌, ◌<◌, ◌≡◌, ◌≢◌, refl, ap, inl, inr, List, [], ◌∷◌, ltb, leb,
  ◌==◌, if◌then◌else◌, All, arith, Bool-cases, dec_lt, ℕ_discrete, mod-eq_of_lt, mod-eq-sub-mod,
  ◌∙◌,
}
use jhcommon.Timer.{
  TimerNode, add_node, diff, u32, i32_limit, new_ticks, reschedule, in_future, requeue,
}
use jhcommon.Timer.Order.{key, InWindow, SortedFrom, add_node-SortedFrom, SortedFrom-weaken}

-- What the code keeps of a node's period; the bound keeps its sums below 2^32.
pub record IsReady (ms : ℕ) (n : TimerNode) : Type 0 where
  pub left : n.remaining_ms < ms
  pub bounded : n.repeat_ms + ms < i32_limit

-- The gap to the next tick of a periodic node and the leftover that it starts from make up the
-- period, within one tick.
pub new_ticks_bounds :
    (ms : ℕ) (n : TimerNode)
    → IsReady ms n
    → (n.repeat_ms ≤ new_ticks ms n * ms + n.remaining_ms)
      × (new_ticks ms n * ms + n.remaining_ms < n.repeat_ms + ms)
new_ticks_bounds ms n h =
    let m : (n.repeat_ms + ms + u32 - 1 + u32 - n.remaining_ms) % u32
        ≡ n.repeat_ms + ms - 1 - n.remaining_ms =
      omega arith in
    rw m (grind arith)

new_ticks_lt : (ms : ℕ) (n : TimerNode) → IsReady ms n → new_ticks ms n + 1 < i32_limit
new_ticks_lt ms n h = grind (arith, new_ticks_bounds ms n h)

pub in_future-key :
    (base : ℕ) (n : TimerNode)
    → base < u32
    → InWindow base n
    → in_future ((base + 1) % u32) n ≡ ltb 1 (key base n)
in_future-key base n hb hn = ground arith

reschedule-IsReady : (ms : ℕ) (n : TimerNode) → IsReady ms n → IsReady ms (reschedule ms n)
reschedule-IsReady ms n h = grind arith

key-reschedule :
    (base ms : ℕ) (n : TimerNode)
    → base < u32
    → InWindow base n
    → key base n ≤ 1
    → IsReady ms n
    → InWindow base (reschedule ms n) × (key base (reschedule ms n) ≡ key base n + new_ticks ms n)
key-reschedule base ms n hb hn k h = let g = new_ticks_lt ms n h in shifted (new_ticks ms n) g
  where
    shifted :
        (g : ℕ)
        → g + 1 < i32_limit
        → (InWindow base (record n { tick = (n.tick + g) % u32 }))
          × (diff ((n.tick + g) % u32) base ≡ key base n + g)
    shifted g h = omega arith

-- How often a node can still fire in this tick, at most, by its distance, period and leftover: a
-- period no longer than the leftover leaves the node where it is.
abbrev stays : ℕ → ℕ → ℕ → ℕ
stays ms rep rem = if leb rep rem then 1 + ms - rem else 0

abbrev weight_at : ℕ → ℕ → ℕ → ℕ → ℕ
weight_at ms k rep rem =
    if ltb 1 k then 0 else if rep == 0 then 1 else 1 + (1 - k) * (ms + 1) + stays ms rep rem

abbrev pub weight : ℕ → ℕ → TimerNode → ℕ
weight base ms n = weight_at ms (key base n) n.repeat_ms n.remaining_ms

weight_stays :
    (ms k rep rem rem' : ℕ)
    → rem < ms
    → 0 < rep
    → rep ≤ rem
    → k ≤ 1
    → rem' ≡ (rep + rem) % ms
    → weight_at ms k rep rem' < weight_at ms k rep rem
weight_stays ms k rep rem rem' h pos le hk e = elim (dec_lt (rep + rem) ms) [
  | yes small ↦ let e' : rem' ≡ rep + rem = e ∙ mod-eq_of_lt small in ground arith
  | no big ↦
      let e' : rem' ≡ rep + rem - ms =
        e ∙ mod-eq-sub-mod (omega arith) ∙ mod-eq_of_lt (omega arith) in
      ground arith
]

weight_moves :
    (ms k g rep rem rem' : ℕ)
    → rem' < ms
    → 0 < rep
    → 0 < g
    → k ≤ 1
    → weight_at ms (k + g) rep rem' < weight_at ms k rep rem
weight_moves ms zero g rep rem rem' h pos hg hk = ground arith
weight_moves ms (suc k) g rep rem rem' h pos hg hk = ground arith

weight-reschedule :
    (base ms : ℕ) (n : TimerNode)
    → base < u32
    → InWindow base n
    → key base n ≤ 1
    → IsReady ms n
    → n.repeat_ms ≢ 0
    → weight base ms (reschedule ms n) < weight base ms n
weight-reschedule base ms n hb hn k h r =
    let rem' : ((n.repeat_ms + n.remaining_ms) % u32) % ms ≡ (n.repeat_ms + n.remaining_ms) % ms =
      ap (λ (x : ℕ). x % ms) (omega arith) in
    let b = new_ticks_bounds ms n h in
    rw (key-reschedule base ms n hb hn k h).1 (elim (ℕ_discrete (new_ticks ms n) 0) [
      | yes z ↦
          let same : key base n + new_ticks ms n ≡ key base n = omega arith in
          rw same (
            weight_stays ms (key base n) n.repeat_ms n.remaining_ms _ h.left (omega arith)
              (omega (arith, b, ap (λ (x : ℕ). x * ms) z)) k rem')
      | no p ↦
          weight_moves ms (key base n) (new_ticks ms n) n.repeat_ms n.remaining_ms _
            (reschedule-IsReady ms n h).left (omega arith) (omega arith) k
    ])

-- the weight of a list
abbrev pub total : ℕ → ℕ → List TimerNode → ℕ
total base ms [] = 0
total base ms (n ∷ l) = weight base ms n + total base ms l

total-add_node :
    (base ms : ℕ) (n : TimerNode) (l : List TimerNode)
    → total base ms (add_node n l) ≡ weight base ms n + total base ms l
unfolding add_node
total-add_node base ms n [] = refl
total-add_node base ms n (x ∷ xs) = elim (Bool-cases (leb i32_limit (diff n.tick x.tick))) [
  | inl sooner ↦ rw sooner
  | inr later ↦ rw later (omega (arith, total-add_node base ms n xs))
]

pub All-add_node :
    (P : TimerNode → Type 0) (n : TimerNode) (l : List TimerNode)
    → P n
    → All P l
    → All P (add_node n l)
unfolding add_node
All-add_node P n [] h a = (h, tt)
All-add_node P n (x ∷ xs) h a = elim (Bool-cases (leb i32_limit (diff n.tick x.tick))) [
  | inl sooner ↦ rw sooner (h, a)
  | inr later ↦ rw later (a.0, All-add_node P n xs h a.1)
]

-- What is left behind a fired node is sorted and ready, and can fire less often.
pub requeue_lem :
    (base ms : ℕ) (n : TimerNode) (rest : List TimerNode)
    → base < u32
    → key base n ≤ 1
    → SortedFrom base 0 (n ∷ rest)
    → All (IsReady ms) (n ∷ rest)
    → SortedFrom base 0 (requeue ms n rest)
      × All (IsReady ms) (requeue ms n rest)
      × (total base ms (requeue ms n rest) < total base ms (n ∷ rest))
requeue_lem base ms n rest hb k s r = elim (ℕ_discrete n.repeat_ms 0) [
  | yes once ↦
      let gone : requeue ms n rest ≡ rest = ground arith in
      let last : weight base ms n ≡ 1 = ground arith in
      rw gone
        (SortedFrom-weaken base (key base n) 0 rest (omega arith) s.2, r.1, omega (arith, last))
  | no again ↦
      let back : requeue ms n rest ≡ add_node (reschedule ms n) rest = ground arith in
      let window = (key-reschedule base ms n hb s.1 k r.0).0 in
      let rest_sorted = SortedFrom-weaken base (key base n) 0 rest (omega arith) s.2 in
      rw back (
        add_node-SortedFrom base 0 (reschedule ms n) rest hb window (omega arith) rest_sorted,
        All-add_node (IsReady ms) (reschedule ms n) rest (reschedule-IsReady ms n r.0) r.1,
        omega (
          arith,
          total-add_node base ms (reschedule ms n) rest,
          weight-reschedule base ms n hb s.1 k r.0 again,
        ),
      )
]
