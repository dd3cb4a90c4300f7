-- ===== src/Timer/Due.antt =====
-- The loop of `handleTick` in src/Timer.cpp ends, fires what is due, and leaves what is not.
use jhcommon.Prelude.{
  ℕ, zero, suc, ◌+◌, ◌%◌, ◌≤◌, ◌<◌, ◌≡◌, refl, ap, ◌∙◌, lt→ltb, true, false, Option, some, List, [],
  ◌∷◌, ◌++◌, map, length, ltb, ◌==◌, All, arith, dec_lt,
}
use jhcommon.Timer.{TimerNode, Timer, Fired, u32, in_future, requeue, fire_due, fire, handle_tick}
use jhcommon.Timer.Order.{key, SortedFrom, SortedFrom-weaken, SortedFrom-All}
use jhcommon.Timer.Valid.{IsValid}
use jhcommon.Timer.Tick.{IsReady, in_future-key, requeue_lem, total}

-- The loop stops at a node in the future, and goes on behind one that is due.
fire_due_stop :
    (fuel ms ticks : ℕ) (n : TimerNode) (rest : List TimerNode)
    → in_future ticks n ≡ true
    → fire_due (suc fuel) ms ticks (n ∷ rest) ≡ some (n ∷ rest, [])
unfolding fire_due
fire_due_stop fuel ms ticks n rest h = rw h

fire_due_next :
    (fuel ms ticks : ℕ) (n : TimerNode) (rest : List TimerNode) {l : List TimerNode}
    {log : List Fired}
    → 0 < ms
    → in_future ticks n ≡ false
    → fire_due fuel ms ticks (requeue ms n rest) ≡ some (l, log)
    → fire_due (suc fuel) ms ticks (n ∷ rest) ≡ some (l, fire n ∷ log)
unfolding fire_due
fire_due_next fuel ms ticks n rest pos h e =
    let test : (ms == 0) ≡ false = ground arith in rw (h, test, e)

pub record Settled (base ms : ℕ) (res : Option (List TimerNode × List Fired)) : Type 0 where
  pub list : List TimerNode
  pub log : List Fired
  pub result : res ≡ some (list, log)
  pub sorted : SortedFrom base 2 list
  pub ready : All (IsReady ms) list

pub fire_due-Settled :
    (fuel base ms : ℕ) (l : List TimerNode)
    → base < u32
    → SortedFrom base 0 l
    → All (IsReady ms) l
    → total base ms l < fuel
    → Settled base ms (fire_due fuel ms ((base + 1) % u32) l)
fire_due-Settled zero base ms l hb s r f = absurd (omega arith)
fire_due-Settled (suc fuel) base ms [] hb s r f = record {
  list = [];
  log = [];
  result = unfold fire_due in refl;
  sorted = tt;
  ready = tt;
}
fire_due-Settled (suc fuel) base ms (n ∷ rest) hb s r f = elim (dec_lt 1 (key base n)) [
  | yes later ↦ record {
    list = n ∷ rest;
    log = [];
    result =
        fire_due_stop fuel ms ((base + 1) % u32) n rest
          (in_future-key base n hb s.1 ∙ lt→ltb _ _ later);
    sorted = (omega arith, s.1, s.2);
    ready = r;
  }
  | no due ↦
      let (s', r', less) = requeue_lem base ms n rest hb (omega arith) s r in
      let ih = fire_due-Settled fuel base ms (requeue ms n rest) hb s' r' (omega arith) in
      let test : ltb 1 (key base n) ≡ false = ground arith in
      record {
        list = ih.list;
        log = fire n ∷ ih.log;
        result =
            fire_due_next fuel ms ((base + 1) % u32) n rest (omega (arith, r.0.left))
              (in_future-key base n hb s.1 ∙ test) ih.result;
        sorted = ih.sorted;
        ready = ih.ready;
      }
]

SortedFrom-next :
    (base lo : ℕ) (l : List TimerNode)
    → base < u32
    → SortedFrom base (suc lo) l
    → SortedFrom ((base + 1) % u32) lo l
SortedFrom-next base lo [] hb s = tt
SortedFrom-next base lo (x ∷ xs) hb s =
    let one : key base x ≡ suc (key ((base + 1) % u32) x) = ground arith in
    (
      omega (arith, one),
      (s.1.0, omega (arith, one, s.1)),
      SortedFrom-next base (key ((base + 1) % u32) x) xs hb
          (SortedFrom-weaken base (key base x) _ xs (omega (arith, one)) s.2),
    )

-- the loop of a tick over timers that do not repeat
fire_due_once :
    (fuel base ms lo : ℕ) (l : List TimerNode)
    → base < u32
    → 0 < ms
    → SortedFrom base lo l
    → All (λ n. n.repeat_ms ≡ 0) l
    → length l < fuel
    → (due : List TimerNode) × (rest : List TimerNode) × (l ≡ due ++ rest)
      × (fire_due fuel ms ((base + 1) % u32) l ≡ some (rest, map fire due))
      × All (λ n. key base n ≤ 1) due
      × All (λ n. 1 < key base n) rest
fire_due_once zero base ms lo l hb pos s once f = absurd (omega arith)
fire_due_once (suc fuel) base ms lo [] hb pos s once f =
    ([], [], refl, unfold fire_due in refl, tt, tt)
fire_due_once (suc fuel) base ms lo (n ∷ l) hb pos s once f = elim (dec_lt 1 (key base n)) [
  | yes later ↦ (
    [],
    n ∷ l,
    refl,
    fire_due_stop fuel ms _ n l (in_future-key base n hb s.1 ∙ lt→ltb _ _ later),
    tt,
    (later, SortedFrom-All base (key base n) 1 l later s.2),
  )
  | no now ↦
      let test : ltb 1 (key base n) ≡ false = ground arith in
      let gone : requeue ms n l ≡ l = ground arith in
      let (due, rest, split, e, all_due, all_rest) =
        fire_due_once fuel base ms (key base n) l hb pos s.2 once.1 (omega arith) in
      (
        n ∷ due,
        rest,
        ap (◌∷◌ n) split,
        fire_due_next fuel ms _ n l pos (in_future-key base n hb s.1 ∙ test) (rw gone e),
        (omega arith, all_due),
        all_rest,
      )
]

-- With a round of fuel for each time that a timer can fire, `handleTick` ends. It leaves the timers sorted, with none
-- of them due: each lies at least one tick ahead.
pub handle_tick_lem :
    (fuel : ℕ) {t : Timer}
    → IsValid t
    → total t.ticks t.ms_per_tick t.list < fuel
    → (t' : Timer) × (log : List Fired) × (handle_tick fuel t ≡ some (t', log))
      × (t'.ticks ≡ (t.ticks + 1) % u32)
      × IsValid t'
      × SortedFrom t'.ticks 1 t'.list
unfolding handle_tick
handle_tick_lem fuel {t} v f =
    let d = fire_due-Settled fuel t.ticks t.ms_per_tick t.list v.ticks_in v.sorted v.ready f in
    let ahead = SortedFrom-next t.ticks 1 d.list v.ticks_in d.sorted in
    let valid : IsValid (record t { ticks = (t.ticks + 1) % u32; list = d.list }) = record {
      tick_time = v.tick_time;
      ticks_in = omega arith;
      sorted = SortedFrom-weaken ((t.ticks + 1) % u32) 1 0 d.list (omega arith) ahead;
      ready = d.ready;
    } in
    (
      record t { ticks = (t.ticks + 1) % u32; list = d.list },
      d.log,
      rw d.result,
      refl,
      valid,
      ahead,
    )

-- Where no timer repeats, a tick fires exactly those whose tick has come, in the order of the
-- list, and drops them; the others stay.
pub handle_tick_once :
    (fuel : ℕ) {t : Timer}
    → IsValid t
    → All (λ n. n.repeat_ms ≡ 0) t.list
    → length t.list < fuel
    → (due : List TimerNode) × (rest : List TimerNode) × (t.list ≡ due ++ rest)
      × (handle_tick fuel t
          ≡ some (record t { ticks = (t.ticks + 1) % u32; list = rest }, map fire due))
      × All (λ n. key t.ticks n ≤ 1) due
      × All (λ n. 1 < key t.ticks n) rest
unfolding handle_tick
handle_tick_once fuel {t} v once f =
    let (due, rest, split, e, all_due, all_rest) =
      fire_due_once fuel t.ticks t.ms_per_tick 0 t.list v.ticks_in v.tick_time v.sorted once f in
    (due, rest, split, rw e, all_due, all_rest)
