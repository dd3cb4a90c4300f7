-- ===== src/Selector/Fds.antt =====
-- `fillPollFds` of src/Selector.cpp.
use jhcommon.Prelude.{
  ℕ, suc, ◌≤◌, ◌<◌, true, ◌&&◌, Bool-cases, inl, inr, ◌≡◌, refl, ap, Option, none, some, List, [],
  ◌∷◌, ◌++◌, ◌==◌, if◌then◌else◌, length, length-append, arith,
}
use jhcommon.Prelude.Int.{ℤ, int_eq}
use jhcommon.Selector.{
  PollEvents, FileListener, PollFd, max_poll_fds, merge, fill_from, fill_poll_fds,
}

-- the events of the first entry of a descriptor
abbrev pub entry : ℤ → List PollFd → Option PollEvents
entry fd [] = none
entry fd (p ∷ ps) = if int_eq p.fd fd then some p.events else entry fd ps

abbrev pub meet : Option PollEvents → PollEvents → PollEvents
meet none e = e
meet (some f) e = λ b. f b && e b

-- the events that all listeners of a descriptor have, after those of `found`
abbrev pub common_from : Option PollEvents → ℤ → List FileListener → Option PollEvents
common_from found fd [] = found
common_from found fd (n ∷ ns) =
    if int_eq n.fd fd
    then common_from (some (meet found n.events)) fd ns
    else common_from found fd ns

length-merge : (n : FileListener) (ps : List PollFd) → length (merge n ps).1 ≡ length ps
unfolding merge
length-merge n [] = refl
length-merge n (p ∷ ps) = elim (Bool-cases (int_eq p.fd n.fd)) [
  | inl e ↦ rw e refl
  | inr e ↦ rw e (ap suc (length-merge n ps))
]

-- The list has room while it is not full, and it is never longer than that.
fill_from-length :
    (ns : List FileListener) (fds : List PollFd) → length fds < 63 → length (fill_from fds ns) ≤ 63
unfolding fill_from
fill_from-length [] fds h = omega arith
fill_from-length (n ∷ ns) fds h =
    let added = fds ++ record { fd = n.fd; events = n.events } ∷ [] in
    let same = length-merge n fds in
    let longer = length-append fds (record { fd = n.fd; events = n.events } ∷ []) in
    elim (Bool-cases (merge n fds).0) [
      | inl e ↦ rw e (fill_from-length ns (merge n fds).1 (omega arith))
      | inr e ↦ elim (Bool-cases (suc (length added) == max_poll_fds)) [
        | inl full ↦ rw (e, full) (ground arith)
        | inr room ↦ rw (e, room) (fill_from-length ns added (ground arith))
      ]
    ]

-- The list that `fillPollFds` makes, with the pipe, never exceeds the array of `threadMain`,
-- however many listeners there are.
pub fill_poll_fds_bound :
    (reader : ℤ) (poll_in : ℕ) (ns : List FileListener)
    → length (fill_poll_fds reader poll_in ns) ≤ max_poll_fds
unfolding fill_poll_fds
fill_poll_fds_bound reader poll_in ns = let h = fill_from-length ns [] (omega arith) in omega arith

-- The search of `merge`, by whether there is an entry of the descriptor.
record Merged (n : FileListener) (ps : List PollFd) (f : PollEvents) : Type 0 where
  was : entry n.fd ps ≡ some f
  found : (merge n ps).0 ≡ true
  now : entry n.fd (merge n ps).1 ≡ some (meet (some f) n.events)

abbrev IsFound : Option PollEvents → Type 0
IsFound none = ⊥
IsFound (some f) = Unit {0}
