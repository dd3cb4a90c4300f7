-- ===== src/Selector/Calls.antt =====
-- `callListeners` and `removeListener` of src/Selector.cpp.
use jhcommon.Prelude.{
  ℕ, zero, suc, ◌<◌, Bool, true, false, ◌&&◌, ◌||◌, Bool-cases, inl, inr, ◌≡◌, refl, ◌∙◌, Option,
  none, some, List, [], ◌∷◌, ◌++◌, append_assoc, append-nil, if◌then◌else◌, length, arith,
}
use jhcommon.Prelude.Int.{ℤ, int_eq}
use jhcommon.Selector.{
  PollEvents, FileListener, FileChange, Iteration, PollBits, Called, same_node, is_over, call_from,
  call_listeners, pass, add_call, with_call, reaction,
}

-- the listeners of a descriptor
abbrev pub file_callees : ℤ → List FileListener → List ℕ
file_callees fd [] = []
file_callees fd (n ∷ ns) =
    if int_eq n.fd fd then with_call n.listener (file_callees fd ns) else file_callees fd ns

abbrev pub without_fd : ℤ → List FileListener → List FileListener
without_fd fd [] = []
without_fd fd (n ∷ ns) = if int_eq n.fd fd then without_fd fd ns else n ∷ without_fd fd ns

abbrev pub has_fd : ℤ → List FileListener → Bool
has_fd fd [] = false
has_fd fd (n ∷ ns) = int_eq n.fd fd || has_fd fd ns

-- the outcome for the nodes from the iterator on
abbrev pub outcome : Bool → ℤ → Iteration → Called
outcome over fd w = record {
  iteration = record w {
    before = w.before ++ (if over then without_fd fd w.ahead else w.ahead);
    ahead = [];
  };
  result = over && has_fd fd w.ahead;
  calls = file_callees fd w.ahead;
}

snoc-append :
    (ps : List FileListener) (n : FileListener) (ns : List FileListener)
    → (ps ++ n ∷ []) ++ ns ≡ ps ++ n ∷ ns
snoc-append ps n ns = append_assoc ps (n ∷ []) ns

same_node-none : (fd : ℤ) (n : FileListener) → same_node fd none n ≡ int_eq n.fd fd
unfolding same_node
same_node-none fd n = grind arith

outcome-same :
    (over : Bool) (fd : ℤ) (n : FileListener) (ns before : List FileListener) (update : Bool)
    → int_eq n.fd fd ≡ true
    → some (
        add_call n.listener over (
          outcome over fd
            (pass over n (record { before = before; ahead = n ∷ ns; update_fds = update }) ns)))
      ≡ some (outcome over fd (record { before = before; ahead = n ∷ ns; update_fds = update }))
outcome-same true fd n ns before update e = rw e refl
outcome-same false fd n ns before update e = rw (e, snoc-append before n ns) refl

outcome-other :
    (over : Bool) (fd : ℤ) (n : FileListener) (ns before : List FileListener) (update : Bool)
    → int_eq n.fd fd ≡ false
    → some (outcome over fd (record { before = before ++ n ∷ []; ahead = ns; update_fds = update }))
      ≡ some (outcome over fd (record { before = before; ahead = n ∷ ns; update_fds = update }))
outcome-other true fd n ns before update e = rw (e, snoc-append before n (without_fd fd ns)) refl
outcome-other false fd n ns before update e = rw (e, snoc-append before n ns) refl

module _ (bits : PollBits) (react : ℕ → ℤ → PollEvents → List FileChange) where
  reaction-quiet :
      (o : Option ℕ) (fd : ℤ) (revents : PollEvents)
      → ((l : ℕ) → react l fd revents ≡ [])
      → reaction bits react o fd revents ≡ []
  reaction-quiet none fd revents quiet = refl
  reaction-quiet (some l) fd revents quiet = quiet l

  call_from-same :
      (fuel : ℕ) (fd : ℤ) (revents : PollEvents) (n : FileListener) (ns before : List FileListener)
      → (update : Bool) (c : Called) → same_node fd none n ≡ true
      → reaction bits react n.listener fd revents ≡ []
      → call_from bits react fuel fd revents (
          pass
            (is_over bits revents)
            n
            (record { before = before; ahead = n ∷ ns; update_fds = update })
            ns)
        ≡ some c
      → call_from bits react
          (suc fuel)
          fd
          revents
          (record { before = before; ahead = n ∷ ns; update_fds = update })
        ≡ some (add_call n.listener (is_over bits revents) c)
  unfolding call_from
  call_from-same fuel fd revents n ns before update c same r rest =
      rw (call_from, same, r) (rw rest refl)

  call_from-other :
      (fuel : ℕ) (fd : ℤ) (revents : PollEvents) (n : FileListener) (ns before : List FileListener)
      → (update : Bool) → same_node fd none n ≡ false
      → call_from bits react
          (suc fuel)
          fd
          revents
          (record { before = before; ahead = n ∷ ns; update_fds = update })
        ≡ call_from bits react fuel fd revents
            (record { before = before ++ n ∷ []; ahead = ns; update_fds = update })
  unfolding call_from
  call_from-other fuel fd revents n ns before update other = rw (call_from, other) refl

  passed-quiet :
      (fuel : ℕ) (fd : ℤ) (revents : PollEvents) (n : FileListener) (ns before : List FileListener)
      → (update over : Bool)
      → call_from bits react fuel fd revents
          (record { before = before ++ n ∷ []; ahead = ns; update_fds = update })
        ≡ some (
            outcome over fd (record { before = before ++ n ∷ []; ahead = ns; update_fds = update }))
      → call_from bits react fuel fd revents
          (record { before = before; ahead = ns; update_fds = update })
        ≡ some (outcome over fd (record { before = before; ahead = ns; update_fds = update }))
      → call_from bits react fuel fd revents
          (pass over n (record { before = before; ahead = n ∷ ns; update_fds = update }) ns)
        ≡ some (
            outcome over fd
              (pass over n (record { before = before; ahead = n ∷ ns; update_fds = update }) ns))
  passed-quiet fuel fd revents n ns before update true kept dropped = dropped
  passed-quiet fuel fd revents n ns before update false kept dropped = kept

  call_from-quiet :
      (fuel : ℕ) (fd : ℤ) (revents : PollEvents) (ns before : List FileListener) (update : Bool)
      → ((l : ℕ) → react l fd revents ≡ [])
      → length ns < fuel
      → call_from bits react fuel fd revents
          (record { before = before; ahead = ns; update_fds = update })
        ≡ some (
            outcome
              (is_over bits revents)
              fd
              (record { before = before; ahead = ns; update_fds = update }))
  unfolding call_from
  call_from-quiet zero fd revents ns before update quiet h = elim h [ ]
  call_from-quiet (suc fuel) fd revents [] before update quiet h =
      elim (Bool-cases (is_over bits revents)) [
        | inl over ↦ rw (over, append-nil before) refl
        | inr over ↦ rw (over, append-nil before) refl
      ]
  call_from-quiet (suc fuel) fd revents (n ∷ ns) before update quiet h =
      let over = is_over bits revents in
      let r = reaction-quiet n.listener fd revents quiet in
      let kept = call_from-quiet fuel fd revents ns (before ++ n ∷ []) update quiet (omega arith) in
      let dropped = call_from-quiet fuel fd revents ns before update quiet (omega arith) in
      elim (Bool-cases (int_eq n.fd fd)) [
        | inl e ↦
            let same : same_node fd none n ≡ true = same_node-none fd n ∙ e in
            call_from-same fuel fd revents n ns before update
              (outcome over fd
                (pass over n (record { before = before; ahead = n ∷ ns; update_fds = update }) ns))
              same r (passed-quiet fuel fd revents n ns before update over kept dropped)
            ∙ outcome-same over fd n ns before update e
        | inr e ↦
            let other : same_node fd none n ≡ false = same_node-none fd n ∙ e in
            call_from-other fuel fd revents n ns before update other
            ∙ kept
            ∙ outcome-other over fd n ns before update e
      ]

-- Where no listener that is called adds or removes any, `callListeners` ends with a step for each
-- node and one more. It calls each listener of the descriptor, in the order of the list, and no
-- other; on a hang-up or an invalid descriptor, all nodes of the descriptor leave the list, and it
-- returns whether there was one; on other events it keeps the list and returns false.
pub call_listeners_lem :
    (bits : PollBits) (react : ℕ → ℤ → PollEvents → List FileChange) (fuel : ℕ) (fd : ℤ)
    → (revents : PollEvents) (ns : List FileListener) (update : Bool)
    → ((l : ℕ) → react l fd revents ≡ [])
    → length ns < fuel
    → call_listeners bits react fuel fd revents ns update
      ≡ some (record {
        iteration = record {
          before = if is_over bits revents then without_fd fd ns else ns;
          ahead = [];
          update_fds = update;
        };
        result = is_over bits revents && has_fd fd ns;
        calls = file_callees fd ns;
      })
unfolding call_listeners
call_listeners_lem bits react fuel fd revents ns update quiet h =
    call_from-quiet bits react fuel fd revents ns [] update quiet h
