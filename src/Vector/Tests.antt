-- ===== src/Vector/Tests.antt =====
-- Runs of include/jh_vector.h, and its theorems at concrete vectors.
use jhcommon.Prelude.{ℕ, ◌≡◌, refl, none, some, List, [], ◌∷◌, arith}
use jhcommon.Vector.{Vector, erase}
use jhcommon.Vector.Contract
use jhcommon.Vector.Contract.{run_replies}
use jhcommon.Vector.Sequence
use jhcommon.Vector.Sequence.{Op, done, object, count}
use jhcommon.Vector.Grow.{Holds, filled}

abbrev three : Vector ℕ
three = filled (7 ∷ 8 ∷ 9 ∷ []) 0

three-Holds : Holds three (7 ∷ 8 ∷ 9 ∷ [])
three-Holds = record { spare = 0; is_filled = refl }

-- Each call, with growth past the allocation of three, an assignment of the vector to itself, and
-- an index out of range at the end.
abbrev calls : List (Op ℕ)
calls =
    Op.push_back 1
    ∷ Op.erase 1
    ∷ Op.at 2
    ∷ Op.resize 5
    ∷ Op.at 4
    ∷ Op.reserve 9
    ∷ Op.resize 2
    ∷ Op.size
    ∷ Op.assign (4 ∷ 5 ∷ []) 0
    ∷ Op.at 1
    ∷ Op.assign_itself
    ∷ Op.size
    ∷ []

run_replies_example :
    Contract.run 0 calls three
    ≡ some (
        done
        ∷ done
        ∷ object 1
        ∷ done
        ∷ object 0
        ∷ done
        ∷ done
        ∷ count 2
        ∷ done
        ∷ object 5
        ∷ done
        ∷ count 0
        ∷ [])
unfolding Sequence.run Sequence.step
run_replies_example =
    run_replies 0 calls 100 three (7 ∷ 8 ∷ 9 ∷ []) three-Holds (omega arith) (omega arith)
      (ground arith)

-- An erase past the end aborts.
erase_aborts : Contract.run 0 (Op.erase 3 ∷ []) three ≡ none
unfolding Contract.run Contract.step erase
erase_aborts = refl
