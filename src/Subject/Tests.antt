-- ===== src/Subject/Tests.antt =====
-- Runs of CSubject (INCLUDE/CSubject.hpp) on three subjects: 1 and the listener 2 observe 0.
use cpp_npl.Base.{◌%◌, ◌==◌, Bool, ℕ, zero, suc, ◌≡◌, refl, true, false, some, [], ◌∷◌, ◌++◌, arith}
use cpp_npl.Subject.{plain, dispatcher, listener, Subject, World, new_subject}
use cpp_npl.Subject.Notify.{sweep}
use cpp_npl.Subject.Sweep.{sweep_removes_first}
use cpp_npl.Subject.Passes.{passes, unmarked, passes_remove_marked}

abbrev three : ℕ → Subject
three zero = record (new_subject dispatcher) { observers = 1 ∷ 2 ∷ []; connected = true }
three (suc zero) = record (new_subject plain) { target = some 0; connected = true }
three (suc (suc zero)) =
    record (new_subject (
      listener (record {
        connects = true;
        reads = false;
        writes = false;
        disconnects = true;
        accepts = false;
      }))) { target = some 0 }
three (suc (suc (suc i))) = new_subject plain

abbrev world : World
world = record { at = three; calls = [] }

sweep_removes_first_example : sweep (λ j. true) ([] ++ 1 ∷ 2 ∷ []) ≡ [] ++ 2 ∷ []
sweep_removes_first_example =
    sweep_removes_first (λ j. true) [] 1 (2 ∷ []) (((λ e. cc), tt), (tt, tt)) tt refl

abbrev is_odd : ℕ → Bool
is_odd n = n % 2 == 1

passes_remove_marked_example :
    passes is_odd 2 (1 ∷ 2 ∷ 3 ∷ 4 ∷ []) ≡ unmarked is_odd (1 ∷ 2 ∷ 3 ∷ 4 ∷ [])
passes_remove_marked_example =
    passes_remove_marked is_odd 2 (1 ∷ 2 ∷ 3 ∷ 4 ∷ [])
      (
        ((λ e. cc), ((λ e. cc), ((λ e. cc), tt))),
        (((λ e. cc), ((λ e. cc), tt)), (((λ e. cc), tt), (tt, tt))),
      )
      (omega arith)
