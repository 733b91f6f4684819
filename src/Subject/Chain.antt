-- ===== src/Subject/Chain.antt =====
-- The search of `GetDispatcher` (INCLUDE/CSubject.hpp) along the targets.
use cpp_npl.Base.{ℕ, zero, suc, ◌<◌, ◌≡◌, refl, true, false, Option, none, some, arith}
use cpp_npl.Subject.{World}
use cpp_npl.Subject.Notify.{is_dispatcher, get_dispatcher}

-- The pointers that lead from a target up to the first dispatcher, or to a pointer that is null or
-- whose subject is gone; the number counts the subjects in between.
pub data Leads (w : World) : ℕ → Option ℕ → Option ℕ → Type 0 where
  null : Leads w 0 none none
  gone : (i : ℕ) → (w.at i).alive ≡ false → Leads w 0 (some i) none
  found :
      (i : ℕ)
      → (w.at i).alive ≡ true
      → is_dispatcher (w.at i).kind ≡ true
      → Leads w 0 (some i) (some i)
  up :
      (n i : ℕ) (o : Option ℕ)
      → (w.at i).alive ≡ true
      → is_dispatcher (w.at i).kind ≡ false
      → Leads w n (w.at i).target o
      → Leads w (suc n) (some i) o

-- Where the targets lead to a dispatcher or to an end over `n` subjects, `GetDispatcher` comes back
-- with it once it is given more than `n` rounds.
pub get_dispatcher-Leads :
    (w : World) (n fuel : ℕ) (t o : Option ℕ)
    → Leads w n t o
    → n < fuel
    → get_dispatcher fuel w t ≡ some o
unfolding get_dispatcher
get_dispatcher-Leads w n zero _ _ l h = absurd (omega arith)
get_dispatcher-Leads w _ (suc fuel) _ _ Leads.null h = refl
get_dispatcher-Leads w _ (suc fuel) _ _ (Leads.gone i a) h = rw a refl
get_dispatcher-Leads w _ (suc fuel) _ _ (Leads.found i a d) h = rw (a, d) refl
get_dispatcher-Leads w _ (suc fuel) _ _ (Leads.up n i o a d l) h =
    rw (a, d) (get_dispatcher-Leads w n fuel _ o l (omega arith))
