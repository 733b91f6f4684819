-- ===== src/Subject/Forward.antt =====
-- `Read`, `Write`, `ReadSync`, `WriteSync` and `QueuePendingContext` of CSubject
-- (INCLUDE/CSubject.hpp): each calls its namesake of the target.
use cpp_npl.Base.{
  ℕ, zero, suc, ◌≡◌, refl, ap, ◌∙◌, Bool, true, false, Option, none, some, if◌then◌else◌,
}
use cpp_npl.Subject.{World}

abbrev pub to_target : (ℕ → Option (Option ℕ)) → World → Option ℕ → Option (Option ℕ)
to_target above w none = some none
to_target above w (some t) = let beyond = above t in if (w.at t).alive then beyond else some none

-- The subject whose own method is reached from `i`: `own` says which subjects' classes override it.
-- `some none` is a pointer that is null or whose subject is gone, where the call ends without effect
-- (and `Read` returns null, `ReadSync` and `WriteSync` -1); `none` is more targets than the bound.
unfoldable pub forward : (ℕ → Bool) → ℕ → World → ℕ → Option (Option ℕ)
forward own zero w i = none
forward own (suc n) w i =
    let beyond = to_target (forward own n w) w (w.at i).target in
    if own i then some (some i) else beyond

module _ (own : ℕ → Bool) (n : ℕ) (w : World) (i : ℕ) where
  pub forward_own : own i ≡ true → forward own (suc n) w i ≡ some (some i)
  unfolding forward
  forward_own h = rw h refl

  pub forward_up :
      (t : ℕ)
      → own i ≡ false
      → (w.at i).target ≡ some t
      → (w.at t).alive ≡ true
      → forward own (suc n) w i ≡ forward own n w t
  unfolding forward
  forward_up t h e a =
      ap (λ b. if b then some (some i) else to_target (forward own n w) w (w.at i).target) h
      ∙ ap (to_target (forward own n w) w) e
      ∙ ap (λ b. if b then forward own n w t else some none) a
