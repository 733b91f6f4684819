-- ===== src/Subject/Passes.antt =====
-- What passes of `ProcessMarkRemoveAllListeners` (INCLUDE/CSubject.hpp) come to in the end.
use cpp_npl.Base.{
  subst, ℕ, zero, suc, ◌-◌, ◌≡◌, refl, sym, ap, ◌∙◌, inl, inr, Bool, List, [], ◌∷◌, ◌≤◌,
  if◌then◌else◌, Bool-cases, arith,
}
use cpp_npl.Subject.Notify.{sweep}
use cpp_npl.Subject.Sweep.{Absent, Distinct, remove_aliased-Absent}

module _ (marked : ℕ → Bool) where
  abbrev pub passes : ℕ → List ℕ → List ℕ
  passes zero xs = xs
  passes (suc n) xs = passes n (sweep marked xs)

  -- How many of the list are marked, and those that are not.
  abbrev pub count_marked : List ℕ → ℕ
  count_marked [] = 0
  count_marked (x ∷ xs) = if marked x then suc (count_marked xs) else count_marked xs

  abbrev pub unmarked : List ℕ → List ℕ
  unmarked [] = []
  unmarked (x ∷ xs) = if marked x then unmarked xs else x ∷ unmarked xs

  unmarked_all : (xs : List ℕ) → count_marked xs ≡ 0 → unmarked xs ≡ xs
  unmarked_all [] h = refl
  unmarked_all (x ∷ xs) h = elim (Bool-cases (marked x)) [
    | inl e ↦ absurd (ground arith)
    | inr e ↦ rw e (ap (◌∷◌ x) (unmarked_all xs (ground arith)))
  ]

  sweep-unmarked : (xs : List ℕ) → Distinct xs → unmarked (sweep marked xs) ≡ unmarked xs
  unfolding sweep
  sweep-unmarked [] d = refl
  sweep-unmarked (x ∷ xs) (d, ds) = elim (Bool-cases (marked x)) [
    | inl e ↦ rw e (ap unmarked (remove_aliased-Absent x xs d ds))
    | inr e ↦ rw (e, e) (ap (◌∷◌ x) (sweep-unmarked xs ds))
  ]

  sweep-count : (xs : List ℕ) → Distinct xs → count_marked (sweep marked xs) ≡ count_marked xs - 1
  unfolding sweep
  sweep-count [] d = omega arith
  sweep-count (x ∷ xs) (d, ds) = elim (Bool-cases (marked x)) [
    | inl e ↦ rw e (ap count_marked (remove_aliased-Absent x xs d ds) ∙ omega arith)
    | inr e ↦ rw (e, e) (sweep-count xs ds)
  ]

  sweep-Absent : (a : ℕ) (xs : List ℕ) → Distinct xs → Absent a xs → Absent a (sweep marked xs)
  unfolding sweep
  sweep-Absent a [] d h = tt
  sweep-Absent a (x ∷ xs) (d, ds) (h, hs) = elim (Bool-cases (marked x)) [
    | inl e ↦ rw e (subst (Absent a) (sym (remove_aliased-Absent x xs d ds)) hs)
    | inr e ↦ rw e (h, sweep-Absent a xs ds hs)
  ]

  sweep-Distinct : (xs : List ℕ) → Distinct xs → Distinct (sweep marked xs)
  unfolding sweep
  sweep-Distinct [] d = tt
  sweep-Distinct (x ∷ xs) (d, ds) = elim (Bool-cases (marked x)) [
    | inl e ↦ rw e (subst Distinct (sym (remove_aliased-Absent x xs d ds)) ds)
    | inr e ↦ rw e (sweep-Absent x xs ds d, sweep-Distinct xs ds)
  ]

  -- Of observers of which none stands twice, as many passes as observers are marked, or more, leave
  -- those that are not marked, in their order, while the marks stay as they are.
  pub passes_remove_marked :
      (n : ℕ) (xs : List ℕ) → Distinct xs → count_marked xs ≤ n → passes n xs ≡ unmarked xs
  passes_remove_marked zero xs d h = sym (unmarked_all xs (omega arith))
  passes_remove_marked (suc n) xs d h =
      passes_remove_marked n (sweep marked xs) (sweep-Distinct xs d)
        (omega (arith, sweep-count xs d))
      ∙ sweep-unmarked xs d
