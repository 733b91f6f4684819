-- ===== src/Subject/Properties.antt =====
-- `SetProperty` and `GetProperty` (INCLUDE/CSubject.hpp), which also stand for `SetHeader` and
-- `GetHeader` (INCLUDE/CProtocolHTTP.hpp): both write and read a `std::map` of strings.
use cpp_npl.Base.{
  ◌≡◌, refl, ap, ap₂, ◌∙◌, inl, inr, Bool, true, false, ◌&&◌, List, [], ◌∷◌, Bytes, bytes_eq, ◌==◌,
  ==_iff, ==_refl, if◌then◌else◌, Bool-cases,
}
use cpp_npl.Subject.{set_property, get_property}

bytes_eq_refl : (a : Bytes) → bytes_eq a a ≡ true
bytes_eq_refl [] = refl
bytes_eq_refl (x ∷ a) = rw (==_refl x) (bytes_eq_refl a)

bytes_eq-same : (a b : Bytes) → bytes_eq a b ≡ true → a ≡ b
bytes_eq-same [] [] e = refl
bytes_eq-same [] (y ∷ b) e = cc
bytes_eq-same (x ∷ a) [] e = cc
bytes_eq-same (x ∷ a) (y ∷ b) e = both (x == y) (bytes_eq a b) refl (bytes_eq-same a b) e
  where
    both : (p q : Bool) → (x == y) ≡ p → (q ≡ true → a ≡ b) → (p && q) ≡ true → x ∷ a ≡ y ∷ b
    both true true h t k = ap₂ (λ u v. u ∷ v) ((==_iff x y).0 h) (t refl)
    both true false h t k = cc
    both false q h t k = cc

module _ (key value : Bytes) where
  read_back : (ps : List (Bytes × Bytes)) → get_property key (set_property key value ps) ≡ value
  unfolding get_property set_property
  read_back [] = rw (bytes_eq_refl key) refl
  read_back ((k, v) ∷ ps) = elim (Bool-cases (bytes_eq k key)) [
    | inl e ↦ rw (e, bytes_eq_refl key) refl
    | inr e ↦ rw (e, e) (read_back ps)
  ]

  others_kept :
      (other : Bytes) (ps : List (Bytes × Bytes))
      → bytes_eq key other ≡ false
      → get_property other (set_property key value ps) ≡ get_property other ps
  unfolding get_property set_property
  others_kept other [] h = rw h refl
  others_kept other ((k, v) ∷ ps) h = elim (Bool-cases (bytes_eq k key)) [
    | inl e ↦
        let k_other : bytes_eq k other ≡ false =
          ap (λ t. bytes_eq t other) (bytes_eq-same k key e) ∙ h in
        rw (e, h, k_other) refl
    | inr e ↦ rw e (ap (λ t. if bytes_eq k other then v else t) (others_kept other ps h))
  ]

  -- A property that is set is read back, and every other key reads as before.
  pub get_property-set_property :
      (other : Bytes) (ps : List (Bytes × Bytes))
      → bytes_eq key other ≡ false
      → (get_property key (set_property key value ps) ≡ value)
        × (get_property other (set_property key value ps) ≡ get_property other ps)
  get_property-set_property other ps h = (read_back ps, others_kept other ps h)
