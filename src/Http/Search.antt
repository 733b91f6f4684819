-- ===== src/Http/Search.antt =====
-- Where `std::string::find` finds a text that stands at the end of another, as the blank line behind
-- the headers of a message (`ParseMessage` of INCLUDE/CProtocolHTTP.hpp) does, and not before it.
use cpp_npl.Base.{
  ℕ, suc, ◌+◌, ◌≤◌, ◌≡◌, refl, ap, inl, inr, true, false, none, some, [], ◌∷◌, ◌++◌, Option-cases,
  Bytes, length, length-append, find, shift_found, starts_with, arith, Bool, Option, ◌⊎◌,
}

starts_with-append :
    (needle xs ys : Bytes) → starts_with needle xs ≡ true → starts_with needle (xs ++ ys) ≡ true
starts_with-append [] xs ys h = refl
starts_with-append (x ∷ needle) [] ys h = cc
starts_with-append (x ∷ needle) (y ∷ xs) ys h = ground (arith, starts_with-append needle xs ys)

starts_with-fits : (needle xs : Bytes) → starts_with needle xs ≡ true → length needle ≤ length xs
starts_with-fits [] xs h = omega arith
starts_with-fits (x ∷ needle) [] h = cc
starts_with-fits (x ∷ needle) (y ∷ xs) h = ground (arith, starts_with-fits needle xs)

-- The first place in a longer text is no later.
abbrev pub FoundBy : Bytes → ℕ → Bytes → Type 0
FoundBy needle n s = (k : ℕ) × (find needle s ≡ some k) × (k ≤ n)

shift_FoundBy :
    (b : Bool) (o : Option ℕ) (n : ℕ)
    → ((k : ℕ) × (o ≡ some k) × (k ≤ n))
    → (k : ℕ) × (shift_found b o ≡ some k) × (k ≤ suc n)
shift_FoundBy true o n f = (0, refl, omega arith)
shift_FoundBy false o n (k, e, l) = (suc k, ap (shift_found false) e, omega arith)

at_front :
    (b : Bool) (o : Option ℕ) (n : ℕ) → b ≡ true → (k : ℕ) × (shift_found b o ≡ some k) × (k ≤ n)
at_front true o n h = (0, refl, omega arith)
at_front false o n h = cc

-- How a text was found: at once, or behind its first byte.
shift-cases :
    (b : Bool) (o : Option ℕ) (n : ℕ)
    → shift_found b o ≡ some n
    → ((b ≡ true) × (n ≡ 0)) ⊎ ((m : ℕ) × (o ≡ some m) × (n ≡ suc m))
shift-cases true o n h = inl (refl, cc)
shift-cases false none n h = cc
shift-cases false (some m) n h = inr (m, refl, cc)

pub find-append :
    (needle xs ys : Bytes) (n : ℕ) → find needle xs ≡ some n → FoundBy needle n (xs ++ ys)
find-append needle [] ys n h = elim (shift-cases (starts_with needle []) none n h) [
  | inl (e, z) ↦ empty_needle needle ys n e
  | inr (m, e, z) ↦ cc
]
  where
    empty_needle : (needle ys : Bytes) (n : ℕ) → starts_with needle [] ≡ true → FoundBy needle n ys
    empty_needle [] [] n e = (0, refl, omega arith)
    empty_needle [] (y ∷ ys) n e = (0, refl, omega arith)
    empty_needle (x ∷ needle) ys n e = cc
find-append needle (x ∷ xs) ys n h =
    elim (shift-cases (starts_with needle (x ∷ xs)) (find needle xs) n h) [
      | inl (e, z) ↦
          at_front (starts_with needle (x ∷ xs ++ ys)) (find needle (xs ++ ys)) n
            (starts_with-append needle (x ∷ xs) ys e)
      | inr (m, e, z) ↦
          let (k, f, l) =
            shift_FoundBy (starts_with needle (x ∷ xs ++ ys)) (find needle (xs ++ ys)) m
              (find-append needle xs ys m e) in
          (k, f, omega arith)
    ]

find-fits : (needle xs : Bytes) (n : ℕ) → find needle xs ≡ some n → n + length needle ≤ length xs
find-fits needle [] n h = elim (shift-cases (starts_with needle []) none n h) [
  | inl (e, z) ↦ omega (arith, starts_with-fits needle [] e)
  | inr (m, e, z) ↦ cc
]
find-fits needle (x ∷ xs) n h =
    elim (shift-cases (starts_with needle (x ∷ xs)) (find needle xs) n h) [
      | inl (e, z) ↦ omega (arith, starts_with-fits needle (x ∷ xs) e)
      | inr (m, e, z) ↦ omega (arith, find-fits needle xs m e)
    ]

-- The text stands at the end, and there for the first time.
abbrev pub EndsIn : Bytes → Bytes → Type 0
EndsIn needle s = (n : ℕ) × (find needle s ≡ some n) × (n + length needle ≡ length s)

pub EndsIn-cons :
    (needle : Bytes) (c : ℕ) (s : Bytes)
    → starts_with needle (c ∷ s) ≡ false
    → EndsIn needle s
    → EndsIn needle (c ∷ s)
EndsIn-cons needle c s h (n, e, l) = (suc n, rw h (ap (shift_found false) e), omega arith)

-- Without the last bytes it is not found.
pub not_before :
    (needle front : Bytes) (c : ℕ) (back : Bytes)
    → EndsIn needle (front ++ c ∷ back)
    → find needle front ≡ none
not_before needle front c back (n, e, l) = elim (Option-cases (find needle front)) [
  | inl h ↦ h
  | inr (m, h) ↦
      let (k, f, b) = find-append needle front (c ∷ back) m h in
      let same : n ≡ k = cc in
      absurd (omega (arith, find-fits needle front m h, length-append front (c ∷ back)))
]

-- What is not in a text is not in its front.
pub not_in_front : (needle xs ys : Bytes) → find needle (xs ++ ys) ≡ none → find needle xs ≡ none
not_in_front needle xs ys h = elim (Option-cases (find needle xs)) [
  | inl e ↦ e
  | inr (n, e) ↦ let (k, f, l) = find-append needle xs ys n e in cc
]
