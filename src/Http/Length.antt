-- ===== src/Http/Length.antt =====
-- The number that `ParseMessage` (INCLUDE/CProtocolHTTP.hpp) reads behind "Content-Length: ".
use cpp_npl.Base.{
  subst, ℕ, zero, suc, ◌+◌, ◌/◌, ◌%◌, ◌^◌, ◌<◌, ◌≡◌, refl, ap, ◌∙◌, inl, inr, true, false, none,
  some, [], ◌∷◌, ◌++◌, append_assoc, Bytes, codes, length, length-append, take, take-length, drop,
  drop-length, find, shift_found, starts_with, ltb, leb, if◌then◌else◌, Bool-cases, arith,
}
use cpp_npl.Base.Decimal.{
  decimal, stoi, skip_spaces, AreDigits, decimal-AreDigits, decimal-one, decimal-last, stoi-decimal,
}
use cpp_npl.Http.{number_text, body_length}

-- The first end of a line behind digits.
find-digits :
    (s rest : Bytes) → AreDigits s → find (codes "\r\n") (s ++ 13 ∷ 10 ∷ rest) ≡ some (length s)
find-digits [] rest h = refl
find-digits (c ∷ s) rest (h, hs) =
    let other : starts_with (codes "\r\n") (c ∷ s ++ 13 ∷ 10 ∷ rest) ≡ false = ground arith in
    ap (shift_found (starts_with (codes "\r\n") (c ∷ s ++ 13 ∷ 10 ∷ rest))) (find-digits s rest hs)
    ∙ ap (λ t. shift_found t (some (length s))) other

-- The text of the number is one digit short.
number_text-snoc :
    (s rest : Bytes) (d : ℕ)
    → AreDigits (s ++ d ∷ [])
    → number_text ((s ++ d ∷ []) ++ 13 ∷ 10 ∷ rest) ≡ s
unfolding number_text
number_text-snoc s rest d h =
    let size : length (s ++ d ∷ []) ≡ suc (length s) = omega (arith, length-append s (d ∷ [])) in
    let t : Bytes = (s ++ d ∷ []) ++ 13 ∷ 10 ∷ rest in
    ap (λ o. elim o [ none ↦ t | some zero ↦ t | some (suc n) ↦ take n t ])
      (find-digits (s ++ d ∷ []) rest h ∙ ap some size)
    ∙ ap (take (length s)) (append_assoc s (d ∷ []) (13 ∷ 10 ∷ rest))
    ∙ take-length s (d ∷ 13 ∷ 10 ∷ rest)

stoi_nil : stoi [] ≡ none
unfolding stoi skip_spaces
stoi_nil = refl

number_text-decimal :
    (n : ℕ) (rest : Bytes)
    → n < 2 ^ 31
    → stoi (number_text (decimal n ++ 13 ∷ 10 ∷ rest)) ≡ (if ltb n 10 then none else some (n / 10))
number_text-decimal n rest h = elim (Bool-cases (ltb n 10)) [
  | inl small ↦
      let one = decimal-one n (ground arith) in
      rw small (
        ap (λ t. stoi (number_text (t ++ 13 ∷ 10 ∷ rest))) one
        ∙ ap stoi (number_text-snoc [] rest (48 + n) (subst AreDigits one (decimal-AreDigits n)))
        ∙ stoi_nil)
  | inr large ↦
      let last = decimal-last n (omega arith) large in
      let digits = subst AreDigits last (decimal-AreDigits n) in
      rw large (
        ap (λ t. stoi (number_text (t ++ 13 ∷ 10 ∷ rest))) last
        ∙ ap stoi (number_text-snoc (decimal (n / 10)) rest (48 + n % 10) digits)
        ∙ stoi-decimal (n / 10) (omega arith))
]

-- A message with the header of a length: what stands before it, the number and what follows.
abbrev pub with_length : Bytes → ℕ → Bytes → Bytes
with_length pre n rest = (pre ++ codes "Content-Length: ") ++ (decimal n ++ 13 ∷ 10 ∷ rest)

-- A message in which the first "Content-Length" is followed by ": ", a number below 2 ^ 31 as
-- `std::to_string` writes it, and the end of the line, is taken to have a body of a tenth of that
-- length: the last digit is lost. A number of one digit raises an exception.
pub last_digit_lost :
    (pre rest : Bytes) (n : ℕ)
    → find (codes "Content-Length") (with_length pre n rest) ≡ some (length pre)
    → n < 2 ^ 31
    → body_length (with_length pre n rest) ≡ (if ltb n 10 then none else some (n / 10))
unfolding body_length
last_digit_lost pre rest n f h =
    let name : Bytes = codes "Content-Length: " in
    let t : Bytes = decimal n ++ 13 ∷ 10 ∷ rest in
    let m : Bytes = (pre ++ name) ++ t in
    let long_enough : leb (length pre + 16) (length m) ≡ true =
      ground (arith, length-append (pre ++ name) t, length-append pre name) in
    let size : length pre + 16 ≡ length (pre ++ name) = omega (arith, length-append pre name) in
    let behind : drop (length pre + 16) m ≡ t =
      ap (λ k. drop k m) size ∙ drop-length (pre ++ name) t in
    ap
      (λ o. elim o [
        | none ↦ some 0
        | some at ↦ if leb (at + 16) (length m) then stoi (number_text (drop (at + 16) m)) else none
      ])
      f
    ∙ ap (λ e. if e then stoi (number_text (drop (length pre + 16) m)) else none) long_enough
    ∙ ap (λ s. stoi (number_text s)) behind
    ∙ number_text-decimal n rest h
