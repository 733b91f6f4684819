-- ===== src/Base/Decimal.antt =====
-- Decimal numbers as `std::to_string` writes them and as `sscanf` and `std::stoi` read them.
use cpp_npl.Base.Tests.{ltb, leb, ◌==◌, if◌then◌else◌}
use cpp_npl.Base.Lists.{Bytes}
use Prim.Native.Nat.{ℕ, zero, suc, ◌+◌, ◌-◌, ◌*◌, ◌/◌, ◌%◌, ◌^◌, ◌<◌}
use mathlib.Core.Path.{◌≡◌, refl, sym, ap, ◌∙◌}
use mathlib.Core.Bool.{Bool, true, false, ◌&&◌, ◌||◌}
use mathlib.Core.Logic.{inl, inr}
use mathlib.Core.Option.{Option, none, some}
use mathlib.Core.List.{[], ◌∷◌, ◌++◌, append-nil}
use native.Mathlib.Nat.{pow-suc}
use native.Mathlib.Omega.{arith}
use cpp_npl.Base.Tests.{Bool-cases}

-- Twenty digits hold every 64-bit number.
abbrev pub digits_max : ℕ
digits_max = 20

decimal_from : ℕ → ℕ → Bytes → Bytes
decimal_from zero n acc = acc
decimal_from (suc f) n acc =
    let rest = decimal_from f (n / 10) ((48 + n % 10) ∷ acc) in
    if ltb n 10 then (48 + n) ∷ acc else rest

unfoldable pub decimal : ℕ → Bytes
unfolding decimal_from
decimal n = decimal_from digits_max n []

abbrev pub is_digit : ℕ → Bool
is_digit c = leb 48 c && leb c 57

-- The digits at the head of a text are appended to a number; the rest of the text is given back.
unfoldable pub read_digits : ℕ → Bytes → ℕ × Bytes
read_digits v [] = (v, [])
read_digits v (c ∷ s) =
    let rest = read_digits (v * 10 + (c - 48)) s in if is_digit c then rest else (v, c ∷ s)

abbrev pub is_space : ℕ → Bool
is_space c = c == 32 || (leb 9 c && leb c 13)

unfoldable pub skip_spaces : Bytes → Bytes
skip_spaces [] = []
skip_spaces (c ∷ s) = if is_space c then skip_spaces s else c ∷ s

-- An unsigned run of digits that is not empty.
abbrev read_number : Bytes → Option (ℕ × Bytes)
read_number [] = none
read_number (c ∷ s) = if is_digit c then some (read_digits 0 (c ∷ s)) else none

abbrev negated : Option (ℕ × Bytes) → Option (ℕ × Bytes)
negated none = none
negated (some (n, s)) = some ((2 ^ 32 - n % 2 ^ 32) % 2 ^ 32, s)

abbrev signed_number : Bytes → Option (ℕ × Bytes)
signed_number [] = none
signed_number (c ∷ s) =
    if c == b'-'
    then negated (read_number s)
    else (if c == b'+' then read_number s else read_number (c ∷ s))

-- What `%d` and `std::stoi` read: spaces, a sign and digits. The number is taken modulo 2 ^ 32, as
-- the bits of an `int`; a number outside the range of `int` is not modelled.
unfoldable pub scan_int : Bytes → Option (ℕ × Bytes)
unfolding skip_spaces read_digits
scan_int s = signed_number (skip_spaces s)

-- `std::stoi`: the bits of the `int`, `none` where it throws.
abbrev in_range : ℕ → ℕ → Option (ℕ × Bytes) → Option ℕ
in_range most sign none = none
in_range most sign (some (n, s)) =
    if leb n most then some (if sign == 0 then n else (2 ^ 32 - n) % 2 ^ 32) else none

abbrev signed_int : Bytes → Option ℕ
signed_int [] = none
signed_int (c ∷ s) =
    if c == b'-'
    then in_range (2 ^ 31) 1 (read_number s)
    else in_range (2 ^ 31 - 1) 0 (if c == b'+' then read_number s else read_number (c ∷ s))

unfoldable pub stoi : Bytes → Option ℕ
unfolding skip_spaces read_digits
stoi s = signed_int (skip_spaces s)

is_digit-add : (d : ℕ) → d < 10 → is_digit (48 + d) ≡ true
is_digit-add d h = ground arith

decimal_from-append :
    (f n : ℕ) (acc rest : Bytes) → decimal_from f n acc ++ rest ≡ decimal_from f n (acc ++ rest)
unfolding decimal_from
decimal_from-append zero n acc rest = refl
decimal_from-append (suc f) n acc rest =
    ground (arith, decimal_from-append f (n / 10) ((48 + n % 10) ∷ acc) rest)

read_digits-digit :
    (v d : ℕ) (s : Bytes) → d < 10 → read_digits v ((48 + d) ∷ s) ≡ read_digits (v * 10 + d) s
unfolding read_digits
read_digits-digit v d s h =
    let back : 48 + d - 48 ≡ d = omega arith in rw (is_digit-add d h, back) refl

read_digits-decimal_from :
    (f n : ℕ) (acc : Bytes) → n < 10 ^ f → read_digits 0 (decimal_from f n acc) ≡ read_digits n acc
unfolding decimal_from
read_digits-decimal_from zero n acc h =
    let e : n ≡ 0 = omega arith in ap (λ m. read_digits m acc) (sym e)
read_digits-decimal_from (suc f) n acc h =
    let fits : n < 10 * 10 ^ f = omega (arith, pow-suc 10 f) in
    elim (Bool-cases (ltb n 10)) [
      | inl small ↦
          rw small
            (read_digits-digit 0 n acc (ground arith) ∙ ap (λ m. read_digits m acc) (omega arith))
      | inr large ↦ rw large (
          read_digits-decimal_from f (n / 10) ((48 + n % 10) ∷ acc) (omega arith)
          ∙ read_digits-digit (n / 10) (n % 10) acc (omega arith)
          ∙ ap (λ m. read_digits m acc) (omega arith))
    ]

abbrev pub NoDigit : Bytes → Type 0
NoDigit [] = Unit {0}
NoDigit (c ∷ s) = is_digit c ≡ false

read_digits-NoDigit : (v : ℕ) (rest : Bytes) → NoDigit rest → read_digits v rest ≡ (v, rest)
unfolding read_digits
read_digits-NoDigit v [] h = refl
read_digits-NoDigit v (c ∷ s) h = rw h

-- A number that is written and followed by something other than a digit is read back.
pub read_digits-decimal :
    (n : ℕ) (rest : Bytes)
    → n < 10 ^ digits_max
    → NoDigit rest
    → read_digits 0 (decimal n ++ rest) ≡ (n, rest)
unfolding decimal
read_digits-decimal n rest h e =
    ap (read_digits 0) (decimal_from-append digits_max n [] rest)
    ∙ read_digits-decimal_from digits_max n rest h
    ∙ read_digits-NoDigit n rest e

-- The first byte of a written number is a digit.
decimal_from-head :
    (f n : ℕ) (acc : Bytes)
    → (c : ℕ) × (s : Bytes) × (decimal_from (suc f) n acc ≡ c ∷ s) × (is_digit c ≡ true)
unfolding decimal_from
decimal_from-head zero n acc = elim (Bool-cases (ltb n 10)) [
  | inl small ↦ (48 + n, acc, rw small, is_digit-add n (ground arith))
  | inr large ↦ (48 + n % 10, acc, rw large, is_digit-add (n % 10) (omega arith))
]
decimal_from-head (suc f) n acc = elim (Bool-cases (ltb n 10)) [
  | inl small ↦ (48 + n, acc, rw small, is_digit-add n (ground arith))
  | inr large ↦
      let (c, s, e, d) = decimal_from-head f (n / 10) ((48 + n % 10) ∷ acc) in (c, s, rw large e, d)
]

pub decimal-head : (n : ℕ) → (c : ℕ) × (s : Bytes) × (decimal n ≡ c ∷ s) × (is_digit c ≡ true)
unfolding decimal
decimal-head n = decimal_from-head 19 n []

signed_number-digit :
    (c : ℕ) (s : Bytes) → is_digit c ≡ true → signed_number (c ∷ s) ≡ some (read_digits 0 (c ∷ s))
signed_number-digit c s d = ground arith

skip_spaces-digit : (c : ℕ) (s : Bytes) → is_digit c ≡ true → skip_spaces (c ∷ s) ≡ c ∷ s
unfolding skip_spaces
skip_spaces-digit c s d = ground arith

-- `%d` reads back what `std::to_string` wrote.
pub scan_int-decimal :
    (n : ℕ) (rest : Bytes)
    → n < 10 ^ digits_max
    → NoDigit rest
    → scan_int (decimal n ++ rest) ≡ some (n, rest)
unfolding scan_int
scan_int-decimal n rest h e =
    let (c, s, same, d) = decimal-head n in
    let back = read_digits-decimal n rest h e in
    let whole = ap (λ t. t ++ rest) same in
    rw (whole, skip_spaces-digit c (s ++ rest) d, signed_number-digit c (s ++ rest) d)
      (ap some (ap (read_digits 0) (sym whole) ∙ back))

-- Fuel that is enough gives the digits that more fuel gives.
decimal_from-fuel :
    (f n : ℕ) (acc : Bytes)
    → n < 10 ^ suc f
    → decimal_from (suc f) n acc ≡ decimal_from (suc (suc f)) n acc
unfolding decimal_from
decimal_from-fuel zero n acc h = ground arith
decimal_from-fuel (suc f) n acc h =
    let fits : n < 10 * 10 ^ suc f = omega (arith, pow-suc 10 (suc f)) in
    elim (Bool-cases (ltb n 10)) [
      | inl small ↦ rw small
      | inr large ↦ rw large (decimal_from-fuel f (n / 10) ((48 + n % 10) ∷ acc) (omega arith))
    ]

-- A number below ten is one digit, and any other is a shorter number and its last digit.
pub decimal-one : (n : ℕ) → n < 10 → decimal n ≡ (48 + n) ∷ []
unfolding decimal decimal_from
decimal-one n h = ground arith

pub decimal-last :
    (n : ℕ)
    → n < 10 ^ digits_max
    → ltb n 10 ≡ false
    → decimal n ≡ decimal (n / 10) ++ (48 + n % 10) ∷ []
unfolding decimal decimal_from
decimal-last n h large = rw large (
    sym (decimal_from-append 19 (n / 10) [] ((48 + n % 10) ∷ []))
    ∙ ap (λ t. t ++ (48 + n % 10) ∷ []) (decimal_from-fuel 18 (n / 10) [] (omega arith)))

abbrev pub AreDigits : Bytes → Type 0
AreDigits [] = Unit {0}
AreDigits (c ∷ s) = (is_digit c ≡ true) × AreDigits s

decimal_from-AreDigits : (f n : ℕ) (acc : Bytes) → AreDigits acc → AreDigits (decimal_from f n acc)
unfolding decimal_from
decimal_from-AreDigits zero n acc h = h
decimal_from-AreDigits (suc f) n acc h = elim (Bool-cases (ltb n 10)) [
  | inl small ↦ rw small (is_digit-add n (ground arith), h)
  | inr large ↦ rw large (
      decimal_from-AreDigits f (n / 10) ((48 + n % 10) ∷ acc)
        (is_digit-add (n % 10) (omega arith), h))
]

pub decimal-AreDigits : (n : ℕ) → AreDigits (decimal n)
unfolding decimal
decimal-AreDigits n = decimal_from-AreDigits digits_max n [] tt

signed_int-digit :
    (c : ℕ) (s : Bytes)
    → is_digit c ≡ true
    → signed_int (c ∷ s) ≡ in_range (2 ^ 31 - 1) 0 (some (read_digits 0 (c ∷ s)))
signed_int-digit c s d = ground arith

-- `std::stoi` reads back what `std::to_string` wrote, if it fits an `int`.
pub stoi-decimal : (n : ℕ) → n < 2 ^ 31 → stoi (decimal n) ≡ some n
unfolding stoi
stoi-decimal n h =
    let (c, s, same, d) = decimal-head n in
    let back =
      ap (read_digits 0) (sym (append-nil (decimal n)))
      ∙ read_digits-decimal n [] (omega arith) tt in
    rw (same, skip_spaces-digit c s d, signed_int-digit c s d)
      (ap (in_range (2 ^ 31 - 1) 0) (ap some (ap (read_digits 0) (sym same) ∙ back)) ∙ ground arith)
