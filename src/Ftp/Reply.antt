-- ===== src/Ftp/Reply.antt =====
-- When a reply of the FTP server is complete: `CProtocolFTP::IsMessageComplete`
-- (INCLUDE/CProtocolFTP.hpp), and what that means for single-line replies.
use cpp_npl.Base.{
  ℕ, zero, suc, ◌-◌, ◌≤◌, ◌≡◌, refl, sym, ap, ◌∙◌, ◌≢◌, inl, inr, Bool, true, false, ◌&&◌, ◌||◌,
  Option, none, some, [], ◌∷◌, ◌++◌, append_assoc, Bytes, length, length-append, get_or, take,
  starts_with, leb, ◌==◌, if◌then◌else◌, Bool-cases, ==_refl, arith,
}
use cpp_npl.Base.Decimal.{is_digit}
use cpp_npl.Protocol.{Subclass}
use cpp_npl.Protocol.Stream.{IsFrame}

-- `memcmp` with the code at each of the first positions of a text.
scan_code : Bytes → ℕ → Bytes → Bool
scan_code code zero text = false
scan_code code (suc k) [] = false
scan_code code (suc k) (x ∷ text) = starts_with code (x ∷ text) || scan_code code k text

abbrev ends_line : Bytes → Bool
ends_line b = get_or b (length b - 2) 0 == 13 && get_or b (length b - 1) 0 == 10

-- The loop compares four bytes at every position, the last three of the buffer included, and there
-- it reads on: `beyond` is what the memory holds behind the buffer.
unfoldable pub is_message_complete : Bytes → Bytes → Option Bytes
unfolding scan_code
is_message_complete beyond b =
    if leb 4 (length b) && ends_line b && scan_code (take 3 b ++ 32 ∷ []) (length b) (b ++ beyond)
    then some b
    else none

abbrev HasTwoDigits : Bytes → Type 0
HasTwoDigits (x ∷ y ∷ s) = (is_digit x ≡ true) × (is_digit y ≡ true)
HasTwoDigits _ = ⊥

ends_line-cons : (x : ℕ) (s : Bytes) → 2 ≤ length s → ends_line (x ∷ s) ≡ ends_line s
ends_line-cons x s h =
    let e : suc (length s) - 2 ≡ suc (length s - 2) = omega arith in
    let d : suc (length s) - 1 ≡ suc (length s - 1) = omega arith in rw (e, d)

ends_line-append : (s : Bytes) → ends_line (s ++ 13 ∷ 10 ∷ []) ≡ true
ends_line-append [] = refl
ends_line-append (x ∷ s) =
    ends_line-cons x (s ++ 13 ∷ 10 ∷ []) (omega (arith, length-append s (13 ∷ 10 ∷ [])))
    ∙ ends_line-append s

-- A code of three bytes and a space does not straddle the end of a text that closes a line.
scan_code_beyond :
    (x y z : ℕ) (text beyond : Bytes)
    → is_digit x ≡ true
    → is_digit y ≡ true
    → ends_line text ≡ true
    → scan_code (x ∷ y ∷ z ∷ 32 ∷ []) (length text) (text ++ beyond)
      ≡ scan_code (x ∷ y ∷ z ∷ 32 ∷ []) (length text) text
unfolding scan_code
scan_code_beyond x y z [] beyond dx dy e = refl
scan_code_beyond x y z (a ∷ []) beyond dx dy e = ground arith
scan_code_beyond x y z (a ∷ b ∷ []) beyond dx dy e = ground arith
scan_code_beyond x y z (a ∷ b ∷ c ∷ []) beyond dx dy e =
    let tail_ends = sym (ends_line-cons a (b ∷ c ∷ []) (omega arith)) ∙ e in
    rw (scan_code_beyond x y z (b ∷ c ∷ []) beyond dx dy tail_ends) (ground arith)
scan_code_beyond x y z (a ∷ b ∷ c ∷ d ∷ s) beyond dx dy e =
    let tail_ends = sym (ends_line-cons a (b ∷ c ∷ d ∷ s) (omega arith)) ∙ e in
    ap (λ t. starts_with (x ∷ y ∷ z ∷ 32 ∷ []) (a ∷ b ∷ c ∷ d ∷ s) || t)
      (scan_code_beyond x y z (b ∷ c ∷ d ∷ s) beyond dx dy tail_ends)

-- Where the buffer begins with two digits, `IsMessageComplete` gives the same answer whatever the
-- memory holds behind the buffer, although it reads there.
pub is_message_complete_beyond :
    (x y : ℕ) (rest beyond : Bytes)
    → is_digit x ≡ true
    → is_digit y ≡ true
    → is_message_complete beyond (x ∷ y ∷ rest) ≡ is_message_complete [] (x ∷ y ∷ rest)
unfolding is_message_complete
is_message_complete_beyond x y [] beyond dx dy = refl
is_message_complete_beyond x y (z ∷ rest) beyond dx dy =
    let b : Bytes = x ∷ y ∷ z ∷ rest in
    elim (Bool-cases (ends_line (x ∷ y ∷ z ∷ rest))) [
      | inl e ↦
          ap (λ t. if leb 4 (length b) && ends_line b && t then some b else none)
            (scan_code_beyond x y z b beyond dx dy e ∙ sym (scan_code_beyond x y z b [] dx dy e))
      | inr e ↦ ground arith
    ]

abbrev pub NoLf : Bytes → Type 0
NoLf [] = Unit {0}
NoLf (c ∷ s) = (c ≢ 10) × NoLf s

NoLf-get_or : (s : Bytes) (i : ℕ) → NoLf s → get_or s i 0 ≢ 10
NoLf-get_or [] i h = ground arith
NoLf-get_or (c ∷ s) zero h = h.0
NoLf-get_or (c ∷ s) (suc i) h = NoLf-get_or s i h.1

NoLf-append : (s t : Bytes) → NoLf s → NoLf t → NoLf (s ++ t)
NoLf-append [] t h k = k
NoLf-append (c ∷ s) t h k = (h.0, NoLf-append s t h.1 k)

not_ending : (beyond s : Bytes) → NoLf s → is_message_complete beyond s ≡ none
unfolding is_message_complete
not_ending beyond s h = ground (arith, NoLf-get_or s (length s - 1) h)

-- What leaves out the end of a text that has its only line feed there has no line feed.
append-ne-nil : (s : Bytes) (b : ℕ) (t : Bytes) → s ++ b ∷ t ≢ []
append-ne-nil [] b t = cc
append-ne-nil (c ∷ s) b t = cc

NoLf-front :
    (front : Bytes) (b : ℕ) (back line : Bytes)
    → front ++ b ∷ back ≡ line ++ 10 ∷ []
    → NoLf line
    → NoLf front
NoLf-front [] b back line e h = tt
NoLf-front (c ∷ front) b back [] e h =
    let nothing : front ++ b ∷ back ≡ [] = cc in absurd (append-ne-nil front b back nothing)
NoLf-front (c ∷ front) b back (d ∷ line) e h =
    let same : c ≡ d = cc in
    let rest : front ++ b ∷ back ≡ line ++ 10 ∷ [] = cc in
    ((λ q. h.0 (sym same ∙ q)), NoLf-front front b back line rest h.1)

-- A reply of one line: three digits, a space, text with no line feed, and the end of the line.
abbrev pub single_line : ℕ → ℕ → ℕ → Bytes → Bytes
single_line x y z text = x ∷ y ∷ z ∷ 32 ∷ text ++ 13 ∷ 10 ∷ []

single_line_whole :
    (beyond : Bytes) (x y z : ℕ) (text : Bytes)
    → is_message_complete beyond (single_line x y z text) ≡ some (single_line x y z text)
unfolding is_message_complete
single_line_whole beyond x y z text =
    rw (ends_line-append (x ∷ y ∷ z ∷ 32 ∷ text))
      (ground (arith, length-append text (13 ∷ 10 ∷ []), ==_refl x, ==_refl y, ==_refl z))

-- The reader of CProtocol with this `IsMessageComplete`, and any state machine.
abbrev pub replies : {S : Type 0} → Bytes → (Bytes → S → S) → Subclass S Bytes
replies beyond machine = record {
  is_message_complete = λ s b. is_message_complete beyond b;
  state_machine = machine;
}

-- A reply of one line is a frame: complete at its end, and not before.
pub single_line-IsFrame :
    {S : Type 0} (beyond : Bytes) (machine : Bytes → S → S) (s : S) (x y z : ℕ) (text : Bytes)
    → is_digit x ≡ true
    → is_digit y ≡ true
    → is_digit z ≡ true
    → NoLf text
    → IsFrame (replies beyond machine) s (single_line x y z text) (single_line x y z text)
single_line-IsFrame beyond machine s x y z text dx dy dz h = record {
  whole = single_line_whole beyond x y z text;
  minimal = λ front b back e. not_ending beyond front (
      NoLf-front front b back (x ∷ y ∷ z ∷ 32 ∷ text ++ 13 ∷ [])
        (e ∙ ap (λ t. x ∷ y ∷ z ∷ 32 ∷ t) (sym (append_assoc text (13 ∷ []) (10 ∷ []))))
        (ground (arith, NoLf-append text (13 ∷ []) h (omega arith))));
}
