-- ===== src/Ws/Header.antt =====
-- The header of a masked frame, as CProtocolWS (INCLUDE/CProtocolWS.hpp) reads it.
use cpp_npl.Base.{
  ℕ, suc, ◌+◌, ◌^◌, ◌<◌, ◌≡◌, refl, ap, ap₂, ◌≢◌, ◌⊎◌, inl, inr, true, false, Option, none, some,
  [], ◌∷◌, ◌++◌, Bytes, length, length-append, take, drop, ltb, leb, if◌then◌else◌, Bool-cases,
  arith,
}
use cpp_npl.Ws.Frame.{
  ByteOrder, IsByteOrder, is_masked, mask_from, payload, delivery, lengths, masking_key,
  payload_index, parse_body, parse_message, is_message_complete,
}

-- The short length of a frame's second byte, and the long one behind it.
abbrev pub short : ℕ → ℕ
short len = if leb len 125 then len else (if leb len 0xFFFF then 126 else 127)

abbrev pub long : ByteOrder → ℕ → Bytes
long o len = if leb len 125 then [] else (if leb len 0xFFFF then o.ltob len 2 else o.ltob len 8)

-- A frame as RFC 6455 has a client send it: any first byte, the length with the mask's bit, the
-- key and the masked text.
abbrev pub client_frame : ByteOrder → ℕ → Bytes → Bytes → Bytes
client_frame o first key text =
    first ∷ (128 + short (length text)) ∷ long o (length text) ++ (key ++ mask_from 0 key text)

module _ (o : ByteOrder) (b : IsByteOrder o) where
  -- The lengths of a message that has its long length, whatever follows.
  pub lengths_known :
      (first len : ℕ) (t : Bytes)
      → len < 2 ^ 63
      → lengths o (first ∷ (128 + short len) ∷ long o len ++ t)
        ≡ some (len, 2 + length (long o len))
  unfolding lengths
  lengths_known first len t h = elim (Bool-cases (leb len 125)) [
    | inl s ↦ rw s (ground arith)
    | inr s ↦ elim (Bool-cases (leb len 0xFFFF)) [
      | inl m ↦
          rw (s, m) (ground (arith, b.width len 2, length-append (o.ltob len 2) t, b.back len 2 t))
      | inr l ↦
          rw (s, l) (ground (arith, b.width len 8, length-append (o.ltob len 8) t, b.back len 8 t))
    ]
  ]

  -- The lengths of a message that ends within its long length.
  pub lengths_unknown :
      (first len : ℕ) (t : Bytes)
      → length t < length (long o len)
      → lengths o (first ∷ (128 + short len) ∷ t) ≡ none
  unfolding lengths
  lengths_unknown first len t h = elim (Bool-cases (leb len 125)) [
    | inl s ↦ absurd (ground arith)
    | inr s ↦ elim (Bool-cases (leb len 0xFFFF)) [
      | inl m ↦ rw (s, m) (ground (arith, b.width len 2))
      | inr l ↦ rw (s, l) (ground (arith, b.width len 8))
    ]
  ]

-- A text that begins with another ends within it, or goes on behind it.
pub split_prefix :
    (s e back r : Bytes)
    → s ++ back ≡ e ++ r
    → (length s < length e) ⊎ ((t : Bytes) × (s ≡ e ++ t) × (t ++ back ≡ r))
split_prefix s [] back r h = inr (s, refl, h)
split_prefix [] (x ∷ e) back r h = inl (omega arith)
split_prefix (y ∷ s) (x ∷ e) back r h =
    let same : y ≡ x = cc in
    let more : s ++ back ≡ e ++ r = cc in
    elim (split_prefix s e back r more) [
      | inl short ↦ inl (omega arith)
      | inr (t, e1, e2) ↦ inr (t, ap₂ (λ a b. a ∷ b) same e1, e2)
    ]

-- The last part of `ParseMessage` for a masked message.
module _ (stack m : Bytes) (len at : ℕ) (masked : is_masked m ≡ true) where
  pub parse_partial :
      at + 4 + len ≢ length m → at + 4 + len < 2 ^ 64 → parse_body stack m (len, at) ≡ payload []
  unfolding parse_body payload_index
  parse_partial h f = rw masked (ground arith)

  pub parse_whole :
      at + 4 + len ≡ length m
      → at + 4 + len < 2 ^ 64
      → len < 2 ^ 31
      → parse_body stack m (len, at)
        ≡ payload (mask_from 0 (take 4 (drop at m)) (take len (drop (at + 4) m)))
  unfolding parse_body payload_index masking_key
  parse_whole h f s = rw masked (ground arith)

module _ (o : ByteOrder) (stack : Bytes) where
  pub complete_of :
      (x y : ℕ) (s : Bytes) (found : Option (ℕ × ℕ))
      → lengths o (x ∷ y ∷ s) ≡ found
      → is_message_complete o stack (x ∷ y ∷ s)
        ≡ delivery
            (x ∷ y ∷ s)
            (elim found [ none ↦ payload [] | some f ↦ parse_body stack (x ∷ y ∷ s) f ])
  unfolding is_message_complete parse_message
  complete_of x y s found e =
      let long_enough : ltb (suc (suc (length s))) 2 ≡ false = ground arith in
      rw long_enough (
        ap
          (λ k.
            delivery (x ∷ y ∷ s)
              (elim k [ none ↦ payload [] | some f ↦ parse_body stack (x ∷ y ∷ s) f ]))
          e)
