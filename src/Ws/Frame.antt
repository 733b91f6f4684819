-- ===== src/Ws/Frame.antt =====
-- CWSMessage and the framing methods of CProtocolWS (INCLUDE/CProtocolWS.hpp).
use cpp_npl.Base.{
  ℕ, suc, ◌+◌, ◌%◌, ◌^◌, ◌<◌, ◌≡◌, bit_and, bit_xor, Bool, ◌&&◌, Option, none, some, [], ◌∷◌, ◌++◌,
  Bytes, length, get_or, take, drop, is_empty, ltb, leb, ◌==◌, if◌then◌else◌, not,
}

-- `BTOL` and `LTOB` of the library beside this one: the number in the first bytes of a buffer, and a
-- number written into as many bytes as asked for.
pub record ByteOrder : Type 0 where
  pub btol : Bytes → ℕ → ℕ
  pub ltob : ℕ → ℕ → Bytes

-- What the code relies on: as many bytes as asked for, which read back as the number, if it fits.
pub record IsByteOrder (o : ByteOrder) : Type 0 where
  pub width : (v n : ℕ) → length (o.ltob v n) ≡ n
  pub back : (v n : ℕ) (rest : Bytes) → v < 256 ^ n → o.btol (o.ltob v n ++ rest) n ≡ v

abbrev byte_at : Bytes → ℕ → ℕ
byte_at b i = get_or b i 0

-- `GetOpCode`, `IsControlFrame` and `IsMasked`.
unfoldable pub get_op_code : Bytes → ℕ
get_op_code m = bit_and (byte_at m 0) 0x0F

unfoldable pub is_control_frame : Bytes → Bool
unfolding get_op_code
is_control_frame m = not (bit_and (get_op_code m) 0x08 == 0)

-- `b[1] & 0x80` and `b[1] & 0x7F`, of a byte.
unfoldable pub is_masked : Bytes → Bool
is_masked m = leb 128 (byte_at m 1)

abbrev pub indicator : Bytes → ℕ
indicator m = byte_at m 1 % 128

-- The loop of `ParseMessage` over the payload: `^` with the key's four bytes in turn. Its index is an
-- `int`, which `parse_body` keeps from overflowing.
unfoldable pub mask_from : ℕ → Bytes → Bytes → Bytes
mask_from i key [] = []
mask_from i key (x ∷ s) = bit_xor x (get_or key (i % 4) 0) ∷ mask_from (suc i) key s

-- What a parse comes to. `assertion` is a failed `assert`; `overrun` is a read behind the message;
-- `overflow` is one step too many of the loop's `int`.
pub data Parsed : Type 0 where
  payload : Bytes → Parsed
  assertion overrun overflow : Parsed

-- A message, or a run that ends in a fault.
pub data Delivery : Type 0 where
  message : Bytes → Bytes → Delivery
  crash : Delivery

-- `maskingKey` is four bytes of the stack, set only for a masked message that holds the key.
unfoldable pub masking_key : Bytes → Bytes → ℕ → Bytes
unfolding is_masked
masking_key stack m at =
    if is_masked m && leb (at + 4) (length m) then take 4 (drop at m) else stack

unfoldable pub payload_index : Bytes → ℕ → ℕ
unfolding is_masked
payload_index m at = at + (if is_masked m then 4 else 0)

-- The rest of `ParseMessage`. The sum of the two `size_t` wraps. The `int` of the loop goes up to
-- `2 ^ 31 - 1`: a payload of that many bytes is the longest that it gets through.
unfoldable pub parse_body : Bytes → Bytes → ℕ × ℕ → Parsed
unfolding masking_key payload_index mask_from
parse_body stack m (len, at) =
    if (payload_index m at + len) % 2 ^ 64 == length m
    then (if leb (payload_index m at + len) (length m)
        then (if ltb len (2 ^ 31)
            then payload
                (mask_from 0 (masking_key stack m at) (take len (drop (payload_index m at) m)))
            else overflow)
        else overrun)
    else payload []

abbrev pub delivery : Bytes → Parsed → Option Delivery
delivery m (payload p) = if is_empty p then none else some (message m p)
delivery m assertion = some crash
delivery m overrun = some crash
delivery m overflow = some crash

module _ (o : ByteOrder) where
  -- The payload's length and the position of the masking key; `none` is the early return.
  unfoldable pub lengths : Bytes → Option (ℕ × ℕ)
  lengths m =
      if leb (indicator m) 125
      then some (indicator m, 2)
      else (if indicator m == 126 && leb 4 (length m)
          then some (o.btol (drop 2 m) 2 % 2 ^ 64, 4)
          else (if indicator m == 127 && leb 10 (length m)
              then some (o.btol (drop 2 m) 8 % 2 ^ 64, 10)
              else none))

  -- `ParseMessage`: `iPayload` afterwards.
  unfoldable pub parse_message : Bytes → Bytes → Parsed
  parse_message stack m =
      if ltb (length m) 2
      then assertion
      else elim (lengths m) [ none ↦ payload [] | some found ↦ parse_body stack m found ]

  -- `IsMessageComplete` on a buffer and its length, once the handshake is done.
  unfoldable pub is_message_complete : Bytes → Bytes → Option Delivery
  is_message_complete stack b =
      if ltb (length b) 2 then none else delivery b (parse_message stack b)

  -- The header that `SendProtocolMessage` writes.
  unfoldable pub frame_header : ℕ → Bytes
  frame_header len =
      if leb len 125
      then 0x81 ∷ len ∷ []
      else (if leb len 0xFFFF then 0x81 ∷ 126 ∷ o.ltob len 2 else 0x81 ∷ 127 ∷ o.ltob len 8)

  -- What `SendProtocolMessage` writes to its target.
  unfoldable pub send_protocol_message : Bytes → Bytes
  unfolding frame_header
  send_protocol_message text = frame_header (length text) ++ text
