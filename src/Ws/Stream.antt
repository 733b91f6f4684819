-- ===== src/Ws/Stream.antt =====
-- A stream of masked frames, as a client sends them, through `IsMessageComplete` of CProtocolWS
-- (INCLUDE/CProtocolWS.hpp) and `OnRead` of CProtocol (INCLUDE/CProtocol.hpp).
use cpp_npl.Base.{
  ℕ, suc, ◌+◌, ◌^◌, ◌≤◌, ◌<◌, ◌≡◌, refl, sym, ap, ap₂, ◌∙◌, inl, inr, true, false, none, some, List,
  [], ◌∷◌, ◌++◌, append_assoc, append-nil, Bytes, length, length-append, take, drop, drop-length,
  take-length, is_empty, if◌then◌else◌, arith,
}
use cpp_npl.Ws.Frame.{
  ByteOrder, IsByteOrder, is_masked, mask_from, payload, Delivery, message, delivery, parse_body,
  is_message_complete,
}
use cpp_npl.Protocol.{Subclass, Reader, on_read}
use cpp_npl.Protocol.Stream.{AreFrames, accept_all, frames, on_read-frames}
use cpp_npl.Ws.Masking.{AreBytes, mask_from_twice, length-mask_from}
use cpp_npl.Ws.Header.{
  short, long, client_frame, lengths_known, lengths_unknown, split_prefix, parse_partial,
  parse_whole, complete_of,
}

length-long : (o : ByteOrder) (len : ℕ) → IsByteOrder o → length (long o len) ≤ 8
length-long o len b = ground (arith, b.width len 2, b.width len 8)

masked_byte : (x y : ℕ) (s : Bytes) → is_masked (x ∷ (128 + y) ∷ s) ≡ true
unfolding is_masked
masked_byte x y s = ground arith

abbrev behind : Bytes → Bytes → Bytes
behind key text = key ++ mask_from 0 key text

module _ (o : ByteOrder) (b : IsByteOrder o) (stack : Bytes) (first : ℕ) (key text : Bytes)
    (four : length key ≡ 4) (fits : length text < 2 ^ 31) where
  behind-length : length (behind key text) ≡ 4 + length text
  behind-length =
      omega (arith, four, length-append key (mask_from 0 key text), length-mask_from 0 key text)

  -- A frame that breaks off is not complete.
  partial_long :
      (t : Bytes)
      → length t < length (behind key text)
      → is_message_complete o stack
          (first ∷ (128 + short (length text)) ∷ long o (length text) ++ t)
        ≡ none
  partial_long t h =
      let len = length text in
      let m : Bytes = first ∷ (128 + short len) ∷ long o len ++ t in
      let size = length-append (long o len) t in
      complete_of o stack first (128 + short len) (long o len ++ t) _
        (lengths_known o b first len t (omega arith))
      ∙ ap (delivery m) (
          parse_partial stack m len (2 + length (long o len))
            (masked_byte first (short len) (long o len ++ t)) (omega (arith, size, behind-length))
            (omega (arith, length-long o len b)))

  partial_short :
      (t : Bytes)
      → length t < length (long o (length text))
      → is_message_complete o stack (first ∷ (128 + short (length text)) ∷ t) ≡ none
  partial_short t h =
      complete_of o stack first (128 + short (length text)) t _
        (lengths_unknown o b first (length text) t h)

  pub partial_frame :
      (front : Bytes) (c : ℕ) (back : Bytes)
      → front ++ c ∷ back ≡ client_frame o first key text
      → is_message_complete o stack front ≡ none
  partial_frame [] c back e = unfold is_message_complete in refl
  partial_frame (x ∷ []) c back e = unfold is_message_complete in refl
  partial_frame (x ∷ y ∷ s) c back e =
      let same_x : x ≡ first = cc in
      let same_y : y ≡ 128 + short (length text) = cc in
      let tails : s ++ c ∷ back ≡ long o (length text) ++ behind key text = cc in
      let heads = ap₂ (λ u v. is_message_complete o stack (u ∷ v ∷ s)) same_x same_y in
      elim (split_prefix s (long o (length text)) (c ∷ back) (behind key text) tails) [
        | inl short_of ↦ heads ∙ partial_short s short_of
        | inr (t, e1, e2) ↦
            heads
            ∙ ap (λ u. is_message_complete o stack (first ∷ (128 + short (length text)) ∷ u)) e1
            ∙ partial_long t (omega (arith, ap length e2, length-append t (c ∷ back)))
      ]

  take_key : take 4 (behind key text) ≡ key
  take_key = ap (λ n. take n (behind key text)) (sym four) ∙ take-length key (mask_from 0 key text)

  drop_header :
      (t : Bytes)
      → drop
          (2 + length (long o (length text)))
          (first ∷ (128 + short (length text)) ∷ long o (length text) ++ t)
        ≡ t
  drop_header t =
      let e : 2 + length (long o (length text)) ≡ suc (suc (length (long o (length text)))) =
        omega arith in
      ap (λ n. drop n (first ∷ (128 + short (length text)) ∷ long o (length text) ++ t)) e
      ∙ drop-length (long o (length text)) t

  at : ℕ
  at = 2 + length (long o (length text))

  drop_key : drop (at + 4) (client_frame o first key text) ≡ mask_from 0 key text
  unfolding at
  drop_key =
      let e : 2 + length (long o (length text)) + 4
          ≡ suc (suc (length (long o (length text) ++ key))) =
        omega (arith, four, length-append (long o (length text)) key) in
      ap (λ n. drop n (client_frame o first key text)) e
      ∙ ap (drop (length (long o (length text) ++ key)))
          (sym (append_assoc (long o (length text)) key (mask_from 0 key text)))
      ∙ drop-length (long o (length text) ++ key) (mask_from 0 key text)

  parsed_frame :
      AreBytes key
      → AreBytes text
      → parse_body stack (client_frame o first key text) (length text, at) ≡ payload text
  unfolding at
  parsed_frame hk ht =
      let len = length text in
      let masked = mask_from 0 key text in
      let masked_length = length-mask_from 0 key text in
      parse_whole stack (client_frame o first key text) len (2 + length (long o len))
        (masked_byte first (short len) (long o len ++ behind key text))
        (omega (arith, length-append (long o len) (behind key text), behind-length))
        (omega (arith, length-long o len b)) fits
      ∙ ap payload (
          ap₂ (mask_from 0) (ap (take 4) (drop_header (behind key text)) ∙ take_key) (
            ap (take len) drop_key
            ∙ ap (λ n. take n masked) (sym masked_length)
            ∙ (ap (take (length masked)) (sym (append-nil masked)) ∙ take-length masked [])))
      ∙ ap payload (mask_from_twice 0 key text hk ht)

  pub whole_frame :
      AreBytes key
      → AreBytes text
      → is_empty text ≡ false
      → is_message_complete o stack (client_frame o first key text)
        ≡ some (message (client_frame o first key text) text)
  unfolding at
  whole_frame hk ht h =
      let len = length text in
      let m : Bytes = client_frame o first key text in
      complete_of o stack first (128 + short len) (long o len ++ behind key text) _
        (lengths_known o b first len (behind key text) (omega arith))
      ∙ ap (delivery m) (parsed_frame hk ht)
      ∙ ap (λ e. if e then none else some (message m text)) h

-- The reader of CProtocol once the WebSocket handshake is done, with any state machine.
abbrev pub ws_reader : {S : Type 0} → ByteOrder → Bytes → (Delivery → S → S) → Subclass S Delivery
ws_reader o stack machine = record {
  is_message_complete = λ s b. is_message_complete o stack b;
  state_machine = machine;
}

pub record ClientMessage : Type 0 where
  pub first : ℕ
  pub key : Bytes
  pub text : Bytes

-- What a client may send: a key of four bytes, and a text that is not empty and shorter
-- than 2 ^ 31 bytes.
pub record IsSendable (m : ClientMessage) : Type 0 where
  pub four : length m.key ≡ 4
  pub key_bytes : AreBytes m.key
  pub text_bytes : AreBytes m.text
  pub not_empty : is_empty m.text ≡ false
  pub fits : length m.text < 2 ^ 31

abbrev pub AllSendable : List ClientMessage → Type 0
AllSendable [] = Unit {0}
AllSendable (m ∷ ms) = IsSendable m × AllSendable ms

abbrev pub framed : ByteOrder → List ClientMessage → List (Bytes × Delivery)
framed o [] = []
framed o (m ∷ ms) =
    let f = client_frame o m.first m.key m.text in (f, message f m.text) ∷ framed o ms

module _ {S : Type 0} (o : ByteOrder) (b : IsByteOrder o) (stack : Bytes)
    (machine : Delivery → S → S) where
  framed-AreFrames :
      (ms : List ClientMessage) (s : S)
      → AllSendable ms
      → AreFrames (ws_reader o stack machine) s (framed o ms)
  framed-AreFrames [] s h = tt
  framed-AreFrames (m ∷ ms) s (h, hs) = (
    record {
      whole =
          whole_frame o b stack m.first m.key m.text h.four h.fits h.key_bytes h.text_bytes
            h.not_empty;
      minimal = partial_frame o b stack m.first m.key m.text h.four h.fits;
    },
    (λ e. cc),
    framed-AreFrames ms _ hs,
  )

  -- Masked frames of any of the three length forms, with texts of at least one byte and less than
  -- 2 ^ 31 each, sent one behind the other and read from an empty buffer, are accepted one by one and in their order, each with its text unmasked, and
  -- none earlier than at its last byte. What the stack held before does not matter.
  pub ws_stream :
      (ms : List ClientMessage) (r : Reader S Delivery)
      → AllSendable ms
      → r.buffer ≡ []
      → on_read (ws_reader o stack machine) (frames (ws_reader o stack machine) (framed o ms)) r
        ≡ accept_all (ws_reader o stack machine) (framed o ms) r
  ws_stream ms r h e =
      on_read-frames (ws_reader o stack machine) (framed o ms) r (framed-AreFrames ms r.inner h) e
