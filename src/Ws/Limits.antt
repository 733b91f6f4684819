-- ===== src/Ws/Limits.antt =====
-- Frames that CWSMessage (INCLUDE/CProtocolWS.hpp) does not read as they are meant: those with no
-- payload, those with no mask, and those whose length makes the sum of two `size_t` wrap.
use cpp_npl.Base.{
  ℕ, ◌-◌, ◌^◌, ◌≤◌, ◌≡◌, refl, sym, ap, subst, ◌∙◌, false, none, some, [], ◌∷◌, ◌++◌, append_assoc,
  append-nil, Bytes, length, take, take-length, is_empty, if◌then◌else◌, arith,
}
use cpp_npl.Protocol.{Reader, on_byte, on_read}
use cpp_npl.Ws.Frame.{
  ByteOrder, IsByteOrder, is_masked, mask_from, payload, overrun, Delivery, message, crash,
  delivery, lengths, masking_key, payload_index, parse_body, parse_message, is_message_complete,
  send_protocol_message, frame_header,
}
use cpp_npl.Ws.Stream.{ws_reader}
use cpp_npl.Ws.Header.{complete_of}

-- A masked frame of no payload, as a ping or a close often is, with anything behind it.
empty_incomplete :
    (o : ByteOrder) (stack : Bytes) (first k1 k2 k3 k4 : ℕ) (rest : Bytes)
    → is_message_complete o stack (first ∷ 128 ∷ k1 ∷ k2 ∷ k3 ∷ k4 ∷ rest) ≡ none
unfolding is_message_complete parse_message lengths parse_body
empty_incomplete o stack first k1 k2 k3 k4 rest = ground arith

module _ {S : Type 0} (o : ByteOrder) (stack : Bytes) (machine : Delivery → S → S)
    (first k1 k2 k3 k4 : ℕ) where
  stuck_byte :
      (rest : Bytes) (c : ℕ) (r : Reader S Delivery)
      → r.buffer ≡ first ∷ 128 ∷ k1 ∷ k2 ∷ k3 ∷ k4 ∷ rest
      → on_byte (ws_reader o stack machine) c r ≡ record r { buffer = r.buffer ++ c ∷ [] }
  unfolding on_byte
  stuck_byte rest c r e = rw (incomplete) refl
    where
      incomplete : is_message_complete o stack (r.buffer ++ c ∷ []) ≡ none
      incomplete =
          ap (λ b. is_message_complete o stack (b ++ c ∷ [])) e
          ∙ empty_incomplete o stack first k1 k2 k3 k4 (rest ++ c ∷ [])

  -- Once a masked frame of no payload stands at the head of the buffer, nothing that comes later is
  -- ever accepted: whatever is read, the messages and the inner state stay as they are, and the
  -- buffer grows by all of it.
  pub empty_frame_blocks :
      (bs rest : Bytes) (r : Reader S Delivery)
      → r.buffer ≡ first ∷ 128 ∷ k1 ∷ k2 ∷ k3 ∷ k4 ∷ rest
      → on_read (ws_reader o stack machine) bs r ≡ record r { buffer = r.buffer ++ bs }
  unfolding on_read
  empty_frame_blocks [] rest r e = ap (λ b. record r { buffer = b }) (sym (append-nil r.buffer))
  empty_frame_blocks (c ∷ bs) rest r e =
      ap (on_read (ws_reader o stack machine) bs) (stuck_byte rest c r e)
      ∙ empty_frame_blocks bs (rest ++ c ∷ []) (record r { buffer = r.buffer ++ c ∷ [] })
          (ap (λ b. b ++ c ∷ []) e)
      ∙ ap (λ b. record r { buffer = b }) (append_assoc r.buffer (c ∷ []) bs)

sent_short :
    (o : ByteOrder) (text : Bytes)
    → length text ≤ 125
    → send_protocol_message o text ≡ 129 ∷ length text ∷ text
unfolding send_protocol_message frame_header
sent_short o text f = ground arith

module _ (o : ByteOrder) (stack text : Bytes) (f : length text ≤ 125) where
  short_lengths : lengths o (129 ∷ length text ∷ text) ≡ some (length text, 2)
  unfolding lengths
  short_lengths = ground arith

  short_body :
      parse_body stack (129 ∷ length text ∷ text) (length text, 2)
      ≡ payload (mask_from 0 stack (take (length text) text))
  unfolding parse_body payload_index masking_key is_masked
  short_body = ground arith

take_all : (s : Bytes) → take (length s) s ≡ s
take_all s = ap (take (length s)) (sym (append-nil s)) ∙ take-length s []

not_empty-mask :
    (stack text : Bytes) → is_empty text ≡ false → is_empty (mask_from 0 stack text) ≡ false
unfolding mask_from
not_empty-mask stack [] h = cc
not_empty-mask stack (x ∷ text) h = refl

-- A frame of at most 125 bytes that the program itself sends has no mask. Read by the same class,
-- its text comes out changed by whatever the stack held where the key would be.
pub unmasked_text :
    (o : ByteOrder) (stack text : Bytes)
    → is_empty text ≡ false
    → length text ≤ 125
    → is_message_complete o stack (send_protocol_message o text)
      ≡ some (message (send_protocol_message o text) (mask_from 0 stack text))
unmasked_text o stack text h f =
    let m : Bytes = 129 ∷ length text ∷ text in
    let whole : is_message_complete o stack m ≡ some (message m (mask_from 0 stack text)) =
      complete_of o stack 129 (length text) text _ (short_lengths o stack text f)
      ∙ ap (delivery m)
          (short_body o stack text f ∙ ap (λ t. payload (mask_from 0 stack t)) (take_all text))
      ∙ ap (λ e. if e then none else some (message m (mask_from 0 stack text)))
          (not_empty-mask stack text h) in
    subst (λ t. is_message_complete o stack t ≡ some (message t (mask_from 0 stack text)))
      (sym (sent_short o text f)) whole

wrapped_body :
    (stack t : Bytes) (first : ℕ)
    → length t ≡ 8
    → parse_body stack (first ∷ 255 ∷ t) (2 ^ 64 - 4, 10) ≡ overrun
unfolding parse_body payload_index is_masked
wrapped_body stack t first h = ground arith

wrapped_lengths :
    (o : ByteOrder) (first : ℕ)
    → IsByteOrder o
    → lengths o (first ∷ 255 ∷ o.ltob (2 ^ 64 - 4) 8) ≡ some (2 ^ 64 - 4, 10)
unfolding lengths
wrapped_lengths o first b =
    let back : o.btol (o.ltob (2 ^ 64 - 4) 8) 8 ≡ 2 ^ 64 - 4 =
      ap (λ t. o.btol t 8) (sym (append-nil (o.ltob (2 ^ 64 - 4) 8)))
      ∙ b.back (2 ^ 64 - 4) 8 [] (omega arith) in
    ground (arith, b.width (2 ^ 64 - 4) 8, back)

-- A length of 2 ^ 64 - 4 in a masked frame, cut off before its key: the sum with the payload's
-- position wraps to the ten bytes that are there, and the loop reads behind the message.
pub length_wraps :
    (o : ByteOrder) (stack : Bytes) (first : ℕ)
    → IsByteOrder o
    → is_message_complete o stack (first ∷ 255 ∷ o.ltob (2 ^ 64 - 4) 8) ≡ some crash
length_wraps o stack first b =
    let m : Bytes = first ∷ 255 ∷ o.ltob (2 ^ 64 - 4) 8 in
    complete_of o stack first 255 (o.ltob (2 ^ 64 - 4) 8) _ (wrapped_lengths o first b)
    ∙ ap (delivery m) (wrapped_body stack (o.ltob (2 ^ 64 - 4) 8) first (b.width (2 ^ 64 - 4) 8))
