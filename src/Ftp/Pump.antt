-- ===== src/Ftp/Pump.antt =====
-- The reads of the local file of an upload by CProtocolFTP (INCLUDE/CProtocolFTP.hpp): each block is
-- written to the data channel, and its handler asks for the next.
use cpp_npl.Base.{
  ℕ, zero, suc, ◌<◌, ◌≡◌, refl, sym, ap, ◌∙◌, true, false, Option, none, some, List, [], ◌∷◌, ◌++◌,
  append-nil, append_assoc, Bytes, length, length-drop, take, drop, take-drop, is_empty,
  if◌then◌else◌, arith,
}
use cpp_npl.Dispatcher.{Context}
use cpp_npl.Device.{Kernel, Device, device_buffer_size, read_device}
use cpp_npl.Device.File.{IsFile, IsRead, read_device-IsRead}
use cpp_npl.Ftp.State.{
  Command, Client, Effect, stop_data, read_file, write_data, Result, ok, fault, null_channel,
}
use cpp_npl.Ftp.Transfer.{add_offset, byte_count, on_file_read, on_file_disconnect}
use cpp_npl.Ftp.Blocks.{given}

-- What the reads of the file come to. A read that fails gives no context, and `QueuePendingContext`
-- writes through the null pointer.
pub data Pumped : Type 0 where
  finished : Result → Pumped
  null_context : Pumped
  too_long : Pumped

abbrev pub pumped_then : Result → (Client → Pumped) → Pumped
pumped_then (ok c) f = f c
pumped_then (fault e) f = finished (fault e)

module _ (K : Kernel) where
  -- `Read` of the file, and the handler that the dispatcher calls for the context which was queued:
  -- `OnFileRead`, which reads again, or `OnFileDisconnect` at the end of the file. The callback of
  -- the user, if there is one, accepts each block. So many reads at most.
  unfoldable pub handle_read :
      (Client → Device K → Pumped) → Client → Option Context × Device K → Pumped
  unfolding on_file_read on_file_disconnect
  handle_read again c (none, d) = null_context
  handle_read again c (some x, d) =
      if is_empty x.bytes
      then finished (on_file_disconnect c)
      else pumped_then (on_file_read true x.bytes c) (λ e. again e d)

  unfoldable pub pump : ℕ → Client → Device K → Pumped
  unfolding handle_read
  pump zero c d = too_long
  pump (suc rounds) c d = handle_read (pump rounds) c (read_device K none c.file_offset d)

-- What was written to the data channel.
abbrev pub sent_data : List Effect → Bytes
sent_data [] = []
sent_data (write_data b ∷ es) = sent_data es ++ b
sent_data (_ ∷ es) = sent_data es

pub one_block :
    (c : Client) (cmd : Command) (rest : List Command) (sink : Option ℕ) (b : Bytes)
    → c.cmd_q ≡ cmd ∷ rest
    → cmd.sink ≡ sink
    → c.continue_transfer ≡ true
    → c.data_channel ≡ true
    → c.file_device ≡ true
    → c.read_works ≡ true
    → on_file_read true b c
      ≡ ok (record c {
        file_offset = add_offset c.file_offset (byte_count b);
        continue_transfer = true;
        effects =
            read_file (add_offset c.file_offset (byte_count b))
            ∷ write_data b
            ∷ given sink b c.effects;
      })
unfolding on_file_read
one_block c cmd rest none b q s t ch f z = ground arith
one_block c cmd rest (some f') b q s t ch f z = ground arith

sent_data-given :
    (sink : Option ℕ) (b : Bytes) (es : List Effect) → sent_data (given sink b es) ≡ sent_data es
sent_data-given none b es = refl
sent_data-given (some f) b es = refl

-- A client whose file has been read to the end: `bytes` were written to the data channel, which was
-- then stopped; nothing else of it has changed but the offset.
pub record HasSent (bytes : Bytes) (c e : Client) : Type 0 where
  pub offset : ℕ
  pub effects : List Effect
  pub same :
      e ≡ record c { file_offset = offset; continue_transfer = true; effects = stop_data ∷ effects }
  pub bytes_sent : sent_data effects ≡ sent_data c.effects ++ bytes

some_taken : (s : Bytes) → is_empty s ≡ false → is_empty (take device_buffer_size s) ≡ false
some_taken [] h = cc
some_taken (x ∷ s) h = refl

shorter : (s : Bytes) → is_empty s ≡ false → length (drop device_buffer_size s) < length s
shorter [] h = cc
shorter (x ∷ s) h = omega (arith, length-drop device_buffer_size (x ∷ s))

module _ (K : Kernel) (n : IsFile K) (cmd : Command) (queue : List Command) where
  at_end :
      (rounds : ℕ) (c : Client) (d : Device K)
      → IsRead K n [] d
      → c.data_channel ≡ true
      → c.continue_transfer ≡ true
      → (e : Client) × (pump K (suc rounds) c d ≡ finished (ok e)) × HasSent [] c e
  unfolding pump on_file_disconnect
  at_end rounds c d w ch t =
      let (v, r, w2) = read_device-IsRead K n [] c.file_offset d w in
      (
        record c { effects = stop_data ∷ c.effects },
        ap (handle_read K (pump K rounds) c) r
            ∙ ap
                (λ b. finished (
                  if b
                  then ok (record c { effects = stop_data ∷ c.effects })
                  else fault null_channel))
                ch,
        record {
          offset = c.file_offset;
          effects = c.effects;
          same = ap (λ b. record c { continue_transfer = b; effects = stop_data ∷ c.effects }) t;
          bytes_sent = sym (append-nil (sent_data c.effects));
        },
      )

  pub pump_lem :
      (rounds : ℕ) (rest : Bytes) (c : Client) (d : Device K)
      → length rest < rounds
      → IsRead K n rest d
      → c.cmd_q ≡ cmd ∷ queue
      → c.continue_transfer ≡ true
      → c.data_channel ≡ true
      → c.file_device ≡ true
      → c.read_works ≡ true
      → (e : Client) × (pump K rounds c d ≡ finished (ok e)) × HasSent rest c e
  unfolding pump
  pump_lem zero rest c d l w q t ch f z = absurd (omega arith)
  pump_lem (suc rounds) [] c d l w q t ch f z = at_end rounds c d w ch t
  pump_lem (suc rounds) (x ∷ s) c d l w q t ch f z =
      let rest : Bytes = x ∷ s in
      let b : Bytes = take device_buffer_size rest in
      let (v, r, w2) = read_device-IsRead K n rest c.file_offset d w in
      let o = add_offset c.file_offset (byte_count b) in
      let next : Client = record c {
        file_offset = o;
        continue_transfer = true;
        effects = read_file o ∷ write_data b ∷ given cmd.sink b c.effects;
      } in
      let (e, p, h) =
        pump_lem rounds (drop device_buffer_size rest) next v (omega (arith, shorter rest refl)) w2
          q refl ch f z in
      (
        e,
        ap (handle_read K (pump K rounds) c) r
            ∙ ap (λ y. pumped_then y (λ z. pump K rounds z v))
                (one_block c cmd queue cmd.sink b q refl t ch f z)
            ∙ p,
        record {
          offset = h.offset;
          effects = h.effects;
          same = h.same;
          bytes_sent =
              h.bytes_sent
              ∙ ap (λ y. (y ++ b) ++ drop device_buffer_size rest)
                  (sent_data-given cmd.sink b c.effects)
              ∙ append_assoc (sent_data c.effects) b (drop device_buffer_size rest)
              ∙ ap (λ y. sent_data c.effects ++ y) (take-drop device_buffer_size rest);
        },
      )
