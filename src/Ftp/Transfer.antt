-- ===== src/Ftp/Transfer.antt =====
-- The data channel and the local file of CProtocolFTP (INCLUDE/CProtocolFTP.hpp): the answer to
-- PASV, `OpenDataChannel`, `ProcessDataCmdResponse`, `InitializeFileDevice`, `TriggerDataTransfer`
-- and the handlers of the channel's and the file's events.
use cpp_npl.Base.{
  ℕ, zero, suc, ◌+◌, ◌*◌, ◌%◌, ◌^◌, Bool, true, false, Option, none, some, List, [], ◌∷◌, ◌++◌,
  Bytes, codes, is_empty, drop, find, get_or, ◌==◌, if◌then◌else◌,
}
use cpp_npl.Base.Decimal.{decimal, scan_int}
use cpp_npl.Ftp.State.{
  Phase, DcProt, clear, protected, Verb, Command, data_handshake, stop_data, open_channel,
  reset_channel, reset_file, open_file, read_file, write_file, write_data, give, give_end, Client,
  empty_queue, null_channel, null_file, null_context, assertion, out_of_range, uninitialized,
  Result, ok, fault, ◌>>=◌, emit, phase_eq,
}
use cpp_npl.Ftp.Commands.{skip_command}

-- `auto& [...] = iCmdQ.front()`, and what follows it.
abbrev pub with_front : (Command → Result) → Client → Result
with_front f c = elim c.cmd_q [ [] ↦ fault empty_queue | cmd ∷ rest ↦ f cmd ]

abbrev pub with_channel : Client → Result → Result
with_channel c r = if c.data_channel then r else fault null_channel

abbrev pub with_file : Client → Result → Result
with_file c r = if c.file_device then r else fault null_file

abbrev pub is_stor : Verb → Bool
is_stor Verb.stor = true
is_stor _ = false

abbrev pub is_list : Verb → Bool
is_list Verb.list = true
is_list _ = false

abbrev pub is_retr : Verb → Bool
is_retr Verb.retr = true
is_retr _ = false

-- `%d` for each of the numbers of "(%d,%d,%d,%d,%d,%d)", a comma between two of them.
unfoldable pub scan_fields : ℕ → Bytes → Option (List ℕ)
scan_fields zero s = some []
scan_fields (suc zero) s = elim (scan_int s) [
  | none ↦ none
  | some (n, rest) ↦ some (n % 2 ^ 32 ∷ [])
]
scan_fields (suc (suc k)) s = elim (scan_int s) [
  | none ↦ none
  | some (n, []) ↦ none
  | some (n, d ∷ rest) ↦
      let more = scan_fields (suc k) rest in
      if d == b',' then elim more [ none ↦ none | some ns ↦ some (n % 2 ^ 32 ∷ ns) ] else none
]

-- `sscanf_s` on the part of the reply from its first parenthesis.
unfoldable pub scan_pasv : Bytes → Option (List ℕ)
unfolding scan_fields
scan_pasv [] = none
scan_pasv (c ∷ s) = if c == b'(' then scan_fields 6 s else none

unfoldable pub host_of : List ℕ → Bytes
host_of ns =
    decimal (get_or ns 0 0)
    ++ b'.' ∷ decimal (get_or ns 1 0)
    ++ b'.' ∷ decimal (get_or ns 2 0)
    ++ b'.' ∷ decimal (get_or ns 3 0)

-- `(p1 << 8) + p2`, on `uint32_t`.
unfoldable pub port_of : List ℕ → ℕ
port_of ns = (get_or ns 4 0 * 256 + get_or ns 5 0) % 2 ^ 32

-- `OpenDataChannel`: a socket, its listener, and the connection.
unfoldable pub open_data_channel : Bytes → ℕ → Client → Client
open_data_channel host port c = record (emit (open_channel host port) c) { data_channel = true }

-- `ProcessPasvResponse` once the reply is cut at the parenthesis.
unfoldable pub connect_to : Option (List ℕ) → Client → Result
unfolding open_data_channel host_of port_of
connect_to none c = fault uninitialized
connect_to (some ns) c =
    skip_command 1 c >>= λ d. ok (open_data_channel (host_of ns) (port_of ns) d)

unfoldable pub pasv_reply : Bytes → Client → Result
unfolding connect_to
pasv_reply text c = elim (find (codes "(") text) [
  | none ↦ fault out_of_range
  | some at ↦ connect_to (scan_pasv (drop at text)) c
]

-- `ProcessPasvResponse`: `iMessages.back()` is the reply.
unfoldable pub process_pasv_response : Client → Result
unfolding pasv_reply
process_pasv_response c = elim c.messages [
  | [] ↦ fault empty_queue
  | text ∷ older ↦ pasv_reply text c
]

-- `InitializeFileDevice` for a command with a local file.
unfoldable pub open_local : Command → Client → Result
open_local cmd c =
    if c.file_device
    then fault assertion
    else (if is_list cmd.verb
        then fault assertion
        else ok (record (emit (open_file cmd.local (is_retr cmd.verb)) c) {
          file_device = true;
          file_offset = 0;
          continue_transfer = true;
        }))

unfoldable pub initialize_file_device : Client → Result
unfolding open_local
initialize_file_device c =
    with_front
      (λ cmd.
        if is_empty cmd.local then ok (record c { continue_transfer = true }) else open_local cmd c)
      c

-- `Read` of the file, and `QueuePendingContext` with the context that it gives. The context comes
-- back as an event.
abbrev pub queue_read : ℕ → Client → Result
queue_read o c = if c.read_works then ok (emit (read_file o) c) else fault null_context

-- `TriggerDataTransfer`: an upload begins by a read of the file.
unfoldable pub trigger_data_transfer : Client → Result
trigger_data_transfer c =
    with_front (λ cmd. if is_stor cmd.verb then with_file c (queue_read c.file_offset c) else ok c)
      c

abbrev pub begin_transfer : DcProt → Client → Result
begin_transfer clear c = trigger_data_transfer c
begin_transfer protected c = with_channel c (ok (emit data_handshake c))

-- `ResetSubject` on the data channel and on the file, where they are set.
unfoldable pub drop_channel : Client → Client
drop_channel c =
    if c.data_channel then record (emit reset_channel c) { data_channel = false } else c

unfoldable pub drop_file : Client → Client
drop_file c = if c.file_device then record (emit reset_file c) { file_device = false } else c

abbrev pub finish_if_final : Client → Result
finish_if_final c = if phase_eq c.phase Phase.final then skip_command 1 c else ok c

-- `ProcessDataCmdResponse`.
unfoldable pub process_data_cmd_response : ℕ → Client → Result
unfolding initialize_file_device trigger_data_transfer drop_channel drop_file
process_data_cmd_response code c =
    if code == b'1'
    then (initialize_file_device c >>= λ d. begin_transfer d.dc_prot d)
    else (if code == b'2'
        then (if c.data_channel then ok c else skip_command 1 c)
        else finish_if_final (drop_file (drop_channel c)))

-- `OnDataChannelConnect` and `OnDataChannelWrite` take the front of the queue, and do no more.
unfoldable pub on_data_channel_connect : Client → Result
on_data_channel_connect c = with_front (λ cmd. ok c) c

unfoldable pub on_data_channel_write : Bytes → Client → Result
on_data_channel_write b c = with_front (λ cmd. ok c) c

abbrev pub add_offset : ℕ → ℕ → ℕ
add_offset o n = (o + n) % 2 ^ 64

unfoldable pub byte_count : Bytes → ℕ
byte_count [] = 0
byte_count (b ∷ s) = suc (byte_count s)

-- The block that the channel's and the file's reads share: a transfer callback is given the bytes,
-- and says whether to go on. `next` is what follows unless the channel is stopped.
abbrev pub offer : Option ℕ → Bool → Bytes → (Client → Result) → Client → Result
offer none answer b next c = next c
offer (some f) answer b next c =
    if c.continue_transfer
    then next (record (emit (give f b) c) { continue_transfer = answer })
    else with_channel c (ok (emit stop_data c))

abbrev pub store : Bytes → Client → Result
store b c =
    if c.file_device
    then ok (record (emit (write_file b c.file_offset) c) {
      file_offset = add_offset c.file_offset (byte_count b);
    })
    else ok c

-- `OnDataChannelRead`; `answer` is what the user's callback returns.
unfoldable pub on_data_channel_read : Bool → Bytes → Client → Result
unfolding byte_count
on_data_channel_read answer b c = with_front (λ cmd. offer cmd.sink answer b (store b) c) c

abbrev pub end_sink : Option ℕ → Client → Client
end_sink none c = c
end_sink (some f) c = emit (give_end f) c

-- `OnDataChannelDisconnect`.
unfoldable pub on_data_channel_disconnect : Client → Result
unfolding process_data_cmd_response
on_data_channel_disconnect c =
    with_front (λ cmd. process_data_cmd_response b'0' (end_sink cmd.sink c)) c

abbrev pub send_on : Bytes → Client → Result
send_on b c = with_channel c (
    let o = add_offset c.file_offset (byte_count b) in
    with_file c (queue_read o (record (emit (write_data b) c) { file_offset = o })))

-- `OnFileRead`.
unfoldable pub on_file_read : Bool → Bytes → Client → Result
unfolding byte_count
on_file_read answer b c = with_front (λ cmd. offer cmd.sink answer b (send_on b) c) c

-- `OnFileWrite` does nothing.
unfoldable pub on_file_write : Bytes → Client → Result
on_file_write b c = ok c

-- `OnFileDisconnect`.
unfoldable pub on_file_disconnect : Client → Result
on_file_disconnect c = with_channel c (ok (emit stop_data c))
