-- ===== src/Ftp/Commands.antt =====
-- The command queue of CProtocolFTP and the calls that fill it: `SendCommand`, `ProcessNextCmd`,
-- `SkipCommand` and the public methods of INCLUDE/CProtocolFTP.hpp.
use cpp_npl.Base.{
  ℕ, zero, suc, Bool, true, false, ◌&&◌, ◌||◌, Option, none, some, List, [], ◌∷◌, ◌++◌, Bytes,
  codes, is_empty, if◌then◌else◌,
}
use cpp_npl.Ftp.State.{
  Phase, Tls, no_tls, DcProt, clear, protected, Verb, verb_text, Response, silent, notify,
  set_level, Command, sent, stop_control, stop_data, Client, empty_queue, assertion, Result, ok,
  fault, emit,
}

-- `SendCommand`: the word, a space, the argument and the end of the line.
unfoldable pub command_line : Verb → Bytes → Bytes
command_line v arg = verb_text v ++ 32 ∷ arg ++ 13 ∷ 10 ∷ []

unfoldable pub send_command : Verb → Bytes → Client → Client
send_command v arg c = emit (sent (command_line v arg)) c

-- `GetChannelTLS(iTarget.lock())`.
abbrev pub channel_tls : Client → Tls
channel_tls c = tls_of c.socket
  where
    tls_of : Option Tls → Tls
    tls_of none = no_tls
    tls_of (some t) = t

-- `IsTransferCommand`.
abbrev pub is_transfer_command : Verb → Bool
is_transfer_command Verb.retr = true
is_transfer_command Verb.list = true
is_transfer_command Verb.stor = true
is_transfer_command _ = false

abbrev pub is_pasv : Verb → Bool
is_pasv Verb.pasv = true
is_pasv _ = false

-- The state that `ProcessNextCmd` sets for a command.
unfoldable pub phase_for : Verb → Phase
phase_for v =
    if is_transfer_command v then Phase.transfer else (if is_pasv v then Phase.pasv else Phase.gen)

-- `ProcessNextCmd` once `iCmdInProgress` was found clear, and is set.
unfoldable pub issue : List Command → Client → Client
issue [] c = record c { cmd_in_progress = false }
issue (cmd ∷ rest) c =
    send_command cmd.verb cmd.remote
      (record c { cmd_in_progress = true; phase = phase_for cmd.verb })

unfoldable pub process_next_cmd : Client → Client
unfolding issue send_command
process_next_cmd c = if c.cmd_in_progress then c else issue c.cmd_q c

-- `iCmdQ.pop_front()`, `count` times.
unfoldable pub pop_commands : ℕ → List Command → Option (List Command)
pop_commands zero q = some q
pop_commands (suc n) [] = none
pop_commands (suc n) (cmd ∷ q) = pop_commands n q

unfoldable pub skip_command : ℕ → Client → Result
unfolding pop_commands
skip_command count c = elim (pop_commands count c.cmd_q) [
  | none ↦ fault empty_queue
  | some q ↦ ok (process_next_cmd (record c { cmd_q = q; cmd_in_progress = false }))
]

abbrev pub enqueue : List Command → Client → Client
enqueue cmds c = record c { cmd_q = c.cmd_q ++ cmds }

abbrev pub command : Verb → Bytes → Bytes → Response → Option ℕ → Command
command v remote local r sink = record {
  verb = v;
  remote = remote;
  local = local;
  response = r;
  sink = sink;
}

-- The entries that `SetDCProtLevel` queues on a channel with TLS.
abbrev pub level_text : DcProt → Bytes
level_text clear = codes "C"
level_text protected = codes "P"

abbrev pub level_commands : Tls → DcProt → List Command
level_commands no_tls p = []
level_commands _ p =
    command Verb.pbsz (codes "0") [] silent none
    ∷ command Verb.prot (level_text p) [] (set_level p) none
    ∷ []

unfoldable pub set_dc_prot_level : DcProt → Client → Client
set_dc_prot_level p c = enqueue (level_commands (channel_tls c) p) c

abbrev pub pasv_command : Command
pasv_command = command Verb.pasv [] [] silent none

unfoldable pub upload : Option ℕ → Bytes → Bytes → DcProt → Client → Result
unfolding set_dc_prot_level
upload sink remote local p c =
    if is_empty remote || is_empty local
    then fault assertion
    else ok (
        process_next_cmd (
          enqueue (pasv_command ∷ command Verb.stor remote local silent sink ∷ [])
            (set_dc_prot_level p c)))

abbrev pub is_null : Option ℕ → Bool
is_null none = true
is_null (some f) = false

unfoldable pub download : Option ℕ → Bytes → Bytes → DcProt → Client → Result
unfolding set_dc_prot_level
download sink remote local p c =
    if is_empty remote || (is_null sink && is_empty local)
    then fault assertion
    else ok (
        process_next_cmd (
          enqueue (pasv_command ∷ command Verb.retr remote local silent sink ∷ [])
            (set_dc_prot_level p c)))

unfoldable pub list_directory : Option ℕ → Bytes → DcProt → Client → Result
unfolding set_dc_prot_level
list_directory sink remote p c =
    if is_null sink
    then fault assertion
    else ok (
        process_next_cmd (
          enqueue
            (command Verb.type (codes "I") [] silent none
              ∷ pasv_command
              ∷ command Verb.list remote [] silent sink
              ∷ [])
            (set_dc_prot_level p c)))

-- The methods that queue one command: `GetCurrentDir`, `SetCurrentDir`, `CreateDir`, `RemoveDir`
-- and `Quit`. A callback may be null.
unfoldable pub queue_general : Verb → Bytes → Option ℕ → Client → Client
queue_general v arg cbk c =
    process_next_cmd (enqueue (command v arg [] (response_of cbk) none ∷ []) c)
  where
    response_of : Option ℕ → Response
    response_of none = silent
    response_of (some f) = notify f

unfoldable pub get_current_dir : Option ℕ → Client → Client
unfolding queue_general
get_current_dir cbk = queue_general Verb.pwd [] cbk

unfoldable pub set_current_dir : Bytes → Option ℕ → Client → Client
unfolding queue_general
set_current_dir dir cbk = queue_general Verb.cwd dir cbk

unfoldable pub create_dir : Bytes → Option ℕ → Client → Client
unfolding queue_general
create_dir dir cbk = queue_general Verb.mkd dir cbk

unfoldable pub remove_dir : Bytes → Option ℕ → Client → Client
unfolding queue_general
remove_dir dir cbk = queue_general Verb.rmd dir cbk

unfoldable pub quit : Option ℕ → Client → Client
unfolding queue_general
quit cbk = queue_general Verb.quit [] cbk

-- `Stop`: the data channel is stopped and forgotten, then the control socket is stopped.
abbrev stop_target : Option Tls → Client → Client
stop_target none c = c
stop_target (some t) c = emit stop_control c

unfoldable pub stop : Client → Client
stop c =
    let d = (if c.data_channel then record (emit stop_data c) { data_channel = false } else c) in
    stop_target c.socket d

-- `SetCredentials` of CProtocol.
unfoldable pub set_credentials : Bytes → Bytes → Client → Client
set_credentials user pass c = record c { user_name = user; password = pass }
