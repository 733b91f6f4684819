-- ===== src/Ftp/Sockets.antt =====
-- No event of a session of CProtocolFTP (INCLUDE/CProtocolFTP.hpp) changes the socket that its target
-- leads to.
use cpp_npl.Base.{
  ℕ, ◌≡◌, refl, subst, true, false, Option, none, some, List, [], ◌∷◌, Bytes, get_or, codes, drop,
  find, arith,
}
use cpp_npl.Ftp.State.{
  Phase, Tls, explicit, implicit, no_tls, DcProt, clear, protected, Command, Response, silent,
  notify, set_level, Client, Result, empty_queue, out_of_range, ok, fault, ◌>>=◌,
}
use cpp_npl.Ftp.Commands.{
  channel_tls, process_next_cmd, queue_general, set_dc_prot_level, upload, download, list_directory,
  get_current_dir, set_current_dir, create_dir, remove_dir, quit, set_credentials, send_command,
  skip_command, issue,
}
use cpp_npl.Ftp.Transfer.{
  on_data_channel_connect, on_data_channel_write, on_data_channel_read, on_data_channel_disconnect,
  on_file_read, on_file_write, on_file_disconnect, process_data_cmd_response, trigger_data_transfer,
  initialize_file_device, open_local, begin_transfer, drop_channel, drop_file, finish_if_final,
  end_sink, process_pasv_response, pasv_reply, scan_pasv, connect_to, open_data_channel,
}
use cpp_npl.Ftp.Machine.{
  act, Transition, fsm, scan_rows, Action, no_action, check_ftps, handshake, send_user, send_pass,
  send_acct, login, skip_two, pasv_response, data_response, general_event, run_action,
  state_machine, on_reply, on_connect, on_cc_handshake, after_handshake, shake, greet, start_tls,
  do_cc_handshake, check_explicit_ftps, process_login_event, process_gen_cmd_event, respond,
}
use cpp_npl.Ftp.Session.{Event, step, run}

abbrev pub Keeps : Option Tls → Result → Type 0
Keeps s (ok d) = d.socket ≡ s
Keeps s (fault f) = Unit {0}

then-Keeps :
    (s : Option Tls) (r : Result) (f : Client → Result)
    → Keeps s r
    → ((d : Client) → d.socket ≡ s → Keeps s (f d))
    → Keeps s (r >>= f)
then-Keeps s (ok d) f h g = g d h
then-Keeps s (fault e) f h g = tt

next-Keeps : (c : Client) → (process_next_cmd c).socket ≡ c.socket
unfolding process_next_cmd issue
next-Keeps c = ground arith

skip-Keeps : (n : ℕ) (c : Client) → Keeps c.socket (skip_command n c)
unfolding skip_command process_next_cmd issue
skip-Keeps n c = ground arith

trigger-Keeps : (c : Client) → Keeps c.socket (trigger_data_transfer c)
unfolding trigger_data_transfer
trigger-Keeps c = ground arith

begin-Keeps : (p : DcProt) (c : Client) → Keeps c.socket (begin_transfer p c)
begin-Keeps clear c = trigger-Keeps c
begin-Keeps protected c = ground arith

initialize-Keeps : (c : Client) → Keeps c.socket (initialize_file_device c)
unfolding initialize_file_device open_local
initialize-Keeps c = ground arith

finish-Keeps : (c : Client) → Keeps c.socket (finish_if_final c)
unfolding skip_command process_next_cmd issue
finish-Keeps c = ground arith

dropped-Keeps : (c : Client) → (drop_file (drop_channel c)).socket ≡ c.socket
unfolding drop_channel drop_file
dropped-Keeps c = ground arith

data-Keeps : (code : ℕ) (c : Client) → Keeps c.socket (process_data_cmd_response code c)
unfolding process_data_cmd_response
data-Keeps code c =
    let first =
      then-Keeps c.socket (initialize_file_device c) (λ d. begin_transfer d.dc_prot d)
        (initialize-Keeps c)
        (λ d e. subst (λ s. Keeps s (begin_transfer d.dc_prot d)) e (begin-Keeps d.dc_prot d)) in
    let last =
      subst (λ s. Keeps s (finish_if_final (drop_file (drop_channel c)))) (dropped-Keeps c)
        (finish-Keeps (drop_file (drop_channel c))) in
    ground (arith, first, last, skip-Keeps 1 c)

connect-Keeps : (o : Option (List ℕ)) (c : Client) → Keeps c.socket (connect_to o c)
unfolding connect_to open_data_channel skip_command process_next_cmd issue
connect-Keeps none c = tt
connect-Keeps (some ns) c = ground arith

found-Keeps :
    (o : Option ℕ) (text : Bytes) (c : Client)
    → Keeps c.socket
        (elim o [ none ↦ fault out_of_range | some at ↦ connect_to (scan_pasv (drop at text)) c ])
found-Keeps none text c = tt
found-Keeps (some at) text c = connect-Keeps (scan_pasv (drop at text)) c

pasv-Keeps : (c : Client) → Keeps c.socket (process_pasv_response c)
unfolding process_pasv_response pasv_reply
pasv-Keeps c = by_message c.messages
  where
    by_message :
        (ms : List Bytes)
        → Keeps c.socket (elim ms [ [] ↦ fault empty_queue | text ∷ older ↦ pasv_reply text c ])
    by_message [] = tt
    by_message (text ∷ older) = found-Keeps (find (codes "(") text) text c

respond-Keeps : (r : Response) (m : Bytes) (c : Client) → (respond r m c).socket ≡ c.socket
respond-Keeps silent m c = refl
respond-Keeps (notify f) m c = refl
respond-Keeps (set_level p) m c = ground arith

general-Keeps : (c : Client) → Keeps c.socket (process_gen_cmd_event c)
unfolding process_gen_cmd_event skip_command process_next_cmd issue
general-Keeps c = ground arith

start-Keeps : (t : Option Tls) (c : Client) → (start_tls t c).socket ≡ c.socket
unfolding start_tls
start-Keeps none c = refl
start-Keeps (some t) c = refl

greet-Keeps : (t : Tls) (c : Client) → (greet t c).socket ≡ c.socket
unfolding greet send_command
greet-Keeps no_tls c = refl
greet-Keeps explicit c = refl
greet-Keeps implicit c = refl

action-Keeps : (a : Action) (c : Client) → Keeps c.socket (run_action a c)
unfolding run_action send_command process_login_event do_cc_handshake check_explicit_ftps
action-Keeps no_action c = refl
action-Keeps check_ftps c = greet-Keeps (channel_tls c) c
action-Keeps handshake c = start-Keeps c.socket c
action-Keeps send_user c = refl
action-Keeps send_pass c = refl
action-Keeps send_acct c = refl
action-Keeps (login true) c = next-Keeps (record c { cmd_in_progress = false })
action-Keeps (login false) c = refl
action-Keeps skip_two c = skip-Keeps 2 c
action-Keeps pasv_response c = pasv-Keeps c
action-Keeps (data_response code) c = data-Keeps code c
action-Keeps general_event c = general-Keeps c

act-Keeps : (o : Option Transition) (c : Client) → Keeps c.socket (act o c)
act-Keeps none c = refl
act-Keeps (some t) c = action-Keeps t.action (record c { phase = t.next })

shake-Keeps : (t : Tls) (c : Client) → (shake t c).socket ≡ c.socket
unfolding shake do_cc_handshake
shake-Keeps no_tls c = refl
shake-Keeps explicit c = refl
shake-Keeps implicit c = start-Keeps c.socket c

after-Keeps : (t : Tls) (c : Client) → (after_handshake t c).socket ≡ c.socket
unfolding after_handshake send_command
after-Keeps no_tls c = refl
after-Keeps explicit c = refl
after-Keeps implicit c = refl

closed-Keeps : (c : Client) → Keeps c.socket (on_data_channel_disconnect c)
unfolding on_data_channel_disconnect
closed-Keeps c = by_front c.cmd_q
  where
    by_sink : (s : Option ℕ) → Keeps c.socket (process_data_cmd_response b'0' (end_sink s c))
    by_sink none = data-Keeps b'0' c
    by_sink (some f) = data-Keeps b'0' (end_sink (some f) c)

    by_front :
        (q : List Command)
        → Keeps c.socket (elim q [
          | [] ↦ fault empty_queue
          | cmd ∷ rest ↦ process_data_cmd_response b'0' (end_sink cmd.sink c)
        ])
    by_front [] = tt
    by_front (cmd ∷ rest) = by_sink cmd.sink

step-Keeps : (e : Event) (c : Client) → Keeps c.socket (step e c)
unfolding step on_reply state_machine on_connect on_cc_handshake upload download list_directory
    get_current_dir set_current_dir create_dir remove_dir quit queue_general set_credentials
    set_dc_prot_level process_next_cmd issue on_data_channel_connect on_data_channel_write
    on_data_channel_read on_file_read on_file_write on_file_disconnect
step-Keeps (Event.upload_call sink remote local p) c = ground arith
step-Keeps (Event.download_call sink remote local p) c = ground arith
step-Keeps (Event.list_call sink remote p) c = ground arith
step-Keeps (Event.pwd_call cbk) c = ground arith
step-Keeps (Event.quit_call cbk) c = ground arith
step-Keeps (Event.cwd_call dir cbk) c = ground arith
step-Keeps (Event.mkd_call dir cbk) c = ground arith
step-Keeps (Event.rmd_call dir cbk) c = ground arith
step-Keeps (Event.credentials user pass) c = refl
step-Keeps Event.connects c = shake-Keeps (channel_tls c) (record c { phase = Phase.connected })
step-Keeps Event.handshaken c = after-Keeps (channel_tls c) c
step-Keeps (Event.reply text) c =
    act-Keeps (scan_rows fsm c.phase (get_or text 0 0)) (record c { messages = text ∷ c.messages })
step-Keeps Event.data_connects c = ground arith
step-Keeps Event.data_disconnects c = closed-Keeps c
step-Keeps Event.data_handshaken c = trigger-Keeps c
step-Keeps (Event.data_read answer b) c = ground arith
step-Keeps (Event.file_read answer b) c = ground arith
step-Keeps (Event.data_written b) c = ground arith
step-Keeps (Event.file_written b) c = refl
step-Keeps Event.file_disconnects c = ground arith
step-Keeps (Event.read_turns works) c = refl

pub run-Keeps : (es : List Event) (c : Client) → Keeps c.socket (run es c)
unfolding run
run-Keeps [] c = refl
run-Keeps (e ∷ es) c =
    then-Keeps c.socket (step e c) (run es) (step-Keeps e c)
      (λ d h. subst (λ s. Keeps s (run es d)) h (run-Keeps es d))
