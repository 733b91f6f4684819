-- ===== src/Ftp/Machine.antt =====
-- The transition table `FSM` of CProtocolFTP, `StateMachine`, and the handlers of the control
-- connection's events (INCLUDE/CProtocolFTP.hpp).
use cpp_npl.Base.{
  ℕ, Bool, true, false, ◌&&◌, Option, none, some, List, [], ◌∷◌, Bytes, codes, get_or, ◌==◌,
  if◌then◌else◌,
}
use cpp_npl.Ftp.State.{
  Phase, Tls, explicit, implicit, DcProt, clear, protected, Verb, Response, silent, notify,
  set_level, control_handshake, tell, Client, empty_queue, Result, ok, fault, ◌>>=◌, emit, phase_eq,
}
use cpp_npl.Ftp.Commands.{send_command, channel_tls, process_next_cmd, skip_command}
use cpp_npl.Ftp.Transfer.{process_pasv_response, process_data_cmd_response}

-- The functions of the table's last column.
pub data Action : Type 0 where
  no_action check_ftps handshake send_user send_pass send_acct : Action
  login : Bool → Action
  skip_two pasv_response : Action
  data_response : ℕ → Action
  general_event : Action

pub record Transition : Type 0 where
  pub from : Phase
  pub code : ℕ
  pub next : Phase
  pub action : Action

abbrev row : Phase → ℕ → Phase → Action → Transition
row p c n a = record { from = p; code = c; next = n; action = a }

-- The array has 32 entries, of which the source gives 31: the last is empty.
unfoldable pub fsm : List Transition
fsm =
    row Phase.connected b'1' Phase.connected no_action
    ∷ row Phase.connected b'2' Phase.check check_ftps
    ∷ row Phase.connected b'4' Phase.connected no_action
    ∷ row Phase.auth b'2' Phase.tls handshake
    ∷ row Phase.auth b'3' Phase.adat no_action
    ∷ row Phase.auth b'4' Phase.user send_user
    ∷ row Phase.auth b'5' Phase.user send_user
    ∷ row Phase.user b'1' Phase.user no_action
    ∷ row Phase.user b'2' Phase.ready no_action
    ∷ row Phase.user b'3' Phase.pass send_pass
    ∷ row Phase.user b'4' Phase.user no_action
    ∷ row Phase.user b'5' Phase.user no_action
    ∷ row Phase.pass b'1' Phase.user (login false)
    ∷ row Phase.pass b'2' Phase.ready (login true)
    ∷ row Phase.pass b'3' Phase.acct send_acct
    ∷ row Phase.pass b'4' Phase.user (login false)
    ∷ row Phase.pass b'5' Phase.user (login false)
    ∷ row Phase.pasv b'1' Phase.transfer skip_two
    ∷ row Phase.pasv b'2' Phase.transfer pasv_response
    ∷ row Phase.pasv b'4' Phase.ready skip_two
    ∷ row Phase.pasv b'5' Phase.ready skip_two
    ∷ row Phase.transfer b'1' Phase.prelim (data_response b'1')
    ∷ row Phase.prelim b'2' Phase.final (data_response b'2')
    ∷ row Phase.prelim b'4' Phase.final (data_response b'4')
    ∷ row Phase.transfer b'4' Phase.final (data_response b'4')
    ∷ row Phase.transfer b'5' Phase.final (data_response b'5')
    ∷ row Phase.gen b'1' Phase.ready general_event
    ∷ row Phase.gen b'2' Phase.ready general_event
    ∷ row Phase.gen b'3' Phase.ready general_event
    ∷ row Phase.gen b'4' Phase.ready general_event
    ∷ row Phase.gen b'5' Phase.ready general_event
    ∷ row Phase.blank 0 Phase.blank no_action
    ∷ []

-- The loop of `StateMachine`: the first row for the state and the code.
unfoldable pub scan_rows : List Transition → Phase → ℕ → Option Transition
scan_rows [] p code = none
scan_rows (t ∷ ts) p code =
    if phase_eq p t.from && t.code == code then some t else scan_rows ts p code

-- `DoCCHandshake`: TLS is started on the control socket, if there is one.
unfoldable pub start_tls : Option Tls → Client → Client
start_tls none c = c
start_tls (some t) c = emit control_handshake c

unfoldable pub do_cc_handshake : Client → Client
unfolding start_tls
do_cc_handshake c = start_tls c.socket c

-- The function that `DoCCHandshake` passes on, called when the handshake is done.
unfoldable pub after_handshake : Tls → Client → Client
unfolding send_command
after_handshake explicit c = send_command Verb.user c.user_name (record c { phase = Phase.user })
after_handshake _ c = c

unfoldable pub on_cc_handshake : Client → Client
unfolding after_handshake
on_cc_handshake c = after_handshake (channel_tls c) c

-- `CheckExplicitFTPS`.
unfoldable pub greet : Tls → Client → Client
unfolding send_command
greet explicit c = send_command Verb.auth (codes "TLS") (record c { phase = Phase.auth })
greet _ c = send_command Verb.user c.user_name (record c { phase = Phase.user })

unfoldable pub check_explicit_ftps : Client → Client
unfolding greet
check_explicit_ftps c = greet (channel_tls c) c

-- `ProcessLoginEvent`.
unfoldable pub process_login_event : Bool → Client → Client
process_login_event true c = process_next_cmd (record c { cmd_in_progress = false })
process_login_event false c = record c { cmd_q = []; cmd_in_progress = false }

-- The callback that `SetDCProtLevel` gives PROT. Its `lvl == "C"` compares two pointers: it holds
-- exactly if the level is "C" and the compiler gave both literals one address.
abbrev pub captured_level : Bool → DcProt → DcProt
captured_level true clear = clear
captured_level _ _ = protected

abbrev pub respond : Response → Bytes → Client → Client
respond silent reply c = c
respond (notify f) reply c = emit (tell f reply) c
respond (set_level p) reply c =
    if get_or reply 0 0 == b'2'
    then record c { dc_prot = captured_level c.literals_merged p }
    else c

abbrev pub call_response : Response → List Bytes → Client → Result
call_response silent ms c = ok c
call_response r [] c = fault empty_queue
call_response r (m ∷ ms) c = ok (respond r m c)

-- `ProcessGenCmdEvent`.
unfoldable pub process_gen_cmd_event : Client → Result
process_gen_cmd_event c = elim c.cmd_q [
  | [] ↦ fault empty_queue
  | cmd ∷ rest ↦ call_response cmd.response c.messages c >>= skip_command 1
]

unfoldable pub run_action : Action → Client → Result
unfolding do_cc_handshake check_explicit_ftps process_login_event process_gen_cmd_event
run_action no_action c = ok c
run_action check_ftps c = ok (check_explicit_ftps c)
run_action handshake c = ok (do_cc_handshake c)
run_action send_user c = ok (send_command Verb.user c.user_name c)
run_action send_pass c = ok (send_command Verb.pass c.password c)
run_action send_acct c = ok (send_command Verb.acct [] c)
run_action (login status) c = ok (process_login_event status c)
run_action skip_two c = skip_command 2 c
run_action pasv_response c = process_pasv_response c
run_action (data_response code) c = process_data_cmd_response code c
run_action general_event c = process_gen_cmd_event c

-- What `StateMachine` does with the row that it found.
abbrev pub act : Option Transition → Client → Result
act none c = ok c
act (some t) c = run_action t.action (record c { phase = t.next })

-- `StateMachine`. The first byte of an empty reply is the terminator of its string.
unfoldable pub state_machine : Bytes → Client → Result
state_machine reply c = act (scan_rows fsm c.phase (get_or reply 0 0)) c

-- A reply that is complete, as `CProtocol::OnRead` treats it: it joins the messages, and then the
-- state machine sees it.
unfoldable pub on_reply : Bytes → Client → Result
on_reply reply c = state_machine reply (record c { messages = reply ∷ c.messages })

-- `OnConnect`: the user's callback has no part in the state.
unfoldable pub shake : Tls → Client → Client
unfolding do_cc_handshake
shake implicit c = do_cc_handshake c
shake _ c = c

unfoldable pub on_connect : Client → Client
unfolding shake
on_connect c = shake (channel_tls c) (record c { phase = Phase.connected })

-- `OnDisconnect` of CProtocol.
unfoldable pub on_disconnect : Client → Client
on_disconnect c = record c { phase = Phase.disconnected }
