-- ===== src/Ftp/Login.antt =====
-- The login of CProtocolFTP (INCLUDE/CProtocolFTP.hpp), and the invariant of a session.
use cpp_npl.Base.{refl, Bool, true, false, Option, none, some, [], arith}
use cpp_npl.Ftp.State.{Phase, Tls, Client, Verb}
use cpp_npl.Ftp.Commands.{send_command, channel_tls}
use cpp_npl.Ftp.Machine.{
  Action, run_action, greet, start_tls, after_handshake, shake, process_login_event,
  do_cc_handshake,
}
use cpp_npl.Ftp.Session.{Shape, Outside, Inv, Safe}
use cpp_npl.Ftp.Plan.{MayRest, process_next_cmd-Inv}
use cpp_npl.Ftp.Endings.{Same-Inv}
use cpp_npl.Ftp.Replies.{IsOutside, IsLogin}

pub to_outside : (p : Phase) (c : Client) → IsOutside p → Shape p c → Outside c
to_outside Phase.pasv c o s = absurd o
to_outside _ c o s = ground arith

of_Outside : (p : Phase) (c : Client) → IsOutside p → Outside c → Shape p c
of_Outside Phase.pasv c o s = absurd o
of_Outside _ c o s = ground arith

outside_rests : (p : Phase) → IsOutside p → MayRest p
outside_rests Phase.pasv o = o
outside_rests Phase.gen o = o
outside_rests Phase.prelim o = o
outside_rests Phase.transfer o = tt
outside_rests Phase.final o = tt
outside_rests _ o = tt

login_event-Inv :
    (status : Bool) (c : Client)
    → Outside c
    → IsOutside c.phase
    → Inv (process_login_event status c)
unfolding process_login_event
login_event-Inv true c (h, i, ch, f) o =
    process_next_cmd-Inv (record c { cmd_in_progress = false }) c.cmd_q refl refl h
      (outside_rests c.phase o) ch f
login_event-Inv false c (h, i, ch, f) o = of_Outside c.phase _ o (refl, (λ e. refl), ch, f)

greet-Inv : (t : Tls) (c : Client) → Outside c → Inv (greet t c)
unfolding greet
greet-Inv Tls.no_tls c s = s
greet-Inv Tls.explicit c s = s
greet-Inv Tls.implicit c s = s

start_tls-Inv : (t : Option Tls) (c : Client) → Inv c → Inv (start_tls t c)
unfolding start_tls
start_tls-Inv none c s = s
start_tls-Inv (some t) c s = Same-Inv c _ (ground arith) s

pub after_handshake-Inv : (t : Tls) (c : Client) → Outside c → Inv c → Inv (after_handshake t c)
unfolding after_handshake
after_handshake-Inv Tls.no_tls c s i = i
after_handshake-Inv Tls.explicit c s i = s
after_handshake-Inv Tls.implicit c s i = i

pub shake-Inv : (t : Tls) (c : Client) → Inv c → Inv (shake t c)
unfolding shake do_cc_handshake
shake-Inv Tls.no_tls c s = s
shake-Inv Tls.explicit c s = s
shake-Inv Tls.implicit c s = start_tls-Inv c.socket c s

-- The actions outside a command.
pub login_action-Safe :
    (a : Action) (c : Client) → IsLogin a → Outside c → IsOutside c.phase → Safe (run_action a c)
unfolding run_action send_command
login_action-Safe Action.no_action c a s o = of_Outside c.phase c o s
login_action-Safe Action.check_ftps c a s o = greet-Inv (channel_tls c) c s
login_action-Safe Action.handshake c a s o = start_tls-Inv c.socket c (of_Outside c.phase c o s)
login_action-Safe Action.send_user c a s o =
    of_Outside c.phase (send_command Verb.user c.user_name c) o s
login_action-Safe Action.send_pass c a s o =
    of_Outside c.phase (send_command Verb.pass c.password c) o s
login_action-Safe Action.send_acct c a s o = of_Outside c.phase (send_command Verb.acct [] c) o s
login_action-Safe (Action.login status) c a s o = login_event-Inv status c s o
login_action-Safe Action.skip_two c a s o = absurd a
login_action-Safe Action.pasv_response c a s o = absurd a
login_action-Safe (Action.data_response code) c a s o = absurd a
login_action-Safe Action.general_event c a s o = absurd a
