-- ===== src/Ftp/Opening.antt =====
-- The login of CProtocolFTP (INCLUDE/CProtocolFTP.hpp), from the connection to the first command of
-- the queue, for each mode of TLS.
use cpp_npl.Base.{◌≡◌, refl, ap, ◌∙◌, false, some, List, [], ◌∷◌, ◌++◌, Bytes, codes, get_or, arith}
use cpp_npl.Ftp.State.{
  Phase, Tls, no_tls, explicit, implicit, Verb, Client, Effect, sent, control_handshake, Result, ok,
  fault, ◌>>=◌,
}
use cpp_npl.Ftp.Commands.{command_line, process_next_cmd, send_command}
use cpp_npl.Ftp.Machine.{
  on_reply, on_connect, on_cc_handshake, state_machine, scan_rows, fsm, run_action,
  process_login_event,
}
use cpp_npl.Ftp.Session.{Event, connects, handshaken, reply, step, run}

-- What the server says on the way: its greeting, its consent to TLS, its call for the password and
-- its welcome.
pub record Welcome : Type 0 where
  pub greeting : Bytes
  pub consent : Bytes
  pub password_please : Bytes
  pub welcome : Bytes

pub record IsWelcome (w : Welcome) : Type 0 where
  pub greets : get_or w.greeting 0 0 ≡ b'2'
  pub consents : get_or w.consent 0 0 ≡ b'2'
  pub asks_password : get_or w.password_please 0 0 ≡ b'3'
  pub welcomes : get_or w.welcome 0 0 ≡ b'2'

-- The events up to the command USER. The handshake of implicit TLS comes first, that of explicit TLS
-- behind the consent.
abbrev pub opening : Tls → Welcome → List Event
opening no_tls w = connects ∷ reply w.greeting ∷ []
opening implicit w = connects ∷ handshaken ∷ reply w.greeting ∷ []
opening explicit w = connects ∷ reply w.greeting ∷ reply w.consent ∷ handshaken ∷ []

abbrev pub login : Tls → Welcome → List Event
login t w = opening t w ++ reply w.password_please ∷ reply w.welcome ∷ []

-- What the client asks of its socket meanwhile, and what it was told, the latest at the head.
abbrev pub opening_effects : Tls → Bytes → List Effect → List Effect
opening_effects no_tls user es = sent (command_line Verb.user user) ∷ es
opening_effects implicit user es = sent (command_line Verb.user user) ∷ control_handshake ∷ es
opening_effects explicit user es =
    sent (command_line Verb.user user)
    ∷ control_handshake
    ∷ sent (command_line Verb.auth (codes "TLS"))
    ∷ es

abbrev pub login_effects : Tls → Bytes → Bytes → List Effect → List Effect
login_effects t user pass es = sent (command_line Verb.pass pass) ∷ opening_effects t user es

abbrev opening_messages : Tls → Welcome → List Bytes → List Bytes
opening_messages no_tls w ms = w.greeting ∷ ms
opening_messages implicit w ms = w.greeting ∷ ms
opening_messages explicit w ms = w.consent ∷ w.greeting ∷ ms

abbrev pub login_messages : Tls → Welcome → List Bytes → List Bytes
login_messages t w ms = w.welcome ∷ w.password_please ∷ opening_messages t w ms

abbrev asking : Tls → Welcome → Client → Client
asking t w c = record c {
  phase = Phase.user;
  messages = opening_messages t w c.messages;
  effects = opening_effects t c.user_name c.effects;
}

pub bind_agree :
    (r : Result) (f g h : Client → Result)
    → ((d : Client) → f d ≡ (g d >>= h))
    → (r >>= f) ≡ (r >>= g >>= h)
bind_agree (ok d) f g h e = e d
bind_agree (fault f') f g h e = refl

pub run-append : (es fs : List Event) (c : Client) → run (es ++ fs) c ≡ (run es c >>= run fs)
unfolding run
run-append [] fs c = refl
run-append (e ∷ es) fs c =
    bind_agree (step e c) (run (es ++ fs)) (run es) (run fs) (run-append es fs)

opening_lem :
    (t : Tls) (w : Welcome) (c : Client)
    → IsWelcome w
    → c.phase ≡ Phase.connecting
    → c.socket ≡ some t
    → run (opening t w) c ≡ ok (asking t w c)
unfolding run step on_connect on_reply state_machine scan_rows fsm run_action on_cc_handshake
    send_command
opening_lem no_tls w c i p s = ground arith
opening_lem explicit w c i p s = ground arith
opening_lem implicit w c i p s = ground arith

abbrev pub logged_in : Tls → Welcome → Client → Client
logged_in t w c = record c {
  phase = Phase.ready;
  cmd_in_progress = false;
  messages = login_messages t w c.messages;
  effects = login_effects t c.user_name c.password c.effects;
}

password_lem :
    (t : Tls) (w : Welcome) (c : Client)
    → IsWelcome w
    → run (reply w.password_please ∷ reply w.welcome ∷ []) (asking t w c)
      ≡ ok (process_next_cmd (logged_in t w c))
unfolding run step on_reply state_machine scan_rows fsm run_action send_command process_login_event
password_lem t w c i = ground arith

-- Whatever the mode of TLS is, the login of a client that is not connected yet goes through: it
-- sends, one behind the other and each in answer to the server, AUTH where TLS is explicit, USER
-- and PASS, asks for the handshake once where there is TLS, and then issues the first command that
-- is queued. Nothing of the queue is sent before.
pub login_issues_queue :
    (t : Tls) (w : Welcome) (c : Client)
    → IsWelcome w
    → c.phase ≡ Phase.connecting
    → c.socket ≡ some t
    → run (login t w) c ≡ ok (process_next_cmd (logged_in t w c))
login_issues_queue t w c i p s =
    run-append (opening t w) (reply w.password_please ∷ reply w.welcome ∷ []) c
    ∙ ap (λ r. r >>= run (reply w.password_please ∷ reply w.welcome ∷ [])) (opening_lem t w c i p s)
    ∙ password_lem t w c i
