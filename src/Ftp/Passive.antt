-- ===== src/Ftp/Passive.antt =====
-- The answer to PASV, and what CProtocolFTP (INCLUDE/CProtocolFTP.hpp) does on it.
use cpp_npl.Base.{
  ℕ, ◌<◌, ◌+◌, ◌*◌, ◌≡◌, refl, ap, ◌∙◌, true, List, [], ◌∷◌, ◌++◌, Bytes, get_or, arith,
}
use cpp_npl.Ftp.State.{Phase, Command, Client, sent, open_channel, ok}
use cpp_npl.Ftp.Commands.{command_line, pasv_command, phase_for, process_next_cmd}
use cpp_npl.Ftp.Transfer.{process_pasv_response, open_data_channel}
use cpp_npl.Ftp.Machine.{on_reply, state_machine, scan_rows, fsm, run_action}
use cpp_npl.Ftp.Session.{reply, step}
use cpp_npl.Base.Decimal.{decimal}
use cpp_npl.Ftp.Pasv.{pasv_text, NoOpen, pasv_accepted}

-- An answer to PASV: six numbers of a byte each, with texts around them, of which the first has no
-- parenthesis.
pub record Passive : Type 0 where
  pub before : Bytes
  pub h1 : ℕ
  pub h2 : ℕ
  pub h3 : ℕ
  pub h4 : ℕ
  pub p1 : ℕ
  pub p2 : ℕ
  pub behind : Bytes

abbrev pub passive_text : Passive → Bytes
passive_text a = pasv_text a.before (a.h1 ∷ a.h2 ∷ a.h3 ∷ a.h4 ∷ a.p1 ∷ a.p2 ∷ []) a.behind

abbrev pub passive_host : Passive → Bytes
passive_host a = decimal a.h1 ++ b'.' ∷ decimal a.h2 ++ b'.' ∷ decimal a.h3 ++ b'.' ∷ decimal a.h4

abbrev pub passive_port : Passive → ℕ
passive_port a = a.p1 * 256 + a.p2

pub record IsPassive (a : Passive) : Type 0 where
  pub accepts : get_or (passive_text a) 0 0 ≡ b'2'
  pub no_open : NoOpen a.before
  pub fit : (a.h1 < 256) × (a.h2 < 256) × (a.h3 < 256) × (a.h4 < 256) × (a.p1 < 256) × (a.p2 < 256)

pasv_row :
    (text : Bytes) (c : Client)
    → c.phase ≡ Phase.pasv
    → get_or text 0 0 ≡ b'2'
    → step (reply text) c
      ≡ process_pasv_response (record c { phase = Phase.transfer; messages = text ∷ c.messages })
unfolding step on_reply state_machine scan_rows fsm run_action
pasv_row text c p t = ground arith

-- The client when the command behind PASV has been sent.
abbrev pub asked_for : Command → List Command → Passive → Client → Client
asked_for cmd rest a c = record c {
  phase = Phase.transfer;
  cmd_in_progress = true;
  cmd_q = cmd ∷ rest;
  data_channel = true;
  messages = passive_text a ∷ c.messages;
  effects =
      open_channel (passive_host a) (passive_port a)
      ∷ sent (command_line cmd.verb cmd.remote)
      ∷ c.effects;
}

pub pasv_lem :
    (cmd : Command) (rest : List Command) (a : Passive) (c : Client)
    → IsPassive a
    → phase_for cmd.verb ≡ Phase.transfer
    → c.phase ≡ Phase.pasv
    → c.cmd_q ≡ pasv_command ∷ cmd ∷ rest
    → step (reply (passive_text a)) c ≡ ok (asked_for cmd rest a c)
unfolding process_next_cmd open_data_channel
pasv_lem cmd rest a c i t p q =
    pasv_row (passive_text a) c p i.accepts
    ∙ pasv_accepted (record c { phase = Phase.transfer; messages = passive_text a ∷ c.messages })
        pasv_command (cmd ∷ rest) c.messages a.before a.behind a.h1 a.h2 a.h3 a.h4 a.p1 a.p2 refl q
        i.no_open i.fit
    ∙ ap (λ f. ok (record (asked_for cmd rest a c) { phase = f })) t
