-- ===== src/Ftp/Endings.antt =====
-- The end of a transfer in CProtocolFTP (INCLUDE/CProtocolFTP.hpp), and the invariant of a session.
use cpp_npl.Base.{
  ℕ, ◌≡◌, sym, ap, subst, ◌∙◌, true, false, Option, none, some, List, ◌∷◌, ◌==◌, if◌then◌else◌,
  arith,
}
use cpp_npl.Ftp.State.{Phase, Command, Client, Result, ok, phase_eq}
use cpp_npl.Ftp.Commands.{skip_command}
use cpp_npl.Ftp.Transfer.{
  drop_channel, drop_file, finish_if_final, end_sink, with_front, process_data_cmd_response,
}
use cpp_npl.Ftp.Session.{plan, has_local, Shape, InTransfer, IsMoving, Inv, Safe}
use cpp_npl.Ftp.Plan.{MayRest, skip_one-Safe, transfer_plan}

dropped :
    (c : Client)
    → let d = drop_file (drop_channel c) in
      (d.data_channel ≡ false)
      × (d.file_device ≡ false)
      × (d.phase ≡ c.phase)
      × (d.cmd_q ≡ c.cmd_q)
      × (d.cmd_in_progress ≡ c.cmd_in_progress)
unfolding drop_channel drop_file
dropped c = ground arith

finishes : (d : Client) → d.phase ≡ Phase.final → finish_if_final d ≡ skip_command 1 d
finishes d e = ap (λ p. if phase_eq p Phase.final then skip_command 1 d else ok d) e

waits : (d : Client) → d.phase ≡ Phase.prelim → finish_if_final d ≡ ok d
waits d e = ap (λ p. if phase_eq p Phase.final then skip_command 1 d else ok d) e

pub front-Safe :
    (f : Command → Result) (c : Client) (cmd : Command) (rest : List Command)
    → c.cmd_q ≡ cmd ∷ rest
    → Safe (f cmd)
    → Safe (with_front f c)
front-Safe f c cmd rest e s = rw (e, with_front) s

-- A transfer is over on the client's side: the next command follows if the server's last word is
-- known, and otherwise that is awaited.
finish-Safe :
    (p : Phase) (d : Client)
    → IsMoving p
    → d.phase ≡ p
    → d.cmd_in_progress ≡ true
    → plan true d.cmd_q ≡ true
    → d.data_channel ≡ false
    → d.file_device ≡ false
    → Safe (finish_if_final d)
finish-Safe Phase.final d m e b h ch f =
    let (cmd, rest, q, p) = transfer_plan d.cmd_q h in
    subst Safe (sym (finishes d e)) (skip_one-Safe d cmd rest q p (subst MayRest (sym e) tt) ch f)
finish-Safe Phase.prelim d m e b h ch f =
    subst Safe (sym (waits d e)) (subst (λ p. Shape p d) (sym e) (ground arith))
finish-Safe _ d m e b h ch f = absurd m

-- The transfer that a moving client is in.
pub moving :
    (p : Phase) (c : Client)
    → IsMoving p
    → Shape p c
    → c.data_channel ≡ true
    → InTransfer true (has_local c.cmd_q) c
moving Phase.prelim c m s ch = ground arith
moving Phase.final c m s ch = ground arith
moving _ c m s ch = absurd m

-- A change that leaves alone what the invariant speaks of.
pub record Same (c d : Client) : Type 0 where
  pub phase : d.phase ≡ c.phase
  pub cmd_q : d.cmd_q ≡ c.cmd_q
  pub cmd_in_progress : d.cmd_in_progress ≡ c.cmd_in_progress
  pub data_channel : d.data_channel ≡ c.data_channel
  pub file_device : d.file_device ≡ c.file_device

pub Same-Shape : (p : Phase) (c d : Client) → Same c d → Shape p c → Shape p d
Same-Shape Phase.pasv c d e s = ground arith
Same-Shape _ c d e s = ground arith

pub Same-Inv : (c d : Client) → Same c d → Inv c → Inv d
Same-Inv c d e s = subst (λ p. Shape p d) (sym e.phase) (Same-Shape c.phase c d e s)

pub end_sink-Same : (sink : Option ℕ) (c : Client) → Same c (end_sink sink c)
end_sink-Same none c = ground arith
end_sink-Same (some f) c = ground arith

over-Safe :
    (c : Client)
    → IsMoving c.phase
    → c.cmd_in_progress ≡ true
    → plan true c.cmd_q ≡ true
    → Safe (finish_if_final (drop_file (drop_channel c)))
over-Safe c m b h =
    let d = drop_file (drop_channel c) in
    let (ch, f, p, q, i) = dropped c in
    finish-Safe c.phase d m p (i ∙ b) (ap (plan true) q ∙ h) ch f

-- The reply that says how a transfer went, if it went wrong, and the end of the data channel.
pub closing-Safe :
    (code : ℕ) (c : Client)
    → code == b'1' ≡ false
    → code == b'2' ≡ false
    → IsMoving c.phase
    → c.cmd_in_progress ≡ true
    → plan true c.cmd_q ≡ true
    → Safe (process_data_cmd_response code c)
unfolding process_data_cmd_response
closing-Safe code c n1 n2 m b h = rw (n1, n2) (over-Safe c m b h)
