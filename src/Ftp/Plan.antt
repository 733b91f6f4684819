-- ===== src/Ftp/Plan.antt =====
-- The command queue of CProtocolFTP (INCLUDE/CProtocolFTP.hpp) between two commands: sending the next
-- command of a plan, and dropping the commands that are done, keep the invariant of a session.
use cpp_npl.Base.{◌≡◌, refl, inl, true, false, List, [], ◌∷◌, is_empty, arith}
use cpp_npl.Ftp.State.{Phase, Command, Client, Verb}
use cpp_npl.Ftp.Commands.{process_next_cmd, skip_command, phase_for}
use cpp_npl.Ftp.Session.{plan, starts_pasv, Shape, Inv, Safe, IsIdle}

-- The states in which a client may be idle.
abbrev pub MayRest : Phase → Type 0
MayRest Phase.pasv = ⊥
MayRest Phase.gen = ⊥
MayRest Phase.prelim = ⊥
MayRest _ = Unit {0}

idle-Inv : (p : Phase) (c : Client) → MayRest p → IsIdle c → Shape p c
idle-Inv Phase.pasv c m i = absurd m
idle-Inv Phase.gen c m i = absurd m
idle-Inv Phase.prelim c m i = absurd m
idle-Inv Phase.transfer c m i = inl i
idle-Inv Phase.final c m i = inl i
idle-Inv _ c m i = ground arith

-- The first command of a plan, sent.
issued-Inv :
    (v : Verb) (c : Client) (cmd : Command) (q : List Command)
    → cmd.verb ≡ v
    → plan false (cmd ∷ q) ≡ true
    → c.cmd_in_progress ≡ true
    → c.cmd_q ≡ cmd ∷ q
    → c.data_channel ≡ false
    → c.file_device ≡ false
    → Shape (phase_for v) c
unfolding phase_for
issued-Inv Verb.pasv c cmd q s e = ground arith
issued-Inv _ c cmd q s e = ground arith

pub process_next_cmd-Inv :
    (c : Client) (q : List Command)
    → c.cmd_in_progress ≡ false
    → c.cmd_q ≡ q
    → plan false q ≡ true
    → MayRest c.phase
    → c.data_channel ≡ false
    → c.file_device ≡ false
    → Inv (process_next_cmd c)
unfolding process_next_cmd
process_next_cmd-Inv c [] idle e p m ch f =
    rw (idle, e, process_next_cmd) (idle-Inv c.phase _ m (refl, refl, ch, f))
process_next_cmd-Inv c (cmd ∷ q) idle e p m ch f =
    rw (idle, e, process_next_cmd) (issued-Inv cmd.verb _ cmd q refl p refl refl ch f)

pub skip_one-Safe :
    (c : Client) (cmd : Command) (q : List Command)
    → c.cmd_q ≡ cmd ∷ q
    → plan false q ≡ true
    → MayRest c.phase
    → c.data_channel ≡ false
    → c.file_device ≡ false
    → Safe (skip_command 1 c)
unfolding skip_command
skip_one-Safe c cmd q e p m ch f =
    rw (e, skip_command)
      (process_next_cmd-Inv (record c { cmd_q = q; cmd_in_progress = false }) q refl refl p m ch f)

pub skip_two-Safe :
    (c : Client) (first second : Command) (q : List Command)
    → c.cmd_q ≡ first ∷ second ∷ q
    → plan false q ≡ true
    → MayRest c.phase
    → c.data_channel ≡ false
    → c.file_device ≡ false
    → Safe (skip_command 2 c)
unfolding skip_command
skip_two-Safe c first second q e p m ch f =
    rw (e, skip_command)
      (process_next_cmd-Inv (record c { cmd_q = q; cmd_in_progress = false }) q refl refl p m ch f)

-- The queue behind a transfer command, and behind PASV and a transfer command.
pub transfer_plan :
    (q : List Command)
    → plan true q ≡ true
    → (cmd : Command) × (rest : List Command) × (q ≡ cmd ∷ rest) × (plan false rest ≡ true)
transfer_plan [] p = cc
transfer_plan (cmd ∷ rest) p = (cmd, rest, refl, ground arith)

pub pasv_plan :
    (q : List Command)
    → plan false q ≡ true
    → starts_pasv q ≡ true
    → (cmd : Command) × (rest : List Command) × (q ≡ cmd ∷ rest) × (plan true rest ≡ true)
pasv_plan [] p s = cc
pasv_plan (cmd ∷ rest) p s = (cmd, rest, refl, ground arith)

pub general_plan :
    (q : List Command)
    → plan false q ≡ true
    → starts_pasv q ≡ false
    → is_empty q ≡ false
    → (cmd : Command) × (rest : List Command) × (q ≡ cmd ∷ rest) × (plan false rest ≡ true)
general_plan [] p s n = cc
general_plan (cmd ∷ rest) p s n = (cmd, rest, refl, ground arith)
