-- ===== src/Ftp/ReplyLater.antt =====
-- A reply to CProtocolFTP (INCLUDE/CProtocolFTP.hpp) and commands that join the queue before it or behind
-- it.
use cpp_npl.Base.{
  ℕ, ◌≡◌, ◌⊎◌, inl, inr, refl, sym, ap, subst, ◌∙◌, true, false, Option, none, some, List, ◌∷◌,
  ◌++◌, Bytes, get_or, arith,
}
use cpp_npl.Ftp.State.{Phase, Command, Client, ok, ◌>>=◌}
use cpp_npl.Ftp.Machine.{
  Transition, Action, no_action, check_ftps, handshake, send_user, send_pass, send_acct, login, fsm,
  scan_rows, act, state_machine, on_reply,
}
use cpp_npl.Ftp.Session.{
  Event, connects, handshaken, reply, data_connects, data_disconnects, data_handshaken, data_read,
  file_read, data_written, file_written, file_disconnects, read_turns, Shape, Inv,
}
use cpp_npl.Ftp.Plan.{transfer_plan, pasv_plan, general_plan}
use cpp_npl.Ftp.Replies.{
  row_of_gen, row_of_pasv, row_of_transfer, row_of_prelim, no_row_of_final, IsOutside,
}
use cpp_npl.Ftp.Later.{busy, later, stays_later, Ready, act_later}

-- A reply to PASS does not refuse the login, which would clear the queue.
abbrev pub Welcomed : Phase → ℕ → Type 0
Welcomed Phase.pass code = (code ≡ b'2') ⊎ (code ≡ b'3')
Welcomed _ code = Unit {0}

-- What is reported of the data channel and of the file.
abbrev pub IsOnChannel : Event → Type 0
IsOnChannel data_connects = Unit {0}
IsOnChannel data_disconnects = Unit {0}
IsOnChannel data_handshaken = Unit {0}
IsOnChannel (data_read answer b) = Unit {0}
IsOnChannel (file_read answer b) = Unit {0}
IsOnChannel (data_written b) = Unit {0}
IsOnChannel file_disconnects = Unit {0}
IsOnChannel _ = ⊥

-- An event that is no call of the user's.
abbrev pub IsReport : Event → Type 0
IsReport connects = Unit {0}
IsReport handshaken = Unit {0}
IsReport (reply text) = Unit {0}
IsReport (file_written b) = Unit {0}
IsReport (read_turns works) = Unit {0}
IsReport e = IsOnChannel e

abbrev pub Greeted : Event → Client → Type 0
Greeted (reply text) c = Welcomed c.phase (get_or text 0 0)
Greeted _ c = Unit {0}

abbrev IsFree : Action → Type 0
IsFree Action.skip_two = ⊥
IsFree Action.pasv_response = ⊥
IsFree (Action.data_response code) = ⊥
IsFree Action.general_event = ⊥
IsFree (login false) = ⊥
IsFree _ = Unit {0}

IsFree-Ready : (a : Action) (qs : List Command) → IsFree a → Ready a qs
IsFree-Ready Action.skip_two qs f = absurd f
IsFree-Ready Action.pasv_response qs f = absurd f
IsFree-Ready (Action.data_response code) qs f = absurd f
IsFree-Ready Action.general_event qs f = absurd f
IsFree-Ready (login false) qs f = absurd f
IsFree-Ready (login true) qs f = tt
IsFree-Ready no_action qs f = tt
IsFree-Ready check_ftps qs f = tt
IsFree-Ready handshake qs f = tt
IsFree-Ready send_user qs f = tt
IsFree-Ready send_pass qs f = tt
IsFree-Ready send_acct qs f = tt

row-IsFree :
    (p : Phase) (code : ℕ) (t : Transition)
    → IsOutside p
    → Welcomed p code
    → scan_rows fsm p code ≡ some t
    → IsFree t.action
unfolding scan_rows fsm
row-IsFree Phase.pasv code t o w e = absurd o
row-IsFree Phase.pass code t o (inl w) e = ground arith
row-IsFree Phase.pass code t o (inr w) e = ground arith
row-IsFree _ code t o w e = ground arith

-- What a row asks for is in the queue.
row-Ready :
    (p : Phase) (code : ℕ) (t : Transition) (c : Client)
    → Shape p c
    → c.cmd_in_progress ≡ true
    → Welcomed p code
    → scan_rows fsm p code ≡ some t
    → Ready t.action c.cmd_q
row-Ready Phase.gen code t c (b, h, n, k, ch, f) i w e =
    let (cmd, rest, q, _) = general_plan c.cmd_q h n k in
    let (a, _) = row_of_gen code t e in
    subst (λ x. Ready x c.cmd_q) (sym a) (subst (Ready Action.general_event) (sym q) tt)
row-Ready Phase.pasv code t c (b, h, n, ch, f) i w e =
    let (x, qs, q, h2) = pasv_plan c.cmd_q h n in
    let (y, rest, q2, _) = transfer_plan qs h2 in
    let whole : c.cmd_q ≡ x ∷ y ∷ rest = q ∙ ap (λ l. x ∷ l) q2 in
    elim (row_of_pasv code t e) [
      | inl (a, _) ↦
          subst (λ x. Ready x c.cmd_q) (sym a) (subst (Ready Action.skip_two) (sym whole) tt)
      | inr (a, _, _) ↦
          subst (λ x. Ready x c.cmd_q) (sym a) (subst (Ready Action.pasv_response) (sym whole) tt)
    ]
row-Ready Phase.transfer code t c (inl (idle, _, _, _)) i w e = absurd (cc)
row-Ready Phase.transfer code t c (inr (b, h, _, _)) i w e =
    let (x, rest, q, _) = transfer_plan c.cmd_q h in
    elim (row_of_transfer code t e) [
      | inl (a, _, _) ↦
          subst (λ x. Ready x c.cmd_q) (sym a)
            (subst (Ready (Action.data_response b'1')) (sym q) tt)
      | inr (inl (a, _)) ↦
          subst (λ x. Ready x c.cmd_q) (sym a)
            (subst (Ready (Action.data_response b'4')) (sym q) tt)
      | inr (inr (a, _)) ↦
          subst (λ x. Ready x c.cmd_q) (sym a)
            (subst (Ready (Action.data_response b'5')) (sym q) tt)
    ]
row-Ready Phase.prelim code t c (b, h, _, _) i w e =
    let (x, rest, q, _) = transfer_plan c.cmd_q h in
    elim (row_of_prelim code t e) [
      | inl (a, _) ↦
          subst (λ x. Ready x c.cmd_q) (sym a)
            (subst (Ready (Action.data_response b'2')) (sym q) tt)
      | inr (a, _) ↦
          subst (λ x. Ready x c.cmd_q) (sym a)
            (subst (Ready (Action.data_response b'4')) (sym q) tt)
    ]
row-Ready Phase.final code t c s i w e = absurd (cc (no_row_of_final code))
row-Ready p code t c s i w e = IsFree-Ready t.action c.cmd_q (row-IsFree p code t tt w e)

row_later :
    (o : Option Transition) (text : Bytes) (c : Client) (q : List Command)
    → ((t : Transition) → o ≡ some t → Ready t.action c.cmd_q)
    → act o (busy (record c { messages = text ∷ c.messages }) (c.cmd_q ++ q))
      ≡ (act o (busy (record c { messages = text ∷ c.messages }) c.cmd_q) >>= λ d. ok (later q d))
row_later none text c q h = stays_later c.cmd_q q (record c { messages = text ∷ c.messages })
row_later (some t) text c q h =
    act_later t.action c.cmd_q q text c.messages (record c { phase = t.next }) (h t refl)

pub reply_later :
    (text : Bytes) (q : List Command) (c : Client)
    → Inv c
    → c.cmd_in_progress ≡ true
    → Welcomed c.phase (get_or text 0 0)
    → on_reply text (record c { cmd_q = c.cmd_q ++ q }) ≡ (on_reply text c >>= λ d. ok (later q d))
unfolding on_reply state_machine
reply_later text q c s b w =
    subst
      (λ x.
        on_reply text (record c { cmd_in_progress = x; cmd_q = c.cmd_q ++ q })
        ≡ (on_reply text (record c { cmd_in_progress = x }) >>= λ d. ok (later q d)))
      (sym b)
      (row_later (scan_rows fsm c.phase (get_or text 0 0)) text c q
        (λ t e. row-Ready c.phase (get_or text 0 0) t c s b w e))
