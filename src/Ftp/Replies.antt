-- ===== src/Ftp/Replies.antt =====
-- The replies of the server keep the invariant of a session: `StateMachine` of CProtocolFTP
-- (INCLUDE/CProtocolFTP.hpp) over its table of transitions.
use cpp_npl.Base.{
  ℕ, ◌≡◌, refl, sym, ap, subst, ◌∙◌, ◌⊎◌, inl, inr, true, false, ◌&&◌, none, some, List, [], ◌∷◌,
  Bytes, drop, ◌==◌, if◌then◌else◌, Bool-cases, arith,
}
use cpp_npl.Ftp.State.{
  Phase, Command, Response, Client, ok, fault, ◌>>=◌, empty_queue, out_of_range,
}
use cpp_npl.Ftp.Commands.{pop_commands, skip_command, process_next_cmd, phase_for}
use cpp_npl.Ftp.Transfer.{
  connect_to, pasv_reply, host_of, port_of, scan_pasv, process_pasv_response,
  process_data_cmd_response, open_data_channel,
}
use cpp_npl.Ftp.Machine.{
  Transition, fsm, scan_rows, Action, process_gen_cmd_event, call_response, respond,
}
use cpp_npl.Ftp.Session.{plan, has_local, Shape, Safe, HasAddress}
use cpp_npl.Ftp.Plan.{MayRest, skip_one-Safe, skip_two-Safe, transfer_plan, pasv_plan, general_plan}
use cpp_npl.Ftp.Endings.{Same, closing-Safe}

-- The rows of each phase.
pub row_of_gen :
    (code : ℕ) (t : Transition)
    → scan_rows fsm Phase.gen code ≡ some t
    → (t.action ≡ Action.general_event) × (t.next ≡ Phase.ready)
unfolding scan_rows fsm
row_of_gen code t e = ground arith

pub row_of_pasv :
    (code : ℕ) (t : Transition)
    → scan_rows fsm Phase.pasv code ≡ some t
    → ((t.action ≡ Action.skip_two) × MayRest t.next)
      ⊎ ((t.action ≡ Action.pasv_response) × (t.next ≡ Phase.transfer) × (code ≡ b'2'))
unfolding scan_rows fsm
row_of_pasv code t e = ground arith

pub row_of_transfer :
    (code : ℕ) (t : Transition)
    → scan_rows fsm Phase.transfer code ≡ some t
    → ((t.action ≡ Action.data_response b'1') × (t.next ≡ Phase.prelim) × (code ≡ b'1'))
      ⊎ ((t.action ≡ Action.data_response b'4') × (t.next ≡ Phase.final))
      ⊎ ((t.action ≡ Action.data_response b'5') × (t.next ≡ Phase.final))
unfolding scan_rows fsm
row_of_transfer code t e = ground arith

pub row_of_prelim :
    (code : ℕ) (t : Transition)
    → scan_rows fsm Phase.prelim code ≡ some t
    → ((t.action ≡ Action.data_response b'2') × (t.next ≡ Phase.final))
      ⊎ ((t.action ≡ Action.data_response b'4') × (t.next ≡ Phase.final))
unfolding scan_rows fsm
row_of_prelim code t e = ground arith

-- The states outside a command, and the actions of their rows.
abbrev pub IsOutside : Phase → Type 0
IsOutside Phase.pasv = ⊥
IsOutside Phase.gen = ⊥
IsOutside Phase.transfer = ⊥
IsOutside Phase.prelim = ⊥
IsOutside Phase.final = ⊥
IsOutside _ = Unit {0}

abbrev pub IsLogin : Action → Type 0
IsLogin Action.skip_two = ⊥
IsLogin Action.pasv_response = ⊥
IsLogin (Action.data_response code) = ⊥
IsLogin Action.general_event = ⊥
IsLogin _ = Unit {0}

pub row-IsOutside :
    (p : Phase) (code : ℕ) (t : Transition)
    → IsOutside p
    → scan_rows fsm p code ≡ some t
    → IsLogin t.action × IsOutside t.next
unfolding scan_rows fsm
row-IsOutside Phase.pasv code t o e = absurd o
row-IsOutside _ code t o e = ground arith

pub no_row_of_final : (code : ℕ) → scan_rows fsm Phase.final code ≡ none
unfolding scan_rows fsm
no_row_of_final code = refl

respond-Same : (r : Response) (m : Bytes) (c : Client) → Same c (respond r m c)
respond-Same Response.silent m c = ground arith
respond-Same (Response.notify f) m c = ground arith
respond-Same (Response.set_level p) m c = ground arith

respond_first :
    (r : Response) (m : Bytes) (ms : List Bytes) (c : Client)
    → (d : Client) × (call_response r (m ∷ ms) c ≡ ok d) × Same c d
respond_first Response.silent m ms c = (c, refl, ground arith)
respond_first (Response.notify f) m ms c =
    (respond (Response.notify f) m c, refl, respond-Same (Response.notify f) m c)
respond_first (Response.set_level p) m ms c =
    (respond (Response.set_level p) m c, refl, respond-Same (Response.set_level p) m c)

-- The end of a command that is no transfer.
pub general_event-Safe :
    (m : Bytes) (ms : List Bytes) (c : Client)
    → c.messages ≡ m ∷ ms
    → Shape Phase.gen c
    → c.phase ≡ Phase.ready
    → Safe (process_gen_cmd_event c)
unfolding process_gen_cmd_event
general_event-Safe m ms c e (b, h, n, k, ch, f) p =
    let (cmd, rest, q, h') = general_plan c.cmd_q h n k in
    let (d, said, same) = respond_first cmd.response m ms c in
    let told = ap (λ l. call_response cmd.response l c) e ∙ said in
    subst
      (λ l. Safe (elim l [
        | [] ↦ fault empty_queue
        | x ∷ xs ↦ call_response x.response c.messages c >>= skip_command 1
      ]))
      (sym q)
      (subst (λ r. Safe (r >>= skip_command 1)) (sym told)
        (skip_one-Safe d cmd rest (same.cmd_q ∙ q) h' (subst MayRest (sym (same.phase ∙ p)) tt)
          (same.data_channel ∙ ch) (same.file_device ∙ f)))

-- PASV is refused: it and its transfer command are dropped.
pub skip_two-pasv :
    (c : Client)
    → Shape Phase.pasv c
    → (p : Phase) → MayRest p
    → Safe (skip_command 2 (record c { phase = p }))
skip_two-pasv c (b, h, n, ch, f) p m =
    let (first, q, e, h') = pasv_plan c.cmd_q h n in
    let (second, rest, e', h'') = transfer_plan q h' in
    skip_two-Safe (record c { phase = p }) first second rest (e ∙ ap (λ t. first ∷ t) e') h'' m ch f

-- PASV is accepted: its transfer command is sent.
issue_transfer :
    (c : Client) (cmd second : Command) (rest : List Command)
    → c.cmd_q ≡ cmd ∷ second ∷ rest
    → plan true (second ∷ rest) ≡ true
    → c.data_channel ≡ false
    → c.file_device ≡ false
    → (d : Client) × (skip_command 1 c ≡ ok d)
      × (d.phase ≡ Phase.transfer)
      × (d.cmd_in_progress ≡ true)
      × (plan true d.cmd_q ≡ true)
      × (d.file_device ≡ false)
unfolding skip_command process_next_cmd phase_for
issue_transfer c cmd second rest q h ch f = (
  process_next_cmd (record c { cmd_q = second ∷ rest; cmd_in_progress = false }),
  ap
      (λ l. elim (pop_commands 1 l) [
        | none ↦ fault empty_queue
        | some r ↦ ok (process_next_cmd (record c { cmd_q = r; cmd_in_progress = false }))
      ])
      q,
  ground arith,
  refl,
  h,
  f,
)

accept_pasv-Safe :
    (c : Client) (ns : List ℕ)
    → Shape Phase.pasv c
    → Safe (connect_to (some ns) (record c { phase = Phase.transfer }))
unfolding connect_to open_data_channel
accept_pasv-Safe c ns (b, h, n, ch, f) =
    let (first, q, e, h') = pasv_plan c.cmd_q h n in
    let (second, rest, e', h'') = transfer_plan q h' in
    let (d, said, p, i, pl, f') =
      issue_transfer (record c { phase = Phase.transfer }) first second rest
        (e ∙ ap (λ t. first ∷ t) e') (ap (plan true) (sym e') ∙ h') ch f in
    subst (λ r. Safe (r >>= λ x. ok (open_data_channel (host_of ns) (port_of ns) x))) (sym said)
      (subst (λ x. Shape x (open_data_channel (host_of ns) (port_of ns) d)) (sym p)
        (inr (i, pl, refl, f')))

pub pasv_response-Safe :
    (m : Bytes) (ms : List Bytes) (c : Client)
    → c.messages ≡ m ∷ ms
    → HasAddress m
    → Shape Phase.pasv c
    → Safe (process_pasv_response (record c { phase = Phase.transfer }))
unfolding process_pasv_response pasv_reply
pasv_response-Safe m ms c e (at, ns, there, numbers) s =
    let d : Client = record c { phase = Phase.transfer } in
    subst (λ l. Safe (elim l [ [] ↦ fault empty_queue | x ∷ xs ↦ pasv_reply x d ])) (sym e)
      (subst
        (λ o.
          Safe
            (elim o [ none ↦ fault out_of_range | some a ↦ connect_to (scan_pasv (drop a m)) d ]))
        (sym there) (subst (λ o. Safe (connect_to o d)) (sym numbers) (accept_pasv-Safe c ns s)))

-- The first word on a transfer, and the last.
pub last_word-Safe :
    (code : ℕ) (c : Client)
    → c.cmd_in_progress ≡ true
    → plan true c.cmd_q ≡ true
    → code == b'1' ≡ false
    → code == b'2' ≡ false
    → Safe (process_data_cmd_response code (record c { phase = Phase.final }))
last_word-Safe code c b h n1 n2 = closing-Safe code (record c { phase = Phase.final }) n1 n2 tt b h

pub completed-Safe :
    (c : Client)
    → Shape Phase.prelim c
    → Safe (process_data_cmd_response b'2' (record c { phase = Phase.final }))
unfolding process_data_cmd_response
completed-Safe c (b, h, _, f) = elim (Bool-cases c.data_channel) [
  | inl ch ↦
      subst (λ t. Safe (if t then ok d else skip_command 1 d)) (sym ch)
        (inr (b, h, ch, f ∙ ap (λ t. t && has_local c.cmd_q) ch))
  | inr ch ↦
      let (cmd, rest, q, h') = transfer_plan c.cmd_q h in
      subst (λ t. Safe (if t then ok d else skip_command 1 d)) (sym ch)
        (skip_one-Safe d cmd rest q h' tt ch (f ∙ ap (λ t. t && has_local c.cmd_q) ch))
]
  where
    d : Client
    d = record c { phase = Phase.final }
