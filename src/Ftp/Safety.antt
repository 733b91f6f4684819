-- ===== src/Ftp/Safety.antt =====
-- Every event of a session of CProtocolFTP (INCLUDE/CProtocolFTP.hpp) that the surroundings may
-- send is handled without a fault, and keeps the invariant.
use cpp_npl.Base.{
  ℕ, ◌≡◌, refl, sym, subst, inl, inr, Bool, true, false, Option, some, List, [], ◌∷◌, Bytes, get_or,
  Option-cases, arith,
}
use cpp_npl.Ftp.State.{Phase, clear, Tls, Client, Result, ok, fault, ◌>>=◌, new_client, Verb}
use cpp_npl.Ftp.Commands.{
  channel_tls, get_current_dir, set_current_dir, create_dir, remove_dir, quit, set_credentials,
}
use cpp_npl.Ftp.Transfer.{on_file_write}
use cpp_npl.Ftp.Machine.{
  act, Transition, fsm, scan_rows, Action, run_action, state_machine, on_reply, on_connect,
  on_cc_handshake,
}
use cpp_npl.Ftp.Session.{
  Shape, InTransfer, Inv, Safe, Event, step, run, Enabled, Expected, CanRead, IsOpening, IsShaking,
}
use cpp_npl.Ftp.Calls.{upload-Safe, download-Safe, list_directory-Safe, queue_general-Inv}
use cpp_npl.Ftp.Transfers.{starting-Safe, trigger_data_transfer-Safe}
use cpp_npl.Ftp.Moves.{
  on_data_channel_connect-Safe, on_data_channel_write-Safe, on_data_channel_read-Safe,
  on_data_channel_disconnect-Safe, on_file_read-Safe, on_file_disconnect-Safe,
}
use cpp_npl.Ftp.Endings.{Same-Inv, Same-Shape}
use cpp_npl.Ftp.Replies.{
  IsOutside, row_of_gen, row_of_pasv, row_of_transfer, row_of_prelim, row-IsOutside,
  no_row_of_final, general_event-Safe, skip_two-pasv, pasv_response-Safe, last_word-Safe,
  completed-Safe,
}
use cpp_npl.Ftp.Login.{to_outside, after_handshake-Inv, shake-Inv, login_action-Safe}

-- `act` in the terms of a row.
act-eq :
    (t : Transition) (a : Action) (p : Phase) (c : Client)
    → t.action ≡ a
    → t.next ≡ p
    → Safe (run_action a (record c { phase = p }))
    → Safe (act (some t) c)
act-eq t a p c e n s =
    subst (λ b. Safe (run_action b (record c { phase = t.next }))) (sym e)
      (subst (λ q. Safe (run_action a (record c { phase = q }))) (sym n) s)

-- A reply that finds no row changes nothing; one that finds a row takes its action.
scan-Safe :
    (p : Phase) (code : ℕ) (c : Client)
    → c.phase ≡ p
    → Shape p c
    → ((t : Transition) → scan_rows fsm p code ≡ some t → Safe (act (some t) c))
    → Safe (act (scan_rows fsm p code) c)
scan-Safe p code c e s h = elim (Option-cases (scan_rows fsm p code)) [
  | inl missing ↦ subst (λ o. Safe (act o c)) (sym missing) (subst (λ q. Shape q c) (sym e) s)
  | inr (t, found) ↦ subst (λ o. Safe (act o c)) (sym found) (h t found)
]

outside-act :
    (p : Phase) (code : ℕ) (c : Client)
    → c.phase ≡ p
    → IsOutside p
    → Shape p c
    → Safe (act (scan_rows fsm p code) c)
outside-act p code c e o s = scan-Safe p code c e s λ t found.
    let (a, n) = row-IsOutside p code t o found in
    login_action-Safe t.action (record c { phase = t.next }) a (to_outside p c o s) n

transfer-act :
    (code : ℕ) (c : Client)
    → c.phase ≡ Phase.transfer
    → InTransfer true false c
    → (code ≡ b'1' → c.dc_prot ≡ clear → CanRead c)
    → Safe (act (scan_rows fsm Phase.transfer code) c)
unfolding run_action
transfer-act code c e (b, h, ch, f) r =
    scan-Safe Phase.transfer code c e (inr (b, h, ch, f)) λ t found.
      elim (row_of_transfer code t found) [
        | inl (a, n, one) ↦
            act-eq t _ _ c a n
              (starting-Safe (record c { phase = Phase.prelim }) refl (b, h, ch, f) (r one))
        | inr (inl (a, n)) ↦ act-eq t _ _ c a n (last_word-Safe b'4' c b h refl refl)
        | inr (inr (a, n)) ↦ act-eq t _ _ c a n (last_word-Safe b'5' c b h refl refl)
      ]

prelim-act :
    (code : ℕ) (c : Client)
    → c.phase ≡ Phase.prelim
    → Shape Phase.prelim c
    → Safe (act (scan_rows fsm Phase.prelim code) c)
unfolding run_action
prelim-act code c e s = scan-Safe Phase.prelim code c e s λ t found.
    elim (row_of_prelim code t found) [
      | inl (a, n) ↦ act-eq t _ _ c a n (completed-Safe c s)
      | inr (a, n) ↦ act-eq t _ _ c a n (last_word-Safe b'4' c s.0 s.1 refl refl)
    ]

-- A reply in each phase, once the message is stored.
module _ (m : Bytes) (ms : List Bytes) where
  gen-act :
      (c : Client)
      → c.phase ≡ Phase.gen
      → c.messages ≡ m ∷ ms
      → Shape Phase.gen c
      → Safe (act (scan_rows fsm Phase.gen (get_or m 0 0)) c)
  unfolding run_action
  gen-act c e k s = scan-Safe Phase.gen (get_or m 0 0) c e s λ t found.
      let (a, n) = row_of_gen (get_or m 0 0) t found in
      act-eq t _ _ c a n (general_event-Safe m ms (record c { phase = Phase.ready }) k s refl)

  pasv-act :
      (c : Client)
      → c.phase ≡ Phase.pasv
      → c.messages ≡ m ∷ ms
      → Shape Phase.pasv c
      → Expected Phase.pasv m c
      → Safe (act (scan_rows fsm Phase.pasv (get_or m 0 0)) c)
  unfolding run_action
  pasv-act c e k s x = scan-Safe Phase.pasv (get_or m 0 0) c e s λ t found.
      elim (row_of_pasv (get_or m 0 0) t found) [
        | inl (a, r) ↦ act-eq t _ _ c a refl (skip_two-pasv c s t.next r)
        | inr (a, n, two) ↦ act-eq t _ _ c a n (pasv_response-Safe m ms c k (x two) s)
      ]

  reply-Safe :
      (p : Phase) (c : Client)
      → c.phase ≡ p
      → c.messages ≡ m ∷ ms
      → Shape p c
      → Expected p m c
      → Safe (act (scan_rows fsm p (get_or m 0 0)) c)
  reply-Safe Phase.gen c e k s x = gen-act c e k s
  reply-Safe Phase.pasv c e k s x = pasv-act c e k s x
  reply-Safe Phase.transfer c e k (inl (idle, _, _, _)) (x, r) = absurd (cc)
  reply-Safe Phase.transfer c e k (inr s) x = transfer-act (get_or m 0 0) c e s x.1
  reply-Safe Phase.prelim c e k s x = prelim-act (get_or m 0 0) c e s
  reply-Safe Phase.final c e k s x =
      scan-Safe Phase.final (get_or m 0 0) c e s
        λ t found. absurd (cc (no_row_of_final (get_or m 0 0)))
  reply-Safe p c e k s x = outside-act p (get_or m 0 0) c e tt s

Expected-stored :
    (p : Phase) (text : Bytes) (c : Client)
    → Expected p text c
    → Expected p text (record c { messages = text ∷ c.messages })
Expected-stored Phase.pasv text c x = x
Expected-stored Phase.transfer text c x = x
Expected-stored _ text c x = tt

on_reply-Safe :
    (text : Bytes) (c : Client) → Inv c → Expected c.phase text c → Safe (on_reply text c)
unfolding on_reply state_machine
on_reply-Safe text c s x =
    let d : Client = record c { messages = text ∷ c.messages } in
    reply-Safe text c.messages c.phase d refl refl (Same-Shape c.phase c d (ground arith) s)
      (Expected-stored c.phase text c x)

connected : (p : Phase) (c : Client) → c.phase ≡ p → Shape p c → IsOpening p → Inv (on_connect c)
unfolding on_connect
connected Phase.connecting c e s o =
    shake-Inv (channel_tls c) (record c { phase = Phase.connected }) s
connected _ c e s o = absurd o

shaken : (p : Phase) (c : Client) → c.phase ≡ p → Shape p c → IsShaking p → Inv (on_cc_handshake c)
unfolding on_cc_handshake
shaken Phase.tls c e s o =
    after_handshake-Inv (channel_tls c) c s (subst (λ q. Shape q c) (sym e) s)
shaken _ c e s o = absurd o

-- A step from a client that meets the invariant, on an event that may come.
step-Safe : (e : Event) (c : Client) → Inv c → Enabled e c → Safe (step e c)
unfolding step
step-Safe (Event.upload_call sink remote local p) c s n =
    upload-Safe c s sink remote local p n.0 n.1
step-Safe (Event.download_call sink remote local p) c s n =
    download-Safe c s sink remote local p n.0 n.1
step-Safe (Event.list_call sink remote p) c s n = list_directory-Safe c s sink remote p n
step-Safe (Event.pwd_call cbk) c s n =
    unfold get_current_dir in queue_general-Inv c s Verb.pwd [] cbk refl refl
step-Safe (Event.quit_call cbk) c s n =
    unfold quit in queue_general-Inv c s Verb.quit [] cbk refl refl
step-Safe (Event.cwd_call dir cbk) c s n =
    unfold set_current_dir in queue_general-Inv c s Verb.cwd dir cbk refl refl
step-Safe (Event.mkd_call dir cbk) c s n =
    unfold create_dir in queue_general-Inv c s Verb.mkd dir cbk refl refl
step-Safe (Event.rmd_call dir cbk) c s n =
    unfold remove_dir in queue_general-Inv c s Verb.rmd dir cbk refl refl
step-Safe (Event.credentials user pass) c s n =
    unfold set_credentials in Same-Inv c _ (ground arith) s
step-Safe Event.connects c s n = connected c.phase c refl s n
step-Safe Event.handshaken c s n = shaken c.phase c refl s n
step-Safe (Event.reply text) c s n = on_reply-Safe text c s n
step-Safe Event.data_connects c s n = on_data_channel_connect-Safe c s n
step-Safe Event.data_disconnects c s n = on_data_channel_disconnect-Safe c s n.0 n.1
step-Safe Event.data_handshaken c s n = trigger_data_transfer-Safe c s n.0 n.1 n.2
step-Safe (Event.data_read answer b) c s n = on_data_channel_read-Safe c s n.0 n.1 answer b
step-Safe (Event.file_read answer b) c s n = on_file_read-Safe c s n.0 answer b n.1 n.2
step-Safe (Event.data_written b) c s n = on_data_channel_write-Safe c s n b
step-Safe (Event.file_written b) c s n = unfold on_file_write in s
step-Safe Event.file_disconnects c s n = on_file_disconnect-Safe c s n.0
step-Safe (Event.read_turns works) c s n = Same-Inv c _ (ground arith) s

survives : (r : Result) → Safe r → (d : Client) × (r ≡ ok d) × Inv d
survives (ok d) s = (d, refl, s)
survives (fault f) s = absurd s

-- Whatever event comes to a client that meets the invariant, among those that its surroundings may
-- send it then, is handled without a fault, and the client meets the invariant again. It belongs to
-- these surroundings that a read of the local file which an upload asks for gives a context: that the
-- file could be opened, and that the read does not fail.
pub step_survives :
    (e : Event) (c : Client) → Inv c → Enabled e c → (d : Client) × (step e c ≡ ok d) × Inv d
step_survives e c s n = survives (step e c) (step-Safe e c s n)

-- A sequence of events, each one allowed by the surroundings where it comes.
abbrev pub Allowed : List Event → Result → Type 0
Allowed es (fault f) = Unit {0}
Allowed [] (ok c) = Unit {0}
Allowed (e ∷ es) (ok c) = Enabled e c × Allowed es (step e c)

run-Safe : (es : List Event) (c : Client) → Inv c → Allowed es (ok c) → Safe (run es c)
unfolding run
run-Safe [] c s a = s
run-Safe (e ∷ es) c s (n, a) =
    let (d, same, i) = step_survives e c s n in
    subst (λ r. Safe (r >>= run es)) (sym same) (run-Safe es d i (subst (Allowed es) same a))

-- A session from a new client, of any length, whose events are all allowed where they come, runs
-- through without a fault, and ends in a client that meets the invariant. Allowed means what the
-- surroundings keep to, `Enabled`: among other things, that each read of the local file which an
-- upload asks for gives a context, so that the file could be opened and no read fails.
pub session_survives :
    (socket : Option Tls) (merged : Bool) (es : List Event)
    → Allowed es (ok (new_client socket merged))
    → (d : Client) × (run es (new_client socket merged) ≡ ok d) × Inv d
unfolding new_client
session_survives socket merged es a =
    survives (run es (new_client socket merged))
      (run-Safe es (new_client socket merged) (refl, (λ e. cc), refl, refl) a)
