-- ===== src/Ftp/Later.antt =====
-- A call of CProtocolFTP (INCLUDE/CProtocolFTP.hpp) that comes earlier or later: commands that join the
-- queue before an event is handled, or behind it.
use cpp_npl.Base.{
  ℕ, ◌≡◌, refl, sym, ap, ◌∙◌, Bool, true, false, Option, none, some, List, [], ◌∷◌, ◌++◌, Bytes,
  get_or, ◌==◌, if◌then◌else◌, arith,
}
use cpp_npl.Ftp.State.{
  Tls, explicit, implicit, no_tls, Response, silent, notify, set_level, Verb, Command, Client, emit,
  give_end, Result, ok, ◌>>=◌,
}
use cpp_npl.Ftp.Commands.{process_next_cmd, issue, skip_command, send_command, channel_tls}
use cpp_npl.Ftp.Transfer.{
  process_data_cmd_response, initialize_file_device, begin_transfer, finish_if_final, open_local,
  trigger_data_transfer, drop_channel, drop_file, process_pasv_response, pasv_reply, connect_to,
  open_data_channel, on_data_channel_read, on_data_channel_disconnect, on_file_read,
  on_file_disconnect, on_data_channel_connect, end_sink,
}
use cpp_npl.Ftp.Machine.{
  Action, no_action, check_ftps, handshake, send_user, send_pass, send_acct, login, skip_two,
  pasv_response, data_response, general_event, run_action, greet, start_tls, respond,
  process_gen_cmd_event, process_login_event, call_response, check_explicit_ftps, do_cc_handshake,
}

-- A client that has a command in progress, with a queue.
abbrev pub busy : Client → List Command → Client
busy c qs = record c { cmd_in_progress = true; cmd_q = qs }

-- More commands are queued, and the first is sent where none is in progress.
abbrev pub later : List Command → Client → Client
later q d = process_next_cmd (record d { cmd_q = d.cmd_q ++ q })

pub stays_later :
    (qs q : List Command) (c : Client) → ok (busy c (qs ++ q)) ≡ ok (later q (busy c qs))
unfolding process_next_cmd
stays_later qs q c = refl

issue_later :
    (xs q : List Command) (c : Client)
    → process_next_cmd (record c { cmd_in_progress = false; cmd_q = xs ++ q })
      ≡ later q (process_next_cmd (record c { cmd_in_progress = false; cmd_q = xs }))
unfolding process_next_cmd issue
issue_later [] q c = refl
issue_later (x ∷ xs) q c = refl

skip_later :
    (x : Command) (xs q : List Command) (c : Client)
    → skip_command 1 (busy c (x ∷ xs ++ q))
      ≡ (skip_command 1 (busy c (x ∷ xs)) >>= λ d. ok (later q d))
unfolding skip_command
skip_later x xs q c = ap ok (issue_later xs q c)

skip_two_later :
    (x y : Command) (xs q : List Command) (c : Client)
    → skip_command 2 (busy c (x ∷ y ∷ xs ++ q))
      ≡ (skip_command 2 (busy c (x ∷ y ∷ xs)) >>= λ d. ok (later q d))
unfolding skip_command
skip_two_later x y xs q c = ap ok (issue_later xs q c)

greet-later :
    (t : Tls) (qs q : List Command) (c : Client)
    → greet t (busy c (qs ++ q)) ≡ later q (greet t (busy c qs))
unfolding greet process_next_cmd
greet-later no_tls qs q c = refl
greet-later explicit qs q c = refl
greet-later implicit qs q c = refl

pub start_later :
    (t : Option Tls) (qs q : List Command) (c : Client)
    → start_tls t (busy c (qs ++ q)) ≡ later q (start_tls t (busy c qs))
unfolding start_tls process_next_cmd
start_later none qs q c = refl
start_later (some t) qs q c = refl

-- A response callback leaves the queue alone.
set_busy :
    (b : Bool) (c d : Client) (qs : List Command)
    → (if b then busy c qs else busy d qs) ≡ busy (if b then c else d) qs
set_busy true c d qs = refl
set_busy false c d qs = refl

respond-busy :
    (r : Response) (m : Bytes) (c : Client) (qs : List Command)
    → respond r m (busy c qs) ≡ busy (respond r m c) qs
respond-busy silent m c qs = refl
respond-busy (notify f) m c qs = refl
respond-busy (set_level p) m c qs = set_busy (get_or m 0 0 == b'2') _ _ qs

begin_later :
    (x : Command) (xs q : List Command) (c : Client)
    → (initialize_file_device (busy c (x ∷ xs ++ q)) >>= λ d. begin_transfer d.dc_prot d) ≡ (
        initialize_file_device (busy c (x ∷ xs)) >>= (λ d. begin_transfer d.dc_prot d) >>= λ d.
        ok (later q d))
unfolding initialize_file_device open_local trigger_data_transfer process_next_cmd
begin_later x xs q c = ground arith

-- Either branch of a test.
either_later :
    (b : Bool) (r s u v : Result) (f : Client → Result)
    → r ≡ (u >>= f)
    → s ≡ (v >>= f)
    → (if b then r else s) ≡ ((if b then u else v) >>= f)
either_later true r s u v f d e = d
either_later false r s u v f d e = e

complete_later :
    (x : Command) (xs q : List Command) (c : Client)
    → (if c.data_channel then ok (busy c (x ∷ xs ++ q)) else skip_command 1 (busy c (x ∷ xs ++ q)))
      ≡ ((if c.data_channel then ok (busy c (x ∷ xs)) else skip_command 1 (busy c (x ∷ xs)))
          >>= λ d. ok (later q d))
complete_later x xs q c =
    either_later c.data_channel _ _ _ _ _ (stays_later (x ∷ xs) q c) (skip_later x xs q c)

final_later :
    (x : Command) (xs q : List Command) (c : Client)
    → finish_if_final (busy c (x ∷ xs ++ q))
      ≡ (finish_if_final (busy c (x ∷ xs)) >>= λ d. ok (later q d))
final_later x xs q c = either_later _ _ _ _ _ _ (skip_later x xs q c) (stays_later (x ∷ xs) q c)

-- The channel and the file are let go, whatever is queued.
drop_busy :
    (a b : Bool) (c : Client) (qs : List Command)
    → drop_file (drop_channel (busy (record c { data_channel = a; file_device = b }) qs))
      ≡ busy (drop_file (drop_channel (record c { data_channel = a; file_device = b }))) qs
unfolding drop_channel drop_file
drop_busy true true c qs = refl
drop_busy true false c qs = refl
drop_busy false true c qs = refl
drop_busy false false c qs = refl

close_later :
    (x : Command) (xs q : List Command) (c : Client)
    → finish_if_final (drop_file (drop_channel (busy c (x ∷ xs ++ q))))
      ≡ (finish_if_final (drop_file (drop_channel (busy c (x ∷ xs)))) >>= λ d. ok (later q d))
close_later x xs q c =
    ap finish_if_final (drop_busy c.data_channel c.file_device c (x ∷ xs ++ q))
    ∙ final_later x xs q (drop_file (drop_channel c))
    ∙ ap (λ d. finish_if_final d >>= λ d. ok (later q d))
        (sym (drop_busy c.data_channel c.file_device c (x ∷ xs)))

-- What is said of a transfer, with its command in front.
data_later :
    (code : ℕ) (x : Command) (xs q : List Command) (c : Client)
    → process_data_cmd_response code (busy c (x ∷ xs ++ q))
      ≡ (process_data_cmd_response code (busy c (x ∷ xs)) >>= λ d. ok (later q d))
unfolding process_data_cmd_response
data_later code x xs q c =
    either_later (code == b'1') _ _ _ _ _ (begin_later x xs q c)
      (either_later (code == b'2') _ _ _ _ _ (complete_later x xs q c) (close_later x xs q c))

pub front_later :
    (x : Command) (xs q : List Command) (c : Client)
    → (on_data_channel_connect (busy c (x ∷ xs ++ q))
        ≡ (on_data_channel_connect (busy c (x ∷ xs)) >>= λ d. ok (later q d)))
      × (trigger_data_transfer (busy c (x ∷ xs ++ q))
          ≡ (trigger_data_transfer (busy c (x ∷ xs)) >>= λ d. ok (later q d)))
      × (on_file_disconnect (busy c (x ∷ xs ++ q))
          ≡ (on_file_disconnect (busy c (x ∷ xs)) >>= λ d. ok (later q d)))
unfolding on_data_channel_connect trigger_data_transfer on_file_disconnect process_next_cmd
front_later x xs q c = (ground arith, ground arith, ground arith)

pub read_later :
    (answer : Bool) (b : Bytes) (x : Command) (xs q : List Command) (c : Client)
    → (on_data_channel_read answer b (busy c (x ∷ xs ++ q))
        ≡ (on_data_channel_read answer b (busy c (x ∷ xs)) >>= λ d. ok (later q d)))
      × (on_file_read answer b (busy c (x ∷ xs ++ q))
          ≡ (on_file_read answer b (busy c (x ∷ xs)) >>= λ d. ok (later q d)))
unfolding on_data_channel_read on_file_read process_next_cmd
read_later answer b x xs q c = (ground arith, ground arith)

pasv_later :
    (m : Bytes) (x y : Command) (xs q : List Command) (c : Client)
    → pasv_reply m (busy c (x ∷ y ∷ xs ++ q))
      ≡ (pasv_reply m (busy c (x ∷ y ∷ xs)) >>= λ d. ok (later q d))
unfolding pasv_reply connect_to open_data_channel skip_command process_next_cmd issue
pasv_later m x y xs q c = ground arith

pub disconnect_later :
    (x : Command) (xs q : List Command) (c : Client)
    → on_data_channel_disconnect (busy c (x ∷ xs ++ q))
      ≡ (on_data_channel_disconnect (busy c (x ∷ xs)) >>= λ d. ok (later q d))
unfolding on_data_channel_disconnect
disconnect_later x xs q c = by_sink x.sink
  where
    by_sink :
        (s : Option ℕ)
        → process_data_cmd_response b'0' (end_sink s (busy c (x ∷ xs ++ q)))
          ≡ (process_data_cmd_response b'0' (end_sink s (busy c (x ∷ xs))) >>= λ d. ok (later q d))
    by_sink none = data_later b'0' x xs q c
    by_sink (some f) = data_later b'0' x xs q (emit (give_end f) c)

answer_later :
    (r : Response) (m : Bytes) (ms : List Bytes) (x : Command) (xs q : List Command) (c : Client)
    → (call_response r (m ∷ ms) (busy c (x ∷ xs ++ q)) >>= skip_command 1)
      ≡ (call_response r (m ∷ ms) (busy c (x ∷ xs)) >>= skip_command 1 >>= λ d. ok (later q d))
answer_later silent m ms x xs q c = skip_later x xs q c
answer_later (notify f) m ms x xs q c = skip_later x xs q (respond (notify f) m c)
answer_later (set_level p) m ms x xs q c =
    ap (skip_command 1) (respond-busy (set_level p) m c (x ∷ xs ++ q))
    ∙ skip_later x xs q (respond (set_level p) m c)
    ∙ ap (λ d. skip_command 1 d >>= λ d. ok (later q d))
        (sym (respond-busy (set_level p) m c (x ∷ xs)))

-- What an action needs of the queue. A login that is refused clears it.
abbrev pub Ready : Action → List Command → Type 0
Ready skip_two (x ∷ y ∷ xs) = Unit {0}
Ready skip_two _ = ⊥
Ready pasv_response (x ∷ y ∷ xs) = Unit {0}
Ready pasv_response _ = ⊥
Ready (data_response code) (x ∷ xs) = Unit {0}
Ready (data_response code) _ = ⊥
Ready general_event (x ∷ xs) = Unit {0}
Ready general_event _ = ⊥
Ready (login false) _ = ⊥
Ready _ _ = Unit {0}

pub act_later :
    (a : Action) (qs q : List Command) (m : Bytes) (ms : List Bytes) (c : Client)
    → Ready a qs
    → run_action a (busy (record c { messages = m ∷ ms }) (qs ++ q))
      ≡ (run_action a (busy (record c { messages = m ∷ ms }) qs) >>= λ d. ok (later q d))
unfolding run_action process_login_event process_gen_cmd_event process_pasv_response
    check_explicit_ftps do_cc_handshake send_command
act_later no_action qs q m ms c h = stays_later qs q (record c { messages = m ∷ ms })
act_later check_ftps qs q m ms c h =
    ap ok (greet-later (channel_tls c) qs q (record c { messages = m ∷ ms }))
act_later handshake qs q m ms c h =
    ap ok (start_later c.socket qs q (record c { messages = m ∷ ms }))
act_later send_user qs q m ms c h =
    stays_later qs q (send_command Verb.user c.user_name (record c { messages = m ∷ ms }))
act_later send_pass qs q m ms c h =
    stays_later qs q (send_command Verb.pass c.password (record c { messages = m ∷ ms }))
act_later send_acct qs q m ms c h =
    stays_later qs q (send_command Verb.acct [] (record c { messages = m ∷ ms }))
act_later (login true) qs q m ms c h = ap ok (issue_later qs q (record c { messages = m ∷ ms }))
act_later (login false) qs q m ms c h = absurd h
act_later skip_two (x ∷ y ∷ xs) q m ms c h =
    skip_two_later x y xs q (record c { messages = m ∷ ms })
act_later skip_two (x ∷ []) q m ms c h = absurd h
act_later skip_two [] q m ms c h = absurd h
act_later pasv_response (x ∷ y ∷ xs) q m ms c h =
    pasv_later m x y xs q (record c { messages = m ∷ ms })
act_later pasv_response (x ∷ []) q m ms c h = absurd h
act_later pasv_response [] q m ms c h = absurd h
act_later (data_response code) (x ∷ xs) q m ms c h =
    data_later code x xs q (record c { messages = m ∷ ms })
act_later (data_response code) [] q m ms c h = absurd h
act_later general_event (x ∷ xs) q m ms c h =
    answer_later x.response m ms x xs q (record c { messages = m ∷ ms })
act_later general_event [] q m ms c h = absurd h
