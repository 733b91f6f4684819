-- ===== src/Ftp/Whole.antt =====
-- Whole sessions of CProtocolFTP (INCLUDE/CProtocolFTP.hpp): calls and transfers of every kind, the
-- login, and what comes behind it.
use cpp_npl.Base.{
  ◌≡◌, refl, sym, ap, ◌∙◌, Bool, true, false, some, List, [], ◌∷◌, ◌++◌, append-nil, append_assoc,
  Bytes, if◌then◌else◌,
}
use cpp_npl.Ftp.State.{Phase, Tls, Client, new_client, ok, ◌>>=◌}
use cpp_npl.Ftp.Commands.{issue, process_next_cmd, set_credentials}
use cpp_npl.Ftp.Session.{credentials, step, run, IsIdle}
use cpp_npl.Ftp.Opening.{
  Welcome, IsWelcome, login, login_messages, login_effects, run-append, login_issues_queue,
}
use cpp_npl.Ftp.Pieces.{Piece, queue_of, events_of, left_by, piece_runs, left_by-IsBetween}
use cpp_npl.Ftp.Sent.{sent_lines, lines, lines-append, sent_lines-left_by}
use cpp_npl.Ftp.Script.{
  queue_all, events_all, left_all, AllFit, Call, call_events, pieces_of_all, AllCalls, busy_calls,
}

next_none : (c : Client) → c.cmd_in_progress ≡ false → c.cmd_q ≡ [] → process_next_cmd c ≡ c
unfolding process_next_cmd issue
next_none c b q =
    ap (λ x. if x then c else issue c.cmd_q c) b
    ∙ ap (λ x. issue x c) q
    ∙ ap (λ x. record c { cmd_in_progress = x }) (sym b)

all_run :
    (xs : List Piece) (c : Client)
    → AllFit xs
    → c.cmd_in_progress ≡ false
    → c.cmd_q ≡ queue_all xs
    → c.data_channel ≡ false
    → c.file_device ≡ false
    → c.read_works ≡ true
    → (run (events_all xs c) (process_next_cmd c) ≡ ok (left_all xs c))
      × IsIdle (left_all xs c)
      × (sent_lines (left_all xs c).effects ≡ sent_lines c.effects ++ lines (queue_all xs))
unfolding run
all_run [] c h b q d f z =
    (ap ok (next_none c b q), (b, q, d, f), sym (append-nil (sent_lines c.effects)))
all_run (x ∷ xs) c (h, hs) b q d f z =
    let e : Client = left_by x (queue_all xs) c in
    let (b2, q2, d2, f2, z2) = left_by-IsBetween x (queue_all xs) c d f z in
    let (goes, idle, said) = all_run xs e hs b2 q2 d2 f2 z2 in
    (
      run-append (events_of c.dc_prot x) (events_all xs e) (process_next_cmd c)
          ∙ ap (λ r. r >>= run (events_all xs e)) (piece_runs x (queue_all xs) c h b q f z)
          ∙ goes,
      idle,
      said
          ∙ ap (λ s. s ++ lines (queue_all xs)) (sent_lines-left_by x (queue_all xs) c)
          ∙ append_assoc (sent_lines c.effects) (lines (queue_of x)) (lines (queue_all xs))
          ∙ ap (λ s. sent_lines c.effects ++ s) (sym (lines-append (queue_of x) (queue_all xs))),
    )

-- A new client with its calls queued, when it has logged in.
abbrev pub at_login : Tls → Bool → Bytes → Bytes → Welcome → List Call → Client
at_login t merged user pass w xs = record (new_client (some t) merged) {
  phase = Phase.ready;
  user_name = user;
  password = pass;
  cmd_in_progress = false;
  cmd_q = queue_all (pieces_of_all t xs);
  messages = login_messages t w [];
  effects = login_effects t user pass [];
}

-- A whole session of a new client, for any mode of TLS. The credentials and any number of calls are
-- given before it is connected, transfers among them, each on a level of protection of its own; no
-- call fails its assertion. Then come the login, and for each command that was queued a reply, or
-- for PASV and its transfer their replies, the blocks and the close of the data channel, which may
-- come before the completion or behind it. The reads of local files give contexts, as they do from
-- the start until `read_turns` says otherwise. The session goes through without a fault to the client
-- that `left_all` describes command by command. That client is idle, and the lines that it has sent
-- are those of the login and then those of the commands, in the order of the calls, each once.
pub session_goes_through :
    (t : Tls) (merged : Bool) (user pass : Bytes) (w : Welcome) (xs : List Call)
    → IsWelcome w
    → AllCalls xs
    → AllFit (pieces_of_all t xs)
    → (run
          (credentials user pass ∷ call_events xs
            ++ (login t w ++ events_all (pieces_of_all t xs) (at_login t merged user pass w xs)))
          (new_client (some t) merged)
        ≡ ok (left_all (pieces_of_all t xs) (at_login t merged user pass w xs)))
      × IsIdle (left_all (pieces_of_all t xs) (at_login t merged user pass w xs))
      × (sent_lines (left_all (pieces_of_all t xs) (at_login t merged user pass w xs)).effects
          ≡ sent_lines (login_effects t user pass []) ++ lines (queue_all (pieces_of_all t xs)))
unfolding run step set_credentials new_client
session_goes_through t merged user pass w xs i a h =
    let c : Client = record (new_client (some t) merged) { user_name = user; password = pass } in
    let queued : Client = record c { cmd_q = queue_all (pieces_of_all t xs) } in
    let start : Client = at_login t merged user pass w xs in
    let events = events_all (pieces_of_all t xs) start in
    let (goes, idle, said) = all_run (pieces_of_all t xs) start h refl refl refl refl refl in
    (
      run-append (call_events xs) (login t w ++ events) c
          ∙ ap (λ r. r >>= run (login t w ++ events)) (busy_calls t xs c a refl refl)
          ∙ run-append (login t w) events queued
          ∙ ap (λ r. r >>= run events) (login_issues_queue t w queued i refl refl)
          ∙ goes,
      idle,
      said,
    )
