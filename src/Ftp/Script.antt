-- ===== src/Ftp/Script.antt =====
-- Any number of commands and transfers of CProtocolFTP (INCLUDE/CProtocolFTP.hpp), one behind the
-- other, and the calls that queue them.
use cpp_npl.Base.{
  ℕ, ◌≡◌, refl, sym, ap, ap₂, ◌∙◌, ◌||◌, if◌then◌else◌, true, false, Option, none, some, List, [],
  ◌∷◌, ◌++◌, append-nil, append_assoc, Bytes, codes, is_empty,
}
use cpp_npl.Ftp.State.{
  Tls, no_tls, explicit, implicit, DcProt, Verb, silent, notify, set_level, Command, Client, Result,
  ok, fault, assertion, ◌>>=◌,
}
use cpp_npl.Ftp.Commands.{
  command, queue_general, get_current_dir, set_current_dir, create_dir, remove_dir, quit,
  level_text, process_next_cmd, upload, download, list_directory, channel_tls, enqueue,
  level_commands, set_dc_prot_level,
}
use cpp_npl.Ftp.Session.{
  pwd_call, quit_call, cwd_call, mkd_call, rmd_call, Event, upload_call, download_call, list_call,
  step, run,
}
use cpp_npl.Ftp.Fifo.{
  Ask, ask_pwd, ask_quit, ask_cwd, ask_mkd, ask_rmd, Exchange, event_of, verb_of, argument_of,
  next_busy, step-event_of,
}
use cpp_npl.Ftp.Pieces.{
  Course, Piece, plain, shows, fetches, stores, queue_of, events_of, left_by, Fits,
}

abbrev pub queue_all : List Piece → List Command
queue_all [] = []
queue_all (x ∷ xs) = queue_of x ++ queue_all xs

-- Where a level of protection is asked for, it holds for what comes behind the reply.
abbrev pub events_all : List Piece → Client → List Event
events_all [] c = []
events_all (x ∷ xs) c = events_of c.dc_prot x ++ events_all xs (left_by x (queue_all xs) c)

abbrev pub left_all : List Piece → Client → Client
left_all [] c = c
left_all (x ∷ xs) c = left_all xs (left_by x (queue_all xs) c)

abbrev pub AllFit : List Piece → Type 0
AllFit [] = Unit {0}
AllFit (x ∷ xs) = Fits x × AllFit xs

-- The user's calls, with what the server and the data channel do about them: the replies to PBSZ and
-- PROT, where these are sent, and the course of the transfer.
pub record Leveled : Type 0 where
  pub level : DcProt
  pub pbsz_reply : Bytes
  pub prot_reply : Bytes

pub data Call : Type 0 where
  simple : Exchange → Call
  -- A call without a callback, and the reply.
  quiet : Ask → Bytes → Call
  list : Leveled → ℕ → Bytes → Bytes → Course → Call
  show : Leveled → ℕ → Bytes → Course → Call
  get put : Leveled → Option ℕ → Bytes → Bytes → Course → Call

abbrev pub quiet_event : Ask → Event
quiet_event ask_pwd = pwd_call none
quiet_event ask_quit = quit_call none
quiet_event (ask_cwd dir) = cwd_call dir none
quiet_event (ask_mkd dir) = mkd_call dir none
quiet_event (ask_rmd dir) = rmd_call dir none

abbrev pub call_event : Call → Event
call_event (simple x) = event_of x.ask x.callback
call_event (quiet a text) = quiet_event a
call_event (list l f remote binary k) = list_call (some f) remote l.level
call_event (show l f remote k) = download_call (some f) remote [] l.level
call_event (get l sink remote local k) = download_call sink remote local l.level
call_event (put l sink remote local k) = upload_call sink remote local l.level

abbrev pub call_events : List Call → List Event
call_events [] = []
call_events (x ∷ xs) = call_event x ∷ call_events xs

-- What a call queues: a level of protection only where there is TLS.
abbrev pub leveled : Tls → Leveled → List Piece → List Piece
leveled no_tls l xs = xs
leveled explicit l xs =
    plain Verb.pbsz (codes "0") silent l.pbsz_reply
    ∷ plain Verb.prot (level_text l.level) (set_level l.level) l.prot_reply
    ∷ xs
leveled implicit l xs =
    plain Verb.pbsz (codes "0") silent l.pbsz_reply
    ∷ plain Verb.prot (level_text l.level) (set_level l.level) l.prot_reply
    ∷ xs

abbrev pub pieces_of : Tls → Call → List Piece
pieces_of t (simple x) = plain (verb_of x.ask) (argument_of x.ask) (notify x.callback) x.answer ∷ []
pieces_of t (quiet a text) = plain (verb_of a) (argument_of a) silent text ∷ []
pieces_of t (list l f remote binary k) =
    leveled t l (plain Verb.type (codes "I") silent binary ∷ shows Verb.list f remote k ∷ [])
pieces_of t (show l f remote k) = leveled t l (shows Verb.retr f remote k ∷ [])
pieces_of t (get l sink remote local k) = leveled t l (fetches sink remote local k ∷ [])
pieces_of t (put l sink remote local k) = leveled t l (stores sink remote local k ∷ [])

abbrev pub pieces_of_all : Tls → List Call → List Piece
pieces_of_all t [] = []
pieces_of_all t (x ∷ xs) = pieces_of t x ++ pieces_of_all t xs

-- The calls that do not fail an assertion.
abbrev pub IsCall : Call → Type 0
IsCall (simple x) = Unit {0}
IsCall (quiet a text) = Unit {0}
IsCall (list l f remote binary k) = Unit {0}
IsCall (show l f remote k) = is_empty remote ≡ false
IsCall (get l sink remote local k) = (is_empty remote ≡ false) × (is_empty local ≡ false)
IsCall (put l sink remote local k) = (is_empty remote ≡ false) × (is_empty local ≡ false)

abbrev pub AllCalls : List Call → Type 0
AllCalls [] = Unit {0}
AllCalls (x ∷ xs) = IsCall x × AllCalls xs

level_queue :
    (t : Tls) (p : DcProt) (c : Client)
    → c.socket ≡ some t
    → set_dc_prot_level p c ≡ record c { cmd_q = c.cmd_q ++ level_commands t p }
unfolding set_dc_prot_level
level_queue t p c s =
    ap
      (λ y. record c {
        cmd_q = c.cmd_q ++ level_commands (channel_tls (record c { socket = y })) p;
      })
      s

-- What `Upload` and `Download` do once their arguments have been found good.
abbrev queued_up : Piece → Leveled → Client → Result
queued_up x l c = ok (process_next_cmd (enqueue (queue_of x) (set_dc_prot_level l.level c)))

queue_all-append : (xs ys : List Piece) → queue_all (xs ++ ys) ≡ queue_all xs ++ queue_all ys
queue_all-append [] ys = refl
queue_all-append (x ∷ xs) ys =
    ap (λ q. queue_of x ++ q) (queue_all-append xs ys)
    ∙ sym (append_assoc (queue_of x) (queue_all xs) (queue_all ys))

leveled_queue :
    (t : Tls) (l : Leveled) (xs : List Piece) (c : Client)
    → c.socket ≡ some t
    → enqueue (queue_all xs) (set_dc_prot_level l.level c)
      ≡ record c { cmd_q = c.cmd_q ++ queue_all (leveled t l xs) }
leveled_queue no_tls l xs c s =
    ap (enqueue (queue_all xs)) (level_queue no_tls l.level c s)
    ∙ ap (λ q. record c { cmd_q = q ++ queue_all xs }) (append-nil c.cmd_q)
leveled_queue explicit l xs c s =
    ap (enqueue (queue_all xs)) (level_queue explicit l.level c s)
    ∙ ap (λ q. record c { cmd_q = q })
        (append_assoc c.cmd_q (level_commands explicit l.level) (queue_all xs))
leveled_queue implicit l xs c s =
    ap (enqueue (queue_all xs)) (level_queue implicit l.level c s)
    ∙ ap (λ q. record c { cmd_q = q })
        (append_assoc c.cmd_q (level_commands implicit l.level) (queue_all xs))

quiet_lem :
    (a : Ask) (c : Client)
    → step (quiet_event a) c
      ≡ ok (
          process_next_cmd (record c {
            cmd_q = c.cmd_q ++ command (verb_of a) (argument_of a) [] silent none ∷ [];
          }))
unfolding step queue_general get_current_dir set_current_dir create_dir remove_dir quit
quiet_lem ask_pwd c = refl
quiet_lem ask_quit c = refl
quiet_lem (ask_cwd dir) c = refl
quiet_lem (ask_mkd dir) c = refl
quiet_lem (ask_rmd dir) c = refl

pub call_lem :
    (t : Tls) (x : Call) (c : Client)
    → IsCall x
    → c.socket ≡ some t
    → step (call_event x) c
      ≡ ok (process_next_cmd (record c { cmd_q = c.cmd_q ++ queue_all (pieces_of t x) }))
unfolding step upload download list_directory
call_lem t (simple x) c i s = step-event_of x c
call_lem t (quiet a text) c i s = quiet_lem a c
call_lem t (list l f remote binary k) c i s =
    ap (λ d. ok (process_next_cmd d))
      (leveled_queue t l
        (plain Verb.type (codes "I") silent binary ∷ shows Verb.list f remote k ∷ []) c s)
call_lem t (show l f remote k) c i s =
    ap (λ b. if b || false then fault assertion else queued_up (shows Verb.retr f remote k) l c) i
    ∙ ap (λ d. ok (process_next_cmd d)) (leveled_queue t l (shows Verb.retr f remote k ∷ []) c s)
call_lem t (get l none remote local k) c (i, j) s =
    ap₂ (λ a b. if a || b then fault assertion else queued_up (fetches none remote local k) l c) i j
    ∙ ap (λ d. ok (process_next_cmd d)) (leveled_queue t l (fetches none remote local k ∷ []) c s)
call_lem t (get l (some f) remote local k) c (i, j) s =
    ap
      (λ a. if a || false then fault assertion else queued_up (fetches (some f) remote local k) l c)
      i
    ∙ ap (λ d. ok (process_next_cmd d))
        (leveled_queue t l (fetches (some f) remote local k ∷ []) c s)
call_lem t (put l sink remote local k) c (i, j) s =
    ap₂ (λ a b. if a || b then fault assertion else queued_up (stores sink remote local k) l c) i j
    ∙ ap (λ d. ok (process_next_cmd d)) (leveled_queue t l (stores sink remote local k ∷ []) c s)

-- Calls of a client that is busy only lengthen the queue.
pub busy_calls :
    (t : Tls) (xs : List Call) (c : Client)
    → AllCalls xs
    → c.socket ≡ some t
    → c.cmd_in_progress ≡ true
    → run (call_events xs) c ≡ ok (record c { cmd_q = c.cmd_q ++ queue_all (pieces_of_all t xs) })
unfolding run
busy_calls t [] c a s b = ap (λ q. ok (record c { cmd_q = q })) (sym (append-nil c.cmd_q))
busy_calls t (x ∷ xs) c (i, is) s b =
    let d : Client = record c { cmd_q = c.cmd_q ++ queue_all (pieces_of t x) } in
    ap (λ r. r >>= run (call_events xs)) (call_lem t x c i s ∙ ap ok (next_busy d b))
    ∙ busy_calls t xs d is s b
    ∙ ap (λ q. ok (record c { cmd_q = q }))
        (append_assoc c.cmd_q (queue_all (pieces_of t x)) (queue_all (pieces_of_all t xs))
          ∙ ap (λ q. c.cmd_q ++ q) (sym (queue_all-append (pieces_of t x) (pieces_of_all t xs))))
