-- ===== src/Ftp/Fifo.antt =====
-- Several calls in a row, and their replies: the command queue of CProtocolFTP
-- (INCLUDE/CProtocolFTP.hpp) keeps their order.
use cpp_npl.Base.{
  ℕ, ◌≡◌, refl, sym, ap, ◌∙◌, true, false, some, none, List, [], ◌∷◌, ◌++◌, append-nil,
  append_assoc, Bytes, get_or, arith,
}
use cpp_npl.Ftp.State.{Phase, Verb, notify, Command, Client, Effect, sent, tell, ok, ◌>>=◌}
use cpp_npl.Ftp.Commands.{
  command, command_line, phase_for, process_next_cmd, queue_general, get_current_dir,
  set_current_dir, create_dir, remove_dir, quit, skip_command,
}
use cpp_npl.Ftp.Machine.{on_reply, state_machine, scan_rows, fsm, run_action}
use cpp_npl.Ftp.Session.{Event, pwd_call, cwd_call, mkd_call, rmd_call, quit_call, reply, step, run}
use cpp_npl.Ftp.Order.{IsReplyCode, general_reply}

-- A call that queues one command, without its callback.
pub data Ask : Type 0 where
  ask_pwd ask_quit : Ask
  ask_cwd ask_mkd ask_rmd : Bytes → Ask

abbrev pub event_of : Ask → ℕ → Event
event_of ask_pwd f = pwd_call (some f)
event_of ask_quit f = quit_call (some f)
event_of (ask_cwd dir) f = cwd_call dir (some f)
event_of (ask_mkd dir) f = mkd_call dir (some f)
event_of (ask_rmd dir) f = rmd_call dir (some f)

abbrev pub verb_of : Ask → Verb
verb_of ask_pwd = Verb.pwd
verb_of ask_quit = Verb.quit
verb_of (ask_cwd dir) = Verb.cwd
verb_of (ask_mkd dir) = Verb.mkd
verb_of (ask_rmd dir) = Verb.rmd

abbrev pub argument_of : Ask → Bytes
argument_of ask_pwd = []
argument_of ask_quit = []
argument_of (ask_cwd dir) = dir
argument_of (ask_mkd dir) = dir
argument_of (ask_rmd dir) = dir

-- A call, its callback, and the server's reply to it.
pub record Exchange : Type 0 where
  pub ask : Ask
  pub callback : ℕ
  pub answer : Bytes

abbrev pub command_of : Exchange → Command
command_of x = command (verb_of x.ask) (argument_of x.ask) [] (notify x.callback) none

abbrev pub commands : List Exchange → List Command
commands [] = []
commands (x ∷ xs) = command_of x ∷ commands xs

abbrev pub asks : List Exchange → List Event
asks [] = []
asks (x ∷ xs) = event_of x.ask x.callback ∷ asks xs

abbrev pub answers : List Exchange → List Event
answers [] = []
answers (x ∷ xs) = reply x.answer ∷ answers xs

-- The messages and the effects that exchanges leave, the latest at the head: each command is sent,
-- and its reply handed to its callback, before the next is sent.
abbrev pub heard : List Exchange → List Bytes → List Bytes
heard [] ms = ms
heard (x ∷ xs) ms = heard xs (x.answer ∷ ms)

abbrev pub line_of : Exchange → Effect
line_of x = sent (command_line (verb_of x.ask) (argument_of x.ask))

abbrev pub exchanged : List Exchange → List Effect → List Effect
exchanged [] es = es
exchanged (x ∷ xs) es = exchanged xs (tell x.callback x.answer ∷ line_of x ∷ es)

abbrev pub AllCodes : List Exchange → Type 0
AllCodes [] = Unit {0}
AllCodes (x ∷ xs) = IsReplyCode (get_or x.answer 0 0) × AllCodes xs

pub step-event_of :
    (x : Exchange) (c : Client)
    → step (event_of x.ask x.callback) c
      ≡ ok (process_next_cmd (record c { cmd_q = c.cmd_q ++ command_of x ∷ [] }))
unfolding step queue_general get_current_dir set_current_dir create_dir remove_dir quit
step-event_of x c = by_ask x.ask x.callback x.answer
  where
    by_ask :
        (a : Ask) (f : ℕ) (t : Bytes)
        → step (event_of a f) c
          ≡ ok (
              process_next_cmd (record c {
                cmd_q = c.cmd_q ++ command (verb_of a) (argument_of a) [] (notify f) none ∷ [];
              }))
    by_ask ask_pwd f t = refl
    by_ask ask_quit f t = refl
    by_ask (ask_cwd dir) f t = refl
    by_ask (ask_mkd dir) f t = refl
    by_ask (ask_rmd dir) f t = refl

pub general_phase : (a : Ask) → phase_for (verb_of a) ≡ Phase.gen
unfolding phase_for
general_phase ask_pwd = refl
general_phase ask_quit = refl
general_phase (ask_cwd dir) = refl
general_phase (ask_mkd dir) = refl
general_phase (ask_rmd dir) = refl

-- Nothing is sent while a command is in progress.
pub next_busy : (d : Client) → d.cmd_in_progress ≡ true → process_next_cmd d ≡ d
unfolding process_next_cmd
next_busy d b = rw b refl

-- Calls while a command is in progress only lengthen the queue.
pub busy_asks :
    (xs : List Exchange) (c : Client)
    → c.cmd_in_progress ≡ true
    → run (asks xs) c ≡ ok (record c { cmd_q = c.cmd_q ++ commands xs })
unfolding run
busy_asks [] c b = ap (λ q. ok (record c { cmd_q = q })) (sym (append-nil c.cmd_q))
busy_asks (x ∷ xs) c b =
    ap (λ r. r >>= run (asks xs))
      (step-event_of x c ∙ ap ok (next_busy (record c { cmd_q = c.cmd_q ++ command_of x ∷ [] }) b))
    ∙ busy_asks xs (record c { cmd_q = c.cmd_q ++ command_of x ∷ [] }) b
    ∙ ap (λ q. ok (record c { cmd_q = q })) (append_assoc c.cmd_q (command_of x ∷ []) (commands xs))

-- The client while the first of the exchanges is under way.
abbrev pub waiting : Exchange → List Exchange → List Bytes → List Effect → Client → Client
waiting x xs ms es c = record c {
  phase = Phase.gen;
  cmd_in_progress = true;
  cmd_q = commands (x ∷ xs);
  messages = ms;
  effects = line_of x ∷ es;
}

abbrev pub rested : List Exchange → Client → Client
rested xs c = record c {
  phase = Phase.ready;
  cmd_in_progress = false;
  cmd_q = [];
  messages = heard xs c.messages;
  effects = exchanged xs c.effects;
}

next_idle :
    (x : Exchange) (c : Client)
    → c.cmd_in_progress ≡ false
    → c.cmd_q ≡ []
    → process_next_cmd (record c { cmd_q = c.cmd_q ++ command_of x ∷ [] })
      ≡ waiting x [] c.messages c.effects c
unfolding process_next_cmd
next_idle x c b q =
    rw (q, b)
      (ap
        (λ p. record c {
          phase = p;
          cmd_in_progress = true;
          cmd_q = command_of x ∷ [];
          effects = line_of x ∷ c.effects;
        })
        (general_phase x.ask))

idle_asks :
    (x : Exchange) (xs : List Exchange) (c : Client)
    → c.cmd_in_progress ≡ false
    → c.cmd_q ≡ []
    → run (asks (x ∷ xs)) c ≡ ok (waiting x xs c.messages c.effects c)
unfolding run
idle_asks x xs c b q =
    ap (λ r. r >>= run (asks xs)) (step-event_of x c ∙ ap ok (next_idle x c b q))
    ∙ busy_asks xs (waiting x [] c.messages c.effects c) refl

-- The last reply.
last_reply :
    (x : Exchange) (ms : List Bytes) (es : List Effect) (c : Client)
    → IsReplyCode (get_or x.answer 0 0)
    → on_reply x.answer (waiting x [] ms es c)
      ≡ ok (record c {
        phase = Phase.ready;
        cmd_in_progress = false;
        cmd_q = [];
        messages = x.answer ∷ ms;
        effects = tell x.callback x.answer ∷ line_of x ∷ es;
      })
unfolding on_reply state_machine scan_rows fsm run_action skip_command process_next_cmd
last_reply x ms es c h = ground arith

pub all_answers :
    (x : Exchange) (xs : List Exchange) (ms : List Bytes) (es : List Effect) (c : Client)
    → AllCodes (x ∷ xs)
    → run (answers (x ∷ xs)) (waiting x xs ms es c)
      ≡ ok (rested (x ∷ xs) (record c { messages = ms; effects = es }))
unfolding run step
all_answers x [] ms es c (h, hs) = ap (λ r. r >>= run []) (last_reply x ms es c h)
all_answers x (y ∷ ys) ms es c (h, hs) =
    ap (λ r. r >>= run (answers (y ∷ ys)))
      (general_reply (waiting x (y ∷ ys) ms es c) (command_of x) (command_of y) (commands ys)
          x.callback x.answer refl refl refl h
        ∙ ap
            (λ p.
              ok
                (record (waiting y ys (x.answer ∷ ms) (tell x.callback x.answer ∷ line_of x ∷ es)
                  c) { phase = p }))
            (general_phase y.ask))
    ∙ all_answers y ys (x.answer ∷ ms) (tell x.callback x.answer ∷ line_of x ∷ es) c hs

-- Calls made one behind the other on an idle client, and then replies to them, of any class: the
-- commands are sent in the order of the calls, each only when the reply to the one before has been
-- handed to that one's callback, and the client is idle again.
pub calls_answered_in_order :
    (x : Exchange) (xs : List Exchange) (c : Client)
    → c.cmd_in_progress ≡ false
    → c.cmd_q ≡ []
    → AllCodes (x ∷ xs)
    → (run (asks (x ∷ xs)) c >>= run (answers (x ∷ xs))) ≡ ok (rested (x ∷ xs) c)
calls_answered_in_order x xs c b q h =
    ap (λ r. r >>= run (answers (x ∷ xs))) (idle_asks x xs c b q)
    ∙ all_answers x xs c.messages c.effects c h
