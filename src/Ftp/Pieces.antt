-- ===== src/Ftp/Pieces.antt =====
-- The commands of CProtocolFTP (INCLUDE/CProtocolFTP.hpp) that are done one behind the other: a
-- general command with its reply, or PASV with a transfer.
use cpp_npl.Base.{
  ℕ, ◌≡◌, refl, ap, ◌∙◌, Bool, true, false, Option, none, List, [], ◌∷◌, ◌++◌, Bytes, is_empty,
  get_or, if◌then◌else◌, arith,
}
use cpp_npl.Ftp.State.{
  Phase, DcProt, Verb, Response, silent, notify, set_level, Command, Client, sent, ok, ◌>>=◌,
}
use cpp_npl.Ftp.Commands.{
  command, command_line, pasv_command, phase_for, issue, process_next_cmd, skip_command,
}
use cpp_npl.Ftp.Transfer.{is_stor}
use cpp_npl.Ftp.Machine.{
  respond, on_reply, state_machine, scan_rows, fsm, run_action, process_gen_cmd_event,
}
use cpp_npl.Ftp.Session.{Event, reply, step, run}
use cpp_npl.Ftp.Order.{IsReplyCode}
use cpp_npl.Ftp.Passive.{Passive, IsPassive, passive_text, passive_host, passive_port}
use cpp_npl.Ftp.Download.{fetch, download_events, downloaded, download_runs}
use cpp_npl.Ftp.Showing.{watch, watched, watching_runs}
use cpp_npl.Ftp.Upload.{deposit, uploaded}
use cpp_npl.Ftp.Feeding.{upload_events, fed_all, feeding_runs}

-- What a transfer meets: the answer to PASV, the announcement, the blocks, and the two ends, of which
-- the close of the data channel may come first.
pub record Course : Type 0 where
  pub passive : Passive
  pub first : Bytes
  pub blocks : List Bytes
  pub closes_first : Bool
  pub last : Bytes

pub record IsCourse (k : Course) : Type 0 where
  pub passive : IsPassive k.passive
  pub announces : get_or k.first 0 0 ≡ b'1'
  pub completes : get_or k.last 0 0 ≡ b'2'

pub data Piece : Type 0 where
  plain : Verb → Bytes → Response → Bytes → Piece
  shows : Verb → ℕ → Bytes → Course → Piece
  fetches stores : Option ℕ → Bytes → Bytes → Course → Piece

abbrev pub queue_of : Piece → List Command
queue_of (plain v arg r text) = command v arg [] r none ∷ []
queue_of (shows v f remote k) = pasv_command ∷ watch v f remote ∷ []
queue_of (fetches sink remote local k) = pasv_command ∷ fetch sink remote local ∷ []
queue_of (stores sink remote local k) = pasv_command ∷ deposit sink remote local ∷ []

-- The events, where the data channel is on a level of protection.
abbrev pub events_of : DcProt → Piece → List Event
events_of p (plain v arg r text) = reply text ∷ []
events_of p (shows v f remote k) =
    download_events p (passive_text k.passive) k.first k.blocks k.closes_first k.last
events_of p (fetches sink remote local k) =
    download_events p (passive_text k.passive) k.first k.blocks k.closes_first k.last
events_of p (stores sink remote local k) =
    upload_events p (passive_text k.passive) k.first k.blocks k.closes_first k.last

abbrev with_pasv : Client → Client
with_pasv c = record c {
  phase = Phase.pasv;
  cmd_in_progress = true;
  effects = sent (command_line Verb.pasv []) ∷ c.effects;
}

-- The client behind it, before the next command is issued.
abbrev pub left_by : Piece → List Command → Client → Client
left_by (plain v arg r text) rest c = respond r text (record c {
  phase = Phase.ready;
  cmd_in_progress = false;
  cmd_q = rest;
  messages = text ∷ c.messages;
  effects = sent (command_line v arg) ∷ c.effects;
})
left_by (shows v f remote k) rest c =
    watched v f remote rest k.passive c.dc_prot k.first k.blocks k.last (with_pasv c)
left_by (fetches sink remote local k) rest c =
    downloaded sink remote local rest (passive_host k.passive) (passive_port k.passive) c.dc_prot
      (passive_text k.passive) k.first k.blocks k.last (with_pasv c)
left_by (stores sink remote local k) rest c =
    uploaded sink rest k.last
      (fed_all sink remote local rest k.passive c.dc_prot k.first k.blocks (with_pasv c))

abbrev pub Fits : Piece → Type 0
Fits (plain v arg r text) = (phase_for v ≡ Phase.gen) × IsReplyCode (get_or text 0 0)
Fits (shows v f remote k) = (phase_for v ≡ Phase.transfer) × (is_stor v ≡ false) × IsCourse k
Fits (fetches sink remote local k) = (is_empty local ≡ false) × IsCourse k
Fits (stores sink remote local k) = (is_empty local ≡ false) × IsCourse k

issue_first :
    (cmd : Command) (rest : List Command) (c : Client)
    → c.cmd_in_progress ≡ false
    → c.cmd_q ≡ cmd ∷ rest
    → process_next_cmd c ≡ record c {
      phase = phase_for cmd.verb;
      cmd_in_progress = true;
      effects = sent (command_line cmd.verb cmd.remote) ∷ c.effects;
    }
unfolding process_next_cmd
issue_first cmd rest c b q = ap (λ x. if x then c else issue c.cmd_q c) b ∙ ap (λ x. issue x c) q

plain_reply :
    (v : Verb) (arg : Bytes) (r : Response) (text : Bytes) (rest : List Command) (c : Client)
    → IsReplyCode (get_or text 0 0)
    → c.cmd_q ≡ command v arg [] r none ∷ rest
    → step (reply text) (record c {
      phase = Phase.gen;
      cmd_in_progress = true;
      effects = sent (command_line v arg) ∷ c.effects;
    })
      ≡ ok (process_next_cmd (left_by (plain v arg r text) rest c))
unfolding step on_reply state_machine scan_rows fsm run_action process_gen_cmd_event skip_command
plain_reply v arg silent text rest c d q = ground arith
plain_reply v arg (notify f) text rest c d q = ground arith
plain_reply v arg (set_level p) text rest c d q = ground arith

by_transfer :
    (x : Command) (rest : List Command) (c : Client)
    → c.cmd_in_progress ≡ false
    → c.cmd_q ≡ pasv_command ∷ x ∷ rest
    → process_next_cmd c ≡ with_pasv c
by_transfer x rest c b q = issue_first pasv_command (x ∷ rest) c b q ∙ unfold phase_for in refl

-- A piece whose command is next is gone through.
pub piece_runs :
    (x : Piece) (rest : List Command) (c : Client)
    → Fits x
    → c.cmd_in_progress ≡ false
    → c.cmd_q ≡ queue_of x ++ rest
    → c.file_device ≡ false
    → c.read_works ≡ true
    → run (events_of c.dc_prot x) (process_next_cmd c) ≡ ok (process_next_cmd (left_by x rest c))
unfolding run
piece_runs (plain v arg r text) rest c (g, d) b q f z =
    ap (λ d. run (reply text ∷ []) d) (issue_first (command v arg [] r none) rest c b q)
    ∙ ap
        (λ p. run (reply text ∷ []) (record c {
          phase = p;
          cmd_in_progress = true;
          effects = sent (command_line v arg) ∷ c.effects;
        }))
        g
    ∙ ap (λ y. y >>= run []) (plain_reply v arg r text rest c d q)
piece_runs (shows v g remote k) rest c (t, s, i) b q f z =
    ap (run (events_of c.dc_prot (shows v g remote k))) (by_transfer (watch v g remote) rest c b q)
    ∙ watching_runs v g remote rest k.passive c.dc_prot k.first k.last k.blocks k.closes_first
        (with_pasv c) i.passive i.announces i.completes t s f refl refl q
piece_runs (fetches sink remote local k) rest c (l, i) b q f z =
    ap (run (events_of c.dc_prot (fetches sink remote local k)))
      (by_transfer (fetch sink remote local) rest c b q)
    ∙ download_runs sink remote local rest k.passive c.dc_prot k.first k.last k.blocks
        k.closes_first (with_pasv c) i.passive i.announces i.completes l refl q f refl
piece_runs (stores sink remote local k) rest c (l, i) b q f z =
    ap (run (events_of c.dc_prot (stores sink remote local k)))
      (by_transfer (deposit sink remote local) rest c b q)
    ∙ feeding_runs sink remote local rest k.passive c.dc_prot k.first k.last k.blocks k.closes_first
        (with_pasv c) i.passive i.announces i.completes l refl q f refl z

-- A client between two commands, with a queue.
abbrev pub IsBetween : List Command → Client → Type 0
IsBetween q c =
    (c.cmd_in_progress ≡ false)
    × (c.cmd_q ≡ q)
    × (c.data_channel ≡ false)
    × (c.file_device ≡ false)
    × (c.read_works ≡ true)

pub left_by-IsBetween :
    (x : Piece) (rest : List Command) (c : Client)
    → c.data_channel ≡ false
    → c.file_device ≡ false
    → c.read_works ≡ true
    → IsBetween rest (left_by x rest c)
left_by-IsBetween (plain v arg silent text) rest c d f z = (refl, refl, d, f, z)
left_by-IsBetween (plain v arg (notify g) text) rest c d f z = (refl, refl, d, f, z)
left_by-IsBetween (plain v arg (set_level p) text) rest c d f z = ground arith
left_by-IsBetween (shows v g remote k) rest c d f z = (refl, refl, refl, f, z)
left_by-IsBetween (fetches sink remote local k) rest c d f z = (refl, refl, refl, refl, z)
left_by-IsBetween (stores sink remote local k) rest c d f z = (refl, refl, refl, refl, z)
