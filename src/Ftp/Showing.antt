-- ===== src/Ftp/Showing.antt =====
-- Transfers of CProtocolFTP (INCLUDE/CProtocolFTP.hpp) without a local file: `ListDirectory`, and
-- `Download` to a callback.
use cpp_npl.Base.{
  ℕ, ◌≡◌, refl, sym, ap, ◌∙◌, Bool, true, false, some, List, [], ◌∷◌, ◌++◌, Bytes, get_or, arith,
}
use cpp_npl.Ftp.State.{
  Phase, DcProt, clear, protected, Verb, silent, Command, Client, Effect, sent, open_channel,
  reset_channel, give, give_end, ok, ◌>>=◌,
}
use cpp_npl.Ftp.Commands.{command, command_line, pasv_command, phase_for, process_next_cmd}
use cpp_npl.Ftp.Transfer.{
  is_stor, drop_channel, drop_file, on_data_channel_read, process_data_cmd_response,
  on_data_channel_connect, trigger_data_transfer, initialize_file_device,
}
use cpp_npl.Ftp.Machine.{on_reply, state_machine, scan_rows, fsm, run_action}
use cpp_npl.Ftp.Session.{reply, data_connects, data_read, step, run}
use cpp_npl.Ftp.Order.{completed}
use cpp_npl.Ftp.Opening.{run-append}
use cpp_npl.Ftp.Blocks.{reads, secured, securing, ending, ending_lem}
use cpp_npl.Ftp.Passive.{
  Passive, IsPassive, passive_text, passive_host, passive_port, asked_for, pasv_lem,
}
use cpp_npl.Ftp.Download.{download_events}

-- The entry that is queued behind PASV.
abbrev pub watch : Verb → ℕ → Bytes → Command
watch v f remote = command v remote [] silent (some f)

abbrev pub shown : ℕ → List Bytes → List Effect → List Effect
shown f [] es = es
shown f (b ∷ bs) es = shown f bs (give f b ∷ es)

one_shown :
    (v : Verb) (f : ℕ) (remote : Bytes) (rest : List Command) (b : Bytes) (c : Client)
    → c.cmd_q ≡ watch v f remote ∷ rest
    → c.continue_transfer ≡ true
    → c.file_device ≡ false
    → step (data_read true b) c
      ≡ ok (record c { continue_transfer = true; effects = give f b ∷ c.effects })
unfolding step on_data_channel_read
one_shown v f remote rest b c q t n = ground arith

all_shown :
    (v : Verb) (f : ℕ) (remote : Bytes) (rest : List Command) (bs : List Bytes) (c : Client)
    → c.cmd_q ≡ watch v f remote ∷ rest
    → c.continue_transfer ≡ true
    → c.file_device ≡ false
    → run (reads bs) c ≡ ok (record c { effects = shown f bs c.effects })
unfolding run
all_shown v f remote rest [] c q t n = refl
all_shown v f remote rest (b ∷ bs) c q t n =
    ap (λ r. r >>= run (reads bs)) (one_shown v f remote rest b c q t n)
    ∙ all_shown v f remote rest bs
        (record c { continue_transfer = true; effects = give f b ∷ c.effects }) q refl n
    ∙ ap (λ x. ok (record c { continue_transfer = x; effects = shown f bs (give f b ∷ c.effects) }))
        (sym t)

-- The client behind such a transfer, before the next command is issued.
abbrev pub watched :
    Verb
    → ℕ
    → Bytes
    → List Command
    → Passive
    → DcProt
    → Bytes
    → List Bytes
    → Bytes
    → Client
    → Client
watched v f remote rest a p first bs last c = record c {
  phase = Phase.final;
  cmd_in_progress = false;
  cmd_q = rest;
  data_channel = false;
  continue_transfer = true;
  messages = last ∷ first ∷ passive_text a ∷ c.messages;
  effects =
      reset_channel
      ∷ give_end f
      ∷ shown f bs (
          securing p (
            open_channel (passive_host a) (passive_port a)
            ∷ sent (command_line v remote)
            ∷ c.effects));
}

announce_watch :
    (p : DcProt) (v : Verb) (f : ℕ) (remote : Bytes) (rest : List Command) (a : Passive)
    (first : Bytes) (c : Client)
    → get_or first 0 0 ≡ b'1'
    → is_stor v ≡ false
    → c.dc_prot ≡ p
    → run (data_connects ∷ reply first ∷ secured p) (asked_for (watch v f remote) rest a c)
      ≡ ok (record (asked_for (watch v f remote) rest a c) {
        phase = Phase.prelim;
        messages = first ∷ passive_text a ∷ c.messages;
        continue_transfer = true;
        effects = securing p (asked_for (watch v f remote) rest a c).effects;
      })
unfolding run step on_reply state_machine scan_rows fsm run_action on_data_channel_connect
    process_data_cmd_response initialize_file_device trigger_data_transfer
announce_watch clear v f remote rest a first c one down e = ground arith
announce_watch protected v f remote rest a first c one down e = ground arith

module _ (v : Verb) (f : ℕ) (remote : Bytes) (rest : List Command) (a : Passive) (p : DcProt)
    (first last : Bytes) (bs : List Bytes) (o : Bool) (c : Client) (i : IsPassive a)
    (one : get_or first 0 0 ≡ b'1') (two : get_or last 0 0 ≡ b'2')
    (transfer : phase_for v ≡ Phase.transfer) (down : is_stor v ≡ false) (n : c.file_device ≡ false)
    (prot : c.dc_prot ≡ p) where
  abbrev cmd : Command
  cmd = watch v f remote

  to_show : Client
  to_show = record (asked_for (watch v f remote) rest a c) {
    phase = Phase.prelim;
    messages = first ∷ passive_text a ∷ c.messages;
    continue_transfer = true;
    effects = securing p (asked_for (watch v f remote) rest a c).effects;
  }

  all_seen : Client
  all_seen = record to_show { effects = shown f bs to_show.effects }

  announced_lem :
      run (data_connects ∷ reply first ∷ secured p) (asked_for cmd rest a c) ≡ ok to_show
  unfolding to_show
  announced_lem = announce_watch p v f remote rest a first c one down prot

  blocks_seen : run (reads bs) to_show ≡ ok all_seen
  unfolding all_seen to_show
  blocks_seen = all_shown v f remote rest bs to_show refl refl n

  all_seen-completed :
      completed last cmd rest all_seen ≡ watched v f remote rest a p first bs last c
  unfolding all_seen to_show drop_channel drop_file
  all_seen-completed = ground arith

  -- A listing, or a download to a callback only, whose PASV is sent goes through, whether the data
  -- channel is protected or not and whichever end comes first: the blocks are given to the callback
  -- one by one, and then their end; no file is touched.
  pub watching_runs :
      c.phase ≡ Phase.pasv
      → c.cmd_q ≡ pasv_command ∷ watch v f remote ∷ rest
      → run (download_events p (passive_text a) first bs o last) c
        ≡ ok (process_next_cmd (watched v f remote rest a p first bs last c))
  unfolding run
  watching_runs ph q =
      ap (λ r. r >>= run ((data_connects ∷ reply first ∷ secured p) ++ (reads bs ++ ending o last)))
        (pasv_lem cmd rest a c i transfer ph q)
      ∙ run-append (data_connects ∷ reply first ∷ secured p) (reads bs ++ ending o last)
          (asked_for cmd rest a c)
      ∙ ap (λ r. r >>= run (reads bs ++ ending o last)) announced_lem
      ∙ run-append (reads bs) (ending o last) to_show
      ∙ ap (λ r. r >>= run (ending o last)) blocks_seen
      ∙ ending_lem o last all_seen cmd rest (unfold all_seen in unfold to_show in refl)
          (unfold all_seen in unfold to_show in refl) (unfold all_seen in unfold to_show in refl)
          two
      ∙ ap (λ d. ok (process_next_cmd d)) all_seen-completed
