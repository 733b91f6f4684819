-- ===== src/Ftp/Download.antt =====
-- A download by CProtocolFTP (INCLUDE/CProtocolFTP.hpp), from the command PASV to the end of the
-- transfer.
use cpp_npl.Base.{
  ℕ, ◌≡◌, refl, ap, ◌∙◌, Bool, true, false, Option, List, ◌∷◌, ◌++◌, Bytes, is_empty, get_or, arith,
}
use cpp_npl.Ftp.State.{
  Phase, DcProt, clear, protected, Verb, silent, Command, Client, sent, open_channel, reset_channel,
  reset_file, open_file, ok, ◌>>=◌,
}
use cpp_npl.Ftp.Commands.{command, command_line, pasv_command, phase_for, process_next_cmd}
use cpp_npl.Ftp.Transfer.{
  process_data_cmd_response, on_data_channel_connect, trigger_data_transfer, initialize_file_device,
  open_local,
}
use cpp_npl.Ftp.Machine.{on_reply, state_machine, scan_rows, fsm, run_action}
use cpp_npl.Ftp.Session.{Event, reply, data_connects, step, run}
use cpp_npl.Ftp.Opening.{run-append}
use cpp_npl.Ftp.Blocks.{
  reads, ended, received, offset_behind, all_reads, secured, securing, ending, ending_lem,
  finished_lem,
}
use cpp_npl.Ftp.Passive.{Passive, IsPassive, passive_text, passive_host, passive_port, pasv_lem}

-- The entry that `Download` queues behind PASV.
abbrev pub fetch : Option ℕ → Bytes → Bytes → Command
fetch sink remote local = command Verb.retr remote local silent sink

module _ (sink : Option ℕ) (remote local : Bytes) (rest : List Command) (host : Bytes)
    (port : ℕ) where
  -- The client when RETR has been sent, and when the server has announced the bytes.
  abbrev pub asked : Bytes → Client → Client
  asked text c = record c {
    phase = Phase.transfer;
    cmd_in_progress = true;
    cmd_q = fetch sink remote local ∷ rest;
    data_channel = true;
    messages = text ∷ c.messages;
    effects = open_channel host port ∷ sent (command_line Verb.retr remote) ∷ c.effects;
  }

  abbrev pub announced : DcProt → Bytes → Client → Client
  announced p first c = record c {
    phase = Phase.prelim;
    messages = first ∷ c.messages;
    file_device = true;
    file_offset = 0;
    continue_transfer = true;
    effects = securing p (open_file local true ∷ c.effects);
  }

  announce_lem :
      (p : DcProt) (first text : Bytes) (c : Client)
      → get_or first 0 0 ≡ b'1'
      → is_empty local ≡ false
      → c.file_device ≡ false
      → c.dc_prot ≡ p
      → run (data_connects ∷ reply first ∷ secured p) (asked text c)
        ≡ ok (announced p first (asked text c))
  unfolding run step on_reply state_machine scan_rows fsm run_action on_data_channel_connect
      process_data_cmd_response initialize_file_device open_local trigger_data_transfer
  announce_lem clear first text c a l f e = ground arith
  announce_lem protected first text c a l f e = ground arith

-- The events of a download: the answer to PASV, the connection of the data channel, the preliminary
-- reply, the blocks, and the two ends in either order.
abbrev pub download_events : DcProt → Bytes → Bytes → List Bytes → Bool → Bytes → List Event
download_events p text first bs o last =
    reply text ∷ (data_connects ∷ reply first ∷ secured p) ++ (reads bs ++ ending o last)

-- The client behind a download, before the next command is issued.
abbrev pub downloaded :
    Option ℕ
    → Bytes
    → Bytes
    → List Command
    → Bytes
    → ℕ
    → DcProt
    → Bytes
    → Bytes
    → List Bytes
    → Bytes
    → Client
    → Client
downloaded sink remote local rest host port p text first bs last c = record c {
  phase = Phase.final;
  cmd_in_progress = false;
  cmd_q = rest;
  data_channel = false;
  file_device = false;
  file_offset = offset_behind 0 bs;
  continue_transfer = true;
  messages = last ∷ first ∷ text ∷ c.messages;
  effects =
      reset_file
      ∷ reset_channel
      ∷ ended sink (
          received sink 0 bs (
            securing p (
              open_file local true
              ∷ open_channel host port
              ∷ sent (command_line Verb.retr remote)
              ∷ c.effects)));
}

module _ (sink : Option ℕ) (remote local : Bytes) (rest : List Command) (host : Bytes) (port : ℕ)
    (p : DcProt) (text first last : Bytes) (bs : List Bytes) (o : Bool) (c : Client)
    (one : get_or first 0 0 ≡ b'1') (two : get_or last 0 0 ≡ b'2') (l : is_empty local ≡ false)
    (f : c.file_device ≡ false) (prot : c.dc_prot ≡ p) where
  blocks : Client
  blocks =
      announced sink remote local rest host port p first
        (asked sink remote local rest host port text c)

  blocks_read : Client
  blocks_read = record blocks {
    file_offset = offset_behind 0 bs;
    effects = received sink 0 bs blocks.effects;
  }

  behind_pasv :
      run
        ((data_connects ∷ reply first ∷ secured p) ++ (reads bs ++ ending o last))
        (asked sink remote local rest host port text c)
      ≡ ok (process_next_cmd (downloaded sink remote local rest host port p text first bs last c))
  unfolding blocks blocks_read
  behind_pasv =
      let start : Client = asked sink remote local rest host port text c in
      run-append (data_connects ∷ reply first ∷ secured p) (reads bs ++ ending o last) start
      ∙ ap (λ r. r >>= run (reads bs ++ ending o last))
          (announce_lem sink remote local rest host port p first text c one l f prot)
      ∙ run-append (reads bs) (ending o last) blocks
      ∙ ap (λ r. r >>= run (ending o last))
          (all_reads bs blocks (fetch sink remote local) rest sink refl refl refl refl)
      ∙ ending_lem o last blocks_read (fetch sink remote local) rest refl refl refl two
      ∙ ap (λ d. ok (process_next_cmd d))
          (finished_lem sink (fetch sink remote local) last rest blocks_read refl refl refl)

-- A download whose PASV is sent goes through, whether the data channel is protected or not and
-- whichever end comes first: RETR is sent behind the answer to PASV, the data channel is opened to
-- its address, each block is given to the callback and written to the local file behind those
-- before it, both are let go at the end, and the queue goes on with what stands behind.
pub download_runs :
    (sink : Option ℕ) (remote local : Bytes) (rest : List Command) (a : Passive) (p : DcProt)
    (first last : Bytes) (bs : List Bytes) (o : Bool) (c : Client)
    → IsPassive a
    → get_or first 0 0 ≡ b'1'
    → get_or last 0 0 ≡ b'2'
    → is_empty local ≡ false
    → c.phase ≡ Phase.pasv
    → c.cmd_q ≡ pasv_command ∷ fetch sink remote local ∷ rest
    → c.file_device ≡ false
    → c.dc_prot ≡ p
    → run (download_events p (passive_text a) first bs o last) c
      ≡ ok (
          process_next_cmd (
            downloaded sink remote local rest
              (passive_host a)
              (passive_port a)
              p
              (passive_text a)
              first
              bs
              last
              c))
unfolding run
download_runs sink remote local rest a p first last bs o c i one two l ph q f prot =
    ap (λ r. r >>= run ((data_connects ∷ reply first ∷ secured p) ++ (reads bs ++ ending o last)))
      (pasv_lem (fetch sink remote local) rest a c i (unfold phase_for in refl) ph q)
    ∙ behind_pasv sink remote local rest (passive_host a) (passive_port a) p (passive_text a) first
        last bs o c one two l f prot
