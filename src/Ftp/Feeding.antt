-- ===== src/Ftp/Feeding.antt =====
-- An upload by CProtocolFTP (INCLUDE/CProtocolFTP.hpp) as events: the blocks that the local file
-- reports, and its end.
use cpp_npl.Base.{
  ℕ, ◌≡◌, refl, sym, ap, ◌∙◌, Bool, true, false, Option, List, [], ◌∷◌, ◌++◌, Bytes, is_empty,
  get_or,
}
use cpp_npl.Ftp.State.{
  Phase, DcProt, Command, Client, Effect, stop_data, read_file, write_data, ok, ◌>>=◌,
}
use cpp_npl.Ftp.Commands.{pasv_command, phase_for, process_next_cmd}
use cpp_npl.Ftp.Transfer.{add_offset, byte_count, on_file_disconnect}
use cpp_npl.Ftp.Session.{Event, reply, data_connects, file_read, file_disconnects, step, run}
use cpp_npl.Ftp.Opening.{run-append}
use cpp_npl.Ftp.Blocks.{given, offset_behind, secured, ending, ending_lem, finished_lem}
use cpp_npl.Ftp.Passive.{Passive, IsPassive, passive_text, asked_for, pasv_lem}
use cpp_npl.Ftp.Upload.{deposit, sending, uploaded, announced_deposit}
use cpp_npl.Ftp.Pump.{one_block}

-- The blocks that the file reports, each of which the user's callback, if there is one, accepts.
abbrev pub file_reads : List Bytes → List Event
file_reads [] = []
file_reads (b ∷ bs) = file_read true b ∷ file_reads bs

-- What is asked for the blocks, the latest at the head: each is given to the callback and written to
-- the data channel, and the next is read.
abbrev pub fed : Option ℕ → ℕ → List Bytes → List Effect → List Effect
fed sink o [] es = es
fed sink o (b ∷ bs) es =
    fed sink (add_offset o (byte_count b)) bs
      (read_file (add_offset o (byte_count b)) ∷ write_data b ∷ given sink b es)

all_fed :
    (bs : List Bytes) (c : Client) (cmd : Command) (rest : List Command) (sink : Option ℕ)
    → c.cmd_q ≡ cmd ∷ rest
    → cmd.sink ≡ sink
    → c.continue_transfer ≡ true
    → c.data_channel ≡ true
    → c.file_device ≡ true
    → c.read_works ≡ true
    → run (file_reads bs) c
      ≡ ok (record c {
        file_offset = offset_behind c.file_offset bs;
        effects = fed sink c.file_offset bs c.effects;
      })
unfolding run step
all_fed [] c cmd rest sink q s t ch f z = refl
all_fed (b ∷ bs) c cmd rest sink q s t ch f z =
    let o = add_offset c.file_offset (byte_count b) in
    let es : List Effect = read_file o ∷ write_data b ∷ given sink b c.effects in
    ap (λ r. r >>= run (file_reads bs)) (one_block c cmd rest sink b q s t ch f z)
    ∙ all_fed bs (record c { file_offset = o; continue_transfer = true; effects = es }) cmd rest
        sink q s refl ch f z
    ∙ ap
        (λ x. ok (record c {
          file_offset = offset_behind o bs;
          continue_transfer = x;
          effects = fed sink o bs es;
        }))
        (sym t)

abbrev pub upload_events : DcProt → Bytes → Bytes → List Bytes → Bool → Bytes → List Event
upload_events p text first bs o last =
    reply text ∷ (data_connects ∷ reply first ∷ secured p)
    ++ (file_reads bs ++ file_disconnects ∷ ending o last)

-- The client when the file has been read to its end.
abbrev pub fed_all :
    Option ℕ
    → Bytes
    → Bytes
    → List Command
    → Passive
    → DcProt
    → Bytes
    → List Bytes
    → Client
    → Client
fed_all sink remote local rest a p first bs c =
    let d = sending p local first (asked_for (deposit sink remote local) rest a c) in
    record d { file_offset = offset_behind 0 bs; effects = stop_data ∷ fed sink 0 bs d.effects }

module _ (sink : Option ℕ) (remote local : Bytes) (rest : List Command) (a : Passive) (p : DcProt)
    (first last : Bytes) (bs : List Bytes) (o : Bool) (c : Client) (i : IsPassive a)
    (one : get_or first 0 0 ≡ b'1') (two : get_or last 0 0 ≡ b'2') (l : is_empty local ≡ false)
    (ph : c.phase ≡ Phase.pasv) (q : c.cmd_q ≡ pasv_command ∷ deposit sink remote local ∷ rest)
    (f : c.file_device ≡ false) (prot : c.dc_prot ≡ p) (works : c.read_works ≡ true) where
  abbrev begun : Client
  begun = sending p local first (asked_for (deposit sink remote local) rest a c)

  fed_lem :
      run (file_reads bs ++ file_disconnects ∷ ending o last) begun
      ≡ run (ending o last) (fed_all sink remote local rest a p first bs c)
  unfolding run step on_file_disconnect
  fed_lem =
      run-append (file_reads bs) (file_disconnects ∷ ending o last) begun
      ∙ ap (λ r. r >>= run (file_disconnects ∷ ending o last))
          (all_fed bs begun (deposit sink remote local) rest sink refl refl refl refl refl works)

  -- An upload whose PASV is sent goes through, whether the data channel is protected or not and
  -- whichever end comes first: each block that the file reports is written to the data channel, and
  -- the next is read; at the end of the file the channel is stopped.
  pub feeding_runs :
      run (upload_events p (passive_text a) first bs o last) c
      ≡ ok (
          process_next_cmd
            (uploaded sink rest last (fed_all sink remote local rest a p first bs c)))
  unfolding run
  feeding_runs =
      let cmd = deposit sink remote local in
      let blocks = file_reads bs ++ file_disconnects ∷ ending o last in
      ap (λ r. r >>= run ((data_connects ∷ reply first ∷ secured p) ++ blocks))
        (pasv_lem cmd rest a c i (unfold phase_for in refl) ph q)
      ∙ run-append (data_connects ∷ reply first ∷ secured p) blocks (asked_for cmd rest a c)
      ∙ ap (λ r. r >>= run blocks)
          (announced_deposit sink remote local rest a p first c one l f prot works)
      ∙ fed_lem
      ∙ ending_lem o last (fed_all sink remote local rest a p first bs c) cmd rest refl refl refl
          two
      ∙ ap (λ d. ok (process_next_cmd d))
          (finished_lem sink cmd last rest (fed_all sink remote local rest a p first bs c) refl refl
            refl)
