-- ===== src/Ftp/Blocks.antt =====
-- The blocks of a transfer of CProtocolFTP (INCLUDE/CProtocolFTP.hpp), the handshake before them and
-- the two ends behind them.
use cpp_npl.Base.{
  ℕ, ◌≡◌, refl, sym, ap, ◌∙◌, Bool, true, false, Option, none, some, List, [], ◌∷◌, Bytes, get_or,
  arith,
}
use cpp_npl.Ftp.State.{
  Phase, DcProt, clear, protected, Command, Client, Effect, data_handshake, reset_channel,
  reset_file, write_file, give, give_end, Result, ok, fault, ◌>>=◌,
}
use cpp_npl.Ftp.Commands.{process_next_cmd}
use cpp_npl.Ftp.Transfer.{add_offset, byte_count, drop_channel, drop_file, on_data_channel_read}
use cpp_npl.Ftp.Session.{Event, reply, data_handshaken, data_read, data_disconnects, step, run}
use cpp_npl.Ftp.Order.{completed, completion_order}
use cpp_npl.Ftp.Opening.{bind_agree}

-- The blocks of a download, each of which the user's callback, if there is one, accepts.
abbrev pub reads : List Bytes → List Event
reads [] = []
reads (b ∷ bs) = data_read true b ∷ reads bs

abbrev pub given : Option ℕ → Bytes → List Effect → List Effect
given none b es = es
given (some f) b es = give f b ∷ es

abbrev pub ended : Option ℕ → List Effect → List Effect
ended none es = es
ended (some f) es = give_end f ∷ es

-- What is asked for the blocks, the latest at the head: each is given to the callback and written
-- behind those before it.
abbrev pub received : Option ℕ → ℕ → List Bytes → List Effect → List Effect
received sink o [] es = es
received sink o (b ∷ bs) es =
    received sink (add_offset o (byte_count b)) bs (write_file b o ∷ given sink b es)

abbrev pub offset_behind : ℕ → List Bytes → ℕ
offset_behind o [] = o
offset_behind o (b ∷ bs) = offset_behind (add_offset o (byte_count b)) bs

one_read :
    (c : Client) (cmd : Command) (rest : List Command) (sink : Option ℕ) (b : Bytes)
    → c.cmd_q ≡ cmd ∷ rest
    → cmd.sink ≡ sink
    → c.continue_transfer ≡ true
    → c.file_device ≡ true
    → step (data_read true b) c
      ≡ ok (record c {
        file_offset = add_offset c.file_offset (byte_count b);
        continue_transfer = true;
        effects = write_file b c.file_offset ∷ given sink b c.effects;
      })
unfolding step on_data_channel_read
one_read c cmd rest none b q s t f = ground arith
one_read c cmd rest (some f') b q s t f = ground arith

pub all_reads :
    (bs : List Bytes) (c : Client) (cmd : Command) (rest : List Command) (sink : Option ℕ)
    → c.cmd_q ≡ cmd ∷ rest
    → cmd.sink ≡ sink
    → c.continue_transfer ≡ true
    → c.file_device ≡ true
    → run (reads bs) c
      ≡ ok (record c {
        file_offset = offset_behind c.file_offset bs;
        effects = received sink c.file_offset bs c.effects;
      })
unfolding run
all_reads [] c cmd rest sink q s t f = refl
all_reads (b ∷ bs) c cmd rest sink q s t f =
    ap (λ r. r >>= run (reads bs)) (one_read c cmd rest sink b q s t f)
    ∙ all_reads bs _ cmd rest sink q s refl f
    ∙ ap
        (λ x. ok (record c {
          file_offset = offset_behind (add_offset c.file_offset (byte_count b)) bs;
          continue_transfer = x;
          effects =
              received sink (add_offset c.file_offset (byte_count b)) bs
                (write_file b c.file_offset ∷ given sink b c.effects);
        }))
        (sym t)

-- Where the data channel is protected, its handshake comes before the bytes.
abbrev pub secured : DcProt → List Event
secured clear = []
secured protected = data_handshaken ∷ []

abbrev pub securing : DcProt → List Effect → List Effect
securing clear es = es
securing protected es = data_handshake ∷ es

-- The close of the data channel and the completion reply, in either order.
abbrev pub ending : Bool → Bytes → List Event
ending true last = data_disconnects ∷ reply last ∷ []
ending false last = reply last ∷ data_disconnects ∷ []

bind_ok : (r : Result) → (r >>= ok) ≡ r
bind_ok (ok c) = refl
bind_ok (fault f) = refl

run_two : (d e : Event) (c : Client) → run (d ∷ e ∷ []) c ≡ (step d c >>= step e)
unfolding run
run_two d e c =
    bind_agree (step d c) (run (e ∷ [])) ok (step e) (λ x. bind_ok (step e x))
    ∙ ap (λ r. r >>= step e) (bind_ok (step d c))

pub ending_lem :
    (o : Bool) (last : Bytes) (c : Client) (cmd : Command) (rest : List Command)
    → c.phase ≡ Phase.prelim
    → c.cmd_q ≡ cmd ∷ rest
    → c.data_channel ≡ true
    → get_or last 0 0 ≡ b'2'
    → run (ending o last) c ≡ ok (process_next_cmd (completed last cmd rest c))
ending_lem true last c cmd rest p q ch two =
    run_two data_disconnects (reply last) c ∙ (completion_order c cmd rest last p q ch two).1
ending_lem false last c cmd rest p q ch two =
    run_two (reply last) data_disconnects c ∙ (completion_order c cmd rest last p q ch two).0

pub finished_lem :
    (sink : Option ℕ) (cmd : Command) (last : Bytes) (rest : List Command) (d : Client)
    → cmd.sink ≡ sink
    → d.data_channel ≡ true
    → d.file_device ≡ true
    → completed last cmd rest d ≡ record d {
      phase = Phase.final;
      cmd_in_progress = false;
      cmd_q = rest;
      data_channel = false;
      file_device = false;
      messages = last ∷ d.messages;
      effects = reset_file ∷ reset_channel ∷ ended sink d.effects;
    }
unfolding drop_channel drop_file
finished_lem none cmd last rest d s ch f = ground arith
finished_lem (some f') cmd last rest d s ch f = ground arith
