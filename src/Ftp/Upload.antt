-- ===== src/Ftp/Upload.antt =====
-- An upload by CProtocolFTP (INCLUDE/CProtocolFTP.hpp): the local file, a CDevice
-- (INCLUDE/CDevice.hpp), is read block by block, and each block is written to the data channel.
use cpp_npl.Base.{
  ℕ, ◌<◌, ◌≡◌, refl, ap, ◌∙◌, Bool, true, false, Option, some, List, ◌∷◌, ◌++◌, Bytes, length, drop,
  is_empty, get_or, arith,
}
use cpp_npl.Device.{Kernel, Device, DeviceType, opened, new_file}
use cpp_npl.Device.File.{IsFile, IsRead}
use cpp_npl.Ftp.State.{
  Phase, Verb, silent, DcProt, clear, protected, reset_channel, reset_file, open_file, Command,
  Client, Effect, read_file, ok, ◌>>=◌,
}
use cpp_npl.Ftp.Transfer.{
  on_data_channel_connect, process_data_cmd_response, initialize_file_device, open_local,
  trigger_data_transfer,
}
use cpp_npl.Ftp.Machine.{on_reply, state_machine, scan_rows, fsm, run_action}
use cpp_npl.Ftp.Commands.{command, pasv_command, phase_for, process_next_cmd}
use cpp_npl.Ftp.Session.{reply, data_connects, step, run}
use cpp_npl.Ftp.Blocks.{ended, secured, securing, ending, ending_lem, finished_lem}
use cpp_npl.Ftp.Passive.{Passive, IsPassive, passive_text, asked_for, pasv_lem}
use cpp_npl.Ftp.Pump.{finished, pump, sent_data, pump_lem}

-- The entry that `Upload` queues behind PASV.
abbrev pub deposit : Option ℕ → Bytes → Bytes → Command
deposit sink remote local = command Verb.stor remote local silent sink

-- The client when the first read has been asked for.
abbrev pub sending : DcProt → Bytes → Bytes → Client → Client
sending p local first c = record c {
  phase = Phase.prelim;
  messages = first ∷ c.messages;
  file_device = true;
  file_offset = 0;
  continue_transfer = true;
  effects = read_file 0 ∷ securing p (open_file local false ∷ c.effects);
}

-- And behind the upload, before the next command is issued.
abbrev pub uploaded : Option ℕ → List Command → Bytes → Client → Client
uploaded sink rest last e = record e {
  phase = Phase.final;
  cmd_in_progress = false;
  cmd_q = rest;
  data_channel = false;
  file_device = false;
  messages = last ∷ e.messages;
  effects = reset_file ∷ reset_channel ∷ ended sink e.effects;
}

sent_data-securing : (p : DcProt) (es : List Effect) → sent_data (securing p es) ≡ sent_data es
sent_data-securing clear es = refl
sent_data-securing protected es = refl

pub announced_deposit :
    (sink : Option ℕ) (remote local : Bytes) (rest : List Command) (a : Passive) (p : DcProt)
    (first : Bytes) (c : Client)
    → get_or first 0 0 ≡ b'1'
    → is_empty local ≡ false
    → c.file_device ≡ false
    → c.dc_prot ≡ p
    → c.read_works ≡ true
    → run (data_connects ∷ reply first ∷ secured p) (asked_for (deposit sink remote local) rest a c)
      ≡ ok (sending p local first (asked_for (deposit sink remote local) rest a c))
unfolding run step on_reply state_machine scan_rows fsm run_action on_data_channel_connect
    process_data_cmd_response initialize_file_device open_local trigger_data_transfer
announced_deposit sink remote local rest a clear first c one l f e z = ground arith
announced_deposit sink remote local rest a protected first c one l f e z = ground arith

module _ (sink : Option ℕ) (remote local : Bytes) (rest : List Command) (a : Passive) (p : DcProt)
    (first last : Bytes) (o : Bool) (c : Client) (i : IsPassive a) (one : get_or first 0 0 ≡ b'1')
    (two : get_or last 0 0 ≡ b'2') (l : is_empty local ≡ false) (ph : c.phase ≡ Phase.pasv)
    (q : c.cmd_q ≡ pasv_command ∷ deposit sink remote local ∷ rest) (f : c.file_device ≡ false)
    (prot : c.dc_prot ≡ p) (works : c.read_works ≡ true) where
  ready_to_send : Client
  ready_to_send = sending p local first (asked_for (deposit sink remote local) rest a c)

  upload_announced :
      run (reply (passive_text a) ∷ data_connects ∷ reply first ∷ secured p) c ≡ ok ready_to_send
  unfolding run ready_to_send
  upload_announced =
      ap (λ r. r >>= run (data_connects ∷ reply first ∷ secured p))
        (pasv_lem (deposit sink remote local) rest a c i (unfold phase_for in refl) ph q)
      ∙ announced_deposit sink remote local rest a p first c one l f prot works

  -- An upload whose PASV is sent, of a local file that can be opened for reading and whose
  -- reads give contexts, goes through
  -- without a fault, whether the data channel is protected or not and whichever end comes first.
  -- STOR is sent and the file opened; the reads of the file, each of which the handler of the one
  -- before asks for, come to an end; what they write to the data channel is the content of the file,
  -- whole and in its order; behind it the channel is stopped; at the end file and channel are let go
  -- and the queue goes on with what stands behind. One read more than the file has bytes is enough.
  pub upload_sends :
      (K : Kernel) (n : IsFile K) (k : K.State) (rounds : ℕ)
      → K.open_file local false ≡ some k
      → n.position k ≡ 0
      → length (n.content k) < rounds
      → (d e : Client) × (run (reply (passive_text a) ∷ data_connects ∷ reply first ∷ secured p) c
          ≡ ok d)
        × (pump K rounds d (new_file K local false) ≡ finished (ok e))
        × (sent_data e.effects ≡ sent_data c.effects ++ n.content k)
        × (run (ending o last) e ≡ ok (process_next_cmd (uploaded sink rest last e)))
  unfolding ready_to_send new_file
  upload_sends K n k rounds opens z enough =
      let file : Device K = record { connected = true; type = DeviceType.file; fd = some k } in
      let whole : IsRead K n (n.content k) file = record {
        state = k;
        connected = refl;
        fd = refl;
        rest_bytes = ap (λ m. drop m (n.content k)) z;
      } in
      let (e, pumped, sent_all) =
        pump_lem K n (deposit sink remote local) rest rounds (n.content k) ready_to_send file enough
          whole refl refl refl refl works in
      (
        ready_to_send,
        e,
        upload_announced,
        ap (λ x. pump K rounds ready_to_send (opened K x)) opens ∙ pumped,
        ap (λ x. sent_data x.effects) sent_all.same
            ∙ sent_all.bytes_sent
            ∙ ap (λ x. x ++ n.content k)
                (sent_data-securing p (
                  open_file local false
                  ∷ (asked_for (deposit sink remote local) rest a c).effects)),
        ending_lem o last e (deposit sink remote local) rest (ap (λ x. x.phase) sent_all.same)
              (ap (λ x. x.cmd_q) sent_all.same) (ap (λ x. x.data_channel) sent_all.same) two
            ∙ ap (λ x. ok (process_next_cmd x))
                (finished_lem sink (deposit sink remote local) last rest e refl
                  (ap (λ x. x.data_channel) sent_all.same) (ap (λ x. x.file_device) sent_all.same)),
      )
