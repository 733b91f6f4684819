-- ===== src/Ftp/Stored.antt =====
-- What a download by CProtocolFTP (INCLUDE/CProtocolFTP.hpp) leaves in the local file, a CDevice
-- (INCLUDE/CDevice.hpp).
use mathlib.Core.List.{flatten}
use cpp_npl.Base.{
  ℕ, ◌≡◌, refl, subst, sym, ap, ◌∙◌, true, false, Option, some, List, [], ◌∷◌, ◌++◌, append-nil,
  append_assoc, Bytes, is_empty, get_or, Bool,
}
use cpp_npl.Device.{Kernel, Device, DeviceType, went, ◌>>=◌, opened, new_file, write_device}
use cpp_npl.Device.File.{IsFile, IsWritten, write_device-IsWritten}
use cpp_npl.Ftp.State.{
  Phase, Verb, DcProt, Command, Client, Effect, sent, open_channel, open_file, write_file, ok,
}
use cpp_npl.Ftp.Session.{run}
use cpp_npl.Ftp.Commands.{command_line, pasv_command, process_next_cmd}
use cpp_npl.Ftp.Transfer.{add_offset, byte_count}
use cpp_npl.Ftp.Blocks.{given, ended, received, securing}
use cpp_npl.Ftp.Passive.{Passive, IsPassive, passive_text, passive_host, passive_port}
use cpp_npl.Ftp.Replay.{
  FileCalls, on_file, play, bind_went, play-given, play-ended, play-securing, play-process_next_cmd,
  AllSome,
}
use cpp_npl.Ftp.Download.{fetch, download_events, downloaded, download_runs}

-- The calls of a CDevice on Linux.
unfoldable pub device_calls : (K : Kernel) → FileCalls (Device K)
device_calls K = record {
  make = λ name create d. went (new_file K name create);
  write = λ b at d. write_device K b at d;
}

module _ (K : Kernel) (n : IsFile K) where
  play-received :
      (sink : Option ℕ) (o : ℕ) (bs : List Bytes) (es : List Effect) (d v : Device K)
      (front old : Bytes)
      → AllSome bs
      → play (device_calls K) es d ≡ went v
      → IsWritten K n front old v
      → (u : Device K) × (play (device_calls K) (received sink o bs es) d ≡ went u)
        × IsWritten K n (front ++ flatten bs) old u
  unfolding flatten device_calls
  play-received sink o [] es d v front old h e w =
      (v, e, subst (λ t. IsWritten K n t old v) (sym (append-nil front)) w)
  play-received sink o (b ∷ bs) es d v front old (h, hs) e w =
      let (u, q, w2) = write_device-IsWritten K n front old b o v h w in
      let step : play (device_calls K) (write_file b o ∷ given sink b es) d ≡ went u =
        unfold play in
        (ap (λ r. r >>= on_file (device_calls K) (write_file b o))
            (play-given (device_calls K) sink b es d ∙ e)
          ∙ q) in
      let (x, q3, w3) =
        play-received sink (add_offset o (byte_count b)) bs (write_file b o ∷ given sink b es) d u
          (front ++ b) old hs step w2 in
      (x, q3, subst (λ t. IsWritten K n t old x) (append_assoc front b (flatten bs)) w3)

  opened_file :
      (local : Bytes) (es : List Effect) (d v : Device K) (k : K.State)
      → K.open_file local true ≡ some k
      → n.position k ≡ 0
      → play (device_calls K) es d ≡ went v
      → (u : Device K) × (play (device_calls K) (open_file local true ∷ es) d ≡ went u)
        × IsWritten K n [] (n.content k) u
  unfolding play device_calls new_file
  opened_file local es d v k e z p = (
    record { connected = true; type = DeviceType.file; fd = some k },
    ap (λ r. r >>= on_file (device_calls K) (open_file local true)) p
        ∙ ap (λ o. went (opened K o)) e,
    record { state = k; connected = refl; fd = refl; content = refl; position = z },
  )

  -- A download to a local file that can be opened for writing, whose PASV is sent, goes through
  -- without a fault, whether the data channel is protected or not and whichever end comes first:
  -- RETR is sent behind the answer to PASV, the data channel is opened to its address, each block is
  -- given to the callback and written, file and channel are let go, and the queue goes on with what
  -- stands behind. Done on the device, the file then begins with the blocks, put together in their
  -- order, and what was in it behind as many bytes is still there.
  pub download_stored :
      (sink : Option ℕ) (remote local : Bytes) (rest : List Command) (a : Passive) (p : DcProt)
      (first last : Bytes) (bs : List Bytes) (o : Bool) (c : Client) (d v : Device K) (k : K.State)
      → IsPassive a
      → get_or first 0 0 ≡ b'1'
      → get_or last 0 0 ≡ b'2'
      → is_empty local ≡ false
      → c.phase ≡ Phase.pasv
      → c.cmd_q ≡ pasv_command ∷ fetch sink remote local ∷ rest
      → c.file_device ≡ false
      → c.dc_prot ≡ p
      → AllSome bs
      → play (device_calls K) c.effects d ≡ went v
      → K.open_file local true ≡ some k
      → n.position k ≡ 0
      → (e : Client) × (u : Device K) × (run (download_events p (passive_text a) first bs o last) c
          ≡ ok e)
        × (e
            ≡ process_next_cmd (
                downloaded sink remote local rest
                  (passive_host a)
                  (passive_port a)
                  p
                  (passive_text a)
                  first
                  bs
                  last
                  c))
        × (play (device_calls K) e.effects d ≡ went u)
        × IsWritten K n (flatten bs) (n.content k) u
  download_stored sink remote local rest a p first last bs o c d v k i one two l ph q f prot
        some_bytes before opens z =
      let host = passive_host a in
      let port = passive_port a in
      let behind : Client =
        downloaded sink remote local rest host port p (passive_text a) first bs last c in
      let asked_for : List Effect =
        open_channel host port ∷ sent (command_line Verb.retr remote) ∷ c.effects in
      let asked_play : play (device_calls K) asked_for d ≡ went v =
        unfold play in
        (bind_went (device_calls K) (play (device_calls K) c.effects d >>= λ x. went x)
          ∙ bind_went (device_calls K) (play (device_calls K) c.effects d)
          ∙ before) in
      let (x, px, wx) = opened_file local asked_for d v k opens z asked_play in
      let (u, pu, wu) =
        play-received sink 0 bs (securing p (open_file local true ∷ asked_for)) d x [] (n.content k)
          some_bytes (play-securing (device_calls K) p (open_file local true ∷ asked_for) d ∙ px)
          wx in
      let blocks : List Effect =
        received sink 0 bs (securing p (open_file local true ∷ asked_for)) in
      let done : play (device_calls K) behind.effects d ≡ went u =
        unfold play in
        (bind_went (device_calls K) (play (device_calls K) (ended sink blocks) d >>= λ x. went x)
          ∙ bind_went (device_calls K) (play (device_calls K) (ended sink blocks) d)
          ∙ play-ended (device_calls K) sink blocks d
          ∙ pu) in
      (
        process_next_cmd behind,
        u,
        download_runs sink remote local rest a p first last bs o c i one two l ph q f prot,
        refl,
        play-process_next_cmd (device_calls K) behind d ∙ done,
        wu,
      )
