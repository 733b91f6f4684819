-- ===== src/Ftp/StoredLate.antt =====
-- What a download by CProtocolFTP (INCLUDE/CProtocolFTP.hpp) leaves in the local file on Windows,
-- where CDevice (INCLUDE/CDevice.hpp) starts writes that the system completes later.
use mathlib.Core.List.{flatten, Permᴰ}
use cpp_npl.Base.{
  ℕ, ◌+◌, ◌%◌, ◌^◌, ◌<◌, ◌≡◌, refl, ap, ◌∙◌, true, false, Option, some, Bool, List, [], ◌∷◌, Bytes,
  is_empty, length, length-append, get_or, if◌then◌else◌, arith,
}
use cpp_npl.Dispatcher.{Io}
use cpp_npl.Device.{DeviceType, went, failed, ◌>>=◌}
use cpp_npl.Device.Overlapped.{
  Request, Windows, FileDevice, request, new_file_device, first_opened, both_opened, start_on,
  write_overlapped, complete_all,
}
use cpp_npl.Device.AnyOrder.{IsDisk, block_requests, AllShort, blocks_cover, content, any_order}
use cpp_npl.Ftp.State.{
  Phase, Verb, DcProt, Command, Client, Effect, sent, open_channel, open_file, write_file, ok,
}
use cpp_npl.Ftp.Session.{run}
use cpp_npl.Ftp.Commands.{command_line, pasv_command, process_next_cmd}
use cpp_npl.Ftp.Transfer.{add_offset, byte_count}
use cpp_npl.Ftp.Blocks.{given, ended, received, securing}
use cpp_npl.Ftp.Passive.{Passive, IsPassive, passive_text, passive_host, passive_port}
use cpp_npl.Ftp.Replay.{
  FileCalls, on_file, play, bind_went, play-given, play-ended, play-securing, play-process_next_cmd,
  AllSome,
}
use cpp_npl.Ftp.Download.{fetch, download_events, downloaded, download_runs}

-- The calls of a CDevice on Windows, with the system's state.
unfoldable pub overlapped_calls : (W : Windows) → FileCalls (FileDevice × W.State)
overlapped_calls W = record {
  make = λ name create v. went (new_file_device W name create v.1);
  write = λ b at v. write_overlapped W b at v.1 v.0 >>= λ d. went (d, v.1);
}

byte_count_lem : (b : Bytes) → byte_count b ≡ length b
unfolding byte_count
byte_count_lem [] = refl
byte_count_lem (x ∷ b) = omega (arith, byte_count_lem b)

module _ (W : Windows) (h : ℕ) (n : IsDisk W h) where
  one_written :
      (b : Bytes) (o : ℕ) (d : FileDevice) (s : W.State)
      → is_empty b ≡ false
      → d.connected ≡ true
      → d.fd ≡ some h
      → on_file (overlapped_calls W) (write_file b o) (d, s)
        ≡ went (record d { issued = request Io.written b (length b) o ∷ d.issued }, s)
  unfolding overlapped_calls write_overlapped
  one_written b o d s some_bytes up fd =
      let r = request Io.written b (length b) o in
      ap
        (λ x.
          (if x then (if is_empty b then failed else went (start_on W d.fd r s d)) else went d)
          >>= λ d. went (d, s))
        up
      ∙ ap (λ x. (if x then failed else went (start_on W d.fd r s d)) >>= λ d. went (d, s))
          some_bytes
      ∙ ap (λ x. went (start_on W x r s d, s)) fd
      ∙ ap (λ x. went (if x then record d { issued = r ∷ d.issued } else d, s)) (n.takes r s)

  all_written :
      (sink : Option ℕ) (o : ℕ) (bs : List Bytes) (es : List Effect) (v : FileDevice × W.State)
      (d : FileDevice) (s : W.State)
      → AllSome bs
      → o + length (flatten bs) < 2 ^ 64
      → d.connected ≡ true
      → d.fd ≡ some h
      → play (overlapped_calls W) es v ≡ went (d, s)
      → play (overlapped_calls W) (received sink o bs es) v
        ≡ went (record d { issued = block_requests o bs d.issued }, s)
  unfolding flatten
  all_written sink o [] es v d s a l up fd e = e
  all_written sink o (b ∷ bs) es v d s (a, more_bytes) l up fd e =
      let calls = overlapped_calls W in
      let next : FileDevice = record d { issued = request Io.written b (length b) o ∷ d.issued } in
      let size = length-append b (flatten bs) in
      let at : add_offset o (byte_count b) ≡ o + length b =
        ap (λ k. (o + k) % 2 ^ 64) (byte_count_lem b) ∙ omega arith in
      let more : List Effect = write_file b o ∷ given sink b es in
      let step : play calls more v ≡ went (next, s) =
        unfold play in
        (ap (λ r. r >>= on_file calls (write_file b o)) (play-given calls sink b es v ∙ e)
          ∙ one_written b o d s a up fd) in
      ap (λ k. play calls (received sink k bs more) v) at
      ∙ all_written sink (o + length b) bs more v next s more_bytes (omega arith) up fd step

  made_file :
      (local : Bytes) (es : List Effect) (v : FileDevice × W.State) (d : FileDevice)
      (s made both : W.State) (sync : ℕ)
      → play (overlapped_calls W) es v ≡ went (d, s)
      → W.create_file local true s ≡ (some h, made)
      → W.create_file local false made ≡ (some sync, both)
      → play (overlapped_calls W) (open_file local true ∷ es) v
        ≡ went (
          record {
            connected = true;
            type = DeviceType.file;
            fd = some h;
            fd_sync = some sync;
            issued = [];
          },
          both,
        )
  unfolding play overlapped_calls new_file_device
  made_file local es v d s made both sync e m t =
      ap (λ r. r >>= on_file (overlapped_calls W) (open_file local true)) e
      ∙ ap (λ x. went (first_opened W local x)) m
      ∙ ap (λ x. went (both_opened W (some h) x)) t

  -- A download to a local file that CREATE_ALWAYS makes empty, whose PASV is sent, goes through
  -- without a fault, whether the data channel is protected or not and whichever end comes first. Its
  -- writes are started one for each block, with the offset behind the blocks before it; and in
  -- whatever order the system completes them, the file then has exactly the blocks, put together in
  -- their order. Each block has bytes, fewer than 2 ^ 32, and all have fewer than 2 ^ 64; the system
  -- takes every request.
  pub download_any_order :
      (sink : Option ℕ) (remote local : Bytes) (rest : List Command) (a : Passive) (p : DcProt)
      (first last : Bytes) (bs : List Bytes) (o : Bool) (c : Client) (v : FileDevice × W.State)
      (d : FileDevice) (s made both : W.State) (sync : ℕ)
      → IsPassive a
      → get_or first 0 0 ≡ b'1'
      → get_or last 0 0 ≡ b'2'
      → is_empty local ≡ false
      → c.phase ≡ Phase.pasv
      → c.cmd_q ≡ pasv_command ∷ fetch sink remote local ∷ rest
      → c.file_device ≡ false
      → c.dc_prot ≡ p
      → AllSome bs
      → AllShort bs
      → length (flatten bs) < 2 ^ 64
      → play (overlapped_calls W) c.effects v ≡ went (d, s)
      → W.create_file local true s ≡ (some h, made)
      → W.create_file local false made ≡ (some sync, both)
      → n.size both ≡ 0
      → (cs : List Request) → Permᴰ (block_requests 0 bs []) cs
      → (e : Client) × (f : FileDevice) × (run
            (download_events p (passive_text a) first bs o last)
            c
          ≡ ok e)
        × (play (overlapped_calls W) e.effects v ≡ went (f, both))
        × (f.issued ≡ block_requests 0 bs [])
        × (content W h n (complete_all W h cs both) ≡ flatten bs)
  download_any_order sink remote local rest a p first last bs o c v d s made both sync i one two l
        ph q f prot some_bytes short size before m t z cs perm =
      let host = passive_host a in
      let port = passive_port a in
      let calls = overlapped_calls W in
      let behind : Client =
        downloaded sink remote local rest host port p (passive_text a) first bs last c in
      let asked_for : List Effect =
        open_channel host port ∷ sent (command_line Verb.retr remote) ∷ c.effects in
      let file : FileDevice = record {
        connected = true;
        type = DeviceType.file;
        fd = some h;
        fd_sync = some sync;
        issued = [];
      } in
      let asked_play : play calls asked_for v ≡ went (d, s) =
        unfold play in
        (bind_went calls (play calls c.effects v >>= λ x. went x)
          ∙ bind_went calls (play calls c.effects v)
          ∙ before) in
      let open_play = made_file local asked_for v d s made both sync asked_play m t in
      let blocks : List Effect =
        received sink 0 bs (securing p (open_file local true ∷ asked_for)) in
      let written =
        all_written sink 0 bs (securing p (open_file local true ∷ asked_for)) v file both some_bytes
          (omega arith) refl refl
          (play-securing calls p (open_file local true ∷ asked_for) v ∙ open_play) in
      let done : play calls behind.effects v
          ≡ went (record file { issued = block_requests 0 bs [] }, both) =
        unfold play in
        (bind_went calls (play calls (ended sink blocks) v >>= λ x. went x)
          ∙ bind_went calls (play calls (ended sink blocks) v)
          ∙ play-ended calls sink blocks v
          ∙ written) in
      let (belong, cover) =
        blocks_cover (flatten bs) [] 0 bs [] refl refl short size tt
          (λ i k. absurd (omega arith)) in
      (
        process_next_cmd behind,
        record file { issued = block_requests 0 bs [] },
        download_runs sink remote local rest a p first last bs o c i one two l ph q f prot,
        play-process_next_cmd calls behind v ∙ done,
        refl,
        any_order W h n (flatten bs) (block_requests 0 bs []) cs both perm belong cover z,
      )
