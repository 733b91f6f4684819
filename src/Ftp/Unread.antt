-- ===== src/Ftp/Unread.antt =====
-- An upload by CProtocolFTP (INCLUDE/CProtocolFTP.hpp) whose local file cannot be read.
use cpp_npl.Base.{
  ◌≡◌, refl, ap, ◌∙◌, false, Option, ℕ, List, ◌∷◌, ◌++◌, Bytes, is_empty, get_or, arith,
}
use cpp_npl.Ftp.State.{Phase, DcProt, clear, protected, Command, Client, null_context, fault, ◌>>=◌}
use cpp_npl.Ftp.Transfer.{
  on_data_channel_connect, process_data_cmd_response, initialize_file_device, open_local,
  trigger_data_transfer,
}
use cpp_npl.Ftp.Machine.{on_reply, state_machine, scan_rows, fsm, run_action}
use cpp_npl.Ftp.Commands.{pasv_command, phase_for}
use cpp_npl.Ftp.Session.{Event, reply, data_connects, step, run}
use cpp_npl.Ftp.Opening.{run-append}
use cpp_npl.Ftp.Blocks.{secured}
use cpp_npl.Ftp.Passive.{Passive, IsPassive, passive_text, asked_for, pasv_lem}
use cpp_npl.Ftp.Upload.{deposit}

announced_unread :
    (sink : Option ℕ) (remote local : Bytes) (rest : List Command) (a : Passive) (p : DcProt)
    (first : Bytes) (c : Client)
    → get_or first 0 0 ≡ b'1'
    → is_empty local ≡ false
    → c.file_device ≡ false
    → c.dc_prot ≡ p
    → c.read_works ≡ false
    → run (data_connects ∷ reply first ∷ secured p) (asked_for (deposit sink remote local) rest a c)
      ≡ fault null_context
unfolding run step on_reply state_machine scan_rows fsm run_action on_data_channel_connect
    process_data_cmd_response initialize_file_device open_local trigger_data_transfer
announced_unread sink remote local rest a clear first c one l f e z = ground arith
announced_unread sink remote local rest a protected first c one l f e z = ground arith

-- On Linux an upload whose PASV is sent, and whose local file cannot be opened or read, ends the
-- program: when the data channel is connected and the upload has been announced, or, on a protected
-- channel, when its handshake is done, the first read gives a null context, and QueuePendingContext
-- writes through it. No event that comes behind is reached.
pub unread_upload_crashes :
    (sink : Option ℕ) (remote local : Bytes) (rest : List Command) (a : Passive) (p : DcProt)
    (first : Bytes) (es : List Event) (c : Client)
    → IsPassive a
    → get_or first 0 0 ≡ b'1'
    → is_empty local ≡ false
    → c.phase ≡ Phase.pasv
    → c.cmd_q ≡ pasv_command ∷ deposit sink remote local ∷ rest
    → c.file_device ≡ false
    → c.dc_prot ≡ p
    → c.read_works ≡ false
    → run (reply (passive_text a) ∷ (data_connects ∷ reply first ∷ secured p) ++ es) c
      ≡ fault null_context
unfolding run
unread_upload_crashes sink remote local rest a p first es c i one l ph q f prot z =
    let cmd = deposit sink remote local in
    ap (λ r. r >>= run ((data_connects ∷ reply first ∷ secured p) ++ es))
      (pasv_lem cmd rest a c i (unfold phase_for in refl) ph q)
    ∙ run-append (data_connects ∷ reply first ∷ secured p) es (asked_for cmd rest a c)
    ∙ ap (λ r. r >>= run es) (announced_unread sink remote local rest a p first c one l f prot z)
