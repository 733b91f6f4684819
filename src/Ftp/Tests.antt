-- ===== src/Ftp/Tests.antt =====
-- Runs of CProtocolFTP (INCLUDE/CProtocolFTP.hpp) on small inputs.
use cpp_npl.Base.{ℕ, ◌≡◌, refl, inl, true, false, none, some, List, [], ◌∷◌, ◌++◌, arith, codes}
use cpp_npl.Base.Decimal.{scan_int, skip_spaces, read_digits}
use cpp_npl.Ftp.State.{
  Phase, no_tls, clear, Verb, silent, notify, Command, Client, new_client, ok, ◌>>=◌,
}
use cpp_npl.Protocol.Stream.{IsFrame}
use cpp_npl.Ftp.Commands.{
  command, process_next_cmd, phase_for, pop_commands, skip_command, upload, set_dc_prot_level,
  command_line, send_command,
}
use cpp_npl.Ftp.Transfer.{
  process_pasv_response, open_data_channel, pasv_reply, scan_pasv, scan_fields,
  process_data_cmd_response, initialize_file_device, trigger_data_transfer, on_data_channel_connect,
  on_data_channel_disconnect, on_file_read,
}
use cpp_npl.Ftp.Machine.{
  on_reply, on_connect, shake, do_cc_handshake, start_tls, state_machine, scan_rows, fsm,
  run_action, check_explicit_ftps, greet, process_login_event,
}
use cpp_npl.Ftp.Reply.{
  is_message_complete, is_message_complete_beyond, single_line, single_line-IsFrame, replies,
}
use cpp_npl.Ftp.Session.{
  Event, connects, reply, upload_call, data_connects, data_disconnects, pwd_call, file_read, step,
  run, Inv,
}
use cpp_npl.Ftp.Safety.{step_survives, session_survives, Allowed}
use cpp_npl.Ftp.Order.{completion_order, completed, early_close_leaves_file}
use cpp_npl.Ftp.Script.{Call, put, call_event}
use cpp_npl.Ftp.AnyTime.{AllReports, call_at_any_time}

-- A login and an upload of a file of five bytes.
abbrev session : List Event
session =
    connects
    ∷ reply (codes "220 hi")
    ∷ reply (codes "331 password")
    ∷ reply (codes "230 in")
    ∷ upload_call none (codes "far") (codes "near") clear
    ∷ reply (codes "227 (1,2,3,4,5,6)")
    ∷ data_connects
    ∷ reply (codes "150 go")
    ∷ file_read true (codes "hello")
    ∷ reply (codes "226 done")
    ∷ data_disconnects
    ∷ pwd_call none
    ∷ []

session-Allowed : Allowed session (ok (new_client (some no_tls) true))
unfolding new_client step on_connect shake do_cc_handshake start_tls on_reply state_machine
    scan_rows fsm run_action check_explicit_ftps greet send_command command_line process_login_event
    process_next_cmd phase_for pop_commands skip_command upload set_dc_prot_level scan_int
    skip_spaces read_digits process_pasv_response pasv_reply scan_pasv scan_fields open_data_channel
    process_data_cmd_response initialize_file_device trigger_data_transfer on_data_channel_connect
    on_data_channel_disconnect on_file_read
session-Allowed = (
  tt,
  (
    tt,
    (
      tt,
      (
        tt,
        (
          (refl, refl),
          (
            (λ e. (4, 1 ∷ 2 ∷ 3 ∷ 4 ∷ 5 ∷ 6 ∷ [], refl, refl)),
            (
              refl,
              (
                (refl, λ one clear_level front. refl),
                ((refl, refl, refl), (tt, ((tt, refl), (tt, tt)))),
              ),
            ),
          ),
        ),
      ),
    ),
  ),
)

session_survives_example :
    (d : Client) × (run session (new_client (some no_tls) true) ≡ ok d) × Inv d
session_survives_example = session_survives (some no_tls) true session session-Allowed

-- A client in the given state, with the given queue.
abbrev client_in : Phase → List Command → Client
client_in p q = record {
  phase = p;
  socket = some no_tls;
  user_name = codes "joe";
  password = codes "pw";
  dc_prot = clear;
  continue_transfer = true;
  file_offset = 0;
  file_device = false;
  data_channel = true;
  read_works = true;
  cmd_in_progress = true;
  cmd_q = q;
  messages = [];
  literals_merged = true;
  effects = [];
}

abbrev get_file : Command
get_file = command Verb.retr (codes "far") (codes "near") silent none

abbrev print_dir : Command
print_dir = command Verb.pwd [] [] (notify 7) none

step_survives_example :
    (d : Client) × (step data_disconnects
        (record (client_in Phase.prelim (get_file ∷ [])) { file_device = true })
      ≡ ok d)
    × Inv d
step_survives_example =
    step_survives data_disconnects
      (record (client_in Phase.prelim (get_file ∷ [])) { file_device = true })
      (refl, refl, refl, refl) (tt, refl)

completion_order_example :
    ((step (reply (codes "226")) (client_in Phase.prelim (get_file ∷ [])) >>= step data_disconnects)
      ≡ ok (
          process_next_cmd
            (completed (codes "226") get_file [] (client_in Phase.prelim (get_file ∷ [])))))
    × ((step data_disconnects (client_in Phase.prelim (get_file ∷ []))
          >>= step (reply (codes "226")))
        ≡ ok (
            process_next_cmd
              (completed (codes "226") get_file [] (client_in Phase.prelim (get_file ∷ [])))))
completion_order_example =
    completion_order (client_in Phase.prelim (get_file ∷ [])) get_file [] (codes "226") refl refl
      refl refl

-- Calls and a reply that come later.
abbrev later_on : List Event
later_on =
    upload_call none (codes "far") (codes "near") clear
    ∷ reply (codes "200 ok")
    ∷ pwd_call none
    ∷ []

early_close_leaves_file_example :
    (d : Client) × ((step data_disconnects (client_in Phase.transfer (get_file ∷ []))
        >>= step (reply (codes "150"))
        >>= step (reply (codes "226")))
      ≡ ok d)
    × (d.file_device ≡ true)
    × (d.cmd_q ≡ [])
early_close_leaves_file_example =
    early_close_leaves_file (client_in Phase.transfer (get_file ∷ [])) get_file [] (codes "150")
      (codes "226") refl refl refl refl refl refl refl refl refl

single_line-IsFrame_example :
    IsFrame {S = ℕ}
      (replies [] (λ m n. n))
      0
      (single_line b'2' b'2' b'0' (codes "hi"))
      (single_line b'2' b'2' b'0' (codes "hi"))
single_line-IsFrame_example =
    single_line-IsFrame {S = ℕ} [] (λ m n. n) 0 b'2' b'2' b'0' (codes "hi") refl refl refl
      (ground arith)

is_message_complete_beyond_example :
    is_message_complete (codes "220 ") (codes "220 hi\r\n")
    ≡ is_message_complete [] (codes "220 hi\r\n")
is_message_complete_beyond_example =
    is_message_complete_beyond b'2' b'2' (codes "0 hi\r\n") (codes "220 ") refl refl

-- The login of a client without TLS.
abbrev logging_in : List Event
logging_in =
    connects ∷ reply (codes "220 hi") ∷ reply (codes "331 password") ∷ reply (codes "230 in") ∷ []

logging_in-Allowed : Allowed logging_in (ok (new_client (some no_tls) true))
unfolding new_client step on_connect shake do_cc_handshake start_tls on_reply state_machine
    scan_rows fsm run_action check_explicit_ftps greet send_command process_login_event
    process_next_cmd
logging_in-Allowed = (tt, (tt, (tt, (tt, tt))))

logging_in-AllReports : AllReports logging_in (ok (new_client (some no_tls) true))
unfolding new_client step on_connect shake do_cc_handshake start_tls on_reply state_machine
    scan_rows fsm run_action check_explicit_ftps greet send_command process_login_event
    process_next_cmd
logging_in-AllReports = (tt, tt, refl, (tt, tt, refl, (tt, tt, refl, (tt, inl refl, refl, tt))))

-- An upload without a callback.
abbrev put_call : Call
put_call =
    put (record { level = clear; pbsz_reply = []; prot_reply = [] }) none (codes "far")
      (codes "near")
      (record {
        passive = record {
          before = [];
          h1 = 0;
          h2 = 0;
          h3 = 0;
          h4 = 0;
          p1 = 0;
          p2 = 0;
          behind = [];
        };
        first = [];
        blocks = [];
        closes_first = true;
        last = [];
      })

call_at_any_time_example :
    run (call_event put_call ∷ logging_in) (new_client (some no_tls) true)
    ≡ run (logging_in ++ call_event put_call ∷ []) (new_client (some no_tls) true)
unfolding new_client
call_at_any_time_example =
    call_at_any_time no_tls put_call logging_in (new_client (some no_tls) true) (refl, refl) refl
      (refl, (λ e. cc), refl, refl) logging_in-Allowed logging_in-AllReports
