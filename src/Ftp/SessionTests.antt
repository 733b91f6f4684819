-- ===== src/Ftp/SessionTests.antt =====
-- A whole session, a download and an upload of CProtocolFTP (INCLUDE/CProtocolFTP.hpp) on small
-- inputs, over a file that is kept as its content and a position.
use mathlib.Core.List.{flatten}
use cpp_npl.Base.{
  Bool, ℕ, ◌+◌, ◌≡◌, refl, true, false, none, some, List, [], ◌∷◌, ◌++◌, Bytes, codes, length, take,
  drop, arith,
}
use cpp_npl.Device.{Kernel, Device, DeviceType, went, new_file}
use cpp_npl.Device.File.{IsFile, IsWritten, overwrite}
use cpp_npl.Ftp.State.{
  DcProt, protected, Phase, explicit, no_tls, clear, Command, Client, new_client, ok, fault,
  null_context,
}
use cpp_npl.Ftp.Commands.{phase_for, pasv_command, process_next_cmd}
use cpp_npl.Ftp.Session.{IsIdle, credentials, reply, data_connects, run}
use cpp_npl.Ftp.Fifo.{ask_cwd, ask_quit}
use cpp_npl.Ftp.Opening.{Welcome, IsWelcome, login, login_effects}
use cpp_npl.Ftp.Pieces.{Course, IsCourse}
use cpp_npl.Ftp.Sent.{sent_lines, lines}
use cpp_npl.Ftp.Script.{
  Leveled, Call, simple, list, get, put, call_events, pieces_of_all, queue_all, events_all,
  left_all, AllFit,
}
use cpp_npl.Ftp.Whole.{at_login, session_goes_through}
use cpp_npl.Ftp.Blocks.{secured, ending}
use cpp_npl.Ftp.Passive.{Passive, IsPassive, passive_text, passive_host, passive_port}
use cpp_npl.Ftp.Download.{fetch, download_events, downloaded}
use cpp_npl.Ftp.Replay.{play}
use cpp_npl.Ftp.Stored.{device_calls, download_stored}
use cpp_npl.Ftp.Upload.{deposit, uploaded, upload_sends}
use cpp_npl.Ftp.Pump.{finished, pump, sent_data}
use cpp_npl.Ftp.Unread.{unread_upload_crashes}

abbrev friendly : Welcome
friendly = record {
  greeting = codes "220 hi";
  consent = codes "234 go on";
  password_please = codes "331 password";
  welcome = codes "230 in";
}

friendly-IsWelcome : IsWelcome friendly
friendly-IsWelcome = record {
  greets = refl;
  consents = refl;
  asks_password = refl;
  welcomes = refl;
}

record Tape : Type 0 where
  content : Bytes
  position : ℕ

-- A system with one file, of seven bytes.
abbrev tape : Kernel
tape = record {
  State = Tape;
  open_file = λ name create. some (record { content = codes "old one"; position = 0 });
  read = λ m k.
      let b = take m (drop k.position k.content) in
      (some b, record k { position = k.position + length b });
  write = λ b k. (
    some (length b),
    record { content = overwrite k.position b k.content; position = k.position + length b },
  );
  shutdown_send = λ k. k;
  accept = λ k. (false, k);
  seek = λ m k. (true, record k { position = m });
  read_sync = λ m k. (none, k);
  write_sync = λ b k. (none, k);
}

tape-IsFile : IsFile tape
tape-IsFile = record {
  content = λ k. k.content;
  position = λ k. k.position;
  write_count = λ b k. refl;
  content-write = λ b k. refl;
  position-write = λ b k. refl;
  read_bytes = λ m k. refl;
  content-read = λ m k. refl;
  position-read = λ m k. refl;
}

abbrev here : Passive
here = record {
  before = codes "227 at ";
  h1 = 10;
  h2 = 0;
  h3 = 0;
  h4 = 1;
  p1 = 4;
  p2 = 1;
  behind = codes ".";
}

here-IsPassive : IsPassive here
here-IsPassive = record { accepts = refl; no_open = ground arith; fit = omega arith }

abbrev a_course : List Bytes → Bool → Course
a_course bs o = record {
  passive = here;
  first = codes "150";
  blocks = bs;
  closes_first = o;
  last = codes "226";
}

a_course-IsCourse : (bs : List Bytes) (o : Bool) → IsCourse (a_course bs o)
a_course-IsCourse bs o = record { passive = here-IsPassive; announces = refl; completes = refl }

abbrev on_level : DcProt → Leveled
on_level p = record { level = p; pbsz_reply = codes "200"; prot_reply = codes "200" }

-- The calls of an FTP session: a listing, a download and an upload, with calls between them.
abbrev visit : List Call
visit =
    list (on_level protected) 1 [] (codes "200") (a_course (codes "x" ∷ []) true)
    ∷ simple (record { ask = ask_cwd (codes "a"); callback = 2; answer = codes "550 no" })
    ∷ get (on_level protected) (some 3) (codes "far") (codes "near")
        (a_course (codes "ne" ∷ codes "w" ∷ []) false)
    ∷ put (on_level clear) none (codes "far") (codes "near") (a_course (codes "old" ∷ []) true)
    ∷ simple (record { ask = ask_quit; callback = 4; answer = codes "221" })
    ∷ []

infixr 4 ◌&◌
◌&◌ : {A B : Type 0} → A → B → A × B
a & b = (a, b)

visit-AllFit : AllFit (pieces_of_all explicit visit)
unfolding phase_for
visit-AllFit =
    (refl, omega arith)
    & (refl, omega arith)
    & (refl, omega arith)
    & (refl, refl, a_course-IsCourse (codes "x" ∷ []) true)
    & (refl, omega arith)
    & (refl, omega arith)
    & (refl, omega arith)
    & (refl, a_course-IsCourse (codes "ne" ∷ codes "w" ∷ []) false)
    & (refl, omega arith)
    & (refl, omega arith)
    & (refl, a_course-IsCourse (codes "old" ∷ []) true)
    & (refl, omega arith)
    & tt

session_goes_through_example :
    (run
        (credentials (codes "joe") (codes "pw") ∷ call_events visit
          ++ (login explicit friendly
              ++ events_all
                  (pieces_of_all explicit visit)
                  (at_login explicit true (codes "joe") (codes "pw") friendly visit)))
        (new_client (some explicit) true)
      ≡ ok (
          left_all
            (pieces_of_all explicit visit)
            (at_login explicit true (codes "joe") (codes "pw") friendly visit)))
    × IsIdle (
        left_all
          (pieces_of_all explicit visit)
          (at_login explicit true (codes "joe") (codes "pw") friendly visit))
    × (sent_lines
          (left_all
            (pieces_of_all explicit visit)
            (at_login explicit true (codes "joe") (codes "pw") friendly visit)).effects
        ≡ sent_lines (login_effects explicit (codes "joe") (codes "pw") [])
          ++ lines (queue_all (pieces_of_all explicit visit)))
session_goes_through_example =
    session_goes_through explicit true (codes "joe") (codes "pw") friendly visit friendly-IsWelcome
      (tt & tt & (refl, refl) & (refl, refl) & tt & tt) visit-AllFit

abbrev passive_client : List Command → Client
passive_client q = record (new_client (some no_tls) true) {
  phase = Phase.pasv;
  cmd_in_progress = true;
  cmd_q = q;
}

abbrev no_file : Device tape
no_file = record { connected = false; type = DeviceType.no_device; fd = none }

abbrev getting : Client
getting = passive_client (pasv_command ∷ fetch none (codes "far") (codes "near") ∷ [])

abbrev putting : Client
putting = passive_client (pasv_command ∷ deposit (some 2) (codes "far") (codes "near") ∷ [])

download_stored_example :
    (e : Client) × (u : Device tape) × (run
        (download_events clear
          (passive_text here)
          (codes "150")
          (codes "ne" ∷ codes "w" ∷ [])
          true
          (codes "226"))
        getting
      ≡ ok e)
    × (e
        ≡ process_next_cmd (
            downloaded none
              (codes "far")
              (codes "near")
              []
              (passive_host here)
              (passive_port here)
              clear
              (passive_text here)
              (codes "150")
              (codes "ne" ∷ codes "w" ∷ [])
              (codes "226")
              getting))
    × (play (device_calls tape) e.effects no_file ≡ went u)
    × IsWritten tape tape-IsFile (codes "new") (codes "old one") u
unfolding flatten tape-IsFile play device_calls new_client
download_stored_example =
    download_stored tape tape-IsFile none (codes "far") (codes "near") [] here clear (codes "150")
      (codes "226") (codes "ne" ∷ codes "w" ∷ []) true getting no_file no_file
      (record { content = codes "old one"; position = 0 }) here-IsPassive refl refl refl refl refl
      refl refl (refl, (refl, tt)) refl refl refl

upload_sends_example :
    (d e : Client) × (run
        (reply (passive_text here) ∷ data_connects ∷ reply (codes "150") ∷ secured clear)
        putting
      ≡ ok d)
    × (pump tape 8 d (new_file tape (codes "near") false) ≡ finished (ok e))
    × (sent_data e.effects ≡ codes "old one")
    × (run (ending false (codes "226")) e
        ≡ ok (process_next_cmd (uploaded (some 2) [] (codes "226") e)))
unfolding tape-IsFile new_client
upload_sends_example =
    upload_sends (some 2) (codes "far") (codes "near") [] here clear (codes "150") (codes "226")
      false putting here-IsPassive refl refl refl refl refl refl refl refl tape tape-IsFile
      (record { content = codes "old one"; position = 0 }) 8 refl refl (omega arith)

-- The same, where the file cannot be opened.
unread_upload_crashes_example :
    run
      (reply (passive_text here) ∷ (data_connects ∷ reply (codes "150") ∷ secured clear)
        ++ reply (codes "226") ∷ [])
      (record putting { read_works = false })
    ≡ fault null_context
unfolding new_client
unread_upload_crashes_example =
    unread_upload_crashes (some 2) (codes "far") (codes "near") [] here clear (codes "150")
      (reply (codes "226") ∷ []) (record putting { read_works = false }) here-IsPassive refl refl
      refl refl refl refl refl
