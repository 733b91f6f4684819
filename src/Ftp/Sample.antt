-- ===== src/Ftp/Sample.antt =====
-- The FTP client of the example program TestNPL.cpp, on the model of INCLUDE/CProtocolFTP.hpp.
use Prim.Native.String.{String}
use cpp_npl.Base.{◌≡◌, refl, ◌∙◌, Bool, none, some, List, [], ◌∷◌, ◌++◌, Bytes, codes}
use cpp_npl.Ftp.State.{explicit, protected, new_client, ok}
use cpp_npl.Ftp.Commands.{command_line}
use cpp_npl.Ftp.Session.{
  Event, credentials, list_call, cwd_call, download_call, upload_call, pwd_call, quit_call, run,
  IsIdle,
}
use cpp_npl.Ftp.Fifo.{ask_pwd, ask_cwd, ask_quit}
use cpp_npl.Ftp.Opening.{Welcome, IsWelcome, login}
use cpp_npl.Ftp.Pieces.{Course}
use cpp_npl.Ftp.Sent.{sent_lines}
use cpp_npl.Ftp.Script.{
  Leveled, Call, simple, quiet, list, get, put, pieces_of_all, events_all, left_all, AllFit,
}
use cpp_npl.Ftp.Whole.{at_login, session_goes_through}

-- The calls of `test_ftp_client`; its callbacks are 1 to 4 and always go on.
unfoldable pub test_ftp_client : List Event
test_ftp_client =
    credentials (codes "test") (codes "welcome123")
    ∷ list_call (some 1) [] protected
    ∷ cwd_call (codes "vcpkg") none
    ∷ download_call (some 2) (codes "bootstrap-vcpkg.bat") (codes "./download.bat") protected
    ∷ upload_call (some 3) (codes "README.txt") (codes "../README.md") protected
    ∷ pwd_call (some 4)
    ∷ cwd_call (codes "/") none
    ∷ quit_call none
    ∷ []

-- What the server does about them.
pub record Server : Type 0 where
  pub pbsz_reply : Bytes
  pub prot_reply : Bytes
  pub binary : Bytes
  pub listing : Course
  pub entered : Bytes
  pub downloading : Course
  pub uploading : Course
  pub where_reply : Bytes
  pub at_root : Bytes
  pub goodbye : Bytes

abbrev protecting : Server → Leveled
protecting v = record { level = protected; pbsz_reply = v.pbsz_reply; prot_reply = v.prot_reply }

abbrev pub sample_calls : Server → List Call
sample_calls v =
    list (protecting v) 1 [] v.binary v.listing
    ∷ quiet (ask_cwd (codes "vcpkg")) v.entered
    ∷ get (protecting v) (some 2) (codes "bootstrap-vcpkg.bat") (codes "./download.bat")
        v.downloading
    ∷ put (protecting v) (some 3) (codes "README.txt") (codes "../README.md") v.uploading
    ∷ simple (record { ask = ask_pwd; callback = 4; answer = v.where_reply })
    ∷ quiet (ask_cwd (codes "/")) v.at_root
    ∷ quiet ask_quit v.goodbye
    ∷ []

abbrev line : String → Bytes
line s = codes s ++ 13 ∷ 10 ∷ []

abbrev pub sample_lines : List Bytes
sample_lines =
    line "AUTH TLS"
    ∷ line "USER test"
    ∷ line "PASS welcome123"
    ∷ line "PBSZ 0"
    ∷ line "PROT P"
    ∷ line "TYPE I"
    ∷ line "PASV "
    ∷ line "LIST "
    ∷ line "CWD vcpkg"
    ∷ line "PBSZ 0"
    ∷ line "PROT P"
    ∷ line "PASV "
    ∷ line "RETR bootstrap-vcpkg.bat"
    ∷ line "PBSZ 0"
    ∷ line "PROT P"
    ∷ line "PASV "
    ∷ line "STOR README.txt"
    ∷ line "PWD "
    ∷ line "CWD /"
    ∷ line "QUIT "
    ∷ []

-- The example session goes through with every server that greets it, logs it in, answers each
-- command and completes each transfer: it sends these lines, and is idle at the end.
pub sample_goes_through :
    (merged : Bool) (w : Welcome) (v : Server)
    → IsWelcome w
    → AllFit (pieces_of_all explicit (sample_calls v))
    → (run
          (test_ftp_client
            ++ (login explicit w
                ++ events_all (pieces_of_all explicit (sample_calls v)) (
                    at_login explicit merged
                      (codes "test")
                      (codes "welcome123")
                      w
                      (sample_calls v))))
          (new_client (some explicit) merged)
        ≡ ok (
            left_all
              (pieces_of_all explicit (sample_calls v))
              (at_login explicit merged (codes "test") (codes "welcome123") w (sample_calls v))))
      × IsIdle (
          left_all
            (pieces_of_all explicit (sample_calls v))
            (at_login explicit merged (codes "test") (codes "welcome123") w (sample_calls v)))
      × (sent_lines
            (left_all (pieces_of_all explicit (sample_calls v)) (
              at_login explicit merged
                (codes "test")
                (codes "welcome123")
                w
                (sample_calls v))).effects
          ≡ sample_lines)
unfolding test_ftp_client command_line
sample_goes_through merged w v i fit =
    let (goes, idle, said) =
      session_goes_through explicit merged (codes "test") (codes "welcome123") w (sample_calls v) i
        (tt, (tt, ((refl, refl), ((refl, refl), (tt, (tt, (tt, tt))))))) fit in
    (goes, idle, said ∙ refl)
