-- ===== src/Ftp/State.antt =====
-- The state that CProtocolFTP (INCLUDE/CProtocolFTP.hpp) keeps, with the parts of CProtocol
-- (INCLUDE/CProtocol.hpp) that it uses, and what its methods do to the outside as a list of effects.
use cpp_npl.Base.{ℕ, Bool, true, false, Option, List, [], ◌∷◌, Bytes, codes, ◌==◌}

-- The strings that `iProtocolState` takes. `blank` is the empty string of the table's last row,
-- `prelim` is "1yz" and `final` is "xyz".
pub data Phase : Type 0 where
  connecting connected disconnected check auth tls adat user pass acct ready pasv transfer : Phase
  prelim final gen blank : Phase

-- `enum class TLS`.
pub data Tls : Type 0 where
  no_tls explicit implicit : Tls

-- `enum class DCProt`.
pub data DcProt : Type 0 where
  clear protected : DcProt

-- The command words that the client sends.
pub data Verb : Type 0 where
  user pass acct auth pbsz prot type pasv list retr stor pwd cwd mkd rmd quit : Verb

abbrev pub verb_text : Verb → Bytes
verb_text Verb.user = codes "USER"
verb_text Verb.pass = codes "PASS"
verb_text Verb.acct = codes "ACCT"
verb_text Verb.auth = codes "AUTH"
verb_text Verb.pbsz = codes "PBSZ"
verb_text Verb.prot = codes "PROT"
verb_text Verb.type = codes "TYPE"
verb_text Verb.pasv = codes "PASV"
verb_text Verb.list = codes "LIST"
verb_text Verb.retr = codes "RETR"
verb_text Verb.stor = codes "STOR"
verb_text Verb.pwd = codes "PWD"
verb_text Verb.cwd = codes "CWD"
verb_text Verb.mkd = codes "MKD"
verb_text Verb.rmd = codes "RMD"
verb_text Verb.quit = codes "QUIT"

-- A response callback: null, one of the user's (by its number), or the one that `SetDCProtLevel`
-- makes for PROT, with the level that it captured.
pub data Response : Type 0 where
  silent : Response
  notify : ℕ → Response
  set_level : DcProt → Response

-- An entry of `iCmdQ`; a transfer callback is the number of a function of the user's.
pub record Command : Type 0 where
  pub verb : Verb
  pub remote : Bytes
  pub local : Bytes
  pub response : Response
  pub sink : Option ℕ

-- What a method asks of the sockets, of the file, of the dispatcher and of the user.
pub data Effect : Type 0 where
  sent : Bytes → Effect
  control_handshake data_handshake : Effect
  stop_control stop_data : Effect
  open_channel : Bytes → ℕ → Effect
  reset_channel reset_file : Effect
  open_file : Bytes → Bool → Effect
  read_file : ℕ → Effect
  write_file : Bytes → ℕ → Effect
  write_data : Bytes → Effect
  tell : ℕ → Bytes → Effect
  give : ℕ → Bytes → Effect
  give_end : ℕ → Effect

pub record Client : Type 0 where
  pub phase : Phase
  -- The TLS mode of the socket that `iTarget` leads to, `none` where there is no socket.
  pub socket : Option Tls
  pub user_name : Bytes
  pub password : Bytes
  pub dc_prot : DcProt
  pub continue_transfer : Bool
  pub file_offset : ℕ
  -- Are `iFileDevice` and `iDataChannel` set?
  pub file_device : Bool
  pub data_channel : Bool
  -- Does `Read` of the local file give a context? It gives a null pointer when the file could not be
  -- opened, or when the read fails.
  pub read_works : Bool
  pub cmd_in_progress : Bool
  pub cmd_q : List Command
  -- The head is the back of `iMessages`.
  pub messages : List Bytes
  -- Does the compiler give equal string literals one address? `SetDCProtLevel` compares two.
  pub literals_merged : Bool
  -- The head is the latest.
  pub effects : List Effect

-- A run that the C++ code does not survive.
pub data Fault : Type 0 where
  -- `front`, `back` or `pop_front` of an empty container.
  empty_queue : Fault
  -- A call through a null pointer.
  null_channel null_file : Fault
  -- `QueuePendingContext` writes through a null pointer, on Linux.
  null_context : Fault
  -- `assert` fails.
  assertion : Fault
  -- `substr` throws `std::out_of_range`.
  out_of_range : Fault
  -- A variable that `sscanf_s` did not set is read.
  uninitialized : Fault

pub data Result : Type 0 where
  ok : Client → Result
  fault : Fault → Result

infixl 5 ◌>>=◌
abbrev pub ◌>>=◌ : Result → (Client → Result) → Result
ok c >>= f = f c
fault e >>= f = fault e

abbrev pub emit : Effect → Client → Client
emit e c = record c { effects = e ∷ c.effects }

-- A client as it is made: `iCmdInProgress` is set until the login has succeeded.
unfoldable pub new_client : Option Tls → Bool → Client
new_client socket merged = record {
  phase = connecting;
  socket = socket;
  user_name = [];
  password = [];
  dc_prot = clear;
  continue_transfer = false;
  file_offset = 0;
  file_device = false;
  data_channel = false;
  read_works = true;
  cmd_in_progress = true;
  cmd_q = [];
  messages = [];
  literals_merged = merged;
  effects = [];
}

abbrev pub phase_code : Phase → ℕ
phase_code connecting = 0
phase_code connected = 1
phase_code disconnected = 2
phase_code check = 3
phase_code auth = 4
phase_code tls = 5
phase_code adat = 6
phase_code user = 7
phase_code pass = 8
phase_code acct = 9
phase_code ready = 10
phase_code pasv = 11
phase_code transfer = 12
phase_code prelim = 13
phase_code final = 14
phase_code gen = 15
phase_code blank = 16

-- `==` on the strings that the phases stand for.
abbrev pub phase_eq : Phase → Phase → Bool
phase_eq p q = phase_code p == phase_code q
