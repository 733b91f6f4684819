-- ===== src/Ftp/Session.antt =====
-- A session of CProtocolFTP (INCLUDE/CProtocolFTP.hpp) as a sequence of events: the user's calls,
-- the server's replies, and what the sockets and the file report.
use cpp_npl.Base.{
  ℕ, ◌≡◌, ◌⊎◌, Bool, true, false, ◌&&◌, ◌||◌, not, Option, some, List, [], ◌∷◌, Bytes, codes,
  is_empty, drop, find, get_or,
}
use cpp_npl.Ftp.State.{Phase, DcProt, clear, Command, Client, Result, ok, fault, ◌>>=◌}
use cpp_npl.Ftp.Commands.{
  is_transfer_command, is_pasv, is_null, upload, download, list_directory, get_current_dir,
  set_current_dir, create_dir, remove_dir, quit, set_credentials,
}
use cpp_npl.Ftp.Transfer.{
  is_stor, is_list, scan_pasv, trigger_data_transfer, on_data_channel_connect,
  on_data_channel_write, on_data_channel_read, on_data_channel_disconnect, on_file_read,
  on_file_write, on_file_disconnect,
}
use cpp_npl.Ftp.Machine.{on_reply, on_connect, on_cc_handshake}

pub data Event : Type 0 where
  upload_call download_call : Option ℕ → Bytes → Bytes → DcProt → Event
  list_call : Option ℕ → Bytes → DcProt → Event
  pwd_call quit_call : Option ℕ → Event
  cwd_call mkd_call rmd_call : Bytes → Option ℕ → Event
  credentials : Bytes → Bytes → Event
  connects handshaken : Event
  reply : Bytes → Event
  data_connects data_disconnects data_handshaken : Event
  data_read file_read : Bool → Bytes → Event
  data_written file_written : Bytes → Event
  file_disconnects : Event
  -- From here on reads of the local file give a context, or they do not.
  read_turns : Bool → Event

unfoldable pub step : Event → Client → Result
step (upload_call sink remote local p) c = upload sink remote local p c
step (download_call sink remote local p) c = download sink remote local p c
step (list_call sink remote p) c = list_directory sink remote p c
step (pwd_call cbk) c = ok (get_current_dir cbk c)
step (quit_call cbk) c = ok (quit cbk c)
step (cwd_call dir cbk) c = ok (set_current_dir dir cbk c)
step (mkd_call dir cbk) c = ok (create_dir dir cbk c)
step (rmd_call dir cbk) c = ok (remove_dir dir cbk c)
step (credentials user pass) c = ok (set_credentials user pass c)
step connects c = ok (on_connect c)
step handshaken c = ok (on_cc_handshake c)
step (reply text) c = on_reply text c
step data_connects c = on_data_channel_connect c
step data_disconnects c = on_data_channel_disconnect c
step data_handshaken c = trigger_data_transfer c
step (data_read answer b) c = on_data_channel_read answer b c
step (file_read answer b) c = on_file_read answer b c
step (data_written b) c = on_data_channel_write b c
step (file_written b) c = on_file_write b c
step file_disconnects c = on_file_disconnect c
step (read_turns works) c = ok (record c { read_works = works })

unfoldable pub run : List Event → Client → Result
run [] c = ok c
run (e ∷ es) c = step e c >>= run es

-- The commands of the queue in an order that the transfers survive: a transfer command exactly
-- behind each PASV. `due` says that one is due. An upload names a file, a listing does not.
abbrev pub agree : Bool → Bool → Bool
agree true b = b
agree false b = not b

abbrev pub well_formed : Command → Bool
well_formed cmd =
    (not (is_stor cmd.verb) || not (is_empty cmd.local))
    && (not (is_list cmd.verb) || is_empty cmd.local)

abbrev pub plan : Bool → List Command → Bool
plan due [] = not due
plan due (cmd ∷ q) =
    agree due (is_transfer_command cmd.verb) && well_formed cmd && plan (is_pasv cmd.verb) q

abbrev pub starts_pasv : List Command → Bool
starts_pasv [] = false
starts_pasv (cmd ∷ q) = is_pasv cmd.verb

abbrev pub has_local : List Command → Bool
has_local [] = false
has_local (cmd ∷ q) = not (is_empty cmd.local)

abbrev pub in_front_stor : List Command → Bool
in_front_stor [] = false
in_front_stor (cmd ∷ q) = is_stor cmd.verb

-- What holds of a client between two events, for each value of `iProtocolState`.
abbrev pub IsIdle : Client → Type 0
IsIdle c =
    (c.cmd_in_progress ≡ false)
    × (c.cmd_q ≡ [])
    × (c.data_channel ≡ false)
    × (c.file_device ≡ false)

abbrev pub InPasv : Client → Type 0
InPasv c =
    (c.cmd_in_progress ≡ true)
    × (plan false c.cmd_q ≡ true)
    × (starts_pasv c.cmd_q ≡ true)
    × (c.data_channel ≡ false)
    × (c.file_device ≡ false)

abbrev pub InGeneral : Client → Type 0
InGeneral c =
    (c.cmd_in_progress ≡ true)
    × (plan false c.cmd_q ≡ true)
    × (starts_pasv c.cmd_q ≡ false)
    × (is_empty c.cmd_q ≡ false)
    × (c.data_channel ≡ false)
    × (c.file_device ≡ false)

-- A transfer command is sent; `file` and `channel` are what is open.
abbrev pub InTransfer : Bool → Bool → Client → Type 0
InTransfer channel file c =
    (c.cmd_in_progress ≡ true)
    × (plan true c.cmd_q ≡ true)
    × (c.data_channel ≡ channel)
    × (c.file_device ≡ file)

abbrev pub Outside : Client → Type 0
Outside c =
    (plan false c.cmd_q ≡ true)
    × (c.cmd_in_progress ≡ false → c.cmd_q ≡ [])
    × (c.data_channel ≡ false)
    × (c.file_device ≡ false)

abbrev pub Shape : Phase → Client → Type 0
Shape Phase.pasv c = InPasv c
Shape Phase.gen c = InGeneral c
Shape Phase.transfer c = IsIdle c ⊎ InTransfer true false c
Shape Phase.prelim c = InTransfer c.data_channel (c.data_channel && has_local c.cmd_q) c
Shape Phase.final c = IsIdle c ⊎ InTransfer true (has_local c.cmd_q) c
Shape _ c = Outside c

abbrev pub Inv : Client → Type 0
Inv c = Shape c.phase c

-- What the surroundings keep to. The calls meet the asserted conditions. The control connection
-- opens once, and the handshake that is asked for ends once. The server says nothing more while
-- nothing is asked of it after a transfer, and an accepted PASV gives an address. The data channel
-- and the file report only while they are set, and the data channel's bytes and its end come behind the
-- preliminary reply. Where an upload reads its local file, the read gives a context.
abbrev pub IsOpening : Phase → Type 0
IsOpening Phase.connecting = Unit {0}
IsOpening _ = ⊥

abbrev pub IsShaking : Phase → Type 0
IsShaking Phase.tls = Unit {0}
IsShaking _ = ⊥

abbrev pub IsMoving : Phase → Type 0
IsMoving Phase.prelim = Unit {0}
IsMoving Phase.final = Unit {0}
IsMoving _ = ⊥

abbrev pub HasAddress : Bytes → Type 0
HasAddress text =
    (at : ℕ) × (ns : List ℕ) × (find (codes "(") text ≡ some at)
    × (scan_pasv (drop at text) ≡ some ns)

abbrev pub CanRead : Client → Type 0
CanRead c = in_front_stor c.cmd_q ≡ true → c.read_works ≡ true

abbrev pub Expected : Phase → Bytes → Client → Type 0
Expected Phase.transfer text c =
    (c.cmd_in_progress ≡ true) × (get_or text 0 0 ≡ b'1' → c.dc_prot ≡ clear → CanRead c)
Expected Phase.pasv text c = get_or text 0 0 ≡ b'2' → HasAddress text
Expected _ text c = Unit {0}

abbrev pub Enabled : Event → Client → Type 0
Enabled (upload_call sink remote local p) c = (is_empty remote ≡ false) × (is_empty local ≡ false)
Enabled (download_call sink remote local p) c =
    (is_empty remote ≡ false) × (is_null sink && is_empty local ≡ false)
Enabled (list_call sink remote p) c = is_null sink ≡ false
Enabled connects c = IsOpening c.phase
Enabled handshaken c = IsShaking c.phase
Enabled (reply text) c = Expected c.phase text c
Enabled data_connects c = c.data_channel ≡ true
Enabled (data_written b) c = c.data_channel ≡ true
Enabled data_disconnects c = IsMoving c.phase × (c.data_channel ≡ true)
Enabled data_handshaken c = IsMoving c.phase × (c.data_channel ≡ true) × CanRead c
Enabled (data_read answer b) c = IsMoving c.phase × (c.data_channel ≡ true)
Enabled (file_read answer b) c =
    (c.data_channel ≡ true) × (c.file_device ≡ true) × (c.read_works ≡ true)
Enabled file_disconnects c = (c.data_channel ≡ true) × (c.file_device ≡ true)
Enabled _ c = Unit {0}

-- A step that is taken and keeps the invariant.
abbrev pub Safe : Result → Type 0
Safe (ok c) = Inv c
Safe (fault f) = ⊥
