-- ===== src/Ftp/Stuck.antt =====
-- A client of CProtocolFTP (INCLUDE/CProtocolFTP.hpp) whose login needed no password: it stays busy.
use cpp_npl.Base.{◌≡◌, true, false, ◌&&◌, List, [], ◌∷◌, is_empty}
use cpp_npl.Ftp.State.{Phase, Effect, Client}
use cpp_npl.Ftp.Commands.{is_null}
use cpp_npl.Ftp.Session.{
  Event, upload_call, download_call, list_call, pwd_call, quit_call, cwd_call, mkd_call, rmd_call,
  credentials, reply,
}

-- What the user may call, with arguments that the assertions accept, and the server may say, once the
-- client is ready.
abbrev pub IsLater : Event → Type 0
IsLater (upload_call sink remote local p) = (is_empty remote ≡ false) × (is_empty local ≡ false)
IsLater (download_call sink remote local p) =
    (is_empty remote ≡ false) × (is_null sink && is_empty local ≡ false)
IsLater (list_call sink remote p) = is_null sink ≡ false
IsLater (pwd_call cbk) = Unit {0}
IsLater (quit_call cbk) = Unit {0}
IsLater (cwd_call dir cbk) = Unit {0}
IsLater (mkd_call dir cbk) = Unit {0}
IsLater (rmd_call dir cbk) = Unit {0}
IsLater (credentials user pass) = Unit {0}
IsLater (reply text) = Unit {0}
IsLater _ = ⊥

abbrev pub AllLater : List Event → Type 0
AllLater [] = Unit {0}
AllLater (e ∷ es) = IsLater e × AllLater es

-- Ready, and marked as busy: what the client has asked for until now are the effects.
abbrev pub IsStuck : List Effect → Client → Type 0
IsStuck es c = (c.phase ≡ Phase.ready) × (c.cmd_in_progress ≡ true) × (c.effects ≡ es)
