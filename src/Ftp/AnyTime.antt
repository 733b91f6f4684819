-- ===== src/Ftp/AnyTime.antt =====
-- When a call of CProtocolFTP (INCLUDE/CProtocolFTP.hpp) is made does not matter, as long as a command
-- is in progress.
use cpp_npl.Base.{◌≡◌, refl, sym, ap, ap₂, subst, ◌∙◌, true, Option, some, List, [], ◌∷◌, ◌++◌}
use cpp_npl.Ftp.State.{
  Phase, Tls, explicit, implicit, no_tls, Command, Client, Result, ok, fault, ◌>>=◌,
}
use cpp_npl.Ftp.Transfer.{on_data_channel_write, on_file_write}
use cpp_npl.Ftp.Commands.{channel_tls, process_next_cmd}
use cpp_npl.Ftp.Machine.{on_connect, shake, do_cc_handshake, on_cc_handshake, after_handshake}
use cpp_npl.Ftp.Session.{
  Event, connects, handshaken, reply, data_connects, data_disconnects, data_handshaken, data_read,
  file_read, data_written, file_written, file_disconnects, read_turns, step, run, Inv, Enabled,
}
use cpp_npl.Ftp.Fifo.{next_busy}
use cpp_npl.Ftp.Sockets.{Keeps, run-Keeps}
use cpp_npl.Ftp.Script.{Call, IsCall, call_event, call_lem, pieces_of, queue_all}
use cpp_npl.Ftp.Plan.{transfer_plan}
use cpp_npl.Ftp.Moves.{front}
use cpp_npl.Ftp.Safety.{step_survives, Allowed}
use cpp_npl.Ftp.Opening.{run-append}
use cpp_npl.Ftp.Later.{
  busy, later, stays_later, start_later, front_later, read_later, disconnect_later,
}
use cpp_npl.Ftp.ReplyLater.{IsOnChannel, IsReport, Greeted, reply_later}

by_channel : (e : Event) (c : Client) → IsOnChannel e → Enabled e c → c.data_channel ≡ true
by_channel data_connects c o n = n
by_channel (data_written b) c o n = n
by_channel data_disconnects c o n = n.1
by_channel data_handshaken c o n = n.1
by_channel (data_read answer b) c o n = n.1
by_channel (file_read answer b) c o n = n.0
by_channel file_disconnects c o n = n.0
by_channel (reply text) c o n = absurd o
by_channel _ c o n = absurd o

channel_later :
    (e : Event) (x : Command) (xs q : List Command) (c : Client)
    → IsOnChannel e
    → step e (busy c (x ∷ xs ++ q)) ≡ (step e (busy c (x ∷ xs)) >>= λ d. ok (later q d))
unfolding step on_data_channel_write
channel_later data_connects x xs q c o = (front_later x xs q c).0
channel_later data_handshaken x xs q c o = (front_later x xs q c).1
channel_later file_disconnects x xs q c o = (front_later x xs q c).2
channel_later data_disconnects x xs q c o = disconnect_later x xs q c
channel_later (data_read answer b) x xs q c o = (read_later answer b x xs q c).0
channel_later (file_read answer b) x xs q c o = (read_later answer b x xs q c).1
channel_later (data_written b) x xs q c o = stays_later (x ∷ xs) q c
channel_later _ x xs q c o = absurd o

shake-later :
    (t : Tls) (qs q : List Command) (c : Client)
    → shake t (busy c (qs ++ q)) ≡ later q (shake t (busy c qs))
unfolding shake do_cc_handshake process_next_cmd
shake-later no_tls qs q c = refl
shake-later explicit qs q c = refl
shake-later implicit qs q c = start_later c.socket qs q c

handshaken_later :
    (t : Tls) (qs q : List Command) (c : Client)
    → after_handshake t (busy c (qs ++ q)) ≡ later q (after_handshake t (busy c qs))
unfolding after_handshake process_next_cmd
handshaken_later no_tls qs q c = refl
handshaken_later explicit qs q c = refl
handshaken_later implicit qs q c = refl

as_busy :
    (e : Event) (q qs : List Command) (c : Client)
    → c.cmd_in_progress ≡ true
    → c.cmd_q ≡ qs
    → step e (busy c (qs ++ q)) ≡ (step e (busy c qs) >>= λ d. ok (later q d))
    → step e (record c { cmd_q = c.cmd_q ++ q }) ≡ (step e c >>= λ d. ok (later q d))
as_busy e q qs c b l h =
    ap₂ (λ i l. step e (record c { cmd_in_progress = i; cmd_q = l ++ q })) b l
    ∙ h
    ∙ sym (
        ap₂ (λ i l. step e (record c { cmd_in_progress = i; cmd_q = l }) >>= λ d. ok (later q d)) b
          l)

on_channel :
    (e : Event) (q : List Command) (c : Client)
    → IsOnChannel e
    → Inv c
    → Enabled e c
    → c.cmd_in_progress ≡ true
    → step e (record c { cmd_q = c.cmd_q ++ q }) ≡ (step e c >>= λ d. ok (later q d))
on_channel e q c o s n b =
    let (x, rest, l, _) = transfer_plan c.cmd_q (front c.phase c s (by_channel e c o n)) in
    as_busy e q (x ∷ rest) c b l (channel_later e x rest q c o)

-- A report of the sockets, of the server or of the file, on a client that is busy.
report_later :
    (e : Event) (q : List Command) (c : Client)
    → IsReport e
    → Inv c
    → Enabled e c
    → Greeted e c
    → c.cmd_in_progress ≡ true
    → step e (record c { cmd_q = c.cmd_q ++ q }) ≡ (step e c >>= λ d. ok (later q d))
unfolding step on_connect on_cc_handshake on_file_write
report_later (reply text) q c r s n g b = reply_later text q c s b g
report_later connects q c r s n g b =
    as_busy connects q c.cmd_q c b refl
      (ap ok (shake-later (channel_tls c) c.cmd_q q (record c { phase = Phase.connected })))
report_later handshaken q c r s n g b =
    as_busy handshaken q c.cmd_q c b refl (ap ok (handshaken_later (channel_tls c) c.cmd_q q c))
report_later (file_written d) q c r s n g b =
    as_busy (file_written d) q c.cmd_q c b refl (stays_later c.cmd_q q c)
report_later (read_turns works) q c r s n g b =
    as_busy (read_turns works) q c.cmd_q c b refl
      (stays_later c.cmd_q q (record c { read_works = works }))
report_later data_connects q c r s n g b = on_channel data_connects q c tt s n b
report_later data_disconnects q c r s n g b = on_channel data_disconnects q c tt s n b
report_later data_handshaken q c r s n g b = on_channel data_handshaken q c tt s n b
report_later (data_read a d) q c r s n g b = on_channel (data_read a d) q c tt s n b
report_later (file_read a d) q c r s n g b = on_channel (file_read a d) q c tt s n b
report_later (data_written d) q c r s n g b = on_channel (data_written d) q c tt s n b
report_later file_disconnects q c r s n g b = on_channel file_disconnects q c tt s n b
report_later _ q c r s n g b = absurd r

-- Reports, before each of which a command is in progress, and none of which refuses the login.
abbrev pub AllReports : List Event → Result → Type 0
AllReports es (fault f) = Unit {0}
AllReports [] (ok c) = Unit {0}
AllReports (e ∷ es) (ok c) =
    IsReport e × Greeted e c × (c.cmd_in_progress ≡ true) × AllReports es (step e c)

all_later :
    (es : List Event) (q : List Command) (c : Client)
    → Inv c
    → Allowed es (ok c)
    → AllReports es (ok c)
    → run es (later q c) ≡ (run es c >>= λ d. ok (later q d))
unfolding run
all_later [] q c s a h = refl
all_later (e ∷ es) q c s (n, a) (r, g, b, h) =
    let (d, same, i) = step_survives e c s n in
    ap (λ x. step e x >>= run es) (next_busy (record c { cmd_q = c.cmd_q ++ q }) b)
    ∙ ap (λ x. x >>= run es) (report_later e q c r s n g b)
    ∙ ap (λ x. x >>= (λ d. ok (later q d)) >>= run es) same
    ∙ all_later es q d i (subst (Allowed es) same a) (subst (AllReports es) same h)
    ∙ ap (λ x. x >>= run es >>= λ d. ok (later q d)) (sym same)

same_behind :
    (s : Option Tls) (r : Result) (f g : Client → Result)
    → Keeps s r
    → ((d : Client) → d.socket ≡ s → f d ≡ g d)
    → (r >>= f) ≡ (r >>= g)
same_behind s (ok d) f g h e = e d h
same_behind s (fault k) f g h e = refl

-- It makes no difference when a call is made while a command is in progress. The call is Upload,
-- Download, ListDirectory, GetCurrentDir, SetCurrentDir, CreateDir, RemoveDir or Quit, with a callback
-- or, where it may be null, without one, and with arguments that its assertions accept; the client's
-- target leads to a socket. Made before any number of reports of the server, the sockets and the file,
-- which the surroundings may give, or behind them, the call leads to the same client, with the same
-- lines sent and the same callbacks told, in the same order. Before each of the reports a command is
-- in progress; behind the last none need be. No reply to PASS refuses the login, which would clear
-- the queue.
pub call_at_any_time :
    (t : Tls) (x : Call) (es : List Event) (c : Client)
    → IsCall x
    → c.socket ≡ some t
    → Inv c
    → Allowed es (ok c)
    → AllReports es (ok c)
    → run (call_event x ∷ es) c ≡ run (es ++ call_event x ∷ []) c
unfolding run
call_at_any_time t x es c i k s a h =
    let q = queue_all (pieces_of t x) in
    ap (λ r. r >>= run es) (call_lem t x c i k)
    ∙ all_later es q c s a h
    ∙ same_behind (some t) (run es c) (λ d. ok (later q d)) (run (call_event x ∷ []))
        (subst (λ o. Keeps o (run es c)) k (run-Keeps es c))
        (λ d e. sym (ap (λ r. r >>= run []) (call_lem t x d i e)))
    ∙ sym (run-append es (call_event x ∷ []) c)
