-- ===== src/Socket/Tests.antt =====
-- Runs of CDeviceSocket (INCLUDE/CDeviceSocket.hpp) over a connection written out: a kernel that
-- keeps what is sent, and an engine that does not encrypt.
use cpp_npl.Base.{
  ℕ, ltb, ◌≡◌, refl, Bool, true, false, Option, none, some, [], ◌∷◌, ◌++◌, Bytes, codes, length,
  take, drop, is_empty, if◌then◌else◌, arith,
}
use cpp_npl.Device.{Kernel, went, failed, exhausted, ◌>>=◌}
use cpp_npl.Subject.{read, accept}
use cpp_npl.Socket.{Engine, SocketType, Socket, update_wbio, stop_socket, write_socket}
use cpp_npl.Socket.Events.{on_read}
use cpp_npl.Socket.Overlapped.{idle, serve_overlapped}
use cpp_npl.Socket.Accepting.{◌then_if◌, accepted_all, served, listening, server_goes_on}
use cpp_npl.Socket.Laws.{IsOpenssl, IsStream}
use cpp_npl.Socket.Stop.{refused_goodbye, write_after_stop}
use cpp_npl.Socket.Goodbye.{IsUp, SaidGoodbye, stop_sends_goodbye}
use cpp_npl.Socket.Reading.{IsAnswered, on_read_delivers}

record Line : Type 0 where
  sent : Bytes
  closed : Bool

abbrev kernel : Kernel
kernel = record {
  State = Line;
  open_file = λ name create. none;
  read = λ n k. (some [], k);
  write = λ b k. if k.closed then (none, k) else (some (length b), record k { sent = k.sent ++ b });
  shutdown_send = λ k. record k { closed = true };
  accept = λ k. (false, k);
  seek = λ n k. (false, k);
  read_sync = λ n k. (none, k);
  write_sync = λ b k. (none, k);
}

kernel-IsStream : IsStream kernel
kernel-IsStream = record {
  sent = λ k. k.sent;
  closed = λ k. k.closed;
  write_count = λ b k. ground arith;
  sent-write = λ b k h. ground arith;
  closed-write = λ b k. ground arith;
  sent-shutdown = λ k. refl;
  closed-shutdown = λ k. refl;
}

record Talk : Type 0 where
  out : Bytes
  plain : Bytes
  said : Bool
  heard : Bool

-- Records of one byte each.
abbrev rest_of_record : ℕ → ℕ
rest_of_record n = if ltb 0 n then 1 else 0

-- `works` says whether a goodbye can be sent.
abbrev engine : Bool → Engine
engine works = record {
  State = Talk;
  new_client = record { out = []; plain = []; said = false; heard = false };
  new_server = record { out = []; plain = []; said = false; heard = false };
  do_handshake = λ e. (true, e);
  bio_write = λ b e. (true, record e { plain = e.plain ++ b });
  read = λ n e. (
    (if is_empty e.plain then none else some (take (rest_of_record n) e.plain)),
    record e { plain = drop (rest_of_record n) e.plain },
  );
  write = λ b e. record e { out = e.out ++ b };
  shutdown = λ e. if works then record e { out = e.out ++ 1 ∷ []; said = true } else e;
  sent_shutdown = λ e. e.said;
  received_shutdown = λ e. e.heard;
  pending = λ e. length e.out;
  bio_read = λ n e. (take n e.out, record e { out = drop n e.out });
}

engine-IsOpenssl : (works : Bool) → IsOpenssl (engine works)
engine-IsOpenssl works = record {
  out = λ e. e.out;
  plain = λ e. e.plain;
  pending-out = λ e. refl;
  bio_read_bytes = λ n e. refl;
  out-bio_read = λ n e. refl;
  sent-bio_read = λ n e. refl;
  received-bio_read = λ n e. refl;
  got = λ n e. rest_of_record n;
  some_got = λ n e h. ground arith;
  got_most = λ n e. ground arith;
  read_bytes = λ n e. refl;
  plain-read = λ n e. refl;
}

abbrev talking : Talk
talking = record { out = 7 ∷ []; plain = []; said = false; heard = true }

abbrev up : (works : Bool) → Option Talk → Socket kernel (engine works)
up works t = record {
  fd = record { sent = []; closed = false };
  connected = true;
  type = SocketType.client;
  host = codes "10.0.0.1";
  port = 21;
  stopped = false;
  ssl = t;
  handshake_done = true;
  told = [];
}

up-IsUp :
    IsUp kernel
      (engine true)
      (engine-IsOpenssl true)
      kernel-IsStream
      (up true (some talking))
      talking
unfolding kernel-IsStream
up-IsUp = record { ssl = refl; connected = refl; stopped = refl; closed = refl }

refused_goodbye_example :
    update_wbio kernel (engine false) 9 5 (up false (some talking)) ≡ exhausted
refused_goodbye_example =
    refused_goodbye kernel (engine false) (λ e. refl) (λ e. refl) 9 5 (up false (some talking))
      talking refl refl refl refl

stop_sends_goodbye_example :
    (t : Socket kernel (engine true)) × (stop_socket kernel
        (engine true)
        9
        2
        (up true (some talking))
      ≡ went t)
    × SaidGoodbye kernel
        (engine true)
        (engine-IsOpenssl true)
        kernel-IsStream
        talking
        (up true (some talking))
        t
unfolding engine-IsOpenssl
stop_sends_goodbye_example =
    stop_sends_goodbye kernel (engine true) (engine-IsOpenssl true) kernel-IsStream 9 1
      (up true (some talking)) talking up-IsUp refl refl (omega arith)

write_after_stop_example :
    (stop_socket kernel (engine true) 9 2 (up true none)
      >>= write_socket kernel (engine true) 9 2 (codes "x"))
    ≡ failed
write_after_stop_example =
    write_after_stop kernel (engine true) (engine-IsOpenssl true) kernel-IsStream 9 2 (codes "x")
      (up true none) refl refl refl refl

on_read_delivers_example :
    (rounds : ℕ) × (t : Socket kernel (engine true)) × (on_read kernel
        (engine true)
        rounds
        2
        (λ s. went s)
        (codes "hi")
        (up true (some talking))
      ≡ went t)
    × (t.told ≡ read (codes "hi") ∷ [])
    × IsAnswered kernel (engine true) t
unfolding engine-IsOpenssl
on_read_delivers_example =
    on_read_delivers kernel (engine true) (engine-IsOpenssl true) kernel-IsStream (λ s. went s)
      (codes "hi") (up true (some talking)) talking (record talking { plain = codes "hi" }) up-IsUp
      refl refl (λ k m x r. refl)

-- A socket that has just been made.
abbrev fresh : Socket kernel (engine true)
fresh = record {
  fd = record { sent = []; closed = false };
  connected = false;
  type = SocketType.invalid;
  host = codes "h";
  port = 21;
  stopped = false;
  ssl = none;
  handshake_done = false;
  told = [];
}

abbrev line : Line
line = record { sent = []; closed = false }

server_goes_on_example :
    (serve_overlapped kernel (engine true) true true true (idle kernel (engine true) fresh)
      then_if accepted_all kernel (engine true) 3 (line ∷ line ∷ []))
    ≡ some (
      served kernel (engine true) (line ∷ line ∷ []),
      listening kernel (engine true) fresh (accept ∷ accept ∷ []),
    )
server_goes_on_example = server_goes_on kernel (engine true) 3 (line ∷ line ∷ []) fresh refl
