-- ===== src/Socket/Events.antt =====
-- The handlers of CDeviceSocket (INCLUDE/CDeviceSocket.hpp), on Linux.
use cpp_npl.Base.{
  ℕ, zero, suc, Bool, true, false, not, ◌||◌, Option, none, some, [], ◌++◌, Bytes, is_empty, ◌==◌,
  if◌then◌else◌,
}
use cpp_npl.Device.{Kernel, Outcome, went, failed, exhausted, ◌>>=◌, read_fd, device_buffer_size}
use cpp_npl.Dispatcher.{Io, Context}
use cpp_npl.Subject.{connect, disconnect, accept, read, write}
use cpp_npl.Socket.{Engine, SocketType, Socket, tell, is_client, is_listening, update_wbio}

module _ (E : Engine) where
  -- The loop of `OnRead` over `SSL_read`, for at most so many rounds.
  unfoldable pub read_all : ℕ → E.State → Outcome (Bytes × E.State)
  read_all zero e = exhausted
  read_all (suc rounds) e = elim ((E.read device_buffer_size e).0) [
    | none ↦ went ([], (E.read device_buffer_size e).1)
    | some b ↦ read_all rounds (E.read device_buffer_size e).1 >>= λ (m, e'). went (b ++ m, e')
  ]

module _ (K : Kernel) (E : Engine) where
  -- `OnRead` once `rbio` holds the bytes: the handshake goes on until it is done.
  abbrev pub shaken :
      (Socket K E → Outcome (Socket K E)) → Bool × E.State → Socket K E → Outcome (Socket K E)
  shaken on_handshake (false, e) s = went (record s { ssl = some e })
  shaken on_handshake (true, e) s = on_handshake (record s { ssl = some e; handshake_done = true })

  abbrev pub shake :
      (Socket K E → Outcome (Socket K E)) → E.State → Socket K E → Outcome (Socket K E)
  shake on_handshake e s =
      if s.handshake_done
      then went (record s { ssl = some e })
      else shaken on_handshake (E.do_handshake e) s

  -- What `SSL_read` gives, once the handshake is done.
  abbrev pub decrypt : ℕ → Socket K E → Option E.State → Outcome (Bytes × Socket K E)
  decrypt rounds s none = failed
  decrypt rounds s (some e) =
      if s.handshake_done
      then (read_all E rounds e >>= λ (m, e'). went (m, record s { ssl = some e' }))
      else went ([], s)

  -- `CDevice::OnRead` with what was decrypted, if that is anything.
  abbrev pub hand_on : Bytes → Socket K E → Socket K E
  hand_on m s = if is_empty m then s else tell K E (read m) s

  abbrev pub on_read_tls :
      ℕ
      → ℕ
      → (Socket K E → Outcome (Socket K E))
      → Bool × E.State
      → Socket K E
      → Outcome (Socket K E)
  on_read_tls rounds depth on_handshake (false, e) s = failed
  on_read_tls rounds depth on_handshake (true, e) s = shake on_handshake e s >>= λ t.
      decrypt rounds t t.ssl >>= λ (m, u).
      update_wbio K E rounds depth u >>= λ v. went (hand_on m v)

  abbrev pub on_read_with :
      ℕ
      → ℕ
      → (Socket K E → Outcome (Socket K E))
      → Bytes
      → Socket K E
      → Option E.State
      → Outcome (Socket K E)
  on_read_with rounds depth on_handshake b s none = went (tell K E (read b) s)
  on_read_with rounds depth on_handshake b s (some e) =
      on_read_tls rounds depth on_handshake (E.bio_write b e) s

  -- `OnRead`; `on_handshake` is `iOnHandShake`, which may use the socket.
  unfoldable pub on_read :
      ℕ → ℕ → (Socket K E → Outcome (Socket K E)) → Bytes → Socket K E → Outcome (Socket K E)
  on_read rounds depth on_handshake b s = on_read_with rounds depth on_handshake b s s.ssl

  -- `OnWrite`: `SSL_do_handshake` again while the handshake is not done.
  abbrev on_write_with : Bytes → Socket K E → Option E.State → Socket K E
  on_write_with b s none = tell K E (write b) s
  on_write_with b s (some e) =
      if s.handshake_done
      then tell K E (write b) s
      else record s { ssl = some (E.do_handshake e).1 }

  unfoldable pub on_write : Bytes → Socket K E → Socket K E
  on_write b s = on_write_with b s s.ssl

  -- `OnConnect`.
  unfoldable pub on_connect : Socket K E → Outcome (Socket K E)
  on_connect s =
      if is_client s.type then went (tell K E connect (record s { connected = true })) else failed

  -- `OnDisconnect`.
  abbrev said_goodbye : Option E.State → Bool
  said_goodbye none = true
  said_goodbye (some e) = E.sent_shutdown e

  unfoldable pub on_disconnect : Socket K E → Outcome (Socket K E)
  on_disconnect s =
      if said_goodbye s.ssl
      then went (tell K E disconnect (record s { connected = false }))
      else failed

  -- The socket that `OnAccept` makes for the accepted descriptor, and `OnAccept`.
  abbrev pub accepted_socket : K.State → Socket K E
  accepted_socket k = record {
    fd = k;
    connected = true;
    type = SocketType.accepted;
    host = [];
    port = 0;
    stopped = false;
    ssl = none;
    handshake_done = false;
    told = [];
  }

  -- `dispatcher` is what `GetDispatcher` gives, a null pointer for `none`; the results are the one to
  -- which the new socket is added, the new socket, and the listening one, whose observers are told.
  unfoldable pub on_accept : Option ℕ → K.State → Socket K E → Outcome (ℕ × Socket K E × Socket K E)
  on_accept dispatcher k s =
      if is_listening s.type
      then elim dispatcher [
        | none ↦ failed
        | some d ↦ went (d, accepted_socket k, tell K E accept s)
      ]
      else failed

  -- `Read`: a listening socket accepts, and any other reads.
  abbrev accepting : Socket K E → Bool × K.State → Option Context × Socket K E
  accepting s (false, k) = (none, record s { fd = k })
  accepting s (true, k) = (some (record { type = Io.accepted; bytes = [] }), record s { fd = k })

  abbrev reading : Socket K E → Option Context × K.State → Option Context × Socket K E
  reading s (c, k) = (c, record s { fd = k })

  unfoldable pub read_socket : Option ℕ → ℕ → Socket K E → Option Context × Socket K E
  unfolding read_fd
  read_socket size offset s =
      if is_listening s.type
      then accepting s (K.accept s.fd)
      else (if s.connected then reading s (read_fd K size offset s.fd) else (none, s))

  -- `StartSocketClient` and `StartSocketServer`, up to the system calls that make the connection.
  unfoldable pub start_socket_client : Socket K E → Outcome (Socket K E)
  start_socket_client s =
      if is_empty s.host || s.port == 0
      then failed
      else went (record s { type = SocketType.client })

  unfoldable pub start_socket_server : Bool → Bool → Socket K E → Outcome (Socket K E)
  start_socket_server bound listens s =
      if s.port == 0 || not bound || not listens
      then failed
      else went (record s { type = SocketType.listening })
