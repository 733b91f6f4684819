-- ===== src/Socket/Overlapped.antt =====
-- CDeviceSocket (INCLUDE/CDeviceSocket.hpp) on Windows: accepts, connects and reads are started, and
-- their completions call the handlers, which start the next.
use cpp_npl.Base.{ℕ, ◌+◌, Bool, ◌&&◌, Option, Bytes, if◌then◌else◌}
use cpp_npl.Device.{Kernel, Outcome, went, failed, ◌>>=◌}
use cpp_npl.Socket.{Engine, Socket}
use cpp_npl.Socket.Events.{on_accept, on_connect, on_read, start_socket_client, start_socket_server}

-- What `ConnectEx` answers.
pub data Connecting : Type 0 where
  at_once pending refused : Connecting

module _ (K : Kernel) (E : Engine) where
  -- A socket, and how many requests of each kind the system has taken and not completed.
  pub record Asking : Type 0 where
    pub socket : Socket K E
    pub reads : ℕ
    pub accepts : ℕ
    pub connects : ℕ

  abbrev pub idle : Socket K E → Asking
  idle s = record { socket = s; reads = 0; accepts = 0; connects = 0 }

  -- `CDevice::Read`; `taken` is whether the system takes the request.
  unfoldable pub read_more : Bool → Asking → Asking
  read_more taken a = if a.socket.connected && taken then record a { reads = a.reads + 1 } else a

  -- `AcceptNewConnection`. The result of `AcceptEx` is not looked at.
  unfoldable pub accept_new_connection : Bool → Asking → Asking
  accept_new_connection taken a = if taken then record a { accepts = a.accepts + 1 } else a

  unfoldable pub serve_overlapped : Bool → Bool → Bool → Asking → Outcome Asking
  unfolding start_socket_server accept_new_connection
  serve_overlapped bound listens taken a = start_socket_server K E bound listens a.socket >>= λ s.
      went (accept_new_connection taken (record a { socket = s }))

  unfoldable pub connect_overlapped : Bool → Asking → Outcome Asking
  unfolding on_connect read_more
  connect_overlapped taken a =
      on_connect K E a.socket >>= λ s. went (read_more taken (record a { socket = s }))

  unfoldable pub connect_ex : Bool → Connecting → Asking → Outcome Asking
  unfolding connect_overlapped
  connect_ex taken at_once a = connect_overlapped taken a
  connect_ex taken pending a = went (record a { connects = a.connects + 1 })
  connect_ex taken refused a = went a

  -- `StartSocketClient`: the socket is bound to any port first.
  unfoldable pub start_overlapped : Bool → Bool → Connecting → Asking → Outcome Asking
  unfolding start_socket_client connect_ex
  start_overlapped bound taken how a = start_socket_client K E a.socket >>= λ s.
      if bound then connect_ex taken how (record a { socket = s }) else failed

  -- `OnAccept`: the new socket reads, and the listening one accepts again.
  unfoldable pub accept_overlapped :
      Option ℕ → K.State → Bool → Bool → Asking → Outcome (Asking × Asking)
  unfolding on_accept read_more accept_new_connection
  accept_overlapped dispatcher k taken more a = on_accept K E dispatcher k a.socket >>= λ (d, n, s).
      went (read_more taken (idle n), accept_new_connection more (record a { socket = s }))

  -- `OnRead`: the next read is started before the bytes are looked at.
  unfoldable pub receive_overlapped :
      ℕ → ℕ → (Socket K E → Outcome (Socket K E)) → Bytes → Bool → Asking → Outcome Asking
  unfolding on_read read_more
  receive_overlapped rounds depth on_handshake b taken a =
      let p = read_more taken a in
      on_read K E rounds depth on_handshake b p.socket >>= λ s. went (record p { socket = s })
