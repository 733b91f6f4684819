-- ===== src/Socket.antt =====
-- CDeviceSocket (INCLUDE/CDeviceSocket.hpp), on Linux, over the system calls and OpenSSL.
pub mod Events
pub mod Overlapped
pub mod Accepting
pub mod Laws
pub mod Drain
pub mod Stop
pub mod Goodbye
pub mod Reading
mod Tests
use cpp_npl.Base.{
  ℕ, zero, suc, Bool, true, false, not, ◌&&◌, Option, none, some, List, [], ◌∷◌, ◌++◌, Bytes,
  is_empty, ◌==◌, if◌then◌else◌,
}
use cpp_npl.Device.{Kernel, Outcome, went, failed, exhausted, ◌>>=◌, write_fd}
use cpp_npl.Subject.{Notice}

-- OpenSSL, on one connection with a memory BIO on each side. The state is OpenSSL's.
pub record Engine : Type 1 where
  pub State : Type 0
  -- A connection that starts the handshake, or that awaits it.
  pub new_client : State
  pub new_server : State
  -- `SSL_do_handshake`: whether the result is 1.
  pub do_handshake : State → Bool × State
  -- `BIO_write` on `rbio`: whether the result is the length.
  pub bio_write : Bytes → State → Bool × State
  -- `SSL_read` of at most so many bytes: what was read, if the result is positive.
  pub read : ℕ → State → Option Bytes × State
  pub write : Bytes → State → State
  pub shutdown : State → State
  -- The flags of `SSL_get_shutdown`.
  pub sent_shutdown : State → Bool
  pub received_shutdown : State → Bool
  -- `BIO_pending` and `BIO_read` on `wbio`.
  pub pending : State → ℕ
  pub bio_read : ℕ → State → Bytes × State

-- `ESocketType`.
pub data SocketType : Type 0 where
  invalid client listening accepted : SocketType

abbrev pub is_client : SocketType → Bool
is_client SocketType.client = true
is_client _ = false

abbrev pub is_listening : SocketType → Bool
is_listening SocketType.listening = true
is_listening _ = false

abbrev pub bio_buffer_size : ℕ
bio_buffer_size = 32

module _ (K : Kernel) (E : Engine) where
  pub record Socket : Type 0 where
    pub fd : K.State
    pub connected : Bool
    pub type : SocketType
    pub host : Bytes
    pub port : ℕ
    pub stopped : Bool
    pub ssl : Option E.State
    pub handshake_done : Bool
    -- What was told to the observers, the oldest first.
    pub told : List Notice

  abbrev pub tell : Notice → Socket → Socket
  tell e s = record s { told = s.told ++ e ∷ [] }

  abbrev pub with_fd : Socket → Outcome K.State → Outcome Socket
  with_fd s (went k) = went (record s { fd = k })
  with_fd s failed = failed
  with_fd s exhausted = exhausted

  -- `CDevice::Write`.
  abbrev pub device_write : Bytes → Socket → Outcome Socket
  unfolding write_fd
  device_write b s = with_fd s (write_fd K s.connected b s.fd)

  -- The loop of `UpdateWBIO`, for at most so many rounds.
  unfoldable pub drain : ℕ → E.State → Socket → Outcome Socket
  unfolding device_write
  drain zero e s = if E.pending e == 0 then went (record s { ssl = some e }) else exhausted
  drain (suc rounds) e s = elim (E.pending e == 0) [
    | true ↦ went (record s { ssl = some e })
    | false ↦ let (b, e') = E.bio_read bio_buffer_size e in device_write b s >>= drain rounds e'
  ]

  abbrev pub drain_all : ℕ → Socket → Option E.State → Outcome Socket
  unfolding drain
  drain_all rounds s none = failed
  drain_all rounds s (some e) = drain rounds e s

  -- `shutdown(iFD, 1)`, behind what `StopSocket` does for TLS.
  abbrev pub close_sending : Socket → Socket
  close_sending s = record s { stopped = true; fd = K.shutdown_send s.fd }

  -- `SSL_shutdown` and `UpdateWBIO`, unless the flag says that it was sent.
  abbrev pub say_goodbye : (Socket → Outcome Socket) → Socket → Option E.State → Outcome Socket
  say_goodbye update s none = went s
  say_goodbye update s (some e) =
      if E.sent_shutdown e then went s else update (record s { ssl = some (E.shutdown e) })

  -- `StopSocket`, given what `UpdateWBIO` does.
  abbrev pub stop_with : (Socket → Outcome Socket) → Socket → Outcome Socket
  stop_with update s =
      if s.stopped then went s else (say_goodbye update s s.ssl >>= λ t. went (close_sending t))

  -- `CheckPeerSSLShutdown`, given what `StopSocket` does; without TLS it reads a null pointer.
  abbrev pub check_with : (Socket → Outcome Socket) → Socket → Option E.State → Outcome Socket
  check_with stop s none = failed
  check_with stop s (some e) =
      if E.received_shutdown e && not (E.sent_shutdown e) then stop s else went s

  -- `UpdateWBIO`, for at most so many rounds and so many calls of itself within itself.
  unfoldable pub update_wbio : ℕ → ℕ → Socket → Outcome Socket
  unfolding drain
  update_wbio rounds zero s = exhausted
  update_wbio rounds (suc depth) s =
      check_with (stop_with (update_wbio rounds depth)) s s.ssl >>= λ t. drain_all rounds t t.ssl

  unfoldable pub stop_socket : ℕ → ℕ → Socket → Outcome Socket
  unfolding update_wbio
  stop_socket rounds depth s = stop_with (update_wbio rounds depth) s

  -- `CheckPeerSSLShutdown`.
  unfoldable pub check_peer_ssl_shutdown : ℕ → ℕ → Socket → Outcome Socket
  unfolding stop_socket
  check_peer_ssl_shutdown rounds depth s = check_with (stop_socket rounds depth) s s.ssl

  -- `InitializeSSL`; the callback is an argument of `on_read`.
  unfoldable pub initialize_ssl : ℕ → ℕ → Socket → Outcome Socket
  unfolding update_wbio
  initialize_ssl rounds depth s =
      if is_client s.type
      then update_wbio rounds depth (record s { ssl = some (E.do_handshake E.new_client).1 })
      else went (record s { ssl = some E.new_server })

  -- `Write`.
  abbrev pub write_with :
      (Socket → Outcome Socket) → Bytes → Socket → Option E.State → Outcome Socket
  unfolding device_write
  write_with update b s none = device_write b s
  write_with update b s (some e) = update (record s { ssl = some (E.write b e) })

  unfoldable pub write_socket : ℕ → ℕ → Bytes → Socket → Outcome Socket
  unfolding update_wbio
  write_socket rounds depth b s = write_with (update_wbio rounds depth) b s s.ssl
