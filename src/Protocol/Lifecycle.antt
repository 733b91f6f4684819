-- ===== src/Protocol/Lifecycle.antt =====
-- `StartClient`, `StartServer`, `Stop` and `OnConnect` of CProtocol (INCLUDE/CProtocol.hpp), over the
-- socket that is its target.
use cpp_npl.Base.{ℕ, suc, Bool, Option, none, some, Bytes, codes, if◌then◌else◌}
use cpp_npl.Device.{Kernel, Outcome, went, ◌>>=◌}
use cpp_npl.Socket.{Engine, Socket, stop_socket}
use cpp_npl.Socket.Events.{start_socket_client, start_socket_server}

module _ (K : Kernel) (E : Engine) where
  -- The part of the object that these methods use. The target is `none` where there is none or it is
  -- no socket; `called` counts the calls of the user's function.
  pub record Link : Type 0 where
    pub target : Option (Socket K E)
    pub connect_cbk : Bool
    pub called : ℕ
    pub protocol_state : Bytes

  -- A call on the socket that `GetTargetSocketDevice` gives, if it gives one.
  abbrev pub on_target :
      (Socket K E → Outcome (Socket K E)) → Link → Option (Socket K E) → Outcome Link
  on_target f p none = went p
  on_target f p (some s) = f s >>= λ t. went (record p { target = some t })

  unfoldable pub start_client : Bool → Link → Outcome Link
  unfolding start_socket_client
  start_client cbk p = on_target (start_socket_client K E) (record p { connect_cbk = cbk }) p.target

  unfoldable pub start_server : Bool → Bool → Link → Outcome Link
  unfolding start_socket_server
  start_server bound listens p = on_target (start_socket_server K E bound listens) p p.target

  unfoldable pub stop : ℕ → ℕ → Link → Outcome Link
  unfolding stop_socket
  stop rounds depth p = on_target (stop_socket K E rounds depth) p p.target

  unfoldable pub on_connect : Link → Link
  on_connect p = record p {
    called = if p.connect_cbk then suc p.called else p.called;
    protocol_state = codes "CONNECTED";
  }
