-- ===== src/Factory.antt =====
-- The functions of npl.hpp that construct objects and connect them with each other.
pub mod Connected
mod Tests
use cpp_npl.Base.{if◌then◌else◌, ℕ, Bool, true, false, Option, none, some, Bytes, codes}
use cpp_npl.Subject.{plain, derived, new_subject, set_property, World, change, add_event_listener}
use cpp_npl.Dispatcher.{Ran, done, ran_then}
use cpp_npl.Dispatcher.Control.{add_device}
use cpp_npl.Device.{DeviceType}
use cpp_npl.Ftp.State.{Tls}

-- What a socket and a protocol were told before they were connected.
pub record Settings : Type 0 where
  pub host : Bytes
  pub port : ℕ
  pub tls : Tls
  -- Whether the user's callback is set.
  pub client_callback : Bool

-- `std::make_shared` of a subject at the address `i`, and its `SetProperty("name", ...)`.
unfoldable pub named_subject : Bytes → ℕ → World → World
unfolding set_property
named_subject name i w =
    change i
      (λ s. record (new_subject derived) {
        properties = set_property (codes "name") name (new_subject derived).properties;
      })
      w

-- `D->AddEventListener(sock)->AddEventListener(p)`; `added` is whether `epoll_ctl` succeeds.
unfoldable pub connected_to : ℕ → ℕ → ℕ → Bool → World → Ran
unfolding add_device
connected_to d sock p added w =
    ran_then (add_device d sock (some DeviceType.socket) added w)
      (λ v. done (add_event_listener sock p v))

module _ (d sock p : ℕ) (added : Bool) where
  -- `make_ftp`.
  unfoldable pub make_ftp : Bytes → ℕ → Tls → World → Settings × Ran
  unfolding named_subject connected_to
  make_ftp host port tls w = (
    record { host = host; port = port; tls = tls; client_callback = false },
    connected_to d sock p added
        (named_subject (codes "ftp-protocol") p (named_subject (codes "ftp-socket") sock w)),
  )

  -- `make_ws_server`.
  unfoldable pub make_ws_server : Bytes → ℕ → Tls → Bool → World → Settings × Ran
  unfolding named_subject connected_to
  make_ws_server host port tls callback w = (
    record { host = host; port = port; tls = tls; client_callback = callback },
    connected_to d sock p added
        (named_subject (codes "ws-lso") p (named_subject (codes "ws-cc") sock w)),
  )

  -- `make_http_client`.
  unfoldable pub make_http_client : Bytes → ℕ → World → Settings × Ran
  unfolding named_subject connected_to
  make_http_client host port w = (
    record { host = host; port = port; tls = Tls.no_tls; client_callback = false },
    connected_to d sock p added
        (named_subject (codes "http-protocol") p (named_subject (codes "http-socket") sock w)),
  )

-- `make_file`: a device that could not be opened is let go again.
unfoldable pub make_file : ℕ → ℕ → Bool → World → Option ℕ × Ran
unfolding add_device
make_file d f opened w =
    if opened
    then (
      some f,
      add_device d f (some DeviceType.file) true
          (change f (λ s. record (new_subject plain) { connected = true }) w),
    )
    else (none, done w)
