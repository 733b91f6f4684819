-- ===== src/Dispatcher/Control.antt =====
-- How contexts reach the worker of CDispatcher (INCLUDE/CDispatcher.hpp) besides epoll: the
-- connection of the dispatcher with itself that `InitializeControl` makes, `QueuePendingContext`,
-- which writes a context to it, and the listener that puts the bytes together again. Then
-- `AddEventListener`, and the loop of the worker.
use cpp_npl.Base.{
  ◌≡◌, ℕ, Bool, false, Option, none, some, List, [], ◌∷◌, ◌++◌, Bytes, length, ◌==◌, if◌then◌else◌,
}
use cpp_npl.Subject.{World, add_event_listener}
use cpp_npl.Dispatcher.{Context, Classes, Events, Ran, done, assertion, ran_then, process_context}
use cpp_npl.Device.{DeviceType}

-- The bytes of a `Context` in memory, with its key `k`, and what they hold.
pub record Layout : Type 0 where
  pub size : ℕ
  pub image : ℕ → Context → Bytes
  pub key : Bytes → ℕ
  pub context : Bytes → Context

-- That the bytes of a context with its key hold what was put there, the buffer that it points to
-- included.
pub record IsImage (y : Layout) (k : ℕ) (c : Context) : Type 0 where
  pub width : length (y.image k c) ≡ y.size
  pub key-image : y.key (y.image k c) ≡ k
  pub context-image : y.context (y.image k c) ≡ c

-- The listener of the accepted end: `m`, and what the handling of contexts has come to.
pub record Gathering (A : Type 0) : Type 0 where
  pub m : Bytes
  pub state : A

module _ {A : Type 0} (size : ℕ) (process : Bytes → A → A) where
  -- The listener's `OnRead`.
  unfoldable pub on_control_read : Bytes → Gathering A → Gathering A
  on_control_read b g =
      if length (g.m ++ b) == size
      then record { m = []; state = process (g.m ++ b) g.state }
      else record g { m = g.m ++ b }

  -- The reads of the connection, one after the other.
  unfoldable pub on_control_reads : List Bytes → Gathering A → Gathering A
  unfolding on_control_read
  on_control_reads [] g = g
  on_control_reads (b ∷ bs) g = on_control_reads bs (on_control_read b g)

-- `QueuePendingContext`: what is written to the dispatcher's own connection.
unfoldable pub queue_pending_context : Layout → ℕ → Context → Bytes
queue_pending_context y k c = y.image k c

abbrev pub no_events : Events
no_events = record { can_write = false; can_read = false }

module _ (classes : Classes) (depth d : ℕ) where
  -- The call of `ProcessContext` with the context that was put together.
  unfoldable pub process_image : Layout → Bytes → Ran → Ran
  process_image y m r =
      ran_then r (process_context classes depth d (y.key m) (some (y.context m)) no_events)

  -- The loop of `Worker`, over what `epoll_wait` gives: the key of a device and its events.
  unfoldable pub worker : List (ℕ × Events) → World → Ran
  worker [] w = done w
  worker ((k, e) ∷ es) w = ran_then (process_context classes depth d k none e w) (worker es)

-- `AddEventListener` of the dispatcher: `type` is the device's type, `none` where the observer is no
-- device and a null pointer is read; `added` is whether `epoll_ctl` succeeds.
abbrev registered : Option DeviceType → Bool → World → Ran
registered none added w = assertion
registered (some DeviceType.socket) added w = if added then done w else assertion
registered (some _) added w = done w

unfoldable pub add_device : ℕ → ℕ → Option DeviceType → Bool → World → Ran
add_device d o type added w = registered type added (add_event_listener d o w)
