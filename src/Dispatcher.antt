-- ===== src/Dispatcher.antt =====
-- CDispatcher (INCLUDE/CDispatcher.hpp), on Linux: what the worker does with an event of a device.
pub mod Control
pub mod Queueing
pub mod Setup
pub mod Port
mod Tests
use cpp_npl.Base.{
  ℕ, Bool, true, false, not, ◌&&◌, ◌||◌, Option, none, some, List, [], ◌∷◌, Bytes, is_empty, ◌==◌,
  if◌then◌else◌,
}
use cpp_npl.Subject.{Notice, connect, disconnect, accept, read, write, Subject, World}
use cpp_npl.Subject.Notify.{Overrides, deliver, process_marks}

-- `EIOTYPE`.
pub data Io : Type 0 where
  connected accepted was_read written ioctl : Io

-- `Context`: its kind and the bytes that it points to.
pub record Context : Type 0 where
  pub type : Io
  pub bytes : Bytes

-- What `epoll_wait` reports.
pub record Events : Type 0 where
  pub can_write : Bool
  pub can_read : Bool

-- What the virtual functions of the observers do that their classes define: `Read`, and the handlers
-- of the classes that have their own (Socket/Events models those of CDeviceSocket).
pub record Classes : Type 0 where
  pub receive : ℕ → World → Option Context
  pub own : Overrides

-- A run, a failed `assert` of the dispatcher's, or a handler that does not come back, or not within
-- the bound on how deep observers are nested.
pub data Ran : Type 0 where
  done : World → Ran
  assertion lost : Ran

abbrev pub member : ℕ → List ℕ → Bool
member k [] = false
member k (x ∷ xs) = k == x || member k xs

abbrev pub ran : Option World → Ran
ran none = lost
ran (some w) = done w

-- The handler that a context is for; `none` is `assert (false)`.
unfoldable pub notice_of : Io → Bytes → Option Notice
notice_of Io.was_read b = some (if is_empty b then disconnect else read b)
notice_of Io.written b = some (write b)
notice_of Io.connected b = some connect
notice_of Io.accepted b = some accept
notice_of Io.ioctl b = none

abbrev pub handle : Overrides → ℕ → ℕ → Option Notice → World → Ran
handle own depth k none w = assertion
handle own depth k (some e) w = ran (deliver own depth e k w)

unfoldable pub handle_context : Overrides → ℕ → ℕ → Option Context → World → Ran
unfolding notice_of
handle_context own depth k none w = done w
handle_context own depth k (some c) w = handle own depth k (notice_of c.type c.bytes) w

abbrev pub ran_then : Ran → (World → Ran) → Ran
ran_then (done w) f = f w
ran_then assertion f = assertion
ran_then lost f = lost

-- The part of `ProcessContext` for the observer found: its `Read` and its handlers are virtual.
unfoldable pub process_found : Classes → ℕ → ℕ → Option Context → Events → World → Ran
process_found a depth k ctx e w =
    if e.can_write && not (w.at k).connected
    then ran_then (ran (deliver a.own depth connect k w)) (handle_context a.own depth k ctx)
    else handle_context a.own depth k (if e.can_read then a.receive k w else ctx) w

-- `ProcessContext` of dispatcher `d`.
unfoldable pub process_context : Classes → ℕ → ℕ → ℕ → Option Context → Events → World → Ran
unfolding process_found
process_context a depth d k ctx e w =
    ran_then (if member k (w.at d).observers then process_found a depth k ctx e w else done w)
      (λ v. done (process_marks d v))
