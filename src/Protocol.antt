-- ===== src/Protocol.antt =====
-- CProtocol (INCLUDE/CProtocol.hpp): bytes are gathered in `iBuffer` until `IsMessageComplete`
-- finds a message, which is stored, handed to `StateMachine` and passed on to the observers.
pub mod Stream
pub mod Lifecycle
mod Tests
use cpp_npl.Base.{ℕ, Option, none, some, List, [], ◌∷◌, ◌++◌, Bytes}

-- The two virtual methods, which the subclasses define. `S` is the subclass's state.
pub record Subclass (S M : Type 0) : Type 0 where
  pub is_message_complete : S → Bytes → Option M
  pub state_machine : M → S → S

pub record Reader (S M : Type 0) : Type 0 where
  pub buffer : Bytes
  -- `iMessages`, the oldest first.
  pub messages : List M
  -- What the observers were given, the oldest first.
  pub notified : List Bytes
  pub inner : S

module _ {S M : Type 0} (p : Subclass S M) where
  -- The part of the loop of `OnRead` for a message that is complete.
  abbrev pub accept : M → Bytes → Reader S M → Reader S M
  accept m whole r = record r {
    buffer = [];
    messages = r.messages ++ m ∷ [];
    notified = r.notified ++ whole ∷ [];
    inner = p.state_machine m r.inner;
  }

  abbrev settle : Option M → Bytes → Reader S M → Reader S M
  settle none whole r = record r { buffer = whole }
  settle (some m) whole r = accept m whole r

  -- One round of the loop of `OnRead`.
  unfoldable pub on_byte : ℕ → Reader S M → Reader S M
  on_byte b r = settle (p.is_message_complete r.inner (r.buffer ++ b ∷ [])) (r.buffer ++ b ∷ []) r

  -- `OnRead`.
  unfoldable pub on_read : Bytes → Reader S M → Reader S M
  on_read [] r = r
  on_read (b ∷ bs) r = on_read bs (on_byte b r)
