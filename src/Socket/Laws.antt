-- ===== src/Socket/Laws.antt =====
-- What CDeviceSocket (INCLUDE/CDeviceSocket.hpp) relies on: documented behaviour of OpenSSL and of
-- a connected stream socket.
use cpp_npl.Base.{
  ℕ, ◌<◌, ◌≤◌, ◌≡◌, Bool, true, false, none, some, ◌++◌, Bytes, length, take, drop, is_empty,
  if◌then◌else◌,
}
use cpp_npl.Device.{Kernel}
use cpp_npl.Socket.{Engine}

-- A memory BIO is a queue of bytes, which gives up to as many as asked for from its front; reading
-- it leaves the shutdown flags. `SSL_read` takes some of what is decrypted from its front: no more than
-- asked for, and, since it stays within one record, often less.
pub record IsOpenssl (E : Engine) : Type 0 where
  -- The bytes in `wbio`, and those that calls of `SSL_read` have still to give.
  pub out : E.State → Bytes
  pub plain : E.State → Bytes
  pub pending-out : (e : E.State) → E.pending e ≡ length (out e)
  pub bio_read_bytes : (n : ℕ) (e : E.State) → (E.bio_read n e).0 ≡ take n (out e)
  pub out-bio_read : (n : ℕ) (e : E.State) → out (E.bio_read n e).1 ≡ drop n (out e)
  pub sent-bio_read : (n : ℕ) (e : E.State) → E.sent_shutdown (E.bio_read n e).1 ≡ E.sent_shutdown e
  pub received-bio_read :
      (n : ℕ) (e : E.State) → E.received_shutdown (E.bio_read n e).1 ≡ E.received_shutdown e
  -- How many bytes a call of `SSL_read` gives when there are some.
  pub got : ℕ → E.State → ℕ
  pub some_got : (n : ℕ) (e : E.State) → 0 < n → 0 < got n e
  pub got_most : (n : ℕ) (e : E.State) → got n e ≤ n
  pub read_bytes :
      (n : ℕ) (e : E.State)
      → (E.read n e).0 ≡ (if is_empty (plain e) then none else some (take (got n e) (plain e)))
  pub plain-read : (n : ℕ) (e : E.State) → plain (E.read n e).1 ≡ drop (got n e) (plain e)

-- A stream socket whose peer reads: as long as sending is not shut down, `write` takes all it is
-- given, behind what was sent before, and afterwards it takes nothing.
pub record IsStream (K : Kernel) : Type 0 where
  -- What was sent, the oldest first, and whether sending is shut down.
  pub sent : K.State → Bytes
  pub closed : K.State → Bool
  pub write_count :
      (b : Bytes) (k : K.State) → (K.write b k).0 ≡ (if closed k then none else some (length b))
  pub sent-write : (b : Bytes) (k : K.State) → closed k ≡ false → sent (K.write b k).1 ≡ sent k ++ b
  pub closed-write : (b : Bytes) (k : K.State) → closed (K.write b k).1 ≡ closed k
  pub sent-shutdown : (k : K.State) → sent (K.shutdown_send k) ≡ sent k
  pub closed-shutdown : (k : K.State) → closed (K.shutdown_send k) ≡ true
