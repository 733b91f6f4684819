-- ===== src/Device.antt =====
-- CDevice (INCLUDE/CDevice.hpp), on Linux, and `ReadSync` and `WriteSync`, over the system calls.
pub mod File
pub mod Overlapped
pub mod AnyOrder
use cpp_npl.Base.{ℕ, Bool, true, false, Option, none, some, Bytes, is_empty, if◌then◌else◌}
use cpp_npl.Dispatcher.{Io, Context}

-- The system calls, on one descriptor; its state is the system's. `none` is the result -1.
pub record Kernel : Type 1 where
  pub State : Type 0
  -- `open`, with the flag O_CREAT or without.
  pub open_file : Bytes → Bool → Option State
  pub read : ℕ → State → Option Bytes × State
  pub write : Bytes → State → Option ℕ × State
  -- `shutdown(fd, SHUT_WR)`.
  pub shutdown_send : State → State
  pub accept : State → Bool × State
  -- `SetFilePointerEx` on the synchronous handle, and its reads and writes.
  pub seek : ℕ → State → Bool × State
  pub read_sync : ℕ → State → Option Bytes × State
  pub write_sync : Bytes → State → Option ℕ × State

-- `EDeviceType`.
pub data DeviceType : Type 0 where
  no_device file socket : DeviceType

-- A run, a failed `assert`, or a loop or a nesting longer than the bound given.
pub data Outcome (A : Type 0) : Type 0 where
  went : A → Outcome A
  failed exhausted : Outcome A

infixl 5 ◌>>=◌
abbrev pub ◌>>=◌ : {A B : Type 0} → Outcome A → (A → Outcome B) → Outcome B
went a >>= f = f a
failed >>= f = failed
exhausted >>= f = exhausted

-- `EIOToChar`.
unfoldable pub eio_to_char : Io → ℕ
eio_to_char Io.accepted = b'A'
eio_to_char Io.connected = b'C'
eio_to_char Io.was_read = b'R'
eio_to_char Io.written = b'W'
eio_to_char _ = b'Z'

abbrev pub device_buffer_size : ℕ
device_buffer_size = 256

pub record Device (K : Kernel) : Type 0 where
  pub connected : Bool
  pub type : DeviceType
  -- The descriptor, `none` where `open` failed.
  pub fd : Option K.State

module _ (K : Kernel) where
  abbrev pub opened : Option K.State → Device K
  opened none = record { connected = false; type = DeviceType.file; fd = none }
  opened (some k) = record { connected = true; type = DeviceType.file; fd = some k }

  -- The constructor for a file.
  unfoldable pub new_file : Bytes → Bool → Device K
  new_file name create = opened (K.open_file name create)

  abbrev pub context_of : Option Bytes → Option Context
  context_of none = none
  context_of (some b) = some (record { type = Io.was_read; bytes = b })

  -- `Read` of as many bytes as asked for, or of DEVICE_BUFFER_SIZE into a buffer of its own. The offset
  -- has no part in it.
  unfoldable pub read_fd : Option ℕ → ℕ → K.State → Option Context × K.State
  read_fd size offset k =
      let (b, k') = K.read (elim size [ none ↦ device_buffer_size | some n ↦ n ]) k in
      (context_of b, k')

  -- `Write` to a descriptor that is connected: what `write` did not take is dropped.
  abbrev pub checked : Option ℕ × K.State → Outcome K.State
  checked (none, k) = failed
  checked (some n, k) = went k

  unfoldable pub write_fd : Bool → Bytes → K.State → Outcome K.State
  write_fd connected b k =
      if connected then (if is_empty b then failed else checked (K.write b k)) else went k

  -- `ReadSync` and `WriteSync`; `none` is -1.
  unfoldable pub read_sync : ℕ → ℕ → K.State → Option Bytes × K.State
  read_sync size offset k =
      let (placed, k') = K.seek offset k in if placed then K.read_sync size k' else (none, k')

  unfoldable pub write_sync : Bytes → ℕ → K.State → Option ℕ × K.State
  write_sync b offset k =
      let (placed, k') = K.seek offset k in if placed then K.write_sync b k' else (none, k')

  -- `Read` and `Write` of a device, which must be connected.
  abbrev pub with_context : Device K → Option Context × K.State → Option Context × Device K
  with_context d (c, k) = (c, record d { fd = some k })

  unfoldable pub read_open : Option ℕ → ℕ → Device K → Option K.State → Option Context × Device K
  unfolding read_fd
  read_open size offset d none = (none, d)
  read_open size offset d (some k) = with_context d (read_fd size offset k)

  unfoldable pub read_device : Option ℕ → ℕ → Device K → Option Context × Device K
  unfolding read_open
  read_device size offset d = if d.connected then read_open size offset d d.fd else (none, d)

  abbrev pub with_fd : Device K → Outcome K.State → Outcome (Device K)
  with_fd d (went k) = went (record d { fd = some k })
  with_fd d failed = failed
  with_fd d exhausted = exhausted

  unfoldable pub write_open : Bytes → Device K → Option K.State → Outcome (Device K)
  unfolding write_fd
  write_open b d none = went d
  write_open b d (some k) = with_fd d (write_fd d.connected b k)

  unfoldable pub write_device : Bytes → ℕ → Device K → Outcome (Device K)
  unfolding write_open
  write_device b offset d = write_open b d d.fd
