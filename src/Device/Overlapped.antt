-- ===== src/Device/Overlapped.antt =====
-- CDevice (INCLUDE/CDevice.hpp) for a file on Windows: reads and writes are started at an offset, and
-- the system completes them later.
use cpp_npl.Base.{
  ℕ, ◌/◌, ◌%◌, ◌^◌, Bool, true, false, ◌&&◌, Option, none, some, List, [], ◌∷◌, Bytes, length,
  is_empty, if◌then◌else◌,
}
use cpp_npl.Dispatcher.{Io}
use cpp_npl.Device.{DeviceType, Outcome, went, failed, device_buffer_size}

-- The context of a read or a write, with the arguments of the call: the two halves of the offset and
-- the count of bytes, which is cast to DWORD.
pub record Request : Type 0 where
  pub type : Io
  pub bytes : Bytes
  pub count : ℕ
  pub low : ℕ
  pub high : ℕ

-- The system calls. `State` is that of the file system.
pub record Windows : Type 1 where
  pub State : Type 0
  -- `CreateFile` with CREATE_ALWAYS or with OPEN_EXISTING; `none` is INVALID_HANDLE_VALUE.
  pub create_file : Bytes → Bool → State → Option ℕ × State
  -- Whether `ReadFile` or `WriteFile` takes a request on a handle: it succeeds, or the request is
  -- pending.
  pub starts : ℕ → Request → State → Bool
  -- What is done when a request is completed.
  pub complete : ℕ → Request → State → State

pub record FileDevice : Type 0 where
  pub connected : Bool
  pub type : DeviceType
  pub fd : Option ℕ
  pub fd_sync : Option ℕ
  -- The requests that were taken, the latest at the head.
  pub issued : List Request

abbrev is_valid : Option ℕ → Bool
is_valid none = false
is_valid (some h) = true

unfoldable pub request : Io → Bytes → ℕ → ℕ → Request
request type b n o = record {
  type = type;
  bytes = b;
  count = n % 2 ^ 32;
  low = o % 2 ^ 32;
  high = o / 2 ^ 32 % 2 ^ 32;
}

module _ (W : Windows) where
  -- The constructor for a file: a second handle is opened for `ReadSync` and `WriteSync`.
  abbrev pub both_opened : Option ℕ → Option ℕ × W.State → FileDevice × W.State
  both_opened fd (fd_sync, s) = (
    record {
      connected = is_valid fd && is_valid fd_sync;
      type = DeviceType.file;
      fd = fd;
      fd_sync = fd_sync;
      issued = [];
    },
    s,
  )

  abbrev pub first_opened : Bytes → Option ℕ × W.State → FileDevice × W.State
  first_opened name (fd, s) = both_opened fd (W.create_file name false s)

  unfoldable pub new_file_device : Bytes → Bool → W.State → FileDevice × W.State
  new_file_device name create s = first_opened name (W.create_file name create s)

  -- A call that is refused is only reported.
  abbrev pub start_on : Option ℕ → Request → W.State → FileDevice → FileDevice
  start_on none r s d = d
  start_on (some h) r s d = if W.starts h r s then record d { issued = r ∷ d.issued } else d

  -- `Read`, into a buffer of so many bytes or into one of the device's own. It returns null.
  unfoldable pub read_overlapped : Option ℕ → ℕ → W.State → FileDevice → FileDevice
  unfolding request
  read_overlapped size o s d =
      let n : ℕ = elim size [ none ↦ device_buffer_size | some m ↦ m ] in
      if d.connected then start_on d.fd (request Io.was_read [] n o) s d else d

  -- `Write`, of a copy of the bytes.
  unfoldable pub write_overlapped : Bytes → ℕ → W.State → FileDevice → Outcome FileDevice
  unfolding request
  write_overlapped b o s d =
      if d.connected
      then (if is_empty b
          then failed
          else went (start_on d.fd (request Io.written b (length b) o) s d))
      else went d

  -- The system completes requests on a handle in some order.
  unfoldable pub complete_all : ℕ → List Request → W.State → W.State
  complete_all h [] s = s
  complete_all h (r ∷ rs) s = complete_all h rs (W.complete h r s)
