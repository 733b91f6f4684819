-- ===== src/Device/File.antt =====
-- What CDevice (INCLUDE/CDevice.hpp) relies on for a file, and writes that follow one another.
use cpp_npl.Base.{
  ℕ, zero, suc, ◌+◌, ◌≡◌, refl, sym, ap, ap₂, ◌∙◌, true, false, none, some, [], ◌∷◌, ◌++◌,
  append_assoc, Bytes, length, length-append, take, take-length, drop, is_empty, if◌then◌else◌,
  arith,
}
use cpp_npl.Device.{
  Kernel, Device, went, failed, checked, with_fd, write_fd, write_open, write_device,
  device_buffer_size, read_device, read_open, read_fd, with_context, context_of,
}
use cpp_npl.Dispatcher.{Io}

-- The bytes from a position on are replaced.
abbrev pub overwrite : ℕ → Bytes → Bytes → Bytes
overwrite at b s = take at s ++ (b ++ drop (at + length b) s)

-- A file that is open: `write` takes all it is given, puts it at the position and leaves the
-- position behind it; `read` gives as many bytes as asked for from the position on, or those that are
-- left, and leaves the position behind them.
pub record IsFile (K : Kernel) : Type 0 where
  pub content : K.State → Bytes
  pub position : K.State → ℕ
  pub write_count : (b : Bytes) (k : K.State) → (K.write b k).0 ≡ some (length b)
  pub content-write :
      (b : Bytes) (k : K.State) → content (K.write b k).1 ≡ overwrite (position k) b (content k)
  pub position-write : (b : Bytes) (k : K.State) → position (K.write b k).1 ≡ position k + length b
  pub read_bytes :
      (m : ℕ) (k : K.State) → (K.read m k).0 ≡ some (take m (drop (position k) (content k)))
  pub content-read : (m : ℕ) (k : K.State) → content (K.read m k).1 ≡ content k
  pub position-read :
      (m : ℕ) (k : K.State)
      → position (K.read m k).1 ≡ position k + length (take m (drop (position k) (content k)))

drop-nil : (n : ℕ) → drop {A = ℕ} n [] ≡ []
drop-nil zero = refl
drop-nil (suc n) = refl

pub drop-drop : (m n : ℕ) (s : Bytes) → drop n (drop m s) ≡ drop (m + n) s
drop-drop m n [] = ap (drop n) (drop-nil m) ∙ drop-nil n ∙ sym (drop-nil (m + n))
drop-drop zero n (x ∷ s) = ap (λ k. drop k (x ∷ s)) (omega arith)
drop-drop (suc m) n (x ∷ s) =
    let e : suc m + n ≡ suc (m + n) = omega arith in
    drop-drop m n s ∙ sym (ap (λ k. drop k (x ∷ s)) e)

drop-append : (s t : Bytes) (n : ℕ) → drop (length s + n) (s ++ t) ≡ drop n t
drop-append [] t n = ap (λ k. drop k t) (omega arith)
drop-append (x ∷ s) t n =
    let e : suc (length s) + n ≡ suc (length s + n) = omega arith in
    ap (λ k. drop k (x ∷ s ++ t)) e ∙ drop-append s t n

-- Writes behind one another, from the beginning of a text on.
overwrite-behind :
    (front b old : Bytes)
    → overwrite (length front) b (front ++ drop (length front) old)
      ≡ (front ++ b) ++ drop (length (front ++ b)) old
overwrite-behind front b old =
    let tail : Bytes = drop (length front) old in
    ap₂ (λ x y. x ++ (b ++ y)) (take-length front tail)
      (drop-append front tail (length b)
        ∙ drop-drop (length front) (length b) old
        ∙ ap (λ k. drop k old) (sym (length-append front b)))
    ∙ sym (append_assoc front b (drop (length (front ++ b)) old))

module _ (K : Kernel) (n : IsFile K) where
  -- An open file whose first bytes have been replaced by those of `front`.
  pub record IsWritten (front old : Bytes) (d : Device K) : Type 0 where
    pub state : K.State
    pub connected : d.connected ≡ true
    pub fd : d.fd ≡ some state
    pub content : n.content state ≡ front ++ drop (length front) old
    pub position : n.position state ≡ length front

  pub write_device-IsWritten :
      (front old b : Bytes) (at : ℕ) (d : Device K)
      → is_empty b ≡ false
      → IsWritten front old d
      → (v : Device K) × (write_device K b at d ≡ went v) × IsWritten (front ++ b) old v
  unfolding write_device write_open write_fd
  write_device-IsWritten front old b at d some_bytes w =
      let k = w.state in
      let count = n.write_count b k in
      let done : write_device K b at d ≡ went (record d { fd = some (K.write b k).1 }) =
        ap (write_open K b d) w.fd
        ∙ ap
            (λ x.
              with_fd K d
                (if x then (if is_empty b then failed else checked K (K.write b k)) else went k))
            w.connected
        ∙ ap (λ x. with_fd K d (if x then failed else checked K (K.write b k))) some_bytes
        ∙ ap (λ x. with_fd K d (checked K (x, (K.write b k).1))) count in
      (
        record d { fd = some (K.write b k).1 },
        done,
        record {
          state = (K.write b k).1;
          connected = w.connected;
          fd = refl;
          content =
              n.content-write b k
              ∙ ap₂ (λ x y. overwrite x b y) w.position w.content
              ∙ overwrite-behind front b old;
          position = n.position-write b k ∙ omega (arith, w.position, length-append front b);
        },
      )

  -- An open file of which so much is still to be read.
  pub record IsRead (rest : Bytes) (d : Device K) : Type 0 where
    pub state : K.State
    pub connected : d.connected ≡ true
    pub fd : d.fd ≡ some state
    pub rest_bytes : drop (n.position state) (n.content state) ≡ rest

  drop-take-length : (m : ℕ) (s : Bytes) → drop (length (take m s)) s ≡ drop m s
  drop-take-length zero s = refl
  drop-take-length (suc m) [] = refl
  drop-take-length (suc m) (x ∷ s) = drop-take-length m s

  -- A read into a buffer of the device's own: the next bytes, and no more than that buffer holds.
  pub read_device-IsRead :
      (rest : Bytes) (at : ℕ) (d : Device K)
      → IsRead rest d
      → (v : Device K) × (read_device K none at d
          ≡ (some (record { type = Io.was_read; bytes = take device_buffer_size rest }), v))
        × IsRead (drop device_buffer_size rest) v
  unfolding read_device read_open read_fd
  read_device-IsRead rest at d w =
      let k = w.state in
      let next : K.State = (K.read device_buffer_size k).1 in
      let v : Device K = record d { fd = some next } in
      let got : (K.read device_buffer_size k).0 ≡ some (take device_buffer_size rest) =
        n.read_bytes device_buffer_size k
        ∙ ap (λ s. some (take device_buffer_size s)) w.rest_bytes in
      (
        v,
        ap (λ x. if x then read_open K none at d d.fd else (none, d)) w.connected
            ∙ ap (read_open K none at d) w.fd
            ∙ ap (λ x. with_context K d (context_of K x, next)) got,
        record {
          state = next;
          connected = w.connected;
          fd = refl;
          rest_bytes =
              ap₂ drop
                (n.position-read device_buffer_size k
                  ∙ ap (λ s. n.position k + length (take device_buffer_size s)) w.rest_bytes)
                (n.content-read device_buffer_size k)
              ∙ sym (drop-drop (n.position k) (length (take device_buffer_size rest)) (n.content k))
              ∙ ap (drop (length (take device_buffer_size rest))) w.rest_bytes
              ∙ drop-take-length device_buffer_size rest;
        },
      )
