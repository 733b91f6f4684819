-- ===== src/Socket/Accepting.antt =====
-- Completions on a CDeviceSocket (INCLUDE/CDeviceSocket.hpp) on Windows, one behind the other: a
-- server that goes on accepting, and a client that goes on reading.
use cpp_npl.Base.{
  ℕ, zero, suc, ◌≡◌, ap, ap₂, ◌∙◌, true, false, not, ◌||◌, Option, none, some, List, [], ◌∷◌, ◌++◌,
  Bytes, append-nil, append_assoc, is_empty, ◌==◌, if◌then◌else◌, sym,
}
use cpp_npl.Device.{Kernel, Outcome, went, failed, exhausted, ◌>>=◌}
use cpp_npl.Subject.{Notice, connect, accept, read}
use cpp_npl.Socket.{Engine, SocketType, Socket}
use cpp_npl.Socket.Events.{
  on_accept, on_connect, on_read, on_read_with, start_socket_client, start_socket_server,
  accepted_socket,
}
use cpp_npl.Socket.Overlapped.{
  Connecting, Asking, idle, read_more, accept_new_connection, serve_overlapped, connect_overlapped,
  connect_ex, start_overlapped, accept_overlapped, receive_overlapped,
}

-- What comes of completions: `none` where the request is not pending, so that nothing is completed,
-- or where a handler does not come back.
infixl 5 ◌then_if◌
abbrev pub ◌then_if◌ : {A B : Type 0} → Outcome A → (A → Option B) → Option B
went a then_if f = f a
failed then_if f = none
exhausted then_if f = none

module _ (K : Kernel) (E : Engine) where
  abbrev also :
      Asking K E → Option (List (Asking K E) × Asking K E) → Option (List (Asking K E) × Asking K E)
  also n none = none
  also n (some (ns, a)) = some (n ∷ ns, a)

  -- An accept is completed with a connection; every request is taken.
  unfoldable complete_accept :
      ℕ
      → K.State
      → ℕ
      → Asking K E
      → (Asking K E → Option (List (Asking K E) × Asking K E))
      → Option (List (Asking K E) × Asking K E)
  complete_accept d k zero a next = none
  complete_accept d k (suc m) a next =
      accept_overlapped K E (some d) k true true (record a { accepts = m }) then_if λ (n, b).
      also n (next b)

  unfoldable pub accepted_all :
      ℕ → List K.State → Asking K E → Option (List (Asking K E) × Asking K E)
  unfolding complete_accept
  accepted_all d [] a = some ([], a)
  accepted_all d (k ∷ ks) a = complete_accept d k a.accepts a (accepted_all d ks)

  unfoldable complete_read :
      Bytes → ℕ → Asking K E → (Asking K E → Option (Asking K E)) → Option (Asking K E)
  complete_read b zero a next = none
  complete_read b (suc m) a next =
      receive_overlapped K E 0 0 (λ s. went s) b true (record a { reads = m }) then_if next

  unfoldable pub received_all : List Bytes → Asking K E → Option (Asking K E)
  unfolding complete_read
  received_all [] a = some a
  received_all (b ∷ bs) a = complete_read b a.reads a (received_all bs)

  unfoldable pub complete_connect :
      ℕ → Asking K E → (Asking K E → Option (Asking K E)) → Option (Asking K E)
  complete_connect zero a next = none
  complete_connect (suc m) a next =
      connect_overlapped K E true (record a { connects = m }) then_if next

  -- The sockets of the connections, each of which waits for bytes.
  abbrev pub served : List K.State → List (Asking K E)
  served [] = []
  served (k ∷ ks) =
      record { socket = accepted_socket K E k; reads = 1; accepts = 0; connects = 0 } ∷ served ks

  abbrev pub accepts_told : List K.State → List Notice
  accepts_told [] = []
  accepts_told (k ∷ ks) = accept ∷ accepts_told ks

  abbrev pub reads_told : List Bytes → List Notice
  reads_told [] = []
  reads_told (b ∷ bs) = read b ∷ reads_told bs

  abbrev pub listening : Socket K E → List Notice → Asking K E
  listening s told = record {
    socket = record s { type = SocketType.listening; told = told };
    reads = 0;
    accepts = 1;
    connects = 0;
  }

  all_accepted :
      (d : ℕ) (ks : List K.State) (s : Socket K E) (told : List Notice)
      → accepted_all d ks (listening s told)
        ≡ some (served ks, listening s (told ++ accepts_told ks))
  unfolding accepted_all accept_overlapped on_accept read_more accept_new_connection
  all_accepted d [] s told = ap (λ x. some ([], listening s x)) (sym (append-nil told))
  all_accepted d (k ∷ ks) s told =
      ap (also _) (all_accepted d ks s (told ++ accept ∷ []))
      ∙ ap (λ x. some (served (k ∷ ks), listening s x))
          (append_assoc told (accept ∷ []) (accepts_told ks))

  -- A server that is started, with a port, and for which `bind` and `listen` succeed and the system
  -- takes every request: whatever connections come, each one is accepted, and waits for bytes; and
  -- behind each there is again exactly one accept pending, so that the next is accepted too.
  pub server_goes_on :
      (d : ℕ) (ks : List K.State) (s : Socket K E)
      → (s.port == 0) ≡ false
      → (serve_overlapped K E true true true (idle K E s) then_if accepted_all d ks)
        ≡ some (served ks, listening s (s.told ++ accepts_told ks))
  unfolding serve_overlapped start_socket_server accept_new_connection
  server_goes_on d ks s p =
      ap
        (λ x.
          (if x || not true || not true
            then failed
            else went (record s { type = SocketType.listening }))
          >>= (λ s. went (accept_new_connection K E true (idle K E s)))
          then_if accepted_all d ks)
        p
      ∙ all_accepted d ks s s.told

  abbrev pub reading : Socket K E → List Notice → Asking K E
  reading s told = record {
    socket = record s { type = SocketType.client; connected = true; told = told };
    reads = 1;
    accepts = 0;
    connects = 0;
  }

  one_received :
      (b : Bytes) (s : Socket K E) (told : List Notice) (next : Asking K E → Option (Asking K E))
      → s.ssl ≡ none
      → complete_read b 1 (reading s told) next ≡ next (reading s (told ++ read b ∷ []))
  unfolding complete_read receive_overlapped on_read read_more
  one_received b s told next e =
      ap
        (λ x.
          (on_read_with K E 0 0 (λ s. went s) b (reading s told).socket x >>= λ t.
          went (record (reading s told) { socket = t }))
          then_if next)
        e

  all_received :
      (bs : List Bytes) (s : Socket K E) (told : List Notice)
      → s.ssl ≡ none
      → received_all bs (reading s told) ≡ some (reading s (told ++ reads_told bs))
  unfolding received_all
  all_received [] s told e = ap (λ x. some (reading s x)) (sym (append-nil told))
  all_received (b ∷ bs) s told e =
      one_received b s told (received_all bs) e
      ∙ all_received bs s (told ++ read b ∷ []) e
      ∙ ap (λ x. some (reading s x)) (append_assoc told (read b ∷ []) (reads_told bs))

  -- A client without TLS that is started, with a host and a port, and for which the system takes
  -- every request and connects later: its observers are told of the connection and then of every
  -- block, in their order and once; and behind each there is again exactly one read pending, so that
  -- the next is told too.
  pub client_goes_on :
      (bs : List Bytes) (s : Socket K E)
      → is_empty s.host ≡ false
      → (s.port == 0) ≡ false
      → s.ssl ≡ none
      → (start_overlapped K E true true Connecting.pending (idle K E s) then_if λ a.
          complete_connect a.connects a (received_all bs))
        ≡ some (reading s (s.told ++ connect ∷ reads_told bs))
  unfolding start_overlapped start_socket_client connect_ex complete_connect connect_overlapped
      on_connect read_more
  client_goes_on bs s h p e =
      ap₂
        (λ x y.
          (if x || y then failed else went (record s { type = SocketType.client }))
          >>= (λ t. went (record (idle K E t) { connects = 1 }))
          then_if λ a. complete_connect a.connects a (received_all bs))
        h p
      ∙ all_received bs s (s.told ++ connect ∷ []) e
      ∙ ap (λ x. some (reading s x)) (append_assoc s.told (connect ∷ []) (reads_told bs))
