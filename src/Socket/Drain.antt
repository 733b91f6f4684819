-- ===== src/Socket/Drain.antt =====
-- `UpdateWBIO` (INCLUDE/CDeviceSocket.hpp) sends what OpenSSL has written.
use cpp_npl.Base.{
  take-drop, length-drop, ap₂, ℕ, zero, suc, ◌≤◌, ◌<◌, ◌≡◌, refl, sym, ap, ◌∙◌, inl, inr, true,
  false, none, some, List, [], ◌∷◌, ◌++◌, append-nil, append_assoc, Bytes, length, take, is_empty,
  ◌==◌, if◌then◌else◌, Bool-cases, arith,
}
use cpp_npl.Device.{Kernel, went, failed, ◌>>=◌, write_fd}
use cpp_npl.Socket.{Engine, Socket, device_write, bio_buffer_size, drain}
use cpp_npl.Socket.Laws.{IsOpenssl, IsStream}

length_zero {ℓ} : {A : Type ℓ} (s : List A) → length s ≤ 0 → s ≡ []
length_zero [] h = refl
length_zero (x ∷ s) h = absurd (omega arith)

pub take_some {ℓ} :
    {A : Type ℓ} (n : ℕ) (s : List A) → 0 < n → 0 < length s → is_empty (take n s) ≡ false
take_some zero s h f = absurd (omega arith)
take_some (suc n) [] h f = absurd (omega arith)
take_some (suc n) (x ∷ s) h f = refl

module _ (K : Kernel) (E : Engine) (o : IsOpenssl E) (n : IsStream K) where
  -- What is left alone, what was sent, and that nothing waits.
  pub record Drained (e : E.State) (s t : Socket K E) : Type 0 where
    pub state : E.State
    pub ssl : t.ssl ≡ some state
    pub empty : o.out state ≡ []
    pub sent : n.sent t.fd ≡ n.sent s.fd ++ o.out e
    pub closed : n.closed t.fd ≡ n.closed s.fd
    pub flag : E.sent_shutdown state ≡ E.sent_shutdown e
    pub other : E.received_shutdown state ≡ E.received_shutdown e
    pub connected : t.connected ≡ s.connected
    pub stopped : t.stopped ≡ s.stopped
    pub handshake_done : t.handshake_done ≡ s.handshake_done
    pub told : t.told ≡ s.told

  device_write_lem :
      (b : Bytes) (s : Socket K E)
      → s.connected ≡ true
      → n.closed s.fd ≡ false
      → is_empty b ≡ false
      → device_write K E b s ≡ went (record s { fd = (K.write b s.fd).1 })
  unfolding device_write write_fd
  device_write_lem b s c h f =
      let count : (K.write b s.fd).0 ≡ some (length b) =
        n.write_count b s.fd ∙ ap (λ e. if e then none else some (length b)) h in
      rw (c, f, count) refl

  -- Once sending is shut down, the assertion on the result of `write` fails.
  pub write_closed :
      (b : Bytes) (s : Socket K E)
      → s.connected ≡ true
      → n.closed s.fd ≡ true
      → is_empty b ≡ false
      → device_write K E b s ≡ failed
  unfolding device_write write_fd
  write_closed b s c h f =
      let refused : (K.write b s.fd).0 ≡ none =
        n.write_count b s.fd ∙ ap (λ e. if e then none else some (length b)) h in
      rw (c, f, refused) refl

  nothing_waits :
      (e : E.State) (s : Socket K E)
      → length (o.out e) ≤ 0
      → Drained e s (record s { ssl = some e })
  nothing_waits e s h =
      let empty = length_zero (o.out e) h in
      record {
        state = e;
        ssl = refl;
        empty = empty;
        sent = sym (append-nil (n.sent s.fd)) ∙ ap (λ b. n.sent s.fd ++ b) (sym empty);
        closed = refl;
        flag = refl;
        other = refl;
        connected = refl;
        stopped = refl;
        handshake_done = refl;
        told = refl;
      }

  -- No round is needed where nothing waits.
  pub drain_nothing :
      (rounds : ℕ) (e : E.State) (s : Socket K E)
      → o.out e ≡ []
      → drain K E rounds e s ≡ went (record s { ssl = some e })
  unfolding drain
  drain_nothing zero e s h =
      let none_left : (E.pending e == 0) ≡ true = ground (arith, o.pending-out e, ap length h) in
      rw (none_left, drain) refl
  drain_nothing (suc rounds) e s h =
      let none_left : (E.pending e == 0) ≡ true = ground (arith, o.pending-out e, ap length h) in
      rw (none_left, drain) refl

  -- One round, and the rounds behind it.
  after_round :
      (e : E.State) (s t : Socket K E)
      → n.closed s.fd ≡ false
      → Drained
          (E.bio_read bio_buffer_size e).1
          (record s { fd = (K.write (E.bio_read bio_buffer_size e).0 s.fd).1 })
          t
      → Drained e s t
  after_round e s t h d = record {
    state = d.state;
    ssl = d.ssl;
    empty = d.empty;
    sent =
        d.sent
        ∙ ap₂ (λ a b. a ++ b)
            (n.sent-write _ s.fd h ∙ ap (λ b. n.sent s.fd ++ b) (o.bio_read_bytes _ e))
            (o.out-bio_read _ e)
        ∙ append_assoc (n.sent s.fd) _ _
        ∙ ap (λ b. n.sent s.fd ++ b) (take-drop bio_buffer_size (o.out e));
    closed = d.closed ∙ n.closed-write _ s.fd;
    flag = d.flag ∙ o.sent-bio_read _ e;
    other = d.other ∙ o.received-bio_read _ e;
    connected = d.connected;
    stopped = d.stopped;
    handshake_done = d.handshake_done;
    told = d.told;
  }

  -- Enough rounds send all.
  pub drain_lem :
      (rounds : ℕ) (e : E.State) (s : Socket K E)
      → s.connected ≡ true
      → n.closed s.fd ≡ false
      → length (o.out e) ≤ rounds
      → (t : Socket K E) × (drain K E rounds e s ≡ went t) × Drained e s t
  unfolding drain
  drain_lem zero e s c h f =
      let none_left : (E.pending e == 0) ≡ true = ground (arith, o.pending-out e) in
      (record s { ssl = some e }, rw (none_left, drain) refl, nothing_waits e s f)
  drain_lem (suc rounds) e s c h f = elim (Bool-cases (E.pending e == 0)) [
    | inl done ↦ (
      record s { ssl = some e },
      rw (done, drain) refl,
      nothing_waits e s (ground (arith, o.pending-out e)),
    )
    | inr more ↦
        let some_left : 0 < length (o.out e) = ground (arith, o.pending-out e) in
        let b = (E.bio_read bio_buffer_size e).0 in
        let e' = (E.bio_read bio_buffer_size e).1 in
        let next : Socket K E = record s { fd = (K.write b s.fd).1 } in
        let filled : is_empty b ≡ false =
          ap is_empty (o.bio_read_bytes bio_buffer_size e)
          ∙ take_some bio_buffer_size (o.out e) (omega arith) some_left in
        let (t, d, r) = drain_lem rounds e' next c (n.closed-write b s.fd ∙ h) (
          omega (
            arith,
            ap length (o.out-bio_read bio_buffer_size e),
            length-drop bio_buffer_size (o.out e),
          )) in
        (
          t,
          rw (more, drain)
              (ap (λ r. r >>= drain K E rounds e') (device_write_lem b s c h filled) ∙ d),
          after_round e s t h r,
        )
  ]
