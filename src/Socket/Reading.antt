-- ===== src/Socket/Reading.antt =====
-- `OnRead` of CDeviceSocket (INCLUDE/CDeviceSocket.hpp) once the TLS handshake is done.
use cpp_npl.Base.{
  take-drop, length-drop, ℕ, zero, suc, ◌+◌, ◌≤◌, ◌<◌, ◌≡◌, refl, sym, ap, ap₂, ◌∙◌, inl, inr, true,
  false, not, ◌&&◌, none, some, [], ◌∷◌, ◌++◌, Bytes, length, take, is_empty, if◌then◌else◌,
  Bool-cases, arith,
}
use cpp_npl.Device.{Kernel, Outcome, went, ◌>>=◌, device_buffer_size}
use cpp_npl.Subject.{read}
use cpp_npl.Socket.{Engine, Socket, update_wbio}
use cpp_npl.Socket.Events.{read_all, decrypt, hand_on, on_read_tls, on_read_with, on_read, shaken}
use cpp_npl.Socket.Laws.{IsOpenssl, IsStream}
use cpp_npl.Socket.Goodbye.{IsUp, update_quiet, update_answers}

-- The bytes that can be read take so many rounds, and leave OpenSSL in some state.
module _ (E : Engine) (o : IsOpenssl E) where
  read_all_stops :
      (e : E.State)
      → is_empty (o.plain e) ≡ true
      → (rounds : ℕ) → read_all E (suc rounds) e ≡ went ([], (E.read device_buffer_size e).1)
  unfolding read_all
  read_all_stops e h rounds =
      let nothing : (E.read device_buffer_size e).0 ≡ none =
        o.read_bytes device_buffer_size e
        ∙ ap (λ b. if b then none else some (take (o.got device_buffer_size e) (o.plain e))) h in
      rw (nothing, read_all) refl

  -- One read, and the reads behind it.
  read_all_goes_on :
      (e e2 : E.State) (m : Bytes) (rounds : ℕ)
      → is_empty (o.plain e) ≡ false
      → read_all E rounds (E.read device_buffer_size e).1 ≡ went (m, e2)
      → read_all E (suc rounds) e ≡ went (take (o.got device_buffer_size e) (o.plain e) ++ m, e2)
  unfolding read_all
  read_all_goes_on e e2 m rounds h r =
      let some_bytes : (E.read device_buffer_size e).0
          ≡ some (take (o.got device_buffer_size e) (o.plain e)) =
        o.read_bytes device_buffer_size e
        ∙ ap (λ b. if b then none else some (take (o.got device_buffer_size e) (o.plain e))) h in
      rw (some_bytes, read_all)
        (ap (λ q. q >>= λ (m, e'). went (take (o.got device_buffer_size e) (o.plain e) ++ m, e')) r)

  empty_length : (s : Bytes) → is_empty s ≡ true → s ≡ []
  empty_length [] h = refl
  empty_length (x ∷ s) h = cc

  some_length : (s : Bytes) → is_empty s ≡ false → 0 < length s
  some_length [] h = cc
  some_length (x ∷ s) h = omega arith

  stops :
      (e : E.State)
      → is_empty (o.plain e) ≡ true
      → (rounds : ℕ) → 1 ≤ rounds
      → read_all E rounds e ≡ went (o.plain e, (E.read device_buffer_size e).1)
  stops e h zero b = absurd (omega arith)
  stops e h (suc rounds) b =
      read_all_stops e h rounds
      ∙ ap (λ m. went (m, (E.read device_buffer_size e).1)) (sym (empty_length (o.plain e) h))

  goes_on :
      (e e2 : E.State) (k : ℕ)
      → is_empty (o.plain e) ≡ false
      → ((rounds : ℕ)
          → k ≤ rounds
          → read_all E rounds (E.read device_buffer_size e).1
            ≡ went (o.plain (E.read device_buffer_size e).1, e2))
      → (rounds : ℕ) → suc k ≤ rounds
      → read_all E rounds e ≡ went (o.plain e, e2)
  goes_on e e2 k h r zero b = absurd (omega arith)
  goes_on e e2 k h r (suc rounds) b =
      read_all_goes_on e e2 _ rounds h (r rounds (omega arith))
      ∙ ap (λ m. went (take (o.got device_buffer_size e) (o.plain e) ++ m, e2))
          (o.plain-read device_buffer_size e)
      ∙ ap (λ m. went (m, e2)) (take-drop (o.got device_buffer_size e) (o.plain e))

  -- All that is decrypted is read, with so many rounds or more.
  read_all_lem :
      (n : ℕ) (e : E.State)
      → length (o.plain e) ≤ n
      → (k : ℕ) × (e2 : E.State) × ((rounds : ℕ)
          → k ≤ rounds
          → read_all E rounds e ≡ went (o.plain e, e2))
  read_all_lem zero e h = (1, (E.read device_buffer_size e).1, stops e (none_left (o.plain e) h))
    where
      none_left : (s : Bytes) → length s ≤ 0 → is_empty s ≡ true
      none_left [] h = refl
      none_left (x ∷ s) h = absurd (omega arith)
  read_all_lem (suc n) e h = elim (Bool-cases (is_empty (o.plain e))) [
    | inl done ↦ (1, (E.read device_buffer_size e).1, stops e done)
    | inr more ↦
        let e' = (E.read device_buffer_size e).1 in
        let shorter : length (o.plain e') ≤ n = omega (
          arith,
          ap length (o.plain-read device_buffer_size e),
          length-drop (o.got device_buffer_size e) (o.plain e),
          o.some_got device_buffer_size e (omega arith),
          some_length (o.plain e) more,
        ) in
        let (k, e2, r) = read_all_lem n e' shorter in (suc k, e2, goes_on e e2 k more r)
  ]

-- The flags when `OnRead` is through: a goodbye that came in has been answered.
pub record IsAnswered (K : Kernel) (E : Engine) (t : Socket K E) : Type 0 where
  pub state : E.State
  pub ssl : t.ssl ≡ some state
  pub answered : (E.received_shutdown state && not (E.sent_shutdown state)) ≡ false

module _ (K : Kernel) (E : Engine) (o : IsOpenssl E) (n : IsStream K) where
  -- `UpdateWBIO` on a connection that is up, whether or not there is a goodbye to answer.
  update_either :
      (s : Socket K E) (e : E.State)
      → IsUp K E o n s e
      → E.sent_shutdown (E.shutdown e) ≡ true
      → (rounds : ℕ) → length (o.out e) + length (o.out (E.shutdown e)) ≤ rounds
      → (t : Socket K E) × (update_wbio K E rounds 2 s ≡ went t)
        × IsAnswered K E t
        × (t.told ≡ s.told)
  update_either s e u g rounds f =
      elim (Bool-cases (E.received_shutdown e && not (E.sent_shutdown e))) [
        | inl due ↦
            let (t, d, said) =
              update_answers K E o n rounds 0 s e u (ground arith) (ground arith) g (omega arith) in
            (
              t,
              d,
              record {
                state = said.state;
                ssl = said.ssl;
                answered = rw (said.flag) (ground arith);
              },
              said.told,
            )
        | inr quiet ↦
            let (t, d, r) = update_quiet K E o n rounds 1 s e u quiet (omega arith) in
            (
              t,
              d,
              record {
                state = r.state;
                ssl = r.ssl;
                answered = ap₂ (λ a b. a && not b) r.other r.flag ∙ quiet;
              },
              r.told,
            )
      ]

  -- The steps of `OnRead` once the handshake is done.
  on_read_steps :
      (rounds depth : ℕ) (cbk : Socket K E → Outcome (Socket K E)) (b m : Bytes) (s : Socket K E)
      (e e1 e2 : E.State)
      → s.ssl ≡ some e
      → s.handshake_done ≡ true
      → E.bio_write b e ≡ (true, e1)
      → read_all E rounds e1 ≡ went (m, e2)
      → on_read K E rounds depth cbk b s ≡ (
          update_wbio K E rounds depth (record s { ssl = some e2 }) >>= λ v. went (hand_on K E m v))
  unfolding on_read
  on_read_steps rounds depth cbk b m s e e1 e2 h done w r =
      let s1 : Socket K E = record s { ssl = some e1 } in
      let finish = λ (p : Bytes × Socket K E).
        update_wbio K E rounds depth p.1 >>= λ v. went (hand_on K E p.0 v) in
      ap (on_read_with K E rounds depth cbk b s) h
      ∙ ap (λ p. on_read_tls K E rounds depth cbk p s) w
      ∙ ap
          (λ d. (if d then went s1 else shaken K E cbk (E.do_handshake e1) s) >>= λ t.
            decrypt K E rounds t t.ssl >>= finish)
          done
      ∙ ap
          (λ d.
            (if d
              then (read_all E rounds e1 >>= λ (m, e'). went (m, record s1 { ssl = some e' }))
              else went ([], s1))
            >>= finish)
          done
      ∙ ap (λ q. q >>= (λ (m, e'). went (m, record s1 { ssl = some e' })) >>= finish) r

  told_of :
      (m : Bytes) (s t : Socket K E)
      → t.told ≡ s.told
      → (hand_on K E m t).told ≡ (if is_empty m then s.told else s.told ++ read m ∷ [])
  told_of [] s t h = h
  told_of (x ∷ m) s t h = ap (λ l. l ++ read (x ∷ m) ∷ []) h

  hand_on-IsAnswered :
      (m : Bytes) (t : Socket K E) → IsAnswered K E t → IsAnswered K E (hand_on K E m t)
  hand_on-IsAnswered [] t a = a
  hand_on-IsAnswered (x ∷ m) t a = record { state = a.state; ssl = a.ssl; answered = a.answered }

  -- Bytes from the network, on a TLS connection that is up and whose handshake is done, when OpenSSL
  -- takes the bytes and SSL_shutdown, in the state that the reads of `OnRead` leave OpenSSL in, sets
  -- SSL_SENT_SHUTDOWN: `OnRead` comes back, with enough rounds. The observers are told of all that could be decrypted, at once,
  -- or of nothing if that is empty; and a goodbye of the peer's has been answered.
  pub on_read_delivers :
      (cbk : Socket K E → Outcome (Socket K E)) (b : Bytes) (s : Socket K E) (e e1 : E.State)
      → IsUp K E o n s e
      → s.handshake_done ≡ true
      → E.bio_write b e ≡ (true, e1)
      → ((k : ℕ) (m : Bytes) (x : E.State)
          → read_all E k e1 ≡ went (m, x)
          → E.sent_shutdown (E.shutdown x) ≡ true)
      → (rounds : ℕ) × (t : Socket K E) × (on_read K E rounds 2 cbk b s ≡ went t)
        × (t.told ≡ (if is_empty (o.plain e1) then s.told else s.told ++ read (o.plain e1) ∷ []))
        × IsAnswered K E t
  on_read_delivers cbk b s e e1 u done w g =
      let (k, e2, reads) = read_all_lem E o (length (o.plain e1)) e1 (omega arith) in
      let rounds : ℕ = k + (length (o.out e2) + length (o.out (E.shutdown e2))) in
      let up : IsUp K E o n (record s { ssl = some e2 }) e2 = record {
        ssl = refl;
        connected = u.connected;
        stopped = u.stopped;
        closed = u.closed;
      } in
      let (t, d, a, same) =
        update_either (record s { ssl = some e2 }) e2 up
          (g k (o.plain e1) e2 (reads k (omega arith))) rounds (omega arith) in
      (
        rounds,
        hand_on K E (o.plain e1) t,
        on_read_steps rounds 2 cbk b (o.plain e1) s e e1 e2 u.ssl done w
              (reads rounds (omega arith))
            ∙ ap (λ q. q >>= λ v. went (hand_on K E (o.plain e1) v)) d,
        told_of (o.plain e1) s t same,
        hand_on-IsAnswered (o.plain e1) t a,
      )
