-- ===== src/Socket/Goodbye.antt =====
-- The goodbye of a TLS connection: `StopSocket` and `UpdateWBIO` (INCLUDE/CDeviceSocket.hpp) when
-- OpenSSL makes one.
use cpp_npl.Base.{
  ℕ, suc, ◌≤◌, ◌≡◌, refl, ap, ap₂, ◌∙◌, true, false, not, ◌&&◌, some, [], ◌++◌, length, arith,
}
use cpp_npl.Device.{Kernel, went, ◌>>=◌}
use cpp_npl.Socket.{Engine, Socket, drain_all, close_sending, update_wbio, stop_socket}
use cpp_npl.Socket.Laws.{IsOpenssl, IsStream}
use cpp_npl.Socket.Drain.{Drained, drain_lem, drain_nothing}
use cpp_npl.Socket.Stop.{stop_step, quiet_step, answer_step}

module _ (K : Kernel) (E : Engine) (o : IsOpenssl E) (n : IsStream K) where
  -- A socket whose connection is up.
  pub record IsUp (s : Socket K E) (e : E.State) : Type 0 where
    pub ssl : s.ssl ≡ some e
    pub connected : s.connected ≡ true
    pub stopped : s.stopped ≡ false
    pub closed : n.closed s.fd ≡ false

  pub update_quiet :
      (rounds depth : ℕ) (s : Socket K E) (e : E.State)
      → IsUp s e
      → (E.received_shutdown e && not (E.sent_shutdown e)) ≡ false
      → length (o.out e) ≤ rounds
      → (t : Socket K E) × (update_wbio K E rounds (suc depth) s ≡ went t) × Drained K E o n e s t
  update_quiet rounds depth s e u q f =
      let (t, d, r) = drain_lem K E o n rounds e s u.connected u.closed f in
      (t, quiet_step K E rounds depth s e u.ssl q ∙ d, r)

  -- What `StopSocket` leaves: OpenSSL's goodbye has been sent, and then sending was shut down.
  pub record SaidGoodbye (e : E.State) (s t : Socket K E) : Type 0 where
    pub state : E.State
    pub ssl : t.ssl ≡ some state
    pub empty : o.out state ≡ []
    pub flag : E.sent_shutdown state ≡ true
    pub stopped : t.stopped ≡ true
    pub sent : n.sent t.fd ≡ n.sent s.fd ++ o.out (E.shutdown e)
    pub closed : n.closed t.fd ≡ true
    pub connected : t.connected ≡ s.connected
    pub handshake_done : t.handshake_done ≡ s.handshake_done
    pub told : t.told ≡ s.told

  goodbye_of :
      (e : E.State) (s t : Socket K E)
      → E.sent_shutdown (E.shutdown e) ≡ true
      → Drained K E o n (E.shutdown e) (record s { ssl = some (E.shutdown e) }) t
      → SaidGoodbye e s (close_sending K E t)
  goodbye_of e s t g d = record {
    state = d.state;
    ssl = d.ssl;
    empty = d.empty;
    flag = d.flag ∙ g;
    stopped = refl;
    sent = n.sent-shutdown t.fd ∙ d.sent;
    closed = n.closed-shutdown t.fd;
    connected = d.connected;
    handshake_done = d.handshake_done;
    told = d.told;
  }

  -- On a connection that is up, which was not said goodbye yet and on which SSL_shutdown sets
  -- SSL_SENT_SHUTDOWN, so that OpenSSL makes a goodbye on being asked, `StopSocket` comes
  -- back: everything that OpenSSL has written, the goodbye with it, is sent, and then sending is
  -- shut down. As many rounds as there are bytes are enough.
  pub stop_sends_goodbye :
      (rounds depth : ℕ) (s : Socket K E) (e : E.State)
      → IsUp s e
      → E.sent_shutdown e ≡ false
      → E.sent_shutdown (E.shutdown e) ≡ true
      → length (o.out (E.shutdown e)) ≤ rounds
      → (t : Socket K E) × (stop_socket K E rounds (suc depth) s ≡ went t) × SaidGoodbye e s t
  unfolding stop_socket
  stop_sends_goodbye rounds depth s e u h g f =
      let next : Socket K E = record s { ssl = some (E.shutdown e) } in
      let up : IsUp next (E.shutdown e) = record {
        ssl = refl;
        connected = u.connected;
        stopped = u.stopped;
        closed = u.closed;
      } in
      let quiet : (E.received_shutdown (E.shutdown e) && not (E.sent_shutdown (E.shutdown e)))
          ≡ false =
        ground (arith) in
      let (t, d, r) = update_quiet rounds depth next (E.shutdown e) up quiet f in
      (
        close_sending K E t,
        stop_step K E (update_wbio K E rounds (suc depth)) s e u.ssl u.stopped h
            ∙ ap (λ r. r >>= λ t. went (close_sending K E t)) d,
        goodbye_of e s t g r,
      )

  -- On a connection that is up, whose peer has said goodbye and has not been answered, `UpdateWBIO`
  -- comes back with the goodbye answered, when OpenSSL makes one on being asked: all that it has
  -- written is sent, and then sending is shut down.
  pub update_answers :
      (rounds depth : ℕ) (s : Socket K E) (e : E.State)
      → IsUp s e
      → E.received_shutdown e ≡ true
      → E.sent_shutdown e ≡ false
      → E.sent_shutdown (E.shutdown e) ≡ true
      → length (o.out (E.shutdown e)) ≤ rounds
      → (t : Socket K E) × (update_wbio K E rounds (suc (suc depth)) s ≡ went t) × SaidGoodbye e s t
  unfolding stop_socket
  update_answers rounds depth s e u r h g f =
      let (t, d, said) = stop_sends_goodbye rounds depth s e u h g f in
      (
        record t { ssl = some said.state },
        answer_step K E rounds (suc depth) s e u.ssl (ap₂ (λ a b. a && not b) r h)
            ∙ ap (λ r. r >>= λ t. drain_all K E rounds t t.ssl) d
            ∙ ap (drain_all K E rounds t) said.ssl
            ∙ drain_nothing K E o n rounds said.state t said.empty,
        record {
          state = said.state;
          ssl = refl;
          empty = said.empty;
          flag = said.flag;
          stopped = said.stopped;
          sent = said.sent;
          closed = said.closed;
          connected = said.connected;
          handshake_done = said.handshake_done;
          told = said.told;
        },
      )
