-- ===== src/Socket/Stop.antt =====
-- `StopSocket` and its part in `UpdateWBIO` (INCLUDE/CDeviceSocket.hpp).
use cpp_npl.Base.{
  ℕ, zero, suc, ◌≡◌, refl, ap, ap₂, ◌∙◌, Bool, true, false, not, ◌&&◌, none, some, Bytes, is_empty,
  if◌then◌else◌,
}
use cpp_npl.Device.{Kernel, Outcome, went, failed, exhausted, ◌>>=◌}
use cpp_npl.Socket.{
  Engine, Socket, drain, drain_all, close_sending, say_goodbye, stop_with, check_with, update_wbio,
  stop_socket, write_with, write_socket,
}
use cpp_npl.Socket.Laws.{IsOpenssl, IsStream}
use cpp_npl.Socket.Drain.{write_closed}

module _ (K : Kernel) (E : Engine) where
  stopped_stays :
      (update : Socket K E → Outcome (Socket K E)) (s : Socket K E)
      → s.stopped ≡ true
      → stop_with K E update s ≡ went s
  stopped_stays update s h = rw h refl

  close_then_stop :
      (update : Socket K E → Outcome (Socket K E)) (r : Outcome (Socket K E))
      → (r >>= (λ t. went (close_sending K E t)) >>= stop_with K E update)
        ≡ (r >>= λ t. went (close_sending K E t))
  close_then_stop update (went t) = refl
  close_then_stop update failed = refl
  close_then_stop update exhausted = refl

  -- `StopSocket` called once more does nothing: no second `SSL_shutdown`, and no second `shutdown`.
  pub stop_twice :
      (rounds depth rounds' depth' : ℕ) (s : Socket K E)
      → (stop_socket K E rounds depth s >>= stop_socket K E rounds' depth')
        ≡ stop_socket K E rounds depth s
  unfolding stop_socket
  stop_twice rounds depth rounds' depth' s =
      either s.stopped (say_goodbye K E (update_wbio K E rounds depth) s s.ssl) refl
    where
      either :
          (b : Bool) (r : Outcome (Socket K E))
          → s.stopped ≡ b
          → ((if b then went s else (r >>= λ t. went (close_sending K E t)))
              >>= stop_with K E (update_wbio K E rounds' depth'))
            ≡ (if b then went s else (r >>= λ t. went (close_sending K E t)))
      either true r h = stopped_stays (update_wbio K E rounds' depth') s h
      either false r h = close_then_stop (update_wbio K E rounds' depth') r

  -- `StopSocket` on a connection that is up, and the two ways of `UpdateWBIO`.
  pub stop_step :
      (update : Socket K E → Outcome (Socket K E)) (s : Socket K E) (e : E.State)
      → s.ssl ≡ some e
      → s.stopped ≡ false
      → E.sent_shutdown e ≡ false
      → stop_with K E update s
        ≡ (update (record s { ssl = some (E.shutdown e) }) >>= λ t. went (close_sending K E t))
  stop_step update s e h st n =
      ap
        (λ b.
          if b
          then went s
          else (say_goodbye K E update s s.ssl >>= λ t. went (close_sending K E t)))
        st
      ∙ ap (λ o. say_goodbye K E update s o >>= λ t. went (close_sending K E t)) h
      ∙ ap
          (λ b. (if b then went s else update (record s { ssl = some (E.shutdown e) })) >>= λ t.
            went (close_sending K E t))
          n

  pub quiet_step :
      (rounds depth : ℕ) (s : Socket K E) (e : E.State)
      → s.ssl ≡ some e
      → (E.received_shutdown e && not (E.sent_shutdown e)) ≡ false
      → update_wbio K E rounds (suc depth) s ≡ drain K E rounds e s
  unfolding update_wbio
  quiet_step rounds depth s e h q =
      ap
        (λ o. check_with K E (stop_with K E (update_wbio K E rounds depth)) s o >>= λ t.
          drain_all K E rounds t t.ssl)
        h
      ∙ ap
          (λ b. (if b then stop_with K E (update_wbio K E rounds depth) s else went s) >>= λ t.
            drain_all K E rounds t t.ssl)
          q
      ∙ ap (drain_all K E rounds s) h

  pub answer_step :
      (rounds depth : ℕ) (s : Socket K E) (e : E.State)
      → s.ssl ≡ some e
      → (E.received_shutdown e && not (E.sent_shutdown e)) ≡ true
      → update_wbio K E rounds (suc depth) s
        ≡ (stop_with K E (update_wbio K E rounds depth) s >>= λ t. drain_all K E rounds t t.ssl)
  unfolding update_wbio
  answer_step rounds depth s e h q =
      ap
        (λ o. check_with K E (stop_with K E (update_wbio K E rounds depth)) s o >>= λ t.
          drain_all K E rounds t t.ssl)
        h
      ∙ ap
          (λ b. (if b then stop_with K E (update_wbio K E rounds depth) s else went s) >>= λ t.
            drain_all K E rounds t t.ssl)
          q

  -- On a socket not stopped, the peer has said goodbye, and OpenSSL refuses to answer it, as it does while the handshake is
  -- under way: `StopSocket` and `UpdateWBIO` call each other without end, whatever depth is given.
  pub refused_goodbye :
      ((e : E.State) → E.sent_shutdown (E.shutdown e) ≡ E.sent_shutdown e)
      → ((e : E.State) → E.received_shutdown (E.shutdown e) ≡ E.received_shutdown e)
      → (rounds depth : ℕ) (s : Socket K E) (e : E.State) → s.ssl ≡ some e
      → s.stopped ≡ false
      → E.received_shutdown e ≡ true
      → E.sent_shutdown e ≡ false
      → update_wbio K E rounds depth s ≡ exhausted
  unfolding update_wbio
  refused_goodbye p q rounds zero s e h st r n = refl
  refused_goodbye p q rounds (suc depth) s e h st r n =
      let again =
        refused_goodbye p q rounds depth (record s { ssl = some (E.shutdown e) }) (E.shutdown e)
          refl st (q e ∙ r) (p e ∙ n) in
      answer_step rounds depth s e h (ap₂ (λ a b. a && not b) r n)
      ∙ ap (λ r. r >>= λ t. drain_all K E rounds t t.ssl)
          (stop_step (update_wbio K E rounds depth) s e h st n
            ∙ ap (λ r. r >>= λ t. went (close_sending K E t)) again)

module _ (K : Kernel) (E : Engine) (o : IsOpenssl E) (n : IsStream K) where
  -- Without TLS: a call of `Write` with something to send, after `StopSocket` on a connection that
  -- is up, fails the assertion on the result of `write`.
  pub write_after_stop :
      (rounds depth : ℕ) (b : Bytes) (s : Socket K E)
      → s.ssl ≡ none
      → s.connected ≡ true
      → s.stopped ≡ false
      → is_empty b ≡ false
      → (stop_socket K E rounds depth s >>= write_socket K E rounds depth b) ≡ failed
  unfolding stop_socket write_socket
  write_after_stop rounds depth b s h c st f =
      let update = update_wbio K E rounds depth in
      ap
        (λ d.
          (if d
            then went s
            else (say_goodbye K E update s s.ssl >>= λ t. went (close_sending K E t)))
          >>= λ t. write_with K E update b t t.ssl)
        st
      ∙ ap
          (λ o. say_goodbye K E update s o >>= (λ t. went (close_sending K E t)) >>= λ t.
            write_with K E update b t t.ssl)
          h
      ∙ ap (write_with K E update b (close_sending K E s)) h
      ∙ write_closed K E o n b (close_sending K E s) c (n.closed-shutdown s.fd) f
