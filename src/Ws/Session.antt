-- ===== src/Ws/Session.antt =====
-- A whole session of a CProtocolWS server (INCLUDE/CProtocolWS.hpp): the client's opening request and
-- then its frames, through `OnRead` of CProtocol.
use mathlib.Core.List.{flatten}
use cpp_npl.Base.{
  arith, subst, sym, ◌≡◌, refl, ap, ◌∙◌, ◌≢◌, true, false, some, List, [], ◌∷◌, ◌++◌, append_assoc,
  append-nil, Bytes, codes, is_empty, if◌then◌else◌,
}
use cpp_npl.Subject.{get_property}
use cpp_npl.Protocol.{Reader, accept, on_read}
use cpp_npl.Protocol.Stream.{
  AreFrames, IsFrame, accept_all, frames, on_chunks, on_chunks-flatten, on_read-frames,
}
use cpp_npl.Http.{parsed, get_header}
use cpp_npl.Http.Lines.{request, set_all}
use cpp_npl.Http.Request.{IsRequest, content, request_whole, request_minimal}
use cpp_npl.Ws.Frame.{ByteOrder, IsByteOrder, message}
use cpp_npl.Ws.Header.{client_frame}
use cpp_npl.Ws.Stream.{ClientMessage, IsSendable, AllSendable, whole_frame, partial_frame}
use cpp_npl.Ws.Handshake.{
  Hashing, Session, Running, running, aborted, Message, http, frame, server, server_hello,
  send_server_hello, state_machine, is_message_complete, hand_over, some_http, some_frame,
  shake_hands, finish_handshake,
}
use cpp_npl.Socket.{SocketType}

-- The frames of messages, and what the session has become behind them.
abbrev pub sent_frames : ByteOrder → List ClientMessage → List (Bytes × Message)
sent_frames o [] = []
sent_frames o (m ∷ ms) =
    let f = client_frame o m.first m.key m.text in (f, frame (message f m.text)) ∷ sent_frames o ms

abbrev pub texts : List ClientMessage → List Bytes
texts [] = []
texts (m ∷ ms) = m.text ∷ texts ms

abbrev pub key_of : List (Bytes × Bytes) → Bytes
key_of hs = get_property (codes "Sec-WebSocket-Key") (set_all hs [])

module _ (h : Hashing) (o : ByteOrder) (b : IsByteOrder o) (stack : Bytes) where
  text_step :
      (whole text : Bytes) (s : Session)
      → s.handshake_done ≡ true
      → state_machine h (frame (message whole text)) (running s) ≡ running (hand_over text s)
  unfolding state_machine
  text_step whole text s d = rw d refl

  hand_over-done :
      (text : Bytes) (s : Session)
      → s.handshake_done ≡ true
      → (hand_over text s).handshake_done ≡ true
  hand_over-done text s d = ground arith

  frame-IsFrame :
      (m : ClientMessage) (s : Session)
      → IsSendable m
      → s.handshake_done ≡ true
      → IsFrame
          (server h o stack)
          (running s)
          (client_frame o m.first m.key m.text)
          (frame (message (client_frame o m.first m.key m.text) m.text))
  unfolding is_message_complete
  frame-IsFrame m s q d = record {
    whole = rw d (
        ap some_frame (
          whole_frame o b stack m.first m.key m.text q.four q.fits q.key_bytes q.text_bytes
            q.not_empty));
    minimal = λ front c back e.
        rw d (
          ap some_frame
            (partial_frame o b stack m.first m.key m.text q.four q.fits front c back e));
  }

  frames-AreFrames :
      (ms : List ClientMessage) (s : Session)
      → AllSendable ms
      → s.handshake_done ≡ true
      → AreFrames (server h o stack) (running s) (sent_frames o ms)
  frames-AreFrames [] s q d = tt
  frames-AreFrames (m ∷ ms) s (q, qs) d =
      let f = client_frame o m.first m.key m.text in
      (
        frame-IsFrame m s q d,
        (λ e. cc),
        subst (λ x. AreFrames (server h o stack) x (sent_frames o ms))
            (sym (text_step f m.text s d))
            (frames-AreFrames ms (hand_over m.text s) qs (hand_over-done m.text s d)),
      )

  opened_session : Bytes → Session → Session
  opened_session key s = record s {
    written = s.written ++ server_hello h key ∷ [];
    handshake_done = true;
  }

  hello_step :
      (hs : List (Bytes × Bytes)) (s : Session)
      → s.handshake_done ≡ false
      → s.socket ≡ some SocketType.accepted
      → is_empty (key_of hs) ≡ false
      → state_machine h (http (parsed (content hs))) (running s)
        ≡ running (opened_session (key_of hs) s)
  unfolding state_machine send_server_hello get_header opened_session shake_hands
  hello_step hs s d t k =
      ap (λ b. if b then running (hand_over [] s) else shake_hands h (content hs) s s.socket) d
      ∙ ap (shake_hands h (content hs) s) t
      ∙ ap
          (λ b. finish_handshake (
            if b
            then aborted
            else running (record s { written = s.written ++ server_hello h (key_of hs) ∷ [] })))
          k

  hello-IsFrame :
      (first : Bytes) (hs : List (Bytes × Bytes)) (s : Session)
      → IsRequest first hs
      → s.handshake_done ≡ false
      → IsFrame (server h o stack) (running s) (request first hs) (http (parsed (content hs)))
  unfolding is_message_complete
  hello-IsFrame first hs s q d = record {
    whole = rw d (ap some_http (request_whole first hs q));
    minimal = λ front c back e. rw d (ap some_http (request_minimal first hs q front c back e));
  }

  some_request : (first : Bytes) (hs : List (Bytes × Bytes)) → request first hs ≢ []
  some_request [] hs e = cc
  some_request (c ∷ first) hs e = cc

  -- What the frames leave.
  inner_after :
      (ms : List ClientMessage) (s : Session) (r : Reader Running Message)
      → s.handshake_done ≡ true
      → s.callback ≡ true
      → r.inner ≡ running s
      → (accept_all (server h o stack) (sent_frames o ms) r).inner
        ≡ running (record s { handed = s.handed ++ texts ms })
  inner_after [] s r d c e =
      e ∙ ap (λ l. running (record s { handed = l })) (sym (append-nil s.handed))
  inner_after (m ∷ ms) s r d c e =
      let f = client_frame o m.first m.key m.text in
      let one : hand_over m.text s ≡ record s { handed = s.handed ++ m.text ∷ [] } =
        ap (λ b. if b then record s { handed = s.handed ++ m.text ∷ [] } else s) c in
      inner_after ms (record s { handed = s.handed ++ m.text ∷ [] })
        (accept (server h o stack) (frame (message f m.text)) f r) d c
        (ap (state_machine h (frame (message f m.text))) e
          ∙ text_step f m.text s d
          ∙ ap running one)
      ∙ ap (λ l. running (record s { handed = l })) (append_assoc s.handed (m.text ∷ []) (texts ms))

  -- A client connects and sends its opening request and then masked texts, in whatever reads they
  -- arrive: the server writes its hello, once, for the key of the request, and the texts are handed
  -- to the callback one by one and in their order. The request names a key, the socket is one that
  -- was accepted, and there is a callback; each text has at least one byte and less than 2 ^ 31.
  pub session_opens :
      (first : Bytes) (hs : List (Bytes × Bytes)) (ms : List ClientMessage) (chunks : List Bytes)
      (s : Session) (r : Reader Running Message)
      → IsRequest first hs
      → is_empty (key_of hs) ≡ false
      → AllSendable ms
      → flatten chunks ≡ request first hs ++ frames (server h o stack) (sent_frames o ms)
      → s.handshake_done ≡ false
      → s.socket ≡ some SocketType.accepted
      → s.callback ≡ true
      → r.inner ≡ running s
      → r.buffer ≡ []
      → (on_chunks (server h o stack) chunks r).inner
        ≡ running (record s {
          handshake_done = true;
          written = s.written ++ server_hello h (key_of hs) ∷ [];
          handed = s.handed ++ texts ms;
        })
  unfolding opened_session
  session_opens first hs ms chunks s r q k qs cut d t c e empty =
      let p = server h o stack in
      let fs : List (Bytes × Message) =
        (request first hs, http (parsed (content hs))) ∷ sent_frames o ms in
      let hello = hello_step hs s d t k in
      let rest : AreFrames p (state_machine h (http (parsed (content hs))) (running s))
          (sent_frames o ms) =
        subst (λ x. AreFrames p x (sent_frames o ms)) (sym hello)
          (frames-AreFrames ms (opened_session (key_of hs) s) qs refl) in
      let all : AreFrames p (running s) fs =
        (hello-IsFrame first hs s q d, some_request first hs, rest) in
      ap (λ x. x.inner)
        (on_chunks-flatten p chunks r
          ∙ ap (λ x. on_read p x r) cut
          ∙ on_read-frames p fs r (subst (λ x. AreFrames p x fs) (sym e) all) empty)
      ∙ inner_after ms (opened_session (key_of hs) s)
          (accept p (http (parsed (content hs))) (request first hs) r) refl c
          (ap (state_machine h (http (parsed (content hs)))) e ∙ hello)

  no_key_step :
      (hs : List (Bytes × Bytes)) (s : Session)
      → s.handshake_done ≡ false
      → s.socket ≡ some SocketType.accepted
      → is_empty (key_of hs) ≡ true
      → state_machine h (http (parsed (content hs))) (running s) ≡ aborted
  unfolding state_machine send_server_hello get_header shake_hands
  no_key_step hs s d t k =
      ap (λ b. if b then running (hand_over [] s) else shake_hands h (content hs) s s.socket) d
      ∙ ap (shake_hands h (content hs) s) t
      ∙ ap
          (λ b. finish_handshake (
            if b
            then aborted
            else running (record s { written = s.written ++ server_hello h (key_of hs) ∷ [] })))
          k

  -- On an accepted socket whose handshake is not done: a request that names no key, in whatever reads
  -- it arrives, fails the assertion of `SendServerHello`, which ends the server.
  pub keyless_request_aborts :
      (first : Bytes) (hs : List (Bytes × Bytes)) (chunks : List Bytes) (s : Session)
      (r : Reader Running Message)
      → IsRequest first hs
      → is_empty (key_of hs) ≡ true
      → flatten chunks ≡ request first hs
      → s.handshake_done ≡ false
      → s.socket ≡ some SocketType.accepted
      → r.inner ≡ running s
      → r.buffer ≡ []
      → (on_chunks (server h o stack) chunks r).inner ≡ aborted
  keyless_request_aborts first hs chunks s r q k cut d t e empty =
      let p = server h o stack in
      let fs : List (Bytes × Message) = (request first hs, http (parsed (content hs))) ∷ [] in
      let all : AreFrames p (running s) fs =
        (hello-IsFrame first hs s q d, some_request first hs, tt) in
      ap (λ x. x.inner)
        (on_chunks-flatten p chunks r
          ∙ ap (λ x. on_read p x r) (cut ∙ sym (append-nil (request first hs)))
          ∙ on_read-frames p fs r (subst (λ x. AreFrames p x fs) (sym e) all) empty)
      ∙ ap (state_machine h (http (parsed (content hs)))) e
      ∙ no_key_step hs s d t k
