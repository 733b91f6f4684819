-- ===== src/Ws/Serving.antt =====
-- A server from its start: `StartServer` of CProtocol, `OnAccept` of CDeviceSocket and of CProtocolWS
-- (INCLUDE/CProtocol.hpp, INCLUDE/CDeviceSocket.hpp, INCLUDE/CProtocolWS.hpp), and the session with the
-- client that was accepted.
use mathlib.Core.List.{flatten}
use cpp_npl.Base.{
  ℕ, ◌≡◌, refl, ap, ◌∙◌, ◌==◌, ◌||◌, if◌then◌else◌, Bool, true, false, some, List, [], ◌∷◌, ◌++◌,
  Bytes, is_empty,
}
use cpp_npl.Device.{Kernel, went, failed, ◌>>=◌}
use cpp_npl.Protocol.{Reader}
use cpp_npl.Protocol.Stream.{frames, on_chunks}
use cpp_npl.Protocol.Lifecycle.{Link, on_target, start_server}
use cpp_npl.Http.Lines.{request}
use cpp_npl.Http.Request.{IsRequest}
use cpp_npl.Subject.{accept}
use cpp_npl.Socket.{Engine, SocketType, Socket, tell}
use cpp_npl.Socket.Events
use cpp_npl.Socket.Events.{accepted_socket, start_socket_server}
use cpp_npl.Ws.Frame.{ByteOrder, IsByteOrder}
use cpp_npl.Ws.Stream.{ClientMessage, AllSendable}
use cpp_npl.Ws.Handshake.{
  Hashing, Session, Running, running, Message, server, server_hello, on_accept,
}
use cpp_npl.Ws.Session.{sent_frames, texts, key_of, session_opens}

abbrev pub opening : Session → Reader Running Message
opening s = record { buffer = []; messages = []; notified = []; inner = running s }

abbrev pub accepted_session : Bool → Session
accepted_session callback = record {
  socket = some SocketType.accepted;
  callback = callback;
  handshake_done = false;
  written = [];
  handed = [];
}

module _ (K : Kernel) (E : Engine) where
  -- What a server comes to that is started and accepts a connection `k`: the listening socket, the
  -- accepted one, and the object that observes that; `d` is the dispatcher.
  pub record Accepts (d : ℕ) (p : Link K E) (l : Session) (k : K.State) (t : Session) : Type 0 where
    pub link : Link K E
    pub starts : start_server K E true true p ≡ went link
    pub listener : Socket K E
    pub target : link.target ≡ some listener
    pub peer : Socket K E
    pub accepts :
        Events.on_accept K E (some d) k listener ≡ went (d, peer, tell K E accept listener)
    pub connected : peer.connected ≡ true
    pub serves : on_accept (record l { socket = some listener.type }) ≡ some t
    pub sees : t.socket ≡ some peer.type

  accepts_lem :
      (d : ℕ) (p : Link K E) (s : Socket K E) (l : Session) (k : K.State)
      → p.target ≡ some s
      → (s.port == 0) ≡ false
      → Accepts d p l k (accepted_session l.callback)
  unfolding start_server start_socket_server Events.on_accept on_accept
  accepts_lem d p s l k t n =
      let up : Socket K E = record s { type = SocketType.listening } in
      record {
        link = record p { target = some up };
        starts =
            ap (on_target K E (start_socket_server K E true true) p) t
            ∙ ap
                (λ b. (if b || false || false then failed else went up) >>= λ x.
                  went (record p { target = some x }))
                n;
        listener = up;
        target = refl;
        peer = accepted_socket K E k;
        accepts = refl;
        connected = refl;
        serves = refl;
        sees = refl;
      }

-- From the start to the texts: a server whose socket has a port and a dispatcher, and for which `bind`
-- and `listen` succeed, accepts a connection; when its client sends an opening request with a key and
-- then masked texts of at least one byte and less than 2 ^ 31 each, in whatever reads they arrive, the server writes its hello once, and the texts are
-- handed to the callback of the listening object one by one and in their order.
pub accepted_client_served :
    (K : Kernel) (E : Engine) (h : Hashing) (o : ByteOrder) (stack : Bytes) (d : ℕ) (p : Link K E)
    (s : Socket K E) (l : Session) (k : K.State) (first : Bytes) (hs : List (Bytes × Bytes))
    (ms : List ClientMessage) (chunks : List Bytes)
    → IsByteOrder o
    → p.target ≡ some s
    → (s.port == 0) ≡ false
    → l.callback ≡ true
    → IsRequest first hs
    → is_empty (key_of hs) ≡ false
    → AllSendable ms
    → flatten chunks ≡ request first hs ++ frames (server h o stack) (sent_frames o ms)
    → (t : Session) × Accepts K E d p l k t
      × ((on_chunks (server h o stack) chunks (opening t)).inner
          ≡ running (record t {
            handshake_done = true;
            written = server_hello h (key_of hs) ∷ [];
            handed = texts ms;
          }))
accepted_client_served K E h o stack d p s l k first hs ms chunks b t n c q key qs cut =
    let session = accepted_session l.callback in
    (
      session,
      accepts_lem K E d p s l k t n,
      session_opens h o b stack first hs ms chunks session (opening session) q key qs cut refl refl
          c refl refl,
    )
