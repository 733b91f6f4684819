-- ===== src/Ws/Handshake.antt =====
-- The opening handshake of CProtocolWS (INCLUDE/CProtocolWS.hpp), and what its state machine does with
-- messages then.
use cpp_npl.Base.{
  Bool, true, false, Option, none, some, List, [], ◌∷◌, ◌++◌, Bytes, codes, is_empty, if◌then◌else◌,
}
use cpp_npl.Protocol.{Subclass}
use cpp_npl.Http.{Content, Parse, parsed, fault, get_header}
use cpp_npl.Http
use cpp_npl.Ws.Frame.{ByteOrder, Delivery, message, crash}
use cpp_npl.Ws.Frame
use cpp_npl.Socket.{SocketType, is_client}

-- `MessageDigest` and `Base64Encode`, of the library beside this one.
pub record Hashing : Type 0 where
  pub message_digest : Bytes → Bytes
  pub base64_encode : Bytes → Bytes

-- The object: its target, as far as its type goes, whether there is a callback of the user's, what it
-- wrote to its target and what it handed to the callback, the oldest first.
pub record Session : Type 0 where
  pub socket : Option SocketType
  pub callback : Bool
  pub handshake_done : Bool
  pub written : List Bytes
  pub handed : List Bytes

-- A session, or a run that ended in a failed `assert`, a null pointer or an exception.
pub data Running : Type 0 where
  running : Session → Running
  aborted : Running

-- What `IsMessageComplete` makes, before and after the handshake.
pub data Message : Type 0 where
  http : Parse → Message
  frame : Delivery → Message

-- What `SendServerHello` writes, for a key.
unfoldable pub server_hello : Hashing → Bytes → Bytes
server_hello h key =
    codes "HTTP/1.1 101 Switching Protocols\r\n"
    ++ codes "Upgrade: websocket\r\n"
    ++ codes "Connection: Upgrade\r\n"
    ++ codes "Sec-WebSocket-Accept: "
    ++ h.base64_encode (h.message_digest (key ++ codes "258EAFA5-E914-47DA-95CA-C5AB0DC85B11"))
    ++ codes "\r\n"
    ++ codes "\r\n"

-- `SendServerHello`.
unfoldable pub send_server_hello : Hashing → Content → Session → Running
unfolding server_hello get_header
send_server_hello h c s =
    let key = (get_header (codes "Sec-WebSocket-Key") c).0 in
    if is_empty key
    then aborted
    else running (record s { written = s.written ++ server_hello h key ∷ [] })

abbrev pub finish_handshake : Running → Running
finish_handshake aborted = aborted
finish_handshake (running s) = running (record s { handshake_done = true })

-- `StateMachine` before the handshake is done; `ValidateServerHello` and `ValidateClientHello` accept
-- every message.
unfoldable pub shake_hands : Hashing → Content → Session → Option SocketType → Running
unfolding send_server_hello
shake_hands h c s none = aborted
shake_hands h c s (some t) =
    finish_handshake (if is_client t then running s else send_server_hello h c s)

-- `StateMachine` then: the payload goes to the callback.
abbrev pub hand_over : Bytes → Session → Session
hand_over text s = if s.callback then record s { handed = s.handed ++ text ∷ [] } else s

-- A message of the kind that the handshake does not read is no CHTTPMessage: a null pointer.
unfoldable pub machine_step : Hashing → Message → Session → Running
unfolding shake_hands
machine_step h (http fault) s = aborted
machine_step h (frame crash) s = aborted
machine_step h (http (parsed c)) s =
    if s.handshake_done then running (hand_over c.payload s) else shake_hands h c s s.socket
machine_step h (frame (message whole text)) s =
    if s.handshake_done then running (hand_over text s) else aborted

-- `StateMachine`.
unfoldable pub state_machine : Hashing → Message → Running → Running
unfolding machine_step
state_machine h m aborted = aborted
state_machine h m (running s) = machine_step h m s

abbrev pub some_http : Option Parse → Option Message
some_http none = none
some_http (some p) = some (http p)

abbrev pub some_frame : Option Delivery → Option Message
some_frame none = none
some_frame (some d) = some (frame d)

-- `IsMessageComplete`.
unfoldable pub is_message_complete : ByteOrder → Bytes → Running → Bytes → Option Message
is_message_complete o stack aborted b = none
is_message_complete o stack (running s) b =
    if s.handshake_done
    then some_frame (Frame.is_message_complete o stack b)
    else some_http (Http.is_message_complete b)

-- The object as a subclass of CProtocol.
abbrev pub server : Hashing → ByteOrder → Bytes → Subclass Running Message
server h o stack = record {
  is_message_complete = is_message_complete o stack;
  state_machine = state_machine h;
}

-- `SetClientCallback`, of CProtocol.
unfoldable pub set_client_callback : Bool → Session → Session
set_client_callback cbk s = record s { callback = cbk }

-- `OnAccept` of the listening object: a new object with the same callback observes the accepted
-- socket, if the target is a socket.
unfoldable pub on_accept : Session → Option Session
on_accept s = elim s.socket [
  | none ↦ none
  | some t ↦ some (record {
    socket = some SocketType.accepted;
    callback = s.callback;
    handshake_done = false;
    written = [];
    handed = [];
  })
]

-- `SendClientHello` sends nothing, and so does `OnConnect`.
unfoldable pub send_client_hello : Session → Bool × Session
send_client_hello s = (false, s)

unfoldable pub on_connect : Session → Session
unfolding send_client_hello
on_connect s = (send_client_hello s).1
