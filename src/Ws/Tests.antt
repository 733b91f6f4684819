-- ===== src/Ws/Tests.antt =====
-- Runs of CProtocolWS (INCLUDE/CProtocolWS.hpp) on small inputs, with a byte order written out.
use cpp_npl.Base.{
  ℕ, zero, suc, ◌+◌, ◌-◌, ◌*◌, ◌/◌, ◌%◌, ◌^◌, ◌<◌, ◌≡◌, refl, ap, append-nil, true, false, none,
  some, List, [], ◌∷◌, ◌++◌, Bytes, codes, length, arith,
}
use native.Mathlib.Nat.{pow-suc}
use cpp_npl.Protocol.{Reader, on_read}
use cpp_npl.Protocol.Stream.{frames, on_chunks, accept_all}
use cpp_npl.Ws.Frame.{
  ByteOrder, IsByteOrder, Delivery, message, crash, mask_from, is_message_complete,
  send_protocol_message,
}
use cpp_npl.Ws.Stream.{ClientMessage, IsSendable, framed, ws_reader, ws_stream}
use mathlib.Core.List.{flatten}
use cpp_npl.Subject.{get_property, set_property}
use cpp_npl.Socket.{Engine, Socket, SocketType}
use cpp_npl.Http.Lines.{request}
use cpp_npl.Http.Request.{IsRequest}
use cpp_npl.Ws.Handshake.{
  Hashing, Session, Running, running, aborted, Message, server, server_hello,
}
use cpp_npl.Ws.Session.{key_of, sent_frames, session_opens, keyless_request_aborts}
use cpp_npl.Device.{Kernel}
use cpp_npl.Socket.Events.{accepted_socket}
use cpp_npl.Protocol.Lifecycle.{Link}
use cpp_npl.Ws.Serving.{Accepts, accepted_session, opening, accepted_client_served}
use cpp_npl.Ws.Limits.{empty_frame_blocks, unmasked_text, length_wraps}

-- The least significant byte first; nothing here depends on the order.
read_bytes : Bytes → ℕ → ℕ
read_bytes b zero = 0
read_bytes [] (suc n) = 0
read_bytes (x ∷ b) (suc n) = x + 256 * read_bytes b n

write_bytes : ℕ → ℕ → Bytes
write_bytes v zero = []
write_bytes v (suc n) = (v % 256) ∷ write_bytes (v / 256) n

abbrev byte_order : ByteOrder
byte_order = record { btol = read_bytes; ltob = write_bytes }

write_bytes-width : (v n : ℕ) → length (write_bytes v n) ≡ n
unfolding write_bytes
write_bytes-width v zero = refl
write_bytes-width v (suc n) = omega (arith, write_bytes-width (v / 256) n)

read_bytes-back :
    (n v : ℕ) (rest : Bytes) → v < 256 ^ n → read_bytes (write_bytes v n ++ rest) n ≡ v
unfolding read_bytes write_bytes
read_bytes-back zero v rest h = omega arith
read_bytes-back (suc n) v rest h =
    let smaller : v / 256 < 256 ^ n = omega (arith, pow-suc 256 n) in
    omega (arith, read_bytes-back n (v / 256) rest smaller)

byte_order-IsByteOrder : IsByteOrder byte_order
byte_order-IsByteOrder = record {
  width = write_bytes-width;
  back = λ v n rest h. read_bytes-back n v rest h;
}

abbrev hello : ClientMessage
hello = record { first = 129; key = 1 ∷ 2 ∷ 3 ∷ 4 ∷ []; text = codes "hello" }

hello-IsSendable : IsSendable hello
hello-IsSendable = record {
  four = refl;
  key_bytes = omega arith;
  text_bytes = omega arith;
  not_empty = refl;
  fits = omega arith;
}

abbrev keep : Delivery → List Delivery → List Delivery
keep m ms = m ∷ ms

abbrev fresh : Bytes → Reader (List Delivery) Delivery
fresh b = record { buffer = b; messages = []; notified = []; inner = [] }

ws_stream_example :
    on_read
      (ws_reader byte_order [] keep)
      (frames (ws_reader byte_order [] keep) (framed byte_order (hello ∷ hello ∷ [])))
      (fresh [])
    ≡ accept_all (ws_reader byte_order [] keep) (framed byte_order (hello ∷ hello ∷ [])) (fresh [])
ws_stream_example =
    ws_stream byte_order byte_order-IsByteOrder [] keep (hello ∷ hello ∷ []) (fresh [])
      (hello-IsSendable, (hello-IsSendable, tt)) refl

empty_frame_blocks_example :
    on_read (ws_reader byte_order [] keep) (codes "more") (fresh (137 ∷ 128 ∷ 1 ∷ 2 ∷ 3 ∷ 4 ∷ []))
    ≡ fresh (137 ∷ 128 ∷ 1 ∷ 2 ∷ 3 ∷ 4 ∷ codes "more")
empty_frame_blocks_example =
    empty_frame_blocks byte_order [] keep 137 1 2 3 4 (codes "more") []
      (fresh (137 ∷ 128 ∷ 1 ∷ 2 ∷ 3 ∷ 4 ∷ [])) refl

unmasked_text_example :
    is_message_complete byte_order
      (9 ∷ 9 ∷ 9 ∷ 9 ∷ [])
      (send_protocol_message byte_order (codes "hi"))
    ≡ some (
        message
          (send_protocol_message byte_order (codes "hi"))
          (mask_from 0 (9 ∷ 9 ∷ 9 ∷ 9 ∷ []) (codes "hi")))
unmasked_text_example =
    unmasked_text byte_order (9 ∷ 9 ∷ 9 ∷ 9 ∷ []) (codes "hi") refl (omega arith)

length_wraps_example :
    is_message_complete byte_order [] (130 ∷ 255 ∷ byte_order.ltob (2 ^ 64 - 4) 8) ≡ some crash
length_wraps_example = length_wraps byte_order [] 130 byte_order-IsByteOrder

-- A request to open a session, and one without a key.
abbrev first_line : Bytes
first_line = codes "GET /chat HTTP/1.1"

abbrev keyless : List (Bytes × Bytes)
keyless = (codes "Host", codes "example.com") ∷ []

abbrev keyed : List (Bytes × Bytes)
keyed = (codes "Sec-WebSocket-Key", codes "c2FtcGxl") ∷ []

keyless-IsRequest : IsRequest first_line keyless
keyless-IsRequest = record {
  line = ground arith;
  no_separator = refl;
  headers = ground arith;
  some_header = refl;
  no_length = refl;
}

keyed-IsRequest : IsRequest first_line keyed
keyed-IsRequest = record {
  line = ground arith;
  no_separator = refl;
  headers = ground arith;
  some_header = refl;
  no_length = refl;
}

abbrev hashing : Hashing
hashing = record { message_digest = λ b. b; base64_encode = λ b. b }

abbrev new_reader : Reader Running Message
new_reader = record {
  buffer = [];
  messages = [];
  notified = [];
  inner = running (accepted_session true);
}

session_opens_example :
    (on_chunks
      (server hashing byte_order [])
      (request first_line keyed
        ∷ frames (server hashing byte_order []) (sent_frames byte_order (hello ∷ hello ∷ []))
        ∷ [])
      new_reader).inner
    ≡ running (record (accepted_session true) {
      handshake_done = true;
      written = server_hello hashing (codes "c2FtcGxl") ∷ [];
      handed = codes "hello" ∷ codes "hello" ∷ [];
    })
unfolding flatten get_property set_property
session_opens_example =
    session_opens hashing byte_order byte_order-IsByteOrder [] first_line keyed (hello ∷ hello ∷ [])
      (request first_line keyed
        ∷ frames (server hashing byte_order []) (sent_frames byte_order (hello ∷ hello ∷ []))
        ∷ [])
      (accepted_session true) new_reader keyed-IsRequest refl
      (hello-IsSendable, (hello-IsSendable, tt))
      (ap (λ t. request first_line keyed ++ t)
        (append-nil
          (frames (server hashing byte_order []) (sent_frames byte_order (hello ∷ hello ∷ [])))))
      refl refl refl refl refl

keyless_request_aborts_example :
    (on_chunks (server hashing byte_order []) (request first_line keyless ∷ []) new_reader).inner
    ≡ aborted
unfolding flatten get_property set_property
keyless_request_aborts_example =
    keyless_request_aborts hashing byte_order byte_order-IsByteOrder [] first_line keyless
      (request first_line keyless ∷ []) (accepted_session true) new_reader keyless-IsRequest refl
      (append-nil (request first_line keyless)) refl refl refl refl

-- A system and an engine of which nothing is asked here.
abbrev idle_kernel : Kernel
idle_kernel = record {
  State = Unit {0};
  open_file = λ name create. none;
  read = λ n k. (none, k);
  write = λ b k. (some (length b), k);
  shutdown_send = λ k. k;
  accept = λ k. (true, k);
  seek = λ n k. (false, k);
  read_sync = λ n k. (none, k);
  write_sync = λ b k. (none, k);
}

abbrev idle_engine : Engine
idle_engine = record {
  State = Unit {0};
  new_client = tt;
  new_server = tt;
  do_handshake = λ e. (true, e);
  bio_write = λ b e. (true, e);
  read = λ n e. (none, e);
  write = λ b e. e;
  shutdown = λ e. e;
  sent_shutdown = λ e. false;
  received_shutdown = λ e. false;
  pending = λ e. 0;
  bio_read = λ n e. ([], e);
}

abbrev server_socket : Socket idle_kernel idle_engine
server_socket = record (accepted_socket idle_kernel idle_engine tt) {
  type = SocketType.invalid;
  connected = false;
  port = 8081;
}

abbrev server_link : Link idle_kernel idle_engine
server_link = record {
  target = some server_socket;
  connect_cbk = false;
  called = 0;
  protocol_state = codes "CONNECTING";
}

abbrev listening_session : Session
listening_session = record (accepted_session true) { socket = some SocketType.listening }

accepted_client_served_example :
    (t : Session) × Accepts idle_kernel idle_engine 0 server_link listening_session tt t
    × ((on_chunks
          (server hashing byte_order [])
          (request first_line keyed
            ∷ frames (server hashing byte_order []) (sent_frames byte_order (hello ∷ []))
            ∷ [])
          (opening t)).inner
        ≡ running (record t {
          handshake_done = true;
          written = server_hello hashing (key_of keyed) ∷ [];
          handed = codes "hello" ∷ [];
        }))
unfolding flatten get_property set_property
accepted_client_served_example =
    accepted_client_served idle_kernel idle_engine hashing byte_order [] 0 server_link server_socket
      listening_session tt first_line keyed (hello ∷ [])
      (request first_line keyed
        ∷ frames (server hashing byte_order []) (sent_frames byte_order (hello ∷ []))
        ∷ [])
      byte_order-IsByteOrder refl refl refl keyed-IsRequest refl (hello-IsSendable, tt)
      (ap (λ t. request first_line keyed ++ t)
        (append-nil (frames (server hashing byte_order []) (sent_frames byte_order (hello ∷ [])))))
