-- ===== src/Http/Post.antt =====
-- `Post` (INCLUDE/CProtocolHTTP.hpp), read by the same class.
use cpp_npl.Base.{
  ℕ, ◌≡◌, refl, sym, ap, ◌∙◌, false, none, List, [], ◌∷◌, ◌++◌, append_assoc, append-nil, Bytes,
  codes, length, find, shift_found, starts_with, arith,
}
use cpp_npl.Base.Decimal.{decimal, AreDigits, decimal-AreDigits}
use cpp_npl.Protocol.{Reader, accept, on_read}
use cpp_npl.Protocol.Stream.{on_read-append, on_read_frame, on_byte_waits}
use cpp_npl.Http.Search.{not_in_front}
use cpp_npl.Http.{Parse, parsed, post}
use cpp_npl.Http.Lines.{HasNoBreak, HasNoColon, request}
use cpp_npl.Http.Request.{IsRequest, content, unfinished, http_reader, request-IsFrame}

abbrev pub post_line : Bytes → Bytes
post_line url = codes "POST " ++ url ++ codes " HTTP/1.1"

abbrev pub post_headers : ℕ → List (Bytes × Bytes)
post_headers n =
    (codes "Host", codes "127.0.0.1")
    ∷ (codes "Content-type", codes "text/plain")
    ∷ (codes "Content-length", decimal n)
    ∷ []

post-request :
    (url body : Bytes)
    → post url body ≡ request (post_line url) (post_headers (length body)) ++ body
unfolding post
post-request url body = simp append_assoc

HasNoBreak-append : (s t : Bytes) → HasNoBreak s → HasNoBreak t → HasNoBreak (s ++ t)
HasNoBreak-append [] t h k = k
HasNoBreak-append (c ∷ s) t (h, h', hs) k = (h, h', HasNoBreak-append s t hs k)

digits-HasNoBreak : (s : Bytes) → AreDigits s → HasNoBreak s
digits-HasNoBreak [] h = tt
digits-HasNoBreak (c ∷ s) (h, hs) = (ground arith, ground arith, digits-HasNoBreak s hs)

-- Without a colon there is no separator, and behind it none either.
no_separator :
    (s t : Bytes) → HasNoColon s → find (codes ": ") t ≡ none → find (codes ": ") (s ++ t) ≡ none
no_separator [] t h k = k
no_separator (c ∷ s) t (h, hs) k =
    let other : starts_with (codes ": ") (c ∷ s ++ t) ≡ false = ground arith in
    ap (λ b. shift_found b (find (codes ": ") (s ++ t))) other
    ∙ ap (shift_found false) (no_separator s t hs k)

post-IsRequest :
    (url : Bytes) (n : ℕ)
    → HasNoBreak url
    → HasNoColon url
    → find (codes "Content-Length") (request (post_line url) (post_headers n)) ≡ none
    → IsRequest (post_line url) (post_headers n)
post-IsRequest url n b c l = record {
  line =
      HasNoBreak-append (codes "POST " ++ url) (codes " HTTP/1.1")
        (HasNoBreak-append (codes "POST ") url (ground arith) b) (ground arith);
  no_separator =
      no_separator (codes "POST " ++ url) (codes " HTTP/1.1")
        (refl, (refl, (refl, (refl, (refl, c))))) refl;
  headers = ground (arith, digits-HasNoBreak (decimal n) (decimal-AreDigits n));
  some_header = refl;
  no_length = l;
}

-- A text in which no message ends only lengthens the buffer.
waits :
    (b : Bytes) (r : Reader (Unit {0}) Parse)
    → find (codes "\r\n\r\n") (r.buffer ++ b) ≡ none
    → on_read http_reader b r ≡ record r { buffer = r.buffer ++ b }
unfolding on_read
waits [] r h = ap (λ t. record r { buffer = t }) (sym (append-nil r.buffer))
waits (c ∷ b) r h =
    let joined = append_assoc r.buffer (c ∷ []) b in
    let front =
      not_in_front (codes "\r\n\r\n") (r.buffer ++ c ∷ []) b
        (ap (find (codes "\r\n\r\n")) joined ∙ h) in
    ap (on_read http_reader b)
      (on_byte_waits http_reader c r (unfinished (r.buffer ++ c ∷ []) front))
    ∙ waits b (record r { buffer = r.buffer ++ c ∷ [] }) (ap (find (codes "\r\n\r\n")) joined ∙ h)
    ∙ ap (λ t. record r { buffer = t }) joined

-- What `Post` writes, read by the same class: its headers are one message, which has no body, and
-- the body stays in the buffer as the beginning of the next. The url has neither a colon nor a line
-- break, "Content-Length" does not stand in the headers, and the body has no empty line.
pub post_body_left :
    (url body : Bytes) (r : Reader (Unit {0}) Parse)
    → HasNoBreak url
    → HasNoColon url
    → find (codes "Content-Length") (request (post_line url) (post_headers (length body))) ≡ none
    → find (codes "\r\n\r\n") body ≡ none
    → r.buffer ≡ []
    → on_read http_reader (post url body) r ≡ record r {
      buffer = body;
      messages = r.messages ++ parsed (content (post_headers (length body))) ∷ [];
      notified = r.notified ++ request (post_line url) (post_headers (length body)) ∷ [];
    }
post_body_left url body r b c l free e =
    let hs = post_headers (length body) in
    let head : Bytes = request (post_line url) hs in
    let q = post-IsRequest url (length body) b c l in
    ap (λ t. on_read http_reader t r) (post-request url body)
    ∙ on_read-append http_reader head body r
    ∙ ap (on_read http_reader body) (
        on_read_frame http_reader head r (parsed (content hs))
          (request-IsFrame (post_line url) hs q) (λ x. cc) e)
    ∙ waits body (accept http_reader (parsed (content hs)) head r) free
