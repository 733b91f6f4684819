-- ===== src/Http/Tests.antt =====
-- A run of CHTTPMessage (INCLUDE/CProtocolHTTP.hpp): a length of two digits.
use cpp_npl.Base.{
  ◌≡◌, refl, ◌/◌, none, some, List, [], ◌∷◌, Bytes, codes, ltb, if◌then◌else◌, arith,
}
use cpp_npl.Base.Decimal.{decimal}
use cpp_npl.Protocol.{Reader, on_read}
use cpp_npl.Protocol.Stream.{IsFrame}
use cpp_npl.Http.{Parse, body_length, parsed, post}
use cpp_npl.Http.Post.{post_line, post_headers, post_body_left}
use cpp_npl.Http.Lines.{request}
use cpp_npl.Http.Request.{IsRequest, content, http_reader, request-IsFrame}
use cpp_npl.Http.Length.{with_length, last_digit_lost}

last_digit_lost_example :
    body_length (with_length (codes "POST / HTTP/1.1\r\n") 12 (codes "\r\nhello, world"))
    ≡ (if ltb 12 10 then none else some (12 / 10))
last_digit_lost_example =
    last_digit_lost (codes "POST / HTTP/1.1\r\n") (codes "\r\nhello, world") 12 refl (omega arith)

-- A request to open a connection.
abbrev first_line : Bytes
first_line = codes "GET / HTTP/1.1"

abbrev two_headers : List (Bytes × Bytes)
two_headers = (codes "Host", codes "a: b") ∷ (codes "Accept", []) ∷ []

two_headers-IsRequest : IsRequest first_line two_headers
two_headers-IsRequest = record {
  line = ground arith;
  no_separator = refl;
  headers = ground arith;
  some_header = refl;
  no_length = refl;
}

request-IsFrame_example :
    IsFrame http_reader tt (request first_line two_headers) (parsed (content two_headers))
request-IsFrame_example = request-IsFrame first_line two_headers two_headers-IsRequest

abbrev empty_reader : Reader (Unit {0}) Parse
empty_reader = record { buffer = []; messages = []; notified = []; inner = tt }

post_body_left_example :
    on_read http_reader (post (codes "/api") (codes "hi")) empty_reader ≡ record empty_reader {
      buffer = codes "hi";
      messages = parsed (content (post_headers 2)) ∷ [];
      notified = request (post_line (codes "/api")) (post_headers 2) ∷ [];
    }
unfolding decimal
post_body_left_example =
    post_body_left (codes "/api") (codes "hi") empty_reader (ground arith) (ground arith) refl refl
      refl
