-- ===== src/Http.antt =====
-- CHTTPMessage and CProtocolHTTP (INCLUDE/CProtocolHTTP.hpp).
pub mod Length
pub mod Search
pub mod Lines
pub mod Request
pub mod Post
mod Tests
use cpp_npl.Base.{
  ℕ, zero, suc, ◌+◌, ◌-◌, ◌%◌, ◌^◌, Option, none, some, List, [], ◌∷◌, ◌++◌, Bytes, codes, length,
  take, drop, is_empty, find, ltb, leb, ◌==◌, if◌then◌else◌,
}
use cpp_npl.Base.Decimal.{decimal, stoi}
use cpp_npl.Subject.{set_property, get_property}

-- What a constructed CHTTPMessage holds.
pub record Content : Type 0 where
  pub headers : List (Bytes × Bytes)
  pub payload : Bytes

-- `fault` is an exception of the library's, or `pop_back` on an empty string.
pub data Parse : Type 0 where
  parsed : Content → Parse
  fault : Parse

abbrev crlf : Bytes
crlf = codes "\r\n"

-- An `int` of 32 bits as a `size_t`.
abbrev extended : ℕ → ℕ
extended v = if ltb v (2 ^ 31) then v else v + (2 ^ 64 - 2 ^ 32)

-- The text that `ParseMessage` hands to `std::stoi`: what stands behind "Content-Length: ", as far
-- as the end of the line and less one byte; all of it where that length wraps.
unfoldable pub number_text : Bytes → Bytes
number_text s = elim (find crlf s) [ none ↦ s | some zero ↦ s | some (suc n) ↦ take n s ]

-- `bodyLength`; `none` is an exception.
unfoldable pub body_length : Bytes → Option ℕ
unfolding number_text
body_length m = elim (find (codes "Content-Length") m) [
  | none ↦ some 0
  | some at ↦ if leb (at + 16) (length m) then stoi (number_text (drop (at + 16) m)) else none
]

-- `std::getline` with '\n' to the end of the text; the first argument is the line so far.
unfoldable pub lines_from : Bytes → Bytes → List Bytes
lines_from line [] = if is_empty line then [] else line ∷ []
lines_from line (c ∷ s) = if c == 10 then line ∷ lines_from [] s else lines_from (line ++ c ∷ []) s

-- `pop_back`.
abbrev pop_back : Bytes → Option Bytes
pop_back [] = none
pop_back (c ∷ []) = some []
pop_back (c ∷ d ∷ s) = elim (pop_back (d ∷ s)) [ none ↦ none | some t ↦ some (c ∷ t) ]

-- `SetHeader`, for a line that has a separator.
unfoldable pub set_header : Bytes → List (Bytes × Bytes) → List (Bytes × Bytes)
set_header line hs = elim (find (codes ": ") line) [
  | none ↦ hs
  | some at ↦ set_property (take at line) (drop (at + 2) line) hs
]

-- The loop of `ParseMessage` over the lines.
unfoldable pub read_headers : List Bytes → List (Bytes × Bytes) → Option (List (Bytes × Bytes))
unfolding set_header
read_headers [] hs = some hs
read_headers (line ∷ lines) hs = elim (pop_back line) [
  | none ↦ none
  | some text ↦ read_headers lines (set_header text hs)
]

abbrev with_payload : Bytes → Option (List (Bytes × Bytes)) → Parse
with_payload p none = fault
with_payload p (some hs) = parsed (record { headers = hs; payload = p })

abbrev pub no_content : Parse
no_content = parsed (record { headers = []; payload = [] })

-- The part of `ParseMessage` behind the search for the end of the headers.
unfoldable pub parse_body : Bytes → ℕ → ℕ → Parse
unfolding lines_from read_headers
parse_body m at len =
    let hs = read_headers (lines_from [] m) [] in
    if len == 0
    then with_payload [] hs
    else (if length m == (at + 4 + extended len) % 2 ^ 64
        then with_payload (take (extended len) (drop (at + 4) m)) hs
        else no_content)

-- `ParseMessage`.
unfoldable pub parse_message : Bytes → Parse
unfolding body_length parse_body
parse_message m = elim (find (codes "\r\n\r\n") m) [
  | none ↦ no_content
  | some at ↦ elim (body_length m) [ none ↦ fault | some len ↦ parse_body m at len ]
]

abbrev offered : Parse → Option Parse
offered fault = some fault
offered (parsed c) = if is_empty c.headers then none else some (parsed c)

-- `IsMessageComplete`.
unfoldable pub is_message_complete : Bytes → Option Parse
unfolding parse_message
is_message_complete b = offered (parse_message b)

-- `GetHeader`: `operator[]` makes an entry for a key that is missing.
unfoldable pub get_header : Bytes → Content → Bytes × Content
get_header key c =
    let value = get_property key c.headers in
    (value, record c { headers = set_property key value c.headers })

-- `GetPayloadLength`; `none` is an exception.
unfoldable pub get_payload_length : Content → Option ℕ × Content
unfolding get_header
get_payload_length c =
    let (h, d) = get_header (codes "Content-Length") c in
    ((if is_empty h then some 0 else stoi h), d)

-- What `Post` writes to its target.
unfoldable pub post : Bytes → Bytes → Bytes
post url body =
    codes "POST "
    ++ url
    ++ codes " HTTP/1.1\r\n"
    ++ codes "Host: 127.0.0.1\r\n"
    ++ codes "Content-type: text/plain\r\n"
    ++ codes "Content-length: "
    ++ decimal (length body)
    ++ crlf
    ++ crlf
    ++ body
