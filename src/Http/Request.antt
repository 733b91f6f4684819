-- ===== src/Http/Request.antt =====
-- A message without a body, as a client's request, through `ParseMessage` and `IsMessageComplete` of
-- INCLUDE/CProtocolHTTP.hpp.
use cpp_npl.Base.{
  ℕ, ◌≡◌, refl, subst, sym, ap, ◌∙◌, false, none, some, List, [], ◌∷◌, ◌++◌, Bytes, codes, is_empty,
  find, if◌then◌else◌, arith,
}
use cpp_npl.Subject.{set_property}
use cpp_npl.Protocol.{Subclass}
use cpp_npl.Protocol.Stream.{IsFrame}
use cpp_npl.Http.{
  Content, Parse, parsed, fault, lines_from, set_header, read_headers, parse_body, parse_message,
  body_length, is_message_complete, offered, no_content, with_payload,
}
use cpp_npl.Http.Search.{EndsIn, not_before}
use cpp_npl.Http.Lines.{
  request, head_of, header_lines, HasNoBreak, AreLines, AreHeaders, set_all, blank_line,
  lines_from-line, read_line, read_all_lines, unbroken,
}

not_empty_property :
    (k v : Bytes) (ps : List (Bytes × Bytes)) → is_empty (set_property k v ps) ≡ false
unfolding set_property
not_empty_property k v [] = refl
not_empty_property k v ((name, value) ∷ ps) = ground arith

not_empty_headers :
    (hs kept : List (Bytes × Bytes)) → is_empty kept ≡ false → is_empty (set_all hs kept) ≡ false
not_empty_headers [] kept h = h
not_empty_headers ((name, value) ∷ hs) kept h =
    not_empty_headers hs (set_property name value kept) (not_empty_property name value kept)

header_lines-AreLines : (hs : List (Bytes × Bytes)) → AreHeaders hs → AreLines (header_lines hs)
header_lines-AreLines [] h = tt
header_lines-AreLines (([], value) ∷ hs) (e, colon, b, b', more) = cc
header_lines-AreLines ((c ∷ name, value) ∷ hs) (e, colon, b, b', more) =
    (refl, unbroken (c ∷ name) value b b', header_lines-AreLines hs more)

-- What a client sends to open: a line without ": " and then headers, of which there is one at least
-- and none that has to do with a length.
pub record IsRequest (first : Bytes) (hs : List (Bytes × Bytes)) : Type 0 where
  pub line : HasNoBreak first
  pub no_separator : find (codes ": ") first ≡ none
  pub headers : AreHeaders hs
  pub some_header : is_empty hs ≡ false
  pub no_length : find (codes "Content-Length") (request first hs) ≡ none

abbrev pub content : List (Bytes × Bytes) → Content
content hs = record { headers = set_all hs []; payload = [] }

-- Without the blank line a message is not complete.
pub unfinished : (b : Bytes) → find (codes "\r\n\r\n") b ≡ none → is_message_complete b ≡ none
unfolding is_message_complete parse_message
unfinished b absent = rw (absent, parse_message) refl

module _ (first : Bytes) (hs : List (Bytes × Bytes)) (q : IsRequest first hs) where
  no_header : set_header first [] ≡ []
  unfolding set_header
  no_header = rw (q.no_separator, set_header) refl

  request_lines : read_headers (lines_from [] (request first hs)) [] ≡ some (set_all hs [])
  unfolding lines_from read_headers
  request_lines =
      ap (λ ls. read_headers ls []) (lines_from-line [] first (head_of (header_lines hs)) q.line)
      ∙ read_line first (lines_from [] (head_of (header_lines hs))) []
      ∙ ap (read_headers (lines_from [] (head_of (header_lines hs)))) no_header
      ∙ read_all_lines hs [] q.headers

  request_length : body_length (request first hs) ≡ some 0
  unfolding body_length
  request_length = rw (q.no_length, body_length) refl

  request-EndsIn : EndsIn (codes "\r\n\r\n") (request first hs)
  request-EndsIn = blank_line first (header_lines hs) q.line (header_lines-AreLines hs q.headers)

  request_parsed : parse_message (request first hs) ≡ parsed (content hs)
  unfolding parse_message parse_body
  request_parsed =
      let m : Bytes = request first hs in
      let (at, f, l) = request-EndsIn in
      ap
        (λ o. elim o [
          | none ↦ no_content
          | some at ↦ elim (body_length m) [ none ↦ fault | some len ↦ parse_body m at len ]
        ])
        f
      ∙ ap (λ o. elim o [ none ↦ fault | some len ↦ parse_body m at len ]) request_length
      ∙ ap (with_payload []) request_lines

  not_empty_content :
      (hs : List (Bytes × Bytes)) → is_empty hs ≡ false → is_empty (set_all hs []) ≡ false
  not_empty_content [] h = cc
  not_empty_content ((name, value) ∷ hs) h =
      not_empty_headers hs (set_property name value []) (not_empty_property name value [])

  pub request_whole : is_message_complete (request first hs) ≡ some (parsed (content hs))
  unfolding is_message_complete
  request_whole =
      ap offered request_parsed
      ∙ ap (λ e. if e then none else some (parsed (content hs)))
          (not_empty_content hs q.some_header)

  pub request_minimal :
      (front : Bytes) (b : ℕ) (back : Bytes)
      → front ++ b ∷ back ≡ request first hs
      → is_message_complete front ≡ none
  request_minimal front b back e = unfinished front (
      not_before (codes "\r\n\r\n") front b back
        (subst (EndsIn (codes "\r\n\r\n")) (sym e) request-EndsIn))

-- The reader of CProtocolHTTP, whose state machine does nothing.
abbrev pub http_reader : Subclass (Unit {0}) Parse
http_reader = record {
  is_message_complete = λ s b. is_message_complete b;
  state_machine = λ m s. s;
}

-- A request of a first line and headers is one message of CProtocolHTTP, complete at the end of the
-- blank line and not before. Its headers are those that were sent, where of two of one name the later
-- counts, and it has no body. The first line has no ": " in it, names have no colon, nothing has
-- a line break, there is a header, and "Content-Length" stands nowhere.
pub request-IsFrame :
    (first : Bytes) (hs : List (Bytes × Bytes))
    → IsRequest first hs
    → IsFrame http_reader tt (request first hs) (parsed (content hs))
request-IsFrame first hs q = record {
  whole = request_whole first hs q;
  minimal = request_minimal first hs q;
}
