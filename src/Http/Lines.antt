-- ===== src/Http/Lines.antt =====
-- The headers of a message, line by line, through the loop of `ParseMessage`
-- (INCLUDE/CProtocolHTTP.hpp).
use cpp_npl.Base.{
  ℕ, ◌+◌, ◌≡◌, refl, sym, ap, ap₂, ◌∙◌, false, none, some, List, [], ◌∷◌, ◌++◌, append_assoc, Bytes,
  codes, length, length-append, take, take-length, drop, drop-length, is_empty, find, shift_found,
  starts_with, ◌==◌, arith,
}
use cpp_npl.Subject.{set_property}
use cpp_npl.Http.{lines_from, pop_back, set_header, read_headers}
use cpp_npl.Http.Search.{EndsIn, EndsIn-cons}

-- Lines and the blank line behind them.
abbrev pub head_of : List Bytes → Bytes
head_of [] = 13 ∷ 10 ∷ []
head_of (l ∷ ls) = l ++ 13 ∷ 10 ∷ head_of ls

abbrev pub header_lines : List (Bytes × Bytes) → List Bytes
header_lines [] = []
header_lines ((name, value) ∷ hs) = (name ++ 58 ∷ 32 ∷ value) ∷ header_lines hs

abbrev pub request : Bytes → List (Bytes × Bytes) → Bytes
request first hs = head_of (first ∷ header_lines hs)

-- A text without an end of a line in it, and a name without a colon.
abbrev pub HasNoBreak : Bytes → Type 0
HasNoBreak [] = Unit {0}
HasNoBreak (c ∷ s) = ((c == 13) ≡ false) × ((c == 10) ≡ false) × HasNoBreak s

abbrev pub HasNoColon : Bytes → Type 0
HasNoColon [] = Unit {0}
HasNoColon (c ∷ s) = ((c == 58) ≡ false) × HasNoColon s

abbrev pub AreLines : List Bytes → Type 0
AreLines [] = Unit {0}
AreLines (l ∷ ls) = (is_empty l ≡ false) × HasNoBreak l × AreLines ls

-- Headers as they are sent: a name that is not empty and has no colon, and no line breaks.
abbrev pub AreHeaders : List (Bytes × Bytes) → Type 0
AreHeaders [] = Unit {0}
AreHeaders ((name, value) ∷ hs) =
    (is_empty name ≡ false) × HasNoColon name × HasNoBreak name × HasNoBreak value × AreHeaders hs

abbrev pub set_all : List (Bytes × Bytes) → List (Bytes × Bytes) → List (Bytes × Bytes)
set_all [] kept = kept
set_all ((name, value) ∷ hs) kept = set_all hs (set_property name value kept)

-- The blank line stands at the end, and there for the first time.
pub blank_line :
    (l : Bytes) (ls : List Bytes)
    → HasNoBreak l
    → AreLines ls
    → EndsIn (codes "\r\n\r\n") (head_of (l ∷ ls))
blank_line (c ∷ l) ls (h, h', hs) ok =
    EndsIn-cons (codes "\r\n\r\n") c (head_of (l ∷ ls)) (ground arith) (blank_line l ls hs ok)
blank_line [] [] h ok = (0, refl, omega arith)
blank_line [] ([] ∷ ls) h (e, b, ok) = cc
blank_line [] ((d ∷ l) ∷ ls) h (e, (b, b', bs), ok) =
    let rest : Bytes = head_of ((d ∷ l) ∷ ls) in
    EndsIn-cons (codes "\r\n\r\n") 13 (10 ∷ rest) (ground arith)
      (EndsIn-cons (codes "\r\n\r\n") 10 rest refl (blank_line (d ∷ l) ls (b, b', bs) ok))

pub lines_from-line :
    (line l rest : Bytes)
    → HasNoBreak l
    → lines_from line (l ++ 13 ∷ 10 ∷ rest) ≡ (line ++ (l ++ 13 ∷ [])) ∷ lines_from [] rest
unfolding lines_from
lines_from-line line [] rest h = refl
lines_from-line line (c ∷ l) rest (h, h', hs) = rw h' (
    lines_from-line (line ++ c ∷ []) l rest hs
    ∙ ap (λ t. t ∷ lines_from [] rest) (append_assoc line (c ∷ []) (l ++ 13 ∷ [])))

pop_back-snoc : (l : Bytes) (c : ℕ) → pop_back (l ++ c ∷ []) ≡ some l
pop_back-snoc [] c = refl
pop_back-snoc (x ∷ []) c = refl
pop_back-snoc (x ∷ y ∷ l) c =
    ap (λ o. elim o [ none ↦ none | some t ↦ some (x ∷ t) ]) (pop_back-snoc (y ∷ l) c)

separator :
    (name value : Bytes)
    → HasNoColon name
    → find (codes ": ") (name ++ 58 ∷ 32 ∷ value) ≡ some (length name)
separator [] value h = refl
separator (c ∷ name) value (h, hs) =
    let other : starts_with (codes ": ") (c ∷ name ++ 58 ∷ 32 ∷ value) ≡ false = ground arith in
    rw other (ap (shift_found false) (separator name value hs))

set_header-line :
    (name value : Bytes) (kept : List (Bytes × Bytes))
    → HasNoColon name
    → set_header (name ++ 58 ∷ 32 ∷ value) kept ≡ set_property name value kept
unfolding set_header
set_header-line name value kept h =
    let line : Bytes = name ++ 58 ∷ 32 ∷ value in
    let joined = sym (append_assoc name (58 ∷ 32 ∷ []) value) in
    let size : length name + 2 ≡ length (name ++ 58 ∷ 32 ∷ []) =
      omega (arith, length-append name (58 ∷ 32 ∷ [])) in
    ap
      (λ o. elim o [
        | none ↦ kept
        | some at ↦ set_property (take at line) (drop (at + 2) line) kept
      ])
      (separator name value h)
    ∙ ap₂ (λ n v. set_property n v kept) (take-length name (58 ∷ 32 ∷ value))
        (ap₂ drop size joined ∙ drop-length (name ++ 58 ∷ 32 ∷ []) value)

pub read_line :
    (l : Bytes) (lines : List Bytes) (kept : List (Bytes × Bytes))
    → read_headers ((l ++ 13 ∷ []) ∷ lines) kept ≡ read_headers lines (set_header l kept)
unfolding read_headers
read_line l lines kept = rw (pop_back-snoc l 13, read_headers) refl

pub unbroken :
    (name value : Bytes) → HasNoBreak name → HasNoBreak value → HasNoBreak (name ++ 58 ∷ 32 ∷ value)
unbroken [] value h k = (refl, refl, (refl, refl, k))
unbroken (c ∷ name) value (h, h', hs) k = (h, h', unbroken name value hs k)

pub read_all_lines :
    (hs kept : List (Bytes × Bytes))
    → AreHeaders hs
    → read_headers (lines_from [] (head_of (header_lines hs))) kept ≡ some (set_all hs kept)
unfolding lines_from read_headers set_header
read_all_lines [] kept h = refl
read_all_lines ((name, value) ∷ hs) kept (e, colon, b, b', more) =
    let line : Bytes = name ++ 58 ∷ 32 ∷ value in
    ap (λ ls. read_headers ls kept)
      (lines_from-line [] line (head_of (header_lines hs)) (unbroken name value b b'))
    ∙ read_line line (lines_from [] (head_of (header_lines hs))) kept
    ∙ ap (read_headers (lines_from [] (head_of (header_lines hs))))
        (set_header-line name value kept colon)
    ∙ read_all_lines hs (set_property name value kept) more
