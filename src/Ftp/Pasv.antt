-- ===== src/Ftp/Pasv.antt =====
-- The answer to PASV, written and read back: `ProcessPasvResponse` (INCLUDE/CProtocolFTP.hpp).
use cpp_npl.Base.{
  ℕ, ◌+◌, ◌*◌, ◌%◌, ◌^◌, ◌<◌, ◌≡◌, refl, ap, ◌∙◌, ◌≢◌, false, none, some, List, [], ◌∷◌, ◌++◌,
  Bytes, codes, length, find, drop, drop-length, shift_found, starts_with, arith,
}
use cpp_npl.Base.Decimal.{decimal, scan_int, scan_int-decimal, NoDigit}
use cpp_npl.Ftp.State.{Command, Client, ok, fault, ◌>>=◌, empty_queue, out_of_range}
use cpp_npl.Ftp.Commands.{skip_command, pop_commands, process_next_cmd}
use cpp_npl.Ftp.Transfer.{
  scan_fields, scan_pasv, host_of, port_of, connect_to, pasv_reply, open_data_channel,
  process_pasv_response,
}

-- A comma between the numbers, and a text behind them.
abbrev pub fields : List ℕ → Bytes → Bytes
fields [] rest = rest
fields (n ∷ []) rest = decimal n ++ rest
fields (n ∷ ns) rest = decimal n ++ b',' ∷ fields ns rest

abbrev AllFit : List ℕ → Type 0
AllFit [] = Unit {0}
AllFit (n ∷ ns) = (n < 2 ^ 32) × AllFit ns

scan_one :
    (n : ℕ) (rest : Bytes)
    → n < 2 ^ 32
    → NoDigit rest
    → scan_int (decimal n ++ rest) ≡ some (n, rest)
scan_one n rest h d = scan_int-decimal n rest (omega arith) d

scan_fields-fields :
    (n : ℕ) (ns : List ℕ) (rest : Bytes)
    → AllFit (n ∷ ns)
    → NoDigit rest
    → scan_fields (length (n ∷ ns)) (fields (n ∷ ns) rest) ≡ some (n ∷ ns)
unfolding scan_fields
scan_fields-fields n [] rest h d =
    let same : n % 2 ^ 32 ≡ n = omega arith in
    rw (scan_one n rest h.0 d, scan_fields) (ap (λ k. some (k ∷ [])) same)
scan_fields-fields n (m ∷ ns) rest h d =
    let same : n % 2 ^ 32 ≡ n = omega arith in
    rw
      (
        scan_one n (b',' ∷ fields (m ∷ ns) rest) h.0 refl,
        scan_fields-fields m ns rest h.1 d,
        scan_fields,
      )
      (ap (λ k. some (k ∷ m ∷ ns)) same)

-- The first parenthesis of a text with none before it.
abbrev pub NoOpen : Bytes → Type 0
NoOpen [] = Unit {0}
NoOpen (c ∷ s) = (c ≢ b'(') × NoOpen s

find-open : (pre s : Bytes) → NoOpen pre → find (codes "(") (pre ++ b'(' ∷ s) ≡ some (length pre)
find-open [] s h = refl
find-open (c ∷ pre) s h =
    let other : starts_with (codes "(") (c ∷ pre ++ b'(' ∷ s) ≡ false = ground arith in
    ap (shift_found (starts_with (codes "(") (c ∷ pre ++ b'(' ∷ s))) (find-open pre s h.1)
    ∙ ap (λ t. shift_found t (some (length pre))) other

-- The text of a reply to PASV: six numbers in parentheses, with a text before and behind them.
abbrev pub pasv_text : Bytes → List ℕ → Bytes → Bytes
pasv_text pre ns rest = pre ++ b'(' ∷ fields ns (b')' ∷ rest)

scan_pasv_text :
    (h1 h2 h3 h4 p1 p2 : ℕ) (rest : Bytes)
    → AllFit (h1 ∷ h2 ∷ h3 ∷ h4 ∷ p1 ∷ p2 ∷ [])
    → scan_pasv (b'(' ∷ fields (h1 ∷ h2 ∷ h3 ∷ h4 ∷ p1 ∷ p2 ∷ []) (b')' ∷ rest))
      ≡ some (h1 ∷ h2 ∷ h3 ∷ h4 ∷ p1 ∷ p2 ∷ [])
unfolding scan_pasv
scan_pasv_text h1 h2 h3 h4 p1 p2 rest h =
    scan_fields-fields h1 (h2 ∷ h3 ∷ h4 ∷ p1 ∷ p2 ∷ []) (b')' ∷ rest) h refl

connect_lem :
    (c : Client) (cmd : Command) (rest : List Command) (ns : List ℕ)
    → c.cmd_q ≡ cmd ∷ rest
    → connect_to (some ns) c
      ≡ ok (
          open_data_channel
            (host_of ns)
            (port_of ns)
            (process_next_cmd (record c { cmd_q = rest; cmd_in_progress = false })))
unfolding connect_to skip_command
connect_lem c cmd rest ns q =
    ap
      (λ l.
        elim (pop_commands 1 l) [
          | none ↦ fault empty_queue
          | some r ↦ ok (process_next_cmd (record c { cmd_q = r; cmd_in_progress = false }))
        ]
        >>= λ d. ok (open_data_channel (host_of ns) (port_of ns) d))
      q

pasv_reply_lem :
    (c : Client) (pre s : Bytes) (ns : List ℕ)
    → NoOpen pre
    → scan_pasv (b'(' ∷ s) ≡ some ns
    → pasv_reply (pre ++ b'(' ∷ s) c ≡ connect_to (some ns) c
unfolding pasv_reply
pasv_reply_lem c pre s ns n e =
    ap
      (λ o. elim o [
        | none ↦ fault out_of_range
        | some at ↦ connect_to (scan_pasv (drop at (pre ++ b'(' ∷ s))) c
      ])
      (find-open pre s n)
    ∙ ap (λ t. connect_to (scan_pasv t) c) (drop-length pre (b'(' ∷ s))
    ∙ ap (λ o. connect_to o c) e

pub pasv_accepted :
    (c : Client) (cmd : Command) (rest : List Command) (ms : List Bytes) (pre post : Bytes)
    (h1 h2 h3 h4 p1 p2 : ℕ)
    → c.messages ≡ pasv_text pre (h1 ∷ h2 ∷ h3 ∷ h4 ∷ p1 ∷ p2 ∷ []) post ∷ ms
    → c.cmd_q ≡ cmd ∷ rest
    → NoOpen pre
    → (h1 < 256) × (h2 < 256) × (h3 < 256) × (h4 < 256) × (p1 < 256) × (p2 < 256)
    → process_pasv_response c
      ≡ ok (
          open_data_channel
            (decimal h1 ++ b'.' ∷ decimal h2 ++ b'.' ∷ decimal h3 ++ b'.' ∷ decimal h4)
            (p1 * 256 + p2)
            (process_next_cmd (record c { cmd_q = rest; cmd_in_progress = false })))
unfolding process_pasv_response host_of port_of
pasv_accepted c cmd rest ms pre post h1 h2 h3 h4 p1 p2 e q n fit =
    let ns : List ℕ = h1 ∷ h2 ∷ h3 ∷ h4 ∷ p1 ∷ p2 ∷ [] in
    let port : (p1 * 256 + p2) % 2 ^ 32 ≡ p1 * 256 + p2 = omega arith in
    let next = process_next_cmd (record c { cmd_q = rest; cmd_in_progress = false }) in
    ap (λ l. elim l [ [] ↦ fault empty_queue | m ∷ older ↦ pasv_reply m c ]) e
    ∙ pasv_reply_lem c pre (fields ns (b')' ∷ post)) ns n
        (scan_pasv_text h1 h2 h3 h4 p1 p2 post (omega arith))
    ∙ connect_lem c cmd rest ns q
    ∙ ap (λ k. ok (open_data_channel (host_of ns) k next)) port
