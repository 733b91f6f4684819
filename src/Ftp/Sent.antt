-- ===== src/Ftp/Sent.antt =====
-- The lines that CProtocolFTP (INCLUDE/CProtocolFTP.hpp) sends on the control connection.
use cpp_npl.Base.{
  ℕ, ◌≡◌, refl, ap, ◌∙◌, Option, none, some, List, [], ◌∷◌, ◌++◌, append_assoc, Bytes, arith,
}
use cpp_npl.Ftp.State.{
  DcProt, clear, protected, Command, Effect, Client, sent, silent, notify, set_level, read_file,
  write_data, write_file, give,
}
use cpp_npl.Ftp.Commands.{command_line}
use cpp_npl.Ftp.Transfer.{add_offset, byte_count}
use cpp_npl.Ftp.Blocks.{given, ended, received, securing}
use cpp_npl.Ftp.Showing.{shown}
use cpp_npl.Ftp.Feeding.{fed}
use cpp_npl.Ftp.Pieces.{Piece, plain, shows, fetches, stores, queue_of, left_by}

-- The lines in the order in which they were sent.
abbrev pub sent_lines : List Effect → List Bytes
sent_lines [] = []
sent_lines (sent l ∷ es) = sent_lines es ++ l ∷ []
sent_lines (_ ∷ es) = sent_lines es

abbrev pub lines : List Command → List Bytes
lines [] = []
lines (cmd ∷ q) = command_line cmd.verb cmd.remote ∷ lines q

pub lines-append : (p q : List Command) → lines (p ++ q) ≡ lines p ++ lines q
lines-append [] q = refl
lines-append (cmd ∷ p) q = ap (λ s. command_line cmd.verb cmd.remote ∷ s) (lines-append p q)

sent_lines-given :
    (sink : Option ℕ) (b : Bytes) (es : List Effect) → sent_lines (given sink b es) ≡ sent_lines es
sent_lines-given none b es = refl
sent_lines-given (some f) b es = refl

sent_lines-ended : (sink : Option ℕ) (es : List Effect) → sent_lines (ended sink es) ≡ sent_lines es
sent_lines-ended none es = refl
sent_lines-ended (some f) es = refl

sent_lines-securing : (p : DcProt) (es : List Effect) → sent_lines (securing p es) ≡ sent_lines es
sent_lines-securing clear es = refl
sent_lines-securing protected es = refl

sent_lines-received :
    (sink : Option ℕ) (o : ℕ) (bs : List Bytes) (es : List Effect)
    → sent_lines (received sink o bs es) ≡ sent_lines es
sent_lines-received sink o [] es = refl
sent_lines-received sink o (b ∷ bs) es =
    sent_lines-received sink (add_offset o (byte_count b)) bs (write_file b o ∷ given sink b es)
    ∙ sent_lines-given sink b es

sent_lines-shown :
    (f : ℕ) (bs : List Bytes) (es : List Effect) → sent_lines (shown f bs es) ≡ sent_lines es
sent_lines-shown f [] es = refl
sent_lines-shown f (b ∷ bs) es = sent_lines-shown f bs (give f b ∷ es)

sent_lines-fed :
    (sink : Option ℕ) (o : ℕ) (bs : List Bytes) (es : List Effect)
    → sent_lines (fed sink o bs es) ≡ sent_lines es
sent_lines-fed sink o [] es = refl
sent_lines-fed sink o (b ∷ bs) es =
    let p = add_offset o (byte_count b) in
    sent_lines-fed sink p bs (read_file p ∷ write_data b ∷ given sink b es)
    ∙ sent_lines-given sink b es

pub sent_lines-left_by :
    (x : Piece) (rest : List Command) (c : Client)
    → sent_lines (left_by x rest c).effects ≡ sent_lines c.effects ++ lines (queue_of x)
sent_lines-left_by (plain v arg silent text) rest c = refl
sent_lines-left_by (plain v arg (notify f) text) rest c = refl
sent_lines-left_by (plain v arg (set_level p) text) rest c = ground arith
sent_lines-left_by (shows v f remote k) rest c =
    sent_lines-shown f k.blocks _
    ∙ sent_lines-securing c.dc_prot _
    ∙ append_assoc (sent_lines c.effects) _ _
sent_lines-left_by (fetches sink remote local k) rest c =
    sent_lines-ended sink _
    ∙ sent_lines-received sink 0 k.blocks _
    ∙ sent_lines-securing c.dc_prot _
    ∙ append_assoc (sent_lines c.effects) _ _
sent_lines-left_by (stores sink remote local k) rest c =
    sent_lines-ended sink _
    ∙ sent_lines-fed sink 0 k.blocks _
    ∙ sent_lines-securing c.dc_prot _
    ∙ append_assoc (sent_lines c.effects) _ _
