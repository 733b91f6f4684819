-- ===== src/Protocol/Tests.antt =====
-- Runs of CProtocol (INCLUDE/CProtocol.hpp) on small inputs: its messages end with a line feed.
use mathlib.Core.List.{flatten}
use cpp_npl.Base.{
  ℕ, ◌≡◌, refl, Option, none, some, List, [], ◌∷◌, ◌++◌, Bytes, codes, length, get_or, ◌==◌,
  if◌then◌else◌,
}
use cpp_npl.Protocol.{Subclass, Reader, on_read}
use cpp_npl.Protocol.Stream.{
  on_chunks, on_chunks_cut, taken_in, taken_in-on_read, IsFrame, accept_all, frames, on_read-frames,
}

abbrev line_of : Bytes → Option Bytes
line_of [] = none
line_of (c ∷ s) = if get_or (c ∷ s) (length s) 0 == 10 then some (c ∷ s) else none

abbrev lines : Subclass (List Bytes) Bytes
lines = record { is_message_complete = λ s b. line_of b; state_machine = λ m s. m ∷ s }

abbrev fresh : Reader (List Bytes) Bytes
fresh = record { buffer = []; messages = []; notified = []; inner = [] }

on_chunks_cut_example :
    on_chunks lines (codes "ab" ∷ codes "c\nd" ∷ []) fresh
    ≡ on_chunks lines (codes "a" ∷ codes "bc\n" ∷ codes "d" ∷ []) fresh
unfolding flatten
on_chunks_cut_example =
    on_chunks_cut lines (codes "ab" ∷ codes "c\nd" ∷ []) (codes "a" ∷ codes "bc\n" ∷ codes "d" ∷ [])
      fresh refl

taken_in-on_read_example :
    taken_in lines (on_read lines (codes "ab\nc") fresh) ≡ taken_in lines fresh ++ codes "ab\nc"
taken_in-on_read_example = taken_in-on_read lines (codes "ab\nc") fresh

ab-IsFrame : IsFrame lines [] (codes "\n") (codes "\n")
ab-IsFrame = record { whole = refl; minimal = shorter }
  where
    shorter :
        (front : Bytes) (b : ℕ) (back : Bytes)
        → front ++ b ∷ back ≡ codes "\n"
        → line_of front ≡ none
    shorter [] b back e = refl
    shorter (x ∷ []) b back e = cc
    shorter (x ∷ y ∷ s) b back e = cc

on_read-frames_example :
    on_read lines (frames lines ((codes "\n", codes "\n") ∷ [])) fresh
    ≡ accept_all lines ((codes "\n", codes "\n") ∷ []) fresh
on_read-frames_example =
    on_read-frames lines ((codes "\n", codes "\n") ∷ []) fresh (ab-IsFrame, (λ e. cc), tt) refl
