-- ===== src/Protocol/Stream.antt =====
-- What `OnRead` of CProtocol (INCLUDE/CProtocol.hpp) does with a stream that arrives in pieces.
use mathlib.Core.List.{flatten}
use cpp_npl.Base.{
  ℕ, ◌≡◌, refl, sym, ap, ◌∙◌, ◌≢◌, inl, inr, none, some, List, [], ◌∷◌, ◌++◌, append-nil,
  append_assoc, Option-cases, Bytes,
}
use cpp_npl.Protocol.{Subclass, Reader, accept, on_byte, on_read}

flatten-snoc : (xs : List Bytes) (x : Bytes) → flatten (xs ++ x ∷ []) ≡ flatten xs ++ x
unfolding flatten
flatten-snoc [] x = append-nil x
flatten-snoc (y ∷ xs) x = ap (λ t. y ++ t) (flatten-snoc xs x) ∙ sym (append_assoc y (flatten xs) x)

module _ {S M : Type 0} (p : Subclass S M) where
  -- The reads of a connection, one after the other.
  abbrev pub on_chunks : List Bytes → Reader S M → Reader S M
  on_chunks [] r = r
  on_chunks (c ∷ cs) r = on_chunks cs (on_read p c r)

  pub on_read-append :
      (xs ys : Bytes) (r : Reader S M) → on_read p (xs ++ ys) r ≡ on_read p ys (on_read p xs r)
  unfolding on_read
  on_read-append [] ys r = refl
  on_read-append (x ∷ xs) ys r = on_read-append xs ys (on_byte p x r)

  pub on_chunks-flatten :
      (cs : List Bytes) (r : Reader S M) → on_chunks cs r ≡ on_read p (flatten cs) r
  unfolding on_read flatten
  on_chunks-flatten [] r = refl
  on_chunks-flatten (c ∷ cs) r =
      on_chunks-flatten cs (on_read p c r) ∙ sym (on_read-append c (flatten cs) r)

  -- How the network cuts a stream into reads makes no difference: two sequences of reads with the
  -- same bytes leave the same buffer, messages, notifications and inner state.
  pub on_chunks_cut :
      (cs ds : List Bytes) (r : Reader S M)
      → flatten cs ≡ flatten ds
      → on_chunks cs r ≡ on_chunks ds r
  on_chunks_cut cs ds r e =
      on_chunks-flatten cs r ∙ ap (λ b. on_read p b r) e ∙ sym (on_chunks-flatten ds r)

  -- All that was taken in: what the observers were given, and what waits in the buffer.
  abbrev pub taken_in : Reader S M → Bytes
  taken_in r = flatten r.notified ++ r.buffer

  taken_in-on_byte : (b : ℕ) (r : Reader S M) → taken_in (on_byte p b r) ≡ taken_in r ++ b ∷ []
  unfolding on_byte
  taken_in-on_byte b r = elim (Option-cases (p.is_message_complete r.inner (r.buffer ++ b ∷ []))) [
    | inl e ↦ rw e (sym (append_assoc (flatten r.notified) r.buffer (b ∷ [])))
    | inr (m, e) ↦ rw e (
        append-nil _
        ∙ flatten-snoc r.notified (r.buffer ++ b ∷ [])
        ∙ sym (append_assoc (flatten r.notified) r.buffer (b ∷ [])))
  ]

  -- No byte is lost, made up, repeated or moved: the notifications, put together, and then the
  -- buffer are what they were before, and then the bytes read.
  pub taken_in-on_read :
      (bs : Bytes) (r : Reader S M) → taken_in (on_read p bs r) ≡ taken_in r ++ bs
  unfolding on_read
  taken_in-on_read [] r = sym (append-nil _)
  taken_in-on_read (b ∷ bs) r =
      taken_in-on_read bs (on_byte p b r)
      ∙ ap (λ t. t ++ bs) (taken_in-on_byte b r)
      ∙ append_assoc (taken_in r) (b ∷ []) bs

  -- A text is a frame of a message if it is complete, and nothing that leaves out its end is.
  pub record IsFrame (s : S) (frame : Bytes) (m : M) : Type 0 where
    pub whole : p.is_message_complete s frame ≡ some m
    pub minimal :
        (front : Bytes) (b : ℕ) (back : Bytes)
        → front ++ b ∷ back ≡ frame
        → p.is_message_complete s front ≡ none

  pub on_byte_waits :
      (b : ℕ) (r : Reader S M)
      → p.is_message_complete r.inner (r.buffer ++ b ∷ []) ≡ none
      → on_byte p b r ≡ record r { buffer = r.buffer ++ b ∷ [] }
  unfolding on_byte
  on_byte_waits b r e = rw e

  on_byte_accepts :
      (b : ℕ) (r : Reader S M) (m : M)
      → p.is_message_complete r.inner (r.buffer ++ b ∷ []) ≡ some m
      → on_byte p b r ≡ accept p m (r.buffer ++ b ∷ []) r
  unfolding on_byte
  on_byte_accepts b r m e = rw e

  -- The rest of a frame whose beginning is in the buffer.
  on_read_rest :
      (back : Bytes) (b : ℕ) (r : Reader S M) (frame : Bytes) (m : M)
      → IsFrame r.inner frame m
      → r.buffer ++ b ∷ back ≡ frame
      → on_read p (b ∷ back) r ≡ accept p m frame r
  unfolding on_read
  on_read_rest [] b r frame m f e =
      on_byte_accepts b r m (ap (p.is_message_complete r.inner) e ∙ f.whole)
      ∙ ap (λ t. accept p m t r) e
  on_read_rest (c ∷ back) b r frame m f e =
      let joined = append_assoc r.buffer (b ∷ []) (c ∷ back) ∙ e in
      ap (on_read p (c ∷ back)) (on_byte_waits b r (f.minimal (r.buffer ++ b ∷ []) c back joined))
      ∙ on_read_rest back c (record r { buffer = r.buffer ++ b ∷ [] }) frame m f joined

  pub on_read_frame :
      (frame : Bytes) (r : Reader S M) (m : M)
      → IsFrame r.inner frame m
      → frame ≢ []
      → r.buffer ≡ []
      → on_read p frame r ≡ accept p m frame r
  on_read_frame [] r m f h e = absurd (h refl)
  on_read_frame (b ∷ back) r m f h e = on_read_rest back b r (b ∷ back) m f (rw e)

  -- Frames that follow one another, each for the inner state that its predecessors leave.
  abbrev pub AreFrames : S → List (Bytes × M) → Type 0
  AreFrames s [] = Unit {0}
  AreFrames s ((frame, m) ∷ rest) =
      IsFrame s frame m × (frame ≢ []) × AreFrames (p.state_machine m s) rest

  abbrev pub accept_all : List (Bytes × M) → Reader S M → Reader S M
  accept_all [] r = r
  accept_all ((frame, m) ∷ rest) r = accept_all rest (accept p m frame r)

  abbrev pub frames : List (Bytes × M) → Bytes
  frames [] = []
  frames ((frame, m) ∷ rest) = frame ++ frames rest

  -- Frames that are read one behind the other, from an empty buffer, are each accepted as one
  -- message, in their order: stored, handed to the state machine and passed on.
  pub on_read-frames :
      (fs : List (Bytes × M)) (r : Reader S M)
      → AreFrames r.inner fs
      → r.buffer ≡ []
      → on_read p (frames fs) r ≡ accept_all fs r
  unfolding on_read
  on_read-frames [] r h e = refl
  on_read-frames ((frame, m) ∷ rest) r (f, h, more) e =
      on_read-append frame (frames rest) r
      ∙ ap (on_read p (frames rest)) (on_read_frame frame r m f h e)
      ∙ on_read-frames rest (accept p m frame r) more refl
