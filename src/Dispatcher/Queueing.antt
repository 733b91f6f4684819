-- ===== src/Dispatcher/Queueing.antt =====
-- What becomes of the contexts that `QueuePendingContext` (INCLUDE/CDispatcher.hpp) writes: it
-- depends on how the connection cuts them into reads.
use cpp_npl.Base.{
  ℕ, ◌+◌, ◌<◌, ◌≡◌, refl, sym, ap, ◌∙◌, true, false, some, List, [], ◌∷◌, ◌++◌, append-nil,
  append_assoc, Bytes, length, length-append, is_empty, ◌==◌, arith,
}
use mathlib.Core.List.{flatten}
use cpp_npl.Dispatcher.{Context, Classes, Ran, ran_then, process_context}
use cpp_npl.Dispatcher.Control.{
  Layout, IsImage, Gathering, on_control_read, on_control_reads, queue_pending_context, no_events,
  process_image,
}

-- Reads of some bytes each, of which the last completes the text.
abbrev pub AreParts : List Bytes → Type 0
AreParts [] = Unit {0}
AreParts (b ∷ bs) = (is_empty b ≡ false) × AreParts bs

module _ {A : Type 0} (size : ℕ) (process : Bytes → A → A) where
  reads_append :
      (xs ys : List Bytes) (g : Gathering A)
      → on_control_reads size process (xs ++ ys) g
        ≡ on_control_reads size process ys (on_control_reads size process xs g)
  unfolding on_control_reads
  reads_append [] ys g = refl
  reads_append (x ∷ xs) ys g = reads_append xs ys (on_control_read size process x g)

  waits :
      (b : Bytes) (g : Gathering A)
      → (length (g.m ++ b) == size) ≡ false
      → on_control_read size process b g ≡ record g { m = g.m ++ b }
  unfolding on_control_read
  waits b g h = rw h refl

  acts :
      (b : Bytes) (g : Gathering A)
      → (length (g.m ++ b) == size) ≡ true
      → on_control_read size process b g ≡ record { m = []; state = process (g.m ++ b) g.state }
  unfolding on_control_read
  acts b g h = rw h refl

  -- Once more bytes than a context has are in `m`, no context is ever processed again: whatever is
  -- read, it only joins `m`.
  pub overfull_never_acts :
      (bs : List Bytes) (g : Gathering A)
      → size < length g.m
      → on_control_reads size process bs g ≡ record g { m = g.m ++ flatten bs }
  unfolding on_control_reads flatten
  overfull_never_acts [] g h = ap (λ m. record g { m = m }) (sym (append-nil g.m))
  overfull_never_acts (b ∷ bs) g h =
      ap (on_control_reads size process bs) (waits b g (ground (arith, length-append g.m b)))
      ∙ overfull_never_acts bs (record g { m = g.m ++ b }) (omega (arith, length-append g.m b))
      ∙ ap (λ m. record g { m = m }) (append_assoc g.m b (flatten bs))

  some_bytes : (b : Bytes) → is_empty b ≡ false → 0 < length b
  some_bytes [] h = cc
  some_bytes (x ∷ b) h = omega arith

  total : (b c m : Bytes) → length (m ++ (b ++ c)) ≡ length m + length b + length c
  total b c m = length-append m (b ++ c) ∙ omega (arith, length-append b c)

  -- One text, in parts.
  one_text :
      (bs : List Bytes) (g : Gathering A)
      → AreParts bs
      → length (g.m ++ flatten bs) ≡ size
      → length g.m < size
      → on_control_reads size process bs g
        ≡ record { m = []; state = process (g.m ++ flatten bs) g.state }
  unfolding on_control_reads flatten
  one_text [] g p h l = absurd (omega (arith, h, ap length (append-nil g.m)))
  one_text (b ∷ []) g p h l =
      ap (λ x. x) (acts b g (ground (arith, ap (λ t. length (g.m ++ t)) (append-nil b))))
      ∙ ap (λ t. record { m = []; state = process (g.m ++ t) g.state }) (sym (append-nil b))
  one_text (b ∷ c ∷ bs) g (p, ps) h l =
      ap (on_control_reads size process (c ∷ bs)) (
        waits b g (
          ground (
            arith,
            h,
            some_bytes c ps.0,
            length-append g.m b,
            total b (c ++ flatten bs) g.m,
            length-append b (c ++ flatten bs),
            length-append c (flatten bs),
          )))
      ∙ one_text (c ∷ bs) (record g { m = g.m ++ b }) ps
          (ap length (append_assoc g.m b (flatten (c ∷ bs))) ∙ h)
          (omega (
            arith,
            h,
            some_bytes c ps.0,
            length-append g.m b,
            total b (c ++ flatten bs) g.m,
            length-append c (flatten bs),
          ))
      ∙ ap (λ t. record { m = []; state = process t g.state })
          (append_assoc g.m b (flatten (c ∷ bs)))

module _ (classes : Classes) (depth d : ℕ) where
  -- The handling of queued contexts, one after the other.
  abbrev pub process_queued : List (ℕ × Context) → Ran → Ran
  process_queued [] r = r
  process_queued ((k, c) ∷ cs) r =
      process_queued cs (ran_then r (process_context classes depth d k (some c) no_events))

module _ (y : Layout) where
  -- Each context arrives in reads of its own.
  abbrev pub AreOwnReads : List (List Bytes) → List (ℕ × Context) → Type 0
  AreOwnReads [] [] = Unit {0}
  AreOwnReads [] (c ∷ cs) = ⊥
  AreOwnReads (bs ∷ bss) [] = ⊥
  AreOwnReads (bs ∷ bss) ((k, c) ∷ cs) =
      (flatten bs ≡ queue_pending_context y k c) × AreParts bs × AreOwnReads bss cs

  abbrev pub AreImages : List (ℕ × Context) → Type 0
  AreImages [] = Unit {0}
  AreImages ((k, c) ∷ cs) = IsImage y k c × AreImages cs

module _ (classes : Classes) (depth d : ℕ) (y : Layout) where
  one_context :
      (k : ℕ) (c : Context) (r : Ran)
      → IsImage y k c
      → process_image classes depth d y (queue_pending_context y k c) r
        ≡ ran_then r (process_context classes depth d k (some c) no_events)
  unfolding process_image queue_pending_context
  one_context k c r l = rw (l.key-image, l.context-image) refl

  -- Contexts that are queued are processed each once, in the order of the calls, with the key
  -- and the fields that `QueuePendingContext` was given, when the buffers they point to are still
  -- there, however each is cut into reads, as long as
  -- no read holds bytes of two of them.
  pub queued_in_order :
      (bss : List (List Bytes)) (cs : List (ℕ × Context)) (r : Ran)
      → 0 < y.size
      → AreImages y cs
      → AreOwnReads y bss cs
      → on_control_reads y.size
          (process_image classes depth d y)
          (flatten bss)
          (record { m = []; state = r })
        ≡ record { m = []; state = process_queued classes depth d cs r }
  unfolding on_control_reads flatten queue_pending_context
  queued_in_order [] [] r z l a = refl
  queued_in_order [] (c ∷ cs) r z l a = absurd a
  queued_in_order (bs ∷ bss) [] r z l a = absurd a
  queued_in_order (bs ∷ bss) ((k, c) ∷ cs) r z (i, l) (e, p, a) =
      let process = process_image classes depth d y in
      reads_append y.size process bs (flatten bss) (record { m = []; state = r })
      ∙ ap (on_control_reads y.size process (flatten bss)) (
          one_text y.size process bs (record { m = []; state = r }) p (ap length e ∙ i.width) z
          ∙ ap (λ s. record { m = []; state = s }) (ap (λ t. process t r) e ∙ one_context k c r i))
      ∙ queued_in_order bss cs (ran_then r (process_context classes depth d k (some c) no_events)) z
          l a
