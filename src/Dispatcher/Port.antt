-- ===== src/Dispatcher/Port.antt =====
-- The worker of CDispatcher (INCLUDE/CDispatcher.hpp) on Windows: the completion port, and the status
-- by which the destructor ends the loop.
use cpp_npl.Base.{
  ℕ, ◌≡◌, refl, ap, ◌∙◌, Bool, true, false, ◌&&◌, Option, none, some, List, [], ◌∷◌, ◌++◌, take,
  ◌==◌, if◌then◌else◌,
}
use cpp_npl.Subject.{World}
use cpp_npl.Subject.Notify.{Overrides}
use cpp_npl.Dispatcher.{Context, Classes, Ran, done, assertion, lost, ran_then, process_context}
use cpp_npl.Dispatcher.Control.{no_events}

-- What `GetQueuedCompletionStatus` gives: the count of bytes, the key, and the context with its
-- buffer, `none` where the pointer is null.
pub record Status : Type 0 where
  pub count : ℕ
  pub key : ℕ
  pub context : Option Context

-- The loop has come to its end, it waits for a status, it follows a null pointer, or a call of
-- `ProcessContext` does not come back with a world.
pub data Worked : Type 0 where
  returned waiting : World → Worked
  null_context : Worked
  stuck : Ran → Worked

-- `n == 0 && k == 0 && o == 0`.
abbrev pub is_null : Option Context → Bool
is_null none = true
is_null (some c) = false

abbrev pub is_last : Status → Bool
is_last s = s.count == 0 && s.key == 0 && is_null s.context

-- What the destructor posts.
abbrev pub last_status : Status
last_status = record { count = 0; key = 0; context = none }

-- `ctx->n = n`: so many bytes of the buffer.
abbrev pub sized : ℕ → Context → Context
sized n c = record c { bytes = take n c.bytes }

abbrev pub worked_then : Ran → (World → Worked) → Worked
worked_then (done w) f = f w
worked_then assertion f = stuck assertion
worked_then lost f = stuck lost

-- `ProcessContext` is compiled without `Read` and without events.
abbrev pub no_read : Overrides → Classes
no_read own = record { receive = λ k w. none; own = own }

module _ (own : Overrides) (depth d : ℕ) where
  -- A context whose count of bytes is `n`, for the observer `k`.
  unfoldable pub handle_status : Option Context → ℕ → ℕ → World → (World → Worked) → Worked
  handle_status none n k w next = null_context
  handle_status (some c) n k w next =
      worked_then (process_context (no_read own) depth d k (some (sized n c)) no_events w) next

  -- The loop of `Worker`, over the statuses that the port gives.
  unfoldable pub port_worker : List Status → World → Worked
  port_worker [] w = waiting w
  port_worker (s ∷ ss) w =
      if is_last s then returned w else handle_status s.context s.count s.key w (port_worker ss)

  -- The calls of `ProcessContext` for requests that are completed, one behind the other.
  abbrev pub process_one : Option Context → ℕ → ℕ → World → Ran
  process_one none n k w = done w
  process_one (some c) n k w =
      process_context (no_read own) depth d k (some (sized n c)) no_events w

  abbrev pub process_all : List Status → World → Ran
  process_all [] w = done w
  process_all (s ∷ ss) w = ran_then (process_one s.context s.count s.key w) (process_all ss)

-- A completed request, of any kind: its context is there.
abbrev pub IsCompletion : Option Context → Type 0
IsCompletion none = ⊥
IsCompletion (some c) = Unit {0}

abbrev pub AllCompletions : List Status → Type 0
AllCompletions [] = Unit {0}
AllCompletions (s ∷ ss) = IsCompletion s.context × AllCompletions ss

not_null : (o : Option Context) → IsCompletion o → is_null o ≡ false
not_null none h = absurd h
not_null (some c) h = refl

and_false : (a b : Bool) → (a && b && false) ≡ false
and_false true true = refl
and_false true false = refl
and_false false b = refl

not_last : (s : Status) → IsCompletion s.context → is_last s ≡ false
not_last s h =
    ap (λ x. s.count == 0 && s.key == 0 && x) (not_null s.context h)
    ∙ and_false (s.count == 0) (s.key == 0)

-- What follows a run that follows another.
behind :
    (r : Ran) (f : World → Ran) (g h : World → Worked)
    → ((w : World) → g w ≡ worked_then (f w) h)
    → worked_then r g ≡ worked_then (ran_then r f) h
behind (done w) f g h e = e w
behind assertion f g h e = refl
behind lost f g h e = refl

module _ (own : Overrides) (depth d : ℕ) where
  one_status :
      (o : Option Context) (n k : ℕ) (w : World) (next : World → Worked)
      → IsCompletion o
      → handle_status own depth d o n k w next ≡ worked_then (process_one own depth d o n k w) next
  unfolding handle_status
  one_status none n k w next h = absurd h
  one_status (some c) n k w next h = refl

  -- A completed request in front: it is handled, and what the loop does with the others follows.
  step_status :
      (s : Status) (ss more : List Status) (w : World) (end : World → Worked)
      → IsCompletion s.context
      → ((v : World)
          → port_worker own depth d more v ≡ worked_then (process_all own depth d ss v) end)
      → port_worker own depth d (s ∷ more) w ≡ worked_then (process_all own depth d (s ∷ ss) w) end
  unfolding port_worker
  step_status s ss more w end h later =
      ap
        (λ b.
          if b
          then returned w
          else handle_status own depth d s.context s.count s.key w (port_worker own depth d more))
        (not_last s h)
      ∙ one_status s.context s.count s.key w (port_worker own depth d more) h
      ∙ behind (process_one own depth d s.context s.count s.key w) (process_all own depth d ss)
          (port_worker own depth d more) end later

  still_waiting :
      (ss : List Status) (w : World)
      → AllCompletions ss
      → port_worker own depth d ss w ≡ worked_then (process_all own depth d ss w) waiting
  unfolding port_worker
  still_waiting [] w h = refl
  still_waiting (s ∷ ss) w (h, hs) = step_status s ss ss w waiting h (λ v. still_waiting ss v hs)

  still_ending :
      (ss rest : List Status) (w : World)
      → AllCompletions ss
      → port_worker own depth d (ss ++ last_status ∷ rest) w
        ≡ worked_then (process_all own depth d ss w) returned
  unfolding port_worker
  still_ending [] rest w h = refl
  still_ending (s ∷ ss) rest w (h, hs) =
      step_status s ss (ss ++ last_status ∷ rest) w returned h (λ v. still_ending ss rest v hs)

  -- On Windows the worker calls `ProcessContext` for each request that is completed, with its key
  -- and its count of bytes, in their order and each once. Then, if all calls come back, it waits, or
  -- its loop ends when the status that the destructor posts is next: what stands behind that status
  -- is left. A call that does not come back ends the work there. What the observers' handlers do does
  -- not matter. Each request has its context.
  pub posted_worker_returns :
      (ss rest : List Status) (w : World)
      → AllCompletions ss
      → (port_worker own depth d ss w ≡ worked_then (process_all own depth d ss w) waiting)
        × (port_worker own depth d (ss ++ last_status ∷ rest) w
            ≡ worked_then (process_all own depth d ss w) returned)
  posted_worker_returns ss rest w h = (still_waiting ss w h, still_ending ss rest w h)
