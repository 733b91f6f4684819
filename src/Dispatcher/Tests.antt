-- ===== src/Dispatcher/Tests.antt =====
-- A run of CDispatcher (INCLUDE/CDispatcher.hpp) with one device.
use cpp_npl.Base.{
  if◌then◌else◌, ◌==◌, List, ℕ, zero, suc, true, Option, some, [], ◌∷◌, ◌++◌, arith, ◌≡◌, refl,
  Bytes, drop,
}
use mathlib.Core.List.{flatten}
use cpp_npl.Subject.{plain, derived, dispatcher, Subject, World, new_subject}
use cpp_npl.Dispatcher.{Ran, Classes, Io, Context, done}
use cpp_npl.Dispatcher.Control.{
  Layout, IsImage, on_control_reads, queue_pending_context, process_image,
}
use cpp_npl.Dispatcher.Control.{add_device}
use cpp_npl.Dispatcher.Setup.{initialize_control}
use cpp_npl.Subject.{add_event_listener}
use cpp_npl.Subject.Notify.{Overrides, get_dispatcher}
use cpp_npl.Dispatcher.Queueing.{overfull_never_acts, process_queued, queued_in_order}
use cpp_npl.Dispatcher.Port.{
  Status, last_status, waiting, returned, port_worker, process_all, worked_then,
  posted_worker_returns,
}

abbrev two : ℕ → Subject
two zero = record (new_subject dispatcher) { observers = 1 ∷ [] }
two (suc zero) = record (new_subject derived) { target = some 0; connected = true }
two (suc (suc i)) = new_subject plain

-- The device's class has handlers of its own, which leave the world as it is.
abbrev stays : Overrides
stays e i w = some w

abbrev world : World
world = record { at = two; calls = [] }

-- The device reads the end of its stream.
abbrev at_end : ℕ → World → Option Context
at_end k w = some (record { type = Io.was_read; bytes = [] })

abbrev classes : Classes
classes = record { receive = at_end; own = stays }

-- Two bytes of which one was read, then the status of the destructor, and one more behind it.
abbrev one_of_two : Status
one_of_two = record {
  count = 1;
  key = 1;
  context = some (record { type = Io.was_read; bytes = 97 ∷ 98 ∷ [] });
}

posted_worker_returns_example :
    (port_worker stays 2 0 (one_of_two ∷ []) world
      ≡ worked_then (process_all stays 2 0 (one_of_two ∷ []) world) waiting)
    × (port_worker stays 2 0 ((one_of_two ∷ []) ++ last_status ∷ one_of_two ∷ []) world
        ≡ worked_then (process_all stays 2 0 (one_of_two ∷ []) world) returned)
posted_worker_returns_example =
    posted_worker_returns stays 2 0 (one_of_two ∷ []) (one_of_two ∷ []) world (tt, tt)

abbrev first : Bytes → ℕ
first [] = 0
first (x ∷ b) = x

-- A context that was read, of one byte, with its key.
abbrev two_bytes : Layout
two_bytes = record {
  size = 2;
  image = λ k c. k ∷ c.bytes;
  key = first;
  context = λ b. record { type = Io.was_read; bytes = drop 1 b };
}

abbrev letter : ℕ → Context
letter x = record { type = Io.was_read; bytes = x ∷ [] }

letter-IsImage : (k x : ℕ) → IsImage two_bytes k (letter x)
letter-IsImage k x = record { width = refl; key-image = refl; context-image = refl }

queued_in_order_example :
    on_control_reads 2
      (process_image classes 1 0 two_bytes)
      ((1 ∷ []) ∷ (7 ∷ []) ∷ (1 ∷ 8 ∷ []) ∷ [])
      (record { m = []; state = done world })
    ≡ record {
      m = [];
      state = process_queued classes 1 0 ((1, letter 7) ∷ (1, letter 8) ∷ []) (done world);
    }
unfolding queue_pending_context flatten
queued_in_order_example =
    queued_in_order classes 1 0 two_bytes (((1 ∷ []) ∷ (7 ∷ []) ∷ []) ∷ ((1 ∷ 8 ∷ []) ∷ []) ∷ [])
      ((1, letter 7) ∷ (1, letter 8) ∷ []) (done world) (omega arith)
      (letter-IsImage 1 7, (letter-IsImage 1 8, tt))
      (refl, (refl, (refl, tt)), (refl, (refl, tt), tt))

overfull_never_acts_example :
    on_control_reads 2
      (process_image classes 1 0 two_bytes)
      ((1 ∷ 7 ∷ []) ∷ [])
      (record { m = 1 ∷ 7 ∷ 1 ∷ []; state = done world })
    ≡ record { m = 1 ∷ 7 ∷ 1 ∷ 1 ∷ 7 ∷ []; state = done world }
unfolding flatten
overfull_never_acts_example =
    overfull_never_acts 2 (process_image classes 1 0 two_bytes) ((1 ∷ 7 ∷ []) ∷ [])
      (record { m = 1 ∷ 7 ∷ 1 ∷ []; state = done world }) (omega arith)

-- The dispatcher 0, before `InitializeControl`.
abbrev alone : World
alone = record { at = λ i. new_subject (if i == 0 then dispatcher else plain); calls = [] }

abbrev observers_of : Ran → ℕ → List ℕ
observers_of (done w) i = (w.at i).observers
observers_of _ i = []

-- The dispatcher has its two sockets, and the first has its listener.
control_sockets :
    (observers_of (initialize_control 0 1 2 3 true true alone) 0 ≡ 1 ∷ 3 ∷ [])
    × (observers_of (initialize_control 0 1 2 3 true true alone) 1 ≡ 2 ∷ [])
unfolding initialize_control add_device get_dispatcher add_event_listener
control_sockets = (refl, refl)
