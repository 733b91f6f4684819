-- ===== src/Subject/Notify.antt =====
-- The handlers of CSubject and CListener, `Notify...` and `ProcessMarkRemoveAllListeners`
-- (INCLUDE/CSubject.hpp, INCLUDE/CListener.hpp), and the search of `GetDispatcher`.
use cpp_npl.Base.{
  ℕ, zero, suc, Bool, true, false, Option, none, some, List, [], ◌∷◌, ◌++◌, ◌==◌, if◌then◌else◌,
}
use cpp_npl.Subject.{
  Notice, connect, disconnect, accept, read, write, Kind, dispatcher, listener, derived, Subject,
  World, change, without, mark_remove_all_listeners, mark_remove_self_as_listener,
}

-- `std::remove` given a reference to the element found: the first of the others is moved onto it,
-- and from there on it is that one which is compared with.
abbrev pub remove_aliased : ℕ → List ℕ → List ℕ
remove_aliased a [] = []
remove_aliased a (y ∷ ys) = if y == a then remove_aliased a ys else y ∷ without y ys

-- The loop of `ProcessMarkRemoveAllListeners`. `erase` returns the end, at which the loop stops.
unfoldable pub sweep : (ℕ → Bool) → List ℕ → List ℕ
sweep marked [] = []
sweep marked (x ∷ xs) = if marked x then remove_aliased x xs else x ∷ sweep marked xs

abbrev pub cleared : Subject → Subject
cleared s = if s.mark_all then record s { observers = []; mark_all = false } else s

abbrev pub swept : World → Subject → Subject
swept w s = record (cleared s) { observers = sweep (λ j. (w.at j).mark_self) (cleared s).observers }

unfoldable pub process_marks : ℕ → World → World
process_marks i w = change i (swept w) w

-- What a handler of CSubject does before and after it notifies.
abbrev pub enter : Notice → Subject → Subject
enter connect s = record s { connected = true }
enter disconnect s = record s { connected = false }
enter _ s = s

abbrev pub leave : Notice → Subject → Subject
unfolding mark_remove_all_listeners mark_remove_self_as_listener
leave disconnect s = mark_remove_self_as_listener (mark_remove_all_listeners s)
leave _ s = s

-- Which handler a virtual call of one comes to: that of CSubject, that of CListener, whose function
-- is set or not, or that of a class with handlers of its own.
pub data Handler : Type 0 where
  of_subject of_derived : Handler
  of_listener : Bool → Handler

abbrev pub handler : Kind → Notice → Handler
handler (listener c) connect = of_listener c.connects
handler (listener c) (read b) = of_listener c.reads
handler (listener c) (write b) = of_listener c.writes
handler (listener c) disconnect = of_listener c.disconnects
handler (listener c) accept = of_listener c.accepts
handler derived e = of_derived
handler _ _ = of_subject

abbrev pub call_back : ℕ → Notice → Bool → World → World
call_back i e true w = record w { calls = w.calls ++ (i, e) ∷ [] }
call_back i e false w = w

abbrev pub then_do : Option World → (World → Option World) → Option World
then_do none f = none
then_do (some w) f = f w

-- The loop over the observers.
unfoldable pub each : (ℕ → World → Option World) → List ℕ → World → Option World
each f [] w = some w
each f (j ∷ js) w = then_do (f j w) (each f js)

-- What the handlers of the derived classes do to the world; `none` is a call that does not come
-- back, as when an `assert` fails.
abbrev pub Overrides : Type 0
Overrides = Notice → ℕ → World → Option World

-- A handler of subject `i`, with those of its observers. The number bounds how deep observers are
-- nested; `none` is a nesting deeper than that, or a handler that does not come back.
unfoldable pub deliver : Overrides → ℕ → Notice → ℕ → World → Option World
unfolding process_marks each
deliver own zero e i w = none
deliver own (suc n) e i w = elim (handler (w.at i).kind e) [
  | of_derived ↦ own e i w
  | of_listener set ↦ some (call_back i e set w)
  | of_subject ↦
      then_do (each (deliver own n e) (w.at i).observers (change i (enter e) w))
        (λ v. some (change i (leave e) (process_marks i v)))
]

abbrev pub is_dispatcher : Kind → Bool
is_dispatcher dispatcher = true
is_dispatcher _ = false

-- The loop of `GetDispatcher` on a target, for as many rounds as given. The outer `none` is that
-- they are used up, the inner one the null pointer.
unfoldable pub get_dispatcher : ℕ → World → Option ℕ → Option (Option ℕ)
get_dispatcher zero w t = none
get_dispatcher (suc n) w none = some none
get_dispatcher (suc n) w (some i) =
    let above = get_dispatcher n w (w.at i).target in
    if (w.at i).alive
    then (if is_dispatcher (w.at i).kind then some (some i) else above)
    else some none
