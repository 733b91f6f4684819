-- ===== src/Subject.antt =====
-- CSubject (INCLUDE/CSubject.hpp) and CListener (INCLUDE/CListener.hpp): subjects that observe each
-- other. A subject stands under a number, its address, in the world; a listener is a subject whose
-- handlers call functions of the user's.
pub mod Notify
pub mod Sweep
pub mod Passes
pub mod Chain
pub mod Forward
pub mod Listening
pub mod Properties
mod Tests
use cpp_npl.Base.{
  ℕ, zero, suc, Bool, true, false, ◌&&◌, Option, none, some, List, [], ◌∷◌, ◌++◌, Bytes, codes,
  bytes_eq, ◌==◌, if◌then◌else◌,
}
use cpp_npl.Base.Decimal.{stoi}

-- What a subject tells its observers.
pub data Notice : Type 0 where
  connect disconnect accept : Notice
  read write : Bytes → Notice
  event : ℕ → Notice

-- Which of the five functions of a CListener are set.
pub record Callbacks : Type 0 where
  pub connects : Bool
  pub reads : Bool
  pub writes : Bool
  pub disconnects : Bool
  pub accepts : Bool

-- `derived` is a class with handlers of its own, such as CDeviceSocket and the protocols.
pub data Kind : Type 0 where
  plain dispatcher derived : Kind
  listener : Callbacks → Kind

pub record Subject : Type 0 where
  pub kind : Kind
  -- Whether a strong pointer to it is left, so that `lock` succeeds.
  pub alive : Bool
  pub target : Option ℕ
  pub connected : Bool
  pub mark_all : Bool
  pub mark_self : Bool
  pub observers : List ℕ
  pub properties : List (Bytes × Bytes)

pub record World : Type 0 where
  pub at : ℕ → Subject
  -- The calls of the users' functions, the oldest first, with the listener's number.
  pub calls : List (ℕ × Notice)

abbrev pub put : ℕ → Subject → (ℕ → Subject) → ℕ → Subject
put i s f j = if j == i then s else f j

abbrev pub change : ℕ → (Subject → Subject) → World → World
change i f w = record w { at = put i (f (w.at i)) w.at }

-- `iPropertyMap[key] = value`; a key stands once.
unfoldable pub set_property : Bytes → Bytes → List (Bytes × Bytes) → List (Bytes × Bytes)
set_property key value [] = (key, value) ∷ []
set_property key value ((k, v) ∷ ps) =
    let rest = set_property key value ps in
    if bytes_eq k key then (key, value) ∷ ps else (k, v) ∷ rest

-- `GetProperty`: a key that is missing gives the empty string.
unfoldable pub get_property : Bytes → List (Bytes × Bytes) → Bytes
get_property key [] = []
get_property key ((k, v) ∷ ps) =
    let rest = get_property key ps in if bytes_eq k key then v else rest

-- `GetPropertyAsBool`.
unfoldable pub get_property_as_bool : Bytes → List (Bytes × Bytes) → Bool
unfolding get_property
get_property_as_bool key ps = bytes_eq (get_property key ps) (codes "true")

-- `GetPropertyAsInt`; `none` is an exception of `std::stoi`.
unfoldable pub get_property_as_int : Bytes → List (Bytes × Bytes) → Option ℕ
unfolding get_property
get_property_as_int key ps = stoi (get_property key ps)

-- A new subject, with the name that the constructor gives it.
abbrev pub new_subject : Kind → Subject
new_subject k = record {
  kind = k;
  alive = true;
  target = none;
  connected = false;
  mark_all = false;
  mark_self = false;
  observers = [];
  properties = (codes "name", codes "unknown") ∷ [];
}

-- `AddEventListener` of subject `i`.
unfoldable pub add_event_listener : ℕ → ℕ → World → World
add_event_listener i o w =
    change o (λ s. record s { target = some i })
      (change i (λ s. record s { observers = s.observers ++ o ∷ [] }) w)

abbrev pub without : ℕ → List ℕ → List ℕ
without a [] = []
without a (y ∷ ys) = if y == a then without a ys else y ∷ without a ys

-- `RemoveEventListener` with a pointer of the caller's.
unfoldable pub remove_event_listener : ℕ → ℕ → World → World
remove_event_listener i o w = change i (λ s. record s { observers = without o s.observers }) w

-- `RemoveAllEventListeners`.
unfoldable pub remove_all_event_listeners : ℕ → World → World
remove_all_event_listeners i w = change i (λ s. record s { observers = []; mark_all = false }) w

-- `SetTarget`.
unfoldable pub set_target : Option ℕ → ℕ → World → World
set_target t i w = change i (λ s. record s { target = t }) w

-- `MarkRemoveAllListeners` and `MarkRemoveSelfAsListener`, and `ResetSubject`, which calls both.
unfoldable pub mark_remove_all_listeners : Subject → Subject
mark_remove_all_listeners s = record s { mark_all = true }

unfoldable pub mark_remove_self_as_listener : Subject → Subject
mark_remove_self_as_listener s = record s { mark_self = true }

unfoldable pub reset_subject : ℕ → World → World
unfolding mark_remove_all_listeners mark_remove_self_as_listener
reset_subject i w = change i (λ s. mark_remove_self_as_listener (mark_remove_all_listeners s)) w
