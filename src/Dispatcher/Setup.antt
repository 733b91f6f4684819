-- ===== src/Dispatcher/Setup.antt =====
-- `InitializeControl` of CDispatcher (INCLUDE/CDispatcher.hpp): the two sockets over which the
-- dispatcher talks to itself.
use cpp_npl.Base.{ℕ, Bool, true, false, Option, none, some, Bytes, codes, if◌then◌else◌}
use cpp_npl.Subject.{
  Kind, derived, listener, Subject, new_subject, set_property, World, change, add_event_listener,
}
use cpp_npl.Subject.Notify.{get_dispatcher}
use cpp_npl.Device.{DeviceType}
use cpp_npl.Dispatcher.{Ran, done, assertion, lost, ran_then}
use cpp_npl.Dispatcher.Control.{add_device}

-- A use of what `GetDispatcher` gives.
abbrev pub dispatched : Option (Option ℕ) → (ℕ → Ran) → Ran
dispatched none f = lost
dispatched (some none) f = assertion
dispatched (some (some i)) f = f i

abbrev named : Bytes → Subject → Subject
unfolding set_property
named name s = record s { properties = set_property (codes "name") name s.properties }

-- The listener that waits for the connection to be accepted.
abbrev accept_listener : Kind
accept_listener = listener (record {
  connects = false;
  reads = false;
  writes = false;
  disconnects = false;
  accepts = true;
})

-- The part for `iDClient`; `added` is whether `epoll_ctl` succeeds.
abbrev control_client : ℕ → ℕ → Bool → World → Ran
unfolding add_device get_dispatcher named
control_client d client added w =
    let made = change client (λ s. new_subject derived) w in
    dispatched (get_dispatcher 1 made (made.at d).target) (λ i.
      ran_then (add_device i client (some DeviceType.socket) added made)
        (λ v. done (change client (named (codes "DC-CT")) v)))

-- `InitializeControl` of dispatcher `d`, with the addresses of the objects it makes; `started` is
-- whether `bind` and `listen` succeed in `StartSocketServer`.
unfoldable pub initialize_control : ℕ → ℕ → ℕ → ℕ → Bool → Bool → World → Ran
unfolding control_client add_device get_dispatcher named
initialize_control d serving lso client added started w =
    let own = change d (λ s. record s { target = some d }) w in
    let made =
      change lso (λ s. new_subject accept_listener)
        (change serving (λ s. new_subject derived) own) in
    dispatched (get_dispatcher 1 made (made.at d).target) (λ i.
      ran_then (add_device i serving (some DeviceType.socket) added made) (λ v.
        if started
        then control_client d client added
            (change serving (named (codes "DC-LS")) (add_event_listener serving lso v))
        else assertion))
