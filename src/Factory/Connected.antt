-- ===== src/Factory/Connected.antt =====
-- How the objects that npl.hpp constructs are connected.
use cpp_npl.Base.{
  codes, List, [], ◌∷◌, ◌++◌, ap, ◌∙◌, sym, subst, ==_refl, ℕ, ◌≡◌, refl, true, false, Bool, some,
  ◌==◌, arith, Bytes,
}
use cpp_npl.Subject.Chain.{Leads, get_dispatcher-Leads}
use cpp_npl.Subject.Listening.{at_changed, at_other, at_observer, at_observed, at_third}
use cpp_npl.Subject.{Subject, derived, new_subject, dispatcher, World, add_event_listener}
use cpp_npl.Subject.Notify.{is_dispatcher, get_dispatcher}
use cpp_npl.Subject.Forward.{forward, forward_own, forward_up}
use cpp_npl.Dispatcher.{Ran, done, member}
use cpp_npl.Dispatcher.Control.{add_device}
use cpp_npl.Factory.{named_subject, connected_to, make_ftp, make_ws_server, make_http_client}
use cpp_npl.Ftp.State.{Tls}

-- The protocol `p` observes the socket `sock`, which observes the dispatcher `d`: what the protocol
-- writes goes to the socket, what it queues goes to the dispatcher, and it finds the dispatcher.
pub record AreConnected (d sock p : ℕ) (v : World) : Type 0 where
  pub registered : member sock (v.at d).observers ≡ true
  pub observed : member p (v.at sock).observers ≡ true
  pub writes : forward (λ i. i == sock) 2 v p ≡ some (some sock)
  pub queues : forward (λ i. is_dispatcher (v.at i).kind) 3 v p ≡ some (some d)
  pub finds : get_dispatcher 3 v (v.at p).target ≡ some (some d)

member-last : (k : ℕ) (xs : List ℕ) → member k (xs ++ k ∷ []) ≡ true
member-last k [] = ground arith
member-last k (x ∷ xs) = ground (arith, member-last k xs)

-- Another number.
flip_test : (a b : ℕ) → (a == b) ≡ false → (b == a) ≡ false
flip_test a b h = ground arith

abbrev named : Bytes → Subject
named name = record (new_subject derived) { properties = (codes "name", name) ∷ [] }

module _ (d sock p : ℕ) (w : World) (d_cc : (d == sock) ≡ false) (d_p : (d == p) ≡ false)
    (cc_p : (sock == p) ≡ false) (name name' : Bytes) where
  made : World
  made = named_subject name p (named_subject name' sock w)

  made_d : made.at d ≡ w.at d
  unfolding made named_subject
  made_d =
      at_other p d (λ s. named name) (named_subject name' sock w) d_p
      ∙ at_other sock d (λ s. named name') w d_cc

  made_cc : made.at sock ≡ named name'
  unfolding made named_subject
  made_cc =
      at_other p sock (λ s. named name) (named_subject name' sock w) cc_p
      ∙ at_changed sock (λ s. named name') w

  made_p : made.at p ≡ named name
  unfolding made named_subject
  made_p = at_changed p (λ s. named name) (named_subject name' sock w)

  linked : World
  linked = add_event_listener sock p (add_event_listener d sock made)

  linked_d : linked.at d ≡ record (w.at d) { observers = (w.at d).observers ++ sock ∷ [] }
  unfolding linked
  linked_d =
      let observe : Subject → Subject = λ s. record s { observers = s.observers ++ sock ∷ [] } in
      at_third sock p (add_event_listener d sock made) d d_cc d_p
      ∙ at_observed d sock made d_cc
      ∙ ap observe made_d

  linked_cc : linked.at sock ≡ record (named name') { target = some d; observers = p ∷ [] }
  unfolding linked
  linked_cc =
      let observe : Subject → Subject = λ s. record s { observers = s.observers ++ p ∷ [] } in
      let watch : Subject → Subject = λ s. record s { target = some d } in
      at_observed sock p (add_event_listener d sock made) cc_p
      ∙ ap observe (at_observer d sock made (flip_test d sock d_cc) ∙ ap watch made_cc)

  linked_p : linked.at p ≡ record (named name) { target = some sock }
  unfolding linked
  linked_p =
      let watch : Subject → Subject = λ s. record s { target = some sock } in
      at_observer sock p (add_event_listener d sock made) (flip_test sock p cc_p)
      ∙ ap watch (at_third d sock made p (flip_test d p d_p) (flip_test sock p cc_p) ∙ made_p)

  linked-AreConnected :
      (w.at d).alive ≡ true → (w.at d).kind ≡ dispatcher → AreConnected d sock p linked
  linked-AreConnected alive kind =
      let target_p : (linked.at p).target ≡ some sock = ap (λ s. s.target) linked_p in
      let target_cc : (linked.at sock).target ≡ some d = ap (λ s. s.target) linked_cc in
      let alive_cc : (linked.at sock).alive ≡ true = ap (λ s. s.alive) linked_cc in
      let alive_d : (linked.at d).alive ≡ true = ap (λ s. s.alive) linked_d ∙ alive in
      let none_p : is_dispatcher (linked.at p).kind ≡ false =
        ap (λ s. is_dispatcher s.kind) linked_p in
      let none_cc : is_dispatcher (linked.at sock).kind ≡ false =
        ap (λ s. is_dispatcher s.kind) linked_cc in
      let one_d : is_dispatcher (linked.at d).kind ≡ true =
        ap (λ s. is_dispatcher s.kind) linked_d ∙ ap is_dispatcher kind in
      let is_d : ℕ → Bool = λ i. is_dispatcher (linked.at i).kind in
      let is_cc : ℕ → Bool = λ i. i == sock in
      record {
        registered =
            ap (λ s. member sock s.observers) linked_d ∙ member-last sock (w.at d).observers;
        observed = ap (λ s. member p s.observers) linked_cc ∙ member-last p [];
        writes =
            forward_up is_cc 1 linked p sock (flip_test sock p cc_p) target_p alive_cc
            ∙ forward_own is_cc 0 linked sock (==_refl sock);
        queues =
            forward_up is_d 2 linked p sock none_p target_p alive_cc
            ∙ forward_up is_d 1 linked sock d none_cc target_cc alive_d
            ∙ forward_own is_d 0 linked d one_d;
        finds =
            ap (get_dispatcher 3 linked) target_p
            ∙ get_dispatcher-Leads linked 1 3 (some sock) (some d)
                (Leads.up 0 sock (some d) alive_cc none_cc (
                  subst (λ t. Leads linked 0 t (some d)) (sym target_cc)
                    (Leads.found d alive_d one_d)))
                (omega arith);
      }

  linked_made : connected_to d sock p true made ≡ done linked
  unfolding connected_to add_device linked
  linked_made = refl

abbrev pub Connects : ℕ → ℕ → ℕ → Ran → Type 0
Connects d sock p r = (v : World) × (r ≡ done v) × AreConnected d sock p v

-- With a dispatcher that is there, new objects of their own addresses, and where `epoll_ctl` succeeds, each of `make_ftp`,
-- `make_ws_server` and `make_http_client` comes back with its protocol connected to the dispatcher
-- over the new socket: what the protocol writes reaches the socket, what it queues reaches the
-- dispatcher, `GetDispatcher` finds that, and each observes the next.
pub factories_connect :
    (d sock p : ℕ) (w : World) (host : Bytes) (port : ℕ) (tls : Tls) (callback : Bool)
    → (d == sock) ≡ false
    → (d == p) ≡ false
    → (sock == p) ≡ false
    → (w.at d).alive ≡ true
    → (w.at d).kind ≡ dispatcher
    → Connects d sock p (make_ftp d sock p true host port tls w).1
      × Connects d sock p (make_ws_server d sock p true host port tls callback w).1
      × Connects d sock p (make_http_client d sock p true host port w).1
unfolding make_ftp make_ws_server make_http_client linked_made made
factories_connect d sock p w host port tls callback d_cc d_p cc_p alive kind = (
  connect (codes "ftp-protocol") (codes "ftp-socket"),
  connect (codes "ws-lso") (codes "ws-cc"),
  connect (codes "http-protocol") (codes "http-socket"),
)
  where
    connect :
        (name name' : Bytes)
        → Connects d sock p
            (connected_to d sock p true (named_subject name p (named_subject name' sock w)))
    connect name name' = (
      linked d sock p w d_cc d_p cc_p name name',
      linked_made d sock p w d_cc d_p cc_p name name',
      linked-AreConnected d sock p w d_cc d_p cc_p name name' alive kind,
    )
