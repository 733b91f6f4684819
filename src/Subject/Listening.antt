-- ===== src/Subject/Listening.antt =====
-- What `AddEventListener` (INCLUDE/CSubject.hpp) changes in the world.
use cpp_npl.Base.{ℕ, ◌≡◌, ap, ◌∙◌, false, some, [], ◌∷◌, ◌++◌, ◌==◌, ==_refl, if◌then◌else◌}
use cpp_npl.Subject.{Subject, World, change, add_event_listener}

pub at_changed : (i : ℕ) (f : Subject → Subject) (w : World) → (change i f w).at i ≡ f (w.at i)
at_changed i f w = ap (λ b. if b then f (w.at i) else w.at i) (==_refl i)

pub at_other :
    (i j : ℕ) (f : Subject → Subject) (w : World) → (j == i) ≡ false → (change i f w).at j ≡ w.at j
at_other i j f w h = ap (λ b. if b then f (w.at i) else w.at j) h

module _ (i o : ℕ) (w : World) where
  pub at_observer :
      (o == i) ≡ false → (add_event_listener i o w).at o ≡ record (w.at o) { target = some i }
  unfolding add_event_listener
  at_observer h =
      let listened : World = change i (λ s. record s { observers = s.observers ++ o ∷ [] }) w in
      let observe : Subject → Subject = λ s. record s { target = some i } in
      at_changed o observe listened
      ∙ ap observe (at_other i o (λ s. record s { observers = s.observers ++ o ∷ [] }) w h)

  pub at_observed :
      (i == o) ≡ false
      → (add_event_listener i o w).at i
        ≡ record (w.at i) { observers = (w.at i).observers ++ o ∷ [] }
  unfolding add_event_listener
  at_observed h =
      let listened : World = change i (λ s. record s { observers = s.observers ++ o ∷ [] }) w in
      at_other o i (λ s. record s { target = some i }) listened h
      ∙ at_changed i (λ s. record s { observers = s.observers ++ o ∷ [] }) w

  pub at_third :
      (j : ℕ) → (j == i) ≡ false → (j == o) ≡ false → (add_event_listener i o w).at j ≡ w.at j
  unfolding add_event_listener
  at_third j h k =
      let listened : World = change i (λ s. record s { observers = s.observers ++ o ∷ [] }) w in
      at_other o j (λ s. record s { target = some i }) listened k
      ∙ at_other i j (λ s. record s { observers = s.observers ++ o ∷ [] }) w h
