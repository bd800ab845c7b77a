-- ===== src/EventLoop/Isolation.antt =====
-- What the shared state holds of one connection does not depend on the others.
use rnd.Common.{
  ℕ, false, Option, none, some, List, [], ◌∷◌, ◌≡◌, refl, sym, ◌∙◌, ◌==◌, Bool-cases, inl, inr,
  if◌then◌else◌, arith, ltb, subst, ==→≡,
}
use rnd.EventLoop.State.{
  Recv, Program, Pointer, allocated, freed, Server, Event, incoming, readable, update, start_with,
  put_back, add_connection, accept_all, follow, handle_event, handle_events,
}

-- The acceptances of `fd` among those of one event, each an event of its own, and then `es`.
abbrev pub own_accepts : ℕ → List ℕ → List Event → List Event
own_accepts fd [] es = es
own_accepts fd (x ∷ xs) es =
    let rest = own_accepts fd xs es in if x == fd then incoming (x ∷ []) ∷ rest else rest

-- The events of one descriptor, in their order.
abbrev pub only : ℕ → List Event → List Event
only fd [] = []
only fd (incoming fds ∷ es) = own_accepts fd fds (only fd es)
only fd (readable x r ∷ es) = let rest = only fd es in if x == fd then readable x r ∷ rest else rest

-- `owner` is the descriptor of a connection, and `view fd` what the shared state holds of `fd`. The
-- handler changes the view of its own connection only, and by that view and the connection alone.
pub record IsLocal {C X V : Type 0} (p : Program C X) (owner : C → ℕ) (view : ℕ → X → V)
    : Type 0 where
  pub owner_new : (fd : ℕ) → owner (p.new_connection fd) ≡ fd
  pub owner_kept : (r : Recv) (c d : C) (x : X) → (p.handle r c x).0 ≡ some d → owner d ≡ owner c
  pub others :
      (r : Recv) (c : C) (x : X) (fd : ℕ)
      → (owner c == fd) ≡ false
      → view fd (p.handle r c x).1 ≡ view fd x
  pub same_connection : (r : Recv) (c : C) (x y : X) → (p.handle r c x).0 ≡ (p.handle r c y).0
  pub same_view :
      (r : Recv) (c : C) (x y : X) (fd : ℕ)
      → view fd x ≡ view fd y
      → view fd (p.handle r c x).1 ≡ view fd (p.handle r c y).1

module _ {C X V : Type 0} (p : Program C X) (owner : C → ℕ) (view : ℕ → X → V) (fd : ℕ) where
  -- Two servers agree on `fd`; in the first each connection stands in its own entry.
  record Agree (s t : Server C X) : Type 0 where
    at : s.connections fd ≡ t.connections fd
    views : view fd s.shared ≡ view fd t.shared
    owners : (i : ℕ) (c : C) → s.connections i ≡ some (allocated c) → owner c ≡ i

  abbrev Owns : (ℕ → Option (Pointer C)) → Type 0
  Owns m = (i : ℕ) (c : C) → m i ≡ some (allocated c) → owner c ≡ i

  update-Owns :
      (i : ℕ) (e : C) (m : ℕ → Option (Pointer C))
      → owner e ≡ i
      → Owns m
      → Owns (update i (allocated e) m)
  update-Owns i e m own h j c k = ground (arith, h j c)

  freed-Owns : (i : ℕ) (m : ℕ → Option (Pointer C)) → Owns m → Owns (update i freed m)
  freed-Owns i m h j c k = ground (arith, h j c)

  put_other-Agree :
      (i : ℕ) (d : Option C) (x : X) (s t : Server C X)
      → (i == fd) ≡ false
      → view fd x ≡ view fd s.shared
      → ((e : C) → d ≡ some e → owner e ≡ i)
      → Agree s t
      → Agree (put_back i d x s) t
  unfolding put_back
  put_other-Agree i none x s t other same own h = record {
    at = ground (arith, h.at);
    views = same ∙ h.views;
    owners = freed-Owns i s.connections h.owners;
  }
  put_other-Agree i (some e) x s t other same own h = record {
    at = ground (arith, h.at);
    views = same ∙ h.views;
    owners = update-Owns i e s.connections (own e refl) h.owners;
  }

  put_own-Agree :
      (d : Option C) (x y : X) (s t : Server C X)
      → view fd x ≡ view fd y
      → ((e : C) → d ≡ some e → owner e ≡ fd)
      → Agree s t
      → Agree (put_back fd d x s) (put_back fd d y t)
  unfolding put_back
  put_own-Agree none x y s t same own h = record {
    at = ground arith;
    views = same;
    owners = freed-Owns fd s.connections h.owners;
  }
  put_own-Agree (some e) x y s t same own h = record {
    at = ground arith;
    views = same;
    owners = update-Owns fd e s.connections (own e refl) h.owners;
  }

module _ {C X V : Type 0} (p : Program C X) (owner : C → ℕ) (view : ℕ → X → V)
    (l : IsLocal p owner view) (fd : ℕ) where
  abbrev Same : Server C X → Server C X → Type 0
  Same = Agree p owner view fd

  add_other-Same :
      (g : ℕ) (s t : Server C X) → (g == fd) ≡ false → Same s t → Same (add_connection p g s) t
  unfolding add_connection
  add_other-Same g s t other h = elim (Bool-cases (ltb g p.max_connections)) [
    | inl fits ↦ rw fits (record {
      at = ground (arith, h.at);
      views = h.views;
      owners =
          update-Owns p owner view fd g (p.new_connection g) s.connections (l.owner_new g) h.owners;
    })
    | inr over ↦ rw over (record { at = h.at; views = h.views; owners = h.owners })
  ]

  add_own-Same :
      (s t : Server C X) → Same s t → Same (add_connection p fd s) (add_connection p fd t)
  unfolding add_connection
  add_own-Same s t h = elim (Bool-cases (ltb fd p.max_connections)) [
    | inl fits ↦ rw fits (record {
      at = ground arith;
      views = h.views;
      owners =
          update-Owns p owner view fd fd (p.new_connection fd) s.connections (l.owner_new fd)
            h.owners;
    })
    | inr over ↦ rw over (record { at = h.at; views = h.views; owners = h.owners })
  ]

  incoming-Same :
      (fds : List ℕ) (es : List Event) (s t : Server C X)
      → Same s t
      → ((s t : Server C X)
          → Same s t
          → Same (handle_events p es s) (handle_events p (only fd es) t))
      → Same
          (handle_events p es (accept_all p fds s))
          (handle_events p (own_accepts fd fds (only fd es)) t)
  unfolding handle_events handle_event accept_all
  incoming-Same [] es s t h rest = rest s t h
  incoming-Same (g ∷ fds) es s t h rest = elim (Bool-cases (g == fd)) [
    | inl own ↦ rw own (
        incoming-Same fds es (add_connection p g s) (add_connection p g t)
          (subst (λ x. Same (add_connection p x s) (add_connection p x t)) (sym (==→≡ g fd own))
            (add_own-Same s t h))
          rest)
    | inr other ↦
        rw other (incoming-Same fds es (add_connection p g s) t (add_other-Same g s t other h) rest)
  ]

  follow_other-Same :
      (i : ℕ) (q : Option (Pointer C)) (r : Recv) (s t : Server C X)
      → (i == fd) ≡ false
      → s.connections i ≡ q
      → Same s t
      → Same (follow p i q r s) t
  unfolding follow
  follow_other-Same i none r s t other e h = h
  follow_other-Same i (some freed) r s t other e h = record {
    at = h.at;
    views = h.views;
    owners = h.owners;
  }
  follow_other-Same i (some (allocated c)) r s t other e h =
      let own = h.owners i c e in
      put_other-Agree p owner view fd i (p.handle r c s.shared).0 (p.handle r c s.shared).1 s t
        other (l.others r c s.shared fd (rw own other)) (λ d k. l.owner_kept r c d s.shared k ∙ own)
        h

  follow_own-Same :
      (q : Option (Pointer C)) (r : Recv) (s t : Server C X)
      → s.connections fd ≡ q
      → Same s t
      → Same (follow p fd q r s) (follow p fd q r t)
  unfolding follow
  follow_own-Same none r s t e h = h
  follow_own-Same (some freed) r s t e h = record { at = h.at; views = h.views; owners = h.owners }
  follow_own-Same (some (allocated c)) r s t e h =
      let own = h.owners fd c e in
      rw (← l.same_connection r c s.shared t.shared) (
        put_own-Agree p owner view fd (p.handle r c s.shared).0 (p.handle r c s.shared).1
          (p.handle r c t.shared).1 s t (l.same_view r c s.shared t.shared fd h.views)
          (λ d k. l.owner_kept r c d s.shared k ∙ own) h)

  readable-Same :
      (i : ℕ) (r : Recv) (es : List Event) (s t : Server C X)
      → Same s t
      → ((s t : Server C X)
          → Same s t
          → Same (handle_events p es s) (handle_events p (only fd es) t))
      → Same
          (handle_events p (readable i r ∷ es) s)
          (handle_events p (only fd (readable i r ∷ es)) t)
  unfolding handle_events handle_event
  readable-Same i r es s t h rest = elim (Bool-cases (i == fd)) [
    | inl own ↦ rw own (
        rest (follow p i (s.connections i) r s) (follow p i (t.connections i) r t) (
          subst (λ x. Same (follow p x (s.connections x) r s) (follow p x (t.connections x) r t))
            (sym (==→≡ i fd own)) (rw (← h.at) (follow_own-Same (s.connections fd) r s t refl h))))
    | inr other ↦ rw other (
        rest (follow p i (s.connections i) r s) t
          (follow_other-Same i (s.connections i) r s t other refl h))
  ]

  events-Same :
      (es : List Event) (s t : Server C X)
      → Same s t
      → Same (handle_events p es s) (handle_events p (only fd es) t)
  unfolding handle_events handle_event
  events-Same [] s t h = h
  events-Same (incoming fds ∷ es) s t h = incoming-Same fds es s t h (events-Same es)
  events-Same (readable i r ∷ es) s t h = readable-Same i r es s t h (events-Same es)

  -- For a local program, what the shared state holds of a descriptor after a run is what the
  -- descriptor's own events alone would leave.
  pub view_isolated :
      (es : List Event) (x : X)
      → view fd (handle_events p es (start_with x)).shared
        ≡ view fd (handle_events p (only fd es) (start_with x)).shared
  unfolding start_with
  view_isolated es x =
      (events-Same es (start_with x) (start_with x)
        (record { at = refl; views = refl; owners = λ i c k. ground arith })).views
