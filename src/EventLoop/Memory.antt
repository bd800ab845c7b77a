-- ===== src/EventLoop/Memory.antt =====
-- The table of connections under the kernel's rules for descriptors.
use rnd.Common.{
  ℕ, ◌<◌, Bool, true, false, ◌||◌, none, some, List, [], ◌∷◌, ◌≡◌, refl, ◌==◌, Bool-cases, inl, inr,
  if◌then◌else◌, arith, lt→ltb, All,
}
use rnd.EventLoop.State.{
  Recv, failed, ended, received, Program, allocated, Server, Event, incoming, readable, start_with,
  put_back, add_connection, accept_all, follow, handle_event, handle_events,
}

abbrev pub is_open : ℕ → List ℕ → Bool
is_open fd [] = false
is_open fd (x ∷ xs) = fd == x || is_open fd xs

abbrev pub remove : ℕ → List ℕ → List ℕ
remove fd [] = []
remove fd (x ∷ xs) = let rest = remove fd xs in if fd == x then rest else x ∷ rest

-- The descriptors of clients that are open after an event.
abbrev pub open_after : Event → List ℕ → List ℕ
open_after (incoming []) opened = opened
open_after (incoming (fd ∷ fds)) opened = open_after (incoming fds) (fd ∷ opened)
open_after (readable fd failed) opened = remove fd opened
open_after (readable fd ended) opened = remove fd opened
open_after (readable fd (received bytes)) opened = opened

-- A new descriptor is below the limit; only an open one has events.
abbrev pub IsKernelEvent : ℕ → List ℕ → Event → Type 0
IsKernelEvent limit opened (incoming fds) = All (λ fd. fd < limit) fds
IsKernelEvent limit opened (readable fd r) = is_open fd opened ≡ true

abbrev pub IsKernelRun : ℕ → List ℕ → List Event → Type 0
IsKernelRun limit opened [] = Unit
IsKernelRun limit opened (e ∷ es) =
    IsKernelEvent limit opened e × IsKernelRun limit (open_after e opened) es

is_open-remove :
    (x fd : ℕ) (opened : List ℕ)
    → is_open x (remove fd opened) ≡ true
    → (is_open x opened ≡ true) × ((x == fd) ≡ false)
is_open-remove x fd [] h = ground arith
is_open-remove x fd (o ∷ os) h = ground (arith, is_open-remove x fd os)

-- The handler keeps the connection exactly when it has received bytes.
pub record ClosesAtEnd {C X : Type 0} (p : Program C X) : Type 0 where
  pub at_failure : (c : C) (x : X) → (p.handle failed c x).0 ≡ none
  pub at_end : (c : C) (x : X) → (p.handle ended c x).0 ≡ none
  pub at_bytes :
      (bytes : List ℕ) (c : C) (x : X) → (d : C) × ((p.handle (received bytes) c x).0 ≡ some d)

module _ {C X : Type 0} where
  -- Each open descriptor's entry points to a connection in memory.
  abbrev IsSound : List ℕ → Server C X → Type 0
  IsSound opened s =
      (s.is_undefined ≡ false)
      × ((fd : ℕ) → is_open fd opened ≡ true → (c : C) × (s.connections fd ≡ some (allocated c)))

  put_back-IsSound :
      (fd : ℕ) (c : C) (x : X) (opened : List ℕ) (s : Server C X)
      → IsSound opened s
      → IsSound opened (put_back fd (some c) x s)
  unfolding put_back
  put_back-IsSound fd c x opened s h = (
    h.0,
    λ y o. elim (Bool-cases (y == fd)) [
      | inl same ↦ (c, rw same refl)
      | inr other ↦ let (d, at) = h.1 y o in (d, rw other at)
    ],
  )

  free-IsSound :
      (fd : ℕ) (x : X) (opened : List ℕ) (s : Server C X)
      → IsSound opened s
      → IsSound (remove fd opened) (put_back fd none x s)
  unfolding put_back
  free-IsSound fd x opened s h = (
    h.0,
    λ y o.
        let (o', other) = is_open-remove y fd opened o in
        let (d, at) = h.1 y o' in (d, rw other at),
  )

module _ {C X : Type 0} (p : Program C X) (ends : ClosesAtEnd p) where
  add-IsSound :
      (fd : ℕ) (opened : List ℕ) (s : Server C X)
      → fd < p.max_connections
      → IsSound opened s
      → IsSound (fd ∷ opened) (add_connection p fd s)
  unfolding add_connection
  add-IsSound fd opened s k h = rw (lt→ltb fd p.max_connections k) (
    h.0,
    λ x o. elim (Bool-cases (x == fd)) [
      | inl same ↦ (p.new_connection fd, rw same refl)
      | inr other ↦ let (d, at) = h.1 x (ground arith) in (d, rw other at)
    ],
  )

  accept_all-IsSound :
      (fds opened : List ℕ) (s : Server C X)
      → All (λ fd. fd < p.max_connections) fds
      → IsSound opened s
      → IsSound (open_after (incoming fds) opened) (accept_all p fds s)
  unfolding accept_all
  accept_all-IsSound [] opened s k h = h
  accept_all-IsSound (fd ∷ fds) opened s k h =
      accept_all-IsSound fds (fd ∷ opened) (add_connection p fd s) k.1
        (add-IsSound fd opened s k.0 h)

  follow-IsSound :
      (fd : ℕ) (c : C) (opened : List ℕ) (r : Recv) (s : Server C X)
      → IsSound opened s
      → IsSound (open_after (readable fd r) opened) (follow p fd (some (allocated c)) r s)
  unfolding follow
  follow-IsSound fd c opened failed s h =
      rw (ends.at_failure c s.shared) (free-IsSound fd (p.handle failed c s.shared).1 opened s h)
  follow-IsSound fd c opened ended s h =
      rw (ends.at_end c s.shared) (free-IsSound fd (p.handle ended c s.shared).1 opened s h)
  follow-IsSound fd c opened (received bytes) s h =
      let (d, kept) = ends.at_bytes bytes c s.shared in
      rw kept (put_back-IsSound fd d (p.handle (received bytes) c s.shared).1 opened s h)

  event-IsSound :
      (e : Event) (opened : List ℕ) (s : Server C X)
      → IsKernelEvent p.max_connections opened e
      → IsSound opened s
      → IsSound (open_after e opened) (handle_event p e s)
  unfolding handle_event
  event-IsSound (incoming fds) opened s k h = accept_all-IsSound fds opened s k h
  event-IsSound (readable fd r) opened s k h =
      let (c, at) = h.1 fd k in rw at (follow-IsSound fd c opened r s h)

  events-IsSound :
      (es : List Event) (opened : List ℕ) (s : Server C X)
      → IsKernelRun p.max_connections opened es
      → IsSound opened s
      → (handle_events p es s).is_undefined ≡ false
  unfolding handle_events
  events-IsSound [] opened s k h = h.0
  events-IsSound (e ∷ es) opened s k h =
      events-IsSound es (open_after e opened) (handle_event p e s) k.1
        (event-IsSound e opened s k.0 h)

  -- For a program that keeps a connection exactly when it has received bytes: if new descriptors
  -- are below the limit and only open ones have events, a run neither reads freed memory nor
  -- writes past the table.
  pub events_are_defined :
      (es : List Event) (x : X)
      → IsKernelRun p.max_connections [] es
      → (handle_events p es (start_with x)).is_undefined ≡ false
  unfolding start_with
  events_are_defined es x k = events-IsSound es [] (start_with x) k (refl, λ fd o. ground arith)
