-- ===== src/EventLoop/Arrivals.antt =====
-- Data that arrives at descriptors with connections in memory, for a program whose connection is its
-- descriptor.
use rnd.Common.{
  ℕ, some, List, [], ◌∷◌, ◌++◌, ◌≡◌, refl, ap, ◌∙◌, All, All-weaken, arith, ==→≡, map, lt→ltb, ltb,
  ◌<◌, if_rule,
}
use rnd.EventLoop.State.{
  received, Program, Event, readable, allocated, Server, put_back, follow, handle_event,
  handle_events, add_connection, accept_all,
}

-- A connection is its descriptor; the program keeps the one whose data it reads, and reads by `read`.
pub record IsReader {X : Type 0} (p : Program ℕ X) (read : List ℕ → X → X) : Type 0 where
  pub makes : (fd : ℕ) → p.new_connection fd ≡ fd
  pub keeps :
      (bytes : List ℕ) (fd : ℕ) (x : X) → p.handle (received bytes) fd x ≡ (some fd, read bytes x)

-- The descriptor and the bytes of each `recv`, in turn.
abbrev pub data_events : List (ℕ × List ℕ) → List Event
data_events arrived = map (λ (fd, bytes). readable fd (received bytes)) arrived

abbrev pub read_all : {X : Type 0} → (List ℕ → X → X) → List (ℕ × List ℕ) → X → X
read_all read [] x = x
read_all read ((fd, bytes) ∷ arrived) x = read_all read arrived (read bytes x)

-- The descriptor's entry points to a connection in memory.
abbrev pub IsConnected : {X : Type 0} → Server ℕ X → ℕ → Type 0
IsConnected s fd = s.connections fd ≡ some (allocated fd)

pub handle_events-append :
    {C X : Type 0} (p : Program C X) (es fs : List Event) (s : Server C X)
    → handle_events p (es ++ fs) s ≡ handle_events p fs (handle_events p es s)
unfolding handle_events
handle_events-append p [] fs s = refl
handle_events-append p (e ∷ es) fs s = handle_events-append p es fs (handle_event p e s)

module _ {X : Type 0} (p : Program ℕ X) (read : List ℕ → X → X) (reader : IsReader p read) where
  arrive :
      (fd : ℕ) (bytes : List ℕ) (s : Server ℕ X)
      → IsConnected s fd
      → ((handle_event p (readable fd (received bytes)) s).shared ≡ read bytes s.shared)
        × ((g : ℕ)
            → IsConnected s g
            → IsConnected (handle_event p (readable fd (received bytes)) s) g)
  unfolding handle_event follow put_back
  arrive fd bytes s at =
      rw (at, follow, reader.keeps bytes fd s.shared) (refl, λ g h. ground (arith, ==→≡ g fd))

  -- If the descriptors have connections in memory, data that arrives at them is read in the order in
  -- which it comes.
  pub arrivals_read :
      (arrived : List (ℕ × List ℕ)) (s : Server ℕ X)
      → All (λ (fd, bytes). IsConnected s fd) arrived
      → (handle_events p (data_events arrived) s).shared ≡ read_all read arrived s.shared
  unfolding handle_events
  arrivals_read [] s h = refl
  arrivals_read ((fd, bytes) ∷ arrived) s h =
      let (now, kept) = arrive fd bytes s h.0 in
      let next = handle_event p (readable fd (received bytes)) s in
      arrivals_read arrived next (All-weaken arrived (λ (g, more) k. kept g k) h.1)
      ∙ ap (read_all read arrived) now

  add_connection-keeps :
      (fd g : ℕ) (s : Server ℕ X)
      → fd < p.max_connections
      → IsConnected s g
      → IsConnected (add_connection p fd s) g
  unfolding add_connection
  add_connection-keeps fd g s below at =
      rw (lt→ltb fd p.max_connections below, reader.makes fd) (ground (arith, at, ==→≡ g fd))

  add_connection-connects :
      (fd : ℕ) (s : Server ℕ X) → fd < p.max_connections → IsConnected (add_connection p fd s) fd
  unfolding add_connection
  add_connection-connects fd s below =
      rw (lt→ltb fd p.max_connections below, reader.makes fd) (ground arith)

  accept_all-keeps :
      (fds : List ℕ) (g : ℕ) (s : Server ℕ X)
      → All (λ fd. fd < p.max_connections) fds
      → IsConnected s g
      → IsConnected (accept_all p fds s) g
  unfolding accept_all
  accept_all-keeps [] g s h at = at
  accept_all-keeps (fd ∷ fds) g s h at =
      accept_all-keeps fds g (add_connection p fd s) h.1 (add_connection-keeps fd g s h.0 at)

  -- Descriptors below the limit of the table have connections in memory when they are accepted.
  pub accept_all-connects :
      (fds : List ℕ) (s : Server ℕ X)
      → All (λ fd. fd < p.max_connections) fds
      → All (IsConnected (accept_all p fds s)) fds
  unfolding accept_all
  accept_all-connects [] s h = tt
  accept_all-connects (fd ∷ fds) s h =
      let next = add_connection p fd s in
      (
        accept_all-keeps fds fd next h.1 (add_connection-connects fd s h.0),
        accept_all-connects fds next h.1,
      )

  pub accept_all-shared : (fds : List ℕ) (s : Server ℕ X) → (accept_all p fds s).shared ≡ s.shared
  unfolding accept_all add_connection
  accept_all-shared [] s = refl
  accept_all-shared (fd ∷ fds) s =
      accept_all-shared fds (add_connection p fd s)
      ∙ if_rule (λ (next : Server ℕ X). next.shared ≡ s.shared) (ltb fd p.max_connections) refl refl
