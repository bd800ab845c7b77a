-- ===== src/EventLoop/State.antt =====
-- exp1/server_final.c, lines 21-29 and 145-181 (the same text is in exp1/server6.c, lines 111-143,
-- exp1/server7.c, lines 123-159, and exp1/server8 copy.c, lines 147-183). What `recv` and `accept4`
-- return is the input; what a program does with a connection's data is a parameter.
use rnd.Common.{ℕ, Bool, true, false, Option, none, some, List, [], ◌∷◌, ltb, ◌==◌, if◌then◌else◌}

-- The result of `recv`: an error, the end of the stream, or bytes.
pub data Recv : Type 0 where
  failed : Recv
  ended : Recv
  received : List ℕ → Recv

-- A program: the size of its table, the `Connection` that it makes for a descriptor, and its
-- `handle_connection`, which returns the connection unless it has closed and freed it.
pub record Program (C X : Type 0) : Type 0 where
  pub max_connections : ℕ
  pub new_connection : ℕ → C
  pub handle : Recv → C → X → Option C × X

-- What an entry of `connections` points to.
pub data Pointer (C : Type 0) : Type 0 where
  allocated : C → Pointer C
  freed : Pointer C

-- `shared` has the program's other globals. `is_undefined`: the program has read freed memory or has
-- written past the end of `connections`.
pub record Server (C X : Type 0) : Type 0 where
  pub shared : X
  pub connections : ℕ → Option (Pointer C)
  pub closed : List ℕ
  pub is_undefined : Bool

pub data Event : Type 0 where
  incoming : List ℕ → Event
  readable : ℕ → Recv → Event

abbrev pub update : {C : Type 0} → ℕ → Pointer C → (ℕ → Option (Pointer C)) → ℕ → Option (Pointer C)
update fd p m x = if x == fd then some p else m x

unfoldable pub start_with : {C X : Type 0} → X → Server C X
start_with x = record { shared = x; connections = λ fd. none; closed = []; is_undefined = false }

module _ {C X : Type 0} where
  -- After the handler: a connection that has been freed keeps its entry of `connections`.
  unfoldable pub put_back : ℕ → Option C → X → Server C X → Server C X
  put_back i none x s = record s {
    shared = x;
    connections = update i freed s.connections;
    closed = i ∷ s.closed;
  }
  put_back i (some c) x s = record s {
    shared = x;
    connections = update i (allocated c) s.connections;
  }

module _ {C X : Type 0} (p : Program C X) where
  -- Lines 161-164.
  unfoldable pub add_connection : ℕ → Server C X → Server C X
  add_connection fd s =
      if ltb fd p.max_connections
      then record s { connections = update fd (allocated (p.new_connection fd)) s.connections }
      else record s { is_undefined = true }

  -- Lines 152-172: the descriptors are accepted in turn, until there is none.
  unfoldable pub accept_all : List ℕ → Server C X → Server C X
  accept_all [] s = s
  accept_all (fd ∷ fds) s = accept_all fds (add_connection fd s)

  -- Lines 176-178, where entry `i` has a pointer or none.
  unfoldable pub follow : ℕ → Option (Pointer C) → Recv → Server C X → Server C X
  follow i none r s = s
  follow i (some (allocated c)) r s = let (d, x) = p.handle r c s.shared in put_back i d x s
  follow i (some freed) r s = record s { is_undefined = true }

  -- Lines 150-179.
  unfoldable pub handle_event : Event → Server C X → Server C X
  handle_event (incoming fds) s = accept_all fds s
  handle_event (readable fd r) s = follow fd (s.connections fd) r s

  -- Lines 147-180, for all the events of a run.
  unfoldable pub handle_events : List Event → Server C X → Server C X
  handle_events [] s = s
  handle_events (e ∷ es) s = handle_events es (handle_event e s)
