-- ===== src/Sender/Swapped.antt =====
-- server_epx3.c, lines 411-446, where a client of non.c connects before one of per.c: the first one has the
-- persistent slot, the second the other one.
use rnd.Common.{ℕ, ◌+◌, ◌<◌, true, none, some, List, [], ◌∷◌, ◌≡◌, ◌≢◌, arith}
use rnd.Common.Float.{FloatOps}
use rnd.StatsServer.State.{Server, max_non_persistent}
use rnd.StatsServer.Receive.{receive}
use rnd.StatsServer.Loop.{readable, bytes, handle_event, handle_events, read_client}
use rnd.Sender.AtServer.{Piece, arrive}

-- The persistent slot is empty, `fd` has the other one, `queued` wait, and `both` pairs have been counted.
pub record HasOther {D : Type 0} (fd queued both : ℕ) (s : Server D) : Type 0 where
  pub persistent : s.persistent_fd ≡ none
  pub non_persistent : s.non_persistent_fd ≡ some fd
  pub waiting : s.queue_count ≡ queued
  pub pairs : s.totals.all_both ≡ both

module _ {D : Type 0} (a b : ℕ) where
  receive-moves :
      (p : Piece) (s : Server D)
      → a ≢ b
      → s.persistent_fd ≡ some a
      → s.non_persistent_fd ≡ some b
      → s.queue_count < max_non_persistent
      → p.head ≢ b'P'
      → HasOther b
          (s.queue_count + 1)
          s.totals.all_both
          (receive a (p.head ∷ p.tail) p.start p.end s)
  unfolding receive
  receive-moves p s apart first second room not_p = record {
    persistent = ground (arith, first, second);
    non_persistent = ground (arith, first, second);
    waiting = ground (arith, first, second);
    pairs = ground (arith, first, second);
  }

  receive-keeps :
      (queued both : ℕ) (p : Piece) (s : Server D)
      → HasOther b queued both s
      → HasOther b queued both (receive b (p.head ∷ p.tail) p.start p.end s)
  unfolding receive
  receive-keeps queued both p s h = record {
    persistent = ground (arith, h.persistent, h.non_persistent);
    non_persistent = ground (arith, h.persistent, h.non_persistent);
    waiting = ground (arith, h.persistent, h.non_persistent, h.waiting);
    pairs = ground (arith, h.persistent, h.non_persistent, h.pairs);
  }

  module _ (fp : FloatOps D) where
    arrive-keeps :
        (queued both : ℕ) (ps : List Piece) (s : Server D)
        → HasOther b queued both s
        → HasOther b queued both (handle_events fp (arrive b ps) s)
    unfolding handle_events handle_event read_client
    arrive-keeps queued both [] s h = h
    arrive-keeps queued both (p ∷ ps) s h =
        arrive-keeps queued both ps (receive b (p.head ∷ p.tail) p.start p.end s)
          (receive-keeps queued both p s h)

    -- Where one client has the persistent slot, another one the other slot and the queue has
    -- room: if the first sends data without a leading 'P' and then the second any data in any
    -- pieces, the persistent slot is empty, the second client has the non-persistent slot, one
    -- more connection waits, and no pair has been counted.
    pub clients_swapped :
        (p : Piece) (ps : List Piece) (s : Server D)
        → a ≢ b
        → s.persistent_fd ≡ some a
        → s.non_persistent_fd ≡ some b
        → s.queue_count < max_non_persistent
        → p.head ≢ b'P'
        → HasOther b (s.queue_count + 1) s.totals.all_both (
            handle_events fp
              (readable a (bytes (p.head ∷ p.tail)) p.start p.end true ∷ arrive b ps)
              s)
    unfolding handle_events handle_event read_client
    clients_swapped p ps s apart first second room not_p =
        arrive-keeps (s.queue_count + 1) s.totals.all_both ps
          (receive a (p.head ∷ p.tail) p.start p.end s)
          (receive-moves p s apart first second room not_p)
