-- ===== src/Sender/AtServer.antt =====
-- per.c and server_epx3.c together: the client's bytes at the server, whatever pieces they come in.
use rnd.Common.{
  ℕ, ◌+◌, true, false, List, [], ◌∷◌, ◌++◌, ◌≡◌, refl, sym, ap, ◌∙◌, arith, All, length,
  length-append, map, subst,
}
use rnd.Common.Word.{u64}
use rnd.Common.Time.{Timeval}
use rnd.Common.Float.{FloatOps}
use rnd.StatsServer.State.{Server}
use rnd.StatsServer.Receive.{is_fd, receive}
use rnd.StatsServer.Loop.{Event, readable, bytes, handle_event, handle_events, read_client}
use rnd.StatsServer.Bytes.{total_bytes, is_misplaced, receive-total_bytes}
use rnd.Sender.State.{Input, init, send_all}
use rnd.Sender.Wire.{IsP, wire, bytes_counted}

-- What one `recv` returns, at least one byte, with the two readings of the clock.
pub record Piece : Type 0 where
  pub head : ℕ
  pub tail : List ℕ
  pub start : Timeval
  pub end : Timeval

abbrev pub data_of : List Piece → List ℕ
data_of [] = []
data_of (p ∷ ps) = (p.head ∷ p.tail) ++ data_of ps

abbrev pub arrive : ℕ → List Piece → List Event
arrive fd ps = map (λ (p : Piece). readable fd (bytes (p.head ∷ p.tail)) p.start p.end true) ps

-- What stays of the server.
abbrev pub KeepsSlots : {D : Type 0} → Server D → Server D → Type 0
KeepsSlots s t =
    (t.calls ≡ s.calls)
    × (t.persistent_fd ≡ s.persistent_fd)
    × (t.non_persistent_fd ≡ s.non_persistent_fd)

All-back : (xs ys : List ℕ) → All IsP (xs ++ ys) → All IsP ys
All-back [] ys h = h
All-back (x ∷ xs) ys h = All-back xs ys h.1

module _ {D : Type 0} (fd : ℕ) where
  receive_piece :
      (p : Piece) (s : Server D)
      → IsP p.head
      → is_fd s.persistent_fd fd ≡ true
      → KeepsSlots s (receive fd (p.head ∷ p.tail) p.start p.end s)
        × (total_bytes (receive fd (p.head ∷ p.tail) p.start p.end s)
            ≡ u64 (total_bytes s + (length p.tail + 1)))
  receive_piece p s is_p own =
      let placed : is_misplaced fd (p.head ∷ p.tail) s ≡ false = ground (arith, is_p) in
      let (total, calls, first, second) =
        receive-total_bytes fd (p.head ∷ p.tail) p.start p.end s placed in
      ((calls, first, second), ground (arith, total, own))

  module _ (fp : FloatOps D) where
    arrive-kept :
        (ps : List Piece) (s : Server D)
        → All IsP (data_of ps)
        → is_fd s.persistent_fd fd ≡ true
        → KeepsSlots s (handle_events fp (arrive fd ps) s)
          × (total_bytes (handle_events fp (arrive fd ps) s)
              ≡ u64 (total_bytes s + length (data_of ps)))
    unfolding handle_events handle_event read_client
    arrive-kept [] s h own = ((refl, refl, refl), ground arith)
    arrive-kept (p ∷ ps) s (is_p, h) own =
        let rest_p = All-back p.tail (data_of ps) h in
        let next = receive fd (p.head ∷ p.tail) p.start p.end s in
        let ((calls, first, second), total) = receive_piece p s is_p own in
        let still : is_fd next.persistent_fd fd ≡ true =
          subst (λ q. is_fd q fd ≡ true) (sym first) own in
        let ((calls', first', second'), total') = arrive-kept ps next rest_p still in
        (
          (calls' ∙ calls, first' ∙ first, second' ∙ second),
          omega (arith, total, total', length-append p.tail (data_of ps)),
        )

    -- If a client of server_epx3.c has the persistent slot and the bytes that a run of per.c has
    -- sent reach it in any pieces, one event after the other, then no slot changes and no call
    -- is made, and the sum of the server's byte totals grows by the client's counter of bytes,
    -- modulo 2^64.
    pub bytes_at_server :
        (max : ℕ) (is : List (Input D)) (ps : List Piece) (s : Server D)
        → is_fd s.persistent_fd fd ≡ true
        → data_of ps ≡ wire fp max is (init fp)
        → KeepsSlots s (handle_events fp (arrive fd ps) s)
          × (total_bytes (handle_events fp (arrive fd ps) s)
              ≡ u64 (total_bytes s + (send_all fp max is (init fp)).total_bytes_sent))
    bytes_at_server max is ps s own all =
        let (all_p, counted) = bytes_counted fp max is in
        let (kept, total) = arrive-kept ps s (subst (All IsP) (sym all) all_p) own in
        (kept, omega (arith, total, counted, ap length all))
