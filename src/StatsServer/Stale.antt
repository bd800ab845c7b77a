-- ===== src/StatsServer/Stale.antt =====
-- server_epx3.c, lines 460-494 and 524-534: `pick` after the session of the client that it names.
use rnd.Common.{
  ℕ, Bool, true, false, not, ◌&&◌, ◌==◌, none, some, List, [], ◌∷◌, ◌≡◌, ◌≢◌, refl, ap, ◌∙◌, arith,
  map, All, if◌then◌else◌,
}
use rnd.Common.Float.{FloatOps}
use rnd.Common.Time.{Timeval}
use rnd.StatsServer.State.{Connection, Server, zero_session}
use rnd.StatsServer.Session.{count_connection, reset_session, promote, end_session}
use rnd.StatsServer.Receive.{is_fd, receive, hang_up}
use rnd.StatsServer.Close.{stop_if_idle, release_slot, disconnect}
use rnd.StatsServer.Loop.{Event, readable, bytes, handle_event, handle_events}
use rnd.StatsServer.Bounds.{InBounds, receive-InBounds, hang_up-InBounds}
use rnd.StatsServer.Waiting.{waiting, first_fd, end-first}

own_fd : (x : ℕ) → is_fd (some x) x ≡ true
own_fd x = ground arith

other_fd : (p x : ℕ) → x ≢ p → is_fd (some p) x ≡ false
other_fd p x h = ground arith

-- Both slots are taken and `pick` holds the descriptor `x`.
pub record HoldsPick {D : Type 0} (p np x : ℕ) (s : Server D) : Type 0 where
  pub persistent : s.persistent_fd ≡ some p
  pub non_persistent : s.non_persistent_fd ≡ some np
  pub picks : s.pick ≡ some x

-- Data of a client, with the two clock readings.
pub record Data : Type 0 where
  pub fd : ℕ
  pub head : ℕ
  pub tail : List ℕ
  pub start : Timeval
  pub end : Timeval

abbrev pub data_event : Data → Event
data_event d = readable d.fd (bytes (d.head ∷ d.tail)) d.start d.end true

-- The persistent client's data begins with 'P'; any other client's may begin with any byte.
abbrev pub Keeps : ℕ → Data → Type 0
Keeps p d = d.fd ≡ p → d.head ≡ b'P'

stays : (p : ℕ) (d : Data) → Keeps p d → (p == d.fd) && not (d.head == b'P') ≡ false
stays p d k = ground arith

if_true {ℓ} : {A : Type ℓ} (x y : A) {b : Bool} → b ≡ true → (if b then x else y) ≡ x
if_true x y h = ap (λ c. if c then x else y) h

if_false {ℓ} : {A : Type ℓ} (x y : A) {b : Bool} → b ≡ false → (if b then x else y) ≡ y
if_false x y h = ap (λ c. if c then x else y) h

module _ {D : Type 0} where
  receive-HoldsPick :
      (p np x : ℕ) (d : Data) (s : Server D)
      → x ≢ p
      → x ≢ np
      → Keeps p d
      → HoldsPick p np x s
      → let t = receive d.fd (d.head ∷ d.tail) d.start d.end s in
        HoldsPick p np x t
        × (t.totals.all_both ≡ s.totals.all_both)
        × (t.session.both ≡ s.session.both)
  unfolding receive
  receive-HoldsPick p np x d s h g m k =
      let e = stays p d m in (ground (arith, e), ground (arith, e), ground (arith, e))

  -- The event of the non-persistent client that `pick` holds from then on.
  receive-picks :
      (p x b : ℕ) (bs : List ℕ) (t u : Timeval) (s : Server D)
      → x ≢ p
      → s.persistent_fd ≡ some p
      → s.non_persistent_fd ≡ some x
      → s.pick ≡ none
      → let r = receive x (b ∷ bs) t u s in
        HoldsPick p x x r × (r.totals.all_both ≡ s.totals.all_both) × (waiting r ≡ waiting s)
  unfolding receive
  receive-picks p x b bs t u s h e f g = (ground arith, ground arith, ground arith)

  -- What the end of a session leaves alone.
  pub record Keeping (s t : Server D) : Type 0 where
    pub persistent : t.persistent_fd ≡ s.persistent_fd
    pub picks : t.pick ≡ s.pick
    pub pairs : t.totals.all_both ≡ s.totals.all_both

  stop-HoldsPick :
      (p np x : ℕ) (s : Server D) → HoldsPick p np x s → HoldsPick p np x (stop_if_idle s)
  unfolding stop_if_idle
  stop-HoldsPick p np x s k = ground (arith, k)

  stop-pairs :
      (s : Server D)
      → ((stop_if_idle s).totals.all_both ≡ s.totals.all_both)
        × ((stop_if_idle s).session.both ≡ s.session.both)
  unfolding stop_if_idle
  stop-pairs s = (ground arith, ground arith)

  hang_up-keeps : (fd : ℕ) (s : Server D) → Keeping s (hang_up fd s)
  unfolding hang_up
  hang_up-keeps fd s = record { persistent = refl; picks = refl; pairs = refl }

  promote-keeps : (s : Server D) → Keeping s (promote true s).0
  unfolding promote
  promote-keeps s = ground arith

  promote-both : (s : Server D) → (promote true s).0.session.both ≡ s.session.both
  unfolding promote
  promote-both s = ground arith

  promote-goes_on : (s : Server D) → (promote true s).1 ≡ true
  unfolding promote
  promote-goes_on s = ground arith

  module _ (fp : FloatOps D) where
    go_on :
        (r : Server D × Bool)
        → r.1 ≡ true
        → (if r.1 then stop_if_idle r.0 else r.0) ≡ stop_if_idle r.0
    go_on r h = if_true _ _ h

    end-keeps : (s : Server D) → Keeping s (end_session fp true s).0
    unfolding end_session count_connection reset_session
    end-keeps s = let k = promote-keeps (reset_session (count_connection fp s)) in ground (arith, k)

    end-both : (s : Server D) → (end_session fp true s).0.session.both ≡ 0
    unfolding end_session reset_session zero_session
    end-both s = promote-both (reset_session (count_connection fp s))

    end-goes_on : (s : Server D) → (end_session fp true s).1 ≡ true
    unfolding end_session
    end-goes_on s = promote-goes_on (reset_session (count_connection fp s))

    release_session :
        (fd : ℕ) (v : Timeval) (s : Server D)
        → is_fd s.persistent_fd fd ≡ false
        → is_fd s.non_persistent_fd fd ≡ true
        → release_slot fp fd v true s ≡ end_session fp true s
    unfolding release_slot
    release_session fd v s h g = if_false _ _ h ∙ if_true _ _ g

    disconnect_session :
        (fd : ℕ) (v : Timeval) (s : Server D)
        → is_fd s.persistent_fd fd ≡ false
        → is_fd s.non_persistent_fd fd ≡ true
        → disconnect fp fd v true s ≡ stop_if_idle (end_session fp true (hang_up fd s)).0
    unfolding disconnect
    disconnect_session fd v s h g =
        let ended : release_slot fp fd v true (hang_up fd s) ≡ end_session fp true (hang_up fd s) =
          release_session fd v (hang_up fd s) (unfold hang_up in h) (unfold hang_up in g) in
        go_on (release_slot fp fd v true (hang_up fd s))
          (ap (λ (r : Server D × Bool). r.1) ended ∙ end-goes_on (hang_up fd s))
        ∙ ap (λ (r : Server D × Bool). stop_if_idle r.0) ended

    -- The first waiting connection takes the slot, and `pick` still holds the closed descriptor.
    disconnect-HoldsPick :
        (p x : ℕ) (c : Connection) (ws : List Connection) (v : Timeval) (r : Server D)
        → InBounds r
        → x ≢ p
        → waiting r ≡ c ∷ ws
        → HoldsPick p x x r
        → let t = disconnect fp x v true r in
          HoldsPick p c.fd x t × (t.totals.all_both ≡ r.totals.all_both) × (t.session.both ≡ 0)
    disconnect-HoldsPick p x c ws v r b h e k =
        let t = (end_session fp true (hang_up x r)).0 in
        let hung = hang_up-keeps x r in
        let kept = end-keeps (hang_up x r) in
        let (left, slot) = end-first fp true (hang_up x r) (hang_up-InBounds x r b) in
        let same : waiting (hang_up x r) ≡ waiting r = unfold hang_up in refl in
        let stale : HoldsPick p c.fd x t = record {
          persistent = kept.persistent ∙ hung.persistent ∙ k.persistent;
          non_persistent = slot ∙ ap first_fd (same ∙ e);
          picks = kept.picks ∙ hung.picks ∙ k.picks;
        } in
        let ends =
          disconnect_session x v r (ap (λ o. is_fd o x) k.persistent ∙ other_fd p x h)
            (ap (λ o. is_fd o x) k.non_persistent ∙ own_fd x) in
        rw ends (
          stop-HoldsPick p c.fd x t stale,
          (stop-pairs t).0 ∙ kept.pairs ∙ hung.pairs,
          (stop-pairs t).1 ∙ end-both (hang_up x r),
        )

    stale_data :
        (p np x : ℕ) (ds : List Data) (s : Server D)
        → x ≢ p
        → x ≢ np
        → All (Keeps p) ds
        → HoldsPick p np x s
        → let t = handle_events fp (map data_event ds) s in
          HoldsPick p np x t
          × (t.totals.all_both ≡ s.totals.all_both)
          × (t.session.both ≡ s.session.both)
    unfolding handle_events handle_event
    stale_data p np x [] s h g m k = (k, refl, refl)
    stale_data p np x (d ∷ ds) s h g (m, ms) k =
        let (k', e, f) = receive-HoldsPick p np x d s h g m k in
        let (l, a, b) =
          stale_data p np x ds (receive d.fd (d.head ∷ d.tail) d.start d.end s) h g ms k' in
        (l, a ∙ e, b ∙ f)

    -- In a state within bounds, with the slots taken by different descriptors, no event picked,
    -- and a connection waiting whose descriptor is not the non-persistent one: if the non-
    -- persistent client sends data and ends its connection, and the first waiting connection is
    -- registered, that connection takes the slot and `pick` keeps the descriptor that was
    -- closed. From then on data makes no pair, however much and from whichever clients, as long
    -- as the persistent client's begins with 'P': the pair counter is what it was, the session's
    -- is zero, and slots and `pick` stay.
    pub stale_after_session :
        (p x b : ℕ) (bs : List ℕ) (t u v : Timeval) (c : Connection) (ws : List Connection)
        (ds : List Data) (s : Server D)
        → InBounds s
        → s.persistent_fd ≡ some p
        → s.non_persistent_fd ≡ some x
        → s.pick ≡ none
        → waiting s ≡ c ∷ ws
        → x ≢ p
        → x ≢ c.fd
        → All (Keeps p) ds
        → let after =
            handle_events fp
              (readable x (bytes (b ∷ bs)) t u true
                ∷ readable x (bytes []) v v true
                ∷ map data_event ds)
              s in
          HoldsPick p c.fd x after
          × (after.totals.all_both ≡ s.totals.all_both)
          × (after.session.both ≡ 0)
    unfolding handle_events handle_event
    stale_after_session p x b bs t u v c ws ds s bound e f g w h n m =
        let r = receive x (b ∷ bs) t u s in
        let (k, same, wait) = receive-picks p x b bs t u s h e f g in
        let (k', same', none_yet) =
          disconnect-HoldsPick p x c ws v r (receive-InBounds x (b ∷ bs) t u s bound) h (wait ∙ w)
            k in
        let (l, a, both) = stale_data p c.fd x ds (disconnect fp x v true r) h n m k' in
        (l, a ∙ same' ∙ same, both ∙ none_yet)
