-- ===== src/StatsServer/Waiting.antt =====
-- server_epx3.c: the queue array with its count stands for the list of connections that wait, which
-- join at the end and leave at the front.
use rnd.Common.{
  ℕ, zero, suc, ◌-◌, ◌<◌, Bool, true, false, ltb, ◌&&◌, if◌then◌else◌, some, List, [], ◌∷◌, ◌++◌,
  ◌≡◌, refl, sym, ap, ◌∙◌, arith, length, take, Bool-cases, inl, inr, Option, none, ltb→lt, if_rule,
}
use mathlib.Core.List.{append-nil}
use rnd.Common.Int.{pos, ◌+ℤ◌}
use rnd.Common.Float.{FloatOps}
use rnd.Common.Time.{Timeval}
use rnd.StatsServer.State.{Connection, Server, accepted, epoll_add, max_non_persistent}
use rnd.StatsServer.Queue.{take-set, take-shift}
use rnd.StatsServer.Session.{
  count_connection, reset_session, dequeue, drop_promoted, promote, end_session,
}
use rnd.StatsServer.Accept.{client, enqueue, register, place, accept_client}
use rnd.StatsServer.Receive.{is_some, receive, relabel, count_event}
use rnd.StatsServer.Bytes.{is_misplaced}
use rnd.StatsServer.Bounds.{InBounds, count-InBounds}

abbrev pub waiting : {D : Type 0} → Server D → List Connection
waiting s = take s.queue_count s.non_persistent_queue

-- The connection, if it is one that joins.
abbrev pub if_joins : Bool → Connection → List Connection
if_joins joins c = if joins then c ∷ [] else []

-- Without the first one.
abbrev pub others : List Connection → List Connection
others [] = []
others (c ∷ cs) = cs

abbrev pub first_fd : List Connection → Option ℕ
first_fd [] = none
first_fd (c ∷ cs) = some c.fd

module _ {D : Type 0} where
  waiting-enqueue :
      (c : Connection) (s : Server D)
      → InBounds s
      → s.queue_count < max_non_persistent
      → waiting (enqueue c s) ≡ waiting s ++ c ∷ []
  unfolding enqueue
  waiting-enqueue c s b h = ground (arith, take-set s.queue_count s.non_persistent_queue c)

  -- With a connection waiting, `dequeue` gives the first one the non-persistent slot with its
  -- time of arrival and registers it, leaves the others waiting in their order, and keeps the
  -- client count.
  pub dequeue-head :
      (s : Server D)
      → InBounds s
      → 0 < s.queue_count
      → (c : Connection) × (waiting s ≡ c ∷ waiting (dequeue s))
        × ((dequeue s).non_persistent_fd ≡ some c.fd)
        × ((dequeue s).non_persistent_connect_time ≡ c.connect_time)
        × ((dequeue s).calls ≡ epoll_add c.fd ∷ s.calls)
        × ((dequeue s).active_clients ≡ s.active_clients)
  unfolding dequeue
  dequeue-head s b h = go s.non_persistent_queue s.queue_count refl refl
    where
      go :
          (q : List Connection) (n : ℕ)
          → s.non_persistent_queue ≡ q
          → s.queue_count ≡ n
          → (c : Connection) × (waiting s ≡ c ∷ waiting (dequeue s))
            × ((dequeue s).non_persistent_fd ≡ some c.fd)
            × ((dequeue s).non_persistent_connect_time ≡ c.connect_time)
            × ((dequeue s).calls ≡ epoll_add c.fd ∷ s.calls)
            × ((dequeue s).active_clients ≡ s.active_clients)
      go [] n e f = absurd (omega (arith, ap length e, b.queue_size))
      go (c ∷ q) zero e f = absurd (omega arith)
      go (c ∷ q) (suc n) e f = (
        c,
        ground (arith, take-shift n c q, ap length e, pred_suc),
        ground arith,
        ground arith,
        ground arith,
        ground arith,
      )
        where
          pred_suc : suc n - 1 ≡ n
          pred_suc = omega arith

  pub waiting-drop_promoted : (s : Server D) → waiting (drop_promoted s) ≡ waiting s
  unfolding drop_promoted
  waiting-drop_promoted s = ground arith

  waiting-register :
      (fd : ℕ) (added : Bool) (s : Server D) → waiting (register fd added s) ≡ waiting s
  unfolding register
  waiting-register fd added s = ground arith

  waiting-count_event :
      (fd n : ℕ) (t u : Timeval) (s : Server D) → waiting (count_event fd n t u s) ≡ waiting s
  unfolding count_event
  waiting-count_event fd n t u s = ground arith

  waiting-joins :
      (joins : Bool) (c : Connection) (s : Server D)
      → InBounds s
      → (joins ≡ true → s.queue_count < max_non_persistent)
      → waiting (if joins then enqueue c s else s) ≡ waiting s ++ if_joins joins c
  waiting-joins true c s b h = waiting-enqueue c s b (h refl)
  waiting-joins false c s b h = sym (append-nil (waiting s))

  waiting-place :
      (fd : ℕ) (t : Timeval) (added : Bool) (p np : Option ℕ) (s : Server D)
      → InBounds s
      → waiting (place fd t added p np s)
        ≡ waiting s
          ++ if_joins
              (is_some p && (is_some np && ltb s.queue_count max_non_persistent))
              (record { fd = fd; connect_time = t })
  unfolding place
  waiting-place fd t added none np s b = waiting-register fd added _ ∙ sym (append-nil (waiting s))
  waiting-place fd t added (some p) none s b =
      waiting-register fd added _ ∙ sym (append-nil (waiting s))
  waiting-place fd t added (some p) (some np) s b =
      elim (Bool-cases (ltb s.queue_count max_non_persistent)) [
        | inl room ↦
            ground
              (arith, waiting-enqueue (record { fd = fd; connect_time = t }) s b (ltb→lt _ _ room))
        | inr full ↦ ground (arith, append-nil (waiting s))
      ]

  waiting-accept :
      (fd : ℕ) (t : Timeval) (added : Bool) (s : Server D)
      → InBounds s
      → waiting (accept_client (client fd t added) s)
        ≡ waiting s
          ++ if_joins
              (is_some s.persistent_fd
                && (is_some s.non_persistent_fd && ltb s.queue_count max_non_persistent))
              (record { fd = fd; connect_time = t })
  unfolding accept_client
  waiting-accept fd t added s b =
      waiting-place fd t added s.persistent_fd s.non_persistent_fd
        (record s { active_clients = s.active_clients +ℤ pos 1; calls = accepted fd ∷ s.calls })
        (record {
          queue_size = b.queue_size;
          queue_fits = b.queue_fits;
          stats_size = b.stats_size;
          stats_fits = b.stats_fits;
        })

  waiting-relabel :
      (fd : ℕ) (bs : List ℕ) (s : Server D)
      → InBounds s
      → waiting (relabel fd bs s).0
        ≡ waiting s
          ++ if_joins
              (is_misplaced fd bs s
                && (is_some s.non_persistent_fd && ltb s.queue_count max_non_persistent))
              (record { fd = fd; connect_time = s.conn1_start })
  unfolding relabel
  waiting-relabel fd bs s b = elim (Bool-cases (ltb s.queue_count max_non_persistent)) [
    | inl room ↦ ground (
      arith,
      append-nil (waiting s),
      waiting-enqueue (record { fd = fd; connect_time = s.conn1_start }) s b (ltb→lt _ _ room),
    )
    | inr full ↦ ground (arith, append-nil (waiting s))
  ]

  waiting-receive :
      (fd : ℕ) (bs : List ℕ) (t u : Timeval) (s : Server D)
      → InBounds s
      → waiting (receive fd bs t u s)
        ≡ waiting s
          ++ if_joins
              (is_misplaced fd bs s
                && (is_some s.non_persistent_fd && ltb s.queue_count max_non_persistent))
              (record { fd = fd; connect_time = s.conn1_start })
  unfolding receive
  waiting-receive fd bs t u s b =
      if_rule (λ (q : Server D). waiting q ≡ waiting (relabel fd bs s).0) (relabel fd bs s).1
        (waiting-count_event fd (length bs) t u (relabel fd bs s).0) refl
      ∙ waiting-relabel fd bs s b

  drop_promoted-slot : (s : Server D) → (drop_promoted s).non_persistent_fd ≡ none
  unfolding drop_promoted
  drop_promoted-slot s = ground arith

  waiting-none : (s : Server D) → ltb 0 s.queue_count ≡ false → waiting s ≡ []
  waiting-none s h =
      let zero_wait : s.queue_count ≡ 0 = ground (arith, h) in
      ap (λ n. take n s.non_persistent_queue) zero_wait

  -- The end of a session gives the slot to the first one that waits.
  promote-first :
      (added : Bool) (s : Server D)
      → InBounds s
      → s.non_persistent_fd ≡ none
      → (waiting (promote added s).0 ≡ others (waiting s))
        × ((promote added s).0.non_persistent_fd ≡ (if added then first_fd (waiting s) else none))
  unfolding promote
  promote-first added s b free = elim (Bool-cases (ltb 0 s.queue_count)) [
    | inl some_wait ↦
        let (c, first, slot, time, calls, clients) = dequeue-head s b (ltb→lt _ _ some_wait) in
        let left : waiting (dequeue s) ≡ others (waiting s) = sym (ap others first) in
        let head : first_fd (waiting s) ≡ some c.fd = ap first_fd first in
        (
          ground (arith, some_wait, left, waiting-drop_promoted (dequeue s)),
          ground (arith, some_wait, slot, head, drop_promoted-slot (dequeue s)),
        )
    | inr none_waits ↦
        let empty = waiting-none s none_waits in
        (
          ground (arith, none_waits, ap others empty, empty),
          ground (arith, none_waits, ap first_fd empty, free),
        )
  ]

module _ {D : Type 0} (fp : FloatOps D) where
  waiting-count : (s : Server D) → waiting (reset_session (count_connection fp s)) ≡ waiting s
  unfolding reset_session count_connection
  waiting-count s = ground arith

  reset-slot : (s : Server D) → (reset_session (count_connection fp s)).non_persistent_fd ≡ none
  unfolding reset_session
  reset-slot s = refl

  pub end-first :
      (added : Bool) (s : Server D)
      → InBounds s
      → (waiting (end_session fp added s).0 ≡ others (waiting s))
        × ((end_session fp added s).0.non_persistent_fd
            ≡ (if added then first_fd (waiting s) else none))
  unfolding end_session
  end-first added s b =
      let t = reset_session (count_connection fp s) in
      let same = waiting-count s in
      let (left, slot) = promote-first added t (count-InBounds fp s b) (reset-slot s) in
      (left ∙ ap others same, slot ∙ ap (λ xs. if added then first_fd xs else none) same)

  -- In a state within bounds the waiting connections are first in, first out. A new client joins
  -- at the end exactly if both slots are taken and fewer than MAX_NON_PERSISTENT wait; data
  -- joins its descriptor at the end exactly if it is the persistent slot's without a leading
  -- 'P', the other slot is taken and fewer than MAX_NON_PERSISTENT wait; the end of a session
  -- takes the first one out and gives it the slot if its registration succeeds.
  pub queue_in_order :
      (s : Server D) (new fd : ℕ) (bs : List ℕ) (t u : Timeval) (added : Bool)
      → InBounds s
      → (waiting (accept_client (client new t added) s)
          ≡ waiting s
            ++ if_joins
                (is_some s.persistent_fd
                  && (is_some s.non_persistent_fd && ltb s.queue_count max_non_persistent))
                (record { fd = new; connect_time = t }))
        × (waiting (receive fd bs t u s)
            ≡ waiting s
              ++ if_joins
                  (is_misplaced fd bs s
                    && (is_some s.non_persistent_fd && ltb s.queue_count max_non_persistent))
                  (record { fd = fd; connect_time = s.conn1_start }))
        × (waiting (end_session fp added s).0 ≡ others (waiting s))
        × ((end_session fp added s).0.non_persistent_fd
            ≡ (if added then first_fd (waiting s) else none))
  queue_in_order s new fd bs t u added b = (
    waiting-accept new t added s b,
    waiting-receive fd bs t u s b,
    (end-first added s b).0,
    (end-first added s b).1,
  )
