-- ===== src/StatsServer/Receive.antt =====
-- server_epx3.c, lines 410-495: data from a client. The first byte tells which client it is; bytes,
-- packets and events are counted, and an event of one client after one of the other is a pair.
use rnd.Common.{
  ℕ, ◌+◌, ◌/◌, Bool, true, false, not, ◌&&◌, Option, none, some, List, [], ◌∷◌, ltb, ◌==◌,
  if◌then◌else◌, length,
}
use rnd.Common.Word.{u64}
use rnd.Common.Time.{Timeval}
use rnd.StatsServer.State.{Server, epoll_del, shut_down, packet_size, max_non_persistent}
use rnd.StatsServer.Accept.{enqueue, close_client}

-- The test `slot == fd`, for a slot that may hold -1.
abbrev pub is_fd : Option ℕ → ℕ → Bool
is_fd none fd = false
is_fd (some p) fd = p == fd

-- The test `a == b` of two slots.
abbrev pub same_fd : Option ℕ → Option ℕ → Bool
same_fd none none = true
same_fd none (some b) = false
same_fd (some a) b = is_fd b a

abbrev pub is_some : Option ℕ → Bool
is_some none = false
is_some (some p) = true

-- `buffer[0]`; `recv` returned at least one byte.
abbrev pub first_byte : List ℕ → ℕ
first_byte [] = 0
first_byte (b ∷ bs) = b

module _ {D : Type 0} where
  -- `all_nonper_bytes += per_bytes_read; all_nonpacktes += per_packets; per_… = 0;` with the slot
  -- emptied.
  unfoldable pub leave_persistent : Server D → Server D
  leave_persistent s = record s {
    persistent_fd = none;
    conn1_started = false;
    totals = record (s.totals) {
      all_nonper_bytes = u64 (s.totals.all_nonper_bytes + s.session.per_bytes_read);
      all_nonpacktes = u64 (s.totals.all_nonpacktes + s.session.per_packets);
    };
    session = record (s.session) { per_bytes_read = 0; per_packets = 0 };
  }

  -- Lines 412-422: to the free non-persistent slot.
  unfoldable pub demote_to_slot : Server D → Server D
  unfolding leave_persistent
  demote_to_slot s = leave_persistent (record s {
    non_persistent_fd = s.persistent_fd;
    non_persistent_connect_time = s.conn1_start;
    session = record (s.session) {
      nonper_bytes_read = s.session.per_bytes_read;
      nonper_packets = s.session.per_packets;
    };
  })

  -- Lines 423-432: to the end of the queue.
  unfoldable pub demote_to_queue : ℕ → Server D → Server D
  unfolding leave_persistent enqueue
  demote_to_queue fd s =
      leave_persistent (enqueue (record { fd = fd; connect_time = s.conn1_start }) s)

  -- `epoll_ctl(… DEL …); shutdown(fd); close(fd); active_clients--;`
  unfoldable pub hang_up : ℕ → Server D → Server D
  unfolding close_client
  hang_up fd s = close_client fd (record s { calls = shut_down fd ∷ epoll_del fd ∷ s.calls })

  -- Lines 433-442: turned away.
  unfoldable pub demote_rejected : ℕ → Server D → Server D
  unfolding hang_up
  demote_rejected fd s =
      let t = hang_up fd s in
      record t { persistent_fd = none; conn1_started = false; rejected = t.rejected + 1 }

  -- Lines 411-445; the second result is false where the code goes on with `continue`.
  unfoldable pub relabel : ℕ → List ℕ → Server D → Server D × Bool
  unfolding demote_to_slot demote_to_queue demote_rejected
  relabel fd bytes s =
      if is_fd s.persistent_fd fd && not (first_byte bytes == b'P')
      then (if not (is_some s.non_persistent_fd)
          then (demote_to_slot s, true)
          else if ltb s.queue_count max_non_persistent
          then (demote_to_queue fd s, true)
          else (demote_rejected fd s, false))
      else (s, true)

  -- Lines 460-470.
  unfoldable pub pair_persistent : Server D → Server D
  pair_persistent s =
      if is_some s.persistent_fd && is_some s.non_persistent_fd
      then (if not (is_some s.pick)
          then record s { pick = s.persistent_fd }
          else if same_fd s.pick s.non_persistent_fd
          then record s {
            pick = none;
            session = record (s.session) {
              non_persistent_count = u64 (s.session.non_persistent_count + 1);
              both = s.session.both + 1;
            };
            totals = record (s.totals) {
              all_non_persistent_count = u64 (s.totals.all_non_persistent_count + 1);
              all_both = u64 (s.totals.all_both + 1);
            };
          }
          else s)
      else s

  -- Lines 484-494.
  unfoldable pub pair_non_persistent : Server D → Server D
  pair_non_persistent s =
      if is_some s.persistent_fd && is_some s.non_persistent_fd
      then (if not (is_some s.pick)
          then record s { pick = s.non_persistent_fd }
          else if same_fd s.pick s.persistent_fd
          then record s {
            pick = none;
            session = record (s.session) {
              persistent_count = u64 (s.session.persistent_count + 1);
              both = s.session.both + 1;
            };
            totals = record (s.totals) {
              all_persistent_count = u64 (s.totals.all_persistent_count + 1);
              all_both = u64 (s.totals.all_both + 1);
            };
          }
          else s)
      else s

  -- Lines 448-458. `start` and `end` are the two clock readings.
  unfoldable pub count_persistent : ℕ → Timeval → Timeval → Server D → Server D
  count_persistent n start end s = record s {
    conn1_start = if s.conn1_started then s.conn1_start else start;
    conn1_started = true;
    conn1_end = end;
    session = record (s.session) {
      per_bytes_read = u64 (s.session.per_bytes_read + n);
      per_packets = u64 (s.session.per_packets + n / packet_size);
      onepertotal_count = u64 (s.session.onepertotal_count + 1);
    };
    totals = record (s.totals) {
      all_per_bytes = u64 (s.totals.all_per_bytes + n);
      all_perpackets = u64 (s.totals.all_perpackets + n / packet_size);
      all_only_persistent_count = u64 (s.totals.all_only_persistent_count + 1);
    };
  }

  -- Lines 472-482.
  unfoldable pub count_non_persistent : ℕ → Timeval → Timeval → Server D → Server D
  count_non_persistent n start end s = record s {
    conn2_start = if s.conn2_started then s.conn2_start else start;
    conn2_started = true;
    conn2_end = end;
    session = record (s.session) {
      nonper_bytes_read = u64 (s.session.nonper_bytes_read + n);
      nonper_packets = u64 (s.session.nonper_packets + n / packet_size);
      onenonpertotal_count = u64 (s.session.onenonpertotal_count + 1);
    };
    totals = record (s.totals) {
      all_nonper_bytes = u64 (s.totals.all_nonper_bytes + n);
      all_nonpacktes = u64 (s.totals.all_nonpacktes + n / packet_size);
      all_only_non_persistent_count = u64 (s.totals.all_only_non_persistent_count + 1);
    };
  }

  -- Lines 447-495.
  unfoldable pub count_event : ℕ → ℕ → Timeval → Timeval → Server D → Server D
  unfolding count_persistent count_non_persistent pair_persistent pair_non_persistent
  count_event fd n start end s =
      if is_fd s.persistent_fd fd
      then pair_persistent (count_persistent n start end s)
      else if is_fd s.non_persistent_fd fd
      then pair_non_persistent (count_non_persistent n start end s)
      else s

  -- Lines 411-495.
  unfoldable pub receive : ℕ → List ℕ → Timeval → Timeval → Server D → Server D
  unfolding relabel count_event
  receive fd bytes start end s =
      let (t, go_on) = relabel fd bytes s in
      if go_on then count_event fd (length bytes) start end t else t
