-- ===== src/OrderServer/Loop.antt =====
-- serverexp2.c, lines 284-483: the event loop. What the system calls return is the input.
use rnd.Common.{
  ℕ, zero, suc, ◌+◌, ◌/◌, Bool, true, false, Option, none, some, List, [], ◌∷◌, ◌==◌, if◌then◌else◌,
}
use rnd.Common.Int.{ℤ, pos, negsuc, is_zero, ◌+ℤ◌, ◌-ℤ◌}
use rnd.Common.Word.{u64}
use rnd.Common.Time.{Timeval}
use rnd.OrderServer.State.{Pick, nobody, first, second, accepted, closed, Server, packet_size}

-- `accept` fails; `fcntl` fails on the new descriptor; `malloc` fails; or the connection is set up, and
-- the flag says whether `epoll_ctl` succeeds.
pub data Accept : Type 0 where
  failed : Accept
  unusable : ℕ → Accept
  no_memory : ℕ → Accept
  client : ℕ → Bool → Accept

-- A client's event has its descriptor, the result of `recv` and the readings of the clock.
pub data Event : Type 0 where
  incoming : Accept → Event
  readable : ℕ → ℤ → Timeval → Timeval → Event

pub data Input : Type 0 where
  signal : Input
  events : List Event → Input

abbrev pub is_fd : Option ℕ → ℕ → Bool
is_fd none fd = false
is_fd (some p) fd = p == fd

-- Lines 327-334.
unfoldable pub assign_socket : ℕ → Option ℕ → Option ℕ → Server → Server
assign_socket fd none b s = record s { first_socket = some fd }
assign_socket fd (some a) none s = record s { second_socket = some fd }
assign_socket fd (some a) (some b) s = s

-- Lines 310-345, for a descriptor that `accept` returned.
unfoldable pub set_up : ℕ → Bool → Server → Server
unfolding assign_socket
set_up fd added s =
    let t = assign_socket fd s.first_socket s.second_socket s in
    if added then t else record t { calls = closed fd ∷ t.calls }

-- `active_clients++`, with the call that returned the descriptor.
unfoldable pub admit : ℕ → Server → Server
admit fd s = record s { active_clients = s.active_clients +ℤ pos 1; calls = accepted fd ∷ s.calls }

-- Lines 297-345.
unfoldable pub accept_client : Accept → Server → Server
unfolding admit set_up
accept_client failed s = record s { count = s.count + 1 }
accept_client (unusable fd) s = record (admit fd (record s { count = s.count + 1 })) {
  exited = true;
}
accept_client (no_memory fd) s =
    let t = admit fd (record s { count = s.count + 1 }) in record t { calls = closed fd ∷ t.calls }
accept_client (client fd added) s = set_up fd added (admit fd (record s { count = s.count + 1 }))

-- Lines 358-366, and the same clock readings at lines 392-396.
unfoldable pub time_first : Timeval → Timeval → Server → Server
time_first start end s = record s {
  conn1_start = if s.conn1_started then s.conn1_start else start;
  conn1_started = true;
  conn1_end = end;
}

-- Lines 372-377 and 418-422.
unfoldable pub time_second : Timeval → Timeval → Server → Server
time_second start end s = record s {
  conn2_start = if s.conn2_started then s.conn2_start else start;
  conn2_started = true;
  conn2_end = end;
}

-- Lines 357-383, where `recv` returned a positive number.
unfoldable pub count_event : ℕ → Timeval → Timeval → Server → Server
unfolding time_first time_second
count_event fd start end s =
    let t =
      if is_fd s.first_socket fd
      then record (time_first start end s) { socket1total_count = s.socket1total_count + 1 }
      else s in
    if is_fd t.second_socket fd
    then record (time_second start end t) { socket2total_count = t.socket2total_count + 1 }
    else t

-- Lines 403-414.
unfoldable pub pick_first : Pick → Server → Server
pick_first nobody s = record s { pick = first }
pick_first first s = s
pick_first second s = record s {
  socket2_before_socket1 = s.socket2_before_socket1 + 1;
  pick = nobody;
  both = s.both + 1;
}

-- Lines 430-441.
unfoldable pub pick_second : Pick → Server → Server
pick_second nobody s = record s { pick = second }
pick_second first s = record s {
  socket1_before_socket2 = s.socket1_before_socket2 + 1;
  pick = nobody;
  both = s.both + 1;
}
pick_second second s = s

-- Lines 386-463, for `n` bytes.
unfoldable pub count_order : ℕ → ℕ → Timeval → Timeval → Server → Server
unfolding time_first time_second pick_first pick_second
count_order fd n start end s =
    let t = record s { total_data_bytes = u64 (s.total_data_bytes + n) } in
    if is_fd s.first_socket fd
    then (let u = time_first start end t in
        pick_first u.pick (record u {
          conn1_bytes = u64 (u.conn1_bytes + n);
          conn1_packets = u64 (u.conn1_packets + n / packet_size);
        }))
    else if is_fd s.second_socket fd
    then (let u = time_second start end t in
        pick_second u.pick (record u {
          conn2_bytes = u64 (u.conn2_bytes + n);
          conn2_packets = u64 (u.conn2_packets + n / packet_size);
        }))
    else t

-- Lines 474-478.
unfoldable pub drop_client : ℕ → Server → Server
drop_client fd s =
    let t = if is_zero s.active_clients then record s { running = false } else s in
    record t { calls = closed fd ∷ t.calls }

-- Lines 355-479.
unfoldable pub read_client : ℕ → ℤ → Timeval → Timeval → Server → Server
unfolding count_event count_order drop_client
read_client fd (pos zero) start end s =
    drop_client fd (record s { active_clients = s.active_clients -ℤ pos 1 })
read_client fd (pos (suc n)) start end s =
    let t = count_event fd start end s in
    if t.count == 2 then count_order fd (suc n) start end t else drop_client fd t
read_client fd (negsuc n) start end s = drop_client fd s

-- Lines 295-481; after `exit` nothing runs.
unfoldable pub handle_event : Event → Server → Server
unfolding accept_client read_client
handle_event (incoming a) s = if s.exited then s else accept_client a s
handle_event (readable fd r start end) s = if s.exited then s else read_client fd r start end s

-- Lines 290-482.
unfoldable pub handle_events : List Event → Server → Server
unfolding handle_event
handle_events [] s = s
handle_events (e ∷ es) s = handle_events es (handle_event e s)

unfoldable pub step : Input → Server → Server
unfolding handle_events
step signal s = record s { running = false }
step (events es) s = handle_events es s

-- `while (running) …`, as far as the inputs go.
unfoldable pub run : List Input → Server → Server
unfolding step
run [] s = s
run (i ∷ is) s = run is (if s.running then step i s else s)
