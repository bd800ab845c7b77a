-- ===== src/BatchSender/State.antt =====
-- non.c, lines 15-29, 33-56 and 90-157: the loop over connections and the loop that sends on one of them.
-- What the calls find and the clock's readings are the input.
use rnd.Common.{
  ℕ, zero, suc, ◌+◌, ◌-◌, Bool, true, false, ◌&&◌, Option, none, some, List, [], ◌∷◌, ltb, ◌==◌,
  if◌then◌else◌,
}
use rnd.Common.Word.{u64}
use rnd.Common.Int.{ℤ, pos, negsuc}
use rnd.Common.Float.{FloatOps, of_ℕ}

abbrev pub buffer_size : ℕ
buffer_size = 1024

abbrev pub default_msgs_per_conn : ℕ
default_msgs_per_conn = 100000

abbrev pub default_runtime : ℕ
default_runtime = 1

-- Lines 34 and 42-48: `atoi` of the argument, if there is one.
unfoldable pub runtime : Option ℤ → ℕ
runtime none = default_runtime
runtime (some (pos zero)) = default_runtime
runtime (some (pos (suc n))) = suc n
runtime (some (negsuc n)) = default_runtime

-- Lines 35 and 50-56.
unfoldable pub msgs_per_conn : Option ℤ → ℤ
msgs_per_conn none = pos default_msgs_per_conn
msgs_per_conn (some n) = n

-- `n < m` and `n == m` for a number sent.
abbrev pub below : ℕ → ℤ → Bool
below n (pos m) = ltb n m
below n (negsuc m) = false

abbrev pub equals : ℕ → ℤ → Bool
equals n (pos m) = n == m
equals n (negsuc m) = false

-- The globals, without the flag.
pub record Totals : Type 0 where
  pub total_msgs_sent : ℕ
  pub total_packets_sent : ℕ
  pub total_connections : ℕ
  pub non_complete : ℕ

-- The loop of lines 116-135: its locals, the flag and the globals. `offset` is `buf_ptr - msg_buffer`.
pub record Batch : Type 0 where
  pub running : Bool
  pub msgs_sent : ℕ
  pub bytes_to_send : ℕ
  pub offset : ℕ
  pub totals : Totals

-- `send` takes as many of the bytes offered as it has room for, or would block; or a signal arrives.
pub data Send : Type 0 where
  room : ℕ → Send
  would_block : Send
  interrupt : Send

-- Lines 119-127; 0 bytes are neither sent nor an error.
unfoldable pub count_sent : ℕ → Batch → Batch
count_sent zero b = b
count_sent (suc n) b =
    if b.bytes_to_send - suc n == 0
    then record b {
      msgs_sent = b.msgs_sent + 1;
      bytes_to_send = buffer_size;
      offset = 0;
      totals = record (b.totals) {
        total_msgs_sent = u64 (b.totals.total_msgs_sent + 1);
        total_packets_sent = u64 (b.totals.total_packets_sent + 1);
      };
    }
    else record b { bytes_to_send = b.bytes_to_send - suc n; offset = b.offset + suc n }

-- What `send` returns.
abbrev pub taken : ℕ → Batch → ℕ
taken n b = if ltb n b.bytes_to_send then n else b.bytes_to_send

-- Lines 116-135. The list has the results of `send` in turn; the call after them fails.
unfoldable pub send_messages : ℤ → List Send → Batch → Batch
send_messages msgs [] b = b
send_messages msgs (interrupt ∷ es) b = send_messages msgs es (record b { running = false })
send_messages msgs (would_block ∷ es) b =
    let rest = send_messages msgs es b in if below b.msgs_sent msgs && b.running then rest else b
send_messages msgs (room n ∷ es) b =
    let rest = send_messages msgs es (count_sent (taken n b) b) in
    if below b.msgs_sent msgs && b.running then rest else b

-- Lines 137-142.
unfoldable pub count_connection : ℤ → Batch → Totals
count_connection msgs b =
    if equals b.msgs_sent msgs
    then record (b.totals) { total_connections = u64 (b.totals.total_connections + 1) }
    else record (b.totals) { non_complete = b.totals.non_complete + 1 }

pub record Client (D : Type 0) : Type 0 where
  pub running : Bool
  pub totals : Totals
  pub elapsed : D

-- One pass of the outer loop: no socket; a refused connection; a connection and its results of `send`.
-- `now` is the time since the start that the clock gives at the end of the pass. Or a signal.
pub data Attempt (D : Type 0) : Type 0 where
  no_socket : Attempt D
  refused : D → Attempt D
  connected : List Send → D → Attempt D
  signal : Attempt D

-- Lines 111-113.
unfoldable pub new_batch : Bool → Totals → Batch
new_batch running totals = record {
  running = running;
  msgs_sent = 0;
  bytes_to_send = buffer_size;
  offset = 0;
  totals = totals;
}

abbrev pub no_totals : Totals
no_totals = record {
  total_msgs_sent = 0;
  total_packets_sent = 0;
  total_connections = 0;
  non_complete = 0;
}

module _ {D : Type 0} (fp : FloatOps D) where
  unfoldable pub init : Client D
  init = record { running = true; totals = no_totals; elapsed = of_ℕ fp 0 }

module _ {D : Type 0} (msgs : ℤ) where
  -- Lines 92-156.
  unfoldable pub attempt : Attempt D → Client D → Client D
  attempt no_socket c = c
  attempt (refused now) c = record c { elapsed = now }
  attempt (connected es now) c =
      let b = send_messages msgs es (new_batch c.running c.totals) in
      record c { running = b.running; totals = count_connection msgs b; elapsed = now }
  attempt signal c = record c { running = false }

module _ {D : Type 0} (fp : FloatOps D) (time : ℕ) (msgs : ℤ) where
  -- Line 90.
  abbrev pub goes_on : Client D → Bool
  goes_on c = c.running && fp.lt c.elapsed (of_ℕ fp time)

  -- Lines 90-157. A signal takes effect at the next test.
  unfoldable pub run : List (Attempt D) → Client D → Client D
  run [] c = c
  run (a ∷ attempts) c = let rest = run attempts (attempt msgs a c) in if goes_on c then rest else c
