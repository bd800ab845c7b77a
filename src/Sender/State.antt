-- ===== src/Sender/State.antt =====
-- per.c, lines 15-25, 32-44 and 99-133: the loop that sends. What `send` finds and the clock's readings
-- are the input; `elapsed` is a parameter's number, computed from two readings.
use rnd.Common.{
  ℕ, zero, suc, ◌+◌, ◌-◌, ◌%◌, Bool, true, false, ◌&&◌, Option, none, some, List, [], ◌∷◌, ltb,
  ◌==◌, if◌then◌else◌,
}
use rnd.Common.Word.{u64}
use rnd.Common.Int.{ℤ, pos, negsuc}
use rnd.Common.Float.{FloatOps, of_ℕ}

abbrev pub buffer_size : ℕ
buffer_size = 1024

abbrev pub default_runtime : ℕ
default_runtime = 3600

-- `offset` is `buf_ptr - msg_buffer`.
pub record Sender (D : Type 0) : Type 0 where
  pub running : Bool
  pub total_msgs_sent : ℕ
  pub total_packets_sent : ℕ
  pub total_bytes_sent : ℕ
  pub bytes_to_send : ℕ
  pub offset : ℕ
  pub elapsed : D

-- `send` copies as many of the bytes offered as the socket has room for; or the call would block, or
-- fails.
pub data Send : Type 0 where
  room : ℕ → Send
  would_block : Send
  failed : Send

-- One pass of the loop, with the time since the start that the clock would give; or a signal.
pub data Input (D : Type 0) : Type 0 where
  signal : Input D
  pass : Send → D → Input D

-- Lines 32-44: `atoi` of the argument, if there is one.
unfoldable pub max_runtime : Option ℤ → ℕ
max_runtime none = default_runtime
max_runtime (some (pos zero)) = default_runtime
max_runtime (some (pos (suc n))) = suc n
max_runtime (some (negsuc n)) = default_runtime

module _ {D : Type 0} (fp : FloatOps D) where
  -- Lines 19-21, 60 and 103-106.
  unfoldable pub init : Sender D
  init = record {
    running = true;
    total_msgs_sent = 0;
    total_packets_sent = 0;
    total_bytes_sent = 0;
    bytes_to_send = buffer_size;
    offset = 0;
    elapsed = of_ℕ fp 0;
  }

module _ {D : Type 0} where
  -- Lines 111-119.
  unfoldable pub count_sent : ℕ → Sender D → Sender D
  count_sent sent s =
      if s.bytes_to_send - sent == 0
      then record s {
        total_bytes_sent = u64 (s.total_bytes_sent + sent);
        total_msgs_sent = u64 (s.total_msgs_sent + 1);
        total_packets_sent = u64 (s.total_packets_sent + 1);
        bytes_to_send = buffer_size;
        offset = 0;
      }
      else record s {
        total_bytes_sent = u64 (s.total_bytes_sent + sent);
        bytes_to_send = s.bytes_to_send - sent;
        offset = s.offset + sent;
      }

  -- Lines 129-132.
  unfoldable pub read_clock : D → Sender D → Sender D
  read_clock now s = if s.total_msgs_sent % 100 == 0 then record s { elapsed = now } else s

  -- What `send` returns.
  abbrev pub taken : ℕ → Sender D → ℕ
  taken n s = if ltb n s.bytes_to_send then n else s.bytes_to_send

  -- Lines 109-132, where `send` returns a number; 0 is neither sent nor an error.
  unfoldable pub send_some : ℕ → D → Sender D → Sender D
  send_some zero now s = read_clock now s
  send_some (suc n) now s = read_clock now (count_sent (taken (suc n) s) s)

module _ {D : Type 0} (fp : FloatOps D) (max : ℕ) where
  -- Line 108.
  abbrev pub goes_on : Sender D → Bool
  goes_on s = s.running && fp.lt s.elapsed (of_ℕ fp max)

  -- Lines 108-133. A signal takes effect at the next test; a failed `send` ends the loop.
  unfoldable pub send_all : List (Input D) → Sender D → Sender D
  send_all [] s = s
  send_all (signal ∷ is) s = send_all is (record s { running = false })
  send_all (pass failed now ∷ is) s = s
  send_all (pass would_block now ∷ is) s = let rest = send_all is s in if goes_on s then rest else s
  send_all (pass (room n) now ∷ is) s =
      let rest = send_all is (send_some n now s) in if goes_on s then rest else s
