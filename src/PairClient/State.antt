-- ===== src/PairClient/State.antt =====
-- clientexp2.c, lines 13-14, 27-64 and 67-107: the two threads. What the calls find is the input.
use rnd.Common.{ℕ, zero, suc, ◌+◌, ◌-◌, Bool, List, [], ◌∷◌, ◌++◌, ltb, if◌then◌else◌}

abbrev pub num_messages : ℕ
num_messages = 10000

abbrev pub batch_size : ℕ
batch_size = 1000

-- The descriptors that have been opened and closed, in order, and the calls of `send` that succeeded.
pub record Trace : Type 0 where
  pub opened : List ℕ
  pub closed : List ℕ
  pub sent : ℕ

abbrev pub no_calls : Trace
no_calls = record { opened = []; closed = []; sent = 0 }

-- `socket` fails; the address is refused; `connect` fails; or the connection is there, and `works j`
-- says whether its call `j` of `send` succeeds.
pub data Attempt : Type 0 where
  no_socket : Attempt
  bad_address : ℕ → Attempt
  refused : ℕ → Attempt
  connected : ℕ → (ℕ → Bool) → Attempt

-- Lines 53-60 and 94-101: the successful calls among the next `n`, until one fails.
unfoldable pub send_all : ℕ → (ℕ → Bool) → ℕ → ℕ
send_all zero works j = 0
send_all (suc n) works j = let rest = send_all n works (j + 1) in if works j then 1 + rest else 0

abbrev pub open_and_close : ℕ → ℕ → Trace → Trace
open_and_close fd n t = record {
  opened = t.opened ++ fd ∷ [];
  closed = t.closed ++ fd ∷ [];
  sent = t.sent + n;
}

-- One connection, for `n` messages.
unfoldable pub attempt : ℕ → Attempt → Trace → Trace
attempt n no_socket t = t
attempt n (bad_address fd) t = open_and_close fd 0 t
attempt n (refused fd) t = open_and_close fd 0 t
attempt n (connected fd works) t = open_and_close fd (send_all n works 0) t

-- Lines 27-64.
unfoldable pub persistent_connection : Attempt → Trace
persistent_connection a = attempt num_messages a no_calls

-- The messages of the batch that begins at `i`: `j < BATCH_SIZE && (i + j) < NUM_MESSAGES`.
abbrev pub batch_at : ℕ → ℕ
batch_at i = if ltb (num_messages - i) batch_size then num_messages - i else batch_size

-- Lines 70-104, from `i` on; `attempts i` is the connection made there.
unfoldable pub batches : ℕ → ℕ → (ℕ → Attempt) → Trace → Trace
batches zero i attempts t = t
batches (suc fuel) i attempts t =
    let rest = batches fuel (i + batch_size) attempts (attempt (batch_at i) (attempts i) t) in
    if ltb i num_messages then rest else t

-- Lines 67-107. Each pass adds BATCH_SIZE to `i`, so ten passes reach NUM_MESSAGES.
unfoldable pub frequent_connection : (ℕ → Attempt) → Trace
frequent_connection attempts = batches 11 0 attempts no_calls
