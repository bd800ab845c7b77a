-- ===== src/TurnClient/Message.antt =====
-- client_op.c, lines 34-48: the message, into which the two numbers are written as the machine stores an
-- `int`, here with the lowest byte first. `msg` has the 22 bytes that `sprintf` writes and `send` takes.
use rnd.Common.{
  ℕ, zero, suc, ◌+◌, ◌*◌, ◌/◌, ◌%◌, ◌^◌, ◌<◌, ◌-◌, Bool, false, List, [], ◌∷◌, ◌++◌, map, ◌≡◌, refl,
  sym, subst, ap, ◌∙◌, arith, ◌==◌, if◌then◌else◌, inl, inr, Bool-cases, ==→≡, ==-self,
}
use mathlib.Core.List.{append-nil, map-append}
use rnd.Common.Packets.{of_connection, of_connection-append}
use rnd.TurnClient.State.{State, init, client_op, send_packet, CanSend, Reachable, started, step}
use rnd.TurnClient.Turn.{schedule}
use rnd.TurnClient.Order.{packets_in_order, at_most_all}

-- `int *p = (int *)msg + k; *p = n;`
unfoldable pub write_int : ℕ → ℕ → List ℕ → List ℕ
write_int zero n (a ∷ b ∷ c ∷ d ∷ rest) =
    n % 256 ∷ n / 256 % 256 ∷ n / 65536 % 256 ∷ n / 16777216 % 256 ∷ rest
write_int (suc k) n (a ∷ b ∷ c ∷ d ∷ rest) = a ∷ b ∷ c ∷ d ∷ write_int k n rest
write_int k n msg = msg

-- `*((int *)msg + k)`
unfoldable pub read_int : ℕ → List ℕ → ℕ
read_int zero (a ∷ b ∷ c ∷ d ∷ rest) = a + 256 * b + 65536 * c + 16777216 * d
read_int (suc k) (a ∷ b ∷ c ∷ d ∷ rest) = read_int k rest
read_int k msg = 0

-- Line 37: what `sprintf` leaves, "TCP:    |PACKET:    \n" and the NUL.
abbrev pub template : List ℕ
template =
    b'T' ∷ b'C' ∷ b'P' ∷ b':' ∷ b' ' ∷ b' ' ∷ b' ' ∷ b' ' ∷ b'|' ∷ b'P' ∷ b'A' ∷ b'C' ∷ b'K' ∷ b'E'
    ∷ b'T' ∷ b':' ∷ b' ' ∷ b' ' ∷ b' ' ∷ b' ' ∷ b'\n' ∷ 0 ∷ []

-- Lines 45-46.
unfoldable pub write_numbers : ℕ → ℕ → List ℕ → List ℕ
write_numbers conn_id packet_id msg = write_int 4 packet_id (write_int 1 conn_id msg)

-- The two numbers of a message.
abbrev pub numbers_of : List ℕ → ℕ × ℕ
numbers_of msg = (read_int 1 msg, read_int 4 msg)

abbrev int_of : ℕ → ℕ
int_of n =
    n % 256 + 256 * (n / 256 % 256) + 65536 * (n / 65536 % 256) + 16777216 * (n / 16777216 % 256)

int_of-small : (n : ℕ) → n < 2 ^ 31 → int_of n ≡ n
int_of-small n small = omega arith

-- The threads of client_op.c: the turns, each thread's buffer and what it has sent.
pub record OpState : Type 0 where
  pub turns : State
  pub msg : ℕ → List ℕ
  pub wire : ℕ → List (List ℕ)

unfoldable pub op_init : OpState
op_init = record { turns = init; msg = λ conn_id. template; wire = λ conn_id. [] }

-- Lines 45-60, by the thread `conn_id`: each message is written over the one before.
unfoldable pub send_message : ℕ → OpState → OpState
send_message conn_id s =
    let next : List ℕ = write_numbers conn_id s.turns.global_packet_id (s.msg conn_id) in
    record {
      turns = send_packet client_op conn_id s.turns;
      msg = λ c. if c == conn_id then next else s.msg c;
      wire = λ c. if c == conn_id then s.wire c ++ next ∷ [] else s.wire c;
    }

pub data OpReachable (connected : ℕ → Bool) : OpState → Type 0 where
  op_started : OpReachable connected op_init
  op_step :
      {s : OpState} (conn_id : ℕ)
      → OpReachable connected s
      → CanSend client_op connected conn_id s.turns
      → OpReachable connected (send_message conn_id s)

-- The bytes of the numbers written before do not matter.
rewritten :
    (c p conn_id id : ℕ)
    → write_numbers conn_id id (write_numbers c p template) ≡ write_numbers conn_id id template
unfolding write_numbers write_int
rewritten c p conn_id id = refl

numbers_of-written :
    (conn_id id : ℕ)
    → conn_id < 2 ^ 31
    → id < 2 ^ 31
    → numbers_of (write_numbers conn_id id template) ≡ (conn_id, id)
unfolding write_numbers write_int read_int
numbers_of-written conn_id id small small' =
    λ i. (int_of-small conn_id small i, int_of-small id small' i)

-- Of one connection: its buffer has some numbers, and its messages have those of its packets.
record IsSent (c : ℕ) (s : OpState) : Type 0 where
  written : (a : ℕ) × (b : ℕ) × (s.msg c ≡ write_numbers a b template)
  carried : map numbers_of (s.wire c) ≡ of_connection c s.turns.sent

init-IsSent : (c : ℕ) → IsSent c op_init
unfolding op_init init write_numbers write_int
init-IsSent c = record { written = (538976288, 538976288, refl); carried = refl }

own-IsSent :
    (conn_id : ℕ) (s : OpState)
    → conn_id < 2 ^ 31
    → s.turns.global_packet_id < 2 ^ 31
    → IsSent conn_id s
    → IsSent conn_id (send_message conn_id s)
unfolding send_message send_packet
own-IsSent conn_id s small small' h =
    let id = s.turns.global_packet_id in
    let (a, b, msg) = h.written in
    let next : write_numbers conn_id id (s.msg conn_id) ≡ write_numbers conn_id id template =
      ap (write_numbers conn_id id) msg ∙ rewritten a b conn_id id in
    record {
      written = (conn_id, id, rw (==-self conn_id) next);
      carried =
          rw
            (
              ==-self conn_id,
              next,
              of_connection-append conn_id s.turns.sent ((conn_id, id) ∷ []),
              ==-self conn_id,
              map-append numbers_of (s.wire conn_id) (write_numbers conn_id id template ∷ []),
              h.carried,
            )
            (ap (λ p. of_connection conn_id s.turns.sent ++ p ∷ [])
              (numbers_of-written conn_id id small small'));
    }

other-IsSent :
    (c conn_id : ℕ) (s : OpState)
    → (c == conn_id) ≡ false
    → IsSent c s
    → IsSent c (send_message conn_id s)
unfolding send_message send_packet
other-IsSent c conn_id s other h =
    let apart : (conn_id == c) ≡ false = ground arith in
    record {
      written = rw other h.written;
      carried =
          rw
            (
              other,
              of_connection-append c s.turns.sent ((conn_id, s.turns.global_packet_id) ∷ []),
              apart,
            )
            (h.carried ∙ sym (append-nil (of_connection c s.turns.sent)));
    }

of_op :
    {connected : ℕ → Bool} {s : OpState}
    → OpReachable connected s
    → Reachable client_op connected s.turns
unfolding op_init send_message
of_op op_started = started
of_op (op_step conn_id r c) = step conn_id (of_op r) c

reachable-IsSent :
    {connected : ℕ → Bool} {s : OpState} → OpReachable connected s → (c : ℕ) → IsSent c s
reachable-IsSent op_started c = init-IsSent c
reachable-IsSent (op_step {s = s} conn_id r can) c =
    let few = at_most_all (omega arith) (of_op r) in
    elim (Bool-cases (c == conn_id)) [
      | inl same ↦
          subst (λ k. IsSent c (send_message k s)) (==→≡ c conn_id same)
            (own-IsSent c s (omega (arith, ==→≡ c conn_id same, can.is_started)) (omega arith)
              (reachable-IsSent r c))
      | inr other ↦ other-IsSent c conn_id s other (reachable-IsSent r c)
    ]

-- In any state that the threads of client_op.c reach, the numbers read back from the messages of
-- a connection are those of its packets in the order in which the threads take turns.
pub messages_in_turn :
    {connected : ℕ → Bool} {s : OpState}
    → OpReachable connected s
    → (c : ℕ)
    → map numbers_of (s.wire c)
      ≡ of_connection c (schedule client_op (s.turns.global_packet_id - 1))
messages_in_turn r c =
    (reachable-IsSent r c).carried ∙ ap (of_connection c) (packets_in_order (omega arith) (of_op r))
