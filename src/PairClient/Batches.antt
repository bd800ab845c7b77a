-- ===== src/PairClient/Batches.antt =====
-- clientexp2.c: each descriptor is closed, and without errors each thread sends its messages.
use rnd.Common.{
  ℕ, zero, suc, ◌+◌, ◌*◌, ◌≤◌, ◌<◌, Bool, true, [], ◌∷◌, ◌++◌, ◌≡◌, ◌⊎◌, refl, ap, arith, ltb,
  if_rule, inl,
}
use rnd.PairClient.State.{
  num_messages, batch_size, Trace, no_calls, Attempt, no_socket, bad_address, refused, connected,
  send_all, attempt, persistent_connection, batch_at, batches, frequent_connection,
}

abbrev IsClosed : Trace → Type 0
IsClosed t = t.closed ≡ t.opened

attempt-IsClosed : (n : ℕ) (a : Attempt) (t : Trace) → IsClosed t → IsClosed (attempt n a t)
unfolding attempt
attempt-IsClosed n no_socket t h = h
attempt-IsClosed n (bad_address fd) t h = ap (λ fds. fds ++ fd ∷ []) h
attempt-IsClosed n (refused fd) t h = ap (λ fds. fds ++ fd ∷ []) h
attempt-IsClosed n (connected fd works) t h = ap (λ fds. fds ++ fd ∷ []) h

batches-IsClosed :
    (fuel i : ℕ) (attempts : ℕ → Attempt) (t : Trace)
    → IsClosed t
    → IsClosed (batches fuel i attempts t)
unfolding batches
batches-IsClosed zero i attempts t h = h
batches-IsClosed (suc fuel) i attempts t h =
    if_rule IsClosed (ltb i num_messages)
      (batches-IsClosed fuel (i + batch_size) attempts (attempt (batch_at i) (attempts i) t)
        (attempt-IsClosed (batch_at i) (attempts i) t h))
      h

send_all-le : (n : ℕ) (works : ℕ → Bool) (j : ℕ) → send_all n works j ≤ n
unfolding send_all
send_all-le zero works j = omega arith
send_all-le (suc n) works j = ground (arith, send_all-le n works (j + 1))

attempt-sent : (n : ℕ) (a : Attempt) (t : Trace) → (attempt n a t).sent ≤ t.sent + n
unfolding attempt
attempt-sent n no_socket t = omega arith
attempt-sent n (bad_address fd) t = omega arith
attempt-sent n (refused fd) t = omega arith
attempt-sent n (connected fd works) t = omega (arith, send_all-le n works 0)

batches-sent :
    (fuel i : ℕ) (attempts : ℕ → Attempt) (t : Trace)
    → t.sent ≤ i
    → t.sent ≤ num_messages
    → (batches fuel i attempts t).sent ≤ num_messages
unfolding batches
batches-sent zero i attempts t h k = k
batches-sent (suc fuel) i attempts t h k =
    let one = attempt-sent (batch_at i) (attempts i) t in
    ground (
      arith,
      one,
      batches-sent fuel (i + batch_size) attempts (attempt (batch_at i) (attempts i) t),
    )

-- Whatever the calls find, each thread closes the sockets that it has opened, in their order,
-- and sends at most NUM_MESSAGES messages.
pub sockets_closed :
    (a : Attempt) (attempts : ℕ → Attempt)
    → ((persistent_connection a).closed ≡ (persistent_connection a).opened)
      × ((persistent_connection a).sent ≤ num_messages)
      × ((frequent_connection attempts).closed ≡ (frequent_connection attempts).opened)
      × ((frequent_connection attempts).sent ≤ num_messages)
unfolding persistent_connection frequent_connection
sockets_closed a attempts = (
  attempt-IsClosed num_messages a no_calls refl,
  attempt-sent num_messages a no_calls,
  batches-IsClosed 11 0 attempts no_calls refl,
  batches-sent 11 0 attempts no_calls (omega arith) (omega arith),
)

-- Every call of `send` succeeds.
abbrev pub always : ℕ → Bool
always j = true

send_all-always : (n j : ℕ) → send_all n always j ≡ n
unfolding send_all
send_all-always zero j = refl
send_all-always (suc n) j = omega (arith, send_all-always n (j + 1))

batches_complete :
    (fuel i : ℕ) (fds : ℕ → ℕ) (t : Trace)
    → num_messages < i + fuel * batch_size
    → ((t.sent ≡ i) × (i ≤ num_messages)) ⊎ ((t.sent ≡ num_messages) × (num_messages ≤ i))
    → (batches fuel i (λ b. connected (fds b) always) t).sent ≡ num_messages
unfolding batches attempt
batches_complete zero i fds t h k = ground arith
batches_complete (suc fuel) i fds t h k = ground (
  arith,
  send_all-always (batch_at i) 0,
  batches_complete fuel (i + batch_size) fds (attempt (batch_at i) (connected (fds i) always) t),
)

-- If each connection is made and each call of `send` succeeds, each thread sends NUM_MESSAGES
-- messages.
pub all_messages_sent :
    (fd : ℕ) (fds : ℕ → ℕ)
    → ((persistent_connection (connected fd always)).sent ≡ num_messages)
      × ((frequent_connection (λ b. connected (fds b) always)).sent ≡ num_messages)
unfolding persistent_connection frequent_connection attempt
all_messages_sent fd fds = (
  omega (arith, send_all-always num_messages 0),
  batches_complete 11 0 fds no_calls (omega arith) (inl (refl, omega arith)),
)
