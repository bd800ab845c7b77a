-- ===== src/BatchSender/Batches.antt =====
-- non.c: the messages counted are those of complete connections, and fewer of each other one.
use rnd.Common.{
  ℕ, zero, suc, ◌+◌, ◌*◌, ◌≤◌, ◌<◌, Bool, false, ◌&&◌, List, [], ◌∷◌, ◌≡◌, ◌≢◌, refl, ap, arith,
  ltb, ◌==◌, if_rule, inl, inr, Bool-cases, ==→≡, ltb→lt,
}
use rnd.Common.Int.{pos}
use rnd.Common.Word.{u64}
use rnd.Common.Float.{FloatOps}
use rnd.BatchSender.State.{
  Totals, Batch, Send, room, would_block, interrupt, count_sent, taken, send_messages,
  count_connection, Client, Attempt, no_socket, refused, connected, signal, new_batch, init,
  attempt, goes_on, run,
}

-- On one connection: the messages since the total `before`, at most `m`.
record IsBatch (m before : ℕ) (t : Totals) (b : Batch) : Type 0 where
  total : b.totals.total_msgs_sent ≡ u64 (before + b.msgs_sent)
  at_most : b.msgs_sent ≤ m
  connections : b.totals.total_connections ≡ t.total_connections
  incomplete : b.totals.non_complete ≡ t.non_complete

send-IsBatch :
    (m before n : ℕ) (t : Totals) (b : Batch)
    → b.msgs_sent < m
    → IsBatch m before t b
    → IsBatch m before t (count_sent n b)
unfolding count_sent
send-IsBatch m before zero t b more h = h
send-IsBatch m before (suc n) t b more h = record {
  total = ground (arith, h.total);
  at_most = ground (arith, h.at_most);
  connections = ground (arith, h.connections);
  incomplete = ground (arith, h.incomplete);
}

send_messages-IsBatch :
    (m before : ℕ) (es : List Send) (t : Totals) (b : Batch)
    → IsBatch m before t b
    → IsBatch m before t (send_messages (pos m) es b)
unfolding send_messages
send_messages-IsBatch m before [] t b h = h
send_messages-IsBatch m before (interrupt ∷ es) t b h =
    send_messages-IsBatch m before es t (record b { running = false })
      (record {
        total = h.total;
        at_most = h.at_most;
        connections = h.connections;
        incomplete = h.incomplete;
      })
send_messages-IsBatch m before (would_block ∷ es) t b h =
    if_rule (IsBatch m before t) (ltb b.msgs_sent m && b.running)
      (send_messages-IsBatch m before es t b h) h
send_messages-IsBatch m before (room n ∷ es) t b h = elim (Bool-cases (ltb b.msgs_sent m)) [
  | inl more ↦ rw more (
      if_rule (IsBatch m before t) b.running
        (send_messages-IsBatch m before es t (count_sent (taken n b) b)
          (send-IsBatch m before (taken n b) t b (ltb→lt b.msgs_sent m more) h))
        h)
  | inr done ↦ rw done h
]

mul-zero : (k : ℕ) → k * 0 ≡ 0
mul-zero k = omega arith

mul-succ : (k n : ℕ) → k * (n + 1) ≡ k * n + k
mul-succ k n = grind arith

other_number : (a b : ℕ) → (a == b) ≡ false → a ≢ b
other_number a b h = ground arith

-- `c` connections are complete with `k + 1` messages each; `p` messages are of the others.
pub record Shares (k : ℕ) (t : Totals) : Type 0 where
  pub complete : ℕ
  pub partial : ℕ
  pub messages : t.total_msgs_sent ≡ u64 (suc k * complete + partial)
  pub few : partial ≤ k * t.non_complete
  pub connections : t.total_connections ≡ u64 complete

count-Shares :
    (k : ℕ) (t : Totals) (b : Batch)
    → Shares k t
    → IsBatch (suc k) t.total_msgs_sent t b
    → Shares k (count_connection (pos (suc k)) b)
unfolding count_connection
count-Shares k t b h i = elim (Bool-cases (b.msgs_sent == suc k)) [
  | inl all ↦ rw all (record {
    complete = h.complete + 1;
    partial = h.partial;
    messages =
        omega
          (arith, i.total, h.messages, mul-succ (suc k) h.complete, ==→≡ b.msgs_sent (suc k) all);
    few = omega (arith, h.few, ap (λ n. k * n) i.incomplete);
    connections = omega (arith, h.connections, i.connections);
  })
  | inr less ↦ rw less (record {
    complete = h.complete;
    partial = h.partial + b.msgs_sent;
    messages = omega (arith, i.total, h.messages);
    few = omega (
      arith,
      h.few,
      mul-succ k b.totals.non_complete,
      ap (λ n. k * n) i.incomplete,
      i.at_most,
      other_number b.msgs_sent (suc k) less,
    );
    connections = omega (arith, h.connections, i.connections);
  })
]

new_batch-IsBatch :
    (k : ℕ) (running : Bool) (t : Totals)
    → Shares k t
    → IsBatch (suc k) t.total_msgs_sent t (new_batch running t)
unfolding new_batch
new_batch-IsBatch k running t h = record {
  total = omega (arith, h.messages);
  at_most = omega arith;
  connections = refl;
  incomplete = refl;
}

attempt-Shares :
    {D : Type 0} (k : ℕ) (a : Attempt D) (c : Client D)
    → Shares k c.totals
    → Shares k (attempt (pos (suc k)) a c).totals
unfolding attempt
attempt-Shares k no_socket c h = h
attempt-Shares k (refused now) c h = h
attempt-Shares k (connected es now) c h =
    count-Shares k c.totals (send_messages (pos (suc k)) es (new_batch c.running c.totals)) h (
      send_messages-IsBatch (suc k) c.totals.total_msgs_sent es c.totals
        (new_batch c.running c.totals) (new_batch-IsBatch k c.running c.totals h))
attempt-Shares k signal c h = h

module _ {D : Type 0} (fp : FloatOps D) (time k : ℕ) where
  run-Shares :
      (attempts : List (Attempt D)) (c : Client D)
      → Shares k c.totals
      → Shares k (run fp time (pos (suc k)) attempts c).totals
  unfolding run
  run-Shares [] c h = h
  run-Shares (a ∷ attempts) c h =
      if_rule (λ (d : Client D). Shares k d.totals) (goes_on fp time (pos (suc k)) c)
        (run-Shares attempts (attempt (pos (suc k)) a c) (attempt-Shares k a c h)) h

  -- With a positive number of messages per connection, after any run the messages counted are
  -- that number for each complete connection and fewer for each other one, modulo 2^64, and the
  -- complete connections are counted modulo 2^64.
  pub messages_shared :
      (attempts : List (Attempt D)) → Shares k (run fp time (pos (suc k)) attempts (init fp)).totals
  unfolding init
  messages_shared attempts = run-Shares attempts (init fp) (record {
    complete = 0;
    partial = 0;
    messages = omega (arith, mul-zero (suc k));
    few = omega arith;
    connections = refl;
  })
