-- ===== src/BatchSender/Defaults.antt =====
-- non.c, lines 50-56: a negative number of messages.
use rnd.Common.{ℕ, false, some, List, [], ◌∷◌, ◌≡◌, refl, ◌∙◌, if_rule, ap}
use rnd.Common.Int.{negsuc}
use rnd.Common.Float.{FloatOps}
use rnd.BatchSender.State.{
  Totals, Batch, Send, room, would_block, interrupt, send_messages, count_connection, Client,
  Attempt, no_socket, refused, connected, signal, new_batch, init, attempt, goes_on, run,
  msgs_per_conn,
}

keeps-totals :
    (n : ℕ) (es : List Send) (b : Batch) → (send_messages (negsuc n) es b).totals ≡ b.totals
unfolding send_messages
keeps-totals n [] b = refl
keeps-totals n (interrupt ∷ es) b = keeps-totals n es (record b { running = false })
keeps-totals n (would_block ∷ es) b = refl
keeps-totals n (room k ∷ es) b = refl

-- No message is sent and no connection is complete.
abbrev IsIdle : Totals → Type 0
IsIdle t = (t.total_msgs_sent ≡ 0) × (t.total_connections ≡ 0)

attempt-IsIdle :
    {D : Type 0} (n : ℕ) (a : Attempt D) (c : Client D)
    → IsIdle c.totals
    → IsIdle (attempt (negsuc n) a c).totals
unfolding attempt count_connection new_batch
attempt-IsIdle n no_socket c h = h
attempt-IsIdle n (refused now) c h = h
attempt-IsIdle n (connected es now) c h =
    let kept = keeps-totals n es (new_batch c.running c.totals) in
    (
      ap (λ (t : Totals). t.total_msgs_sent) kept ∙ h.0,
      ap (λ (t : Totals). t.total_connections) kept ∙ h.1,
    )
attempt-IsIdle n signal c h = h

module _ {D : Type 0} (fp : FloatOps D) (time n : ℕ) where
  run-IsIdle :
      (attempts : List (Attempt D)) (c : Client D)
      → IsIdle c.totals
      → IsIdle (run fp time (negsuc n) attempts c).totals
  unfolding run
  run-IsIdle [] c h = h
  run-IsIdle (a ∷ attempts) c h =
      if_rule (λ (d : Client D). IsIdle d.totals) (goes_on fp time (negsuc n) c)
        (run-IsIdle attempts (attempt (negsuc n) a c) (attempt-IsIdle n a c h)) h

  -- With a negative number of messages as the argument, no run sends a message or completes a
  -- connection: the default is not used.
  pub default_not_used :
      (attempts : List (Attempt D))
      → let t = (run fp time (msgs_per_conn (some (negsuc n))) attempts (init fp)).totals in
        (t.total_msgs_sent ≡ 0) × (t.total_connections ≡ 0)
  unfolding init msgs_per_conn
  default_not_used attempts = run-IsIdle attempts (init fp) (refl, refl)
