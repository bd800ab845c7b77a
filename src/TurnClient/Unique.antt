-- ===== src/TurnClient/Unique.antt =====
-- exp1/client_final.c, exp1/client9copy.c and client_op.c: the scheduler makes no difference.
use rnd.Common.{ℕ, zero, suc, ◌+◌, ◌*◌, ◌≤◌, Bool, true, ◌≡◌, refl, sym, ap, ◌∙◌, arith}
use std.HLevel.{Σ_prop_path}
use std.Logic.{∥∥₁_elim}
use rnd.TurnClient.State.{Client, State, init, send_packet, Reachable, started, step}
use rnd.TurnClient.Order.{no_deadlock}

-- The states with that packet counter that the threads reach.
abbrev pub Reached : Client → (ℕ → Bool) → ℕ → Type 0
Reached client connected id =
    (s : State) × ∥ Reachable client connected s × (s.global_packet_id ≡ id) ∥₁

State-IsSet : IsSet State
State-IsSet = hlevel

module _ {client : Client} {connected : ℕ → Bool} where
  counter-positive : {s : State} → Reachable client connected s → 1 ≤ s.global_packet_id
  unfolding init send_packet
  counter-positive started = omega arith
  counter-positive (step c r can) = omega (arith, counter-positive r)

  -- Two states reached that have the same packet counter are the same.
  same_counter :
      {s t : State}
      → Reachable client connected s
      → Reachable client connected t
      → s.global_packet_id ≡ t.global_packet_id
      → s ≡ t
  unfolding init send_packet
  same_counter started started h = refl
  same_counter started (step d r can) h = absurd (omega (arith, counter-positive r))
  same_counter (step c r can) started h = absurd (omega (arith, counter-positive r))
  same_counter (step {s = s} c r can) (step {s = t} d r' can') h =
      let before : s ≡ t = same_counter r r' (omega arith) in
      let same : c ≡ d =
        sym can.has_turn ∙ ap (λ (q : State). q.current_conn) before ∙ can'.has_turn in
      ap (λ q. send_packet client c q) before ∙ ap (λ e. send_packet client e t) same

one_state : (client : Client) (connected : ℕ → Bool) (id : ℕ) → IsProp (Reached client connected id)
one_state client connected id (s, a) (t, b) =
    Σ_prop_path (λ q. hlevel)
      (∥∥₁_elim a (State-IsSet s t)
        (λ (r, n). ∥∥₁_elim b (State-IsSet s t) (λ (r', m). same_counter r r' (n ∙ sym m))))

module _ (client : Client) (connected : ℕ → Bool) (some_conn : 1 ≤ client.tcp_conn) where
  some_state :
      ((c : ℕ) → 1 ≤ c → c ≤ client.tcp_conn → connected c ≡ true)
      → (sent : ℕ) → sent ≤ client.tcp_conn * client.packets
      → (s : State) × Reachable client connected s × (s.global_packet_id ≡ sent + 1)
  unfolding init send_packet
  some_state all zero fits = (init, started, refl)
  some_state all (suc n) fits =
      let (s, r, h) = some_state all n (omega arith) in
      (
        send_packet client s.current_conn s,
        step s.current_conn r (no_deadlock some_conn all r (omega arith)),
        omega arith,
      )

  -- If there is at least one thread and every one connects, then for each number of packets up
  -- to TCP_CONN * PACKETS the type of the states reached with that many sent is contractible:
  -- there is one such state and no other, whatever the scheduler does.
  pub just_one_state :
      ((c : ℕ) → 1 ≤ c → c ≤ client.tcp_conn → connected c ≡ true)
      → (sent : ℕ) → sent ≤ client.tcp_conn * client.packets
      → IsContr (Reached client connected (sent + 1))
  just_one_state all sent fits =
      let (s, r, h) = some_state all sent fits in
      let centre : Reached client connected (sent + 1) = (s, ∣ (r, h) ∣₁) in
      (centre, λ c. one_state client connected (sent + 1) c centre)
