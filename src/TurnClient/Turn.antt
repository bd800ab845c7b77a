-- ===== src/TurnClient/Turn.antt =====
-- exp1/client_final.c, exp1/client9copy.c and client_op.c: the turns, as an invariant of the threads.
use rnd.Common.{
  ℕ, zero, suc, ◌+◌, ◌%◌, ◌<◌, ◌≤◌, List, [], ◌∷◌, ◌++◌, ◌≡◌, refl, sym, ap, ◌∙◌, arith, ◌*◌, inl,
  inr, ltb, if◌then◌else◌, le-cases, All, All-append,
}
use native.Mathlib.Nat.{
  mod-eq_of_lt, mod-lt, mul-le-mul_left, mod_self, mul-add-mod_self_left, mul-suc,
}
use rnd.TurnClient.State.{Client, State, init, send_packet}

-- The first `n` packets in strict turn: 1 on connection 1, 2 on connection 2, and so on.
abbrev pub schedule : Client → ℕ → List (ℕ × ℕ)
schedule client zero = []
schedule client (suc n) = schedule client n ++ (n % client.tcp_conn + 1, n + 1) ∷ []

-- The packets sent when `pos` threads have sent once more than the others, which have sent `round` times.
abbrev pub count : Client → ℕ → ℕ → ℕ
count client round pos = client.tcp_conn * round + pos

pub record IsTurn (client : Client) (round pos : ℕ) (s : State) : Type 0 where
  pub is_in : pos < client.tcp_conn
  pub next_id : s.global_packet_id ≡ count client round pos + 1
  pub next_conn : s.current_conn ≡ pos + 1
  pub rounds :
      (c : ℕ) → 1 ≤ c → c ≤ client.tcp_conn → s.i c ≡ (if ltb pos c then round else round + 1)
  pub in_order : s.sent ≡ schedule client (count client round pos)

-- The connections of the schedule are those of the threads.
pub schedule-conns :
    (client : Client) (n : ℕ)
    → 1 ≤ client.tcp_conn
    → All (λ (c, id). (1 ≤ c) × (c ≤ client.tcp_conn)) (schedule client n)
schedule-conns client zero some_conn = tt
schedule-conns client (suc n) some_conn =
    All-append (λ (c, id). (1 ≤ c) × (c ≤ client.tcp_conn)) (schedule client n)
      ((n % client.tcp_conn + 1, n + 1) ∷ []) (schedule-conns client n some_conn)
      ((omega arith, omega (arith, mod-lt n some_conn)), tt)

module _ (client : Client) where
  pub schedule-same : (a b : ℕ) → a ≡ b → schedule client a ≡ schedule client b
  schedule-same a b same = ap (schedule client) same

  count-mod :
      (round pos : ℕ) → pos < client.tcp_conn → count client round pos % client.tcp_conn ≡ pos
  count-mod round pos lt = mul-add-mod_self_left client.tcp_conn round pos ∙ mod-eq_of_lt lt

  count-round :
      (round pos : ℕ)
      → pos + 1 ≡ client.tcp_conn
      → count client (suc round) 0 ≡ count client round pos + 1
  count-round round pos full = omega (arith, mul-suc client.tcp_conn round)

  pub init-IsTurn : 1 ≤ client.tcp_conn → IsTurn client 0 0 init
  unfolding init
  init-IsTurn some_conn = record {
    is_in = some_conn;
    next_id = omega arith;
    next_conn = refl;
    rounds = λ c lo hi. ground arith;
    in_order = schedule-same 0 (count client 0 0) (omega arith);
  }

  -- What a thread sends next is the next packet of the schedule.
  schedule-next :
      (round pos : ℕ) (s : State)
      → IsTurn client round pos s
      → s.sent ++ (s.current_conn, s.global_packet_id) ∷ []
        ≡ schedule client (suc (count client round pos))
  schedule-next round pos s h =
      let n = count client round pos in
      rw (h.in_order, h.next_conn, h.next_id)
        (ap (λ p. schedule client n ++ (p + 1, n + 1) ∷ []) (sym (count-mod round pos h.is_in)))

  turn_over :
      (pos : ℕ) (s : State)
      → s.current_conn ≡ pos + 1
      → pos + 1 ≡ client.tcp_conn
      → s.current_conn % client.tcp_conn + 1 ≡ 1
  turn_over pos s turn full =
      ap (λ c. c % client.tcp_conn + 1) (turn ∙ full) ∙ ap (λ c. c + 1) (mod_self client.tcp_conn)

  turn_on :
      (pos : ℕ) (s : State)
      → s.current_conn ≡ pos + 1
      → pos + 1 < client.tcp_conn
      → s.current_conn % client.tcp_conn + 1 ≡ pos + 1 + 1
  turn_on pos s turn fits =
      ap (λ c. c % client.tcp_conn + 1) turn ∙ ap (λ c. c + 1) (mod-eq_of_lt fits)

  abbrev pub Turn : State → Type 0
  Turn s = (round : ℕ) × (pos : ℕ) × IsTurn client round pos s

  -- The turn moves on in the round, or the last thread's turn ends it.
  pub send-IsTurn :
      (round pos : ℕ) (s : State)
      → IsTurn client round pos s
      → Turn (send_packet client s.current_conn s)
  unfolding send_packet
  send-IsTurn round pos s h =
      let n = count client round pos in
      elim (le-cases client.tcp_conn (suc pos)) [
        | inl over ↦
            let full : pos + 1 ≡ client.tcp_conn = omega (arith, h.is_in) in
            let up = count-round round pos full in
            (
              suc round,
              0,
              record {
                is_in = omega (arith, h.is_in);
                next_id = omega (arith, h.next_id);
                next_conn = turn_over pos s h.next_conn full;
                rounds = λ c lo hi. ground (arith, h.rounds c lo hi, h.next_conn);
                in_order =
                    schedule-next round pos s h
                    ∙ schedule-same (suc n) (count client (suc round) 0) (omega arith);
              },
            )
        | inr fits ↦ (
          round,
          suc pos,
          record {
            is_in = fits;
            next_id = omega (arith, h.next_id);
            next_conn = turn_on pos s h.next_conn (omega arith) ∙ omega arith;
            rounds = λ c lo hi. ground (arith, h.rounds c lo hi, h.next_conn);
            in_order =
                schedule-next round pos s h
                ∙ schedule-same (suc n) (count client round (suc pos)) (omega arith);
          },
        )
      ]

  -- The thread whose turn it is has sent once in each of the rounds before.
  pub turn-round :
      (round pos : ℕ) (s : State) → IsTurn client round pos s → s.i s.current_conn ≡ round
  turn-round round pos s h = ground (
    arith,
    h.rounds s.current_conn (omega (arith, h.next_conn)) (omega (arith, h.next_conn, h.is_in)),
    h.next_conn,
  )

  pub round-packets :
      (round pos : ℕ)
      → count client round pos < client.tcp_conn * client.packets
      → round < client.packets
  round-packets round pos more = elim (le-cases client.packets round) [
    | inl over ↦ let up = mul-le-mul_left client.tcp_conn over in absurd (omega arith)
    | inr fits ↦ fits
  ]

  pub packets-round :
      (round pos : ℕ)
      → round < client.packets
      → pos < client.tcp_conn
      → count client round pos < client.tcp_conn * client.packets
  packets-round round pos more is_in =
      let up : suc round ≤ client.packets = omega arith in
      omega (arith, mul-le-mul_left client.tcp_conn up, mul-suc client.tcp_conn round)

  -- While no more packets were sent than there are threads, they are those of the first round.
  pub first_round :
      (round pos : ℕ) → count client round pos < client.tcp_conn → count client round pos ≡ pos
  first_round zero pos h = omega arith
  first_round (suc round) pos h = absurd (omega (arith, mul-suc client.tcp_conn round))
