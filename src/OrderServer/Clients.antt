-- ===== src/OrderServer/Clients.antt =====
-- serverexp2.c: `active_clients` against the descriptors that were accepted and closed.
use rnd.Common.{
  ℕ, zero, suc, ◌+◌, ◌≤◌, true, false, List, [], ◌∷◌, ◌≡◌, ◌==◌, arith, Bool-cases, inl, inr,
  if_rule, sym, ◌∙◌,
}
use rnd.Common.Int.{ℤ, is_zero, pos, negsuc, pos_part, neg_part, ◌+ℤ◌, ◌-ℤ◌, +ℤ_parts, -ℤ_parts}
use rnd.Common.Time.{Timeval}
use rnd.OrderServer.State.{Call, accepted, closed, Server, init}
use rnd.OrderServer.Loop.{
  Accept, failed, no_memory, client, Input, accept_client, count_event, count_order, drop_client,
  read_client, run,
}
use rnd.OrderServer.Runs.{IsKept, run_inv}

abbrev pub accepts : List Call → ℕ
accepts [] = 0
accepts (accepted fd ∷ cs) = suc (accepts cs)
accepts (closed fd ∷ cs) = accepts cs

abbrev pub closes : List Call → ℕ
closes [] = 0
closes (closed fd ∷ cs) = suc (closes cs)
closes (accepted fd ∷ cs) = closes cs

-- `active_clients` is at least the number of clients accepted less those closed.
abbrev pub CountsAll : Server → Type 0
CountsAll s =
    neg_part s.active_clients + accepts s.calls ≤ pos_part s.active_clients + closes s.calls

accept-CountsAll : (a : Accept) (s : Server) → CountsAll s → CountsAll (accept_client a s)
unfolding accept_client
accept-CountsAll failed s h = h
accept-CountsAll a s h = grind (arith, +ℤ_parts)

drop-CountsAll : (fd : ℕ) (s : Server) → CountsAll s → CountsAll (drop_client fd s)
unfolding drop_client
drop-CountsAll fd s h = ground arith

-- The end of a stream: the count falls, and the descriptor is closed.
leave-CountsAll :
    (fd : ℕ) (s : Server)
    → CountsAll s
    → CountsAll (drop_client fd (record s { active_clients = s.active_clients -ℤ pos 1 }))
unfolding drop_client
leave-CountsAll fd s h = ground (arith, -ℤ_parts s.active_clients (pos 1))

count-CountsAll :
    (fd : ℕ) (t u : Timeval) (s : Server) → CountsAll s → CountsAll (count_event fd t u s)
unfolding count_event
count-CountsAll fd t u s h = ground arith

order-CountsAll :
    (fd n : ℕ) (t u : Timeval) (s : Server) → CountsAll s → CountsAll (count_order fd n t u s)
unfolding count_order
order-CountsAll fd n t u s h = ground arith

read-CountsAll :
    (fd : ℕ) (r : ℤ) (t u : Timeval) (s : Server) → CountsAll s → CountsAll (read_client fd r t u s)
unfolding read_client
read-CountsAll fd (pos zero) t u s h = leave-CountsAll fd s h
read-CountsAll fd (pos (suc n)) t u s h =
    let c = count_event fd t u s in
    if_rule CountsAll (c.count == 2) (order-CountsAll fd (suc n) t u c (count-CountsAll fd t u s h))
      (drop-CountsAll fd c (count-CountsAll fd t u s h))
read-CountsAll fd (negsuc n) t u s h = drop-CountsAll fd s h

CountsAll-IsKept : IsKept CountsAll
CountsAll-IsKept = record {
  on_accept = accept-CountsAll;
  on_read = read-CountsAll;
  on_stop = λ s h. h;
}

drop-idle :
    (fd : ℕ) (s : Server)
    → s.running ≡ true
    → (drop_client fd s).running ≡ false
    → is_zero (drop_client fd s).active_clients ≡ true
unfolding drop_client
drop-idle fd s on off = ground arith

running-count :
    (fd n : ℕ) (t u : Timeval) (s : Server)
    → ((count_event fd t u s).running ≡ s.running) × ((count_order fd n t u s).running ≡ s.running)
unfolding count_event count_order
running-count fd n t u s = (ground arith, ground arith)

read-idle :
    (fd : ℕ) (r : ℤ) (t u : Timeval) (s : Server)
    → s.running ≡ true
    → (read_client fd r t u s).running ≡ false
    → is_zero (read_client fd r t u s).active_clients ≡ true
unfolding read_client
read-idle fd (pos zero) t u s on off =
    drop-idle fd (record s { active_clients = s.active_clients -ℤ pos 1 }) on off
read-idle fd (pos (suc n)) t u s on off =
    let c = count_event fd t u s in
    let still : c.running ≡ true = (running-count fd 0 t u s).0 ∙ on in
    elim (Bool-cases (c.count == 2)) [
      | inl two ↦
          absurd (clash (sym still ∙ sym (running-count fd (suc n) t u c).1 ∙ (rw two at off)))
      | inr other ↦ rw other (drop-idle fd c still (rw other at off))
    ]
  where
    clash : true ≡ false → ⊥
    clash e = cc
read-idle fd (negsuc n) t u s on off = drop-idle fd s on off

idle-CountsAll :
    (s : Server) → CountsAll s → is_zero s.active_clients ≡ true → accepts s.calls ≤ closes s.calls
idle-CountsAll s h e = ground arith

-- If the handling of a client's event stops a server that has been running from the start, then
-- as many descriptors have been closed as accepted, at least.
pub stops_when_closed :
    (is : List Input) (fd : ℕ) (r : ℤ) (t u : Timeval)
    → (run is init).running ≡ true
    → (read_client fd r t u (run is init)).running ≡ false
    → accepts (read_client fd r t u (run is init)).calls
      ≤ closes (read_client fd r t u (run is init)).calls
unfolding init
stops_when_closed is fd r t u on off =
    let s = run is init in
    let counted : CountsAll s = run_inv CountsAll CountsAll-IsKept is init (omega arith) in
    idle-CountsAll (read_client fd r t u s) (read-CountsAll fd r t u s counted)
      (read-idle fd r t u s on off)

-- A client whose memory or registration fails is closed and counted; one whose `recv` fails is
-- closed and its count stays.
pub closed_but_counted :
    (fd : ℕ) (t u : Timeval) (n : ℕ) (s : Server)
    → ((accept_client (no_memory fd) s).active_clients ≡ s.active_clients +ℤ pos 1)
      × ((accept_client (no_memory fd) s).calls ≡ closed fd ∷ accepted fd ∷ s.calls)
      × ((accept_client (client fd false) s).active_clients ≡ s.active_clients +ℤ pos 1)
      × ((accept_client (client fd false) s).calls ≡ closed fd ∷ accepted fd ∷ s.calls)
      × ((read_client fd (negsuc n) t u s).active_clients ≡ s.active_clients)
      × ((read_client fd (negsuc n) t u s).calls ≡ closed fd ∷ s.calls)
unfolding accept_client read_client
closed_but_counted fd t u n s =
    (ground arith, ground arith, ground arith, ground arith, ground arith, ground arith)
