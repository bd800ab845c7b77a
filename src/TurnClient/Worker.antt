-- ===== src/TurnClient/Worker.antt =====
-- exp1/client_final.c, exp1/client9copy.c and client_op.c: the loop of a thread, for the life of the
-- threads.
use rnd.Common.{ℕ, ◌+◌, ◌<◌, ◌≤◌, Bool, true, ◌≡◌, refl, arith}
use rnd.Threads.State.{
  Worker, Process, begin, open_socket, give_up, close_socket, connects, fails, sends, ends, Runs,
  begun, next,
}
use rnd.Threads.Stages.{EndsStay, sending-connected}
use rnd.Threads.Steps.{passes}
use rnd.TurnClient.State.{Client, State, init, send_packet, Reachable, started, step}

-- Lines 32-46: one pass of the loop.
pub data Sends (client : Client) (c : ℕ) (s : State) : State → Type 0 where
  pass : s.i c < client.packets → s.current_conn ≡ c → Sends client c s (send_packet client c s)

unfoldable pub turn_worker : Client → Worker State
turn_worker client = record {
  threads = client.tcp_conn;
  Sends = Sends client;
  IsOver = λ c s. client.packets ≤ s.i c;
}

Sends-over :
    (client : Client) (c d : ℕ) (s t : State)
    → Sends client d s t
    → client.packets ≤ s.i c
    → client.packets ≤ t.i c
unfolding send_packet
Sends-over client c d s t (pass more turn) over = ground arith

pub turn_worker-EndsStay : (client : Client) → EndsStay (turn_worker client)
unfolding turn_worker
turn_worker-EndsStay client = record { stays = Sends-over client }

Sends-Reachable :
    {client : Client} {connected : ℕ → Bool} (c : ℕ) {s t : State}
    → Sends client c s t
    → 1 ≤ c
    → c ≤ client.tcp_conn
    → connected c ≡ true
    → Reachable client connected s
    → Reachable client connected t
Sends-Reachable c (pass more turn) lo hi up r =
    step c r
      (record { is_started = (lo, hi); is_connected = up; has_packets = more; has_turn = turn })

module _ {client : Client} {connected : ℕ → Bool} where
  pub runs-Reachable :
      {p : Process State}
      → Runs (turn_worker client) connected init p
      → Reachable client connected p.shared
  unfolding begin open_socket give_up close_socket turn_worker
  runs-Reachable begun = started
  runs-Reachable (next r (connects d lo hi at up)) = runs-Reachable r
  runs-Reachable (next r (fails d lo hi at down)) = runs-Reachable r
  runs-Reachable (next r (sends d lo hi at sent)) =
      let up =
        sending-connected (turn_worker client) connected (turn_worker-EndsStay client) r d at in
      Sends-Reachable d sent lo hi up (runs-Reachable r)
  runs-Reachable (next r (ends d lo hi at over)) = runs-Reachable r

Sends-id :
    (client : Client) (c : ℕ) {s t : State}
    → Sends client c s t
    → t.global_packet_id ≡ s.global_packet_id + 1
unfolding send_packet
Sends-id client c (pass more turn) = refl

pub passes-id :
    (client : Client) {connected : ℕ → Bool} {p : Process State}
    (r : Runs (turn_worker client) connected init p)
    → passes r + 1 ≡ p.shared.global_packet_id
unfolding turn_worker passes begin init open_socket give_up close_socket
passes-id client begun = refl
passes-id client (next r (connects c lo hi at up)) = passes-id client r
passes-id client (next r (fails c lo hi at down)) = passes-id client r
passes-id client (next r (sends c lo hi at sent)) =
    omega (arith, passes-id client r, Sends-id client c sent)
passes-id client (next r (ends c lo hi at over)) = passes-id client r
