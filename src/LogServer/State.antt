-- ===== src/LogServer/State.antt =====
-- exp1/server6.c, lines 17-66 and 123-128: a connection with its buffer, and the handling of its data.
use rnd.Common.{ℕ, ◌+◌, ◌-◌, Option, none, some, List, [], ◌∷◌, ◌++◌, length, take}
use rnd.Common.Text.{c_string}
use rnd.Common.Lines.{each_line}
use rnd.EventLoop.State.{Recv, failed, ended, received}

abbrev pub buffer_size : ℕ
buffer_size = 65536

-- `buffer` has the first `buf_used` bytes of the array.
pub record Connection : Type 0 where
  pub fd : ℕ
  pub buffer : List ℕ
  pub packet_count : ℕ

-- A line of the log: the descriptor, the packet's number and the data.
pub record Entry : Type 0 where
  pub conn : ℕ
  pub pkt : ℕ
  pub content : List ℕ

-- Lines 123-127.
unfoldable pub new_connection : ℕ → Connection
new_connection client_fd = record { fd = client_fd; buffer = []; packet_count = 0 }

-- The room that line 29 offers to `recv`.
abbrev pub room : Connection → ℕ
room c = buffer_size - length c.buffer

-- Lines 28-29: `recv` puts at most `room` of the bytes that have arrived into the buffer; with no room it
-- returns 0, as at the end. What it leaves is offered again by a later event.
unfoldable pub recv_into : Connection → Recv → Recv
recv_into c failed = failed
recv_into c ended = ended
recv_into c (received bytes) = elim (take (room c) bytes) [
  | [] ↦ ended
  | b ∷ bs ↦ received (b ∷ bs)
]

-- The body of the loop, lines 51-59; `%s` prints a line up to its first NUL.
unfoldable pub log_line : ℕ → List ℕ → ℕ × List Entry → ℕ × List Entry
log_line conn line (packet_count, output) = (
  packet_count + 1,
  output ++ record { conn = conn; pkt = packet_count + 1; content = c_string line } ∷ [],
)

-- Lines 40-65, for the bytes that `recv` has put behind the buffer's.
unfoldable pub append_data : List ℕ → Connection × List Entry → Connection × List Entry
append_data bytes (c, output) =
    let all = c.buffer ++ bytes in
    let ((count, written), rest) =
      each_line (log_line c.fd) (length all + 1) all (c.packet_count, output) in
    (record c { buffer = rest; packet_count = count }, written)

-- Lines 31-65: the connection that is left, if it has not been freed, and the log.
unfoldable pub handle_received : Recv → Connection × List Entry → Option Connection × List Entry
handle_received failed (c, output) = (none, output)
handle_received ended (c, output) = (none, output)
handle_received (received bytes) s = let (c, output) = append_data bytes s in (some c, output)

-- Lines 27-66, for what has arrived.
unfoldable pub handle_connection : Recv → Connection × List Entry → Option Connection × List Entry
unfolding recv_into handle_received
handle_connection r (c, output) = handle_received (recv_into c r) (c, output)

-- The data of one connection, as `recv` delivers it in turn, until the connection is freed.
unfoldable pub handle_all : List Recv → Connection × List Entry → Option Connection × List Entry
handle_all [] (c, output) = (some c, output)
handle_all (r ∷ rs) s =
    let (conn, output) = handle_connection r s in
    elim conn [ none ↦ (none, output) | some c ↦ handle_all rs (c, output) ]
