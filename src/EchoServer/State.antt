-- ===== src/EchoServer/State.antt =====
-- exp1/server.c, lines 13-27 and 83-123: the buffer, the event loop and the thread that prints.
use rnd.Common.{ℕ, ◌*◌, List, [], ◌∷◌, ◌++◌, length, take}
use rnd.Common.Word.{sub64}
use rnd.Common.Text.{c_string}

abbrev pub buffer_size : ℕ
buffer_size = 1024

abbrev pub max_clients : ℕ
max_clients = 2

-- `common_buffer` has the characters before the array's first NUL; `printed` what the thread has
-- printed; `registered` and `closed` the calls on clients' descriptors. The mutex makes an append and
-- a print each one step.
pub record Server : Type 0 where
  pub common_buffer : List ℕ
  pub printed : List (List ℕ)
  pub registered : List ℕ
  pub closed : List ℕ

unfoldable pub init : Server
init = record { common_buffer = []; printed = []; registered = []; closed = [] }

-- `strncat(dest, src, n)`: at most `n` characters of the string `src`.
unfoldable pub strncat : List ℕ → List ℕ → ℕ → List ℕ
strncat dest src n = dest ++ take n (c_string src)

-- What `accept` and `read` return, or the thread wakes up.
pub data Event : Type 0 where
  accept_failed : Event
  accepted : ℕ → Event
  disconnected : ℕ → Event
  received : ℕ → List ℕ → Event
  wakes : Event

-- Line 118, with the wrap-around of `size_t`. `read` has put at most BUFFER_SIZE - 1 bytes into a buffer of zeros.
unfoldable pub append : List ℕ → Server → Server
append bytes s = record s {
  common_buffer =
      strncat s.common_buffer bytes
        (sub64 (sub64 (buffer_size * max_clients) (length s.common_buffer)) 1);
}

-- Lines 22-24, 93-122.
unfoldable pub handle_event : Event → Server → Server
handle_event accept_failed s = s
handle_event (accepted fd) s = record s { registered = fd ∷ s.registered }
handle_event (disconnected fd) s = record s { closed = fd ∷ s.closed }
handle_event (received fd bytes) s = append bytes s
handle_event wakes s = record s { printed = s.printed ++ s.common_buffer ∷ [] }

unfoldable pub run : List Event → Server → Server
run [] s = s
run (e ∷ es) s = run es (handle_event e s)
