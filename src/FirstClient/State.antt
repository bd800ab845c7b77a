-- ===== src/FirstClient/State.antt =====
-- exp1/client.c: the whole program. What the calls return is the input.
use rnd.Common.{ℕ, ◌+◌, Bool, Option, none, some, List, [], ◌∷◌, ◌++◌, take, if◌then◌else◌}
use rnd.SequenceServer.Text.{◌>>=◌, print_int}

-- The descriptor that each `socket` returns, and whether each `connect` succeeds.
pub record Calls : Type 0 where
  pub socket1 : Option ℕ
  pub socket2 : Option ℕ
  pub socket3 : Option ℕ
  pub socket4 : Option ℕ
  pub connect1 : Bool
  pub connect2 : Bool
  pub connect3 : Bool
  pub connect4 : Bool

-- `sent` has the number of the connection and the bytes of each `send`; `closed` the descriptors.
pub record Trace : Type 0 where
  pub sent : List (ℕ × List ℕ)
  pub closed : List ℕ

abbrev client_1 : List ℕ
client_1 = b'c' ∷ b'l' ∷ b'i' ∷ b'e' ∷ b'n' ∷ b't' ∷ b' ' ∷ b'1' ∷ b':' ∷ []

-- `"client 1: TCP1 "`, where `digit` is the last character of the name.
abbrev pub label_spaced : ℕ → List ℕ
label_spaced digit = client_1 ++ b' ' ∷ b'T' ∷ b'C' ∷ b'P' ∷ digit ∷ b' ' ∷ []

-- `"client 1:  TCP1"`.
abbrev pub label_indented : ℕ → List ℕ
label_indented digit = client_1 ++ b' ' ∷ b' ' ∷ b'T' ∷ b'C' ∷ b'P' ∷ digit ∷ []

-- `snprintf` into an array of 32 characters: at most 31 and the NUL.
unfoldable pub message : List ℕ → ℕ → List ℕ
message label num = take 31 (label ++ b'-' ∷ print_int num ++ b'\n' ∷ [])

-- Lines 10-16.
unfoldable pub send_packet : ℕ → List ℕ → ℕ → Trace → Trace
send_packet conn label num t = record t { sent = t.sent ++ (conn, message label num) ∷ [] }

-- Two packets in a row.
abbrev send_two : ℕ → List ℕ → ℕ → Trace → Trace
send_two conn label num t = send_packet conn label (num + 1) (send_packet conn label num t)

-- Lines 80-103.
unfoldable pub send_all : Trace → Trace
unfolding send_packet
send_all t = send_two 4 (label_indented b'4') 3 (
    send_two 3 (label_indented b'3') 3 (
      send_two 4 (label_indented b'4') 1 (
        send_two 3 (label_indented b'3') 1 (
          send_two 2 (label_indented b'2') 3 (
            send_two 1 (label_spaced b'1') 3
              (send_two 2 (label_spaced b'2') 1 (send_two 1 (label_spaced b'1') 1 t)))))))

-- `connect`, and `exit` where it fails.
unfoldable pub connect : Bool → Trace → Option Trace
connect succeeds t = if succeeds then some t else none

-- Lines 19-112: nothing where `exit` is called.
unfoldable pub main : Calls → Option Trace
main c = do
  sock1 ← c.socket1
  sock2 ← c.socket2
  sock3 ← c.socket3
  sock4 ← c.socket4
  one ← connect c.connect1 (record { sent = []; closed = [] })
  two ← connect c.connect2 one
  three ← connect c.connect3 two
  four ← connect c.connect4 three
  some (record (send_all four) { closed = sock1 ∷ sock2 ∷ sock3 ∷ sock4 ∷ [] })
