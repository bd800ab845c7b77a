-- ===== src/Sender/Wire.antt =====
-- per.c, lines 99, 106 and 109-119: the bytes that `send` takes from the buffer.
use rnd.Common.{
  ℕ, false, zero, suc, ◌+◌, ◌≤◌, List, [], ◌∷◌, ◌++◌, ◌≡◌, refl, arith, if◌then◌else◌, All,
  All-append, length, length-append, take, drop, replicate, Bool-cases, inl, inr,
}
use rnd.Common.Word.{u64}
use rnd.Common.Float.{FloatOps}
use rnd.Sender.State.{
  buffer_size, Sender, room, would_block, failed, Input, signal, pass, init, count_sent, read_clock,
  taken, send_some, goes_on, send_all,
}
use rnd.Sender.Packets.{IsExact, send_some-IsExact}

-- `memset(msg_buffer, 'P', BUFFER_SIZE)`.
abbrev pub msg_buffer : List ℕ
msg_buffer = replicate buffer_size b'P'

-- `send(sock, buf_ptr, bytes_to_send, …)`, where the socket has room for `n` bytes.
abbrev pub sent_bytes : {D : Type 0} → ℕ → Sender D → List ℕ
sent_bytes n s = take (taken n s) (drop s.offset msg_buffer)

module _ {D : Type 0} (fp : FloatOps D) (max : ℕ) where
  -- The bytes of a run, in the order in which they are sent.
  unfoldable pub wire : List (Input D) → Sender D → List ℕ
  wire [] s = []
  wire (signal ∷ is) s = wire is (record s { running = false })
  wire (pass failed now ∷ is) s = []
  wire (pass would_block now ∷ is) s = let rest = wire is s in if goes_on fp max s then rest else []
  wire (pass (room n) now ∷ is) s =
      let rest = wire is (send_some n now s) in
      if goes_on fp max s then sent_bytes n s ++ rest else []

abbrev pub IsP : ℕ → Type 0
IsP b = b ≡ b'P'

replicate-IsP : (n : ℕ) → All IsP (replicate n b'P')
replicate-IsP zero = tt
replicate-IsP (suc n) = (refl, replicate-IsP n)

take-IsP : (n : ℕ) (xs : List ℕ) → All IsP xs → All IsP (take n xs)
take-IsP zero xs h = tt
take-IsP (suc n) [] h = tt
take-IsP (suc n) (x ∷ xs) (p, h) = (p, take-IsP n xs h)

drop-IsP : (n : ℕ) (xs : List ℕ) → All IsP xs → All IsP (drop n xs)
drop-IsP zero xs h = h
drop-IsP (suc n) [] h = tt
drop-IsP (suc n) (x ∷ xs) (p, h) = drop-IsP n xs h

length-take-drop : (n m : ℕ) (xs : List ℕ) → n + m ≤ length xs → length (take n (drop m xs)) ≡ n
length-take-drop zero zero xs h = refl
length-take-drop zero (suc m) xs h = refl
length-take-drop (suc n) zero [] h = absurd (omega arith)
length-take-drop (suc n) zero (x ∷ xs) h = omega (arith, length-take-drop n 0 xs (omega arith))
length-take-drop n (suc m) [] h = absurd (omega arith)
length-take-drop n (suc m) (x ∷ xs) h = length-take-drop n m xs (omega arith)

module _ {D : Type 0} where
  length-sent_bytes : (n : ℕ) (s : Sender D) → IsExact s → length (sent_bytes n s) ≡ taken n s
  length-sent_bytes n s h =
      let all : length msg_buffer ≡ 1024 = refl in
      length-take-drop (taken n s) s.offset msg_buffer (ground (arith, h.split, all))

  sent_bytes-IsP : (n : ℕ) (s : Sender D) → All IsP (sent_bytes n s)
  sent_bytes-IsP n s =
      take-IsP (taken n s) (drop s.offset msg_buffer)
        (drop-IsP s.offset msg_buffer (replicate-IsP buffer_size))

  send_some-total :
      (n : ℕ) (now : D) (s : Sender D)
      → IsExact s
      → (send_some n now s).total_bytes_sent ≡ u64 (s.total_bytes_sent + taken n s)
  unfolding send_some count_sent read_clock
  send_some-total zero now s h = ground (arith, h.bytes, h.some_left)
  send_some-total (suc n) now s h = ground arith

module _ {D : Type 0} (fp : FloatOps D) (max : ℕ) where
  wire-counted :
      (is : List (Input D)) (s : Sender D)
      → IsExact s
      → All IsP (wire fp max is s)
        × ((send_all fp max is s).total_bytes_sent
            ≡ u64 (s.total_bytes_sent + length (wire fp max is s)))
  unfolding wire send_all
  wire-counted [] s h = (tt, ground (arith, h.bytes))
  wire-counted (signal ∷ is) s h =
      wire-counted is (record s { running = false })
        (record { bytes = h.bytes; split = h.split; some_left = h.some_left; same = h.same })
  wire-counted (pass failed now ∷ is) s h = (tt, ground (arith, h.bytes))
  wire-counted (pass would_block now ∷ is) s h = elim (Bool-cases (goes_on fp max s)) [
    | inl on ↦ rw on (wire-counted is s h)
    | inr off ↦ rw off (tt, ground (arith, h.bytes))
  ]
  wire-counted (pass (room n) now ∷ is) s h = elim (Bool-cases (goes_on fp max s)) [
    | inl on ↦
        let next = send_some n now s in
        let (all_p, total) = wire-counted is next (send_some-IsExact n now s h) in
        rw on (
          All-append IsP (sent_bytes n s) (wire fp max is next) (sent_bytes-IsP n s) all_p,
          omega (
            arith,
            total,
            send_some-total n now s h,
            length-sent_bytes n s h,
            length-append (sent_bytes n s) (wire fp max is next),
          ),
        )
    | inr off ↦ rw off (tt, ground (arith, h.bytes))
  ]

  -- In any run all bytes sent are 'P', and the counter of bytes is their number modulo 2^64.
  pub bytes_counted :
      (is : List (Input D))
      → All IsP (wire fp max is (init fp))
        × ((send_all fp max is (init fp)).total_bytes_sent
            ≡ u64 (length (wire fp max is (init fp))))
  unfolding init
  bytes_counted is =
      let (all_p, total) =
        wire-counted is (init fp)
          (record { bytes = refl; split = refl; some_left = omega arith; same = refl }) in
      (all_p, omega (arith, total))
