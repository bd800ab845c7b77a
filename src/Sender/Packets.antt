-- ===== src/Sender/Packets.antt =====
-- per.c: the counters of bytes and of packets.
use rnd.Common.{
  ℕ, zero, suc, ◌+◌, ◌*◌, ◌%◌, ◌≤◌, ◌<◌, false, List, [], ◌∷◌, ◌≡◌, refl, arith, ◌==◌, if_rule,
}
use rnd.Common.Word.{u64}
use rnd.Common.Float.{FloatOps}
use rnd.Sender.State.{
  buffer_size, Sender, room, would_block, failed, Input, signal, pass, init, count_sent, read_clock,
  taken, send_some, goes_on, send_all,
}

-- The bytes are those of the whole packets and of the part of one that has been sent.
pub record IsExact {D : Type 0} (s : Sender D) : Type 0 where
  pub bytes : s.total_bytes_sent ≡ u64 (buffer_size * s.total_msgs_sent + s.offset)
  pub split : s.offset + s.bytes_to_send ≡ buffer_size
  pub some_left : 0 < s.bytes_to_send
  pub same : s.total_packets_sent ≡ s.total_msgs_sent

module _ {D : Type 0} where
  count_sent-IsExact :
      (n : ℕ) (s : Sender D) → n ≤ s.bytes_to_send → IsExact s → IsExact (count_sent n s)
  unfolding count_sent
  count_sent-IsExact n s fits h = record {
    bytes = ground (arith, h.bytes, h.split);
    split = ground (arith, h.split);
    some_left = ground arith;
    same = ground (arith, h.same);
  }

  read_clock-IsExact : (now : D) (s : Sender D) → IsExact s → IsExact (read_clock now s)
  unfolding read_clock
  read_clock-IsExact now s h =
      if_rule IsExact (s.total_msgs_sent % 100 == 0)
        (record { bytes = h.bytes; split = h.split; some_left = h.some_left; same = h.same }) h

  pub send_some-IsExact : (n : ℕ) (now : D) (s : Sender D) → IsExact s → IsExact (send_some n now s)
  unfolding send_some
  send_some-IsExact zero now s h = read_clock-IsExact now s h
  send_some-IsExact (suc n) now s h =
      read_clock-IsExact now (count_sent (taken (suc n) s) s)
        (count_sent-IsExact (taken (suc n) s) s (ground arith) h)

module _ {D : Type 0} (fp : FloatOps D) (max : ℕ) where
  send_all-IsExact :
      (is : List (Input D)) (s : Sender D) → IsExact s → IsExact (send_all fp max is s)
  unfolding send_all
  send_all-IsExact [] s h = h
  send_all-IsExact (signal ∷ is) s h =
      send_all-IsExact is (record s { running = false })
        (record { bytes = h.bytes; split = h.split; some_left = h.some_left; same = h.same })
  send_all-IsExact (pass failed now ∷ is) s h = h
  send_all-IsExact (pass would_block now ∷ is) s h =
      if_rule IsExact (goes_on fp max s) (send_all-IsExact is s h) h
  send_all-IsExact (pass (room n) now ∷ is) s h =
      if_rule IsExact (goes_on fp max s)
        (send_all-IsExact is (send_some n now s) (send_some-IsExact n now s h)) h

  -- After any run the bytes counted are those of the packets counted and of the part sent of the
  -- next one, modulo 2^64; the part and the rest make up one packet, and the rest is not empty.
  pub sent_exactly : (is : List (Input D)) → IsExact (send_all fp max is (init fp))
  unfolding init
  sent_exactly is =
      send_all-IsExact is (init fp)
        (record { bytes = refl; split = refl; some_left = omega arith; same = refl })
