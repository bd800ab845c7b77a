-- ===== src/StatsServer/Bytes.antt =====
-- server_epx3.c: the byte totals over one `recv`, whatever slot its descriptor is in.
use rnd.Common.{
  ℕ, ◌+◌, Bool, true, false, not, ◌&&◌, ◌||◌, List, ◌≡◌, arith, ltb, ◌==◌, if◌then◌else◌, length,
}
use rnd.Common.Word.{u64}
use rnd.Common.Time.{Timeval}
use rnd.StatsServer.State.{Server, max_non_persistent}
use rnd.StatsServer.Receive.{is_fd, is_some, first_byte, receive}

abbrev pub total_bytes : {D : Type 0} → Server D → ℕ
total_bytes s = u64 (s.totals.all_per_bytes + s.totals.all_nonper_bytes)

-- The data is the persistent slot's, and does not begin with 'P'.
abbrev pub is_misplaced : {D : Type 0} → ℕ → List ℕ → Server D → Bool
is_misplaced fd bs s = is_fd s.persistent_fd fd && not (first_byte bs == b'P')

module _ {D : Type 0} (fd : ℕ) (bs : List ℕ) (t u : Timeval) (s : Server D) where
  -- Unless it came to the persistent slot without a leading 'P', data in a slot adds its length
  -- once to the sum of the byte totals modulo 2^64, data of any other descriptor adds nothing,
  -- and neither the slots nor the calls change.
  pub receive-total_bytes :
      is_misplaced fd bs s ≡ false
      → (total_bytes (receive fd bs t u s)
          ≡ u64 (
              total_bytes s
              + (if is_fd s.persistent_fd fd || is_fd s.non_persistent_fd fd
                  then length bs
                  else 0)))
        × ((receive fd bs t u s).calls ≡ s.calls)
        × ((receive fd bs t u s).persistent_fd ≡ s.persistent_fd)
        × ((receive fd bs t u s).non_persistent_fd ≡ s.non_persistent_fd)
  unfolding receive
  receive-total_bytes h = (ground arith, ground arith, ground arith, ground arith)

  pub receive-stranger :
      is_fd s.persistent_fd fd ≡ false
      → is_fd s.non_persistent_fd fd ≡ false
      → receive fd bs t u s ≡ s
  unfolding receive
  receive-stranger h g = ground arith

  -- Data in the persistent slot without a leading 'P' adds the bytes read before, which are in
  -- the other total already: together with the new ones if the non-persistent slot is free,
  -- without them if the connection is queued; if it is turned away nothing is added.
  pub receive-misplaced :
      is_misplaced fd bs s ≡ true
      → is_fd s.non_persistent_fd fd ≡ false
      → total_bytes (receive fd bs t u s)
        ≡ u64 (
            total_bytes s
            + (if not (is_some s.non_persistent_fd)
                then s.session.per_bytes_read + length bs
                else if ltb s.queue_count max_non_persistent
                then s.session.per_bytes_read
                else 0))
  unfolding receive
  receive-misplaced h g = ground arith
