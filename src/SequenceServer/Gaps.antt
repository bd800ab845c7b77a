-- ===== src/SequenceServer/Gaps.antt =====
-- exp1/server_final.c: what the tracker has noted after any sequence of packet numbers.
use rnd.Common.{
  ℕ, zero, suc, ◌+◌, ◌-◌, ◌≤◌, ◌<◌, List, [], ◌∷◌, ◌++◌, ◌≡◌, refl, ltb, ◌==◌, if◌then◌else◌,
  length, length-append, arith, ◌∙◌, lt→ltb,
}
use rnd.SequenceServer.Tracker.{Tracker, start, note, note_gap, track, max_out_of_order}

-- The numbers of a stream, in the order in which they come.
unfoldable pub track_all : List ℕ → Tracker → Tracker
track_all [] t = t
track_all (p ∷ ps) t = track_all ps (track p t)

pub track_all-append :
    (xs ys : List ℕ) (t : Tracker) → track_all (xs ++ ys) t ≡ track_all ys (track_all xs t)
unfolding track_all
track_all-append [] ys t = refl
track_all-append (x ∷ xs) ys t = track_all-append xs ys (track x t)

abbrev pub max_of : List ℕ → ℕ
max_of [] = 0
max_of (p ∷ ps) = let m = max_of ps in if ltb m p then p else m

-- The numbers that are higher than every number before them, from `e` on.
abbrev pub new_highs : ℕ → List ℕ → List ℕ
new_highs e [] = []
new_highs e (p ∷ ps) =
    let skip = new_highs e ps in
    let keep = p ∷ new_highs (p + 1) ps in if ltb p e then skip else keep

abbrev pub count : ℕ → List ℕ → ℕ
count a [] = 0
count a (x ∷ xs) = (if x == a then 1 else 0) + count a xs

count-append : (a : ℕ) (old new : List ℕ) → count a (old ++ new) ≡ count a old + count a new
count-append a [] new = omega arith
count-append a (i ∷ is) new = omega (arith, count-append a is new)

-- 1 if `lo ≤ a < hi`.
abbrev pub between : ℕ → ℕ → ℕ → ℕ
between lo hi a = if ltb a lo then 0 else if ltb a hi then 1 else 0

-- There is room for one more entry.
count-note :
    (i a : ℕ) (t : Tracker)
    → length t.out_of_order < max_out_of_order
    → (count a (note i t).out_of_order ≡ count a t.out_of_order + (if i == a then 1 else 0))
      × (length (note i t).out_of_order ≡ length t.out_of_order + 1)
unfolding note
count-note i a t h = rw (lt→ltb _ _ h) (
  count-append a t.out_of_order (i ∷ []) ∙ omega arith,
  length-append t.out_of_order (i ∷ []) ∙ omega arith,
)

-- The loop notes each number of the gap once, while there is room.
count-note_gap :
    (n lo a : ℕ) (t : Tracker)
    → length t.out_of_order + n ≤ max_out_of_order
    → (count a (note_gap n lo t).out_of_order ≡ count a t.out_of_order + between lo (lo + n) a)
      × (length (note_gap n lo t).out_of_order ≡ length t.out_of_order + n)
unfolding note_gap
count-note_gap zero lo a t h = (ground arith, omega arith)
count-note_gap (suc n) lo a t h =
    let (c, l) = count-note lo a t (omega arith) in
    let (c', l') = count-note_gap n (lo + 1) a (note lo t) (omega arith) in
    (ground arith, omega arith)

abbrev pub is_high : ℕ → ℕ → ℕ → ℕ
is_high e p a = if ltb p e then 0 else if p == a then 1 else 0

abbrev pub next_expected : ℕ → ℕ → ℕ
next_expected e p = if ltb p e then e else p + 1

track_step :
    (p a : ℕ) (t : Tracker)
    → p ≤ max_out_of_order
    → length t.out_of_order < t.global_expected_seq
    → ((track p t).global_expected_seq ≡ next_expected t.global_expected_seq p)
      × (length (track p t).out_of_order < (track p t).global_expected_seq)
      × (count a (track p t).out_of_order + is_high t.global_expected_seq p a
          ≡ count a t.out_of_order
            + between t.global_expected_seq (next_expected t.global_expected_seq p) a)
unfolding track
track_step p a t h room =
    let e = t.global_expected_seq in
    (
      ground arith,
      ground (arith, count-note_gap (p - e) e a t),
      ground (arith, count-note_gap (p - e) e a t),
    )

partition_from :
    (ps : List ℕ) (a : ℕ) (t : Tracker)
    → max_of ps ≤ max_out_of_order
    → length t.out_of_order < t.global_expected_seq
    → (t.global_expected_seq ≤ (track_all ps t).global_expected_seq)
      × (count a (track_all ps t).out_of_order + count a (new_highs t.global_expected_seq ps)
          ≡ count a t.out_of_order
            + between t.global_expected_seq (track_all ps t).global_expected_seq a)
unfolding track_all
partition_from [] a t h room = (omega arith, ground arith)
partition_from (p ∷ ps) a t h room =
    let (e, room', c) = track_step p a t (ground arith) room in
    let (e', c') = partition_from ps a (track p t) (ground arith) room' in
    (ground arith, ground arith)

-- If no number of the stream is above MAX_OUT_OF_ORDER, each number from 1 to below the one
-- expected has either been noted once or been a new maximum when it came once, and no other
-- number has.
pub gaps_partition :
    (ps : List ℕ) (a : ℕ)
    → max_of ps ≤ max_out_of_order
    → count a (track_all ps start).out_of_order + count a (new_highs 1 ps)
      ≡ between 1 (track_all ps start).global_expected_seq a
unfolding start
gaps_partition ps a h = omega (arith, (partition_from ps a start h (omega arith)).1)

track-expected :
    (p : ℕ) (t : Tracker) → (track p t).global_expected_seq ≡ next_expected t.global_expected_seq p
unfolding track
track-expected p t = ground arith

expected_from :
    (ps : List ℕ) (t : Tracker)
    → 0 < t.global_expected_seq
    → (track_all ps t).global_expected_seq ≡ next_expected t.global_expected_seq (max_of ps)
unfolding track_all
expected_from [] t h = ground arith
expected_from (p ∷ ps) t h =
    let e = track-expected p t in
    let ih = expected_from ps (track p t) (ground arith) in ground arith

length-note :
    (i : ℕ) (t : Tracker)
    → length t.out_of_order ≤ max_out_of_order
    → length (note i t).out_of_order ≤ max_out_of_order
unfolding note
length-note i t h = ground (arith, length-append t.out_of_order (i ∷ []))

length-note_gap :
    (n lo : ℕ) (t : Tracker)
    → length t.out_of_order ≤ max_out_of_order
    → length (note_gap n lo t).out_of_order ≤ max_out_of_order
unfolding note_gap
length-note_gap zero lo t h = h
length-note_gap (suc n) lo t h = length-note_gap n (lo + 1) (note lo t) (length-note lo t h)

track-fits :
    (p : ℕ) (t : Tracker)
    → length t.out_of_order ≤ max_out_of_order
    → length (track p t).out_of_order ≤ max_out_of_order
unfolding track
track-fits p t h = let e = t.global_expected_seq in ground (arith, length-note_gap (p - e) e t)

track_all-fits :
    (ps : List ℕ) (t : Tracker)
    → length t.out_of_order ≤ max_out_of_order
    → length (track_all ps t).out_of_order ≤ max_out_of_order
unfolding track_all
track_all-fits [] t h = h
track_all-fits (p ∷ ps) t h = track_all-fits ps (track p t) (track-fits p t h)

-- After any stream the number expected is one more than the greatest number seen, and no more
-- than MAX_OUT_OF_ORDER numbers are noted.
pub expected_and_room :
    (ps : List ℕ)
    → ((track_all ps start).global_expected_seq ≡ max_of ps + 1)
      × (length (track_all ps start).out_of_order ≤ max_out_of_order)
unfolding start
expected_and_room ps =
    (expected_from ps start (omega arith) ∙ ground arith, track_all-fits ps start (omega arith))
