-- ===== src/LogServer/Chunks.antt =====
-- exp1/server6.c: the log does not depend on how the stream is cut into pieces.
use rnd.Common.{
  ℕ, zero, suc, ◌+◌, ◌≤◌, take, Option, none, some, All, Bool-cases, inl, inr, ◌==◌, List, [], ◌∷◌,
  ◌++◌, ◌≡◌, refl, sym, ap, ◌∙◌, length, arith, map, length-append,
}
use mathlib.Core.List.{append_assoc, append-nil}
use rnd.Common.Lines.{
  each_line-lines, complete_lines, last_part, over_lines, complete_lines-append, last_part-append,
  complete_lines-prefix, last_part-IsPart,
}
use rnd.EventLoop.State.{Recv, received}
use rnd.LogServer.State.{
  buffer_size, Connection, Entry, room, recv_into, log_line, append_data, handle_received,
  handle_connection, handle_all,
}
use rnd.Common.Text.{c_string}

-- The entries of lines, numbered from `n + 1`, each up to its first NUL.
abbrev pub entries : ℕ → ℕ → List (List ℕ) → List Entry
entries conn n [] = []
entries conn n (line ∷ ls) =
    record { conn = conn; pkt = n + 1; content = c_string line } ∷ entries conn (n + 1) ls

over_lines-log_line :
    (conn n : ℕ) (ls : List (List ℕ)) (output : List Entry)
    → over_lines (log_line conn) ls (n, output) ≡ (n + length ls, output ++ entries conn n ls)
unfolding log_line
over_lines-log_line conn n [] output = rw (append-nil output) (ap (λ m. (m, output)) (omega arith))
over_lines-log_line conn n (line ∷ ls) output =
    over_lines-log_line conn (n + 1) ls
      (output ++ record { conn = conn; pkt = n + 1; content = c_string line } ∷ [])
    ∙ rw
        (append_assoc output (record { conn = conn; pkt = n + 1; content = c_string line } ∷ [])
          (entries conn (n + 1) ls))
        (ap (λ m. (m, output ++ entries conn n (line ∷ ls))) (omega arith))

-- The connection after bytes, and the entries that they add.
abbrev pub after : Connection → List ℕ → Connection
after c bytes = record c {
  buffer = last_part [] (c.buffer ++ bytes);
  packet_count = c.packet_count + length (complete_lines [] (c.buffer ++ bytes));
}

abbrev pub logged : Connection → List ℕ → List Entry
logged c bytes = entries c.fd c.packet_count (complete_lines [] (c.buffer ++ bytes))

pub append_data-lines :
    (bytes : List ℕ) (c : Connection) (output : List Entry)
    → append_data bytes (c, output) ≡ (after c bytes, output ++ logged c bytes)
unfolding append_data
append_data-lines bytes c output =
    let all = c.buffer ++ bytes in
    let read =
      each_line-lines (log_line c.fd) (length all + 1) all (c.packet_count, output) (omega arith) in
    rw (read, over_lines-log_line c.fd c.packet_count (complete_lines [] all) output) refl

entries-append :
    (conn n : ℕ) (xs ys : List (List ℕ))
    → entries conn n (xs ++ ys) ≡ entries conn n xs ++ entries conn (n + length xs) ys
entries-append conn n [] ys = ap (λ m. entries conn m ys) (omega arith)
entries-append conn n (x ∷ xs) ys =
    ap (λ es. record { conn = conn; pkt = n + 1; content = c_string x } ∷ es)
      (entries-append conn (n + 1) xs ys
        ∙ ap (λ m. entries conn (n + 1) xs ++ entries conn m ys) (omega arith))

-- The lines of two pieces, where the first one's partial line stays in the buffer.
two_pieces :
    (b x y : List ℕ)
    → (complete_lines [] (b ++ (x ++ y))
        ≡ complete_lines [] (b ++ x) ++ complete_lines [] (last_part [] (b ++ x) ++ y))
      × (last_part [] (b ++ (x ++ y)) ≡ last_part [] (last_part [] (b ++ x) ++ y))
two_pieces b x y =
    let part = last_part [] (b ++ x) in
    let (l, p) = complete_lines-prefix [] part y (last_part-IsPart [] (b ++ x) tt) in
    (
      ap (complete_lines []) (sym (append_assoc b x y))
          ∙ complete_lines-append [] (b ++ x) y
          ∙ ap (λ ls. complete_lines [] (b ++ x) ++ ls) (sym l),
      ap (last_part []) (sym (append_assoc b x y)) ∙ last_part-append [] (b ++ x) y ∙ sym p,
    )

pub after-append : (c : Connection) (x y : List ℕ) → after (after c x) y ≡ after c (x ++ y)
after-append c x y =
    let (lines, part) = two_pieces c.buffer x y in
    let first = complete_lines [] (c.buffer ++ x) in
    let second = complete_lines [] (last_part [] (c.buffer ++ x) ++ y) in
    sym (
      ap
        (λ b. record c {
          buffer = b;
          packet_count = c.packet_count + length (complete_lines [] (c.buffer ++ (x ++ y)));
        })
        part
      ∙ ap
          (λ n. record c {
            buffer = last_part [] (last_part [] (c.buffer ++ x) ++ y);
            packet_count = n;
          })
          (ap (λ ls. c.packet_count + length ls) lines ∙ omega (arith, length-append first second)))

pub logged-append :
    (c : Connection) (x y : List ℕ) → logged c (x ++ y) ≡ logged c x ++ logged (after c x) y
logged-append c x y =
    ap (entries c.fd c.packet_count) (two_pieces c.buffer x y).0
    ∙ entries-append c.fd c.packet_count (complete_lines [] (c.buffer ++ x))
        (complete_lines [] (last_part [] (c.buffer ++ x) ++ y))

abbrev pub concat : List (List ℕ) → List ℕ
concat [] = []
concat (x ∷ xs) = x ++ concat xs

-- A piece that `recv` takes whole.
abbrev pub Fits : Connection → List ℕ → Type 0
Fits c bytes = (1 ≤ length bytes) × (length bytes ≤ room c)

-- Each piece fits when it comes.
abbrev pub AllFit : Connection → List (List ℕ) → Type 0
AllFit c [] = Unit
AllFit c (x ∷ xs) = Fits c x × AllFit (after c x) xs

take-nil : (n : ℕ) → take {A = ℕ} n [] ≡ []
take-nil zero = refl
take-nil (suc n) = refl

take-whole : (n : ℕ) (xs : List ℕ) → length xs ≤ n → take n xs ≡ xs
take-whole n [] h = take-nil n
take-whole zero (x ∷ xs) h = absurd (omega arith)
take-whole (suc n) (x ∷ xs) h = ap (λ ys. x ∷ ys) (take-whole n xs (omega arith))

pub recv_into-whole :
    (c : Connection) (bytes : List ℕ) → Fits c bytes → recv_into c (received bytes) ≡ received bytes
unfolding recv_into
recv_into-whole c [] h = absurd (omega (arith, h.0))
recv_into-whole c (b ∷ bs) h = rw (take-whole (room c) (b ∷ bs) h.1, recv_into) refl

pub handle-whole :
    (x : List ℕ) (c : Connection) (output : List Entry)
    → Fits c x
    → handle_connection (received x) (c, output) ≡ (some (after c x), output ++ logged c x)
unfolding handle_connection handle_received
handle-whole x c output h =
    rw (recv_into-whole c x h, handle_received, append_data-lines x c output) refl

-- One piece that fits, and then the others.
handle_all-whole :
    (x : List ℕ) (rs : List Recv) (c : Connection) (output : List Entry)
    → Fits c x
    → handle_all (received x ∷ rs) (c, output) ≡ handle_all rs (after c x, output ++ logged c x)
unfolding handle_all
handle_all-whole x rs c output h =
    ap
      (λ (q : Option Connection × List Entry). elim q.0 [
        | none ↦ (none, q.1)
        | some d ↦ handle_all rs (d, q.1)
      ])
      (handle-whole x c output h)

length-last_part : (part xs : List ℕ) → length (last_part part xs) ≤ length part + length xs
length-last_part part [] = omega arith
length-last_part part (x ∷ xs) = elim (Bool-cases (x == b'\n')) [
  | inl end ↦ rw end (omega (arith, length-last_part [] xs))
  | inr more ↦
      rw more (omega (arith, length-last_part (part ++ x ∷ []) xs, length-append part (x ∷ [])))
]

-- Pieces that are not empty fit if all of them together do.
pub within-AllFit :
    (c : Connection) (ps : List (List ℕ))
    → All (λ x. 1 ≤ length x) ps
    → length c.buffer + length (concat ps) ≤ buffer_size
    → AllFit c ps
within-AllFit c [] h all = tt
within-AllFit c (x ∷ xs) (some_byte, h) all =
    let sum = length-append x (concat xs) in
    let part = length-last_part [] (c.buffer ++ x) in
    let held = length-append c.buffer x in
    (
      (some_byte, omega (arith, sum)),
      within-AllFit (after c x) xs h (omega (arith, sum, part, held)),
    )

-- If each piece of the data has a byte at least and fits the room that the buffer has when it
-- comes, the pieces leave the connection, its count, its partial line and the log as the whole
-- data would in an unbounded buffer: the complete lines, each up to its first NUL, numbered in
-- order, and the partial line kept.
pub handle_all-pieces :
    (x : List ℕ) (pieces : List (List ℕ)) (c : Connection) (output : List Entry)
    → AllFit c (x ∷ pieces)
    → handle_all (map received (x ∷ pieces)) (c, output)
      ≡ (some (after c (x ++ concat pieces)), output ++ logged c (x ++ concat pieces))
unfolding handle_all
handle_all-pieces x [] c output h = handle_all-whole x [] c output h.0 ∙ rw (append-nil x) refl
handle_all-pieces x (y ∷ ys) c output h =
    handle_all-whole x (map received (y ∷ ys)) c output h.0
    ∙ handle_all-pieces y ys (after c x) (output ++ logged c x) h.1
    ∙ ap (λ d. (some d, output ++ logged c x ++ logged (after c x) (y ++ concat ys)))
        (after-append c x (y ++ concat ys))
    ∙ ap (λ es. (some (after c (x ++ (y ++ concat ys))), es))
        (append_assoc output (logged c x) (logged (after c x) (y ++ concat ys))
          ∙ ap (λ es. output ++ es) (sym (logged-append c x (y ++ concat ys))))
