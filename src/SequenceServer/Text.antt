-- ===== src/SequenceServer/Text.antt =====
-- exp1/server_final.c, line 63, and exp1/client_final.c, line 39: the text of a packet, as bytes.
-- `sscanf` and `sprintf` are modelled for the formats that are used; an `int` out of range is not.
use rnd.Common.{
  ℕ, zero, suc, ◌+◌, ◌-◌, ◌*◌, ◌/◌, ◌%◌, Bool, ◌&&◌, ◌||◌, Option, none, some, List, [], ◌∷◌, ◌++◌,
  leb, ltb, ◌==◌, if◌then◌else◌,
}
use rnd.Common.Text.{c_string}
use rnd.Common.Int.{ℤ, pos, sub_ℕ}

infixl 5 ◌>>=◌
abbrev pub ◌>>=◌ {ℓ κ} : {A : Type ℓ} {B : Type κ} → Option A → (A → Option B) → Option B
none >>= f = none
some a >>= f = f a

abbrev pub is_digit : ℕ → Bool
is_digit c = leb b'0' c && leb c b'9'

-- `isspace`.
abbrev pub is_space : ℕ → Bool
is_space c = c == 32 || leb 9 c && leb c 13

unfoldable pub skip_spaces : List ℕ → List ℕ
skip_spaces [] = []
skip_spaces (c ∷ cs) = if is_space c then skip_spaces cs else c ∷ cs

-- The digits at the front, as a number, and what follows them.
unfoldable pub scan_digits : ℕ → List ℕ → ℕ × List ℕ
scan_digits acc [] = (acc, [])
scan_digits acc (c ∷ cs) =
    let rest = scan_digits (acc * 10 + (c - b'0')) cs in if is_digit c then rest else (acc, c ∷ cs)

-- One digit at least.
unfoldable pub scan_unsigned : List ℕ → Option (ℕ × List ℕ)
scan_unsigned [] = none
scan_unsigned (c ∷ cs) = if is_digit c then some (scan_digits 0 (c ∷ cs)) else none

unfoldable pub scan_signed : List ℕ → Option (ℤ × List ℕ)
scan_signed [] = none
scan_signed (c ∷ cs) =
    if c == b'-'
    then (scan_unsigned cs >>= λ (n, r). some (sub_ℕ 0 n, r))
    else if c == b'+'
    then (scan_unsigned cs >>= λ (n, r). some (pos n, r))
    else (scan_unsigned (c ∷ cs) >>= λ (n, r). some (pos n, r))

-- `%d`.
unfoldable pub scan_int : List ℕ → Option (ℤ × List ℕ)
scan_int cs = scan_signed (skip_spaces cs)

-- Characters of the format that stand for themselves.
unfoldable pub scan_literal : List ℕ → List ℕ → Option (List ℕ)
scan_literal [] cs = some cs
scan_literal (f ∷ fs) [] = none
scan_literal (f ∷ fs) (c ∷ cs) = if f == c then scan_literal fs cs else none

abbrev pub tcp : List ℕ
tcp = b'T' ∷ b'C' ∷ b'P' ∷ b':' ∷ []

abbrev pub packet : List ℕ
packet = b'P' ∷ b'A' ∷ b'C' ∷ b'K' ∷ b'E' ∷ b'T' ∷ b':' ∷ []

-- `sscanf(line, "TCP:%*d | PACKET:%d", &packet_seq)`, where it returns 1.
unfoldable pub scan_packet : List ℕ → Option ℤ
scan_packet line = do
  a ← scan_literal tcp (c_string line)
  (conn, b) ← scan_int a
  c ← scan_literal (b'|' ∷ []) (skip_spaces b)
  d ← scan_literal packet (skip_spaces c)
  (packet_seq, e) ← scan_int d
  some packet_seq

-- `%d` of a number that is not negative; the fuel is one more than the number of digits needed.
unfoldable pub print_digits : ℕ → ℕ → List ℕ
print_digits zero n = []
print_digits (suc f) n =
    let last = (b'0' + n % 10) ∷ [] in if ltb n 10 then last else print_digits f (n / 10) ++ last

unfoldable pub print_int : ℕ → List ℕ
print_int n = print_digits (suc n) n

-- `sprintf(msg, "TCP:%d | PACKET:%d\n", conn_id, id)`, without its newline.
unfoldable pub message : ℕ → ℕ → List ℕ
message conn_id id = tcp ++ (print_int conn_id ++ (32 ∷ b'|' ∷ 32 ∷ packet ++ print_int id))
