-- ===== src/SequenceServer/RoundTrip.antt =====
-- exp1/client_final.c and exp1/server_final.c: the server reads the number that the client printed.
use rnd.Common.{
  ℕ, zero, suc, ◌+◌, ◌-◌, ◌*◌, ◌/◌, ◌%◌, ◌<◌, Bool, true, false, not, some, List, [], ◌∷◌, ◌++◌,
  ◌≡◌, ◌≢◌, refl, ◌==◌, ap, subst, sym, false, ◌∙◌, arith, All, All-append, ltb, ltb→lt, if_rule,
  Bool-cases, inl, inr,
}
use mathlib.Core.List.{append-nil}
use rnd.Common.Int.{pos}
use rnd.Common.Lines.{IsPart}
use rnd.Common.Text.{c_string}
use rnd.SequenceServer.Text.{
  is_digit, is_space, skip_spaces, scan_digits, scan_unsigned, scan_signed, scan_int, scan_literal,
  tcp, packet, scan_packet, print_digits, print_int, message,
}

abbrev IsDigit : ℕ → Type 0
IsDigit c = is_digit c ≡ true

-- The number that digits stand for, after `acc`.
abbrev value : ℕ → List ℕ → ℕ
value acc [] = acc
value acc (c ∷ cs) = value (acc * 10 + (c - b'0')) cs

value-append : (acc : ℕ) (xs ys : List ℕ) → value acc (xs ++ ys) ≡ value (value acc xs) ys
value-append acc [] ys = refl
value-append acc (x ∷ xs) ys = value-append (acc * 10 + (x - b'0')) xs ys

-- No digit follows.
abbrev pub ends : List ℕ → Bool
ends [] = true
ends (c ∷ cs) = not (is_digit c)

scan_digits-append :
    (acc : ℕ) (xs ys : List ℕ)
    → All IsDigit xs
    → ends ys ≡ true
    → scan_digits acc (xs ++ ys) ≡ (value acc xs, ys)
unfolding scan_digits
scan_digits-append acc [] [] h e = refl
scan_digits-append acc [] (y ∷ ys) h e = ground arith
scan_digits-append acc (x ∷ xs) ys h e =
    ground (arith, scan_digits-append (acc * 10 + (x - b'0')) xs ys h.1 e)

-- The digit that stands for the remainder by ten.
abbrev last : ℕ → List ℕ
last n = (b'0' + n % 10) ∷ []

last-IsDigit : (n : ℕ) → All IsDigit (last n)
last-IsDigit n = (ground arith, tt)

print_digits-IsDigit : (f n : ℕ) → All IsDigit (print_digits f n)
unfolding print_digits
print_digits-IsDigit zero n = tt
print_digits-IsDigit (suc f) n = if_rule (All IsDigit) (ltb n 10) (last-IsDigit n) (
    All-append IsDigit (print_digits f (n / 10)) (last n) (print_digits-IsDigit f (n / 10))
      (last-IsDigit n))

print_digits-value : (f n : ℕ) → n < f → value 0 (print_digits f n) ≡ n
unfolding print_digits
print_digits-value zero n h = absurd (omega arith)
print_digits-value (suc f) n h = elim (Bool-cases (ltb n 10)) [
  | inl small ↦ rw small (omega (arith, ltb→lt n 10 small))
  | inr big ↦
      let tens = print_digits-value f (n / 10) (ground arith) in
      rw (big, value-append 0 (print_digits f (n / 10)) (last n), tens) (omega arith)
]

∷-≢ : {A : Type 0} {x : A} {xs : List A} → (x ∷ xs) ≢ []
∷-≢ e = ground arith

append-last : {A : Type 0} (xs : List A) (a : A) → (xs ++ (a ∷ [])) ≢ []
append-last [] a = ∷-≢
append-last (x ∷ xs) a = ∷-≢

print_digits-nonempty : (f n : ℕ) → print_digits (suc f) n ≢ []
unfolding print_digits
print_digits-nonempty f n =
    if_rule (λ xs. xs ≢ []) (ltb n 10) (append-last [] (b'0' + n % 10))
      (append-last (print_digits f (n / 10)) (b'0' + n % 10))

-- A printed number begins with a digit.
print_int-head : (n : ℕ) → (c : ℕ) × (cs : List ℕ) × (print_int n ≡ c ∷ cs) × (is_digit c ≡ true)
unfolding print_int
print_int-head n = go (print_digits (suc n) n) refl (print_digits-IsDigit (suc n) n)
  where
    go :
        (xs : List ℕ)
        → print_digits (suc n) n ≡ xs
        → All IsDigit xs
        → (c : ℕ) × (cs : List ℕ) × (print_digits (suc n) n ≡ c ∷ cs) × (is_digit c ≡ true)
    go [] e h = absurd (print_digits-nonempty n n e)
    go (c ∷ cs) e h = (c, cs, e, h.0)

print_int-value : (n : ℕ) → value 0 (print_int n) ≡ n
unfolding print_int
print_int-value n = print_digits-value (suc n) n (omega arith)

print_int-IsDigit : (n : ℕ) → All IsDigit (print_int n)
unfolding print_int
print_int-IsDigit n = print_digits-IsDigit (suc n) n

digit_not_space : (c : ℕ) → is_digit c ≡ true → is_space c ≡ false
digit_not_space c h = ground arith

scan_signed-digit :
    (c : ℕ) (cs : List ℕ)
    → is_digit c ≡ true
    → scan_signed (c ∷ cs) ≡ some (pos (scan_digits 0 (c ∷ cs)).0, (scan_digits 0 (c ∷ cs)).1)
unfolding scan_signed scan_unsigned
scan_signed-digit c cs h = ground arith

scan_int-digit :
    (c : ℕ) (cs rest : List ℕ)
    → All IsDigit (c ∷ cs)
    → ends rest ≡ true
    → scan_int (c ∷ cs ++ rest) ≡ some (pos (value 0 (c ∷ cs)), rest)
unfolding scan_int skip_spaces
scan_int-digit c cs rest h e =
    rw
      (
        digit_not_space c h.0,
        scan_signed-digit c (cs ++ rest) h.0,
        scan_digits-append 0 (c ∷ cs) rest h e,
      )
      refl

pub scan_int-print_int :
    (n : ℕ) (rest : List ℕ) → ends rest ≡ true → scan_int (print_int n ++ rest) ≡ some (pos n, rest)
scan_int-print_int n rest e =
    let (c, cs, shown, digit) = print_int-head n in
    let scanned = scan_int-digit c cs rest (subst (All IsDigit) shown (print_int-IsDigit n)) e in
    rw (shown, scanned)
      (ap (λ v. some (pos v, rest)) (ap (value 0) (sym shown) ∙ print_int-value n))

scan_literal-append : (fs rest : List ℕ) → scan_literal fs (fs ++ rest) ≡ some rest
unfolding scan_literal
scan_literal-append [] rest = refl
scan_literal-append (f ∷ fs) rest = ground (arith, scan_literal-append fs rest)

-- No NUL and no newline.
abbrev pub IsText : ℕ → Type 0
IsText c = ((c == 0) ≡ false) × ((c == b'\n') ≡ false)

pub c_string-text : (cs : List ℕ) → All IsText cs → c_string cs ≡ cs
unfolding c_string
c_string-text [] h = refl
c_string-text (c ∷ cs) h = rw (h.0.0, c_string-text cs h.1) refl

digits-IsText : (cs : List ℕ) → All IsDigit cs → All IsText cs
digits-IsText [] h = tt
digits-IsText (c ∷ cs) h = ((ground arith, ground arith), digits-IsText cs h.1)

pub print_int-IsText : (n : ℕ) → All IsText (print_int n)
print_int-IsText n = digits-IsText (print_int n) (print_int-IsDigit n)

-- What follows the first number.
abbrev tail : ℕ → List ℕ
tail id = 32 ∷ b'|' ∷ 32 ∷ packet ++ print_int id

separator-IsText : All IsText (32 ∷ b'|' ∷ 32 ∷ packet)
separator-IsText = (
  (refl, refl),
  (
    (refl, refl),
    (
      (refl, refl),
      (
        (refl, refl),
        (
          (refl, refl),
          ((refl, refl), ((refl, refl), ((refl, refl), ((refl, refl), ((refl, refl), tt))))),
        ),
      ),
    ),
  ),
)

tail-IsText : (id : ℕ) → All IsText (tail id)
tail-IsText id =
    All-append IsText (32 ∷ b'|' ∷ 32 ∷ packet) (print_int id) separator-IsText
      (print_int-IsText id)

message-IsText : (conn_id id : ℕ) → All IsText (message conn_id id)
unfolding message
message-IsText conn_id id =
    All-append IsText tcp (print_int conn_id ++ tail id)
      ((refl, refl), ((refl, refl), ((refl, refl), ((refl, refl), tt))))
      (All-append IsText (print_int conn_id) (tail id) (print_int-IsText conn_id) (tail-IsText id))

pub text-IsPart : (cs : List ℕ) → All IsText cs → All IsPart cs
text-IsPart [] h = tt
text-IsPart (c ∷ cs) h = (h.0.1, text-IsPart cs h.1)

pub message-IsPart : (conn_id id : ℕ) → All IsPart (message conn_id id)
message-IsPart conn_id id = text-IsPart (message conn_id id) (message-IsText conn_id id)

-- The server's `sscanf` reads from a client's message the packet number that `sprintf` has
-- printed.
pub scan_packet-message : (conn_id id : ℕ) → scan_packet (message conn_id id) ≡ some (pos id)
unfolding scan_packet message skip_spaces
scan_packet-message conn_id id =
    rw
      (
        c_string-text (message conn_id id) (message-IsText conn_id id),
        scan_literal-append tcp (print_int conn_id ++ tail id),
        scan_int-print_int conn_id (tail id) refl,
        scan_literal-append (b'|' ∷ []) (32 ∷ packet ++ print_int id),
        scan_literal-append packet (print_int id),
        sym (append-nil (print_int id)),
        scan_int-print_int id [] refl,
      )
      refl
