-- ===== src/Common/Lines.antt =====
-- The loop over the lines of a buffer that exp1/server6.c, lines 44-62, and exp1/server_final.c, lines
-- 54-90, have in common.
use Prim.Native.Nat.{ℕ, zero, suc, ◌<◌}
use mathlib.Core.Path.{◌≡◌, refl, sym, ap, ◌∙◌}
use mathlib.Core.Logic.{inl, inr}
use mathlib.Core.Bool.{false}
use mathlib.Core.List.{List, [], ◌∷◌, ◌++◌, append_assoc, append-nil}
use mathlib.Core.Option.{Option, none, some, map}
use native.Mathlib.Omega.{arith}
use rnd.Common.Tests.{◌==◌, if◌then◌else◌, Bool-cases}
use rnd.Common.Lists.{length, All, All-append}

-- `memchr` with a newline: what stands before the first one and what follows it.
unfoldable pub split_line : List ℕ → Option (List ℕ × List ℕ)
split_line [] = none
split_line (c ∷ cs) =
    if c == b'\n' then some ([], cs) else map (λ (line, rest). (c ∷ line, rest)) (split_line cs)

-- The body is applied to each line; what follows the last newline is left.
unfoldable pub each_line {ℓ} : {S : Type ℓ} → (List ℕ → S → S) → ℕ → List ℕ → S → S × List ℕ
each_line body zero bytes s = (s, bytes)
each_line body (suc f) bytes s = elim (split_line bytes) [
  | none ↦ (s, bytes)
  | some (line, rest) ↦ each_line body f rest (body line s)
]

-- The lines that bytes complete, after a partial line.
abbrev pub complete_lines : List ℕ → List ℕ → List (List ℕ)
complete_lines part [] = []
complete_lines part (c ∷ cs) =
    if c == b'\n' then part ∷ complete_lines [] cs else complete_lines (part ++ c ∷ []) cs

-- The partial line that is left.
abbrev pub last_part : List ℕ → List ℕ → List ℕ
last_part part [] = part
last_part part (c ∷ cs) = if c == b'\n' then last_part [] cs else last_part (part ++ c ∷ []) cs

abbrev pub over_lines {ℓ} : {S : Type ℓ} → (List ℕ → S → S) → List (List ℕ) → S → S
over_lines body [] s = s
over_lines body (line ∷ ls) s = over_lines body ls (body line s)

abbrev pub IsPart : ℕ → Type 0
IsPart c = (c == b'\n') ≡ false

pub complete_lines-append :
    (part xs ys : List ℕ)
    → complete_lines part (xs ++ ys)
      ≡ complete_lines part xs ++ complete_lines (last_part part xs) ys
complete_lines-append part [] ys = refl
complete_lines-append part (x ∷ xs) ys = elim (Bool-cases (x == b'\n')) [
  | inl end ↦ rw end (ap (λ ls. part ∷ ls) (complete_lines-append [] xs ys))
  | inr more ↦ rw more (complete_lines-append (part ++ x ∷ []) xs ys)
]

pub last_part-append :
    (part xs ys : List ℕ) → last_part part (xs ++ ys) ≡ last_part (last_part part xs) ys
last_part-append part [] ys = refl
last_part-append part (x ∷ xs) ys = elim (Bool-cases (x == b'\n')) [
  | inl end ↦ rw end (last_part-append [] xs ys)
  | inr more ↦ rw more (last_part-append (part ++ x ∷ []) xs ys)
]

-- A line that its newline completes.
pub complete_lines-part :
    (part xs ys : List ℕ)
    → All IsPart xs
    → complete_lines part (xs ++ b'\n' ∷ ys) ≡ (part ++ xs) ∷ complete_lines [] ys
complete_lines-part part [] ys h = ap (λ l. l ∷ complete_lines [] ys) (sym (append-nil part))
complete_lines-part part (x ∷ xs) ys h = rw h.0 (
    complete_lines-part (part ++ x ∷ []) xs ys h.1
    ∙ ap (λ l. l ∷ complete_lines [] ys) (append_assoc part (x ∷ []) xs))

-- Without a newline no line is complete.
pub complete_lines-none : (part xs : List ℕ) → All IsPart xs → complete_lines part xs ≡ []
complete_lines-none part [] h = refl
complete_lines-none part (x ∷ xs) h = rw h.0 (complete_lines-none (part ++ x ∷ []) xs h.1)

-- A partial line may stand before the bytes as well.
pub complete_lines-prefix :
    (q part ys : List ℕ)
    → All IsPart part
    → (complete_lines q (part ++ ys) ≡ complete_lines (q ++ part) ys)
      × (last_part q (part ++ ys) ≡ last_part (q ++ part) ys)
complete_lines-prefix q [] ys h = (
  ap (λ p. complete_lines p ys) (sym (append-nil q)),
  ap (λ p. last_part p ys) (sym (append-nil q)),
)
complete_lines-prefix q (x ∷ xs) ys h =
    let (a, b) = complete_lines-prefix (q ++ x ∷ []) xs ys h.1 in
    let e = append_assoc q (x ∷ []) xs in
    (rw h.0 (a ∙ ap (λ p. complete_lines p ys) e), rw h.0 (b ∙ ap (λ p. last_part p ys) e))

pub last_part-IsPart : (part xs : List ℕ) → All IsPart part → All IsPart (last_part part xs)
last_part-IsPart part [] h = h
last_part-IsPart part (x ∷ xs) h = elim (Bool-cases (x == b'\n')) [
  | inl end ↦ rw end (last_part-IsPart [] xs tt)
  | inr more ↦
      rw more (last_part-IsPart (part ++ x ∷ []) xs (All-append IsPart part (x ∷ []) h (more, tt)))
]

-- What `split_line` returns, in terms of the lines after a partial one.
abbrev IsSplit : List ℕ → Option (List ℕ × List ℕ) → Type 0
IsSplit bytes none =
    (part : List ℕ) → (complete_lines part bytes ≡ []) × (last_part part bytes ≡ part ++ bytes)
IsSplit bytes (some (line, rest)) =
    (length rest < length bytes)
    × ((part : List ℕ)
        → (complete_lines part bytes ≡ (part ++ line) ∷ complete_lines [] rest)
          × (last_part part bytes ≡ last_part [] rest))

IsSplit-longer :
    (c : ℕ) (cs : List ℕ) (r : Option (List ℕ × List ℕ))
    → (c == b'\n') ≡ false
    → IsSplit cs r
    → IsSplit (c ∷ cs) (map (λ (line, rest). (c ∷ line, rest)) r)
IsSplit-longer c cs none h i =
    λ part. let (a, b) = i (part ++ c ∷ []) in (rw h a, rw h (b ∙ append_assoc part (c ∷ []) cs))
IsSplit-longer c cs (some (line, rest)) h (short, i) = (
  omega arith,
  λ part.
      let (a, b) = i (part ++ c ∷ []) in
      (rw h (a ∙ ap (λ l. l ∷ complete_lines [] rest) (append_assoc part (c ∷ []) line)), rw h b),
)

split_line-IsSplit : (bytes : List ℕ) → IsSplit bytes (split_line bytes)
unfolding split_line
split_line-IsSplit [] = λ part. (refl, sym (append-nil part))
split_line-IsSplit (c ∷ cs) = elim (Bool-cases (c == b'\n')) [
  | inl end ↦ rw end (
    omega arith,
    λ part. (rw end (ap (λ l. l ∷ complete_lines [] cs) (sym (append-nil part))), rw end refl),
  )
  | inr more ↦ rw more (IsSplit-longer c cs (split_line cs) more (split_line-IsSplit cs))
]

pub each_line-lines {ℓ} :
    {S : Type ℓ} (body : List ℕ → S → S) (f : ℕ) (bytes : List ℕ) (s : S)
    → length bytes < f
    → each_line body f bytes s ≡ (over_lines body (complete_lines [] bytes) s, last_part [] bytes)
unfolding each_line
each_line-lines {S = S} body zero bytes s h = absurd (omega arith)
each_line-lines {S = S} body (suc f) bytes s h =
    go (split_line bytes) refl (split_line-IsSplit bytes) (each_line-lines body f)
  where
    go :
        (r : Option (List ℕ × List ℕ))
        → split_line bytes ≡ r
        → IsSplit bytes r
        → ((rest : List ℕ) (t : S)
            → length rest < f
            → each_line body f rest t
              ≡ (over_lines body (complete_lines [] rest) t, last_part [] rest))
        → each_line body (suc f) bytes s
          ≡ (over_lines body (complete_lines [] bytes) s, last_part [] bytes)
    go none e i again = rw (e, each_line, (i []).0, (i []).1) refl
    go (some (line, rest)) e (short, i) again =
        rw (e, each_line, (i []).0, (i []).1, again rest (body line s) (omega arith)) refl
