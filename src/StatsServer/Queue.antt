-- ===== src/StatsServer/Queue.antt =====
-- server_epx3.c: `non_persistent_queue` with `queue_count`, an array of MAX_NON_PERSISTENT slots
-- whose head is taken by moving every later slot down, and its view as a list.
use rnd.Common.{
  ℕ, zero, suc, ◌+◌, ◌≤◌, ◌<◌, ◌≡◌, refl, ap, none, some, List, [], ◌∷◌, ◌++◌, arith, length,
  get_elem?, set, take, length-set, ◌∙◌, inl, inr, Option-cases,
}

module _ {ℓ} {A : Type ℓ} where
  -- `q[j] = q[j + 1]`.
  unfoldable pub move_down : List A → ℕ → List A
  move_down q j = elim (get_elem? q (j + 1)) [ none ↦ q | some c ↦ set q j c ]

  -- `for (j = lo; j < lo + n; j++) q[j] = q[j + 1];`
  unfoldable pub shift : ℕ → ℕ → List A → List A
  shift zero lo q = q
  shift (suc n) lo q = shift n (lo + 1) (move_down q lo)

  length-move_down : (q : List A) (j : ℕ) → length (move_down q j) ≡ length q
  unfolding move_down
  length-move_down q j = elim (Option-cases (get_elem? q (j + 1))) [
    | inl e ↦ rw (e, move_down)
    | inr (c, e) ↦ rw (e, move_down) (length-set q j c)
  ]

  pub length-shift : (n lo : ℕ) (q : List A) → length (shift n lo q) ≡ length q
  unfolding shift
  length-shift zero lo q = refl
  length-shift (suc n) lo q = length-shift n (lo + 1) (move_down q lo) ∙ length-move_down q lo

  move_down-cons : (j : ℕ) (x : A) (q : List A) → move_down (x ∷ q) (suc j) ≡ x ∷ move_down q j
  unfolding move_down
  move_down-cons j x q = elim (Option-cases (get_elem? q (j + 1))) [
    | inl e ↦ let n : suc j + 1 ≡ suc (j + 1) = omega arith in rw (n, e, move_down) refl
    | inr (c, e) ↦ let n : suc j + 1 ≡ suc (j + 1) = omega arith in rw (n, e, move_down) refl
  ]

  shift-cons : (n lo : ℕ) (x : A) (q : List A) → shift n (suc lo) (x ∷ q) ≡ x ∷ shift n lo q
  unfolding shift
  shift-cons zero lo x q = refl
  shift-cons (suc n) lo x q =
      let next : suc lo + 1 ≡ suc (lo + 1) = omega arith in
      rw (next, move_down-cons lo x q) (shift-cons n (lo + 1) x (move_down q lo))

  -- Taking the head leaves the later entries in their order.
  pub take-shift :
      (n : ℕ) (x : A) (q : List A) → n ≤ length q → take n (shift n 0 (x ∷ q)) ≡ take n q
  unfolding shift move_down
  take-shift zero x q h = refl
  take-shift (suc n) x [] h = absurd (omega arith)
  take-shift (suc n) x (y ∷ q) h =
      rw (shift-cons n 0 y (y ∷ q)) (ap (◌∷◌ y) (take-shift n y q (omega arith)))

  -- A new entry goes behind those that wait.
  pub take-set :
      (n : ℕ) (q : List A) (c : A) → n < length q → take (suc n) (set q n c) ≡ take n q ++ c ∷ []
  take-set n [] c h = absurd (omega arith)
  take-set zero (x ∷ q) c h = refl
  take-set (suc n) (x ∷ q) c h = ap (◌∷◌ x) (take-set n q c (omega arith))
