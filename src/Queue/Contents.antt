-- ===== src/Queue/Contents.antt =====
-- The queue as the list of its values, front first.
use ss_logger_cpp.Prelude.{
  ℕ, zero, suc, ◌+◌, ◌≡◌, refl, ap, List, [], ◌∷◌, ◌++◌, Option, none, some, length, ◌∙◌,
  append_assoc, append-nil, Option-cases, inl, inr, arith,
}

module _ {ℓ} {A : Type ℓ} where
  unfoldable pub push_back : List A → A → List A
  push_back xs x = xs ++ x ∷ []

  unfoldable pub push_front : List A → A → List A
  push_front xs x = x ∷ xs

  unfoldable pub pop_front : List A → Option (A × List A)
  pop_front [] = none
  pop_front (x ∷ xs) = some (x, xs)

  unfoldable pub pop_back : List A → Option (A × List A)
  pop_back [] = none
  pop_back (x ∷ xs) = elim (pop_back xs) [ none ↦ some (x, []) | some (y, ys) ↦ some (y, x ∷ ys) ]

  -- `CopyFrontAndRotateToBack`, with no other operation in between.
  unfoldable pub rotate : List A → Option A × List A
  rotate [] = (none, [])
  rotate (x ∷ xs) = (some x, xs ++ x ∷ [])

  unfoldable pub rotate_times : ℕ → List A → List A
  rotate_times zero xs = xs
  rotate_times (suc n) xs = rotate_times n (rotate xs).1

  -- The values that rotations hand out.
  unfoldable pub handed_out : ℕ → List A → List A
  handed_out zero xs = []
  handed_out (suc n) xs = elim (rotate xs).0 [ none ↦ [] | some x ↦ x ∷ handed_out n (rotate xs).1 ]

  -- Rotations give the values at the front, and then go on with these behind the others.
  pub handed_out-append :
      (m n : ℕ) (xs ys : List A)
      → m ≡ length xs + n
      → handed_out m (xs ++ ys) ≡ xs ++ handed_out n (ys ++ xs)
  unfolding handed_out rotate
  handed_out-append m n [] ys e =
      let same : m ≡ n = omega (arith, e) in rw (append-nil ys) (ap (λ k. handed_out k ys) same)
  handed_out-append zero n (x ∷ xs) ys e = absurd (omega (arith, e))
  handed_out-append (suc m) n (x ∷ xs) ys e =
      ap (λ zs. x ∷ handed_out m zs) (append_assoc xs ys (x ∷ []))
      ∙ ap (◌∷◌ x) (handed_out-append m n xs (ys ++ x ∷ []) (omega (arith, e)))
      ∙ ap (λ zs. x ∷ (xs ++ handed_out n zs)) (append_assoc ys (x ∷ []) xs)

  pub handed_out_zero : (xs : List A) → handed_out 0 xs ≡ []
  unfolding handed_out
  handed_out_zero xs = refl

  -- The result of a pop and the queue behind it.
  abbrev pub taken : List A → Option (A × List A) → Option A × List A
  taken xs none = (none, xs)
  taken xs (some (x, rest)) = (some x, rest)

  pub pop_back-append : (xs : List A) (x : A) → pop_back (xs ++ x ∷ []) ≡ some (x, xs)
  unfolding pop_back
  pop_back-append [] x = refl
  pop_back-append (y ∷ ys) x = rw (pop_back-append ys x, pop_back)

  pub pop_front-none : (xs : List A) → pop_front xs ≡ none → xs ≡ []
  unfolding pop_front
  pop_front-none [] h = refl
  pop_front-none (x ∷ xs) h = cc

  pub pop_front-some : (xs rest : List A) (x : A) → pop_front xs ≡ some (x, rest) → xs ≡ x ∷ rest
  unfolding pop_front
  pop_front-some [] rest x h = cc
  pop_front-some (y ∷ ys) rest x h = ground arith

  pub pop_back-none : (xs : List A) → pop_back xs ≡ none → xs ≡ []
  unfolding pop_back
  pop_back-none [] h = refl
  pop_back-none (x ∷ xs) h = elim (Option-cases (pop_back xs)) [
    | inl e ↦ ground arith
    | inr ((z, zs), e) ↦ ground arith
  ]

  pub pop_back-some :
      (xs rest : List A) (x : A) → pop_back xs ≡ some (x, rest) → xs ≡ rest ++ x ∷ []
  unfolding pop_back
  pop_back-some [] rest x h = cc
  pop_back-some (y ∷ ys) rest x h = elim (Option-cases (pop_back ys)) [
    | inl e ↦ ground (arith, pop_back-none ys e)
    | inr ((z, zs), e) ↦ ground (arith, pop_back-some ys zs z e)
  ]
