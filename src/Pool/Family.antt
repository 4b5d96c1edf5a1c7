-- ===== src/Pool/Family.antt =====
-- Families indexed by numbers: update at one index, and sums over the first members.
use ss_logger_cpp.Prelude.{
  ℕ, zero, suc, ◌+◌, ◌<◌, ◌≤◌, ◌≡◌, ◌≢◌, refl, ap, arith, List, [], ◌∷◌, ◌++◌, ◌==◌, if◌then◌else◌,
  ltb,
}
use native.Mathlib.Decide.{dec_lt, ℕ_discrete}

module _ {ℓ} {A : Type ℓ} where
  -- The family that has `new` at `place`.
  abbrev pub update : (ℕ → A) → ℕ → A → ℕ → A
  update family place new = λ k. if place == k then new else family k

module _ {ℓ} {A : Type ℓ} (w : A → ℕ) where
  -- The weights of the members below a bound.
  unfoldable pub total : ℕ → (ℕ → A) → ℕ
  total zero family = 0
  total (suc bound) family = w (family bound) + total bound family

  -- What a member contributes, if it is below the bound.
  abbrev share : ℕ → ℕ → A → ℕ
  share place bound a = if ltb place bound then w a else 0

  exchange :
      (family : ℕ → A) (place : ℕ) (new : A) (bound : ℕ)
      → share place bound (family place) + total bound (update family place new)
        ≡ share place bound new + total bound family
  unfolding total
  exchange family place new zero = ground arith
  exchange family place new (suc bound) = ground (arith, exchange family place new bound)

  -- A write at one index exchanges its weight.
  pub total-update :
      (bound : ℕ) (family : ℕ → A) (place : ℕ) (new : A)
      → place < bound
      → total bound (update family place new) + w (family place) ≡ total bound family + w new
  total-update bound family place new h = ground (arith, exchange family place new bound)

  -- A member weighs no more than all: put it aside.
  pub le-total :
      (bound : ℕ) (family : ℕ → A) (place : ℕ)
      → place < bound
      → w (family place) ≤ total bound family
  unfolding total
  le-total zero family place h = absurd (omega arith)
  le-total (suc bound) family place h = elim (dec_lt place bound) [
    | no last ↦ ground arith
    | yes below ↦ omega (arith, le-total bound family place below)
  ]

  -- Members without weight.
  pub total_zero : (n : ℕ) (f : ℕ → A) → ((i : ℕ) → i < n → w (f i) ≡ 0) → total n f ≡ 0
  unfolding total
  total_zero zero f h = refl
  total_zero (suc n) f h =
      omega (arith, total_zero n f (λ i lt. h i (omega arith)), h n (omega arith))

  pub total-zero : (n : ℕ) (f : ℕ → A) → total n f ≡ 0 → (i : ℕ) → i < n → w (f i) ≡ 0
  total-zero n f e i h = omega (arith, le-total n f i h)

-- Members of which at most one has weight.
pub total_single {ℓ} :
    {A : Type ℓ} (w : A → ℕ) (place bound : ℕ) (family : ℕ → A)
    → ((i : ℕ) → i < bound → i ≢ place → w (family i) ≡ 0)
    → total w bound family ≡ (if ltb place bound then w (family place) else 0)
unfolding total
total_single w place zero family h = ground arith
total_single w place (suc bound) family h =
    let before = total_single w place bound family (λ i lt d. h i (omega arith) d) in
    elim (ℕ_discrete bound place) [
      | yes e ↦
          let same : w (family bound) ≡ w (family place) = ap (λ k. w (family k)) e in
          ground (arith, before, same)
      | no d ↦ ground (arith, before, h bound (omega arith) d)
    ]

-- Members that weigh one at most.
pub total_le {ℓ} :
    {A : Type ℓ} (w : A → ℕ)
    → ((a : A) → w a ≤ 1)
    → (bound : ℕ) (family : ℕ → A) → total w bound family ≤ bound
unfolding total
total_le w light zero family = omega arith
total_le w light (suc bound) family =
    omega (arith, light (family bound), total_le w light bound family)

pub total_one {ℓ} : {A : Type ℓ} (bound : ℕ) (family : ℕ → A) → total (λ _. 1) bound family ≡ bound
unfolding total
total_one zero family = refl
total_one (suc bound) family = omega (arith, total_one bound family)

pub total_comp :
    {A : Type 0} (w : A → ℕ) (v : ℕ → ℕ) (f : ℕ → A) (g : ℕ → ℕ)
    → ((i : ℕ) → w (f i) ≡ v (g i))
    → (n : ℕ) → total w n f ≡ total v n g
unfolding total
total_comp w v f g h zero = refl
total_comp w v f g h (suc n) = omega (arith, total_comp w v f g h n, h n)

-- The weight of a list.
unfoldable pub weigh : (ℕ → ℕ) → List ℕ → ℕ
weigh w [] = 0
weigh w (t ∷ ts) = w t + weigh w ts

pub weigh-append : (w : ℕ → ℕ) (ts us : List ℕ) → weigh w (ts ++ us) ≡ weigh w ts + weigh w us
unfolding weigh
weigh-append w [] us = omega arith
weigh-append w (t ∷ ts) us = omega (arith, weigh-append w ts us)

pub weigh-cons : (w : ℕ → ℕ) (t : ℕ) (ts : List ℕ) → weigh w (t ∷ ts) ≡ w t + weigh w ts
unfolding weigh
weigh-cons w t ts = refl

pub weigh-nil : (w : ℕ → ℕ) → weigh w [] ≡ 0
unfolding weigh
weigh-nil w = refl
