-- ===== src/Pool/Counters/Caller.antt =====
-- The steps of a call of `EnqueueTask` and the counters.
use ss_logger_cpp.Prelude.{
  ℕ, ◌+◌, ◌<◌, ◌≡◌, refl, arith, List, [], ◌∷◌, ◌++◌, Option, none, some, inl, inr, subst,
  Bool-cases, ◌==◌,
}
use ss_logger_cpp.Queue.Contents.{pop_front}
use ss_logger_cpp.Pool.Family.{total-update, weigh, weigh-append, weigh-cons, weigh-nil}
use ss_logger_cpp.Pool.State.{
  Pool, Caller, rotating, dropped, putting_back, counting, flying, clearing, pushing, releasing,
  finished, caller_in, rotate_front,
}
use ss_logger_cpp.Pool.Counters.Weights.{queued, caller_task, caller_flight, caller_unassigned, one}

-- Every identifier is that of an item.
abbrev pub Within : ℕ → List ℕ → Type 0
Within n [] = Unit
Within n (i ∷ is) = (i < n) × Within n is

pub Within-append : (n : ℕ) (xs ys : List ℕ) → Within n xs → Within n ys → Within n (xs ++ ys)
Within-append n [] ys h k = k
Within-append n (x ∷ xs) ys h k = (h.0, Within-append n xs ys h.1 k)

pop_front-Within :
    (n : ℕ) (xs : List ℕ)
    → Within n xs
    → (i : ℕ) (rest : List ℕ) → pop_front xs ≡ some (i, rest)
    → (i < n) × Within n rest
unfolding pop_front
pop_front-Within n [] h i rest e = absurd (cc)
pop_front-Within n (x ∷ xs) h i rest e =
    let (head, tail) = same x xs i rest e in (rw (← head) h.0, subst (Within n) tail h.1)
  where
    same :
        (x : ℕ) (xs : List ℕ) (i : ℕ) (rest : List ℕ)
        → ◌≡◌ {A = Option (ℕ × List ℕ)} (some (x, xs)) (some (i, rest))
        → (x ≡ i) × (xs ≡ rest)
    same x xs i rest e = ground arith

abbrev pub IsTarget : ℕ → Caller → Type 0
IsTarget n (putting_back _ i) = i < n
IsTarget n (counting _ i) = i < n
IsTarget n (flying _ i) = i < n
IsTarget n (clearing _ i) = i < n
IsTarget n (pushing _ i) = i < n
IsTarget n (releasing i) = i < n
IsTarget n _ = Unit

abbrev pub Keeps : Caller → Pool → Caller × Pool → Type 0
Keeps ph p r =
    (r.1.size ≡ p.size)
    × Within p.size r.1.priority
    × IsTarget p.size r.0
    × ((w : ℕ → ℕ)
        → queued w r.1 + caller_task w r.0 + weigh w r.1.executed
          ≡ queued w p + caller_task w ph + weigh w p.executed)
    × (r.1.in_flight + queued one p + caller_flight ph
        ≡ p.in_flight + queued one r.1 + caller_flight r.0)
    × (r.1.unassigned + queued one p + caller_unassigned ph
        ≡ p.unassigned + queued one r.1 + caller_unassigned r.0)

module _ (p : Pool) (within : Within p.size p.priority) where
  rotate_front-Keeps :
      (t : ℕ) (r : Option (ℕ × List ℕ))
      → pop_front p.priority ≡ r
      → Keeps (rotating t) p (rotate_front t r p)
  unfolding queued
  rotate_front-Keeps t none e = (refl, within, tt, λ w. refl, omega arith, omega arith)
  rotate_front-Keeps t (some (i, rest)) e =
      let (h, hs) = pop_front-Within p.size p.priority within i rest e in
      (refl, hs, h, λ w. refl, omega arith, omega arith)

  pub caller_in-Keeps : (ph : Caller) → IsTarget p.size ph → Keeps ph p (caller_in ph p)
  unfolding caller_in queued
  caller_in-Keeps (rotating t) h = rotate_front-Keeps t (pop_front p.priority) refl
  caller_in-Keeps (dropped t) h = (refl, within, tt, λ w. refl, omega arith, omega arith)
  caller_in-Keeps (putting_back t i) h = (
    refl,
    Within-append p.size p.priority (i ∷ []) within (h, tt),
    h,
    λ w. refl,
    omega arith,
    omega arith,
  )
  caller_in-Keeps (counting t i) h = (refl, within, h, λ w. refl, omega arith, omega arith)
  caller_in-Keeps (flying t i) h = elim (Bool-cases (p.in_flight == 0)) [
    | inl e ↦ rw e (refl, within, h, λ w. refl, omega arith, omega arith)
    | inr e ↦ rw e (refl, within, h, λ w. refl, omega arith, omega arith)
  ]
  caller_in-Keeps (clearing t i) h = (refl, within, h, λ w. refl, omega arith, omega arith)
  caller_in-Keeps (pushing t i) h =
      let put = λ (w : ℕ → ℕ). total-update (weigh w) p.size p.queues i (p.queues i ++ t ∷ []) h in
      let more = λ (w : ℕ → ℕ). weigh-append w (p.queues i) (t ∷ []) in
      let last = λ (w : ℕ → ℕ). weigh-cons w t [] in
      (
        refl,
        within,
        h,
        λ w. omega (arith, put w, more w, last w, weigh-nil w),
        omega (arith, put one, more one, last one, weigh-nil one),
        omega (arith, put one, more one, last one, weigh-nil one),
      )
  caller_in-Keeps (releasing i) h = (refl, within, tt, λ w. refl, omega arith, omega arith)
  caller_in-Keeps finished h = (refl, within, tt, λ w. refl, omega arith, omega arith)
