-- ===== src/Pool/Producer.antt =====
-- One thread that calls `Enqueue` and `EnqueueDetach` again and again, beside the pool: a call begins
-- when the one before has returned.
pub mod Served
use ss_logger_cpp.Prelude.{
  ℕ, zero, suc, ◌+◌, ◌<◌, ◌≤◌, ◌≡◌, refl, sym, ◌∙◌, ap, arith, Bool-cases, inl, inr, List, length,
  ◌==◌, ==_iff, false,
}
use native.Mathlib.Decide.{dec_lt}
use ss_logger_cpp.Pool.Family.{update, total, total_zero, total-zero, weigh}
use ss_logger_cpp.Pool.State.{
  Pool, Caller, rotating, dropped, putting_back, counting, flying, clearing, pushing, releasing,
  finished, rotate_front, caller_in,
}
use ss_logger_cpp.Pool.System.{
  System, Closer, work, call, close_in, close_in-unchanged, unreturned, works, calls_on, closes,
  Reach, here, next, start,
}
use ss_logger_cpp.Pool.Identifiers.{
  caller_id, is_dropped, asks, caller_in-is_dropped, weigh-one-length, Reach-kept_ids,
}
use ss_logger_cpp.Pool.Counters.Weights.{one}

-- The steps of `Reach`, where a call takes one only if those of the smaller numbers have returned.
pub data InTurn (calls : ℕ) (s : System) : System → Type 0 where
  begins : InTurn calls s s
  threads : {t : System} → InTurn calls s t → (i : ℕ) → i < t.pool.size → InTurn calls s (work i t)
  enqueues :
      {t : System}
      → InTurn calls s t
      → (c : ℕ) → c < calls
      → total unreturned c t.callers ≡ 0
      → InTurn calls s (call c t)
  destructs :
      {t : System}
      → InTurn calls s t
      → total unreturned calls t.callers ≡ 0
      → InTurn calls s (close_in t.closer t)

pub InTurn-Reach : {calls : ℕ} {s t : System} → InTurn calls s t → Reach calls s t
InTurn-Reach begins = here
InTurn-Reach (threads r i lt) = next (InTurn-Reach r) (works i lt)
InTurn-Reach (enqueues r c lt prior) = next (InTurn-Reach r) (calls_on c lt)
InTurn-Reach (destructs r over) = next (InTurn-Reach r) (closes over)

pub InTurn-then :
    {calls : ℕ} {s t u : System} → InTurn calls s t → InTurn calls t u → InTurn calls s u
InTurn-then r begins = r
InTurn-then r (threads q i lt) = threads (InTurn-then r q) i lt
InTurn-then r (enqueues q c lt prior) = enqueues (InTurn-then r q) c lt prior
InTurn-then r (destructs q over) = destructs (InTurn-then r q) over

-- A call that has returned stays so.
pub caller_in-returned : (ph : Caller) (p : Pool) → unreturned ph ≡ 0 → (caller_in ph p).0 ≡ ph
unfolding caller_in
caller_in-returned (dropped t) p h = refl
caller_in-returned finished p h = refl
caller_in-returned (rotating t) p h = absurd (omega arith)
caller_in-returned (putting_back t i) p h = absurd (omega arith)
caller_in-returned (counting t i) p h = absurd (omega arith)
caller_in-returned (flying t i) p h = absurd (omega arith)
caller_in-returned (clearing t i) p h = absurd (omega arith)
caller_in-returned (pushing t i) p h = absurd (omega arith)
caller_in-returned (releasing i) p h = absurd (omega arith)

unreturned_le : (ph : Caller) → unreturned ph ≤ 1
unreturned_le (dropped t) = omega arith
unreturned_le finished = omega arith
unreturned_le (rotating t) = omega arith
unreturned_le (putting_back t i) = omega arith
unreturned_le (counting t i) = omega arith
unreturned_le (flying t i) = omega arith
unreturned_le (clearing t i) = omega arith
unreturned_le (pushing t i) = omega arith
unreturned_le (releasing i) = omega arith

caller_in-unreturned : (ph : Caller) (p : Pool) → unreturned (caller_in ph p).0 ≤ unreturned ph
caller_in-unreturned ph p = elim (dec_lt 0 (unreturned ph)) [
  | yes going ↦ omega (arith, going, unreturned_le (caller_in ph p).0)
  | no over ↦ rw (caller_in-returned ph p (omega (arith, over))) (omega arith)
]

pub call-unreturned :
    (e c : ℕ) (s : System) → unreturned ((call e s).callers c) ≤ unreturned (s.callers c)
call-unreturned e c s = elim (Bool-cases (e == c)) [
  | inl g ↦
      let same : e ≡ c = (==_iff e c).0 g in
      rw (g, ap s.callers (sym same)) (caller_in-unreturned (s.callers e) s.pool)
  | inr g ↦ rw g (omega arith)
]

-- Behind a call that has not returned, none has begun.
abbrev IsQueued : (ℕ → ℕ) → (ℕ → Caller) → Type 0
IsQueued tasks callers =
    (c d : ℕ) → c < d → 0 < unreturned (callers c) → callers d ≡ rotating (tasks d)

module _ (calls n : ℕ) (ids : List ℕ) (tasks : ℕ → ℕ) where
  call-IsQueued :
      (s : System) (e : ℕ)
      → total unreturned e s.callers ≡ 0
      → IsQueued tasks s.callers
      → IsQueued tasks (call e s).callers
  call-IsQueued s e prior h c d lt going = elim (Bool-cases (e == d)) [
    | inl f ↦
        let last : e ≡ d = (==_iff e d).0 f in
        let before : unreturned (s.callers c) ≡ 0 =
          total-zero unreturned e s.callers prior c (omega (arith, last)) in
        absurd (omega (arith, going, before, call-unreturned e c s))
    | inr f ↦ rw f (h c d lt (omega (arith, going, call-unreturned e c s)))
  ]

  pub InTurn-IsQueued : (s : System) → InTurn calls (start n ids tasks) s → IsQueued tasks s.callers
  InTurn-IsQueued _ begins = λ c d lt going. refl
  InTurn-IsQueued _ (threads {t = s} r i lt) = InTurn-IsQueued s r
  InTurn-IsQueued _ (enqueues {t = s} r e lt prior) = call-IsQueued s e prior (InTurn-IsQueued s r)
  InTurn-IsQueued _ (destructs {t = s} r over) =
      rw (close_in-unchanged s.closer s).1 (InTurn-IsQueued s r)

returned-caller_id : (ph : Caller) → unreturned ph ≡ 0 → caller_id one ph ≡ 0
returned-caller_id (putting_back t i) h = absurd (omega arith)
returned-caller_id _ h = refl

asking : (ph : Caller) → 0 < asks ph → (caller_id one ph ≡ 0) × (0 < unreturned ph)
asking (rotating t) h = (refl, omega arith)
asking _ h = absurd (omega arith)

asks_le : (ph : Caller) → asks ph ≤ 1
asks_le (rotating t) = omega arith
asks_le _ = omega arith

module _ (calls n : ℕ) (ids : List ℕ) (tasks : ℕ → ℕ) (some_ids : 0 < length ids) where
  -- No other call holds an identifier when a call asks for one.
  other-caller_id :
      (s : System) (e : ℕ)
      → InTurn calls (start n ids tasks) s
      → total unreturned e s.callers ≡ 0
      → 0 < asks (s.callers e)
      → (j : ℕ) → caller_id one (s.callers j) ≡ 0
  other-caller_id s e r prior wants j = elim (dec_lt j e) [
    | yes below ↦ returned-caller_id (s.callers j) (total-zero unreturned e s.callers prior j below)
    | no not_below ↦ elim (dec_lt e j) [
      | yes above ↦
          rw (InTurn-IsQueued calls n ids tasks s r e j above (asking (s.callers e) wants).1) refl
      | no not_above ↦
          let same : e ≡ j = omega (arith, not_below, not_above) in
          rw (← same) (asking (s.callers e) wants).0
    ]
  ]

  call-asks :
      (s : System) (e : ℕ)
      → InTurn calls (start n ids tasks) s
      → total unreturned e s.callers ≡ 0
      → asks (s.callers e) ≤ weigh one s.pool.priority
  call-asks s e r prior = elim (dec_lt 0 (asks (s.callers e))) [
    | yes wants ↦ omega (
      arith,
      asks_le (s.callers e),
      Reach-kept_ids calls n ids tasks s (InTurn-Reach r) one,
      total_zero (caller_id one) calls s.callers (λ j _. other-caller_id s e r prior wants j),
      weigh-one-length ids,
      some_ids,
    )
    | no silent ↦ omega (arith, silent)
  ]

  pub InTurn-none_dropped :
      (s : System) → InTurn calls (start n ids tasks) s → (c : ℕ) → is_dropped (s.callers c) ≡ 0
  InTurn-none_dropped _ begins c = refl
  InTurn-none_dropped _ (threads {t = s} r i lt) c = InTurn-none_dropped s r c
  InTurn-none_dropped _ (enqueues {t = s} r e lt prior) c = elim (Bool-cases (e == c)) [
    | inl f ↦ rw f (
        caller_in-is_dropped (s.callers e) s.pool (InTurn-none_dropped s r e)
          (call-asks s e r prior))
    | inr f ↦ rw f (InTurn-none_dropped s r c)
  ]
  InTurn-none_dropped _ (destructs {t = s} r over) c =
      rw (close_in-unchanged s.closer s).1 (InTurn-none_dropped s r c)
