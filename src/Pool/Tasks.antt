-- ===== src/Pool/Tasks.antt =====
-- `CreateTask`, `CreateDetachedTask` and the futures of `Enqueue`.
use ss_logger_cpp.Prelude.{
  ℕ, ◌≡◌, refl, Bool, true, false, List, [], ◌∷◌, Option, none, some, ◌==◌, ◌&&◌, ◌||◌, not,
  if◌then◌else◌, arith, ==_iff,
}
use ss_logger_cpp.Pool.Family.{update}

-- How a call ends; `E` is the type of the exceptions.
pub data Outcome (E A : Type 0) : Type 0 where
  returned : A → Outcome E A
  raised : E → Outcome E A

-- `satisfied` is the `std::future_error` of a promise that has its result already. A promise is
-- `none` as long as it has none.
module _ {E A : Type 0} (satisfied : E) where
  -- `set_value` and `set_exception` of `std::promise`.
  abbrev pub set_result :
      Outcome E A → Option (Outcome E A) → Outcome E (Unit {0}) × Option (Outcome E A)
  set_result o none = (returned tt, some o)
  set_result o (some before) = (raised satisfied, some before)

  -- The `try` block of `CreateTask`, for the way in which the call of `func` ends.
  unfoldable pub try_task :
      Outcome E A → Option (Outcome E A) → Outcome E (Unit {0}) × Option (Outcome E A)
  try_task (returned a) promise = set_result (returned a) promise
  try_task (raised e) promise = (raised e, promise)

  -- The `catch` block.
  abbrev pub catch_task :
      Outcome E (Unit {0}) × Option (Outcome E A) → Outcome E (Unit {0}) × Option (Outcome E A)
  catch_task (returned _, promise) = (returned tt, promise)
  catch_task (raised e, promise) = set_result (raised e) promise

  -- A run of the callable that `CreateTask` gives.
  unfoldable pub create_task :
      Outcome E A → Option (Outcome E A) → Outcome E (Unit {0}) × Option (Outcome E A)
  create_task func promise = catch_task (try_task func promise)

-- A run of the callable that `CreateDetachedTask` gives: the value and the exception are dropped.
unfoldable pub create_detached_task : {A E : Type 0} → Outcome E A → Outcome E (Unit {0})
create_detached_task (returned _) = returned tt
create_detached_task (raised _) = returned tt

-- A task in the pool: a callable of `CreateTask`, which shares a promise with the caller, or one of
-- `CreateDetachedTask`. How the call of its function will end is part of it.
pub data Job (E A : Type 0) : Type 0 where
  promised detached : Outcome E A → Job E A

module _ {E A : Type 0} where
  -- What `Enqueue` hands to `EnqueueTask`, and the promise behind the future that it returns.
  unfoldable pub enqueue : Outcome E A → Job E A × Option (Outcome E A)
  enqueue func = (promised func, none)

  -- What `EnqueueDetach` hands to `EnqueueTask`.
  unfoldable pub enqueue_detach : Outcome E A → Job E A
  enqueue_detach func = detached func

module _ {E A : Type 0} (satisfied : E) where
  -- `std::invoke(std::move(task))`, on the promise of the task.
  unfoldable pub invoke_task :
      Job E A → Option (Outcome E A) → Outcome E (Unit {0}) × Option (Outcome E A)
  unfolding create_task create_detached_task
  invoke_task (promised func) promise = create_task satisfied func promise
  invoke_task (detached func) promise = (create_detached_task func, promise)

  -- The tasks of a pool, by number, each with a promise of its own. An exception that leaves a task
  -- ends the program.
  module _ (jobs : ℕ → Job E A) where
    abbrev pub run_rest :
        (ℕ → Option (Outcome E A))
        → ℕ
        → Outcome E (Unit {0}) × Option (Outcome E A)
        → ((ℕ → Option (Outcome E A)) → Outcome E (Unit {0}) × (ℕ → Option (Outcome E A)))
        → Outcome E (Unit {0}) × (ℕ → Option (Outcome E A))
    run_rest promises t (returned _, promise) rest = rest (update promises t promise)
    run_rest promises t (raised e, promise) rest = (raised e, update promises t promise)

    -- `ExecuteTask` for the tasks of a list in order.
    unfoldable pub run_tasks :
        List ℕ → (ℕ → Option (Outcome E A)) → Outcome E (Unit {0}) × (ℕ → Option (Outcome E A))
    run_tasks [] promises = (returned tt, promises)
    run_tasks (t ∷ ts) promises =
        run_rest promises t (invoke_task (jobs t) (promises t)) (run_tasks ts)

unfoldable pub member : ℕ → List ℕ → Bool
member t [] = false
member t (u ∷ us) = u == t || member t us

unfoldable pub distinct : List ℕ → Bool
distinct [] = true
distinct (t ∷ ts) = not (member t ts) && distinct ts

-- What a task leaves in its promise, when that has no result yet.
abbrev pub result_of : {E A : Type 0} → Job E A → Option (Outcome E A)
result_of (promised func) = some func
result_of (detached func) = none

module _ {E A : Type 0} (satisfied : E) (jobs : ℕ → Job E A) where
  invoke_task-none : (j : Job E A) → invoke_task satisfied j none ≡ (returned tt, result_of j)
  unfolding invoke_task try_task
  invoke_task-none (promised (returned a)) = refl
  invoke_task-none (promised (raised e)) = refl
  invoke_task-none (detached (returned a)) = refl
  invoke_task-none (detached (raised e)) = refl

  -- Distinct tasks of `Enqueue` whose promises have no result yet, run one after the other: no
  -- exception leaves a task, and the future of each task has the value that its function returned
  -- or the exception that it threw, while all other promises are as before.
  pub run_tasks-futures :
      (ts : List ℕ) (promises : ℕ → Option (Outcome E A))
      → distinct ts ≡ true
      → ((t : ℕ) → member t ts ≡ true → promises t ≡ none)
      → ((run_tasks satisfied jobs ts promises).0 ≡ returned tt)
        × ((t : ℕ)
            → (run_tasks satisfied jobs ts promises).1 t
              ≡ (if member t ts then result_of (jobs t) else promises t))
  unfolding run_tasks member distinct
  run_tasks-futures [] promises d fresh = (refl, λ t. refl)
  run_tasks-futures (t ∷ ts) promises d fresh =
      let promises' = update promises t (result_of (jobs t)) in
      let (done, futures) =
        run_tasks-futures ts promises' (ground arith) (λ u h. later t ts promises d fresh u h) in
      rw (fresh t (ground arith), invoke_task-none (jobs t))
        (done, λ u. rw (futures u) (others t ts promises d u))
    where
      later :
          (t : ℕ) (ts : List ℕ) (promises : ℕ → Option (Outcome E A))
          → distinct (t ∷ ts) ≡ true
          → ((u : ℕ) → member u (t ∷ ts) ≡ true → promises u ≡ none)
          → (u : ℕ) → member u ts ≡ true
          → update promises t (result_of (jobs t)) u ≡ none
      later t ts promises d fresh u h = ground (arith, fresh u, ==_iff t u)

      others :
          (t : ℕ) (ts : List ℕ) (promises : ℕ → Option (Outcome E A))
          → distinct (t ∷ ts) ≡ true
          → (u : ℕ)
          → (if member u ts then result_of (jobs u) else update promises t (result_of (jobs t)) u)
            ≡ (if member u (t ∷ ts) then result_of (jobs u) else promises u)
      others t ts promises d u = ground (arith, ==_iff t u)
