-- ===== src/Pool/State.antt =====
-- The shared members of a running pool, and the steps of its threads and of its callers.
use ss_logger_cpp.Prelude.{
  ℕ, zero, suc, ◌+◌, ◌-◌, ◌%◌, Bool, true, false, List, [], ◌∷◌, ◌++◌, Option, none, some, ◌==◌,
  ltb, if◌then◌else◌, ◌≡◌, refl,
}
use ss_logger_cpp.Queue.Contents.{push_back, pop_front, pop_back}
use ss_logger_cpp.Pool.Family.{update}

-- Tasks are numbered. `size` is the size of `m_tasks`; `queues` and `signals` are the two members of
-- its items: a release adds one, also above 1. `executed` is the history of the tasks that were invoked.
pub record Pool : Type 0 where
  pub size : ℕ
  pub queues : ℕ → List ℕ
  pub signals : ℕ → ℕ
  pub priority : List ℕ
  pub unassigned : ℕ
  pub in_flight : ℕ
  pub complete : Bool
  pub executed : List ℕ

-- Where a pool thread stands. `taken`, `invoking` and `invoked` are the three lines of
-- `ExecuteTask`; the flag says that the task was stolen.
pub data Worker : Type 0 where
  acquiring draining testing signalling storing looping exited : Worker
  stealing : ℕ → Worker
  taken invoking : ℕ → Bool → Worker
  invoked : Bool → Worker

module _ (id : ℕ) where
  -- `m_tasks[id].m_signal.acquire()`, which waits at 0.
  abbrev pub acquire : ℕ → Pool → Worker × Pool
  acquire zero p = (acquiring, p)
  acquire (suc k) p = (draining, record p { signals = update p.signals id k })

  -- The test of the inner loop of `ProcessTasks`.
  abbrev pub drain : Option (ℕ × List ℕ) → Pool → Worker × Pool
  drain none p = (stealing 1, p)
  drain (some (t, rest)) p = (taken t false, record p { queues = update p.queues id rest })

-- A round of `StealTask`, at the item `index`.
abbrev pub steal : ℕ → ℕ → Option (ℕ × List ℕ) → Pool → Worker × Pool
steal j index none p = (stealing (j + 1), p)
steal j index (some (t, rest)) p = (taken t true, record p { queues = update p.queues index rest })

-- A step of the thread `id`; `stop` is what `stop_requested` gives. The `notify_one` behind the store
-- of the flag is in `Pool.Waiters`.
unfoldable pub worker_in : ℕ → Bool → Worker → Pool → Worker × Pool
unfolding pop_front
worker_in id stop acquiring p = acquire id (p.signals id) p
worker_in id stop draining p = drain id (pop_front (p.queues id)) p
worker_in id stop (stealing j) p =
    let index = (id + j) % p.size in
    if ltb j p.size then steal j index (pop_back (p.queues index)) p else (testing, p)
worker_in id stop (taken t stolen) p =
    (invoking t stolen, record p { unassigned = p.unassigned - 1 })
worker_in id stop (invoking t stolen) p =
    (invoked stolen, record p { executed = p.executed ++ t ∷ [] })
worker_in id stop (invoked stolen) p =
    (if stolen then testing else draining, record p { in_flight = p.in_flight - 1 })
worker_in id stop testing p = (if ltb 0 p.unassigned then draining else signalling, p)
worker_in id stop signalling p = (if p.in_flight == 0 then storing else looping, p)
worker_in id stop storing p = (looping, record p { complete = true })
worker_in id stop looping p = (if stop then exited else acquiring, p)
worker_in id stop exited p = (exited, p)

-- Where a call of `EnqueueTask` stands: the two halves of `CopyFrontAndRotateToBack`, then the lines
-- below it. `dropped` is the early `return`.
pub data Caller : Type 0 where
  rotating dropped : ℕ → Caller
  putting_back counting flying clearing pushing : ℕ → ℕ → Caller
  releasing : ℕ → Caller
  finished : Caller

abbrev pub rotate_front : ℕ → Option (ℕ × List ℕ) → Pool → Caller × Pool
rotate_front t none p = (dropped t, p)
rotate_front t (some (i, rest)) p = (putting_back t i, record p { priority = rest })

unfoldable pub caller_in : Caller → Pool → Caller × Pool
unfolding pop_front push_back
caller_in (rotating t) p = rotate_front t (pop_front p.priority) p
caller_in (putting_back t i) p = (counting t i, record p { priority = push_back p.priority i })
caller_in (counting t i) p = (flying t i, record p { unassigned = p.unassigned + 1 })
caller_in (flying t i) p = (
  if p.in_flight == 0 then clearing t i else pushing t i,
  record p { in_flight = p.in_flight + 1 },
)
caller_in (clearing t i) p = (pushing t i, record p { complete = false })
caller_in (pushing t i) p =
    (releasing i, record p { queues = update p.queues i (push_back (p.queues i) t) })
caller_in (releasing i) p = (finished, record p { signals = update p.signals i (p.signals i + 1) })
caller_in (dropped t) p = (dropped t, p)
caller_in finished p = (finished, p)

abbrev pub has_exited : Worker → Bool
has_exited exited = true
has_exited _ = false

-- `WaitForTasks` returns at once, or when `wait(false)` finds the flag set.
unfoldable pub wait_returns : Pool → Bool
wait_returns p = if ltb 0 p.in_flight then p.complete else true

pub caller_in-size : (ph : Caller) (p : Pool) → (caller_in ph p).1.size ≡ p.size
unfolding caller_in
caller_in-size (rotating t) p = go (pop_front p.priority)
  where
    go : (r : Option (ℕ × List ℕ)) → (rotate_front t r p).1.size ≡ p.size
    go none = refl
    go (some (i, rest)) = refl
caller_in-size (flying t i) p = refl
caller_in-size (dropped t) p = refl
caller_in-size (putting_back t i) p = refl
caller_in-size (counting t i) p = refl
caller_in-size (clearing t i) p = refl
caller_in-size (pushing t i) p = refl
caller_in-size (releasing i) p = refl
caller_in-size finished p = refl
