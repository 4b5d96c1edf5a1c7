-- ===== src/Pool/Init.antt =====
-- The constructor and `InitializeThreads`.
use ss_logger_cpp.Prelude.{
  ℕ, zero, suc, ◌+◌, ◌-◌, Bool, true, false, ◌≡◌, refl, ap, ◌∙◌, List, [], ◌∷◌, ◌++◌, length,
  length-append, arith,
}
use ss_logger_cpp.Queue.Contents.{push_back, pop_back, pop_back-append, taken}

-- `tasks` is the size of `m_tasks`; `threads` holds the identifier that each thread got.
pub record Start : Type 0 where
  pub tasks : ℕ
  pub threads : List ℕ
  pub priority : List ℕ
  pub current_id : ℕ

-- `Size`.
abbrev pub size : Start → ℕ
size s = length s.threads

-- One round of the loop; the flag says that the thread could be started, that is, that
-- `emplace_back` did not throw.
unfoldable pub start_thread : Bool → Start → Start
unfolding push_back pop_back
start_thread true s = record s {
  priority = push_back s.priority s.current_id;
  threads = s.threads ++ s.current_id ∷ [];
  current_id = s.current_id + 1;
}
start_thread false s = record s {
  tasks = s.tasks - 1;
  priority =
      (taken (push_back s.priority s.current_id) (pop_back (push_back s.priority s.current_id))).1;
}

-- `InitializeThreads`, over the outcomes of the rounds.
unfoldable pub initialize_threads : List Bool → Start → Start
initialize_threads [] s = s
initialize_threads (b ∷ bs) s = initialize_threads bs (start_thread b s)

-- The constructor with as many rounds as threads are asked for.
unfoldable pub construct : List Bool → Start
construct outcomes =
    initialize_threads outcomes
      (record { tasks = length outcomes; threads = []; priority = []; current_id = 0 })

-- 0, …, n - 1.
unfoldable pub upto : ℕ → List ℕ
upto zero = []
upto (suc n) = upto n ++ n ∷ []

pub length-upto : (n : ℕ) → length (upto n) ≡ n
unfolding upto
length-upto zero = refl
length-upto (suc n) = omega (arith, length-append (upto n) (n ∷ []), length-upto n)

unfoldable pub started : List Bool → ℕ
started [] = 0
started (true ∷ bs) = suc (started bs)
started (false ∷ bs) = started bs

-- `t` items, and threads 0, …, k - 1.
abbrev pub numbered : ℕ → ℕ → Start
numbered t k = record { tasks = t; threads = upto k; priority = upto k; current_id = k }

start_thread-true : (t k : ℕ) → start_thread true (numbered t k) ≡ numbered t (suc k)
unfolding start_thread upto
start_thread-true t k = ground arith

start_thread-false : (t k : ℕ) → start_thread false (numbered (suc t) k) ≡ numbered t k
unfolding start_thread
start_thread-false t k = ground (arith, pop_back-append (upto k) k)

numbered_eq : {a b c d : ℕ} → a ≡ b → c ≡ d → numbered a c ≡ numbered b d
numbered_eq e f = rw (e, f)

initialize_threads_lem :
    (bs : List Bool) (t k : ℕ)
    → initialize_threads bs (numbered (length bs + t) k)
      ≡ numbered (started bs + t) (started bs + k)
unfolding initialize_threads started
initialize_threads_lem [] t k = ground arith
initialize_threads_lem (true ∷ bs) t k =
    ap (initialize_threads bs)
      (start_thread-true (suc (length bs) + t) k ∙ numbered_eq {d = suc k} (omega arith) refl)
    ∙ initialize_threads_lem bs (suc t) (suc k)
    ∙ numbered_eq (omega arith) (omega arith)
initialize_threads_lem (false ∷ bs) t k =
    ap (initialize_threads bs) (
      ap (start_thread false) (numbered_eq {d = k} (omega arith) refl)
      ∙ start_thread-false (length bs + t) k)
    ∙ initialize_threads_lem bs t k

-- Whichever threads cannot be started, the constructor leaves one item of `m_tasks` for each thread
-- that runs, the threads have the identifiers 0, 1, … in the order of their start, and the priority
-- queue holds just these.
pub construct-numbered :
    (outcomes : List Bool) → construct outcomes ≡ numbered (started outcomes) (started outcomes)
unfolding construct upto
construct-numbered outcomes =
    ap (initialize_threads outcomes) (numbered_eq {d = 0} (omega arith) refl)
    ∙ initialize_threads_lem outcomes 0 0
    ∙ numbered_eq (omega arith) (omega arith)
