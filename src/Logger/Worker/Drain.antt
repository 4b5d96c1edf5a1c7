-- ===== src/Logger/Worker/Drain.antt =====
-- The loop of `ProcessQueue` left alone.
use ss_logger_cpp.Prelude.{
  ℕ, zero, suc, ◌+◌, true, List, [], ◌∷◌, ◌++◌, ◌≡◌, refl, sym, ap, ◌∙◌, arith, subst, append-nil,
  append_assoc, Option, none, some,
}
use ss_logger_cpp.Logger.Message.{LogMessage}
use ss_logger_cpp.Queue.Contents.{pop_front}
use ss_logger_cpp.Logger.Worker.{
  Phase, popping, checking, exited, to_console, to_file, to_syslog, System, worker_in, worker,
  next_message, works, Reach, next, worker_steps,
}
use ss_logger_cpp.Logger.Worker.Order.{EndsAfterReset, IsOrdered}

four_steps :
    (m : LogMessage) (q : List LogMessage) (s : System)
    → s.phase ≡ popping
    → s.logger.queue ≡ m ∷ q
    → worker (worker (worker (worker s))) ≡ record s {
      logger = record (s.logger) { queue = q };
      console = s.console ++ m ∷ [];
      file = s.file ++ m ∷ [];
      syslog = s.syslog ++ m ∷ [];
      phase = popping;
    }
unfolding worker_in
four_steps m q s p e = rw (p, e)

-- Four steps for each message.
abbrev pub steps_for : List LogMessage → ℕ
steps_for [] = 0
steps_for (m ∷ q) = suc (suc (suc (suc (steps_for q))))

-- `t` is at the pop on the empty queue, and each output has gained `q` since `s`.
abbrev pub Drained : System → List LogMessage → System → Type 0
Drained s q t =
    (t.phase ≡ popping)
    × (t.logger.queue ≡ [])
    × (t.console ≡ s.console ++ q)
    × (t.file ≡ s.file ++ q)
    × (t.syslog ≡ s.syslog ++ q)

-- From the pop on, the loop of `ProcessQueue` left alone writes all messages of the queue, in
-- order, to each of the three outputs, and is then at the pop on the empty queue.
pub worker_steps-drain :
    (q : List LogMessage) (s : System)
    → s.phase ≡ popping
    → s.logger.queue ≡ q
    → Drained s q (worker_steps (steps_for q) s)
unfolding worker_steps
worker_steps-drain [] s p e =
    (p, e, sym (append-nil s.console), sym (append-nil s.file), sym (append-nil s.syslog))
worker_steps-drain (m ∷ q) s p e =
    let t : System = record s {
      logger = record (s.logger) { queue = q };
      console = s.console ++ m ∷ [];
      file = s.file ++ m ∷ [];
      syslog = s.syslog ++ m ∷ [];
      phase = popping;
    } in
    let (p', e', c, f, y) = worker_steps-drain q t refl refl in
    subst (λ u. Drained s (m ∷ q) (worker_steps (steps_for q) u)) (sym (four_steps m q s p e))
      (
        p',
        e',
        c ∙ append_assoc s.console (m ∷ []) q,
        f ∙ append_assoc s.file (m ∷ []) q,
        y ∙ append_assoc s.syslog (m ∷ []) q,
      )

-- The loop itself neither logs nor resets.
pub record IsKept (s t : System) : Type 0 where
  pub logged : t.logged ≡ s.logged
  pub running : t.logger.is_running ≡ s.logger.is_running

worker_in-IsKept : (ph : Phase) (s : System) → IsKept s (worker_in ph s)
unfolding worker_in
worker_in-IsKept popping s = go (pop_front s.logger.queue)
  where
    go : (r : Option (LogMessage × List LogMessage)) → IsKept s (next_message r s)
    go none = record { logged = refl; running = refl }
    go (some (m, rest)) = record { logged = refl; running = refl }
worker_in-IsKept (to_console m) s = record { logged = refl; running = refl }
worker_in-IsKept (to_file m) s = record { logged = refl; running = refl }
worker_in-IsKept (to_syslog m) s = record { logged = refl; running = refl }
worker_in-IsKept checking s = record { logged = refl; running = refl }
worker_in-IsKept exited s = record { logged = refl; running = refl }

pub worker_steps-IsKept : (k : ℕ) (s : System) → IsKept s (worker_steps k s)
unfolding worker_steps
worker_steps-IsKept zero s = record { logged = refl; running = refl }
worker_steps-IsKept (suc k) s =
    let one = worker_in-IsKept s.phase s in
    let more = worker_steps-IsKept k (worker s) in
    record { logged = more.logged ∙ one.logged; running = more.running ∙ one.running }

pub worker_steps-Reach :
    {s₀ : System} (k : ℕ) (s : System) → Reach s₀ s → Reach s₀ (worker_steps k s)
unfolding worker_steps
worker_steps-Reach zero s r = r
worker_steps-Reach (suc k) s r = worker_steps-Reach k (worker s) (next r works)

worker_steps-add :
    (j k : ℕ) (s : System) → worker_steps (j + k) s ≡ worker_steps k (worker_steps j s)
unfolding worker_steps
worker_steps-add zero k s = ap (λ n. worker_steps n s) (add_zero k)
  where
    add_zero : (k : ℕ) → 0 + k ≡ k
    add_zero k = omega arith
worker_steps-add (suc j) k s =
    ap (λ n. worker_steps n s) (suc_add j k) ∙ worker_steps-add j k (worker s)
  where
    suc_add : (j k : ℕ) → suc j + k ≡ suc (j + k)
    suc_add j k = omega arith

-- The steps up to the pop, in each phase.
abbrev steps_to_pop : Phase → ℕ
steps_to_pop popping = 0
steps_to_pop (to_console m) = 3
steps_to_pop (to_file m) = 2
steps_to_pop (to_syslog m) = 1
steps_to_pop checking = 1
steps_to_pop exited = 0

to_pop :
    (ph : Phase) (s : System)
    → s.phase ≡ ph
    → s.logger.is_running ≡ true
    → EndsAfterReset ph s.logger
    → (worker_steps (steps_to_pop ph) s).phase ≡ popping
unfolding worker_steps worker_in
to_pop popping s e h x = e
to_pop (to_console m) s e h x = rw e refl
to_pop (to_file m) s e h x = rw e refl
to_pop (to_syslog m) s e h x = rw e refl
to_pop checking s e h x = rw (e, h) refl
to_pop exited s e h x = absurd (cc (h, x))

-- Left alone before `Reset`, the loop comes to the pop on the empty queue.
pub worker_steps-rest :
    (s : System)
    → s.logger.is_running ≡ true
    → IsOrdered s
    → (k : ℕ) × ((worker_steps k s).phase ≡ popping) × ((worker_steps k s).logger.queue ≡ [])
worker_steps-rest s h ordered =
    let j = steps_to_pop s.phase in
    let t = worker_steps j s in
    let k = steps_for t.logger.queue in
    let drained =
      worker_steps-drain t.logger.queue t (to_pop s.phase s refl h ordered.ends_after_reset) refl in
    let same = worker_steps-add j k s in
    (j + k, ap (λ u. u.phase) same ∙ drained.0, ap (λ u. u.logger.queue) same ∙ drained.1)
