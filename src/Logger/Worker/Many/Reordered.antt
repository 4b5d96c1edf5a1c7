-- ===== src/Logger/Worker/Many/Reordered.antt =====
-- Two loops may write two messages in the other order than they were logged.
use ss_logger_cpp.Prelude.{
  ℕ, ◌<◌, ◌≡◌, ◌≢◌, refl, sym, ◌∙◌, arith, List, [], ◌∷◌, ◌++◌, ==_iff, append_assoc,
}
use ss_logger_cpp.Queue.Contents.{push_back, pop_front}
use ss_logger_cpp.Logger.Message.{LogMessage}
use ss_logger_cpp.Logger.Worker.{popping, to_console, worker_in}
use ss_logger_cpp.Logger.Worker.Many.{Loops, loop_on, log_on, loops, logs, Reach, next, unstarted}

-- What a loop changes that takes `m` from a queue with `rest` behind it.
record Taken (i : ℕ) (m : LogMessage) (rest : List LogMessage) (s t : Loops) : Type 0 where
  logger : t.logger ≡ record (s.logger) { queue = rest }
  holds : t.phases i ≡ to_console m
  others : (k : ℕ) → k ≢ i → t.phases k ≡ s.phases k
  console : t.console ≡ s.console
  file : t.file ≡ s.file
  syslog : t.syslog ≡ s.syslog
  logged : t.logged ≡ s.logged

-- What a loop changes that writes `m` to the three outputs.
record Written (i : ℕ) (m : LogMessage) (s t : Loops) : Type 0 where
  logger : t.logger ≡ s.logger
  others : (k : ℕ) → k ≢ i → t.phases k ≡ s.phases k
  console : t.console ≡ s.console ++ m ∷ []
  file : t.file ≡ s.file ++ m ∷ []
  syslog : t.syslog ≡ s.syslog ++ m ∷ []
  logged : t.logged ≡ s.logged

loop_on-Taken :
    (i : ℕ) (m : LogMessage) (rest : List LogMessage) (s : Loops)
    → s.phases i ≡ popping
    → s.logger.queue ≡ m ∷ rest
    → Taken i m rest s (loop_on i s)
unfolding worker_in pop_front
loop_on-Taken i m rest s e q = record {
  logger = rw (e, q) refl;
  holds = rw ((==_iff i i).1 refl, e, q) refl;
  others = λ k n. ground (arith, ==_iff k i);
  console = rw (e, q) refl;
  file = rw (e, q) refl;
  syslog = rw (e, q) refl;
  logged = rw (e, q) refl;
}

loop_on-Written :
    (i : ℕ) (m : LogMessage) (s : Loops)
    → s.phases i ≡ to_console m
    → Written i m s (loop_on i (loop_on i (loop_on i s)))
unfolding worker_in
loop_on-Written i m s e =
    let self = (==_iff i i).1 refl in
    record {
      logger = rw (e, self) refl;
      others = λ k n. ground (arith, ==_iff k i);
      console = rw (e, self) refl;
      file = rw (e, self) refl;
      syslog = rw (e, self) refl;
      logged = rw (e, self) refl;
    }

thrice : (i : ℕ) (s : Loops) → Loops
thrice i s = loop_on i (loop_on i (loop_on i s))

two_more : (xs : List LogMessage) (m n : LogMessage) → (xs ++ m ∷ []) ++ n ∷ [] ≡ xs ++ m ∷ n ∷ []
two_more xs m n = simp append_assoc

thrice-Reach :
    (i : ℕ) (m : LogMessage) (s : Loops)
    → s.phases i ≡ to_console m
    → Reach unstarted s
    → i < s.logger.queue_threads
    → Reach unstarted (thrice i s)
unfolding worker_in thrice
thrice-Reach i m s e r lt =
    let self = (==_iff i i).1 refl in
    next (next (next r (loops i lt)) (loops i (rw e lt))) (loops i (rw (e, self) lt))

-- In a reachable state with an empty queue and two loops of `ProcessQueue`, from two calls of
-- `Setup`, at the pop, any two messages can be logged in turn such that a reachable state follows
-- in which all three outputs have got the second before the first.
pub Reach-reordered :
    (s : Loops)
    → Reach unstarted s
    → s.logger.queue ≡ []
    → (i j : ℕ) → i < s.logger.queue_threads
    → j < s.logger.queue_threads
    → i ≢ j
    → s.phases i ≡ popping
    → s.phases j ≡ popping
    → (m n : LogMessage)
    → (t : Loops) × Reach unstarted t
      × (t.logged ≡ s.logged ++ m ∷ n ∷ [])
      × (t.console ≡ s.console ++ n ∷ m ∷ [])
      × (t.file ≡ s.file ++ n ∷ m ∷ [])
      × (t.syslog ≡ s.syslog ++ n ∷ m ∷ [])
unfolding push_back thrice
Reach-reordered s r q i j li lj d ei ej m n =
    let s1 = log_on n (log_on m s) in
    let s2 = loop_on i s1 in
    let s3 = loop_on j s2 in
    let s4 = thrice j s3 in
    let t2 = loop_on-Taken i m (n ∷ []) s1 ei (rw q refl) in
    let t3 = loop_on-Taken j n [] s2 (t2.others j (λ e. d (sym e)) ∙ ej) (rw t2.logger refl) in
    let t4 = loop_on-Written j n s3 t3.holds in
    let holds = t4.others i d ∙ t3.others i d ∙ t2.holds in
    let t5 = loop_on-Written i m s4 holds in
    let lj3 : j < s3.logger.queue_threads = rw (t3.logger, t2.logger) lj in
    let li4 : i < s4.logger.queue_threads = rw (t4.logger, t3.logger, t2.logger) li in
    let r2 = next (next (next r (logs m)) (logs n)) (loops i li) in
    let r3 = next r2 (loops j (rw t2.logger lj)) in
    (
      thrice i s4,
      thrice-Reach i m s4 holds (thrice-Reach j n s3 t3.holds r3 lj3) li4,
      t5.logged ∙ t4.logged ∙ t3.logged ∙ t2.logged ∙ two_more s.logged m n,
      t5.console ∙ rw (t4.console, t3.console, t2.console) (two_more s.console n m),
      t5.file ∙ rw (t4.file, t3.file, t2.file) (two_more s.file n m),
      t5.syslog ∙ rw (t4.syslog, t3.syslog, t2.syslog) (two_more s.syslog n m),
    )
