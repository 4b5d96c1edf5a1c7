-- ===== src/Tests/Threads.antt =====
-- The theorems on the queue, the logger and the pool at concrete states.
use ss_logger_cpp.Prelude.{ℕ, ◌≡◌, refl, arith, false, List, [], ◌∷◌, ◌++◌, codes}
use ss_logger_cpp.Queue.Contents
use ss_logger_cpp.Queue.Contents.{taken, pop_back-none, pop_back-some}
use ss_logger_cpp.Queue.Deque.{
  FcDeque, new_queue, push_back, push_front, pop_front, pop_back, copy_front_and_rotate_to_back,
}
use ss_logger_cpp.Queue.Refines.{seen, queue-refines}
use ss_logger_cpp.Config.Defs.{default_config}
use ss_logger_cpp.Logger.Message.{LogMessage, prod, to_filter}
use ss_logger_cpp.Logger.State.{
  initial, setup, setup_with, set_sink_filter, set_attributes, set_sink, set_sink_formatter,
}
use ss_logger_cpp.Logger.Worker.{worker, worker_in, log_message, here, next, works, logs, started}
use ss_logger_cpp.Logger.Worker.Order.{IsOrdered, Reach-IsOrdered}
use ss_logger_cpp.Logger.Worker.Many
use ss_logger_cpp.Logger.Worker.Many.{unstarted, loop_on, log_on}
use ss_logger_cpp.Logger.Worker.Many.Kept.{IsKept, Reach-IsKept}
use ss_logger_cpp.Logger.Worker.Many.Reordered.{Reach-reordered}

-- Lists are a deque.
abbrev list_deque : FcDeque ℕ
list_deque = record {
  Deque = List ℕ;
  empty = [];
  push_back = λ d a. d ++ a ∷ [];
  push_front = λ d a. a ∷ d;
  pop_front = Contents.pop_front;
  pop_back = Contents.pop_back;
  contents = λ d. d;
  empty_contents = refl;
  push_back_contents = λ d a. refl;
  push_front_contents = λ d a. refl;
  pop_front_none = Contents.pop_front-none;
  pop_front_some = Contents.pop_front-some;
  pop_back_none = pop_back-none;
  pop_back_some = pop_back-some;
}

queue-refines_example :
    (new_queue list_deque ≡ [])
    × (push_back list_deque (1 ∷ 2 ∷ []) 3 ≡ Contents.push_back (1 ∷ 2 ∷ []) 3)
    × (push_front list_deque (1 ∷ 2 ∷ []) 3 ≡ Contents.push_front (1 ∷ 2 ∷ []) 3)
    × (seen list_deque (pop_front list_deque (1 ∷ 2 ∷ []))
        ≡ taken (1 ∷ 2 ∷ []) (Contents.pop_front (1 ∷ 2 ∷ [])))
    × (seen list_deque (pop_back list_deque (1 ∷ 2 ∷ []))
        ≡ taken (1 ∷ 2 ∷ []) (Contents.pop_back (1 ∷ 2 ∷ [])))
    × (seen list_deque (copy_front_and_rotate_to_back list_deque (1 ∷ 2 ∷ []))
        ≡ Contents.rotate (1 ∷ 2 ∷ []))
queue-refines_example = queue-refines list_deque (1 ∷ 2 ∷ []) 3

abbrev hello : LogMessage
hello = record { message = codes "hello"; log_level = prod; function_name = codes "main" }

Reach-IsOrdered_example : IsOrdered (worker (log_message hello (started initial)))
Reach-IsOrdered_example = Reach-IsOrdered {lg = initial} (next (next here (logs hello)) works)

-- After `Setup` a message is logged, and the one loop takes it to the three outputs.
abbrev set_up : Many.Loops
set_up = record unstarted { logger = setup_with 2 false initial }

abbrev written : Many.Loops
written = loop_on 0 (loop_on 0 (loop_on 0 (loop_on 0 (log_on hello set_up))))

written-Reach : Many.Reach unstarted written
unfolding setup setup_with set_sink_filter set_attributes set_sink set_sink_formatter to_filter
    worker_in Contents.pop_front Contents.push_back
written-Reach =
    Many.next
      (Many.next
        (Many.next (Many.next logged (Many.loops 0 (omega arith))) (Many.loops 0 (omega arith)))
        (Many.loops 0 (omega arith)))
      (Many.loops 0 (omega arith))
  where
    logged : Many.Reach unstarted (log_on hello set_up)
    logged =
        Many.next
          (Many.next Many.here
            (Many.sets_up default_config.logging (setup_with 2 false initial) refl))
          (Many.logs hello)

Reach-IsKept_example : IsKept (λ _. 1) written
Reach-IsKept_example = Reach-IsKept (λ _. 1) written-Reach

-- After two calls of `Setup`.
abbrev set_up_twice : Many.Loops
set_up_twice = record unstarted { logger = setup_with 2 false (setup_with 2 false initial) }

abbrev goodbye : LogMessage
goodbye = record hello { message = codes "goodbye" }

set_up_twice-Reach : Many.Reach unstarted set_up_twice
unfolding setup setup_with set_sink_filter set_attributes set_sink set_sink_formatter to_filter
set_up_twice-Reach =
    let config = default_config.logging in
    Many.next (Many.next Many.here (Many.sets_up config (setup_with 2 false initial) refl))
      (Many.sets_up config (setup_with 2 false (setup_with 2 false initial)) refl)

Reach-reordered_example :
    (t : Many.Loops) × Many.Reach unstarted t
    × (t.logged ≡ hello ∷ goodbye ∷ [])
    × (t.console ≡ goodbye ∷ hello ∷ [])
    × (t.file ≡ goodbye ∷ hello ∷ [])
    × (t.syslog ≡ goodbye ∷ hello ∷ [])
unfolding setup_with set_sink_filter set_attributes set_sink set_sink_formatter
Reach-reordered_example =
    Reach-reordered set_up_twice set_up_twice-Reach refl 0 1 (omega arith) (omega arith)
      (λ e. omega (arith, e)) refl refl hello goodbye
