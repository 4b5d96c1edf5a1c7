-- ===== src/Example/Early.antt =====
-- `main` may return before anything is written.
use ss_logger_cpp.Prelude.{ℕ, zero, suc, ◌<◌, ◌≡◌, refl, arith, Bytes, [], length, ==_iff}
use ss_logger_cpp.Logger.Message.{to_filter}
use ss_logger_cpp.Logger.State.{
  setup, setup_with, set_sink, set_sink_filter, set_sink_formatter, set_attributes, log, log_debug,
  log_error, log_warning,
}
use ss_logger_cpp.Queue.Contents.{push_back}
use ss_logger_cpp.Example.{
  returned, Program, started, main_in, speak, goes, speaks, Reach, here, next, begun,
}

main_times : ℕ → Program → Program
main_times zero p = p
main_times (suc k) p = let q = main_times k p in main_in q.place q

module _ (location : Bytes) where
  abbrev Run : Program → Type 0
  Run p = Reach location begun p

  main_times-Run : (k : ℕ) (p : Program) → Run p → Run (main_times k p)
  unfolding main_times
  main_times-Run zero p r = r
  main_times-Run (suc k) p r = next (main_times-Run k p r) goes

  -- All lines of one thread.
  abbrev speak_all : ℕ → Program → Program
  speak_all i p = speak location i (speak location i (speak location i p))

  speak_all-Run :
      (i : ℕ) (p : Program) → i < started p.place → p.lines i ≡ 0 → Run p → Run (speak_all i p)
  speak_all-Run i p lt e r =
      let self = (==_iff i i).1 refl in
      next
        (next (next r (speaks i lt (omega (arith, e)))) (speaks i lt (rw self (omega (arith, e)))))
        (speaks i lt (rw self (omega (arith, e))))

  -- The threads speak one after the other between the two loops of `main`.
  pub early : Program
  early =
      let ready = main_times 7 begun in
      main_times 6 (speak_all 4 (speak_all 3 (speak_all 2 (speak_all 1 (speak_all 0 ready)))))

  -- The example program reaches a state in which `main` has returned, fifteen messages were logged,
  -- and none of the three outputs has got one of them.
  pub Reach-early :
      Reach location begun early
      × (early.place ≡ returned)
      × (length early.loops.logged ≡ 15)
      × (early.loops.console ≡ [])
      × (early.loops.file ≡ [])
      × (early.loops.syslog ≡ [])
  unfolding early main_times main_in setup setup_with set_sink set_sink_filter set_sink_formatter
      set_attributes to_filter log log_debug log_error log_warning push_back
  Reach-early = (
    main_times-Run 6 _ (
        speak_all-Run 4 _ (omega arith) refl (
          speak_all-Run 3 _ (omega arith) refl (
            speak_all-Run 2 _ (omega arith) refl (
              speak_all-Run 1 _ (omega arith) refl
                (speak_all-Run 0 _ (omega arith) refl (main_times-Run 7 begun here)))))),
    refl,
    refl,
    refl,
    refl,
    refl,
  )
