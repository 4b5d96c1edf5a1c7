-- ===== src/Tests/Example.antt =====
-- The example program at the run in which nothing is written.
use ss_logger_cpp.Prelude.{◌+◌, ◌*◌, ◌≡◌, Bytes, codes, [], length}
use ss_logger_cpp.Logger.Worker.Many.Kept.{amount, IsKept}
use ss_logger_cpp.Example.{returned, Reach, begun}
use ss_logger_cpp.Example.Reached.{Reach-spoken}
use ss_logger_cpp.Example.Early.{early, Reach-early}

abbrev name : Bytes
name = codes "operator()"

Reach-early_example :
    Reach name begun (early name)
    × ((early name).place ≡ returned)
    × (length (early name).loops.logged ≡ 15)
    × ((early name).loops.console ≡ [])
    × ((early name).loops.file ≡ [])
    × ((early name).loops.syslog ≡ [])
Reach-early_example = Reach-early name

Reach-spoken_example :
    (amount (λ _. 1) (early name).loops.logged ≡ 5 * (1 + 1 + 1))
    × IsKept (λ _. 1) (early name).loops
Reach-spoken_example =
    Reach-spoken name (λ _. 1) (early name) (Reach-early name).0 (Reach-early name).1
