-- ===== src/Log/Runs.antt =====
-- Runs of the log of libcocao/log.cc.
use libcocao.Base.{
  ℕ, ◌≡◌, refl, ◌↔◌, true, none, some, List, [], ◌∷◌, ◌++◌, leb, if◌then◌else◌, is_empty,
}
use libcocao.Log.{
  Level, debug, warn, error, rank, LogEvent, codes, formatter_init, format, Appender, logger_new,
  log, LoggerManager, manager_new, get_logger,
}
use libcocao.Log.Dispatch.{Call, adds, dels, run, delivered, log_lem}
use libcocao.Log.Pattern.{get_all, get_logger_stable}

-- Numbers of one digit, and no date.
abbrev show : ℕ → List ℕ
show n = n ∷ []

abbrev date : ℕ → List ℕ
date t = codes "now"

abbrev event : LogEvent
event = record {
  level = error;
  file = codes "a.cc";
  line = 7;
  elapse = 1;
  thread_id = 2;
  fiber_id = 3;
  time = 4;
  content = codes "hi";
}

a_line :
    format show date (formatter_init (codes "l f:rTC")) error event
    ≡ codes "ERROR a.cc:" ++ 7 ∷ 9 ∷ codes "hi" ++ 10 ∷ []
unfolding format formatter_init
a_line = refl

abbrev at : ℕ → Level → Appender
at id l = record { id = id; level = l; formatter = none }

abbrev own : List Call
own = adds (at 1 debug) ∷ adds (at 2 error) ∷ adds (at 3 debug) ∷ dels 1 ∷ []

log_lem_example :
    log show date
      (run (logger_new (codes "root")) [])
      warn
      event
      (run (record (logger_new (codes "x")) { has_root = true }) own)
    ≡ some (
        if leb
          (rank (run (record (logger_new (codes "x")) { has_root = true }) own).level)
          (rank warn)
        then (if is_empty (run (record (logger_new (codes "x")) { has_root = true }) own).appenders
            then (if (run (record (logger_new (codes "x")) { has_root = true }) own).has_root
                then (if leb (rank (run (logger_new (codes "root")) []).level) (rank warn)
                    then delivered show date warn event
                        (run (logger_new (codes "root")) []).appenders
                    else [])
                else [])
            else delivered show date warn event
                (run (record (logger_new (codes "x")) { has_root = true }) own).appenders)
        else [])
log_lem_example = log_lem show date (codes "x") own [] true warn event

abbrev manager : LoggerManager
manager = manager_new (at 0 debug)

get_logger_stable_example :
    let got = get_logger (codes "system") manager in
    let later = get_all (codes "http" ∷ codes "system" ∷ []) got.1 in
    ((get_logger (codes "http") later).0 ≡ got.0) ↔ (codes "system" ≡ codes "http")
get_logger_stable_example =
    get_logger_stable manager (codes "system") (codes "http") (codes "http" ∷ codes "system" ∷ [])
