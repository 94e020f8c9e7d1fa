-- ===== src/Log/Dispatch.antt =====
-- Which appenders a logger of libcocao/log.cc hands an event to.
use libcocao.Base.{
  ℕ, ◌≡◌, refl, inl, inr, Bool, Option, none, some, List, [], ◌∷◌, ◌++◌, leb, ◌==◌, if◌then◌else◌,
  Bool-cases, is_empty, All, arith,
}
use libcocao.Log.{
  Level, rank, LogEvent, FormatItem, codes, format, Appender, Logger, logger_new, add_appender,
  del_first, del_appender, clear_appenders, Output, appender_log, appenders_log, root_log, log,
}

-- What a program does with a logger.
pub data Call : Type 0 where
  adds : Appender → Call
  dels : ℕ → Call
  clears : Call

pub step : Logger → Call → Logger
unfolding add_appender
step l (adds a) = add_appender a l
step l (dels id) = del_appender id l
step l clears = clear_appenders l

pub run : Logger → List Call → Logger
unfolding step
run l [] = l
run l (c ∷ cs) = run (step l c) cs

-- The appender has a formatter.
record Formatted (a : Appender) : Type 0 where
  items : List FormatItem
  has_items : a.formatter ≡ some items

All-append :
    (xs ys : List Appender) → All Formatted xs → All Formatted ys → All Formatted (xs ++ ys)
All-append [] ys h k = k
All-append (a ∷ rest) ys h k = (h.0, All-append rest ys h.1 k)

All-del_first : (id : ℕ) (bs : List Appender) → All Formatted bs → All Formatted (del_first id bs)
unfolding del_first
All-del_first id [] h = tt
All-del_first id (a ∷ rest) h = elim (Bool-cases (a.id == id)) [
  | inl e ↦ rw e h.1
  | inr e ↦ rw e (h.0, All-del_first id rest h.1)
]

step-Formatted :
    (l : Logger) (c : Call) → All Formatted l.appenders → All Formatted (step l c).appenders
unfolding step del_appender clear_appenders
step-Formatted l (adds a) h = All-append l.appenders _ h (given a a.formatter refl, tt)
  where
    given :
        (a : Appender) (f : Option (List FormatItem))
        → a.formatter ≡ f
        → Formatted (elim f [ none ↦ record a { formatter = some l.formatter } | some g ↦ a ])
    given a none e = record { items = l.formatter; has_items = refl }
    given a (some g) e = record { items = g; has_items = e }
step-Formatted l (dels id) h = All-del_first id l.appenders h
step-Formatted l clears h = tt

run-Formatted :
    (l : Logger) (cs : List Call) → All Formatted l.appenders → All Formatted (run l cs).appenders
unfolding run
run-Formatted l [] h = h
run-Formatted l (c ∷ cs) h = run-Formatted (step l c) cs (step-Formatted l c h)

module _ (show : ℕ → List ℕ) (date : ℕ → List ℕ) where
  -- The texts of the appenders whose level the event reaches, in their order.
  pub delivered : Level → LogEvent → List Appender → Output
  delivered l e [] = []
  delivered l e (a ∷ rest) =
      let text : List ℕ = elim a.formatter [ none ↦ [] | some f ↦ format show date f l e ] in
      let later = delivered l e rest in
      if leb (rank a.level) (rank l) then (a.id, text) ∷ later else later

  appenders_log_lem :
      (l : Level) (e : LogEvent) (bs : List Appender)
      → All Formatted bs
      → appenders_log show date l e bs ≡ some (delivered l e bs)
  unfolding appenders_log delivered
  appenders_log_lem l e [] h = refl
  appenders_log_lem l e (a ∷ rest) (h, hs) = elim (Bool-cases (leb (rank a.level) (rank l))) [
    | inl q ↦
        rw (q, h.has_items, appenders_log_lem l e rest hs, appenders_log, appender_log, delivered)
          refl
    | inr q ↦ rw (q, appenders_log_lem l e rest hs, appenders_log, appender_log, delivered) refl
  ]

  log_of :
      (root r : Logger) (l : Level) (e : LogEvent)
      → appenders_log show date l e root.appenders ≡ some (delivered l e root.appenders)
      → appenders_log show date l e r.appenders ≡ some (delivered l e r.appenders)
      → log show date root l e r
        ≡ some (
            if leb (rank r.level) (rank l)
            then (if is_empty r.appenders
                then (if r.has_root
                    then (if leb (rank root.level) (rank l)
                        then delivered l e root.appenders
                        else [])
                    else [])
                else delivered l e r.appenders)
            else [])
  unfolding log root_log
  log_of root r l e from_root from_own = ground (arith, from_root, from_own)

  -- A logger and the root logger after any histories of adding and deleting appenders. No call goes
  -- through a null formatter, and an event below the logger's level reaches nobody. Another one
  -- reaches just the logger's own appenders with a level not above the event's, in their order; and
  -- if it has none, those of the root logger, if the root's level lets it pass.
  pub log_lem :
      (name : List ℕ) (own roots : List Call) (has_root : Bool) (l : Level) (e : LogEvent)
      → let root = run (logger_new (codes "root")) roots in
        let r = run (record (logger_new name) { has_root = has_root }) own in
        log show date root l e r
        ≡ some (
            if leb (rank r.level) (rank l)
            then (if is_empty r.appenders
                then (if r.has_root
                    then (if leb (rank root.level) (rank l)
                        then delivered l e root.appenders
                        else [])
                    else [])
                else delivered l e r.appenders)
            else [])
  unfolding log root_log logger_new
  log_lem name own roots has_root l e =
      let root = run (logger_new (codes "root")) roots in
      let r = run (record (logger_new name) { has_root = has_root }) own in
      log_of root r l e
        (appenders_log_lem l e root.appenders (run-Formatted (logger_new (codes "root")) roots tt))
        (appenders_log_lem l e r.appenders
          (run-Formatted (record (logger_new name) { has_root = has_root }) own tt))
