-- ===== src/Log.antt =====
-- libcocao/log.h and libcocao/log.cc: levels, the formatter, and how a logger hands an event on. Texts
-- are lists of characters. strftime with localtime_r, time and opening a file are parameters, and so
-- is the printing of numbers.
pub mod Dispatch
pub mod Pattern
mod Runs
use Prim.Native.Char.{code}
use Prim.Native.String.{String}
use libcocao.Base.{
  ℕ, zero, suc, ◌+◌, Bool, true, false, not, Option, none, some, List, [], ◌∷◌, ◌++◌, leb, ◌==◌,
  if◌then◌else◌, is_empty, length,
}

-- The characters of a text.
abbrev pub codes : (text : String) → List ℕ
codes String.[] = []
codes (String.◌∷◌ letter rest) = code letter ∷ codes rest

-- LogLevel::Level.
pub data Level : Type 0 where
  unknow debug info warn error fatal : Level

-- The number of a level, by which levels are compared.
unfoldable pub rank : Level → ℕ
rank unknow = 0
rank debug = 1
rank info = 2
rank warn = 3
rank error = 4
rank fatal = 5

abbrev pub text_eq : List ℕ → List ℕ → Bool
text_eq [] [] = true
text_eq [] (y ∷ ys) = false
text_eq (x ∷ xs) [] = false
text_eq (x ∷ xs) (y ∷ ys) = if x == y then text_eq xs ys else false

-- LogLevel::ToString.
pub level_to_string : Level → List ℕ
level_to_string unknow = codes "UNKNOW"
level_to_string debug = codes "DEBUG"
level_to_string info = codes "INFO"
level_to_string warn = codes "WARN"
level_to_string error = codes "ERROR"
level_to_string fatal = codes "FATAL"

-- LogLevel::FromString.
pub level_from_string : List ℕ → Level
level_from_string s =
    if text_eq (codes "DEBUG") s
    then debug
    else if text_eq (codes "INFO") s
    then info
    else if text_eq (codes "WARN") s
    then warn
    else if text_eq (codes "ERROR") s
    then error
    else if text_eq (codes "FATAL") s
    then fatal
    else unknow

-- LogEvent: the members that a format item prints.
pub record LogEvent : Type 0 where
  pub level : Level
  pub file : List ℕ
  pub line : ℕ
  pub elapse : ℕ
  pub thread_id : ℕ
  pub fiber_id : ℕ
  pub time : ℕ
  pub content : List ℕ

-- The classes of format items.
pub data FormatItem : Type 0 where
  string : ℕ → FormatItem
  date_time tab new_line elapse_item thread_item level_item fiber_item file_item line_item message :
      FormatItem

-- The branches of LogFormatter::init for one character of the pattern.
pub item_of : ℕ → FormatItem
item_of c =
    if c == b'T'
    then tab
    else if c == b'd'
    then date_time
    else if c == b'm'
    then elapse_item
    else if c == b't'
    then thread_item
    else if c == b'l'
    then level_item
    else if c == b'F'
    then fiber_item
    else if c == b'f'
    then file_item
    else if c == b'r'
    then line_item
    else if c == b'C'
    then message
    else string c

-- LogFormatter::init: m_items.
pub formatter_init : List ℕ → List FormatItem
unfolding item_of
formatter_init [] = new_line ∷ []
formatter_init (c ∷ cs) = item_of c ∷ formatter_init cs

-- The default pattern of LogFormatter::LogFormatter.
abbrev pub default_pattern : List ℕ
default_pattern = codes "dTmTtTlTFTf:rTC"

module _ (show : ℕ → List ℕ) (date : ℕ → List ℕ) where
  -- FormatItem::format of each class.
  pub format_item : Level → LogEvent → FormatItem → List ℕ
  unfolding level_to_string
  format_item l e (string c) = c ∷ []
  format_item l e date_time = date e.time
  format_item l e tab = 9 ∷ []
  format_item l e new_line = 10 ∷ []
  format_item l e elapse_item = show e.elapse
  format_item l e thread_item = show e.thread_id
  format_item l e level_item = level_to_string l
  format_item l e fiber_item = show e.fiber_id
  format_item l e file_item = e.file
  format_item l e line_item = show e.line
  format_item l e message = e.content

  -- LogFormatter::format.
  pub format : List FormatItem → Level → LogEvent → List ℕ
  unfolding format_item
  format [] l e = []
  format (i ∷ is) l e = format_item l e i ++ format is l e

-- LoggerAppender, by the place where it stands: `formatter` is the null pointer at first. Nothing
-- initializes m_level, so the level is what the caller has set.
pub record Appender : Type 0 where
  pub id : ℕ
  pub level : Level
  pub formatter : Option (List FormatItem)

-- Logger. `root` is m_root, null or not.
pub record Logger : Type 0 where
  pub name : List ℕ
  pub level : Level
  pub formatter : List FormatItem
  pub appenders : List Appender
  pub has_root : Bool

-- Logger::Logger.
pub logger_new : List ℕ → Logger
unfolding formatter_init
logger_new name = record {
  name = name;
  level = debug;
  formatter = formatter_init default_pattern;
  appenders = [];
  has_root = false;
}

-- Logger::addAppender.
pub add_appender : Appender → Logger → Logger
add_appender a l = record l {
  appenders =
      l.appenders
      ++ (elim a.formatter [ none ↦ record a { formatter = some l.formatter } | some f ↦ a ]) ∷ [];
}

-- The loop of Logger::delAppender: the first one that is the same pointer.
pub del_first : ℕ → List Appender → List Appender
del_first id [] = []
del_first id (a ∷ rest) = if a.id == id then rest else a ∷ del_first id rest

pub del_appender : ℕ → Logger → Logger
unfolding del_first
del_appender id l = record l { appenders = del_first id l.appenders }

-- Logger::clearAppenders.
pub clear_appenders : Logger → Logger
clear_appenders l = record l { appenders = [] }

-- What reaches an appender: its id and the text.
abbrev pub Output : Type 0
Output = List (ℕ × List ℕ)

module _ (show : ℕ → List ℕ) (date : ℕ → List ℕ) where
  -- StdoutLogAppender::log and FileLogAppender::log, without the reopening of the file. `none` is a
  -- call through a null formatter.
  pub appender_log : Level → LogEvent → Appender → Option Output
  unfolding rank format
  appender_log l e a =
      let text : Option Output = elim a.formatter [
        | none ↦ none
        | some f ↦ some ((a.id, format show date f l e) ∷ [])
      ] in
      if leb (rank a.level) (rank l) then text else some []

  -- The loop over m_appenders.
  pub appenders_log : Level → LogEvent → List Appender → Option Output
  unfolding appender_log
  appenders_log l e [] = some []
  appenders_log l e (a ∷ rest) = elim (appender_log l e a) [
    | none ↦ none
    | some o ↦ elim (appenders_log l e rest) [ none ↦ none | some os ↦ some (o ++ os) ]
  ]

  -- Logger::log of a logger without a root.
  pub root_log : Level → LogEvent → Logger → Option Output
  unfolding rank appenders_log
  root_log l e r = if leb (rank r.level) (rank l) then appenders_log l e r.appenders else some []

  -- Logger::log, with the root logger that m_root points to.
  pub log : Logger → Level → LogEvent → Logger → Option Output
  unfolding rank appenders_log root_log
  log root l e r =
      if leb (rank r.level) (rank l)
      then (if is_empty r.appenders
          then (if r.has_root then root_log l e root else some [])
          else appenders_log l e r.appenders)
      else some []

-- LoggerManager: m_loggers as an association list. A pointer to a logger is its place in the list,
-- and the first one is the root.
pub record LoggerManager : Type 0 where
  pub loggers : List (List ℕ × Logger)

-- LoggerManager::LoggerManager; `stdout` is its StdoutLogAppender.
pub manager_new : Appender → LoggerManager
unfolding logger_new add_appender
manager_new stdout = record {
  loggers = (codes "root", add_appender stdout (logger_new (codes "root"))) ∷ [];
}

pub find_logger : List ℕ → List (List ℕ × Logger) → Option ℕ
find_logger name [] = none
find_logger name ((n, l) ∷ ls) =
    let later : Option ℕ = elim (find_logger name ls) [ none ↦ none | some i ↦ some (suc i) ] in
    if text_eq n name then some 0 else later

-- LoggerManager::getLogger: the pointer.
pub get_logger : List ℕ → LoggerManager → ℕ × LoggerManager
unfolding find_logger logger_new
get_logger name m = elim (find_logger name m.loggers) [
  | some i ↦ (i, m)
  | none ↦ (
    length m.loggers,
    record m { loggers = m.loggers ++ (name, record (logger_new name) { has_root = true }) ∷ [] },
  )
]
