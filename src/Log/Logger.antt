-- ===== src/Log/Logger.antt =====
-- `Logger` and `LoggerManager` of gwn/log.h and gwn/log.cc. Loggers and appenders are shared: they
-- stand in a store, and are named by their addresses. The locks of a single call are left out.
pub mod Safe
pub mod Operations
pub mod Calls
pub mod Manager
pub mod Macros
use gwn_framwork.Base.{
  text_lt, find_name, ℕ, zero, suc, Bool, List, [], ◌∷◌, ◌++◌, Option, none, some, Result, ok,
  fault, endless, ◌>>=◌, deref, ◌==◌, if◌then◌else◌, length, get_elem?, set, Text, codes,
}
use gwn_framwork.Log.Level.{Level, debug, at_least}
use gwn_framwork.Log.Event.{LogEvent}
use gwn_framwork.Log.Formatter.{LogFormatter, new_formatter}
use gwn_framwork.Log.Appender.{Appender, Output, LogEnv, print, new_stdout}
use gwn_framwork.Log.Appender

pub record Logger : Type 0 where
  pub name : Text
  pub level : Level
  pub appenders : List ℕ
  pub formatter : Option LogFormatter
  pub root : Option ℕ

-- The loggers, the appenders, the output, and the manager's `m_loggers` and `m_root`.
pub record World : Type 0 where
  pub loggers : List Logger
  pub appenders : List Appender
  pub output : Output
  pub names : List (Text × ℕ)
  pub root : ℕ

-- What is read from the system.
pub record Sys : Type 0 where
  pub can_open : Text → Bool
  pub local_strftime : Text → ℕ → Text

abbrev name_or_empty : Option Logger → Text
name_or_empty none = []
name_or_empty (some l) = l.name

abbrev pub env_of : Sys → World → LogEnv
env_of sys w = record {
  can_open = sys.can_open;
  format_env = record {
    logger_name = λ a. name_or_empty (get_elem? w.loggers a);
    local_strftime = sys.local_strftime;
  };
}

abbrev pub logger_at : World → ℕ → Result Logger
logger_at w a = deref (get_elem? w.loggers a)

abbrev pub appender_at : World → ℕ → Result Appender
appender_at w i = deref (get_elem? w.appenders i)

abbrev pub set_logger : ℕ → Logger → World → World
set_logger a l w = record w { loggers = set w.loggers a l }

abbrev pub set_appender : ℕ → Appender → World → World
set_appender i p w = record w { appenders = set w.appenders i p }

abbrev pub say : Text → World → World
say t w = record w { output = print t w.output }

-- `Logger::Logger`.
unfoldable pub new_logger : Text → Option ℕ → Logger
new_logger name root = record {
  name = name;
  level = debug;
  appenders = [];
  formatter = new_formatter (codes "%d{%Y-%m-%d %H:%M:%S}%T%t%T%N%T%F%T[%p]%T[%c]%T%f:%l%T%m%n");
  root = root;
}

-- The loop of `setFormatter` over the appenders.
unfoldable pub share : Option LogFormatter → List ℕ → List Appender → Result (List Appender)
share val [] ps = ok ps
share val (i ∷ is) ps = do
  p ← deref (get_elem? ps i)
  share val is (set ps i (if p.has_formatter then p else record p { formatter = val }))

-- `Logger::setFormatter(LogFormatter::ptr)`.
unfoldable pub set_formatter : ℕ → Option LogFormatter → World → Result World
set_formatter a val w = do
  l ← logger_at w a
  ps ← share val l.appenders w.appenders
  ok (record (set_logger a (record l { formatter = val }) w) { appenders = ps })

-- `Logger::setFormatter(const std::string&)`.
unfoldable pub set_pattern : ℕ → Text → World → Result World
set_pattern a val w = do
  l ← logger_at w a
  let w' = say (codes "---" ++ (val ++ codes "\n")) w
  f ← deref (new_formatter val)
  if f.error
      then ok (
          say
            (codes "Logger setFormatter name="
              ++ (l.name ++ (codes " value=" ++ (val ++ codes " invalid formatter\n"))))
            w')
      else set_formatter a (some f) w'

abbrev or_formatter : Option LogFormatter → Appender → Appender
or_formatter val p = elim p.formatter [ none ↦ record p { formatter = val } | some f ↦ p ]

-- `Logger::addAppender`.
unfoldable pub add_appender : ℕ → ℕ → World → Result World
add_appender a i w = do
  l ← logger_at w a
  p ← appender_at w i
  ok (
      set_logger a (record l { appenders = l.appenders ++ i ∷ [] })
        (set_appender i (or_formatter l.formatter p) w))

unfoldable pub remove_first : ℕ → List ℕ → List ℕ
remove_first i [] = []
remove_first i (j ∷ js) = if j == i then js else j ∷ remove_first i js

-- `Logger::delAppender`.
unfoldable pub del_appender : ℕ → ℕ → World → Result World
unfolding remove_first
del_appender a i w = do
  l ← logger_at w a
  ok (set_logger a (record l { appenders = remove_first i l.appenders }) w)

-- `Logger::clearAppenders`.
unfoldable pub clear_appenders : ℕ → World → Result World
clear_appenders a w = do l ← logger_at w a; ok (set_logger a (record l { appenders = [] }) w)

-- `Logger::setLevel`.
unfoldable pub set_level : ℕ → Level → World → Result World
set_level a lv w = do l ← logger_at w a; ok (set_logger a (record l { level = lv }) w)

-- The loop of `Logger::log` over the appenders.
unfoldable pub log_all :
    LogEnv → Level → LogEvent → List ℕ → List Appender → Output → Result (List Appender × Output)
log_all env lv event [] ps o = ok (ps, o)
log_all env lv event (i ∷ is) ps o = do
  p ← deref (get_elem? ps i)
  (p', o') ← Appender.log env lv event p o
  log_all env lv event is (set ps i p') o'

unfoldable pub log_own : Sys → Level → LogEvent → List ℕ → World → Result World
unfolding log_all
log_own sys lv event is w = do
  (ps, o) ← log_all (env_of sys w) lv event is w.appenders w.output
  ok (record w { appenders = ps; output = o })

-- `Logger::log`. A logger with no appender of its own hands the event to its root logger: the fuel
-- bounds the length of that chain.
unfoldable pub log : ℕ → Sys → ℕ → Level → LogEvent → World → Result World
unfolding log_own
log zero sys a lv event w = fault endless
log (suc n) sys a lv event w = do
  l ← logger_at w a
  if at_least lv l.level
      then elim l.appenders [
        | [] ↦ elim l.root [ none ↦ ok w | some r ↦ log n sys r lv event w ]
        | i ∷ is ↦ log_own sys lv event (i ∷ is) w
      ]
      else ok w

-- `LoggerManager::LoggerManager`: the root logger, with a `StdoutLogAppender`.
unfoldable pub new_manager : World
new_manager =
    let root = new_logger (codes "root") none in
    record {
      loggers = record root { appenders = 0 ∷ [] } ∷ [];
      appenders = or_formatter root.formatter new_stdout ∷ [];
      output = record { console = []; files = [] };
      names = (codes "root", 0) ∷ [];
      root = 0;
    }

-- `m_loggers[name] = logger` of a new name, in a map that is ordered by the names.
unfoldable pub insert_name : Text → ℕ → List (Text × ℕ) → List (Text × ℕ)
insert_name n a [] = (n, a) ∷ []
insert_name n a ((k, b) ∷ m) =
    let rest = insert_name n a m in if text_lt n k then (n, a) ∷ (k, b) ∷ m else (k, b) ∷ rest

unfoldable pub found_or_new : Text → World → Option ℕ → ℕ × World
unfolding insert_name
found_or_new name w (some a) = (a, w)
found_or_new name w none = (
  length w.loggers,
  record w {
    loggers = w.loggers ++ new_logger name (some w.root) ∷ [];
    names = insert_name name (length w.loggers) w.names;
  },
)

-- `LoggerManager::getLogger`.
unfoldable pub get_logger : Text → World → ℕ × World
unfolding found_or_new find_name
get_logger name w = found_or_new name w (find_name name w.names)
