-- ===== src/Log/Appender.antt =====
-- `LogAppender`, `StdoutLogAppender` and `FileLogAppender` of gwn/log.h and gwn/log.cc, with the
-- streams that they write to. A stream's text counts as written at once, and a file that is opened
-- for writing starts empty. Each file has one writer.
pub mod Files
use gwn_framwork.Base.{
  ℕ, ◌+◌, ◌%◌, ◌^◌, Bool, true, false, List, [], ◌∷◌, ◌++◌, Option, none, some, Result, ok, ◌>>=◌,
  deref, leb, if◌then◌else◌, Text, codes, text_eq,
}
use gwn_framwork.Log.Level.{Level, debug, at_least}
use gwn_framwork.Log.Event.{LogEvent}
use gwn_framwork.Log.Formatter.{LogFormatter, FormatEnv, format}

-- The subclass, with the fields of `FileLogAppender`: the file name, the state of the stream, and
-- the time of the last reopening.
pub data Target : Type 0 where
  stdout : Target
  file : Text → Bool → ℕ → Target

pub record Appender : Type 0 where
  pub target : Target
  pub level : Level
  pub has_formatter : Bool
  pub formatter : Option LogFormatter

-- `std::cout` and the files, by name.
pub record Output : Type 0 where
  pub console : Text
  pub files : List (Text × Text)

-- The content of a file; a file that is not there is empty.
unfoldable pub content : Text → List (Text × Text) → Text
content n [] = []
content n ((k, v) ∷ fs) = if text_eq k n then v else content n fs

unfoldable pub put : Text → Text → List (Text × Text) → List (Text × Text)
put n t [] = (n, t) ∷ []
put n t ((k, v) ∷ fs) = if text_eq k n then (n, t) ∷ fs else (k, v) ∷ put n t fs

-- What the library's code reads from the system: whether a file can be opened for writing, and
-- what the format items read.
pub record LogEnv : Type 0 where
  pub can_open : Text → Bool
  pub format_env : FormatEnv

abbrev pub print : Text → Output → Output
print t o = record o { console = o.console ++ t }

-- `LogAppender::setFormatter`.
unfoldable pub set_formatter : Option LogFormatter → Appender → Appender
set_formatter none a = record a { formatter = none; has_formatter = false }
set_formatter (some f) a = record a { formatter = some f; has_formatter = true }

-- `LogAppender::setLevel`.
unfoldable pub set_level : Level → Appender → Appender
set_level lv a = record a { level = lv }

unfoldable pub new_stdout : Appender
new_stdout = record { target = stdout; level = debug; has_formatter = false; formatter = none }

-- `std::ofstream::open`: the file is emptied.
truncate : Bool → Text → Output → Output
truncate true n o = record o { files = put n [] o.files }
truncate false n o = o

-- `FileLogAppender::reopen`, on the file named `n`: the state of the stream afterwards.
unfoldable pub reopen : LogEnv → Text → Output → Bool × Output
unfolding truncate
reopen env n o = (env.can_open n, truncate (env.can_open n) n o)

-- `FileLogAppender::FileLogAppender`.
unfoldable pub new_file : LogEnv → Text → Output → Appender × Output
unfolding reopen
new_file env n o =
    let (good, o') = reopen env n o in
    (record { target = file n good 0; level = debug; has_formatter = false; formatter = none }, o')

-- Formatting into the file's stream; a stream in a failed state takes nothing, and the failure is
-- told on `std::cout`.
unfoldable pub write_file : Bool → Text → Text → Output → Output
write_file true n t o = record o { files = put n (content n o.files ++ t) o.files }
write_file false n t o = print (codes "error\n") o

-- `now >= (m_lastTime + 3)`, on a uint64_t.
unfoldable pub is_stale : ℕ → ℕ → Bool
is_stale now last = leb ((last + 3) % 2 ^ 64) now

-- The reopening in `FileLogAppender::log`: the state of the stream, the time, and the output.
unfoldable pub refresh : LogEnv → Text → Bool → ℕ → ℕ → Output → Bool × ℕ × Output
unfolding is_stale reopen
refresh env n good last now o =
    if is_stale now last
    then (let (good', o') = reopen env n o in (good', now, o'))
    else (good, last, o)

-- The two `log` methods, behind the test of the level.
unfoldable pub log_to :
    LogEnv → Level → LogEvent → Appender → Target → Output → Result (Appender × Output)
unfolding refresh write_file
log_to env lv event a stdout o = do
  f ← deref a.formatter
  ok (a, print (format env.format_env f lv event) o)
log_to env lv event a (file n good last) o = do
  let (good', last', o') = refresh env n good last event.time o
  f ← deref a.formatter
  ok (
    record a { target = file n good' last' },
    write_file good' n (format env.format_env f lv event) o',
  )

-- `StdoutLogAppender::log` and `FileLogAppender::log`.
unfoldable pub log : LogEnv → Level → LogEvent → Appender → Output → Result (Appender × Output)
unfolding log_to
log env lv event a o = if at_least lv a.level then log_to env lv event a a.target o else ok (a, o)
