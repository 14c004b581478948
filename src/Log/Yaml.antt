-- ===== src/Log/Yaml.antt =====
-- How definitions, appenders, loggers and their manager are written as YAML: the `toYamlString`
-- methods and `LexicalCast<LogDefine, std::string>` of gwn/log.cc. `none` is an exception. The locks
-- are left out.
pub mod Fields
pub mod Defines
pub mod Loggers
pub mod Managers
pub mod Variable
use gwn_framwork.Base.{
  ℕ, Bool, true, false, not, ◌&&◌, List, [], ◌∷◌, Option, none, some, Result, ok, ◌>>=◌, deref,
  and_then, ◌==◌, if◌then◌else◌, is_empty, get_elem?, Text, codes,
}
use gwn_framwork.Yaml.{Yaml}
use gwn_framwork.Log.Level.{Level, unknow, to_ℕ, to_string}
use gwn_framwork.Log.Formatter.{LogFormatter}
use gwn_framwork.Log.Appender.{Appender, Target, stdout, file}
use gwn_framwork.Log.Logger.{Logger, World, logger_at}
use gwn_framwork.Log.Define.{LogAppenderDefine, LogDefine}
use gwn_framwork.Log.Define.Reading.{read_define}

-- `level != LogLevel::UNKNOW`.
abbrev pub is_known : Level → Bool
is_known l = not (to_ℕ l == to_ℕ unknow)

abbrev pub pattern_of : Option LogFormatter → Text
pattern_of none = []
pattern_of (some f) = f.pattern

-- `if(formatter)`.
abbrev pub is_some : Option LogFormatter → Bool
is_some none = false
is_some (some f) = true

-- An exception ends the method.
abbrev or_throw {ℓ κ} :
    {A : Type ℓ} {B : Type κ} → Option A → (A → Result (Option B)) → Result (Option B)
or_throw none next = ok none
or_throw (some a) next = next a

module _ (y : Yaml) where
  -- `if(given) n[key] = t;`.
  unfoldable pub entry : Bool → Text → Text → y.node → y.node
  entry given key t n = if given then y.assign n key (y.text t) else n

  -- `n[key]` for writing: a key that is not there has an empty node.
  abbrev or_null : Option y.node → y.node
  or_null none = y.null
  or_null (some m) = m

  -- `n["appenders"].push_back(m)`.
  unfoldable pub push_appender : y.node → y.node → y.node
  push_appender m n =
      y.assign n (codes "appenders") (y.push_back (or_null (y.field n (codes "appenders"))) m)

  -- The entries of the two kinds of appenders.
  unfoldable pub file_node : Text → y.node
  unfolding entry
  file_node name =
      entry true (codes "file") name (entry true (codes "type") (codes "FileLogAppender") y.null)

  unfoldable pub stdout_node : y.node
  unfolding entry
  stdout_node = entry true (codes "type") (codes "StdoutLogAppender") y.null

  -- The level and the formatter, which appenders, loggers and definitions have.
  unfoldable pub settings : Level → Bool → Text → y.node → y.node
  unfolding entry
  settings l given pattern n =
      entry given (codes "formatter") pattern (entry (is_known l) (codes "level") (to_string l) n)

  -- One appender of a definition.
  unfoldable pub define_item : LogAppenderDefine → y.node
  unfolding file_node stdout_node settings
  define_item a =
      settings a.level (not (is_empty a.formatter)) a.formatter
        (if a.type == 1 then file_node a.file else if a.type == 2 then stdout_node else y.null)

  -- The loop over the appenders of a definition.
  unfoldable pub push_appenders : List y.node → y.node → y.node
  unfolding push_appender
  push_appenders [] n = n
  push_appenders (m ∷ l) n = push_appenders l (push_appender m n)

  define_items : List LogAppenderDefine → List y.node
  unfolding define_item
  define_items [] = []
  define_items (a ∷ l) = define_item a ∷ define_items l

  unfoldable pub define_node : LogDefine → y.node
  unfolding push_appenders define_items settings
  define_node i = push_appenders (define_items i.appenders) (
      settings i.level (not (is_empty i.formatter)) i.formatter
        (entry true (codes "name") i.name y.null))

  -- `LexicalCast<LogDefine, std::string>`, and `LexicalCast<std::string, LogDefine>`.
  unfoldable pub show_define : LogDefine → Text
  unfolding define_node
  show_define i = y.emit (define_node i)

  unfoldable pub cast_define : Text → Option LogDefine
  cast_define v = and_then (y.load v) (read_define y)

  -- `StdoutLogAppender::toYamlString` and `FileLogAppender::toYamlString`.
  unfoldable pub appender_node : Appender → Target → y.node
  unfolding file_node stdout_node settings
  appender_node a stdout =
      settings a.level (a.has_formatter && is_some a.formatter) (pattern_of a.formatter) stdout_node
  appender_node a (file name good last) =
      settings a.level (a.has_formatter && is_some a.formatter) (pattern_of a.formatter)
        (file_node name)

  unfoldable pub show_appender : Appender → Text
  unfolding appender_node
  show_appender a = y.emit (appender_node a a.target)

  -- The loop of `Logger::toYamlString`.
  unfoldable pub show_appenders : World → List ℕ → y.node → Result (Option y.node)
  unfolding show_appender push_appender
  show_appenders w [] n = ok (some n)
  show_appenders w (i ∷ is) n = deref (get_elem? w.appenders i) >>= λ p.
      or_throw (y.load (show_appender p)) (λ m. show_appenders w is (push_appender m n))

  -- `Logger::toYamlString`.
  unfoldable pub show_logger : World → ℕ → Result (Option Text)
  unfolding show_appenders settings
  show_logger w a = logger_at w a >>= λ l.
      show_appenders w l.appenders (
        settings l.level (is_some l.formatter) (pattern_of l.formatter)
          (entry true (codes "name") l.name y.null))
      >>= λ o. or_throw o (λ n. ok (some (y.emit n)))

  -- The loop of `LoggerManager::toYamlString`, over `m_loggers`.
  unfoldable pub show_loggers : World → List (Text × ℕ) → y.node → Result (Option y.node)
  unfolding show_logger
  show_loggers w [] n = ok (some n)
  show_loggers w ((k, a) ∷ names) n = show_logger w a >>= λ t.
      or_throw (and_then t y.load) (λ m. show_loggers w names (y.push_back n m))

  -- `LoggerManager::toYamlString`.
  unfoldable pub show_manager : World → Result (Option Text)
  unfolding show_loggers
  show_manager w = show_loggers w w.names y.null >>= λ o. or_throw o (λ n. ok (some (y.emit n)))
