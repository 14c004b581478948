-- ===== src/Log/Define.antt =====
-- `LogDefine`, `LogAppenderDefine` and the listener of `LogIniter` in gwn/log.cc: the loggers that
-- the configuration defines, and how a change of it is put into effect.
pub mod Equality
pub mod Setup
pub mod Reading
pub mod Listener
use gwn_framwork.Base.{
  ℕ, Bool, true, false, not, ◌&&◌, List, [], ◌∷◌, ◌++◌, Option, none, some, Result, ok, fault,
  null_pointer, ◌>>=◌, deref, ◌==◌, if◌then◌else◌, length, is_empty, Text, codes, text_eq, text_lt,
  show_ℕ,
}
use gwn_framwork.Log.Level.{Level, unknow, info, to_ℕ, at_least}
use gwn_framwork.Log.Event.{LogEvent}
use gwn_framwork.Log.Formatter.{LogFormatter, new_formatter}
use gwn_framwork.Log.Appender
use gwn_framwork.Log.Appender.{Appender, new_stdout, new_file}
use gwn_framwork.Log.Logger.{
  World, Sys, env_of, logger_at, appender_at, set_appender, say, set_pattern, add_appender,
  clear_appenders, set_level, log, get_logger,
}

-- `type` is 1 for a file and 2 for the console.
pub record LogAppenderDefine : Type 0 where
  pub type : ℕ
  pub level : Level
  pub formatter : Text
  pub file : Text

pub record LogDefine : Type 0 where
  pub name : Text
  pub level : Level
  pub formatter : Text
  pub appenders : List LogAppenderDefine

abbrev level_eq : Level → Level → Bool
level_eq a b = to_ℕ a == to_ℕ b

-- `LogAppenderDefine::operator==`.
unfoldable pub appender_eq : LogAppenderDefine → LogAppenderDefine → Bool
appender_eq a b =
    a.type == b.type
    && (level_eq a.level b.level && (text_eq a.formatter b.formatter && text_eq a.file b.file))

-- `operator==` of `std::vector`.
unfoldable pub appenders_eq : List LogAppenderDefine → List LogAppenderDefine → Bool
appenders_eq [] [] = true
appenders_eq (a ∷ as') (b ∷ bs) = appender_eq a b && appenders_eq as' bs
appenders_eq _ _ = false

-- `LogDefine::operator==`: the last test compares the list with itself.
unfoldable pub define_eq : LogDefine → LogDefine → Bool
define_eq d e =
    text_eq d.name e.name
    && (level_eq d.level e.level
        && (text_eq d.formatter e.formatter && appenders_eq d.appenders d.appenders))

-- `LogDefine::operator<`.
unfoldable pub define_lt : LogDefine → LogDefine → Bool
define_lt d e = text_lt d.name e.name

-- `LogDefine::isValid`.
unfoldable pub is_valid : LogDefine → Bool
is_valid d = not (is_empty d.name)

-- `std::set<LogDefine>`: in the order of `<`, with no two equivalent elements.
abbrev pub Defines : Type 0
Defines = List LogDefine

-- `find`: an element that is equivalent under `<`.
unfoldable pub find : LogDefine → Defines → Option LogDefine
unfolding define_lt
find d [] = none
find d (e ∷ es) = if not (define_lt d e) && not (define_lt e d) then some e else find d es

-- `operator==` of `std::set`.
unfoldable pub defines_eq : Defines → Defines → Bool
defines_eq [] [] = true
defines_eq (d ∷ ds) (e ∷ es) = define_eq d e && defines_eq ds es
defines_eq _ _ = false

-- `ap.reset(new ...)` by the type: the appender is put into the store. Any other type leaves a null
-- pointer, which `setLevel` reads.
unfoldable pub make_appender : Sys → LogAppenderDefine → World → Result (ℕ × World)
make_appender sys a w =
    if a.type == 1
    then (let (p, o) = new_file (env_of sys w) a.file w.output in
        ok (length w.appenders, record w { appenders = w.appenders ++ p ∷ []; output = o }))
    else if a.type == 2
    then ok (length w.appenders, record w { appenders = w.appenders ++ new_stdout ∷ [] })
    else fault null_pointer

-- The message for a formatter that is invalid.
abbrev invalid : Text → LogAppenderDefine → Text
invalid name a =
    codes "log.name="
    ++ (name
        ++ (codes " appender type="
            ++ (show_ℕ a.type ++ (codes " formatter=" ++ (a.formatter ++ codes " is invalid\n")))))

-- The last part of the loop over `i.appenders`: the formatter, and `addAppender`.
unfoldable pub set_up : Text → LogAppenderDefine → LogFormatter → Appender → Text × Appender
set_up name a f p =
    if not f.error then ([], Appender.set_formatter (some f) p) else (invalid name a, p)

unfoldable pub with_formatter : Text → LogAppenderDefine → Appender → Result (Text × Appender)
with_formatter name a p =
    if not (is_empty a.formatter)
    then (deref (new_formatter a.formatter) >>= λ f. ok (set_up name a f p))
    else ok ([], p)

-- The loop over `i.appenders`, for the logger `name` at the address `l`.
unfoldable pub set_up_all : Sys → Text → ℕ → List LogAppenderDefine → World → Result World
set_up_all sys name l [] w = ok w
set_up_all sys name l (a ∷ rest) w = make_appender sys a w >>= λ (i, w₁). appender_at w₁ i >>= λ p.
    with_formatter name a (Appender.set_level a.level p) >>= λ (t, p').
    add_appender l i (say t (set_appender i p' w₁)) >>= λ w₂. set_up_all sys name l rest w₂

unfoldable pub set_pattern_of : ℕ → Text → World → Result World
set_pattern_of l t w = if not (is_empty t) then set_pattern l t w else ok w

-- What the listener does for a logger that is new or changed.
unfoldable pub configure : Sys → LogDefine → World → Result World
configure sys d w = do
  let (l, w₁) = get_logger d.name w
  w₂ ← set_level l d.level w₁
  w₃ ← set_pattern_of l d.formatter w₂
  w₄ ← clear_appenders l w₃
  set_up_all sys d.name l d.appenders w₄

-- `it == old_value.end()`, or `!(i == *it)`.
unfoldable pub is_changed : LogDefine → Option LogDefine → Bool
is_changed d none = true
is_changed d (some e) = not (define_eq d e)

unfoldable pub configure_all : Sys → Defines → Defines → World → Result World
configure_all sys old [] w = ok w
configure_all sys old (d ∷ ds) w =
    (if is_changed d (find d old) then configure sys d w else ok w) >>= λ w'.
    configure_all sys old ds w'

-- What the listener does for a logger that is gone.
unfoldable pub retire : LogDefine → World → Result World
retire d w = do let (l, w₁) = get_logger d.name w; w₂ ← set_level l unknow w₁; clear_appenders l w₂

unfoldable pub retire_all : Defines → Defines → World → Result World
retire_all new [] w = ok w
retire_all new (d ∷ ds) w =
    elim (find d new) [ none ↦ retire d w | some e ↦ ok w ] >>= λ w'. retire_all new ds w'

-- `gwn_LOG_INFO(gwn_LOG_ROOT()) << ...`, with the event that the macro makes.
unfoldable pub announce : Sys → LogEvent → World → Result World
announce sys event w = do
  l ← logger_at w w.root
  if at_least info l.level then log 2 sys w.root info event w else ok w

-- The listener that `LogIniter` adds to the configuration variable "logs".
unfoldable pub on_change : Sys → LogEvent → Defines → Defines → World → Result World
on_change sys event old new w = do
  w₁ ← announce sys event w
  w₂ ← configure_all sys old new w₁
  retire_all new old w₂
