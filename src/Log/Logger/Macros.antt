-- ===== src/Log/Logger/Macros.antt =====
-- The macros of gwn/log.h that write to a logger, with `LogEventWrap` and `LogEvent::format` of
-- gwn/log.cc behind them, and the methods of `Logger` that log at a fixed level.
use gwn_framwork.Base.{
  ℕ, suc, ◌≡◌, refl, ◌++◌, Option, none, some, Result, ok, fault, ◌>>=◌, if◌then◌else◌, Text, ℤ,
  Bool-cases, inl, inr,
}
use gwn_framwork.Log.Level.{Level, at_least}
use gwn_framwork.Log.Event.{LogEvent, new_event}
use gwn_framwork.Log.Logger.{Logger, World, Sys, logger_at, log}

-- What a macro reads where it stands: `__FILE__`, `__LINE__`, the ids of the thread and the fiber, the
-- time, and the name of the thread.
pub record Site : Type 0 where
  pub file : Text
  pub line : ℤ
  pub thread_id : ℕ
  pub fiber_id : ℕ
  pub time : ℕ
  pub thread_name : Text

unfoldable pub event_at : Site → ℕ → Level → LogEvent
unfolding new_event
event_at s a lv = new_event a lv s.file s.line 0 s.thread_id s.fiber_id s.time s.thread_name

-- What is streamed into `getSS()`.
unfoldable pub stream : Text → LogEvent → LogEvent
stream t e = record e { content = e.content ++ t }

-- `LogEvent::format`, on what `vasprintf` makes: `none` is the length -1.
unfoldable pub format_event : Option Text → LogEvent → LogEvent
unfolding stream
format_event none e = e
format_event (some t) e = stream t e

-- `LogEventWrap::~LogEventWrap`.
unfoldable pub destroy_wrap : ℕ → Sys → LogEvent → World → Result World
unfolding log
destroy_wrap n sys e w = log n sys e.logger e.level e w

-- `gwn_LOG_LEVEL(logger, level) << text`: the event is logged when the wrapper is destroyed, at the
-- end of the statement.
unfoldable pub log_level : ℕ → Sys → ℕ → Level → Site → Text → World → Result World
unfolding event_at stream destroy_wrap
log_level n sys a lv s t w = logger_at w a >>= λ l.
    if at_least lv l.level then destroy_wrap n sys (stream t (event_at s a lv)) w else ok w

-- `Logger::debug` and the others.
unfoldable pub debug : ℕ → Sys → ℕ → LogEvent → World → Result World
debug n sys a e w = log n sys a Level.debug e w

unfoldable pub info : ℕ → Sys → ℕ → LogEvent → World → Result World
info n sys a e w = log n sys a Level.info e w

unfoldable pub warn : ℕ → Sys → ℕ → LogEvent → World → Result World
warn n sys a e w = log n sys a Level.warn e w

unfoldable pub error : ℕ → Sys → ℕ → LogEvent → World → Result World
error n sys a e w = log n sys a Level.error e w

unfoldable pub fatal : ℕ → Sys → ℕ → LogEvent → World → Result World
fatal n sys a e w = log n sys a Level.fatal e w

guard_twice :
    (r : Result Logger) (lv : Level) (rest : Logger → Result World) (w : World)
    → (r >>= λ l.
        if at_least lv l.level
        then (r >>= λ l'. if at_least lv l'.level then rest l' else ok w)
        else ok w)
      ≡ (r >>= λ l. if at_least lv l.level then rest l else ok w)
guard_twice (fault stop) lv rest w = refl
guard_twice (ok l) lv rest w = elim (Bool-cases (at_least lv l.level)) [
  | inl p ↦ rw (p) refl
  | inr p ↦ rw (p) refl
]

guarded_log :
    (n : ℕ) (sys : Sys) (a : ℕ) (lv : Level) (e : LogEvent) (w : World)
    → (logger_at w a >>= λ l. if at_least lv l.level then log (suc n) sys a lv e w else ok w)
      ≡ log (suc n) sys a lv e w
unfolding log
guarded_log n sys a lv e w = guard_twice (logger_at w a) lv _ w

-- A macro is the call of `log` at the same level with an event of the logger, the level and the
-- place of the macro whose content is the text: its own test of the level, and the logger and the
-- level that the wrapper takes from the event, change nothing.
pub log_level-log :
    (n : ℕ) (sys : Sys) (a : ℕ) (lv : Level) (s : Site) (t : Text) (w : World)
    → log_level (suc n) sys a lv s t w
      ≡ log (suc n) sys a lv (record (event_at s a lv) { content = t }) w
unfolding log_level
log_level-log n sys a lv s t w = guarded_log n sys a lv (record (event_at s a lv) { content = t }) w
