-- ===== src/Log/Event.antt =====
-- `LogEvent` of gwn/log.h, and what the format items read from outside the event.
use gwn_framwork.Base.{[], ℕ, ◌^◌, ◌%◌, Text, ℤ}
use gwn_framwork.Log.Level.{Level}

-- A logger is named by its address in the store of loggers; the content stream is its text.
pub record LogEvent : Type 0 where
  pub file : Text
  pub line : ℤ
  pub elapse : ℕ
  pub thread_id : ℕ
  pub fiber_id : ℕ
  pub time : ℕ
  pub thread_name : Text
  pub content : Text
  pub logger : ℕ
  pub level : Level

-- The constructor: the content is empty. `elapse` is stored in an int32_t and read back as a
-- uint32_t, which keeps its low 32 bits.
unfoldable pub new_event : ℕ → Level → Text → ℤ → ℕ → ℕ → ℕ → ℕ → Text → LogEvent
new_event logger level file line elapse thread_id fiber_id time thread_name = record {
  file = file;
  line = line;
  elapse = elapse % 2 ^ 32;
  thread_id = thread_id % 2 ^ 32;
  fiber_id = fiber_id % 2 ^ 32;
  time = time % 2 ^ 64;
  thread_name = thread_name;
  content = [];
  logger = logger;
  level = level;
}
