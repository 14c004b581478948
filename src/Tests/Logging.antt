-- ===== src/Tests/Logging.antt =====
-- Patterns, appenders and loggers at concrete inputs.
use gwn_framwork.Base.{
  if◌then◌else◌, text_eq, Text, map, not, is_empty, All, text_eq, ◌≡◌, refl, ◌↔◌, inl, Bool, true,
  false, List, [], ◌∷◌, none, some, arith, codes, text_eq, ok, ℤ,
}
use gwn_framwork.Log.Level.{unknow, debug, info, at_least}
use gwn_framwork.Log.Event.{LogEvent}
use gwn_framwork.Log.Pattern.{
  Token, literal, directive, tokens, isalpha, messages, message as printed_line,
}
use gwn_framwork.Log.Pattern.Messages.{IsUnclosed, messages_total}
use gwn_framwork.Log.Pattern.RoundTrip.{IsPrintable, tokens-print}
use gwn_framwork.Log.Pattern.Percent.{tokens-double_percent, tokens_unclosed}
use gwn_framwork.Log.Formatter.{LogFormatter, FormatEnv, message, new_formatter, format}
use gwn_framwork.Log.Formatter.Render.{AllKnown, text_of, format-print}
use gwn_framwork.Log.Appender.{file, Appender, Output, LogEnv, content, log as append_log}
use gwn_framwork.Log.Appender.Files.{log-content}
use gwn_framwork.Log.Logger.{Logger, World, Sys, new_logger, new_manager, log}
use gwn_framwork.Log.Logger.Safe.{IsSafe, log_total}
use gwn_framwork.Log.Logger.Calls.{logs, apply, apply-IsSafe, new_manager-IsSafe}
use gwn_framwork.Log.Define.{LogDefine, defines_eq, on_change}
use gwn_framwork.Tests.Documents.{Doc, null, leaf, item, pair}
use gwn_framwork.Log.Define.Equality.{defines_eq-appenders}
use gwn_framwork.Log.Define.Listener.{on_change_total}

abbrev pattern : List Token
pattern = literal (codes "[") ∷ directive (codes "m") [] ∷ literal (codes "]") ∷ []

pattern-IsPrintable : IsPrintable pattern
unfolding isalpha
pattern-IsPrintable = (
  (λ e. ground arith),
  (refl, tt),
  tt,
  (
    (λ e. ground arith),
    (refl, tt),
    tt,
    λ e. (refl, refl, refl),
    ((λ e. ground arith), (refl, tt), tt, tt),
  ),
)

tokens-print_example : tokens (codes "[%m]") ≡ some (pattern, false)
tokens-print_example = tokens-print pattern pattern-IsPrintable

tokens-double_percent_example :
    tokens (codes "a%%m") ≡ some (literal (codes "a%") ∷ directive (codes "m") [] ∷ [], false)
tokens-double_percent_example =
    tokens-double_percent (codes "a") (codes "m") [] [] (refl, tt)
      ((λ e. ground arith), (unfold isalpha in refl, tt), tt, (λ e. tt), tt)

tokens_unclosed_example :
    tokens (codes "a%d{x")
    ≡ some (literal (codes "<<pattern_error>>") ∷ literal (codes "ad{x") ∷ [], true)
tokens_unclosed_example =
    tokens_unclosed (codes "a") (codes "d") (codes "x") (refl, tt) (λ e. ground arith)
      (unfold isalpha in refl, tt) (refl, tt) (refl, tt)

messages_total_example :
    (ts : List Token) × (e : Bool) × (rests : List Text) × (tokens (codes "a%d{x") ≡ some (ts, e))
    × (messages (codes "a%d{x") ≡ some (map (printed_line (codes "a%d{x")) rests))
    × (e ≡ not (is_empty rests))
    × All (IsUnclosed (codes "a%d{x")) rests
messages_total_example = messages_total (codes "a%d{x")

abbrev pub env : FormatEnv
env = record { logger_name = λ a. codes "root"; local_strftime = λ f t. f }

abbrev pub event : LogEvent
event = record {
  file = codes "a.cc";
  line = ℤ.pos 3;
  elapse = 0;
  thread_id = 7;
  fiber_id = 0;
  time = 100;
  thread_name = codes "main";
  content = codes "hi";
  logger = 0;
  level = info;
}

abbrev pub plain : LogFormatter
plain = record { pattern = codes "%m"; items = message ∷ []; error = false }

format-print_example :
    (f : LogFormatter) × (new_formatter (codes "[%m]") ≡ some f)
    × ((f.error ≡ false) ↔ AllKnown pattern)
    × (format env f info event ≡ text_of env info event pattern)
format-print_example = format-print env info event pattern pattern-IsPrintable

abbrev pub log_env : LogEnv
log_env = record { can_open = λ n. true; format_env = env }

abbrev to_file : Appender
to_file = record {
  target = file (codes "f") true 90;
  level = debug;
  has_formatter = true;
  formatter = some plain;
}

abbrev output : Output
output = record { console = []; files = (codes "f", codes "old") ∷ [] }

log-content_example :
    (o' : Output) × (append_log log_env info event to_file output
      ≡ ok (record to_file { target = file (codes "f") true 100 }, o'))
    × (o'.console ≡ [])
    × ((m : Text)
        → content m o'.files ≡ (
            if text_eq (codes "f") m
            then format log_env.format_env plain info event
            else content m output.files))
log-content_example =
    log-content log_env info event to_file output plain (codes "f") 90 refl refl
      (unfold at_least in refl) refl (omega arith)

abbrev pub sys : Sys
sys = record { can_open = λ n. true; local_strftime = λ f t. f }

abbrev root : Logger
root = record (new_logger (codes "root") none) { appenders = 0 ∷ [] }

log_total_example :
    (w' : World) × (log 2 sys 0 info event new_manager ≡ ok w')
    × IsSafe w'
    × (w'.loggers ≡ new_manager.loggers)
log_total_example =
    log_total 0 sys 0 info event new_manager root (unfold new_manager in refl) new_manager-IsSafe

apply-IsSafe_example :
    (w' : World) × (apply sys (logs 0 info event) new_manager ≡ ok w') × IsSafe w'
apply-IsSafe_example =
    apply-IsSafe sys (logs 0 info event) new_manager (root, unfold new_manager in refl)
      new_manager-IsSafe

abbrev pub define : LogDefine
define = record {
  name = codes "sys";
  level = info;
  formatter = codes "%m";
  appenders = record { type = 1; level = info; formatter = []; file = codes "f" } ∷ [];
}

on_change_total_example :
    (w' : World) × (on_change sys event [] (define ∷ []) new_manager ≡ ok w') × IsSafe w'
on_change_total_example =
    on_change_total sys event [] (define ∷ []) new_manager ((inl refl, tt), tt) new_manager-IsSafe

defines_eq-appenders_example :
    defines_eq (record define { appenders = [] } ∷ []) (define ∷ []) ≡ true
defines_eq-appenders_example = defines_eq-appenders (λ d. []) (define ∷ [])

-- A document of the definition `sys` with one console appender.
abbrev whole : Doc
whole = pair (pair null (codes "name") (leaf (codes "sys"))) (codes "appenders") (
    item null (
      pair (pair null (codes "type") (leaf (codes "StdoutLogAppender"))) (codes "level")
        (leaf (codes "ERROR"))))

abbrev console_define : LogDefine
console_define = record {
  name = codes "sys";
  level = unknow;
  formatter = [];
  appenders = record { type = 2; level = unknow; formatter = []; file = [] } ∷ [];
}
