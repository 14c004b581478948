-- ===== src/Log/Logger/Calls.antt =====
-- The calls that clients make on loggers, appenders and the manager, and what they keep.
use gwn_framwork.Base.{
  find_name, ℕ, ◌≡◌, refl, [], ◌∷◌, ◌++◌, set, Option, none, arith, Result, ok, ◌>>=◌, All-get,
  Text, codes,
}
use gwn_framwork.Log.Level.{Level}
use gwn_framwork.Log.Event.{LogEvent}
use gwn_framwork.Log.Formatter.{LogFormatter}
use gwn_framwork.Log.Appender.{Appender, Output, new_stdout, new_file}
use gwn_framwork.Log.Appender
use gwn_framwork.Log.Appender.Files.{log_total as appender-log_total}
use gwn_framwork.Log.Logger.{
  World, Sys, env_of, set_logger, set_appender, appender_at, new_logger, set_formatter, set_pattern,
  add_appender, remove_first, del_appender, clear_appenders, set_level, log, new_manager,
  get_logger,
}
use gwn_framwork.Log.Logger.Safe.{
  IsSafe, HasFormatter, IsUsable, IsUsable-set, set_appenders-IsSafe, set_logger-IsSafe, log_total,
}
use gwn_framwork.Log.Logger.Operations.{
  IsLogger, IsAppender, more_appenders-IsSafe, set_appender-IsSafe, remove_first-All,
  new_logger-formatter, or_formatter-HasFormatter, add_appender_total, set_formatter_total,
  set_pattern_total, get_logger-IsSafe,
}

-- A call: a new appender, which no logger has yet; the manager's `getLogger`; the methods of a
-- logger; and those of an appender. A formatter is given by a pointer, `none` if it is null.
pub data Call : Type 0 where
  makes_stdout : Call
  makes_file : Text → Call
  gets_logger : Text → Call
  adds_appender dels_appender : ℕ → ℕ → Call
  clears_appenders : ℕ → Call
  sets_level : ℕ → Level → Call
  sets_formatter : ℕ → Option LogFormatter → Call
  sets_pattern : ℕ → Text → Call
  logs : ℕ → Level → LogEvent → Call
  appender_formatter : ℕ → Option LogFormatter → Call
  appender_level : ℕ → Level → Call
  appender_logs : ℕ → Level → LogEvent → Call

unfoldable pub apply : Sys → Call → World → Result World
apply sys makes_stdout w = ok (record w { appenders = w.appenders ++ new_stdout ∷ [] })
apply sys (makes_file n) w =
    let (p, o) = new_file (env_of sys w) n w.output in
    ok (record w { appenders = w.appenders ++ p ∷ []; output = o })
apply sys (gets_logger name) w = ok (get_logger name w).1
apply sys (adds_appender a i) w = add_appender a i w
apply sys (dels_appender a i) w = del_appender a i w
apply sys (clears_appenders a) w = clear_appenders a w
apply sys (sets_level a lv) w = set_level a lv w
apply sys (sets_formatter a f) w = set_formatter a f w
apply sys (sets_pattern a t) w = set_pattern a t w
apply sys (logs a lv event) w = log 2 sys a lv event w
apply sys (appender_formatter i f) w =
    appender_at w i >>= λ p. ok (set_appender i (Appender.set_formatter f p) w)
apply sys (appender_level i lv) w =
    appender_at w i >>= λ p. ok (set_appender i (Appender.set_level lv p) w)
apply sys (appender_logs i lv event) w = appender_at w i >>= λ p.
    Appender.log (env_of sys w) lv event p w.output >>= λ (p', o).
    ok (record w { appenders = set w.appenders i p'; output = o })

-- The loggers and appenders that the call names are there, a formatter that it gives is no null
-- pointer, and an appender that logs has a formatter.
abbrev pub IsProper : World → Call → Type 0
IsProper w makes_stdout = Unit
IsProper w (makes_file n) = Unit
IsProper w (gets_logger name) = Unit
IsProper w (adds_appender a i) = IsLogger w a × IsAppender w i
IsProper w (dels_appender a i) = IsLogger w a
IsProper w (clears_appenders a) = IsLogger w a
IsProper w (sets_level a lv) = IsLogger w a
IsProper w (sets_formatter a f) = IsLogger w a × HasFormatter f
IsProper w (sets_pattern a t) = IsLogger w a
IsProper w (logs a lv event) = IsLogger w a
IsProper w (appender_formatter i f) = IsAppender w i × HasFormatter f
IsProper w (appender_level i lv) = IsAppender w i
IsProper w (appender_logs i lv event) = IsUsable w.appenders i

-- Making an appender, `getLogger`, the calls of a logger that add, delete and clear appenders, set
-- the level, the formatter and the pattern, and log, and those of an appender that set its formatter
-- and its level and log: each keeps the store safe and reads no null pointer, if the loggers and
-- appenders that it names are there, a formatter that it gives is no null pointer, and an appender
-- whose `log` is called has a formatter. In a safe store each logger has a formatter, each appender in
-- a logger's list has one, the root logger that a logger refers to has no root logger itself, and
-- the manager's names refer to loggers that are there.
pub apply-IsSafe :
    (sys : Sys) (c : Call) (w : World)
    → IsProper w c
    → IsSafe w
    → (w' : World) × (apply sys c w ≡ ok w') × IsSafe w'
unfolding apply
apply-IsSafe sys makes_stdout w h s = (_, refl, more_appenders-IsSafe w new_stdout w.output s)
apply-IsSafe sys (makes_file n) w h s =
    let (p, o) = new_file (env_of sys w) n w.output in (_, refl, more_appenders-IsSafe w p o s)
apply-IsSafe sys (gets_logger name) w h s = (
  (get_logger name w).1,
  refl,
  unfold get_logger in get_logger-IsSafe name w (find_name name w.names) s,
)
apply-IsSafe sys (adds_appender a i) w h s =
    let (w', e, sw, _) = add_appender_total a i w h.0 h.1 s in (w', e, sw)
apply-IsSafe sys (dels_appender a i) w (l, there) s = (
  set_logger a (record l { appenders = remove_first i l.appenders }) w,
  unfold del_appender in rw there,
  set_logger-IsSafe w a l _ there refl (All-get _ w.loggers a s.formatters there)
      (remove_first-All _ i l.appenders (All-get _ w.loggers a s.usable there)) s,
)
apply-IsSafe sys (clears_appenders a) w (l, there) s = (
  set_logger a (record l { appenders = [] }) w,
  unfold clear_appenders in rw there,
  set_logger-IsSafe w a l _ there refl (All-get _ w.loggers a s.formatters there) tt s,
)
apply-IsSafe sys (sets_level a lv) w (l, there) s = (
  set_logger a (record l { level = lv }) w,
  unfold set_level in rw there,
  set_logger-IsSafe w a l _ there refl (All-get _ w.loggers a s.formatters there)
      (All-get _ w.loggers a s.usable there) s,
)
apply-IsSafe sys (sets_formatter a f) w (h, (g, given)) s =
    let (w', e, sw, _) = set_formatter_total a g w h s in (w', rw (given) e, sw)
apply-IsSafe sys (sets_pattern a t) w h s =
    let (w', e, sw, _) = set_pattern_total a t w h s in (w', e, sw)
apply-IsSafe sys (logs a lv event) w (l, there) s =
    let (w', e, sw, _) = log_total 0 sys a lv event w l there s in (w', e, sw)
apply-IsSafe sys (appender_formatter i f) w ((p, there), (g, given)) s = (
  set_appender i (Appender.set_formatter f p) w,
  rw there,
  set_appender-IsSafe w i p _ there
      (λ g' e. (g, rw (given) (unfold Appender.set_formatter in refl))) s,
)
apply-IsSafe sys (appender_level i lv) w (p, there) s = (
  set_appender i (Appender.set_level lv p) w,
  rw there,
  set_appender-IsSafe w i p _ there (λ g e. (g, unfold Appender.set_level in e)) s,
)
apply-IsSafe sys (appender_logs i lv event) w (p, f, there, has) s =
    let (p', o, e, has') = appender-log_total (env_of sys w) lv event p w.output f has in
    (
      record w { appenders = set w.appenders i p'; output = o },
      rw (there, e) refl,
      set_appenders-IsSafe w (set w.appenders i p') o
          (λ j. IsUsable-set w.appenders i j p' p f there has') s,
    )

new_logger-no_root : (name : Text) → (new_logger name none).root ≡ none
unfolding new_logger
new_logger-no_root name = refl

-- The manager starts in a safe store.
pub new_manager-IsSafe : IsSafe new_manager
unfolding new_manager
new_manager-IsSafe =
    let name : Text = codes "root" in
    let own = new_logger-formatter name none in
    let first = or_formatter-HasFormatter (new_logger name none).formatter new_stdout own in
    record {
      formatters = (own, tt);
      usable = (((_, first.0, refl, first.1), tt), tt);
      roots = (rw (new_logger-no_root name) tt, tt);
      root = (_, refl, new_logger-no_root name);
      named = (omega arith, tt);
    }
