-- ===== src/Log/Define/Equality.antt =====
-- `LogDefine::operator==` of gwn/log.cc, which does not look at the appenders of its argument.
use gwn_framwork.Base.{◌≡◌, refl, true, List, [], ◌∷◌, ==_refl, text_eq_refl}
use gwn_framwork.Log.Level.{to_ℕ}
use gwn_framwork.Log.Define.{
  LogAppenderDefine, LogDefine, appender_eq, appenders_eq, define_eq, Defines, defines_eq,
}

appender_eq_refl : (a : LogAppenderDefine) → appender_eq a a ≡ true
unfolding appender_eq
appender_eq_refl a =
    rw (==_refl a.type, ==_refl (to_ℕ a.level), text_eq_refl a.formatter, text_eq_refl a.file)

appenders_eq_refl : (xs : List LogAppenderDefine) → appenders_eq xs xs ≡ true
unfolding appenders_eq
appenders_eq_refl [] = refl
appenders_eq_refl (a ∷ xs) = rw (appender_eq_refl a, appenders_eq_refl xs)

-- Two definitions that differ in their appenders alone are equal for `operator==`.
pub define_eq-appenders :
    (d : LogDefine) (xs : List LogAppenderDefine) → define_eq (record d { appenders = xs }) d ≡ true
unfolding define_eq
define_eq-appenders d xs =
    rw (text_eq_refl d.name, ==_refl (to_ℕ d.level), text_eq_refl d.formatter, appenders_eq_refl xs)

-- A set of definitions with other appenders, chosen by `f`.
abbrev pub reappend : (LogDefine → List LogAppenderDefine) → Defines → Defines
reappend f [] = []
reappend f (d ∷ ds) = record d { appenders = f d } ∷ reappend f ds

-- Two sets of definitions that differ in their appenders alone are equal for `operator==`, whatever
-- the appenders are.
pub defines_eq-appenders :
    (f : LogDefine → List LogAppenderDefine) (ds : Defines) → defines_eq (reappend f ds) ds ≡ true
unfolding defines_eq
defines_eq-appenders f [] = refl
defines_eq-appenders f (d ∷ ds) = rw (define_eq-appenders d (f d), defines_eq-appenders f ds)
