-- ===== src/Log/Yaml/Loggers.antt =====
-- What loggers and their manager write, read again as definitions.
use gwn_framwork.Base.{
  ◌≡◌, refl, true, ◌&&◌, List, [], ◌∷◌, Option, none, some, ℕ, ok, get_elem?, if◌then◌else◌, Text,
  codes, All, All-get,
}
use gwn_framwork.Yaml.{Yaml, IsLawful, Survives}
use gwn_framwork.Log.Appender.{Appender, Target, stdout, file}
use gwn_framwork.Log.Logger.{Logger, World}
use gwn_framwork.Log.Logger.Safe.{IsUsable, IsSafe}
use gwn_framwork.Log.Define.{LogAppenderDefine, LogDefine}
use gwn_framwork.Log.Define.Reading.{read_appender, read_appenders, appender, push}
use gwn_framwork.Log.Yaml.{
  entry, settings, is_some, pattern_of, push_appenders, appender_node, show_appender,
  show_appenders, push_appender, show_logger, cast_define,
}
use gwn_framwork.Log.Yaml.Defines.{file_item, stdout_item, read_define_lem}

-- The definition of an appender: its own formatter, if it has one.
abbrev own_pattern : Appender → Text
own_pattern p = if p.has_formatter && is_some p.formatter then pattern_of p.formatter else []

abbrev define_target : Appender → Target → LogAppenderDefine
define_target p stdout = appender 2 [] (own_pattern p)
define_target p (file name good last) = appender 1 name (own_pattern p)

abbrev if_there : Option Appender → List LogAppenderDefine → List LogAppenderDefine
if_there none l = l
if_there (some p) l = define_target p p.target ∷ l

abbrev pub appender_defines : List Appender → List ℕ → List LogAppenderDefine
appender_defines ps [] = []
appender_defines ps (i ∷ is) = if_there (get_elem? ps i) (appender_defines ps is)

-- The definition of a logger; the level of an appender is not read.
abbrev pub logger_define : World → Logger → LogDefine
logger_define w l = record {
  name = l.name;
  level = l.level;
  formatter = if is_some l.formatter then pattern_of l.formatter else [];
  appenders = appender_defines w.appenders l.appenders;
}

module _ (y : Yaml) where
  -- The nodes of the appenders survive.
  abbrev pub AppendersSurvive : World → List ℕ → Type 0
  AppendersSurvive w is =
      All
        (λ i.
          (p : Appender)
          → get_elem? w.appenders i ≡ some p
          → Survives y (appender_node y p p.target))
        is

  -- The node of a logger without its appenders.
  abbrev pub start_node : Logger → y.node
  start_node l =
      settings y l.level (is_some l.formatter) (pattern_of l.formatter)
        (entry y true (codes "name") l.name y.null)

  -- The nodes that writing a logger makes survive.
  abbrev pub IsWritable : World → Logger → Type 0
  IsWritable w l =
      AppendersSurvive w l.appenders
      × ((n : y.node) → show_appenders y w l.appenders (start_node l) ≡ ok (some n) → Survives y n)

module _ (y : Yaml) (lawful : IsLawful y) where
  read_appender-appender_node :
      (p : Appender) (t : Target)
      → read_appender y (appender_node y p t) ≡ some (some (define_target p t))
  unfolding appender_node
  read_appender-appender_node p stdout =
      stdout_item y lawful p.level (p.has_formatter && is_some p.formatter) (pattern_of p.formatter)
  read_appender-appender_node p (file name good last) =
      file_item y lawful p.level (p.has_formatter && is_some p.formatter) (pattern_of p.formatter)
        name

  show_appenders-push_appenders :
      (w : World) (is : List ℕ) (n : y.node)
      → All (IsUsable w.appenders) is
      → AppendersSurvive y w is
      → (items : List y.node) × (show_appenders y w is n ≡ ok (some (push_appenders y items n)))
        × (read_appenders y items ≡ some (appender_defines w.appenders is))
  unfolding show_appenders push_appenders read_appenders show_appender push
  show_appenders-push_appenders w [] n u s = ([], refl, refl)
  show_appenders-push_appenders w (i ∷ is) n ((p, f, there, has), u) (survives, s) =
      let m = appender_node y p p.target in
      let (items, e, read) = show_appenders-push_appenders w is (push_appender y m n) u s in
      (
        m ∷ items,
        rw (there, survives p there) e,
        rw (read_appender-appender_node p p.target, read, there) refl,
      )

  -- In a safe store a logger is written without an exception or a null pointer, where the nodes that
  -- this makes survive being written and loaded, and the text is read as the definition of that
  -- logger: its name, its level, the pattern of its formatter, and its appenders in order, each with
  -- its own formatter if it has one.
  pub cast_define-show_logger :
      (w : World) (a : ℕ) (l : Logger)
      → IsSafe w
      → get_elem? w.loggers a ≡ some l
      → IsWritable y w l
      → (n : y.node) × (show_logger y w a ≡ ok (some (y.emit n)))
        × Survives y n
        × (cast_define y (y.emit n) ≡ some (logger_define w l))
  unfolding show_logger cast_define
  cast_define-show_logger w a l safe there (appenders, survives) =
      let usable = All-get _ w.loggers a safe.usable there in
      let (items, e, read) =
        show_appenders-push_appenders w l.appenders (start_node y l) usable appenders in
      let n = push_appenders y items (start_node y l) in
      (
        n,
        rw (there, e) refl,
        survives n e,
        rw (survives n e) (
            read_define_lem y lawful l.name l.level (is_some l.formatter) (pattern_of l.formatter)
              items (appender_defines w.appenders l.appenders) read),
      )
