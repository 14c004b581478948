-- ===== src/Log/Yaml/Variable.antt =====
-- The variable `g_log_defines` of gwn/log.cc, which is a `ConfigVar<std::set<LogDefine>>`, written
-- and read.
use gwn_framwork.Base.{◌≡◌, refl, ◌∙◌, true, List, [], ◌∷◌, Option, some, if◌then◌else◌, Text, All}
use gwn_framwork.Yaml.{Yaml, IsLawful, Survives}
use gwn_framwork.Log.Define.{LogDefine, Defines, define_lt, defines_eq}
use gwn_framwork.Log.Yaml.{define_node, show_define, cast_define}
use gwn_framwork.Log.Yaml.Defines.{read_back, cast_define-show_define}
use gwn_framwork.Config.Var.{
  ConfigType, ConfigVar, Call, Ending, completes, yields, from_string, to_string,
}
use gwn_framwork.Config.Var.Transfer.{from_string-to_string}
use gwn_framwork.Config.Cast.{push_items, read_set, show_set}
use gwn_framwork.Config.Cast.Ordered.{IsOrder, IsIncreasing, text_lt-IsOrder}
use gwn_framwork.Config.Cast.Sequences.{Converts}
use gwn_framwork.Config.Cast.Sets.{read_set-show_set}

module _ (y : Yaml) where
  abbrev pub show_text : LogDefine → Option Text
  show_text d = some (show_define y d)

  -- The type of `g_log_defines`.
  abbrev pub defines_type : ConfigType Defines
  defines_type = record {
    eq = defines_eq;
    from_str = read_set y define_lt (cast_define y);
    to_str = show_set y show_text;
  }

  -- Its node survives, and it has only file and console appenders, with the level UNKNOW, and no
  -- file name at a console.
  abbrev pub IsKept : LogDefine → Type 0
  IsKept d = Survives y (define_node y d) × (read_back d.appenders ≡ d.appenders)

pub define_lt-IsOrder : IsOrder define_lt
unfolding define_lt
define_lt-IsOrder = record {
  asym = λ a b. text_lt-IsOrder.asym a.name b.name;
  trans = λ a b c. text_lt-IsOrder.trans a.name b.name c.name;
}

module _ (y : Yaml) (lawful : IsLawful y) where
  All-Converts :
      (l : List LogDefine) → All (IsKept y) l → All (Converts y (show_text y) (cast_define y)) l
  unfolding show_define
  All-Converts [] h = tt
  All-Converts (d ∷ l) ((survives, same), h) = (
    (
      show_define y d,
      define_node y d,
      refl,
      survives,
      cast_define-show_define y lawful d survives ∙ rw (same) refl,
    ),
    All-Converts l h,
  )

  -- Let one variable hold a set of definitions in the order of their names, with nothing in it that
  -- the text loses: file and console appenders only, with the level UNKNOW, and no file name at a
  -- console. Where the nodes survive and no callback throws, `fromString` of another variable on the
  -- text of `toString` returns true. It gives the other variable that set, if `operator==` tells the
  -- set from the one that the other variable has; else the other variable stays as it is, also where
  -- the two sets differ in what `operator==` does not compare. Nothing else of it changes.
  pub from_string-to_string_defines :
      {C : Type 0} (ends : Call Defines C → Ending) (x x' : ConfigVar Defines C)
      → IsIncreasing define_lt x.val
      → All (IsKept y) x.val
      → ((n : y.node) → push_items y (show_text y) x.val y.sequence ≡ some n → Survives y n)
      → ((c : Call Defines C) → ends c ≡ completes)
      → let (done, o) = from_string (defines_type y) ends (to_string (defines_type y) x) x' in
        (done ≡ yields true)
        × (o.var ≡ (if defines_eq x.val x'.val then x' else record x' { val = x.val }))
  from_string-to_string_defines ends x x' increasing kept survives quiet =
      let (s, shown, read) =
        read_set-show_set y (cast_define y) define_lt (show_text y) x.val lawful define_lt-IsOrder
          increasing (All-Converts x.val kept) survives in
      from_string-to_string (defines_type y) ends x x' s shown read quiet
