-- ===== src/Tests/Writing.antt =====
-- Definitions, loggers and their manager written as YAML and read again, at concrete inputs.
use gwn_framwork.Base.{
  ℕ, ◌≡◌, refl, subst, true, [], ◌∷◌, none, some, ok, if◌then◌else◌, Text, codes, get_elem?, ℤ,
  arith,
}
use mathlib.Core.Option.{some-injective}
use gwn_framwork.Yaml.{Yaml, Survives}
use gwn_framwork.Log.Level.{Level, info, to_ℕ, to_string as level_name}
use gwn_framwork.Log.Appender.{Appender, stdout}
use gwn_framwork.Log.Logger.{Logger, World}
use gwn_framwork.Log.Logger.Safe.{IsSafe}
use gwn_framwork.Log.Logger.Macros.{Site}
use gwn_framwork.Log.Define.{LogDefine, Defines, defines_eq}
use gwn_framwork.Log.Yaml.{
  define_node, show_define, cast_define, appender_node, show_appenders, show_loggers, show_manager,
}
use gwn_framwork.Log.Yaml.Defines.{read_back, cast_define-show_define}
use gwn_framwork.Log.Yaml.Loggers.{start_node, IsWritable}
use gwn_framwork.Log.Yaml.Managers.{logger_defines, read_vector-show_manager}
use gwn_framwork.Log.Yaml.Variable.{show_text, defines_type, from_string-to_string_defines}
use gwn_framwork.Config.Var.{ConfigVar, completes, yields, from_string, to_string}
use gwn_framwork.Config.Cast.{push_items, read_vector}
use gwn_framwork.Tests.Documents.{
  Doc, null, item, pair, documents, documents-IsLawful, load_from, has, field_of,
}
use gwn_framwork.Tests.Logging.{plain, define}

-- The definition with a file, and a variable of it.
abbrev kept : LogDefine
kept = record define {
  appenders = record { type = 1; level = Level.unknow; formatter = []; file = codes "f" } ∷ [];
}

abbrev kept_node : Doc
kept_node = define_node (documents []) kept

abbrev yaml : Yaml
yaml = documents (kept_node ∷ item (documents []).sequence kept_node ∷ [])

kept-Survives : Survives yaml (define_node yaml kept)
unfolding define_node load_from has to_ℕ level_name field_of
kept-Survives = refl

cast_define-show_define_example :
    cast_define yaml (show_define yaml kept)
    ≡ some (record kept { appenders = read_back kept.appenders })
cast_define-show_define_example =
    cast_define-show_define yaml (documents-IsLawful _) kept kept-Survives

abbrev holds_kept : ConfigVar Defines ℕ
holds_kept = record { name = codes "logs"; description = []; val = kept ∷ []; cbs = [] }

abbrev holds_none : ConfigVar Defines ℕ
holds_none = record holds_kept { val = []; cbs = (1, 10) ∷ [] }

one-Survives :
    (n : Doc)
    → push_items yaml (show_text yaml) holds_kept.val yaml.sequence ≡ some n
    → Survives yaml n
unfolding push_items show_define define_node load_from has to_ℕ level_name field_of
one-Survives n h = subst (Survives yaml) (some-injective _ _ h) refl

from_string-to_string_defines_example :
    let (done, o) =
      from_string
        (defines_type yaml)
        (λ c. completes)
        (to_string (defines_type yaml) holds_kept)
        holds_none in
    (done ≡ yields true)
    × (o.var ≡ (
        if defines_eq holds_kept.val holds_none.val
        then holds_none
        else record holds_none { val = holds_kept.val }))
from_string-to_string_defines_example =
    from_string-to_string_defines yaml (documents-IsLawful _) (λ c. completes) holds_kept holds_none
      (tt, tt) ((kept-Survives, refl), tt) one-Survives (λ c. refl)

-- A root logger with a console appender that has its own formatter.
abbrev console : Appender
console = record { target = stdout; level = info; has_formatter = true; formatter = some plain }

abbrev root : Logger
root = record {
  name = codes "root";
  level = info;
  appenders = 0 ∷ [];
  formatter = some plain;
  root = none;
}

-- A logger with no appenders, which logs to the root logger.
abbrev system : Logger
system = record {
  name = codes "system";
  level = info;
  appenders = [];
  formatter = some plain;
  root = some 0;
}

abbrev world : World
world = record {
  loggers = root ∷ system ∷ [];
  appenders = console ∷ [];
  output = record { console = []; files = [] };
  names = (codes "root", 0) ∷ (codes "system", 1) ∷ [];
  root = 0;
}

world-IsSafe : IsSafe world
world-IsSafe = record {
  formatters = ((plain, refl), ((plain, refl), tt));
  usable = (((console, plain, refl, refl), tt), (tt, tt));
  roots = (tt, ((root, refl, refl), tt));
  root = (root, refl, refl);
  named = (omega arith, (omega arith, tt));
}

abbrev console_node : Doc
console_node = appender_node (documents []) console stdout

abbrev root_node : Doc
root_node = pair (start_node (documents []) root) (codes "appenders") (item null console_node)

abbrev system_node : Doc
system_node = start_node (documents []) system

abbrev both_nodes : Doc
both_nodes = item (item null root_node) system_node

abbrev written : Yaml
written = documents (console_node ∷ root_node ∷ system_node ∷ both_nodes ∷ [])

console-Survives :
    (p : Appender)
    → get_elem? world.appenders 0 ≡ some p
    → Survives written (appender_node written p p.target)
unfolding appender_node load_from has to_ℕ level_name field_of
console-Survives p h =
    subst (λ p. Survives written (appender_node written p p.target)) (some-injective _ _ h) refl

ok_some-injective : (a b : Doc) → ok (some a) ≡ ok (some b) → a ≡ b
ok_some-injective a b h = cc

root-Survives :
    (n : Doc)
    → show_appenders written world (0 ∷ []) (start_node written root) ≡ ok (some n)
    → Survives written n
unfolding show_appenders appender_node load_from has to_ℕ level_name field_of
root-Survives n h = subst (Survives written) (ok_some-injective root_node n h) refl

all-Survives :
    (n : Doc)
    → show_loggers written world ((codes "root", 0) ∷ (codes "system", 1) ∷ []) null ≡ ok (some n)
    → Survives written n
unfolding show_loggers appender_node load_from has to_ℕ level_name field_of
all-Survives n h = subst (Survives written) (ok_some-injective both_nodes n h) refl

system-Survives :
    (n : Doc)
    → show_appenders written world [] (start_node written system) ≡ ok (some n)
    → Survives written n
unfolding show_appenders load_from has to_ℕ level_name field_of
system-Survives n h = subst (Survives written) (ok_some-injective system_node n h) refl

system-IsWritable : IsWritable written world system
system-IsWritable = (tt, system-Survives)

root-IsWritable : IsWritable written world root
root-IsWritable = ((console-Survives, tt), root-Survives)

read_vector-show_manager_example :
    (t : Text) × (show_manager written world ≡ ok (some t))
    × (read_vector written (cast_define written) t
        ≡ some (logger_defines world ((codes "root", 0) ∷ (codes "system", 1) ∷ [])))
read_vector-show_manager_example =
    read_vector-show_manager written (documents-IsLawful _) world (codes "root", 0)
      ((codes "system", 1) ∷ []) world-IsSafe refl
      ((root, refl, root-IsWritable), ((system, refl, system-IsWritable), tt)) all-Survives

abbrev site : Site
site = record {
  file = codes "a.cc";
  line = ℤ.pos 3;
  thread_id = 7;
  fiber_id = 0;
  time = 100;
  thread_name = codes "main";
}
