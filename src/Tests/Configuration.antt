-- ===== src/Tests/Configuration.antt =====
-- One configuration variable, and a registry of two, at concrete inputs.
use gwn_framwork.Base.{
  ℕ, ◌≡◌, refl, ◌↔◌, false, List, [], ◌∷◌, none, some, ◌==◌, arith, if◌then◌else◌, Text, codes,
  text_eq, ok, Memᴰ, find_name, get_elem?,
}
use gwn_framwork.Config.Var.{
  ConfigType, ConfigVar, Call, set_value, from_string, add_listener, del_listener, get_listener,
  clear_listener, Ending, completes, other_exception,
}
use gwn_framwork.Config.Var.Listeners.{
  set_value_lem, from_string_lem, Reads, IsSorted, listeners_refine,
}
use gwn_framwork.Config.Registry.{
  Types, Registry, pointer, look_up_or_create, look_up, is_valid_name,
}
use gwn_framwork.Config.Registry.Names.{
  look_up-look_up_or_create, look_up_or_create-IsWellFormed, IsWellFormed, here, more,
}
use gwn_framwork.Config.Yaml.{IsFinite, list_all_member, load_from_yaml}
use gwn_framwork.Config.Yaml.Members.{Reaches, Lists, list_all_member_lem}
use gwn_framwork.Yaml.{Yaml}
use gwn_framwork.Tests.Documents.{Doc, null, leaf, pair, documents, documents-IsFinite, height}
use gwn_framwork.Config.Yaml.Load.{load_from_yaml_lem, read_all, texts_for}

-- Texts, which are read as they are; a callback is a number.
abbrev texts : ConfigType Text
texts = record { eq = text_eq; from_str = some; to_str = some }

abbrev nobody : Call Text ℕ → Ending
nobody c = completes

abbrev port : ConfigVar Text ℕ
port = record {
  name = codes "port";
  description = [];
  val = codes "80";
  cbs = (1, 10) ∷ (3, 30) ∷ [];
}

set_value_lem_example : set_value texts nobody (codes "81") port ≡ record {
  var = record port { val = codes "81" };
  calls =
      record { callback = 10; old_value = codes "80"; new_value = codes "81" }
      ∷ record { callback = 30; old_value = codes "80"; new_value = codes "81" }
      ∷ [];
  ending = completes;
}
unfolding text_eq
set_value_lem_example = set_value_lem texts nobody (codes "81") port (refl, (refl, tt))

-- The second callback throws something that is no `std::exception`.
abbrev second_throws : Call Text ℕ → Ending
second_throws c = if c.callback == 30 then other_exception else completes

from_string_lem_example :
    Reads texts second_throws (codes "81") port (from_string texts second_throws (codes "81") port)
from_string_lem_example = from_string_lem texts second_throws (codes "81") port

port-IsSorted : IsSorted port.cbs
port-IsSorted = ((omega arith, tt), (tt, tt))

listeners_refine_example :
    let (new_id, added) = add_listener 3 40 port in
    IsSorted added.cbs
    × IsSorted (del_listener 1 port).cbs
    × IsSorted (clear_listener port).cbs
    × (get_listener 4 added ≡ (if 4 == new_id then some 40 else get_listener 4 port))
    × (get_listener 4 (del_listener 1 port) ≡ (if 4 == 1 then none else get_listener 4 port))
    × (get_listener 4 (clear_listener port) ≡ none)
listeners_refine_example = listeners_refine 3 4 1 40 port port-IsSorted

abbrev types : Types
types = record { el = λ t. Text; config_type = λ t. texts; callback = ℕ }

abbrev empty : Registry types
empty = record { vars = []; datas = [] }

abbrev holds_port : Registry types
holds_port = record { vars = record { type = 1; var = port } ∷ []; datas = (codes "port", 0) ∷ [] }

-- Another name is looked up, and made, in between.
abbrev with_host : Registry types
with_host =
    (look_up_or_create 2 (codes "host") (codes "h") []
      (look_up_or_create 1 (codes "port") (codes "0") [] holds_port).1).1

look_up-look_up_or_create_example :
    (look_up 1 (codes "port") with_host ≡ some 0)
    × (look_up_or_create 1 (codes "port") (codes "1") [] with_host ≡ (pointer (some 0), with_host))
look_up-look_up_or_create_example =
    look_up-look_up_or_create 1 (codes "port") (codes "0") (codes "1") [] [] holds_port with_host 0
      (unfold look_up_or_create find_name text_eq in refl)
      (more 2 (codes "host") (codes "h") [] here refl)

look_up_or_create-IsWellFormed_example :
    IsWellFormed (look_up_or_create 1 (codes "host") (codes "0") [] holds_port).1
look_up_or_create-IsWellFormed_example =
    look_up_or_create-IsWellFormed 1 (codes "host") (codes "0") [] holds_port
      ((unfold is_valid_name in refl, record { type = 1; var = port }, refl, refl), tt)

abbrev yaml : Yaml
yaml = documents []

abbrev finite : IsFinite yaml
finite = documents-IsFinite []

abbrev doc : Doc
doc = pair null (codes "port") (leaf (codes "81"))

list_all_member_lem_example :
    (out : List (Text × Doc)) × (list_all_member yaml 2 [] doc ≡ ok out)
    × ((e : Text × Doc) → Memᴰ e out ↔ Reaches yaml [] doc e)
list_all_member_lem_example =
    list_all_member_lem yaml finite 2 [] doc (unfold height in omega arith)

-- Two nodes of one name: the variable has the text of the later one.
abbrev twice : Doc
twice = pair (pair null (codes "port") (leaf (codes "82"))) (codes "port") (leaf (codes "81"))

load_from_yaml_lem_example :
    (nodes : List (Text × Doc)) × (r' : Registry types) × (load_from_yaml yaml
        (λ t. nobody)
        3
        twice
        holds_port
      ≡ ok (r', false))
    × Lists yaml [] twice nodes
    × ((e : Text × Doc) → Memᴰ e nodes ↔ Reaches yaml [] twice e)
    × (r'.datas ≡ holds_port.datas)
    × ((a : ℕ)
        → get_elem? r'.vars a
          ≡ read_all {u = types}
              (λ t. nobody)
              (texts_for yaml holds_port.datas a nodes)
              (get_elem? holds_port.vars a))
load_from_yaml_lem_example =
    load_from_yaml_lem yaml (λ t. nobody) (λ t c e. cc) finite 3 twice holds_port
      (unfold height in omega arith)
