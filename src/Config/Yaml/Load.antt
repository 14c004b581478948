-- ===== src/Config/Yaml/Load.antt =====
-- What `LoadFromYaml` of gwn/config.cc does to the variables of the registry.
use gwn_framwork.Base.{
  find_name, ℕ, ◌<◌, ◌≡◌, ◌∙◌, ap, refl, sym, subst, Bool, false, List, [], ◌∷◌, map, Option, none,
  some, ok, if◌then◌else◌, Text, Memᴰ, Bool-cases, inl, inr, arith, is_empty, get_elem?,
  get_elem?-set_self, get_elem?-set_ne, get_elem?-lt, ==_iff, ◌==◌, ◌↔◌, ◌≢◌,
}
use gwn_framwork.Config.Var.{tolower, from_string, Call, Ending, other_exception, Returned, Outcome}
use gwn_framwork.Config.Var.Listeners.{
  Reads, unread, unchanged, sets, stops, leaves, from_string_lem,
}
use gwn_framwork.Config.Registry.{Types, AnyVar, Registry, lookup_base}
use gwn_framwork.Yaml.{Yaml}
use gwn_framwork.Config.Yaml.{
  IsFinite, text_of, is_escape, read_into, set_var, load_one, load_all, load_from_yaml,
}
use gwn_framwork.Config.Yaml.Members.{Reaches, list_all_member_lem, Lists, list_all_member-Lists}

abbrev pub is_at : Option ℕ → ℕ → Bool
is_at none a = false
is_at (some b) a = b == a

module _ (y : Yaml) where
  -- The texts of the listed nodes whose names lead to the address.
  abbrev pub texts_for : List (Text × ℕ) → ℕ → List (Text × y.node) → List Text
  texts_for m a [] = []
  texts_for m a ((key, node) ∷ nodes) =
      if is_empty key
      then texts_for m a nodes
      else if is_at (find_name (map tolower key) m) a
      then text_of y node ∷ texts_for m a nodes
      else texts_for m a nodes

module _ {u : Types} (ends : (t : ℕ) → Call (u.el t) u.callback → Ending) where
  -- A variable that `fromString` has read a text into.
  abbrev pub read : Text → AnyVar u → AnyVar u
  read s x = record {
    type = x.type;
    var = (from_string (u.config_type x.type) (ends x.type) s x.var).1.var;
  }

  -- The variable at an address, after the texts.
  abbrev pub read_all : List Text → Option (AnyVar u) → Option (AnyVar u)
  read_all s none = none
  read_all [] (some x) = some x
  read_all (s ∷ l) (some x) = read_all l (some (read s x))

  set_var-datas :
      (s : Text) (o : Option ℕ) (r : Registry u) → (set_var ends s o r).0.datas ≡ r.datas
  unfolding set_var
  set_var-datas s none r = refl
  set_var-datas s (some a) r = go (get_elem? r.vars a)
    where
      go : (x : Option (AnyVar u)) → (read_into ends s x a r).0.datas ≡ r.datas
      go none = refl
      go (some x) = refl

  read_into_at :
      (s : Text) (x : Option (AnyVar u)) (b a : ℕ) (r : Registry u)
      → get_elem? r.vars b ≡ x
      → get_elem? (read_into ends s x b r).0.vars a
        ≡ (if b == a then read_all (s ∷ []) (get_elem? r.vars a) else get_elem? r.vars a)
  read_into_at s none b a r e = elim (Bool-cases (b == a)) [
    | inl p ↦
        let q : get_elem? r.vars a ≡ none =
          subst (λ b. get_elem? r.vars b ≡ none) ((==_iff b a).0 p) e in
        rw (p, q) refl
    | inr p ↦ rw (p) refl
  ]
  read_into_at s (some x) b a r e = elim (Bool-cases (b == a)) [
    | inl p ↦
        let k = (==_iff b a).0 p in
        let q : get_elem? r.vars a ≡ some x = subst (λ b. get_elem? r.vars b ≡ some x) k e in
        rw (p, q, k) (get_elem?-set_self r.vars a (read s x) (get_elem?-lt r.vars a q))
    | inr p ↦ rw (p) (get_elem?-set_ne r.vars b a (read s x) (λ k. ground arith))
  ]

  set_var_at :
      (s : Text) (o : Option ℕ) (a : ℕ) (r : Registry u)
      → get_elem? (set_var ends s o r).0.vars a
        ≡ (if is_at o a then read_all (s ∷ []) (get_elem? r.vars a) else get_elem? r.vars a)
  unfolding set_var
  set_var_at s none a r = refl
  set_var_at s (some b) a r = read_into_at s (get_elem? r.vars b) b a r refl

  read_all_nil : (o : Option (AnyVar u)) → read_all [] o ≡ o
  read_all_nil none = refl
  read_all_nil (some x) = refl

  read_all_cons :
      (s : Text) (l : List Text) (o : Option (AnyVar u))
      → read_all l (read_all (s ∷ []) o) ≡ read_all (s ∷ l) o
  read_all_cons s l none = refl
  read_all_cons s l (some x) = refl

module _ {u : Types} (ends : (t : ℕ) → Call (u.el t) u.callback → Ending)
    (mild : (t : ℕ) (c : Call (u.el t) u.callback) → ends t c ≢ other_exception) where
  from_string_mild :
      (s : Text) (x : AnyVar u)
      → is_escape (from_string (u.config_type x.type) (ends x.type) s x.var).0 ≡ false
  from_string_mild s x = go (from_string_lem (u.config_type x.type) (ends x.type) s x.var)
    where
      go :
          {r : Returned × Outcome (u.el x.type) u.callback}
          → Reads (u.config_type x.type) (ends x.type) s x.var r
          → is_escape r.0 ≡ false
      go (unread e) = refl
      go (unchanged v e q) = refl
      go (sets v e q h) = refl
      go (stops v before behind c e q same h z) = refl
      go (leaves v before behind c e q same h z) = absurd (mild x.type c z)

  set_var_mild : (s : Text) (o : Option ℕ) (r : Registry u) → (set_var ends s o r).1 ≡ false
  unfolding set_var
  set_var_mild s none r = refl
  set_var_mild s (some a) r = go (get_elem? r.vars a)
    where
      go : (x : Option (AnyVar u)) → (read_into ends s x a r).1 ≡ false
      go none = refl
      go (some x) = from_string_mild s x

module _ {u : Types} (y : Yaml) (ends : (t : ℕ) → Call (u.el t) u.callback → Ending) where
  -- What the body of the loop does to the names and to the variable at an address.
  load_one_at :
      (key : Text) (node : y.node) (r : Registry u) (a : ℕ)
      → ((load_one y ends key node r).0.datas ≡ r.datas)
        × (get_elem? (load_one y ends key node r).0.vars a
            ≡ read_all ends (texts_for y r.datas a ((key, node) ∷ [])) (get_elem? r.vars a))
  unfolding load_one lookup_base
  load_one_at key node r a = elim (Bool-cases (is_empty key)) [
    | inl p ↦ rw (p) (refl, sym (read_all_nil ends (get_elem? r.vars a)))
    | inr p ↦
        let o = find_name (map tolower key) r.datas in
        let t = text_of y node in
        let w = set_var_at ends t o a r in
        elim (Bool-cases (is_at o a)) [
          | inl q ↦ rw (p, q) (set_var-datas ends t o r, rw (q) at w)
          | inr q ↦
              rw (p, q)
                (
                  set_var-datas ends t o r,
                  (rw (q) at w) ∙ sym (read_all_nil ends (get_elem? r.vars a)),
                )
        ]
  ]

  read_all_split :
      (key : Text) (node : y.node) (nodes : List (Text × y.node)) (m : List (Text × ℕ)) (a : ℕ)
      (o : Option (AnyVar u))
      → read_all ends (texts_for y m a nodes) (read_all ends (texts_for y m a ((key, node) ∷ [])) o)
        ≡ read_all ends (texts_for y m a ((key, node) ∷ nodes)) o
  read_all_split key node nodes m a o = elim (Bool-cases (is_empty key)) [
    | inl p ↦ rw (p) (ap (read_all ends (texts_for y m a nodes)) (read_all_nil ends o))
    | inr p ↦ elim (Bool-cases (is_at (find_name (map tolower key) m) a)) [
      | inl q ↦ rw (p, q) (read_all_cons ends (text_of y node) (texts_for y m a nodes) o)
      | inr q ↦ rw (p, q) (ap (read_all ends (texts_for y m a nodes)) (read_all_nil ends o))
    ]
  ]

  module _ (mild : (t : ℕ) (c : Call (u.el t) u.callback) → ends t c ≢ other_exception) where
    load_one_mild :
        (key : Text) (node : y.node) (r : Registry u) → (load_one y ends key node r).1 ≡ false
    unfolding load_one lookup_base
    load_one_mild key node r = elim (Bool-cases (is_empty key)) [
      | inl p ↦ rw (p) refl
      | inr p ↦
          rw (p) (set_var_mild ends mild (text_of y node) (find_name (map tolower key) r.datas) r)
    ]

    load_all_at :
        (nodes : List (Text × y.node)) (r : Registry u) (a : ℕ)
        → let (r', escaped) = load_all y ends nodes r in
          (escaped ≡ false)
          × (r'.datas ≡ r.datas)
          × (get_elem? r'.vars a ≡ read_all ends (texts_for y r.datas a nodes) (get_elem? r.vars a))
    unfolding load_all
    load_all_at [] r a = (refl, refl, sym (read_all_nil ends (get_elem? r.vars a)))
    load_all_at ((key, node) ∷ nodes) r a =
        let (d, w) = load_one_at key node r a in
        let (f, e, v) = load_all_at nodes (load_one y ends key node r).0 a in
        rw (load_one_mild key node r)
          (f, e ∙ d, rw (d, w) at v ∙ read_all_split key node nodes r.datas a (get_elem? r.vars a))

    -- When the nodes are finite and the fuel is more than the root is deep, and no callback throws
    -- anything but a `std::exception`, `LoadFromYaml` returns. It goes through a list of nodes: those
    -- that are reached through valid names, each before its members, and these in the order of the
    -- document. It keeps the registry's names, and each variable is what `fromString` makes of it
    -- with the texts of those nodes of the list, in its order, whose names lead to it, and no other.
    pub load_from_yaml_lem :
        (fin : IsFinite y) (fuel : ℕ) (root : y.node) (r : Registry u)
        → fin.depth root < fuel
        → (nodes : List (Text × y.node)) × (r' : Registry u) × (load_from_yaml y ends fuel root r
            ≡ ok (r', false))
          × Lists y [] root nodes
          × ((e : Text × y.node) → Memᴰ e nodes ↔ Reaches y [] root e)
          × (r'.datas ≡ r.datas)
          × ((a : ℕ)
              → get_elem? r'.vars a
                ≡ read_all ends (texts_for y r.datas a nodes) (get_elem? r.vars a))
    unfolding load_from_yaml
    load_from_yaml_lem fin fuel root r h =
        let (nodes, e, m) = list_all_member_lem y fin fuel [] root h in
        (
          nodes,
          (load_all y ends nodes r).0,
          rw (e) (ap (λ b. ok ((load_all y ends nodes r).0, b)) (load_all_at nodes r 0).0),
          list_all_member-Lists y fuel [] root nodes e,
          m,
          (load_all_at nodes r 0).1,
          λ a. (load_all_at nodes r a).2,
        )
