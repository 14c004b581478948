-- ===== src/Config/Registry/Names.antt =====
-- What `LookUp` of gwn/config.h finds, makes and refuses.
use gwn_framwork.Base.{
  ap, ◌∙◌, ℕ, ◌≡◌, refl, sym, subst, Bool, true, false, List, [], ◌∷◌, ◌++◌, map, Option, none,
  some, ◌==◌, if◌then◌else◌, length, get_elem?, Text, text_eq, text_eq_iff, text_eq_refl, find_name,
  ==_iff, ==_refl, Bool-cases, inl, inr, arith, get_elem?-append_self, get_elem?-append_left, All,
  All-mono, Memᴰ,
}
use mathlib.Core.List.Memᴰ.{cases_cons}
use gwn_framwork.Config.Var.{new_var, tolower}
use gwn_framwork.Config.Registry.{
  Types, AnyVar, Registry, pointer, invalid_argument, name_chars, has_char, is_name_char,
  is_valid_name, has_type, dynamic_cast, found_or_created, look_up_or_create, cast_found, look_up,
}

are_lower : Text → Bool
unfolding tolower
are_lower [] = true
are_lower (d ∷ s) = if tolower d == d then are_lower s else false

has_char_lower : (c : ℕ) (s : Text) → are_lower s ≡ true → has_char c s ≡ true → tolower c ≡ c
unfolding are_lower
has_char_lower c [] h e = ground arith
has_char_lower c (d ∷ s) h e = elim (Bool-cases (tolower d == d)) [
  | inl q ↦ elim (Bool-cases (c == d)) [
    | inl p ↦ subst (λ c. tolower c ≡ c) (sym ((==_iff c d).0 p)) ((==_iff (tolower d) d).0 q)
    | inr p ↦ has_char_lower c s (ground arith) (ground arith)
  ]
  | inr q ↦ ground arith
]

is_name_char_lower : (c : ℕ) → is_name_char c ≡ true → tolower c ≡ c
unfolding is_name_char
is_name_char_lower c h = has_char_lower c name_chars (unfold are_lower in refl) h

-- `::tolower` changes no valid name.
pub map-tolower_valid : (s : Text) → is_valid_name s ≡ true → map tolower s ≡ s
unfolding is_valid_name
map-tolower_valid [] h = refl
map-tolower_valid (c ∷ s) h = elim (Bool-cases (is_name_char c)) [
  | inl p ↦
      let t = map-tolower_valid s (ground arith) in let l = is_name_char_lower c p in ground arith
  | inr p ↦ ground arith
]

has_char_self : (c : ℕ) (s : Text) → Memᴰ c s → is_name_char c ≡ false → is_valid_name s ≡ false
unfolding is_valid_name
has_char_self c [] m h = elim m [ ]
has_char_self c (d ∷ s) m h = elim (cases_cons m) [
  | inl e ↦ rw (sym e, h) refl
  | inr t ↦ elim (Bool-cases (is_name_char d)) [
    | inl p ↦ rw (p) (has_char_self c s t h)
    | inr p ↦ rw (p) refl
  ]
]

-- A name with the digit 9, or any other character that is not one of the names' characters, is
-- refused when it is not in the registry: `LookUp` throws, and makes no variable.
pub look_up_or_create_bad_char :
    {u : Types} (c t : ℕ) (name : Text) (v : u.el t) (d : Text) (r : Registry u)
    → Memᴰ c name
    → is_name_char c ≡ false
    → find_name name r.datas ≡ none
    → look_up_or_create t name v d r ≡ (invalid_argument name, r)
unfolding look_up_or_create found_or_created
look_up_or_create_bad_char c t name v d r m b f = rw (f, has_char_self c name m b) refl

find_new : (name : Text) (a : ℕ) (m : List (Text × ℕ)) → find_name name ((name, a) ∷ m) ≡ some a
unfolding find_name
find_new name a m = rw (text_eq_refl name) refl

find_other :
    (name other : Text) (a b : ℕ) (m : List (Text × ℕ))
    → find_name name m ≡ some a
    → find_name other m ≡ none
    → find_name name ((other, b) ∷ m) ≡ some a
unfolding find_name
find_other name other a b m h missing = elim (Bool-cases (text_eq other name)) [
  | inl p ↦
      let k : find_name name m ≡ none =
        subst (λ n. find_name n m ≡ none) ((text_eq_iff other name).0 p) missing in
      cc
  | inr p ↦ rw (p) h
]

module _ {u : Types} where
  -- Every name of the registry is valid and leads to a variable of that name.
  abbrev pub IsNamed : Registry u → Text × ℕ → Type 0
  IsNamed r e =
      (is_valid_name e.0 ≡ true)
      × (x : AnyVar u) × (get_elem? r.vars e.1 ≡ some x)
      × (x.var.name ≡ e.0)

  abbrev pub IsWellFormed : Registry u → Type 0
  IsWellFormed r = All (IsNamed r) r.datas

  -- A variable that is added at the end of the store leaves the names as they were.
  IsNamed-append :
      (r : Registry u) (m : List (Text × ℕ)) (x : AnyVar u) (e : Text × ℕ)
      → IsNamed r e
      → IsNamed (record { vars = r.vars ++ x ∷ []; datas = m }) e
  IsNamed-append r m x e (valid, y, there, same) =
      (valid, y, get_elem?-append_left r.vars (x ∷ []) e.1 there, same)

  found-IsWellFormed :
      (t : ℕ) (name : Text) (v : u.el t) (d : Text) (r : Registry u) (o : Option ℕ)
      → IsWellFormed r
      → IsWellFormed (found_or_created t name v d r o).1
  unfolding found_or_created new_var
  found-IsWellFormed t name v d r (some a) h = h
  found-IsWellFormed t name v d r none h = elim (Bool-cases (is_valid_name name)) [
    | inl p ↦
        let x : AnyVar u = record { type = t; var = new_var name v d } in
        let m = (name, length r.vars) ∷ r.datas in
        rw (p) (
          (p, x, get_elem?-append_self r.vars x, map-tolower_valid name p),
          All-mono (IsNamed r) (IsNamed (record { vars = r.vars ++ x ∷ []; datas = m })) r.datas
              (IsNamed-append r m x) h,
        )
    | inr p ↦ rw (p) h
  ]

  -- Every name of the registry is valid and leads to a variable of that name; looking a name up,
  -- and making the variable when there is none, keeps this.
  pub look_up_or_create-IsWellFormed :
      (t : ℕ) (name : Text) (v : u.el t) (d : Text) (r : Registry u)
      → IsWellFormed r
      → IsWellFormed (look_up_or_create t name v d r).1
  unfolding look_up_or_create found_or_created
  look_up_or_create-IsWellFormed t name v d r h =
      found-IsWellFormed t name v d r (find_name name r.datas) h

  cast_new :
      (t : ℕ) (r : Registry u) (x : AnyVar u) (m : List (Text × ℕ))
      → t == x.type ≡ true
      → dynamic_cast (record { vars = r.vars ++ x ∷ []; datas = m }) t (length r.vars)
        ≡ some (length r.vars)
  unfolding dynamic_cast
  cast_new t r x m h = rw (get_elem?-append_self r.vars x, h) refl

  cast-eq : (r : Registry u) (t b a : ℕ) → dynamic_cast r t b ≡ some a → b ≡ a
  unfolding dynamic_cast
  cast-eq r t b a h = elim (Bool-cases (has_type t (get_elem? r.vars b))) [
    | inl p ↦ ground arith
    | inr p ↦ ground arith
  ]

  look_up_of_found :
      (t : ℕ) (name : Text) (w : u.el t) (e : Text) (r : Registry u) (a : ℕ)
      → (dynamic_cast r t a ≡ some a) × (find_name name r.datas ≡ some a)
      → (look_up t name r ≡ some a) × (look_up_or_create t name w e r ≡ (pointer (some a), r))
  unfolding look_up cast_found look_up_or_create found_or_created
  look_up_of_found t name w e r a (c, f) = (rw (f, c) refl, rw (f, c) refl)

  found_again :
      (t : ℕ) (name : Text) (v : u.el t) (d : Text) (r : Registry u) (o : Option ℕ) (a : ℕ)
      → find_name name r.datas ≡ o
      → (found_or_created t name v d r o).0 ≡ pointer (some a)
      → let r' = (found_or_created t name v d r o).1 in
        (dynamic_cast r' t a ≡ some a) × (find_name name r'.datas ≡ some a)
  unfolding found_or_created
  found_again t name v d r (some b) a f h =
      let q : dynamic_cast r t b ≡ some a = cc in
      let l = cast-eq r t b a q in (subst (λ b. dynamic_cast r t b ≡ some a) l q, f ∙ ap some l)
  found_again t name v d r none a f h = elim (Bool-cases (is_valid_name name)) [
    | inl p ↦
        let l : length r.vars ≡ a = ground arith in
        let x : AnyVar u = record { type = t; var = new_var name v d } in
        let c = cast_new t r x ((name, length r.vars) ∷ r.datas) (==_refl t) in
        let g = find_new name (length r.vars) r.datas in rw (p, sym l) (c, g)
    | inr p ↦ ground arith
  ]

  -- The registry after any number of calls of `LookUp`, of any names and types.
  pub data Later (r : Registry u) : Registry u → Type 0 where
    here : Later r r
    more :
        {r' r'' : Registry u} (t : ℕ) (name : Text) (v : u.el t) (d : Text)
        → Later r r'
        → r'' ≡ (look_up_or_create t name v d r').1
        → Later r r''

  -- The name leads to the variable at the address, which has the type.
  abbrev Holds : ℕ → Text → ℕ → Registry u → Type 0
  Holds t name a r = (dynamic_cast r t a ≡ some a) × (find_name name r.datas ≡ some a)

  cast-append :
      (t a : ℕ) (r : Registry u) (x : AnyVar u) (m : List (Text × ℕ)) (o : Option (AnyVar u))
      → get_elem? r.vars a ≡ o
      → dynamic_cast r t a ≡ some a
      → dynamic_cast (record { vars = r.vars ++ x ∷ []; datas = m }) t a ≡ some a
  unfolding dynamic_cast
  cast-append t a r x m none e h = let k = rw (e) at h in cc
  cast-append t a r x m (some z) e h = rw (get_elem?-append_left r.vars (x ∷ []) a e) (rw (e) at h)

  found-Holds :
      (t a : ℕ) (name : Text) (t' : ℕ) (other : Text) (v : u.el t') (d : Text) (r : Registry u)
      (o : Option ℕ)
      → find_name other r.datas ≡ o
      → Holds t name a r
      → Holds t name a (found_or_created t' other v d r o).1
  unfolding found_or_created
  found-Holds t a name t' other v d r (some b) f h = h
  found-Holds t a name t' other v d r none f (c, g) = elim (Bool-cases (is_valid_name other)) [
    | inl p ↦
        let x : AnyVar u = record { type = t'; var = new_var other v d } in
        rw (p) (
          cast-append t a r x ((other, length r.vars) ∷ r.datas) (get_elem? r.vars a) refl c,
          find_other name other a (length r.vars) r.datas g f,
        )
    | inr p ↦ rw (p) (c, g)
  ]

  Later-Holds :
      (t a : ℕ) (name : Text) {r r' : Registry u}
      → Later r r'
      → Holds t name a r
      → Holds t name a r'
  unfolding look_up_or_create
  Later-Holds t a name here h = h
  Later-Holds t a name (more {r'} t' other v d l e) h = rw (e) (
      found-Holds t a name t' other v d r' (find_name other r'.datas) refl
        (Later-Holds t a name l h))

  -- A pointer that `LookUp` returns for a name, found or made, is what `LookUp` of the name with that
  -- type returns after any number of further calls of `LookUp`, of this name or others and with any
  -- types, whatever the default value then given; and that makes nothing more.
  pub look_up-look_up_or_create :
      (t : ℕ) (name : Text) (v w : u.el t) (d e : Text) (r r' : Registry u) (a : ℕ)
      → (look_up_or_create t name v d r).0 ≡ pointer (some a)
      → Later (look_up_or_create t name v d r).1 r'
      → (look_up t name r' ≡ some a) × (look_up_or_create t name w e r' ≡ (pointer (some a), r'))
  unfolding look_up_or_create
  look_up-look_up_or_create t name v w d e r r' a h later =
      look_up_of_found t name w e r' a
        (Later-Holds t a name later (found_again t name v d r (find_name name r.datas) a refl h))
