-- ===== src/Config/Yaml/Members.antt =====
-- What `ListAllMember` of gwn/config.cc lists.
use gwn_framwork.Base.{
  ℕ, zero, suc, ◌<◌, ◌≡◌, refl, sym, subst, true, false, List, [], ◌∷◌, ◌++◌, map, Result, ok,
  ◌>>=◌, >>=-eq-ok, Text, Memᴰ, Bool-cases, inl, inr, arith, ◌⊎◌, ◌↔◌,
}
use mathlib.Core.List.Memᴰ.{cases_cons, append_cases, append_left, append_right, head, tail}
use gwn_framwork.Config.Var.{tolower}
use gwn_framwork.Config.Registry.{is_valid_name}
use gwn_framwork.Config.Registry.Names.{map-tolower_valid}
use gwn_framwork.Yaml.{Yaml}
use gwn_framwork.Config.Yaml.{IsFinite, gather, join, list_all_member}

module _ {ℓ κ} {A : Type ℓ} {B : Type κ} where
  gather_total :
      (f : A → Result (List B)) (l : List A)
      → ((a : A) → Memᴰ a l → (out : List B) × (f a ≡ ok out))
      → (out : List B) × (gather f l ≡ ok out)
  gather_total f [] h = ([], refl)
  gather_total f (a ∷ l) h =
      let (out, e) = h a (head refl) in
      let (rest, q) = gather_total f l (λ b m. h b (tail m)) in (out ++ rest, rw (e, q) refl)

  gather_cons :
      (f : A → Result (List B)) (a : A) (l : List A) (out : List B)
      → gather f (a ∷ l) ≡ ok out
      → (step : List B) × (rest : List B) × (f a ≡ ok step)
        × (gather f l ≡ ok rest)
        × (step ++ rest ≡ out)
  gather_cons f a l out h =
      let (step, e, k) = >>=-eq-ok (f a) (λ s. gather f l >>= λ rest. ok (s ++ rest)) h in
      let (rest, q, g) = >>=-eq-ok (gather f l) (λ rest. ok (step ++ rest)) k in
      (step, rest, e, q, cc)

  -- What a step puts out is in the gathered list.
  gather_complete :
      (f : A → Result (List B)) (l : List A) (out : List B) (a : A) (b : B)
      → gather f l ≡ ok out
      → Memᴰ a l
      → ((step : List B) → f a ≡ ok step → Memᴰ b step)
      → Memᴰ b out
  gather_complete f [] out a b h m i = elim m [ ]
  gather_complete f (x ∷ l) out a b h m i =
      let (step, rest, e, q, g) = gather_cons f x l out h in
      subst (Memᴰ b) g (elim (cases_cons m) [
        | inl k ↦ append_left rest (i step (rw (k) e))
        | inr t ↦ append_right step (gather_complete f l rest a b q t i)
      ])

  -- All that is in the gathered list comes from a step.
  gather_sound :
      (f : A → Result (List B)) (l : List A) (out : List B) (b : B)
      → gather f l ≡ ok out
      → Memᴰ b out
      → (a : A) × Memᴰ a l × (step : List B) × (f a ≡ ok step) × Memᴰ b step
  gather_sound f [] out b h m = let e : out ≡ [] = cc in elim (subst (Memᴰ b) e m) [ ]
  gather_sound f (x ∷ l) out b h m =
      let (step, rest, e, q, g) = gather_cons f x l out h in
      elim (append_cases step (subst (Memᴰ b) (sym g) m)) [
        | inl k ↦ (x, head refl, step, e, k)
        | inr k ↦ let (a, t, s, w, z) = gather_sound f l rest b q k in (a, tail t, s, w, z)
      ]

-- A member at any depth, under its name: every name on the way is valid.
pub data Reaches (y : Yaml) : Text → y.node → Text × y.node → Type 0 where
  here : {p : Text} {n : y.node} → is_valid_name p ≡ true → Reaches y p n (p, n)
  below :
      {p : Text} {n : y.node} {e m : Text × y.node}
      → is_valid_name p ≡ true
      → y.is_map n ≡ true
      → Memᴰ m (y.members n)
      → Reaches y (join p m.0) m.1 e
      → Reaches y p n e

-- The order: a node that is listed stands before its members, and these stand in the order of the
-- document, each with all below it. A name that is not valid lists nothing.
mutual
  pub data Lists (y : Yaml) : Text → y.node → List (Text × y.node) → Type 0 where
    refuses : {p : Text} {n : y.node} → is_valid_name p ≡ false → Lists y p n []
    alone :
        {p : Text} {n : y.node}
        → is_valid_name p ≡ true
        → y.is_map n ≡ false
        → Lists y p n ((p, n) ∷ [])
    before_members :
        {p : Text} {n : y.node} {out : List (Text × y.node)}
        → is_valid_name p ≡ true
        → y.is_map n ≡ true
        → ListsAll y p (y.members n) out
        → Lists y p n ((p, n) ∷ out)

  pub data ListsAll (y : Yaml) : Text → List (Text × y.node) → List (Text × y.node) → Type 0 where
    nobody : {p : Text} → ListsAll y p [] []
    first :
        {p : Text} {m : Text × y.node} {ms out rest : List (Text × y.node)}
        → Lists y (join p m.0) m.1 out
        → ListsAll y p ms rest
        → ListsAll y p (m ∷ ms) (out ++ rest)

module _ (y : Yaml) where
  -- With more fuel than the root is deep, `ListAllMember` ends, whatever the prefix.
  list_total :
      (fin : IsFinite y) (n : ℕ) (p : Text) (node : y.node)
      → fin.depth node < n
      → (out : List (Text × y.node)) × (list_all_member y n p node ≡ ok out)
  unfolding list_all_member
  list_total fin zero p node h = elim h [ ]
  list_total fin (suc n) p node h =
      let (out, e) =
        gather_total (λ e. list_all_member y n (join p e.0) e.1) (y.members node)
          (λ e m.
            list_total fin n (join p e.0) e.1 (let d = fin.member_depth node e m in omega arith)) in
      elim (Bool-cases (is_valid_name p)) [
        | inl v ↦ elim (Bool-cases (y.is_map node)) [
          | inl q ↦ ((p, node) ∷ out, rw (v, q, e) refl)
          | inr q ↦ ((p, node) ∷ [], rw (v, q) refl)
        ]
        | inr v ↦ ([], rw (v) refl)
      ]

  -- The branches of a call that returns.
  list_branches :
      (n : ℕ) (p : Text) (node : y.node) (out : List (Text × y.node))
      → list_all_member y (suc n) p node ≡ ok out
      → ((is_valid_name p ≡ false) × (out ≡ []))
        ⊎ ((is_valid_name p ≡ true) × (y.is_map node ≡ false) × (out ≡ (p, node) ∷ []))
        ⊎ ((is_valid_name p ≡ true)
            × (y.is_map node ≡ true)
            × (rest : List (Text × y.node)) × (gather
                  (λ e. list_all_member y n (join p e.0) e.1)
                  (y.members node)
                ≡ ok rest)
            × (out ≡ (p, node) ∷ rest))
  unfolding list_all_member
  list_branches n p node out h = elim (Bool-cases (is_valid_name p)) [
    | inl v ↦ elim (Bool-cases (y.is_map node)) [
      | inl q ↦
          let (rest, e, g) =
            >>=-eq-ok (gather (λ e. list_all_member y n (join p e.0) e.1) (y.members node))
              (λ out. ok ((p, node) ∷ out)) (rw (v, q) at h) in
          inr (inr (v, q, rest, e, cc))
      | inr q ↦ let k = rw (v, q) at h in inr (inl (v, q, cc))
    ]
    | inr v ↦ let k = rw (v) at h in inl (v, cc)
  ]

  list_sound :
      (n : ℕ) (p : Text) (node : y.node) (out : List (Text × y.node)) (e : Text × y.node)
      → list_all_member y n p node ≡ ok out
      → Memᴰ e out
      → Reaches y p node e
  unfolding list_all_member
  list_sound zero p node out e h m = ground arith
  list_sound (suc n) p node out e h m = elim (list_branches n p node out h) [
    | inl (v, q) ↦ elim (subst (Memᴰ e) q m) [ ]
    | inr (inl (v, q, g)) ↦ elim (cases_cons (subst (Memᴰ e) g m)) [
      | inl k ↦ subst (Reaches y p node) (sym k) (here v)
      | inr t ↦ elim t [ ]
    ]
    | inr (inr (v, q, rest, r, g)) ↦ elim (cases_cons (subst (Memᴰ e) g m)) [
      | inl k ↦ subst (Reaches y p node) (sym k) (here v)
      | inr t ↦
          let (a, i, step, w, z) =
            gather_sound (λ e. list_all_member y n (join p e.0) e.1) (y.members node) rest e r t in
          below v q i (list_sound n (join p a.0) a.1 step e w z)
    ]
  ]

  list_complete :
      (n : ℕ) (p : Text) (node : y.node) (out : List (Text × y.node)) (e : Text × y.node)
      → list_all_member y n p node ≡ ok out
      → Reaches y p node e
      → Memᴰ e out
  unfolding list_all_member
  list_complete zero p node out e h r = ground arith
  list_complete (suc n) p node out e h (here v) = elim (list_branches n p node out h) [
    | inl (w, q) ↦ ground arith
    | inr (inl (w, q, g)) ↦ subst (Memᴰ (p, node)) (sym g) (head refl)
    | inr (inr (w, q, rest, r, g)) ↦ subst (Memᴰ (p, node)) (sym g) (head refl)
  ]
  list_complete (suc n) p node out e h (below {m} v q i r) = elim (list_branches n p node out h) [
    | inl (w, k) ↦ ground arith
    | inr (inl (w, k, g)) ↦ ground arith
    | inr (inr (w, k, rest, t, g)) ↦ subst (Memᴰ e) (sym g) (
        tail (
          gather_complete (λ e. list_all_member y n (join p e.0) e.1) (y.members node) rest m e t i
            (λ step s. list_complete n (join p m.0) m.1 step e s r)))
  ]

  -- When the nodes are finite and the fuel is more than the depth of the node, `ListAllMember`
  -- returns, and lists exactly the node under its prefix and the members at every depth that are
  -- reached through valid names.
  pub list_all_member_lem :
      (fin : IsFinite y) (n : ℕ) (p : Text) (node : y.node)
      → fin.depth node < n
      → (out : List (Text × y.node)) × (list_all_member y n p node ≡ ok out)
        × ((e : Text × y.node) → Memᴰ e out ↔ Reaches y p node e)
  list_all_member_lem fin n p node h =
      let (out, e) = list_total fin n p node h in
      (out, e, λ m. (list_sound n p node out m e, list_complete n p node out m e))

  gather-ListsAll :
      (f : Text × y.node → Result (List (Text × y.node))) (p : Text) (ms out : List (Text × y.node))
      → ((m : Text × y.node) (l : List (Text × y.node)) → f m ≡ ok l → Lists y (join p m.0) m.1 l)
      → gather f ms ≡ ok out
      → ListsAll y p ms out
  gather-ListsAll f p [] out each h = let e : [] ≡ out = cc in subst (ListsAll y p []) e nobody
  gather-ListsAll f p (m ∷ ms) out each h =
      let (step, rest, e, q, g) = gather_cons f m ms out h in
      subst (ListsAll y p (m ∷ ms)) g (first (each m step e) (gather-ListsAll f p ms rest each q))

  -- What `ListAllMember` lists stands in that order.
  pub list_all_member-Lists :
      (n : ℕ) (p : Text) (node : y.node) (out : List (Text × y.node))
      → list_all_member y n p node ≡ ok out
      → Lists y p node out
  list_all_member-Lists zero p node out h = unfold list_all_member in ground arith
  list_all_member-Lists (suc n) p node out h = elim (list_branches n p node out h) [
    | inl (v, q) ↦ subst (Lists y p node) (sym q) (refuses v)
    | inr (inl (v, q, g)) ↦ subst (Lists y p node) (sym g) (alone v q)
    | inr (inr (v, q, rest, r, g)) ↦ subst (Lists y p node) (sym g) (
        before_members v q (
          gather-ListsAll (λ e. list_all_member y n (join p e.0) e.1) p (y.members node) rest
            (λ m l. list_all_member-Lists n (join p m.0) m.1 l) r))
  ]

  Reaches-valid :
      (p : Text) (n : y.node) (e : Text × y.node) → Reaches y p n e → is_valid_name e.0 ≡ true
  Reaches-valid p n e (here v) = v
  Reaches-valid p n e (below v q i r) = Reaches-valid _ _ e r

  -- A name that `ListAllMember` lists has no letter that `::tolower` changes: a name with a capital
  -- letter is dropped, with all below it, before `LoadFromYaml` makes names lower case.
  pub listed_names_lower :
      (n : ℕ) (p : Text) (node : y.node) (out : List (Text × y.node)) (e : Text × y.node)
      → list_all_member y n p node ≡ ok out
      → Memᴰ e out
      → map tolower e.0 ≡ e.0
  listed_names_lower n p node out e h m =
      map-tolower_valid e.0 (Reaches-valid p node e (list_sound n p node out e h m))
