-- ===== src/Config/Var/Listeners.antt =====
-- The listeners of a `ConfigVar` of gwn/config.h, and what `setValue` and `fromString` do to the
-- value and call.
use gwn_framwork.Base.{
  ◌∙◌, ap, ◌++◌, ◌≢◌, subst, sym, ==_iff, ℕ, ◌<◌, ◌≡◌, refl, true, false, List, [], ◌∷◌, Option,
  none, some, arith, ◌==◌, if◌then◌else◌, ltb, Text, Bool-cases, inl, inr, All, All-mono,
}
use gwn_framwork.Fiber.{inc64}
use gwn_framwork.Config.Var.{
  ConfigType, ConfigVar, Call, notify, go_on, assigned, caught, Ending, completes, std_exception,
  other_exception, Returned, yields, escapes, Outcome, set_value, set_read, from_string, insert,
  erase, find, add_listener, del_listener, get_listener, clear_listener,
}

module _ {C : Type 0} where
  find-insert :
      (j k : ℕ) (c : C) (m : List (ℕ × C))
      → find j (insert k c m) ≡ (if j == k then some c else find j m)
  unfolding find insert
  find-insert j k c [] = refl
  find-insert j k c ((i, d) ∷ m) = elim (Bool-cases (k == i)) [
    | inl p ↦ elim (Bool-cases (j == k)) [ inl q ↦ ground arith | inr q ↦ ground arith ]
    | inr p ↦ elim (Bool-cases (ltb k i)) [
      | inl q ↦ (elim (Bool-cases (j == k)) [ inl r ↦ ground arith | inr r ↦ ground arith ])
      | inr q ↦
          let ih = find-insert j k c m in
          elim (Bool-cases (j == k)) [ inl q ↦ ground arith | inr q ↦ ground arith ]
    ]
  ]

  -- The ids are in increasing order, as in a `std::map`.
  abbrev pub IsSorted : List (ℕ × C) → Type 0
  IsSorted [] = Unit
  IsSorted ((k, c) ∷ m) = All (λ e. k < e.0) m × IsSorted m

  insert-above :
      (i k : ℕ) (c : C) (m : List (ℕ × C))
      → i < k
      → All (λ e. i < e.0) m
      → All (λ e. i < e.0) (insert k c m)
  unfolding insert
  insert-above i k c [] l h = (l, h)
  insert-above i k c ((j, d) ∷ m) l h =
      let ih = insert-above i k c m l h.1 in
      elim (Bool-cases (k == j)) [
        | inl p ↦ rw (p) (l, h.1)
        | inr p ↦ elim (Bool-cases (ltb k j)) [
          | inl q ↦ rw (p, q) (l, h)
          | inr q ↦ rw (p, q) (h.0, ih)
        ]
      ]

  insert-IsSorted : (k : ℕ) (c : C) (m : List (ℕ × C)) → IsSorted m → IsSorted (insert k c m)
  unfolding insert
  insert-IsSorted k c [] h = (tt, tt)
  insert-IsSorted k c ((j, d) ∷ m) h =
      let ih = insert-IsSorted k c m h.1 in
      elim (Bool-cases (k == j)) [
        | inl p ↦ rw (p) (subst (λ i. All (λ e. i < e.0) m) (sym ((==_iff k j).0 p)) h.0, h.1)
        | inr p ↦ elim (Bool-cases (ltb k j)) [
          | inl q ↦
              rw (p, q)
                (
                  (
                    ground arith,
                    All-mono (λ e. j < e.0) (λ e. k < e.0) m (λ a l. ground arith) h.0,
                  ),
                  h,
                )
          | inr q ↦ rw (p, q) (insert-above j k c m (ground arith) h.0, ih)
        ]
      ]

  erase-above : (i k : ℕ) (m : List (ℕ × C)) → All (λ e. i < e.0) m → All (λ e. i < e.0) (erase k m)
  unfolding erase
  erase-above i k [] h = h
  erase-above i k ((j, d) ∷ m) h =
      let ih = erase-above i k m h.1 in
      elim (Bool-cases (k == j)) [ inl p ↦ rw (p) h.1 | inr p ↦ rw (p) (h.0, ih) ]

  erase-IsSorted : (k : ℕ) (m : List (ℕ × C)) → IsSorted m → IsSorted (erase k m)
  unfolding erase
  erase-IsSorted k [] h = h
  erase-IsSorted k ((j, d) ∷ m) h =
      let ih = erase-IsSorted k m h.1 in
      elim (Bool-cases (k == j)) [ inl p ↦ rw (p) h.1 | inr p ↦ rw (p) (erase-above j k m h.0, ih) ]

  find_above : (k : ℕ) (m : List (ℕ × C)) → All (λ e. k < e.0) m → find k m ≡ none
  unfolding find
  find_above k [] h = refl
  find_above k ((j, d) ∷ m) h = let ih = find_above k m h.1 in let l : k < j = h.0 in ground arith

  find-erase :
      (j k : ℕ) (m : List (ℕ × C))
      → IsSorted m
      → find j (erase k m) ≡ (if j == k then none else find j m)
  unfolding find erase
  find-erase j k [] h = ground arith
  find-erase j k ((i, d) ∷ m) h =
      let ih = find-erase j k m h.1 in
      elim (Bool-cases (k == i)) [
        | inl p ↦ elim (Bool-cases (j == k)) [
          | inl q ↦
              rw (p, q)
                (find_above j m (
                  subst (λ i. All (λ e. i < e.0) m) (sym ((==_iff j k).0 q ∙ (==_iff k i).0 p))
                    h.0))
          | inr q ↦ ground arith
        ]
        | inr p ↦ elim (Bool-cases (j == k)) [ inl q ↦ ground arith | inr q ↦ ground arith ]
      ]

module _ {T C : Type 0} where
  -- Each callback's call, in the order of the keys.
  abbrev pub calls_of : T → T → List (ℕ × C) → List (Call T C)
  calls_of old new [] = []
  calls_of old new ((k, c) ∷ cbs) =
      record { callback = c; old_value = old; new_value = new } ∷ calls_of old new cbs

  abbrev pub NoneThrows : (Call T C → Ending) → List (Call T C) → Type 0
  NoneThrows ends = All (λ c. ends c ≡ completes)

  notify_calls :
      (ends : Call T C → Ending) (old new : T) (cbs : List (ℕ × C))
      → NoneThrows ends (calls_of old new cbs)
      → notify ends old new cbs ≡ (calls_of old new cbs, completes)
  unfolding notify
  notify_calls ends old new [] h = refl
  notify_calls ends old new ((k, c) ∷ cbs) h = rw (h.0, notify_calls ends old new cbs h.1) refl

  -- Setting the value that the variable has calls nobody and changes nothing. Setting another one,
  -- when no callback throws, calls each callback once, in the order of the keys, with the old and
  -- the new value, and then sets the value and nothing else.
  pub set_value_lem :
      (t : ConfigType T) (ends : Call T C → Ending) (v : T) (x : ConfigVar T C)
      → NoneThrows ends (calls_of x.val v x.cbs)
      → set_value t ends v x ≡ (
          if t.eq v x.val then record { var = x; calls = []; ending = completes } else record {
            var = record x { val = v };
            calls = calls_of x.val v x.cbs;
            ending = completes;
          })
  unfolding set_value
  set_value_lem t ends v x h = rw (notify_calls ends x.val v x.cbs h) refl

  -- The calls that are made: all of them, or those up to the first one that throws.
  data Notified (ends : Call T C → Ending) (calls : List (Call T C))
      : List (Call T C) × Ending → Type 0 where
    all : NoneThrows ends calls → Notified ends calls (calls, completes)
    up_to :
        (before behind : List (Call T C)) (c : Call T C)
        → calls ≡ before ++ c ∷ behind
        → NoneThrows ends before
        → ends c ≢ completes
        → Notified ends calls (before ++ c ∷ [], ends c)

  Notified-cons :
      (ends : Call T C → Ending) (calls : List (Call T C)) (c : Call T C)
      (r : List (Call T C) × Ending)
      → Notified ends calls r
      → (e : Ending) → ends c ≡ e
      → Notified ends (c ∷ calls) (go_on e c r)
  Notified-cons ends calls c r (all h) completes e = all (e, h)
  Notified-cons ends calls c r (up_to before behind d eq h ne) completes e =
      up_to (c ∷ before) behind d (ap (◌∷◌ c) eq) (e, h) ne
  Notified-cons ends calls c r n std_exception e =
      subst (λ k. Notified ends (c ∷ calls) (c ∷ [], k)) e (up_to [] calls c refl tt (λ q. cc))
  Notified-cons ends calls c r n other_exception e =
      subst (λ k. Notified ends (c ∷ calls) (c ∷ [], k)) e (up_to [] calls c refl tt (λ q. cc))

  notify-Notified :
      (ends : Call T C → Ending) (old new : T) (cbs : List (ℕ × C))
      → Notified ends (calls_of old new cbs) (notify ends old new cbs)
  unfolding notify
  notify-Notified ends old new [] = all tt
  notify-Notified ends old new ((k, c) ∷ cbs) =
      let call : Call T C = record { callback = c; old_value = old; new_value = new } in
      Notified-cons ends (calls_of old new cbs) call (notify ends old new cbs)
        (notify-Notified ends old new cbs) (ends call) refl

  -- What `fromString` does: the text is not read; it is read as the value that the variable has; it
  -- is read as another one, and all callbacks are called; or the first that throws ends it.
  pub data Reads (t : ConfigType T) (ends : Call T C → Ending) (s : Text) (x : ConfigVar T C)
      : Returned × Outcome T C → Type 0 where
    unread :
        t.from_str s ≡ none
        → Reads t ends s x (yields false, record { var = x; calls = []; ending = std_exception })
    unchanged :
        (v : T)
        → t.from_str s ≡ some v
        → t.eq v x.val ≡ true
        → Reads t ends s x (yields true, record { var = x; calls = []; ending = completes })
    sets :
        (v : T)
        → t.from_str s ≡ some v
        → t.eq v x.val ≡ false
        → NoneThrows ends (calls_of x.val v x.cbs)
        → Reads t ends s x (
          yields true,
          record { var = record x { val = v }; calls = calls_of x.val v x.cbs; ending = completes },
        )
    stops :
        (v : T) (before behind : List (Call T C)) (c : Call T C)
        → t.from_str s ≡ some v
        → t.eq v x.val ≡ false
        → calls_of x.val v x.cbs ≡ before ++ c ∷ behind
        → NoneThrows ends before
        → ends c ≡ std_exception
        → Reads t ends s x
            (yields false, record { var = x; calls = before ++ c ∷ []; ending = std_exception })
    leaves :
        (v : T) (before behind : List (Call T C)) (c : Call T C)
        → t.from_str s ≡ some v
        → t.eq v x.val ≡ false
        → calls_of x.val v x.cbs ≡ before ++ c ∷ behind
        → NoneThrows ends before
        → ends c ≡ other_exception
        → Reads t ends s x
            (escapes, record { var = x; calls = before ++ c ∷ []; ending = other_exception })

  module _ (t : ConfigType T) (ends : Call T C → Ending) (s : Text) (x : ConfigVar T C) (v : T)
      (read : t.from_str s ≡ some v) (other : t.eq v x.val ≡ false) where
    stopped-Reads :
        (before behind : List (Call T C)) (c : Call T C)
        → calls_of x.val v x.cbs ≡ before ++ c ∷ behind
        → NoneThrows ends before
        → (e : Ending) → ends c ≡ e
        → e ≢ completes
        → Reads t ends s x
            (caught e, record { var = assigned e v x; calls = before ++ c ∷ []; ending = e })
    stopped-Reads before behind c eq h completes e ne = absurd (ne refl)
    stopped-Reads before behind c eq h std_exception e ne =
        stops v before behind c read other eq h e
    stopped-Reads before behind c eq h other_exception e ne =
        leaves v before behind c read other eq h e

    Notified-Reads :
        (r : List (Call T C) × Ending)
        → Notified ends (calls_of x.val v x.cbs) r
        → Reads t ends s x
            (caught r.1, record { var = assigned r.1 v x; calls = r.0; ending = r.1 })
    Notified-Reads r (all h) = sets v read other h
    Notified-Reads r (up_to before behind c eq h ne) =
        stopped-Reads before behind c eq h (ends c) refl ne

  set_read-Reads :
      (t : ConfigType T) (ends : Call T C → Ending) (s : Text) (x : ConfigVar T C) (r : Option T)
      → t.from_str s ≡ r
      → Reads t ends s x (set_read t ends x r)
  unfolding set_read set_value
  set_read-Reads t ends s x none e = unread e
  set_read-Reads t ends s x (some v) e = elim (Bool-cases (t.eq v x.val)) [
    | inl q ↦ rw (q) (unchanged v e q)
    | inr q ↦ rw (q) (
        Notified-Reads t ends s x v e q (notify ends x.val v x.cbs)
          (notify-Notified ends x.val v x.cbs))
  ]

  -- What `fromString` does on every text. If the text is not read, it returns false with no call
  -- and the variable as it was. If the value read is `==` to the variable's, it returns true with no
  -- call and the variable as it was. If no callback throws, each is called once, in order, the
  -- variable has the value, and it returns true. If one throws, the calls end with the first that
  -- does, and the variable is as it was; it returns false if that is a `std::exception`, and any
  -- other exception leaves it.
  pub from_string_lem :
      (t : ConfigType T) (ends : Call T C → Ending) (s : Text) (x : ConfigVar T C)
      → Reads t ends s x (from_string t ends s x)
  unfolding from_string
  from_string_lem t ends s x = set_read-Reads t ends s x (t.from_str s) refl

  -- A callback that is added is found under the id returned, and under every other id is found
  -- what was found before.
  pub get_listener-add_listener :
      (id k : ℕ) (c : C) (x : ConfigVar T C)
      → let (new_id, y) = add_listener id c x in
        get_listener k y ≡ (if k == new_id then some c else get_listener k x)
  unfolding add_listener get_listener
  get_listener-add_listener id k c x = find-insert k (inc64 id) c x.cbs

  -- Adding and deleting a listener keep the order of the ids.
  pub listeners-IsSorted :
      (id k : ℕ) (c : C) (x : ConfigVar T C)
      → IsSorted x.cbs
      → IsSorted (add_listener id c x).1.cbs × IsSorted (del_listener k x).cbs
  unfolding add_listener del_listener
  listeners-IsSorted id k c x h = (insert-IsSorted (inc64 id) c x.cbs h, erase-IsSorted k x.cbs h)

  -- When the ids are in order, a listener that is deleted is no longer found, and every other one
  -- is found as before.
  pub get_listener-del_listener :
      (j k : ℕ) (x : ConfigVar T C)
      → IsSorted x.cbs
      → get_listener j (del_listener k x) ≡ (if j == k then none else get_listener j x)
  unfolding del_listener get_listener
  get_listener-del_listener j k x h = find-erase j k x.cbs h

  -- With the ids in order, as they are in a new variable, the listeners are a map from ids: adding,
  -- deleting and clearing keep the order, the callback that is added is found under the id returned,
  -- the one that is deleted is found no longer, after clearing none is found, and under every other
  -- id is found what was found before.
  pub listeners_refine :
      (id j k : ℕ) (c : C) (x : ConfigVar T C)
      → IsSorted x.cbs
      → let (new_id, added) = add_listener id c x in
        IsSorted added.cbs
        × IsSorted (del_listener k x).cbs
        × IsSorted (clear_listener x).cbs
        × (get_listener j added ≡ (if j == new_id then some c else get_listener j x))
        × (get_listener j (del_listener k x) ≡ (if j == k then none else get_listener j x))
        × (get_listener j (clear_listener x) ≡ none)
  unfolding clear_listener get_listener find
  listeners_refine id j k c x h =
      let (added, deleted) = listeners-IsSorted id k c x h in
      (
        added,
        deleted,
        tt,
        get_listener-add_listener id j c x,
        get_listener-del_listener j k x h,
        refl,
      )
