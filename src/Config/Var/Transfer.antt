-- ===== src/Config/Var/Transfer.antt =====
-- A value that one variable shows and another one reads.
use gwn_framwork.Base.{
  ◌≡◌, refl, ap, true, List, [], ◌∷◌, ℕ, none, some, if◌then◌else◌, Text, Bool-cases, inl, inr,
}
use gwn_framwork.Config.Var.{
  ConfigType, ConfigVar, Call, Ending, completes, yields, notify, set_value, set_read, from_string,
  to_string,
}

module _ {T C : Type 0} where
  notify_quiet :
      (ends : Call T C → Ending) (old new : T) (cbs : List (ℕ × C))
      → ((c : Call T C) → ends c ≡ completes)
      → (notify ends old new cbs).1 ≡ completes
  unfolding notify
  notify_quiet ends old new [] quiet = refl
  notify_quiet ends old new ((k, c) ∷ cbs) quiet =
      let ih = notify_quiet ends old new cbs quiet in
      rw (quiet (record { callback = c; old_value = old; new_value = new }), ih) refl

  to_string_shown :
      (t : ConfigType T) (x : ConfigVar T C) (s : Text)
      → t.to_str x.val ≡ some s
      → to_string t x ≡ s
  unfolding to_string
  to_string_shown t x s shown = ap (λ o. elim o [ none ↦ [] | some s ↦ s ]) shown

  -- Where the conversions of a type take a value to a text and back, and no callback throws, the text
  -- that one variable shows is read by another one of the type: it gets the value, unless the type
  -- takes its own value for equal, and nothing else of it changes.
  pub from_string-to_string :
      (t : ConfigType T) (ends : Call T C → Ending) (x x' : ConfigVar T C) (s : Text)
      → t.to_str x.val ≡ some s
      → t.from_str s ≡ some x.val
      → ((c : Call T C) → ends c ≡ completes)
      → let (done, o) = from_string t ends (to_string t x) x' in
        (done ≡ yields true)
        × (o.var ≡ (if t.eq x.val x'.val then x' else record x' { val = x.val }))
  unfolding from_string set_read set_value
  from_string-to_string t ends x x' s shown read quiet = elim (Bool-cases (t.eq x.val x'.val)) [
    | inl p ↦ rw (to_string_shown t x s shown, read, p) (refl, refl)
    | inr p ↦
        rw (to_string_shown t x s shown, read, p, notify_quiet ends x'.val x.val x'.cbs quiet)
          (refl, refl)
  ]
