-- ===== src/Mutex/Guards.antt =====
-- What the scoped locks of gwn/mutex.h call on their mutex, from the constructor to the destructor.
use gwn_framwork.Base.{
  ℕ, zero, suc, ◌+◌, ◌≡◌, ◌<◌, ap, refl, sym, ◌∙◌, subst, Bool, true, false, List, [], ◌∷◌, ◌++◌,
  arith, if◌then◌else◌, Bool-cases, inl, inr, append_assoc, append-nil,
}
use gwn_framwork.Mutex.{
  Class, Call, unlock, acquire, Guard, new_guard, lock_again, release, destroy_guard, use_guard,
}

-- Pairs of an acquisition and a release.
abbrev pub pairs : Class → ℕ → List Call
pairs c zero = []
pairs c (suc n) = acquire c ∷ unlock ∷ pairs c n

pairs-append :
    (c : Class) (n : ℕ) → pairs c n ++ acquire c ∷ unlock ∷ [] ≡ acquire c ∷ unlock ∷ pairs c n
pairs-append c zero = refl
pairs-append c (suc n) = rw (pairs-append c n) refl

-- The calls so far: pairs, and one more acquisition while the guard is locked.
abbrev pub IsPaired : Class → Guard → Type 0
IsPaired c g =
    (g.class ≡ c)
    × ((n : ℕ) × (g.calls ≡ (pairs c n ++ (if g.locked then acquire c ∷ [] else [])))
        × (0 < n + (if g.locked then 1 else 0)))

module _ (c : Class) where
  new_guard-IsPaired : IsPaired c (new_guard c)
  unfolding new_guard
  new_guard-IsPaired = (refl, (0, refl, omega arith))

  lock_again-IsPaired : (g : Guard) → IsPaired c g → IsPaired c (lock_again g)
  unfolding lock_again
  lock_again-IsPaired g (k, (n, e, l)) = elim (Bool-cases g.locked) [
    | inl p ↦ let q : lock_again g ≡ g = rw (p) refl in subst (IsPaired c) (sym q) (k, (n, e, l))
    | inr p ↦
        let q : lock_again g ≡ record g { locked = true; calls = g.calls ++ acquire g.class ∷ [] } =
          rw (p) refl in
        let d : g.calls ++ acquire g.class ∷ [] ≡ pairs c n ++ acquire c ∷ [] =
          rw (e, p, k, append-nil (pairs c n)) refl in
        subst (IsPaired c) (sym q) (k, (n, d, omega arith))
  ]

  release-IsPaired : (g : Guard) → IsPaired c g → IsPaired c (release g)
  unfolding release
  release-IsPaired g (k, (n, e, l)) = elim (Bool-cases g.locked) [
    | inl p ↦
        let q : release g ≡ record g { locked = false; calls = g.calls ++ unlock ∷ [] } =
          rw (p) refl in
        let d : g.calls ++ unlock ∷ [] ≡ pairs c (suc n) ++ [] =
          rw (e, p, append_assoc (pairs c n) (acquire c ∷ []) (unlock ∷ []), append-nil (pairs c n))
            (pairs-append c n) in
        subst (IsPaired c) (sym q) (k, (suc n, d, omega arith))
    | inr p ↦ let q : release g ≡ g = rw (p) refl in subst (IsPaired c) (sym q) (k, (n, e, l))
  ]

  use_guard-IsPaired : (uses : List Bool) (g : Guard) → IsPaired c g → IsPaired c (use_guard uses g)
  unfolding use_guard
  use_guard-IsPaired [] g h = h
  use_guard-IsPaired (true ∷ uses) g h =
      use_guard-IsPaired uses (lock_again g) (lock_again-IsPaired g h)
  use_guard-IsPaired (false ∷ uses) g h = use_guard-IsPaired uses (release g) (release-IsPaired g h)

release-locked : (g : Guard) → (release g).locked ≡ false
unfolding release
release-locked g = elim (Bool-cases g.locked) [ inl p ↦ rw (p) refl | inr p ↦ rw (p) refl ]

positive : (n : ℕ) → 0 < n → (m : ℕ) × (n ≡ suc m)
positive zero h = elim h [ ]
positive (suc m) h = (m, refl)

-- From its constructor to its destructor a guard, whatever its scope does with it, acquires its
-- mutex and releases it in turn, at least once: at the end each acquisition, by the call of the
-- guard's class, is followed by its release.
pub destroy_guard_lem :
    (c : Class) (uses : List Bool)
    → (n : ℕ) × ((destroy_guard (use_guard uses (new_guard c))).calls ≡ pairs c (suc n))
unfolding destroy_guard
destroy_guard_lem c uses =
    let g = use_guard uses (new_guard c) in
    let (k, (n, e, l)) =
      release-IsPaired c g (use_guard-IsPaired c uses (new_guard c) (new_guard-IsPaired c)) in
    let l' = rw (release-locked g) at l in
    let (m, q) = positive n (omega arith) in
    (m, (rw (release-locked g, append-nil (pairs c n)) at e) ∙ ap (pairs c) q)
