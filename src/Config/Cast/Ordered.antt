-- ===== src/Config/Cast/Ordered.antt =====
-- Lists in increasing order, as a `std::set` keeps them.
use gwn_framwork.Base.{
  ◌≡◌, refl, sym, ap, ◌∙◌, Bool, true, false, List, [], ◌∷◌, ◌++◌, arith, All, All-mono, All-append,
  append_assoc, append-nil, Bool-cases, inl, inr, Text, text_lt, Option, none, some, and_then,
}
use gwn_framwork.Config.Cast.{insert_set, key_lt}

-- What a comparison must be, for a `std::set`.
pub record IsOrder {T : Type 0} (lt : T → T → Bool) : Type 0 where
  pub asym : (a b : T) → lt a b ≡ true → lt b a ≡ false
  pub trans : (a b c : T) → lt a b ≡ true → lt b c ≡ true → lt a c ≡ true

module _ {T : Type 0} (lt : T → T → Bool) where
  abbrev pub IsIncreasing : List T → Type 0
  IsIncreasing [] = Unit
  IsIncreasing (x ∷ xs) = All (λ a. lt x a ≡ true) xs × IsIncreasing xs

-- Insertion of each element in turn.
unfoldable pub insert_all : {T : Type 0} → (T → List T → List T) → List T → List T → List T
insert_all insert [] s = s
insert_all insert (x ∷ xs) s = insert_all insert xs (insert x s)

-- A loop that inserts an element and goes on does what one does that puts it before what it collects,
-- with the insertions at the end.
pub collect_then_insert :
    {A T : Type 0} (insert : T → List T → List T) (s : List T) (made : A → T)
    (rest : Option (List T)) (first : Option A) (next : A → Option (List T))
    → ((v : A) → next v ≡ and_then rest (λ vs. some (insert_all insert vs (insert (made v) s))))
    → and_then first next
      ≡ and_then
          (and_then first (λ v. and_then rest (λ vs. some (made v ∷ vs))))
          (λ vs. some (insert_all insert vs s))
unfolding insert_all
collect_then_insert insert s made rest none next h = refl
collect_then_insert insert s made none (some v) next h = h v
collect_then_insert insert s made (some vs) (some v) next h = h v

module _ {T : Type 0} (lt : T → T → Bool) (order : IsOrder lt) where
  insert_set-above :
      (b x : T) (s : List T)
      → lt b x ≡ true
      → All (λ a. lt b a ≡ true) s
      → All (λ a. lt b a ≡ true) (insert_set lt x s)
  unfolding insert_set
  insert_set-above b x [] e h = (e, tt)
  insert_set-above b x (a ∷ s) e (k, h) =
      let ih = insert_set-above b x s e h in
      elim (Bool-cases (lt x a)) [
        | inl p ↦ rw (p) (e, (k, h))
        | inr p ↦ elim (Bool-cases (lt a x)) [
          | inl q ↦ rw (p, q) (k, ih)
          | inr q ↦ rw (p, q) (k, h)
        ]
      ]

  -- An insertion keeps the order.
  pub insert_set-IsIncreasing :
      (x : T) (s : List T) → IsIncreasing lt s → IsIncreasing lt (insert_set lt x s)
  unfolding insert_set
  insert_set-IsIncreasing x [] h = (tt, tt)
  insert_set-IsIncreasing x (a ∷ s) (k, h) =
      let ih = insert_set-IsIncreasing x s h in
      elim (Bool-cases (lt x a)) [
        | inl p ↦ rw (p) ((p, All-mono _ _ s (λ b l. order.trans x a b p l) k), (k, h))
        | inr p ↦ elim (Bool-cases (lt a x)) [
          | inl q ↦ rw (p, q) (insert_set-above a x s q k, ih)
          | inr q ↦ rw (p, q) (k, h)
        ]
      ]

  pub insert_all-IsIncreasing :
      (xs s : List T) → IsIncreasing lt s → IsIncreasing lt (insert_all (insert_set lt) xs s)
  unfolding insert_all
  insert_all-IsIncreasing [] s h = h
  insert_all-IsIncreasing (x ∷ xs) s h =
      insert_all-IsIncreasing xs (insert_set lt x s) (insert_set-IsIncreasing x s h)

  -- An element above all goes to the end.
  insert_set_last :
      (x : T) (s : List T) → All (λ a. lt a x ≡ true) s → insert_set lt x s ≡ s ++ x ∷ []
  unfolding insert_set
  insert_set_last x [] h = refl
  insert_set_last x (a ∷ s) (k, h) = rw (order.asym a x k, k) (ap (◌∷◌ a) (insert_set_last x s h))

  -- What is below all that follows stays so with an element that is below it too.
  All-below :
      (x : T) (s xs : List T)
      → All (λ a. lt x a ≡ true) xs
      → All (λ b. All (λ a. lt a b ≡ true) s) xs
      → All (λ b. All (λ a. lt a b ≡ true) (s ++ x ∷ [])) xs
  All-below x s [] h k = tt
  All-below x s (b ∷ xs) (e, h) (k, ks) =
      (All-append (λ a. lt a b ≡ true) s (x ∷ []) k (e, tt), All-below x s xs h ks)

  insert_all_increasing :
      (xs s : List T)
      → IsIncreasing lt xs
      → All (λ x. All (λ a. lt a x ≡ true) s) xs
      → insert_all (insert_set lt) xs s ≡ s ++ xs
  unfolding insert_all
  insert_all_increasing [] s h k = sym (append-nil s)
  insert_all_increasing (x ∷ xs) s (above, h) (k, ks) = rw (insert_set_last x s k) (
      insert_all_increasing xs (s ++ x ∷ []) h (All-below x s xs above ks)
      ∙ append_assoc s (x ∷ []) xs)

  All-nothing : (xs : List T) → All (λ b. All (λ a. lt a b ≡ true) []) xs
  All-nothing [] = tt
  All-nothing (x ∷ xs) = (tt, All-nothing xs)

  -- The elements of a list in increasing order, inserted one by one, give that list.
  pub insert_all-eq : (xs : List T) → IsIncreasing lt xs → insert_all (insert_set lt) xs [] ≡ xs
  insert_all-eq xs h = insert_all_increasing xs [] h (All-nothing xs)

text_lt-asym : (a b : Text) → text_lt a b ≡ true → text_lt b a ≡ false
unfolding text_lt
text_lt-asym (x ∷ a) (y ∷ b) h = ground (arith, text_lt-asym a b)
text_lt-asym _ _ h = ground arith

text_lt_trans : (a b c : Text) → text_lt a b ≡ true → text_lt b c ≡ true → text_lt a c ≡ true
unfolding text_lt
text_lt_trans (x ∷ a) (y ∷ b) (z ∷ c) h k = ground (arith, text_lt_trans a b c)
text_lt_trans _ _ _ h k = ground arith

pub text_lt_irrefl : (a : Text) → text_lt a a ≡ false
unfolding text_lt
text_lt_irrefl [] = refl
text_lt_irrefl (x ∷ a) = ground (arith, text_lt_irrefl a)

pub text_lt-total : (a b : Text) → text_lt a b ≡ false → text_lt b a ≡ false → a ≡ b
unfolding text_lt
text_lt-total (x ∷ a) (y ∷ b) h k = ground (arith, text_lt-total a b)
text_lt-total _ _ h k = ground arith

pub text_lt-IsOrder : IsOrder text_lt
text_lt-IsOrder = record { asym = text_lt-asym; trans = text_lt_trans }

pub key_lt-IsOrder : {T : Type 0} → IsOrder {T = Text × T} key_lt
key_lt-IsOrder = record {
  asym = λ a b. text_lt-asym a.0 b.0;
  trans = λ a b c. text_lt_trans a.0 b.0 c.0;
}
