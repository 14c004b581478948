-- ===== src/Base/Results.antt =====
-- Results of code that can stop the program: the assertions of gwn/macro.h, and null pointers.
use mathlib.Core.Path.{◌≡◌, refl}
use mathlib.Core.Bool.{Bool, true, false}
use mathlib.Core.Option.{Option, none, some}

-- `gwn_ASSERT` failed, a null pointer or an index beyond an array was read, or a recursion did not end in its fuel.
pub data Fault : Type 0 where
  assertion null_pointer out_of_bounds endless : Fault

pub data Result {ℓ} (A : Type ℓ) : Type ℓ where
  fault : Fault → Result A
  ok : A → Result A

-- A pointer that is read.
abbrev pub deref {ℓ} : {A : Type ℓ} → Option A → Result A
deref none = fault null_pointer
deref (some a) = ok a

-- `gwn_ASSERT`.
abbrev pub assert : Bool → Result (Unit {0})
assert true = ok tt
assert false = fault assertion

-- A fault stops the program; all that follows is not run.
module _ {ℓ κ} {A : Type ℓ} {B : Type κ} where
  infixl 5 ◌>>=◌
  abbrev pub ◌>>=◌ : Result A → (A → Result B) → Result B
  fault stop >>= next = fault stop
  ok v >>= next = next v

  -- What a program that ran to its end got from its first part.
  pub >>=-eq-ok :
      (first : Result A) (next : A → Result B) {b : B}
      → (first >>= next) ≡ ok b
      → (v : A) × (first ≡ ok v) × (next v ≡ ok b)
  >>=-eq-ok (fault stop) next ran = cc
  >>=-eq-ok (ok v) next ran = (v, refl, ran)

infixl 5 ◌>>◌
abbrev pub ◌>>◌ {κ} : {B : Type κ} → Result (Unit {0}) → Result B → Result B
first >> next = first >>= λ u. next

-- An exception, as `none`, ends a reading.
abbrev pub and_then {ℓ κ} : {A : Type ℓ} {B : Type κ} → Option A → (A → Option B) → Option B
and_then none next = none
and_then (some v) next = next v

pub and_then-some {ℓ κ} :
    {A : Type ℓ} {B : Type κ} (first : Option A) (next : A → Option B) {b : B}
    → and_then first next ≡ some b
    → (v : A) × (first ≡ some v) × (next v ≡ some b)
and_then-some none next got = cc
and_then-some (some v) next got = (v, refl, got)

pub unsome {ℓ} : {A : Type ℓ} {a b : A} → some a ≡ some b → a ≡ b
unsome e = cc
