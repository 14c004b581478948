-- ===== src/Util/Bounds.antt =====
-- The bounds of the backtrace.
use gwn_framwork.Base.{
  ℕ, zero, suc, ◌+◌, ◌-◌, ◌≤◌, ◌≡◌, refl, ◌∙◌, ap, sym, List, [], ◌∷◌, ◌++◌, append_assoc,
  append-nil, Option, none, some, ok, ltb, length, get_elem?, Text, ℤ, arith, Bool-cases, inl, inr,
  get_elem?-of_lt,
}
use gwn_framwork.Util.{
  Execinfo, IsDocumented, to_size, Traced, read, collect, with_strings, backtrace,
  backtrace_to_string, lines,
}

module _ {ℓ} {A : Type ℓ} where
  abbrev pub drop : ℕ → List A → List A
  drop zero l = l
  drop (suc n) [] = []
  drop (suc n) (x ∷ l) = drop n l

  drop-get : (i : ℕ) (l : List A) {x : A} → get_elem? l i ≡ some x → drop i l ≡ x ∷ drop (suc i) l
  drop-get i [] h = ground arith
  drop-get zero (x ∷ l) h = ground arith
  drop-get (suc i) (x ∷ l) h = drop-get i l h

  drop_all : (i : ℕ) (l : List A) → length l ≤ i → drop i l ≡ []
  drop_all zero [] h = refl
  drop_all (suc i) [] h = refl
  drop_all zero (x ∷ l) h = absurd (omega arith)
  drop_all (suc i) (x ∷ l) h = drop_all i l (omega arith)

  length-drop : (i : ℕ) (l : List A) → length (drop i l) ≡ length l - i
  length-drop zero l = omega arith
  length-drop (suc i) [] = omega arith
  length-drop (suc i) (x ∷ l) = omega (arith, length-drop i l)

-- The loop reads within the array, and ends in its fuel.
collect-drop :
    (n i : ℕ) (strings bt : List Text)
    → length strings ≤ i + n
    → collect n i (length strings) strings bt ≡ ok (bt ++ drop i strings)
unfolding collect read
collect-drop zero i strings bt h =
    rw (drop_all i strings (omega arith), append-nil bt) (ground arith)
collect-drop (suc n) i strings bt h = elim (Bool-cases (ltb i (length strings))) [
  | inl p ↦
      let (t, e) = get_elem?-of_lt strings i (ground arith) in
      let ih = collect-drop n (suc i) strings (bt ++ t ∷ []) (omega arith) in
      rw (p, e)
        (ih
          ∙ ap ok (
              append_assoc bt (t ∷ []) (drop (suc i) strings)
              ∙ ap (λ l. bt ++ l) (sym (drop-get i strings e))))
  | inr p ↦ rw (p) (ap ok (sym (rw (drop_all i strings (ground arith)) (append-nil bt))))
]

-- What is added to the vector: the texts from `skip` on.
abbrev pub added : ℕ → Option (List Text) → List Text
added skip none = []
added skip (some strings) = drop skip strings

-- The blocks that are never freed.
abbrev pub unfreed : Option (List Text) → ℕ
unfreed none = 1
unfreed (some strings) = 0

with_strings_lem :
    (skip s : ℕ) (o : Option (List Text)) (bt : List Text)
    → ((ts : List Text) → o ≡ some ts → length ts ≡ s)
    → (r : Traced) × (with_strings skip s o bt ≡ ok r)
      × (r.bt ≡ bt ++ added skip o)
      × (length (added skip o) ≤ s - skip)
      × (r.blocks ≡ unfreed o)
unfolding with_strings
with_strings_lem skip s none bt h = (_, refl, sym (append-nil bt), omega arith, refl)
with_strings_lem skip s (some ts) bt h =
    let e = h ts refl in
    let c = collect-drop (length ts) skip ts bt (omega arith) in
    (
      record { bt = bt ++ drop skip ts; blocks = 0 },
      rw (sym e, c) refl,
      refl,
      omega (arith, length-drop skip ts),
      refl,
    )

-- With the documented behaviour of `backtrace` and `backtrace_symbols`, for every size
-- that is not negative and an array that is allocated, and for every `skip`, also a negative one, the
-- functions end and never read beyond the array of texts. The
-- vector gets the texts from `skip` on, and with a null pointer none: at most `size` less `skip`
-- ones. With the null pointer, and only then, the block of the array of addresses is never freed. The
-- text of `BacktraceToString` has a line for each of them, behind the prefix.
pub backtrace_bounds :
    (x : Execinfo) (bt : List Text) (size : ℕ) (skip : ℤ) (prefix : Text)
    → IsDocumented x
    → let more = added (to_size skip) (x.backtrace_symbols (x.backtrace size)) in
      (r : Traced) × (backtrace x bt size skip ≡ ok r)
      × (r.bt ≡ bt ++ more)
      × (length more ≤ size - to_size skip)
      × (r.blocks ≡ unfreed (x.backtrace_symbols (x.backtrace size)))
      × (backtrace_to_string x size skip prefix ≡ ok (lines prefix more))
unfolding backtrace backtrace_to_string
backtrace_bounds x bt size skip prefix doc =
    let array = x.backtrace size in
    let each = doc.for_each array in
    let in_array = doc.in_array size in
    let (r, e, f, l, b) =
      with_strings_lem (to_size skip) (length array) (x.backtrace_symbols array) bt each in
    let (r', e', f', l', b') =
      with_strings_lem (to_size skip) (length array) (x.backtrace_symbols array) [] each in
    (r, e, f, omega arith, b, rw (e', f') refl)
