-- ===== src/Log/Logger/Manager.antt =====
-- What `LoggerManager::getLogger` of gwn/log.cc finds.
use gwn_framwork.Base.{
  ℕ, ◌≡◌, ◌∙◌, ap, subst, sym, refl, true, false, List, [], ◌∷◌, Option, none, some, arith,
  if◌then◌else◌, length, Text, text_eq, text_lt, text_eq_iff, text_eq_refl, find_name, Bool-cases,
  inl, inr,
}
use gwn_framwork.Log.Logger.{World, insert_name, found_or_new, get_logger}

-- An entry that is inserted is found where no entry was.
find_name-insert_name :
    (n k : Text) (a : ℕ) (m : List (Text × ℕ))
    → find_name k m ≡ none
    → find_name n (insert_name k a m) ≡ (if text_eq k n then some a else find_name n m)
unfolding find_name insert_name
find_name-insert_name n k a [] h = refl
find_name-insert_name n k a ((j, b) ∷ m) h = elim (Bool-cases (text_lt k j)) [
  | inl q ↦ rw (q) refl
  | inr behind ↦ rw (behind) (elim (Bool-cases (text_eq j k)) [
    | inl q ↦ ground arith
    | inr q ↦
        let ih = find_name-insert_name n k a m (ground arith) in
        elim (Bool-cases (text_eq j n)) [
          | inl r ↦
              let other : text_eq k n ≡ false = elim (Bool-cases (text_eq k n)) [
                | inl e ↦
                    (let w : text_eq j k ≡ true =
                        (text_eq_iff j k).1 ((text_eq_iff j n).0 r ∙ sym ((text_eq_iff k n).0 e)) in
                      ground arith)
                | inr e ↦ e
              ] in
              rw (r, other) refl
          | inr r ↦ rw (r) ih
        ]
  ])
]

found_again :
    (name other : Text) (w : World) (o : Option ℕ)
    → find_name name w.names ≡ o
    → let (a, w') = found_or_new name w o in
      (find_name name w'.names ≡ some a)
      × (find_name other w'.names
          ≡ (if text_eq name other then some a else find_name other w.names))
unfolding found_or_new
found_again name other w (some a) h = (
  h,
  elim (Bool-cases (text_eq name other)) [
    | inl e ↦ rw (e) (subst (λ n. find_name n w.names ≡ some a) ((text_eq_iff name other).0 e) h)
    | inr e ↦ rw (e) refl
  ],
)
found_again name other w none h = (
  find_name-insert_name name name (length w.loggers) w.names h ∙ rw (text_eq_refl name) refl,
  find_name-insert_name other name (length w.loggers) w.names h,
)

-- A logger that `getLogger` returns for a name is what it returns for that name again, with no
-- logger made; and what it finds for every other name is what it found before.
pub get_logger-get_logger :
    (name other : Text) (w : World)
    → let (a, w') = get_logger name w in
      (get_logger name w' ≡ (a, w'))
      × (find_name other w'.names
          ≡ (if text_eq name other then some a else find_name other w.names))
unfolding get_logger
get_logger-get_logger name other w =
    let (e, k) = found_again name other w (find_name name w.names) refl in
    (ap (found_or_new name (found_or_new name w (find_name name w.names)).1) e, k)
