-- ===== src/Log/Logger/Operations.antt =====
-- The methods of loggers and of the manager keep the store of loggers and appenders safe.
use gwn_framwork.Base.{
  text_lt, ◌<◌, ℕ, ◌≡◌, refl, sym, ◌∙◌, ap, List, [], ◌∷◌, ◌++◌, Option, none, some, arith, ok,
  length, length-set, length-append, get_elem?, set, All, All-get, All-mono, All-append,
  get_elem?-set_self, get_elem?-set_ne, get_elem?-lt, get_elem?-append_left, Text, ℕ_discrete,
  Bool-cases, inl, inr, codes, Option-cases,
}
use gwn_framwork.Log.Formatter.{LogFormatter}
use gwn_framwork.Log.Formatter.Render.{new_formatter_total}
use gwn_framwork.Log.Appender.{Appender, Output}
use gwn_framwork.Log.Logger.{
  Logger, World, set_logger, set_appender, say, new_logger, set_formatter, set_pattern,
  or_formatter, add_appender, remove_first, insert_name, found_or_new,
}
use gwn_framwork.Log.Logger.Safe.{
  IsUsable, HasFormatter, IsRoot, IsSafe, IsUsable-set, set_logger-IsSafe, set_appenders-IsSafe,
  share_total,
}

abbrev pub IsLogger : World → ℕ → Type 0
IsLogger w a = (l : Logger) × (get_elem? w.loggers a ≡ some l)

abbrev pub IsAppender : World → ℕ → Type 0
IsAppender w i = (p : Appender) × (get_elem? w.appenders i ≡ some p)

-- Appenders that are added to the store are in no logger's list yet.
pub more_appenders-IsSafe :
    (w : World) (p : Appender) (o : Output)
    → IsSafe w
    → IsSafe (record w { appenders = w.appenders ++ p ∷ []; output = o })
more_appenders-IsSafe w p o =
    set_appenders-IsSafe w _ o
      λ j u. (u.0, u.1, get_elem?-append_left w.appenders (p ∷ []) j u.2, u.3)

-- Writing an appender back with a formatter, if it had one.
pub set_appender-IsSafe :
    (w : World) (i : ℕ) (p p' : Appender)
    → get_elem? w.appenders i ≡ some p
    → ((f : LogFormatter) → p.formatter ≡ some f → HasFormatter p'.formatter)
    → IsSafe w
    → IsSafe (set_appender i p' w)
set_appender-IsSafe w i p p' there has =
    set_appenders-IsSafe w (set w.appenders i p') w.output λ j u. elim (ℕ_discrete i j) [
      | yes same ↦
          let same_p : some u.0 ≡ some p =
            sym u.2 ∙ ap (get_elem? w.appenders) (sym same) ∙ there in
          let (g, e) = has u.1 (ground arith) in IsUsable-set w.appenders i j p' p g there e u
      | no other ↦ (u.0, u.1, get_elem?-set_ne w.appenders i j p' other ∙ u.2, u.3)
    ]

pub remove_first-All : (P : ℕ → Type 0) (i : ℕ) (js : List ℕ) → All P js → All P (remove_first i js)
unfolding remove_first
remove_first-All P i [] h = tt
remove_first-All P i (j ∷ js) h = ground (arith, remove_first-All P i js h.1)

pub new_logger-formatter : (name : Text) (r : Option ℕ) → HasFormatter (new_logger name r).formatter
unfolding new_logger
new_logger-formatter name r = let t = new_formatter_total _ in (t.0, t.3)

pub or_formatter-HasFormatter :
    (o : Option LogFormatter) (p : Appender)
    → HasFormatter o
    → HasFormatter (or_formatter o p).formatter
or_formatter-HasFormatter o p (f, h) = elim (Option-cases p.formatter) [
  | inl e ↦ (f, ground arith)
  | inr (g, e) ↦ (g, ground arith)
]

pub add_appender_total :
    (a i : ℕ) (w : World)
    → IsLogger w a
    → IsAppender w i
    → IsSafe w
    → (w' : World) × (add_appender a i w ≡ ok w')
      × IsSafe w'
      × (length w'.loggers ≡ length w.loggers)
add_appender_total a i w (l, there) (p, at_i) s =
    let own = All-get _ w.loggers a s.formatters there in
    let q = or_formatter l.formatter p in
    let (g, has) = or_formatter-HasFormatter l.formatter p own in
    let v = set_appender i q w in
    let sv = set_appender-IsSafe w i p q at_i (λ f e. (g, has)) s in
    let new : IsUsable v.appenders i =
      (q, g, get_elem?-set_self w.appenders i q (get_elem?-lt w.appenders i at_i), has) in
    (
      set_logger a (record l { appenders = l.appenders ++ i ∷ [] }) v,
      unfold add_appender in rw (there, at_i),
      set_logger-IsSafe v a l _ there refl own
          (All-append _ l.appenders (i ∷ []) (All-get _ w.loggers a sv.usable there) (new, tt)) sv,
      length-set w.loggers a _,
    )

pub set_formatter_total :
    (a : ℕ) (f : LogFormatter) (w : World)
    → IsLogger w a
    → IsSafe w
    → (w' : World) × (set_formatter a (some f) w ≡ ok w')
      × IsSafe w'
      × (length w'.loggers ≡ length w.loggers)
set_formatter_total a f w (l, there) s =
    let use_all = All-get _ w.loggers a s.usable there in
    let (ps, e, k) = share_total f l.appenders w.appenders use_all in
    let l' = record l { formatter = some f } in
    let v = set_logger a l' w in
    (
      record v { appenders = ps },
      unfold set_formatter in rw (there, e),
      set_appenders-IsSafe v ps w.output k
          (set_logger-IsSafe w a l l' there refl (f, refl) use_all s),
      length-set w.loggers a l',
    )

pub say-IsSafe : (t : Text) (w : World) → IsSafe w → IsSafe (say t w)
say-IsSafe t w s = record {
  formatters = s.formatters;
  usable = s.usable;
  roots = s.roots;
  root = s.root;
  named = s.named;
}

abbrev refusal : Text → Text → Text
refusal name t =
    codes "Logger setFormatter name="
    ++ (name ++ (codes " value=" ++ (t ++ codes " invalid formatter\n")))

IsRoot-append :
    (ls : List Logger) (l : Logger) (o : Option ℕ) → IsRoot ls o → IsRoot (ls ++ l ∷ []) o
IsRoot-append ls l none h = tt
IsRoot-append ls l (some r) h = (h.0, get_elem?-append_left ls (l ∷ []) r h.1, h.2)

new_logger-appenders :
    (name : Text) (r : Option ℕ) (ps : List Appender)
    → All (IsUsable ps) (new_logger name r).appenders
unfolding new_logger
new_logger-appenders name r ps = tt

new_logger-root :
    (ls : List Logger) (name : Text) (r : ℕ)
    → IsRoot ls (some r)
    → IsRoot ls (new_logger name (some r)).root
unfolding new_logger
new_logger-root ls name r h = h

pub set_pattern_total :
    (a : ℕ) (t : Text) (w : World)
    → IsLogger w a
    → IsSafe w
    → (w' : World) × (set_pattern a t w ≡ ok w')
      × IsSafe w'
      × (length w'.loggers ≡ length w.loggers)
set_pattern_total a t w (l, there) s =
    let made = new_formatter_total t in
    let v = say (codes "---" ++ (t ++ codes "\n")) w in
    let sv = say-IsSafe (codes "---" ++ (t ++ codes "\n")) w s in
    elim (Bool-cases made.0.error) [
      | inl bad ↦ (
        say (refusal l.name t) v,
        unfold set_pattern in rw (there, made.3, bad),
        say-IsSafe (refusal l.name t) v sv,
        refl,
      )
      | inr good ↦
          let (w', e, sw, n) = set_formatter_total a made.0 v (l, there) sv in
          (w', unfold set_pattern in rw (there, made.3, good) e, sw, n)
    ]

insert_name-All :
    (P : Text × ℕ → Type 0) (n : Text) (a : ℕ) (m : List (Text × ℕ))
    → P (n, a)
    → All P m
    → All P (insert_name n a m)
unfolding insert_name
insert_name-All P n a [] p h = (p, tt)
insert_name-All P n a ((k, b) ∷ m) p h =
    let ih = insert_name-All P n a m p h.1 in
    elim (Bool-cases (text_lt n k)) [ inl q ↦ rw (q) (p, h) | inr q ↦ rw (q) (h.0, ih) ]

pub get_logger-IsSafe :
    (name : Text) (w : World) (o : Option ℕ) → IsSafe w → IsSafe (found_or_new name w o).1
unfolding found_or_new
get_logger-IsSafe name w (some a) s = s
get_logger-IsSafe name w none s =
    let l = new_logger name (some w.root) in
    let later = λ (o : Option ℕ). IsRoot-append w.loggers l o in
    let longer = length-append w.loggers (l ∷ []) in
    record {
      formatters =
          All-append _ w.loggers (l ∷ []) s.formatters
            (new_logger-formatter name (some w.root), tt);
      usable =
          All-append _ w.loggers (l ∷ []) s.usable
            (new_logger-appenders name (some w.root) w.appenders, tt);
      roots =
          All-append _ w.loggers (l ∷ []) (All-mono _ _ w.loggers (λ x. later x.root) s.roots)
            (new_logger-root _ name w.root (later (some w.root) s.root), tt);
      root = later (some w.root) s.root;
      named =
          insert_name-All (λ m. m.1 < length (w.loggers ++ l ∷ [])) name (length w.loggers) w.names
            (omega (arith, longer)) (All-mono _ _ w.names (λ m lt. omega (arith, longer)) s.named);
    }
