-- ===== src/Log/Define/Setup.antt =====
-- How the listener of `LogIniter` in gwn/log.cc sets a logger up: each part runs to its end.
use gwn_framwork.Base.{
  ℕ, ◌<◌, ◌≤◌, ◌≡◌, ◌⊎◌, inl, inr, refl, ap, List, [], ◌∷◌, ◌++◌, some, Result, ok, ◌>>=◌,
  Bool-cases, length, get_elem?, All, All-get, get_elem?-set_self, get_elem?-lt, get_elem?-of_lt,
  get_elem?-append_self, is_empty, Text, arith, length-set,
}
use gwn_framwork.Log.Level.{Level}
use gwn_framwork.Log.Formatter.{LogFormatter}
use gwn_framwork.Log.Formatter.Render.{new_formatter_total}
use gwn_framwork.Log.Appender.{Appender, new_stdout, new_file}
use gwn_framwork.Log.Appender
use gwn_framwork.Log.Logger.{
  Logger, World, Sys, env_of, set_logger, set_appender, say, add_appender, clear_appenders,
  set_level,
}
use gwn_framwork.Log.Logger.Safe.{IsSafe, HasFormatter, set_logger-IsSafe}
use gwn_framwork.Log.Logger.Operations.{
  add_appender_total, set_pattern_total, more_appenders-IsSafe, set_appender-IsSafe, say-IsSafe,
  IsLogger,
}
use gwn_framwork.Log.Define.{
  LogAppenderDefine, make_appender, set_up, with_formatter, set_up_all, set_pattern_of,
}

-- The appender is a file or the console.
abbrev pub IsTyped : LogAppenderDefine → Type 0
IsTyped a = (a.type ≡ 1) ⊎ (a.type ≡ 2)

-- An operation ends with no fault in a safe store with as many loggers, or more.
abbrev pub Succeeds : ℕ → Result World → Type 0
Succeeds n r = (w' : World) × (r ≡ ok w') × IsSafe w' × (n ≤ length w'.loggers)

pub Succeeds-then :
    (n : ℕ) (r : Result World) (k : World → Result World)
    → Succeeds n r
    → ((w' : World) → IsSafe w' → n ≤ length w'.loggers → Succeeds n (k w'))
    → Succeeds n (r >>= k)
Succeeds-then n r k (w', e, s, len) next =
    let (w'', e', s', len') = next w' s len in (w'', rw e e', s', len')

IsLogger-of_lt : (w : World) (l : ℕ) → l < length w.loggers → IsLogger w l
IsLogger-of_lt w l = get_elem?-of_lt w.loggers l

-- A new appender stands at the end of the store, and has no formatter yet.
make_appender_total :
    (sys : Sys) (a : LogAppenderDefine) (w : World)
    → IsTyped a
    → IsSafe w
    → (i : ℕ) × (w' : World) × (p : Appender) × (make_appender sys a w ≡ ok (i, w'))
      × IsSafe w'
      × (get_elem? w'.appenders i ≡ some p)
      × (w'.loggers ≡ w.loggers)
unfolding make_appender
make_appender_total sys a w (inl t) s =
    let (p, o) = new_file (env_of sys w) a.file w.output in
    (
      length w.appenders,
      record w { appenders = w.appenders ++ p ∷ []; output = o },
      p,
      ground arith,
      more_appenders-IsSafe w p o s,
      get_elem?-append_self w.appenders p,
      refl,
    )
make_appender_total sys a w (inr t) s = (
  length w.appenders,
  record w { appenders = w.appenders ++ new_stdout ∷ [] },
  new_stdout,
  ground arith,
  more_appenders-IsSafe w new_stdout w.output s,
  get_elem?-append_self w.appenders new_stdout,
  refl,
)

set_up-formatter :
    (name : Text) (a : LogAppenderDefine) (f : LogFormatter) (p : Appender) (g : LogFormatter)
    → p.formatter ≡ some g
    → HasFormatter (set_up name a f p).1.formatter
unfolding set_up Appender.set_formatter
set_up-formatter name a f p g h = elim (Bool-cases f.error) [
  | inl bad ↦ (g, ground arith)
  | inr good ↦ (f, ground arith)
]

with_formatter_total :
    (name : Text) (a : LogAppenderDefine) (p : Appender)
    → (t : Text) × (p' : Appender) × (with_formatter name a p ≡ ok (t, p'))
      × ((g : LogFormatter) → p.formatter ≡ some g → HasFormatter p'.formatter)
with_formatter_total name a p = elim (Bool-cases (is_empty a.formatter)) [
  | inl none_given ↦ ([], p, unfold with_formatter in rw none_given, λ g e. (g, e))
  | inr given ↦
      let made = new_formatter_total a.formatter in
      (
        (set_up name a made.0 p).0,
        (set_up name a made.0 p).1,
        unfold with_formatter in rw (given, made.3),
        set_up-formatter name a made.0 p,
      )
]

set_up_one :
    (sys : Sys) (name : Text) (l n : ℕ) (a : LogAppenderDefine) (w : World)
    → IsTyped a
    → IsSafe w
    → l < n
    → n ≤ length w.loggers
    → (i : ℕ) × (w₁ : World) × (p : Appender) × (t : Text) × (p' : Appender) × (w₂ : World)
      × (make_appender sys a w ≡ ok (i, w₁))
      × (get_elem? w₁.appenders i ≡ some p)
      × (with_formatter name a (Appender.set_level a.level p) ≡ ok (t, p'))
      × (add_appender l i (say t (set_appender i p' w₁)) ≡ ok w₂)
      × IsSafe w₂
      × (n ≤ length w₂.loggers)
set_up_one sys name l n a w typed s lt le =
    let (i, w₁, p, e₁, s₁, there, same) = make_appender_total sys a w typed s in
    let q = Appender.set_level a.level p in
    let (t, p', e₂, has) = with_formatter_total name a q in
    let v = set_appender i p' w₁ in
    let sv =
      say-IsSafe t v
        (set_appender-IsSafe w₁ i p p' there (λ g e. has g (unfold Appender.set_level in e)) s₁) in
    let count : length w₁.loggers ≡ length w.loggers = ap (λ (ls : List Logger). length ls) same in
    let (w₂, e₃, s₂, k) =
      add_appender_total l i (say t v) (IsLogger-of_lt (say t v) l (omega arith))
        (p', get_elem?-set_self w₁.appenders i p' (get_elem?-lt w₁.appenders i there)) sv in
    (i, w₁, p, t, p', w₂, e₁, there, e₂, e₃, s₂, omega arith)

pub set_up_all_total :
    (sys : Sys) (name : Text) (l n : ℕ) (ds : List LogAppenderDefine) (w : World)
    → All IsTyped ds
    → IsSafe w
    → l < n
    → n ≤ length w.loggers
    → Succeeds n (set_up_all sys name l ds w)
unfolding set_up_all
set_up_all_total sys name l n [] w h s lt le = (w, refl, s, le)
set_up_all_total sys name l n (a ∷ ds) w h s lt le =
    let (i, w₁, p, t, p', w₂, e₁, there, e₂, e₃, s₂, le₂) =
      set_up_one sys name l n a w h.0 s lt le in
    rw (e₁, there, e₂, e₃) (set_up_all_total sys name l n ds w₂ h.1 s₂ lt le₂)

pub set_level_total :
    (l : ℕ) (lv : Level) (n : ℕ) (w : World)
    → IsSafe w
    → l < n
    → n ≤ length w.loggers
    → Succeeds n (set_level l lv w)
set_level_total l lv n w s lt le =
    let (x, there) = IsLogger-of_lt w l (omega arith) in
    let x' = record x { level = lv } in
    (
      set_logger l x' w,
      unfold set_level in rw there,
      set_logger-IsSafe w l x x' there refl (All-get _ w.loggers l s.formatters there)
          (All-get _ w.loggers l s.usable there) s,
      omega (arith, length-set {0} w.loggers l x'),
    )

pub clear_appenders_total :
    (l n : ℕ) (w : World)
    → IsSafe w
    → l < n
    → n ≤ length w.loggers
    → Succeeds n (clear_appenders l w)
clear_appenders_total l n w s lt le =
    let (x, there) = IsLogger-of_lt w l (omega arith) in
    let x' = record x { appenders = [] } in
    (
      set_logger l x' w,
      unfold clear_appenders in rw there,
      set_logger-IsSafe w l x x' there refl (All-get _ w.loggers l s.formatters there) tt s,
      omega (arith, length-set {0} w.loggers l x'),
    )

pub set_pattern_of_total :
    (l : ℕ) (t : Text) (n : ℕ) (w : World)
    → IsSafe w
    → l < n
    → n ≤ length w.loggers
    → Succeeds n (set_pattern_of l t w)
set_pattern_of_total l t n w s lt le = elim (Bool-cases (is_empty t)) [
  | inl none_given ↦ (w, unfold set_pattern_of in rw none_given, s, le)
  | inr given ↦
      let (w', e, s', k) = set_pattern_total l t w (IsLogger-of_lt w l (omega arith)) s in
      (w', unfold set_pattern_of in rw given e, s', omega arith)
]

pub Succeeds-weaken : {m : ℕ} (n : ℕ) (r : Result World) → n ≤ m → Succeeds m r → Succeeds n r
Succeeds-weaken n r le (w', e, s, k) = (w', e, s, omega arith)
