-- ===== src/Log/Define/Listener.antt =====
-- The listener of `LogIniter` in gwn/log.cc runs to its end, and keeps the store of loggers safe.
use gwn_framwork.Base.{
  find_name, ℕ, ◌<◌, ◌≤◌, ◌≡◌, inl, inr, refl, List, [], ◌∷◌, Option, none, some, ok, Bool-cases,
  Option-cases, length, length-append, All, Text, arith,
}
use gwn_framwork.Log.Level.{unknow, info, at_least}
use gwn_framwork.Log.Event.{LogEvent}
use gwn_framwork.Log.Logger.{World, Sys, get_logger, found_or_new, new_logger}
use gwn_framwork.Log.Logger.Safe.{IsSafe, log_total}
use gwn_framwork.Log.Logger.Operations.{get_logger-IsSafe}
use gwn_framwork.Log.Define.{
  LogDefine, Defines, find, configure, is_changed, configure_all, retire, retire_all, announce,
  on_change,
}
use gwn_framwork.Log.Define.Setup.{
  IsTyped, Succeeds, Succeeds-then, set_up_all_total, set_level_total, clear_appenders_total,
  set_pattern_of_total, Succeeds-weaken,
}

find_name-lt :
    (name : Text) (n : ℕ) (m : List (Text × ℕ))
    → All (λ e. e.1 < n) m
    → (a : ℕ) → find_name name m ≡ some a
    → a < n
unfolding find_name
find_name-lt name n [] h a e = ground arith
find_name-lt name n ((k, b) ∷ m) h a e = ground (arith, find_name-lt name n m h.1 a)

found_total :
    (name : Text) (n : ℕ) (w : World) (o : Option ℕ)
    → ((a : ℕ) → o ≡ some a → a < length w.loggers)
    → n ≤ length w.loggers
    → (n ≤ length (found_or_new name w o).1.loggers)
      × ((found_or_new name w o).0 < length (found_or_new name w o).1.loggers)
unfolding found_or_new
found_total name n w (some a) there le = (le, there a refl)
found_total name n w none there le =
    let longer = length-append w.loggers (new_logger name (some w.root) ∷ []) in
    (omega (arith, longer), omega (arith, longer))

-- `getLogger` gives a logger that is there.
get_logger_total :
    (name : Text) (n : ℕ) (w : World)
    → IsSafe w
    → n ≤ length w.loggers
    → let (a, w') = get_logger name w in
      IsSafe w' × (n ≤ length w'.loggers) × (a < length w'.loggers)
unfolding get_logger
get_logger_total name n w s le =
    let (grows, there) =
      found_total name n w (find_name name w.names)
        (find_name-lt name (length w.loggers) w.names s.named) le in
    (get_logger-IsSafe name w (find_name name w.names) s, grows, there)

configure_total :
    (sys : Sys) (d : LogDefine) (n : ℕ) (w : World)
    → All IsTyped d.appenders
    → IsSafe w
    → n ≤ length w.loggers
    → Succeeds n (configure sys d w)
unfolding configure
configure_total sys d n w h s le =
    let (s₁, grows, there) = get_logger_total d.name n w s le in
    let l = (get_logger d.name w).0 in
    let m = length (get_logger d.name w).1.loggers in
    Succeeds-weaken {m = m} n _ grows (
      Succeeds-then m _ _ (set_level_total l d.level m _ s₁ there (omega arith)) λ w₂ s₂ le₂.
        Succeeds-then m _ _ (set_pattern_of_total l d.formatter m w₂ s₂ there le₂) λ w₃ s₃ le₃.
          Succeeds-then m _ _ (clear_appenders_total l m w₃ s₃ there le₃)
            λ w₄ s₄ le₄. set_up_all_total sys d.name l m d.appenders w₄ h s₄ there le₄)

retire_total :
    (d : LogDefine) (n : ℕ) (w : World) → IsSafe w → n ≤ length w.loggers → Succeeds n (retire d w)
unfolding retire
retire_total d n w s le =
    let (s₁, grows, there) = get_logger_total d.name n w s le in
    let l = (get_logger d.name w).0 in
    let m = length (get_logger d.name w).1.loggers in
    Succeeds-weaken {m = m} n _ grows (
      Succeeds-then m _ _ (set_level_total l unknow m _ s₁ there (omega arith))
        λ w₂ s₂ le₂. clear_appenders_total l m w₂ s₂ there le₂)

configure_all_total :
    (sys : Sys) (old new : Defines) (n : ℕ) (w : World)
    → All (λ d. All IsTyped d.appenders) new
    → IsSafe w
    → n ≤ length w.loggers
    → Succeeds n (configure_all sys old new w)
unfolding configure_all
configure_all_total sys old [] n w h s le = (w, refl, s, le)
configure_all_total sys old (d ∷ ds) n w h s le =
    Succeeds-then n _ _
      (elim (Bool-cases (is_changed d (find d old))) [
        | inl changed ↦ rw changed (configure_total sys d n w h.0 s le)
        | inr same ↦ rw same (w, refl, s, le)
      ])
      λ w' s' le'. configure_all_total sys old ds n w' h.1 s' le'

retire_all_total :
    (new old : Defines) (n : ℕ) (w : World)
    → IsSafe w
    → n ≤ length w.loggers
    → Succeeds n (retire_all new old w)
unfolding retire_all
retire_all_total new [] n w s le = (w, refl, s, le)
retire_all_total new (d ∷ ds) n w s le =
    Succeeds-then n _ _
      (elim (Option-cases (find d new)) [
        | inl gone ↦ rw gone (retire_total d n w s le)
        | inr (e, still) ↦ rw still (w, refl, s, le)
      ])
      λ w' s' le'. retire_all_total new ds n w' s' le'

announce_total :
    (sys : Sys) (event : LogEvent) (w : World) → IsSafe w → Succeeds 0 (announce sys event w)
announce_total sys event w s = elim (Bool-cases (at_least info s.root.0.level)) [
  | inl passes ↦
      let (w', e, s', _) = log_total 0 sys w.root info event w s.root.0 s.root.1 s in
      (w', unfold announce in rw (s.root.1, passes) e, s', omega arith)
  | inr below ↦ (w, unfold announce in rw (s.root.1, below), s, omega arith)
]

-- From a safe store the listener runs to its end for every two sets of definitions whose new one
-- has only file and console appenders: no null pointer is read, also where a formatter is invalid
-- or a file cannot be opened, and the store is safe afterwards.
pub on_change_total :
    (sys : Sys) (event : LogEvent) (old new : Defines) (w : World)
    → All (λ d. All IsTyped d.appenders) new
    → IsSafe w
    → (w' : World) × (on_change sys event old new w ≡ ok w') × IsSafe w'
unfolding on_change
on_change_total sys event old new w h s =
    let (w', e, s', _) = Succeeds-then 0 _ _ (announce_total sys event w s) λ w₁ s₁ le₁.
      Succeeds-then 0 _ _ (configure_all_total sys old new 0 w₁ h s₁ le₁)
        λ w₂ s₂ le₂. retire_all_total new old 0 w₂ s₂ le₂ in
    (w', e, s')
