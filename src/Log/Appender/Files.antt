-- ===== src/Log/Appender/Files.antt =====
-- What `FileLogAppender::log` does to its file.
use gwn_framwork.Base.{
  ℕ, ◌+◌, ◌^◌, ◌≡◌, refl, Bool, true, List, [], ◌∷◌, ◌++◌, some, arith, ok, leb, if◌then◌else◌,
  Bool-cases, inl, inr, ap, ◌<◌, Text, text_eq, text_eq_iff, text_eq_refl,
}
use gwn_framwork.Log.Level.{Level, at_least}
use gwn_framwork.Log.Event.{LogEvent}
use gwn_framwork.Log.Formatter.{LogFormatter, format}
use gwn_framwork.Log.Appender.{
  Target, stdout, file, log_to, Appender, Output, content, put, LogEnv, print, is_stale, refresh,
  write_file, log,
}

content-put :
    (n m t : Text) (fs : List (Text × Text))
    → content m (put n t fs) ≡ (if text_eq n m then t else content m fs)
unfolding content put
content-put n m t [] = refl
content-put n m t ((k, v) ∷ fs) =
    ground (arith, text_eq_iff n m, text_eq_iff k n, text_eq_iff k m, content-put n m t fs)

is_stale_lem : (now last : ℕ) → last + 3 < 2 ^ 64 → is_stale now last ≡ leb (last + 3) now
unfolding is_stale
is_stale_lem now last h = ap (λ (t : ℕ). leb t now) (omega arith)

module _ (env : LogEnv) (lv : Level) (event : LogEvent) (a : Appender) (o : Output)
    (f : LogFormatter) (n : Text) (last : ℕ) where
  abbrev is_late : Bool
  is_late = leb (last + 3) event.time

  abbrev line : Text
  line = format env.format_env f lv event

  abbrev after_log : Output
  after_log =
      let kept = if is_late then put n [] o.files else o.files in
      record o { files = put n (content n kept ++ line) kept }

  log-after :
      a.target ≡ file n true last
      → a.formatter ≡ some f
      → at_least lv a.level ≡ true
      → env.can_open n ≡ true
      → last + 3 < 2 ^ 64
      → log env lv event a o
        ≡ ok (record a { target = file n true (if is_late then event.time else last) }, after_log)
  unfolding log
  log-after ht hf hl hc small = ground (arith, is_stale_lem event.time last small)

  after_log-content :
      (m : Text)
      → content m after_log.files ≡ (
          if text_eq n m
          then (if is_late then [] else content n o.files) ++ line
          else content m o.files)
  after_log-content m = elim (Bool-cases is_late) [
    | inl late ↦ rw late (
        ground (
          arith,
          content-put n m (content n (put n [] o.files) ++ line) (put n [] o.files),
          content-put n n [] o.files,
          content-put n m [] o.files,
          text_eq_refl n,
        ))
    | inr early ↦ rw early (content-put n m (content n o.files ++ line) o.files)
  ]

  -- A file appender with a formatter whose stream is good and whose file can be opened for writing,
  -- at an event of its level or above, with a time of the last reopening below the end of the
  -- counter: `log` ends, and of the appender it changes nothing but that time, which becomes the
  -- event's if that is three seconds or more behind it. The file holds the event's text behind what
  -- it held before, but behind nothing in that case: then the file is emptied first. No other file
  -- and nothing on the console changes.
  pub log-content :
      a.target ≡ file n true last
      → a.formatter ≡ some f
      → at_least lv a.level ≡ true
      → env.can_open n ≡ true
      → last + 3 < 2 ^ 64
      → (o' : Output) × (log env lv event a o
          ≡ ok (
            record a {
              target = file n true (if leb (last + 3) event.time then event.time else last);
            },
            o',
          ))
        × (o'.console ≡ o.console)
        × ((m : Text)
            → content m o'.files ≡ (
                if text_eq n m
                then (if leb (last + 3) event.time then [] else content n o.files)
                  ++ format env.format_env f lv event
                else content m o.files))
  log-content ht hf hl hc small = (after_log, log-after ht hf hl hc small, refl, after_log-content)

log_to_total :
    (env : LogEnv) (lv : Level) (event : LogEvent) (p : Appender) (t : Target) (o : Output)
    (f : LogFormatter)
    → p.formatter ≡ some f
    → (p' : Appender) × (o' : Output) × (log_to env lv event p t o ≡ ok (p', o'))
      × (p'.formatter ≡ some f)
unfolding log_to
log_to_total env lv event p stdout o f h =
    (p, print (format env.format_env f lv event) o, simp h, h)
log_to_total env lv event p (file n good last) o f h =
    let (good', last', o') = refresh env n good last event.time o in
    (
      record p { target = file n good' last' },
      write_file good' n (format env.format_env f lv event) o',
      simp h,
      h,
    )

-- An appender that has a formatter logs with no fault, and keeps its formatter.
pub log_total :
    (env : LogEnv) (lv : Level) (event : LogEvent) (p : Appender) (o : Output) (f : LogFormatter)
    → p.formatter ≡ some f
    → (p' : Appender) × (o' : Output) × (log env lv event p o ≡ ok (p', o'))
      × (p'.formatter ≡ some f)
log_total env lv event p o f h = elim (Bool-cases (at_least lv p.level)) [
  | inl passes ↦
      let (p', o', e, k) = log_to_total env lv event p p.target o f h in
      (p', o', unfold log in rw passes e, k)
  | inr below ↦ (p, o, unfold log in rw below, h)
]
