-- ===== src/Log/Logger/Safe.antt =====
-- When the calls on loggers cannot read a null pointer: the invariant of the store, and that every
-- operation of `Logger` and `LoggerManager` keeps it.
use gwn_framwork.Base.{
  ℕ, suc, ◌<◌, ◌≡◌, refl, ◌∙◌, ap, subst, Bool, true, false, List, [], ◌∷◌, Option, none, some,
  arith, ok, if◌then◌else◌, length, length-set, get_elem?, set, All, All-get, All-set, All-mono,
  get_elem?-set_self, get_elem?-set_ne, get_elem?-lt, ℕ_discrete,
}
use gwn_framwork.Log.Level.{Level, at_least}
use gwn_framwork.Log.Event.{LogEvent}
use gwn_framwork.Log.Formatter.{LogFormatter}
use gwn_framwork.Log.Appender.{Appender, Output, LogEnv}
use gwn_framwork.Log.Appender.Files.{log_total as appender-log_total}
use gwn_framwork.Log.Logger.{Logger, World, Sys, env_of, set_logger, share, log_all, log_own, log}

-- The appender is there, and has a formatter.
abbrev pub IsUsable : List Appender → ℕ → Type 0
IsUsable ps i =
    (p : Appender) × (f : LogFormatter) × (get_elem? ps i ≡ some p) × (p.formatter ≡ some f)

abbrev pub HasFormatter : Option LogFormatter → Type 0
HasFormatter o = (f : LogFormatter) × (o ≡ some f)

-- A root logger is there, and has no root logger itself.
abbrev pub IsRoot : List Logger → Option ℕ → Type 0
IsRoot ls none = Unit
IsRoot ls (some r) = (l : Logger) × (get_elem? ls r ≡ some l) × (l.root ≡ none)

pub record IsSafe (w : World) : Type 0 where
  pub formatters : All (λ l. HasFormatter l.formatter) w.loggers
  pub usable : All (λ l. All (IsUsable w.appenders) l.appenders) w.loggers
  pub roots : All (λ l. IsRoot w.loggers l.root) w.loggers
  pub root : IsRoot w.loggers (some w.root)
  pub named : All (λ m. m.1 < length w.loggers) w.names

pub IsUsable-set :
    (ps : List Appender) (i j : ℕ) (p q : Appender) (f : LogFormatter)
    → get_elem? ps i ≡ some q
    → p.formatter ≡ some f
    → IsUsable ps j
    → IsUsable (set ps i p) j
IsUsable-set ps i j p q f there has u = elim (ℕ_discrete i j) [
  | yes same ↦ (
    p,
    f,
    subst (λ (k : ℕ). get_elem? (set ps i p) k ≡ some p) same
        (get_elem?-set_self ps i p (get_elem?-lt ps i there)),
    has,
  )
  | no other ↦ (u.0, u.1, get_elem?-set_ne ps i j p other ∙ u.2, u.3)
]

pub IsRoot-set :
    (ls : List Logger) (a : ℕ) (l l' : Logger) (o : Option ℕ)
    → get_elem? ls a ≡ some l
    → l'.root ≡ l.root
    → IsRoot ls o
    → IsRoot (set ls a l') o
IsRoot-set ls a l l' none there same h = tt
IsRoot-set ls a l l' (some r) there same h = elim (ℕ_discrete a r) [
  | yes e ↦ (
    l',
    subst (λ (k : ℕ). get_elem? (set ls a l') k ≡ some l') e
        (get_elem?-set_self ls a l' (get_elem?-lt ls a there)),
    ground (arith, ap (get_elem? ls) e),
  )
  | no other ↦ (h.0, get_elem?-set_ne ls a r l' other ∙ h.1, h.2)
]

pub set_logger-IsSafe :
    (w : World) (a : ℕ) (l l' : Logger)
    → get_elem? w.loggers a ≡ some l
    → l'.root ≡ l.root
    → HasFormatter l'.formatter
    → All (IsUsable w.appenders) l'.appenders
    → IsSafe w
    → IsSafe (set_logger a l' w)
set_logger-IsSafe w a l l' there same has use_all s =
    let keep = λ (o : Option ℕ). IsRoot-set w.loggers a l l' o there same in
    record {
      formatters = All-set _ w.loggers a l' s.formatters has;
      usable = All-set _ w.loggers a l' s.usable use_all;
      roots =
          All-set _ w.loggers a l' (All-mono _ _ w.loggers (λ x. keep x.root) s.roots)
            (keep l'.root (rw same (All-get _ w.loggers a s.roots there)));
      root = keep (some w.root) s.root;
      named = rw (length-set w.loggers a l') s.named;
    }

pub set_appenders-IsSafe :
    (w : World) (ps : List Appender) (o : Output)
    → ((j : ℕ) → IsUsable w.appenders j → IsUsable ps j)
    → IsSafe w
    → IsSafe (record w { appenders = ps; output = o })
set_appenders-IsSafe w ps o keep s = record {
  formatters = s.formatters;
  usable = All-mono _ _ w.loggers (λ l. All-mono _ _ l.appenders keep) s.usable;
  roots = s.roots;
  root = s.root;
  named = s.named;
}

abbrev shared : LogFormatter → Appender → Appender
shared f p = if p.has_formatter then p else record p { formatter = some f }

shared-formatter :
    (f g : LogFormatter) (p : Appender)
    → p.formatter ≡ some g
    → (shared f p).formatter ≡ some (if p.has_formatter then g else f)
shared-formatter f g p h = ground arith

pub share_total :
    (f : LogFormatter) (is : List ℕ) (ps : List Appender)
    → All (IsUsable ps) is
    → (ps' : List Appender) × (share (some f) is ps ≡ ok ps')
      × ((j : ℕ) → IsUsable ps j → IsUsable ps' j)
unfolding share
share_total f [] ps h = (ps, refl, λ j u. u)
share_total f (i ∷ is) ps h =
    let (p, g, there, has) = h.0 in
    let keep = λ (j : ℕ).
      IsUsable-set ps i j (shared f p) p (if p.has_formatter then g else f) there
        (shared-formatter f g p has) in
    let (ps', e, k) = share_total f is (set ps i (shared f p)) (All-mono _ _ is keep h.1) in
    (ps', rw there e, λ j u. k j (keep j u))

log_all_total :
    (env : LogEnv) (lv : Level) (event : LogEvent) (is : List ℕ) (ps : List Appender) (o : Output)
    → All (IsUsable ps) is
    → (ps' : List Appender) × (o' : Output) × (log_all env lv event is ps o ≡ ok (ps', o'))
      × ((j : ℕ) → IsUsable ps j → IsUsable ps' j)
unfolding log_all
log_all_total env lv event [] ps o h = (ps, o, refl, λ j u. u)
log_all_total env lv event (i ∷ is) ps o h =
    let (p, f, there, has) = h.0 in
    let (p', o', e, has') = appender-log_total env lv event p o f has in
    let keep = λ (j : ℕ). IsUsable-set ps i j p' p f there has' in
    let (ps', o'', e', k) =
      log_all_total env lv event is (set ps i p') o' (All-mono _ _ is keep h.1) in
    (ps', o'', rw (there, e) e', λ j u. k j (keep j u))

abbrev Keeps : World → World → Type 0
Keeps w w' = IsSafe w' × (w'.loggers ≡ w.loggers)

log_own_total :
    (sys : Sys) (lv : Level) (event : LogEvent) (is : List ℕ) (w : World)
    → All (IsUsable w.appenders) is
    → IsSafe w
    → (w' : World) × (log_own sys lv event is w ≡ ok w') × Keeps w w'
log_own_total sys lv event is w h s =
    let (ps, o, e, k) = log_all_total (env_of sys w) lv event is w.appenders w.output h in
    (
      record w { appenders = ps; output = o },
      unfold log_own in rw e,
      (set_appenders-IsSafe w ps o k s, refl),
    )

-- The branches of `log`, at a logger that is there.
module _ (n : ℕ) (sys : Sys) (a : ℕ) (lv : Level) (event : LogEvent) (w : World) (l : Logger)
    (there : get_elem? w.loggers a ≡ some l) where
  pub log_below : at_least lv l.level ≡ false → log (suc n) sys a lv event w ≡ ok w
  unfolding log
  log_below h = rw (there, h)

  pub log_to_own :
      (i : ℕ) (is : List ℕ)
      → at_least lv l.level ≡ true
      → l.appenders ≡ i ∷ is
      → log (suc n) sys a lv event w ≡ log_own sys lv event (i ∷ is) w
  unfolding log
  log_to_own i is h e = rw (there, h) (ground (arith))

  pub log_nowhere :
      at_least lv l.level ≡ true
      → l.appenders ≡ []
      → l.root ≡ none
      → log (suc n) sys a lv event w ≡ ok w
  unfolding log
  log_nowhere h e r = rw (there, h) (ground (arith))

  pub log_to_root :
      (r : ℕ)
      → at_least lv l.level ≡ true
      → l.appenders ≡ []
      → l.root ≡ some r
      → log (suc n) sys a lv event w ≡ log n sys r lv event w
  unfolding log
  log_to_root r h e er = rw (there, h) (ground (arith))

  -- One call of `log`, given what the call at its root logger does.
  log_step :
      (is : List ℕ) (root : Option ℕ)
      → l.appenders ≡ is
      → l.root ≡ root
      → IsSafe w
      → ((r : ℕ) → root ≡ some r → (w' : World) × (log n sys r lv event w ≡ ok w') × Keeps w w')
      → (b : Bool) → at_least lv l.level ≡ b
      → (w' : World) × (log (suc n) sys a lv event w ≡ ok w') × Keeps w w'
  log_step is root ea er s up false h = (w, log_below h, (s, refl))
  log_step (i ∷ is) root ea er s up true h =
      let (w', e, k) =
        log_own_total sys lv event (i ∷ is) w (rw ea at (All-get _ w.loggers a s.usable there)) s in
      (w', log_to_own i is h ea ∙ e, k)
  log_step [] none ea er s up true h = (w, log_nowhere h ea er, (s, refl))
  log_step [] (some r) ea er s up true h =
      let (w', e, k) = up r refl in (w', log_to_root r h ea er ∙ e, k)

-- In a safe store every call of `log` at a logger that is there ends, with fuel for that logger and
-- its root logger, and with no null pointer read; the loggers stay as they are.
pub log_total :
    (n : ℕ) (sys : Sys) (a : ℕ) (lv : Level) (event : LogEvent) (w : World) (l : Logger)
    → get_elem? w.loggers a ≡ some l
    → IsSafe w
    → (w' : World) × (log (suc (suc n)) sys a lv event w ≡ ok w')
      × IsSafe w'
      × (w'.loggers ≡ w.loggers)
log_total n sys a lv event w l there s =
    let (w', e, k) =
      log_step (suc n) sys a lv event w l there l.appenders l.root refl refl s
        (λ r er.
          let (m, at_r, no_root) =
            subst (IsRoot w.loggers) er (All-get _ w.loggers a s.roots there) in
          log_step n sys r lv event w m at_r m.appenders m.root refl refl s
            (λ q eq. absurd (cc no_root)) (at_least lv m.level) refl)
        (at_least lv l.level) refl in
    (w', e, k.0, k.1)
