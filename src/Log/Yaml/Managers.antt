-- ===== src/Log/Yaml/Managers.antt =====
-- What the manager of loggers writes, read again as definitions.
use gwn_framwork.Base.{◌≡◌, refl, List, [], ◌∷◌, Option, none, some, ℕ, ok, get_elem?, Text, All}
use gwn_framwork.Yaml.{Yaml, IsLawful, IsItems, Survives}
use gwn_framwork.Yaml.Build.{push_all, push_all-IsItems}
use gwn_framwork.Log.Logger.{Logger, World}
use gwn_framwork.Log.Logger.Safe.{IsSafe}
use gwn_framwork.Log.Define.{LogDefine}
use gwn_framwork.Log.Yaml.{show_loggers, show_manager, cast_define}
use gwn_framwork.Log.Yaml.Loggers.{logger_define, IsWritable, cast_define-show_logger}
use gwn_framwork.Config.Cast.{read_items, read_vector}

abbrev if_logger : World → Option Logger → List LogDefine → List LogDefine
if_logger w none l = l
if_logger w (some d) l = logger_define w d ∷ l

-- The definitions of the loggers with these names, in order.
abbrev pub logger_defines : World → List (Text × ℕ) → List LogDefine
logger_defines w [] = []
logger_defines w ((k, a) ∷ names) = if_logger w (get_elem? w.loggers a) (logger_defines w names)

module _ (y : Yaml) where
  -- The name belongs to a logger that can be written.
  abbrev pub IsWritableName : World → Text × ℕ → Type 0
  IsWritableName w m = (l : Logger) × (get_elem? w.loggers m.1 ≡ some l) × IsWritable y w l

module _ (y : Yaml) (lawful : IsLawful y) where
  show_loggers-push_all :
      (w : World) (names : List (Text × ℕ)) (n : y.node)
      → IsSafe w
      → All (IsWritableName y w) names
      → (ms : List y.node) × (show_loggers y w names n ≡ ok (some (push_all y ms n)))
        × (read_items y (cast_define y) ms ≡ some (logger_defines w names))
  unfolding show_loggers push_all read_items
  show_loggers-push_all w [] n safe h = ([], refl, refl)
  show_loggers-push_all w ((k, a) ∷ names) n safe ((l, there, writable), h) =
      let (m, shown, survives, cast) = cast_define-show_logger y lawful w a l safe there writable in
      let (ms, e, read) = show_loggers-push_all w names (y.push_back n m) safe h in
      (m ∷ ms, rw (shown, survives) e, rw (cast, read, there) refl)

  push_all-null : (m : y.node) (ms : List y.node) → IsItems y (push_all y (m ∷ ms) y.null) (m ∷ ms)
  unfolding push_all
  push_all-null m ms =
      push_all-IsItems y lawful ms (m ∷ []) (y.push_back y.null m) (lawful.push_null m)

  -- In a safe store with a named logger the manager writes its loggers without an exception or a null
  -- pointer, where the nodes that this makes survive being written and loaded. The text is read as a
  -- list of definitions, one for each named logger in the order of the manager's map: each has the
  -- logger's name, its level, the pattern of its formatter, and, in order, the kind of each of its
  -- appenders with its file and the pattern of its own formatter, but not the appender's level.
  pub read_vector-show_manager :
      (w : World) (m : Text × ℕ) (names : List (Text × ℕ))
      → IsSafe w
      → w.names ≡ m ∷ names
      → All (IsWritableName y w) (m ∷ names)
      → ((n : y.node) → show_loggers y w (m ∷ names) y.null ≡ ok (some n) → Survives y n)
      → (t : Text) × (show_manager y w ≡ ok (some t))
        × (read_vector y (cast_define y) t ≡ some (logger_defines w (m ∷ names)))
  unfolding show_manager read_vector read_items
  read_vector-show_manager w m names safe named h survives =
      let (ms, e, read) = show_loggers-push_all w (m ∷ names) y.null safe h in by_items ms e read
    where
      by_items :
          (ms : List y.node)
          → show_loggers y w (m ∷ names) y.null ≡ ok (some (push_all y ms y.null))
          → read_items y (cast_define y) ms ≡ some (logger_defines w (m ∷ names))
          → (t : Text) × (show_manager y w ≡ ok (some t))
            × (read_vector y (cast_define y) t ≡ some (logger_defines w (m ∷ names)))
      by_items [] e read = let (l, there, writable) = h.0 in let read' = (rw (there) at read) in cc
      by_items (k ∷ ms) e read = (
        y.emit (push_all y (k ∷ ms) y.null),
        rw (named, e) refl,
        rw (survives _ e, (push_all-null k ms).1) read,
      )
