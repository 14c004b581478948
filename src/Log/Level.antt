-- ===== src/Log/Level.antt =====
-- `LogLevel` of gwn/log.h: the levels, their order and their names.
use gwn_framwork.Base.{
  ℕ, ◌≡◌, refl, ◌⊎◌, Bool, arith, leb, if◌then◌else◌, Text, codes, text_eq, text_eq_iff, ◌≢◌,
}

pub data Level : Type 0 where
  unknow debug info warn error fatal : Level

-- The numbers of the enum.
unfoldable pub to_ℕ : Level → ℕ
to_ℕ unknow = 0
to_ℕ debug = 1
to_ℕ info = 2
to_ℕ warn = 3
to_ℕ error = 4
to_ℕ fatal = 5

-- `a >= b` on the enum.
unfoldable pub at_least : Level → Level → Bool
unfolding to_ℕ
at_least a b = leb (to_ℕ b) (to_ℕ a)

unfoldable pub to_string : Level → Text
to_string debug = codes "DEBUG"
to_string info = codes "INFO"
to_string warn = codes "WARN"
to_string error = codes "ERROR"
to_string fatal = codes "FATAL"
to_string unknow = codes "UNKNOW"

unfoldable pub from_string : Text → Level
from_string s =
    if text_eq s (codes "debug")
    then debug
    else if text_eq s (codes "info")
    then info
    else if text_eq s (codes "warn")
    then warn
    else if text_eq s (codes "error")
    then error
    else if text_eq s (codes "fatal")
    then fatal
    else if text_eq s (codes "DEBUG")
    then debug
    else if text_eq s (codes "INFO")
    then info
    else if text_eq s (codes "WARN")
    then warn
    else if text_eq s (codes "ERROR")
    then error
    else if text_eq s (codes "FATAL")
    then fatal
    else unknow

-- Reading the name that `to_string` gives a level gives the level back, `unknow` included.
pub from_string-to_string : (l : Level) → from_string (to_string l) ≡ l
unfolding from_string to_string text_eq
from_string-to_string debug = refl
from_string-to_string _ = refl

-- The small-letter name of a level that the program has a name for.
abbrev pub small_name : Level → Text
small_name debug = codes "debug"
small_name info = codes "info"
small_name warn = codes "warn"
small_name error = codes "error"
small_name fatal = codes "fatal"
small_name unknow = codes ""

-- A text that is read as a level other than `unknow` is that level's name in capitals or in small
-- letters.
pub from_string_sound :
    (s : Text)
    → from_string s ≢ unknow
    → (s ≡ to_string (from_string s)) ⊎ (s ≡ small_name (from_string s))
unfolding from_string to_string
from_string_sound s h = ground (
  arith,
  text_eq_iff s (codes "debug"),
  text_eq_iff s (codes "info"),
  text_eq_iff s (codes "warn"),
  text_eq_iff s (codes "error"),
  text_eq_iff s (codes "fatal"),
  text_eq_iff s (codes "DEBUG"),
  text_eq_iff s (codes "INFO"),
  text_eq_iff s (codes "WARN"),
  text_eq_iff s (codes "ERROR"),
  text_eq_iff s (codes "FATAL"),
)
