-- ===== src/Log/Formatter.antt =====
-- `LogFormatter` of gwn/log.h and gwn/log.cc: the format items that `init` makes from a pattern, and
-- `format`.
pub mod Render
use gwn_framwork.Base.{
  ℕ, Bool, true, false, ◌||◌, List, [], ◌∷◌, ◌++◌, Option, none, some, if◌then◌else◌, Text, codes,
  text_eq, show_ℕ, show_ℤ,
}
use gwn_framwork.Log.Level.{Level, to_string}
use gwn_framwork.Log.Event.{LogEvent}
use gwn_framwork.Log.Pattern.{Token, literal, directive, tokens}

-- The subclasses of `FormatItem`.
pub data FormatItem : Type 0 where
  message level elapse name thread_id newline filename line tab fiber_id thread_name : FormatItem
  date_time : Text → FormatItem
  string : Text → FormatItem

-- `DateTimeFormatItem`'s constructor.
unfoldable pub new_date_time : Text → FormatItem
new_date_time [] = date_time (codes "%Y-%m-%d %H:%M:%S")
new_date_time format = date_time format

-- `s_format_items.find`, and the constructor that it holds, applied to the format.
unfoldable pub find_item : Text → Text → Option FormatItem
unfolding new_date_time
find_item str fmt =
    if text_eq str (codes "m")
    then some message
    else if text_eq str (codes "p")
    then some level
    else if text_eq str (codes "r")
    then some elapse
    else if text_eq str (codes "c")
    then some name
    else if text_eq str (codes "t")
    then some thread_id
    else if text_eq str (codes "n")
    then some newline
    else if text_eq str (codes "d")
    then some (new_date_time fmt)
    else if text_eq str (codes "f")
    then some filename
    else if text_eq str (codes "l")
    then some line
    else if text_eq str (codes "T")
    then some tab
    else if text_eq str (codes "F")
    then some fiber_id
    else if text_eq str (codes "N")
    then some thread_name
    else none

-- `LogFormatter`: a formatter that is made is never changed.
pub record LogFormatter : Type 0 where
  pub pattern : Text
  pub items : List FormatItem
  pub error : Bool

unfoldable pub item_or_error : Text → Option FormatItem → FormatItem × Bool
item_or_error str none = (string (codes "<<error_format %" ++ (str ++ codes ">>")), true)
item_or_error str (some i) = (i, false)

-- The item of one tuple of `vec`, and whether it sets `m_error`.
unfoldable pub make_item : Token → FormatItem × Bool
unfolding item_or_error
make_item (literal s) = (string s, false)
make_item (directive str fmt) = item_or_error str (find_item str fmt)

-- The last loop of `init`.
unfoldable pub make_items : List Token → List FormatItem → Bool → List FormatItem × Bool
make_items [] items error = (items, error)
make_items (t ∷ ts) items error =
    make_items ts (items ++ (make_item t).0 ∷ []) (error || (make_item t).1)

abbrev build : Text → Option (List Token × Bool) → Option LogFormatter
build pattern none = none
build pattern (some (vec, error)) =
    let (items, error') = make_items vec [] error in
    some (record { pattern = pattern; items = items; error = error' })

-- The constructor and `init`; `none` would mean that the fuel ran out.
unfoldable pub new_formatter : Text → Option LogFormatter
new_formatter pattern = build pattern (tokens pattern)

-- What the items read besides the event: the name of a logger, and `localtime_r` with `strftime`
-- into a buffer of 64 bytes.
pub record FormatEnv : Type 0 where
  pub logger_name : ℕ → Text
  pub local_strftime : Text → ℕ → Text

-- `FormatItem::format`, as the text that it writes.
unfoldable pub format_item : FormatEnv → Level → LogEvent → FormatItem → Text
format_item env lv event message = event.content
format_item env lv event level = to_string lv
format_item env lv event elapse = show_ℕ event.elapse
format_item env lv event name = env.logger_name event.logger
format_item env lv event thread_id = show_ℕ event.thread_id
format_item env lv event newline = b'\n' ∷ []
format_item env lv event filename = event.file
format_item env lv event line = show_ℤ event.line
format_item env lv event tab = b'\t' ∷ []
format_item env lv event fiber_id = show_ℕ event.fiber_id
format_item env lv event thread_name = event.thread_name
format_item env lv event (date_time fmt) = env.local_strftime fmt event.time
format_item env lv event (string s) = s

-- The loop of both `format` functions over `m_items`, into a stream that holds `os`.
unfoldable pub format_items : FormatEnv → Level → LogEvent → List FormatItem → Text → Text
format_items env lv event [] os = os
format_items env lv event (i ∷ is) os =
    format_items env lv event is (os ++ format_item env lv event i)

-- `format(std::ostream&, ...)`.
unfoldable pub format_to : FormatEnv → LogFormatter → Level → LogEvent → Text → Text
unfolding format_items
format_to env fmt lv event os = format_items env lv event fmt.items os

-- `format(...)` into a fresh string stream.
unfoldable pub format : FormatEnv → LogFormatter → Level → LogEvent → Text
unfolding format_items
format env fmt lv event = format_items env lv event fmt.items []
