-- ===== src/Log/Formatter/Render.antt =====
-- What `LogFormatter::format` writes, and when a formatter has an error.
use gwn_framwork.Base.{
  ◌≡◌, refl, sym, ◌∙◌, ap, Bool, true, false, ◌||◌, List, [], ◌∷◌, ◌++◌, Option, none, some, arith,
  ◌==◌, Text, All, append-nil, append_assoc, codes, ◌↔◌, text_eq,
}
use gwn_framwork.Log.Level.{Level}
use gwn_framwork.Log.Event.{LogEvent}
use gwn_framwork.Log.Pattern.{Token, literal, directive, tokens}
use gwn_framwork.Log.Pattern.Parsing.{tokens_total}
use gwn_framwork.Log.Pattern.RoundTrip.{print, IsPrintable, tokens-print}
use gwn_framwork.Log.Pattern.Percent.{tokens_trailing_percent}
use gwn_framwork.Log.Formatter.{
  FormatItem, string, find_item, LogFormatter, item_or_error, make_item, make_items, new_formatter,
  FormatEnv, format_item, format_items, format_to, format,
}

abbrev known : Option FormatItem → Bool
known none = false
known (some i) = true

-- Every directive of the list has a name that the table of items holds.
abbrev pub AllKnown : List Token → Type 0
AllKnown [] = Unit
AllKnown (literal s ∷ ts) = AllKnown ts
AllKnown (directive str fmt ∷ ts) = (known (find_item str fmt) ≡ true) × AllKnown ts

abbrev text_or_error : FormatEnv → Level → LogEvent → Text → Option FormatItem → Text
text_or_error env lv event str none = codes "<<error_format %" ++ (str ++ codes ">>")
text_or_error env lv event str (some i) = format_item env lv event i

-- What a list of literals and directives writes: the literals as they are, each directive by its
-- item, and an error text for a directive that has none.
abbrev pub text_of : FormatEnv → Level → LogEvent → List Token → Text
text_of env lv event [] = []
text_of env lv event (literal s ∷ ts) = s ++ text_of env lv event ts
text_of env lv event (directive str fmt ∷ ts) =
    text_or_error env lv event str (find_item str fmt) ++ text_of env lv event ts

module _ (env : FormatEnv) (lv : Level) (event : LogEvent) where
  format_items-append :
      (is : List FormatItem) (os : Text)
      → format_items env lv event is os ≡ os ++ format_items env lv event is []
  unfolding format_items
  format_items-append [] os = sym (append-nil os)
  format_items-append (i ∷ is) os =
      format_items-append is (os ++ format_item env lv event i)
      ∙ append_assoc os (format_item env lv event i) _
      ∙ ap (◌++◌ os) (sym (format_items-append is (format_item env lv event i)))

  -- Formatting into a stream appends to what the stream holds the text that formatting into a
  -- fresh string gives.
  pub format_to-format :
      (f : LogFormatter) (os : Text) → format_to env f lv event os ≡ os ++ format env f lv event
  unfolding format_to format
  format_to-format f os = format_items-append f.items os

  item_text :
      (str : Text) (o : Option FormatItem)
      → format_item env lv event (item_or_error str o).0 ≡ text_or_error env lv event str o
  unfolding item_or_error format_item
  item_text str none = refl
  item_text str (some i) = refl

  format_items-concat :
      (is : List FormatItem) (i : FormatItem) (os : Text)
      → format_items env lv event (is ++ i ∷ []) os
        ≡ format_items env lv event is os ++ format_item env lv event i
  unfolding format_items
  format_items-concat [] i os = refl
  format_items-concat (j ∷ is) i os = format_items-concat is i (os ++ format_item env lv event j)

  -- The last loop of `init`, followed by `format`, behind the items that were made before.
  make_items-text :
      (ts : List Token) (items : List FormatItem) (e : Bool) (os : Text)
      → format_items env lv event (make_items ts items e).0 os
        ≡ format_items env lv event items os ++ text_of env lv event ts
  unfolding make_items make_item format_item
  make_items-text [] items e os = sym (append-nil _)
  make_items-text (literal s ∷ ts) items e os =
      make_items-text ts _ _ os
      ∙ rw format_items-concat (append_assoc (format_items env lv event items os) s _)
  make_items-text (directive str fmt ∷ ts) items e os =
      make_items-text ts _ _ os
      ∙ rw (format_items-concat, item_text) (append_assoc (format_items env lv event items os) _ _)

or_known :
    (e : Bool) (str : Text) (o : Option FormatItem)
    → ((e || (item_or_error str o).1) ≡ false) ↔ ((e ≡ false) × (known o ≡ true))
unfolding item_or_error
or_known e str o = ground arith

make_items-error :
    (ts : List Token) (items : List FormatItem) (e : Bool)
    → ((make_items ts items e).1 ≡ false) ↔ ((e ≡ false) × AllKnown ts)
unfolding make_items make_item
make_items-error [] items e = (λ h. (h, tt), λ h. h.0)
make_items-error (literal s ∷ ts) items e =
    ground (arith, make_items-error ts (items ++ string s ∷ []) (e || false))
make_items-error (directive str fmt ∷ ts) items e =
    let o : Option FormatItem = find_item str fmt in
    let ih =
      make_items-error ts (items ++ (item_or_error str o).0 ∷ []) (e || (item_or_error str o).1) in
    let here = or_known e str o in
    (
      λ h. ((here.0 (ih.0 h).0).0, ((here.0 (ih.0 h).0).1, (ih.0 h).1)),
      λ h. ih.1 (here.1 (h.0, h.1.0), h.1.1),
    )

build_lem :
    (pattern : Text) (ts : List Token) (e : Bool)
    → tokens pattern ≡ some (ts, e)
    → new_formatter pattern
      ≡ some (record {
        pattern = pattern;
        items = (make_items ts [] e).0;
        error = (make_items ts [] e).1;
      })
unfolding new_formatter
build_lem pattern ts e h = rw h

-- A formatter is made of every pattern. It keeps the pattern, and it has no error exactly when the
-- parser set none and every directive has an item.
pub new_formatter_total :
    (pattern : Text)
    → (f : LogFormatter) × (ts : List Token) × (e : Bool) × (new_formatter pattern ≡ some f)
      × (tokens pattern ≡ some (ts, e))
      × (f.pattern ≡ pattern)
      × ((f.error ≡ false) ↔ ((e ≡ false) × AllKnown ts))
new_formatter_total pattern =
    let (ts, e, h) = tokens_total pattern in
    (
      record { pattern = pattern; items = (make_items ts [] e).0; error = (make_items ts [] e).1 },
      ts,
      e,
      build_lem pattern ts e h,
      h,
      refl,
      make_items-error ts [] e,
    )

-- The formatter of the pattern that is written for a printable list has no error exactly when
-- every directive has an item, and it writes the literals and the directives' texts in order.
pub format-print :
    (env : FormatEnv) (lv : Level) (event : LogEvent) (ts : List Token)
    → IsPrintable ts
    → (f : LogFormatter) × (new_formatter (print ts) ≡ some f)
      × ((f.error ≡ false) ↔ AllKnown ts)
      × (format env f lv event ≡ text_of env lv event ts)
unfolding format format_items
format-print env lv event ts h =
    let iff = make_items-error ts [] false in
    (
      record {
        pattern = print ts;
        items = (make_items ts [] false).0;
        error = (make_items ts [] false).1;
      },
      build_lem (print ts) ts false (tokens-print ts h),
      (λ e. (iff.0 e).1, λ k. iff.1 (refl, k)),
      make_items-text env lv event ts [] false [],
    )

-- Every pattern that ends in `%%`, with no `%` before that, gives a formatter with an error.
pub trailing_percent-error :
    (s : Text)
    → All (λ c. (c == b'%') ≡ false) s
    → (f : LogFormatter) × (new_formatter (s ++ codes "%%") ≡ some f) × (f.error ≡ true)
trailing_percent-error s h = (
  record {
    pattern = s ++ codes "%%";
    items = (make_items _ [] false).0;
    error = (make_items _ [] false).1;
  },
  build_lem _ _ false (tokens_trailing_percent s h),
  unfold make_items make_item find_item item_or_error text_eq in refl,
)
