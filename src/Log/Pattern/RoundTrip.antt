-- ===== src/Log/Pattern/RoundTrip.antt =====
-- A pattern that is written from a list of literals and directives is parsed back to that list.
use gwn_framwork.Base.{
  ℕ, ◌≡◌, ◌≢◌, refl, sym, ◌∙◌, ap, Bool, true, false, List, [], ◌∷◌, ◌++◌, some, arith, ◌==◌, Text,
  All, append-nil, append_assoc,
}
use gwn_framwork.Log.Pattern.{
  Token, literal, directive, isalpha, scanned, scan_fmt, scan_name, Parse, flush, is_percent, body,
  tokens, finished,
}
use gwn_framwork.Log.Pattern.Parsing.{parse, parse_nil, parse_cons, tokens-parse}

-- A directive's format in braces; none for an empty format.
abbrev pub braced : Text → Text → Text
braced [] rest = rest
braced (c ∷ cs) rest = b'{' ∷ c ∷ (cs ++ b'}' ∷ rest)

-- The pattern that stands for a list of literals and directives.
abbrev pub print : List Token → Text
print [] = []
print (literal s ∷ ts) = s ++ print ts
print (directive str fmt ∷ ts) = b'%' ∷ (str ++ braced fmt (print ts))

-- The name of a directive ends before this rest of the pattern.
abbrev pub EndsName : Text → Type 0
EndsName [] = Unit
EndsName (c ∷ cs) = (isalpha c ≡ false) × ((c == b'{') ≡ false) × ((c == b'}') ≡ false)

abbrev pub NoLiteral : List Token → Type 0
NoLiteral [] = Unit
NoLiteral (literal s ∷ ts) = ⊥
NoLiteral (directive str fmt ∷ ts) = Unit

-- Directives with a name of letters and a format without `}`, or with no format and a name that
-- ends before what follows, and between them single literals, which are not empty and hold no `%`.
abbrev pub IsPrintable : List Token → Type 0
IsPrintable [] = Unit {0}
IsPrintable (literal s ∷ ts) =
    (s ≢ []) × All (λ c. (c == b'%') ≡ false) s × NoLiteral ts × IsPrintable ts
IsPrintable (directive str fmt ∷ ts) =
    (str ≢ [])
    × All (λ c. isalpha c ≡ true) str
    × All (λ c. (c == b'}') ≡ false) fmt
    × (fmt ≡ [] → EndsName (print ts))
    × IsPrintable ts

-- The loop's variables, one by one.
abbrev pub at_with : Text → Text → List Token → Bool → List Text → Parse
at_with rest nstr vec error printed = record {
  rest = rest;
  nstr = nstr;
  vec = vec;
  error = error;
  printed = printed;
}

abbrev pub at : Text → Text → List Token → Bool → Parse
at rest nstr vec error = at_with rest nstr vec error []

pub body_literal :
    (c : ℕ) (cs nstr : Text) (vec : List Token) (e : Bool) (l : List Text)
    → (c == b'%') ≡ false
    → body c cs (at_with (c ∷ cs) nstr vec e l) ≡ at_with cs (nstr ++ c ∷ []) vec e l
unfolding body
body_literal c cs nstr vec e l h = rw h

pub parse_literal :
    (s rest nstr : Text) (vec : List Token) (e : Bool) (l : List Text)
    → All (λ c. (c == b'%') ≡ false) s
    → parse (at_with (s ++ rest) nstr vec e l) ≡ parse (at_with rest (nstr ++ s) vec e l)
parse_literal [] rest nstr vec e l h = rw append-nil
parse_literal (c ∷ cs) rest nstr vec e l h =
    parse_cons c (cs ++ rest) (at_with (c ∷ (cs ++ rest)) nstr vec e l) refl
    ∙ ap parse (body_literal c (cs ++ rest) nstr vec e l h.0)
    ∙ parse_literal cs rest (nstr ++ c ∷ []) vec e l h.1
    ∙ rw append_assoc

pub scan_fmt_closed :
    (fmt rest str acc : Text)
    → All (λ c. (c == b'}') ≡ false) fmt
    → scan_fmt str acc (fmt ++ b'}' ∷ rest) ≡ scanned str (acc ++ fmt) rest
unfolding scan_fmt
scan_fmt_closed [] rest str acc h = rw append-nil
scan_fmt_closed (c ∷ cs) rest str acc h =
    rw h.0 (scan_fmt_closed cs rest str (acc ++ c ∷ []) h.1 ∙ rw append_assoc)

pub isalpha-ne_open : (c : ℕ) → isalpha c ≡ true → (c == b'{') ≡ false
unfolding isalpha
isalpha-ne_open c h = ground arith

pub isalpha-ne_percent : (c : ℕ) → isalpha c ≡ true → (c == b'%') ≡ false
unfolding isalpha
isalpha-ne_percent c h = ground arith

pub scan_name_letters :
    (str rest acc : Text)
    → All (λ c. isalpha c ≡ true) str
    → scan_name acc (str ++ rest) ≡ scan_name (acc ++ str) rest
unfolding scan_name
scan_name_letters [] rest acc h = rw append-nil
scan_name_letters (c ∷ cs) rest acc h =
    rw (h.0, isalpha-ne_open c h.0)
      (scan_name_letters cs rest (acc ++ c ∷ []) h.1 ∙ rw append_assoc)

scan_name_ends : (str rest : Text) → EndsName rest → scan_name str rest ≡ scanned str [] rest
unfolding scan_name
scan_name_ends str [] h = refl
scan_name_ends str (c ∷ cs) h = rw (h.0, h.1, h.2)

scan_braced :
    (str fmt rest : Text)
    → All (λ c. (c == b'}') ≡ false) fmt
    → (fmt ≡ [] → EndsName rest)
    → scan_name str (braced fmt rest) ≡ scanned str fmt rest
unfolding scan_name
scan_braced str [] rest h ends = unfold scan_name in scan_name_ends str rest (ends refl)
scan_braced str (c ∷ cs) rest h ends = unfold isalpha in scan_fmt_closed (c ∷ cs) rest str [] h

pub is_percent_letters :
    (str rest : Text)
    → str ≢ []
    → All (λ c. isalpha c ≡ true) str
    → is_percent (str ++ rest) ≡ false
unfolding is_percent
is_percent_letters [] rest ne h = absurd (ne refl)
is_percent_letters (c ∷ cs) rest ne h = isalpha-ne_percent c h.0

pub parse_directive :
    (str fmt rest nstr : Text) (vec : List Token) (e : Bool)
    → str ≢ []
    → All (λ c. isalpha c ≡ true) str
    → All (λ c. (c == b'}') ≡ false) fmt
    → (fmt ≡ [] → EndsName rest)
    → parse (at (b'%' ∷ (str ++ braced fmt rest)) nstr vec e)
      ≡ parse (at rest [] (vec ++ (flush nstr ++ directive str fmt ∷ [])) e)
parse_directive str fmt rest nstr vec e ne letters inner ends =
    let cs : Text = str ++ braced fmt rest in
    parse_cons b'%' cs (at (b'%' ∷ cs) nstr vec e) refl
    ∙ unfold body in
      rw (
        is_percent_letters str (braced fmt rest) ne letters,
        scan_name_letters str (braced fmt rest) [] letters,
        scan_braced str fmt rest inner ends,
      )

pub flush_ne : (s : Text) → s ≢ [] → flush s ≡ literal s ∷ []
flush_ne [] ne = absurd (ne refl)
flush_ne (c ∷ cs) ne = refl

pub parse-print :
    (ts : List Token) (nstr : Text) (vec : List Token) (e : Bool)
    → IsPrintable ts
    → (nstr ≢ [] → NoLiteral ts)
    → finished (parse (at (print ts) nstr vec e)) ≡ some (vec ++ (flush nstr ++ ts), e)
parse-print [] nstr vec e h next =
    ap finished (parse_nil (at [] nstr vec e) refl)
    ∙ ap (λ (l : List Token). some (vec ++ l, e)) (sym (append-nil (flush nstr)))
parse-print (literal s ∷ ts) [] vec e h next =
    ap finished (parse_literal s (print ts) [] vec e [] h.1)
    ∙ parse-print ts s vec e h.3 (λ _. h.2)
    ∙ rw (flush_ne s h.0)
parse-print (literal s ∷ ts) (c ∷ cs) vec e h next = absurd (next (λ p. cc))
parse-print (directive str fmt ∷ ts) nstr vec e h next =
    ap finished (parse_directive str fmt (print ts) nstr vec e h.0 h.1 h.2 h.3)
    ∙ parse-print ts [] (vec ++ (flush nstr ++ directive str fmt ∷ [])) e h.4
        (λ ne. absurd (ne refl))
    ∙ simp append_assoc

-- The pattern that is written for a printable list of literals and directives is parsed back to
-- that list, with no error.
pub tokens-print : (ts : List Token) → IsPrintable ts → tokens (print ts) ≡ some (ts, false)
tokens-print ts h = tokens-parse (print ts) ∙ parse-print ts [] [] false h (λ ne. absurd (ne refl))
