-- ===== src/Log/Pattern.antt =====
-- The pattern parser of `LogFormatter::init` in gwn/log.cc: its two loops. A position in the pattern
-- is the text from there to the end.
pub mod Parsing
pub mod RoundTrip
pub mod Percent
pub mod Messages
use gwn_framwork.Base.{
  ℕ, zero, suc, Bool, true, false, not, ◌&&◌, ◌||◌, List, [], ◌∷◌, ◌++◌, Option, none, some, leb,
  map, ◌==◌, if◌then◌else◌, Text, codes, length,
}

-- A tuple of `vec`: the flag 0 is `literal`, and the flag 1 is `directive`, with its format.
pub data Token : Type 0 where
  literal : Text → Token
  directive : Text → Text → Token

unfoldable pub isalpha : ℕ → Bool
isalpha c = (leb b'a' c && leb c b'z') || (leb b'A' c && leb c b'Z')

-- How the inner loop ends: with `fmt_status == 0`, at the rest of the pattern, or inside braces.
pub data Scan : Type 0 where
  scanned : Text → Text → Text → Scan
  unclosed : Scan

-- The inner loop with `fmt_status == 1`.
unfoldable pub scan_fmt : Text → Text → Text → Scan
scan_fmt str fmt [] = unclosed
scan_fmt str fmt (c ∷ cs) =
    let rest = scan_fmt str (fmt ++ c ∷ []) cs in if c == b'}' then scanned str fmt cs else rest

-- The inner loop with `fmt_status == 0`.
unfoldable pub scan_name : Text → Text → Scan
scan_name str [] = scanned str [] []
scan_name str (c ∷ cs) =
    let rest = scan_name (str ++ c ∷ []) cs in
    if not (isalpha c) && (not (c == b'{') && not (c == b'}'))
    then scanned str [] (c ∷ cs)
    else if c == b'{'
    then scan_fmt str [] cs
    else rest

-- The variables of the outer loop, and the rests of the pattern that it has printed.
pub record Parse : Type 0 where
  pub rest : Text
  pub nstr : Text
  pub vec : List Token
  pub error : Bool
  pub printed : List Text

-- What `nstr` adds to `vec`, at a directive and after the loop.
abbrev pub flush : Text → List Token
flush [] = []
flush s = literal s ∷ []

unfoldable pub is_percent : Text → Bool
is_percent [] = false
is_percent (c ∷ cs) = c == b'%'

-- What follows the inner loop. An unclosed brace goes on at the character after the `%`.
after_scan : Text → Parse → Scan → Parse
after_scan cs p (scanned str fmt rest) = record p {
  rest = rest;
  nstr = [];
  vec = p.vec ++ (flush p.nstr ++ directive str fmt ∷ []);
}
after_scan cs p unclosed = record p {
  rest = cs;
  vec = p.vec ++ literal (codes "<<pattern_error>>") ∷ [];
  error = true;
  printed = p.printed ++ (b'%' ∷ cs) ∷ [];
}

-- The body of the outer loop, at the character `c` with `cs` behind it.
unfoldable pub body : ℕ → Text → Parse → Parse
unfolding after_scan is_percent
body c cs p =
    if not (c == b'%')
    then record p { rest = cs; nstr = p.nstr ++ c ∷ [] }
    else if is_percent cs
    then record p { rest = cs; nstr = p.nstr ++ b'%' ∷ [] }
    else after_scan cs p (scan_name [] cs)

-- The outer loop, on fuel.
unfoldable pub loop : ℕ → Parse → Option Parse
loop zero p = none
loop (suc f) p = elim p.rest [ [] ↦ some p | c ∷ cs ↦ loop f (body c cs p) ]

abbrev pub start : Text → Parse
start pattern = record { rest = pattern; nstr = []; vec = []; error = false; printed = [] }

-- The first part of `init`: `vec` and `m_error` behind the loops.
abbrev pub finish : Parse → List Token × Bool
finish p = (p.vec ++ flush p.nstr, p.error)

abbrev finished : Option Parse → Option (List Token × Bool)
finished none = none
finished (some p) = some (finish p)

unfoldable pub tokens : Text → Option (List Token × Bool)
unfolding loop
tokens pattern = finished (loop (suc (length pattern)) (start pattern))

-- What stands on a line of `std::cout` at an unclosed brace, with the rest of the pattern from its `%`.
abbrev pub message : Text → Text → Text
message pattern rest = codes "pattern parse error: " ++ (pattern ++ (codes " - " ++ rest))

-- The lines that the first part of `init` prints.
abbrev printed : Text → Option Parse → Option (List Text)
printed pattern none = none
printed pattern (some p) = some (map (message pattern) p.printed)

unfoldable pub messages : Text → Option (List Text)
unfolding loop
messages pattern = printed pattern (loop (suc (length pattern)) (start pattern))
