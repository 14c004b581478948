-- ===== src/Log/Pattern/Parsing.antt =====
-- The outer loop of `LogFormatter::init` ends: each round leaves a shorter rest, so the length of
-- the pattern is enough fuel, and more fuel changes nothing.
use gwn_framwork.Base.{
  ℕ, zero, suc, ◌≤◌, ◌<◌, ◌≡◌, refl, sym, ◌∙◌, ap, List, [], ◌∷◌, ◌++◌, Option, some, arith, Text,
  length, Bool,
}
use gwn_framwork.Log.Pattern.{
  Token, Scan, scanned, unclosed, scan_fmt, scan_name, Parse, after_scan, body, loop, start, finish,
  tokens, finished,
}

abbrev RestWithin : ℕ → Scan → Type 0
RestWithin n (scanned str fmt rest) = length rest ≤ n
RestWithin n unclosed = Unit

RestWithin-mono : {m n : ℕ} (s : Scan) → m ≤ n → RestWithin m s → RestWithin n s
RestWithin-mono (scanned str fmt rest) h w = omega arith
RestWithin-mono unclosed h w = tt

scan_fmt-RestWithin : (str fmt cs : Text) → RestWithin (length cs) (scan_fmt str fmt cs)
unfolding scan_fmt
scan_fmt-RestWithin str fmt [] = tt
scan_fmt-RestWithin str fmt (c ∷ cs) =
    let next = scan_fmt str (fmt ++ c ∷ []) cs in
    ground (
      arith,
      RestWithin-mono {m = length cs} {n = suc (length cs)} next,
      scan_fmt-RestWithin str (fmt ++ c ∷ []) cs,
    )

scan_name-RestWithin : (str cs : Text) → RestWithin (length cs) (scan_name str cs)
unfolding scan_name
scan_name-RestWithin str [] = omega arith
scan_name-RestWithin str (c ∷ cs) =
    let next = scan_name (str ++ c ∷ []) cs in
    let inner = scan_fmt str [] cs in
    ground (
      arith,
      RestWithin-mono {m = length cs} {n = suc (length cs)} next,
      RestWithin-mono {m = length cs} {n = suc (length cs)} inner,
      scan_fmt-RestWithin str [] cs,
      scan_name-RestWithin (str ++ c ∷ []) cs,
    )

after_scan-shorter :
    (cs : Text) (p : Parse) (s : Scan)
    → RestWithin (length cs) s
    → length (after_scan cs p s).rest ≤ length cs
unfolding after_scan
after_scan-shorter cs p (scanned str fmt rest) h = h
after_scan-shorter cs p unclosed h = omega arith

-- A round of the outer loop leaves at most what stood behind its first character.
body-shorter : (c : ℕ) (cs : Text) (p : Parse) → length (body c cs p).rest ≤ length cs
unfolding body
body-shorter c cs p =
    ground (arith, after_scan-shorter cs p (scan_name [] cs) (scan_name-RestWithin [] cs))

pub loop_nil : (f : ℕ) (p : Parse) → p.rest ≡ [] → loop (suc f) p ≡ some p
unfolding loop
loop_nil f p e = ground arith

pub loop_cons :
    (f c : ℕ) (cs : Text) (p : Parse) → p.rest ≡ c ∷ cs → loop (suc f) p ≡ loop f (body c cs p)
unfolding loop
loop_cons f c cs p e = ground arith

-- Any two amounts of fuel above the length of the rest give the same result.
loop-fuel :
    (f g : ℕ) (p : Parse) (rest : Text)
    → p.rest ≡ rest
    → length rest < f
    → length rest < g
    → loop f p ≡ loop g p
loop-fuel (suc f) (suc g) p [] e hf hg = loop_nil f p e ∙ sym (loop_nil g p e)
loop-fuel (suc f) (suc g) p (c ∷ cs) e hf hg =
    let shorter = body-shorter c cs p in
    loop_cons f c cs p e
    ∙ loop-fuel f g (body c cs p) (body c cs p).rest refl (omega arith) (omega arith)
    ∙ sym (loop_cons g c cs p e)
loop-fuel zero g p rest e hf hg = absurd (omega arith)
loop-fuel (suc f) zero p rest e hf hg = absurd (omega arith)

pub loop-total :
    (f : ℕ) (p : Parse) (rest : Text)
    → p.rest ≡ rest
    → length rest < f
    → (q : Parse) × (loop f p ≡ some q)
loop-total zero p rest e h = absurd (omega arith)
loop-total (suc f) p [] e h = (p, loop_nil f p e)
loop-total (suc f) p (c ∷ cs) e h =
    let shorter = body-shorter c cs p in
    let (q, r) = loop-total f (body c cs p) (body c cs p).rest refl (omega arith) in
    (q, loop_cons f c cs p e ∙ r)

-- The loop with just enough fuel, and its two equations.
pub parse : Parse → Option Parse
parse p = loop (suc (length p.rest)) p

pub parse_nil : (p : Parse) → p.rest ≡ [] → parse p ≡ some p
unfolding parse
parse_nil p e = loop_nil (length p.rest) p e

pub parse_cons : (c : ℕ) (cs : Text) (p : Parse) → p.rest ≡ c ∷ cs → parse p ≡ parse (body c cs p)
unfolding parse
parse_cons c cs p e =
    let shorter = body-shorter c cs p in
    loop_cons (length p.rest) c cs p e
    ∙ loop-fuel (length p.rest) (suc (length (body c cs p).rest)) (body c cs p) (body c cs p).rest
        refl (omega (arith, ap length e)) (omega arith)

pub tokens-parse : (pattern : Text) → tokens pattern ≡ finished (parse (start pattern))
unfolding tokens parse
tokens-parse pattern = refl

-- Every pattern is parsed: the loop never runs out of fuel.
pub tokens_total :
    (pattern : Text) → (ts : List Token) × (e : Bool) × (tokens pattern ≡ some (ts, e))
unfolding tokens
tokens_total pattern =
    let (q, r) = loop-total (suc (length pattern)) (start pattern) pattern refl (omega arith) in
    ((finish q).0, (finish q).1, rw r)
