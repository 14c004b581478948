-- ===== src/Log/Pattern/Messages.antt =====
-- What `LogFormatter::init` of gwn/log.cc prints about a pattern.
use gwn_framwork.Base.{
  ℕ, zero, suc, ◌≡◌, refl, sym, ◌∙◌, ap, Bool, true, false, not, List, [], ◌∷◌, ◌++◌, map, some,
  arith, Text, length, is_empty, All, All-append, append_assoc, ◌==◌, if◌then◌else◌, ◌&&◌, ==_iff,
  subst,
}
use gwn_framwork.Log.Pattern.{
  Token, Scan, scanned, unclosed, scan_fmt, scan_name, Parse, after_scan, body, loop, start, finish,
  tokens, message, messages, isalpha, is_percent,
}
use gwn_framwork.Log.Pattern.Parsing.{loop_nil, loop_cons, loop-total}

-- The text begins with a `%` of the pattern, behind which the inner loop ends inside braces.
abbrev pub IsUnclosed : Text → Text → Type 0
IsUnclosed pattern l =
    (before : Text) × (rest : Text) × (pattern ≡ before ++ b'%' ∷ rest)
    × (l ≡ b'%' ∷ rest)
    × (scan_name [] rest ≡ unclosed)

if_ind {ℓ} : {A : Type ℓ} (P : A → Type 0) (b : Bool) {x y : A} → P x → P y → P (if b then x else y)
if_ind P true h k = h
if_ind P false h k = k

IsRestOf : Text → Text → Type 0
IsRestOf whole rest = (before : Text) × (whole ≡ before ++ rest)

LeavesRest : Text → Scan → Type 0
unfolding IsRestOf
LeavesRest cs (scanned str fmt rest) = IsRestOf cs rest
LeavesRest cs unclosed = Unit

LeavesRest-cons : (c : ℕ) (cs : Text) (s : Scan) → LeavesRest cs s → LeavesRest (c ∷ cs) s
unfolding LeavesRest
LeavesRest-cons c cs (scanned str fmt rest) (before, e) = (c ∷ before, ap (◌∷◌ c) e)
LeavesRest-cons c cs unclosed h = tt

scan_fmt-LeavesRest : (str fmt cs : Text) → LeavesRest cs (scan_fmt str fmt cs)
unfolding scan_fmt LeavesRest
scan_fmt-LeavesRest str fmt [] = tt
scan_fmt-LeavesRest str fmt (c ∷ cs) =
    if_ind (LeavesRest (c ∷ cs)) (c == b'}') (c ∷ [], refl)
      (LeavesRest-cons c cs _ (scan_fmt-LeavesRest str (fmt ++ c ∷ []) cs))

scan_name-LeavesRest : (str cs : Text) → LeavesRest cs (scan_name str cs)
unfolding scan_name LeavesRest
scan_name-LeavesRest str [] = ([], refl)
scan_name-LeavesRest str (c ∷ cs) =
    if_ind (LeavesRest (c ∷ cs)) (not (isalpha c) && (not (c == b'{') && not (c == b'}')))
      ([], refl)
      (if_ind (LeavesRest (c ∷ cs)) (c == b'{')
        (LeavesRest-cons c cs _ (scan_fmt-LeavesRest str [] cs))
        (LeavesRest-cons c cs _ (scan_name-LeavesRest (str ++ c ∷ []) cs)))

some_parse_inj : {x y : Parse} → some x ≡ some y → x ≡ y
some_parse_inj e = cc

module _ (pattern : Text) where
  -- What the outer loop keeps.
  record IsTold (p : Parse) : Type 0 where
    rest : IsRestOf pattern p.rest
    error : p.error ≡ not (is_empty p.printed)
    lines : All (IsUnclosed pattern) p.printed

  longer :
      (c : ℕ) (cs rest : Text)
      → IsRestOf pattern (c ∷ cs)
      → IsRestOf cs rest
      → IsRestOf pattern rest
  unfolding IsRestOf
  longer c cs rest (u, e) (v, f) =
      (u ++ c ∷ v, e ∙ ap (λ r. u ++ c ∷ r) f ∙ sym (append_assoc u (c ∷ v) rest))

  not_empty-snoc : (l : List Text) (t : Text) → not (is_empty (l ++ t ∷ [])) ≡ true
  not_empty-snoc [] t = refl
  not_empty-snoc (x ∷ l) t = refl

  after_scan-IsTold :
      (cs : Text) (p : Parse) (s : Scan)
      → IsTold p
      → IsRestOf pattern (b'%' ∷ cs)
      → scan_name [] cs ≡ s
      → LeavesRest cs s
      → IsTold (after_scan cs p s)
  unfolding after_scan LeavesRest IsRestOf
  after_scan-IsTold cs p (scanned str fmt rest) h r e l = record {
    rest = longer b'%' cs rest r l;
    error = h.error;
    lines = h.lines;
  }
  after_scan-IsTold cs p unclosed h r e l = record {
    rest = longer b'%' cs cs r ([], refl);
    error = sym (not_empty-snoc p.printed (b'%' ∷ cs));
    lines =
        All-append (IsUnclosed pattern) p.printed ((b'%' ∷ cs) ∷ []) h.lines
          ((r.0, cs, r.1, refl, e), tt);
  }

  body-IsTold : (c : ℕ) (cs : Text) (p : Parse) → p.rest ≡ c ∷ cs → IsTold p → IsTold (body c cs p)
  unfolding body IsRestOf
  body-IsTold c cs p e h =
      let r : IsRestOf pattern (c ∷ cs) = subst (IsRestOf pattern) e h.rest in
      let next = longer c cs cs r ([], refl) in percent (c == b'%') refl r next
    where
      percent :
          (b : Bool)
          → (c == b'%') ≡ b
          → IsRestOf pattern (c ∷ cs)
          → IsRestOf pattern cs
          → IsTold (
              if not b
              then record p { rest = cs; nstr = p.nstr ++ c ∷ [] }
              else if is_percent cs
              then record p { rest = cs; nstr = p.nstr ++ b'%' ∷ [] }
              else after_scan cs p (scan_name [] cs))
      percent false e' r next = record { rest = next; error = h.error; lines = h.lines }
      percent true e' r next =
          if_ind IsTold (is_percent cs) (record { rest = next; error = h.error; lines = h.lines })
            (after_scan-IsTold cs p (scan_name [] cs) h
              (subst (λ x. IsRestOf pattern (x ∷ cs)) ((==_iff c b'%').0 e') r) refl
              (scan_name-LeavesRest [] cs))

  loop-IsTold :
      (f : ℕ) (p q : Parse) (rest : Text) → p.rest ≡ rest → IsTold p → loop f p ≡ some q → IsTold q
  unfolding loop
  loop-IsTold zero p q rest e h r = ground arith
  loop-IsTold (suc f) p q [] e h r = subst IsTold (some_parse_inj (sym (loop_nil f p e) ∙ r)) h
  loop-IsTold (suc f) p q (c ∷ cs) e h r =
      loop-IsTold f (body c cs p) q (body c cs p).rest refl (body-IsTold c cs p e h)
        (sym (loop_cons f c cs p e) ∙ r)

-- The first part of `init` comes to its end. Each line that it prints gives the rest of the pattern
-- from a `%` behind which the inner loop ends inside braces, and it sets `m_error` exactly if it
-- prints a line.
pub messages_total :
    (pattern : Text)
    → (ts : List Token) × (e : Bool) × (rests : List Text) × (tokens pattern ≡ some (ts, e))
      × (messages pattern ≡ some (map (message pattern) rests))
      × (e ≡ not (is_empty rests))
      × All (IsUnclosed pattern) rests
unfolding tokens messages
messages_total pattern =
    let (q, r) = loop-total (suc (length pattern)) (start pattern) pattern refl (omega arith) in
    let told =
      loop-IsTold pattern (suc (length pattern)) (start pattern) q pattern refl
        (record { rest = unfold IsRestOf in ([], refl); error = refl; lines = tt }) r in
    ((finish q).0, q.error, q.printed, rw (r) refl, rw (r) refl, told.error, told.lines)
