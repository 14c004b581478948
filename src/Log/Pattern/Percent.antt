-- ===== src/Log/Pattern/Percent.antt =====
-- Patterns that the parser of `LogFormatter::init` reads otherwise than its comments say: `%%`, and
-- a brace that is not closed.
use gwn_framwork.Base.{
  ℕ, ◌≡◌, ◌≢◌, refl, sym, ◌∙◌, ap, Bool, true, false, List, [], ◌∷◌, ◌++◌, some, ◌==◌, Text, All,
  All-append, append-nil, codes,
}
use gwn_framwork.Log.Pattern.{
  Token, literal, directive, isalpha, unclosed, scan_fmt, scan_name, flush, is_percent, body,
  tokens, finished,
}
use gwn_framwork.Log.Pattern.Parsing.{parse, parse_nil, parse_cons, tokens-parse}
use gwn_framwork.Log.Pattern.RoundTrip.{
  print, braced, IsPrintable, at, at_with, parse_literal, parse-print, scan_name_letters,
  is_percent_letters, isalpha-ne_percent, flush_ne,
}

-- At `%%` a round reads one `%` and stops before the other.
parse_percent :
    (cs nstr : Text) (vec : List Token) (e : Bool)
    → parse (at (b'%' ∷ b'%' ∷ cs) nstr vec e) ≡ parse (at (b'%' ∷ cs) (nstr ++ b'%' ∷ []) vec e)
parse_percent cs nstr vec e =
    parse_cons b'%' (b'%' ∷ cs) (at (b'%' ∷ b'%' ∷ cs) nstr vec e) refl ∙ unfold body in refl

tokens_percent :
    (s cs : Text)
    → All (λ c. (c == b'%') ≡ false) s
    → tokens (s ++ b'%' ∷ b'%' ∷ cs) ≡ finished (parse (at (b'%' ∷ cs) (s ++ b'%' ∷ []) [] false))
tokens_percent s cs h =
    tokens-parse (s ++ b'%' ∷ b'%' ∷ cs)
    ∙ ap finished
        (parse_literal s (b'%' ∷ b'%' ∷ cs) [] [] false [] h ∙ parse_percent cs s [] false)

flush-append : (s : Text) (c : ℕ) → flush (s ++ c ∷ []) ≡ literal (s ++ c ∷ []) ∷ []
flush-append [] c = refl
flush-append (x ∷ s) c = refl

-- `%%` does not stand for one `%`: behind a text with no `%`, the first `%` ends that text, and the
-- second one starts the directive that is written behind it.
pub tokens-double_percent :
    (s str fmt : Text) (ts : List Token)
    → All (λ c. (c == b'%') ≡ false) s
    → IsPrintable (directive str fmt ∷ ts)
    → tokens (s ++ b'%' ∷ print (directive str fmt ∷ ts))
      ≡ some (literal (s ++ codes "%") ∷ directive str fmt ∷ ts, false)
tokens-double_percent s str fmt ts h p =
    tokens_percent s (str ++ braced fmt (print ts)) h
    ∙ parse-print (directive str fmt ∷ ts) (s ++ b'%' ∷ []) [] false p (λ _. tt)
    ∙ rw (flush-append s b'%')

-- A pattern that ends in `%%` ends in a directive with no name.
pub tokens_trailing_percent :
    (s : Text)
    → All (λ c. (c == b'%') ≡ false) s
    → tokens (s ++ codes "%%") ≡ some (literal (s ++ codes "%") ∷ directive [] [] ∷ [], false)
tokens_trailing_percent s h =
    tokens_percent s [] h
    ∙ ap finished (
        parse_cons b'%' [] (at (b'%' ∷ []) (s ++ b'%' ∷ []) [] false) (refl)
        ∙ parse_nil _ (unfold body is_percent scan_name in refl))
    ∙ unfold body is_percent scan_name in rw (flush-append s b'%')

scan_fmt_unclosed :
    (f str acc : Text) → All (λ c. (c == b'}') ≡ false) f → scan_fmt str acc f ≡ unclosed
unfolding scan_fmt
scan_fmt_unclosed [] str acc h = refl
scan_fmt_unclosed (c ∷ cs) str acc h = rw h.0 (scan_fmt_unclosed cs str (acc ++ c ∷ []) h.1)

scan_name_unclosed :
    (str f : Text)
    → All (λ c. isalpha c ≡ true) str
    → All (λ c. (c == b'}') ≡ false) f
    → scan_name [] (str ++ b'{' ∷ f) ≡ unclosed
unfolding scan_name
scan_name_unclosed str f letters inner =
    scan_name_letters str (b'{' ∷ f) [] letters ∙ unfold isalpha in scan_fmt_unclosed f str [] inner

All-no_percent : (str : Text) → All (λ c. isalpha c ≡ true) str → All (λ c. (c == b'%') ≡ false) str
All-no_percent [] h = tt
All-no_percent (c ∷ cs) h = (isalpha-ne_percent c h.0, All-no_percent cs h.1)

append-ne_nil : (s cs : Text) → cs ≢ [] → s ++ cs ≢ []
append-ne_nil [] cs ne e = ne e
append-ne_nil (x ∷ s) cs ne e = cc

body_unclosed :
    (cs nstr : Text) (vec : List Token) (e : Bool)
    → is_percent cs ≡ false
    → scan_name [] cs ≡ unclosed
    → body b'%' cs (at (b'%' ∷ cs) nstr vec e)
      ≡ at_with cs nstr (vec ++ literal (codes "<<pattern_error>>") ∷ []) true ((b'%' ∷ cs) ∷ [])
unfolding body
body_unclosed cs nstr vec e hp hs = rw (hp, hs)

brace-ne_nil : (str f : Text) → str ++ b'{' ∷ f ≢ []
brace-ne_nil [] f e = cc
brace-ne_nil (x ∷ str) f e = cc

-- At a directive whose brace is not closed, the parser sets the error and writes the error mark
-- before the text `s` that stands in front of the directive, not behind it; the directive's own
-- characters follow that text, with no `%`.
pub tokens_unclosed :
    (s str f : Text)
    → All (λ c. (c == b'%') ≡ false) s
    → str ≢ []
    → All (λ c. isalpha c ≡ true) str
    → All (λ c. (c == b'}') ≡ false) f
    → All (λ c. (c == b'%') ≡ false) f
    → tokens (s ++ b'%' ∷ (str ++ b'{' ∷ f))
      ≡ some (literal (codes "<<pattern_error>>") ∷ literal (s ++ (str ++ b'{' ∷ f)) ∷ [], true)
tokens_unclosed s str f hs ne letters inner plain =
    let cs : Text = str ++ b'{' ∷ f in
    let mark : List Token = literal (codes "<<pattern_error>>") ∷ [] in
    tokens-parse (s ++ b'%' ∷ cs)
    ∙ ap finished (
        parse_literal s (b'%' ∷ cs) [] [] false [] hs
        ∙ parse_cons b'%' cs (at (b'%' ∷ cs) s [] false) refl
        ∙ ap parse (
            body_unclosed cs s [] false (is_percent_letters str (b'{' ∷ f) ne letters)
              (scan_name_unclosed str f letters inner))
        ∙ ap (λ (r : Text). parse (at_with r s mark true ((b'%' ∷ cs) ∷ []))) (sym (append-nil cs))
        ∙ parse_literal cs [] s mark true ((b'%' ∷ cs) ∷ [])
            (All-append _ str (b'{' ∷ f) (All-no_percent str letters) (refl, plain))
        ∙ parse_nil (at_with [] (s ++ cs) mark true ((b'%' ∷ cs) ∷ [])) refl)
    ∙ rw (flush_ne (s ++ cs) (append-ne_nil s cs (brace-ne_nil str f)))
