-- ===== src/Parser/Rounds.antt =====
-- Rounds of the loop of the parser: a call is decided by the last of them.
use sli.Prelude.{ℕ, zero, suc, ◌≡◌, ap, sym, ◌∙◌, true, false, some, if◌then◌else◌}
use sli.Parser.Parse.{
  Parser, Round, parse_round, continues, parse_loop, report, rounds, first_round, parse,
}
use sli.Parser.Total.{parse_loop_total, first_round-IsReady}

-- Rounds of the loop that go on.
pub data Runs (r : Round) : Round → Type 0 where
  here : Runs r r
  next :
      {s t : Round}
      → Runs r s
      → parse_round s s.result ≡ some t
      → continues t.result ≡ true
      → Runs r t

pub Runs-Runs : {r s t : Round} → Runs r s → Runs s t → Runs r t
Runs-Runs p here = p
Runs-Runs p (next q e c) = next (Runs-Runs p q) e c

-- The rounds that go on can be left out.
parse_loop-suc :
    (f : ℕ) (r s : Round)
    → parse_round r r.result ≡ some s
    → parse_loop (suc f) r ≡ (if continues s.result then parse_loop f s else some s)
unfolding parse_loop
parse_loop-suc f r s e = rw (e, parse_loop)

parse_loop-next :
    (g : ℕ) (r s u : Round)
    → parse_round r r.result ≡ some s
    → continues s.result ≡ true
    → parse_loop g r ≡ some u
    → (h : ℕ) × (parse_loop h s ≡ some u)
parse_loop-next zero r s u e c p = unfold parse_loop in cc p
parse_loop-next (suc g) r s u e c p =
    (g, ap (λ b. if b then parse_loop g s else some s) (sym c) ∙ sym (parse_loop-suc g r s e) ∙ p)

parse_loop-last :
    (g : ℕ) (r s u : Round)
    → parse_round r r.result ≡ some s
    → continues s.result ≡ false
    → parse_loop g r ≡ some u
    → u ≡ s
parse_loop-last zero r s u e c p = unfold parse_loop in cc p
parse_loop-last (suc g) r s u e c p =
    let q = parse_loop-suc g r s e ∙ ap (λ b. if b then parse_loop g s else some s) c in cc (q, p)

parse_loop-Runs :
    {r s : Round} (p : Runs r s) (f : ℕ) (u : Round)
    → parse_loop f r ≡ some u
    → (g : ℕ) × (parse_loop g s ≡ some u)
parse_loop-Runs here f u e = (f, e)
parse_loop-Runs (next {s = s} {t = t} p q c) f u e =
    let (g, h) = parse_loop-Runs p f u e in parse_loop-next g s t u q c h

-- A call is decided by the last of its rounds.
pub parse-Runs :
    (p : Parser) (s t : Round)
    → Runs (first_round p) s
    → parse_round s s.result ≡ some t
    → continues t.result ≡ false
    → parse p ≡ some (report t t.result)
unfolding parse
parse-Runs p s t r e c =
    let (u, q, _) = parse_loop_total (rounds p) (first_round p) (first_round-IsReady p) in
    let (g, h) = parse_loop-Runs r (rounds p) u q in rw (q, parse, parse_loop-last g s t u e c h)
