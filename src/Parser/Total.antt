-- ===== src/Parser/Total.antt =====
-- Every call of the parser returns: the fuel of its loop is enough for every input.
use sli.Prelude.{
  ℕ, zero, suc, ◌+◌, ◌*◌, ◌≤◌, ◌≡◌, ◌≢◌, refl, ap, ◌⊎◌, inl, inr, true, false, Option, none, some,
  List, [], ◌∷◌, arith, length, length-append, Bool-cases,
}
use sli.Scanner.Charcode.{code}
use sli.Scanner.Trans.{trans}
use sli.Scanner.Lexeme.{Lexeme, symboltype, begin_procedure, end_procedure, end_symbol, integertype}
use sli.Scanner.Scan.{Scanner, scan, scan_loop, round, act, advance, finish}
use sli.Scanner.Total.{scan_total}
use sli.Parser.Parse.{
  Token, simple, Tokens, Parser, ParseResult, tokencontinue, scancontinue, Round, deliver,
  close_procedure, end_of_input, accept, scanned, parse_round, continues, parse_loop, report,
  rounds, first_round, parse,
}

-- At the end of the input the scanner gives the end symbol.
scan-nil :
    (sc : Scanner)
    → sc.input ≡ []
    → (sc' : Scanner) × (scan sc ≡ some (some (symboltype end_symbol), sc')) × (sc'.input ≡ [])
unfolding scan scan_loop round act trans advance code finish
scan-nil sc i = (record { input = []; line = sc.line; col = sc.col + 1; ds = sc.ds }, rw i, refl)

-- A token that is no bracket.
abbrev pub IsPlain : Token → Type 0
IsPlain (simple (symboltype x)) = ⊥
IsPlain t = Unit {0}

-- The rounds that are left, at most.
abbrev left : ParseResult → ℕ → ℕ
left tokencontinue n = 2 * n + 2
left scancontinue n = 2 * n + 1
left _ n = 0

-- What a round does to the token: the scanner stays, and a round that goes on with its token has
-- one that is no bracket.
record Accepted (p : Parser) (r : Round) : Type 0 where
  keeps : r.parser.scanner ≡ p.scanner
  plain : (r.result ≡ tokencontinue) → IsPlain r.token

Accepted-deliver : (t : Token) (p : Parser) (s : List Tokens) → Accepted p (deliver t p s)
unfolding deliver
Accepted-deliver t p [] = record { keeps = refl; plain = λ e. cc }
Accepted-deliver t p (top ∷ s) = record { keeps = refl; plain = λ e. cc }

Accepted-close : (t : Token) (p : Parser) (s : List Tokens) → Accepted p (close_procedure t p s)
unfolding close_procedure
Accepted-close t p [] = record { keeps = refl; plain = λ e. cc }
Accepted-close t p (top ∷ s) = record { keeps = refl; plain = λ e. tt }

Accepted-end : (t : Token) (p : Parser) (s : List Tokens) → Accepted p (end_of_input t p s)
unfolding end_of_input
Accepted-end t p [] = record { keeps = refl; plain = λ e. cc }
Accepted-end t p (top ∷ s) = record { keeps = refl; plain = λ e. cc }

accept-Accepted : (t : Token) (p : Parser) → Accepted p (accept t p)
unfolding accept
accept-Accepted (simple (symboltype begin_procedure)) p = record { keeps = refl; plain = λ e. cc }
accept-Accepted (simple (symboltype end_procedure)) p = Accepted-close _ p p.stack
accept-Accepted (simple (symboltype end_symbol)) p = Accepted-end _ p p.stack
accept-Accepted (simple (symboltype _)) p = record { keeps = refl; plain = λ e. tt }
accept-Accepted (simple (integertype _)) p = Accepted-deliver _ p p.stack
accept-Accepted _ p = Accepted-deliver _ p p.stack

deliver-stops : (t : Token) (p : Parser) (s : List Tokens) → (deliver t p s).result ≢ tokencontinue
unfolding deliver
deliver-stops t p [] = cc
deliver-stops t p (top ∷ s) = cc

-- A token that is no bracket does not go round twice.
accept-ne-tokencontinue : (t : Token) (p : Parser) → IsPlain t → (accept t p).result ≢ tokencontinue
unfolding accept
accept-ne-tokencontinue (simple (symboltype _)) p h = absurd h
accept-ne-tokencontinue (simple (integertype _)) p h = deliver-stops _ p p.stack
accept-ne-tokencontinue _ p h = deliver-stops _ p p.stack

-- The end symbol ends the loop.
end-stops :
    (p : Parser) (s : List Tokens) (t : Token) → continues (end_of_input t p s).result ≡ false
unfolding end_of_input
end-stops p [] t = refl
end-stops p (top ∷ s) t = refl

-- A round that the loop can be in.
pub record IsReady (f : ℕ) (r : Round) : Type 0 where
  fuel : left r.result (length r.parser.scanner.input) ≤ f
  goes : continues r.result ≡ true
  plain : (r.result ≡ tokencontinue) → IsPlain r.token

abbrev Advances : ℕ → Round → Type 0
Advances f r = (continues r.result ≡ false) ⊎ IsReady f r

ready :
    (f : ℕ) (r : Round)
    → (r.result ≡ tokencontinue → IsPlain r.token)
    → left r.result (length r.parser.scanner.input) ≤ f
    → Advances f r
ready f r p h = elim (Bool-cases (continues r.result)) [
  | inl g ↦ inr (record { fuel = h; goes = g; plain = p })
  | inr g ↦ inl g
]

left-le : (r : ParseResult) (n : ℕ) → left r n ≤ 2 * n + 2
left-le r n = ground arith

left_scan-le : (r : ParseResult) (n : ℕ) → r ≢ tokencontinue → left r n ≤ 2 * n + 1
left_scan-le tokencontinue n h = absurd (h refl)
left_scan-le _ n h = omega arith

-- After a scan that has read something, and after the end symbol.
scanned-Advances :
    (f : ℕ) (r : Round) (x : Option Lexeme) (sc : Scanner)
    → r.result ≡ scancontinue
    → 2 * length sc.input + 2 ≤ f
    → Advances f (scanned r (x, sc))
unfolding scanned
scanned-Advances f r none sc e h = ready f _ (λ q. cc) (rw e (omega arith))
scanned-Advances f r (some x) sc e h =
    let a = accept-Accepted (simple x) (record r.parser { scanner = sc }) in
    ready f _ a.plain (
      rw a.keeps (
        omega (
          arith,
          left-le (accept (simple x) (record r.parser { scanner = sc })).result (length sc.input),
        )))

module _ (f : ℕ) (r : Round) (h : IsReady (suc f) r) where
  token_round : r.result ≡ tokencontinue → Advances f (accept r.token r.parser)
  token_round e =
      let a = accept-Accepted r.token r.parser in
      let s = accept r.token r.parser in
      ready f s a.plain (
        rw a.keeps (
          omega (
            arith,
            left_scan-le s.result (length r.parser.scanner.input)
                (accept-ne-tokencontinue r.token r.parser (h.plain e)),
            ap (λ q. left q (length r.parser.scanner.input)) e,
            h.fuel,
          )))

  scan_round :
      r.result ≡ scancontinue
      → (r' : Round) × (parse_round r scancontinue ≡ some r') × Advances f r'
  unfolding parse_round
  scan_round e =
      let (x, sc', consumed, p, i, q) = scan_total r.parser.scanner in
      elim q [
        | inl empty ↦
            let (sc'', p', _) = scan-nil r.parser.scanner empty in
            (
              scanned r (some (symboltype end_symbol), sc''),
              rw (p', parse_round),
              inl (
                  unfold scanned accept in
                  end-stops (record r.parser { scanner = sc'' }) r.parser.stack _),
            )
        | inr read ↦ (
          scanned r (x, sc'),
          rw (p, parse_round),
          scanned-Advances f r x sc' e (
              omega (
                arith,
                ap length i,
                length-append consumed sc'.input,
                read,
                h.fuel,
                ap (λ q. left q (length r.parser.scanner.input)) e,
              )),
        )
      ]

  parse_round_total :
      (q : ParseResult) → r.result ≡ q → (r' : Round) × (parse_round r q ≡ some r') × Advances f r'
  unfolding parse_round
  parse_round_total tokencontinue e = (accept r.token r.parser, refl, token_round e)
  parse_round_total scancontinue e = scan_round e
  parse_round_total _ e = cc (ap continues e, h.goes)

left-pos : (q : ParseResult) (n : ℕ) → continues q ≡ true → ¬ (left q n ≤ 0)
left-pos q n h k = ground arith

pub parse_loop_total :
    (f : ℕ) (r : Round)
    → IsReady f r
    → (r' : Round) × (parse_loop f r ≡ some r') × (continues r'.result ≡ false)
unfolding parse_loop
parse_loop_total zero r h = absurd (left-pos r.result (length r.parser.scanner.input) h.goes h.fuel)
parse_loop_total (suc f) r h =
    let (r', p, a) = parse_round_total f r h r.result refl in
    elim a [
      | inl stop ↦ (r', rw (p, parse_loop, stop), stop)
      | inr more ↦
          let (r'', q, stop) = parse_loop_total f r' more in
          (r'', rw (p, parse_loop, more.goes) q, stop)
    ]

pub first_round-IsReady : (p : Parser) → IsReady (rounds p) (first_round p)
first_round-IsReady p = record { fuel = omega arith; goes = refl; plain = λ e. cc }

-- A call of the parser returns, whatever its input, its open procedures and the digits that the
-- scanner has left.
pub parse_total : (p : Parser) → (x : Option Token) × (p' : Parser) × (parse p ≡ some (x, p'))
unfolding parse
parse_total p =
    let (r, e, _) = parse_loop_total (rounds p) (first_round p) (first_round-IsReady p) in
    ((report r r.result).0, (report r r.result).1, rw (e, parse))
