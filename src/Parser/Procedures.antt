-- ===== src/Parser/Procedures.antt =====
-- Procedures: what the parser makes of the tokens between braces, against a grammar of them.
use sli.Prelude.{ℕ, ◌≡◌, refl, ap, ◌∙◌, Option, none, some, List, [], ◌∷◌}
use sli.Scanner.Lexeme.{Lexeme, symboltype, begin_array, end_array, begin_procedure, end_procedure}
use sli.Scanner.Scan.{Scanner, scan}
use sli.Parser.Parse.{
  Token, simple, litproceduretype, Tokens, nil, cons, push_back, Parser, tokencontinue,
  scancontinue, tokencompleted, Round, bracket, deliver, close_procedure, drop_first, accept,
  scanned, parse_round, report, first_round, parse,
}
use sli.Parser.Total.{IsPlain}
use sli.Parser.Rounds.{Runs, here, next, Runs-Runs, parse-Runs}

-- The grammar: from `sc`, the scanner yields the elements of a procedure, and is `sc'` after the
-- last. Scans that fail are passed over, and a bracket is its name.
pub data Body : Scanner → Tokens → Scanner → Type 0 where
  last : {sc : Scanner} → Body sc nil sc
  failed :
      {sc sc1 sc' : Scanner} {xs : Tokens}
      → scan sc ≡ some (none, sc1)
      → Body sc1 xs sc'
      → Body sc xs sc'
  leaf :
      {sc sc1 sc' : Scanner} {x : Lexeme} {xs : Tokens}
      → scan sc ≡ some (some x, sc1)
      → IsPlain (simple x)
      → Body sc1 xs sc'
      → Body sc (cons (simple x) xs) sc'
  opened :
      {sc sc1 sc' : Scanner} {xs : Tokens}
      → scan sc ≡ some (some (symboltype begin_array), sc1)
      → Body sc1 xs sc'
      → Body sc (cons (bracket b'[') xs) sc'
  closed :
      {sc sc1 sc' : Scanner} {xs : Tokens}
      → scan sc ≡ some (some (symboltype end_array), sc1)
      → Body sc1 xs sc'
      → Body sc (cons (bracket b']') xs) sc'
  nested :
      {sc sc1 sc2 sc3 sc' : Scanner} {ys xs : Tokens}
      → scan sc ≡ some (some (symboltype begin_procedure), sc1)
      → Body sc1 ys sc2
      → scan sc2 ≡ some (some (symboltype end_procedure), sc3)
      → Body sc3 xs sc'
      → Body sc (cons (litproceduretype ys) xs) sc'

-- The tokens are added to a procedure one after the other.
abbrev push_all : Tokens → Tokens → Tokens
push_all top nil = top
push_all top (cons t xs) = push_all (push_back top t) xs

-- A state in which the loop scans within the procedure `top`.
abbrev within : Token → Scanner → Tokens → List Tokens → List (ℕ × ℕ) → Round
within t sc top stack places = record {
  result = scancontinue;
  token = t;
  parser = record { scanner = sc; stack = top ∷ stack; open_brace_positions = places };
}

scan_round :
    (t : Token) (sc sc1 : Scanner) (top : Tokens) (stack : List Tokens) (places : List (ℕ × ℕ))
    (o : Option Lexeme)
    → scan sc ≡ some (o, sc1)
    → parse_round (within t sc top stack places) scancontinue
      ≡ some (scanned (within t sc top stack places) (o, sc1))
unfolding parse_round
scan_round t sc sc1 top stack places o e = rw (e, parse_round)

-- A token that is no bracket goes to the innermost procedure.
accept-plain :
    (x : Token) (sc : Scanner) (top : Tokens) (stack : List Tokens) (places : List (ℕ × ℕ))
    → IsPlain x
    → accept x (record { scanner = sc; stack = top ∷ stack; open_brace_positions = places })
      ≡ within x sc (push_back top x) stack places
unfolding accept deliver
accept-plain (simple (symboltype _)) sc top stack places h = absurd h
accept-plain (simple _) sc top stack places h = refl
accept-plain (litproceduretype _) sc top stack places h = refl

module _ (stack : List Tokens) (places : List (ℕ × ℕ)) where
  -- A round that makes a plain token, and the next one, which adds it.
  adds :
      (x : Token) (sc1 : Scanner) (top : Tokens) (r : Round)
      → IsPlain x
      → parse_round r r.result
        ≡ some (record {
          result = tokencontinue;
          token = x;
          parser = record { scanner = sc1; stack = top ∷ stack; open_brace_positions = places };
        })
      → Runs r (within x sc1 (push_back top x) stack places)
  unfolding parse_round
  adds x sc1 top r h e =
      next (next here e refl) (ap some (accept-plain x sc1 top stack places h)) refl

push_all-cons :
    (top : Tokens) (x : Token) (xs : Tokens) → push_all (cons x top) xs ≡ cons x (push_all top xs)
unfolding push_back
push_all-cons top x nil = refl
push_all-cons top x (cons y xs) = push_all-cons (push_back top y) x xs

push_all-nil : (xs : Tokens) → push_all nil xs ≡ xs
unfolding push_back
push_all-nil nil = refl
push_all-nil (cons x xs) = push_all-cons nil x xs ∙ ap (cons x) (push_all-nil xs)

-- The rounds on the elements of a procedure.
Body-Runs :
    {sc sc' : Scanner} {xs : Tokens} (b : Body sc xs sc') (t : Token) (top : Tokens)
    (stack : List Tokens) (places : List (ℕ × ℕ))
    → (t' : Token) × Runs
        (within t sc top stack places)
        (within t' sc' (push_all top xs) stack places)
unfolding scanned accept close_procedure drop_first
Body-Runs last t top stack places = (t, here)
Body-Runs (failed {sc1 = sc1} e b) t top stack places =
    let (t', q) = Body-Runs b t top stack places in
    (t', Runs-Runs (next here (scan_round t _ sc1 top stack places none e) refl) q)
Body-Runs (leaf {sc1 = sc1} {x = x} e h b) t top stack places =
    let (t', q) = Body-Runs b (simple x) (push_back top (simple x)) stack places in
    (
      t',
      Runs-Runs
          (next here
            (scan_round t _ sc1 top stack places (some x) e
              ∙ ap some (accept-plain (simple x) sc1 top stack places h))
            refl)
          q,
    )
Body-Runs (opened {sc1 = sc1} e b) t top stack places =
    let (t', q) = Body-Runs b (bracket b'[') (push_back top (bracket b'[')) stack places in
    (
      t',
      Runs-Runs
          (adds stack places (bracket b'[') sc1 top _ tt (scan_round t _ sc1 top stack places _ e))
          q,
    )
Body-Runs (closed {sc1 = sc1} e b) t top stack places =
    let (t', q) = Body-Runs b (bracket b']') (push_back top (bracket b']')) stack places in
    (
      t',
      Runs-Runs
          (adds stack places (bracket b']') sc1 top _ tt (scan_round t _ sc1 top stack places _ e))
          q,
    )
Body-Runs (nested {sc1 = sc1} {sc2 = sc2} {sc3 = sc3} {ys = ys} e b f c) t top stack places =
    let symbol = simple (symboltype begin_procedure) in
    let (t2, p) = Body-Runs b symbol nil (top ∷ stack) ((sc1.line, sc1.col) ∷ places) in
    let y = litproceduretype ys in
    let (t', q) = Body-Runs c y (push_back top y) stack places in
    let enter =
      next here (scan_round t _ sc1 top stack places (some (symboltype begin_procedure)) e) refl in
    let leave =
      adds stack places y sc3 top
        (within t2 sc2 (push_all nil ys) (top ∷ stack) ((sc1.line, sc1.col) ∷ places)) tt
        (scan_round t2 sc2 sc3 (push_all nil ys) (top ∷ stack) ((sc1.line, sc1.col) ∷ places)
            (some (symboltype end_procedure)) f
          ∙ ap
              (λ z. some (record {
                result = tokencontinue;
                token = litproceduretype z;
                parser = record {
                  scanner = sc3;
                  stack = top ∷ stack;
                  open_brace_positions = places;
                };
              }))
              (push_all-nil ys)) in
    (t', Runs-Runs enter (Runs-Runs p (Runs-Runs leave q)))

-- A call that finds a procedure, that is an opening brace, its elements, and the closing brace,
-- delivers it with its elements in their order, and leaves the scanner after the brace.
pub parse-Body :
    (p : Parser) (sc1 sc2 sc3 : Scanner) (xs : Tokens)
    → p.stack ≡ []
    → scan p.scanner ≡ some (some (symboltype begin_procedure), sc1)
    → Body sc1 xs sc2
    → scan sc2 ≡ some (some (symboltype end_procedure), sc3)
    → parse p ≡ some (some (litproceduretype xs), record p { scanner = sc3 })
unfolding parse_round scanned accept close_procedure drop_first deliver report
parse-Body p sc1 sc2 sc3 xs n e b f =
    let places = (sc1.line, sc1.col) ∷ p.open_brace_positions in
    let (t, q) = Body-Runs b (simple (symboltype begin_procedure)) nil p.stack places in
    let enter : Runs (first_round p)
        (within (simple (symboltype begin_procedure)) sc1 nil p.stack places) =
      next here (rw (e, parse_round)) refl in
    let made : Round = record {
      result = tokencontinue;
      token = litproceduretype xs;
      parser = record p { scanner = sc3 };
    } in
    let leave : Runs (first_round p) made =
      next (Runs-Runs enter q)
        (scan_round t sc2 sc3 (push_all nil xs) p.stack places (some (symboltype end_procedure)) f
          ∙ ap (λ z. some (record made { token = litproceduretype z })) (push_all-nil xs))
        refl in
    let final : Round = record made { result = tokencompleted } in
    parse-Runs p made final leave (ap (λ x. some (deliver made.token made.parser x)) n) refl
