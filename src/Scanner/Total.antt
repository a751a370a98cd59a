-- ===== src/Scanner/Total.antt =====
-- Every call of the scanner returns, and reads at least one character of what is left.
use sli.Prelude.{
  ℕ, ◌<◌, ◌≡◌, refl, ap, ◌∙◌, ◌⊎◌, inl, inr, false, Option, some, List, [], ◌∷◌, ◌++◌, arith,
  length, Bool-cases,
}
use sli.Scanner.States.{ScanStates, Codes}
use sli.Scanner.Charcode.{code}
use sli.Scanner.Trans.{trans}
use sli.Scanner.Lexeme.{Lexeme}
use sli.Scanner.Bytes.{back-advance}
use sli.Scanner.Scan.{
  Scanner, Scan, act, round, advance, running, endof, seen, begin, after, scan_loop, scan, unget,
  finish, push_ds, append, escaped,
}

-- With the end of the input the automaton stops, whatever its state.
act-stops :
    (s : ScanStates) (t : Scan)
    → running (act (trans s Codes.eof) endof (record t { state = trans s Codes.eof })).state ≡ false
unfolding act trans unget finish push_ds append escaped
act-stops ScanStates.start t = refl
act-stops _ t = ground arith

round-stops : (t : Scan) → running (round endof t).state ≡ false
unfolding round code
round-stops t = act-stops t.state (advance endof t)

back-act : (k : Codes) (c : ℕ) (t : Scan) → (act (trans ScanStates.start k) c t).back ≡ t.back
unfolding act trans unget finish push_ds append escaped
back-act Codes.invalid c t = refl
back-act _ c t = ground arith

back-act_at :
    (s : ScanStates) (k : Codes) (c : ℕ) (t : Scan)
    → s ≡ ScanStates.start
    → (act (trans s k) c t).back ≡ t.back
back-act_at s k c t h = rw h (back-act k c t)

-- The first character of a token is never put back.
back-round :
    (c : ℕ) (t : Scan) → t.state ≡ ScanStates.start → t.back ≡ false → (round c t).back ≡ false
unfolding round
back-round c t h b =
    back-act_at t.state (code c) c (record (advance c t) { state = trans t.state (code c) }) h
    ∙ back-advance c t
    ∙ b

-- What a loop leaves of its input is a suffix, and a proper one where it began a token.
pub record Leaves (t : Scan) (input : List ℕ) (r : Scan × List ℕ) : Type 0 where
  pub consumed : List ℕ
  pub is_suffix : input ≡ consumed ++ r.1
  pub is_proper : t.state ≡ ScanStates.start → t.back ≡ false → (input ≡ []) ⊎ (0 < length consumed)

pub scan_loop_total :
    (t : Scan) (input : List ℕ)
    → (r : Scan × List ℕ) × (scan_loop t input ≡ some r) × Leaves t input r
unfolding scan_loop
scan_loop_total t [] = (
  (round endof t, []),
  rw (round-stops t),
  record { consumed = []; is_suffix = refl; is_proper = λ _ _. inl refl },
)
scan_loop_total t (c ∷ cs) = elim (Bool-cases (running (round (seen c) t).state)) [
  | inl more ↦
      let (r, e, l) = scan_loop_total (round (seen c) t) cs in
      (
        r,
        rw more e,
        record {
          consumed = c ∷ l.consumed;
          is_suffix = ap (λ x. c ∷ x) l.is_suffix;
          is_proper = λ _ _. inr (omega arith);
        },
      )
  | inr stop ↦ elim (Bool-cases (round (seen c) t).back) [
    | inl put_back ↦ (
      (round (seen c) t, c ∷ cs),
      rw (stop, put_back),
      record {
        consumed = [];
        is_suffix = refl;
        is_proper = λ s b. cc (put_back, back-round (seen c) t s b);
      },
    )
    | inr kept ↦ (
      (round (seen c) t, cs),
      rw (stop, kept),
      record { consumed = c ∷ []; is_suffix = refl; is_proper = λ s b. inr (omega arith) },
    )
  ]
]

-- A call of the scanner returns, for every input and whatever digits an earlier call has left; the
-- input that it leaves is a suffix of the one it found, and is shorter unless that was empty.
pub scan_total :
    (sc : Scanner)
    → (token : Option Lexeme) × (sc' : Scanner) × (consumed : List ℕ) × (scan sc
        ≡ some (token, sc'))
      × (sc.input ≡ consumed ++ sc'.input)
      × ((sc.input ≡ []) ⊎ (0 < length consumed))
unfolding scan
scan_total sc =
    let (r, e, l) = scan_loop_total (begin sc) sc.input in
    (r.0.token, after r, l.consumed, rw (e, scan), l.is_suffix, l.is_proper refl refl)
