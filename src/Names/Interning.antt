-- ===== src/Names/Interning.antt =====
-- Names stand for strings: the round trip, and what stays when a name is made.
use native.Mathlib.Nat.{mod-eq_of_lt}
use mathlib.Core.Path.{subst}
use sli.Prelude.{
  ℕ, ◌+◌, ◌^◌, ◌≤◌, ◌<◌, ◌≡◌, ◌↔◌, refl, ap, sym, ◌∙◌, true, Option, none, some, List, [], ◌∷◌,
  ◌++◌, arith, ◌==◌, length, length-append, get_elem?, get_elem?-some, get_elem?-append_left,
  get_elem?-append_right, Bool-cases, inl, inr,
}
use sli.Names.Table.{same_text, Names, initial, find_handle, insert_new, insert_name}

-- The tables agree: a string that has a handle stands at it, and a string that stands at a handle
-- other than 0 has that handle.
pub record Agree (n : Names) : Type 0 where
  pub stands :
      (s : List ℕ) (h : ℕ)
      → find_handle s n.handle_map ≡ some h
      → get_elem? n.handle_table h ≡ some s
  pub handled :
      (s : List ℕ) (h : ℕ)
      → 0 < h
      → get_elem? n.handle_table h ≡ some s
      → find_handle s n.handle_map ≡ some h
  pub begun : 0 < length n.handle_table

same_text_self : (s : List ℕ) → same_text s s ≡ true
unfolding same_text
same_text_self [] = refl
same_text_self (c ∷ s) = ground (arith, same_text_self s)

same_text-eq : (s t : List ℕ) → same_text s t ≡ true → s ≡ t
unfolding same_text
same_text-eq [] [] h = refl
same_text-eq [] (d ∷ t) h = cc
same_text-eq (c ∷ s) [] h = cc
same_text-eq (c ∷ s) (d ∷ t) h =
    let p : (c == d) ≡ true = ground arith in
    let q : same_text s t ≡ true = ground arith in
    let r : c ≡ d = ground (arith, p) in cc (r, same_text-eq s t q)

get_elem?-append_last :
    (xs : List (List ℕ)) (s : List ℕ) → get_elem? (xs ++ s ∷ []) (length xs) ≡ some s
get_elem?-append_last xs s =
    ap (get_elem? (xs ++ s ∷ [])) {x = length xs} {y = length xs + 0} (omega arith)
    ∙ get_elem?-append_right xs (s ∷ []) 0

pub initial-Agree : Agree initial
initial-Agree = record {
  stands = λ s h e. unfold find_handle in cc e;
  handled = λ s h p e. absurd (omega (arith, p, get_elem?-some initial.handle_table h s e));
  begun = omega arith;
}

-- What a call of `insert` promises.
pub record Interned (s : List ℕ) (n : Names) (r : ℕ × Names) : Type 0 where
  pub agree : Agree r.1
  pub found : find_handle s r.1.handle_map ≡ some r.0
  pub reads : get_elem? r.1.handle_table r.0 ≡ some s
  pub kept :
      (h : ℕ)
      → h < length n.handle_table
      → get_elem? r.1.handle_table h ≡ get_elem? n.handle_table h

abbrev added : List ℕ → Names → ℕ → Names
added s n h = record { handle_map = (s, h) ∷ n.handle_map; handle_table = n.handle_table ++ s ∷ [] }

module _ (s : List ℕ) (n : Names) (a : Agree n) (e : find_handle s n.handle_map ≡ none) where
  stands-added :
      (t : List ℕ) (h : ℕ)
      → find_handle t ((s, length n.handle_table) ∷ n.handle_map) ≡ some h
      → get_elem? (n.handle_table ++ s ∷ []) h ≡ some t
  unfolding find_handle
  stands-added t h p = elim (Bool-cases (same_text s t)) [
    | inl q ↦
        let r : some (length n.handle_table) ≡ some h = rw q at p in
        ap (get_elem? (n.handle_table ++ s ∷ [])) {x = h} {y = length n.handle_table} (cc r)
        ∙ get_elem?-append_last n.handle_table s
        ∙ ap some (same_text-eq s t q)
    | inr q ↦
        let r = a.stands t h (rw q at p) in
        get_elem?-append_left n.handle_table (s ∷ []) h (get_elem?-some n.handle_table h t r) ∙ r
  ]

  handled-added :
      (t : List ℕ) (h : ℕ)
      → 0 < h
      → get_elem? (n.handle_table ++ s ∷ []) h ≡ some t
      → find_handle t ((s, length n.handle_table) ∷ n.handle_map) ≡ some h
  unfolding find_handle
  handled-added t h z p = elim (Bool-cases (h == length n.handle_table)) [
    | inl q ↦
        let r : h ≡ length n.handle_table = ground (arith, q) in
        let u : s ≡ t = cc (
          p,
          get_elem?-append_last n.handle_table s,
          ap (get_elem? (n.handle_table ++ s ∷ [])) r,
        ) in
        let v : same_text s t ≡ true = ap (same_text s) (sym u) ∙ same_text_self s in
        rw v (ap some (sym r))
    | inr q ↦
        let lt : h < length n.handle_table = ground (
          arith,
          q,
          get_elem?-some (n.handle_table ++ s ∷ []) h t p,
          length-append n.handle_table (s ∷ []),
        ) in
        let old = a.handled t h z (sym (get_elem?-append_left n.handle_table (s ∷ []) h lt) ∙ p) in
        elim (Bool-cases (same_text s t)) [
          | inl v ↦ cc (ap (λ x. find_handle x n.handle_map) (same_text-eq s t v), e, old)
          | inr v ↦ rw v old
        ]
  ]

  added-Interned : Interned s n (length n.handle_table, added s n (length n.handle_table))
  added-Interned = record {
    agree = record {
      stands = stands-added;
      handled = handled-added;
      begun = omega (arith, length-append n.handle_table (s ∷ []));
    };
    found = unfold find_handle in rw (same_text_self s);
    reads = get_elem?-append_last n.handle_table s;
    kept = λ h p. get_elem?-append_left n.handle_table (s ∷ []) h p;
  }

insert_new-Interned :
    (s : List ℕ) (n : Names) (o : Option ℕ)
    → Agree n
    → length n.handle_table < 2 ^ 32
    → find_handle s n.handle_map ≡ o
    → Interned s n (insert_new s n o)
unfolding insert_new
insert_new-Interned s n (some h) a l e = record {
  agree = a;
  found = e;
  reads = a.stands s h e;
  kept = λ h' p. refl;
}
insert_new-Interned s n none a l e =
    subst (λ h. Interned s n (h, added s n h)) (sym (mod-eq_of_lt l)) (added-Interned s n a e)

-- While the tables agree and have less than 2 ^ 32 entries, a string is interned: the tables agree
-- afterwards, the string is found at its handle and stands there, and every earlier handle stands for
-- what it did.
pub insert_name-Interned :
    (s : List ℕ) (n : Names)
    → Agree n
    → length n.handle_table < 2 ^ 32
    → Interned s n (insert_name s n)
unfolding insert_name
insert_name-Interned s n a l = insert_new-Interned s n (find_handle s n.handle_map) a l refl

length-insert_name :
    (s : List ℕ) (n : Names) → length (insert_name s n).1.handle_table ≤ length n.handle_table + 1
unfolding insert_name
length-insert_name s n = go (find_handle s n.handle_map)
  where
    go : (o : Option ℕ) → length (insert_new s n o).1.handle_table ≤ length n.handle_table + 1
    go (some h) = unfold insert_new in omega arith
    go none = unfold insert_new in omega (arith, length-append n.handle_table (s ∷ []))

-- A string that has a handle keeps it, and nothing changes.
insert_name-known :
    (s : List ℕ) (n : Names) (h : ℕ)
    → find_handle s n.handle_map ≡ some h
    → insert_name s n ≡ (h, n)
unfolding insert_name insert_new
insert_name-known s n h e = ap (insert_new s n) e

-- Two names that are made one after the other, from tables that agree and have room for them, are
-- equal just where their strings are.
pub insert_name-equal :
    (s t : List ℕ) (n : Names)
    → Agree n
    → length n.handle_table + 1 < 2 ^ 32
    → ((insert_name s n).0 ≡ (insert_name t (insert_name s n).1).0) ↔ (s ≡ t)
insert_name-equal s t n a l =
    let p = insert_name-Interned s n a (omega (arith, l)) in
    let q =
      insert_name-Interned t (insert_name s n).1 p.agree
        (omega (arith, l, length-insert_name s n)) in
    let lt = get_elem?-some (insert_name s n).1.handle_table (insert_name s n).0 s p.reads in
    (
      (λ e. cc (
        ap (get_elem? (insert_name t (insert_name s n).1).1.handle_table) e,
        q.kept (insert_name s n).0 lt,
        p.reads,
        q.reads,
      )),
      (λ e.
          sym (ap (λ x. x.0) (insert_name-known s (insert_name s n).1 (insert_name s n).0 p.found))
          ∙ ap (λ x. (insert_name x (insert_name s n).1).0) e),
    )
