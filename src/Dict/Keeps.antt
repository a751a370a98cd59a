-- ===== src/Dict/Keeps.antt =====
-- The operations that change the dictionary stack keep its caches coherent.
use sli.Prelude.{
  ℕ, ◌≡◌, refl, ap, ◌∙◌, sym, Option, none, some, List, [], ◌∷◌, arith, ◌==◌, ltb, Bool-cases, inl,
  inr,
}
use sli.Dict.Map.{known, insert}
use sli.Dict.Cache.{clear_token, entry-cache_token, entry-clear_token, entry-clear_all}
use sli.Dict.Stack.{DictionaryStack, update, search}
use sli.Dict.Change.{
  store, def, define_in, undef, undefine_in, basedef, define_base, push, pop, remove_top, clear,
  put,
}
use sli.Dict.Search.{
  count, search-agree, search-store, search-erase, known-store, known-top, known-erase_ne,
  search-skip, entry-clear_names,
}
use sli.Dict.Coherent.{Coherent, Ensures, store-Coherent, store-known-Coherent, store_top-Coherent}

module _ {ℓ} {A : Type ℓ} (s : DictionaryStack A) (h : Coherent s) where
  define_in-Coherent : (n : ℕ) (t : A) (d : List ℕ) → s.d ≡ d → Ensures Coherent (define_in n t s d)
  unfolding define_in
  define_in-Coherent n t [] e = tt
  define_in-Coherent n t (i ∷ d) e =
      store-known-Coherent _ (store_top-Coherent s h i n t d e) i n t
        (unfold store in known-top n i t s.entries)

  pub def-Coherent : (n : ℕ) (t : A) → Ensures Coherent (def n t s)
  unfolding def
  def-Coherent n t = define_in-Coherent n t s.d refl

  -- The state with a name cleared from both caches.
  abbrev cleared : ℕ → DictionaryStack A
  cleared n = record s { cache = clear_token n s.cache; basecache = clear_token n s.basecache }

  cleared-Coherent : (n : ℕ) → Coherent (cleared n)
  cleared-Coherent n = record {
    cached = λ m p x. h.cached m p (entry-clear_token n s.cache m p x).1;
    based = λ m p x. h.based m p (entry-clear_token n s.basecache m p x).1;
    counted = h.counted;
    snapped = h.snapped;
  }

  undefine_in-Coherent : (n : ℕ) (d : List ℕ) → Ensures Coherent (undefine_in n s d)
  unfolding undefine_in
  undefine_in-Coherent n [] = tt
  undefine_in-Coherent n (i ∷ d) = elim (Bool-cases (known n (s.entries i))) [
    | inl k ↦ rw k (record {
      cached = λ m p x.
          let (y, z) = entry-clear_token n s.cache m p x in
          search-erase n m i s.entries s.d y ∙ h.cached m p z;
      based = λ m p x.
          let (y, z) = entry-clear_token n s.basecache m p x in
          let (b, w, k) = h.based m p z in (b, w, known-erase_ne n m i p.dict s.entries y k);
      counted = h.counted;
      snapped = h.snapped;
    })
    | inr k ↦ rw k tt
  ]

  pub undef-Coherent : (n : ℕ) → Ensures Coherent (undef n s)
  unfolding undef
  undef-Coherent n = undefine_in-Coherent n s.d

  define_base-Coherent :
      (n : ℕ) (t : A) (o : Option ℕ) → s.base ≡ o → Ensures Coherent (define_base n t s o)
  unfolding define_base store
  define_base-Coherent n t none e = tt
  define_base-Coherent n t (some b) e = record {
    cached = λ m p x.
        let (y, z) = entry-clear_token n s.cache m p x in
        search-store n m b t s.entries s.d y ∙ h.cached m p z;
    based = λ m p x.
        elim (entry-cache_token s.num_handles n (record { dict = b; name = n }) s.basecache m p x) [
          | inl (y, z) ↦ rw (← z, ← y) (e, refl, known-top n b t s.entries)
          | inr (y, z) ↦
              let (c, w, k) = h.based m p z in (c, w, known-store n m b p.dict t s.entries k)
        ];
    counted = h.counted;
    snapped = h.snapped;
  }

  pub basedef-Coherent : (n : ℕ) (t : A) → Ensures Coherent (basedef n t s)
  unfolding basedef
  basedef-Coherent n t = define_base-Coherent n t s.base refl

  -- A dictionary that is not on the stack can change as it will.
  off_stack :
      (i n m : ℕ) (t : A)
      → count i s.d ≡ 0
      → search m (update s.entries i (insert n t (s.entries i))) s.d ≡ search m s.entries s.d
  off_stack i n m t z =
      search-agree m (update s.entries i (insert n t (s.entries i))) s.entries s.d (λ j on.
        elim (Bool-cases (i == j)) [
          | inl q ↦
              absurd
                (let r : i ≡ j = ground (arith, q) in omega (arith, ap (λ x. count x s.d) r, on, z))
          | inr q ↦ rw q
        ])

  pub put-Coherent : (i n : ℕ) (t : A) → Coherent (put i n t s)
  unfolding put
  put-Coherent i n t = elim (Bool-cases (ltb 0 (s.dictstack_refs i))) [
    | inl on ↦ rw on (
        store-Coherent (cleared n) (cleared-Coherent n) i n t
          (λ q x. (entry-clear_token n s.cache n q x).0 refl))
    | inr off ↦
        let z : count i s.d ≡ 0 = ground (arith, off, h.counted i) in
        rw off (
          unfold store in
          record {
            cached = λ m p x. off_stack i n m t z ∙ h.cached m p x;
            based = λ m p x.
                let (b, y, k) = h.based m p x in (b, y, known-store n m i p.dict t s.entries k);
            counted = h.counted;
            snapped = h.snapped;
          })
  ]

  pub push-Coherent : (i : ℕ) → Coherent (push i s)
  unfolding push
  push-Coherent i = record {
    cached = λ m p x.
        let (k, y) = entry-clear_names (s.entries i) s.cache m p x in
        unfold search in rw k (h.cached m p y);
    based = h.based;
    counted = λ j. unfold count in ground (arith, h.counted j, ap s.dictstack_refs {x = i} {y = j});
    snapped = λ a x. cc;
  }

  remove_top-Coherent : (d : List ℕ) → s.d ≡ d → Ensures Coherent (remove_top s d)
  unfolding remove_top
  remove_top-Coherent [] e = tt
  remove_top-Coherent (i ∷ d) e = record {
    cached = λ m p x.
        let (k, y) = entry-clear_names (s.entries i) s.cache m p x in
        let z = h.cached m p y in
        sym (search-skip m i s.entries d k) ∙ ap (search m s.entries) (sym e) ∙ z;
    based = h.based;
    counted = λ j.
        unfold count in
        ground (arith, ap (count j) e, h.counted j, ap s.dictstack_refs {x = i} {y = j});
    snapped = λ a x. cc;
  }

  pub pop-Coherent : Ensures Coherent (pop s)
  unfolding pop
  pop-Coherent = remove_top-Coherent s.d refl

  pub clear-Coherent : Coherent (clear s)
  unfolding clear
  clear-Coherent = record {
    cached = λ m p x. cc (x, entry-clear_all s.cache m);
    based = λ m p x. cc (x, entry-clear_all s.basecache m);
    counted = λ j. unfold count in omega arith;
    snapped = λ a x. cc;
  }
