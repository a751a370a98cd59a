-- ===== src/Trie/Insert.antt =====
-- Insertion into a trie, against the map from signatures to functions.
use sli.Prelude.{
  ℕ, ◌+◌, ◌≡◌, ◌≢◌, ◌⊎◌, inl, inr, refl, sym, ◌∙◌, false, none, some, List, [], ◌∷◌, ◌++◌, ◌==◌,
  arith,
}
use sli.Stack.Token.{Token}
use sli.Names.Table.{same_text}
use sli.Trie.TypeNode.{
  TypeNode, null, node, nulltype_tag, Insertion, inserted, ambiguous, made, bind_function,
  insert_level, insert_from, insert_function,
}
use sli.Trie.Stored.{stored, IsLevel, IsTrie}
use sli.Trie.Laws.{
  IsSub, level_parts, stored-null, stored-new, leaf_parts, stored-leaf, level-stores,
}
use sli.Trie.Keeps.{with_function, Keeps, IsFree, Keeps-same, IsSignature}
use sli.Trie.Alternatives.{Keeps-alternative, Keeps-first}

stored-bound :
    (f : Token) (q : List ℕ)
    → stored q (node nulltype_tag (some f) null null)
      ≡ with_function [] f (node nulltype_tag none null null) q
unfolding stored same_text
stored-bound f [] = refl
stored-bound f (b ∷ q) = refl

bind_function-Keeps :
    (f : Token) (l : ℕ) (t : TypeNode)
    → IsTrie t
    → IsFree [] t
    → Keeps IsSub [] f t (bind_function f l t)
unfolding bind_function
bind_function-Keeps f l t (inl (inl h)) free =
    let (g, e) = leaf_parts t h in rw e ([], [], g, refl, stored-leaf g)
bind_function-Keeps f l t (inl (inr h)) free =
    let (x, u, g, e) = level-stores t h in absurd (let w = free x u in cc (e, w))
bind_function-Keeps f l t (inr h) free = rw h (inl (refl, refl, refl), stored-bound f)

Keeps-weak :
    (s : List ℕ) (f : Token) (t : TypeNode) (r : Insertion)
    → Keeps IsLevel s f t r
    → Keeps IsSub s f t r
Keeps-weak s f t (inserted n) (l, e) = (inr l, e)
Keeps-weak s f t (ambiguous m) k = k

insert_level-Keeps :
    (a : ℕ) (s : List ℕ) (f : Token) (below : TypeNode → Insertion) (l : ℕ) (t : TypeNode)
    → ((n : TypeNode) → IsSub n ⊎ (n ≡ null) → IsFree s n → Keeps IsSub s f n (below n))
    → a ≢ nulltype_tag
    → IsTrie t
    → IsFree (a ∷ s) t
    → Keeps IsSub (a ∷ s) f t (insert_level a below l t)
unfolding insert_level
insert_level-Keeps a s f below l t keeps ha (inl (inl h)) free =
    let (g, e) = leaf_parts t h in rw e ([], a ∷ s, g, refl, stored-leaf g)
insert_level-Keeps a s f below l null keeps ha (inl (inr h)) free = absurd h
insert_level-Keeps a s f below l (node t o alt n) keeps ha (inl (inr h)) free =
    let (_, ht, _, _) = level_parts t o alt n h in
    let e : (t == nulltype_tag) ≡ false = ground (arith, ht) in
    rw e (
      Keeps-weak (a ∷ s) f (node t o alt n) _
        (Keeps-alternative s f below keeps a ha (node t o alt n) h free))
insert_level-Keeps a s f below l t keeps ha (inr h) free = rw h (
    Keeps-weak (a ∷ s) f (node nulltype_tag none null null) _ (
      Keeps-same IsLevel (a ∷ s) f null _ _ (λ q. stored-null q ∙ sym (stored-new nulltype_tag q))
        (Keeps-first s f below keeps a ha)))

Keeps-made :
    (s : List ℕ) (f : Token) (insert : TypeNode → Insertion)
    → ((t : TypeNode) → IsTrie t → IsFree s t → Keeps IsSub s f t (insert t))
    → (n : TypeNode) → IsSub n ⊎ (n ≡ null)
    → IsFree s n
    → Keeps IsSub s f n (insert (made n))
unfolding made
Keeps-made s f insert k null h free =
    Keeps-same IsSub s f (node nulltype_tag none null null) null _
      (λ q. stored-new nulltype_tag q ∙ sym (stored-null q))
      (k (node nulltype_tag none null null) (inr refl)
        (λ x u. stored-new nulltype_tag (s ++ x ∷ u)))
Keeps-made s f insert k (node t o a n) (inl h) free = k (node t o a n) (inl h) free
Keeps-made s f insert k (node t o a n) (inr h) free = absurd (cc h)

pub insert_from-Keeps :
    (s : List ℕ) (f : Token) (l : ℕ) (t : TypeNode)
    → IsSignature s
    → IsTrie t
    → IsFree s t
    → Keeps IsSub s f t (insert_from s f l t)
unfolding insert_from
insert_from-Keeps [] f l t h trie free = bind_function-Keeps f l t trie free
insert_from-Keeps (a ∷ s) f l t (ha, h) trie free =
    insert_level-Keeps a s f _ l t
      (Keeps-made s f (insert_from s f (l + 1)) (λ n. insert_from-Keeps s f (l + 1) n h)) ha trie
      free

-- An insertion for a signature without the tag of no type, where no longer signature that begins with
-- it is stored, either returns a trie that stores exactly one function more and what it stored before,
-- and whose levels keep their form with the wildcard last, or throws `ArgumentType`; then a signature
-- that the new one begins with, or that equals it, has a function already.
pub insert_function-Keeps :
    (s : List ℕ) (f : Token) (t : TypeNode)
    → IsSignature s
    → IsTrie t
    → IsFree s t
    → Keeps IsSub s f t (insert_function s f t)
unfolding insert_function
insert_function-Keeps s f t h trie free = insert_from-Keeps s f 0 t h trie free
