-- ===== src/Dfa/Words.antt =====
-- Which words stand in a trie.

use metalife_pub.Prelude.{
  ℕ, suc, List, [], ◌∷◌, Option, none, some, Bool, false, not, ◌==◌, ◌||◌, if◌then◌else◌, ◌≡◌, refl,
  sym, ap, ◌∙◌, arith, eqb, string_eq, nat_eq, list_eq, pair_eq, bool_eq,
}
use metalife_pub.Dfa.{
  Node, Children, no_children, with_child, is_end, children, new_node, child, set_child, Trie,
  new_trie, entered, insert_at, insert_word, add_bad_words,
}

-- Whether a word ends below a node.
unfoldable pub ends : List ℕ → Node → Bool
ends [] n = is_end n
ends (v ∷ key) n = elim (child v (children n)) [ none ↦ false | some m ↦ ends key m ]

pub child-set_child :
    (v w : ℕ) (m : Node) (c : Children)
    → child w (set_child v m c) ≡ (if v == w then some m else child w c)
unfolding child set_child
child-set_child v w m no_children = refl
child-set_child v w m (with_child u n c) = ground (arith, child-set_child v w m c)

ends-new : (key : List ℕ) (v : List ℕ) → ends key (new_node v) ≡ false
unfolding ends child
ends-new [] v = refl
ends-new (k ∷ key) v = refl

ends-cons :
    (v : ℕ) (key : List ℕ) (n : Node)
    → ends (v ∷ key) n ≡ elim (child v (children n)) [ none ↦ false | some m ↦ ends key m ]
unfolding ends
ends-cons v key n = refl

entered-none :
    (v : ℕ) (n : Node)
    → child v (children n) ≡ none
    → entered v (child v (children n)) ≡ new_node (v ∷ [])
entered-none v n missing = rw missing

ends-any :
    (key : List ℕ) (v : ℕ) (o : Option Node)
    → ends key (entered v o) ≡ elim o [ none ↦ false | some m ↦ ends key m ]
unfolding ends
ends-any key v none = ends-new key (v ∷ [])
ends-any [] v (some m) = refl
ends-any (k ∷ key) v (some m) = refl

ends-entered :
    (key : List ℕ) (v : ℕ) (n : Node)
    → ends key (entered v (child v (children n))) ≡ ends (v ∷ key) n
ends-entered key v n = ends-any key v (child v (children n)) ∙ sym (ends-cons v key n)

insert_at_new : (key : List ℕ) (n : Node) → (insert_at key n).1 ≡ not (ends key n)
unfolding insert_at ends
insert_at_new [] n = refl
insert_at_new (v ∷ key) n =
    insert_at_new key (entered v (child v (children n))) ∙ ap not (ends-entered key v n)

ends-insert_at : (key k : List ℕ) (n : Node) → ends k (insert_at key n).0 ≡ (eqb key k || ends k n)
unfolding insert_at ends
ends-insert_at [] [] n = refl
ends-insert_at [] (j ∷ k) n = refl
ends-insert_at (v ∷ key) [] n = refl
ends-insert_at (v ∷ key) (j ∷ k) n =
    let below = insert_at key (entered v (child v (children n))) in
    ground (
      arith,
      child-set_child v j below.0 (children n),
      ends-insert_at key k (entered v (child v (children n))),
      ends-entered k v n,
    )

-- `Insert` adds the word to the words of the trie and keeps the others, and its size grows by one if
-- the word is new.
pub insert_word_lem :
    (key k : List ℕ) (t : Trie)
    → (ends k (insert_word key t).root ≡ (eqb key k || ends k t.root))
      × ((insert_word key t).size ≡ (if ends key t.root then t.size else suc t.size))
unfolding insert_word
insert_word_lem key k t = (ends-insert_at key k t.root, ground (arith, insert_at_new key t.root))

-- Whether a word is in a list.
unfoldable pub is_among : List ℕ → List (List ℕ) → Bool
is_among k [] = false
is_among k (w ∷ words) = eqb w k || is_among k words

-- After `AddBadWords` the words of the trie are its old ones and the given ones.
pub add_bad_words_lem :
    (words : List (List ℕ)) (k : List ℕ) (t : Trie)
    → ends k (add_bad_words words t).root ≡ (is_among k words || ends k t.root)
unfolding add_bad_words is_among
add_bad_words_lem [] k t = refl
add_bad_words_lem (w ∷ words) k t =
    ground (arith, add_bad_words_lem words k (insert_word w t), (insert_word_lem w k t).0)

pub ends-new_trie : (k : List ℕ) → ends k new_trie.root ≡ false
ends-new_trie k = ends-new k []
