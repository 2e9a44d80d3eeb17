-- ===== src/Dfa/Valued.antt =====
-- Where a node of a trie stands: at the word that leads to it, whose last rune is its value.

use metalife_pub.Prelude.{
  ℕ, List, [], ◌∷◌, ◌++◌, Option, none, some, ◌==◌, ◌≡◌, inl, inr, refl, ap, subst, ◌∙◌, arith,
  Bool-cases, Option-cases, string_eq, nat_eq, list_eq, pair_eq, bool_eq,
}
use metalife_pub.Dfa.{
  Node, Children, node, no_children, with_child, is_end, value, children, child, set_child, Trie,
  entered, insert_at, insert_word, find_node, add_bad_words,
}
use metalife_pub.Dfa.Words.{ends}

-- Each child has its own rune for its value.
abbrev pub HasValues : Children → Type 0
HasValues no_children = Unit
HasValues (with_child v (node e x c) cs) = (x ≡ v ∷ []) × HasValues c × HasValues cs

pub child-HasValues :
    (v : ℕ) (c : Children) (n : Node)
    → child v c ≡ some n
    → HasValues c
    → (value n ≡ v ∷ []) × HasValues (children n)
unfolding child
child-HasValues v no_children n h p = cc
child-HasValues v (with_child w (node e x c) cs) n h p = elim (Bool-cases (w == v)) [
  | inl same ↦
      let it : node e x c ≡ n = ground (arith, same) in
      subst (λ m. (value m ≡ v ∷ []) × HasValues (children m)) it
        (p.0 ∙ ap (λ u. u ∷ []) (ground arith), p.1)
  | inr other ↦ child-HasValues v cs n (ground (arith, other)) p.2
]

set_child-HasValues :
    (v : ℕ) (m : Node) (c : Children)
    → value m ≡ v ∷ []
    → HasValues (children m)
    → HasValues c
    → HasValues (set_child v m c)
unfolding set_child
set_child-HasValues v (node e x d) no_children a b p = (a, b, tt)
set_child-HasValues v (node e x d) (with_child w (node e' x' c) cs) a b p =
    elim (Bool-cases (w == v)) [
      | inl same ↦ rw same (a, b, p.2)
      | inr other ↦ rw other (p.0, p.1, set_child-HasValues v (node e x d) cs a b p.2)
    ]

entered-HasValues :
    (v : ℕ) (n : Node)
    → HasValues (children n)
    → HasValues (children (entered v (child v (children n))))
entered-HasValues v n p = elim (Option-cases (child v (children n))) [
  | inl missing ↦ rw missing tt
  | inr (m, found) ↦ rw found (child-HasValues v (children n) m found p).1
]

value-entered : (v : ℕ) (o : Option Node) → value (entered v o) ≡ v ∷ []
value-entered v none = refl
value-entered v (some m) = refl

value-insert_at : (key : List ℕ) (n : Node) → value (insert_at key n).0 ≡ value n
unfolding insert_at
value-insert_at [] n = refl
value-insert_at (v ∷ key) n = refl

insert_at-HasValues :
    (key : List ℕ) (n : Node) → HasValues (children n) → HasValues (children (insert_at key n).0)
unfolding insert_at
insert_at-HasValues [] n p = p
insert_at-HasValues (v ∷ key) n p =
    let m = entered v (child v (children n)) in
    set_child-HasValues v (insert_at key m).0 (children n)
      (value-insert_at key m ∙ value-entered v (child v (children n)))
      (insert_at-HasValues key m (entered-HasValues v n p)) p

pub add_bad_words-HasValues :
    (words : List (List ℕ)) (t : Trie)
    → HasValues (children t.root)
    → HasValues (children (add_bad_words words t).root)
unfolding add_bad_words insert_word
add_bad_words-HasValues [] t p = p
add_bad_words-HasValues (w ∷ words) t p =
    add_bad_words-HasValues words (insert_word w t) (insert_at-HasValues w t.root p)

pub find_node-append :
    (k : List ℕ) (v : ℕ) (r n m : Node)
    → find_node k r ≡ some n
    → child v (children n) ≡ some m
    → find_node (k ++ v ∷ []) r ≡ some m
unfolding find_node
find_node-append [] v r n m a b = ground (arith, a, b)
find_node-append (j ∷ k) v r n m a b = elim (Option-cases (child j (children r))) [
  | inl missing ↦ ground (arith, missing)
  | inr (q, found) ↦ ground (arith, found, find_node-append k v q n m (ground (arith, found)) b)
]

pub find_node-HasValues :
    (k : List ℕ) (r n : Node)
    → find_node k r ≡ some n
    → HasValues (children r)
    → HasValues (children n)
unfolding find_node
find_node-HasValues [] r n h p =
    let it : r ≡ n = ground arith in subst (λ m. HasValues (children m)) it p
find_node-HasValues (j ∷ k) r n h p = elim (Option-cases (child j (children r))) [
  | inl missing ↦ ground (arith, missing)
  | inr (q, found) ↦
      find_node-HasValues k q n (ground (arith, found)) (child-HasValues j (children r) q found p).1
]

pub find_node-ends : (k : List ℕ) (r n : Node) → find_node k r ≡ some n → ends k r ≡ is_end n
unfolding find_node ends
find_node-ends [] r n h = ground arith
find_node-ends (j ∷ k) r n h = elim (Option-cases (child j (children r))) [
  | inl missing ↦ ground (arith, missing)
  | inr (q, found) ↦ ground (arith, found, find_node-ends k q n (ground (arith, found)))
]
