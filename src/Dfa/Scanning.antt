-- ===== src/Dfa/Scanning.antt =====
-- What the scan of a text reports.

use metalife_pub.Prelude.{
  ℕ, suc, ◌+◌, ◌-◌, ◌≤◌, List, [], ◌∷◌, ◌++◌, Memᴰ, Option, none, some, Bool, true, ltb, ◌≡◌, inl,
  inr, refl, sym, ◌∙◌, arith, Bool-cases, Option-cases, eqb, eqb_iff, string_eq, nat_eq, list_eq,
  take, drop, All, All-map, pair_eq, bool_eq, is_some, length,
}
use metalife_pub.Prelude.Int.{pos, negsuc, ◌+ℤ◌}
use metalife_pub.GoMap.{lookup}
use metalife_pub.Dfa.{
  Node, Children, is_end, value, children, child, new_trie, find_node, Dfa, add_bad_words, Scan,
  slice, replaced, hit, go_on, first_rune, next_rune, check_rune, check_from, no_scan, check,
}
use metalife_pub.Dfa.Words.{ends, is_among, add_bad_words_lem, ends-new_trie}
use metalife_pub.Dfa.Valued.{
  HasValues, child-HasValues, find_node-append, find_node-HasValues, find_node-ends,
  add_bad_words-HasValues,
}

-- The scan is outside of a word, or at the node that the runes in `tmp` lead to.
pub record IsScan (r : Node) (i : ℕ) (s : Scan) : Type 0 where
  pub outside : s.node_map ≡ none → s.tag ≡ negsuc 0
  pub inside :
      (m : Children)
      → s.node_map ≡ some m
      → (a : ℕ) × (n : Node) × (s.start ≡ some a)
        × (a ≤ i)
        × (find_node s.tmp r ≡ some n)
        × (children n ≡ m)
  pub bad : All (λ w. ends w r ≡ true) s.target

All-snoc {ℓ κ} :
    {A : Type ℓ} (P : A → Type κ) (xs : List A) (x : A) → All P xs → P x → All P (xs ++ x ∷ [])
All-snoc P [] x h p = (p, tt)
All-snoc P (y ∷ xs) x h p = (h.0, All-snoc P xs x h.1 p)

module _ (replace_once : List ℕ → List ℕ → List ℕ → List ℕ) (f : Dfa) (str : List ℕ)
    (replace : Bool) where
  -- A round that does not panic and keeps the invariant.
  abbrev KeepsOn : ℕ → Option Scan → Type 0
  KeepsOn i o = (s : Scan) × (o ≡ some s) × IsScan f.trie.root (suc i) s

  go_on-IsScan :
      (i a : ℕ) (n : Node) (s : Scan)
      → s.start ≡ some a
      → a ≤ i
      → suc i ≤ length str
      → find_node s.tmp f.trie.root ≡ some n
      → All (λ w. ends w f.trie.root ≡ true) s.target
      → KeepsOn i (go_on replace_once f str replace i n s)
  unfolding go_on hit slice
  go_on-IsScan i a n s st le inb at bad = elim (Bool-cases (is_end n)) [
    | inr more ↦ (
      record s { node_map = some (children n) },
      ground (arith, more),
      record { outside = λ h. cc; inside = λ m h. (a, n, st, omega arith, at, cc); bad = bad },
    )
    | inl last ↦
        let w = take (suc i - a) (drop a str) in
        (
          record s {
            target = s.target ++ s.tmp ∷ [];
            tmp = [];
            found = s.found ++ w ∷ [];
            result = replaced replace_once f str replace w s.result;
            tag = negsuc 0;
            start = none;
            node_map = none;
          },
          ground (arith, last, st),
          record {
            outside = λ h. refl;
            inside = λ m h. cc;
            bad =
                All-snoc (λ w. ends w f.trie.root ≡ true) s.target s.tmp bad
                  (find_node-ends s.tmp f.trie.root n at ∙ last);
          },
        )
  ]

  later : (i : ℕ) (s : Scan) → IsScan f.trie.root i s → IsScan f.trie.root (suc i) s
  later i s v = record {
    outside = v.outside;
    inside = λ m h. let (a, n, st, le, at, c) = v.inside m h in (a, n, st, omega arith, at, c);
    bad = v.bad;
  }

  first_rune-IsScan :
      (i val : ℕ) (s : Scan)
      → suc i ≤ length str
      → HasValues (children f.trie.root)
      → s.node_map ≡ none
      → IsScan f.trie.root i s
      → KeepsOn i (first_rune replace_once f str replace i val s)
  unfolding first_rune find_node ◌+ℤ◌
  first_rune-IsScan i val s inb p at_none v =
      elim (Option-cases (child val (children f.trie.root))) [
        | inl missing ↦ (
          record s { node_map = none; start = none; tag = negsuc 0 },
          ground (arith, missing),
          record { outside = λ h. refl; inside = λ m h. cc; bad = v.bad },
        )
        | inr (n, found) ↦
            let s' : Scan = record s { tag = pos 0; start = some i; tmp = value n } in
            let same : first_rune replace_once f str replace i val s
                ≡ go_on replace_once f str replace i n s' =
              ground (arith, found, v.outside at_none) in
            let own : value n ≡ val ∷ [] =
              (child-HasValues val (children f.trie.root) n found p).0 in
            rw same
              (go_on-IsScan i i n s' refl (omega arith) inb (rw own (ground (arith, found))) v.bad)
      ]

  next_rune-IsScan :
      (i val : ℕ) (m : Children) (s : Scan)
      → suc i ≤ length str
      → HasValues (children f.trie.root)
      → s.node_map ≡ some m
      → IsScan f.trie.root i s
      → KeepsOn i (next_rune replace_once f str replace i val m s)
  unfolding next_rune
  next_rune-IsScan i val m s inb p at_some v = elim (Option-cases (child val m)) [
    | inl missing ↦ (s, ground (arith, missing), later i s v)
    | inr (n, found) ↦
        let (a, q, st, le, at, c) = v.inside m at_some in
        let s' : Scan = record s { tmp = s.tmp ++ value n } in
        let same : next_rune replace_once f str replace i val m s
            ≡ go_on replace_once f str replace i n s' =
          ground (arith, found) in
        let there : child val (children q) ≡ some n = rw c found in
        let own : value n ≡ val ∷ [] =
          (child-HasValues val (children q) n there
            (find_node-HasValues s.tmp f.trie.root q at p)).0 in
        rw same (
          go_on-IsScan i a n s' st le inb
            (rw own (find_node-append s.tmp val f.trie.root q n at there)) v.bad)
  ]

  check_rune-IsScan :
      (i val : ℕ) (s : Scan)
      → suc i ≤ length str
      → HasValues (children f.trie.root)
      → IsScan f.trie.root i s
      → KeepsOn i (check_rune replace_once f str replace i val s)
  unfolding check_rune
  check_rune-IsScan i val s inb p v = elim (Bool-cases (is_some (lookup val f.invalid_words))) [
    | inl ignored ↦ (s, ground (arith, ignored), later i s v)
    | inr read ↦ elim (Option-cases s.node_map) [
      | inl out ↦ rw (read, out, check_rune) (first_rune-IsScan i val s inb p out v)
      | inr (m, within) ↦ rw (read, within, check_rune) (next_rune-IsScan i val m s inb p within v)
    ]
  ]

  check_from-IsScan :
      (i : ℕ) (rest : List ℕ) (s : Scan)
      → i + length rest ≤ length str
      → HasValues (children f.trie.root)
      → IsScan f.trie.root i s
      → (s' : Scan) × (check_from replace_once f str replace i rest s ≡ some s')
        × All (λ w. ends w f.trie.root ≡ true) s'.target
  unfolding check_from
  check_from-IsScan i [] s inb p v = (s, refl, v.bad)
  check_from-IsScan i (val ∷ rest) s inb p v =
      let (s1, done, v1) = check_rune-IsScan i val s (omega arith) p v in
      let (s2, done2, bad) = check_from-IsScan (suc i) rest s1 (omega arith) p v1 in
      (s2, ground (arith, done, done2), bad)

is_among_mem : (k : List ℕ) (words : List (List ℕ)) → is_among k words ≡ true → Memᴰ k words
unfolding is_among
is_among_mem k [] h = cc
is_among_mem k (w ∷ words) h = elim (Bool-cases (eqb w k)) [
  | inl same ↦ Memᴰ.head (sym ((eqb_iff w k).0 same))
  | inr other ↦ Memᴰ.tail (is_among_mem k words (ground (arith, other)))
]

-- For a filter whose trie `AddBadWords` filled from the empty one, `check` returns on every text (no
-- slice is out of bounds), the text that it returns is empty, and each bad word that it reports was
-- added.
pub check_lem :
    (replace_once : List ℕ → List ℕ → List ℕ → List ℕ) (words : List (List ℕ)) (f : Dfa)
    (str : List ℕ) (replace : Bool)
    → f.trie ≡ add_bad_words words new_trie
    → (found : List (List ℕ)) × (target : List (List ℕ)) × (b : Bool) × (check replace_once f str
          replace
        ≡ some ([], found, target, b))
      × All (λ w. Memᴰ w words) target
unfolding check
check_lem replace_once words f str replace filled =
    let values : HasValues (children f.trie.root) =
      rw filled (add_bad_words-HasValues words new_trie tt) in
    let initial : IsScan f.trie.root 0 (no_scan replace_once f str replace) = record {
      outside = λ h. refl;
      inside = λ m h. cc;
      bad = tt;
    } in
    let (s, done, bad) =
      check_from-IsScan replace_once f str replace 0 str (no_scan replace_once f str replace)
        (omega arith) values initial in
    let added : (w : List ℕ) → ends w f.trie.root ≡ true → Memᴰ w words = λ w e.
      is_among_mem w words (ground (arith, add_bad_words_lem words w new_trie, ends-new_trie w)) in
    (
      s.found,
      s.target,
      ltb 0 (length s.found),
      ground (arith, done),
      All-map (λ w. ends w f.trie.root ≡ true) (λ w. Memᴰ w words) added s.target bad,
    )
