-- ===== src/Dfa.antt =====
-- dfa: the filter for bad words. A text is the list of its runes. `strings.Replace` with a count of 1 is
-- a parameter.
pub mod Words
pub mod Valued
pub mod Scanning
use mathlib.Core.Option
use metalife_pub.Prelude.{
  ℕ, zero, suc, ◌+◌, ◌-◌, ◌*◌, ◌/◌, ◌%◌, ◌^◌, ◌<◌, ◌≤◌, List, [], ◌∷◌, ◌++◌, map, Memᴰ, Option,
  none, some, Bool, true, false, not, ◌==◌, ltb, leb, ◌&&◌, ◌||◌, if◌then◌else◌, ◌≡◌, ◌≢◌, ◌↔◌, ◌⊎◌,
  inl, inr, refl, sym, ap, subst, ◌∙◌, arith, Bool-cases, Option-cases, String, Eq, eqb, eqb_iff,
  eqb_refl, eqb_comm, eqb_ne, string_eq, nat_eq, take, drop, pair_eq, bool_eq, or_else, is_some,
  length,
}
use metalife_pub.Prelude.Int.{ℤ, pos, negsuc, ltb_ℤ, ◌+ℤ◌, ◌=ℤ◌}
use metalife_pub.Prelude.Int64.{to_uint64, to_int64, to_int64_id, IsInt64}
use metalife_pub.GoMap.{GoMap, lookup, insert, delete}
use metalife_pub.GoMap.Laws.{
  lookup-insert, lookup-insert_self, lookup-delete, Distinct, insert-Distinct, delete-Distinct,
  mem_of_lookup, lookup_of_mem, AllValues, insert-AllValues, overwrite_step, overwrite_step_same,
  lookup-cons_ne, lookup-cons, lookup-nil,
}

-- `Node`, and its map of children.
mutual
  pub data Node : Type 0 where
    node : Bool → List ℕ → Children → Node

  pub data Children : Type 0 where
    no_children : Children
    with_child : ℕ → Node → Children → Children

abbrev pub is_end : Node → Bool
is_end (node e v c) = e

abbrev pub value : Node → List ℕ
value (node e v c) = v

abbrev pub children : Node → Children
children (node e v c) = c

-- `newNode`
abbrev pub new_node : List ℕ → Node
new_node v = node false v no_children

unfoldable pub child : ℕ → Children → Option Node
child v no_children = none
child v (with_child w n c) = if w == v then some n else child v c

unfoldable pub set_child : ℕ → Node → Children → Children
set_child v m no_children = with_child v m no_children
set_child v m (with_child w n c) =
    if w == v then with_child v m c else with_child w n (set_child v m c)

-- `Trie`
pub record Trie : Type 0 where
  pub root : Node
  pub size : ℕ

-- `NewTrie`
abbrev pub new_trie : Trie
new_trie = record { root = new_node []; size = 0 }

-- The child that the loop of `Insert` goes on with.
abbrev pub entered : ℕ → Option Node → Node
entered v none = new_node (v ∷ [])
entered v (some m) = node (is_end m) (v ∷ []) (children m)

-- The loop of `Insert` from a node on, and whether the word is new.
unfoldable pub insert_at : List ℕ → Node → Node × Bool
insert_at [] n = (node true (value n) (children n), not (is_end n))
insert_at (v ∷ key) n =
    let (m, new) = insert_at key (entered v (child v (children n))) in
    (node (is_end n) (value n) (set_child v m (children n)), new)

-- `Trie.Insert`
unfoldable pub insert_word : List ℕ → Trie → Trie
unfolding insert_at
insert_word key t =
    let (root, new) = insert_at key t.root in
    record { root = root; size = (if new then suc t.size else t.size) }

-- `findNode`, without the index, which no caller reads.
unfoldable pub find_node : List ℕ → Node → Option Node
find_node [] n = some n
find_node (v ∷ key) n = elim (child v (children n)) [ none ↦ none | some m ↦ find_node key m ]

-- `DFA`
pub record Dfa : Type 0 where
  pub trie : Trie
  pub replace_str : List ℕ
  pub invalid_words : GoMap ℕ (Unit {0})

-- `AddBadWords`
unfoldable pub add_bad_words : List (List ℕ) → Trie → Trie
unfolding insert_word
add_bad_words [] t = t
add_bad_words (w ∷ words) t = add_bad_words words (insert_word w t)

-- `SetInvalidChar`
unfoldable pub invalid_chars : List ℕ → GoMap ℕ (Unit {0})
invalid_chars [] = []
invalid_chars (c ∷ chars) = insert c tt (invalid_chars chars)

-- The variables of the loop of `check`. `none` for `start` stands for -1.
pub record Scan : Type 0 where
  pub node_map : Option Children
  pub start : Option ℕ
  pub tag : ℤ
  pub result : List ℕ
  pub tmp : List ℕ
  pub found : List (List ℕ)
  pub target : List (List ℕ)

abbrev pub is_empty : List ℕ → Bool
is_empty [] = true
is_empty (c ∷ cs) = false

module _ (replace_once : List ℕ → List ℕ → List ℕ → List ℕ) (f : Dfa) (str : List ℕ)
    (replace : Bool) where
  -- `string(str[start:i+1])`, which panics out of bounds.
  unfoldable pub slice : Option ℕ → ℕ → Option (List ℕ)
  slice none i = none
  slice (some a) i =
      if leb a (suc i) && leb (suc i) (length str)
      then some (take (suc i - a) (drop a str))
      else none

  abbrev pub replaced : List ℕ → List ℕ → List ℕ
  replaced w result =
      let r = replace_once result w f.replace_str in
      if not replace then result else if is_empty r then replace_once str w f.replace_str else r

  -- A word ends at place `i`.
  unfoldable pub hit : ℕ → Scan → Option Scan
  unfolding slice
  hit i s = elim (slice s.start i) [
    | none ↦ none
    | some w ↦ some (record s {
      target = s.target ++ s.tmp ∷ [];
      tmp = [];
      found = s.found ++ w ∷ [];
      result = replaced w s.result;
      tag = negsuc 0;
      start = none;
      node_map = none;
    })
  ]

  -- The loop goes on below `n`, or a word ends there.
  unfoldable pub go_on : ℕ → Node → Scan → Option Scan
  unfolding hit
  go_on i n s = if not (is_end n) then some (record s { node_map = some (children n) }) else hit i s

  unfoldable pub first_rune : ℕ → ℕ → Scan → Option Scan
  unfolding find_node go_on ◌+ℤ◌
  first_rune i val s = elim (find_node (val ∷ []) f.trie.root) [
    | none ↦ some (record s { node_map = none; start = none; tag = negsuc 0 })
    | some n ↦
        let tag = s.tag +ℤ pos 1 in
        go_on i n (record s {
          tag = tag;
          start = (if tag =ℤ pos 0 then some i else s.start);
          tmp = value n;
        })
  ]

  unfoldable pub next_rune : ℕ → ℕ → Children → Scan → Option Scan
  unfolding child go_on
  next_rune i val m s = elim (child val m) [
    | none ↦ some s
    | some n ↦ go_on i n (record s { tmp = s.tmp ++ value n })
  ]

  -- One round of the loop of `check`.
  unfoldable pub check_rune : ℕ → ℕ → Scan → Option Scan
  unfolding first_rune next_rune
  check_rune i val s =
      if is_some (lookup val f.invalid_words)
      then some s
      else elim s.node_map [ none ↦ first_rune i val s | some m ↦ next_rune i val m s ]

  unfoldable pub check_from : ℕ → List ℕ → Scan → Option Scan
  unfolding check_rune
  check_from i [] s = some s
  check_from i (val ∷ rest) s = elim (check_rune i val s) [
    | none ↦ none
    | some s' ↦ check_from (suc i) rest s'
  ]

  abbrev pub no_scan : Scan
  no_scan = record {
    node_map = none;
    start = none;
    tag = negsuc 0;
    result = [];
    tmp = [];
    found = [];
    target = [];
  }

  -- `check`: the text, what was found, the bad words, and whether there are any. The named result for
  -- the text is never assigned, so that the text that the loop made in `result` is dropped.
  unfoldable pub check : Option (List ℕ × List (List ℕ) × List (List ℕ) × Bool)
  unfolding check_from
  check = elim (check_from 0 str no_scan) [
    | none ↦ none
    | some s ↦ some ([], s.found, s.target, ltb 0 (length s.found))
  ]
