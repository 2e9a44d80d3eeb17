-- ===== src/Drain/Chain.antt =====
-- The saved messages form a chain.

use metalife_pub.Prelude.{
  Option, none, some, true, false, if◌then◌else◌, ◌≡◌, ◌↔◌, inl, inr, refl, sym, subst, ◌∙◌, arith,
  Bool-cases, Option-cases, eqb_iff, eqb_refl, string_eq, pair_eq, bool_eq,
}
use metalife_pub.Prelude.Int.{ℤ, pos, ◌=ℤ◌}
use metalife_pub.Drain.{
  Message, valid, invalid, is_empty, validate_after, validate_next, first_not_one, next_seq,
}

-- That `next` may follow the last message of a feed, if it has one.
pub data Links : Option Message → Message → Type 0 where
  first :
      {current : Option Message} {next : Message}
      → is_empty current ≡ true
      → next.seq ≡ pos 1
      → Links current next
  later :
      {current next : Message}
      → (current.seq =ℤ pos 0) ≡ false
      → next.author ≡ current.author
      → next.seq ≡ next_seq current.seq
      → next.previous ≡ some current.key
      → Links (some current) next

int_eq : (a b : ℤ) → (a =ℤ b) ≡ true → a ≡ b
int_eq a b h = ground arith

int_refl : (a : ℤ) → (a =ℤ a) ≡ true
int_refl a = ground arith

after_links :
    (current next : Message)
    → validate_after current next ≡ valid
    → (next.author ≡ current.author)
      × (next.seq ≡ next_seq current.seq)
      × (next.previous ≡ some current.key)
unfolding validate_after
after_links current next h = elim (Option-cases next.previous) [
  | inl no_prev ↦ absurd (ground arith)
  | inr (prev, has) ↦ (
    ground (arith, eqb_iff current.author next.author),
    sym (int_eq (next_seq current.seq) next.seq (ground arith)),
    ground (arith, eqb_iff current.key prev),
  )
]

links_after :
    (current next : Message)
    → next.author ≡ current.author
    → next.seq ≡ next_seq current.seq
    → next.previous ≡ some current.key
    → validate_after current next ≡ valid
unfolding validate_after
links_after current next a s p =
    let same_author = (eqb_iff current.author next.author).1 (sym a) in
    let same_seq : (next_seq current.seq =ℤ next.seq) ≡ true =
      subst (λ q. (next_seq current.seq =ℤ q) ≡ true) (sym s) (int_refl (next_seq current.seq)) in
    ground (arith, same_author, same_seq, eqb_refl current.key)

empty_links :
    (current : Option Message) (next : Message)
    → is_empty current ≡ true
    → validate_next current next ≡ (if next.seq =ℤ pos 1 then valid else invalid first_not_one)
unfolding validate_next
empty_links none next h = refl
empty_links (some current) next h = rw h

pub full_links :
    (current next : Message)
    → (current.seq =ℤ pos 0) ≡ false
    → validate_next (some current) next ≡ validate_after current next
unfolding validate_next
full_links current next h = rw h

accepted :
    (current : Option Message) (next : Message)
    → validate_next current next ≡ valid
    → Links current next
accepted none next h =
    first refl (int_eq next.seq (pos 1) (ground (arith, empty_links none next refl)))
accepted (some current) next h = elim (Bool-cases (current.seq =ℤ pos 0)) [
  | inl e ↦ first e (int_eq next.seq (pos 1) (ground (arith, empty_links (some current) next e)))
  | inr n ↦
      let (a, s, p) = after_links current next (sym (full_links current next n) ∙ h) in
      later n a s p
]

pub follows :
    (current : Option Message) (next : Message)
    → Links current next
    → validate_next current next ≡ valid
follows current next (first e s) = empty_links current next e ∙ rw s
follows _ _ (later {current} {next} n a s p) =
    full_links current next n ∙ links_after current next a s p

-- `ValidateNext` accepts exactly the messages that may follow: sequence 1 on an empty feed, and
-- else the same author, the next sequence and the key of the last message as the previous one.
pub validate_next_iff :
    (current : Option Message) (next : Message)
    → (validate_next current next ≡ valid) ↔ Links current next
validate_next_iff current next = (accepted current next, follows current next)
