-- ===== src/Replicate/Notes.antt =====
-- What updates make of a frontier, and what is read of one in memory.

use metalife_pub.Prelude.{
  List, [], ◌∷◌, ◌++◌, Option, none, some, Bool, false, ◌||◌, if◌then◌else◌, ◌≡◌, refl, sym, ap,
  ◌∙◌, arith, String, eqb, eqb_refl, string_eq, nat_eq, list_eq, pair_eq, bool_eq,
}
use metalife_pub.GoMap.{lookup, insert, delete}
use metalife_pub.GoMap.Laws.{lookup-insert, lookup-delete}
use metalife_pub.Refs.{Refs}
use metalife_pub.Ebt.{Note, NetworkFrontierMap}
use metalife_pub.StateMatrix.{StateMatrix, Outcome, ok, err, panic, Os, held, load_frontier}
use metalife_pub.StateMatrix.Queries.{wants_feed, wanted}
use metalife_pub.StateMatrix.Changes.{fill_notes}

module _ (r : Refs) (os : Os) where
  open r use {Feed, string, algo}

  abbrev pub note_of : Option Note → Note × Bool
  note_of o = wanted r os o

  -- Whether the frontier has a note that asks for the feed.
  abbrev pub wants_in : String → NetworkFrontierMap → Bool
  wants_in k nf = (note_of (lookup k nf)).1

  abbrev pub is_in : List Feed → String → Bool
  is_in [] k = false
  is_in (f ∷ fs) k = eqb (string f) k || is_in fs k

  pub fill_notes-append :
      (xs ys : List (Feed × Note)) (nf : NetworkFrontierMap)
      → fill_notes r os (xs ++ ys) nf ≡ fill_notes r os ys (fill_notes r os xs nf)
  unfolding fill_notes
  fill_notes-append [] ys nf = refl
  fill_notes-append ((f, n) ∷ xs) ys nf =
      fill_notes-append xs ys (if n.replicate then insert (string f) n nf else delete (string f) nf)

  pub fill_one :
      (f : Feed) (n : Note) (k : String) (nf : NetworkFrontierMap)
      → lookup k (fill_notes r os ((f, n) ∷ []) nf)
        ≡ (if eqb (string f) k then (if n.replicate then some n else none) else lookup k nf)
  unfolding fill_notes
  fill_one f n k nf = ground (arith, lookup-insert (string f) k n nf, lookup-delete (string f) k nf)

  pub fill_none :
      (k : String) (nf : NetworkFrontierMap) → lookup k (fill_notes r os [] nf) ≡ lookup k nf
  unfolding fill_notes
  fill_none k nf = refl

  fill_notes_same :
      (k : String) (ups : List (Feed × Note)) (nf nf' : NetworkFrontierMap)
      → lookup k nf ≡ lookup k nf'
      → lookup k (fill_notes r os ups nf) ≡ lookup k (fill_notes r os ups nf')
  unfolding fill_notes
  fill_notes_same k [] nf nf' h = h
  fill_notes_same k ((f, n) ∷ ups) nf nf' h =
      fill_notes_same k ups (fill_notes r os ((f, n) ∷ []) nf) (fill_notes r os ((f, n) ∷ []) nf')
        (fill_one f n k nf ∙ (rw h (sym (fill_one f n k nf'))))

  -- What updates make of the first feed that they name does not depend on the frontier.
  pub fill_notes_first :
      (f : Feed) (n : Note) (ups : List (Feed × Note)) (nf nf' : NetworkFrontierMap)
      → lookup (string f) (fill_notes r os ((f, n) ∷ ups) nf)
        ≡ lookup (string f) (fill_notes r os ((f, n) ∷ ups) nf')
  fill_notes_first f n ups nf nf' =
      ap (lookup (string f)) (fill_notes-append ((f, n) ∷ []) ups nf)
      ∙ (fill_notes_same (string f) ups (fill_notes r os ((f, n) ∷ []) nf)
            (fill_notes r os ((f, n) ∷ []) nf')
            (fill_one f n (string f) nf
              ∙ (rw (eqb_refl (string f))
                  (sym (fill_one f n (string f) nf' ∙ rw (eqb_refl (string f)) refl))))
          ∙ ap (lookup (string f)) (sym (fill_notes-append ((f, n) ∷ []) ups nf')))

  pub load_held :
      (self : Feed) (format : String) (nf : NetworkFrontierMap) (m : StateMatrix)
      → held (string self) format m ≡ some nf
      → load_frontier r os self format m ≡ (ok nf, m)
  unfolding load_frontier
  load_held self format nf m h = rw (h, load_frontier) refl

  pub wants_held :
      (self f : Feed) (nf : NetworkFrontierMap) (m : StateMatrix)
      → held (string self) (algo f) m ≡ some nf
      → wants_feed r os self f m ≡ (ok (note_of (lookup (string f) nf)), m)
  unfolding wants_feed
  wants_held self f nf m h =
      ap
        (λ x.
          let (o, m') = x in
          elim o as (λ _. Outcome (Note × Bool) × StateMatrix) [
            | ok nf' ↦ (ok (note_of (lookup (string f) nf')), m')
            | err e ↦ (err e, m')
            | panic ↦ (panic, m')
          ])
        (load_held self (algo f) nf m h)
