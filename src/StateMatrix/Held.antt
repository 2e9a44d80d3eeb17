-- ===== src/StateMatrix/Held.antt =====
-- What the matrix holds in memory after it stores or loads a frontier.

use metalife_pub.Prelude.{
  [], ◌∷◌, none, some, true, false, ◌&&◌, if◌then◌else◌, ◌≡◌, ◌⊎◌, inl, inr, refl, arith,
  Option-cases, String, eqb, eqb_iff, eqb_refl, string_eq, pair_eq, bool_eq, is_some,
}
use metalife_pub.GoMap.{lookup, insert}
use metalife_pub.GoMap.Laws.{lookup-insert}
use metalife_pub.Refs.{Refs}
use metalife_pub.Ebt.{NetworkFrontierMap}
use metalife_pub.StateMatrix.{
  StateMatrix, ok, Os, FileName, store_frontier, write_through, held, load_file, load_frontier,
  state_file_name,
}

lookup-one :
    (k j : String) (nf : NetworkFrontierMap)
    → lookup j ((k, nf) ∷ []) ≡ (if eqb k j then some nf else none)
unfolding lookup
lookup-one k j nf = refl

pub held-store_frontier :
    (peer format p f : String) (nf : NetworkFrontierMap) (s : StateMatrix)
    → held p f (store_frontier peer format nf s)
      ≡ (if eqb format f && eqb peer p then some nf else held p f s)
unfolding held store_frontier
held-store_frontier peer format p f nf s = elim (Option-cases (lookup format s.open_frontiers)) [
  | inl missing ↦ ground (
    arith,
    missing,
    lookup-insert format f ((peer, nf) ∷ []) s.open_frontiers,
    lookup-one peer p nf,
    eqb_iff format f,
  )
  | inr (fm, found) ↦ ground (
    arith,
    found,
    lookup-insert format f (insert peer nf fm) s.open_frontiers,
    lookup-insert peer p nf fm,
    eqb_iff format f,
  )
]

pub held-write_through :
    (peer format p f : String) (nf : NetworkFrontierMap) (s : StateMatrix)
    → held p f (write_through peer format nf s) ≡ (
        if is_some (lookup format s.open_frontiers) && (eqb format f && eqb peer p)
        then some nf
        else held p f s)
unfolding write_through
held-write_through peer format p f nf s = ground (arith, held-store_frontier peer format p f nf s)

pub disk-write_through :
    (peer format : String) (nf : NetworkFrontierMap) (s : StateMatrix)
    → (write_through peer format nf s).disk ≡ s.disk
unfolding write_through store_frontier
disk-write_through peer format nf s = ground arith

pub format_of_held :
    (p f : String) (nf : NetworkFrontierMap) (s : StateMatrix)
    → held p f s ≡ some nf
    → is_some (lookup f s.open_frontiers) ≡ true
unfolding held
format_of_held p f nf s h = ground arith

module _ (r : Refs) (os : Os) where
  open r use {Feed, string}

  -- Loading a frontier leaves the others alone.
  pub held-load_frontier_ne :
      (peer : Feed) (format p f : String) (nf : NetworkFrontierMap) (s s' : StateMatrix)
      → load_frontier r os peer format s ≡ (ok nf, s')
      → (eqb format f && eqb (string peer) p) ≡ false
      → held p f s' ≡ held p f s
  unfolding load_frontier load_file
  held-load_frontier_ne peer format p f nf s s' h ne = ground (
    arith,
    held-store_frontier (string peer) format p f nf s,
    held-write_through (string peer) format p f [] s,
  )

  -- After a load the matrix holds the frontier, unless it has no map for the format.
  pub held-load_frontier :
      (peer : Feed) (format : String) (nf : NetworkFrontierMap) (s s' : StateMatrix)
      → load_frontier r os peer format s ≡ (ok nf, s')
      → (held (string peer) format s' ≡ some nf)
        ⊎ ((nf ≡ []) × (lookup format s'.open_frontiers ≡ none))
  unfolding load_frontier load_file
  held-load_frontier peer format nf s s' h = ground (
    arith,
    held-store_frontier (string peer) format (string peer) format nf s,
    held-write_through (string peer) format (string peer) format [] s,
    eqb_refl (string peer),
    eqb_refl format,
  )

  pub disk-load_frontier :
      (peer : Feed) (format : String) (nf : NetworkFrontierMap) (s s' : StateMatrix)
      → load_frontier r os peer format s ≡ (ok nf, s')
      → s'.disk ≡ s.disk
  unfolding load_frontier load_file store_frontier
  disk-load_frontier peer format nf s s' h =
      ground (arith, disk-write_through (string peer) format [] s)

  pub load_frontier_of_held :
      (peer : Feed) (format : String) (nf : NetworkFrontierMap) (s : StateMatrix)
      → held (string peer) format s ≡ some nf
      → load_frontier r os peer format s ≡ (ok nf, s)
  unfolding load_frontier
  load_frontier_of_held peer format nf s h = ground arith

  -- With no file and no map for the format the load returns a new frontier and changes nothing.
  pub load_missing :
      (peer : Feed) (format : String) (name : FileName) (s : StateMatrix)
      → lookup format s.open_frontiers ≡ none
      → state_file_name r os peer format ≡ some name
      → os.open_fails name ≡ false
      → lookup name s.disk ≡ none
      → load_frontier r os peer format s ≡ (ok [], s)
  unfolding load_frontier load_file
  load_missing peer format name s missing named opens absent = ground arith
