-- ===== src/StateMatrix/Changes.antt =====
-- internal/statematrix/store.go: the methods that change a frontier, `Update`, `UpdateSequences` and
-- `Fill`.
use metalife_pub.Prelude.{
  List, [], ◌∷◌, none, some, Bool, true, false, if◌then◌else◌, String, string_eq, bool_eq, pair_eq,
  eqb, is_some,
}
use metalife_pub.Prelude.Int.{ℤ}
use metalife_pub.GoMap.{lookup, insert, delete}
use metalife_pub.Refs.{Refs}
use metalife_pub.Ebt.{Note, NetworkFrontierMap}
use metalife_pub.StateMatrix.{
  ok, err, panic, mixed_formats, Os, M, ◌>>=◌, store_frontier, write_through, load_frontier,
}

-- The loop of `Update`.
unfoldable pub overwrite : NetworkFrontierMap → NetworkFrontierMap → NetworkFrontierMap
overwrite [] m = m
overwrite ((feed, note) ∷ update) m = overwrite update (insert feed note m)

module _ (r : Refs) (os : Os) where
  open r use {Feed, string, parse_feed_ref, algo, hex_tfk, feed_ssb1, feed_gabby, feed_bendy_butt}

  -- `Update`
  unfoldable pub update : Feed → NetworkFrontierMap → String → M NetworkFrontierMap
  unfolding load_frontier overwrite store_frontier
  update who notes format = do
    current ← load_frontier r os who format
    let updated = overwrite notes current
    λ s. (ok updated, store_frontier (string who) format updated s)

  -- The loop of `UpdateSequences`: the frontier, and whether a feed of another format stopped it.
  unfoldable pub set_sequences :
      String → List (Feed × ℤ) → NetworkFrontierMap → NetworkFrontierMap × Bool
  set_sequences format [] nf = (nf, false)
  set_sequences format ((feed, seq) ∷ feeds) nf =
      let rest = set_sequences format feeds (elim (lookup (string feed) nf) [
        | none ↦ nf
        | some note ↦ insert (string feed) (record note { seq = seq }) nf
      ]) in
      if eqb (algo feed) format then rest else (nf, true)

  unfoldable pub finish_sequences : Feed → String → NetworkFrontierMap × Bool → M (Unit {0})
  unfolding write_through
  finish_sequences who format (nf, true) s =
      (err mixed_formats, write_through (string who) format nf s)
  finish_sequences who format (nf, false) s =
      -- `sm.open[format][who.String()] = nf` panics on a missing map
      if is_some (lookup format s.open_frontiers)
      then (ok tt, write_through (string who) format nf s)
      else (panic, s)

  -- `UpdateSequences`
  unfoldable pub update_sequences : Feed → List (Feed × ℤ) → M (Unit {0})
  unfolding load_frontier set_sequences finish_sequences
  update_sequences who [] s = (ok tt, s)
  update_sequences who ((feed, seq) ∷ feeds) s =
      (do
        nf ← load_frontier r os who (algo feed)
        finish_sequences who (algo feed) (set_sequences (algo feed) ((feed, seq) ∷ feeds) nf))
        s

  -- The loop of `Fill`.
  unfoldable pub fill_notes : List (Feed × Note) → NetworkFrontierMap → NetworkFrontierMap
  fill_notes [] nf = nf
  fill_notes ((feed, note) ∷ feeds) nf =
      fill_notes feeds
        (if note.replicate then insert (string feed) note nf else delete (string feed) nf)

  -- `Fill`
  unfoldable pub fill : Feed → List (Feed × Note) → M (Unit {0})
  unfolding load_frontier fill_notes store_frontier
  fill who [] s = (ok tt, s)
  fill who ((feed, note) ∷ feeds) s =
      (do
        nf ← load_frontier r os who (algo feed)
        λ s'. (
          ok tt,
          store_frontier (string who) (algo feed) (fill_notes ((feed, note) ∷ feeds) nf) s',
        ))
        s
