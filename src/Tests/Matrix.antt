-- ===== src/Tests/Matrix.antt =====
-- Examples of the state matrix and of the sink that tracks it.
use mathlib.Core.Option
use metalife_pub.Prelude.{
  ℕ, List, [], ◌∷◌, Option, none, some, Bool, true, false, if◌then◌else◌, ◌≡◌, ◌↔◌, refl, arith,
  String, string_eq, bool_eq, pair_eq, eqb, is_some, or_else, ◌&&◌, Memᴰ,
}
use metalife_pub.Prelude.Int.{pos}
use metalife_pub.GoMap.{lookup, insert}
use metalife_pub.Ebt.{zero_note, NetworkFrontierMap}
use metalife_pub.Ebt.Codec.{received}
use metalife_pub.StateMatrix.{
  StateMatrix, ok, panic, held, save_and_close, load_frontier, load_file, state_file_name,
  write_through, store_frontier,
}
use metalife_pub.StateMatrix.Queries.{changed, has_longer, HasLongerResult}
use metalife_pub.StateMatrix.Changes.{update, fill, update_sequences}
use metalife_pub.StateMatrix.Update.{update_lem, fill_lem, keyed, filled}
use metalife_pub.StateMatrix.Sequences.{update_sequences_lem, update_sequences_panics, with_seq}
use metalife_pub.StateMatrix.Compare.{changed_lem, kept}
use metalife_pub.StateMatrix.Lists.{has_longer_lem, LongerAt}
use metalife_pub.StateMatrix.Persist.{load_frontier-save_and_close}
use metalife_pub.EbtPlugin.{World, StateTrackingSink, write_all}
use metalife_pub.EbtPlugin.Sink.{Tracks, write_all_lem}
use metalife_pub.Tests.{two_feeds, works, parsed, note_at, notes}
use metalife_pub.Tests.Wire.{notes-Distinct, notes-IsEncodable}

-- What the peer has told us.
abbrev told : NetworkFrontierMap
told = ("@b", note_at 9) ∷ []

abbrev matrix : StateMatrix
matrix = record {
  self = "@a";
  open_frontiers = ("ed25519", ("@a", notes) ∷ ("@b", told) ∷ []) ∷ [];
  disk = [];
}

abbrev empty_matrix : StateMatrix
empty_matrix = record { self = "@a"; open_frontiers = []; disk = [] }

holds_ours : held "@a" "ed25519" matrix ≡ some notes
unfolding held lookup
holds_ours = refl

holds_theirs : held "@b" "ed25519" matrix ≡ some told
unfolding held lookup
holds_theirs = refl

loads_theirs : load_frontier two_feeds works false "ed25519" matrix ≡ (ok told, matrix)
unfolding load_frontier lookup
loads_theirs = refl

-- Our frontier is in memory, and the peer is new.
abbrev before_peer : StateMatrix
before_peer = record matrix { open_frontiers = ("ed25519", ("@a", notes) ∷ []) ∷ [] }

abbrev with_peer : StateMatrix
with_peer = record matrix { open_frontiers = ("ed25519", ("@a", notes) ∷ ("@b", []) ∷ []) ∷ [] }

has_ours : load_frontier two_feeds works true "ed25519" before_peer ≡ (ok notes, before_peer)
unfolding load_frontier held lookup
has_ours = refl

loads_peer : load_frontier two_feeds works false "ed25519" before_peer ≡ (ok [], with_peer)
unfolding load_frontier load_file held lookup insert write_through store_frontier state_file_name
loads_peer = refl

changed_lem_example :
    (nf : NetworkFrontierMap) × (changed two_feeds works true false "ed25519" before_peer
      ≡ some (ok nf, with_peer))
    × ((k : String)
        → lookup k nf ≡ kept two_feeds works (eqb k "@b") (lookup k []) (lookup k notes))
changed_lem_example =
    changed_lem two_feeds works true false "ed25519" notes [] before_peer before_peer with_peer
      notes-Distinct has_ours loads_peer

update_lem_example :
    (nf : NetworkFrontierMap) × (s' : StateMatrix) × (update two_feeds works false notes "ed25519"
        matrix
      ≡ (ok nf, s'))
    × (held "@b" "ed25519" s' ≡ some nf)
    × ((feed : String) → lookup feed nf ≡ or_else (lookup feed notes) (lookup feed told))
    × ((p f : String) → (eqb "ed25519" f && eqb "@b" p) ≡ false → held p f s' ≡ held p f matrix)
    × (s'.disk ≡ matrix.disk)
update_lem_example =
    update_lem two_feeds works false notes told "ed25519" matrix matrix notes-Distinct loads_theirs

fill_lem_example :
    (nf : NetworkFrontierMap) × (s' : StateMatrix) × (fill two_feeds works false
        ((true, note_at 3) ∷ [])
        matrix
      ≡ (ok tt, s'))
    × (held "@b" "ed25519" s' ≡ some nf)
    × ((k : String)
        → lookup k nf
          ≡ filled two_feeds works
              (lookup k (keyed two_feeds works ((true, note_at 3) ∷ [])))
              (lookup k told))
    × ((p f : String) → (eqb "ed25519" f && eqb "@b" p) ≡ false → held p f s' ≡ held p f matrix)
    × (s'.disk ≡ matrix.disk)
unfolding lookup
fill_lem_example =
    fill_lem two_feeds works false true (note_at 3) [] told matrix matrix (refl, tt) loads_theirs

update_sequences_lem_example :
    (nf : NetworkFrontierMap) × (s' : StateMatrix) × (update_sequences two_feeds works false
        ((false, pos 10) ∷ [])
        matrix
      ≡ (ok tt, s'))
    × (held "@b" "ed25519" s' ≡ some nf)
    × ((k : String)
        → lookup k nf ≡ with_seq two_feeds works (lookup k (("@b", pos 10) ∷ [])) (lookup k told))
    × ((p f : String) → (eqb "ed25519" f && eqb "@b" p) ≡ false → held p f s' ≡ held p f matrix)
    × (s'.disk ≡ matrix.disk)
unfolding lookup
update_sequences_lem_example =
    update_sequences_lem two_feeds works false false (pos 10) [] told matrix tt (refl, tt)
      holds_theirs

named : state_file_name two_feeds works false "ed25519" ≡ some (("0b", "ed25519"), false)
unfolding state_file_name
named = refl

update_sequences_panics_example :
    update_sequences two_feeds works false ((false, pos 10) ∷ []) empty_matrix
    ≡ (panic, empty_matrix)
unfolding lookup
update_sequences_panics_example =
    update_sequences_panics two_feeds works false false (pos 10) [] (("0b", "ed25519"), false)
      empty_matrix tt refl named refl refl

abbrev longer : HasLongerResult Bool
longer = record { peer = false; feed = false; len = 9 }

has_longer_run : has_longer two_feeds works "ed25519" matrix ≡ (ok (longer ∷ []), matrix)
unfolding has_longer lookup
has_longer_run = refl

has_longer_lem_example :
    (Memᴰ longer (longer ∷ [])
      ↔ LongerAt two_feeds works notes (("@a", notes) ∷ ("@b", told) ∷ []) longer)
    × (matrix ≡ matrix)
unfolding lookup
has_longer_lem_example =
    has_longer_lem two_feeds works "ed25519" matrix matrix (("@a", notes) ∷ ("@b", told) ∷ []) notes
      (longer ∷ []) longer refl refl has_longer_run

load_frontier-save_and_close_example :
    (s' s'' : StateMatrix) × (read : NetworkFrontierMap) × (save_and_close two_feeds works "@a"
        "ed25519" matrix
      ≡ (ok tt, s'))
    × (held "@a" "ed25519" s' ≡ none)
    × (load_frontier two_feeds works true "ed25519" s' ≡ (ok read, s''))
    × ((feed : String)
        → lookup feed read ≡ (
            if is_some (parsed feed)
            then Option.map (received zero_note) (lookup feed notes)
            else none))
unfolding state_file_name
load_frontier-save_and_close_example =
    load_frontier-save_and_close two_feeds works true "ed25519" notes (("0a", "ed25519"), false)
      matrix holds_ours notes-Distinct notes-IsEncodable refl refl refl refl

abbrev sink : StateTrackingSink two_feeds works
sink = record { peer = false; author = false; sequence = pos 9 }

abbrev world : World
world = record { matrix = matrix; sent = [] }

abbrev sizes : List ℕ → ℕ
sizes p = 1

abbrev lower : List ℕ → Option ℕ
lower p = some (sizes p)

sink-Tracks : Tracks two_feeds works sink (note_at 9) matrix
unfolding lookup
sink-Tracks = record { frontier = told; is_held = holds_theirs; has_note = refl }

write_all_lem_example :
    (m : StateMatrix) × (write_all two_feeds works lower ((1 ∷ []) ∷ (2 ∷ []) ∷ []) sink world
      ≡ (record sink { sequence = pos 11 }, record { matrix = m; sent = (2 ∷ []) ∷ (1 ∷ []) ∷ [] }))
    × Tracks two_feeds works (record sink { sequence = pos 11 }) (note_at 11) m
write_all_lem_example =
    write_all_lem two_feeds works lower sizes ((1 ∷ []) ∷ (2 ∷ []) ∷ []) 9 sink (note_at 9) world
      (λ p. refl) refl (omega arith) sink-Tracks
