-- ===== src/Wants.antt =====
-- blobstore/wants.go: which blobs we want, and what we answer to the wants of a peer. Blob
-- references stand as their canonical text, the metrics are left out, and the blob store is asked
-- through `size`.
pub mod Manager
pub mod Near
pub mod Forwards
pub mod Pour
use mathlib.Core.Option
use metalife_pub.Prelude.{
  ℕ, zero, suc, ◌+◌, ◌-◌, ◌*◌, ◌/◌, ◌%◌, ◌^◌, ◌<◌, ◌≤◌, List, [], ◌∷◌, ◌++◌, map, Memᴰ, Option,
  none, some, Bool, true, false, not, ◌==◌, ltb, leb, ◌&&◌, ◌||◌, if◌then◌else◌, ◌≡◌, ◌≢◌, ◌↔◌, ◌⊎◌,
  inl, inr, refl, sym, ap, subst, ◌∙◌, arith, Bool-cases, Option-cases, String, Eq, eqb, eqb_iff,
  eqb_refl, eqb_comm, eqb_ne, string_eq, pair_eq, bool_eq, or_else, is_some, length, Result, ok,
  err,
}
use metalife_pub.Prelude.Int.{ℤ, pos, negsuc, ltb_ℤ, ◌+ℤ◌, ◌-ℤ◌}
use metalife_pub.Prelude.Int64.{to_uint64, to_int64, to_int64_id, IsInt64}
use metalife_pub.GoMap.{GoMap, lookup, insert, delete}
use metalife_pub.GoMap.Laws.{
  lookup-insert, lookup-insert_self, lookup-delete, Distinct, insert-Distinct, delete-Distinct,
  mem_of_lookup, lookup_of_mem, AllValues, insert-AllValues, overwrite_step, overwrite_step_same,
  lookup-cons_ne, lookup-cons, lookup-nil,
}

-- `bs.Size(ref)`
pub data Size : Type 0 where
  has_size : ℕ → Size
  no_such_blob : Size
  size_failed : Size

-- `ssb.BlobWant`: a negative distance asks for a blob that many hops away, and any other is its size.
pub record BlobWant : Type 0 where
  pub ref : String
  pub dist : ℤ

-- `WantManager`, with the wants that it emitted and the blobs that it queued to be fetched, the last
-- one first.
pub record WantManager : Type 0 where
  pub max_size : ℕ
  pub blocked : GoMap String (Unit {0})
  pub wants : GoMap String ℤ
  pub emitted : List BlobWant
  pub available : List BlobWant

pub data WantError : Type 0 where
  blob_blocked get_size_failed : WantError

-- `EmitBlob`, at a blob that was put.
unfoldable pub blob_put : String → WantManager → WantManager
blob_put ref wm = record wm { wants = delete ref wm.wants }

-- `Wants`
abbrev pub is_wanted : String → WantManager → Bool
is_wanted ref wm = is_some (lookup ref wm.wants)

abbrev pub is_blocked : String → WantManager → Bool
is_blocked ref wm = is_some (lookup ref wm.blocked)

-- `wanted && wanteDist > dist`
abbrev pub wanted_higher : Option ℤ → ℤ → Bool
wanted_higher none dist = false
wanted_higher (some wanted_dist) dist = ltb_ℤ dist wanted_dist

-- `AllWants`
unfoldable pub all_wants : GoMap String ℤ → List BlobWant
all_wants [] = []
all_wants ((ref, dist) ∷ wants) = record { ref = ref; dist = dist } ∷ all_wants wants

add_want : String → ℤ → WantManager → WantManager
add_want ref dist wm = record wm {
  wants = insert ref dist wm.wants;
  emitted = record { ref = ref; dist = dist } ∷ wm.emitted;
}

module _ (size : String → Size) where
  want_missing : String → ℤ → WantManager → Result WantError (Unit {0}) × WantManager
  unfolding add_want
  want_missing ref dist wm =
      if is_blocked ref wm
      then (err blob_blocked, wm)
      else if wanted_higher (lookup ref wm.wants) dist
      then (ok tt, wm)
      else (ok tt, add_want ref dist wm)

  -- `WantWithDist`
  unfoldable pub want_with_dist :
      String → ℤ → WantManager → Result WantError (Unit {0}) × WantManager
  unfolding want_missing
  want_with_dist ref dist wm = elim (size ref) [
    | has_size s ↦ (ok tt, wm)
    | no_such_blob ↦ want_missing ref dist wm
    | size_failed ↦ want_missing ref dist wm
  ]

  -- `Want`
  abbrev pub want : String → WantManager → Result WantError (Unit {0}) × WantManager
  want ref wm = want_with_dist ref (negsuc 0) wm

  -- What a call of `Pour` changes: the manager, the peer's wants, and the sizes to answer with.
  pub record Pouring : Type 0 where
    pub wmgr : WantManager
    pub remote_wants : GoMap String ℤ
    pub out : GoMap String ℕ

  -- A negative distance within the limit.
  pour_want : BlobWant → Pouring → Result WantError (Unit {0}) × Pouring
  unfolding want_with_dist
  pour_want w p = elim (size w.ref) [
    | no_such_blob ↦
        let (e, wmgr) = want_with_dist w.ref (to_int64 (w.dist -ℤ pos 1)) p.wmgr in
        (e, record p { wmgr = wmgr; remote_wants = insert w.ref w.dist p.remote_wants })
    | size_failed ↦ (err get_size_failed, p)
    | has_size s ↦
        (ok tt, record p { remote_wants = delete w.ref p.remote_wants; out = insert w.ref s p.out })
  ]

  -- The peer has the blob.
  pour_has : BlobWant → Pouring → Result WantError (Unit {0}) × Pouring
  pour_has w p =
      let wm = p.wmgr in
      if not (is_wanted w.ref wm)
      then (ok tt, p)
      else if ltb wm.max_size (to_uint64 w.dist)
      then (ok tt, record p { wmgr = record wm { wants = delete w.ref wm.wants } })
      else (ok tt, record p { wmgr = record wm { available = w ∷ wm.available } })

  -- One round of the loop of `Pour`.
  unfoldable pub pour_one : BlobWant → Pouring → Result WantError (Unit {0}) × Pouring
  unfolding pour_want pour_has
  pour_one w p =
      if is_blocked w.ref p.wmgr
      then (ok tt, p)
      else if ltb_ℤ w.dist (pos 0)
      then (if ltb_ℤ w.dist (negsuc 3) then (ok tt, p) else pour_want w p)
      else pour_has w p

  unfoldable pub pour_all : List BlobWant → Pouring → Result WantError (Unit {0}) × Pouring
  unfolding pour_one
  pour_all [] p = (ok tt, p)
  pour_all (w ∷ ws) p =
      let (e, p') = pour_one w p in elim e [ err x ↦ (err x, p') | ok _ ↦ pour_all ws p' ]

  -- `wantProc.Pour`: the answer is sent if it is not empty and nothing failed.
  abbrev pub answer : Result WantError (Unit {0}) → GoMap String ℕ → Option (GoMap String ℕ)
  answer (err e) out = none
  answer (ok _) [] = none
  answer (ok _) (x ∷ out) = some (x ∷ out)

  unfoldable pub pour :
      List BlobWant
      → WantManager
      → GoMap String ℤ
      → Option (GoMap String ℕ) × Result WantError (Unit {0}) × Pouring
  unfolding pour_all
  pour ws wm remote =
      let (e, p) = pour_all ws (record { wmgr = wm; remote_wants = remote; out = [] }) in
      (answer e p.out, e, p)

  -- `wantProc.EmitWant`: whether our want is sent to the peer.
  unfoldable pub sends_want : BlobWant → WantManager → GoMap String ℤ → Bool
  sends_want w wm remote =
      if is_blocked w.ref wm
      then false
      else if ltb_ℤ w.dist (pos 0) && is_some (lookup w.ref remote)
      then false
      else elim (size w.ref) [ has_size s ↦ false | no_such_blob ↦ true | size_failed ↦ true ]
