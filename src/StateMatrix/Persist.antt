-- ===== src/StateMatrix/Persist.antt =====
-- A frontier that is saved and closed is found again on disk.
use mathlib.Core.Option
use metalife_pub.Prelude.{
  none, some, true, false, ◌&&◌, if◌then◌else◌, ◌≡◌, inl, inr, arith, Option-cases, String, eqb,
  eqb_iff, eqb_refl, string_eq, pair_eq, bool_eq, is_some,
}
use metalife_pub.GoMap.{lookup, insert, delete}
use metalife_pub.GoMap.Laws.{lookup-insert, lookup-insert_self, lookup-delete, Distinct, AllValues}
use metalife_pub.Prelude.{Result}
use metalife_pub.Refs.{Refs}
use metalife_pub.Ebt.{zero_note, NetworkFrontierMap, JsonObject, encode_notes, unmarshal_frontier}
use metalife_pub.Ebt.Codec.{IsEncodable, received}
use metalife_pub.Ebt.Frontier.{unmarshal_frontier-encode_notes}
use metalife_pub.StateMatrix.{
  StateMatrix, ok, Os, File, FileName, json, held, save, close_frontier, save_and_close,
  load_frontier, load_file, decode_file, state_file_name, store_frontier,
}

held-close_frontier :
    (peer format p f : String) (s : StateMatrix)
    → held p f (close_frontier peer format s)
      ≡ (if eqb format f && eqb peer p then none else held p f s)
unfolding held close_frontier
held-close_frontier peer format p f s = elim (Option-cases (lookup format s.open_frontiers)) [
  | inl missing ↦ ground (arith, missing, eqb_iff format f)
  | inr (fm, found) ↦ ground (
    arith,
    found,
    lookup-insert format f (delete peer fm) s.open_frontiers,
    lookup-delete peer p fm,
    eqb_iff format f,
  )
]

module _ (r : Refs) (os : Os) where
  open r use {Feed, string, parse_feed_ref, parse-string}

  -- A call of `save` that goes through.
  save_lem :
      (peer : Feed) (format : String) (nf : NetworkFrontierMap) (name : FileName) (s : StateMatrix)
      → held (string peer) format s ≡ some nf
      → state_file_name r os peer format ≡ some name
      → os.write_fails (name.0, true) ≡ false
      → os.rename_fails (name.0, true) ≡ false
      → save r os peer format s ≡ (
        ok tt,
        record s { disk = insert name (json (encode_notes nf)) (delete (name.0, true) s.disk) },
      )
  unfolding save
  save_lem peer format nf name s h n w m = ground arith

  closed : Feed → String → FileName → NetworkFrontierMap → StateMatrix → StateMatrix
  closed peer format name nf s =
      close_frontier (string peer) format
        (record s { disk = insert name (json (encode_notes nf)) (delete (name.0, true) s.disk) })

  save_and_close_lem :
      (peer : Feed) (format : String) (nf : NetworkFrontierMap) (name : FileName) (s : StateMatrix)
      → held (string peer) format s ≡ some nf
      → state_file_name r os peer format ≡ some name
      → os.write_fails (name.0, true) ≡ false
      → os.rename_fails (name.0, true) ≡ false
      → save_and_close r os (string peer) format s ≡ (ok tt, closed peer format name nf s)
  unfolding save_and_close closed
  save_and_close_lem peer format nf name s h n w m =
      ground (arith, parse-string peer, save_lem peer format nf name s h n w m)

  disk-closed :
      (peer : Feed) (format : String) (name : FileName) (nf : NetworkFrontierMap) (s : StateMatrix)
      → lookup name (closed peer format name nf s).disk ≡ some (json (encode_notes nf))
  unfolding closed close_frontier
  disk-closed peer format name nf s =
      ground
        (arith, lookup-insert_self name (json (encode_notes nf)) (delete (name.0, true) s.disk))

  load_from_disk :
      (peer : Feed) (format : String) (name : FileName) (file : File) (nf : NetworkFrontierMap)
      (s : StateMatrix)
      → held (string peer) format s ≡ none
      → state_file_name r os peer format ≡ some name
      → os.open_fails name ≡ false
      → lookup name s.disk ≡ some file
      → decode_file r os file ≡ ok nf
      → load_frontier r os peer format s ≡ (ok nf, store_frontier (string peer) format nf s)
  unfolding load_frontier load_file
  load_from_disk peer format name file nf s h n o l d = ground arith

  decode_json :
      (o : JsonObject) (nf : NetworkFrontierMap)
      → unmarshal_frontier parse_feed_ref o ≡ Result.ok nf
      → decode_file r os (json o) ≡ ok nf
  unfolding decode_file
  decode_json o nf h = ground arith

  -- A frontier with encodable notes that the matrix holds is closed by `SaveAndClose` and found
  -- again by the next load, if the calls of the operating system go through: the same feeds, but
  -- for those whose key is no feed reference, with the notes as `received` has them.
  pub load_frontier-save_and_close :
      (peer : Feed) (format : String) (nf : NetworkFrontierMap) (name : FileName) (s : StateMatrix)
      → held (string peer) format s ≡ some nf
      → Distinct nf
      → AllValues IsEncodable nf
      → state_file_name r os peer format ≡ some name
      → os.write_fails (name.0, true) ≡ false
      → os.rename_fails (name.0, true) ≡ false
      → os.open_fails name ≡ false
      → (s' s'' : StateMatrix) × (read : NetworkFrontierMap) × (save_and_close r os
            (string peer)
            format
            s
          ≡ (ok tt, s'))
        × (held (string peer) format s' ≡ none)
        × (load_frontier r os peer format s' ≡ (ok read, s''))
        × ((feed : String)
            → lookup feed read ≡ (
                if is_some (parse_feed_ref feed)
                then Option.map (received zero_note) (lookup feed nf)
                else none))
  load_frontier-save_and_close peer format nf name s h d enc n w m o =
      let s' = closed peer format name nf s in
      let (read, decoded, notes) = unmarshal_frontier-encode_notes parse_feed_ref nf d enc in
      let dropped : held (string peer) format s' ≡ none =
        unfold closed in
        ground (
          arith,
          held-close_frontier (string peer) format (string peer) format (record s {
            disk = insert name (json (encode_notes nf)) (delete (name.0, true) s.disk);
          }),
          eqb_refl (string peer),
          eqb_refl format,
        ) in
      (
        s',
        store_frontier (string peer) format read s',
        read,
        save_and_close_lem peer format nf name s h n w m,
        dropped,
        load_from_disk peer format name (json (encode_notes nf)) read s' dropped n o
            (disk-closed peer format name nf s) (decode_json (encode_notes nf) read decoded),
        notes,
      )
