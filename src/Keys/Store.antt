-- ===== src/Keys/Store.antt =====
-- private/keys/store.go: recipients under a scheme and an id, over an index that is not part of the
-- repository.
pub mod Laws
use mathlib.Core.Option
use metalife_pub.Prelude.{
  ℕ, zero, suc, ◌+◌, ◌-◌, ◌*◌, ◌/◌, ◌%◌, ◌^◌, ◌<◌, ◌≤◌, List, [], ◌∷◌, ◌++◌, map, Memᴰ, Option,
  none, some, Bool, true, false, not, ◌==◌, ltb, leb, ◌&&◌, ◌||◌, if◌then◌else◌, ◌≡◌, ◌≢◌, ◌↔◌, ◌⊎◌,
  inl, inr, refl, sym, ap, subst, ◌∙◌, arith, Bool-cases, Option-cases, String, Eq, eqb, eqb_iff,
  eqb_refl, eqb_comm, eqb_ne, string_eq, pair_eq, bool_eq, or_else, is_some, length, list_eq,
  nat_eq, Result, ok, err, ◌>>=◌,
}
use metalife_pub.Prelude.Int.{ℤ, pos, negsuc, ltb_ℤ, ◌+ℤ◌}
use metalife_pub.Prelude.Int64.{to_uint64, to_int64, to_int64_id, IsInt64}
use metalife_pub.GoMap.{GoMap, lookup, insert, delete}
use metalife_pub.GoMap.Laws.{
  lookup-insert, lookup-insert_self, lookup-delete, Distinct, insert-Distinct, delete-Distinct,
  mem_of_lookup, lookup_of_mem, AllValues, insert-AllValues, overwrite_step, overwrite_step_same,
  lookup-cons_ne, lookup-cons, lookup-nil,
}
use metalife_pub.Keys.{
  KeyScheme, IdxKey, is_valid, marshal_binary, KeyError, invalid_key_scheme, no_such_key,
  index_failed, not_in_list,
}

-- `Recipient`, with its metadata as bytes.
pub record Recipient : Type 0 where
  pub key : List ℕ
  pub scheme : KeyScheme
  pub metadata : List ℕ

-- `librarian.SetterIndex`, from the package margaret: addresses are bytes. `none` is an error, and a
-- value that is not set reads as `some none`. What is set is read back until it is set again or
-- deleted, and other addresses are not touched.
pub record SetterIndex : Type 1 where
  pub Db : Type 0
  pub get : Db → List ℕ → Option (Option (List Recipient))
  pub set_value : Db → List ℕ → List Recipient → Option Db
  pub delete_value : Db → List ℕ → Option Db
  pub get-set_value :
      (d d' : Db) (a b : List ℕ) (v : List Recipient)
      → set_value d a v ≡ some d'
      → get d' b ≡ (if eqb a b then some (some v) else get d b)
  pub get-delete_value :
      (d d' : Db) (a b : List ℕ)
      → delete_value d a ≡ some d'
      → get d' b ≡ (if eqb a b then some none else get d b)

-- `append(recps[:idx], recps[idx+1:]...)` at the first recipient with the key; `none` if there is none.
unfoldable pub remove_first : List ℕ → List Recipient → Option (List Recipient)
remove_first key [] = none
remove_first key (r ∷ recps) =
    if eqb r.key key then some recps else Option.map (λ rest. r ∷ rest) (remove_first key recps)

module _ (index : SetterIndex) where
  open index use {Db, get, set_value, delete_value}

  unfoldable pub read_keys : List ℕ → Db → Result KeyError (List Recipient)
  read_keys addr db = elim (get db addr) [
    | none ↦ err index_failed
    | some none ↦ err no_such_key
    | some (some recps) ↦ ok recps
  ]

  -- `getKeys`
  unfoldable pub get_keys : KeyScheme → List ℕ → Db → Result KeyError (List Recipient)
  unfolding read_keys
  get_keys ks id db =
      if is_valid ks
      then (marshal_binary (record { ks = ks; id = id }) >>= λ addr. read_keys addr db)
      else err invalid_key_scheme

  abbrev pub stored : Option Db → Db → Result KeyError (Unit {0}) × Db
  stored none db = (err index_failed, db)
  stored (some db') db = (ok tt, db')

  -- `mgr.backend.Set(todoCtx, indexes.Addr(idxkBytes), recps)`, and the other writes of the store.
  unfoldable pub at_address :
      Result KeyError (List ℕ) → (List ℕ → Option Db) → Db → Result KeyError (Unit {0}) × Db
  at_address (err e) write db = (err e, db)
  at_address (ok addr) write db = stored (write addr) db

  unfoldable pub write_keys :
      KeyScheme → List ℕ → List Recipient → Db → Result KeyError (Unit {0}) × Db
  unfolding at_address
  write_keys ks id recps db =
      at_address (marshal_binary (record { ks = ks; id = id })) (λ addr. set_value db addr recps) db

  -- The end of `AddKey`, after the old value is looked up.
  unfoldable pub add_after :
      List ℕ → Recipient → Result KeyError (List Recipient) → Db → Result KeyError (Unit {0}) × Db
  add_after id r (ok recps) db = write_keys r.scheme id (recps ++ r ∷ []) db
  add_after id r (err no_such_key) db = write_keys r.scheme id (r ∷ []) db
  add_after id r (err e) db = (err e, db)

  -- `AddKey`
  unfoldable pub add_key : List ℕ → Recipient → Db → Result KeyError (Unit {0}) × Db
  add_key id r db =
      if is_valid r.scheme
      then add_after id r (get_keys r.scheme id db) db
      else (err invalid_key_scheme, db)

  -- `SetKey`
  unfoldable pub set_key : List ℕ → Recipient → Db → Result KeyError (Unit {0}) × Db
  set_key id r db =
      if is_valid r.scheme then write_keys r.scheme id (r ∷ []) db else (err invalid_key_scheme, db)

  -- `RmKeys`
  unfoldable pub rm_keys : KeyScheme → List ℕ → Db → Result KeyError (Unit {0}) × Db
  unfolding at_address
  rm_keys ks id db =
      at_address (marshal_binary (record { ks = ks; id = id })) (λ addr. delete_value db addr) db

  unfoldable pub remove_after :
      KeyScheme
      → List ℕ
      → List ℕ
      → Result KeyError (List Recipient)
      → Db
      → Result KeyError (Unit {0}) × Db
  remove_after ks id key (err e) db = (err e, db)
  remove_after ks id key (ok recps) db = elim (remove_first key recps) [
    | none ↦ (err not_in_list, db)
    | some rest ↦ write_keys ks id rest db
  ]

  -- `RmKey`
  unfoldable pub rm_key : KeyScheme → List ℕ → Recipient → Db → Result KeyError (Unit {0}) × Db
  rm_key ks id rm db = remove_after ks id rm.key (get_keys ks id db) db
