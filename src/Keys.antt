-- ===== src/Keys.antt =====
-- private/keys/types.go: the key schemes, and the binary form of an index key. Texts and byte slices
-- are lists of bytes.
pub mod Codec
pub mod Store
use mathlib.Core.Option
use metalife_pub.Prelude.{
  ℕ, zero, suc, ◌+◌, ◌-◌, ◌*◌, ◌/◌, ◌%◌, ◌^◌, ◌<◌, ◌≤◌, List, [], ◌∷◌, ◌++◌, map, Memᴰ, Option,
  none, some, Bool, true, false, not, ◌==◌, ltb, leb, ◌&&◌, ◌||◌, if◌then◌else◌, ◌≡◌, ◌≢◌, ◌↔◌, ◌⊎◌,
  inl, inr, refl, sym, ap, subst, ◌∙◌, arith, Bool-cases, Option-cases, String, Eq, eqb, eqb_iff,
  eqb_refl, eqb_comm, eqb_ne, string_eq, pair_eq, bool_eq, or_else, is_some, length, take, drop,
  replicate, codes, list_eq, nat_eq, Result, ok, err,
}
use metalife_pub.Prelude.Int.{ℤ, pos, negsuc, ltb_ℤ, ◌+ℤ◌}
use metalife_pub.Prelude.Int64.{to_uint64, to_int64, to_int64_id, IsInt64}
use metalife_pub.GoMap.{GoMap, lookup, insert, delete}
use metalife_pub.GoMap.Laws.{
  lookup-insert, lookup-insert_self, lookup-delete, Distinct, insert-Distinct, delete-Distinct,
  mem_of_lookup, lookup_of_mem, AllValues, insert-AllValues, overwrite_step, overwrite_step_same,
  lookup-cons_ne, lookup-cons, lookup-nil,
}

-- `KeyScheme`, any text.
abbrev pub KeyScheme : Type 0
KeyScheme = List ℕ

abbrev pub scheme_large_symmetric_group : KeyScheme
scheme_large_symmetric_group = codes "envelope-large-symmetric-group"

abbrev pub scheme_diffie_style_converted_ed25519 : KeyScheme
scheme_diffie_style_converted_ed25519 = codes "envelope-id-based-dm-converted-ed25519"

abbrev pub scheme_feed_message_signing_key : KeyScheme
scheme_feed_message_signing_key = codes "feed-message-signing-key"

abbrev pub scheme_metafeed_subkey : KeyScheme
scheme_metafeed_subkey = codes "metafeed-subkey"

-- `KeyScheme.Valid`
unfoldable pub is_valid : KeyScheme → Bool
is_valid ks =
    eqb ks scheme_large_symmetric_group
    || eqb ks scheme_diffie_style_converted_ed25519
    || eqb ks scheme_feed_message_signing_key
    || eqb ks scheme_metafeed_subkey

pub record IdxKey : Type 0 where
  pub ks : KeyScheme
  pub id : List ℕ

pub data KeyError : Type 0 where
  invalid_key_scheme no_such_key too_short claimed_type_length invalid_keytype claimed_id_length :
      KeyError
  index_failed not_in_list : KeyError

-- `binary.LittleEndian.PutUint16(data, uint16(n))`
abbrev pub put_uint16 : ℕ → List ℕ
put_uint16 n = n % 256 ∷ n / 256 % 256 ∷ []

-- `MarshalBinary`: the buffer has exactly the length that `Read` fills.
unfoldable pub marshal_binary : IdxKey → Result KeyError (List ℕ)
marshal_binary k =
    if is_valid k.ks
    then ok (put_uint16 (length k.ks) ++ (k.ks ++ (put_uint16 (length k.id) ++ k.id)))
    else err invalid_key_scheme

-- `copy(dst, src)`
abbrev pub copy : List ℕ → List ℕ → List ℕ
copy dst src = take (length dst) src ++ drop (length src) dst

-- The second half of `Write`, from the length of the id on.
unmarshal_id : KeyScheme → List ℕ → List ℕ → Result KeyError IdxKey
unmarshal_id ks id (lo ∷ hi ∷ rest) =
    let id_len = lo + 256 * hi in
    let room = if ltb (length id) id_len then replicate id_len 0 else id in
    if ltb (length rest) id_len
    then err claimed_id_length
    else ok (record { ks = ks; id = copy room rest })
unmarshal_id ks id data' = err claimed_type_length

-- `UnmarshalBinary` into a key whose id is `id`.
unfoldable pub unmarshal_binary : List ℕ → List ℕ → Result KeyError IdxKey
unfolding unmarshal_id
unmarshal_binary id (lo ∷ hi ∷ rest) =
    let type_len = lo + 256 * hi in
    let ks = take type_len rest in
    if ltb (length rest) (type_len + 2)
    then err claimed_type_length
    else if is_valid ks
    then unmarshal_id ks id (drop type_len rest)
    else err invalid_keytype
unmarshal_binary id data' = err too_short
