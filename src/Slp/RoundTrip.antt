-- ===== src/Slp/RoundTrip.antt =====
-- Decoding what was encoded, and encoding what was decoded.
use mathlib.Core.List.{append-nil, append_assoc}
use metalife_pub.Prelude.{
  ℕ, zero, suc, ◌+◌, ◌*◌, ◌/◌, ◌%◌, ◌<◌, ◌≤◌, List, [], ◌∷◌, ◌++◌, none, some, false, ltb, ◌≡◌, ◌≢◌,
  ◌↔◌, inl, inr, refl, sym, ap, subst, ◌∙◌, arith, Bool-cases, string_eq, pair_eq, bool_eq, length,
  take, drop, take-append, take-append-drop, length-take, length-drop, drop-append, length-append,
}
use metalife_pub.Slp.{
  encode_uint16, encode_from, encode, Decoded, done, panicked, out_of_fuel, entry_and, decode_entry,
  decode_loop, decode,
}

-- The encoding of one element after the other.
framed : List (List ℕ) → List ℕ
framed [] = []
framed (e ∷ es) = (length e % 256) ∷ (length e / 256 % 256) ∷ (e ++ framed es)

abbrev pub Short : List (List ℕ) → Type 0
Short [] = Unit
Short (e ∷ es) = (length e < 65536) × Short es

encode_from-framed :
    (out : List ℕ) (es : List (List ℕ)) → Short es → encode_from out es ≡ some (out ++ framed es)
unfolding encode_from encode_uint16 framed
encode_from-framed out [] h = ap some (sym (append-nil out))
encode_from-framed out (e ∷ es) h =
    let fits : ltb 65535 (length e) ≡ false = ground arith in
    let l = length e in
    rw fits (
      encode_from-framed ((out ++ l % 256 ∷ l / 256 % 256 ∷ []) ++ e) es h.1
      ∙ ap some (
          append_assoc (out ++ l % 256 ∷ l / 256 % 256 ∷ []) e (framed es)
          ∙ append_assoc out (l % 256 ∷ l / 256 % 256 ∷ []) (e ++ framed es)))

decode_entry-append :
    (rest : List ℕ → Decoded) (e input : List ℕ)
    → decode_entry rest (length e) (e ++ input) ≡ entry_and e (rest input)
unfolding decode_entry
decode_entry-append rest e input =
    ground (arith, length-append e input, take-append e input, drop-append e input)

decode_loop-framed :
    (fuel : ℕ) (es : List (List ℕ))
    → Short es
    → length (framed es) ≤ fuel
    → decode_loop fuel (framed es) ≡ done es
unfolding decode_loop framed
decode_loop-framed fuel [] h b = refl
decode_loop-framed zero (e ∷ es) h b = absurd (omega arith)
decode_loop-framed (suc fuel) (e ∷ es) h b =
    let l : length e % 256 + 256 * (length e / 256 % 256) ≡ length e = omega arith in
    let ih = decode_loop-framed fuel es h.1 (omega (arith, length-append e (framed es))) in
    rw l (decode_entry-append (decode_loop fuel) e (framed es) ∙ rw ih)

-- A list whose elements have at most 65535 bytes each is encoded, and decoded to the same list.
pub decode-encode :
    (list : List (List ℕ))
    → Short list
    → (out : List ℕ) × (encode list ≡ some out) × (decode out ≡ done list)
unfolding encode decode
decode-encode list h = (
  framed list,
  encode_from-framed [] list h,
  decode_loop-framed (length (framed list)) list h (omega arith),
)

-- An element that is too long is an error, whatever stands before it.
encode_from-too_long :
    (out : List ℕ) (list : List (List ℕ)) → ¬ Short list → encode_from out list ≡ none
unfolding encode_from
encode_from-too_long out [] h = absurd (h tt)
encode_from-too_long out (e ∷ es) h = elim (Bool-cases (ltb 65535 (length e))) [
  | inl long ↦ rw long
  | inr fits ↦
      rw fits
        (encode_from-too_long (encode_uint16 out (length e) ++ e) es (λ s. h (ground arith, s)))
]

-- `Encode` fails exactly on the lists that have an element of more than 65535 bytes.
pub encode_fails_iff : (list : List (List ℕ)) → (encode list ≡ none) ↔ (¬ Short list)
unfolding encode
encode_fails_iff list =
    (λ e s. ground (arith, encode_from-framed [] list s), encode_from-too_long [] list)

abbrev pub Bytes : List ℕ → Type 0
Bytes [] = Unit
Bytes (b ∷ bs) = (b < 256) × Bytes bs

Bytes-drop : (n : ℕ) (bs : List ℕ) → Bytes bs → Bytes (drop n bs)
Bytes-drop zero bs h = h
Bytes-drop (suc n) [] h = tt
Bytes-drop (suc n) (b ∷ bs) h = Bytes-drop n bs h.1

entry_and-done :
    (entry : List ℕ) (d : Decoded) (out : List (List ℕ))
    → entry_and entry d ≡ done out
    → (more : List (List ℕ)) × (d ≡ done more) × (out ≡ entry ∷ more)
entry_and-done entry (done more) out h = (more, refl, cc)
entry_and-done entry panicked out h = cc
entry_and-done entry out_of_fuel out h = cc

decode_entry-done :
    (rest : List ℕ → Decoded) (n : ℕ) (input : List ℕ) (out : List (List ℕ))
    → decode_entry rest n input ≡ done out
    → (n ≤ length input)
      × (more : List (List ℕ)) × (rest (drop n input) ≡ done more)
      × (out ≡ take n input ∷ more)
unfolding decode_entry
decode_entry-done rest n input out h = elim (Bool-cases (ltb (length input) n)) [
  | inl long ↦ absurd (ground arith)
  | inr fits ↦
      let (more, done_rest, joined) =
        entry_and-done (take n input) (rest (drop n input)) out (ground arith) in
      (ground arith, more, done_rest, joined)
]

length_taken : (n : ℕ) (input : List ℕ) → n ≤ length input → length (take n input) ≡ n
length_taken n input h = omega (arith, length-take n input)

done_injective : (a b : List (List ℕ)) → done a ≡ done b → a ≡ b
done_injective a b h = cc

framed-cons :
    (x y : ℕ) (e : List ℕ) (es : List (List ℕ)) (input : List ℕ)
    → x < 256
    → y < 256
    → length e ≡ x + 256 * y
    → e ++ framed es ≡ input
    → framed (e ∷ es) ≡ x ∷ y ∷ input
unfolding framed
framed-cons x y e es input hx hy l h =
    let p : length e % 256 ≡ x = omega arith in
    let q : length e / 256 % 256 ≡ y = omega arith in rw p (rw q (ap (λ s. x ∷ y ∷ s) h))

entry_fuel :
    (rest : List ℕ → Decoded) (n : ℕ) (input : List ℕ)
    → decode_entry rest n input ≡ out_of_fuel
    → rest (drop n input) ≡ out_of_fuel
unfolding decode_entry
entry_fuel rest n input h = ground arith

decode_loop_sound :
    (fuel : ℕ) (input : List ℕ) (out : List (List ℕ))
    → Bytes input
    → decode_loop fuel input ≡ done out
    → (framed out ≡ input) × Short out
unfolding decode_loop
decode_loop_sound zero [] out b h =
    subst (λ o. (framed o ≡ []) × Short o) (done_injective [] out h) (unfold framed in refl, tt)
decode_loop_sound zero (x ∷ input) out b h = cc
decode_loop_sound (suc fuel) [] out b h =
    subst (λ o. (framed o ≡ []) × Short o) (done_injective [] out h) (unfold framed in refl, tt)
decode_loop_sound (suc fuel) (x ∷ []) out b h = cc
decode_loop_sound (suc fuel) (x ∷ y ∷ input) out b h =
    let n = x + 256 * y in
    let (room, more, rest, joined) = decode_entry-done (decode_loop fuel) n input out h in
    let (same, short) =
      decode_loop_sound fuel (drop n input) more (Bytes-drop n input b.1.1) rest in
    let len = length_taken n input room in
    subst (λ o. (framed o ≡ x ∷ y ∷ input) × Short o) (sym joined)
      (
        framed-cons x y (take n input) more input b.0 b.1.0 len
            (ap (λ l. take n input ++ l) same ∙ take-append-drop n input),
        (omega arith, short),
      )

decode_loop-fuel :
    (fuel : ℕ) (input : List ℕ) → length input ≤ fuel → decode_loop fuel input ≢ out_of_fuel
unfolding decode_loop decode_entry
decode_loop-fuel zero [] h e = cc
decode_loop-fuel (suc fuel) [] h e = cc
decode_loop-fuel zero (x ∷ input) h e = absurd (omega arith)
decode_loop-fuel (suc fuel) (x ∷ []) h e = cc
decode_loop-fuel (suc fuel) (x ∷ y ∷ input) h e =
    decode_loop-fuel fuel (drop (x + 256 * y) input)
      (omega (arith, length-drop (x + 256 * y) input))
      (entry_fuel (decode_loop fuel) (x + 256 * y) input e)

-- `Decode` ends, within one round for each byte of the input: it returns a list or it panics. A list
-- that it returns for an input of bytes has only elements of at most 65535 bytes, and is encoded to
-- that input again.
pub encode-decode :
    (input : List ℕ)
    → Bytes input
    → (decode input ≢ out_of_fuel)
      × ((out : List (List ℕ)) → decode input ≡ done out → Short out × (encode out ≡ some input))
unfolding decode encode
encode-decode input b = (
  decode_loop-fuel (length input) input (omega arith),
  λ out h.
      let (same, short) = decode_loop_sound (length input) input out b h in
      (short, encode_from-framed [] out short ∙ ap some same),
)
