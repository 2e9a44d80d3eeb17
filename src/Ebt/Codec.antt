-- ===== src/Ebt/Codec.antt =====
-- A note read back from its form on the wire.
use metalife_pub.Prelude.{
  ℕ, ◌+◌, ◌*◌, ◌^◌, ◌<◌, some, Bool, true, false, ◌==◌, if◌then◌else◌, ok, ◌≡◌, refl, sym, ap, ◌∙◌,
  arith, ◌⊎◌, inl, inr, subst,
}
use metalife_pub.Prelude.Int.{ℤ, pos, negsuc, ◌*ℤ◌, ◌=ℤ◌}
use metalife_pub.Prelude.Int64.{IsInt64}
use metalife_pub.Strconv.{format_int, parse_int}
use metalife_pub.Strconv.RoundTrip.{parse_int-format_int}
use metalife_pub.Ebt.{Note, marshal_note, unmarshal_note, set_note, shl_one, or_one}

-- The sequence numbers that fit beside the flag: -1 for an empty feed, and 0 up to 2 ^ 62.
abbrev pub IsEncodable : Note → Type 0
IsEncodable n = (n.seq ≡ negsuc 0) ⊎ ((k : ℕ) × (n.seq ≡ pos k) × (k < 2 ^ 62))

-- What the peer makes of a note, if `old` stood where it decodes the note to.
abbrev pub received : Note → Note → Note
received old n =
    if n.replicate
    then record n { seq = if n.seq =ℤ negsuc 0 then pos 0 else n.seq }
    else record old { replicate = false }

wire : Bool → ℕ → ℤ
wire true k = shl_one (pos k)
wire false k = or_one (shl_one (pos k))

wire_lem : (r : Bool) (k : ℕ) → k < 2 ^ 62 → wire r k ≡ pos (2 * k + (if r then 0 else 1))
unfolding wire ◌*ℤ◌
wire_lem true k h = ground arith
wire_lem false k h = ground arith

set-wire :
    (old : Note) (r : Bool) (k : ℕ)
    → k < 2 ^ 62
    → set_note old (pos (2 * k + (if r then 0 else 1)))
      ≡ ok (record { seq = pos k; replicate = true; receive = r })
unfolding set_note
set-wire old true k h = ground arith
set-wire old false k h = ground arith

read_back :
    (old : Note) (r : Bool) (k : ℕ)
    → k < 2 ^ 62
    → unmarshal_note old (format_int (wire r k))
      ≡ ok (record { seq = pos k; replicate = true; receive = r })
unfolding unmarshal_note
read_back old r k h =
    let in_range : IsInt64 (wire r k) = rw (wire_lem r k h) (bit_in_range r k h) in
    let parsed = parse_int-format_int (wire r k) in_range ∙ ap some (wire_lem r k h) in
    rw (parsed, unmarshal_note) (set-wire old r k h)
  where
    bit_in_range : (r : Bool) (k : ℕ) → k < 2 ^ 62 → 2 * k + (if r then 0 else 1) < 2 ^ 63
    bit_in_range true k h = omega arith
    bit_in_range false k h = omega arith

marshal-wire :
    (k : ℕ) (r : Bool)
    → marshal_note (record { seq = pos k; replicate = true; receive = r }) ≡ format_int (wire r k)
unfolding marshal_note wire
marshal-wire k true = let e : (k + 1 == 0) ≡ false = ground arith in rw e
marshal-wire k false = let e : (k + 1 == 0) ≡ false = ground arith in rw e

marshal_empty :
    (r : Bool)
    → marshal_note (record { seq = negsuc 0; replicate = true; receive = r })
      ≡ format_int (wire r 0)
unfolding marshal_note wire
marshal_empty true = refl
marshal_empty false = refl

abbrev flags : Bool → Bool → ℤ → Note
flags replicate receive seq = record { seq = seq; replicate = replicate; receive = receive }

read_parts :
    (old : Note) (seq : ℤ) (replicate receive : Bool)
    → IsEncodable (flags replicate receive seq)
    → unmarshal_note old (marshal_note (flags replicate receive seq))
      ≡ ok (received old (flags replicate receive seq))
read_parts old seq false receive h = unfold unmarshal_note marshal_note parse_int in refl
read_parts old seq true receive (inl e) =
    subst
      (λ s.
        unmarshal_note old (marshal_note (flags true receive s))
        ≡ ok (received old (flags true receive s)))
      (sym e) (rw (marshal_empty receive) (read_back old receive 0 (omega arith)))
read_parts old seq true receive (inr (k, e, b)) =
    let kept : (k + 1 == 0) ≡ false = ground arith in
    subst
      (λ s.
        unmarshal_note old (marshal_note (flags true receive s))
        ≡ ok (received old (flags true receive s)))
      (sym e) (rw (marshal-wire k receive) (rw kept (read_back old receive k b)))

-- A note whose sequence is -1, or 0 up to 2 ^ 62 exclusive, is read back from its JSON: with its
-- flags and its sequence (0 for -1) if it replicates, and else as the note that stood there with
-- the replicate flag taken away.
pub unmarshal_note-marshal_note :
    (old n : Note) → IsEncodable n → unmarshal_note old (marshal_note n) ≡ ok (received old n)
unmarshal_note-marshal_note old n h = read_parts old n.seq n.replicate n.receive h
