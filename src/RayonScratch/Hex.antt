-- ===== src/RayonScratch/Hex.antt =====
-- examples/rayon_scratch.rs: the hex digits of a blob.
use Prim.Native.Nat.{bit_and}
use mathlib.Core.List.{append_assoc, append-nil}
use native.Mathlib.Decide.{ℕ_discrete}
use par_buffer_pool.Base.{
  ℕ, zero, suc, ◌+◌, ◌*◌, ◌-◌, ◌/◌, ◌<◌, ◌^◌, Bool, true, false, ◌&&◌, Option, none, some, List, [],
  ◌∷◌, ◌++◌, ◌≡◌, refl, ap, ◌∙◌, arith, ◌==◌, ltb, if◌then◌else◌, get_elem?, push, All, length,
}
use par_buffer_pool.Base.Text.{Text, len, ascii}
use par_buffer_pool.Base.Effect.{returned}
use par_buffer_pool.RayonScratch.{hex_digits, push_bytes, encode}

-- The value of a digit, and of a text of digits, two for each byte.
abbrev pub digit_value : ℕ → ℕ
digit_value c = if ltb c 0x3a then c - 0x30 else c - 0x57

pub decode : Text → Option (List ℕ)
decode [] = some []
decode (a ∷ []) = none
decode (a ∷ b ∷ hex) = elim (decode hex) [
  | none ↦ none
  | some blob ↦ some ((digit_value a * 16 + digit_value b) ∷ blob)
]

-- Whether two digits stand for a byte.
abbrev stands_for : Option ℕ → Option ℕ → ℕ → Bool
stands_for none b byte = false
stands_for (some a) none byte = false
stands_for (some a) (some b) byte =
    (digit_value a * 16 + digit_value b == byte) && (ltb a 0x80 && ltb b 0x80)

abbrev digits_stand : ℕ → Bool
digits_stand byte =
    stands_for (get_elem? hex_digits (byte / 2 ^ 4)) (get_elem? hex_digits (bit_and byte 0x0f)) byte

all_below : (ℕ → Bool) → ℕ → Bool
all_below p zero = true
all_below p (suc n) = p n && all_below p n

both : (a b : Bool) → (a && b) ≡ true → (a ≡ true) × (b ≡ true)
both true b h = (refl, h)
both false b h = absurd (cc)

all_below_lem : (p : ℕ → Bool) (n k : ℕ) → all_below p n ≡ true → k < n → p k ≡ true
unfolding all_below
all_below_lem p zero k h low = absurd (omega arith)
all_below_lem p (suc n) k h low = elim (ℕ_discrete k n) [
  | yes e ↦ ap p e ∙ (both (p n) (all_below p n) h).0
  | no d ↦ all_below_lem p n k (both (p n) (all_below p n) h).1 (omega arith)
]

every_byte : all_below digits_stand 256 ≡ true
unfolding all_below
every_byte = refl

-- The digits of a byte.
record Digits (byte a b : ℕ) : Type 0 where
  high : get_elem? hex_digits (byte / 2 ^ 4) ≡ some a
  low : get_elem? hex_digits (bit_and byte 0x0f) ≡ some b
  value : digit_value a * 16 + digit_value b ≡ byte
  first_ascii : a < 0x80
  second_ascii : b < 0x80

Digits-of : (byte : ℕ) → byte < 2 ^ 8 → (a : ℕ) × (b : ℕ) × Digits byte a b
Digits-of byte small = split _ _ refl refl (all_below_lem digits_stand 256 byte every_byte small)
  where
    split :
        (o p : Option ℕ)
        → get_elem? hex_digits (byte / 2 ^ 4) ≡ o
        → get_elem? hex_digits (bit_and byte 0x0f) ≡ p
        → stands_for o p byte ≡ true
        → (a : ℕ) × (b : ℕ) × Digits byte a b
    split none p e f h = absurd (cc)
    split (some a) none e f h = absurd (cc)
    split (some a) (some b) e f h =
        let (v, plain) =
          both (digit_value a * 16 + digit_value b == byte) (ltb a 0x80 && ltb b 0x80) h in
        let (x, y) = both (ltb a 0x80) (ltb b 0x80) plain in
        (
          a,
          b,
          record {
            high = e;
            low = f;
            value = ground arith;
            first_ascii = ground arith;
            second_ascii = ground arith;
          },
        )

-- What the loop over a blob puts after the text that is there.
push_bytes_lem :
    (blob : List ℕ) (hex : Text)
    → All (λ n. n < 2 ^ 8) blob
    → (t : Text) × (push_bytes blob hex ≡ (returned tt, hex ++ t))
      × (decode t ≡ some blob)
      × (len t ≡ 2 * length blob)
unfolding push_bytes decode
push_bytes_lem [] hex h = ([], rw (append-nil hex) refl, refl, omega arith)
push_bytes_lem (byte ∷ blob) hex h =
    let (a, b, d) = Digits-of byte h.0 in
    let (t, e, back, long) = push_bytes_lem blob (push (push hex a) b) h.1 in
    let joined = append_assoc (push hex a) (b ∷ []) t ∙ append_assoc hex (a ∷ []) (b ∷ t) in
    (
      a ∷ b ∷ t,
      rw (d.high, d.low) (e ∙ ap (λ z. (returned tt, z)) joined),
      rw (back, d.value) refl,
      omega (arith, long, ascii a d.first_ascii, ascii b d.second_ascii),
    )

-- Whatever the buffer held before, the encoding of a blob of bytes returns twice its length and
-- leaves a text from which `decode` gives the blob back.
pub encode-decodes :
    (blob : List ℕ) (hex : Text)
    → All (λ n. n < 2 ^ 8) blob
    → let (result, hex') = encode blob hex in
      (result ≡ returned (2 * length blob)) × (decode hex' ≡ some blob)
unfolding encode
encode-decodes blob hex h =
    let (t, e, back, long) = push_bytes_lem blob [] h in rw (e, long) (refl, back)
