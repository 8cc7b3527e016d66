-- ===== src/KeyTypes/Tag.antt =====
-- The tag of a key: sequence number and value type in one number.
use leveldb_rs.Base.{ℕ, ◌+◌, ◌*◌, ◌%◌, ◌^◌, ◌<◌, ◌≡◌, ap, ◌∙◌, arith}
use leveldb_rs.Base.Bits.{shifted_or, and_low_mask}
use leveldb_rs.KeyTypes.{ValueType, type_deletion, type_value, discriminant, make_tag, parse_tag}
use Prim.Native.Nat.{bit_or}

pub discriminant-lt : (t : ValueType) → discriminant t < 2
discriminant-lt type_deletion = omega arith
discriminant-lt type_value = omega arith

-- Up to 2^56 no bit of the sequence number is lost.
pub make_tag-sum : (s : ℕ) (t : ValueType) → s < 2 ^ 56 → make_tag s t ≡ s * 256 + discriminant t
unfolding make_tag
make_tag-sum s t h =
    let e : s * 256 % 2 ^ 64 ≡ s * 256 = omega arith in
    ap (λ n. bit_or n (discriminant t)) e
    ∙ shifted_or 8 s (discriminant t) (omega (arith, discriminant-lt t))

pub make_tag-lt : (s : ℕ) (t : ValueType) → s < 2 ^ 56 → make_tag s t < 256 ^ 8
make_tag-lt s t h = omega (arith, make_tag-sum s t h, discriminant-lt t)

-- Reading the tag gives both parts back.
pub parse-make_tag : (s : ℕ) (t : ValueType) → s < 2 ^ 56 → parse_tag (make_tag s t) ≡ (t, s)
unfolding parse_tag
parse-make_tag s type_deletion h =
    ground (arith, make_tag-sum s type_deletion h, and_low_mask 8 (make_tag s type_deletion))
parse-make_tag s type_value h =
    ground (arith, make_tag-sum s type_value h, and_low_mask 8 (make_tag s type_value))
