-- ===== src/Coding/Leb128.antt =====
-- A value of `IntegerEncoding`: seven bits a byte, lowest group first, with the top bit on every
-- byte but the last; and little-endian bytes. It shows that the laws can hold, and lets the
-- definitions run on concrete inputs.
use native.Mathlib.Nat.{pow-le-pow_right}
use leveldb_rs.Base.{drop, drop_append, length-drop, ◌∙◌}
use leveldb_rs.Base.{replicate}
use leveldb_rs.Base.{
  ℕ, zero, suc, ◌+◌, ◌*◌, ◌/◌, ◌%◌, ◌^◌, ◌≤◌, ◌<◌, ◌≡◌, refl, ap, arith, ltb, if◌then◌else◌, Option,
  Option-cases, inl, inr, none, some, [], ◌∷◌, ◌++◌, length, All,
}
use leveldb_rs.Coding.{Bytes, IsByte, IntegerEncoding}
use mathlib.Core.Option
use native.Mathlib.Nat.{pow-suc}

unfoldable pub groups : ℕ → ℕ → Bytes
groups zero v = (v % 128) ∷ []
groups (suc k) v =
    let more = groups k (v / 128) in if ltb v 128 then v ∷ [] else (v % 128 + 128) ∷ more

abbrev join_group : ℕ → ℕ × ℕ → ℕ × ℕ
join_group b p = (b % 128 + 128 * p.0, p.1 + 1)

unfoldable pub ungroup : ℕ → Bytes → Option (ℕ × ℕ)
ungroup k [] = none
ungroup zero (b ∷ bs) = none
ungroup (suc k) (b ∷ bs) =
    let more = ungroup k bs in if ltb b 128 then some (b, 1) else Option.map (join_group b) more

unfoldable pub little_endian : ℕ → ℕ → Bytes
little_endian zero n = []
little_endian (suc w) n = (n % 256) ∷ little_endian w (n / 256)

unfoldable pub from_little_endian : Bytes → ℕ
from_little_endian [] = 0
from_little_endian (b ∷ bs) = b + 256 * from_little_endian bs

pub groups-IsByte : (k v : ℕ) → All IsByte (groups k v)
unfolding groups
groups-IsByte zero v = omega arith
groups-IsByte (suc k) v = ground (arith, groups-IsByte k (v / 128))

pub length-groups : (k v : ℕ) → (0 < length (groups k v)) × (length (groups k v) ≤ k + 1)
unfolding groups
length-groups zero v = omega arith
length-groups (suc k) v = ground (arith, length-groups k (v / 128))

pub ungroup-groups :
    (k v : ℕ) (rest : Bytes)
    → v < 128 ^ suc k
    → ungroup (suc k) (groups k v ++ rest) ≡ some (v, length (groups k v))
unfolding groups ungroup
ungroup-groups zero v rest h = ground arith
ungroup-groups (suc k) v rest h = ground (
  arith,
  pow-suc 128 (suc k),
  ungroup-groups k (v / 128) rest (omega (arith, pow-suc 128 (suc k))),
)

pub ungroup-nil : (k : ℕ) → ungroup k [] ≡ none
unfolding ungroup
ungroup-nil k = refl

pub ungroup_takes :
    (k : ℕ) (src : Bytes) (n l : ℕ) → ungroup k src ≡ some (n, l) → (0 < l) × (l ≤ length src)
unfolding ungroup
ungroup_takes k [] n l h = cc
ungroup_takes zero (b ∷ bs) n l h = cc
ungroup_takes (suc k) (b ∷ bs) n l h = elim (Option-cases (ungroup k bs)) [
  | inl e ↦ ground arith
  | inr (p, e) ↦ ground (arith, ungroup_takes k bs p.0 p.1 e)
]

pub length-little_endian : (w n : ℕ) → length (little_endian w n) ≡ w
unfolding little_endian
length-little_endian zero n = refl
length-little_endian (suc w) n = ap suc (length-little_endian w (n / 256))

pub little_endian-IsByte : (w n : ℕ) → All IsByte (little_endian w n)
unfolding little_endian
little_endian-IsByte zero n = tt
little_endian-IsByte (suc w) n = (omega arith, little_endian-IsByte w (n / 256))

pub from_little_endian_lem : (w n : ℕ) → n < 256 ^ w → from_little_endian (little_endian w n) ≡ n
unfolding little_endian from_little_endian
from_little_endian_lem zero n h = omega arith
from_little_endian_lem (suc w) n h =
    let ih = from_little_endian_lem w (n / 256) (omega (arith, pow-suc 256 w)) in omega (arith, ih)

pub from_little_endian-zeros : (w : ℕ) → from_little_endian (replicate w 0) ≡ 0
unfolding from_little_endian
from_little_endian-zeros zero = refl
from_little_endian-zeros (suc w) = omega (arith, from_little_endian-zeros w)

pub from_little_endian-lt :
    (src : Bytes) → All IsByte src → from_little_endian src < 256 ^ length src
unfolding from_little_endian
from_little_endian-lt [] h = omega arith
from_little_endian-lt (b ∷ bs) h =
    omega (arith, h.0, pow-suc 256 (length bs), from_little_endian-lt bs h.1)

abbrev read_group : ℕ → Bytes → Option (ℕ × ℕ) → Option (ℕ × Bytes)
read_group w src none = none
read_group w src (some (n, l)) = if ltb n (2 ^ w) then some (n, drop l src) else none

abbrev pub read_groups : ℕ → Bytes → Option (ℕ × Bytes)
read_groups w src = read_group w src (ungroup 10 src)

pub read_groups-groups :
    (w n : ℕ) (rest : Bytes)
    → w ≤ 64
    → n < 2 ^ w
    → read_groups w (groups 9 n ++ rest) ≡ some (n, rest)
read_groups-groups w n rest hw h =
    ap (λ o. read_group w (groups 9 n ++ rest) o)
      (ungroup-groups 9 n rest
        (omega (arith, pow-le-pow_right (let z : 0 < 2 = omega arith in z) hw)))
    ∙ ground (arith, drop_append (length (groups 9 n)) (groups 9 n) rest refl)

pub read_groups_takes :
    (w : ℕ) (src : Bytes) (n : ℕ) (rest : Bytes)
    → read_groups w src ≡ some (n, rest)
    → length rest < length src
read_groups_takes w src n rest h = elim (Option-cases (ungroup 10 src)) [
  | inl e ↦ ground (arith, e)
  | inr ((m, l), e) ↦ ground (arith, ungroup_takes 10 src m l e, length-drop l src)
]

pub read_groups_drops :
    (w : ℕ) (src : Bytes) (n : ℕ) (rest : Bytes)
    → read_groups w src ≡ some (n, rest)
    → (l : ℕ) × (rest ≡ drop l src)
read_groups_drops w src n rest h = elim (Option-cases (ungroup 10 src)) [
  | inl e ↦ absurd (ground (arith, e, h))
  | inr ((m, l), e) ↦ (l, ground (arith, e, h))
]

instance abbrev pub leb128 : IntegerEncoding
leb128 = record {
  encode_var = groups 9;
  required_space = λ n. length (groups 9 n);
  decode_var = ungroup 10;
  encode_fixed = little_endian;
  decode_fixed = from_little_endian;
  read_varint = read_groups;
  read-encode_var = read_groups-groups;
  read_varint_takes = read_groups_takes;
  read_varint_drops = read_groups_drops;
  encode_var-IsByte = groups-IsByte 9;
  length-encode_var = λ n. refl;
  required_space_pos = λ n. (length-groups 9 n).0;
  required_space-le = λ n h. (length-groups 9 n).1;
  decode-encode_var = λ n rest h. ungroup-groups 9 n rest (omega arith);
  decode_var_nil = ungroup-nil 10;
  decode_var_takes = ungroup_takes 10;
  length-encode_fixed = length-little_endian;
  encode_fixed-IsByte = little_endian-IsByte;
  decode-encode_fixed = from_little_endian_lem;
  decode_fixed_zeros = from_little_endian-zeros;
  decode_fixed-lt = from_little_endian-lt;
}
