-- ===== src/Log/Checksum.antt =====
-- The mask of a stored checksum is undone by the reader.
use leveldb_rs.Base.{ℕ, ◌+◌, ◌-◌, ◌*◌, ◌/◌, ◌%◌, ◌^◌, ◌≡◌, ap, ◌∙◌, arith}
use leveldb_rs.Base.Bits.{or_shifted}
use leveldb_rs.Coding.{IsU32}
use leveldb_rs.Log.{mask_crc, unmask_crc, mask_delta}
use Prim.Native.Nat.{bit_or}

-- A rotation by or is one by sum.
rotate_right :
    (c : ℕ) → IsU32 c → bit_or (c / 2 ^ 15) (c * 2 ^ 17 % 2 ^ 32) ≡ c % 2 ^ 15 * 2 ^ 17 + c / 2 ^ 15
rotate_right c h =
    let e : c * 2 ^ 17 % 2 ^ 32 ≡ c % 2 ^ 15 * 2 ^ 17 = omega arith in
    ap (λ t. bit_or (c / 2 ^ 15) t) e ∙ or_shifted 17 (c % 2 ^ 15) (c / 2 ^ 15) (omega arith)

rotate_left :
    (r : ℕ) → IsU32 r → bit_or (r / 2 ^ 17) (r * 2 ^ 15 % 2 ^ 32) ≡ r % 2 ^ 17 * 2 ^ 15 + r / 2 ^ 17
rotate_left r h =
    let e : r * 2 ^ 15 % 2 ^ 32 ≡ r % 2 ^ 17 * 2 ^ 15 = omega arith in
    ap (λ t. bit_or (r / 2 ^ 17) t) e ∙ or_shifted 15 (r % 2 ^ 17) (r / 2 ^ 17) (omega arith)

unmask_crc-rotated :
    (mc m : ℕ)
    → (mc + 2 ^ 32 - mask_delta) % 2 ^ 32 ≡ m
    → IsU32 m
    → unmask_crc mc ≡ m % 2 ^ 17 * 2 ^ 15 + m / 2 ^ 17
unfolding unmask_crc
unmask_crc-rotated mc m e h =
    ap (λ r. bit_or (r / 2 ^ 17) (r * 2 ^ 15 % 2 ^ 32)) e ∙ rotate_left m h

mask_crc-rotated :
    (c : ℕ) → IsU32 c → mask_crc c ≡ (c % 2 ^ 15 * 2 ^ 17 + c / 2 ^ 15 + mask_delta) % 2 ^ 32
unfolding mask_crc
mask_crc-rotated c h = ap (λ t. (t + mask_delta) % 2 ^ 32) (rotate_right c h)

-- A masked checksum fits 32 bits, and unmasking gives the checksum back.
pub unmask-mask_crc : (c : ℕ) → IsU32 c → (unmask_crc (mask_crc c) ≡ c) × IsU32 (mask_crc c)
unmask-mask_crc c h =
    let m = c % 2 ^ 15 * 2 ^ 17 + c / 2 ^ 15 in
    let e = mask_crc-rotated c h in
    (
      unmask_crc-rotated (mask_crc c) m (omega (arith, e)) (omega arith) ∙ omega arith,
      omega (arith, e),
    )
