-- ===== src/SkipMap/Height.antt =====
-- The height of a new node in src/skipmap.rs.
use leveldb_rs.Base.{ℕ, zero, suc, ◌+◌, ◌%◌, ◌≤◌, arith, ltb, ◌==◌, Bool-cases, inl, inr, ltb→lt}
use leveldb_rs.SkipMap.{max_height, branching_factor, grow, random_height}

module _ {R : Type 0} (next_u32 : R → ℕ × R) where
  grow-bounds :
      (fuel height : ℕ) (rand : R)
      → height ≤ max_height
      → (height ≤ (grow next_u32 fuel height rand).0)
        × ((grow next_u32 fuel height rand).0 ≤ max_height)
  unfolding grow
  grow-bounds zero height rand h = (omega arith, h)
  grow-bounds (suc fuel) height rand h = elim (Bool-cases (ltb height max_height)) [
    | inr e ↦ rw (grow, e) (omega arith, h)
    | inl e ↦
        let ih =
          grow-bounds fuel (height + 1) (next_u32 rand).1
            (omega (arith, ltb→lt height max_height e)) in
        elim (Bool-cases ((next_u32 rand).0 % branching_factor == 0)) [
          | inl f ↦ rw (grow, e, f) (omega (arith, ih), ih.1)
          | inr f ↦ rw (grow, e, f) (omega arith, h)
        ]
  ]

  -- Whatever the generator answers, a node has from 1 to MAX_HEIGHT levels.
  pub random_height-bounds :
      (rand : R)
      → (1 ≤ (random_height next_u32 rand).0) × ((random_height next_u32 rand).0 ≤ max_height)
  unfolding random_height
  random_height-bounds rand = grow-bounds max_height 1 rand (omega arith)
