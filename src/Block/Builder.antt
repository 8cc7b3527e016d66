-- ===== src/Block/Builder.antt =====
-- src/block_builder.rs.
use leveldb_rs.Base.{
  ℕ, suc, ◌+◌, ◌-◌, ◌*◌, ◌%◌, ◌^◌, Bool, true, false, Option, some, List, [], ◌∷◌, ◌++◌, length,
  take, drop, ltb, leb, ◌==◌, is_lt, if◌then◌else◌, assert, ◌>>=◌, ◌>>◌, Ordering,
}
use leveldb_rs.Coding.{Bytes, IntegerEncoding, encode_var, encode_fixed}

-- What the builder uses of the options is given by `cmp` and `interval`, in the sections below.
pub record BlockBuilder : Type 0 where
  pub buffer : Bytes
  pub restarts : List ℕ
  pub last_key : Bytes
  pub restart_counter : ℕ
  pub counter : ℕ

unfoldable pub new : BlockBuilder
new = record { buffer = []; restarts = 0 ∷ []; last_key = []; restart_counter = 0; counter = 0 }

pub entries : BlockBuilder → ℕ
entries b = b.counter

unfoldable pub size_estimate : BlockBuilder → ℕ
size_estimate b = length b.buffer + 4 * length b.restarts + 4

unfoldable pub reset : BlockBuilder → BlockBuilder
reset b = record { buffer = []; restarts = []; last_key = []; restart_counter = 0; counter = 0 }

-- The loop that counts the bytes that two keys share.
unfoldable pub shared_prefix : Bytes → Bytes → ℕ
shared_prefix [] ys = 0
shared_prefix (x ∷ xs) [] = 0
shared_prefix (x ∷ xs) (y ∷ ys) = let rest = shared_prefix xs ys in if x == y then suc rest else 0

abbrev pub is_empty : Bytes → Bool
is_empty [] = true
is_empty (b ∷ bs) = false

-- What `add` does before it writes: the shared length, or a new restart point.
unfoldable pub enter_restart : ℕ → BlockBuilder → Bytes → ℕ × BlockBuilder
enter_restart interval b key =
    if ltb b.restart_counter interval then (shared_prefix b.last_key key, b) else (
      0,
      record b {
        restarts = b.restarts ++ (length b.buffer % 2 ^ 32 ∷ []);
        last_key = [];
        restart_counter = 0;
      },
    )

module _ ⦃ie : IntegerEncoding⦄ where
  unfoldable pub entry : ℕ → Bytes → Bytes → Bytes
  entry shared key val =
      encode_var shared
      ++ (encode_var (length key - shared) ++ (encode_var (length val) ++ (drop shared key ++ val)))

  unfoldable pub write_entry : ℕ → BlockBuilder → Bytes → Bytes → BlockBuilder
  write_entry shared b key val = record b {
    buffer = b.buffer ++ entry shared key val;
    last_key = take shared b.last_key ++ drop shared key;
    restart_counter = b.restart_counter + 1;
    counter = b.counter + 1;
  }

  unfoldable pub add :
      (Bytes → Bytes → Option Ordering) → ℕ → BlockBuilder → Bytes → Bytes → Option BlockBuilder
  add cmp interval b key val = do
    assert (leb b.restart_counter interval)
    ordered ← if is_empty b.buffer then some true else (cmp b.last_key key >>= λ o. some (is_lt o))
    assert ordered
    let (shared, b') = enter_restart interval b key
    some (write_entry shared b' key val)

  unfoldable pub write_restarts : List ℕ → Bytes
  write_restarts [] = []
  write_restarts (r ∷ rs) = encode_fixed 4 r ++ write_restarts rs

  unfoldable pub finish : BlockBuilder → Bytes
  finish b = b.buffer ++ (write_restarts b.restarts ++ encode_fixed 4 (length b.restarts % 2 ^ 32))
