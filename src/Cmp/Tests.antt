-- ===== src/Cmp/Tests.antt =====
-- Runs from the source's own tests, and the theorems at concrete inputs.
use leveldb_rs.Base.{◌≡◌, refl, some, [], ◌∷◌, ◌++◌, Ordering}
use leveldb_rs.Coding.{Bytes}
use leveldb_rs.Cmp.{cmp_bytes, find_shortest_sep, find_short_succ}
use leveldb_rs.Cmp.Separator.{find_shortest_sep_between, find_shortest_sep_successor}

abbrev abcd : Bytes
abcd = b'a' ∷ b'b' ∷ b'c' ∷ b'd' ∷ []

abbrev abcf : Bytes
abcf = b'a' ∷ b'b' ∷ b'c' ∷ b'f' ∷ []

sep_close : find_shortest_sep abcd abcf ≡ some (b'a' ∷ b'b' ∷ b'c' ∷ b'e' ∷ [])
unfolding find_shortest_sep
sep_close = refl

sep_shared_prefix :
    find_shortest_sep (abcd ++ b'e' ∷ b'f' ∷ []) (abcf ++ b'f' ∷ b'g' ∷ [])
    ≡ some (b'a' ∷ b'b' ∷ b'c' ∷ b'e' ∷ [])
unfolding find_shortest_sep
sep_shared_prefix = refl

sep_adjacent : find_shortest_sep (b'a' ∷ []) (b'b' ∷ []) ≡ some (b'a' ∷ 0 ∷ [])
unfolding find_shortest_sep
sep_adjacent = refl

sep_last : find_shortest_sep (b'y' ∷ b'y' ∷ b'y' ∷ []) (b'z' ∷ []) ≡ some (b'y' ∷ b'y' ∷ b'z' ∷ [])
unfolding find_shortest_sep
sep_last = refl

succ_abcd : find_short_succ abcd ≡ b'b' ∷ []
unfolding find_short_succ
succ_abcd = refl

succ_full : find_short_succ (255 ∷ 255 ∷ []) ≡ 255 ∷ 255 ∷ 255 ∷ []
unfolding find_short_succ
succ_full = refl

find_shortest_sep_between_example :
    (s : Bytes) × (find_shortest_sep abcd abcf ≡ some s)
    × (cmp_bytes abcd s ≡ Ordering.lt)
    × (cmp_bytes s abcf ≡ Ordering.lt)
find_shortest_sep_between_example = find_shortest_sep_between abcd abcf refl (λ e. cc) (λ e. cc)

find_shortest_sep_successor_example :
    find_shortest_sep abcd (abcd ++ 0 ∷ []) ≡ some (abcd ++ 0 ∷ [])
find_shortest_sep_successor_example = find_shortest_sep_successor abcd (λ e. cc)
