-- ===== src/Wal/Bytes.antt =====
-- format.rs: `to_le_bytes` and `from_le_bytes`.
use basisdb.Base.{ℕ, zero, suc, ◌+◌, ◌*◌, ◌%◌, ◌/◌, ◌<◌, ◌≡◌, List, [], ◌∷◌, arith}

-- The `n` bytes of a number, the lowest first.
unfoldable pub le_bytes : ℕ → ℕ → List ℕ
le_bytes zero x = []
le_bytes (suc n) x = x % 256 ∷ le_bytes n (x / 256)

unfoldable pub from_le : List ℕ → ℕ
from_le [] = 0
from_le (b ∷ bytes) = b + 256 * from_le bytes

-- One more than the largest number that fits `n` bytes.
unfoldable pub bytes_mod : ℕ → ℕ
bytes_mod zero = 1
bytes_mod (suc n) = 256 * bytes_mod n

pub from_le-le_bytes : (n x : ℕ) → x < bytes_mod n → from_le (le_bytes n x) ≡ x
unfolding from_le le_bytes bytes_mod
from_le-le_bytes zero x h = omega arith
from_le-le_bytes (suc n) x h =
    let rest : from_le (le_bytes n (x / 256)) ≡ x / 256 =
      from_le-le_bytes n (x / 256) (omega arith) in
    omega arith
