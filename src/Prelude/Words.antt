-- ===== src/Prelude/Words.antt =====
-- Machine words: `u64` arithmetic with the wrap-around and the saturation written out, and the
-- bytes of a word in both orders.
use Prim.Native.Nat.{ℕ, zero, suc, ◌+◌, ◌*◌, ◌/◌, ◌%◌, ◌^◌, ◌<◌, min}
use mathlib.Core.Path.{◌≡◌, refl, ap, sym, ◌∙◌}
use mathlib.Core.List.{List, [], ◌∷◌}
use native.Mathlib.Omega.{arith}
use devsite.Prelude.Lists.{length}

abbrev pub u64_max : ℕ
u64_max = 18446744073709551615

abbrev pub u32_mod : ℕ
u32_mod = 4294967296

abbrev pub u64_mod : ℕ
u64_mod = 18446744073709551616

-- `a + b` in a release build.
abbrev pub add_u64 : ℕ → ℕ → ℕ
add_u64 a b = (a + b) % u64_mod

-- `a.saturating_add(b)`.
abbrev pub saturating_add : ℕ → ℕ → ℕ
saturating_add a b = min (a + b) u64_max

-- The `k` low bytes of a word, the lowest first: `to_le_bytes`.
unfoldable pub le_bytes : ℕ → ℕ → List ℕ
le_bytes zero n = []
le_bytes (suc k) n = (n % 256) ∷ le_bytes k (n / 256)

-- The number that bytes spell, the lowest first: `from_le_bytes`.
unfoldable pub from_le : List ℕ → ℕ
from_le [] = 0
from_le (b ∷ bs) = b + 256 * from_le bs

pub length-le_bytes : (k n : ℕ) → length (le_bytes k n) ≡ k
unfolding le_bytes
length-le_bytes zero n = refl
length-le_bytes (suc k) n = ap suc (length-le_bytes k (n / 256))

-- `to_be_bytes` of the `k` low bytes.
unfoldable pub be_bytes : ℕ → ℕ → List ℕ
be_bytes zero n = []
be_bytes (suc k) n = (n / 256 ^ k % 256) ∷ be_bytes k n

unfoldable pub from_be : ℕ → List ℕ → ℕ
from_be acc [] = acc
from_be acc (b ∷ bs) = from_be (acc * 256 + b) bs

pub length-be_bytes : (k n : ℕ) → length (be_bytes k n) ≡ k
unfolding be_bytes
length-be_bytes zero n = refl
length-be_bytes (suc k) n = ap suc (length-be_bytes k n)

-- The four bytes of a `u32` give it back.
pub from_le-le_bytes : (n : ℕ) → n < u32_mod → from_le (le_bytes 4 n) ≡ n
unfolding from_le le_bytes
from_le-le_bytes n h = omega arith

from_be-be_bytes : (n : ℕ) → n < u64_mod → from_be 0 (be_bytes 8 n) ≡ n
unfolding from_be be_bytes
from_be-be_bytes n h = omega arith

-- The eight bytes of a `u64` determine it.
pub be_bytes-injective : (m n : ℕ) → m < u64_mod → n < u64_mod → be_bytes 8 m ≡ be_bytes 8 n → m ≡ n
be_bytes-injective m n h k e = sym (from_be-be_bytes m h) ∙ ap (from_be 0) e ∙ from_be-be_bytes n k
