-- ===== src/Common/Words.antt =====
-- Machine words as native numbers: the wrap-around is `%`, `1 << k` is `2 ^ k`, and single bits are
-- read and set by recursion on their position.
use Prim.Native.Nat.{ℕ, zero, suc, ◌+◌, ◌-◌, ◌/◌, ◌%◌, ◌^◌, ◌≤◌, ◌<◌}
use mathlib.Core.Path.{◌≡◌}
use mathlib.Core.Bool.{Bool, true, false}
use native.Mathlib.Omega.{arith}
use native.Mathlib.Nat.{pow-suc}
use jam_server_prototype.Common.Tests.{◌==◌, if◌then◌else◌}

abbrev pub u16 : ℕ → ℕ
u16 n = n % 65536

abbrev pub u32 : ℕ → ℕ
u32 n = n % 4294967296

-- `static_cast<uint16>(a - b)`
abbrev pub sub16 : ℕ → ℕ → ℕ
sub16 a b = (a + 65536 - b % 65536) % 65536

-- `(w & (1 << k)) != 0`
unfoldable pub test_bit : ℕ → ℕ → Bool
test_bit w zero = w % 2 == 1
test_bit w (suc k) = test_bit (w / 2) k

-- `w |= (1 << k)`
unfoldable pub set_bit : ℕ → ℕ → ℕ
unfolding test_bit
set_bit w k = if test_bit w k then w else w + 2 ^ k

-- A word below `2 ^ k` has no bit from `k` on.
pub test_bit_above : (k j w : ℕ) → w < 2 ^ k → k ≤ j → test_bit w j ≡ false
unfolding test_bit
test_bit_above zero zero w h le = ground arith
test_bit_above zero (suc j) w h le = test_bit_above zero j (w / 2) (omega arith) (omega arith)
test_bit_above (suc k) zero w h le = absurd (omega arith)
test_bit_above (suc k) (suc j) w h le =
    test_bit_above k j (w / 2) (omega (arith, pow-suc 2 k)) (omega arith)

-- Adding a power of two above a word sets that one bit and leaves the others alone.
pub test_bit-add_pow :
    (k j w : ℕ) → w < 2 ^ k → test_bit (w + 2 ^ k) j ≡ (if j == k then true else test_bit w j)
unfolding test_bit
test_bit-add_pow zero zero w h = ground arith
test_bit-add_pow zero (suc j) w h =
    let e : (w + 2 ^ 0) / 2 ≡ w / 2 = omega arith in rw e (ground arith)
test_bit-add_pow (suc k) zero w h = ground (arith, pow-suc 2 k)
test_bit-add_pow (suc k) (suc j) w h =
    let e : (w + 2 ^ suc k) / 2 ≡ w / 2 + 2 ^ k = omega (arith, pow-suc 2 k) in
    rw e (ground (arith, test_bit-add_pow k j (w / 2) (omega (arith, pow-suc 2 k))))

-- Setting the next bit of a word of `k` bits.
pub test_bit-set_bit :
    (k j w : ℕ) → w < 2 ^ k → test_bit (set_bit w k) j ≡ (if j == k then true else test_bit w j)
unfolding set_bit
test_bit-set_bit k j w h = rw (test_bit_above k k w h (omega arith)) (test_bit-add_pow k j w h)

pub set_bit-lt : (k w : ℕ) → w < 2 ^ k → set_bit w k < 2 ^ suc k
unfolding set_bit
set_bit-lt k w h = rw (test_bit_above k k w h (omega arith)) (omega (arith, pow-suc 2 k))
