-- ===== src/Bitmap/Bits.antt =====
-- `|` and `&` of a word with a single bit, at every position.
use Prim.Native.Nat.{min, max, bit_and, bit_or, digits, bit_and-bitwise, bit_or-bitwise}
use native.Mathlib.Nat.{pow-suc, one-le-pow}
use ngx_http_headers_control.Common.{
  ℕ, zero, suc, ◌+◌, ◌*◌, ◌/◌, ◌%◌, ◌^◌, ◌≤◌, ◌≡◌, ◌≢◌, refl, ap, arith,
}

-- Digits are joined from the lowest one up, and rounds beyond the number itself change nothing.
module _ (rest : ℕ → ℕ) (join : ℕ → ℕ → ℕ) where
  digits-rounds :
      (x y more less : ℕ)
      → x ≤ less
      → x ≤ more
      → digits rest join more x y ≡ digits rest join less x y
  digits-rounds zero y zero zero lo hi = refl
  digits-rounds zero y zero (suc less) lo hi = refl
  digits-rounds zero y (suc more) zero lo hi = refl
  digits-rounds zero y (suc more) (suc less) lo hi = refl
  digits-rounds (suc x) y zero less lo hi = elim hi [ ]
  digits-rounds (suc x) y (suc more) zero lo hi = elim lo [ ]
  digits-rounds (suc x) y (suc more) (suc less) lo hi =
      let below = digits-rounds (suc x / 2) (y / 2) more less (omega arith) (omega arith) in
      omega (arith, below)

pub zero-bit_and : (b : ℕ) → bit_and 0 b ≡ 0
zero-bit_and b = bit_and-bitwise 0 b

-- One binary digit of each operation.
bit_and_halves : (x y : ℕ) → bit_and x y ≡ min (x % 2) (y % 2) + 2 * bit_and (x / 2) (y / 2)
bit_and_halves zero b = omega (arith, zero-bit_and (b / 2), zero-bit_and b)
bit_and_halves (suc a) b =
    let half = suc a / 2 in
    let rounds = digits-rounds (λ y. zero) min half (b / 2) a half (omega arith) (omega arith) in
    omega (arith, rounds, bit_and-bitwise half (b / 2), bit_and-bitwise (suc a) b)

bit_or_halves : (x y : ℕ) → bit_or x y ≡ max (x % 2) (y % 2) + 2 * bit_or (x / 2) (y / 2)
bit_or_halves zero b = omega (arith, bit_or-bitwise 0 (b / 2), bit_or-bitwise 0 b)
bit_or_halves (suc a) b =
    let half = suc a / 2 in
    let rounds = digits-rounds (λ y. y) max half (b / 2) a half (omega arith) (omega arith) in
    omega (arith, rounds, bit_or-bitwise half (b / 2), bit_or-bitwise (suc a) b)

with_zero_below : (bound a : ℕ) → a ≤ bound → (bit_and a 0 ≡ 0) × (bit_or a 0 ≡ a)
with_zero_below bound zero le = (refl, refl)
with_zero_below zero (suc a) le = elim le [ ]
with_zero_below (suc bound) (suc a) le =
    let (none_left, all_left) = with_zero_below bound (suc a / 2) (omega arith) in
    (
      omega (arith, none_left, bit_and_halves (suc a) 0),
      omega (arith, all_left, bit_or_halves (suc a) 0),
    )

bit_or-zero : (a : ℕ) → bit_or a 0 ≡ a
bit_or-zero a = (with_zero_below a a (omega arith)).1

half-pow : (k : ℕ) → 2 ^ suc k / 2 ≡ 2 ^ k
half-pow k = omega (arith, pow-suc 2 k)

-- The bit `k + 1` of a number is the bit `k` of its half.
bit_and-pow-suc : (a k : ℕ) → bit_and a (2 ^ suc k) ≡ bit_and (a / 2) (2 ^ k) * 2
bit_and-pow-suc a k = omega (arith, rw half-pow at (bit_and_halves a (2 ^ suc k)), pow-suc 2 k)

bit_or-pow-suc_half : (a k : ℕ) → bit_or a (2 ^ suc k) / 2 ≡ bit_or (a / 2) (2 ^ k)
bit_or-pow-suc_half a k = omega (arith, rw half-pow at (bit_or_halves a (2 ^ suc k)))

bit_and-one : (a : ℕ) → bit_and a 1 ≡ a % 2
bit_and-one a =
    let (half_clear, half_kept) = with_zero_below (a / 2) (a / 2) (omega arith) in
    omega (arith, half_clear, bit_and_halves a 1)

-- A bit that was written is read back.
bit_or-pow_bit : (k a : ℕ) → bit_and (bit_or a (2 ^ k)) (2 ^ k) ≡ 2 ^ k
bit_or-pow_bit zero a = omega (arith, bit_and-one (bit_or a 1), bit_or_halves a 1)
bit_or-pow_bit (suc k) a =
    rw (bit_and-pow-suc, bit_or-pow-suc_half, bit_or-pow_bit k (a / 2)) (omega (arith, pow-suc 2 k))

pub bit_or-pow_self : (k a : ℕ) → bit_and (bit_or a (2 ^ k)) (2 ^ k) ≢ 0
bit_or-pow_self k a = omega (arith, bit_or-pow_bit k a, one-le-pow k 2)

-- The other bits stay as they are.
pub bit_or-pow_ne : (k j a : ℕ) → k ≢ j → bit_and (bit_or a (2 ^ k)) (2 ^ j) ≡ bit_and a (2 ^ j)
bit_or-pow_ne zero zero a h = absurd (h refl)
bit_or-pow_ne zero (suc j) a h = rw (bit_and-pow-suc (bit_or a 1), bit_and-pow-suc a, half_or_one a)
  where
    half_or_one : (a : ℕ) → bit_or a 1 / 2 ≡ a / 2
    half_or_one a = omega (arith, bit_or_halves a 1, bit_or-zero (a / 2))
bit_or-pow_ne (suc k) zero a h = omega (
  arith,
  bit_and-one (bit_or a (2 ^ suc k)),
  bit_and-one a,
  bit_or_halves a (2 ^ suc k),
  pow-suc 2 k,
)
bit_or-pow_ne (suc k) (suc j) a h = rw (
  bit_and-pow-suc (bit_or a (2 ^ suc k)),
  bit_and-pow-suc a,
  bit_or-pow-suc_half,
  bit_or-pow_ne k j (a / 2) (λ e. h (ap suc e)),
)
