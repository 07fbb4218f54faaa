-- ===== src/Prelude/Bits.antt =====
-- Facts about `&` at variables: a mask bounds the result, and a power of two has no bit in common
-- with its predecessor.
use Prim.Native.Nat.{ℕ, zero, suc, ◌+◌, ◌-◌, ◌*◌, ◌/◌, ◌≤◌, min, bit_and, digits, bit_and-bitwise}
use mathlib.Core.Path.{◌≡◌, refl}
use native.Mathlib.Omega.{arith}

-- The digits of `a & m` that some fuel gives are at most those of the mask.
digits-le : (fuel a m : ℕ) → digits (λ _. 0) min fuel a m ≤ m
digits-le zero a m = omega arith
digits-le (suc fuel) zero m = omega arith
digits-le (suc fuel) (suc a) m = omega (arith, digits-le fuel (suc a / 2) (m / 2))

-- `a & m` is at most `m`.
pub bit_and-le : (a m : ℕ) → bit_and a m ≤ m
bit_and-le a m = omega (arith, bit_and-bitwise a m, digits-le a a m)

-- `n` is a power of two, by halving.
pub data IsPowerOfTwo : ℕ → Type 0 where
  one : (n : ℕ) → n ≡ 1 → IsPowerOfTwo n
  double : (n m : ℕ) → IsPowerOfTwo n → m ≡ n * 2 → IsPowerOfTwo m

pub one-le-IsPowerOfTwo : (n : ℕ) → IsPowerOfTwo n → 1 ≤ n
one-le-IsPowerOfTwo n (one _ e) = omega arith
one-le-IsPowerOfTwo m (double n _ p e) = omega (arith, one-le-IsPowerOfTwo n p)

-- The predecessor of a power of two has its ones below the power's.
digits-pred : (fuel a m : ℕ) → IsPowerOfTwo m → a + 1 ≡ m → digits (λ _. 0) min fuel a m ≡ 0
digits-pred zero a m p e = refl
digits-pred (suc fuel) zero m p e = refl
digits-pred (suc fuel) (suc a) m (one _ h) e = absurd (omega arith)
digits-pred (suc fuel) (suc a) m (double n _ p h) e =
    let half : m / 2 ≡ n = omega arith in
    let power : IsPowerOfTwo (m / 2) = rw half p in
    omega (
      arith,
      one-le-IsPowerOfTwo n p,
      digits-pred fuel (suc a / 2) (m / 2) power (omega (arith, one-le-IsPowerOfTwo n p)),
    )

-- `(n - 1) & n` is zero at a power of two.
pub bit_and-pred : (n : ℕ) → IsPowerOfTwo n → bit_and (n - 1) n ≡ 0
bit_and-pred n p = omega (
  arith,
  bit_and-bitwise (n - 1) n,
  digits-pred (n - 1) (n - 1) n p (omega (arith, one-le-IsPowerOfTwo n p)),
)
