-- ===== src/Base/Xor.antt =====
-- Exclusive or at variables: it undoes itself, and it stays within a width.
use Prim.Native.Nat.{
  ℕ, zero, suc, ◌+◌, ◌*◌, ◌/◌, ◌%◌, ◌^◌, ◌≤◌, ◌<◌, bit_xor, bit_xor-bitwise, digits, differ,
}
use mathlib.Core.Path.{◌≡◌, refl, sym, ap, ◌∙◌}
use native.Mathlib.Omega.{arith}
use native.Mathlib.Nat.{pow-suc}

differ_bits : (x y : ℕ) → x < 2 → y < 2 → differ x y ≡ (x + y) % 2
differ_bits zero zero h k = refl
differ_bits zero (suc zero) h k = refl
differ_bits (suc zero) zero h k = refl
differ_bits (suc zero) (suc zero) h k = refl
differ_bits (suc (suc x)) y h k = absurd (omega arith)
differ_bits x (suc (suc y)) h k = absurd (omega arith)

abbrev flips : ℕ → ℕ → ℕ → ℕ
flips n a b = digits (λ c. c) differ n a b

-- More fuel than the first number changes nothing.
flips_enough : (n m a b : ℕ) → a ≤ n → a ≤ m → flips n a b ≡ flips m a b
flips_enough zero zero a b h k = refl
flips_enough (suc n) (suc m) zero b h k = refl
flips_enough (suc n) (suc m) (suc a) b h k =
    omega (arith, flips_enough n m (suc a / 2) (b / 2) (omega arith) (omega arith))
flips_enough zero (suc m) zero b h k = refl
flips_enough zero (suc m) (suc a) b h k = absurd (omega arith)
flips_enough (suc n) zero zero b h k = refl
flips_enough (suc n) zero (suc a) b h k = absurd (omega arith)

pub zero-bit_xor : (b : ℕ) → bit_xor 0 b ≡ b
zero-bit_xor b = bit_xor-bitwise 0 b

pub bit_xor_step : (a b : ℕ) → bit_xor a b ≡ bit_xor (a / 2) (b / 2) * 2 + (a + b) % 2
bit_xor_step zero b = omega (arith, zero-bit_xor b, zero-bit_xor (b / 2))
bit_xor_step (suc a) b =
    let digit = differ_bits (suc a % 2) (b % 2) (omega arith) (omega arith) in
    let whole : bit_xor (suc a) b ≡ flips a (suc a / 2) (b / 2) * 2 + differ (suc a % 2) (b % 2) =
      bit_xor-bitwise (suc a) b in
    let half : bit_xor (suc a / 2) (b / 2) ≡ flips (suc a / 2) (suc a / 2) (b / 2) =
      bit_xor-bitwise (suc a / 2) (b / 2) in
    omega (
      arith,
      whole,
      digit,
      half,
      flips_enough a (suc a / 2) (suc a / 2) (b / 2) (omega arith) (omega arith),
    )

bit_xor_twice_below : (n a b : ℕ) → a ≤ n → bit_xor a (bit_xor a b) ≡ b
bit_xor_twice_below n zero b h = zero-bit_xor (bit_xor 0 b) ∙ zero-bit_xor b
bit_xor_twice_below zero (suc a) b h = absurd (omega arith)
bit_xor_twice_below (suc n) (suc a) b h =
    let ih = bit_xor_twice_below n (suc a / 2) (b / 2) (omega arith) in
    let inner = bit_xor_step (suc a) b in
    let half : bit_xor (suc a) b / 2 ≡ bit_xor (suc a / 2) (b / 2) = omega (arith, inner) in
    let outer = bit_xor_step (suc a) (bit_xor (suc a) b) in
    omega (arith, inner, outer, ap (bit_xor (suc a / 2)) half, ih)

pub bit_xor_twice : (a b : ℕ) → bit_xor a (bit_xor a b) ≡ b
bit_xor_twice a b = bit_xor_twice_below a a b (omega arith)

pub bit_xor_bound : (n a b : ℕ) → a < 2 ^ n → b < 2 ^ n → bit_xor a b < 2 ^ n
bit_xor_bound zero a b h k =
    let a0 : a ≡ 0 = omega arith in omega (arith, zero-bit_xor b, ap (λ x. bit_xor x b) a0)
bit_xor_bound (suc n) a b h k =
    let double = pow-suc 2 n in
    let ih = bit_xor_bound n (a / 2) (b / 2) (omega (arith, double)) (omega (arith, double)) in
    omega (arith, double, ih, bit_xor_step a b)

bit_xor_comm_below : (n a b : ℕ) → a ≤ n → b ≤ n → bit_xor a b ≡ bit_xor b a
bit_xor_comm_below zero a b h k =
    let a0 : a ≡ 0 = omega arith in let b0 : b ≡ 0 = omega arith in rw (a0, b0) refl
bit_xor_comm_below (suc n) a b h k = omega (
  arith,
  bit_xor_step a b,
  bit_xor_step b a,
  bit_xor_comm_below n (a / 2) (b / 2) (omega arith) (omega arith),
)

pub bit_xor_comm : (a b : ℕ) → bit_xor a b ≡ bit_xor b a
bit_xor_comm a b = bit_xor_comm_below (a + b) a b (omega arith) (omega arith)

bit_xor_assoc_below : (n a b c : ℕ) → a ≤ n → bit_xor (bit_xor a b) c ≡ bit_xor a (bit_xor b c)
bit_xor_assoc_below n zero b c h =
    ap (λ x. bit_xor x c) (zero-bit_xor b) ∙ sym (zero-bit_xor (bit_xor b c))
bit_xor_assoc_below zero (suc a) b c h = absurd (omega arith)
bit_xor_assoc_below (suc n) (suc a) b c h =
    let left = bit_xor_step (suc a) b in
    let right = bit_xor_step b c in
    let left_half : bit_xor (suc a) b / 2 ≡ bit_xor (suc a / 2) (b / 2) = omega (arith, left) in
    let right_half : bit_xor b c / 2 ≡ bit_xor (b / 2) (c / 2) = omega (arith, right) in
    omega (
      arith,
      left,
      right,
      bit_xor_step (bit_xor (suc a) b) c,
      bit_xor_step (suc a) (bit_xor b c),
      ap (λ x. bit_xor x (c / 2)) left_half,
      ap (bit_xor (suc a / 2)) right_half,
      bit_xor_assoc_below n (suc a / 2) (b / 2) (c / 2) (omega arith),
    )

pub bit_xor_assoc : (a b c : ℕ) → bit_xor (bit_xor a b) c ≡ bit_xor a (bit_xor b c)
bit_xor_assoc a b c = bit_xor_assoc_below a a b c (omega arith)

-- The mask of a byte under a key byte and an offset is taken off by masking it again.
pub bit_xor_mask : (i k m : ℕ) → bit_xor (bit_xor (bit_xor (bit_xor i k) m) k) m ≡ i
bit_xor_mask i k m =
    let off : (x y : ℕ) → bit_xor (bit_xor x y) y ≡ x =
      λ x y. bit_xor_comm (bit_xor x y) y ∙ ap (bit_xor y) (bit_xor_comm x y) ∙ bit_xor_twice y x in
    ap (λ x. bit_xor x m)
      (bit_xor_assoc (bit_xor i k) m k
        ∙ ap (bit_xor (bit_xor i k)) (bit_xor_comm m k)
        ∙ sym (bit_xor_assoc (bit_xor i k) k m)
        ∙ ap (λ x. bit_xor x m) (off i k))
    ∙ off i m
