-- ===== src/ColumnMapping/Packing.antt =====
-- The bit fields of an id of pkg/column-mapping/column.go.
use Prim.Native.Nat.{bit_or}
use native.Mathlib.Omega.{pow_step}
use native.Mathlib.Nat.{pow-le-pow_right}
use tidb_tools.Prelude.{
  ℕ, zero, suc, ◌+◌, ◌*◌, ◌/◌, ◌^◌, ◌<◌, ◌≤◌, ◌≡◌, refl, sym, ap, ◌∙◌, arith, false, leb,
}
use tidb_tools.ColumnMapping.Partition.{shift_left}
use tidb_tools.Prelude.Bits.{or_step, zero-bit_or}

swap_two : (x p : ℕ) → x * (2 * p) ≡ 2 * (x * p)
swap_two x p = omega arith

double : (x k : ℕ) → x * 2 ^ suc k ≡ 2 * (x * 2 ^ k)
double x k = ap (◌*◌ x) (pow_step 2 k) ∙ swap_two x (2 ^ k)

pow_cong : {i j : ℕ} → i ≡ j → 2 ^ i ≡ 2 ^ j
pow_cong e = ap (◌^◌ 2) e

field-lt : (x a k : ℕ) → x < 2 ^ a → x * 2 ^ k < 2 ^ (a + k)
field-lt x a zero h = let same : 2 ^ (a + 0) ≡ 2 ^ a = pow_cong (omega arith) in omega (arith, same)
field-lt x a (suc k) h =
    let same : 2 ^ (a + suc k) ≡ 2 ^ suc (a + k) = pow_cong (omega arith) in
    omega (arith, same, double x k, pow_step 2 (a + k), field-lt x a k h)

bit_or_zero : (n a : ℕ) → a ≤ n → bit_or a 0 ≡ a
bit_or_zero zero zero h = zero-bit_or 0
bit_or_zero zero (suc a) h = absurd (omega arith)
bit_or_zero (suc n) a h = omega (arith, or_step a 0, bit_or_zero n (a / 2) (omega arith))

no_low : (a : ℕ) → a * 1 ≡ a
no_low a = omega arith

pub bit_or_above : (x b k : ℕ) → b < 2 ^ k → bit_or (x * 2 ^ k) b ≡ x * 2 ^ k + b
bit_or_above x zero zero h = bit_or_zero (x * 1) (x * 1) (omega arith) ∙ omega arith
bit_or_above x (suc b) zero h = absurd (omega arith)
bit_or_above x b (suc k) h =
    let y = x * 2 ^ k in
    let halves : bit_or y (b / 2) ≡ y + b / 2 =
      bit_or_above x (b / 2) k (omega (arith, pow_step 2 k)) in
    let even : x * 2 ^ suc k ≡ 2 * y = double x k in
    let step = or_step (2 * y) b in
    let half : bit_or (2 * y / 2) (b / 2) ≡ bit_or y (b / 2) =
      ap (λ z. bit_or z (b / 2)) (omega arith) in
    ap (λ z. bit_or z b) even ∙ omega (arith, halves, step, half, even)

suc_mul : (n p : ℕ) → suc p * n ≡ p * n + n
suc_mul n p = omega arith

-- The two parts of a number are unique.
pub unpack : (n p q r s : ℕ) → r < n → s < n → p * n + r ≡ q * n + s → (p ≡ q) × (r ≡ s)
unpack n zero zero r s hr hs e = (refl, omega arith)
unpack n zero (suc q) r s hr hs e = absurd (omega (arith, suc_mul n q))
unpack n (suc p) zero r s hr hs e = absurd (omega (arith, suc_mul n p))
unpack n (suc p) (suc q) r s hr hs e =
    let (same, rest) = unpack n p q r s hr hs (omega (arith, suc_mul n p, suc_mul n q)) in
    (ap suc same, rest)

pow_mul : (x b k : ℕ) → x * 2 ^ (b + k) ≡ x * 2 ^ b * 2 ^ k
pow_mul x b zero =
    let same : x * 2 ^ (b + 0) ≡ x * 2 ^ b = ap (λ e. x * 2 ^ e) (omega arith) in
    same ∙ sym (no_low (x * 2 ^ b))
pow_mul x b (suc k) =
    let same : x * 2 ^ (b + suc k) ≡ x * 2 ^ suc (b + k) = ap (λ e. x * 2 ^ e) (omega arith) in
    omega (arith, same, double x (b + k), double (x * 2 ^ b) k, pow_mul x b k)

add_mul : (p q n : ℕ) → (p + q) * n ≡ p * n + q * n
add_mul p q n = omega arith

-- Two fields side by side are one field.
pub join_fields :
    (x y b k : ℕ) → y < 2 ^ b → bit_or (x * 2 ^ (b + k)) (y * 2 ^ k) ≡ (x * 2 ^ b + y) * 2 ^ k
join_fields x y b k h =
    bit_or_above x (y * 2 ^ k) (b + k) (field-lt y b k h)
    ∙ ap (λ e. e + y * 2 ^ k) (pow_mul x b k)
    ∙ sym (add_mul (x * 2 ^ b) y (2 ^ k))

-- A number in a shift that stays within the word.
pub shift_left_mul : (x a k : ℕ) → x < 2 ^ a → a + k ≤ 63 → shift_left x k ≡ x * 2 ^ k
shift_left_mul x a k h le =
    let below = field-lt x a k h in
    let bound : 2 ^ (a + k) ≤ 2 ^ 63 = pow-le-pow_right (omega arith) le in
    let small : leb 64 k ≡ false = ground arith in rw small (omega arith)
