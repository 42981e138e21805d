-- ===== src/Prelude/Bits.antt =====
-- Numbers under `&` and `|`, from their digits: what the sets and fields of bits need.
use Prim.Native.Nat.{bit_and, bit_or, bit_and-bitwise, bit_or-bitwise, digits, bitwise, min, max}
use tidb_tools.Prelude.{ℕ, zero, suc, ◌+◌, ◌*◌, ◌/◌, ◌%◌, ◌≤◌, ◌≡◌, refl, sym, ◌∙◌, arith}

module _ (rest : ℕ → ℕ) (digit : ℕ → ℕ → ℕ) where
  digits-zero : (fuel b : ℕ) → digits rest digit fuel 0 b ≡ rest b
  digits-zero zero b = refl
  digits-zero (suc fuel) b = refl

  -- More fuel than the first number changes nothing.
  enough_digits :
      (fuel more a b : ℕ)
      → a ≤ fuel
      → a ≤ more
      → digits rest digit fuel a b ≡ digits rest digit more a b
  enough_digits fuel more zero b p q = digits-zero fuel b ∙ sym (digits-zero more b)
  enough_digits zero more (suc a) b p q = absurd (omega arith)
  enough_digits (suc fuel) zero (suc a) b p q = absurd (omega arith)
  enough_digits (suc fuel) (suc more) (suc a) b p q =
      omega (arith, enough_digits fuel more (suc a / 2) (b / 2) (omega arith) (omega arith))

  lowest_digit :
      (a b : ℕ)
      → bitwise rest digit (suc a) b
        ≡ bitwise rest digit (suc a / 2) (b / 2) * 2 + digit (suc a % 2) (b % 2)
  lowest_digit a b =
      omega (arith, enough_digits a (suc a / 2) (suc a / 2) (b / 2) (omega arith) (omega arith))

zero-bit_and : (b : ℕ) → bit_and 0 b ≡ 0
zero-bit_and b = bit_and-bitwise 0 b

pub zero-bit_or : (b : ℕ) → bit_or 0 b ≡ b
zero-bit_or b = bit_or-bitwise 0 b

and_step : (a b : ℕ) → bit_and a b ≡ bit_and (a / 2) (b / 2) * 2 + min (a % 2) (b % 2)
and_step zero b = omega (arith, zero-bit_and b, zero-bit_and (b / 2))
and_step (suc a) b = omega (
  arith,
  bit_and-bitwise (suc a) b,
  bit_and-bitwise (suc a / 2) (b / 2),
  lowest_digit (λ b. zero) min a b,
)

pub or_step : (a b : ℕ) → bit_or a b ≡ bit_or (a / 2) (b / 2) * 2 + max (a % 2) (b % 2)
or_step zero b = omega (arith, zero-bit_or b, zero-bit_or (b / 2))
or_step (suc a) b = omega (
  arith,
  bit_or-bitwise (suc a) b,
  bit_or-bitwise (suc a / 2) (b / 2),
  lowest_digit (λ b. b) max a b,
)

-- Halves stay below the fuel.
half-le : (n a : ℕ) → a ≤ suc n → a / 2 ≤ n
half-le n a h = omega arith

pub bit_and-le : (n a b : ℕ) → a ≤ n → bit_and a b ≤ a
bit_and-le zero zero b h = omega (arith, zero-bit_and b)
bit_and-le zero (suc a) b h = absurd (omega arith)
bit_and-le (suc n) a b h = omega (arith, and_step a b, bit_and-le n (a / 2) (b / 2) (half-le n a h))

pub bit_and_self : (n a : ℕ) → a ≤ n → bit_and a a ≡ a
bit_and_self zero zero h = zero-bit_and 0
bit_and_self zero (suc a) h = absurd (omega arith)
bit_and_self (suc n) a h = omega (arith, and_step a a, bit_and_self n (a / 2) (half-le n a h))

pub bit_and_comm : (n a b : ℕ) → a ≤ n → b ≤ n → bit_and a b ≡ bit_and b a
bit_and_comm zero zero zero h k = refl
bit_and_comm zero zero (suc b) h k = absurd (omega arith)
bit_and_comm zero (suc a) b h k = absurd (omega arith)
bit_and_comm (suc n) a b h k = omega (
  arith,
  and_step a b,
  and_step b a,
  bit_and_comm n (a / 2) (b / 2) (half-le n a h) (half-le n b k),
)

pub bit_or_comm : (n a b : ℕ) → a ≤ n → b ≤ n → bit_or a b ≡ bit_or b a
bit_or_comm zero zero zero h k = refl
bit_or_comm zero zero (suc b) h k = absurd (omega arith)
bit_or_comm zero (suc a) b h k = absurd (omega arith)
bit_or_comm (suc n) a b h k =
    omega (
      arith,
      or_step a b,
      or_step b a,
      bit_or_comm n (a / 2) (b / 2) (half-le n a h) (half-le n b k),
    )

or_half : (a b : ℕ) → bit_or a b / 2 ≡ bit_or (a / 2) (b / 2)
or_half a b = omega (arith, or_step a b)

included_half :
    (a b : ℕ) → bit_and a b ≡ a → (bit_and (a / 2) (b / 2) ≡ a / 2) × (min (a % 2) (b % 2) ≡ a % 2)
included_half a b h =
    let le = bit_and-le (a / 2) (a / 2) (b / 2) (omega arith) in
    (omega (arith, and_step a b), omega (arith, and_step a b))

-- A set is included in its union with another.
pub bit_and-bit_or : (n a b : ℕ) → a ≤ n → bit_and a (bit_or a b) ≡ a
bit_and-bit_or zero zero b h = zero-bit_and (bit_or 0 b)
bit_and-bit_or zero (suc a) b h = absurd (omega arith)
bit_and-bit_or (suc n) a b h =
    rw (and_step a (bit_or a b), or_half a b)
      (omega (arith, or_step a b, bit_and-bit_or n (a / 2) (b / 2) (half-le n a h)))

-- Inclusion is transitive.
pub included_trans : (n a b c : ℕ) → a ≤ n → bit_and a b ≡ a → bit_and b c ≡ b → bit_and a c ≡ a
included_trans zero zero b c h p q = zero-bit_and c
included_trans zero (suc a) b c h p q = absurd (omega arith)
included_trans (suc n) a b c h p q =
    let (p₂, p₁) = included_half a b p in
    let (q₂, q₁) = included_half b c q in
    omega (arith, and_step a c, included_trans n (a / 2) (b / 2) (c / 2) (half-le n a h) p₂ q₂)

-- The union is included in every set that includes both.
pub included_union :
    (n a b c : ℕ)
    → a ≤ n
    → b ≤ n
    → bit_and a c ≡ a
    → bit_and b c ≡ b
    → bit_and (bit_or a b) c ≡ bit_or a b
included_union zero zero zero c h k p q = zero-bit_and c
included_union zero zero (suc b) c h k p q = absurd (omega arith)
included_union zero (suc a) b c h k p q = absurd (omega arith)
included_union (suc n) a b c h k p q =
    let (p₂, p₁) = included_half a c p in
    let (q₂, q₁) = included_half b c q in
    rw (and_step (bit_or a b) c, or_half a b)
      (omega (
        arith,
        or_step a b,
        included_union n (a / 2) (b / 2) (c / 2) (half-le n a h) (half-le n b k) p₂ q₂,
      ))
