-- ===== src/Prelude/Bits.antt =====
-- `bit_and` and `bit_or` at variables: masks of low bits, masks of high bits, flags in low bits.
use Prim.Native.Nat.{
  ℕ, zero, suc, ◌+◌, ◌-◌, ◌*◌, ◌/◌, ◌%◌, ◌^◌, ◌≤◌, ◌<◌, min, max, bit_and, bit_or, digits,
  bit_and-bitwise, bit_or-bitwise,
}
use mathlib.Core.Path.{◌≡◌, refl, sym, ap, ◌∙◌}
use native.Mathlib.Omega.{arith}
use native.Mathlib.Nat.{pow-suc, one-le-pow, mod-lt, div-add-mod'}

-- The native operations stand for a digit recursion on fuel. Fuel beyond the first number is idle.
module _ (base : ℕ → ℕ) (op : ℕ → ℕ → ℕ) where
  digits_idle : (n a b : ℕ) → a ≤ n → digits base op (suc n) a b ≡ digits base op n a b
  digits_idle zero zero b h = refl
  digits_idle zero (suc a) b h = absurd (omega arith)
  digits_idle (suc n) zero b h = refl
  digits_idle (suc n) (suc a) b h =
      ap (λ (t : ℕ). t * 2 + op (suc a % 2) (b % 2))
        (digits_idle n (suc a / 2) (b / 2) (omega arith))

  digits_spare : (d n a b : ℕ) → a ≤ n → digits base op (d + n) a b ≡ digits base op n a b
  digits_spare zero n a b h = ap (λ t. digits base op t a b) (omega arith)
  digits_spare (suc d) n a b h =
      ap (λ t. digits base op t a b) {y = suc (d + n)} (omega arith)
      ∙ digits_idle (d + n) a b (omega arith)
      ∙ digits_spare d n a b h

  digits_enough : (n a b : ℕ) → a ≤ n → digits base op n a b ≡ digits base op a a b
  digits_enough n a b h =
      ap (λ t. digits base op t a b) {y = n - a + a} (omega arith)
      ∙ digits_spare (n - a) a a b (omega arith)

  -- One digit of the recursion, for an operation whose base case is a digit recursion too.
  bitwise_digit :
      ((b : ℕ) → base b ≡ base (b / 2) * 2 + op 0 (b % 2))
      → (a b : ℕ)
      → digits base op a a b ≡ digits base op (a / 2) (a / 2) (b / 2) * 2 + op (a % 2) (b % 2)
  bitwise_digit at_zero zero b = at_zero b
  bitwise_digit at_zero (suc a) b =
      ap (λ (t : ℕ). t * 2 + op (suc a % 2) (b % 2))
        (digits_enough a (suc a / 2) (b / 2) (omega arith))

-- The lowest digit of a conjunction and of a disjunction, and the rest.
pub bit_and_step : (a b : ℕ) → bit_and a b ≡ bit_and (a / 2) (b / 2) * 2 + min (a % 2) (b % 2)
bit_and_step a b =
    bit_and-bitwise a b
    ∙ bitwise_digit (λ _. zero) min (λ y. omega arith) a b
    ∙ ap (λ (t : ℕ). t * 2 + min (a % 2) (b % 2)) (sym (bit_and-bitwise (a / 2) (b / 2)))

pub bit_or_step : (a b : ℕ) → bit_or a b ≡ bit_or (a / 2) (b / 2) * 2 + max (a % 2) (b % 2)
bit_or_step a b =
    bit_or-bitwise a b
    ∙ bitwise_digit (λ y. y) max (λ y. omega arith) a b
    ∙ ap (λ (t : ℕ). t * 2 + max (a % 2) (b % 2)) (sym (bit_or-bitwise (a / 2) (b / 2)))

-- Nothing on the right: by halving, below a bound.
zero_right : (n a : ℕ) → a ≤ n → (bit_and a 0 ≡ 0) × (bit_or a 0 ≡ a)
zero_right n zero h = (refl, refl)
zero_right zero (suc a) h = absurd (omega arith)
zero_right (suc n) (suc a) h =
    let (none_left, same) = zero_right n (suc a / 2) (omega arith) in
    (omega (arith, none_left, bit_and_step (suc a) 0), omega (arith, same, bit_or_step (suc a) 0))

pub bit_and-zero : (a : ℕ) → bit_and a 0 ≡ 0
bit_and-zero a = (zero_right a a (omega arith)).0

pub bit_or-zero : (a : ℕ) → bit_or a 0 ≡ a
bit_or-zero a = (zero_right a a (omega arith)).1

doubled : (q k : ℕ) → q * 2 ^ suc k ≡ q * 2 ^ k * 2
doubled q k = omega (arith, ap (λ (t : ℕ). q * t) (pow-suc 2 k))

-- `(q << k) | r` where `r` fits in `k` bits.
pub bit_or_low : (k q r : ℕ) → r < 2 ^ k → bit_or (q * 2 ^ k) r ≡ q * 2 ^ k + r
bit_or_low zero q r h = ground (arith, bit_or-zero q)
bit_or_low (suc k) q r h = ground (
  arith,
  bit_or_step (q * 2 ^ suc k) r,
  doubled q k,
  pow-suc 2 k,
  bit_or_low k q (r / 2) (omega arith),
)

-- `((q << k) | r) | s` where `r` and `s` fit in `k` bits.
pub bit_or_fields :
    (k q r s : ℕ) → r < 2 ^ k → s < 2 ^ k → bit_or (q * 2 ^ k + r) s ≡ q * 2 ^ k + bit_or r s
bit_or_fields zero q r s h h' =
    let nothing : s ≡ 0 = omega arith in
    let e : q * 1 + r ≡ q = omega arith in
    let f : r ≡ 0 = omega arith in rw (nothing, e, f) (omega (arith, bit_or-zero q))
bit_or_fields (suc k) q r s h h' = ground (
  arith,
  bit_or_step (q * 2 ^ suc k + r) s,
  bit_or_step r s,
  doubled q k,
  pow-suc 2 k,
  bit_or_fields k q (r / 2) (s / 2) (omega arith) (omega arith),
)

-- `((q << k) | r) & (m << k)`
pub bit_and_high :
    (k q r m : ℕ) → r < 2 ^ k → bit_and (q * 2 ^ k + r) (m * 2 ^ k) ≡ bit_and q m * 2 ^ k
bit_and_high zero q r m h =
    let e : q * 1 + r ≡ q = omega arith in
    let f : m * 1 ≡ m = omega arith in rw (e, f) (omega arith)
bit_and_high (suc k) q r m h = ground (
  arith,
  bit_and_step (q * 2 ^ suc k + r) (m * 2 ^ suc k),
  doubled q k,
  doubled m k,
  doubled (bit_and q m) k,
  pow-suc 2 k,
  bit_and_high k q (r / 2) m (omega arith),
)

bit_and_low_fields : (k q r : ℕ) → r < 2 ^ k → bit_and (q * 2 ^ k + r) (2 ^ k - 1) ≡ r
bit_and_low_fields zero q r h = omega (arith, bit_and-zero (q * 1 + r))
bit_and_low_fields (suc k) q r h = ground (
  arith,
  bit_and_step (q * 2 ^ suc k + r) (2 ^ suc k - 1),
  doubled q k,
  pow-suc 2 k,
  bit_and_low_fields k q (r / 2) (omega arith),
)

-- A mask of `k` low bits is the remainder by `2 ^ k`.
pub bit_and-low : (k a : ℕ) → bit_and a (2 ^ k - 1) ≡ a % 2 ^ k
bit_and-low k a =
    ap (λ t. bit_and t (2 ^ k - 1)) (sym (div-add-mod' a (2 ^ k)))
    ∙ bit_and_low_fields k (a / 2 ^ k) (a % 2 ^ k) (mod-lt a (one-le-pow k 2 (omega arith)))

-- A mask of `j` bits from bit `k` on.
pub bit_and-field : (k j a : ℕ) → bit_and a ((2 ^ j - 1) * 2 ^ k) ≡ a / 2 ^ k % 2 ^ j * 2 ^ k
bit_and-field k j a =
    ap (λ t. bit_and t ((2 ^ j - 1) * 2 ^ k)) (sym (div-add-mod' a (2 ^ k)))
    ∙ bit_and_high k (a / 2 ^ k) (a % 2 ^ k) (2 ^ j - 1) (mod-lt a (one-le-pow k 2 (omega arith)))
    ∙ ap (λ (t : ℕ). t * 2 ^ k) (bit_and-low j (a / 2 ^ k))

pub pow-add : (k j : ℕ) → 2 ^ (k + j) ≡ 2 ^ j * 2 ^ k
pow-add zero j = omega (arith, ap (λ t. 2 ^ t) {x = 0 + j} {y = j} (omega arith))
pow-add (suc k) j =
    ap (λ t. 2 ^ t) {x = suc k + j} {y = suc (k + j)} (omega arith)
    ∙ omega (arith, pow-suc 2 (k + j), pow-add k j, doubled (2 ^ j) k)
