-- ===== src/Memory/Bump/Align.antt =====
-- What rounding up by a mask computes, for an alignment that is a power of two.
use native.Mathlib.Nat.{
  one-le-pow, pow-le-pow_right, div-add-mod', mod-lt, div-lt_iff_lt-mul, mod-eq_of_lt, mul-mod_left,
  lt_of_mul-lt-mul_right, mul-le-mul_right,
}
use unos_kernel.Prelude.{
  ℕ, zero, suc, ◌+◌, ◌-◌, ◌*◌, ◌/◌, ◌%◌, ◌^◌, ◌≤◌, ◌<◌, ◌≡◌, ◌∙◌, sym, ap, arith, bit_and, ltb,
  false,
}
use unos_kernel.Prelude.Bits.{bit_and-field, pow-add}
use unos_kernel.Memory.Bump.{round_up, align_up, palloc_aligned}

pred-mul : (q p : ℕ) → (q - 1) * p ≡ q * p - p
pred-mul zero p = omega arith
pred-mul (suc q) p = ap (λ t. t * p) {x = suc q - 1} {y = q} (omega arith) ∙ omega arith

-- A number below 2 ^ 64 loses its low `k` bits to the mask `~(2 ^ k - 1)`.
pub bit_and-high_mask :
    (k j a : ℕ) → k + j ≡ 64 → a < 2 ^ 64 → bit_and a (2 ^ 64 - 2 ^ k) ≡ a / 2 ^ k * 2 ^ k
bit_and-high_mask k j a e h =
    let split : 2 ^ j * 2 ^ k ≡ 2 ^ 64 = sym (pow-add k j) ∙ ap (λ t. 2 ^ t) e in
    let mask : 2 ^ 64 - 2 ^ k ≡ (2 ^ j - 1) * 2 ^ k =
      omega (arith, split, pred-mul (2 ^ j) (2 ^ k)) in
    let small : a / 2 ^ k < 2 ^ j =
      (div-lt_iff_lt-mul (one-le-pow k 2 (omega arith))).1 (omega (arith, split)) in
    ap (bit_and a) mask ∙ bit_and-field k j a ∙ ap (λ (t : ℕ). t * 2 ^ k) (mod-eq_of_lt small)

pub round_up_lem :
    (k j n : ℕ)
    → k + j ≡ 64
    → n + 2 ^ k ≤ 2 ^ 64
    → (round_up n (2 ^ k) % 2 ^ k ≡ 0) × (n ≤ round_up n (2 ^ k)) × (round_up n (2 ^ k) < n + 2 ^ k)
round_up_lem k j n e h =
    let split : 2 ^ j * 2 ^ k ≡ 2 ^ 64 = sym (pow-add k j) ∙ ap (λ t. 2 ^ t) e in
    let one : 1 ≤ 2 ^ k = one-le-pow k 2 (omega arith) in
    let top : (n + 2 ^ k + 2 ^ 64 - 1) % 2 ^ 64 ≡ n + 2 ^ k - 1 = omega (arith) in
    let mask : 2 ^ 64 - 1 - (2 ^ k + 2 ^ 64 - 1) % 2 ^ 64 ≡ 2 ^ 64 - 2 ^ k = omega arith in
    rw (top, mask, bit_and-high_mask k j (n + 2 ^ k - 1) e (omega arith))
      (
        mul-mod_left ((n + 2 ^ k - 1) / 2 ^ k) (2 ^ k),
        omega (arith, div-add-mod' (n + 2 ^ k - 1) (2 ^ k), mod-lt (n + 2 ^ k - 1) {m = 2 ^ k} one),
        omega (arith, div-add-mod' (n + 2 ^ k - 1) (2 ^ k)),
      )

-- Of two multiples, one that is less than a step above the other is not above it.
least : (p a m : ℕ) → a % p ≡ 0 → m % p ≡ 0 → a < m + p → a ≤ m
least p a m ha hm h =
    let below : a / p * p < (m / p + 1) * p = omega (arith, div-add-mod' a p, div-add-mod' m p) in
    let steps : a / p < m / p + 1 = lt_of_mul-lt-mul_right p below in
    let scaled : a / p * p ≤ m / p * p = mul-le-mul_right p (omega arith) in
    omega (arith, div-add-mod' a p, div-add-mod' m p, scaled)

pub align_up_near :
    (k j n : ℕ)
    → k + j ≡ 64
    → n + 2 ^ k ≤ 2 ^ 64
    → (align_up n (2 ^ k) % 2 ^ k ≡ 0) × (n ≤ align_up n (2 ^ k)) × (align_up n (2 ^ k) < n + 2 ^ k)
unfolding align_up
align_up_near k j n e h =
    let one : 1 ≤ 2 ^ k = one-le-pow k 2 (omega arith) in
    let test : ltb (2 ^ k) 1 ≡ false = ground arith in rw test (round_up_lem k j n e h)

-- align_up to a power of two gives the least multiple that is not below the number, as long as
-- the sum does not pass 2 ^ 64.
pub align_up_lem :
    (k j n : ℕ)
    → k + j ≡ 64
    → n + 2 ^ k ≤ 2 ^ 64
    → (align_up n (2 ^ k) % 2 ^ k ≡ 0)
      × (n ≤ align_up n (2 ^ k))
      × ((m : ℕ) → m % 2 ^ k ≡ 0 → n ≤ m → align_up n (2 ^ k) ≤ m)
align_up_lem k j n e h =
    let (aligned, above, near) = align_up_near k j n e h in
    (aligned, above, λ m multiple le. least (2 ^ k) _ m aligned multiple (omega arith))

-- palloc_aligned, asked for an alignment of at least 8, returns an aligned address less than one
-- alignment step above the free pointer, and moves the pointer past the block.
pub palloc_aligned_lem :
    (k j next_free size : ℕ)
    → k + j ≡ 64
    → 3 ≤ k
    → next_free + size + 2 ^ k ≤ 2 ^ 64
    → let (addr, after) = palloc_aligned next_free size (2 ^ k) in
      (addr % 2 ^ k ≡ 0) × (next_free ≤ addr) × (addr < next_free + 2 ^ k) × (after ≡ addr + size)
unfolding palloc_aligned
palloc_aligned_lem k j next_free size e big h =
    let wide : 2 ^ 3 ≤ 2 ^ k = pow-le-pow_right (omega arith) big in
    let test : ltb (2 ^ k) 8 ≡ false = ground arith in
    let (aligned, above, near) = round_up_lem k j next_free e (omega arith) in
    rw test (ground arith)
