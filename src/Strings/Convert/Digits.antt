-- ===== src/Strings/Convert/Digits.antt =====
-- Printing and parsing numbers are inverse to one another.
use native.Mathlib.Nat.{pow-suc, add_assoc}
use unos_kernel.Prelude.{
  ℕ, zero, suc, ◌+◌, ◌-◌, ◌*◌, ◌/◌, ◌%◌, ◌^◌, ◌≤◌, ◌<◌, ◌≡◌, ◌≢◌, refl, ◌∙◌, ap, ap₂, inl, inr,
  true, false, some, List, [], ◌∷◌, ◌++◌, arith, ltb, ◌==◌, if◌then◌else◌, Bool-cases, length,
  length-append,
}
use mathlib.Core.List.{append_assoc}
use unos_kernel.Prelude.Int.{pos, negsuc}
use unos_kernel.Strings.Convert.{
  is_digit, atoi_from, atoi, decimal_loop, utoa, itoa, strtoul_digits, strtoul_space, strtoul,
  ulong_max,
}

atoi_from-digit :
    (res d value : ℕ) (s : List ℕ)
    → d < 10
    → res * 10 + d ≡ value
    → value < 2 ^ 31
    → atoi_from res ((b'0' + d) ∷ s) ≡ atoi_from value s
unfolding atoi_from
atoi_from-digit res d value s h e word =
    let same : res * 10 + (b'0' + d - b'0') ≡ value = omega arith in
    let digit : is_digit (b'0' + d) ≡ true = ground arith in rw (same, digit) (ground arith)

-- Reading back what the loop wrote takes the reader to the printed value.
atoi_from-decimal_loop :
    (left value : ℕ) (tmp rest : List ℕ)
    → value < 10 ^ left
    → value < 2 ^ 31
    → atoi_from 0 (decimal_loop left value tmp ++ rest) ≡ atoi_from value (tmp ++ rest)
unfolding decimal_loop
atoi_from-decimal_loop zero value tmp rest small word =
    ap (λ v. atoi_from v (tmp ++ rest)) {x = 0} {y = value} (omega arith)
atoi_from-decimal_loop (suc left) value tmp rest small word = elim (Bool-cases (value == 0)) [
  | inl stop ↦ rw stop (ap (λ v. atoi_from v (tmp ++ rest)) {x = 0} {y = value} (ground arith))
  | inr more ↦ rw more (
      atoi_from-decimal_loop left (value / 10) ((b'0' + value % 10) ∷ tmp) rest
        (omega (arith, pow-suc 10 left)) (omega arith)
      ∙ step)
]
  where
    step :
        atoi_from (value / 10) ((b'0' + value % 10) ∷ (tmp ++ rest)) ≡ atoi_from value (tmp ++ rest)
    step =
        atoi_from-digit (value / 10) (value % 10) value (tmp ++ rest) (omega arith) (omega arith)
          word

strtoul_digits-digit :
    (i res d value : ℕ) (s : List ℕ)
    → d < 10
    → res * 10 + d ≡ value
    → value < 2 ^ 64
    → strtoul_digits i res ((b'0' + d) ∷ s) ≡ strtoul_digits (i + 1) value s
unfolding strtoul_digits
strtoul_digits-digit i res d value s h e word =
    let same : b'0' + d - b'0' ≡ d = omega arith in
    let digit : is_digit (b'0' + d) ≡ true = ground arith in
    let room : ltb ((ulong_max - d) / 10) res ≡ false = ground arith in rw (same, digit, room, e)

-- How many digits the loop writes.
pub width : ℕ → ℕ → ℕ
width zero value = 0
width (suc left) value = let rest = width left (value / 10) in if value == 0 then 0 else rest + 1

strtoul_digits-decimal_loop :
    (left i value : ℕ) (tmp rest : List ℕ)
    → value < 10 ^ left
    → value < 2 ^ 64
    → strtoul_digits i 0 (decimal_loop left value tmp ++ rest)
      ≡ strtoul_digits (i + width left value) value (tmp ++ rest)
unfolding decimal_loop width
strtoul_digits-decimal_loop zero i value tmp rest small word =
    ap₂ (λ j v. strtoul_digits j v (tmp ++ rest)) {x = i} {y = i + 0} {u = 0} {v = value}
      (omega arith) (omega arith)
strtoul_digits-decimal_loop (suc left) i value tmp rest small word =
    elim (Bool-cases (value == 0)) [
      | inl stop ↦ rw stop (
          ap₂ (λ j v. strtoul_digits j v (tmp ++ rest)) {x = i} {y = i + 0} {u = 0} {v = value}
            (omega arith) (ground arith))
      | inr more ↦ rw more (
          strtoul_digits-decimal_loop left i (value / 10) ((b'0' + value % 10) ∷ tmp) rest
            (omega (arith, pow-suc 10 left)) (omega arith)
          ∙ strtoul_digits-digit (i + width left (value / 10)) (value / 10) (value % 10) value
              (tmp ++ rest) (omega arith) (omega arith) word
          ∙ ap (λ j. strtoul_digits j value (tmp ++ rest))
              (add_assoc i (width left (value / 10)) 1))
    ]

length-decimal_loop :
    (left value : ℕ) (tmp : List ℕ)
    → length (decimal_loop left value tmp) ≡ width left value + length tmp
unfolding decimal_loop width
length-decimal_loop zero value tmp = omega arith
length-decimal_loop (suc left) value tmp =
    ground (arith, length-decimal_loop left (value / 10) ((b'0' + value % 10) ∷ tmp))

width-le : (left value : ℕ) → width left value ≤ left
unfolding width
width-le zero value = omega arith
width-le (suc left) value = ground (arith, width-le left (value / 10))

-- A list that begins with a digit.
pub record DigitFirst (s : List ℕ) : Type 0 where
  pub head : ℕ
  pub tail : List ℕ
  pub shape : s ≡ head ∷ tail
  pub digit : is_digit head ≡ true

decimal_loop-DigitFirst :
    (left value d : ℕ) (tmp : List ℕ)
    → is_digit d ≡ true
    → DigitFirst (decimal_loop left value (d ∷ tmp))
unfolding decimal_loop
decimal_loop-DigitFirst zero value d tmp h = record {
  head = d;
  tail = tmp;
  shape = refl;
  digit = h;
}
decimal_loop-DigitFirst (suc left) value d tmp h = elim (Bool-cases (value == 0)) [
  | inl stop ↦ rw stop (record { head = d; tail = tmp; shape = refl; digit = h })
  | inr more ↦
      rw more
        (decimal_loop-DigitFirst left (value / 10) (b'0' + value % 10) (d ∷ tmp) (ground arith))
]

pub decimal_loop-head : (left value : ℕ) → value ≢ 0 → DigitFirst (decimal_loop (suc left) value [])
unfolding decimal_loop
decimal_loop-head left value h =
    let test : (value == 0) ≡ false = ground arith in
    rw test (decimal_loop-DigitFirst left (value / 10) (b'0' + value % 10) [] (ground arith))

-- A digit is neither white space nor a sign, so the number begins at once.
strtoul-DigitFirst :
    (s rest : List ℕ) (kerrno : ℕ)
    → DigitFirst s
    → strtoul (s ++ rest) 10 kerrno ≡ strtoul_digits 0 0 (s ++ rest)
unfolding strtoul
strtoul-DigitFirst s rest kerrno f = rw (f.shape, skip f.head (f.tail ++ rest) f.digit)
  where
    skip :
        (c : ℕ) (t : List ℕ)
        → is_digit c ≡ true
        → strtoul_space 0 (c ∷ t) ≡ strtoul_digits 0 0 (c ∷ t)
    skip c t h = ground arith

strtoul_digits-end :
    (i value : ℕ) (rest : List ℕ)
    → strtoul_digits i value (0 ∷ rest) ≡ some (record { result = value; end = i; errno = 0 })
unfolding strtoul_digits
strtoul_digits-end i value rest = ground arith

strtoul_zero :
    (kerrno : ℕ) (rest : List ℕ)
    → strtoul (b'0' ∷ 0 ∷ rest) 10 kerrno ≡ some (record { result = 0; end = 1; errno = 0 })
unfolding strtoul
strtoul_zero kerrno rest = refl

-- What utoa writes for a 64-bit number fits in its 21 bytes, ends with the terminator, and
-- strtoul reads the number back without an error, stopping at the terminator.
pub strtoul-utoa :
    (value kerrno : ℕ) (rest : List ℕ)
    → value < 2 ^ 64
    → (length (utoa value) ≤ 21)
      × (strtoul (utoa value ++ rest) 10 kerrno
          ≡ some (record { result = value; end = length (utoa value) - 1; errno = 0 }))
unfolding utoa
strtoul-utoa zero kerrno rest word = (omega arith, strtoul_zero kerrno rest)
strtoul-utoa (suc n) kerrno rest word =
    let test : (suc n == 0) ≡ false = ground arith in
    let digits = decimal_loop 20 (suc n) [] in
    let size : length (digits ++ 0 ∷ []) ≡ width 20 (suc n) + 1 =
      omega (arith, length-append digits (0 ∷ []), length-decimal_loop 20 (suc n) []) in
    rw test (
      omega (arith, size, width-le 20 (suc n)),
      ap (λ s. strtoul s 10 kerrno) (append_assoc digits (0 ∷ []) rest)
          ∙ strtoul-DigitFirst digits (0 ∷ rest) kerrno
              (decimal_loop-head 19 (suc n) (ground arith))
          ∙ strtoul_digits-decimal_loop 20 0 (suc n) [] (0 ∷ rest) (omega arith) word
          ∙ strtoul_digits-end (0 + width 20 (suc n)) (suc n) rest
          ∙ ap (λ i. some (record { result = suc n; end = i; errno = 0 })) (omega (arith, size)),
    )

atoi_from-end : (value : ℕ) (rest : List ℕ) → atoi_from value (0 ∷ rest) ≡ some value
unfolding atoi_from
atoi_from-end value rest = ground arith

-- itoa refuses nothing but INT_MIN; what it writes fits in 12 bytes, and atoi reads a
-- non-negative number back. A negative number is a minus sign and the digits of its opposite.
pub atoi-itoa :
    (value : ℕ) (rest : List ℕ)
    → value < 2 ^ 31
    → (text : List ℕ) × (itoa (pos value) ≡ some text)
      × (length text ≤ 12)
      × (atoi (text ++ rest) ≡ some value)
      × (0 < value → itoa (negsuc (value - 1)) ≡ some (b'-' ∷ text))
unfolding itoa atoi
atoi-itoa zero rest word = (b'0' ∷ 0 ∷ [], refl, omega arith, refl, λ h. absurd (omega arith))
atoi-itoa (suc n) rest word =
    let test : (suc n == 0) ≡ false = ground arith in
    let same : suc (suc n - 1) ≡ suc n = omega arith in
    let range : (suc n == 2 ^ 31) ≡ false = ground arith in
    let digits = decimal_loop 11 (suc n) [] in
    (
      digits ++ 0 ∷ [],
      rw test refl,
      omega (
        arith,
        length-append digits (0 ∷ []),
        length-decimal_loop 11 (suc n) [],
        width-le 11 (suc n),
      ),
      ap (atoi_from 0) (append_assoc digits (0 ∷ []) rest)
          ∙ atoi_from-decimal_loop 11 (suc n) [] (0 ∷ rest) (omega arith) word
          ∙ atoi_from-end (suc n) rest,
      λ h. rw (same, range) refl,
    )
