-- ===== src/Serial/Numeral.antt =====
-- What serial_print sends, and that a numeral is sent as it stands.
use unos_kernel.Prelude.{
  ℕ, zero, suc, ◌+◌, ◌-◌, ◌/◌, ◌%◌, ◌^◌, ◌<◌, ◌≡◌, refl, ap, inl, inr, Bool, true, false, not, ◌&&◌,
  ◌||◌, some, List, [], ◌∷◌, ◌++◌, ◌==◌, ltb, if◌then◌else◌, ◌>>=◌, length, length-append,
  replicate, get_or, Bool-cases, arith,
}
use unos_kernel.Prelude.Int.{pos, negsuc}
use unos_kernel.Strings.Convert.{hex_digits, itoa}
use unos_kernel.Strings.Convert.Numeral.{digits, numeral, decimal, hexadecimal, itoa-decimal}
use unos_kernel.Serial.{serial_print, padded, int_of}
use unos_kernel.Serial.Directive.{aligned, signed_text, value}

-- A byte that ends no string and is sent alone.
abbrev pub plain : ℕ → Bool
plain c = not (c == 0 || c == b'\n')

abbrev pub all_plain : List ℕ → Bool
all_plain [] = true
all_plain (c ∷ t) = plain c && all_plain t

pub all_plain-append :
    (s t : List ℕ) → all_plain s ≡ true → all_plain t ≡ true → all_plain (s ++ t) ≡ true
all_plain-append [] t p q = q
all_plain-append (c ∷ s) t p q = let rest = all_plain-append s t in ground arith

pub serial_print-plain :
    (t rest : List ℕ) → all_plain t ≡ true → serial_print (t ++ 0 ∷ rest) ≡ some t
unfolding serial_print
serial_print-plain [] rest p = refl
serial_print-plain (c ∷ t) rest p =
    let end : (c == 0) ≡ false = ground arith in
    let line : (c == b'\n') ≡ false = ground arith in
    rw (serial_print-plain t rest (ground arith), end, line) refl

pub plain-get_or :
    (xs : List ℕ) (k : ℕ) → all_plain xs ≡ true → k < length xs → plain (get_or xs k 0) ≡ true
plain-get_or [] k p h = absurd (omega arith)
plain-get_or (x ∷ xs) zero p h = ground arith
plain-get_or (x ∷ xs) (suc k) p h = plain-get_or xs k (ground arith) (omega arith)

all_plain-digits :
    (base : ℕ) (glyph : ℕ → ℕ)
    → ((k : ℕ) → plain (glyph (k % base)) ≡ true)
    → (left n : ℕ) → all_plain (digits base glyph left n) ≡ true
unfolding digits
all_plain-digits base glyph h zero n = refl
all_plain-digits base glyph h (suc left) n = elim (Bool-cases (n == 0)) [
  | inl z ↦ rw z refl
  | inr more ↦ rw more (
      all_plain-append (digits base glyph left (n / base)) (glyph (n % base) ∷ [])
        (all_plain-digits base glyph h left (n / base)) (rw (h n) refl))
]

all_plain-numeral :
    (base : ℕ) (glyph : ℕ → ℕ)
    → ((k : ℕ) → plain (glyph (k % base)) ≡ true)
    → (left n : ℕ) → all_plain (numeral base glyph left n) ≡ true
all_plain-numeral base glyph h left n = elim (Bool-cases (n == 0)) [
  | inl z ↦ rw z refl
  | inr more ↦ rw more (all_plain-digits base glyph h left n)
]

pub all_plain-decimal : (left n : ℕ) → all_plain (decimal left n) ≡ true
all_plain-decimal = all_plain-numeral 10 (λ d. b'0' + d) (λ k. ground arith)

pub all_plain-hexadecimal : (uppercase : Bool) (n : ℕ) → all_plain (hexadecimal uppercase n) ≡ true
all_plain-hexadecimal true =
    all_plain-numeral 16 (λ d. get_or (hex_digits true) d 0)
      (λ k. plain-get_or (hex_digits true) (k % 16) refl (omega arith)) 16
all_plain-hexadecimal false =
    all_plain-numeral 16 (λ d. get_or (hex_digits false) d 0)
      (λ k. plain-get_or (hex_digits false) (k % 16) refl (omega arith)) 16

pub padded-aligned :
    (z : Bool) (ds t : List ℕ)
    → all_plain t ≡ true
    → padded z (value 0 ds) (t ++ 0 ∷ []) ≡ aligned z ds t
padded-aligned z ds t p = rw (serial_print-plain t [] p) (
    ap (λ k. some (replicate (value 0 ds - k) (if z then b'0' else b' ') ++ t))
      {x = length (t ++ 0 ∷ []) - 1} {y = length t} (omega (arith, length-append t (0 ∷ []))))

pub padded-signed_text :
    (z : Bool) (ds : List ℕ) (n : ℕ)
    → (do text ← signed_text n; padded z (value 0 ds) (text ++ 0 ∷ []))
      ≡ (do text ← signed_text n; aligned z ds text)
padded-signed_text z ds n = elim (Bool-cases (n == 2 ^ 31)) [
  | inl least ↦ rw least refl
  | inr other ↦ elim (Bool-cases (ltb n (2 ^ 31))) [
    | inl positive ↦
        rw (other, positive) (padded-aligned z ds (decimal 11 n) (all_plain-decimal 11 n))
    | inr negative ↦
        rw (other, negative)
          (padded-aligned z ds (b'-' ∷ decimal 11 (2 ^ 32 - n)) (all_plain-decimal 11 (2 ^ 32 - n)))
  ]
]

-- The low 32 bits that hold `n`, read as an `int`.
itoa-word :
    (n : ℕ)
    → n < 2 ^ 32
    → itoa (if ltb n (2 ^ 31) then pos n else negsuc (2 ^ 32 - n - 1))
      ≡ (do text ← signed_text n; some (text ++ 0 ∷ []))
itoa-word n h = elim (Bool-cases (ltb n (2 ^ 31))) [
  | inl positive ↦
      let other : (n == 2 ^ 31) ≡ false = ground arith in rw (positive, other) ((itoa-decimal n).0)
  | inr negative ↦ elim (Bool-cases (n == 2 ^ 31)) [
    | inl least ↦
        let opposite : (suc (2 ^ 32 - n - 1) == 2 ^ 31) ≡ true = ground arith in
        rw (negative, least, (itoa-decimal (2 ^ 32 - n - 1)).1, opposite) refl
    | inr other ↦
        let same : suc (2 ^ 32 - n - 1) ≡ 2 ^ 32 - n = ground arith in
        let fits : (2 ^ 32 - n == 2 ^ 31) ≡ false = ground arith in
        rw (negative, other, (itoa-decimal (2 ^ 32 - n - 1)).1, same, fits) refl
  ]
]

pub itoa-signed_text :
    (n : ℕ) → itoa (int_of n) ≡ (do text ← signed_text (n % 2 ^ 32); some (text ++ 0 ∷ []))
itoa-signed_text n = itoa-word (n % 2 ^ 32) (omega arith)
