-- ===== src/Strings/Convert/Numeral.antt =====
-- The buffers that utoa, itoa and xtoa fill, compared with numerals written from the left.
use mathlib.Core.List.{append_assoc}
use unos_kernel.Prelude.{
  ℕ, zero, suc, ◌+◌, ◌/◌, ◌%◌, ◌^◌, ◌≡◌, refl, sym, ap, ◌∙◌, inl, inr, Bool, false, none, some,
  List, [], ◌∷◌, ◌++◌, ◌==◌, if◌then◌else◌, get_or, Bool-cases, arith,
}
use unos_kernel.Prelude.Bits.{bit_and-low}
use unos_kernel.Prelude.Int.{pos, negsuc}
use unos_kernel.Strings.Convert.{decimal_loop, hex_loop, hex_digits, utoa, itoa, xtoa}

-- At most `left` digits of a number in a base, the most significant first.
unfoldable pub digits : ℕ → (ℕ → ℕ) → ℕ → ℕ → List ℕ
digits base glyph zero n = []
digits base glyph (suc left) n =
    let high = digits base glyph left (n / base) in
    if n == 0 then [] else high ++ glyph (n % base) ∷ []

abbrev pub numeral : ℕ → (ℕ → ℕ) → ℕ → ℕ → List ℕ
numeral base glyph left n = if n == 0 then b'0' ∷ [] else digits base glyph left n

abbrev pub decimal : ℕ → ℕ → List ℕ
decimal = numeral 10 (λ d. b'0' + d)

abbrev pub hexadecimal : Bool → ℕ → List ℕ
hexadecimal uppercase = numeral 16 (λ d. get_or (hex_digits uppercase) d 0) 16

decimal_loop-digits :
    (left n : ℕ) (tmp : List ℕ) → decimal_loop left n tmp ≡ digits 10 (λ d. b'0' + d) left n ++ tmp
unfolding decimal_loop digits
decimal_loop-digits zero n tmp = refl
decimal_loop-digits (suc left) n tmp = elim (Bool-cases (n == 0)) [
  | inl stop ↦ rw stop refl
  | inr more ↦ rw more (
      decimal_loop-digits left (n / 10) ((b'0' + n % 10) ∷ tmp)
      ∙ sym (append_assoc (digits 10 (λ d. b'0' + d) left (n / 10)) ((b'0' + n % 10) ∷ []) tmp))
]

hex_loop-digits :
    (uppercase : Bool) (left n : ℕ) (tmp : List ℕ)
    → hex_loop uppercase left n tmp
      ≡ digits 16 (λ d. get_or (hex_digits uppercase) d 0) left n ++ tmp
unfolding hex_loop digits
hex_loop-digits u zero n tmp = refl
hex_loop-digits u (suc left) n tmp = elim (Bool-cases (n == 0)) [
  | inl stop ↦ rw stop refl
  | inr more ↦
      rw (more, bit_and-low 4 n)
        (hex_loop-digits u left (n / 2 ^ 4) (get_or (hex_digits u) (n % 16) 0 ∷ tmp)
          ∙ sym (
              append_assoc (digits 16 (λ d. get_or (hex_digits u) d 0) left (n / 16))
                (get_or (hex_digits u) (n % 16) 0 ∷ []) tmp))
]

pub utoa-decimal : (n : ℕ) → utoa n ≡ decimal 20 n ++ 0 ∷ []
unfolding utoa
utoa-decimal n = elim (Bool-cases (n == 0)) [
  | inl z ↦ rw z refl
  | inr more ↦
      rw (more, decimal_loop-digits 20 n [])
        (append_assoc (digits 10 (λ d. b'0' + d) 20 n) [] (0 ∷ []))
]

pub xtoa-hexadecimal :
    (n : ℕ) (uppercase : Bool) → xtoa n uppercase ≡ hexadecimal uppercase n ++ 0 ∷ []
unfolding xtoa
xtoa-hexadecimal n u = elim (Bool-cases (n == 0)) [
  | inl z ↦ rw z refl
  | inr more ↦
      rw (more, hex_loop-digits u 16 n [])
        (append_assoc (digits 16 (λ d. get_or (hex_digits u) d 0) 16 n) [] (0 ∷ []))
]

pub itoa-decimal :
    (n : ℕ)
    → (itoa (pos n) ≡ some (decimal 11 n ++ 0 ∷ []))
      × (itoa (negsuc n)
          ≡ (if suc n == 2 ^ 31 then none else some (b'-' ∷ decimal 11 (suc n) ++ 0 ∷ [])))
unfolding itoa
itoa-decimal n = (
  elim (Bool-cases (n == 0)) [
    | inl z ↦ rw z refl
    | inr more ↦
        rw (more, decimal_loop-digits 11 n [])
          (ap some (append_assoc (digits 10 (λ d. b'0' + d) 11 n) [] (0 ∷ [])))
  ],
  rw
      (
        test,
        decimal_loop-digits 11 (suc n) [],
        append_assoc (digits 10 (λ d. b'0' + d) 11 (suc n)) [] (0 ∷ []),
      )
      refl,
)
  where
    test : (suc n == 0) ≡ false
    test = ground arith
