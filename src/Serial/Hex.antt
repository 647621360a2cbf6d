-- ===== src/Serial/Hex.antt =====
-- Hexadecimal output, read back as a number.
use mathlib.Core.List.{append_assoc}
use native.Mathlib.Nat.{pow-suc}
use unos_kernel.Prelude.{
  ℕ, zero, suc, ◌+◌, ◌-◌, ◌*◌, ◌/◌, ◌%◌, ◌^◌, ◌<◌, ◌≤◌, ◌≡◌, refl, sym, ◌∙◌, inl, inr, Bool, true,
  false, ◌&&◌, some, List, [], ◌∷◌, ◌++◌, ◌==◌, leb, if◌then◌else◌, length, length-append, get_or,
  bit_and, Bool-cases, arith, ==_iff,
}
use unos_kernel.Prelude.Bits.{bit_and-low}
use unos_kernel.Strings.Convert.{is_digit, hex_digits, xtoa}
use unos_kernel.Strings.Convert.Numeral.{digits, hexadecimal, xtoa-hexadecimal}
use unos_kernel.Serial.{hex_buffer, serial_print_hex}
use unos_kernel.Serial.Numeral.{
  all_plain, plain, all_plain-append, plain-get_or, serial_print-plain,
}

abbrev pub hex_digit : ℕ → ℕ
hex_digit c = if is_digit c then c - b'0' else if leb c b'F' then c - b'A' + 10 else c - b'a' + 10

abbrev pub hex_value : ℕ → List ℕ → ℕ
hex_value w [] = w
hex_value w (c ∷ t) = hex_value (w * 16 + hex_digit c) t

abbrev counts_from : ℕ → List ℕ → Bool
counts_from i [] = true
counts_from i (c ∷ t) = (hex_digit c == i) && counts_from (suc i) t

hex_digit-get_or :
    (t : List ℕ) (i k : ℕ)
    → counts_from i t ≡ true
    → k < length t
    → hex_digit (get_or t k 0) ≡ i + k
hex_digit-get_or [] i k h small = absurd (omega arith)
hex_digit-get_or (c ∷ t) i zero h small =
    let same : (hex_digit c == i) ≡ true = ground arith in
    (==_iff (hex_digit c) i).0 same ∙ omega arith
hex_digit-get_or (c ∷ t) i (suc k) h small =
    hex_digit-get_or t (suc i) k (ground arith) (omega arith) ∙ omega arith

hex_digit-hex_digits :
    (uppercase : Bool) (n : ℕ) → hex_digit (get_or (hex_digits uppercase) (n % 16) 0) ≡ n % 16
hex_digit-hex_digits true n =
    hex_digit-get_or (hex_digits true) 0 (n % 16) refl (omega arith) ∙ omega arith
hex_digit-hex_digits false n =
    hex_digit-get_or (hex_digits false) 0 (n % 16) refl (omega arith) ∙ omega arith

hex_value-append : (w : ℕ) (s t : List ℕ) → hex_value w (s ++ t) ≡ hex_value (hex_value w s) t
hex_value-append w [] t = refl
hex_value-append w (c ∷ s) t = hex_value-append (w * 16 + hex_digit c) s t

-- The buffer's part that the loop fills.
record Filled (n v : ℕ) (tail buffer : List ℕ) : Type 0 where
  text : List ℕ
  shape : buffer ≡ text ++ tail
  sent : all_plain text ≡ true
  size : length text ≡ n
  reads : hex_value 0 text ≡ v

hex_buffer-Filled : (i v : ℕ) (tail : List ℕ) → v < 16 ^ i → Filled i v tail (hex_buffer i v tail)
unfolding hex_buffer
hex_buffer-Filled zero v tail h = record {
  text = [];
  shape = refl;
  sent = refl;
  size = refl;
  reads = omega arith;
}
hex_buffer-Filled (suc i) v tail h =
    let c = get_or (hex_digits true) (bit_and v 0xF) 0 in
    let f = hex_buffer-Filled i (v / 2 ^ 4) (c ∷ tail) (omega (arith, pow-suc 16 i)) in
    let good : plain c ≡ true =
      rw (bit_and-low 4 v) (plain-get_or (hex_digits true) (v % 16) refl (omega arith)) in
    record {
      text = f.text ++ c ∷ [];
      shape = f.shape ∙ sym (append_assoc f.text (c ∷ []) tail);
      sent = all_plain-append f.text (c ∷ []) f.sent (rw good refl);
      size = omega (arith, length-append f.text (c ∷ []), f.size);
      reads =
          hex_value-append 0 f.text (c ∷ [])
          ∙ rw (f.reads, bit_and-low 4 v, hex_digit-hex_digits true v) (omega arith);
    }

-- serial_print_hex sends "0x" and sixteen digits, which read back as the 64-bit number given.
pub serial_print_hex-hex_value :
    (v : ℕ)
    → v < 2 ^ 64
    → (t : List ℕ) × (serial_print_hex v ≡ some (b'0' ∷ b'x' ∷ t))
      × (length t ≡ 16)
      × (hex_value 0 t ≡ v)
unfolding serial_print_hex
serial_print_hex-hex_value v word =
    let f = hex_buffer-Filled 16 v (0 ∷ []) word in
    (
      f.text,
      rw
          (
            serial_print-plain (b'0' ∷ b'x' ∷ []) [] refl,
            f.shape,
            serial_print-plain f.text [] f.sent,
          )
          refl,
      f.size,
      f.reads,
    )

hex_value-digits :
    (u : Bool) (left n : ℕ)
    → n < 16 ^ left
    → (hex_value 0 (digits 16 (λ d. get_or (hex_digits u) d 0) left n) ≡ n)
      × (length (digits 16 (λ d. get_or (hex_digits u) d 0) left n) ≤ left)
unfolding digits
hex_value-digits u zero n h = (omega arith, omega arith)
hex_value-digits u (suc left) n h = elim (Bool-cases (n == 0)) [
  | inl z ↦ rw z (ground arith, omega arith)
  | inr more ↦
      let high = digits 16 (λ d. get_or (hex_digits u) d 0) left (n / 16) in
      let c = get_or (hex_digits u) (n % 16) 0 in
      let (reads, size) = hex_value-digits u left (n / 16) (omega (arith, pow-suc 16 left)) in
      rw more (
        hex_value-append 0 high (c ∷ []) ∙ rw (reads, hex_digit-hex_digits u n) (omega arith),
        omega (arith, length-append high (c ∷ []), size),
      )
]

hex_value-hexadecimal :
    (u : Bool) (v : ℕ)
    → v < 2 ^ 64
    → (hex_value 0 (hexadecimal u v) ≡ v) × (length (hexadecimal u v) ≤ 16)
hex_value-hexadecimal u v word = elim (Bool-cases (v == 0)) [
  | inl z ↦ rw z (ground arith, omega arith)
  | inr more ↦ rw more (hex_value-digits u 16 v word)
]

-- The buffer that xtoa fills holds a string of at most 16 digits, of either case, that reads back
-- as the 64-bit number given.
pub xtoa-hex_value :
    (v : ℕ) (uppercase : Bool)
    → v < 2 ^ 64
    → (t : List ℕ) × (xtoa v uppercase ≡ t ++ 0 ∷ []) × (length t ≤ 16) × (hex_value 0 t ≡ v)
xtoa-hex_value v u word =
    let (reads, size) = hex_value-hexadecimal u v word in
    (hexadecimal u v, xtoa-hexadecimal v u, size, reads)
