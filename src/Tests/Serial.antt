-- ===== src/Tests/Serial.antt =====
-- drivers/com/com.c and kernel/logging/printk/printk.c at small inputs.
use unos_kernel.Prelude.{
  ℕ, ◌-◌, ◌^◌, ◌≡◌, refl, inl, true, none, some, List, [], ◌∷◌, ◌++◌, arith, length,
}
use unos_kernel.Prelude.Text.{codes}
use unos_kernel.Strings.Convert.{xtoa}
use unos_kernel.Serial.{Arg, word, printf_loop, serial_printf, serial_print_hex}
use unos_kernel.Serial.Directive.{Directive, IsWidth, AllDirectives, written_all, meaning_all, flag}
use unos_kernel.Serial.Format.{serial_printf-written_all}
use unos_kernel.Serial.Unfinished.{serial_printf-unfinished}
use unos_kernel.Serial.Fuel.{printf_loop-length}
use unos_kernel.Serial.Hex.{serial_print_hex-hex_value, hex_value}

-- "x=%05d%%"
abbrev line : List Directive
line =
    Directive.literal b'x'
    ∷ Directive.literal b'='
    ∷ Directive.signed true (b'5' ∷ [])
    ∷ Directive.percent
    ∷ []

five-IsWidth : IsWidth true (b'5' ∷ [])
five-IsWidth = record { digits = (refl, tt); no_flag = inl refl; small = omega arith }

line-AllDirectives : AllDirectives line
line-AllDirectives = (
  (λ e. ground arith, λ e. ground arith),
  ((λ e. ground arith, λ e. ground arith), (five-IsWidth, (tt, tt))),
)

line_written : written_all line ++ 0 ∷ [] ≡ codes "x=%05d%%" ++ 0 ∷ []
line_written = refl

abbrev minus_42 : List Arg
minus_42 = word (2 ^ 32 - 42) ∷ []

-- The zeros stand before the sign.
line_meaning : meaning_all line minus_42 ≡ some (codes "x=00-42%")
unfolding unos_kernel.Strings.Convert.Numeral.digits
line_meaning = refl

serial_printf-written_all_example :
    serial_printf (written_all line ++ 0 ∷ 7 ∷ []) minus_42 ≡ meaning_all line minus_42
serial_printf-written_all_example =
    serial_printf-written_all line (7 ∷ []) minus_42 line-AllDirectives

serial_printf-unfinished_example :
    serial_printf (written_all line ++ b'%' ∷ (flag true ++ ((b'5' ∷ []) ++ 0 ∷ []))) minus_42
    ≡ none
serial_printf-unfinished_example =
    serial_printf-unfinished line true (b'5' ∷ []) minus_42 line-AllDirectives five-IsWidth

printf_loop-length_example :
    printf_loop 9 (codes "a%c" ++ 0 ∷ []) (word b'b' ∷ [])
    ≡ some (serial_printf (codes "a%c" ++ 0 ∷ []) (word b'b' ∷ []))
printf_loop-length_example =
    printf_loop-length (codes "a%c" ++ 0 ∷ []) (word b'b' ∷ []) 9 (omega arith)

serial_print_hex-hex_value_example :
    (t : List ℕ) × (serial_print_hex 0xBEEF ≡ some (b'0' ∷ b'x' ∷ t))
    × (length t ≡ 16)
    × (hex_value 0 t ≡ 0xBEEF)
serial_print_hex-hex_value_example = serial_print_hex-hex_value 0xBEEF (omega arith)

long_hex_run : serial_printf (codes "%lx" ++ 0 ∷ []) (word 8 ∷ []) ≡ some (codes "%lx")
unfolding serial_printf
long_hex_run = refl
