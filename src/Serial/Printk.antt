-- ===== src/Serial/Printk.antt =====
-- Printk, over serial_printf.
use unos_kernel.Prelude.{
  ℕ, ◌≡◌, refl, ap, inl, inr, true, some, List, [], ◌∷◌, ◌++◌, ◌==◌, ◌>>=◌, Bool-cases,
}
use unos_kernel.Serial.{Arg, printk_prefix, printk}
use unos_kernel.Serial.Directive.{Directive, written_all, AllDirectives, meaning_all}
use unos_kernel.Serial.Numeral.{serial_print-plain}
use unos_kernel.Prelude.Slices.{append_nil}
use unos_kernel.Serial.Numeral.{all_plain}
use unos_kernel.Serial.Format.{serial_printf-written_all}

all_plain-prefix : (level : ℕ) → all_plain (printk_prefix level) ≡ true
all_plain-prefix level = elim (Bool-cases (level == 0)) [
  | inl a ↦ rw a refl
  | inr a ↦ elim (Bool-cases (level == 2)) [
    | inl b ↦ rw (a, b) refl
    | inr b ↦ elim (Bool-cases (level == 3)) [
      | inl c ↦ rw (a, b, c) refl
      | inr c ↦ elim (Bool-cases (level == 1)) [
        | inl d ↦ rw (a, b, c, d) refl
        | inr d ↦ rw (a, b, c, d) refl
      ]
    ]
  ]
]

-- Printk sends the level's prefix and then what the directives mean.
pub printk-written_all :
    (level : ℕ) (ds : List Directive) (rest : List ℕ) (args : List Arg)
    → AllDirectives ds
    → printk level (written_all ds ++ 0 ∷ rest) args
      ≡ (do out ← meaning_all ds args; some (printk_prefix level ++ out))
unfolding printk
printk-written_all level ds rest args h =
    rw
      (
        serial_print-plain (printk_prefix level) [] (all_plain-prefix level),
        serial_printf-written_all ds rest args h,
      )
      (ap (λ t. (do out ← meaning_all ds args; some (t ++ out))) (append_nil (printk_prefix level)))
