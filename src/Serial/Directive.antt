-- ===== src/Serial/Directive.antt =====
-- What a format means, apart from how it is scanned: a list of directives, the bytes that stand for
-- it, and the output for a list of arguments.
use unos_kernel.Prelude.{
  ℕ, ◌+◌, ◌-◌, ◌*◌, ◌%◌, ◌^◌, ◌<◌, ◌≡◌, ◌≢◌, ◌⊎◌, Bool, true, false, Option, none, some, List, [],
  ◌∷◌, ◌++◌, ◌==◌, if◌then◌else◌, ◌>>=◌, length, replicate, get_or, ltb,
}
use unos_kernel.Strings.Convert.{is_digit}
use unos_kernel.Strings.Convert.Numeral.{decimal, hexadecimal}
use unos_kernel.Serial.{Arg, with_word, with_text, serial_print}

pub data Directive : Type 0 where
  literal : ℕ → Directive
  percent string char pointer long_unsigned : Directive
  -- Zero padding, and the digits of the width.
  signed unsigned lower_hex upper_hex : Bool → List ℕ → Directive

abbrev pub flag : Bool → List ℕ
flag true = b'0' ∷ []
flag false = []

abbrev pub written : Directive → List ℕ
written (Directive.literal c) = c ∷ []
written Directive.percent = b'%' ∷ b'%' ∷ []
written Directive.string = b'%' ∷ b's' ∷ []
written Directive.char = b'%' ∷ b'c' ∷ []
written Directive.pointer = b'%' ∷ b'p' ∷ []
written Directive.long_unsigned = b'%' ∷ b'l' ∷ b'l' ∷ b'u' ∷ []
written (Directive.signed z ds) = b'%' ∷ (flag z ++ (ds ++ b'd' ∷ []))
written (Directive.unsigned z ds) = b'%' ∷ (flag z ++ (ds ++ b'u' ∷ []))
written (Directive.lower_hex z ds) = b'%' ∷ (flag z ++ (ds ++ b'x' ∷ []))
written (Directive.upper_hex z ds) = b'%' ∷ (flag z ++ (ds ++ b'X' ∷ []))

abbrev pub written_all : List Directive → List ℕ
written_all [] = []
written_all (d ∷ ds) = written d ++ written_all ds

-- The number that digits stand for, behind `w`.
abbrev pub value : ℕ → List ℕ → ℕ
value w [] = w
value w (d ∷ ds) = value (w * 10 + (d - b'0')) ds

abbrev pub AllDigits : List ℕ → Type 0
AllDigits [] = Unit
AllDigits (d ∷ ds) = (is_digit d ≡ true) × AllDigits ds

-- A width that is not taken for the flag, and that an `int` holds.
pub record IsWidth (z : Bool) (ds : List ℕ) : Type 0 where
  pub digits : AllDigits ds
  pub no_flag : (z ≡ true) ⊎ (get_or ds 0 1 ≢ b'0')
  pub small : value 0 ds < 2 ^ 31

abbrev pub IsDirective : Directive → Type 0
IsDirective (Directive.literal c) = (c ≢ 0) × (c ≢ b'%')
IsDirective (Directive.signed z ds) = IsWidth z ds
IsDirective (Directive.unsigned z ds) = IsWidth z ds
IsDirective (Directive.lower_hex z ds) = IsWidth z ds
IsDirective (Directive.upper_hex z ds) = IsWidth z ds
IsDirective _ = Unit

abbrev pub AllDirectives : List Directive → Type 0
AllDirectives [] = Unit
AllDirectives (d ∷ ds) = IsDirective d × AllDirectives ds

abbrev pub aligned : Bool → List ℕ → List ℕ → Option (List ℕ)
aligned z ds text = some (replicate (value 0 ds - length text) (if z then b'0' else b' ') ++ text)

-- The least `int` has no opposite.
abbrev pub signed_text : ℕ → Option (List ℕ)
signed_text n =
    if n == 2 ^ 31
    then none
    else some (if ltb n (2 ^ 31) then decimal 11 n else b'-' ∷ decimal 11 (2 ^ 32 - n))

abbrev pub meaning : Directive → List Arg → Option (List ℕ × List Arg)
meaning (Directive.literal c) args = some (c ∷ [], args)
meaning Directive.percent args = some (b'%' ∷ [], args)
meaning Directive.string args = with_text (λ s. serial_print s) args
meaning Directive.char args = with_word (λ n. some (n % 256 ∷ [])) args
meaning Directive.pointer args = with_word (λ n. some (b'0' ∷ b'x' ∷ hexadecimal false n)) args
meaning Directive.long_unsigned args = with_word (λ n. some (decimal 20 n)) args
meaning (Directive.signed z ds) args =
    with_word (λ n. do text ← signed_text (n % 2 ^ 32); aligned z ds text) args
meaning (Directive.unsigned z ds) args =
    with_word (λ n. aligned z ds (decimal 20 (n % 2 ^ 32))) args
meaning (Directive.lower_hex z ds) args = with_word (λ n. aligned z ds (hexadecimal false n)) args
meaning (Directive.upper_hex z ds) args = with_word (λ n. aligned z ds (hexadecimal true n)) args

abbrev pub meaning_all : List Directive → List Arg → Option (List ℕ)
meaning_all [] args = some []
meaning_all (d ∷ ds) args = do
  (out, args) ← meaning d args
  rest ← meaning_all ds args
  some (out ++ rest)
