-- ===== src/Serial/Scan.antt =====
-- How the body of the loop of serial_printf scans a directive: the flag, the width and the conversion.
use mathlib.Core.List.{append_assoc}
use unos_kernel.Prelude.{
  ℕ, ◌+◌, ◌-◌, ◌*◌, ◌^◌, ◌<◌, ◌≤◌, ◌≡◌, ◌≢◌, ◌⊎◌, refl, ap, ◌∙◌, inl, inr, Bool, true, false,
  Option, some, List, [], ◌∷◌, ◌++◌, ◌==◌, ltb, ◌>>=◌, get_or, arith, lt→ltb,
}
use unos_kernel.Strings.Convert.{is_digit}
use unos_kernel.Serial.{Arg, parse_flag, parse_width, conversion, switch, printf_step}
use unos_kernel.Serial.Directive.{flag, value, AllDigits, IsWidth}

value-ge : (w : ℕ) (ds : List ℕ) → w ≤ value w ds
value-ge w [] = omega arith
value-ge w (d ∷ ds) = omega (arith, value-ge (w * 10 + (d - b'0')) ds)

pub parse_width-value :
    (w : ℕ) (ds : List ℕ) (c : ℕ) (rest : List ℕ)
    → AllDigits ds
    → is_digit c ≡ false
    → value w ds < 2 ^ 31
    → parse_width w (ds ++ c ∷ rest) ≡ some (value w ds, c ∷ rest)
unfolding parse_width
parse_width-value w [] c rest all end small = rw end refl
parse_width-value w (d ∷ ds) c rest (digit, all) end small =
    let fits : ltb (w * 10 + (d - b'0')) (2 ^ 31) ≡ true =
      lt→ltb (w * 10 + (d - b'0')) (2 ^ 31) (omega (arith, value-ge (w * 10 + (d - b'0')) ds)) in
    rw (digit, fits) (parse_width-value (w * 10 + (d - b'0')) ds c rest all end small)

pub parse_flag-flag :
    (z : Bool) (ds : List ℕ) (c : ℕ) (rest : List ℕ)
    → (z ≡ true) ⊎ (get_or ds 0 1 ≢ b'0')
    → c ≢ b'0'
    → parse_flag (flag z ++ (ds ++ c ∷ rest)) ≡ (z, ds ++ c ∷ rest)
parse_flag-flag true ds c rest first other = refl
parse_flag-flag false [] c rest first other =
    let test : (c == b'0') ≡ false = ground arith in rw test refl
parse_flag-flag false (d ∷ ds) c rest (inr h) other =
    let test : (d == b'0') ≡ false = ground arith in rw test refl
parse_flag-flag false (d ∷ ds) c rest (inl h) other = absurd (ground arith)

-- A conversion behind its flag and width.
pub printf_step-conversion :
    (z : Bool) (ds : List ℕ) (c : ℕ) (fmt : List ℕ) (args : List Arg)
    → IsWidth z ds
    → is_digit c ≡ false
    → c ≢ b'l'
    → printf_step b'%' (flag z ++ (ds ++ c ∷ fmt)) args
      ≡ (do (out, args) ← conversion z (value 0 ds) c args; some (out, fmt, args))
unfolding printf_step switch
printf_step-conversion z ds c fmt args h letter long =
    let zero_digit : c ≢ b'0' = ground arith in
    let test : (c == b'l') ≡ false = ground arith in
    let scanned = parse_flag-flag z ds c fmt h.no_flag zero_digit in
    rw (scanned, parse_width-value 0 ds c fmt h.digits letter h.small, test) refl

pub bare : IsWidth false []
bare = record { digits = tt; no_flag = inr (λ e. ground arith); small = omega arith }

-- The same, for the bytes as they are written and what the conversion means.
pub printf_step-written :
    (z : Bool) (ds : List ℕ) (c : ℕ) (fmt : List ℕ) (args : List Arg)
    (m : Option (List ℕ × List Arg))
    → IsWidth z ds
    → is_digit c ≡ false
    → c ≢ b'l'
    → conversion z (value 0 ds) c args ≡ m
    → printf_step b'%' ((flag z ++ (ds ++ c ∷ [])) ++ fmt) args
      ≡ (do (out, args) ← m; some (out, fmt, args))
printf_step-written z ds c fmt args m h letter long e =
    ap (λ t. printf_step b'%' t args)
      (append_assoc (flag z) (ds ++ c ∷ []) fmt
        ∙ ap (λ t. flag z ++ t) (append_assoc ds (c ∷ []) fmt))
    ∙ printf_step-conversion z ds c fmt args h letter long
    ∙ ap (λ m. (do (out, args) ← m; some (out, fmt, args))) e
