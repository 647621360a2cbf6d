-- ===== src/Serial/Format.antt =====
-- serial_printf on a written list of directives sends what the directives mean.
use mathlib.Core.List.{append_assoc}
use unos_kernel.Prelude.{
  ℕ, zero, suc, ◌%◌, ◌^◌, ◌<◌, ◌≤◌, ◌≡◌, ◌≢◌, refl, ap, fun_ext, ◌∙◌, Bool, true, false, Option,
  none, some, List, [], ◌∷◌, ◌++◌, ◌==◌, if◌then◌else◌, ◌>>=◌, >>=_assoc, length, length-append,
  get_or, arith,
}
use unos_kernel.Strings.Convert.{utoa, xtoa, itoa}
use unos_kernel.Strings.Convert.Numeral.{decimal, hexadecimal, utoa-decimal, xtoa-hexadecimal}
use unos_kernel.Serial.{
  Arg, word, text, serial_print, padded, int_of, with_word, conversion, switch, printf_step,
  printf_loop, serial_printf,
}
use unos_kernel.Serial.Directive.{
  Directive, written, written_all, value, IsDirective, AllDirectives, aligned, signed_text, meaning,
  meaning_all,
}
use unos_kernel.Serial.Numeral.{
  serial_print-plain, padded-aligned, all_plain-decimal, all_plain-hexadecimal, itoa-signed_text,
  padded-signed_text,
}
use unos_kernel.Serial.Fuel.{sent, sent-step}
use unos_kernel.Serial.Scan.{bare, printf_step-written}

module _ {f g : ℕ → Option (List ℕ)} where
  with_word_cong : ((n : ℕ) → f n ≡ g n) → (args : List Arg) → with_word f args ≡ with_word g args
  with_word_cong h [] = refl
  with_word_cong h (word n ∷ args) = rw (h n) refl
  with_word_cong h (text s ∷ args) = refl

utoa-aligned :
    (z : Bool) (ds : List ℕ) (n : ℕ) → padded z (value 0 ds) (utoa n) ≡ aligned z ds (decimal 20 n)
utoa-aligned z ds n =
    ap (padded z (value 0 ds)) (utoa-decimal n)
    ∙ padded-aligned z ds (decimal 20 n) (all_plain-decimal 20 n)

xtoa-aligned :
    (u z : Bool) (ds : List ℕ) (n : ℕ)
    → padded z (value 0 ds) (xtoa n u) ≡ aligned z ds (hexadecimal u n)
xtoa-aligned u z ds n =
    ap (padded z (value 0 ds)) (xtoa-hexadecimal n u)
    ∙ padded-aligned z ds (hexadecimal u n) (all_plain-hexadecimal u n)

itoa-aligned :
    (z : Bool) (ds : List ℕ) (n : ℕ)
    → (do buf ← itoa (int_of n); padded z (value 0 ds) buf)
      ≡ (do t ← signed_text (n % 2 ^ 32); aligned z ds t)
itoa-aligned z ds n =
    ap (λ t. t >>= padded z (value 0 ds)) (itoa-signed_text n)
    ∙ again (signed_text (n % 2 ^ 32))
    ∙ padded-signed_text z ds (n % 2 ^ 32)
  where
    again :
        (t : Option (List ℕ))
        → ((do buf ← t; some (buf ++ 0 ∷ [])) >>= padded z (value 0 ds))
          ≡ (do buf ← t; padded z (value 0 ds) (buf ++ 0 ∷ []))
    again none = refl
    again (some t) = refl

xtoa-pointer :
    (n : ℕ)
    → (do str ← serial_print (xtoa n false); some (b'0' ∷ b'x' ∷ str))
      ≡ some (b'0' ∷ b'x' ∷ hexadecimal false n)
xtoa-pointer n =
    rw
      (
        xtoa-hexadecimal n false,
        serial_print-plain (hexadecimal false n) [] (all_plain-hexadecimal false n),
      )
      refl

utoa-long : (n : ℕ) → serial_print (utoa n) ≡ some (decimal 20 n)
utoa-long n = rw (utoa-decimal n) (serial_print-plain (decimal 20 n) [] (all_plain-decimal 20 n))

printf_step_literal :
    (c : ℕ) (fmt : List ℕ) (args : List Arg)
    → c ≢ b'%'
    → printf_step c fmt args ≡ some (c ∷ [], fmt, args)
unfolding printf_step
printf_step_literal c fmt args h = let test : (c == b'%') ≡ false = ground arith in rw test refl

printf_step_long :
    (fmt : List ℕ) (args : List Arg)
    → printf_step b'%' (b'l' ∷ b'l' ∷ b'u' ∷ fmt) args
      ≡ (do (out, args) ← with_word (λ n. some (decimal 20 n)) args; some (out, fmt, args))
unfolding printf_step switch
printf_step_long fmt args = rw (with_word_cong utoa-long args) refl

-- The loop's body on the bytes of one directive.
abbrev step : List ℕ → List Arg → Option (List ℕ × List ℕ × List Arg)
step [] args = none
step (c ∷ fmt) args = if c == 0 then none else printf_step c fmt args

step-meaning :
    (d : Directive) (fmt : List ℕ) (args : List Arg)
    → IsDirective d
    → step (written d ++ fmt) args ≡ (do (out, args) ← meaning d args; some (out, fmt, args))
unfolding conversion
step-meaning (Directive.literal c) fmt args (end, escape) =
    let a : (c == 0) ≡ false = ground arith in rw a (printf_step_literal c fmt args escape)
step-meaning Directive.percent fmt args h =
    printf_step-written false [] b'%' fmt args (meaning Directive.percent args) bare refl
      (λ e. ground arith) refl
step-meaning Directive.string fmt args h =
    printf_step-written false [] b's' fmt args (meaning Directive.string args) bare refl
      (λ e. ground arith) refl
step-meaning Directive.char fmt args h =
    printf_step-written false [] b'c' fmt args (meaning Directive.char args) bare refl
      (λ e. ground arith) refl
step-meaning Directive.pointer fmt args h =
    printf_step-written false [] b'p' fmt args (meaning Directive.pointer args) bare refl
      (λ e. ground arith) (with_word_cong xtoa-pointer args)
step-meaning Directive.long_unsigned fmt args h = printf_step_long fmt args
step-meaning (Directive.signed z ds) fmt args h =
    printf_step-written z ds b'd' fmt args (meaning (Directive.signed z ds) args) h refl
      (λ e. ground arith) (with_word_cong (itoa-aligned z ds) args)
step-meaning (Directive.unsigned z ds) fmt args h =
    printf_step-written z ds b'u' fmt args (meaning (Directive.unsigned z ds) args) h refl
      (λ e. ground arith) (with_word_cong (λ n. utoa-aligned z ds (n % 2 ^ 32)) args)
step-meaning (Directive.lower_hex z ds) fmt args h =
    printf_step-written z ds b'x' fmt args (meaning (Directive.lower_hex z ds) args) h refl
      (λ e. ground arith) (with_word_cong (xtoa-aligned false z ds) args)
step-meaning (Directive.upper_hex z ds) fmt args h =
    printf_step-written z ds b'X' fmt args (meaning (Directive.upper_hex z ds) args) h refl
      (λ e. ground arith) (with_word_cong (xtoa-aligned true z ds) args)

written-first : (d : Directive) (fmt : List ℕ) → IsDirective d → get_or (written d ++ fmt) 0 0 ≢ 0
written-first (Directive.literal c) fmt h = h.0
written-first Directive.percent fmt h = λ e. ground arith
written-first Directive.string fmt h = λ e. ground arith
written-first Directive.char fmt h = λ e. ground arith
written-first Directive.pointer fmt h = λ e. ground arith
written-first Directive.long_unsigned fmt h = λ e. ground arith
written-first (Directive.signed z ds) fmt h = λ e. ground arith
written-first (Directive.unsigned z ds) fmt h = λ e. ground arith
written-first (Directive.lower_hex z ds) fmt h = λ e. ground arith
written-first (Directive.upper_hex z ds) fmt h = λ e. ground arith

sent-next :
    (fuel : ℕ) (s : List ℕ) (args : List Arg) (m : Option (List ℕ × List ℕ × List Arg))
    → get_or s 0 0 ≢ 0
    → step s args ≡ m
    → sent (suc fuel) s args
      ≡ (do (out, fmt, args) ← m; rest ← sent fuel fmt args; some (out ++ rest))
sent-next fuel [] args m h e = absurd (h refl)
sent-next fuel (c ∷ s) args m h e =
    let test : (c == 0) ≡ false = ground arith in
    let e' : printf_step c s args ≡ m = rw test at e in
    sent-step fuel c s args test
    ∙ ap (λ m. do (out, fmt, args) ← m; rest ← sent fuel fmt args; some (out ++ rest)) e'

-- One directive goes through the loop as what it means.
pub sent-meaning :
    (fuel : ℕ) (d : Directive) (fmt : List ℕ) (args : List Arg)
    → IsDirective d
    → sent (suc fuel) (written d ++ fmt) args
      ≡ (do (out, args) ← meaning d args; rest ← sent fuel fmt args; some (out ++ rest))
sent-meaning fuel d fmt args h =
    sent-next fuel (written d ++ fmt) args (do (out, args) ← meaning d args; some (out, fmt, args))
      (written-first d fmt h) (step-meaning d fmt args h)
    ∙ >>=_assoc (meaning d args) (λ r. some (r.0, fmt, r.1))
        (λ r. do rest ← sent fuel (r.1) (r.2); some (r.0 ++ rest))

length-written : (d : Directive) → 0 < length (written d)
length-written (Directive.literal c) = omega arith
length-written Directive.percent = omega arith
length-written Directive.string = omega arith
length-written Directive.char = omega arith
length-written Directive.pointer = omega arith
length-written Directive.long_unsigned = omega arith
length-written (Directive.signed z ds) = omega arith
length-written (Directive.unsigned z ds) = omega arith
length-written (Directive.lower_hex z ds) = omega arith
length-written (Directive.upper_hex z ds) = omega arith

length-written_all : (ds : List Directive) → length ds ≤ length (written_all ds)
length-written_all [] = omega arith
length-written_all (d ∷ ds) =
    omega
      (arith, length-append (written d) (written_all ds), length-written d, length-written_all ds)

sent-terminator :
    (fuel : ℕ) (rest : List ℕ) (args : List Arg) → sent (suc fuel) (0 ∷ rest) args ≡ some []
unfolding printf_loop
sent-terminator fuel rest args = refl

sent-meaning_all :
    (fuel : ℕ) (ds : List Directive) (rest : List ℕ) (args : List Arg)
    → AllDirectives ds
    → length ds < fuel
    → sent fuel (written_all ds ++ 0 ∷ rest) args ≡ meaning_all ds args
sent-meaning_all zero ds rest args h f = absurd (omega arith)
sent-meaning_all (suc fuel) [] rest args h f = sent-terminator fuel rest args
sent-meaning_all (suc fuel) (d ∷ ds) rest args (h, hs) f =
    ap (λ fmt. sent (suc fuel) fmt args) (append_assoc (written d) (written_all ds) (0 ∷ rest))
    ∙ sent-meaning fuel d (written_all ds ++ 0 ∷ rest) args h
    ∙ ap (λ k. meaning d args >>= k)
        (fun_ext (λ x.
          ap (λ r. r >>= (λ rest. some (x.0 ++ rest)))
            (sent-meaning_all fuel ds rest (x.1) hs (omega arith))))

-- On a format whose terminated bytes are those of a list of directives, serial_printf sends exactly
-- what the directives mean for the arguments, one after the other, and reads nothing behind the
-- terminator; it is undefined only where a meaning is.
pub serial_printf-written_all :
    (ds : List Directive) (rest : List ℕ) (args : List Arg)
    → AllDirectives ds
    → serial_printf (written_all ds ++ 0 ∷ rest) args ≡ meaning_all ds args
unfolding serial_printf
serial_printf-written_all ds rest args h =
    sent-meaning_all (length (written_all ds ++ 0 ∷ rest)) ds rest args h
      (omega (arith, length-append (written_all ds) (0 ∷ rest), length-written_all ds))
