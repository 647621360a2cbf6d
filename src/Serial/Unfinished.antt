-- ===== src/Serial/Unfinished.antt =====
-- serial_printf on a format that ends inside a directive.
use mathlib.Core.List.{append_assoc}
use unos_kernel.Prelude.{
  ℕ, zero, suc, ◌≡◌, refl, ap, fun_ext, ◌∙◌, Bool, Option, none, some, List, [], ◌∷◌, ◌++◌, ◌>>=◌,
  length, arith,
}
use unos_kernel.Serial.{Arg, conversion, printf_loop, serial_printf}
use unos_kernel.Serial.Directive.{
  Directive, flag, written, written_all, IsWidth, AllDirectives, meaning,
}
use unos_kernel.Serial.Scan.{printf_step-conversion}
use unos_kernel.Serial.Format.{sent-meaning}
use unos_kernel.Serial.Fuel.{sent, sent-end, sent-zero}

sent-unfinished :
    (fuel : ℕ) (z : Bool) (ds : List ℕ) (args : List Arg)
    → IsWidth z ds
    → sent fuel (b'%' ∷ (flag z ++ (ds ++ 0 ∷ []))) args ≡ none
unfolding printf_loop conversion
sent-unfinished zero z ds args h = refl
sent-unfinished (suc fuel) z ds args h =
    rw (printf_step-conversion z ds 0 [] args h refl (λ e. ground arith)) (stopped fuel)
  where
    stopped : (fuel : ℕ) → (sent fuel [] args >>= (λ rest. some (b'%' ∷ 0 ∷ rest))) ≡ none
    stopped fuel = rw (sent-end fuel args) refl

sent-none :
    (fuel : ℕ) (ds : List Directive) (tail : List ℕ) (args : List Arg)
    → AllDirectives ds
    → ((fuel : ℕ) (args : List Arg) → sent fuel tail args ≡ none)
    → sent fuel (written_all ds ++ tail) args ≡ none
unfolding printf_loop
sent-none zero ds tail args h t = sent-zero (written_all ds ++ tail) args
sent-none (suc fuel) [] tail args h t = t (suc fuel) args
sent-none (suc fuel) (d ∷ ds) tail args (h, hs) t =
    ap (λ fmt. sent (suc fuel) fmt args) (append_assoc (written d) (written_all ds) tail)
    ∙ sent-meaning fuel d (written_all ds ++ tail) args h
    ∙ ap (λ k. meaning d args >>= k)
        (fun_ext
          (λ x. ap (λ r. r >>= (λ rest. some (x.0 ++ rest))) (sent-none fuel ds tail (x.1) hs t)))
    ∙ ended (meaning d args)
  where
    ended : (m : Option (List ℕ × List Arg)) → ◌>>=◌ {B = List ℕ} m (λ x. none) ≡ none
    ended none = refl
    ended (some x) = refl

-- A format that ends inside a directive, behind the percent sign, the flag or the width, has no
-- result whatever the arguments are: the scan steps over the terminator and leaves the object.
pub serial_printf-unfinished :
    (ds : List Directive) (z : Bool) (width : List ℕ) (args : List Arg)
    → AllDirectives ds
    → IsWidth z width
    → serial_printf (written_all ds ++ b'%' ∷ (flag z ++ (width ++ 0 ∷ []))) args ≡ none
unfolding serial_printf
serial_printf-unfinished ds z width args h w =
    let fmt = written_all ds ++ b'%' ∷ (flag z ++ (width ++ 0 ∷ [])) in
    sent-none (length fmt) ds (b'%' ∷ (flag z ++ (width ++ 0 ∷ []))) args h
      (λ fuel args. sent-unfinished fuel z width args w)
