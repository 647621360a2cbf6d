-- ===== src/Serial/Fuel.antt =====
-- The loop of serial_printf reads at least one byte at each turn.
use unos_kernel.Prelude.{
  ℕ, zero, suc, ◌+◌, ◌-◌, ◌*◌, ◌^◌, ◌≤◌, ◌≡◌, refl, subst, inl, inr, Bool, false, ◌&&◌, Option,
  none, some, Option-cases, List, [], ◌∷◌, ◌++◌, ◌==◌, ltb, ◌>>=◌, OnSome, OnSome-weaken,
  OnSome-always, OnSome-bind, length, drop, length-drop, get_or, Bool-cases, arith,
}
use unos_kernel.Strings.Convert.{is_digit, utoa}
use unos_kernel.Serial.{
  Arg, with_word, serial_print, parse_flag, parse_width, conversion, long_conversion, switch,
  printf_step, sent_by, printf_loop, serial_printf,
}

length-parse_flag : (fmt : List ℕ) → length ((parse_flag fmt).1) ≤ length fmt
length-parse_flag [] = omega arith
length-parse_flag (c ∷ fmt) = ground arith

parse_width-OnSome :
    (w : ℕ) (fmt : List ℕ) → OnSome (λ r. length (r.1) ≤ length fmt) (parse_width w fmt)
unfolding parse_width
parse_width-OnSome w [] = tt
parse_width-OnSome w (c ∷ fmt) = elim (Bool-cases (is_digit c)) [
  | inr other ↦ rw other (omega arith)
  | inl digit ↦ elim (Bool-cases (ltb (w * 10 + (c - b'0')) (2 ^ 31))) [
    | inr big ↦ rw (digit, big) tt
    | inl fits ↦
        rw (digit, fits)
          (OnSome-weaken _ _ (λ r h. omega (arith, h)) (parse_width (w * 10 + (c - b'0')) fmt)
            (parse_width-OnSome (w * 10 + (c - b'0')) fmt))
  ]
]

long_conversion-OnSome :
    (fmt : List ℕ) (args : List Arg)
    → OnSome (λ r. length (r.1) ≤ length fmt) (long_conversion fmt args)
long_conversion-OnSome [] args = tt
long_conversion-OnSome (x ∷ fmt) args = elim (Bool-cases (x == b'l' && get_or fmt 0 0 == b'u')) [
  | inr other ↦ rw other (omega arith)
  | inl here ↦ rw here (
      OnSome-bind _ (λ r. some (r.0, drop 1 fmt, r.1)) (with_word (λ n. serial_print (utoa n)) args)
        (OnSome-always _ (λ r. omega (arith, length-drop 1 fmt))
          (with_word (λ n. serial_print (utoa n)) args)))
]

switch-OnSome :
    (z : Bool) (w : ℕ) (fmt : List ℕ) (args : List Arg)
    → OnSome (λ r. length (r.1) ≤ length fmt) (switch z w fmt args)
unfolding switch
switch-OnSome z w [] args = tt
switch-OnSome z w (c ∷ fmt) args = elim (Bool-cases (c == b'l')) [
  | inl long ↦ rw long (
      OnSome-weaken _ _ (λ r h. omega (arith, h)) (long_conversion fmt args)
        (long_conversion-OnSome fmt args))
  | inr other ↦ rw other (
      OnSome-bind _ (λ r. some (r.0, fmt, r.1)) (conversion z w c args)
        (OnSome-always _ (λ r. omega arith) (conversion z w c args)))
]

printf_step-OnSome :
    (c : ℕ) (fmt : List ℕ) (args : List Arg)
    → OnSome (λ r. length (r.1) ≤ length fmt) (printf_step c fmt args)
unfolding printf_step
printf_step-OnSome c fmt args = elim (Bool-cases (c == b'%')) [
  | inr other ↦ rw other (omega arith)
  | inl directive ↦ rw directive (
      OnSome-bind _ (λ r. switch ((parse_flag fmt).0) (r.0) (r.1) args)
        (parse_width 0 ((parse_flag fmt).1))
        (OnSome-weaken _ _
          (λ r h.
            OnSome-weaken _ _ (λ q k. omega (arith, h, k, length-parse_flag fmt))
              (switch ((parse_flag fmt).0) (r.0) (r.1) args)
              (switch-OnSome ((parse_flag fmt).0) (r.0) (r.1) args))
          (parse_width 0 ((parse_flag fmt).1)) (parse_width-OnSome 0 ((parse_flag fmt).1))))
]

-- Two bounds that are enough give the same outcome.
printf_loop-enough :
    (f g : ℕ) (fmt : List ℕ) (args : List Arg)
    → length fmt ≤ f
    → length fmt ≤ g
    → (r : Option (List ℕ)) × (printf_loop f fmt args ≡ some r) × (printf_loop g fmt args ≡ some r)
unfolding printf_loop
printf_loop-enough f g [] args h k = (none, refl, refl)
printf_loop-enough zero g (c ∷ fmt) args h k = absurd (omega arith)
printf_loop-enough (suc f) zero (c ∷ fmt) args h k = absurd (omega arith)
printf_loop-enough (suc f) (suc g) (c ∷ fmt) args h k = elim (Bool-cases (c == 0)) [
  | inl end ↦ (some [], rw end refl, rw end refl)
  | inr more ↦ elim (Option-cases (printf_step c fmt args)) [
    | inl undefined ↦ (none, rw (more, undefined) refl, rw (more, undefined) refl)
    | inr (x, e) ↦
        let shorter : OnSome (λ r. length (r.1) ≤ length fmt) (some x) =
          subst (OnSome (λ r. length (r.1) ≤ length fmt)) e (printf_step-OnSome c fmt args) in
        let le : length (x.1) ≤ length fmt = shorter in
        let (r, a, b) =
          printf_loop-enough f g (x.1) (x.2) (omega (arith, le)) (omega (arith, le)) in
        ((do rest ← r; some (x.0 ++ rest)), rw (more, e, a) refl, rw (more, e, b) refl)
  ]
]

-- The loop of serial_printf ends within as many turns as the format's object has bytes, whatever it
-- is and whatever the arguments are: with that bound on the turns, or any greater one, there is an
-- outcome, and it is the result of serial_printf.
pub printf_loop-length :
    (fmt : List ℕ) (args : List Arg) (fuel : ℕ)
    → length fmt ≤ fuel
    → printf_loop fuel fmt args ≡ some (serial_printf fmt args)
unfolding serial_printf
printf_loop-length fmt args fuel h =
    let (r, a, b) = printf_loop-enough fuel (length fmt) fmt args h (omega arith) in rw (a, b) refl

-- The loop over what it sends, without the fuel's own outcome.
abbrev pub sent : ℕ → List ℕ → List Arg → Option (List ℕ)
sent fuel fmt args = sent_by (printf_loop fuel fmt args)

pub sent-end : (fuel : ℕ) (args : List Arg) → sent fuel [] args ≡ none
unfolding printf_loop
sent-end zero args = refl
sent-end (suc fuel) args = refl

pub sent-zero : (fmt : List ℕ) (args : List Arg) → sent 0 fmt args ≡ none
unfolding printf_loop
sent-zero [] args = refl
sent-zero (c ∷ fmt) args = refl

pub sent-step :
    (fuel c : ℕ) (fmt : List ℕ) (args : List Arg)
    → (c == 0) ≡ false
    → sent (suc fuel) (c ∷ fmt) args ≡ (do
      (out, fmt, args) ← printf_step c fmt args
      rest ← sent fuel fmt args
      some (out ++ rest))
unfolding printf_loop
sent-step fuel c fmt args h = elim (Option-cases (printf_step c fmt args)) [
  | inl undefined ↦ rw (h, undefined) refl
  | inr (x, e) ↦ elim (Option-cases (printf_loop fuel (x.1) (x.2))) [
    | inl out ↦ rw (h, e, out) refl
    | inr (r, a) ↦ rw (h, e, a) refl
  ]
]
