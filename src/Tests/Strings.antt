-- ===== src/Tests/Strings.antt =====
-- Include/kstring.c at small inputs.
use unos_kernel.Prelude.{
  ℕ, ◌+◌, ◌-◌, ◌^◌, ◌≤◌, ◌≡◌, refl, none, some, List, [], ◌∷◌, ◌++◌, arith, length, drop,
}
use unos_kernel.Prelude.Int.{negsuc}
use unos_kernel.Strings.{strlen, strcpy}
use unos_kernel.Strings.Compare.{strlen-length}
use unos_kernel.Strings.Move.{strcpy-append, strcpy-overflow}
use unos_kernel.Strings.Convert.{utoa, itoa, strtoul, Parsed, ulong_max}
use unos_kernel.Strings.Convert.Digits.{strtoul-utoa}
use unos_kernel.Strings.Convert.Saturate.{strtoul-IsSaturated, IsSaturated, decimal}

abbrev ab : List ℕ
ab = b'a' ∷ b'b' ∷ []

abbrev upper_ab : List ℕ
upper_ab = b'A' ∷ b'B' ∷ []

strlen-length_example : strlen (ab ++ 0 ∷ 7 ∷ []) ≡ some 2
strlen-length_example = strlen-length ab (7 ∷ []) (omega arith)

strcpy-append_example :
    strcpy (9 ∷ 9 ∷ 9 ∷ 9 ∷ []) (ab ++ 0 ∷ []) ≡ some (ab ++ 0 ∷ drop (2 + 1) (9 ∷ 9 ∷ 9 ∷ 9 ∷ []))
strcpy-append_example = strcpy-append (9 ∷ 9 ∷ 9 ∷ 9 ∷ []) ab [] (omega arith) (omega arith)

strcpy-overflow_example : strcpy (9 ∷ 9 ∷ []) (ab ++ 0 ∷ []) ≡ none
strcpy-overflow_example = strcpy-overflow (9 ∷ 9 ∷ []) ab [] (omega arith) (omega arith)

strtoul-utoa_example :
    (length (utoa 40960) ≤ 21)
    × (strtoul (utoa 40960 ++ 7 ∷ []) 10 5
        ≡ some (record { result = 40960; end = length (utoa 40960) - 1; errno = 0 }))
strtoul-utoa_example = strtoul-utoa 40960 5 (7 ∷ []) (omega arith)

itoa_int_min : itoa (negsuc (2 ^ 31 - 1)) ≡ none
unfolding itoa
itoa_int_min = refl

strtoul-IsSaturated_example :
    (p : Parsed) × (strtoul ((32 ∷ []) ++ b'4' ∷ ((b'2' ∷ []) ++ 0 ∷ [])) 10 9 ≡ some p)
    × IsSaturated (decimal 0 (b'4' ∷ b'2' ∷ [])) p
    × (decimal 0 (b'4' ∷ b'2' ∷ []) ≤ ulong_max → p.end ≡ 1 + 2)
strtoul-IsSaturated_example =
    strtoul-IsSaturated (32 ∷ []) b'4' (b'2' ∷ []) 0 [] 9 (refl, tt) (refl, (refl, tt)) refl
