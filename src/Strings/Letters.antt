-- ===== src/Strings/Letters.antt =====
-- strcasecmp as a test on the strings.
use unos_kernel.Prelude.{
  ℕ, ◌≡◌, refl, inl, inr, Bool, true, false, ◌&&◌, some, List, [], ◌∷◌, ◌++◌, ◌==◌, ◌>>=◌,
  Bool-cases, arith,
}
use unos_kernel.Prelude.Int.{is_zero}
use unos_kernel.Strings.{strcasecmp, to_lower}
use unos_kernel.Strings.Compare.{NoNul}

abbrev pub same_letters : List ℕ → List ℕ → Bool
same_letters [] [] = true
same_letters [] (b ∷ t) = false
same_letters (a ∷ s) [] = false
same_letters (a ∷ s) (b ∷ t) = to_lower a == to_lower b && same_letters s t

pub strcasecmp-same_letters :
    (s t r q : List ℕ)
    → NoNul s
    → NoNul t
    → (do d ← strcasecmp (s ++ 0 ∷ r) (t ++ 0 ∷ q); some (is_zero d)) ≡ some (same_letters s t)
unfolding strcasecmp
strcasecmp-same_letters [] [] r q hs ht = refl
strcasecmp-same_letters [] (b ∷ t) r q hs ht = ground arith
strcasecmp-same_letters (a ∷ s) [] r q hs ht = ground arith
strcasecmp-same_letters (a ∷ s) (b ∷ t) r q (ha, hs) (hb, ht) =
    elim (Bool-cases (to_lower a == to_lower b)) [
      | inl same ↦
          let na : (a == 0) ≡ false = ground arith in
          let nb : (b == 0) ≡ false = ground arith in
          rw (same, na, nb) (strcasecmp-same_letters s t r q hs ht)
      | inr differ ↦ ground arith
    ]
