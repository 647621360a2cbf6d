-- ===== src/Strings/Compare.antt =====
-- The reading functions of kstring.c on terminated strings.
use unos_kernel.Prelude.{
  ℕ, ◌+◌, ◌<◌, ◌≡◌, ◌≢◌, refl, ◌∙◌, ap, inl, inr, ◌↔◌, none, some, List, [], ◌∷◌, ◌++◌, map, arith,
  ◌==◌, Bool-cases, if◌then◌else◌, length,
}
use unos_kernel.Prelude.Int.{ℤ, pos, sub_ℕ}
use unos_kernel.Strings.{strlen_from, strlen, strcmp, strchr_from, strchr, strcasecmp, to_lower}

-- No byte of the list is the terminator.
abbrev pub NoNul : List ℕ → Type 0
NoNul [] = Unit {0}
NoNul (c ∷ s) = (c ≢ 0) × NoNul s

strlen_from-length :
    (len : ℕ) (s rest : List ℕ) → NoNul s → strlen_from len (s ++ 0 ∷ rest) ≡ some (len + length s)
unfolding strlen_from
strlen_from-length len [] rest h = ground arith
strlen_from-length len (c ∷ s) rest h = ground (arith, strlen_from-length (len + 1) s rest h.1)

-- strlen counts the bytes before the terminator.
pub strlen-length : (s rest : List ℕ) → NoNul s → strlen (s ++ 0 ∷ rest) ≡ some (length s)
unfolding strlen
strlen-length s rest h = ground (arith, strlen_from-length 0 s rest h)

-- strcmp of two terminated strings returns, and returns 0 exactly when they are the same.
pub strcmp-eq :
    (s t r q : List ℕ)
    → NoNul s
    → NoNul t
    → (d : ℤ) × (strcmp (s ++ 0 ∷ r) (t ++ 0 ∷ q) ≡ some d) × ((d ≡ pos 0) ↔ (s ≡ t))
unfolding strcmp
strcmp-eq [] [] r q hs ht = (pos 0, ground arith, ((λ _. refl), λ _. refl))
strcmp-eq [] (b ∷ t) r q hs ht = (sub_ℕ 0 b, ground arith, ((λ e. ground arith), λ e. cc))
strcmp-eq (a ∷ s) [] r q hs ht = (sub_ℕ a 0, ground arith, ((λ e. ground arith), λ e. cc))
strcmp-eq (a ∷ s) (b ∷ t) r q hs ht = elim (Bool-cases (a == b)) [
  | inl same ↦
      let (d, run, iff) = strcmp-eq s t r q hs.1 ht.1 in
      (d, ground arith, ((λ e. ground (arith, iff.0 e)), λ e. iff.1 (ground arith)))
  | inr differ ↦ (sub_ℕ a b, ground arith, ((λ e. ground arith), λ e. ground arith))
]

-- strcasecmp of two terminated strings returns, and returns 0 exactly when they agree in lower case.
pub strcasecmp-eq :
    (s t r q : List ℕ)
    → NoNul s
    → NoNul t
    → (d : ℤ) × (strcasecmp (s ++ 0 ∷ r) (t ++ 0 ∷ q) ≡ some d)
      × ((d ≡ pos 0) ↔ (map to_lower s ≡ map to_lower t))
unfolding strcasecmp
strcasecmp-eq [] [] r q hs ht = (pos 0, ground arith, ((λ _. refl), λ _. refl))
strcasecmp-eq [] (b ∷ t) r q hs ht =
    (sub_ℕ 0 (to_lower b), ground arith, ((λ e. ground arith), λ e. cc))
strcasecmp-eq (a ∷ s) [] r q hs ht =
    (sub_ℕ (to_lower a) 0, ground arith, ((λ e. ground arith), λ e. cc))
strcasecmp-eq (a ∷ s) (b ∷ t) r q hs ht = elim (Bool-cases (to_lower a == to_lower b)) [
  | inl same ↦
      let (d, run, iff) = strcasecmp-eq s t r q hs.1 ht.1 in
      (d, ground arith, ((λ e. ground (arith, iff.0 e)), λ e. iff.1 (ground arith)))
  | inr differ ↦
      (sub_ℕ (to_lower a) (to_lower b), ground arith, ((λ e. ground arith), λ e. ground arith))
]

-- No byte of the list is `c`.
abbrev pub Lacks : ℕ → List ℕ → Type 0
Lacks c [] = Unit {0}
Lacks c (x ∷ s) = (x ≢ c) × Lacks c s

strchr_from-here :
    (i c : ℕ) (s rest : List ℕ)
    → c < 256
    → c ≢ 0
    → NoNul s
    → Lacks c s
    → strchr_from i (s ++ c ∷ rest) c ≡ some (some (i + length s))
unfolding strchr_from
strchr_from-here i c [] rest hc h0 hs l = ground arith
strchr_from-here i c (x ∷ s) rest hc h0 hs l =
    ground (arith, strchr_from-here (i + 1) c s rest hc h0 hs.1 l.1)

strchr_from-absent :
    (i c : ℕ) (s rest : List ℕ)
    → c < 256
    → NoNul s
    → Lacks c s
    → strchr_from i (s ++ 0 ∷ rest) c ≡ some (if c == 0 then some (i + length s) else none)
unfolding strchr_from
strchr_from-absent i c [] rest hc hs l = ground arith
strchr_from-absent i c (x ∷ s) rest hc hs l =
    ground (arith, strchr_from-absent (i + 1) c s rest hc hs.1 l.1)

-- strchr finds the first occurrence of a byte, the terminator included, and NULL if there is none.
pub strchr_lem :
    (c : ℕ) (s rest : List ℕ)
    → c < 256
    → NoNul s
    → Lacks c s
    → (c ≢ 0 → strchr (s ++ c ∷ rest) c ≡ some (some (length s)))
      × (strchr (s ++ 0 ∷ rest) c ≡ some (if c == 0 then some (length s) else none))
unfolding strchr
strchr_lem c s rest hc hs l = (
  (λ h0. strchr_from-here 0 c s rest hc h0 hs l ∙ ap (λ t. some (some t)) (omega arith)),
  ground (arith, strchr_from-absent 0 c s rest hc hs l),
)
