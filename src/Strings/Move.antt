-- ===== src/Strings/Move.antt =====
-- memset, memcpy, memcmp, strcpy and strcat: what they write, and where they stop.
use unos_kernel.Prelude.{
  ℕ, zero, suc, ◌+◌, ◌%◌, ◌≤◌, ◌<◌, ◌≡◌, refl, ◌↔◌, none, some, List, [], ◌∷◌, ◌++◌, arith, ◌∙◌, ap,
  inl, inr, Bool-cases, ◌==◌, length, take, drop, replicate,
}
use unos_kernel.Prelude.Int.{ℤ, pos, sub_ℕ}
use unos_kernel.Strings.{memset, memcpy, memcmp, strcpy, strcat}
use unos_kernel.Strings.Compare.{NoNul}

-- memset fills the first `n` bytes and leaves the others; past the object it is undefined.
pub memset-replicate :
    (n c : ℕ) (p : List ℕ)
    → (n ≤ length p → memset p c n ≡ some (replicate n (c % 256) ++ drop n p))
      × (length p < n → memset p c n ≡ none)
unfolding memset
memset-replicate zero c p = ((λ h. refl), λ h. absurd (omega arith))
memset-replicate (suc n) c [] = ((λ h. absurd (omega arith)), λ h. refl)
memset-replicate (suc n) c (x ∷ p) = (
  (λ h. rw ((memset-replicate n c p).0 (omega arith))),
  λ h. rw ((memset-replicate n c p).1 (omega arith)),
)

-- memcpy copies the first `n` bytes and leaves the rest of the target.
pub memcpy-take :
    (n : ℕ) (d s : List ℕ)
    → n ≤ length d
    → n ≤ length s
    → memcpy d s n ≡ some (take n s ++ drop n d)
unfolding memcpy
memcpy-take zero d s hd hs = refl
memcpy-take (suc n) [] s hd hs = absurd (omega arith)
memcpy-take (suc n) (x ∷ d) [] hd hs = absurd (omega arith)
memcpy-take (suc n) (x ∷ d) (a ∷ s) hd hs = rw (memcpy-take n d s (omega arith) (omega arith))

-- memcmp of two objects of at least `n` bytes is 0 exactly when their first `n` bytes agree.
pub memcmp-eq :
    (n : ℕ) (p q : List ℕ)
    → n ≤ length p
    → n ≤ length q
    → (d : ℤ) × (memcmp p q n ≡ some d) × ((d ≡ pos 0) ↔ (take n p ≡ take n q))
unfolding memcmp
memcmp-eq zero p q hp hq = (pos 0, refl, ((λ _. refl), λ _. refl))
memcmp-eq (suc n) [] q hp hq = absurd (omega arith)
memcmp-eq (suc n) (a ∷ p) [] hp hq = absurd (omega arith)
memcmp-eq (suc n) (a ∷ p) (b ∷ q) hp hq = elim (Bool-cases (a == b)) [
  | inl same ↦
      let (d, run, iff) = memcmp-eq n p q (omega arith) (omega arith) in
      (d, ground arith, ((λ e. ground (arith, iff.0 e)), λ e. iff.1 (ground arith)))
  | inr differ ↦ (sub_ℕ a b, ground arith, ((λ e. ground arith), λ e. ground arith))
]

-- strcpy copies a string and its terminator into an object that has room for both.
pub strcpy-append :
    (d s rest : List ℕ)
    → NoNul s
    → length s < length d
    → strcpy d (s ++ 0 ∷ rest) ≡ some (s ++ 0 ∷ drop (length s + 1) d)
unfolding strcpy
strcpy-append [] s rest h room = absurd (omega arith)
strcpy-append (x ∷ d) [] rest h room = refl
strcpy-append (x ∷ d) (a ∷ s) rest h room = ground (arith, strcpy-append d s rest h.1)

-- A string that does not fit with its terminator is written past the end of the target.
pub strcpy-overflow :
    (d s rest : List ℕ) → NoNul s → length d ≤ length s → strcpy d (s ++ 0 ∷ rest) ≡ none
unfolding strcpy
strcpy-overflow [] [] rest h long = refl
strcpy-overflow [] (a ∷ s) rest h long = refl
strcpy-overflow (x ∷ d) [] rest h long = absurd (omega arith)
strcpy-overflow (x ∷ d) (a ∷ s) rest h long = ground (arith, strcpy-overflow d s rest h.1)

-- strcat puts the second string and its terminator where the terminator of the first stood.
pub strcat-append :
    (t s d rest : List ℕ)
    → NoNul t
    → NoNul s
    → length s ≤ length d
    → strcat (t ++ 0 ∷ d) (s ++ 0 ∷ rest) ≡ some (t ++ s ++ 0 ∷ drop (length s) d)
unfolding strcat
strcat-append [] s d rest ht hs room =
    strcpy-append (0 ∷ d) s rest hs (omega arith)
    ∙ ap (λ n. some (s ++ 0 ∷ drop n (0 ∷ d))) {x = length s + 1} {y = suc (length s)} (omega arith)
strcat-append (x ∷ t) s d rest ht hs room = ground (arith, strcat-append t s d rest ht.1 hs)
