-- ===== src/Strings/Convert/Saturate.antt =====
-- strtoul on a number of any size: the value, or ULONG_MAX with ERANGE.
use unos_kernel.Prelude.{
  ℕ, suc, ◌+◌, ◌-◌, ◌*◌, ◌/◌, ◌≤◌, ◌<◌, ◌≡◌, ◌∙◌, ap, true, false, some, List, [], ◌∷◌, ◌++◌, arith,
  ltb, if◌then◌else◌, Bool-cases, inl, inr, length, min, ltb→lt,
}
use unos_kernel.Strings.Convert.{
  is_digit, is_space, Parsed, strtoul_digits, strtoul_sign, strtoul_space, strtoul, ulong_max,
  erange,
}

-- The number that a row of digits stands for, read after a number `acc`; with no bound.
pub decimal : ℕ → List ℕ → ℕ
decimal acc [] = acc
decimal acc (c ∷ s) = decimal (acc * 10 + (c - b'0')) s

abbrev pub AllDigits : List ℕ → Type 0
AllDigits [] = Unit {0}
AllDigits (c ∷ s) = (is_digit c ≡ true) × AllDigits s

abbrev pub AllSpace : List ℕ → Type 0
AllSpace [] = Unit {0}
AllSpace (c ∷ s) = (is_space c ≡ true) × AllSpace s

decimal-ge : (acc : ℕ) (s : List ℕ) → acc ≤ decimal acc s
unfolding decimal
decimal-ge acc [] = omega arith
decimal-ge acc (c ∷ s) = omega (arith, decimal-ge (acc * 10 + (c - b'0')) s)

-- What strtoul returns for a number: its value and no error, or the limit and ERANGE.
pub record IsSaturated (value : ℕ) (p : Parsed) : Type 0 where
  pub result : p.result ≡ min value ulong_max
  pub errno : p.errno ≡ (if ltb ulong_max value then erange else 0)

strtoul_digits-IsSaturated :
    (i acc : ℕ) (s : List ℕ) (c : ℕ) (rest : List ℕ)
    → acc ≤ ulong_max
    → AllDigits s
    → is_digit c ≡ false
    → (p : Parsed) × (strtoul_digits i acc (s ++ c ∷ rest) ≡ some p)
      × IsSaturated (decimal acc s) p
      × (decimal acc s ≤ ulong_max → p.end ≡ i + length s)
unfolding strtoul_digits decimal
strtoul_digits-IsSaturated i acc [] c rest h ds hc = (
  record { result = acc; end = i; errno = 0 },
  ground arith,
  record { result = omega arith; errno = ground arith },
  λ _. omega arith,
)
strtoul_digits-IsSaturated i acc (x ∷ s) c rest h ds hc =
    elim (Bool-cases (ltb ((ulong_max - (x - b'0')) / 10) acc)) [
      | inl over ↦
          let big : ulong_max < decimal (acc * 10 + (x - b'0')) s =
            omega (arith, ltb→lt _ _ over, decimal-ge (acc * 10 + (x - b'0')) s) in
          (
            record { result = ulong_max; end = i; errno = erange },
            rw (ds.0, over),
            record { result = omega arith; errno = ground arith },
            λ le. absurd (omega arith),
          )
      | inr room ↦
          let fits : acc * 10 + (x - b'0') ≤ ulong_max = ground arith in
          let (p, run, sat, stop) =
            strtoul_digits-IsSaturated (i + 1) (acc * 10 + (x - b'0')) s c rest fits ds.1 hc in
          (p, rw (ds.0, room) run, sat, λ le. omega (arith, stop le))
    ]

strtoul_space-skip :
    (i : ℕ) (ws s : List ℕ)
    → AllSpace ws
    → strtoul_space i (ws ++ s) ≡ strtoul_space (i + length ws) s
unfolding strtoul_space
strtoul_space-skip i [] s h = ap (λ j. strtoul_space j s) (omega arith)
strtoul_space-skip i (c ∷ ws) s h = rw h.0 (
    strtoul_space-skip (i + 1) ws s h.1
    ∙ ap (λ j. strtoul_space j s) {x = i + 1 + length ws} {y = i + suc (length ws)} (omega arith))

-- At a digit neither the test for white space nor the one for a sign holds.
strtoul_space-digit :
    (i d : ℕ) (s : List ℕ)
    → is_digit d ≡ true
    → strtoul_space i (d ∷ s) ≡ strtoul_digits i 0 (d ∷ s)
unfolding strtoul_space strtoul_sign
strtoul_space-digit i d s h = ground arith

strtoul-number :
    (ws : List ℕ) (d : ℕ) (s : List ℕ) (kerrno : ℕ)
    → AllSpace ws
    → is_digit d ≡ true
    → strtoul (ws ++ d ∷ s) 10 kerrno ≡ strtoul_digits (length ws) 0 (d ∷ s)
unfolding strtoul
strtoul-number ws d s kerrno hws h =
    strtoul_space-skip 0 ws (d ∷ s) hws
    ∙ ap (λ j. strtoul_space j (d ∷ s)) {x = 0 + length ws} {y = length ws} (omega arith)
    ∙ strtoul_space-digit (length ws) d s h

-- After white space, a number of at least one digit and a byte that is no digit, strtoul in base
-- 10 returns the number and clears the error, or returns ULONG_MAX and sets ERANGE when the number
-- does not fit in 64 bits; when it fits, the end is the byte after the last digit.
pub strtoul-IsSaturated :
    (ws : List ℕ) (d : ℕ) (s : List ℕ) (c : ℕ) (rest : List ℕ) (kerrno : ℕ)
    → AllSpace ws
    → AllDigits (d ∷ s)
    → is_digit c ≡ false
    → (p : Parsed) × (strtoul (ws ++ d ∷ (s ++ c ∷ rest)) 10 kerrno ≡ some p)
      × IsSaturated (decimal 0 (d ∷ s)) p
      × (decimal 0 (d ∷ s) ≤ ulong_max → p.end ≡ length ws + length (d ∷ s))
strtoul-IsSaturated ws d s c rest kerrno hws hds hc =
    let (p, run, sat, stop) =
      strtoul_digits-IsSaturated (length ws) 0 (d ∷ s) c rest (omega arith) hds hc in
    (p, strtoul-number ws d (s ++ c ∷ rest) kerrno hws hds.0 ∙ run, sat, stop)
