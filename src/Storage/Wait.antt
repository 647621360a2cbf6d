-- ===== src/Storage/Wait.antt =====
-- The loops that wait for the device.
use unos_kernel.Prelude.{
  ℕ, zero, suc, ◌+◌, ◌^◌, ◌<◌, ◌≤◌, ◌≡◌, refl, sym, ◌∙◌, ap, subst, inl, inr, true, false, some,
  arith, ltb, leb, ◌==◌, Bool-cases, bit_and,
}
use unos_kernel.Storage.{Answers, wait_ready, await}

le→leb : (a b : ℕ) → a ≤ b → leb a b ≡ true
le→leb a b h = ground arith

lt→leb : (a b : ℕ) → b < a → leb a b ≡ false
lt→leb a b h = ground arith

wait_ready-busy :
    (busy : ℕ) (tfd : ℕ → ℕ) (left i : ℕ)
    → ((k : ℕ) → i ≤ k → k < i + left → (bit_and (tfd k) busy == 0) ≡ false)
    → i + left ≤ wait_ready busy tfd left i
unfolding wait_ready
wait_ready-busy busy tfd zero i h = elim (Bool-cases (bit_and (tfd i) busy == 0)) [
  | inl r ↦ rw r (omega arith)
  | inr r ↦ rw r (omega arith)
]
wait_ready-busy busy tfd (suc left) i h = rw (h i (omega arith) (omega arith)) (
    omega (arith, wait_ready-busy busy tfd left (i + 1) (λ k a b. h k (omega arith) (omega arith))))

wait_ready-ready :
    (busy : ℕ) (tfd : ℕ → ℕ) (left i k : ℕ)
    → i ≤ k
    → k < i + left
    → (bit_and (tfd k) busy == 0) ≡ true
    → wait_ready busy tfd left i ≤ k
unfolding wait_ready
wait_ready-ready busy tfd zero i k a b h = absurd (omega arith)
wait_ready-ready busy tfd (suc left) i k a b h = elim (Bool-cases (bit_and (tfd i) busy == 0)) [
  | inl r ↦ rw r a
  | inr r ↦ rw r (wait_ready-ready busy tfd left (i + 1) k (later (r)) (omega arith) h)
]
  where
    later : (bit_and (tfd i) busy == 0) ≡ false → i + 1 ≤ k
    later r = elim (Bool-cases (ltb i k)) [
      | inl l ↦ ground arith
      | inr l ↦
          let same : i ≡ k = ground arith in
          let both : false ≡ true = sym r ∙ ap (λ j. bit_and (tfd j) busy == 0) same ∙ h in
          absurd (ground arith)
    ]

pub wait_ready-late :
    (busy : ℕ) (tfd : ℕ → ℕ) (limit : ℕ)
    → ((j : ℕ) → j < limit → (bit_and (tfd j) busy == 0) ≡ false)
    → leb limit (wait_ready busy tfd limit 0) ≡ true
wait_ready-late busy tfd limit h =
    le→leb limit (wait_ready busy tfd limit 0)
      (omega (arith, wait_ready-busy busy tfd limit 0 (λ j a b. h j (omega arith))))

pub wait_ready-early :
    (busy : ℕ) (tfd : ℕ → ℕ) (limit k : ℕ)
    → k < limit
    → (bit_and (tfd k) busy == 0) ≡ true
    → leb limit (wait_ready busy tfd limit 0) ≡ false
wait_ready-early busy tfd limit k small ready =
    lt→leb limit (wait_ready busy tfd limit 0)
      (omega (arith, wait_ready-ready busy tfd limit 0 k (omega arith) (omega arith) ready))

-- The command runs before poll `n`.
abbrev pub Running : ℕ → Answers → ℕ → Type 0
Running slot a n =
    (k : ℕ)
    → k < n
    → ((bit_and (a.ci k) (2 ^ slot) == 0) ≡ false) × ((bit_and (a.is k) (2 ^ 30) == 0) ≡ true)

pub await-done :
    (fuel slot : ℕ) (a : Answers) (i n : ℕ)
    → Running slot a n
    → i ≤ n
    → n < i + fuel
    → (bit_and (a.ci n) (2 ^ slot) == 0) ≡ true
    → await fuel slot a i ≡ some true
unfolding await
await-done zero slot a i n h le enough done = absurd (omega arith)
await-done (suc fuel) slot a i n h le enough done =
    elim (Bool-cases (bit_and (a.ci i) (2 ^ slot) == 0)) [
      | inl now ↦ rw now refl
      | inr later ↦ elim (Bool-cases (ltb i n)) [
        | inl l ↦
            rw (later, (h i (ground arith)).1)
              (await-done fuel slot a (i + 1) n h (ground arith) (omega arith) done)
        | inr l ↦
            let same : i ≡ n = ground arith in
            let both : false ≡ true =
              sym later ∙ ap (λ j. bit_and (a.ci j) (2 ^ slot) == 0) same ∙ done in
            absurd (ground arith)
      ]
    ]

pub await-error :
    (fuel slot : ℕ) (a : Answers) (i n : ℕ)
    → Running slot a n
    → i ≤ n
    → n < i + fuel
    → (bit_and (a.ci n) (2 ^ slot) == 0) ≡ false
    → (bit_and (a.is n) (2 ^ 30) == 0) ≡ false
    → await fuel slot a i ≡ some false
unfolding await
await-error zero slot a i n h le enough set error = absurd (omega arith)
await-error (suc fuel) slot a i n h le enough set error = elim (Bool-cases (ltb i n)) [
  | inl l ↦
      let (c, e) = h i (ground arith) in
      rw (c, e) (await-error fuel slot a (i + 1) n h (ground arith) (omega arith) set error)
  | inr l ↦
      let same : n ≡ i = ground arith in
      let c : (bit_and (a.ci i) (2 ^ slot) == 0) ≡ false =
        subst (λ j. (bit_and (a.ci j) (2 ^ slot) == 0) ≡ false) same set in
      let e : (bit_and (a.is i) (2 ^ 30) == 0) ≡ false =
        subst (λ j. (bit_and (a.is j) (2 ^ 30) == 0) ≡ false) same error in
      rw (c, e) refl
]
