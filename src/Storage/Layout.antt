-- ===== src/Storage/Layout.antt =====
-- The structures that ahci_port_rebase lays out for the ports.
use unos_kernel.Prelude.{ℕ, ◌+◌, ◌<◌, ◌≤◌, ◌≡◌, ◌≢◌, ◌⊎◌, inl, inr, false, arith, ltb, Bool-cases}
use unos_kernel.Storage.{clb, fb, ctba}

-- `n` bytes from `a` on and `m` bytes from `b` on.
abbrev pub Apart : ℕ → ℕ → ℕ → ℕ → Type 0
Apart a n b m = (a + n ≤ b) ⊎ (b + m ≤ a)

ne_cases : (a b : ℕ) → a ≢ b → (a < b) ⊎ (b < a)
ne_cases a b h = elim (Bool-cases (ltb a b)) [
  | inl l ↦ inl (ground arith)
  | inr l ↦ inr (ground arith)
]

-- The command lists of 1 KiB, the areas for received FIS of 256 bytes and the command tables of 256
-- bytes of two different ports, or of two slots of a port, do not overlap, and stay below 0x84A000.
pub ctba-Apart :
    (p q i j : ℕ)
    → p < 32
    → q < 32
    → i < 32
    → j < 32
    → (p ≢ q → Apart (clb p) 1024 (clb q) 1024 × Apart (fb p) 256 (fb q) 256)
      × (clb p + 1024 ≤ fb q)
      × (fb p + 256 ≤ ctba q j)
      × ((p ≢ q) ⊎ (i ≢ j) → Apart (ctba p i) 256 (ctba q j) 256)
      × (ctba p i + 256 ≤ 0x84A000)
ctba-Apart p q i j hp hq hi hj = (
  λ ne. elim (ne_cases p q ne) [
    | inl l ↦ (inl (omega arith), inl (omega arith))
    | inr l ↦ (inr (omega arith), inr (omega arith))
  ],
  omega arith,
  omega arith,
  λ ne. elim (Bool-cases (ltb p q)) [
    | inl l ↦ inl (ground arith)
    | inr l ↦ elim (Bool-cases (ltb q p)) [
      | inl m ↦ inr (ground arith)
      | inr m ↦ elim (ne_cases i j (other ne l m)) [
        | inl k ↦ inl (ground arith)
        | inr k ↦ inr (ground arith)
      ]
    ]
  ],
  omega arith,
)
  where
    other : (p ≢ q) ⊎ (i ≢ j) → ltb p q ≡ false → ltb q p ≡ false → i ≢ j
    other (inl ne) l m e = ne (ground arith)
    other (inr ne) l m e = ne e
