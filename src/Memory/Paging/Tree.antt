-- ===== src/Memory/Paging/Tree.antt =====
-- Page tables as a tree: each table has a level, 4 for the root and 1 for the tables that hold
-- pages, and a prefix, the bits of an address that lead to it.
use unos_kernel.Prelude.{
  ℕ, zero, suc, ◌+◌, ◌*◌, ◌/◌, ◌%◌, ◌^◌, ◌≤◌, ◌<◌, ◌≡◌, refl, ◌∙◌, ap, true, false, arith, bit_or,
  not, ◌==◌, Bool, ◌⊎◌, ◌&&◌, leb,
}
use unos_kernel.Prelude.Bits.{bit_and-low, bit_and-field, bit_or_low, bit_or_fields}
use unos_kernel.Memory.Paging.{
  Store, write, page_bytes, present, frame, slot, clear_words, kernel_entry,
}

-- A large page: bit 7, in a table of level 2 or 3.
abbrev pub is_large : ℕ → ℕ → Bool
is_large level entry = leb level 3 && entry / 2 ^ 7 % 2 == 1

-- An entry that leads to a table.
abbrev pub leads : ℕ → ℕ → Bool
leads level entry = present entry && not (is_large level entry)

pub record IsTree (m : Store) (root : ℕ) (level prefix : ℕ → ℕ) : Type 0 where
  pub root_aligned : root % page_bytes ≡ 0
  pub root_level : level root ≡ 4
  pub root_prefix : prefix root ≡ 0
  -- NULL is no table, and neither is free memory.
  pub null : level 0 ≡ 0
  pub free_aligned : m.next_free % page_bytes ≡ 0
  pub free : (t : ℕ) → m.next_free ≤ t → level t ≡ 0
  -- An entry that leads on leads one level down, and one that is absent is 0.
  pub edge :
      (t i : ℕ)
      → t % page_bytes ≡ 0
      → 2 ≤ level t
      → i < 512
      → leads (level t) (m.word (slot t i)) ≡ true
      → (level (frame (m.word (slot t i))) + 1 ≡ level t)
        × (prefix (frame (m.word (slot t i))) ≡ prefix t * 512 + i)
  pub absent :
      (t i : ℕ)
      → t % page_bytes ≡ 0
      → 2 ≤ level t
      → i < 512
      → present (m.word (slot t i)) ≡ false
      → m.word (slot t i) ≡ 0

-- The arithmetic of entries.
pub frame_lem : (e : ℕ) → frame e ≡ e / 2 ^ 12 % 2 ^ 40 * 2 ^ 12
unfolding frame
frame_lem e = bit_and-field 12 40 e

pub present_lem : (e : ℕ) → present e ≡ (e % 2 == 1)
unfolding present
present_lem e = ground (arith, bit_and-low 1 e)

pub kernel_entry_lem : (p : ℕ) → p % 2 ^ 12 ≡ 0 → kernel_entry p ≡ p + 3
unfolding kernel_entry
kernel_entry_lem p h =
    let whole : p ≡ p / 2 ^ 12 * 2 ^ 12 = omega arith in
    let one : bit_or p 1 ≡ p / 2 ^ 12 * 2 ^ 12 + 1 =
      ap (λ t. bit_or t 1) whole ∙ bit_or_low 12 (p / 2 ^ 12) 1 (omega arith) in
    ap (λ t. bit_or t 2) one
    ∙ bit_or_fields 12 (p / 2 ^ 12) 1 2 (omega arith) (omega arith)
    ∙ omega arith

-- What the entry made for a page below 2 ^ 52 leads to, and its flags.
pub kernel_entry_fields :
    (p : ℕ)
    → p % 2 ^ 12 ≡ 0
    → p < 2 ^ 52
    → (present (kernel_entry p) ≡ true)
      × (frame (kernel_entry p) ≡ p)
      × (kernel_entry p / 2 ^ 7 % 2 ≡ 0)
kernel_entry_fields p h small =
    let e = kernel_entry_lem p h in
    (
      present_lem (kernel_entry p) ∙ ground (arith, e),
      frame_lem (kernel_entry p) ∙ omega (arith, e),
      omega (arith, e),
    )

pub clear_words-out :
    (n addr a : ℕ) (word : ℕ → ℕ)
    → (a < addr) ⊎ (addr + 8 * n ≤ a)
    → clear_words n addr word a ≡ word a
unfolding clear_words write
clear_words-out zero addr a word h = refl
clear_words-out (suc n) addr a word h =
    clear_words-out n (addr + 8) a (write word addr 0) (omega arith) ∙ ground arith

pub clear_words-in :
    (n addr i : ℕ) (word : ℕ → ℕ) → i < n → clear_words n addr word (slot addr i) ≡ 0
unfolding clear_words write
clear_words-in zero addr i word h = absurd (omega arith)
clear_words-in (suc n) addr zero word h =
    clear_words-out n (addr + 8) (slot addr 0) (write word addr 0) (omega arith) ∙ ground arith
clear_words-in (suc n) addr (suc i) word h =
    ap (clear_words n (addr + 8) (write word addr 0)) {x = slot addr (suc i)}
      {y = slot (addr + 8) i} (omega arith)
    ∙ clear_words-in n (addr + 8) i (write word addr 0) (omega arith)

pub frame_aligned : (e : ℕ) → frame e % page_bytes ≡ 0
frame_aligned e = omega (arith, frame_lem e)

pub zero_absent : present 0 ≡ false
unfolding present
zero_absent = refl

pub leads-present : (n e : ℕ) → leads n e ≡ true → present e ≡ true
leads-present n e h = ground arith
