-- ===== src/Memory/Paging/Identity.antt =====
-- The identity mapping of map_identity and map_framebuffer.
use unos_kernel.Prelude.{
  ℕ, ◌+◌, ◌-◌, ◌*◌, ◌/◌, ◌%◌, ◌^◌, ◌≤◌, ◌<◌, ◌≡◌, ◌≢◌, ◌∙◌, ap, true, arith, some, inr, bit_or,
}
use unos_kernel.Prelude.Bits.{bit_and-field, bit_or_low, bit_or_fields}
use unos_kernel.Memory.Paging.{
  Store, page_bytes, present, large_frame, identity_entry, framebuffer_entry, map_large_pages,
  map_identity, map_framebuffer,
}
use unos_kernel.Memory.Paging.Tree.{IsTree, is_large, present_lem, frame_lem}
use unos_kernel.Memory.Paging.Walk.{Walk, walk}
use unos_kernel.Memory.Paging.Grow.{IsSmall}
use unos_kernel.Memory.Paging.Loop.{IsMappedAll, steps, large_loop}
use unos_kernel.Memory.Paging.Physical.{physical}

pub large_frame_lem : (a : ℕ) → large_frame a ≡ a / 2 ^ 21 % 2 ^ 43 * 2 ^ 21
unfolding large_frame
large_frame_lem a = bit_and-field 21 43 a

identity_entry_lem : (a : ℕ) → identity_entry a ≡ a / 2 ^ 21 % 2 ^ 43 * 2 ^ 21 + 0x83
unfolding identity_entry
identity_entry_lem a =
    let q = a / 2 ^ 21 % 2 ^ 43 in
    ap (λ f. bit_or (bit_or (bit_or f 1) 2) 0x80) (large_frame_lem a)
    ∙ ap (λ f. bit_or (bit_or f 2) 0x80) (bit_or_low 21 q 1 (omega arith))
    ∙ ap (λ f. bit_or f 0x80) (bit_or_fields 21 q 1 2 (omega arith) (omega arith))
    ∙ bit_or_fields 21 q 3 0x80 (omega arith) (omega arith)

framebuffer_entry_lem : (a : ℕ) → framebuffer_entry a ≡ a / 2 ^ 21 % 2 ^ 43 * 2 ^ 21 + 0x9B
unfolding framebuffer_entry identity_entry
framebuffer_entry_lem a =
    let q = a / 2 ^ 21 % 2 ^ 43 in
    ap (λ f. bit_or (bit_or f 0x10) 8) (identity_entry_lem a)
    ∙ ap (λ f. bit_or f 8) (bit_or_fields 21 q 0x83 0x10 (omega arith) (omega arith))
    ∙ bit_or_fields 21 q 0x93 8 (omega arith) (omega arith)

-- What both entries have: the frame, bit 0 and bit 7.
record IsIdentity (entry : ℕ → ℕ) : Type 0 where
  there : (a : ℕ) → present (entry a) ≡ true
  large : (a : ℕ) → is_large 2 (entry a) ≡ true
  same :
      (a v : ℕ)
      → a < 2 ^ 52
      → a / 2 ^ 21 ≡ v / 2 ^ 21
      → physical (Walk.mapped 1 (entry v)) a ≡ some a

IsIdentity-add :
    (entry : ℕ → ℕ) (flags : ℕ)
    → ((a : ℕ) → entry a ≡ a / 2 ^ 21 % 2 ^ 43 * 2 ^ 21 + flags)
    → flags < 2 ^ 12
    → flags % 2 ≡ 1
    → flags / 2 ^ 7 % 2 ≡ 1
    → IsIdentity entry
IsIdentity-add entry flags e small bit0 bit7 = record {
  there = λ a. present_lem (entry a) ∙ ground (arith, e a);
  large = λ a. ground (arith, e a);
  same = λ a v low page. ap some (omega (arith, frame_lem (entry v), e v));
}

-- The addresses in the 2 MiB pages at `addr` and in steps of 2 MiB behind it, `count` of them.
abbrev pub rounds : ℕ → ℕ
rounds size = (size + 0x1F_FFFF) / 0x20_0000

map_large_pages-identity :
    (entry : ℕ → ℕ)
    → IsIdentity entry
    → (fuel : ℕ) (m : Store) (root addr size : ℕ) (level prefix : ℕ → ℕ) → rounds size < fuel
    → addr + size + 0x20_0000 ≤ 2 ^ 48
    → IsTree m root level prefix
    → ((k : ℕ) → k < rounds size → IsSmall (walk m.word 4 root) 1 (steps 0x20_0000 addr k))
    → m.next_free + rounds size * (3 * page_bytes) < 2 ^ 52
    → (m' : Store) × (map_large_pages entry fuel m root addr ((addr + size) % 2 ^ 64) ≡ some m')
      × IsMappedAll m m' root 1
          (rounds size)
          (steps 0x20_0000 addr)
          (λ k. entry (steps 0x20_0000 addr k))
map_large_pages-identity entry i fuel m root addr size level prefix enough fits tree small room =
    let wrap : (addr + size) % 2 ^ 64 ≡ addr + size = omega arith in
    rw wrap (
      large_loop entry (addr + size) root i.there i.large (omega arith) (rounds size) fuel m addr
        level prefix enough (omega arith) (omega arith) (inr (omega arith)) tree small room)

-- `m'` is `m` with the `rounds size` 2 MiB pages from the one of `addr` on mapped to themselves.
pub record IsIdentityMapped (m m' : Store) (root addr size : ℕ) : Type 0 where
  pub level : ℕ → ℕ
  pub prefix : ℕ → ℕ
  pub tree : IsTree m' root level prefix
  pub here :
      (k a : ℕ)
      → k < rounds size
      → a < 2 ^ 48
      → a / 2 ^ 21 ≡ addr / 2 ^ 21 + k
      → physical (walk m'.word 4 root a) a ≡ some a
  pub elsewhere :
      (a : ℕ)
      → ((k : ℕ) → k < rounds size → a % 2 ^ 48 / 2 ^ 21 ≢ addr / 2 ^ 21 + k)
      → walk m'.word 4 root a ≡ walk m.word 4 root a

IsMappedAll-identity :
    (entry : ℕ → ℕ)
    → IsIdentity entry
    → (m m' : Store) (root addr size : ℕ) → addr + size + 0x20_0000 ≤ 2 ^ 48
    → IsMappedAll m m' root 1
        (rounds size)
        (steps 0x20_0000 addr)
        (λ k. entry (steps 0x20_0000 addr k))
    → IsIdentityMapped m m' root addr size
IsMappedAll-identity entry i m m' root addr size fits all = record {
  level = all.level;
  prefix = all.prefix;
  tree = all.tree;
  here = λ k a h low page.
      ap (λ w. physical w a) (all.here k a h (omega arith))
      ∙ i.same a (steps 0x20_0000 addr k) (omega arith) (omega arith);
  elsewhere = λ a other. all.elsewhere a (λ k h e. other k h (omega arith));
}

identity_entry-IsIdentity : IsIdentity identity_entry
identity_entry-IsIdentity =
    IsIdentity-add identity_entry 0x83 identity_entry_lem (omega arith) (omega arith) (omega arith)

framebuffer_entry-IsIdentity : IsIdentity framebuffer_entry
framebuffer_entry-IsIdentity =
    IsIdentity-add framebuffer_entry 0x9B framebuffer_entry_lem (omega arith) (omega arith)
      (omega arith)

module _ (fuel : ℕ) (m : Store) (root addr size : ℕ) (level prefix : ℕ → ℕ)
    (enough : rounds size < fuel) (fits : addr + size + 0x20_0000 ≤ 2 ^ 48)
    (tree : IsTree m root level prefix)
    (small : (k : ℕ) → k < rounds size → IsSmall (walk m.word 4 root) 1 (steps 0x20_0000 addr k))
    (room : m.next_free + rounds size * (3 * page_bytes) < 2 ^ 52) where
  -- In a tree of tables, with room for three tables a round, for a range below 2 ^ 48 whose pages
  -- no 1 GiB page holds, and with fuel for a round for each 2 MiB and one more: map_identity ends,
  -- the 2 MiB pages from the one of the start on are mapped to themselves, one for each 2 MiB of
  -- the size, rounded up, and every other address is walked as before.
  pub map_identity_lem :
      (m' : Store) × (map_identity fuel m root addr size ≡ some m')
      × IsIdentityMapped m m' root addr size
  unfolding map_identity
  map_identity_lem =
      let i = identity_entry-IsIdentity in
      let (m', runs, all) =
        map_large_pages-identity identity_entry i fuel m root addr size level prefix enough fits
          tree small room in
      (m', runs, IsMappedAll-identity identity_entry i m m' root addr size fits all)

  -- In a tree of tables, with room for three tables a round, for a range below 2 ^ 48 whose pages
  -- no 1 GiB page holds, and with fuel for a round for each 2 MiB and one more: map_framebuffer
  -- ends, with the same pages mapped to themselves and every other address as before.
  pub map_framebuffer_lem :
      (m' : Store) × (map_framebuffer fuel m root addr size ≡ some m')
      × IsIdentityMapped m m' root addr size
  unfolding map_framebuffer
  map_framebuffer_lem =
      let i = framebuffer_entry-IsIdentity in
      let (m', runs, all) =
        map_large_pages-identity framebuffer_entry i fuel m root addr size level prefix enough fits
          tree small room in
      (m', runs, IsMappedAll-identity framebuffer_entry i m m' root addr size fits all)

  -- In a tree of tables, with room for three tables a round, for a range of at least one byte below
  -- 2 ^ 48 whose pages no 1 GiB page holds, and with fuel for a round for each 2 MiB and one more:
  -- when the start lies so far behind the start of its 2 MiB page that the last byte of the range
  -- falls into one page more than the size alone needs, map_identity ends and leaves the walk of
  -- that last byte as it was.
  pub map_identity-misses :
      0 < size
      → 0x20_0000 ≤ addr % 0x20_0000 + (size - 1) % 0x20_0000
      → (m' : Store) × (map_identity fuel m root addr size ≡ some m')
        × (walk m'.word 4 root (addr + size - 1) ≡ walk m.word 4 root (addr + size - 1))
  map_identity-misses some_byte carry =
      let (m', runs, mapped_all) = map_identity_lem in
      (m', runs, mapped_all.elsewhere (addr + size - 1) (λ k h e. omega arith))
