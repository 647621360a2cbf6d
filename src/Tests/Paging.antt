-- ===== src/Tests/Paging.antt =====
-- The page tables of kernel/memory/paging.c, from an empty table on.
use unos_kernel.Prelude.{ℕ, ◌+◌, ◌-◌, ◌≡◌, refl, some, arith, ◌==◌, if◌then◌else◌, true, ◌<◌, ◌^◌}
use unos_kernel.Memory.Paging.{
  Store, map_page, kernel_entry, frame, map_virtual, map_identity, get_physical_address, map_large,
  identity_entry, large_frame, present, slot, pml4_index, pt_index, virt_to_phys,
}
use unos_kernel.Memory.Paging.User.{map_page_user}
use unos_kernel.Memory.Paging.User.Null.{map_page_user-null}
use unos_kernel.Memory.Paging.Directory.{virt_to_phys_lem}
use unos_kernel.Memory.Paging.Tree.{is_large, IsTree, zero_absent}
use unos_kernel.Memory.Paging.Walk.{walk, walk-zeros}
use unos_kernel.Memory.Paging.Grow.{IsSmall}
use unos_kernel.Memory.Paging.Map.{IsMapped, map_page_lem, map_large_lem}
use unos_kernel.Memory.Paging.Physical.{physical, or_zero, get_physical_address_lem}
use unos_kernel.Memory.Paging.Virtual.{IsVirtualMapped, map_virtual_lem}
use unos_kernel.Memory.Paging.Identity.{IsIdentityMapped, map_identity_lem, map_identity-misses}

abbrev root : ℕ
root = 0x4000

-- After the first alloc_page of init_paging, in memory that is all zero.
abbrev empty : Store
empty = record { word = λ a. 0; next_free = 0x5000 }

abbrev level : ℕ → ℕ
level t = if t == root then 4 else 0

abbrev prefix : ℕ → ℕ
prefix t = 0

empty-IsTree : IsTree empty root level prefix
empty-IsTree = record {
  root_aligned = refl;
  root_level = refl;
  root_prefix = refl;
  null = refl;
  free_aligned = refl;
  free = λ t h. ground arith;
  edge = λ t i aligned two h lead. absurd (ground (arith, zero_absent));
  absent = λ t i aligned two h gone. refl;
}

empty-IsSmall : (n v : ℕ) → IsSmall (walk empty.word 4 root) n v
empty-IsSmall n v k e w = absurd (ground (arith, walk-zeros 4 root v empty.word (λ j h. refl), w))

map_virtual_lem_example :
    (m' : Store) × (map_virtual 3 empty root 0xFFFF_8000_0000_0000 0x40_0000 0 0x1800 ≡ some m')
    × IsVirtualMapped empty m' root 0xFFFF_8000_0000_0000 0x40_0000 0x1800
map_virtual_lem_example =
    map_virtual_lem 3 empty root 0xFFFF_8000_0000_0000 0x40_0000 0x1800 level prefix (omega arith)
      refl refl (omega arith) (omega arith) (omega arith) empty-IsTree (λ k h. empty-IsSmall 0 _)
      (omega arith)

-- With the page of 0x1000 mapped to the frame of 0x7000.
abbrev one_page : Store
one_page = map_page empty root 0x1000 0x7000

one_page-IsMapped : IsMapped empty one_page root 0 0x1000 (kernel_entry (frame 0x7000))
one_page-IsMapped =
    map_page_lem empty root 0x1000 0x7000 level prefix empty-IsTree (empty-IsSmall 0 0x1000)
      (omega arith)

one_page-IsSmall : IsSmall (walk one_page.word 4 root) 0 0x1234
one_page-IsSmall k e w = ground (arith, one_page-IsMapped.here 0x1234 refl, w)

get_physical_address_lem_example :
    get_physical_address one_page.word root 0x1234
    ≡ or_zero (physical (walk one_page.word 4 root 0x1234) 0x1234)
get_physical_address_lem_example =
    get_physical_address_lem one_page root 0x1234 one_page-IsMapped.level one_page-IsMapped.prefix
      one_page-IsMapped.tree one_page-IsSmall

map_identity_lem_example :
    (m' : Store) × (map_identity 2 empty root 0x4000 0x10_0000 ≡ some m')
    × IsIdentityMapped empty m' root 0x4000 0x10_0000
map_identity_lem_example =
    map_identity_lem 2 empty root 0x4000 0x10_0000 level prefix (omega arith) (omega arith)
      empty-IsTree (λ k h. empty-IsSmall 1 _) (omega arith)

-- The boot information structure, at an address in the middle of a 2 MiB page.
map_identity-misses_example :
    (m' : Store) × (map_identity 2 empty root 0x71_0000 0x20_0000 ≡ some m')
    × (walk m'.word 4 root (0x71_0000 + 0x20_0000 - 1)
        ≡ walk empty.word 4 root (0x71_0000 + 0x20_0000 - 1))
map_identity-misses_example =
    map_identity-misses 2 empty root 0x71_0000 0x20_0000 level prefix (omega arith) (omega arith)
      empty-IsTree (λ k h. empty-IsSmall 1 _) (omega arith) (omega arith) (omega arith)

-- With the 2 MiB page of 0x20_0000 mapped to itself.
abbrev large_page : Store
large_page = map_large identity_entry empty root 0x20_0000

large_flags :
    (present (identity_entry 0x20_0000) ≡ true)
    × (is_large 2 (identity_entry 0x20_0000) ≡ true)
    × (identity_entry 0x20_0000 < 2 ^ 52)
unfolding present identity_entry large_frame
large_flags = (refl, refl, omega arith)

large_page-IsMapped : IsMapped empty large_page root 1 0x20_0000 (identity_entry 0x20_0000)
large_page-IsMapped =
    map_large_lem identity_entry empty root 0x20_0000 level prefix large_flags.0 large_flags.1
      empty-IsTree (empty-IsSmall 1 0x20_0000) (omega arith)

virt_to_phys_lem_example :
    some (virt_to_phys large_page.word root 0x2A_BCDE)
    ≡ physical (walk large_page.word 4 root 0x2A_BCDE) 0x2A_BCDE
virt_to_phys_lem_example =
    virt_to_phys_lem large_page root 0x2A_BCDE (identity_entry 0x20_0000) large_page-IsMapped.level
      large_page-IsMapped.prefix large_page-IsMapped.tree (large_page-IsMapped.here 0x2A_BCDE refl)
      large_flags.2

-- The lowest page of the stack that init_paging maps.
map_page_user-null_example :
    (frame (
        (map_page_user empty root 0x7F_FFFF_7000 0x500_0007).word
          (slot root (pml4_index 0x7F_FFFF_7000)))
      ≡ 0)
    × ((j : ℕ)
        → j < 512
        → (map_page_user empty root 0x7F_FFFF_7000 0x500_0007).word (slot empty.next_free j) ≡ 0)
    × ((map_page_user empty root 0x7F_FFFF_7000 0x500_0007).word (slot 0 (pt_index 0x7F_FFFF_7000))
        ≡ 0x500_0007)
map_page_user-null_example =
    map_page_user-null empty root 0x7F_FFFF_7000 0x500_0007 (omega arith) (omega arith)
      (omega arith) zero_absent (λ i h. refl)
