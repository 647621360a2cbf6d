-- ===== src/Memory/Paging/User.antt =====
-- map_virtual_user and map_virtual_user_advanced of kernel/memory/paging.c, whose tables get their
-- addresses from virt_to_phys_simple.
pub mod Null
use unos_kernel.Prelude.{
  ℕ, zero, suc, ◌+◌, ◌-◌, ◌*◌, ◌/◌, ◌%◌, ◌^◌, Option, none, some, bit_or, ltb, leb, if◌then◌else◌,
}
use unos_kernel.Memory.Paging.{
  Store, write, page_bytes, present, frame, slot, clear_words, alloc_page, pml4_index, pdpt_index,
  pd_index, pt_index,
}

-- KERNEL_HEAP_START and KERNEL_HEAP_PHYSICAL_START
abbrev pub kernel_virt_base : ℕ
kernel_virt_base = 0xFFFF_8000_0000_0000

abbrev pub kernel_phys_base : ℕ
kernel_phys_base = 0x0040_0000

unfoldable pub virt_to_phys_simple : ℕ → ℕ
virt_to_phys_simple virt =
    if leb kernel_virt_base virt then virt - kernel_virt_base + kernel_phys_base else 0

-- `... | PAGE_PRESENT | PAGE_WRITABLE | PAGE_USER`
unfoldable pub user_entry : ℕ → ℕ
user_entry addr = bit_or (bit_or (bit_or addr 1) 2) 4

-- The new table is cleared by alloc_page, and again by memset.
unfoldable pub ensure_user : Store → ℕ → Store
ensure_user m addr =
    if present (m.word addr)
    then m
    else (let m' = alloc_page m in
        let cleared = clear_words 512 m.next_free m'.word in
        record m' { word = write cleared addr (user_entry (virt_to_phys_simple m.next_free)) })

-- One round: `entry` is what is written for the page of `v`.
unfoldable pub map_page_user : Store → ℕ → ℕ → ℕ → Store
map_page_user m root v entry =
    let m1 = ensure_user m (slot root (pml4_index v)) in
    let pdpt = frame (m1.word (slot root (pml4_index v))) in
    let m2 = ensure_user m1 (slot pdpt (pdpt_index v)) in
    let pd = frame (m2.word (slot pdpt (pdpt_index v))) in
    let m3 = ensure_user m2 (slot pd (pd_index v)) in
    let pt = frame (m3.word (slot pd (pd_index v))) in
    record m3 { word = write m3.word (slot pt (pt_index v)) entry }

-- The loop; `entry` makes the value for a physical address. `none`: out of fuel.
pub map_user_pages : (ℕ → ℕ) → ℕ → Store → ℕ → ℕ → ℕ → ℕ → ℕ → Option Store
map_user_pages entry zero m root virtual_addr phys_addr offset size = none
map_user_pages entry (suc fuel) m root virtual_addr phys_addr offset size =
    let m' =
      map_page_user m root ((virtual_addr + offset) % 2 ^ 64)
        (entry ((phys_addr + offset) % 2 ^ 64)) in
    let rest =
      map_user_pages entry fuel m' root virtual_addr phys_addr ((offset + page_bytes) % 2 ^ 64)
        size in
    if ltb offset size then rest else some m

pub map_virtual_user : ℕ → Store → ℕ → ℕ → ℕ → ℕ → Option Store
map_virtual_user fuel m root virtual_addr phys_addr size =
    map_user_pages (λ p. user_entry (frame p)) fuel m root virtual_addr phys_addr 0 size

pub map_virtual_user_advanced : ℕ → Store → ℕ → ℕ → ℕ → ℕ → ℕ → Option Store
map_virtual_user_advanced fuel m root virtual_addr phys_addr size flags =
    map_user_pages (λ p. bit_or (frame p) flags) fuel m root virtual_addr phys_addr 0 size
