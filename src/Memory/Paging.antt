-- ===== src/Memory/Paging.antt =====
-- The four-level page tables of kernel/memory/paging.c, and the two functions of malloc.c that
-- walk them. Memory is a function from the address of a 64-bit word to its value. The tables are
-- read and written at their physical addresses, as the code does. `invlpg` has no effect on them.
pub mod Directory
pub mod Ensure
pub mod Grow
pub mod Identity
pub mod Loop
pub mod Map
pub mod Physical
pub mod Reach
pub mod Virtual
pub mod Walk
pub mod Write
pub mod Tree
pub mod User
use unos_kernel.Prelude.{
  ℕ, zero, suc, ◌+◌, ◌-◌, ◌*◌, ◌/◌, ◌%◌, ◌^◌, Bool, not, Option, none, some, bit_and, bit_or, ltb,
  ◌==◌, if◌then◌else◌,
}

-- The memory, and `next_free_page`.
pub record Store : Type 0 where
  pub word : ℕ → ℕ
  pub next_free : ℕ

unfoldable pub write : (ℕ → ℕ) → ℕ → ℕ → ℕ → ℕ
write word addr value a = if a == addr then value else word a

abbrev pub page_bytes : ℕ
page_bytes = 0x1000

-- PAGE_MASK, and the mask `~0xFFF` of unmap_page.
abbrev pub frame_mask : ℕ
frame_mask = 0x000F_FFFF_FFFF_F000

unfoldable pub present : ℕ → Bool
present entry = not (bit_and entry 1 == 0)

unfoldable pub frame : ℕ → ℕ
frame entry = bit_and entry frame_mask

-- `table[i]`
abbrev pub slot : ℕ → ℕ → ℕ
slot table i = table + 8 * i

unfoldable pub pml4_index : ℕ → ℕ
pml4_index v = bit_and (v / 2 ^ 39) 0x1FF

unfoldable pub pdpt_index : ℕ → ℕ
pdpt_index v = bit_and (v / 2 ^ 30) 0x1FF

unfoldable pub pd_index : ℕ → ℕ
pd_index v = bit_and (v / 2 ^ 21) 0x1FF

unfoldable pub pt_index : ℕ → ℕ
pt_index v = bit_and (v / 2 ^ 12) 0x1FF

-- `for (i = 0; i < 512; i++) page[i] = 0;`, with `left` words to go.
pub clear_words : ℕ → ℕ → (ℕ → ℕ) → ℕ → ℕ
clear_words zero addr word = word
clear_words (suc left) addr word = clear_words left (addr + 8) (write word addr 0)

-- The page is the old `next_free`.
pub alloc_page : Store → Store
alloc_page m = record {
  word = clear_words 512 m.next_free m.word;
  next_free = (m.next_free + page_bytes) % 2 ^ 64;
}

-- Allocates the table behind an entry that is not present; `flags` makes the entry's value.
pub ensure : (ℕ → ℕ) → Store → ℕ → Store
ensure flags m addr =
    if present (m.word addr)
    then m
    else (let m' = alloc_page m in record m' { word = write m'.word addr (flags m.next_free) })

-- `(uint64_t)new_table | PAGE_PRESENT | PAGE_WRITABLE`
unfoldable pub kernel_entry : ℕ → ℕ
kernel_entry page = bit_or (bit_or page 1) 2

-- One round of map_virtual, for the page of `v` and the frame of `p`.
unfoldable pub map_page : Store → ℕ → ℕ → ℕ → Store
map_page m root v p =
    let m1 = ensure kernel_entry m (slot root (pml4_index v)) in
    let pdpt = frame (m1.word (slot root (pml4_index v))) in
    let m2 = ensure kernel_entry m1 (slot pdpt (pdpt_index v)) in
    let pd = frame (m2.word (slot pdpt (pdpt_index v))) in
    let m3 = ensure kernel_entry m2 (slot pd (pd_index v)) in
    let pt = frame (m3.word (slot pd (pd_index v))) in
    record m3 { word = write m3.word (slot pt (pt_index v)) (kernel_entry (frame p)) }

-- The 2 MiB entries of map_identity and map_framebuffer.
unfoldable pub large_frame : ℕ → ℕ
large_frame addr = bit_and addr 0xFFFF_FFFF_FFE0_0000

-- PAGE_SUPERVISOR, which map_identity adds here and to the entries of tables, is 0.
unfoldable pub identity_entry : ℕ → ℕ
identity_entry addr = bit_or (bit_or (bit_or (large_frame addr) 1) 2) 0x80

unfoldable pub framebuffer_entry : ℕ → ℕ
framebuffer_entry addr =
    bit_or (bit_or (bit_or (bit_or (bit_or (large_frame addr) 1) 2) 0x80) 0x10) 8

-- One round of map_identity or of map_framebuffer.
unfoldable pub map_large : (ℕ → ℕ) → Store → ℕ → ℕ → Store
map_large entry m root addr =
    let m1 = ensure kernel_entry m (slot root (pml4_index addr)) in
    let pdpt = frame (m1.word (slot root (pml4_index addr))) in
    let m2 = ensure kernel_entry m1 (slot pdpt (pdpt_index addr)) in
    let pd = frame (m2.word (slot pdpt (pdpt_index addr))) in
    record m2 { word = write m2.word (slot pd (pd_index addr)) (entry addr) }

-- Their loop. `none`: out of fuel.
pub map_large_pages : (ℕ → ℕ) → ℕ → Store → ℕ → ℕ → ℕ → Option Store
map_large_pages entry zero m root addr end = none
map_large_pages entry (suc fuel) m root addr end =
    let m' = map_large entry m root addr in
    let rest = map_large_pages entry fuel m' root ((addr + 0x20_0000) % 2 ^ 64) end in
    if ltb addr end then rest else some m

pub map_identity : ℕ → Store → ℕ → ℕ → ℕ → Option Store
map_identity fuel m root physc_addr size =
    map_large_pages identity_entry fuel m root physc_addr ((physc_addr + size) % 2 ^ 64)

pub map_framebuffer : ℕ → Store → ℕ → ℕ → ℕ → Option Store
map_framebuffer fuel m root addr size =
    map_large_pages framebuffer_entry fuel m root addr ((addr + size) % 2 ^ 64)

-- The loop of map_virtual. `none`: out of fuel.
pub map_virtual : ℕ → Store → ℕ → ℕ → ℕ → ℕ → ℕ → Option Store
map_virtual zero m root virtual_addr phys_addr offset size = none
map_virtual (suc fuel) m root virtual_addr phys_addr offset size =
    let m' = map_page m root ((virtual_addr + offset) % 2 ^ 64) ((phys_addr + offset) % 2 ^ 64) in
    let rest =
      map_virtual fuel m' root virtual_addr phys_addr ((offset + page_bytes) % 2 ^ 64) size in
    if ltb offset size then rest else some m

-- `kernel_pml4` is the root; 0 is "not mapped".
pub get_physical_address : (ℕ → ℕ) → ℕ → ℕ → ℕ
get_physical_address word root v =
    let pdpt = frame (word (slot root (pml4_index v))) in
    let pd = frame (word (slot pdpt (pdpt_index v))) in
    let pt = frame (word (slot pd (pd_index v))) in
    let entry = word (slot pt (pt_index v)) in
    if pdpt == 0
    then 0
    else if pd == 0
    then 0
    else if pt == 0
    then 0
    else if bit_and entry 1 == 0
    then 0
    else frame entry + bit_and v 0xFFF

-- `virtual_addr & 0x1FFFFF` and `pde & 0xFFFFFFFFFFE00000`; 0 is "not mapped".
unfoldable pub virt_to_phys : (ℕ → ℕ) → ℕ → ℕ → ℕ
virt_to_phys word root v =
    let pdpt = frame (word (slot root (pml4_index v))) in
    let pd = frame (word (slot pdpt (pdpt_index v))) in
    let pde = word (slot pd (pd_index v)) in
    if pdpt == 0
    then 0
    else if pd == 0
    then 0
    else if not (present pde)
    then 0
    else (large_frame pde + bit_and v 0x1F_FFFF) % 2 ^ 64
