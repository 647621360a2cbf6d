-- ===== src/Memory/Paging/Virtual.antt =====
-- The loop of map_virtual, and what get_physical_address then returns.
use unos_kernel.Prelude.{
  ℕ, zero, suc, ◌+◌, ◌*◌, ◌/◌, ◌%◌, ◌^◌, ◌≤◌, ◌<◌, ◌≡◌, ◌≢◌, fun_ext, ◌∙◌, ap, subst, sym, arith,
  some, inr, ◌⊎◌, lt→ltb,
}
use unos_kernel.Memory.Paging.{
  Store, page_bytes, frame, kernel_entry, map_page, map_virtual, get_physical_address,
}
use unos_kernel.Memory.Paging.Tree.{IsTree, frame_lem, frame_aligned, kernel_entry_fields}
use unos_kernel.Memory.Paging.Walk.{Walk, walk}
use unos_kernel.Memory.Paging.Reach.{prefix_of}
use unos_kernel.Memory.Paging.Grow.{IsSmall}
use unos_kernel.Memory.Paging.Map.{map_page_lem}
use unos_kernel.Memory.Paging.Loop.{
  IsMappedAll, steps, steps_zero, none_mapped, more_mapped, still-IsSmall,
}
use unos_kernel.Memory.Paging.Physical.{physical, or_zero, get_physical_address_lem}

-- The pages of a range that starts on a page, and the entry for the frame at an address.
abbrev pub pages : ℕ → ℕ
pages size = (size + 0xFFF) / 0x1000

abbrev pub page_entry : ℕ → ℕ
page_entry p = kernel_entry (frame p)

module _ (root virtual_addr phys_addr size : ℕ) (fits : virtual_addr + size + 0x1000 ≤ 2 ^ 64)
    (fits' : phys_addr + size + 0x1000 ≤ 2 ^ 64) (short : size + 0x1000 ≤ 2 ^ 48) where
  abbrev All : Store → Store → ℕ → (ℕ → ℕ) → (ℕ → ℕ) → Type 0
  All m m' count addr phys = IsMappedAll m m' root 0 count addr (λ k. page_entry (phys k))

  run_step :
      (fuel : ℕ) (m : Store) (offset : ℕ) (m' : Store)
      → offset < size
      → map_virtual fuel
          (map_page m root (virtual_addr + offset) (phys_addr + offset))
          root
          virtual_addr
          phys_addr
          (offset + 0x1000)
          size
        ≡ some m'
      → map_virtual (suc fuel) m root virtual_addr phys_addr offset size ≡ some m'
  unfolding map_virtual
  run_step fuel m offset m' more runs = rw (wrap_v, wrap_p, wrap_o, lt→ltb _ _ more) runs
    where
      wrap_v : (virtual_addr + offset) % 2 ^ 64 ≡ virtual_addr + offset
      wrap_v = omega arith

      wrap_p : (phys_addr + offset) % 2 ^ 64 ≡ phys_addr + offset
      wrap_p = omega arith

      wrap_o : (offset + 0x1000) % 2 ^ 64 ≡ offset + 0x1000
      wrap_o = omega arith

  page_loop :
      (count fuel : ℕ) (m : Store) (offset : ℕ) (level prefix : ℕ → ℕ)
      → count < fuel
      → size ≤ offset + count * 0x1000
      → (count ≡ 0) ⊎ (offset + count * 0x1000 < size + 0x1000)
      → IsTree m root level prefix
      → ((k : ℕ)
          → k < count
          → IsSmall (walk m.word 4 root) 0 (steps 0x1000 (virtual_addr + offset) k))
      → m.next_free + count * (3 * page_bytes) < 2 ^ 52
      → (m' : Store) × (map_virtual fuel m root virtual_addr phys_addr offset size ≡ some m')
        × All m m' count (steps 0x1000 (virtual_addr + offset)) (steps 0x1000 (phys_addr + offset))
  unfolding map_virtual
  page_loop count zero m offset level prefix fuel last exact tree small room = absurd (omega arith)
  page_loop zero (suc f) m offset level prefix fuel last exact tree small room =
      (m, ground arith, none_mapped m root 0 _ _ level prefix tree)
  page_loop (suc count) (suc f) m offset level prefix fuel last exact tree small room =
      let v = virtual_addr + offset in
      let p = phys_addr + offset in
      let start_v = steps_zero 0x1000 v in
      let start_p = steps_zero 0x1000 p in
      let more : offset < size = omega arith in
      let m1 = map_page m root v p in
      let first =
        map_page_lem m root v p level prefix tree
          (subst (IsSmall (walk m.word 4 root) 0) start_v (small 0 (omega arith))) (omega arith) in
      let (m', runs, rest) =
        page_loop count f m1 (offset + 0x1000) first.level first.prefix (omega arith) (omega arith)
          (omega arith) first.tree
          (λ k h. still-IsSmall first _ (apart k h) (
            subst (IsSmall (walk m.word 4 root) 0) (next k virtual_addr)
              (small (suc k) (omega arith))))
          (omega (arith, first.growth)) in
      (
        m',
        run_step f m offset m' more runs,
        more_mapped {addr = steps 0x1000 v} {entry = λ k. page_entry (steps 0x1000 p k)}
            (rw (start_v, start_p) first)
            (subst (λ g. All m1 m' count g (λ k. steps 0x1000 p (suc k)))
              (fun_ext (λ k. sym (next k virtual_addr)))
              (subst (λ g. All m1 m' count (steps 0x1000 (virtual_addr + (offset + 0x1000))) g)
                (fun_ext (λ k. sym (next k phys_addr))) rest))
            apart',
      )
    where
      next :
          (k base : ℕ)
          → steps 0x1000 (base + offset) (suc k) ≡ steps 0x1000 (base + (offset + 0x1000)) k
      next k base = omega arith

      apart :
          (k : ℕ)
          → k < count
          → prefix_of 0 (steps 0x1000 (virtual_addr + (offset + 0x1000)) k)
            ≢ prefix_of 0 (virtual_addr + offset)
      apart k h e = omega arith

      apart' :
          (k : ℕ)
          → k < count
          → prefix_of 0 (steps 0x1000 (virtual_addr + offset) 0)
            ≢ prefix_of 0 (steps 0x1000 (virtual_addr + offset) (suc k))
      apart' k h e = omega arith

-- `m'` is `m` with the pages of the range mapped to the frames from `phys_addr` on.
pub record IsVirtualMapped (m m' : Store) (root virtual_addr phys_addr size : ℕ) : Type 0 where
  pub level : ℕ → ℕ
  pub prefix : ℕ → ℕ
  pub tree : IsTree m' root level prefix
  pub found :
      (d : ℕ)
      → d < size
      → physical (walk m'.word 4 root (virtual_addr + d)) (virtual_addr + d) ≡ some (phys_addr + d)
  pub read :
      (d : ℕ) → d < size → get_physical_address m'.word root (virtual_addr + d) ≡ phys_addr + d
  pub elsewhere :
      (a : ℕ)
      → ((k : ℕ) → k < pages size → prefix_of 0 a ≢ prefix_of 0 (steps 0x1000 virtual_addr k))
      → walk m'.word 4 root a ≡ walk m.word 4 root a

page_entry-physical :
    (p q a : ℕ)
    → p < 2 ^ 52
    → q / 2 ^ 12 ≡ p / 2 ^ 12
    → a % 2 ^ 12 ≡ p % 2 ^ 12
    → physical (Walk.mapped 0 (page_entry q)) a ≡ some p
page_entry-physical p q a low same off = ap some (
    omega (
      arith,
      frame_lem q,
      (kernel_entry_fields (frame q) (frame_aligned q) (omega (arith, frame_lem q))).1,
    ))

mapped-IsSmall : (seen : ℕ → Walk) (v x : ℕ) → seen v ≡ Walk.mapped 0 x → IsSmall seen 0 v
mapped-IsSmall seen v x at k e w = ground (arith, at, w)

module _ (fuel : ℕ) (m : Store) (root virtual_addr phys_addr size : ℕ) (level prefix : ℕ → ℕ)
    (enough : pages size < fuel) (aligned_v : virtual_addr % 0x1000 ≡ 0)
    (aligned_p : phys_addr % 0x1000 ≡ 0) (fits : virtual_addr + size + 0x1000 ≤ 2 ^ 64)
    (fits' : phys_addr + size + 0x1000 ≤ 2 ^ 52) (short : size + 0x1000 ≤ 2 ^ 48)
    (tree : IsTree m root level prefix)
    (small : (k : ℕ)
      → k < pages size
      → IsSmall (walk m.word 4 root) 0 (steps 0x1000 virtual_addr k))
    (room : m.next_free + pages size * (3 * page_bytes) < 2 ^ 52) where
  -- The walk of each byte of the range, from the loop's result.
  found_at :
      (m' : Store)
      → IsMappedAll m m' root 0
          (pages size)
          (steps 0x1000 virtual_addr)
          (λ k. page_entry (steps 0x1000 phys_addr k))
      → (d : ℕ) → d < size
      → walk m'.word 4 root (virtual_addr + d)
        ≡ Walk.mapped 0 (page_entry (steps 0x1000 phys_addr (d / 0x1000)))
  found_at m' all d h = all.here (d / 0x1000) (virtual_addr + d) (omega arith) (omega arith)

  found_physical :
      (d : ℕ)
      → d < size
      → physical
          (Walk.mapped 0 (page_entry (steps 0x1000 phys_addr (d / 0x1000))))
          (virtual_addr + d)
        ≡ some (phys_addr + d)
  found_physical d h =
      page_entry-physical (phys_addr + d) _ _ (omega arith) (omega arith) (omega arith)

  abbrev entries : ℕ → ℕ → ℕ
  entries b k = page_entry (steps 0x1000 b k)

  mapped-IsVirtualMapped :
      (m' : Store)
      → IsMappedAll m m' root 0
          (pages size)
          (steps 0x1000 virtual_addr)
          (λ k. page_entry (steps 0x1000 phys_addr k))
      → IsVirtualMapped m m' root virtual_addr phys_addr size
  mapped-IsVirtualMapped m' all = record {
    level = all.level;
    prefix = all.prefix;
    tree = all.tree;
    found =
        λ d h. ap (λ w. physical w (virtual_addr + d)) (found_at m' all d h) ∙ found_physical d h;
    read = λ d h.
        get_physical_address_lem m' root (virtual_addr + d) all.level all.prefix all.tree
          (mapped-IsSmall (walk m'.word 4 root) (virtual_addr + d) _ (found_at m' all d h))
        ∙ ap (λ w. or_zero (physical w (virtual_addr + d))) (found_at m' all d h)
        ∙ ap or_zero (found_physical d h);
    elsewhere = all.elsewhere;
  }

  -- In a tree of tables, with room for three tables a page, for a page-aligned range and a
  -- page-aligned physical address, neither of which reaches the end of its address space, when no
  -- large page holds the range, and with fuel for a round for each page and one more: map_virtual
  -- ends, the processor and get_physical_address find each byte of the range at its place behind
  -- the physical address, and the walk of every address in another page is as before.
  pub map_virtual_lem :
      (m' : Store) × (map_virtual fuel m root virtual_addr phys_addr 0 size ≡ some m')
      × IsVirtualMapped m m' root virtual_addr phys_addr size
  map_virtual_lem =
      let zero_v : virtual_addr + 0 ≡ virtual_addr = omega arith in
      let zero_p : phys_addr + 0 ≡ phys_addr = omega arith in
      let (m', runs, all) =
        page_loop root virtual_addr phys_addr size fits (omega arith) short (pages size) fuel m 0
          level prefix enough (omega arith) (inr (omega arith)) tree
          (λ k h.
            subst (λ b. IsSmall (walk m.word 4 root) 0 (steps 0x1000 b k)) (sym zero_v) (small k h))
          room in
      (
        m',
        runs,
        mapped-IsVirtualMapped m' (
            subst (λ b. IsMappedAll m m' root 0 (pages size) (steps 0x1000 b) (entries phys_addr))
              zero_v
              (subst
                (λ b.
                  IsMappedAll m m' root 0 (pages size) (steps 0x1000 (virtual_addr + 0))
                    (entries b))
                zero_p all)),
      )
