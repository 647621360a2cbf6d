-- ===== src/Storage/Transfer.antt =====
-- The command that is put into a slot.
use unos_kernel.Prelude.{
  ℕ, zero, suc, ◌+◌, ◌-◌, ◌*◌, ◌/◌, ◌%◌, ◌^◌, ◌<◌, ◌≤◌, ◌≡◌, ◌↔◌, refl, ap, inl, inr, List, [], ◌∷◌,
  arith, length, ltb, Bool-cases, if◌then◌else◌,
}
use unos_kernel.Prelude.Bits.{bit_and-low}
use unos_kernel.Storage.{Fis, fis_of, Prdt, prdt_count, write_prdts, read_prdt, write_command}

-- What the device reads in a FIS.
abbrev pub lba : Fis → ℕ
lba f =
    f.lba0 + f.lba1 * 2 ^ 8 + f.lba2 * 2 ^ 16 + f.lba3 * 2 ^ 24 + f.lba4 * 2 ^ 32 + f.lba5 * 2 ^ 40

abbrev pub count : Fis → ℕ
count f = f.countl + f.counth * 2 ^ 8

-- A FIS carries the low 48 bits of the sector and the low 16 bits of the number of sectors.
pub lba-fis_of :
    (command start_lba sector_count : ℕ)
    → (lba (fis_of command start_lba sector_count) ≡ start_lba % 2 ^ 48)
      × (count (fis_of command start_lba sector_count) ≡ sector_count % 2 ^ 16)
lba-fis_of command start_lba sector_count =
    (omega arith, omega (arith, bit_and-low 8 sector_count, bit_and-low 8 (sector_count / 2 ^ 8)))

-- The entries cover `bytes` bytes from `addr` on, in order, each at most 256 KiB.
abbrev pub Tiles : ℕ → ℕ → List Prdt → Type 0
Tiles addr bytes [] = bytes ≡ 0
Tiles addr bytes (p ∷ ps) =
    (p.dba + p.dbau * 2 ^ 32 ≡ addr)
    × (p.dbc + 1 ≤ 0x40000)
    × (p.dbc + 1 ≤ bytes)
    × Tiles (addr + (p.dbc + 1)) (bytes - (p.dbc + 1)) ps

no_more :
    (left i buffer bytes addr rest : ℕ)
    → left ≡ 0
    → rest ≡ 0
    → Tiles addr rest (write_prdts left i buffer bytes)
unfolding write_prdts
no_more zero i buffer bytes addr rest h e = e
no_more (suc left) i buffer bytes addr rest h e = absurd (omega (arith, h))

length-write_prdts : (left i buffer bytes : ℕ) → length (write_prdts left i buffer bytes) ≡ left
unfolding write_prdts
length-write_prdts zero i buffer bytes = refl
length-write_prdts (suc left) i buffer bytes = ap suc (
    length-write_prdts left (i + 1) buffer (bytes - (if ltb 0x40000 bytes then 0x40000 else bytes)))

write_prdts-Tiles :
    (left i buffer bytes addr : ℕ)
    → left ≡ (bytes + 0x3FFFF) / 0x40000
    → i * 0x40000 + bytes < 2 ^ 32
    → addr ≡ buffer + i * 0x40000
    → addr + bytes < 2 ^ 64
    → Tiles addr bytes (write_prdts left i buffer bytes)
unfolding write_prdts
write_prdts-Tiles zero i buffer bytes addr n small e room = omega arith
write_prdts-Tiles (suc left) i buffer bytes addr n small e room =
    let addr' = (buffer + i * 0x40000 % 2 ^ 32) % 2 ^ 64 in
    let here : addr' ≡ addr = omega arith in
    let low = bit_and-low 32 addr' in
    elim (Bool-cases (ltb 0x40000 bytes)) [
      | inl more ↦ rw more (
        omega (arith, low, here),
        omega arith,
        ground arith,
        write_prdts-Tiles left (i + 1) buffer (bytes - 0x40000) (addr + 0x40000) (ground arith)
            (ground arith) (omega arith) (ground arith),
      )
      | inr last ↦ rw last (
        omega (arith, low, here),
        ground arith,
        ground arith,
        no_more left (i + 1) buffer (bytes - bytes) _ _ (ground arith) (ground arith),
      )
    ]

-- The table of a write command of fewer than 2^23 - 512 sectors covers the buffer in order, and up
-- to 4096 sectors it has the eight entries for which the slot's 256 bytes leave room at most.
pub write_command-Tiles :
    (start_lba sector_count buffer : ℕ)
    → sector_count < 2 ^ 23 - 512
    → buffer + sector_count * 512 < 2 ^ 64
    → Tiles buffer (sector_count * 512) (write_command start_lba sector_count buffer).prdts
      × ((sector_count ≤ 4096)
          ↔ (128 + length (write_command start_lba sector_count buffer).prdts * 16 ≤ 256))
unfolding write_command
write_command-Tiles start_lba sector_count buffer small room =
    let bytes : sector_count * 512 % 2 ^ 32 ≡ sector_count * 512 = omega arith in
    (
      rw bytes (
          write_prdts-Tiles ((sector_count * 512 + 0x3FFFF) % 2 ^ 32 / 0x40000) 0 buffer
            (sector_count * 512) buffer (omega arith) (omega arith) (omega arith) room),
      let size =
            length-write_prdts (prdt_count sector_count) 0 buffer (sector_count * 512 % 2 ^ 32) in
          ((λ h. omega (arith, size, h)), λ h. omega (arith, size, h)),
    )

-- The one entry of a read command covers the buffer exactly if the buffer lies below 4 GiB and has
-- at least one and at most 8192 sectors: the count has 22 bits and the address 32.
pub read_command-Tiles :
    (start_lba sector_count buffer : ℕ)
    → sector_count < 2 ^ 23
    → ((buffer < 2 ^ 32) × (0 < sector_count) × (sector_count ≤ 8192))
      ↔ ((read_prdt buffer sector_count).dba ≡ buffer)
        × ((read_prdt buffer sector_count).dbc + 1 ≡ sector_count * 512)
read_command-Tiles start_lba sector_count buffer small =
    ((λ (a, b, c). (omega arith, omega arith)), λ (a, b). (omega arith, omega arith, omega arith))
