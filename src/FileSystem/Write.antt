-- ===== src/FileSystem/Write.antt =====
-- fs/vfs.c: mounting, VFSReadFile and the functions that write. A device is ahci_read and
-- AHCIWriteToStorage of the mounted port as functions of its state; a status of 0 is STATUS_FAIL,
-- 1 STATUS_OK. The DMA buffers of the calls are taken to be given.
pub mod Create
pub mod Entry
pub mod Full
pub mod Partition
pub mod Stored
pub mod Table
use unos_kernel.Prelude.{
  ℕ, zero, suc, ◌+◌, ◌-◌, ◌*◌, ◌/◌, ◌%◌, ◌^◌, Bool, true, false, not, ◌&&◌, ◌||◌, Option, none,
  some, List, [], ◌∷◌, ◌++◌, ltb, leb, ◌==◌, if◌then◌else◌, ◌>>=◌, bit_and, bit_or, get_or, take,
  drop, length, replicate, min,
}
use unos_kernel.Prelude.Int.{ℤ, pos, is_zero}
use unos_kernel.Strings.{toupper}
use unos_kernel.FileSystem.{
  Fat32Info, VfsNode, fat32_mask, fat32_eoc, vfs_type_file, word_at, sector_of, fat32_read,
}
use unos_kernel.FileSystem.Allocate.{fat32_find_free_cluster}
use unos_kernel.FileSystem.Lookup.{half_at, vfs_type_dir}

-- `write` is given the first sector, their number, and the bytes.
pub record Device {ℓ} (D : Type ℓ) : Type ℓ where
  pub read : D → ℕ → ℕ → Option (List ℕ)
  pub write : D → ℕ → ℕ → List ℕ → ℤ × D

-- What the writing functions use of Fat32Info besides: two fields of the boot sector, and the root.
pub record BootSector : Type 0 where
  pub reserved_sector_count : ℕ
  pub num_fats : ℕ
  pub root_cluster : ℕ

abbrev pub status_fail : ℤ
status_fail = pos 0

abbrev pub status_ok : ℤ
status_ok = pos 1

abbrev pub fat_size : List ℕ → ℕ
fat_size sector = if half_at sector 22 == 0 then word_at (drop 36 sector) 0 else half_at sector 22

abbrev pub mounted_info : ℕ → List ℕ → Fat32Info
mounted_info first_lba sector = record {
  bytes_per_sector = half_at sector 11;
  sectors_per_cluster = get_or sector 13 0;
  fat_start_sector = (first_lba + half_at sector 14) % 2 ^ 32;
  first_data_sector =
      (first_lba + half_at sector 14 + get_or sector 16 0 * fat_size sector % 2 ^ 32) % 2 ^ 64;
  fat_size_32 = word_at (drop 36 sector) 0;
}

abbrev pub mounted_boot : List ℕ → BootSector
mounted_boot sector = record {
  reserved_sector_count = half_at sector 14;
  num_fats = get_or sector 16 0;
  root_cluster = word_at (drop 44 sector) 0;
}

-- The state of the file system after it, and the root node; `none` when the sector is not read.
pub vfs_mount_fat32_root : (ℕ → ℕ → Option (List ℕ)) → ℕ → Option (Fat32Info × BootSector × VfsNode)
vfs_mount_fat32_root read_sectors first_lba = do
  sector ← read_sectors first_lba 1
  some (
    mounted_info first_lba sector,
    mounted_boot sector,
    record { type = vfs_type_dir; first_cluster = word_at (drop 44 sector) 0; size = 0 },
  )

-- An `int` result that is converted to `size_t`.
abbrev pub to_size : ℕ → ℕ
to_size n = let low = n % 2 ^ 32 in if ltb low (2 ^ 31) then low else low + (2 ^ 64 - 2 ^ 32)

-- The buffer and *out_size, if it is set; the inner `none` is NULL, the outer one out of fuel.
pub vfs_read_file :
    (ℕ → ℕ → Option (List ℕ)) → Fat32Info → ℕ → VfsNode → Option (Option (List ℕ) × Option ℕ)
vfs_read_file read_sectors info fuel node =
    if not (node.type == vfs_type_file)
    then some (none, none)
    else if node.size == 0
    then some (none, some 0)
    else (do
      result ← fat32_read read_sectors info fuel node 0 node.size
      elim result [
        | none ↦ some (none, none)
        | some bytes ↦
            if to_size (length bytes) == node.size
            then some (some bytes, some node.size)
            else some (none, none)
      ])

-- `*(uint16_t*)` and `*(uint32_t*)` in memory.
abbrev pub half_bytes : ℕ → List ℕ
half_bytes n = n % 2 ^ 8 ∷ n / 2 ^ 8 % 2 ^ 8 ∷ []

abbrev pub word_bytes : ℕ → List ℕ
word_bytes n = half_bytes (n % 2 ^ 16) ++ half_bytes (n / 2 ^ 16 % 2 ^ 16)

abbrev pub replace : ℕ → List ℕ → List ℕ → List ℕ
replace i bytes buffer = take i buffer ++ (bytes ++ drop (i + length bytes) buffer)

-- The entry at `i`, four bytes that do not pass the sector's end.
pub update_entry : ℕ → ℕ → List ℕ → List ℕ
update_entry i value buffer =
    replace i
      (word_bytes
        (bit_or (bit_and (word_at (drop i buffer) 0) 0xF000_0000) (bit_and value fat32_mask)))
      buffer

module _ {ℓ} {D : Type ℓ} (device : Device D) (info : Fat32Info) (boot : BootSector) where
  abbrev pub fat_offset : ℕ → ℕ
  fat_offset cluster = cluster * 4 % 2 ^ 32

  unfoldable pub fat_sector : ℕ → ℕ → ℕ
  fat_sector cluster copy =
      (boot.reserved_sector_count
        + copy * info.fat_size_32
        + fat_offset cluster / info.bytes_per_sector)
      % 2 ^ 32

  -- The loop over the copies of the table, with `left` to go: whether it ends without an error.
  pub write_copies : ℕ → ℕ → ℕ → ℕ → D → Bool × D
  write_copies zero copy cluster value disk = (true, disk)
  write_copies (suc left) copy cluster value disk =
      elim (device.read disk (fat_sector cluster copy) 1) [
        | none ↦ (false, disk)
        | some buffer ↦
            let (status, disk') =
              device.write disk (fat_sector cluster copy) 1
                (update_entry (fat_offset cluster % info.bytes_per_sector) value buffer) in
            let rest = write_copies left (copy + 1) cluster value disk' in
            if is_zero status then (false, disk') else rest
      ]

  -- The lock and the device.
  pub record Volume : Type ℓ where
    pub locked : Bool
    pub disk : D

  -- `none`: acquire_lock waits for ever, since one processor holds the lock already.
  pub fat32_write_fat_entry : ℕ → ℕ → Volume → Option (ℤ × Volume)
  unfolding write_copies
  fat32_write_fat_entry cluster value v =
      if v.locked
      then none
      else (let (done, disk) = write_copies boot.num_fats 0 cluster value v.disk in
          some (if done then status_ok else status_fail, record { locked = false; disk = disk }))

  -- The sector is stored in 32 bits.
  abbrev pub first_sector : ℕ → ℕ
  first_sector cluster =
      (info.first_data_sector + (cluster + 2 ^ 32 - 2) * info.sectors_per_cluster) % 2 ^ 32

  pub fat32_write_cluster : ℕ → List ℕ → D → ℤ × D
  fat32_write_cluster cluster buffer disk =
      device.write disk (first_sector cluster) info.sectors_per_cluster buffer

-- The loops over `filename` in Fat32CreateFile: the bytes taken, and what follows them.
pub base_chars : ℕ → List ℕ → Option (List ℕ × List ℕ)
base_chars left [] = none
base_chars zero (c ∷ s) = some ([], c ∷ s)
base_chars (suc left) (c ∷ s) =
    if c == 0 || c == b'.'
    then some ([], c ∷ s)
    else (do (b, rest) ← base_chars left s; some (toupper c ∷ b, rest))

pub ext_chars : ℕ → List ℕ → Option (List ℕ)
ext_chars left [] = none
ext_chars zero (c ∷ s) = some []
ext_chars (suc left) (c ∷ s) =
    if c == 0 then some [] else (do rest ← ext_chars left s; some (toupper c ∷ rest))

-- `CHARA8 name83[11] = { ' ' }` is one space and ten zeros.
unfoldable pub name83 : List ℕ → Option (List ℕ)
unfolding base_chars ext_chars
name83 filename = do
  (b, rest) ← base_chars 8 filename
  x ← ext_chars 3 (if get_or rest 0 0 == b'.' then drop 1 rest else rest)
  some (b ++ drop (length b) (b' ' ∷ replicate 7 0) ++ x ++ replicate (3 - length x) 0)

abbrev pub new_entry : List ℕ → ℕ → ℕ → List ℕ
new_entry name cluster size =
    name
    ++ 0x20
      ∷ (replicate 8 0
          ++ half_bytes (cluster / 2 ^ 16 % 2 ^ 16)
          ++ replicate 4 0
          ++ half_bytes (cluster % 2 ^ 16)
          ++ word_bytes size)

-- The first free entry, `left` entries from `off` on.
unfoldable pub free_slot : ℕ → ℕ → List ℕ → Option ℕ
free_slot zero off buffer = none
free_slot (suc left) off buffer =
    let rest = free_slot left (off + 32) buffer in
    if get_or buffer off 0 == 0 || get_or buffer off 0 == 0xE5 then some off else rest

abbrev pub is_ok : ℤ → Bool
is_ok status = elim status [ pos n ↦ n == 1 | _ ↦ false ]

-- `seen` is what the controller finds when it is given the virtual address of a buffer with these
-- bytes: the data are written from `data_buf`, not from `data_phys`.
module _ {ℓ} {D : Type ℓ} (device : Device D) (info : Fat32Info) (boot : BootSector)
    (seen : List ℕ → List ℕ) where
  -- From the free entry on.
  pub write_file :
      ℕ
      → ℕ
      → List ℕ
      → List ℕ
      → List ℕ
      → ℕ
      → Volume device info boot
      → Option (ℤ × Volume device info boot)
  unfolding name83
  write_file cluster off dir_buf filename contents size v = do
    name ← name83 filename
    (let cluster_size = info.sectors_per_cluster * info.bytes_per_sector % 2 ^ 32 in
        let used = min size cluster_size in
        let (_, disk) =
          device.write v.disk (first_sector device info boot boot.root_cluster) 1
            (take 512 (replace off (new_entry name cluster size) dir_buf)) in
        let (w, disk') =
          device.write disk (first_sector device info boot cluster) info.sectors_per_cluster
            (seen (take used contents ++ replicate (cluster_size - used) 0)) in
        if ltb (length contents) used
        then none
        else some (if is_ok w then status_ok else status_fail, record v { disk = disk' }))

  pub fat32_create_file :
      List ℕ → List ℕ → ℕ → Volume device info boot → Option (ℤ × Volume device info boot)
  unfolding fat32_find_free_cluster free_slot
  fat32_create_file filename contents size v =
      let cluster = fat32_find_free_cluster (device.read v.disk) info in
      let dir_size = info.bytes_per_sector * info.sectors_per_cluster % 2 ^ 32 in
      if cluster == 0 then some (status_fail, v) else (do
        (_, v) ← fat32_write_fat_entry device info boot cluster fat32_eoc v
        elim (device.read v.disk (first_sector device info boot boot.root_cluster)
            info.sectors_per_cluster) [
              | none ↦ some (status_fail, v)
              | some dir_buf ↦ elim (free_slot ((dir_size + 31) / 32) 0 dir_buf) [
                | none ↦ some (status_fail, v)
                | some off ↦ write_file cluster off dir_buf filename contents size v
              ]
            ])
