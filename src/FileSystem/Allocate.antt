-- ===== src/FileSystem/Allocate.antt =====
-- fs/vfs.c: the search for a free cluster. A result of 0 is STATUS_FAIL. Numbers of clusters are
-- unsigned and of 32 bits.
pub mod Find
use unos_kernel.Prelude.{
  ℕ, zero, suc, ◌+◌, ◌*◌, ◌/◌, ◌%◌, ◌^◌, ◌||◌, Option, none, some, List, ltb, leb, ◌==◌,
  if◌then◌else◌, bit_and,
}
use unos_kernel.FileSystem.{Fat32Info, fat32_mask, word_at}

-- FAT32_CLUSTER_FREE
abbrev pub fat32_cluster_free : ℕ
fat32_cluster_free = 0

module _ (read_sectors : ℕ → ℕ → Option (List ℕ)) (info : Fat32Info) where
  abbrev pub total_clusters : ℕ
  total_clusters =
      let total = info.fat_size_32 * info.bytes_per_sector % 2 ^ 32 / 4 in
      if ltb 0x0FFF_FFF0 total then 0x0FFF_FFF0 else total

  -- `for (i = 0; i < SectorSize; i += 4)`, with `left` words to go; `none` when no entry is free.
  unfoldable pub find_in_sector : ℕ → ℕ → ℕ → List ℕ → Option ℕ
  find_in_sector zero i sector buffer = none
  find_in_sector (suc left) i sector buffer =
      let cluster = (sector * (info.bytes_per_sector / 4) + i) % 2 ^ 32 in
      let entry = bit_and (word_at buffer (i / 4)) fat32_mask in
      let rest = find_in_sector left (i + 4) sector buffer in
      if ltb cluster 2 || leb total_clusters cluster
      then rest
      else if entry == fat32_cluster_free
      then some cluster
      else rest

  -- The loop over the sectors of the table, with `left` to go; a sector has a whole number of words.
  unfoldable pub find_in_table : ℕ → ℕ → ℕ
  find_in_table zero sector = 0
  find_in_table (suc left) sector =
      let rest = find_in_table left (sector + 1) in
      elim (read_sectors ((info.fat_start_sector + sector) % 2 ^ 32) 1) [
        | none ↦ 0
        | some buffer ↦ elim (find_in_sector (info.bytes_per_sector / 4) 0 sector buffer) [
          | some cluster ↦ cluster
          | none ↦ rest
        ]
      ]

  unfoldable pub fat32_find_free_cluster : ℕ
  fat32_find_free_cluster = find_in_table info.fat_size_32 0
