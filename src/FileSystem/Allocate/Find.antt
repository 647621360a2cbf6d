-- ===== src/FileSystem/Allocate/Find.antt =====
-- Which entry of the file allocation table the search found free, and which number it returns.
use unos_kernel.Prelude.{
  ℕ, zero, suc, ◌+◌, ◌*◌, ◌/◌, ◌%◌, ◌^◌, ◌≤◌, ◌<◌, ◌≡◌, ◌≢◌, refl, subst, ap, sym, true, false,
  arith, ◌∙◌, ◌⊎◌, inl, inr, Option, some, List, bit_and, Option-cases, Bool, Bool-cases, ◌||◌, ltb,
  leb, ◌==◌, if◌then◌else◌,
}
use unos_kernel.FileSystem.{Fat32Info, fat32_mask, word_at}
use unos_kernel.FileSystem.Allocate.{
  fat32_cluster_free, total_clusters, find_in_sector, find_in_table, fat32_find_free_cluster,
}

choice :
    (skip : Bool) (entry cluster c : ℕ) (rest : Option ℕ)
    → (if skip then rest else if entry == fat32_cluster_free then some cluster else rest) ≡ some c
    → (rest ≡ some c) ⊎ ((skip ≡ false) × (entry ≡ fat32_cluster_free) × (c ≡ cluster))
choice true entry cluster c rest e = inl e
choice false entry cluster c rest e = elim (Bool-cases (entry == fat32_cluster_free)) [
  | inl free ↦ inr (refl, ground arith, ground arith)
  | inr used ↦ inl (ground arith)
]

module _ (read_sectors : ℕ → ℕ → Option (List ℕ)) (info : Fat32Info) where
  -- Entry `j` of sector `sector` of the table is free, and `c` is the number returned for it.
  pub record IsFound (c sector j : ℕ) : Type 0 where
    pub buffer : List ℕ
    pub reads : read_sectors ((info.fat_start_sector + sector) % 2 ^ 32) 1 ≡ some buffer
    pub free : bit_and (word_at buffer j) fat32_mask ≡ fat32_cluster_free
    pub in_sector : j < info.bytes_per_sector / 4
    pub returned : c ≡ (sector * (info.bytes_per_sector / 4) + 4 * j) % 2 ^ 32
    pub in_table : (2 ≤ c) × (c < total_clusters read_sectors info)

  find_in_sector_lem :
      (left j sector c : ℕ) (buffer : List ℕ)
      → find_in_sector read_sectors info left (4 * j) sector buffer ≡ some c
      → (k : ℕ) × (j ≤ k)
        × (k < j + left)
        × (bit_and (word_at buffer k) fat32_mask ≡ fat32_cluster_free)
        × (c ≡ (sector * (info.bytes_per_sector / 4) + 4 * k) % 2 ^ 32)
        × (2 ≤ c)
        × (c < total_clusters read_sectors info)
  unfolding find_in_sector
  find_in_sector_lem zero j sector c buffer e = absurd (ground arith)
  find_in_sector_lem (suc left) j sector c buffer e =
      elim (choice skip (entry_of (4 * j / 4)) number c _ e) [
        | inl rest ↦
            let (k, from, to, free, at, low, high) =
              find_in_sector_lem left (j + 1) sector c buffer (
                subst (λ i. find_in_sector read_sectors info left i sector buffer ≡ some c) next
                  rest) in
            (k, omega arith, omega arith, free, at, low, high)
        | inr (kept, free, at) ↦ (
          j,
          omega arith,
          omega arith,
          ap entry_of (sym quarter) ∙ free,
          at,
          ground (arith, kept, at),
          ground (arith, kept, at),
        )
      ]
    where
      number : ℕ
      number = (sector * (info.bytes_per_sector / 4) + 4 * j) % 2 ^ 32

      skip : Bool
      skip = ltb number 2 || leb (total_clusters read_sectors info) number

      entry_of : ℕ → ℕ
      entry_of i = bit_and (word_at buffer i) fat32_mask

      next : 4 * j + 4 ≡ 4 * (j + 1)
      next = omega arith

      quarter : 4 * j / 4 ≡ j
      quarter = omega arith

  find_in_table_lem :
      (left sector c : ℕ)
      → find_in_table read_sectors info left sector ≡ c
      → c ≢ 0
      → (s j : ℕ) × (sector ≤ s) × (s < sector + left) × IsFound c s j
  unfolding find_in_table
  find_in_table_lem zero sector c e found = absurd (found (sym e))
  find_in_table_lem (suc left) sector c e found =
      elim (Option-cases (read_sectors ((info.fat_start_sector + sector) % 2 ^ 32) 1)) [
        | inl failed ↦ absurd (found (sym (rw (find_in_table, failed) at e)))
        | inr (buffer, reads) ↦
            elim (Option-cases
              (find_in_sector read_sectors info (info.bytes_per_sector / 4) 0 sector buffer)) [
                | inl nothing ↦
                    let (s, j, from, to, at) =
                      find_in_table_lem left (sector + 1) c
                        (rw (find_in_table, reads, nothing) at e) found in
                    (s, j, omega arith, omega arith, at)
                | inr (c', some_c) ↦
                    let same : c' ≡ c = rw (find_in_table, reads, some_c) at e in
                    let (k, from, to, free, at, low, high) =
                      find_in_sector_lem (info.bytes_per_sector / 4) 0 sector c' buffer some_c in
                    (
                      sector,
                      k,
                      omega arith,
                      omega arith,
                      rw (sym same) (record {
                        buffer = buffer;
                        reads = reads;
                        free = free;
                        in_sector = omega arith;
                        returned = at;
                        in_table = (low, high);
                      }),
                    )
              ]
      ]

  -- When Fat32FindFreeCluster returns a number other than 0, some entry of a sector of the table is
  -- free, and the number is that of the sector's first entry plus four times, in 32 bits, the place
  -- of the free entry in the sector; it is at least 2 and below the number of clusters.
  pub fat32_find_free_cluster_lem :
      fat32_find_free_cluster read_sectors info ≢ 0
      → (s j : ℕ) × (s < info.fat_size_32) × IsFound (fat32_find_free_cluster read_sectors info) s j
  unfolding fat32_find_free_cluster
  fat32_find_free_cluster_lem found =
      let (s, j, from, to, at) =
        find_in_table_lem info.fat_size_32 0 (find_in_table read_sectors info info.fat_size_32 0)
          refl found in
      (s, j, omega (arith, to), at)
