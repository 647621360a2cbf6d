-- ===== src/Tests/FileSystem.antt =====
-- fs/vfs.c on a disk with one file of two clusters.
use unos_kernel.Prelude.{
  ℕ, ◌≡◌, ◌≢◌, ◌<◌, refl, Option, none, some, List, [], ◌∷◌, ◌++◌, arith, ◌==◌, if◌then◌else◌,
  replicate,
}
use unos_kernel.FileSystem.{Fat32Info, VfsNode, fat32_next_cluster, fat32_read}
use unos_kernel.FileSystem.Allocate.{find_in_sector, find_in_table, fat32_find_free_cluster}
use unos_kernel.FileSystem.Allocate.Find.{IsFound, fat32_find_free_cluster_lem}
use unos_kernel.FileSystem.Chain.{IsChain, IsReadable, last, link}
use unos_kernel.FileSystem.Read.{fat32_read_lem}

abbrev info : Fat32Info
info = record {
  bytes_per_sector = 512;
  sectors_per_cluster = 1;
  fat_start_sector = 100;
  first_data_sector = 200;
  fat_size_32 = 1;
}

abbrev content : ℕ → List ℕ
content c = replicate 512 c

-- Cluster 2 is followed by cluster 3, the last; the clusters from 4 on are free.
abbrev fat : List ℕ
fat =
    0xF8
    ∷ 0xFF
    ∷ 0xFF
    ∷ 0x0F
    ∷ 0xFF
    ∷ 0xFF
    ∷ 0xFF
    ∷ 0x0F
    ∷ 3
    ∷ 0
    ∷ 0
    ∷ 0
    ∷ 0xF8
    ∷ 0xFF
    ∷ 0xFF
    ∷ 0x0F
    ∷ replicate 496 0

abbrev read_sectors : ℕ → ℕ → Option (List ℕ)
read_sectors sector count =
    if sector == 100
    then some fat
    else if sector == 200
    then some (content 2)
    else if sector == 201
    then some (content 3)
    else none

abbrev file : VfsNode
file = record { type = 1; first_cluster = 2; size = 1000 }

readable : IsReadable read_sectors info content 3
readable = record { before_eoc = omega arith; reads = refl; whole = refl }

chain : IsChain read_sectors info content (2 ∷ 3 ∷ [])
unfolding fat32_next_cluster
chain =
    link 2 3 [] (record { before_eoc = omega arith; reads = refl; whole = refl }) refl (omega arith)
      (last 3 readable)

fat32_read_lem_example :
    fat32_read read_sectors info 2 file 500 20 ≡ some (some (replicate 12 2 ++ replicate 8 3))
fat32_read_lem_example =
    fat32_read_lem read_sectors info content 2 file (3 ∷ []) 500 20 refl chain (omega arith)
      (omega arith) (omega arith) (omega arith) (omega arith)

-- The first free cluster is 4; the number returned is 16.
found_16 : fat32_find_free_cluster read_sectors info ≡ 16
unfolding fat32_find_free_cluster find_in_table find_in_sector
found_16 = refl

found : fat32_find_free_cluster read_sectors info ≢ 0
found e = absurd (omega (arith, found_16, e))

fat32_find_free_cluster_lem_example :
    (s j : ℕ) × (s < 1) × IsFound read_sectors info (fat32_find_free_cluster read_sectors info) s j
fat32_find_free_cluster_lem_example = fat32_find_free_cluster_lem read_sectors info found
