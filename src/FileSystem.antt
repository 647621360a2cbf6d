-- ===== src/FileSystem.antt =====
-- fs/vfs.c: reading a file along its cluster chain. `read_sectors` is ahci_read of the mounted
-- port: the bytes of so many sectors from a sector on, or `none` on an error. The DMA buffers of
-- the calls are taken to be given.
pub mod Allocate
pub mod Chain
pub mod Lookup
pub mod Read
pub mod Write
use unos_kernel.Prelude.{
  ℕ, zero, suc, ◌+◌, ◌-◌, ◌*◌, ◌/◌, ◌%◌, ◌^◌, Bool, true, false, not, ◌&&◌, ◌||◌, Option, none,
  some, List, [], ◌∷◌, ◌++◌, ltb, leb, ◌==◌, if◌then◌else◌, bit_and, get_or, take, drop,
}

-- FAT32_EOC, FAT32_MASK, VFS_TYPE_FILE and MAX_CLUSTERS_CHAIN
abbrev pub fat32_eoc : ℕ
fat32_eoc = 0x0FFF_FFF8

abbrev pub fat32_mask : ℕ
fat32_mask = 0x0FFF_FFFF

abbrev pub vfs_type_file : ℕ
vfs_type_file = 1

abbrev pub max_clusters_chain : ℕ
max_clusters_chain = 4096

-- What the functions below use of Fat32Info.
pub record Fat32Info : Type 0 where
  pub bytes_per_sector : ℕ
  pub sectors_per_cluster : ℕ
  pub fat_start_sector : ℕ
  pub first_data_sector : ℕ
  pub fat_size_32 : ℕ

-- What they use of a VFSNode.
pub record VfsNode : Type 0 where
  pub type : ℕ
  pub first_cluster : ℕ
  pub size : ℕ

-- `((uint32_t*)buffer)[i]`, in the order of the machine.
abbrev pub word_at : List ℕ → ℕ → ℕ
word_at buffer i =
    get_or buffer (4 * i) 0
    + get_or buffer (4 * i + 1) 0 * 2 ^ 8
    + get_or buffer (4 * i + 2) 0 * 2 ^ 16
    + get_or buffer (4 * i + 3) 0 * 2 ^ 24

module _ (read_sectors : ℕ → ℕ → Option (List ℕ)) (info : Fat32Info) where
  unfoldable pub fat32_next_cluster : ℕ → ℕ
  fat32_next_cluster cluster =
      if ltb cluster 2 || leb 0x0FFF_FFF0 cluster
      then fat32_eoc
      else (let byte_off = cluster * 4 in
          let bps = info.bytes_per_sector in
          let fat_sect = (info.fat_start_sector + byte_off / bps) % 2 ^ 32 in
          let off_in = byte_off % bps in
          elim (read_sectors fat_sect 1) [
            | none ↦ fat32_eoc
            | some buffer ↦
                let raw = bit_and (word_at buffer (off_in / 4)) fat32_mask in
                if raw == cluster
                then fat32_eoc
                else if ltb raw 2 || leb fat32_eoc raw
                then fat32_eoc
                else raw
          ])

  -- `sector = first_data_sector + (cluster - 2) * spc`, the product in 32 bits.
  abbrev pub sector_of : ℕ → ℕ
  sector_of cluster =
      (info.first_data_sector + (cluster + 2 ^ 32 - 2) * info.sectors_per_cluster % 2 ^ 32) % 2 ^ 64

  abbrev pub bytes_per_cluster : ℕ
  bytes_per_cluster = info.bytes_per_sector * info.sectors_per_cluster % 2 ^ 32

  -- The first loop of Fat32Read: the cluster and the offset in it. The first `none` is out of fuel,
  -- the second the end of the chain.
  pub skip_clusters : ℕ → ℕ → ℕ → Option (Option (ℕ × ℕ))
  skip_clusters zero cluster offset = none
  skip_clusters (suc fuel) cluster offset =
      let next = fat32_next_cluster cluster in
      let rest = skip_clusters fuel next (offset - bytes_per_cluster) in
      if leb bytes_per_cluster offset
      then (if leb fat32_eoc next then some none else rest)
      else some (some (cluster, offset))

  -- The second loop, with `left` clusters to go before MAX_CLUSTERS_CHAIN: the bytes copied.
  pub read_clusters : ℕ → ℕ → ℕ → ℕ → List ℕ
  read_clusters zero cluster offset remaining = []
  read_clusters (suc left) cluster offset remaining =
      let read_len =
        if ltb remaining (bytes_per_cluster - offset)
        then remaining
        else bytes_per_cluster - offset in
      let next = fat32_next_cluster cluster in
      let rest = read_clusters left next 0 (remaining - read_len) in
      if not (ltb 0 remaining && ltb cluster fat32_eoc)
      then []
      else elim (read_sectors (sector_of cluster) info.sectors_per_cluster) [
        | none ↦ []
        | some buffer ↦
            take read_len (drop offset buffer)
            ++ (if ltb next 2 || leb fat32_eoc next then [] else rest)
      ]

  -- The bytes at the start of the buffer, as many as are returned; the inner `none` is -1, and the
  -- outer one is out of fuel.
  pub fat32_read : ℕ → VfsNode → ℕ → ℕ → Option (Option (List ℕ))
  fat32_read fuel node offset size =
      if not (node.type == vfs_type_file) || size == 0
      then some none
      else if leb node.size offset
      then some (some [])
      else (let remaining =
            if ltb node.size ((offset + size) % 2 ^ 64) then node.size - offset else size in
          elim (skip_clusters fuel node.first_cluster offset) [
            | none ↦ none
            | some none ↦ some (some [])
            | some (some (cluster, offset')) ↦
                some (some (read_clusters max_clusters_chain cluster offset' remaining))
          ])
