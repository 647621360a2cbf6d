-- ===== src/FileSystem/Write/Partition.antt =====
-- What fat32_next_cluster reads after Fat32WriteFATEntry: the one takes the table to begin behind
-- the reserved sectors of the partition, the other behind those of the disk.
use unos_kernel.Prelude.{
  ℕ, ◌+◌, ◌*◌, ◌/◌, ◌%◌, ◌^◌, ◌<◌, ◌≤◌, ◌≡◌, ◌≢◌, refl, sym, ◌∙◌, ap, false, ◌||◌, some, List,
  arith, length, ltb, leb, ◌==◌, if◌then◌else◌, bit_and,
}
use unos_kernel.FileSystem.{Fat32Info, fat32_next_cluster, fat32_mask, fat32_eoc, word_at}
use unos_kernel.FileSystem.Write.{
  Device, BootSector, status_ok, fat_sector, update_entry, fat32_write_fat_entry,
}
use unos_kernel.FileSystem.Write.Entry.{word_at-update_entry}
use unos_kernel.FileSystem.Write.Stored.{mod-word}
use unos_kernel.FileSystem.Write.Table.{sides, IsWorking, IsTable, fat32_write_fat_entry-IsUpdated}

module _ {ℓ} {D : Type ℓ} (device : Device D) (info : Fat32Info) (boot : BootSector)
    (cluster value : ℕ) (content : ℕ → List ℕ) where
  fat32_next_cluster_reads :
      (d : D) (buffer : List ℕ)
      → 2 ≤ cluster
      → cluster < 0x0FFF_FFF0
      → device.read d ((info.fat_start_sector + cluster * 4 / info.bytes_per_sector) % 2 ^ 32) 1
        ≡ some buffer
      → fat32_next_cluster (device.read d) info cluster ≡ (
          let raw = bit_and (word_at buffer (cluster * 4 % info.bytes_per_sector / 4)) fat32_mask in
          if raw == cluster
          then fat32_eoc
          else if ltb raw 2 || leb fat32_eoc raw
          then fat32_eoc
          else raw)
  unfolding fat32_next_cluster
  fat32_next_cluster_reads d buffer low high reads =
      let inside : (ltb cluster 2 || leb 0x0FFF_FFF0 cluster) ≡ false = ground arith in
      rw (inside, reads) refl

  -- On a disk without partitions, where the table begins behind the reserved sectors of the disk,
  -- fat32_next_cluster gives back the successor, or the end, that Fat32WriteFATEntry has stored.
  pub fat32_next_cluster-fat32_write_fat_entry :
      (d : D)
      → IsWorking device
      → IsTable device info boot cluster value content boot.num_fats 0 d
      → info.fat_start_sector ≡ boot.reserved_sector_count
      → 0 < boot.num_fats
      → 0 < info.bytes_per_sector
      → info.bytes_per_sector % 4 ≡ 0
      → length (content 0) ≡ info.bytes_per_sector
      → 2 ≤ cluster
      → cluster < 0x0FFF_FFF0
      → 2 ≤ value
      → value ≤ fat32_eoc
      → value ≢ cluster
      → (d' : D) × (fat32_write_fat_entry device info boot cluster value
            (record { locked = false; disk = d })
          ≡ some (status_ok, record { locked = false; disk = d' }))
        × (fat32_next_cluster (device.read d') info cluster ≡ value)
  unfolding fat_sector
  fat32_next_cluster-fat32_write_fat_entry d w t start fats bytes words size low high least most
        other =
      let (d', run, u) =
        fat32_write_fat_entry-IsUpdated device info boot cluster value content d w t in
      let off : cluster * 4 % 2 ^ 32 ≡ cluster * 4 = omega arith in
      let i = cluster * 4 % info.bytes_per_sector in
      let reads : device.read d'
            ((info.fat_start_sector + cluster * 4 / info.bytes_per_sector) % 2 ^ 32) 1
          ≡ some (update_entry i value (content 0)) =
        ap (λ s. device.read d' s 1)
          (ap (λ o. (info.fat_start_sector + o / info.bytes_per_sector) % 2 ^ 32) {x = cluster * 4}
              {y = cluster * 4 % 2 ^ 32} (sym off)
            ∙ ap (λ s. s % 2 ^ 32)
                {x = info.fat_start_sector + cluster * 4 % 2 ^ 32 / info.bytes_per_sector}
                {y = boot.reserved_sector_count
                  + 0 * info.fat_size_32
                  + cluster * 4 % 2 ^ 32 / info.bytes_per_sector}
                (omega (arith, start)))
        ∙ u.changed 0 (omega arith) (omega arith)
        ∙ ap (λ o. some (update_entry (o % info.bytes_per_sector) value (content 0))) off in
      let aligned : i % 4 ≡ 0 =
        ap (λ b. cluster * 4 % b % 4) {x = info.bytes_per_sector}
          {y = info.bytes_per_sector / 4 * 4} (omega (arith, words))
        ∙ mod-word cluster (info.bytes_per_sector / 4) in
      let inside : i ≤ length (content 0) = omega (arith, size, bytes) in
      let stored : bit_and (word_at (update_entry i value (content 0)) (i / 4)) fat32_mask ≡ value =
        word_at-update_entry i value (content 0) inside aligned ∙ omega arith in
      (
        d',
        run,
        fat32_next_cluster_reads d' (update_entry i value (content 0)) low high reads
            ∙ rw stored (ground arith),
      )

  -- On a partition that begins at the sector `first_lba`, unless that is the distance between two
  -- copies of the table, fat32_next_cluster reads after Fat32WriteFATEntry what it read before: the
  -- entry is written, with STATUS_OK, to other sectors than those of the table it follows.
  pub fat32_next_cluster-misses :
      (d : D) (first_lba : ℕ)
      → IsWorking device
      → IsTable device info boot cluster value content boot.num_fats 0 d
      → info.fat_start_sector ≡ first_lba + boot.reserved_sector_count
      → first_lba + boot.reserved_sector_count + cluster * 4 / info.bytes_per_sector < 2 ^ 32
      → ((copy : ℕ)
          → copy < boot.num_fats
          → (first_lba ≢ copy * info.fat_size_32)
            × (boot.reserved_sector_count
                  + copy * info.fat_size_32
                  + cluster * 4 / info.bytes_per_sector
                < 2 ^ 32))
      → cluster < 0x0FFF_FFF0
      → (d' : D) × (fat32_write_fat_entry device info boot cluster value
            (record { locked = false; disk = d })
          ≡ some (status_ok, record { locked = false; disk = d' }))
        × (fat32_next_cluster (device.read d') info cluster
            ≡ fat32_next_cluster (device.read d) info cluster)
  unfolding fat_sector fat32_next_cluster
  fat32_next_cluster-misses d first_lba w t start fits apart high =
      let (d', run, u) =
        fat32_write_fat_entry-IsUpdated device info boot cluster value content d w t in
      let off : cluster * 4 % 2 ^ 32 ≡ cluster * 4 = omega arith in
      let s = (info.fat_start_sector + cluster * 4 / info.bytes_per_sector) % 2 ^ 32 in
      let same : device.read d' s 1 ≡ device.read d s 1 = u.same s 1 (λ copy a b. sides (λ e.
        let (other, small) = apart copy (omega arith) in
        let e' : s
            ≡ (boot.reserved_sector_count
                + copy * info.fat_size_32
                + cluster * 4 / info.bytes_per_sector)
              % 2 ^ 32 =
          sym e
          ∙ ap
              (λ o.
                (boot.reserved_sector_count + copy * info.fat_size_32 + o / info.bytes_per_sector)
                % 2 ^ 32)
              off in
        other (omega (arith, e', start, fits, small)))) in
      (d', run, rw same refl)
