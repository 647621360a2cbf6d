-- ===== src/Tests/Write.antt =====
-- The functions of fs/vfs.c that write, on a small device.
use unos_kernel.Prelude.{
  ℕ, zero, suc, ◌+◌, ◌*◌, ◌/◌, ◌^◌, ◌≤◌, ◌<◌, ◌≡◌, ◌≢◌, ◌⊎◌, inl, inr, refl, ap, ap₂, true, false,
  none, some, List, [], ◌∷◌, ◌++◌, arith, replicate, leb, ◌==◌, if◌then◌else◌,
}
use unos_kernel.Prelude.Slices.{append_nil}
use unos_kernel.Prelude.Text.{codes}
use unos_kernel.FileSystem.{Fat32Info, fat32_next_cluster}
use unos_kernel.FileSystem.Lookup.{lookup_entries, node_of, Found}
use unos_kernel.FileSystem.Write.{
  Device, BootSector, status_ok, fat_sector, name83, new_entry, fat32_write_fat_entry,
}
use unos_kernel.FileSystem.Write.Table.{IsWorking, IsTable}
use unos_kernel.FileSystem.Write.Partition.{
  fat32_next_cluster-fat32_write_fat_entry, fat32_next_cluster-misses,
}
use unos_kernel.FileSystem.Write.Create.{IsShortName, lookup_entries-name83}

-- The bytes of each sector.
abbrev Disk : Type 0
Disk = ℕ → List ℕ

abbrev gather : Disk → ℕ → ℕ → List ℕ
gather d s zero = []
gather d s (suc n) = d s ++ gather d (s + 1) n

abbrev put : Disk → ℕ → List ℕ → Disk
put d s b t = if t == s then b else d t

abbrev device : Device Disk
device = record { read = λ d s n. some (gather d s n); write = λ d s n b. (status_ok, put d s b) }

gather-put :
    (d : Disk) (s : ℕ) (b : List ℕ) (t n : ℕ)
    → (s < t) ⊎ (t + n ≤ s)
    → gather (put d s b) t n ≡ gather d t n
gather-put d s b t zero h = refl
gather-put d s b t (suc n) h =
    let other : (t == s) ≡ false = elim h [ inl l ↦ ground arith | inr l ↦ ground arith ] in
    let h' : (s < t + 1) ⊎ (t + 1 + n ≤ s) = elim h [
      | inl l ↦ inl (omega arith)
      | inr l ↦ inr (omega arith)
    ] in
    ap₂ (λ x y. x ++ y) (rw other refl) (gather-put d s b (t + 1) n h')

device-IsWorking : IsWorking device
device-IsWorking = record {
  done = λ d s n b. refl;
  kept = λ d s b. let here : (s == s) ≡ true = ground arith in ap some (rw here (append_nil b));
  others = λ d s t n b h. ap some (gather-put d s b t n h);
}

-- Sectors of 8 bytes; two copies of a table of two sectors, and directories behind sector 10.
abbrev info : Fat32Info
info = record {
  bytes_per_sector = 8;
  sectors_per_cluster = 4;
  fat_start_sector = 1;
  first_data_sector = 10;
  fat_size_32 = 2;
}

abbrev boot : BootSector
boot = record { reserved_sector_count = 1; num_fats = 2; root_cluster = 3 }

abbrev disk : Disk
disk s = if leb 10 s then replicate 8 1 else replicate 8 0

abbrev empty : ℕ → List ℕ
empty copy = replicate 8 0

table : (i : ℕ) → i < 0 + 2 → device.read disk (fat_sector device info boot 2 i) 1 ≡ some (empty i)
unfolding fat_sector
table zero l = refl
table (suc zero) l = refl
table (suc (suc i)) l = absurd (omega arith)

apart :
    (i j : ℕ)
    → i < j
    → j < 0 + 2
    → fat_sector device info boot 2 i ≢ fat_sector device info boot 2 j
unfolding fat_sector
apart i j l m e = omega (arith, e)

disk-IsTable : (value : ℕ) → IsTable device info boot 2 value empty 2 0 disk
disk-IsTable value = record { stored = λ i a b. table i b; apart = λ i j a b c. apart i j b c }

fat32_next_cluster-fat32_write_fat_entry_example :
    (d' : Disk) × (fat32_write_fat_entry device info boot 2 5
        (record { locked = false; disk = disk })
      ≡ some (status_ok, record { locked = false; disk = d' }))
    × (fat32_next_cluster (device.read d') info 2 ≡ 5)
fat32_next_cluster-fat32_write_fat_entry_example =
    fat32_next_cluster-fat32_write_fat_entry device info boot 2 5 empty disk device-IsWorking
      (disk-IsTable 5) refl (omega arith) (omega arith) refl refl (omega arith) (omega arith)
      (omega arith) (omega arith) (λ e. ground arith)

-- The same, in a partition from sector 100 on.
abbrev moved : Fat32Info
moved = record info { fat_start_sector = 101 }

moved-IsTable : IsTable device moved boot 2 5 empty 2 0 disk
unfolding fat_sector
moved-IsTable = record { stored = λ i a b. table i b; apart = λ i j a b c. apart i j b c }

far : (copy : ℕ) → copy < 2 → (◌≢◌ {A = ℕ} 100 (copy * 2)) × (1 + copy * 2 + 2 * 4 / 8 < 2 ^ 32)
far copy h = ((λ e. omega (arith, e)), omega arith)

fat32_next_cluster-misses_example :
    (d' : Disk) × (fat32_write_fat_entry device moved boot 2 5
        (record { locked = false; disk = disk })
      ≡ some (status_ok, record { locked = false; disk = d' }))
    × (fat32_next_cluster (device.read d') moved 2 ≡ fat32_next_cluster (device.read disk) moved 2)
fat32_next_cluster-misses_example =
    fat32_next_cluster-misses device moved boot 2 5 empty disk 100 device-IsWorking moved-IsTable
      refl (omega arith) far (omega arith)

ab_c-IsShortName : IsShortName (codes "AB") (codes "C")
ab_c-IsShortName = record {
  base = (refl, (refl, tt));
  extension = (refl, tt);
  some_bytes = omega arith;
  short = omega arith;
  three = omega arith;
  used = λ e. ground arith;
}

lookup_entries-name83_example :
    (name : List ℕ) × (name83 (codes "AB" ++ b'.' ∷ (codes "C" ++ 0 ∷ [])) ≡ some name)
    × (lookup_entries (new_entry name 7 5 ∷ []) [] ((codes "AB" ++ b'.' ∷ codes "C") ++ 0 ∷ [])
        ≡ some none)
    × ((f : Found) × (lookup_entries (new_entry name 7 5 ∷ []) [] (codes "AB" ++ 0 ∷ [])
          ≡ some (some f))
        × (f.node ≡ node_of (new_entry name 7 5)))
lookup_entries-name83_example =
    lookup_entries-name83 (codes "AB") (codes "C") ab_c-IsShortName 7 5 []

abbrev root_bytes : List ℕ
root_bytes = replicate 32 1
