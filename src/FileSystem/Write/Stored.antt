-- ===== src/FileSystem/Write/Stored.antt =====
-- What Fat32WriteFATEntry leaves in the copies of the table.
use native.Mathlib.Nat.{div-add-mod', mul_assoc}
use unos_kernel.Prelude.{ℕ, ◌+◌, ◌*◌, ◌/◌, ◌%◌, ◌^◌, ◌<◌, ◌≤◌, ◌≡◌, ◌⊎◌, sym, some, List, arith}
use unos_kernel.FileSystem.{Fat32Info}
use unos_kernel.FileSystem.Write.{Device, BootSector, fat_sector}
use unos_kernel.FileSystem.Write.Entry.{IsEntered}

pub mod-word : (c q : ℕ) → c * 4 % (q * 4) % 4 ≡ 0
mod-word c q =
    let whole = div-add-mod' (c * 4) (q * 4) in
    let regroup : c * 4 / (q * 4) * (q * 4) ≡ c * 4 / (q * 4) * q * 4 =
      sym (mul_assoc (c * 4 / (q * 4)) q 4) in
    omega (arith, whole, regroup)

module _ {ℓ} {D : Type ℓ} (device : Device D) (info : Fat32Info) (boot : BootSector)
    (cluster value : ℕ) (content : ℕ → List ℕ) where
  -- The change of the disk from `d` to `d'`: in every copy of the table the entry of the cluster.
  pub record IsStored (d d' : D) : Type ℓ where
    pub copies :
        (i : ℕ)
        → i < boot.num_fats
        → (b : List ℕ) × (device.read d' (fat_sector device info boot cluster i) 1 ≡ some b)
          × IsEntered (cluster * 4 % 2 ^ 32 % info.bytes_per_sector) value (content i) b
    pub same :
        (t n : ℕ)
        → ((i : ℕ)
            → i < boot.num_fats
            → (fat_sector device info boot cluster i < t)
              ⊎ (t + n ≤ fat_sector device info boot cluster i))
        → device.read d' t n ≡ device.read d t n
