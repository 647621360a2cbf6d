-- ===== src/FileSystem/Write/Table.antt =====
-- Fat32WriteFATEntry on a device that works.
use unos_kernel.Prelude.{
  ℕ, zero, suc, ◌+◌, ◌%◌, ◌<◌, ◌≤◌, ◌≡◌, ◌≢◌, ◌⊎◌, refl, sym, ◌∙◌, subst, inl, inr, true, false,
  some, List, arith, ltb, Bool-cases,
}
use unos_kernel.FileSystem.{Fat32Info}
use unos_kernel.FileSystem.Write.{
  Device, BootSector, status_ok, fat_offset, fat_sector, update_entry, write_copies,
  fat32_write_fat_entry,
}

-- A device whose writes succeed, and that keeps what is written.
pub record IsWorking {ℓ} {D : Type ℓ} (device : Device D) : Type ℓ where
  pub done : (d : D) (s n : ℕ) (b : List ℕ) → (device.write d s n b).0 ≡ status_ok
  pub kept : (d : D) (s : ℕ) (b : List ℕ) → device.read (device.write d s 1 b).1 s 1 ≡ some b
  pub others :
      (d : D) (s t n : ℕ) (b : List ℕ)
      → (s < t) ⊎ (t + n ≤ s)
      → device.read (device.write d s 1 b).1 t n ≡ device.read d t n

-- Two sectors that differ lie on either side of one another.
pub sides : {a b : ℕ} → a ≢ b → (a < b) ⊎ (b + 1 ≤ a)
sides {a = a} {b = b} h = elim (Bool-cases (ltb a b)) [
  | inl l ↦ inl (ground arith)
  | inr l ↦ inr (ground arith)
]

eq_or_lt : (a b : ℕ) → a ≤ b → (a ≡ b) ⊎ (a < b)
eq_or_lt a b h = ground arith

module _ {ℓ} {D : Type ℓ} (device : Device D) (info : Fat32Info) (boot : BootSector)
    (cluster value : ℕ) (content : ℕ → List ℕ) where
  abbrev sector : ℕ → ℕ
  sector = fat_sector device info boot cluster

  abbrev updated : ℕ → List ℕ
  updated copy =
      update_entry (fat_offset device info boot cluster % info.bytes_per_sector) value
        (content copy)

  -- The copies from `copy` on, `left` in number, are stored in different sectors.
  pub record IsTable (left copy : ℕ) (d : D) : Type ℓ where
    pub stored :
        (i : ℕ) → copy ≤ i → i < copy + left → device.read d (sector i) 1 ≡ some (content i)
    pub apart : (i j : ℕ) → copy ≤ i → i < j → j < copy + left → sector i ≢ sector j

  -- After the writes, in terms of `update_entry`.
  pub record IsUpdated (left copy : ℕ) (d d' : D) : Type ℓ where
    pub changed :
        (i : ℕ) → copy ≤ i → i < copy + left → device.read d' (sector i) 1 ≡ some (updated i)
    pub same :
        (t n : ℕ)
        → ((i : ℕ) → copy ≤ i → i < copy + left → (sector i < t) ⊎ (t + n ≤ sector i))
        → device.read d' t n ≡ device.read d t n

  write_copies-step :
      (left copy : ℕ) (d : D) (b : List ℕ)
      → device.read d (sector copy) 1 ≡ some b
      → (device.write d
          (sector copy)
          1
          (update_entry (fat_offset device info boot cluster % info.bytes_per_sector) value b)).0
        ≡ status_ok
      → write_copies device info boot (suc left) copy cluster value d
        ≡ write_copies device info boot left
            (copy + 1)
            cluster
            value
            (device.write d (sector copy) 1 (
              update_entry (fat_offset device info boot cluster % info.bytes_per_sector) value b)).1
  unfolding write_copies
  write_copies-step left copy d b reads ok = rw (write_copies, reads, ok) refl

  write_copies-IsUpdated :
      (left copy : ℕ) (d : D)
      → IsWorking device
      → IsTable left copy d
      → (d' : D) × (write_copies device info boot left copy cluster value d ≡ (true, d'))
        × IsUpdated left copy d d'
  unfolding write_copies
  write_copies-IsUpdated zero copy d w t =
      (d, refl, record { changed = λ i a b. absurd (omega arith); same = λ s n h. refl })
  write_copies-IsUpdated (suc left) copy d w t =
      let buffer = updated copy in
      let d1 = (device.write d (sector copy) 1 buffer).1 in
      let ok = w.done d (sector copy) 1 buffer in
      let reads : device.read d (sector copy) 1 ≡ some (content copy) =
        t.stored copy (omega arith) (omega arith) in
      let t1 : IsTable left (copy + 1) d1 = record {
        stored = λ i a b.
            w.others d (sector copy) (sector i) 1 buffer
              (sides (t.apart copy i (omega arith) (omega arith) (omega arith)))
            ∙ t.stored i (omega arith) (omega arith);
        apart = λ i j a b c. t.apart i j (omega arith) b (omega arith);
      } in
      let (d', run, u) = write_copies-IsUpdated left (copy + 1) d1 w t1 in
      (
        d',
        write_copies-step left copy d (content copy) reads ok ∙ run,
        record {
          changed = λ i a b. elim (eq_or_lt copy i a) [
            | inl here ↦
                subst (λ i. device.read d' (sector i) 1 ≡ some (updated i)) here
                  (u.same (sector copy) 1 (λ j p q.
                      sides (λ e. t.apart copy j (omega arith) (omega arith) (omega arith) (sym e)))
                    ∙ w.kept d (sector copy) buffer)
            | inr behind ↦ u.changed i (omega arith) (omega arith)
          ];
          same = λ s n h.
              u.same s n (λ i a b. h i (omega arith) (omega arith))
              ∙ w.others d (sector copy) s n buffer (h copy (omega arith) (omega arith));
        },
      )

  pub fat32_write_fat_entry-IsUpdated :
      (d : D)
      → IsWorking device
      → IsTable boot.num_fats 0 d
      → (d' : D) × (fat32_write_fat_entry device info boot cluster value
            (record { locked = false; disk = d })
          ≡ some (status_ok, record { locked = false; disk = d' }))
        × IsUpdated boot.num_fats 0 d d'
  unfolding fat32_write_fat_entry
  fat32_write_fat_entry-IsUpdated d w t =
      let (d', run, u) = write_copies-IsUpdated boot.num_fats 0 d w t in (d', rw run refl, u)
