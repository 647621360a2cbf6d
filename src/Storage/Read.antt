-- ===== src/Storage/Read.antt =====
-- ahci_read as a whole.
use unos_kernel.Prelude.{
  ℕ, ◌+◌, ◌*◌, ◌^◌, ◌/◌, ◌<◌, ◌≤◌, ◌≡◌, refl, true, false, some, [], ◌∷◌, ◌++◌, arith, leb, ◌==◌,
  if◌then◌else◌, bit_and, bit_or,
}
use unos_kernel.Prelude.Bits.{bit_and-low}
use unos_kernel.Storage.{
  Fis, Prdt, Command, clear_is, put, issue, Answers, ready_timeout, find_cmdslot, wait_ready,
  read_command, ahci_read,
}
use unos_kernel.Storage.Probe.{Fails, slot_free, find_cmdslot_lem}
use unos_kernel.Storage.Wait.{Running, wait_ready-late, wait_ready-early, await-done, await-error}

-- The number that the six address bytes of a FIS spell.
abbrev pub lba_of : Fis → ℕ
lba_of f =
    f.lba0 + f.lba1 * 2 ^ 8 + f.lba2 * 2 ^ 16 + f.lba3 * 2 ^ 24 + f.lba4 * 2 ^ 32 + f.lba5 * 2 ^ 40

-- READ DMA EXT of `sector_count` sectors from `start_lba` on, into one region at `buffer`.
pub record IsRead (start_lba sector_count buffer : ℕ) (x : Command) : Type 0 where
  pub header : (x.cfl ≡ 5) × (x.w ≡ 0)
  pub fis : (x.fis.fis_type ≡ 0x27) × (x.fis.c ≡ 1) × (x.fis.command ≡ 0x25) × (x.fis.device ≡ 0x40)
  pub bytes :
      (x.fis.lba0 < 2 ^ 8)
      × (x.fis.lba1 < 2 ^ 8)
      × (x.fis.lba2 < 2 ^ 8)
      × (x.fis.lba3 < 2 ^ 8)
      × (x.fis.lba4 < 2 ^ 8)
      × (x.fis.lba5 < 2 ^ 8)
      × (x.fis.countl < 2 ^ 8)
      × (x.fis.counth < 2 ^ 8)
  pub address : lba_of x.fis ≡ start_lba
  pub count : x.fis.countl + x.fis.counth * 2 ^ 8 ≡ sector_count
  pub region :
      (p : Prdt) × (x.prdts ≡ p ∷ [])
      × (p.dba ≡ buffer)
      × (p.dbau ≡ 0)
      × (p.dbc + 1 ≡ sector_count * 512)
      × (p.i ≡ 1)

read_command-IsRead :
    (start_lba sector_count buffer : ℕ)
    → start_lba < 2 ^ 48
    → 0 < sector_count
    → sector_count ≤ 8192
    → buffer < 2 ^ 32
    → IsRead start_lba sector_count buffer (read_command start_lba sector_count buffer)
read_command-IsRead start_lba sector_count buffer a b c d = record {
  header = (refl, refl);
  fis = (refl, refl, refl, refl);
  bytes = (
    omega arith,
    omega arith,
    omega arith,
    omega arith,
    omega arith,
    omega arith,
    omega (arith, bit_and-low 8 sector_count),
    omega (arith, bit_and-low 8 (sector_count / 2 ^ 8)),
  );
  address = omega arith;
  count = rw (bit_and-low 8 sector_count, bit_and-low 8 (sector_count / 2 ^ 8)) (omega arith);
  region = (_, refl, omega arith, refl, omega arith, refl);
}

-- Let `slot` be the first slot whose bit is clear in both sact and ci, for at least one sector, at
-- most 8192, below sector 2^48 and a buffer below 4 GiB. ahci_read clears the interrupt status and
-- puts into that slot a command to read these sectors into the buffer. After a million reads of a
-- busy task file it returns 0, and has not started the command. When one of these reads shows the
-- port ready, it starts the command by the bit of the slot, and if the command then runs without an
-- error up to poll `n`, ahci_read ends after that poll: if the slot is left there, it returns 1 and
-- clears the interrupt status, unless the error shows last; if the error shows, it returns 0.
pub ahci_read_lem :
    (fuel : ℕ) (a : Answers) (sact ci start_lba sector_count buffer slot n k : ℕ)
    → slot < 32
    → slot_free (bit_or sact ci) slot ≡ true
    → Fails (slot_free (bit_or sact ci)) 0 slot
    → start_lba < 2 ^ 48
    → 0 < sector_count
    → sector_count ≤ 8192
    → buffer < 2 ^ 32
    → (x : Command) × IsRead start_lba sector_count buffer x
      × (((j : ℕ) → j < ready_timeout → (bit_and (a.tfd j) 0x80 == 0) ≡ false)
          → ahci_read fuel a sact ci start_lba sector_count buffer
            ≡ some (0, clear_is ∷ put slot x ∷ []))
      × (k < ready_timeout
          → (bit_and (a.tfd k) 0x80 == 0) ≡ true
          → Running slot a n
          → n < fuel
          → let issued = clear_is ∷ put slot x ∷ issue (bit_or a.old_ci (2 ^ slot)) ∷ [] in
            ((bit_and (a.ci n) (2 ^ slot) == 0) ≡ true
              → ahci_read fuel a sact ci start_lba sector_count buffer
                ≡ some (
                    if bit_and a.last_is (2 ^ 30) == 0
                    then (1, issued ++ clear_is ∷ [])
                    else (0, issued)))
            × ((bit_and (a.ci n) (2 ^ slot) == 0) ≡ false
                → (bit_and (a.is n) (2 ^ 30) == 0) ≡ false
                → ahci_read fuel a sact ci start_lba sector_count buffer ≡ some (0, issued)))
unfolding ahci_read
ahci_read_lem fuel a sact ci start_lba sector_count buffer slot n k small clear first l1 l2 l3 l4 =
    let free : find_cmdslot sact ci ≡ some slot =
      (find_cmdslot_lem sact ci slot).0 small clear first in
    (
      read_command start_lba sector_count buffer,
      read_command-IsRead start_lba sector_count buffer l1 l2 l3 l4,
      λ busy.
          let late : leb ready_timeout (wait_ready 0x80 a.tfd ready_timeout 0) ≡ true =
            wait_ready-late 0x80 a.tfd ready_timeout busy in
          rw (ahci_read, free, late) refl,
      λ ready_in ready running enough.
          let early : leb ready_timeout (wait_ready 0x80 a.tfd ready_timeout 0) ≡ false =
            wait_ready-early 0x80 a.tfd ready_timeout k ready_in ready in
          (
            λ done.
                let e = await-done fuel slot a 0 n running (omega arith) (omega arith) done in
                rw (ahci_read, free, early, e) refl,
            λ set error.
                let e = await-error fuel slot a 0 n running (omega arith) (omega arith) set error in
                rw (ahci_read, free, early, e) refl,
          ),
    )
