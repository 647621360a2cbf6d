-- ===== src/Storage.antt =====
-- drivers/storage/ahci.c. What the controller answers is given: the values that a register has when
-- it is read again and again are functions of the number of the read. Serial output is left out.
pub mod Probe
pub mod Layout
pub mod Transfer
pub mod Wait
pub mod Read
use unos_kernel.Prelude.{
  ℕ, zero, suc, ◌+◌, ◌-◌, ◌*◌, ◌/◌, ◌%◌, ◌^◌, Bool, true, false, not, ◌&&◌, ◌||◌, Option, none,
  some, List, [], ◌∷◌, ◌++◌, ltb, leb, ◌==◌, if◌then◌else◌, ◌>>=◌, bit_and, bit_or,
}
use unos_kernel.Prelude.Int.{ℤ, pos, negsuc}
use unos_kernel.Memory.PageAlloc.{ahci_base}

-- TIMEOUT of both functions
abbrev pub ready_timeout : ℕ
ready_timeout = 1000000

-- The loop of find_cmdslot from slot `i` on; `none` is -1.
pub find_slot : ℕ → ℕ → ℕ → Option ℕ
find_slot zero i slots = none
find_slot (suc left) i slots =
    let rest = find_slot left (i + 1) slots in if bit_and slots (2 ^ i) == 0 then some i else rest

unfoldable pub find_cmdslot : ℕ → ℕ → Option ℕ
unfolding find_slot
find_cmdslot sact ci = find_slot 32 0 (bit_or sact ci)

-- The fields that are set of a register FIS; the table is cleared before.
pub record Fis : Type 0 where
  pub fis_type : ℕ
  pub c : ℕ
  pub command : ℕ
  pub lba0 : ℕ
  pub lba1 : ℕ
  pub lba2 : ℕ
  pub device : ℕ
  pub lba3 : ℕ
  pub lba4 : ℕ
  pub lba5 : ℕ
  pub countl : ℕ
  pub counth : ℕ

abbrev pub fis_of : ℕ → ℕ → ℕ → Fis
fis_of command start_lba sector_count = record {
  fis_type = 0x27;
  c = 1;
  command = command;
  lba0 = start_lba % 2 ^ 8;
  lba1 = start_lba / 2 ^ 8 % 2 ^ 8;
  lba2 = start_lba / 2 ^ 16 % 2 ^ 8;
  device = 2 ^ 6;
  lba3 = start_lba / 2 ^ 24 % 2 ^ 8;
  lba4 = start_lba / 2 ^ 32 % 2 ^ 8;
  lba5 = start_lba / 2 ^ 40 % 2 ^ 8;
  countl = bit_and sector_count 0xFF;
  counth = bit_and (sector_count / 2 ^ 8) 0xFF;
}

-- An entry of the physical region table; `dbc` has 22 bits.
pub record Prdt : Type 0 where
  pub dba : ℕ
  pub dbau : ℕ
  pub dbc : ℕ
  pub i : ℕ

-- `buffer` is cut to 32 bits.
abbrev pub read_prdt : ℕ → ℕ → Prdt
read_prdt buffer sector_count = record {
  dba = buffer % 2 ^ 32;
  dbau = 0;
  dbc = (sector_count * 512 + 2 ^ 32 - 1) % 2 ^ 32 % 2 ^ 22;
  i = 1;
}

-- The loop over the entries from `i` on, `left` of them; `bytes` are still to be transferred.
pub write_prdts : ℕ → ℕ → ℕ → ℕ → List Prdt
write_prdts zero i buffer bytes = []
write_prdts (suc left) i buffer bytes =
    let addr = (buffer + i * 0x40000 % 2 ^ 32) % 2 ^ 64 in
    let size = if ltb 0x40000 bytes then 0x40000 else bytes in
    record {
      dba = bit_and addr 0xFFFF_FFFF;
      dbau = addr / 2 ^ 32;
      dbc = (size + 2 ^ 32 - 1) % 2 ^ 32 % 2 ^ 22;
      i = if left == 0 then 1 else 0;
    }
    ∷ write_prdts left (i + 1) buffer (bytes - size)

-- The command in a slot: the header's `cfl` and `w`, the FIS and the entries, whose number is `prdtl`.
pub record Command : Type 0 where
  pub cfl : ℕ
  pub w : ℕ
  pub fis : Fis
  pub prdts : List Prdt

abbrev pub read_command : ℕ → ℕ → ℕ → Command
read_command start_lba sector_count buffer = record {
  cfl = 5;
  w = 0;
  fis = fis_of 0x25 start_lba sector_count;
  prdts = read_prdt buffer sector_count ∷ [];
}

abbrev pub prdt_count : ℕ → ℕ
prdt_count sector_count = (sector_count * 512 % 2 ^ 32 + 0x3FFFF) % 2 ^ 32 / 0x40000

pub write_command : ℕ → ℕ → ℕ → Command
unfolding write_prdts
write_command start_lba sector_count buffer = record {
  cfl = 5;
  w = 1;
  fis = fis_of 0x35 start_lba sector_count;
  prdts = write_prdts (prdt_count sector_count) 0 buffer (sector_count * 512 % 2 ^ 32);
}

-- What is written: all ones to the interrupt status, a command into a slot, and the bits of slots to
-- the command issue register.
pub data PortWrite : Type 0 where
  clear_is : PortWrite
  put : ℕ → Command → PortWrite
  issue : ℕ → PortWrite

-- What a port answers: the task file, the command issue register when the command is started, and
-- this and the interrupt status while the command runs and after it.
pub record Answers : Type 0 where
  pub tfd : ℕ → ℕ
  pub old_ci : ℕ
  pub ci : ℕ → ℕ
  pub is : ℕ → ℕ
  pub last_is : ℕ

-- `while ((tfd & busy) && spin++ < TIMEOUT)` with `spin` at `i` and `left` to go: `spin` behind it.
pub wait_ready : ℕ → (ℕ → ℕ) → ℕ → ℕ → ℕ
wait_ready busy tfd zero i = if bit_and (tfd i) busy == 0 then i else i + 1
wait_ready busy tfd (suc left) i =
    let rest = wait_ready busy tfd left (i + 1) in if bit_and (tfd i) busy == 0 then i else rest

-- `while (1)`: whether the command has left its slot, or the error of bit 30; `none` is out of fuel.
pub await : ℕ → ℕ → Answers → ℕ → Option Bool
await zero slot a i = none
await (suc fuel) slot a i =
    let rest = await fuel slot a (i + 1) in
    if bit_and (a.ci i) (2 ^ slot) == 0
    then some true
    else if bit_and (a.is i) (2 ^ 30) == 0
    then rest
    else some false

-- The result, and what is written in order.
pub ahci_read : ℕ → Answers → ℕ → ℕ → ℕ → ℕ → ℕ → Option (ℕ × List PortWrite)
ahci_read fuel a sact ci start_lba sector_count buffer = elim (find_cmdslot sact ci) [
  | none ↦ some (0, clear_is ∷ [])
  | some slot ↦
      let command = read_command start_lba sector_count buffer in
      if leb ready_timeout (wait_ready 0x80 a.tfd ready_timeout 0)
      then some (0, clear_is ∷ put slot command ∷ [])
      else (do
        done ← await fuel slot a 0
        (let issued = clear_is ∷ put slot command ∷ issue (bit_or a.old_ci (2 ^ slot)) ∷ [] in
            some (
              if done && bit_and a.last_is (2 ^ 30) == 0
              then (1, issued ++ clear_is ∷ [])
              else (0, issued))))
]

-- STATUS_FAIL is 0, STATUS_OK 1, STATUS_TIMEOUT -2.
pub ahci_write_to_storage : ℕ → Answers → ℕ → ℕ → ℕ → ℕ → ℕ → Option (ℤ × List PortWrite)
ahci_write_to_storage fuel a sact ci start_lba sector_count buffer = elim (find_cmdslot sact ci) [
  | none ↦ some (pos 0, clear_is ∷ [])
  | some slot ↦
      let command = write_command start_lba sector_count buffer in
      if leb ready_timeout (wait_ready (bit_or 0x80 0x08) a.tfd ready_timeout 0)
      then some (negsuc 1, clear_is ∷ put slot command ∷ [])
      else (do
        done ← await fuel slot a 0
        (let issued = clear_is ∷ put slot command ∷ issue (bit_or a.old_ci (2 ^ slot)) ∷ [] in
            some (
              if not done
              then (pos 0, issued)
              else if bit_and a.last_is (2 ^ 30) == 0
              then (pos 1, issued)
              else (pos 0, issued ++ clear_is ∷ []))))
]

-- ahci_port_rebase: where the port's structures lie.
abbrev pub clb : ℕ → ℕ
clb portno = (ahci_base + portno * 2 ^ 10) % 2 ^ 32

abbrev pub fb : ℕ → ℕ
fb portno = (ahci_base + 32 * 2 ^ 10 + portno * 2 ^ 8) % 2 ^ 32

abbrev pub ctba : ℕ → ℕ → ℕ
ctba portno i = ahci_base + 40 * 2 ^ 10 + portno * 2 ^ 13 + i * 2 ^ 8

-- What ahci_probe_port reads of a port.
pub record PortStatus : Type 0 where
  pub ssts : ℕ
  pub sig : ℕ

abbrev pub is_active : PortStatus → Bool
is_active p = bit_and p.ssts 0x0F == 3 && bit_and (p.ssts / 2 ^ 8 % 2 ^ 8) 0x0F == 1

abbrev pub is_known : ℕ → Bool
is_known sig = sig == 0xEB14_0101 || sig == 0xC33C_0101 || sig == 0x9669_0101

-- SATA_SIG_ATA
abbrev pub sig_ata : ℕ
sig_ata = 0x101

-- The loop from port `i` on: the port returned, ahci_port, and the ports rebased. `none` is 0.
pub record Probed : Type 0 where
  pub result : Option ℕ
  pub ahci_port : Option ℕ
  pub rebased : List ℕ

pub probe : ℕ → ℕ → ℕ → (ℕ → PortStatus) → Option ℕ → List ℕ → Probed
probe zero i pi ports port rebased = record { result = none; ahci_port = port; rebased = rebased }
probe (suc left) i pi ports port rebased =
    let skip = probe left (i + 1) pi ports port rebased in
    let take = probe left (i + 1) pi ports (some i) (rebased ++ i ∷ []) in
    if not (bit_and pi (2 ^ i) == 0) && is_active (ports i)
    then (if is_known (ports i).sig
        then take
        else if (ports i).sig == sig_ata
        then record { result = some i; ahci_port = some i; rebased = rebased ++ i ∷ [] }
        else skip)
    else skip

pub ahci_probe_port : ℕ → (ℕ → PortStatus) → Option ℕ → Probed
ahci_probe_port pi ports port = probe 32 0 pi ports port []
