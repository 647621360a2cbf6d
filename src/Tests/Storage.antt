-- ===== src/Tests/Storage.antt =====
-- drivers/storage/ahci.c at small inputs.
use unos_kernel.Prelude.{
  bit_or, [], ◌∷◌, ℕ, zero, suc, ◌+◌, ◌*◌, ◌≤◌, ◌≡◌, ◌↔◌, refl, none, some, arith, length, ltb,
  ◌==◌, if◌then◌else◌,
}
use unos_kernel.Storage.{
  Command, clear_is, put, issue, Answers, write_command, ahci_read, PortStatus, ahci_probe_port,
}
use unos_kernel.Storage.Transfer.{Tiles, write_command-Tiles}
use unos_kernel.Storage.Wait.{Running}
use unos_kernel.Storage.Read.{IsRead, ahci_read_lem}
use unos_kernel.Storage.Probe.{is_drive, slot_free, Fails, ahci_probe_port_lem}

-- 300 KiB.
write_command-Tiles_example :
    Tiles 0x9000000 (600 * 512) (write_command 7 600 0x9000000).prdts
    × ((600 ≤ 4096) ↔ (128 + length (write_command 7 600 0x9000000).prdts * 16 ≤ 256))
write_command-Tiles_example = write_command-Tiles 7 600 0x9000000 (omega arith) (omega arith)

-- Ready at the third read; the command leaves its slot at the fifth poll.
abbrev answers : Answers
answers = record {
  tfd = λ i. if ltb i 2 then 0x80 else 0x50;
  old_ci = 1;
  ci = λ i. if ltb i 4 then 3 else 1;
  is = λ i. 0;
  last_is = 0;
}

running : Running 1 answers 4
running zero h = (refl, refl)
running (suc zero) h = (refl, refl)
running (suc (suc zero)) h = (refl, refl)
running (suc (suc (suc zero))) h = (refl, refl)
running (suc (suc (suc (suc k)))) h = absurd (omega arith)

taken_0 : Fails (slot_free (bit_or 0 1)) 0 1
taken_0 zero a b = refl
taken_0 (suc k) a b = absurd (omega arith)

ahci_read_lem_example :
    (x : Command) × IsRead 7 8 0x8000000 x
    × (ahci_read 5 answers 0 1 7 8 0x8000000
        ≡ some (1, clear_is ∷ put 1 x ∷ issue 3 ∷ clear_is ∷ []))
ahci_read_lem_example =
    let (x, h, late, run) =
      ahci_read_lem 5 answers 0 1 7 8 0x8000000 1 4 2 (omega arith) refl taken_0 (omega arith)
        (omega arith) (omega arith) (omega arith) in
    (x, h, (run (omega arith) refl running (omega arith)).0 refl)

-- A packet device at port 0 and a drive at port 2.
abbrev ports : ℕ → PortStatus
ports i = record { ssts = 0x113; sig = if i == 0 then 0xEB14_0101 else 0x101 }

before_2 : Fails (is_drive 5 ports) 0 2
before_2 zero a b = refl
before_2 (suc zero) a b = refl
before_2 (suc (suc k)) a b = absurd (omega arith)

ahci_probe_port_lem_example :
    ((ahci_probe_port 5 ports none).result ≡ some 2)
    × ((ahci_probe_port 5 ports none).ahci_port ≡ some 2)
ahci_probe_port_lem_example = (ahci_probe_port_lem 5 2 ports none).0 (omega arith) refl before_2
