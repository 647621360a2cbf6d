-- ===== src/Storage/Probe.antt =====
-- The searches for a free slot and for a drive.
use unos_kernel.Prelude.{
  ℕ, zero, suc, ◌+◌, ◌^◌, ◌<◌, ◌≤◌, ◌≡◌, refl, sym, ◌∙◌, ap, subst, inl, inr, Bool, true, false,
  not, ◌&&◌, Option, none, some, List, [], ◌∷◌, ◌++◌, arith, ltb, ◌==◌, Bool-cases, bit_and, bit_or,
}
use unos_kernel.Storage.{
  find_slot, find_cmdslot, PortStatus, is_active, is_known, sig_ata, Probed, probe, ahci_probe_port,
}

-- From `i` on the test fails up to `n`.
abbrev pub Fails : (ℕ → Bool) → ℕ → ℕ → Type 0
Fails test i n = (k : ℕ) → i ≤ k → k < n → test k ≡ false

Fails-suc : (test : ℕ → Bool) (i n : ℕ) → Fails test i n → Fails test (i + 1) n
Fails-suc test i n h k a b = h k (omega arith) b

Fails-here :
    (test : ℕ → Bool) (i n : ℕ)
    → Fails test i n
    → test n ≡ true
    → i ≤ n
    → test i ≡ false
    → i + 1 ≤ n
Fails-here test i n h hit le miss = elim (Bool-cases (ltb i n)) [
  | inl l ↦ ground arith
  | inr l ↦
      let same : i ≡ n = ground arith in
      let both : false ≡ true = sym miss ∙ ap test same ∙ hit in absurd (ground arith)
]

abbrev pub slot_free : ℕ → ℕ → Bool
slot_free slots i = bit_and slots (2 ^ i) == 0

find_slot-some :
    (left i slots n : ℕ)
    → Fails (slot_free slots) i n
    → slot_free slots n ≡ true
    → i ≤ n
    → n < i + left
    → find_slot left i slots ≡ some n
unfolding find_slot
find_slot-some zero i slots n h hit le l = absurd (omega arith)
find_slot-some (suc left) i slots n h hit le l = elim (Bool-cases (slot_free slots i)) [
  | inl here ↦ rw here (ap some (at_end here))
  | inr later ↦ rw later (
      find_slot-some left (i + 1) slots n (Fails-suc (slot_free slots) i n h) hit
        (Fails-here (slot_free slots) i n h hit le later) (omega arith))
]
  where
    at_end : slot_free slots i ≡ true → i ≡ n
    at_end here = elim (Bool-cases (ltb i n)) [
      | inl l ↦
          let both : true ≡ false = sym here ∙ h i (omega arith) (ground arith) in
          absurd (ground arith)
      | inr l ↦ ground arith
    ]

find_slot-none :
    (left i slots : ℕ) → Fails (slot_free slots) i (i + left) → find_slot left i slots ≡ none
unfolding find_slot
find_slot-none zero i slots h = refl
find_slot-none (suc left) i slots h =
    rw (h i (omega arith) (omega arith))
      (find_slot-none left (i + 1) slots (λ k a b. h k (omega arith) (omega arith)))

-- find_cmdslot returns the lowest slot whose bit is clear in both registers, and -1 when there is
-- none among the 32.
pub find_cmdslot_lem :
    (sact ci n : ℕ)
    → (n < 32
        → slot_free (bit_or sact ci) n ≡ true
        → Fails (slot_free (bit_or sact ci)) 0 n
        → find_cmdslot sact ci ≡ some n)
      × (Fails (slot_free (bit_or sact ci)) 0 32 → find_cmdslot sact ci ≡ none)
unfolding find_cmdslot
find_cmdslot_lem sact ci n = (
  λ small hit h. find_slot-some 32 0 (bit_or sact ci) n h hit (omega arith) (omega arith),
  λ h. find_slot-none 32 0 (bit_or sact ci) h,
)

and_true : (a b : Bool) → (a && b) ≡ true → (a ≡ true) × (b ≡ true)
and_true true b h = (refl, h)
and_true false b h = absurd (ground arith)

-- A port with a SATA drive.
abbrev pub is_drive : ℕ → (ℕ → PortStatus) → ℕ → Bool
is_drive pi ports i =
    (not (bit_and pi (2 ^ i) == 0) && is_active (ports i)) && (ports i).sig == sig_ata

ata_unknown : (sig : ℕ) → (sig == sig_ata) ≡ true → is_known sig ≡ false
ata_unknown sig h = let e : sig ≡ 0x101 = ground arith in rw e refl

probe-take :
    (left i pi : ℕ) (ports : ℕ → PortStatus) (port : Option ℕ) (rebased : List ℕ)
    → is_drive pi ports i ≡ true
    → probe (suc left) i pi ports port rebased
      ≡ record { result = some i; ahci_port = some i; rebased = rebased ++ i ∷ [] }
unfolding probe
probe-take left i pi ports port rebased h =
    let (active, ata) =
      and_true (not (bit_and pi (2 ^ i) == 0) && is_active (ports i)) ((ports i).sig == sig_ata)
        h in
    rw (active, ata_unknown ((ports i).sig) ata, ata) refl

-- Any other port changes ahci_port at most.
record Passed (left i pi : ℕ) (ports : ℕ → PortStatus) (p : Probed) : Type 0 where
  port : Option ℕ
  rebased : List ℕ
  same : p ≡ probe left (i + 1) pi ports port rebased

probe-Passed :
    (left i pi : ℕ) (ports : ℕ → PortStatus) (port : Option ℕ) (rebased : List ℕ)
    → is_drive pi ports i ≡ false
    → Passed left i pi ports (probe (suc left) i pi ports port rebased)
unfolding probe
probe-Passed left i pi ports port rebased h =
    elim (Bool-cases (not (bit_and pi (2 ^ i) == 0) && is_active (ports i))) [
      | inr idle ↦ record { port = port; rebased = rebased; same = rw idle refl }
      | inl active ↦ elim (Bool-cases (is_known ((ports i).sig))) [
        | inl known ↦ record {
          port = some i;
          rebased = rebased ++ i ∷ [];
          same = rw (active, known) refl;
        }
        | inr other ↦
            let no_ata : ((ports i).sig == sig_ata) ≡ false = rw active at h in
            record { port = port; rebased = rebased; same = rw (active, other, no_ata) refl }
      ]
    ]

probe-some :
    (left i n pi : ℕ) (ports : ℕ → PortStatus) (port : Option ℕ) (rebased : List ℕ)
    → Fails (is_drive pi ports) i n
    → is_drive pi ports n ≡ true
    → i ≤ n
    → n < i + left
    → ((probe left i pi ports port rebased).result ≡ some n)
      × ((probe left i pi ports port rebased).ahci_port ≡ some n)
probe-some zero i n pi ports port rebased h hit le l = absurd (omega arith)
probe-some (suc left) i n pi ports port rebased h hit le l = elim (Bool-cases (ltb i n)) [
  | inl before ↦
      let p = probe-Passed left i pi ports port rebased (h i (omega arith) (ground arith)) in
      let (a, b) =
        probe-some left (i + 1) n pi ports p.port p.rebased (Fails-suc (is_drive pi ports) i n h)
          hit (ground arith) (omega arith) in
      (ap (λ (q : Probed). q.result) p.same ∙ a, ap (λ (q : Probed). q.ahci_port) p.same ∙ b)
  | inr here ↦
      let same : n ≡ i = ground arith in
      let found =
        probe-take left i pi ports port rebased
          (subst (λ j. is_drive pi ports j ≡ true) same hit) in
      (
        ap (λ (q : Probed). q.result) found ∙ ap some (sym same),
        ap (λ (q : Probed). q.ahci_port) found ∙ ap some (sym same),
      )
]

probe-none :
    (left i pi : ℕ) (ports : ℕ → PortStatus) (port : Option ℕ) (rebased : List ℕ)
    → Fails (is_drive pi ports) i (i + left)
    → (probe left i pi ports port rebased).result ≡ none
unfolding probe
probe-none zero i pi ports port rebased h = refl
probe-none (suc left) i pi ports port rebased h =
    let p = probe-Passed left i pi ports port rebased (h i (omega arith) (omega arith)) in
    ap (λ (q : Probed). q.result) p.same
    ∙ probe-none left (i + 1) pi ports p.port p.rebased (λ k a b. h k (omega arith) (omega arith))

-- ahci_probe_port returns the lowest implemented port with an active SATA drive, and makes it the
-- global port; without a drive it returns 0.
pub ahci_probe_port_lem :
    (pi n : ℕ) (ports : ℕ → PortStatus) (port : Option ℕ)
    → (n < 32
        → is_drive pi ports n ≡ true
        → Fails (is_drive pi ports) 0 n
        → ((ahci_probe_port pi ports port).result ≡ some n)
          × ((ahci_probe_port pi ports port).ahci_port ≡ some n))
      × (Fails (is_drive pi ports) 0 32 → (ahci_probe_port pi ports port).result ≡ none)
unfolding ahci_probe_port
ahci_probe_port_lem pi n ports port = (
  λ small hit h. probe-some 32 0 n pi ports port [] h hit (omega arith) (omega arith),
  λ h. probe-none 32 0 pi ports port [] h,
)
