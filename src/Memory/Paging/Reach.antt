-- ===== src/Memory/Paging/Reach.antt =====
-- The tables that the walk of an address goes through.
use unos_kernel.Prelude.{
  ℕ, zero, suc, ◌+◌, ◌*◌, ◌/◌, ◌%◌, ◌^◌, ◌≤◌, ◌<◌, ◌≡◌, refl, ◌∙◌, ap, ap₂, sym, true, arith,
}
use unos_kernel.Memory.Paging.{Store, page_bytes, present, frame, slot}
use unos_kernel.Memory.Paging.Tree.{IsTree, leads, leads-present, frame_aligned}
use unos_kernel.Memory.Paging.Walk.{walk, walk-suc, step-leads, index, index-lt}

-- The walk of `v` from `root` gets to the table `t` of level `n + 1`.
pub data Reach (word : ℕ → ℕ) (v root : ℕ) : ℕ → ℕ → Type 0 where
  start : Reach word v root 3 root
  down :
      {n t : ℕ}
      → Reach word v root (suc n) t
      → leads (suc (suc n)) (word (slot t (index (suc n) v))) ≡ true
      → Reach word v root n (frame (word (slot t (index (suc n) v))))

pub Reach-walk :
    {word : ℕ → ℕ} {v root n t : ℕ}
    → Reach word v root n t
    → walk word 4 root v ≡ walk word (suc n) t v
Reach-walk start = refl
Reach-walk {word = word} {v = v} (down {n = n} {t = t} r lead) =
    Reach-walk r ∙ walk-suc (suc n) t v word ∙ step-leads n _ _ lead

-- The bits of an address that lead to a table of level `n`.
abbrev pub prefix_of : ℕ → ℕ → ℕ
prefix_of n v = v % 2 ^ 48 / 2 ^ (12 + 9 * n)

prefix_of-suc : (n v : ℕ) → n < 4 → prefix_of (suc n) v * 512 + index n v ≡ prefix_of n v
prefix_of-suc zero v h = omega arith
prefix_of-suc (suc zero) v h = omega arith
prefix_of-suc (suc (suc zero)) v h = omega arith
prefix_of-suc (suc (suc (suc zero))) v h = omega arith
prefix_of-suc (suc (suc (suc (suc n)))) v h = absurd (omega arith)

pub record IsPlaced (level prefix : ℕ → ℕ) (v n t : ℕ) : Type 0 where
  pub depth : n < 4
  pub aligned : t % page_bytes ≡ 0
  pub at_level : level t ≡ suc n
  pub at_prefix : prefix t ≡ prefix_of (suc n) v

pub Reach-IsPlaced :
    {m : Store} {level prefix : ℕ → ℕ} {v root n t : ℕ}
    → IsTree m root level prefix
    → Reach m.word v root n t
    → IsPlaced level prefix v n t
Reach-IsPlaced {v = v} i start = record {
  depth = omega arith;
  aligned = i.root_aligned;
  at_level = i.root_level;
  at_prefix = i.root_prefix ∙ omega arith;
}
Reach-IsPlaced {v = v} i (down {n = n} {t = t} r lead) =
    let o = Reach-IsPlaced i r in
    let child =
      i.edge t (index (suc n) v) o.aligned (omega (arith, o.at_level)) (index-lt (suc n) v)
        (rw (o.at_level) lead) in
    record {
      depth = omega (arith, o.depth);
      aligned = frame_aligned _;
      at_level = omega (arith, child, o.at_level);
      at_prefix =
          child.1
          ∙ ap (λ q. q * 512 + index (suc n) v) o.at_prefix
          ∙ prefix_of-suc (suc n) v o.depth;
    }

-- Memories that agree on the present entries above the level of the table.
pub Reach-agree :
    {m : Store} {level prefix word : ℕ → ℕ} {v root n t : ℕ}
    → IsTree m root level prefix
    → ((s j : ℕ)
        → s % page_bytes ≡ 0
        → suc (suc n) ≤ level s
        → j < 512
        → present (m.word (slot s j)) ≡ true
        → word (slot s j) ≡ m.word (slot s j))
    → Reach m.word v root n t
    → Reach word v root n t
Reach-agree i agree start = start
Reach-agree {m = m} {word = word} {v = v} i agree (down {n = n} {t = t} r lead) =
    let o = Reach-IsPlaced i r in
    let same : word (slot t (index (suc n) v)) ≡ m.word (slot t (index (suc n) v)) =
      agree t (index (suc n) v) o.aligned (omega (arith, o.at_level)) (index-lt (suc n) v)
        (leads-present _ _ lead) in
    rw (← same) (
      down (Reach-agree i (λ s j aligned high. agree s j aligned (omega arith)) r)
        (ap (leads (suc (suc n))) same ∙ lead))

-- Addresses with the same bits go through the same tables.
prefix_of-index :
    (n a v : ℕ)
    → n < 4
    → prefix_of n a ≡ prefix_of n v
    → (prefix_of (suc n) a ≡ prefix_of (suc n) v) × (index n a ≡ index n v)
prefix_of-index zero a v h e = (omega arith, omega arith)
prefix_of-index (suc zero) a v h e = (omega arith, omega arith)
prefix_of-index (suc (suc zero)) a v h e = (omega arith, omega arith)
prefix_of-index (suc (suc (suc zero))) a v h e = (omega arith, omega arith)
prefix_of-index (suc (suc (suc (suc n)))) a v h e = absurd (omega arith)

pub index-eq : (n a v : ℕ) → n < 4 → prefix_of n a ≡ prefix_of n v → index n a ≡ index n v
index-eq n a v h e = (prefix_of-index n a v h e).1

-- The bits of an address are those of its table, and its index there.
pub prefix_of-eq :
    (n a v : ℕ)
    → n < 4
    → prefix_of (suc n) a ≡ prefix_of (suc n) v
    → index n a ≡ index n v
    → prefix_of n a ≡ prefix_of n v
prefix_of-eq n a v h e i =
    sym (prefix_of-suc n a h) ∙ ap₂ (λ q k. q * 512 + k) e i ∙ prefix_of-suc n v h

Reach-depth : {word : ℕ → ℕ} {v root n t : ℕ} → Reach word v root n t → n < 4
Reach-depth start = omega arith
Reach-depth (down r lead) = omega (arith, Reach-depth r)

pub Reach-same :
    {word : ℕ → ℕ} {v a root n t : ℕ}
    → prefix_of n a ≡ prefix_of n v
    → Reach word v root n t
    → Reach word a root n t
Reach-same e start = start
Reach-same {word = word} {v = v} {a = a} e (down {n = n} {t = t} r lead) =
    let above = (prefix_of-index n a v (omega (arith, Reach-depth r)) e).0 in
    let same : index (suc n) a ≡ index (suc n) v = index-eq (suc n) a v (Reach-depth r) above in
    rw (← same)
      (down (Reach-same above r) (ap (λ k. leads (suc (suc n)) (word (slot t k))) same ∙ lead))
