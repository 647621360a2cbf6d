-- ===== src/Memory/Paging/Loop.antt =====
-- The loops of map_virtual, map_identity and map_framebuffer.
use unos_kernel.Prelude.{
  ℕ, zero, suc, ◌+◌, ◌*◌, ◌%◌, ◌^◌, ◌≤◌, ◌<◌, ◌≡◌, ◌≢◌, refl, fun_ext, ◌∙◌, subst, sym, true, arith,
  some, ◌⊎◌, lt→ltb,
}
use unos_kernel.Memory.Paging.{Store, page_bytes, present, map_large, map_large_pages}
use unos_kernel.Memory.Paging.Tree.{IsTree, is_large}
use unos_kernel.Memory.Paging.Walk.{Walk, walk}
use unos_kernel.Memory.Paging.Reach.{prefix_of}
use unos_kernel.Memory.Paging.Grow.{IsSmall}
use unos_kernel.Memory.Paging.Map.{IsMapped, map_large_lem}

-- `m'` is `m` with `entry k` for the addresses around `addr k`, for every `k` below `count`.
pub record IsMappedAll (m m' : Store) (root n count : ℕ) (addr entry : ℕ → ℕ) : Type 0 where
  pub level : ℕ → ℕ
  pub prefix : ℕ → ℕ
  pub tree : IsTree m' root level prefix
  pub here :
      (k a : ℕ)
      → k < count
      → prefix_of n a ≡ prefix_of n (addr k)
      → walk m'.word 4 root a ≡ Walk.mapped n (entry k)
  pub elsewhere :
      (a : ℕ)
      → ((k : ℕ) → k < count → prefix_of n a ≢ prefix_of n (addr k))
      → walk m'.word 4 root a ≡ walk m.word 4 root a
  pub growth : m'.next_free ≤ m.next_free + count * (3 * page_bytes)

pub none_mapped :
    (m : Store) (root n : ℕ) (addr entry level prefix : ℕ → ℕ)
    → IsTree m root level prefix
    → IsMappedAll m m root n 0 addr entry
none_mapped m root n addr entry level prefix tree = record {
  level = level;
  prefix = prefix;
  tree = tree;
  here = λ k a h. absurd (omega arith);
  elsewhere = λ a other. refl;
  growth = omega arith;
}

pub more_mapped :
    {m m1 m' : Store} {root n count : ℕ} {addr entry : ℕ → ℕ}
    → IsMapped m m1 root n (addr 0) (entry 0)
    → IsMappedAll m1 m' root n count (λ k. addr (suc k)) (λ k. entry (suc k))
    → ((k : ℕ) → k < count → prefix_of n (addr 0) ≢ prefix_of n (addr (suc k)))
    → IsMappedAll m m' root n (suc count) addr entry
more_mapped {m' = m'} {root = root} {n = n} {count = count} {addr = addr} {entry = entry} first rest
      apart =
    record {
      level = rest.level;
      prefix = rest.prefix;
      tree = rest.tree;
      here = here;
      elsewhere = λ a other.
          rest.elsewhere a (λ k h. other (suc k) (omega arith))
          ∙ first.elsewhere a (other 0 (omega arith));
      growth = omega (arith, first.growth, rest.growth);
    }
  where
    here :
        (k a : ℕ)
        → k < suc count
        → prefix_of n a ≡ prefix_of n (addr k)
        → walk m'.word 4 root a ≡ Walk.mapped n (entry k)
    here zero a h same = rest.elsewhere a (λ k lt e. apart k lt (sym same ∙ e)) ∙ first.here a same
    here (suc k) a h same = rest.here k a (omega arith) same

pub still-IsSmall :
    {m m1 : Store} {root n v x : ℕ}
    → IsMapped m m1 root n v x
    → (a : ℕ) → prefix_of n a ≢ prefix_of n v
    → IsSmall (walk m.word 4 root) n a
    → IsSmall (walk m1.word 4 root) n a
still-IsSmall first a other small k e w = small k e (sym (first.elsewhere a other) ∙ w)

-- Steps of `step` bytes from `base`.
abbrev pub steps : ℕ → ℕ → ℕ → ℕ
steps step base k = base + k * step

pub steps_zero : (step base : ℕ) → steps step base 0 ≡ base
steps_zero step base = omega arith

pub steps-suc : (step base : ℕ) → steps step (base + step) ≡ (λ k. steps step base (suc k))
steps-suc step base = fun_ext (λ k. omega arith)

module _ (entry : ℕ → ℕ) (end root : ℕ) (there : (a : ℕ) → present (entry a) ≡ true)
    (large : (a : ℕ) → is_large 2 (entry a) ≡ true) (fits : end + 0x20_0000 ≤ 2 ^ 64) where
  abbrev All : Store → Store → ℕ → (ℕ → ℕ) → Type 0
  All m m' count addr = IsMappedAll m m' root 1 count addr (λ k. entry (addr k))

  run_step :
      (fuel : ℕ) (m : Store) (addr : ℕ) (m' : Store)
      → addr < end
      → map_large_pages entry fuel (map_large entry m root addr) root (addr + 0x20_0000) end
        ≡ some m'
      → map_large_pages entry (suc fuel) m root addr end ≡ some m'
  unfolding map_large_pages
  run_step fuel m addr m' more runs = rw (wrap, lt→ltb _ _ more) runs
    where
      wrap : (addr + 0x20_0000) % 2 ^ 64 ≡ addr + 0x20_0000
      wrap = omega arith

  -- The loop of map_large_pages from `addr` on, with `count` rounds to go.
  pub large_loop :
      (count fuel : ℕ) (m : Store) (addr : ℕ) (level prefix : ℕ → ℕ)
      → count < fuel
      → count * 0x20_0000 ≤ 2 ^ 48
      → end ≤ addr + count * 0x20_0000
      → (count ≡ 0) ⊎ (addr + count * 0x20_0000 < end + 0x20_0000)
      → IsTree m root level prefix
      → ((k : ℕ) → k < count → IsSmall (walk m.word 4 root) 1 (steps 0x20_0000 addr k))
      → m.next_free + count * (3 * page_bytes) < 2 ^ 52
      → (m' : Store) × (map_large_pages entry fuel m root addr end ≡ some m')
        × All m m' count (steps 0x20_0000 addr)
  unfolding map_large_pages
  large_loop count zero m addr level prefix fuel short last exact tree small room =
      absurd (omega arith)
  large_loop zero (suc f) m addr level prefix fuel short last exact tree small room =
      (m, ground arith, none_mapped m root 1 _ _ level prefix tree)
  large_loop (suc count) (suc f) m addr level prefix fuel short last exact tree small room =
      let start = steps_zero 0x20_0000 addr in
      let step = steps-suc 0x20_0000 addr in
      let more : addr < end = omega arith in
      let first =
        map_large_lem entry m root addr level prefix (there addr) (large addr) tree
          (subst (IsSmall (walk m.word 4 root) 1) start (small 0 (omega arith))) (omega arith) in
      let (m', runs, rest) =
        large_loop count f (map_large entry m root addr) (addr + 0x20_0000) first.level first.prefix
          (omega arith) (omega arith) (omega arith) (omega arith) first.tree
          (λ k h. still-IsSmall first _ (apart k h) (
            subst (λ g. IsSmall (walk m.word 4 root) 1 (g k)) (sym step)
              (small (suc k) (omega arith))))
          (omega (arith, first.growth)) in
      (
        m',
        run_step f m addr m' more runs,
        more_mapped (rw start first) (subst (All (map_large entry m root addr) m' count) step rest)
            apart',
      )
    where
      apart :
          (k : ℕ)
          → k < count
          → prefix_of 1 (steps 0x20_0000 (addr + 0x20_0000) k) ≢ prefix_of 1 addr
      apart k h e = omega arith

      apart' :
          (k : ℕ)
          → k < count
          → prefix_of 1 (steps 0x20_0000 addr 0) ≢ prefix_of 1 (steps 0x20_0000 addr (suc k))
      apart' k h e = omega arith
