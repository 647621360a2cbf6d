-- ===== src/Memory/Paging/Map.antt =====
-- One round of map_virtual, and one of map_identity and map_framebuffer.
use unos_kernel.Prelude.{
  ℕ, suc, ◌+◌, ◌*◌, ◌^◌, ◌≤◌, ◌<◌, ◌≡◌, ◌≢◌, refl, ◌∙◌, ap, true, arith, ◌==◌, ◌||◌,
}
use unos_kernel.Prelude.Bits.{bit_and-low}
use unos_kernel.Memory.Paging.{
  Store, page_bytes, present, frame, slot, kernel_entry, map_page, map_large, pml4_index,
  pdpt_index, pd_index, pt_index,
}
use unos_kernel.Memory.Paging.Tree.{IsTree, is_large, frame_aligned, frame_lem, kernel_entry_fields}
use unos_kernel.Memory.Paging.Grow.{IsSmall, At, At-down}
use unos_kernel.Memory.Paging.Write.{
  written, done_free, done_at, done_upper, done-IsTree, walk-done,
}
use unos_kernel.Memory.Paging.Walk.{Walk, walk, walk-suc, step_mapped, index, index-lt}
use unos_kernel.Memory.Paging.Reach.{
  Reach, Reach-walk, Reach-same, index-eq, prefix_of-eq, Reach-IsPlaced, Reach-agree, prefix_of,
  start,
}

-- `m'` is `m` with `entry` for the addresses around `v` that an entry of a table of level `n + 1`
-- covers, and with up to three more tables.
pub record IsMapped (m m' : Store) (root n v entry : ℕ) : Type 0 where
  pub level : ℕ → ℕ
  pub prefix : ℕ → ℕ
  pub tree : IsTree m' root level prefix
  pub here : (a : ℕ) → prefix_of n a ≡ prefix_of n v → walk m'.word 4 root a ≡ Walk.mapped n entry
  pub elsewhere :
      (a : ℕ) → prefix_of n a ≢ prefix_of n v → walk m'.word 4 root a ≡ walk m.word 4 root a
  pub growth : m'.next_free ≤ m.next_free + 3 * page_bytes

-- The indices of the code.
pub indices :
    (v : ℕ)
    → (pml4_index v ≡ index 3 v)
      × (pdpt_index v ≡ index 2 v)
      × (pd_index v ≡ index 1 v)
      × (pt_index v ≡ index 0 v)
unfolding pml4_index pdpt_index pd_index pt_index
indices v = (bit_and-low 9 _, bit_and-low 9 _, bit_and-low 9 _, bit_and-low 9 _)

frame-present : (p : ℕ) → present (kernel_entry (frame p)) ≡ true
frame-present p = (kernel_entry_fields (frame p) (frame_aligned p) (omega (arith, frame_lem p))).0

walk_entry :
    (word : ℕ → ℕ) (n t a x : ℕ)
    → word (slot t (index n a)) ≡ x
    → present x ≡ true
    → (n == 0 || is_large (suc n) x) ≡ true
    → walk word (suc n) t a ≡ Walk.mapped n x
walk_entry word n t a x at there large =
    walk-suc n t a word
    ∙ step_mapped n _ _ (ap present at ∙ there) (ap (λ e. n == 0 || is_large (suc n) e) at ∙ large)
    ∙ ap (Walk.mapped n) at

At-written :
    (m m' : Store) (root n v t x : ℕ)
    → present x ≡ true
    → (n == 0 || is_large (suc n) x) ≡ true
    → At m' root v n t (walk m.word 4 root)
    → m'.next_free ≤ m.next_free + 3 * page_bytes
    → IsMapped m (written m' (slot t (index n v)) x) root n v x
At-written m m' root n v t x there large s grown =
    let o = Reach-IsPlaced s.tree s.reach in
    let h = index-lt n v in
    record {
      level = s.level;
      prefix = s.prefix;
      tree = done-IsTree m' root n t _ x s.level s.prefix s.tree o.aligned o.at_level h there large;
      here = λ a same.
          let at =
            done_at m' root n t (index n v) x s.level s.prefix s.tree o.aligned o.at_level h there
              large in
          let i = index-eq n a v o.depth same in
          Reach-walk (Reach-same same reach)
          ∙ walk_entry _ n t a x (ap (λ k. new.word (slot t k)) i ∙ at) there large;
      elsewhere = λ a other.
          walk-done m' root n t (index n v) x s.level s.prefix s.tree o.aligned o.at_level h there
            large 3 root a start
            (λ same i. other (prefix_of-eq n a v o.depth (same ∙ o.at_prefix) i))
          ∙ s.walks a;
      growth = omega (
        arith,
        grown,
        done_free m' root n t (index n v) x s.level s.prefix s.tree o.aligned o.at_level h there
            large,
      );
    }
  where
    new : Store
    new = written m' (slot t (index n v)) x

    reach : Reach new.word v root n t
    reach =
        let o = Reach-IsPlaced s.tree s.reach in
        Reach-agree s.tree
          (λ u k aligned high lt _.
            done_upper m' root n t (index n v) x s.level s.prefix s.tree o.aligned o.at_level
              (index-lt n v) there large u k aligned high lt)
          s.reach

-- One round of map_virtual, in memory with room for three more tables below 2 ^ 52, at an address
-- that no large page holds.
pub map_page_lem :
    (m : Store) (root v p : ℕ) (level prefix : ℕ → ℕ)
    → IsTree m root level prefix
    → IsSmall (walk m.word 4 root) 0 v
    → m.next_free + 3 * page_bytes < 2 ^ 52
    → IsMapped m (map_page m root v p) root 0 v (kernel_entry (frame p))
unfolding map_page written
map_page_lem m root v p level prefix tree small room =
    let (i4, i3, i2, i1) = indices v in
    let s0 : At m root v 3 root (walk m.word 4 root) = record {
      level = level;
      prefix = prefix;
      tree = tree;
      reach = start;
      walks = λ a. refl;
    } in
    let low : (n : ℕ) → IsSmall (walk m.word 4 root) n v = λ n k e w. omega (arith, small k e w) in
    let (s1, g1) = At-down m root v 2 root _ (low 2) (omega arith) s0 in
    let (s2, g2) = At-down _ root v 1 _ _ (low 1) (omega (arith, g1)) s1 in
    let (s3, g3) = At-down _ root v 0 _ _ (low 0) (omega (arith, g1, g2)) s2 in
    rw (i4, i3, i2, i1)
      (At-written m _ root 0 v _ _ (frame-present p) refl s3 (omega (arith, g1, g2, g3)))

-- One round of map_identity or map_framebuffer, at an address that no 1 GiB page holds; what the
-- page was mapped to before, a table of pages or another large page, is replaced.
pub map_large_lem :
    (entry : ℕ → ℕ) (m : Store) (root v : ℕ) (level prefix : ℕ → ℕ)
    → present (entry v) ≡ true
    → is_large 2 (entry v) ≡ true
    → IsTree m root level prefix
    → IsSmall (walk m.word 4 root) 1 v
    → m.next_free + 3 * page_bytes < 2 ^ 52
    → IsMapped m (map_large entry m root v) root 1 v (entry v)
unfolding map_large written
map_large_lem entry m root v level prefix there large tree small room =
    let (i4, i3, i2, i1) = indices v in
    let s0 : At m root v 3 root (walk m.word 4 root) = record {
      level = level;
      prefix = prefix;
      tree = tree;
      reach = start;
      walks = λ a. refl;
    } in
    let low : (n : ℕ) → 1 ≤ n → IsSmall (walk m.word 4 root) n v =
      λ n le k e w. omega (arith, small k e w) in
    let (s1, g1) = At-down m root v 2 root _ (low 2 (omega arith)) (omega arith) s0 in
    let (s2, g2) = At-down _ root v 1 _ _ (low 1 (omega arith)) (omega (arith, g1)) s1 in
    rw (i4, i3, i2) (At-written m _ root 1 v _ _ there large s2 (omega (arith, g1, g2)))
