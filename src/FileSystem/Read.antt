-- ===== src/FileSystem/Read.antt =====
-- Fat32Read returns a piece of the file's contents.
use unos_kernel.Prelude.{
  ℕ, zero, suc, ◌+◌, ◌-◌, ◌%◌, ◌^◌, ◌≤◌, ◌<◌, ◌≡◌, refl, ◌∙◌, ap, sym, true, false, arith, Option,
  some, List, [], ◌∷◌, inl, inr, ◌==◌, ltb, leb, if◌then◌else◌, length, take, drop, length-append,
}
use unos_kernel.Prelude.Slices.{
  take_nil, drop-append_past, take_all, length-drop, length-take, drop-take, take-take_le, drop_all,
}
use unos_kernel.FileSystem.{
  Fat32Info, VfsNode, fat32_eoc, vfs_type_file, max_clusters_chain, fat32_next_cluster,
  bytes_per_cluster, skip_clusters, read_clusters, fat32_read,
}
use unos_kernel.FileSystem.Chain.{
  le_or_lt, contents, IsReadable, IsChain, last, link, chain-IsReadable, read_clusters_lem,
}

module _ (read_sectors : ℕ → ℕ → Option (List ℕ)) (info : Fat32Info) (content : ℕ → List ℕ) where
  abbrev next : ℕ → ℕ
  next = fat32_next_cluster read_sectors info

  abbrev bpc : ℕ
  bpc = bytes_per_cluster read_sectors info

  -- Where the first loop gets to: the same bytes lie ahead.
  record IsSkipped (fuel c o : ℕ) (cs : List ℕ) : Type 0 where
    cluster : ℕ
    behind : List ℕ
    offset : ℕ
    runs : skip_clusters read_sectors info fuel c o ≡ some (some (cluster, offset))
    chain : IsChain read_sectors info content (cluster ∷ behind)
    inside : offset < bpc
    shorter : length behind ≤ length cs
    ahead :
        drop o (contents read_sectors info content (c ∷ cs))
        ≡ drop offset (contents read_sectors info content (cluster ∷ behind))

  skip_here :
      (fuel c o : ℕ) (cs : List ℕ)
      → IsChain read_sectors info content (c ∷ cs)
      → o < bpc
      → IsSkipped (suc fuel) c o cs
  unfolding skip_clusters
  skip_here fuel c o cs chain h = record {
    cluster = c;
    behind = cs;
    offset = o;
    runs = rw before refl;
    chain = chain;
    inside = h;
    shorter = omega arith;
    ahead = refl;
  }
    where
      before : leb bpc o ≡ false
      before = ground arith

  skip_link :
      (fuel c o c' : ℕ) (cs : List ℕ)
      → IsReadable read_sectors info content c
      → next c ≡ c'
      → c' < fat32_eoc
      → bpc ≤ o
      → IsSkipped fuel c' (o - bpc) cs
      → IsSkipped (suc fuel) c o (c' ∷ cs)
  unfolding skip_clusters
  skip_link fuel c o c' cs k n low h s = record {
    cluster = s.cluster;
    behind = s.behind;
    offset = s.offset;
    runs = rw (past, n, more) s.runs;
    chain = s.chain;
    inside = s.inside;
    shorter = omega (arith, s.shorter);
    ahead =
        drop-append_past o (content c) (contents read_sectors info content (c' ∷ cs))
          (omega (arith, k.whole))
        ∙ ap (λ l. drop (o - l) (contents read_sectors info content (c' ∷ cs))) k.whole
        ∙ s.ahead;
  }
    where
      past : leb bpc o ≡ true
      past = ground arith

      more : leb fat32_eoc c' ≡ false
      more = ground arith

  skip_clusters_lem :
      (fuel c o : ℕ) (cs : List ℕ)
      → IsChain read_sectors info content (c ∷ cs)
      → length (c ∷ cs) ≤ fuel
      → o < length (contents read_sectors info content (c ∷ cs))
      → IsSkipped fuel c o cs
  skip_clusters_lem zero c o cs chain enough h = absurd (omega arith)
  skip_clusters_lem (suc f) c o [] (last _ k) enough h =
      skip_here f c o [] (last c k) (omega (arith, h, length-append (content c) [], k.whole))
  skip_clusters_lem (suc f) c o (c' ∷ cs) (link _ _ _ k n two chain) enough h =
      elim (le_or_lt bpc o) [
        | inr before ↦ skip_here f c o (c' ∷ cs) (link c c' cs k n two chain) before
        | inl past ↦
            skip_link f c o c' cs k n
              (chain-IsReadable read_sectors info content c' cs chain).before_eoc past
              (skip_clusters_lem f c' (o - bpc) cs chain (omega arith) (
                omega (
                  arith,
                  h,
                  length-append (content c) (contents read_sectors info content (c' ∷ cs)),
                  k.whole,
                )))
      ]

  -- What Fat32Read asks for.
  wanted : ℕ → ℕ → ℕ → ℕ
  wanted n o size = if ltb n ((o + size) % 2 ^ 64) then n - o else size

  window :
      (n o size : ℕ) (xs : List ℕ)
      → o < n
      → o + size < 2 ^ 64
      → take (wanted n o size) (drop o xs) ≡ take size (drop o (take n xs))
  unfolding wanted
  window n o size xs h small = elim (le_or_lt (o + size) n) [
    | inl le ↦
        ap (λ k. take k (drop o xs)) (all_of le)
        ∙ sym (take-take_le size (n - o) (drop o xs) (omega arith))
        ∙ ap (take size) (sym (drop-take o n xs))
    | inr gt ↦
        ap (λ k. take k (drop o xs)) (rest_of gt)
        ∙ sym (drop-take o n xs)
        ∙ sym (
            take_all size (drop o (take n xs))
              (omega (arith, length-drop o (take n xs), length-take n xs)))
  ]
    where
      all_of : o + size ≤ n → wanted n o size ≡ size
      all_of le = ground arith

      rest_of : n < o + size → wanted n o size ≡ n - o
      rest_of gt = ground arith

  wanted_fits : (n o size : ℕ) → o < n → o + size < 2 ^ 64 → o + wanted n o size ≤ n
  unfolding wanted
  wanted_fits n o size h small = ground arith

  read_inside :
      (fuel : ℕ) (node : VfsNode) (c : ℕ) (cs : List ℕ) (offset size : ℕ)
      → IsChain read_sectors info content (c ∷ cs)
      → length (c ∷ cs) ≤ max_clusters_chain
      → node.size ≤ length (contents read_sectors info content (c ∷ cs))
      → offset < node.size
      → offset + size < 2 ^ 64
      → (s : IsSkipped fuel c offset cs)
      → read_clusters read_sectors info max_clusters_chain s.cluster s.offset
          (wanted node.size offset size)
        ≡ take size (drop offset (take node.size (contents read_sectors info content (c ∷ cs))))
  read_inside fuel node c cs offset size chain short fits h small s =
      read_clusters_lem read_sectors info content max_clusters_chain s.cluster s.behind s.offset
        (wanted node.size offset size) s.chain (omega (arith, short, s.shorter)) s.inside
        enough_left
      ∙ ap (take (wanted node.size offset size)) (sym s.ahead)
      ∙ window node.size offset size (contents read_sectors info content (c ∷ cs)) h small
    where
      there : s.offset ≤ length (contents read_sectors info content (s.cluster ∷ s.behind))
      there = omega (
        arith,
        s.inside,
        (chain-IsReadable read_sectors info content s.cluster s.behind s.chain).whole,
        length-append (content s.cluster) (contents read_sectors info content s.behind),
      )

      enough_left :
          s.offset + wanted node.size offset size
          ≤ length (contents read_sectors info content (s.cluster ∷ s.behind))
      enough_left = omega (
        arith,
        there,
        wanted_fits node.size offset size h small,
        fits,
        length-drop offset (contents read_sectors info content (c ∷ cs)),
        length-drop s.offset (contents read_sectors info content (s.cluster ∷ s.behind)),
        ap length s.ahead,
      )

  -- Fat32Read of at least one byte of a file node, with offset and size that do not pass 2 ^ 64,
  -- whose clusters, linked in the file allocation table, are at most 4096, can be read, and hold at
  -- least the size of the node, and with a round of fuel for each cluster, ends: it copies what the
  -- first `node.size` bytes of the clusters hold from `offset` on, at most `size` bytes.
  pub fat32_read_lem :
      (fuel : ℕ) (node : VfsNode) (cs : List ℕ) (offset size : ℕ)
      → node.type ≡ vfs_type_file
      → IsChain read_sectors info content (node.first_cluster ∷ cs)
      → length (node.first_cluster ∷ cs) ≤ max_clusters_chain
      → length (node.first_cluster ∷ cs) ≤ fuel
      → node.size ≤ length (contents read_sectors info content (node.first_cluster ∷ cs))
      → 0 < size
      → offset + size < 2 ^ 64
      → fat32_read read_sectors info fuel node offset size
        ≡ some (
            some (
              take size (
                drop offset
                  (take node.size (contents read_sectors info content (node.first_cluster ∷ cs))))))
  unfolding fat32_read wanted
  fat32_read_lem fuel node cs offset size file chain short enough fits some_byte small =
      elim (le_or_lt node.size offset) [
        | inl past ↦
            rw (is_file, some_size, past_end past, nothing past, take_nil {A = ℕ} size) refl
        | inr h ↦
            let s =
              skip_clusters_lem fuel node.first_cluster offset cs chain enough (omega arith) in
            rw (is_file, some_size, before_end h, s.runs)
              (ap (λ bytes. some (some bytes))
                (read_inside fuel node node.first_cluster cs offset size chain short fits h small
                  s))
      ]
    where
      is_file : (node.type == vfs_type_file) ≡ true
      is_file = ground arith

      some_size : (size == 0) ≡ false
      some_size = ground arith

      past_end : node.size ≤ offset → leb node.size offset ≡ true
      past_end h = ground arith

      before_end : offset < node.size → leb node.size offset ≡ false
      before_end h = ground arith

      nothing :
          node.size ≤ offset
          → drop offset
              (take node.size (contents read_sectors info content (node.first_cluster ∷ cs)))
            ≡ []
      nothing h = drop_all offset _ (
          omega (
            arith,
            length-take node.size (contents read_sectors info content (node.first_cluster ∷ cs)),
          ))
