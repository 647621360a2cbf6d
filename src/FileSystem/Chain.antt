-- ===== src/FileSystem/Chain.antt =====
-- The contents of a chain of clusters, and the loop of Fat32Read that copies them.
use unos_kernel.Prelude.{
  ℕ, zero, suc, ◌+◌, ◌-◌, ◌≤◌, ◌<◌, ◌≡◌, refl, ◌∙◌, ap, ap₂, sym, true, false, arith, Option, some,
  List, [], ◌∷◌, ◌++◌, Bool, Bool-cases, inl, inr, ◌||◌, ltb, leb, if◌then◌else◌, length, take,
  drop, lt→ltb, leb→le, length-append, ◌⊎◌,
}
use unos_kernel.Prelude.Slices.{
  append_nil, drop-append, take-append, take-append_past, take_all, length-drop,
}
use unos_kernel.FileSystem.{
  Fat32Info, fat32_eoc, fat32_next_cluster, sector_of, bytes_per_cluster, read_clusters,
}

pub le_or_lt : (a b : ℕ) → (a ≤ b) ⊎ (b < a)
le_or_lt a b = elim (Bool-cases (leb a b)) [
  | inl h ↦ inl (leb→le a b h)
  | inr h ↦ inr (ground arith)
]

module _ (read_sectors : ℕ → ℕ → Option (List ℕ)) (info : Fat32Info) (content : ℕ → List ℕ) where
  abbrev next : ℕ → ℕ
  next = fat32_next_cluster read_sectors info

  abbrev bpc : ℕ
  bpc = bytes_per_cluster read_sectors info

  -- The bytes of a chain of clusters.
  abbrev pub contents : List ℕ → List ℕ
  contents [] = []
  contents (c ∷ cs) = content c ++ contents cs

  -- The cluster `c` reads as its content.
  pub record IsReadable (c : ℕ) : Type 0 where
    pub before_eoc : c < fat32_eoc
    pub reads :
        read_sectors (sector_of read_sectors info c) info.sectors_per_cluster ≡ some (content c)
    pub whole : length (content c) ≡ bpc

  -- A chain in the file allocation table, from its first cluster on.
  pub data IsChain : List ℕ → Type 0 where
    last : (c : ℕ) → IsReadable c → IsChain (c ∷ [])
    link :
        (c c' : ℕ) (cs : List ℕ)
        → IsReadable c
        → next c ≡ c'
        → 2 ≤ c'
        → IsChain (c' ∷ cs)
        → IsChain (c ∷ c' ∷ cs)

  pub chain-IsReadable : (c : ℕ) (cs : List ℕ) → IsChain (c ∷ cs) → IsReadable c
  chain-IsReadable c [] (last _ r) = r
  chain-IsReadable c (c' ∷ cs) (link _ _ _ r n two l) = r

  read_clusters_done : (left c o : ℕ) → read_clusters read_sectors info left c o 0 ≡ []
  unfolding read_clusters
  read_clusters_done zero c o = refl
  read_clusters_done (suc left) c o = refl

  piece : ℕ → ℕ → ℕ
  piece remaining o = if ltb remaining (bpc - o) then remaining else bpc - o

  stops : ℕ → Bool
  stops c = ltb c 2 || leb fat32_eoc c

  stops_not : (c : ℕ) → 2 ≤ c → c < fat32_eoc → stops c ≡ false
  unfolding stops
  stops_not c two lt = ground arith

  piece_all : (r o : ℕ) → o + r ≤ bpc → piece r o ≡ r
  unfolding piece
  piece_all r o h = ground arith

  piece_some : (r o : ℕ) → bpc < o + r → piece r o ≡ bpc - o
  unfolding piece
  piece_some r o h = ground arith

  round :
      (left c o r : ℕ)
      → IsReadable c
      → read_clusters read_sectors info (suc left) c o (suc r)
        ≡ take (piece (suc r) o) (drop o (content c))
          ++ (if stops (next c)
              then []
              else read_clusters read_sectors info left (next c) 0 (suc r - piece (suc r) o))
  unfolding read_clusters piece stops
  round left c o r k =
      rw (k.reads, lt→ltb 0 (suc r) (omega arith), lt→ltb c fat32_eoc k.before_eoc) refl

  abbrev none_of : List ℕ
  none_of = []

  either_none : (b : Bool) → (if b then none_of else none_of) ≡ none_of
  either_none true = refl
  either_none false = refl

  -- What is left lies in this cluster.
  round_last :
      (left c o r : ℕ) (cs : List ℕ)
      → IsReadable c
      → o + suc r ≤ bpc
      → read_clusters read_sectors info (suc left) c o (suc r)
        ≡ take (suc r) (drop o (contents (c ∷ cs)))
  round_last left c o r cs k fits =
      round left c o r k
      ∙ rw (all_of, none_left, read_clusters_done left (next c) 0, either_none (stops (next c)))
          (append_nil _
            ∙ sym (
                ap (take (suc r)) (drop-append o (content c) (contents cs) (omega (arith, k.whole)))
                ∙ take-append (suc r) (drop o (content c)) (contents cs)
                    (omega (arith, length-drop o (content c), k.whole))))
    where
      all_of : piece (suc r) o ≡ suc r
      all_of = piece_all (suc r) o fits

      none_left : suc r - suc r ≡ 0
      none_left = omega arith

  -- It goes on behind this cluster.
  round_more :
      (left c o r c' : ℕ) (cs : List ℕ)
      → IsReadable c
      → next c ≡ c'
      → stops c' ≡ false
      → o < bpc
      → bpc < o + suc r
      → read_clusters read_sectors info left c' 0 (suc r - (bpc - o)) ≡ take (suc r - (bpc - o)) cs
      → read_clusters read_sectors info (suc left) c o (suc r)
        ≡ take (suc r) (drop o (content c ++ cs))
  round_more left c o r c' cs k n goes h more rest =
      round left c o r k ∙ rw (some_of, n, goes, rest) together
    where
      some_of : piece (suc r) o ≡ bpc - o
      some_of = piece_some (suc r) o more

      here : length (drop o (content c)) ≡ bpc - o
      here = length-drop o (content c) ∙ ap (λ l. l - o) k.whole

      together :
          take (bpc - o) (drop o (content c)) ++ take (suc r - (bpc - o)) cs
          ≡ take (suc r) (drop o (content c ++ cs))
      together =
          ap₂ (λ p q. p ++ take q cs)
            (take_all (bpc - o) (drop o (content c)) (omega (arith, here)))
            (ap (λ l. suc r - l) (sym here))
          ∙ sym (
              ap (take (suc r)) (drop-append o (content c) cs (omega (arith, k.whole)))
              ∙ take-append_past (suc r) (drop o (content c)) cs (omega (arith, here)))

  -- From `o` in the first cluster on, the loop copies what stands there in the contents.
  pub read_clusters_lem :
      (left c : ℕ) (cs : List ℕ) (o remaining : ℕ)
      → IsChain (c ∷ cs)
      → length (c ∷ cs) ≤ left
      → o < bpc
      → o + remaining ≤ length (contents (c ∷ cs))
      → read_clusters read_sectors info left c o remaining
        ≡ take remaining (drop o (contents (c ∷ cs)))
  unfolding read_clusters
  read_clusters_lem zero c cs o remaining chain enough h fits = absurd (omega arith)
  read_clusters_lem (suc left) c cs o zero chain enough h fits = refl
  read_clusters_lem (suc left) c [] o (suc r) (last _ k) enough h fits =
      round_last left c o r [] k (omega (arith, fits, length-append (content c) none_of, k.whole))
  read_clusters_lem (suc left) c (c' ∷ cs) o (suc r) (link _ _ _ k n two chain) enough h fits =
      elim (le_or_lt (o + suc r) bpc) [
        | inl le ↦ round_last left c o r (c' ∷ cs) k le
        | inr more ↦
            round_more left c o r c' (contents (c' ∷ cs)) k n
              (goes (chain-IsReadable c' cs chain).before_eoc) h more
              (read_clusters_lem left c' cs 0 (suc r - (bpc - o)) chain (omega arith) (omega arith)
                (omega (arith, fits, length-append (content c) (contents (c' ∷ cs)), k.whole)))
      ]
    where
      goes : c' < fat32_eoc → stops c' ≡ false
      goes lt = stops_not c' two lt
