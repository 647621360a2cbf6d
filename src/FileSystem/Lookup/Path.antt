-- ===== src/FileSystem/Lookup/Path.antt =====
-- Fat32Open follows the segments of a path.
use mathlib.Core.List.{append_assoc}
use unos_kernel.Prelude.{
  ℕ, zero, suc, ◌<◌, ◌≡◌, ◌≢◌, refl, ◌∙◌, ap, fun_ext, Bool, true, false, not, ◌||◌, Option, none,
  some, List, [], ◌∷◌, ◌++◌, ltb, ◌==◌, if◌then◌else◌, ◌>>=◌, arith, length, length-append,
  replicate, get_or,
}
use unos_kernel.FileSystem.{Fat32Info, VfsNode}
use unos_kernel.FileSystem.Lookup.{
  Found, split_segment, skip_slashes, fat32_lookup, open_from, fat32_open,
}

abbrev pub in_segment : ℕ → Bool
in_segment c = not (c == 0 || c == b'/')

abbrev pub AllInSegment : List ℕ → Type 0
AllInSegment [] = Unit
AllInSegment (c ∷ s) = (in_segment c ≡ true) × AllInSegment s

-- A segment and the number of slashes behind it.
abbrev pub Part : Type 0
Part = List ℕ × ℕ

abbrev pub spelled : List Part → List ℕ
spelled [] = []
spelled (p ∷ ps) = p.0 ++ (replicate (p.1) b'/' ++ spelled ps)

abbrev pub Divided : ℕ → List Part → Type 0
Divided n [] = Unit
Divided n (p ∷ ps) = 0 < n

-- `seg` has room for each segment, and slashes stand between any two.
abbrev pub IsPath : List Part → Type 0
IsPath [] = Unit
IsPath (p ∷ ps) =
    AllInSegment (p.0) × (0 < length (p.0)) × (length (p.0) < 256) × Divided (p.1) ps × IsPath ps

split_segment-append :
    (s : List ℕ) (c : ℕ) (t : List ℕ)
    → AllInSegment s
    → in_segment c ≡ false
    → split_segment (s ++ c ∷ t) ≡ some (s, c ∷ t)
unfolding split_segment
split_segment-append [] c t h stop =
    let test : (c == 0 || c == b'/') ≡ true = ground arith in rw test refl
split_segment-append (x ∷ s) c t (hx, h) stop =
    let test : (x == 0 || x == b'/') ≡ false = ground arith in
    rw (test, split_segment-append s c t h stop) refl

skip_slashes-replicate :
    (n c : ℕ) (t : List ℕ) → c ≢ b'/' → skip_slashes (replicate n b'/' ++ c ∷ t) ≡ some (c ∷ t)
unfolding skip_slashes
skip_slashes-replicate zero c t h = let test : (c == b'/') ≡ false = ground arith in rw test refl
skip_slashes-replicate (suc n) c t h = skip_slashes-replicate n c t h

-- A list that begins with a byte other than a slash.
record Begun (s : List ℕ) : Type 0 where
  head : ℕ
  tail : List ℕ
  shape : s ≡ head ∷ tail
  no_slash : head ≢ b'/'

spelled-Begun : (ps : List Part) (rest : List ℕ) → IsPath ps → Begun (spelled ps ++ 0 ∷ rest)
spelled-Begun [] rest h = record {
  head = 0;
  tail = rest;
  shape = refl;
  no_slash = λ e. ground arith;
}
spelled-Begun (([], n) ∷ ps) rest h = absurd (omega (arith, h.1))
spelled-Begun ((c ∷ s, n) ∷ ps) rest ((hc, _), _, _, _, _) = record {
  head = c;
  tail = (s ++ (replicate n b'/' ++ spelled ps)) ++ 0 ∷ rest;
  shape = refl;
  no_slash = λ e. ground arith;
}

split_segment-part :
    (s : List ℕ) (n : ℕ) (ps : List Part) (rest : List ℕ)
    → AllInSegment s
    → Divided n ps
    → split_segment (s ++ (replicate n b'/' ++ (spelled ps ++ 0 ∷ rest)))
      ≡ some (s, replicate n b'/' ++ (spelled ps ++ 0 ∷ rest))
split_segment-part s zero [] rest h d = split_segment-append s 0 rest h refl
split_segment-part s zero (p ∷ ps) rest h d = absurd (omega (arith, d))
split_segment-part s (suc n) ps rest h d =
    split_segment-append s b'/' (replicate n b'/' ++ (spelled ps ++ 0 ∷ rest)) h refl

skip_slashes-part :
    (n : ℕ) (ps : List Part) (rest : List ℕ)
    → IsPath ps
    → skip_slashes (replicate n b'/' ++ (spelled ps ++ 0 ∷ rest)) ≡ some (spelled ps ++ 0 ∷ rest)
skip_slashes-part n ps rest h =
    let b = spelled-Begun ps rest h in
    rw b.shape (skip_slashes-replicate n b.head b.tail b.no_slash)

length-spelled :
    (ps : List Part) (rest : List ℕ) → IsPath ps → length ps < length (spelled ps ++ 0 ∷ rest)
length-spelled [] rest h = omega arith
length-spelled (p ∷ ps) rest (_, some_bytes, _, _, h) =
    let later = replicate (p.1) b'/' ++ spelled ps in
    omega (
      arith,
      some_bytes,
      length-spelled ps rest h,
      length-append (p.0 ++ later) (0 ∷ rest),
      length-append (p.0) later,
      length-append (replicate (p.1) b'/') (spelled ps),
      length-append (spelled ps) (0 ∷ rest),
    )

module _ (read_sectors : ℕ → ℕ → Option (List ℕ)) (info : Fat32Info) where
  -- One lookup after the other, from a directory on.
  abbrev pub walk : VfsNode → List Part → Option (Option VfsNode)
  walk node [] = some (some node)
  walk node (p ∷ ps) = do
    f ← fat32_lookup read_sectors info node (p.0 ++ 0 ∷ [])
    elim f [ none ↦ some none | some f ↦ walk f.node ps ]

  open_from-walk :
      (fuel : ℕ) (node : VfsNode) (ps : List Part) (rest : List ℕ)
      → IsPath ps
      → length ps < fuel
      → open_from read_sectors info fuel node (spelled ps ++ 0 ∷ rest) ≡ walk node ps
  unfolding open_from
  open_from-walk zero node ps rest h enough = absurd (omega arith)
  open_from-walk (suc fuel) node [] rest h enough = refl
  open_from-walk (suc fuel) node (([], n) ∷ ps) rest h enough = absurd (omega (arith, h.1))
  open_from-walk (suc fuel) node ((c ∷ s, n) ∷ ps) rest (hs, some_bytes, short, divided, hp)
        enough =
      let gap = replicate n b'/' in
      let more : (c == 0) ≡ false = ground arith in
      let fits : ltb (length (c ∷ s)) 256 ≡ true = ground arith in
      let cut : split_segment (c ∷ ((s ++ (gap ++ spelled ps)) ++ 0 ∷ rest))
          ≡ some (c ∷ s, gap ++ (spelled ps ++ 0 ∷ rest)) =
        ap split_segment (
          append_assoc (c ∷ s) (gap ++ spelled ps) (0 ∷ rest)
          ∙ ap (λ t. (c ∷ s) ++ t) (append_assoc gap (spelled ps) (0 ∷ rest)))
        ∙ split_segment-part (c ∷ s) n ps rest hs divided in
      rw (more, cut, skip_slashes-part n ps rest hp, fits)
        (ap (λ k. fat32_lookup read_sectors info node ((c ∷ s) ++ 0 ∷ []) >>= k)
          (fun_ext (next (λ f. open_from-walk fuel f.node ps rest hp (omega arith)))))
    where
      next :
          ((f : Found)
            → open_from read_sectors info fuel f.node (spelled ps ++ 0 ∷ rest) ≡ walk f.node ps)
          → (f : Option Found)
          → elim f [
            | none ↦ some none
            | some f ↦ open_from read_sectors info fuel f.node (spelled ps ++ 0 ∷ rest)
          ]
            ≡ elim f [ none ↦ some none | some f ↦ walk f.node ps ]
      next ih none = refl
      next ih (some f) = ih f

  -- Fat32Open ends on every path whose segments fit the buffer, and looks one segment up after the
  -- other, each in the directory found before, from the root if the path begins with a slash.
  pub fat32_open-walk :
      (vfs_root cwd : VfsNode) (m : ℕ) (ps : List Part) (rest : List ℕ)
      → IsPath ps
      → fat32_open read_sectors info vfs_root cwd (replicate m b'/' ++ (spelled ps ++ 0 ∷ rest))
        ≡ walk (if m == 0 then cwd else vfs_root) ps
  unfolding fat32_open
  fat32_open-walk vfs_root cwd zero ps rest h =
      let b = spelled-Begun ps rest h in
      let apart : (b.head == b'/') ≡ false = let other = b.no_slash in ground arith in
      let relative : (get_or (spelled ps ++ 0 ∷ rest) 0 0 == b'/') ≡ false = rw b.shape apart in
      rw relative
        (open_from-walk (length (spelled ps ++ 0 ∷ rest)) cwd ps rest h (length-spelled ps rest h))
  fat32_open-walk vfs_root cwd (suc m) ps rest h =
      let absolute : (suc m == 0) ≡ false = ground arith in
      rw (skip_slashes-part (suc m) ps rest h, absolute)
        (open_from-walk (length (spelled ps ++ 0 ∷ rest)) vfs_root ps rest h
          (length-spelled ps rest h))
