-- ===== src/FileSystem/Lookup.antt =====
-- fs/vfs.c: Fat32Lookup and Fat32Open. A directory is what is in its first cluster: entries of 32
-- bytes, of which those with the attribute 0x0F hold a piece of a long name.
pub mod Directory
pub mod LongName
pub mod Path
use unos_kernel.Prelude.{
  ℕ, zero, suc, ◌+◌, ◌-◌, ◌*◌, ◌/◌, ◌%◌, ◌^◌, Bool, true, false, not, ◌&&◌, ◌||◌, Option, none,
  some, List, [], ◌∷◌, ◌++◌, ltb, leb, ◌==◌, if◌then◌else◌, ◌>>=◌, bit_and, get_or, set, take, drop,
  length, replicate,
}
use unos_kernel.Prelude.Int.{ℤ, is_zero}
use unos_kernel.Strings.{strcasecmp, strcpy}
use unos_kernel.FileSystem.{Fat32Info, VfsNode, vfs_type_file, word_at, sector_of}

-- VFS_TYPE_DIR
abbrev pub vfs_type_dir : ℕ
vfs_type_dir = 2

-- The fields of a DirEntry and of an LFNEntry.
abbrev pub half_at : List ℕ → ℕ → ℕ
half_at e i = get_or e i 0 + get_or e (i + 1) 0 * 2 ^ 8

abbrev pub attr : List ℕ → ℕ
attr e = get_or e 11 0

abbrev pub order : List ℕ → ℕ
order e = get_or e 0 0

unfoldable pub units : ℕ → List ℕ → List ℕ
units zero e = []
units (suc n) e = half_at e 0 ∷ units n (drop 2 e)

abbrev pub name1 : List ℕ → List ℕ
name1 e = units 5 (drop 1 e)

abbrev pub name2 : List ℕ → List ℕ
name2 e = units 6 (drop 14 e)

abbrev pub name3 : List ℕ → List ℕ
name3 e = units 2 (drop 28 e)

abbrev pub seq : List ℕ → ℕ
seq e = bit_and (order e) 0x1F

abbrev pub bad_seq : List ℕ → Bool
bad_seq e = seq e == 0 || ltb 20 (seq e)

-- One of the three loops over the units of a piece; `lfn_buf` has 256 bytes.
pub copy_units : List ℕ → ℕ × List ℕ → ℕ × List ℕ
copy_units [] (idx, buf) = (idx, buf)
copy_units (c ∷ us) (idx, buf) =
    let rest = copy_units us (idx + 1, set buf idx (c % 2 ^ 8)) in
    if ltb idx 255 && not (c == 0 || c == 0xFFFF) then rest else (idx, buf)

-- The round for one piece: last_idx and lfn_buf.
pub place : List ℕ → ℕ × List ℕ → ℕ × List ℕ
place lfn (last_idx, buf) =
    let base = (seq lfn - 1) * 13 in
    let (idx, buf') =
      copy_units (name3 lfn) (copy_units (name2 lfn) (copy_units (name1 lfn) (base, buf))) in
    if bad_seq lfn || leb 256 base
    then (last_idx, buf)
    else (if ltb last_idx idx then idx else last_idx, buf')

abbrev pub place_all : List (List ℕ) → ℕ × List ℕ → ℕ × List ℕ
place_all [] s = s
place_all (lfn ∷ lfns) s = place_all lfns (place lfn s)

abbrev pub long_name : List (List ℕ) → List ℕ
long_name lfns =
    let (last_idx, buf) = place_all lfns (0, replicate 256 0) in
    set buf (if ltb last_idx 256 then last_idx else 255) 0

abbrev pub until_space : List ℕ → List ℕ
until_space [] = []
until_space (c ∷ s) = if c == b' ' then [] else c ∷ until_space s

-- What is written of `short_name`.
abbrev pub short_name : List ℕ → List ℕ
short_name e =
    until_space (take 8 e)
    ++ (if get_or e 8 0 == b' ' then [] else b'.' ∷ until_space (take 3 (drop 8 e)))
    ++ 0 ∷ []

abbrev pub candidate : List (List ℕ) → List ℕ → List ℕ
candidate [] e = short_name e
candidate (lfn ∷ lfns) e = long_name (lfn ∷ lfns)

-- The new node's name and the fields that Fat32Read uses.
pub record Found : Type 0 where
  pub name : List ℕ
  pub node : VfsNode

abbrev pub is_dir : List ℕ → Bool
is_dir e = not (bit_and (attr e) 0x10 == 0)

abbrev pub node_of : List ℕ → VfsNode
node_of e = record {
  type = if is_dir e then vfs_type_dir else vfs_type_file;
  first_cluster = half_at e 20 * 2 ^ 16 + half_at e 26;
  size = if is_dir e then 0 else word_at (drop 28 e) 0;
}

-- `node->name` has 16 bytes.
abbrev pub found : List ℕ → List ℕ → Option Found
found candidate e = do
  name ← strcpy (replicate 16 0) candidate
  some (record { name = name; node = node_of e })

-- The loop over the entries, with the pieces `lfns` collected; the inner `none` is NULL.
pub lookup_entries : List (List ℕ) → List (List ℕ) → List ℕ → Option (Option Found)
unfolding place
lookup_entries [] lfns name = some none
lookup_entries (e ∷ es) lfns name =
    let skip = lookup_entries es lfns name in
    let collect = lookup_entries es (lfns ++ e ∷ []) name in
    let fresh = lookup_entries es [] name in
    if order e == 0
    then some none
    else if order e == 0xE5
    then skip
    else if attr e == 0x0F
    then (if bad_seq e then skip else if ltb (length lfns) 20 then collect else skip)
    else (do
      d ← strcasecmp (candidate lfns e) name
      if is_zero d then (do f ← found (candidate lfns e) e; some (some f)) else fresh)

abbrev pub entries : ℕ → List ℕ → List (List ℕ)
entries zero buffer = []
entries (suc n) buffer = take 32 buffer ∷ entries n (drop 32 buffer)

-- The copy of a segment, and what follows it; `seg` has 256 bytes.
pub split_segment : List ℕ → Option (List ℕ × List ℕ)
split_segment [] = none
split_segment (c ∷ path) =
    if c == 0 || c == b'/'
    then some ([], c ∷ path)
    else (do (seg, rest) ← split_segment path; some (c ∷ seg, rest))

pub skip_slashes : List ℕ → Option (List ℕ)
skip_slashes [] = none
skip_slashes (c ∷ path) =
    let rest = skip_slashes path in if c == b'/' then rest else some (c ∷ path)

module _ (read_sectors : ℕ → ℕ → Option (List ℕ)) (info : Fat32Info) where
  pub fat32_lookup : VfsNode → List ℕ → Option (Option Found)
  unfolding lookup_entries
  fat32_lookup dir name =
      let read_size = info.bytes_per_sector * info.sectors_per_cluster % 2 ^ 32 in
      if ltb dir.first_cluster 2
      then some none
      else elim (read_sectors (sector_of read_sectors info dir.first_cluster)
          info.sectors_per_cluster) [
            | none ↦ some none
            | some buffer ↦ lookup_entries (entries (read_size / 32) buffer) [] name
          ]

  -- The loop of Fat32Open; `fuel` is at least the length of the path's object.
  pub open_from : ℕ → VfsNode → List ℕ → Option (Option VfsNode)
  open_from zero node path = none
  open_from (suc fuel) node [] = none
  open_from (suc fuel) node (c ∷ path) = if c == 0 then some (some node) else (do
    (seg, rest) ← split_segment (c ∷ path)
    rest ← skip_slashes rest
    f ← (if ltb (length seg) 256 then fat32_lookup node (seg ++ 0 ∷ []) else none)
    elim f [ none ↦ some none | some f ↦ open_from fuel f.node rest ])

  pub fat32_open : VfsNode → VfsNode → List ℕ → Option (Option VfsNode)
  fat32_open vfs_root cwd path =
      if get_or path 0 0 == b'/'
      then (do path ← skip_slashes path; open_from (length path) vfs_root path)
      else open_from (length path) cwd path
