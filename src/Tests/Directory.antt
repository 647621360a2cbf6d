-- ===== src/Tests/Directory.antt =====
-- Fat32Lookup and Fat32Open of fs/vfs.c at small inputs.
use unos_kernel.Prelude.{
  ℕ, ◌+◌, ◌-◌, ◌*◌, ◌%◌, ◌^◌, ◌≡◌, refl, Option, none, some, List, [], ◌∷◌, ◌++◌, map, arith,
  replicate, ◌==◌, if◌then◌else◌,
}
use unos_kernel.Prelude.Text.{codes}
use unos_kernel.FileSystem.{Fat32Info, VfsNode}
use unos_kernel.FileSystem.Lookup.{units, long_name, lookup_entries, fat32_open}
use unos_kernel.FileSystem.Lookup.Directory.{
  File, IsStored, Listing, end, deleted, piece, file, find, lookup_entries-find, IsNode-node_of,
}
use unos_kernel.FileSystem.Lookup.LongName.{IsPiece, none, long_name-Pieces}
use unos_kernel.FileSystem.Lookup.Path.{Part, spelled, walk, fat32_open-walk}

-- The only piece of the name "hi".
abbrev hi : List ℕ
hi =
    0x41
      ∷ b'h'
      ∷ 0
      ∷ b'i'
      ∷ 0
      ∷ 0
      ∷ 0
      ∷ 0xFF
      ∷ 0xFF
      ∷ 0xFF
      ∷ 0xFF
      ∷ 0x0F
      ∷ 0
      ∷ 0
      ∷ replicate 12 0xFF
    ++ (0 ∷ 0 ∷ replicate 4 0xFF)

-- Its entry: a file of 5 bytes from cluster 7 on.
abbrev entry : List ℕ
entry = codes "HI      TXT" ++ (0x20 ∷ replicate 14 0 ++ (7 ∷ 0 ∷ 5 ∷ 0 ∷ 0 ∷ 0 ∷ []))

abbrev hi_file : File
hi_file = record { text = codes "hi"; node = record { type = 1; first_cluster = 7; size = 5 } }

hi-IsPiece : IsPiece 0 (codes "hi") hi
unfolding units
hi-IsPiece = record {
  number = refl;
  pad1 = 0 ∷ 0xFFFF ∷ 0xFFFF ∷ [];
  pad2 = replicate 6 0xFFFF;
  pad3 = replicate 2 0xFFFF;
  first = refl;
  second = refl;
  third = refl;
  stop1 = refl;
  stop2 = refl;
  stop3 = refl;
}

long_name-Pieces_example :
    long_name (hi ∷ [])
    ≡ map (λ c. c % 2 ^ 8) ([] ++ codes "hi") ++ 0 ∷ replicate (255 - (0 * 13 + 2)) 0
long_name-Pieces_example =
    long_name-Pieces 0 [] (codes "hi") hi [] none hi-IsPiece (refl, (refl, tt)) (omega arith)
      (omega arith) (omega arith)

hi-IsStored : IsStored (hi ∷ []) entry hi_file
hi-IsStored = record {
  used = refl;
  kept = refl;
  short = refl;
  text = ((λ e. ground arith), ((λ e. ground arith), tt));
  tail = replicate 253 0;
  spelt = long_name-Pieces_example;
  node = IsNode-node_of entry;
}

-- A deleted entry, the file, and the end.
abbrev directory : List (List ℕ)
directory = replicate 32 0xE5 ∷ hi ∷ entry ∷ replicate 32 0 ∷ []

directory-Listing : Listing (hi_file ∷ []) [] directory
directory-Listing =
    deleted (hi_file ∷ []) [] (replicate 32 0xE5) (hi ∷ entry ∷ replicate 32 0 ∷ []) refl (
      piece (hi_file ∷ []) [] hi (entry ∷ replicate 32 0 ∷ []) refl refl refl refl (omega arith) (
        file hi_file [] (hi ∷ []) entry (replicate 32 0 ∷ []) hi-IsStored
          (end [] (replicate 32 0) [] refl)))

lookup_entries-find_example :
    lookup_entries directory [] (codes "Hi" ++ 0 ∷ []) ≡ find (hi_file ∷ []) (codes "Hi")
lookup_entries-find_example =
    lookup_entries-find (hi_file ∷ []) [] directory (codes "Hi") [] directory-Listing
      ((λ e. ground arith), ((λ e. ground arith), tt))

found_node :
    find (hi_file ∷ []) (codes "Hi")
    ≡ some (some (record { name = codes "hi" ++ replicate 14 0; node = hi_file.node }))
found_node = refl

abbrev info : Fat32Info
info = record {
  bytes_per_sector = 512;
  sectors_per_cluster = 1;
  fat_start_sector = 100;
  first_data_sector = 200;
  fat_size_32 = 1;
}

abbrev root : VfsNode
root = record { type = 2; first_cluster = 2; size = 0 }

-- The directory "a" is listed in itself.
abbrev reads : ℕ → ℕ → Option (List ℕ)
reads s n = some (
    codes "A          "
    ++ (0x10 ∷ replicate 14 0 ++ (2 ∷ 0 ∷ 0 ∷ 0 ∷ 0 ∷ 0 ∷ []))
    ++ replicate 480 0)

abbrev parts : List Part
parts = (codes "a", 2) ∷ (codes "a", 0) ∷ []

fat32_open-walk_example :
    fat32_open reads info root root (replicate 1 b'/' ++ (spelled parts ++ 0 ∷ []))
    ≡ walk reads info (if 1 == 0 then root else root) parts
fat32_open-walk_example = fat32_open-walk reads info root root 1 parts [] (
  (refl, tt),
  omega arith,
  omega arith,
  omega arith,
  ((refl, tt), omega arith, omega arith, tt, tt),
)
