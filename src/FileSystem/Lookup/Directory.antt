-- ===== src/FileSystem/Lookup/Directory.antt =====
-- Fat32Lookup on what a directory lists.
use unos_kernel.Prelude.{
  ℕ, ◌+◌, ◌*◌, ◌^◌, ◌<◌, ◌≡◌, refl, sym, bit_and, get_or, ◌∙◌, ap, ap₂, inl, inr, Bool, true, false,
  Option, none, some, List, [], ◌∷◌, ◌++◌, ltb, ◌==◌, if◌then◌else◌, ◌>>=◌, Bool-cases, arith,
  length, replicate, drop,
}
use unos_kernel.Prelude.Slices.{get_or-drop}
use unos_kernel.Prelude.Int.{ℤ, is_zero}
use unos_kernel.Strings.{strcasecmp}
use unos_kernel.Strings.Compare.{NoNul}
use unos_kernel.Strings.Letters.{same_letters, strcasecmp-same_letters}
use unos_kernel.Strings.Move.{strcpy-append, strcpy-overflow}
use unos_kernel.FileSystem.{VfsNode}
use unos_kernel.FileSystem.Lookup.{
  order, attr, bad_seq, candidate, node_of, Found, found, lookup_entries,
}

pub record File : Type 0 where
  pub text : List ℕ
  pub node : VfsNode

-- What a directory entry says of a file: the attributes in byte 11, of which bit 4 marks a directory,
-- the two halves of the first cluster in the bytes 26 and 20, and the size in the bytes from 28 on.
pub record IsNode (e : List ℕ) (n : VfsNode) : Type 0 where
  pub type : n.type ≡ (if bit_and (get_or e 11 0) 0x10 == 0 then 1 else 2)
  pub first_cluster :
      n.first_cluster
      ≡ get_or e 26 0 + get_or e 27 0 * 2 ^ 8 + get_or e 20 0 * 2 ^ 16 + get_or e 21 0 * 2 ^ 24
  pub size : n.size ≡ (
      if bit_and (get_or e 11 0) 0x10 == 0
      then get_or e 28 0 + get_or e 29 0 * 2 ^ 8 + get_or e 30 0 * 2 ^ 16 + get_or e 31 0 * 2 ^ 24
      else 0)

pub IsNode-node_of : (e : List ℕ) → IsNode e (node_of e)
IsNode-node_of e = elim (Bool-cases (bit_and (get_or e 11 0) 0x10 == 0)) [
  | inl plain ↦ rw plain (record {
    type = rw plain refl;
    first_cluster = omega arith;
    size =
        rw (plain, get_or-drop 28 0 e, get_or-drop 28 1 e, get_or-drop 28 2 e, get_or-drop 28 3 e)
          refl;
  })
  | inr dir ↦
      rw dir (record { type = rw dir refl; first_cluster = omega arith; size = rw dir refl })
]

node_of-IsNode : (e : List ℕ) (n : VfsNode) → IsNode e n → node_of e ≡ n
node_of-IsNode e n h =
    let all = IsNode-node_of e in
    ap₂ (λ a b. record { type = a; first_cluster = b; size = (node_of e).size })
      (all.type ∙ sym h.type) (all.first_cluster ∙ sym h.first_cluster)
    ∙ ap (λ c. record n { size = c }) (all.size ∙ sym h.size)

-- The entry of a file, behind the pieces of its long name.
pub record IsStored (lfns : List (List ℕ)) (e : List ℕ) (f : File) : Type 0 where
  pub used : (order e == 0) ≡ false
  pub kept : (order e == 0xE5) ≡ false
  pub short : (attr e == 0x0F) ≡ false
  pub text : NoNul f.text
  pub tail : List ℕ
  pub spelt : candidate lfns e ≡ f.text ++ 0 ∷ tail
  pub node : IsNode e f.node

-- The files that entries list, behind the pieces `lfns`.
pub data Listing : List File → List (List ℕ) → List (List ℕ) → Type 0 where
  full : (lfns : List (List ℕ)) → Listing [] lfns []
  end :
      (lfns : List (List ℕ)) (e : List ℕ) (es : List (List ℕ))
      → (order e == 0) ≡ true
      → Listing [] lfns (e ∷ es)
  deleted :
      (fs : List File) (lfns : List (List ℕ)) (e : List ℕ) (es : List (List ℕ))
      → (order e == 0xE5) ≡ true
      → Listing fs lfns es
      → Listing fs lfns (e ∷ es)
  piece :
      (fs : List File) (lfns : List (List ℕ)) (e : List ℕ) (es : List (List ℕ))
      → (order e == 0) ≡ false
      → (order e == 0xE5) ≡ false
      → (attr e == 0x0F) ≡ true
      → bad_seq e ≡ false
      → length lfns < 20
      → Listing fs (lfns ++ e ∷ []) es
      → Listing fs lfns (e ∷ es)
  file :
      (f : File) (fs : List File) (lfns : List (List ℕ)) (e : List ℕ) (es : List (List ℕ))
      → IsStored lfns e f
      → Listing fs [] es
      → Listing (f ∷ fs) lfns (e ∷ es)

-- The first file whose name has the same letters; a name of 16 bytes and more has no room.
abbrev pub find : List File → List ℕ → Option (Option Found)
find [] name = some none
find (f ∷ fs) name =
    if same_letters f.text name
    then (if ltb (length f.text) 16
        then some (
            some (record {
              name = f.text ++ 0 ∷ drop (length f.text + 1) (replicate 16 0);
              node = f.node;
            }))
        else none)
    else find fs name

found_lem :
    (lfns : List (List ℕ)) (e : List ℕ) (f : File)
    → IsStored lfns e f
    → (do x ← found (candidate lfns e) e; some (some x)) ≡ (
        if ltb (length f.text) 16
        then some (
            some (record {
              name = f.text ++ 0 ∷ drop (length f.text + 1) (replicate 16 0);
              node = f.node;
            }))
        else none)
found_lem lfns e f h = elim (Bool-cases (ltb (length f.text) 16)) [
  | inl fits ↦
      rw (fits, h.spelt, strcpy-append (replicate 16 0) f.text h.tail h.text (ground arith))
        (ap
          (λ n. some (
            some (record {
              name = f.text ++ 0 ∷ drop (length f.text + 1) (replicate 16 0);
              node = n;
            })))
          (node_of-IsNode e f.node h.node))
  | inr long ↦
      rw (long, h.spelt, strcpy-overflow (replicate 16 0) f.text h.tail h.text (ground arith)) refl
]

if_zero :
    {A : Type 0} (o : Option ℤ) (b : Bool)
    → (do d ← o; some (is_zero d)) ≡ some b
    → (x y : Option A) → (do d ← o; if is_zero d then x else y) ≡ (if b then x else y)
if_zero none b e x y = absurd (ground arith)
if_zero (some d) b e x y = let same : is_zero d ≡ b = ground arith in rw same refl

-- In a directory that lists files, the search for a name ends and finds the first file whose name
-- has the same letters, whatever their case; it is undefined if that name has 16 bytes or more.
pub lookup_entries-find :
    (fs : List File) (lfns es : List (List ℕ)) (name rest : List ℕ)
    → Listing fs lfns es
    → NoNul name
    → lookup_entries es lfns (name ++ 0 ∷ rest) ≡ find fs name
unfolding lookup_entries
lookup_entries-find fs lfns es name rest (Listing.full _) h = refl
lookup_entries-find fs lfns es name rest (Listing.end _ e es' stop) h = rw stop refl
lookup_entries-find fs lfns es name rest (Listing.deleted _ _ e es' d l) h =
    let used : (order e == 0) ≡ false = ground arith in
    rw (used, d) (lookup_entries-find fs lfns es' name rest l h)
lookup_entries-find fs lfns es name rest (Listing.piece _ _ e es' a b c d room l) h =
    let free : ltb (length lfns) 20 ≡ true = ground arith in
    rw (a, b, c, d, free) (lookup_entries-find fs (lfns ++ e ∷ []) es' name rest l h)
lookup_entries-find fs lfns es name rest (Listing.file f fs' _ e es' stored l) h =
    rw (stored.used, stored.kept, stored.short)
      (if_zero (strcasecmp (candidate lfns e) (name ++ 0 ∷ rest)) (same_letters f.text name) test
          (do x ← found (candidate lfns e) e; some (some x))
          (lookup_entries es' [] (name ++ 0 ∷ rest))
        ∙ ap₂ (λ x y. if same_letters f.text name then x else y) (found_lem lfns e f stored)
            (lookup_entries-find fs' [] es' name rest l h))
  where
    test :
        (do d ← strcasecmp (candidate lfns e) (name ++ 0 ∷ rest); some (is_zero d))
        ≡ some (same_letters f.text name)
    test = rw stored.spelt (strcasecmp-same_letters f.text name stored.tail rest stored.text h)
