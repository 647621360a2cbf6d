-- ===== src/FileSystem/Write/Create.antt =====
-- Fat32CreateFile: the name that it stores, and a directory without room.
use mathlib.Core.List.{append_assoc}
use unos_kernel.Prelude.{
  ℕ, zero, suc, ◌+◌, ◌-◌, ◌/◌, ◌%◌, ◌^◌, ◌<◌, ◌≤◌, ◌≡◌, ◌≢◌, refl, sym, ◌∙◌, ap, Bool, true, false,
  not, ◌&&◌, ◌||◌, none, some, List, [], ◌∷◌, ◌++◌, map, arith, length, length-append, length-map,
  length-replicate, take, drop, get_or, replicate, ltb, ◌==◌, if◌then◌else◌,
}
use unos_kernel.Prelude.Slices.{drop-replicate, take-append, take_all}
use unos_kernel.Strings.{toupper}
use unos_kernel.Strings.Compare.{NoNul}
use unos_kernel.Strings.Letters.{same_letters}
use unos_kernel.FileSystem.Lookup.{order, attr, until_space, node_of, Found, lookup_entries}
use unos_kernel.FileSystem.Lookup.Directory.{
  File, IsStored, Listing, full, file, lookup_entries-find, IsNode-node_of,
}
use unos_kernel.FileSystem.Write.{base_chars, ext_chars, name83, new_entry, half_bytes, word_bytes}

-- A byte of a file name proper.
abbrev pub in_name : ℕ → Bool
in_name c = not (c == 0 || c == b'.' || c == b' ')

abbrev pub AllInName : List ℕ → Type 0
AllInName [] = Unit
AllInName (c ∷ s) = (in_name c ≡ true) × AllInName s

base_chars-name :
    (left : ℕ) (b rest : List ℕ)
    → AllInName b
    → length b ≤ left
    → base_chars left (b ++ b'.' ∷ rest) ≡ some (map toupper b, b'.' ∷ rest)
unfolding base_chars
base_chars-name zero [] rest h few = refl
base_chars-name (suc left) [] rest h few = refl
base_chars-name zero (c ∷ b) rest h few = absurd (omega arith)
base_chars-name (suc left) (c ∷ b) rest (hc, h) few =
    let test : (c == 0 || c == b'.') ≡ false = ground arith in
    rw (test, base_chars-name left b rest h (omega arith)) refl

ext_chars-name :
    (left : ℕ) (x rest : List ℕ)
    → AllInName x
    → length x ≤ left
    → ext_chars left (x ++ 0 ∷ rest) ≡ some (map toupper x)
unfolding ext_chars
ext_chars-name zero [] rest h few = refl
ext_chars-name (suc left) [] rest h few = refl
ext_chars-name zero (c ∷ x) rest h few = absurd (omega arith)
ext_chars-name (suc left) (c ∷ x) rest (hc, h) few =
    let test : (c == 0) ≡ false = ground arith in
    rw (test, ext_chars-name left x rest h (omega arith)) refl

toupper-in_name : (c : ℕ) → in_name c ≡ true → (toupper c == b' ') ≡ false
unfolding toupper
toupper-in_name c h = ground arith

same_letters-longer : (s t : List ℕ) → length s < length t → same_letters s t ≡ false
same_letters-longer [] [] h = absurd (omega arith)
same_letters-longer [] (b ∷ t) h = refl
same_letters-longer (a ∷ s) [] h = refl
same_letters-longer (a ∷ s) (b ∷ t) h =
    let rest = same_letters-longer s t (omega arith) in ground arith

get_or-append : (s t : List ℕ) (c : ℕ) → get_or (s ++ c ∷ t) (length s) 0 ≡ c
get_or-append [] t c = refl
get_or-append (x ∷ s) t c = get_or-append s t c

abbrev no_space : List ℕ → Bool
no_space [] = true
no_space (c ∷ s) = not (c == b' ') && no_space s

until_space-no_space : (s : List ℕ) → no_space s ≡ true → until_space s ≡ s
until_space-no_space [] h = refl
until_space-no_space (c ∷ s) h =
    let test : (c == b' ') ≡ false = ground arith in
    rw (test, until_space-no_space s (ground arith)) refl

no_space-zeros :
    (s : List ℕ) (n : ℕ) → AllInName s → no_space (map toupper s ++ replicate n 0) ≡ true
no_space-zeros [] zero h = refl
no_space-zeros [] (suc n) h = no_space-zeros [] n h
no_space-zeros (c ∷ s) n (hc, h) = rw (toupper-in_name c hc, no_space-zeros s n h) refl

padding : (n : ℕ) → 0 < n → n < 8 → drop {A = ℕ} n (b' ' ∷ replicate 7 0) ≡ 0 ∷ replicate (7 - n) 0
padding zero h l = absurd (omega arith)
padding (suc n) h l =
    drop-replicate {A = ℕ} n 7 0
    ∙ ap (λ m. replicate {A = ℕ} m 0) {x = 7 - n} {y = suc (7 - suc n)} (omega arith)

same_letters-toupper : (s : List ℕ) → same_letters (map toupper s) s ≡ true
unfolding toupper
same_letters-toupper [] = refl
same_letters-toupper (c ∷ s) = let rest = same_letters-toupper s in ground arith

AllInName-NoNul : (s : List ℕ) → AllInName s → NoNul s
AllInName-NoNul [] h = tt
AllInName-NoNul (c ∷ s) (hc, h) = ((λ e. ground arith), AllInName-NoNul s h)

NoNul-append : (s t : List ℕ) → NoNul s → NoNul t → NoNul (s ++ t)
NoNul-append [] t h k = k
NoNul-append (c ∷ s) t (hc, h) k = (hc, NoNul-append s t h k)

upper-first :
    (b rest : List ℕ) → 0 < length b → get_or (map toupper b ++ rest) 0 0 ≡ toupper (get_or b 0 0)
upper-first [] rest h = absurd (omega arith)
upper-first (c ∷ b) rest h = refl

in_name-first : (b : List ℕ) → AllInName b → 0 < length b → in_name (get_or b 0 0) ≡ true
in_name-first [] h l = absurd (omega arith)
in_name-first (c ∷ b) (hc, h) l = hc

toupper-kept :
    (c : ℕ)
    → in_name c ≡ true
    → c ≢ 0xE5
    → ((toupper c == 0) ≡ false) × ((toupper c == 0xE5) ≡ false)
unfolding toupper
toupper-kept c h e = (ground arith, ground arith)

toupper-ne : (c : ℕ) → in_name c ≡ true → toupper c ≢ 0
unfolding toupper
toupper-ne c h e = ground arith

NoNul-toupper : (s : List ℕ) → AllInName s → NoNul (map toupper s)
NoNul-toupper [] h = tt
NoNul-toupper (c ∷ s) (hc, h) = (toupper-ne c hc, NoNul-toupper s h)

-- A name of a base and an extension, of which the base is shorter than eight bytes.
pub record IsShortName (b x : List ℕ) : Type 0 where
  pub base : AllInName b
  pub extension : AllInName x
  pub some_bytes : 0 < length b
  pub short : length b < 8
  pub three : length x ≤ 3
  -- No mark of a deleted entry.
  pub used : get_or b 0 0 ≢ 0xE5

-- The stored name: zeros follow the base.
module _ (b x : List ℕ) (h : IsShortName b x) where
  abbrev upper : List ℕ
  upper = map toupper b

  abbrev stored_base : List ℕ
  stored_base = upper ++ (0 ∷ replicate (7 - length b) 0)

  abbrev stored_name : List ℕ
  stored_name = stored_base ++ map toupper x ++ replicate (3 - length x) 0

  name83-stored_name : (rest : List ℕ) → name83 (b ++ b'.' ∷ (x ++ 0 ∷ rest)) ≡ some stored_name
  unfolding name83
  name83-stored_name rest =
      rw
        (
          base_chars-name 8 b (x ++ 0 ∷ rest) h.base (omega (arith, h.short)),
          ext_chars-name 3 x rest h.extension h.three,
          length-map b toupper,
          length-map x toupper,
          padding (length b) h.some_bytes h.short,
        )
        refl

  length-stored_base : length stored_base ≡ 8
  length-stored_base = omega (
    arith,
    h.short,
    length-append upper (0 ∷ replicate (7 - length b) 0),
    length-map b toupper,
    length-replicate {A = ℕ} (7 - length b) 0,
  )

  length-stored_name : length stored_name ≡ 11
  length-stored_name = omega (
    arith,
    length-stored_base,
    h.three,
    length-append (stored_base ++ map toupper x) (replicate (3 - length x) 0),
    length-append stored_base (map toupper x),
    length-map x toupper,
    length-replicate {A = ℕ} (3 - length x) 0,
  )

  module _ (cluster size : ℕ) where
    abbrev created : List ℕ
    created = new_entry stored_name cluster size

    abbrev created_file : File
    created_file = record { text = upper; node = node_of created }

    created-IsStored : IsStored [] created created_file
    created-IsStored =
        let zeros : List ℕ = replicate (7 - length b) 0 in
        let x' = map toupper x in
        let q : List ℕ = replicate (3 - length x) 0 in
        let fields = drop 11 created in
        let entry =
          0x20
          ∷ (replicate 8 0
              ++ half_bytes (cluster / 2 ^ 16 % 2 ^ 16)
              ++ replicate 4 0
              ++ half_bytes (cluster % 2 ^ 16)
              ++ word_bytes size) in
        let behind = x' ++ (q ++ entry) in
        let shape : created ≡ stored_base ++ behind =
          append_assoc (stored_base ++ x') q entry ∙ append_assoc stored_base x' (q ++ entry) in
        let first : order created ≡ toupper (get_or b 0 0) =
          ap (λ s. get_or s 0 0) (shape ∙ append_assoc upper (0 ∷ zeros) behind)
          ∙ upper-first b ((0 ∷ zeros) ++ behind) h.some_bytes in
        let marks = toupper-kept (get_or b 0 0) (in_name-first b h.base h.some_bytes) h.used in
        let archive : attr created ≡ 0x20 =
          ap (λ i. get_or created i 0) (sym length-stored_name)
          ∙ get_or-append stored_name (drop 1 entry) 0x20 in
        let eight : take 8 created ≡ stored_base =
          ap (take 8) shape
          ∙ take-append 8 stored_base behind (omega (arith, length-stored_base))
          ∙ take_all 8 stored_base (omega (arith, length-stored_base)) in
        let y =
          if get_or created 8 0 == b' ' then [] else b'.' ∷ until_space (take 3 (drop 8 created)) in
        record {
          used = rw first marks.0;
          kept = rw first marks.1;
          short = rw archive refl;
          text = NoNul-toupper b h.base;
          tail = (zeros ++ y) ++ 0 ∷ [];
          spelt =
              ap (λ t. (until_space t ++ y) ++ 0 ∷ []) eight
              ∙ ap (λ t. (t ++ y) ++ 0 ∷ [])
                  (until_space-no_space stored_base (no_space-zeros b (suc (7 - length b)) h.base))
              ∙ ap (λ t. t ++ 0 ∷ []) (append_assoc upper (0 ∷ zeros) y)
              ∙ append_assoc upper (0 ∷ (zeros ++ y)) (0 ∷ []);
          node = IsNode-node_of created;
        }

    listing : Listing (created_file ∷ []) [] (created ∷ [])
    listing = file created_file [] [] created [] created-IsStored (full [])

    -- Let the base of a name have one to seven bytes and its extension at most three, without a NUL,
    -- dot or space in either, and the first byte not be 0xE5. The file that Fat32CreateFile enters
    -- under base, dot and extension is not found by Fat32Lookup under that name in a directory that
    -- holds only this entry; it is found under its base alone.
    pub lookup_entries-name83 :
        (rest : List ℕ)
        → (name : List ℕ) × (name83 (b ++ b'.' ∷ (x ++ 0 ∷ rest)) ≡ some name)
          × (lookup_entries (new_entry name cluster size ∷ []) [] ((b ++ b'.' ∷ x) ++ 0 ∷ rest)
              ≡ some none)
          × ((f : Found) × (lookup_entries (new_entry name cluster size ∷ []) [] (b ++ 0 ∷ rest)
                ≡ some (some f))
              × (f.node ≡ node_of (new_entry name cluster size)))
    lookup_entries-name83 rest =
        let longer : same_letters upper (b ++ b'.' ∷ x) ≡ false =
          same_letters-longer upper (b ++ b'.' ∷ x)
            (omega (arith, length-map b toupper, length-append b (b'.' ∷ x))) in
        let dotted : NoNul (b ++ b'.' ∷ x) =
          NoNul-append b (b'.' ∷ x) (AllInName-NoNul b h.base)
            ((λ e. ground arith), AllInName-NoNul x h.extension) in
        let fits : ltb (length upper) 16 ≡ true = ground (arith, length-map b toupper, h.short) in
        (
          stored_name,
          name83-stored_name rest,
          lookup_entries-find (created_file ∷ []) [] (created ∷ []) (b ++ b'.' ∷ x) rest listing
                dotted
              ∙ rw longer refl,
          (
            record {
              name = upper ++ 0 ∷ drop (length upper + 1) (replicate 16 0);
              node = node_of created;
            },
            lookup_entries-find (created_file ∷ []) [] (created ∷ []) b rest listing
                  (AllInName-NoNul b h.base)
                ∙ rw (same_letters-toupper b, fits) refl,
            refl,
          ),
        )
