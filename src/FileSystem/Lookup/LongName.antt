-- ===== src/FileSystem/Lookup/LongName.antt =====
-- The long name that Fat32Lookup puts together from its pieces, which stand in the directory from
-- the last one to the first.
use mathlib.Core.List.{append_assoc, map-append}
use unos_kernel.Prelude.{
  ℕ, zero, suc, ◌+◌, ◌-◌, ◌*◌, ◌%◌, ◌^◌, ◌<◌, ◌≤◌, ◌≡◌, refl, sym, ◌∙◌, ap, ap₂, inl, inr, Bool,
  true, false, ◌||◌, List, [], ◌∷◌, ◌++◌, map, ltb, leb, ◌==◌, if◌then◌else◌, Bool-cases, arith,
  length, length-append, length-map, replicate, length-replicate, take, drop, set, length-drop,
  take-append-drop,
}
use unos_kernel.Prelude.Slices.{drop-drop, replicate-append, drop-replicate, take_all}
use unos_kernel.FileSystem.Lookup.{
  seq, name1, name2, name3, copy_units, place, place_all, long_name,
}

abbrev pub is_stop : ℕ → Bool
is_stop c = c == 0 || c == 0xFFFF

abbrev pub NoStop : List ℕ → Type 0
NoStop [] = Unit
NoStop (c ∷ us) = (is_stop c ≡ false) × NoStop us

abbrev pub BeginsWithStop : List ℕ → Type 0
BeginsWithStop [] = Unit
BeginsWithStop (c ∷ us) = is_stop c ≡ true

-- The entry holds the units `us`, the piece `k` of a name counted from 0.
pub record IsPiece (k : ℕ) (us e : List ℕ) : Type 0 where
  pub number : seq e ≡ suc k
  pub pad1 : List ℕ
  pub pad2 : List ℕ
  pub pad3 : List ℕ
  pub first : name1 e ≡ take 5 us ++ pad1
  pub second : name2 e ≡ take 6 (drop 5 us) ++ pad2
  pub third : name3 e ≡ take 2 (drop 11 us) ++ pad3
  pub stop1 : BeginsWithStop pad1
  pub stop2 : BeginsWithStop pad2
  pub stop3 : BeginsWithStop pad3

abbrev low : List ℕ → List ℕ
low = map (λ c. c % 2 ^ 8)

set-append : (xs ys : List ℕ) (y c : ℕ) → set (xs ++ y ∷ ys) (length xs) c ≡ xs ++ c ∷ ys
set-append [] ys y c = refl
set-append (x ∷ xs) ys y c = ap (λ t. x ∷ t) (set-append xs ys y c)

copy_units-append :
    (us st xs ys : List ℕ) (i : ℕ)
    → NoStop us
    → BeginsWithStop st
    → length us ≤ length ys
    → i ≡ length xs
    → i + length us ≤ 255
    → copy_units (us ++ st) (i, xs ++ ys) ≡ (i + length us, xs ++ (low us ++ drop (length us) ys))
unfolding copy_units
copy_units-append [] [] xs ys i h p room e small =
    ap (λ i. (i, xs ++ ys)) {x = i} {y = i + 0} (omega arith)
copy_units-append [] (c ∷ st) xs ys i h p room e small = elim (Bool-cases (ltb i 255)) [
  | inl below ↦ rw (below, p) (ap (λ i. (i, xs ++ ys)) {x = i} {y = i + 0} (omega arith))
  | inr above ↦ rw above (ap (λ i. (i, xs ++ ys)) {x = i} {y = i + 0} (omega arith))
]
copy_units-append (c ∷ us) st xs [] i h p room e small = absurd (omega arith)
copy_units-append (c ∷ us) st xs (y ∷ ys) i (hc, h) p room e small =
    let inside : ltb i 255 ≡ true = ground arith in
    let c' = c % 2 ^ 8 in
    let write : set (xs ++ y ∷ ys) i c' ≡ (xs ++ c' ∷ []) ++ ys =
      rw (e, set-append xs ys y c', append_assoc xs (c' ∷ []) ys) refl in
    let tail = low us ++ drop (length us) ys in
    rw (inside, hc, write)
      (copy_units-append us st (xs ++ c' ∷ []) ys (i + 1) h p (omega arith)
          (omega (arith, length-append xs (c' ∷ []))) (omega arith)
        ∙ ap₂ (λ i t. (i, t)) {x = i + 1 + length us} {y = i + suc (length us)} (omega arith)
            (append_assoc xs (c' ∷ []) tail))

-- The same loop over units of which the first few were copied by the loop before.
copy_units-next :
    (us st vs xs ys : List ℕ) (i : ℕ)
    → NoStop us
    → BeginsWithStop st
    → length vs + length us ≤ length ys
    → i ≡ length xs
    → i + length vs + length us ≤ 255
    → copy_units (us ++ st) (i + length vs, xs ++ (low vs ++ drop (length vs) ys))
      ≡ (i + length (vs ++ us), xs ++ (low (vs ++ us) ++ drop (length (vs ++ us)) ys))
copy_units-next us st vs xs ys i h p room e small =
    let zs = drop (length vs) ys in
    let size : length (low vs) ≡ length vs = length-map vs (λ c. c % 2 ^ 8) in
    ap (λ t. copy_units (us ++ st) (i + length vs, t)) (sym (append_assoc xs (low vs) zs))
    ∙ copy_units-append us st (xs ++ low vs) zs (i + length vs) h p
        (omega (arith, length-drop (length vs) ys)) (omega (arith, length-append xs (low vs), size))
        small
    ∙ ap₂ (λ i t. (i, t)) {x = i + length vs + length us} {y = i + length (vs ++ us)}
        (omega (arith, length-append vs us))
        (append_assoc xs (low vs) (low us ++ drop (length us) zs)
          ∙ ap (λ t. xs ++ t)
              (sym (append_assoc (low vs) (low us) (drop (length us) zs))
                ∙ ap₂ (λ a b. a ++ b) (sym (map-append (λ c. c % 2 ^ 8) vs us))
                    (drop-drop (length us) (length vs) ys
                      ∙ ap (λ n. drop n ys) {x = length vs + length us} {y = length (vs ++ us)}
                          (omega (arith, length-append vs us)))))

NoStop-take : (n : ℕ) (us : List ℕ) → NoStop us → NoStop (take n us)
NoStop-take zero us h = tt
NoStop-take (suc n) [] h = tt
NoStop-take (suc n) (c ∷ us) (a, h) = (a, NoStop-take n us h)

NoStop-drop : (n : ℕ) (us : List ℕ) → NoStop us → NoStop (drop n us)
NoStop-drop zero us h = h
NoStop-drop (suc n) [] h = tt
NoStop-drop (suc n) (c ∷ us) (a, h) = NoStop-drop n us h

take-drop_all :
    (us : List ℕ) → length us ≤ 13 → (take 5 us ++ take 6 (drop 5 us)) ++ take 2 (drop 11 us) ≡ us
take-drop_all us h =
    append_assoc (take 5 us) (take 6 (drop 5 us)) (take 2 (drop 11 us))
    ∙ ap (λ t. take 5 us ++ (take 6 (drop 5 us) ++ t))
        (take_all 2 (drop 11 us) (omega (arith, length-drop 11 us)) ∙ sym (drop-drop 6 5 us))
    ∙ ap (λ t. take 5 us ++ t) (take-append-drop 6 (drop 5 us))
    ∙ take-append-drop 5 us

copy_units-pieces :
    (us pad1 pad2 pad3 xs ys : List ℕ) (i : ℕ)
    → NoStop us
    → BeginsWithStop pad1
    → BeginsWithStop pad2
    → BeginsWithStop pad3
    → length us ≤ 13
    → length us ≤ length ys
    → i ≡ length xs
    → i + length us ≤ 255
    → copy_units
        (take 2 (drop 11 us) ++ pad3)
        (copy_units (take 6 (drop 5 us) ++ pad2) (copy_units (take 5 us ++ pad1) (i, xs ++ ys)))
      ≡ (i + length us, xs ++ (low us ++ drop (length us) ys))
copy_units-pieces us pad1 pad2 pad3 xs ys i h p1 p2 p3 short room e small =
    let a = take 5 us in
    let b = take 6 (drop 5 us) in
    let c = take 2 (drop 11 us) in
    let total : length a + length b + length c ≡ length us =
      omega
        (arith, length-append (a ++ b) c, length-append a b, ap length (take-drop_all us short)) in
    ap (λ s. copy_units (c ++ pad3) (copy_units (b ++ pad2) s))
      (copy_units-append a pad1 xs ys i (NoStop-take 5 us h) p1 (omega (arith, total)) e
        (omega (arith, total)))
    ∙ ap (copy_units (c ++ pad3)) (
        copy_units-next b pad2 a xs ys i (NoStop-take 6 (drop 5 us) (NoStop-drop 5 us h)) p2
          (omega (arith, total)) e (omega (arith, total)))
    ∙ copy_units-next c pad3 (a ++ b) xs ys i (NoStop-take 2 (drop 11 us) (NoStop-drop 11 us h)) p3
        (omega (arith, total, length-append a b)) e (omega (arith, total, length-append a b))
    ∙ ap (λ v. (i + length v, xs ++ (low v ++ drop (length v) ys))) (take-drop_all us short)

-- The round for one piece writes its units behind what is left of the name's beginning.
place-IsPiece :
    (k : ℕ) (us e xs ys : List ℕ) (last_idx : ℕ)
    → IsPiece k us e
    → NoStop us
    → length us ≤ 13
    → k < 20
    → length us ≤ length ys
    → length xs ≡ k * 13
    → k * 13 + length us ≤ 255
    → place e (last_idx, xs ++ ys) ≡ (
      if ltb last_idx (k * 13 + length us) then k * 13 + length us else last_idx,
      xs ++ (low us ++ drop (length us) ys),
    )
unfolding place
place-IsPiece k us e xs ys last_idx p h short few room size small =
    let base : (suc k - 1) * 13 ≡ k * 13 = omega arith in
    let good : (suc k == 0 || ltb 20 (suc k)) ≡ false = ground arith in
    let low_base : leb 256 (k * 13) ≡ false = ground arith in
    let run =
      copy_units-pieces us p.pad1 p.pad2 p.pad3 xs ys (k * 13) h p.stop1 p.stop2 p.stop3 short room
        (sym size) small in
    rw (p.first, p.second, p.third, p.number, base, good, low_base, run) refl

-- The entries of whole pieces, from the last one down to the first, and the units they hold.
pub data Pieces : ℕ → List ℕ → List (List ℕ) → Type 0 where
  none : Pieces 0 [] []
  next :
      (k : ℕ) (us vs e : List ℕ) (es : List (List ℕ))
      → Pieces k us es
      → IsPiece k vs e
      → NoStop vs
      → length vs ≡ 13
      → Pieces (suc k) (us ++ vs) (e ∷ es)

place_all-Pieces :
    (k : ℕ) (us : List ℕ) (es : List (List ℕ)) (ys : List ℕ) (last_idx : ℕ)
    → Pieces k us es
    → k * 13 ≤ last_idx
    → k ≤ 19
    → place_all es (last_idx, replicate (k * 13) 0 ++ ys) ≡ (last_idx, low us ++ ys)
place_all-Pieces k us es ys last_idx Pieces.none h few = refl
place_all-Pieces _ _ _ ys last_idx (Pieces.next k us vs e es p piece plain full) h few =
    let zs : List ℕ = replicate (k * 13) 0 in
    let gap : replicate (suc k * 13) 0 ++ ys ≡ zs ++ (replicate 13 0 ++ ys) =
      ap (λ n. replicate n 0 ++ ys) {x = suc k * 13} {y = k * 13 + 13} (omega arith)
      ∙ ap (λ t. t ++ ys) (replicate-append (k * 13) 13 0)
      ∙ append_assoc zs (replicate 13 0) ys in
    let later : ltb last_idx (k * 13 + 13) ≡ false = ground arith in
    ap (λ b. place_all (e ∷ es) (last_idx, b)) gap
    ∙ ap (place_all es) (
        place-IsPiece k vs e zs (replicate 13 0 ++ ys) last_idx piece plain (omega (arith, full))
          (omega arith) (omega (arith, full)) (length-replicate {A = ℕ} (k * 13) 0)
          (omega (arith, full))
        ∙ rw (full, later) refl)
    ∙ place_all-Pieces k us es (low vs ++ ys) last_idx p (omega arith) (omega arith)
    ∙ ap (λ t. (last_idx, t))
        (sym (append_assoc (low us) (low vs) ys)
          ∙ ap (λ t. t ++ ys) (sym (map-append (λ c. c % 2 ^ 8) us vs)))

length-Pieces : (k : ℕ) (us : List ℕ) (es : List (List ℕ)) → Pieces k us es → length us ≡ k * 13
length-Pieces k us es Pieces.none = omega arith
length-Pieces _ _ _ (Pieces.next k us vs e es p piece plain full) =
    omega (arith, length-append us vs, length-Pieces k us es p, full)

-- From the entries of a name of at most 255 units, the last one first and only it not full, the
-- string that Fat32Lookup puts together is the low bytes of the units.
pub long_name-Pieces :
    (k : ℕ) (us vs e : List ℕ) (es : List (List ℕ))
    → Pieces k us es
    → IsPiece k vs e
    → NoStop vs
    → 0 < length vs
    → length vs ≤ 13
    → k * 13 + length vs ≤ 255
    → long_name (e ∷ es)
      ≡ map (λ c. c % 2 ^ 8) (us ++ vs) ++ 0 ∷ replicate (255 - (k * 13 + length vs)) 0
long_name-Pieces k us vs e es p piece plain some_units short small =
    let n = k * 13 + length vs in
    let zs : List ℕ = replicate (k * 13) 0 in
    let ys : List ℕ = replicate (256 - k * 13) 0 in
    let split : replicate 256 0 ≡ zs ++ ys =
      ap (λ m. replicate m 0) {x = 256} {y = k * 13 + (256 - k * 13)} (omega arith)
      ∙ replicate-append (k * 13) (256 - k * 13) 0 in
    let rest : drop (length vs) ys ≡ 0 ∷ replicate (255 - n) 0 =
      drop-replicate (length vs) (256 - k * 13) 0
      ∙ ap (λ m. replicate m 0) {x = 256 - k * 13 - length vs} {y = suc (255 - n)} (omega arith) in
    let positive : ltb 0 n ≡ true = ground arith in
    let inside : ltb n 256 ≡ true = ground arith in
    let text = low us ++ low vs in
    let size : n ≡ length text = omega (
      arith,
      length-append (low us) (low vs),
      length-map us (λ c. c % 2 ^ 8),
      length-map vs (λ c. c % 2 ^ 8),
      length-Pieces k us es p,
    ) in
    let filled : place_all (e ∷ es) (0, replicate 256 0) ≡ (n, text ++ 0 ∷ replicate (255 - n) 0) =
      ap (λ b. place_all es (place e (0, b))) split
      ∙ ap (place_all es) (
          place-IsPiece k vs e zs ys 0 piece plain short (omega arith)
            (omega (arith, length-replicate {A = ℕ} (256 - k * 13) 0))
            (length-replicate {A = ℕ} (k * 13) 0) small
          ∙ rw (positive, rest) refl)
      ∙ place_all-Pieces k us es (low vs ++ 0 ∷ replicate (255 - n) 0) n p (omega arith)
          (omega arith)
      ∙ ap (λ t. (n, t)) (sym (append_assoc (low us) (low vs) (0 ∷ replicate (255 - n) 0))) in
    ap (λ s. set (s.1) (if ltb (s.0) 256 then s.0 else 255) 0) filled
    ∙ rw inside (
        ap (λ i. set (text ++ 0 ∷ replicate (255 - n) 0) i 0) size
        ∙ set-append text (replicate (255 - n) 0) 0 0)
    ∙ ap (λ t. t ++ 0 ∷ replicate (255 - n) 0) (sym (map-append (λ c. c % 2 ^ 8) us vs))
