-- ===== src/Strings.antt =====
-- Include/kstring.c. A `char *` is the list of bytes from the pointer to the end of its object,
-- so `none` is a read or a write past that end (or an int overflow, which C leaves undefined too).
-- A pointer that a function returns is an offset from the one it was given.
pub mod Compare
pub mod Convert
pub mod Letters
pub mod Move
use unos_kernel.Prelude.{
  ℕ, zero, suc, ◌+◌, ◌-◌, ◌%◌, Bool, not, ◌&&◌, Option, none, some, List, [], ◌∷◌, ltb, leb, ◌==◌,
  if◌then◌else◌, ◌>>=◌,
}
use unos_kernel.Prelude.Int.{ℤ, pos, sub_ℕ}

strlen_from : ℕ → List ℕ → Option ℕ
strlen_from len [] = none
strlen_from len (c ∷ s) = if c == 0 then some len else strlen_from (len + 1) s

pub strlen : List ℕ → Option ℕ
unfolding strlen_from
strlen s = strlen_from 0 s

-- The result is the difference of the first bytes that differ.
pub strcmp : List ℕ → List ℕ → Option ℤ
strcmp [] t = none
strcmp (a ∷ s) [] = none
strcmp (a ∷ s) (b ∷ t) = if not (a == 0) && a == b then strcmp s t else some (sub_ℕ a b)

strchr_from : ℕ → List ℕ → ℕ → Option (Option ℕ)
strchr_from i [] c = none
strchr_from i (x ∷ s) c =
    if x == 0
    then some (if c == 0 then some i else none)
    else if x == c % 256
    then some (some i)
    else strchr_from (i + 1) s c

-- The inner `none` is NULL.
pub strchr : List ℕ → ℕ → Option (Option ℕ)
unfolding strchr_from
strchr s c = strchr_from 0 s c

abbrev pub to_lower : ℕ → ℕ
to_lower c = if leb b'A' c && leb c b'Z' then c - b'A' + b'a' else c

pub strcasecmp : List ℕ → List ℕ → Option ℤ
strcasecmp [] t = none
strcasecmp (a ∷ s) [] = none
strcasecmp (a ∷ s) (b ∷ t) =
    if not (a == 0) && not (b == 0) && to_lower a == to_lower b
    then strcasecmp s t
    else some (sub_ℕ (to_lower a) (to_lower b))

-- A `char` of 128 and above is negative, and no letter.
unfoldable pub toupper : ℕ → ℕ
toupper ch = if leb b'a' ch && leb ch b'z' then ch - (b'a' - b'A') else ch

pub memset : List ℕ → ℕ → ℕ → Option (List ℕ)
memset p c zero = some p
memset [] c (suc n) = none
memset (x ∷ p) c (suc n) = do rest ← memset p c n; some (c % 256 ∷ rest)

pub memcmp : List ℕ → List ℕ → ℕ → Option ℤ
memcmp p q zero = some (pos 0)
memcmp [] q (suc n) = none
memcmp (a ∷ p) [] (suc n) = none
memcmp (a ∷ p) (b ∷ q) (suc n) = if a == b then memcmp p q n else some (sub_ℕ a b)

-- The two objects do not overlap.
pub memcpy : List ℕ → List ℕ → ℕ → Option (List ℕ)
memcpy d s zero = some d
memcpy [] s (suc n) = none
memcpy (x ∷ d) [] (suc n) = none
memcpy (x ∷ d) (a ∷ s) (suc n) = do rest ← memcpy d s n; some (a ∷ rest)

pub strcpy : List ℕ → List ℕ → Option (List ℕ)
strcpy d [] = none
strcpy [] (a ∷ s) = none
strcpy (x ∷ d) (a ∷ s) = if a == 0 then some (0 ∷ d) else (do rest ← strcpy d s; some (a ∷ rest))

-- `while (*src != 0) *ptr++ = *src++; *ptr = 0;` is the copy of strcpy.
pub strcat : List ℕ → List ℕ → Option (List ℕ)
unfolding strcpy
strcat [] s = none
strcat (x ∷ d) s = if x == 0 then strcpy (x ∷ d) s else (do rest ← strcat d s; some (x ∷ rest))
