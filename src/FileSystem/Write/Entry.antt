-- ===== src/FileSystem/Write/Entry.antt =====
-- One entry of the table: what the update stores, and that reading gives it back.
use unos_kernel.Prelude.{
  ℕ, zero, suc, ◌+◌, ◌-◌, ◌*◌, ◌/◌, ◌%◌, ◌^◌, ◌<◌, ◌≤◌, ◌≡◌, refl, sym, ◌∙◌, ◌⊎◌, inl, inr, ap,
  List, [], ◌∷◌, ◌++◌, arith, length, length-append, length-take, length-drop, take, drop, get_or,
  bit_and, bit_or,
}
use unos_kernel.Prelude.Bits.{bit_and-low, bit_and-field, bit_or_low}
use unos_kernel.Prelude.Slices.{drop-append_past, get_or-drop}
use unos_kernel.FileSystem.{word_at, fat32_mask}
use unos_kernel.FileSystem.Write.{word_bytes, replace, update_entry}

-- The upper four bits are kept.
pub entry_bits :
    (old value : ℕ)
    → bit_or (bit_and old 0xF000_0000) (bit_and value fat32_mask)
      ≡ old / 2 ^ 28 % 2 ^ 4 * 2 ^ 28 + value % 2 ^ 28
entry_bits old value =
    rw (bit_and-field 28 4 old, bit_and-low 28 value)
      (bit_or_low 28 (old / 2 ^ 28 % 2 ^ 4) (value % 2 ^ 28) (omega arith))

drop-replace :
    (i : ℕ) (bytes buffer : List ℕ)
    → i ≤ length buffer
    → drop i (replace i bytes buffer) ≡ bytes ++ drop (i + length bytes) buffer
drop-replace i bytes buffer h =
    let size : length (take i buffer) ≡ i = omega (arith, length-take i buffer) in
    drop-append_past i (take i buffer) (bytes ++ drop (i + length bytes) buffer)
      (omega (arith, size))
    ∙ ap (λ n. drop n (bytes ++ drop (i + length bytes) buffer)) {x = i - length (take i buffer)}
        {y = 0} (omega (arith, size))

word_at-word_bytes : (n : ℕ) (rest : List ℕ) → n < 2 ^ 32 → word_at (word_bytes n ++ rest) 0 ≡ n
word_at-word_bytes n rest h = omega arith

-- The word with the number `i / 4`, for a byte offset `i` that is a multiple of four.
word_at-drop :
    (i : ℕ) (buffer : List ℕ) → i % 4 ≡ 0 → word_at buffer (i / 4) ≡ word_at (drop i buffer) 0
word_at-drop i buffer h =
    rw
      (
        get_or-drop i 0 buffer,
        get_or-drop i 1 buffer,
        get_or-drop i 2 buffer,
        get_or-drop i 3 buffer,
      )
      (ap
          (λ j.
            get_or buffer j 0
            + get_or buffer (j + 1) 0 * 2 ^ 8
            + get_or buffer (j + 2) 0 * 2 ^ 16
            + get_or buffer (j + 3) 0 * 2 ^ 24)
          {x = 4 * (i / 4)} {y = i} (omega arith)
        ∙ ap
            (λ j.
              get_or buffer j 0
              + get_or buffer (i + 1) 0 * 2 ^ 8
              + get_or buffer (i + 2) 0 * 2 ^ 16
              + get_or buffer (i + 3) 0 * 2 ^ 24)
            {x = i} {y = i + 0} (omega arith))

-- An entry that was stored is read back, without its upper four bits.
pub word_at-update_entry :
    (i value : ℕ) (buffer : List ℕ)
    → i ≤ length buffer
    → i % 4 ≡ 0
    → bit_and (word_at (update_entry i value buffer) (i / 4)) fat32_mask ≡ value % 2 ^ 28
unfolding update_entry
word_at-update_entry i value buffer h aligned =
    let old = word_at (drop i buffer) 0 in
    let new = old / 2 ^ 28 % 2 ^ 4 * 2 ^ 28 + value % 2 ^ 28 in
    ap (λ w. bit_and w fat32_mask)
      (word_at-drop i (update_entry i value buffer) aligned
        ∙ ap (λ b. word_at b 0)
            (drop-replace i
              (word_bytes (bit_or (bit_and old 0xF000_0000) (bit_and value fat32_mask))) buffer h)
        ∙ ap (λ n. word_at (word_bytes n ++ drop (i + 4) buffer) 0) (entry_bits old value)
        ∙ word_at-word_bytes new (drop (i + 4) buffer) (omega arith))
    ∙ bit_and-low 28 new
    ∙ omega arith

get_or-append_low : (xs ys : List ℕ) (j : ℕ) → j < length xs → get_or (xs ++ ys) j 0 ≡ get_or xs j 0
get_or-append_low [] ys j h = absurd (omega arith)
get_or-append_low (x ∷ xs) ys zero h = refl
get_or-append_low (x ∷ xs) ys (suc j) h = get_or-append_low xs ys j (omega arith)

get_or-take : (i j : ℕ) (xs : List ℕ) → j < i → get_or (take i xs) j 0 ≡ get_or xs j 0
get_or-take zero j xs h = absurd (omega arith)
get_or-take (suc i) j [] h = refl
get_or-take (suc i) zero (x ∷ xs) h = refl
get_or-take (suc i) (suc j) (x ∷ xs) h = get_or-take i j xs (omega arith)

-- The bytes outside those that are replaced.
get_or-replace :
    (i j : ℕ) (bytes buffer : List ℕ)
    → i + length bytes ≤ length buffer
    → (j < i) ⊎ (i + length bytes ≤ j)
    → get_or (replace i bytes buffer) j 0 ≡ get_or buffer j 0
get_or-replace i j bytes buffer h (inl low) =
    get_or-append_low (take i buffer) (bytes ++ drop (i + length bytes) buffer) j
      (omega (arith, length-take i buffer))
    ∙ get_or-take i j buffer low
get_or-replace i j bytes buffer h (inr high) =
    let k = j - i in
    let n = length bytes in
    ap (λ m. get_or (replace i bytes buffer) m 0) {x = j} {y = i + k} (omega arith)
    ∙ sym (get_or-drop i k (replace i bytes buffer))
    ∙ ap (λ xs. get_or xs k 0) (drop-replace i bytes buffer (omega arith))
    ∙ ap (λ m. get_or (bytes ++ drop (i + n) buffer) m 0) {x = k} {y = n + (k - n)} (omega arith)
    ∙ sym (get_or-drop n (k - n) (bytes ++ drop (i + n) buffer))
    ∙ ap (λ xs. get_or xs (k - n) 0)
        (drop-append_past n bytes (drop (i + n) buffer) (omega arith)
          ∙ ap (λ m. drop m (drop (i + n) buffer)) {x = n - n} {y = 0} (omega arith))
    ∙ get_or-drop (i + n) (k - n) buffer
    ∙ ap (λ m. get_or buffer m 0) {x = i + n + (k - n)} {y = j} (omega arith)

-- A sector `new` that differs from `old` in the entry at the byte `i`: its low 28 bits are those of
-- `value`, its upper four bits and all other bytes are kept.
pub record IsEntered (i value : ℕ) (old new : List ℕ) : Type 0 where
  pub entry :
      word_at (drop i new) 0 ≡ word_at (drop i old) 0 / 2 ^ 28 % 2 ^ 4 * 2 ^ 28 + value % 2 ^ 28
  pub others : (j : ℕ) → (j < i) ⊎ (i + 4 ≤ j) → get_or new j 0 ≡ get_or old j 0
  pub size : length new ≡ length old

pub update_entry-IsEntered :
    (i value : ℕ) (buffer : List ℕ)
    → i + 4 ≤ length buffer
    → IsEntered i value buffer (update_entry i value buffer)
unfolding update_entry
update_entry-IsEntered i value buffer h =
    let old = word_at (drop i buffer) 0 in
    let new = old / 2 ^ 28 % 2 ^ 4 * 2 ^ 28 + value % 2 ^ 28 in
    let stored = word_bytes (bit_or (bit_and old 0xF000_0000) (bit_and value fat32_mask)) in
    record {
      entry =
          ap (λ b. word_at b 0) (drop-replace i stored buffer (omega arith))
          ∙ ap (λ n. word_at (word_bytes n ++ drop (i + 4) buffer) 0) (entry_bits old value)
          ∙ word_at-word_bytes new (drop (i + 4) buffer) (omega arith);
      others = λ j. get_or-replace i j stored buffer h;
      size = omega (
        arith,
        length-append (take i buffer) (stored ++ drop (i + 4) buffer),
        length-append stored (drop (i + 4) buffer),
        length-take i buffer,
        length-drop (i + 4) buffer,
      );
    }
