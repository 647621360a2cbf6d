-- ===== src/Strings/Convert.antt =====
-- Number conversions of kstring.c. A function that fills a buffer returns the bytes that it writes
-- from the buffer's start, the terminator included.
pub mod Digits
pub mod Numeral
pub mod Saturate
use unos_kernel.Prelude.{
  ℕ, zero, suc, ◌+◌, ◌-◌, ◌*◌, ◌/◌, ◌%◌, ◌^◌, Bool, true, false, ◌&&◌, ◌||◌, Option, none, some,
  List, [], ◌∷◌, ◌++◌, ltb, leb, ◌==◌, if◌then◌else◌, bit_and, get_or, ◌>>=◌,
}
use unos_kernel.Prelude.Int.{ℤ, pos, negsuc}

abbrev pub is_digit : ℕ → Bool
is_digit c = leb b'0' c && leb c b'9'

-- `none`: the digits pass INT_MAX, or the string has no end.
pub atoi_from : ℕ → List ℕ → Option ℕ
atoi_from res [] = none
atoi_from res (c ∷ s) =
    let res' = res * 10 + (c - b'0') in
    let rest = if ltb res' (2 ^ 31) then atoi_from res' s else none in
    if is_digit c then rest else some res

pub atoi : List ℕ → Option ℕ
unfolding atoi_from
atoi s = atoi_from 0 s

-- `while (value && i < limit)`: `left` is `limit - i`, and `tmp` holds `tmp[i - 1]` first, so the
-- loop that copies it backwards into the buffer copies the list as it stands.
pub decimal_loop : ℕ → ℕ → List ℕ → List ℕ
decimal_loop zero value tmp = tmp
decimal_loop (suc left) value tmp =
    let rest = decimal_loop left (value / 10) ((b'0' + value % 10) ∷ tmp) in
    if value == 0 then tmp else rest

pub utoa : ℕ → List ℕ
utoa value = if value == 0 then b'0' ∷ 0 ∷ [] else decimal_loop 20 value [] ++ 0 ∷ []

-- `none`: `-value` overflows at INT_MIN.
unfoldable pub itoa : ℤ → Option (List ℕ)
itoa (pos n) = some (if n == 0 then b'0' ∷ 0 ∷ [] else decimal_loop 11 n [] ++ 0 ∷ [])
itoa (negsuc n) =
    if suc n == 2 ^ 31 then none else some (b'-' ∷ decimal_loop 11 (suc n) [] ++ 0 ∷ [])

-- "0123456789ABCDEF" and "0123456789abcdef"
abbrev pub hex_digits : Bool → List ℕ
hex_digits uppercase =
    let a = if uppercase then b'A' else b'a' in
    b'0'
    ∷ b'1'
    ∷ b'2'
    ∷ b'3'
    ∷ b'4'
    ∷ b'5'
    ∷ b'6'
    ∷ b'7'
    ∷ b'8'
    ∷ b'9'
    ∷ a
    ∷ (a + 1)
    ∷ (a + 2)
    ∷ (a + 3)
    ∷ (a + 4)
    ∷ (a + 5)
    ∷ []

pub hex_loop : Bool → ℕ → ℕ → List ℕ → List ℕ
hex_loop uppercase zero value tmp = tmp
hex_loop uppercase (suc left) value tmp =
    let digit = get_or (hex_digits uppercase) (bit_and value 0xF) 0 in
    let rest = hex_loop uppercase left (value / 2 ^ 4) (digit ∷ tmp) in
    if value == 0 then tmp else rest

pub xtoa : ℕ → Bool → List ℕ
xtoa value uppercase =
    if value == 0 then b'0' ∷ 0 ∷ [] else hex_loop uppercase 16 value [] ++ 0 ∷ []

abbrev pub ulong_max : ℕ
ulong_max = 2 ^ 64 - 1

abbrev pub erange : ℕ
erange = 34

abbrev pub is_space : ℕ → Bool
is_space c = c == 32 || c == 9 || c == 10 || c == 13

pub record Parsed : Type 0 where
  pub result : ℕ
  -- how far `*endptr` lies from the start
  pub end : ℕ
  pub errno : ℕ

strtoul_digits : ℕ → ℕ → List ℕ → Option Parsed
strtoul_digits i result [] = none
strtoul_digits i result (c ∷ s) =
    let digit = c - b'0' in
    let rest =
      if ltb ((ulong_max - digit) / 10) result
      then some (record { result = ulong_max; end = i; errno = erange })
      else strtoul_digits (i + 1) (result * 10 + digit) s in
    if is_digit c then rest else some (record { result = result; end = i; errno = 0 })

strtoul_sign : ℕ → List ℕ → Option Parsed
unfolding strtoul_digits
strtoul_sign i [] = none
strtoul_sign i (c ∷ s) =
    if c == b'+' then strtoul_digits (i + 1) 0 s else strtoul_digits i 0 (c ∷ s)

strtoul_space : ℕ → List ℕ → Option Parsed
unfolding strtoul_sign
strtoul_space i [] = none
strtoul_space i (c ∷ s) = if is_space c then strtoul_space (i + 1) s else strtoul_sign i (c ∷ s)

-- `kerrno` before the call; another base than 10 leaves it alone.
pub strtoul : List ℕ → ℕ → ℕ → Option Parsed
unfolding strtoul_space
strtoul s base kerrno =
    if base == 10 then strtoul_space 0 s else some (record { result = 0; end = 0; errno = kerrno })
