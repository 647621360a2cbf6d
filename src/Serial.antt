-- ===== src/Serial.antt =====
-- drivers/com/com.c. The output is the list of bytes sent to COM1, each once the line status says
-- that the transmitter is empty. `none` is undefined behaviour: a read past the end of the object
-- that a string lies in, a missing argument or one of another kind, or a signed overflow.
pub mod Directive
pub mod Format
pub mod Fuel
pub mod Hex
pub mod Numeral
pub mod Printk
pub mod Scan
pub mod Unfinished
use unos_kernel.Prelude.{
  ℕ, zero, suc, ◌+◌, ◌-◌, ◌*◌, ◌/◌, ◌%◌, ◌^◌, Bool, true, false, ◌&&◌, ◌||◌, Option, none, some,
  List, [], ◌∷◌, ◌++◌, ltb, ◌==◌, if◌then◌else◌, ◌>>=◌, length, replicate, drop, get_or, bit_and,
}
use unos_kernel.Prelude.Int.{ℤ, pos, negsuc}
use unos_kernel.Prelude.Text.{codes}
use unos_kernel.Strings.Convert.{is_digit, hex_digits, utoa, itoa, xtoa}

-- What a variable argument holds: an integer or an address of up to 64 bits, or a string.
pub data Arg : Type 0 where
  word : ℕ → Arg
  text : List ℕ → Arg

pub serial_print : List ℕ → Option (List ℕ)
serial_print [] = none
serial_print (c ∷ str) =
    if c == 0
    then some []
    else (do rest ← serial_print str; some (if c == b'\n' then b'\r' ∷ c ∷ rest else c ∷ rest))

-- The loop from digit `i - 1` down; `tail` stands behind it in the buffer.
pub hex_buffer : ℕ → ℕ → List ℕ → List ℕ
hex_buffer zero value tail = tail
hex_buffer (suc i) value tail =
    hex_buffer i (value / 2 ^ 4) (get_or (hex_digits true) (bit_and value 0xF) 0 ∷ tail)

pub serial_print_hex : ℕ → Option (List ℕ)
serial_print_hex value = do
  prefix ← serial_print (b'0' ∷ b'x' ∷ 0 ∷ [])
  digits ← serial_print (hex_buffer 16 value (0 ∷ []))
  some (prefix ++ digits)

-- The flag and what follows it.
abbrev pub parse_flag : List ℕ → Bool × List ℕ
parse_flag [] = (false, [])
parse_flag (c ∷ fmt) = if c == b'0' then (true, fmt) else (false, c ∷ fmt)

-- The width and what follows it.
pub parse_width : ℕ → List ℕ → Option (ℕ × List ℕ)
parse_width width [] = none
parse_width width (c ∷ fmt) =
    let width' = width * 10 + (c - b'0') in
    let rest = if ltb width' (2 ^ 31) then parse_width width' fmt else none in
    if is_digit c then rest else some (width, c ∷ fmt)

-- `for (i = len; i < width; i++) serial_write_char(zero_pad ? '0' : ' '); serial_print(buf);`
-- where `buf` holds its `len` bytes and the terminator.
abbrev pub padded : Bool → ℕ → List ℕ → Option (List ℕ)
padded zero_pad width buf = do
  str ← serial_print buf
  some (replicate (width - (length buf - 1)) (if zero_pad then b'0' else b' ') ++ str)

-- The `int` that the low 32 bits of an argument hold.
abbrev pub int_of : ℕ → ℤ
int_of n = if ltb (n % 2 ^ 32) (2 ^ 31) then pos (n % 2 ^ 32) else negsuc (2 ^ 32 - n % 2 ^ 32 - 1)

-- `va_arg`: the next argument, of the kind that the conversion names, goes through `f`.
abbrev pub with_word : (ℕ → Option (List ℕ)) → List Arg → Option (List ℕ × List Arg)
with_word f (word n ∷ args) = do out ← f n; some (out, args)
with_word f _ = none

abbrev pub with_text : (List ℕ → Option (List ℕ)) → List Arg → Option (List ℕ × List Arg)
with_text f (text s ∷ args) = do out ← f s; some (out, args)
with_text f _ = none

-- The switch on the conversion `c`, but for 'l': the output and the arguments left.
pub conversion : Bool → ℕ → ℕ → List Arg → Option (List ℕ × List Arg)
unfolding serial_print
conversion zero_pad width c args =
    if c == b's'
    then with_text (λ s. serial_print s) args
    else if c == b'c'
    then with_word (λ n. some (n % 256 ∷ [])) args
    else if c == b'd' || c == b'i'
    then with_word (λ n. do buf ← itoa (int_of n); padded zero_pad width buf) args
    else if c == b'u'
    then with_word (λ n. padded zero_pad width (utoa (n % 2 ^ 32))) args
    else if c == b'x'
    then with_word (λ n. padded zero_pad width (xtoa n false)) args
    else if c == b'X'
    then with_word (λ n. padded zero_pad width (xtoa n true)) args
    else if c == b'p'
    then with_word (λ n. do str ← serial_print (xtoa n false); some (b'0' ∷ b'x' ∷ str)) args
    else if c == b'%'
    then some (b'%' ∷ [], args)
    else some (b'%' ∷ c ∷ [], args)

-- Case 'l', behind that letter: the output, what is left of the format, the arguments left. Without
-- "lu", `fmt += 2; continue` goes on behind the byte that was written.
abbrev pub long_conversion : List ℕ → List Arg → Option (List ℕ × List ℕ × List Arg)
long_conversion [] args = none
long_conversion (x ∷ fmt) args =
    if x == b'l' && get_or fmt 0 0 == b'u'
    then (do
      (out, args) ← with_word (λ n. serial_print (utoa n)) args
      some (out, drop 1 fmt, args))
    else some (b'%' ∷ b'l' ∷ x ∷ [], fmt, args)

-- The switch, whatever the conversion.
pub switch : Bool → ℕ → List ℕ → List Arg → Option (List ℕ × List ℕ × List Arg)
unfolding conversion
switch zero_pad width [] args = none
switch zero_pad width (c ∷ fmt) args =
    if c == b'l'
    then long_conversion fmt args
    else (do (out, args) ← conversion zero_pad width c args; some (out, fmt, args))

-- The loop's body at a byte `c` that is not the terminator.
pub printf_step : ℕ → List ℕ → List Arg → Option (List ℕ × List ℕ × List Arg)
unfolding switch parse_width
printf_step c fmt args =
    if c == b'%'
    then (do
      (zero_pad, fmt) ← some (parse_flag fmt)
      (width, fmt) ← parse_width 0 fmt
      switch zero_pad width fmt args)
    else some (c ∷ [], fmt, args)

-- The outer `none` is out of fuel, the inner one undefined behaviour.
pub printf_loop : ℕ → List ℕ → List Arg → Option (Option (List ℕ))
unfolding printf_step
printf_loop fuel [] args = some none
printf_loop zero (c ∷ fmt) args = none
printf_loop (suc fuel) (c ∷ fmt) args =
    if c == 0 then some (some []) else elim (printf_step c fmt args) [
      | none ↦ some none
      | some (out, fmt', args') ↦ (do
        sent ← printf_loop fuel fmt' args'
        some (do rest ← sent; some (out ++ rest)))
    ]

-- What the loop sends; with a unit of fuel for each byte of the format's object it never runs out.
abbrev pub sent_by : Option (Option (List ℕ)) → Option (List ℕ)
sent_by none = none
sent_by (some sent) = sent

unfoldable pub serial_printf : List ℕ → List Arg → Option (List ℕ)
unfolding printf_loop
serial_printf fmt args = sent_by (printf_loop (length fmt) fmt args)

-- The body is that of serial_printf, on the caller's list of arguments.
pub serial_vprintf : List ℕ → List Arg → Option (List ℕ)
unfolding serial_printf
serial_vprintf fmt args = serial_printf fmt args

-- Printk of kernel/logging/printk/printk.c; a level is its number in `printk_level_t`.
abbrev pub printk_prefix : ℕ → List ℕ
printk_prefix level =
    if level == 0
    then codes "[INFO] "
    else if level == 2
    then codes "[WARNING] "
    else if level == 3
    then codes "[ OK ] "
    else if level == 1
    then codes "[ERROR] "
    else codes "[UNK] "

unfoldable pub printk : ℕ → List ℕ → List Arg → Option (List ℕ)
unfolding serial_printf serial_vprintf
printk level fmt args = do
  prefix ← serial_printf (codes "%s" ++ 0 ∷ []) (text (printk_prefix level ++ 0 ∷ []) ∷ [])
  rest ← serial_vprintf fmt args
  some (prefix ++ rest)
