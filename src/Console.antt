-- ===== src/Console.antt =====
-- fs/ext/psf.c: the cursor of the text console and the header of a font. A screen has `cols` columns
-- and `last + 1` rows, which the source divides from the sizes of screen and glyph; the cursor is on
-- the screen or behind it, not in front of it. What happens on the screen is a list of events.
use unos_kernel.Prelude.{
  ℕ, zero, suc, ◌+◌, ◌-◌, ◌*◌, Bool, Option, none, some, List, [], ◌∷◌, ◌++◌, ◌&&◌, ltb, leb, ◌==◌,
  if◌then◌else◌, drop,
}
pub mod Cursor
pub mod Glyph
pub mod Backspace

pub data Event : Type 0 where
  glyph : ℕ → ℕ → ℕ → Event
  scroll : Event

pub record Console : Type 0 where
  pub cursor_x : ℕ
  pub cursor_y : ℕ
  pub events : List Event

module _ (cols last : ℕ) where
  pub draw : ℕ → Console → Console
  draw ch c = record c { events = c.events ++ glyph c.cursor_x c.cursor_y ch ∷ [] }

  -- The wrap at the end of a row; TerminalTTYScrollUp moves the cursor too, which is then set.
  pub wrap_column : Console → Console
  wrap_column c =
      if leb cols c.cursor_x then record c { cursor_x = 0; cursor_y = c.cursor_y + 1 } else c

  pub wrap_row : Console → Console
  wrap_row c =
      if leb (last + 1) c.cursor_y
      then record c { cursor_y = last; events = c.events ++ scroll ∷ [] }
      else c

  pub print_char : ℕ → Console → Console
  print_char ch c =
      if ch == b'\n'
      then record c { cursor_x = 0; cursor_y = c.cursor_y + 1 }
      else if ch == b'\r'
      then record c { cursor_x = 0 }
      else (let d = draw ch c in record d { cursor_x = d.cursor_x + 1 })

  -- DrawSimplePSFText, on the bytes from the pointer to the end of the object.
  pub draw_simple_psf_text : List ℕ → Console → Option Console
  draw_simple_psf_text [] c = none
  draw_simple_psf_text (ch ∷ text) c =
      let rest = draw_simple_psf_text text (wrap_row (wrap_column (print_char ch c))) in
      if ch == 0 then some c else rest

  pub step_back : Console → Console
  step_back c =
      if ltb 0 c.cursor_x
      then record c { cursor_x = c.cursor_x - 1 }
      else if ltb 0 c.cursor_y
      then record c { cursor_x = cols - 1; cursor_y = c.cursor_y - 1 }
      else c

  -- With the font ready.
  pub psf_put_char : ℕ → Console → Console
  psf_put_char ch c =
      wrap_row (wrap_column (if ch == 8 then draw 0x20 (step_back c) else print_char ch c))
