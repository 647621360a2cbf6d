-- ===== src/Console/Glyph.antt =====
-- graphics/alpaca_gdi.c: put_pixel and draw_glyph, at places that are not negative. The framebuffer
-- is a function from the index of a pixel to its color.
use unos_kernel.Prelude.{
  ℕ, zero, suc, ◌+◌, ◌-◌, ◌*◌, ◌/◌, ◌%◌, ◌^◌, Bool, not, ltb, ◌==◌, if◌then◌else◌, bit_and,
}
pub mod Pixel
pub mod Picture

pub record Screen : Type 0 where
  pub screen_width : ℕ
  pub screen_height : ℕ
  pub screen_pitch : ℕ

abbrev pub pixel_index : Screen → ℕ → ℕ → ℕ
pixel_index s x y = (y * (s.screen_pitch / 4) + x) % 2 ^ 32

pub put_pixel : Screen → ℕ → ℕ → ℕ → (ℕ → ℕ) → ℕ → ℕ
put_pixel s x y color framebuffer i =
    if ltb x s.screen_width
    then (if ltb y s.screen_height
        then (if i == pixel_index s x y then color else framebuffer i)
        else framebuffer i)
    else framebuffer i

-- The bit of a glyph in column `i` of row `j`.
pub lit : (ℕ → ℕ) → ℕ → ℕ → ℕ → Bool
lit glyph width i j = not (bit_and (glyph (j * ((width + 7) / 8) + i / 8)) (2 ^ (7 - i % 8)) == 0)

module _ (s : Screen) (x y : ℕ) (glyph : ℕ → ℕ) (width color : ℕ) where
  pub draw_row : ℕ → ℕ → ℕ → (ℕ → ℕ) → ℕ → ℕ
  draw_row zero i j framebuffer = framebuffer
  draw_row (suc left) i j framebuffer =
      draw_row left (i + 1) j
        (if lit glyph width i j then put_pixel s (x + i) (y + j) color framebuffer else framebuffer)

  pub draw_rows : ℕ → ℕ → (ℕ → ℕ) → ℕ → ℕ
  draw_rows zero j framebuffer = framebuffer
  draw_rows (suc left) j framebuffer = draw_rows left (j + 1) (draw_row width 0 j framebuffer)

pub draw_glyph : Screen → ℕ → ℕ → (ℕ → ℕ) → ℕ → ℕ → ℕ → (ℕ → ℕ) → ℕ → ℕ
draw_glyph s x y glyph width height color = draw_rows s x y glyph width color height 0
