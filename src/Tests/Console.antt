-- ===== src/Tests/Console.antt =====
-- fs/ext/psf.c and graphics/alpaca_gdi.c at small inputs.
use unos_kernel.Prelude.{
  ℕ, zero, suc, ◌+◌, ◌*◌, ◌≤◌, ◌<◌, ◌≡◌, ◌⊎◌, refl, Bool, ◌||◌, some, [], ◌∷◌, ◌==◌, arith,
  if◌then◌else◌,
}
use unos_kernel.Console.{glyph, scroll, Console, draw_simple_psf_text, psf_put_char}
use unos_kernel.Console.Cursor.{IsInside, draw_simple_psf_text-IsInside}
use unos_kernel.Console.Backspace.{psf_put_char-step_back}
use unos_kernel.Console.Glyph.{Screen, draw_glyph}
use unos_kernel.Console.Glyph.Picture.{Pictures, packed, draw_glyph_lem}

abbrev corner : Console
corner = record { cursor_x = 1; cursor_y = 1; events = [] }

corner-IsInside : IsInside 2 1 corner
corner-IsInside = record { column = omega arith; row = omega arith; drawn = tt }

draw_simple_psf_text-IsInside_example :
    (d : Console) × (draw_simple_psf_text 2 1 (b'A' ∷ b'B' ∷ 0 ∷ []) corner ≡ some d)
    × IsInside 2 1 d
draw_simple_psf_text-IsInside_example =
    draw_simple_psf_text-IsInside 2 1 (b'A' ∷ b'B' ∷ []) [] corner (omega arith)
      (omega arith, (omega arith, tt)) corner-IsInside

psf_put_char-step_back_example :
    ((◌<◌ 2 2) ⊎ (◌<◌ 1 1)
      → psf_put_char 2 1 8 (psf_put_char 2 1 65 corner)
        ≡ record corner { events = glyph 1 1 65 ∷ glyph 1 1 0x20 ∷ [] })
    × (◌≡◌ {A = ℕ} 2 2
        → ◌≡◌ {A = ℕ} 1 1
        → 0 < 1
        → psf_put_char 2 1 8 (psf_put_char 2 1 65 corner) ≡ record {
          cursor_x = 1;
          cursor_y = 0;
          events = glyph 1 1 65 ∷ scroll ∷ glyph 1 0 0x20 ∷ [];
        })
psf_put_char-step_back_example =
    psf_put_char-step_back 2 1 65 1 1 [] (omega arith) (omega arith) (omega arith)

abbrev small : Screen
small = record { screen_width = 20; screen_height = 10; screen_pitch = 80 }

-- A letter L of 8 by 4 points: its left column and its lowest row.
abbrev letter : ℕ → ℕ → Bool
letter m n = n == 0 || m == 3

abbrev letter_bytes : ℕ → ℕ
letter_bytes b = if b == 3 then 0xFF else 0x80

letter-Pictures : Pictures letter_bytes 8 4 1 letter
letter-Pictures = record { enough = omega arith; fewest = omega arith; bytes = bytes }
  where
    bytes :
        (m k : ℕ) → m < 4 → k < 1 → letter_bytes (m * 1 + k) ≡ packed (λ i. letter m (k * 8 + i))
    bytes zero zero h l = refl
    bytes (suc zero) zero h l = refl
    bytes (suc (suc zero)) zero h l = refl
    bytes (suc (suc (suc zero))) zero h l = refl
    bytes (suc (suc (suc (suc m)))) zero h l = absurd (omega arith)
    bytes m (suc k) h l = absurd (omega arith)

draw_glyph_lem_example :
    ((n m : ℕ)
      → 5 ≡ 3 + n
      → 4 ≡ 2 + m
      → n < 8
      → m < 4
      → draw_glyph small 3 2 letter_bytes 8 4 7 (λ i. 0) 85 ≡ (if letter m n then 7 else 0))
    × ((◌<◌ 5 3) ⊎ (◌≤◌ (3 + 8) 5) ⊎ (◌<◌ 4 2) ⊎ (◌≤◌ (2 + 4) 4)
        → draw_glyph small 3 2 letter_bytes 8 4 7 (λ i. 0) 85 ≡ 0)
draw_glyph_lem_example =
    draw_glyph_lem small 3 2 letter_bytes 8 4 1 letter 7 5 4 (λ i. 0)
      (record { pitch = refl; small = omega arith }) letter-Pictures (omega arith) (omega arith)
