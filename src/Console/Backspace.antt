-- ===== src/Console/Backspace.antt =====
-- What a backspace does behind a byte.
use unos_kernel.Prelude.{
  ℕ, ◌+◌, ◌-◌, ◌≤◌, ◌<◌, ◌≡◌, refl, ◌⊎◌, sym, ◌∙◌, ap, ap₂, inl, inr, true, false, List, [], ◌∷◌,
  ◌++◌, leb, ltb, ◌==◌, Bool-cases, arith,
}
use unos_kernel.Console.{
  Event, glyph, scroll, Console, draw, wrap_column, wrap_row, print_char, step_back, psf_put_char,
}

module _ (cols last ch : ℕ) (c : Console) where
  printed :
      (ch == 8) ≡ false
      → (ch == b'\n') ≡ false
      → (ch == b'\r') ≡ false
      → psf_put_char cols last ch c
        ≡ wrap_row cols last (
            wrap_column cols last (record c {
              cursor_x = c.cursor_x + 1;
              events = c.events ++ glyph c.cursor_x c.cursor_y ch ∷ [];
            }))
  unfolding psf_put_char print_char draw
  printed a b d = rw (a, b, d) refl

module _ (cols last : ℕ) (x y : ℕ) (es : List Event) where
  abbrev placed : Console
  placed = record { cursor_x = x; cursor_y = y; events = es }

  wrap-inside : x < cols → y ≤ last → wrap_row cols last (wrap_column cols last placed) ≡ placed
  unfolding wrap_row wrap_column
  wrap-inside h k =
      let a : leb cols x ≡ false = ground arith in
      let b : leb (last + 1) y ≡ false = ground arith in rw (a, b) refl

  wrap-next :
      x ≡ cols
      → y < last
      → wrap_row cols last (wrap_column cols last placed)
        ≡ record { cursor_x = 0; cursor_y = y + 1; events = es }
  unfolding wrap_row wrap_column
  wrap-next h k =
      let a : leb cols x ≡ true = ground arith in
      let b : leb (last + 1) (y + 1) ≡ false = ground arith in rw (a, b) refl

  wrap-scroll :
      x ≡ cols
      → y ≡ last
      → wrap_row cols last (wrap_column cols last placed)
        ≡ record { cursor_x = 0; cursor_y = last; events = es ++ scroll ∷ [] }
  unfolding wrap_row wrap_column
  wrap-scroll h k =
      let a : leb cols x ≡ true = ground arith in
      let b : leb (last + 1) (y + 1) ≡ true = ground arith in rw (a, b) refl

  step_back-row :
      (u : ℕ)
      → x ≡ u + 1
      → step_back cols last placed ≡ record { cursor_x = u; cursor_y = y; events = es }
  unfolding step_back
  step_back-row u h =
      let a : ltb 0 x ≡ true = ground arith in
      let b : x - 1 ≡ u = omega arith in rw a (ap (λ n. record placed { cursor_x = n }) b)

  step_back-above :
      (u v : ℕ)
      → x ≡ 0
      → cols ≡ u + 1
      → y ≡ v + 1
      → step_back cols last placed ≡ record { cursor_x = u; cursor_y = v; events = es }
  unfolding step_back
  step_back-above u v h k l =
      let a : ltb 0 x ≡ false = ground arith in
      let b : ltb 0 y ≡ true = ground arith in
      let d : cols - 1 ≡ u = omega arith in
      let e : y - 1 ≡ v = omega arith in
      rw (a, b) (ap₂ (λ n m. record { cursor_x = n; cursor_y = m; events = es }) d e)

-- After a step back to the cell `u`, `v` of the screen.
rubbed :
    (cols last u v : ℕ) (c : Console)
    → step_back cols last c ≡ record { cursor_x = u; cursor_y = v; events = c.events }
    → u < cols
    → v ≤ last
    → psf_put_char cols last 8 c
      ≡ record { cursor_x = u; cursor_y = v; events = c.events ++ glyph u v 0x20 ∷ [] }
unfolding psf_put_char draw
rubbed cols last u v c e h k =
    rw e (wrap-inside cols last u v (c.events ++ glyph u v 0x20 ∷ []) h k)

-- PSFPutChar of a backspace after a byte that is no control byte, with the cursor on the screen,
-- leaves the cursor where it was and draws a space over the byte. When the byte stands in the last
-- cell of a screen of more than one row, the screen is scrolled in between, and the cursor and the
-- space are one row higher.
pub psf_put_char-step_back :
    (cols last ch x y : ℕ) (es : List Event)
    → x < cols
    → y ≤ last
    → 32 ≤ ch
    → ((x + 1 < cols) ⊎ (y < last)
        → psf_put_char cols last 8
            (psf_put_char cols last ch (record { cursor_x = x; cursor_y = y; events = es }))
          ≡ record {
            cursor_x = x;
            cursor_y = y;
            events = es ++ glyph x y ch ∷ [] ++ glyph x y 0x20 ∷ [];
          })
      × (x + 1 ≡ cols
          → y ≡ last
          → 0 < last
          → psf_put_char cols last 8
              (psf_put_char cols last ch (record { cursor_x = x; cursor_y = y; events = es }))
            ≡ record {
              cursor_x = x;
              cursor_y = y - 1;
              events = es ++ glyph x y ch ∷ [] ++ scroll ∷ [] ++ glyph x (y - 1) 0x20 ∷ [];
            })
psf_put_char-step_back cols last ch x y es h k l = (
  λ room. elim (Bool-cases (ltb (x + 1) cols)) [
    | inl t ↦
        back (first ∙ wrap-inside cols last (x + 1) y drawn (ground arith) k)
          (rubbed cols last x y _ (step_back-row cols last (x + 1) y drawn x refl) h k)
    | inr t ↦ back (first ∙ wrap-next cols last (x + 1) y drawn (ground arith) (ground arith)) (
        rubbed cols last x y _
          (step_back-above cols last 0 (y + 1) drawn x y refl (ground arith) refl) h k)
  ],
  λ e f m. back (first ∙ wrap-scroll cols last (x + 1) y drawn e f) (
      rubbed cols last x (y - 1) _
        (step_back-above cols last 0 last (drawn ++ scroll ∷ []) x (y - 1) refl (sym e)
          (omega arith))
        h (omega arith)),
)
  where
    drawn : List Event
    drawn = es ++ glyph x y ch ∷ []

    first :
        psf_put_char cols last ch (record { cursor_x = x; cursor_y = y; events = es })
        ≡ wrap_row cols last (
            wrap_column cols last
              (record { cursor_x = x + 1; cursor_y = y; events = es ++ glyph x y ch ∷ [] }))
    first =
        printed cols last ch (record { cursor_x = x; cursor_y = y; events = es }) (ground arith)
          (ground arith) (ground arith)

    back :
        {c d e : Console} → c ≡ d → psf_put_char cols last 8 d ≡ e → psf_put_char cols last 8 c ≡ e
    back p q = ap (λ c. psf_put_char cols last 8 c) p ∙ q
