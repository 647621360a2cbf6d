-- ===== src/Console/Cursor.antt =====
-- The cursor stays on the screen, and what is drawn is on it.
use unos_kernel.Prelude.{
  ℕ, ◌+◌, ◌≤◌, ◌<◌, ◌≡◌, refl, inl, inr, false, some, List, [], ◌∷◌, ◌++◌, leb, ltb, ◌==◌,
  Bool-cases, arith,
}
use unos_kernel.Console.{
  Event, Console, draw, wrap_column, wrap_row, print_char, draw_simple_psf_text, step_back,
  psf_put_char,
}
use unos_kernel.Strings.Compare.{NoNul}

-- Every glyph is drawn in a cell of the screen.
abbrev pub Inside : ℕ → ℕ → List Event → Type 0
Inside cols last [] = Unit
Inside cols last (Event.glyph x y ch ∷ es) = (x < cols) × (y ≤ last) × Inside cols last es
Inside cols last (Event.scroll ∷ es) = Inside cols last es

pub record IsInside (cols last : ℕ) (c : Console) : Type 0 where
  pub column : c.cursor_x < cols
  pub row : c.cursor_y ≤ last
  pub drawn : Inside cols last c.events

-- Between the printing of a byte and the wraps.
record IsNear (cols last : ℕ) (c : Console) : Type 0 where
  column : c.cursor_x ≤ cols
  row : c.cursor_y ≤ last + 1
  one : (c.cursor_x ≡ cols) → c.cursor_y ≤ last
  drawn : Inside cols last c.events

Inside-append :
    (cols last : ℕ) (es fs : List Event)
    → Inside cols last es
    → Inside cols last fs
    → Inside cols last (es ++ fs)
Inside-append cols last [] fs h k = k
Inside-append cols last (Event.glyph x y ch ∷ es) fs h k =
    (h.0, h.1, Inside-append cols last es fs h.2 k)
Inside-append cols last (Event.scroll ∷ es) fs h k = Inside-append cols last es fs h k

module _ (cols last : ℕ) (room : 0 < cols) (c : Console) where
  wrap-IsInside :
      IsNear cols last c → IsInside cols last (wrap_row cols last (wrap_column cols last c))
  unfolding wrap_row wrap_column
  wrap-IsInside n =
      let column = n.column in
      let row = n.row in
      let one = n.one in
      elim (Bool-cases (leb cols c.cursor_x)) [
        | inl a ↦
            let y = one (ground arith) in
            elim (Bool-cases (leb (last + 1) (c.cursor_y + 1))) [
              | inl b ↦
                  rw (a, b)
                    (record {
                      column = room;
                      row = omega arith;
                      drawn = Inside-append cols last c.events (Event.scroll ∷ []) n.drawn tt;
                    })
              | inr b ↦ rw (a, b) (record { column = room; row = ground arith; drawn = n.drawn })
            ]
        | inr a ↦ elim (Bool-cases (leb (last + 1) c.cursor_y)) [
          | inl b ↦
              rw (a, b)
                (record {
                  column = ground arith;
                  row = omega arith;
                  drawn = Inside-append cols last c.events (Event.scroll ∷ []) n.drawn tt;
                })
          | inr b ↦
              rw (a, b) (record { column = ground arith; row = ground arith; drawn = n.drawn })
        ]
      ]

  print_char-IsNear : (ch : ℕ) → IsInside cols last c → IsNear cols last (print_char cols last ch c)
  unfolding print_char draw
  print_char-IsNear ch h =
      let column = h.column in
      let row = h.row in
      elim (Bool-cases (ch == b'\n')) [
        | inl a ↦ rw a (record {
          column = omega arith;
          row = omega arith;
          one = λ e. absurd (omega arith);
          drawn = h.drawn;
        })
        | inr a ↦ elim (Bool-cases (ch == b'\r')) [
          | inl b ↦
              rw (a, b)
                (record {
                  column = omega arith;
                  row = omega arith;
                  one = λ e. row;
                  drawn = h.drawn;
                })
          | inr b ↦
              rw (a, b)
                (record {
                  column = omega arith;
                  row = omega arith;
                  one = λ e. row;
                  drawn =
                      Inside-append cols last c.events (Event.glyph c.cursor_x c.cursor_y ch ∷ [])
                        h.drawn (column, row, tt);
                })
        ]
      ]

  step_back-IsInside : IsInside cols last c → IsInside cols last (step_back cols last c)
  unfolding step_back
  step_back-IsInside h =
      let column = h.column in
      let row = h.row in
      elim (Bool-cases (ltb 0 c.cursor_x)) [
        | inl a ↦ rw a (record { column = omega arith; row = row; drawn = h.drawn })
        | inr a ↦ elim (Bool-cases (ltb 0 c.cursor_y)) [
          | inl b ↦ rw (a, b) (record { column = omega arith; row = omega arith; drawn = h.drawn })
          | inr b ↦ rw (a, b) h
        ]
      ]

draw-IsNear :
    (cols last ch : ℕ) (c : Console) → IsInside cols last c → IsNear cols last (draw cols last ch c)
unfolding draw
draw-IsNear cols last ch c h =
    let column = h.column in
    let row = h.row in
    record {
      column = omega arith;
      row = omega arith;
      one = λ e. row;
      drawn =
          Inside-append cols last c.events (Event.glyph c.cursor_x c.cursor_y ch ∷ []) h.drawn
            (column, row, tt);
    }

-- On a screen with a column PSFPutChar keeps the cursor on the screen, and draws only there.
pub psf_put_char-IsInside :
    (cols last ch : ℕ) (c : Console)
    → 0 < cols
    → IsInside cols last c
    → IsInside cols last (psf_put_char cols last ch c)
unfolding psf_put_char
psf_put_char-IsInside cols last ch c room h = elim (Bool-cases (ch == 8)) [
  | inl a ↦ rw a (
      wrap-IsInside cols last room (draw cols last 0x20 (step_back cols last c)) (
        draw-IsNear cols last 0x20 (step_back cols last c) (step_back-IsInside cols last room c h)))
  | inr a ↦ rw a (
      wrap-IsInside cols last room (print_char cols last ch c)
        (print_char-IsNear cols last room c ch h))
]

-- On a screen with a column DrawSimplePSFText of a string ends with the cursor on the screen, and
-- all that it has drawn is there.
pub draw_simple_psf_text-IsInside :
    (cols last : ℕ) (text rest : List ℕ) (c : Console)
    → 0 < cols
    → NoNul text
    → IsInside cols last c
    → (d : Console) × (draw_simple_psf_text cols last (text ++ 0 ∷ rest) c ≡ some d)
      × IsInside cols last d
unfolding draw_simple_psf_text
draw_simple_psf_text-IsInside cols last [] rest c room n h = (c, refl, h)
draw_simple_psf_text-IsInside cols last (ch ∷ text) rest c room n h =
    let c' = wrap_row cols last (wrap_column cols last (print_char cols last ch c)) in
    let more : (ch == 0) ≡ false = let ne = n.0 in ground arith in
    let later = draw_simple_psf_text-IsInside cols last text rest c' room n.1 (
      wrap-IsInside cols last room (print_char cols last ch c)
        (print_char-IsNear cols last room c ch h)) in
    (later.0, rw more later.1, later.2)
