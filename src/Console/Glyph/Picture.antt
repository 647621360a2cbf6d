-- ===== src/Console/Glyph/Picture.antt =====
-- Glyphs as pictures.
use unos_kernel.Prelude.{
  ℕ, zero, suc, ◌+◌, ◌-◌, ◌*◌, ◌/◌, ◌%◌, ◌^◌, ◌≤◌, ◌<◌, ◌≡◌, ◌⊎◌, refl, sym, ◌∙◌, ap, ap₂, Bool,
  true, false, not, ◌==◌, if◌then◌else◌, arith, bit_and,
}
use native.Mathlib.Nat.{one-le-pow}
use unos_kernel.Prelude.Bits.{bit_and-field}
use unos_kernel.Console.Glyph.{Screen, pixel_index, lit, draw_glyph}
use unos_kernel.Console.Glyph.Pixel.{IsConnected, pixel_index-exact, draw_glyph-lit}

abbrev pub bit : Bool → ℕ
bit true = 1
bit false = 0

-- Eight points of a row as a byte, the leftmost one first.
abbrev pub packed : (ℕ → Bool) → ℕ
packed p =
    bit (p 0) * 128
    + bit (p 1) * 64
    + bit (p 2) * 32
    + bit (p 3) * 16
    + bit (p 4) * 8
    + bit (p 5) * 4
    + bit (p 6) * 2
    + bit (p 7)

-- The bytes of a glyph for a picture, which is given by row and column: each row fills a whole
-- number `stride` of bytes, the fewest that hold its points.
pub record Pictures (glyph : ℕ → ℕ) (width height stride : ℕ) (picture : ℕ → ℕ → Bool)
    : Type 0 where
  pub enough : width ≤ stride * 8
  pub fewest : stride * 8 < width + 8
  pub bytes :
      (m k : ℕ)
      → m < height
      → k < stride
      → glyph (m * stride + k) ≡ packed (λ i. picture m (k * 8 + i))

bit_small : (b : Bool) → bit b ≤ 1
bit_small true = omega arith
bit_small false = omega arith

test_bit : (a k : ℕ) (b : Bool) → a / 2 ^ k % 2 ≡ bit b → not (bit_and a (2 ^ k) == 0) ≡ b
test_bit a k true h =
    let e : bit_and a (2 ^ k) ≡ 1 * 2 ^ k =
      ap (λ n. bit_and a n) {x = 2 ^ k} {y = (2 ^ 1 - 1) * 2 ^ k} (omega arith)
      ∙ bit_and-field k 1 a
      ∙ ap (λ n. n * 2 ^ k) h in
    let some_bit = one-le-pow k 2 (omega arith) in
    let test : (bit_and a (2 ^ k) == 0) ≡ false =
      let nonzero : 0 < bit_and a (2 ^ k) = omega (arith, e, some_bit) in ground arith in
    rw test refl
test_bit a k false h =
    let e : bit_and a (2 ^ k) ≡ 0 * 2 ^ k =
      ap (λ n. bit_and a n) {x = 2 ^ k} {y = (2 ^ 1 - 1) * 2 ^ k} (omega arith)
      ∙ bit_and-field k 1 a
      ∙ ap (λ n. n * 2 ^ k) h in
    let test : (bit_and a (2 ^ k) == 0) ≡ true =
      let nothing : bit_and a (2 ^ k) ≡ 0 = omega (arith, e) in ground arith in
    rw test refl

packed_bit : (p : ℕ → Bool) (r : ℕ) → r < 8 → not (bit_and (packed p) (2 ^ (7 - r)) == 0) ≡ p r
packed_bit p zero h = test_bit (packed p) 7 (p 0) (
    omega (
      arith,
      bit_small (p 0),
      bit_small (p 1),
      bit_small (p 2),
      bit_small (p 3),
      bit_small (p 4),
      bit_small (p 5),
      bit_small (p 6),
      bit_small (p 7),
    ))
packed_bit p (suc zero) h = test_bit (packed p) 6 (p 1) (
    omega (
      arith,
      bit_small (p 0),
      bit_small (p 1),
      bit_small (p 2),
      bit_small (p 3),
      bit_small (p 4),
      bit_small (p 5),
      bit_small (p 6),
      bit_small (p 7),
    ))
packed_bit p (suc (suc zero)) h = test_bit (packed p) 5 (p 2) (
    omega (
      arith,
      bit_small (p 0),
      bit_small (p 1),
      bit_small (p 2),
      bit_small (p 3),
      bit_small (p 4),
      bit_small (p 5),
      bit_small (p 6),
      bit_small (p 7),
    ))
packed_bit p (suc (suc (suc zero))) h = test_bit (packed p) 4 (p 3) (
    omega (
      arith,
      bit_small (p 0),
      bit_small (p 1),
      bit_small (p 2),
      bit_small (p 3),
      bit_small (p 4),
      bit_small (p 5),
      bit_small (p 6),
      bit_small (p 7),
    ))
packed_bit p (suc (suc (suc (suc zero)))) h = test_bit (packed p) 3 (p 4) (
    omega (
      arith,
      bit_small (p 0),
      bit_small (p 1),
      bit_small (p 2),
      bit_small (p 3),
      bit_small (p 4),
      bit_small (p 5),
      bit_small (p 6),
      bit_small (p 7),
    ))
packed_bit p (suc (suc (suc (suc (suc zero))))) h = test_bit (packed p) 2 (p 5) (
    omega (
      arith,
      bit_small (p 0),
      bit_small (p 1),
      bit_small (p 2),
      bit_small (p 3),
      bit_small (p 4),
      bit_small (p 5),
      bit_small (p 6),
      bit_small (p 7),
    ))
packed_bit p (suc (suc (suc (suc (suc (suc zero)))))) h = test_bit (packed p) 1 (p 6) (
    omega (
      arith,
      bit_small (p 0),
      bit_small (p 1),
      bit_small (p 2),
      bit_small (p 3),
      bit_small (p 4),
      bit_small (p 5),
      bit_small (p 6),
      bit_small (p 7),
    ))
packed_bit p (suc (suc (suc (suc (suc (suc (suc zero))))))) h = test_bit (packed p) 0 (p 7) (
    omega (
      arith,
      bit_small (p 0),
      bit_small (p 1),
      bit_small (p 2),
      bit_small (p 3),
      bit_small (p 4),
      bit_small (p 5),
      bit_small (p 6),
      bit_small (p 7),
    ))
packed_bit p (suc (suc (suc (suc (suc (suc (suc (suc r)))))))) h = absurd (omega arith)

lit-Pictures :
    (glyph : ℕ → ℕ) (width height stride : ℕ) (picture : ℕ → ℕ → Bool) (n m : ℕ)
    → Pictures glyph width height stride picture
    → n < width
    → m < height
    → lit glyph width n m ≡ picture m n
unfolding lit
lit-Pictures glyph width height stride picture n m g h k =
    let enough = g.enough in
    let fewest = g.fewest in
    let e : glyph (m * ((width + 7) / 8) + n / 8) ≡ packed (λ i. picture m (n / 8 * 8 + i)) =
      ap (λ s. glyph (m * s + n / 8)) {x = (width + 7) / 8} {y = stride} (omega arith)
      ∙ g.bytes m (n / 8) k (omega arith) in
    ap (λ b. not (bit_and b (2 ^ (7 - n % 8)) == 0)) e
    ∙ packed_bit (λ i. picture m (n / 8 * 8 + i)) (n % 8) (omega arith)
    ∙ ap (λ i. picture m i) {x = n / 8 * 8 + n % 8} {y = n} (omega arith)

-- On a connected screen, for a glyph whose bytes are those of a picture, row by row and the leftmost
-- point of each byte in its highest bit, draw_glyph gives the color to the pixels of the screen
-- where a point of the picture is set, and leaves all others: those in the box of the glyph where
-- the point is not set, and those outside the box. The pixel of column `u` and row `v` is the
-- element of the framebuffer behind `v` whole rows and `u` pixels.
pub draw_glyph_lem :
    (s : Screen) (x y : ℕ) (glyph : ℕ → ℕ) (width height stride : ℕ) (picture : ℕ → ℕ → Bool)
    (color u v : ℕ) (f : ℕ → ℕ)
    → IsConnected s
    → Pictures glyph width height stride picture
    → u < s.screen_width
    → v < s.screen_height
    → ((n m : ℕ)
        → u ≡ x + n
        → v ≡ y + m
        → n < width
        → m < height
        → draw_glyph s x y glyph width height color f (v * s.screen_width + u)
          ≡ (if picture m n then color else f (v * s.screen_width + u)))
      × ((u < x) ⊎ (x + width ≤ u) ⊎ (v < y) ⊎ (y + height ≤ v)
          → draw_glyph s x y glyph width height color f (v * s.screen_width + u)
            ≡ f (v * s.screen_width + u))
draw_glyph_lem s x y glyph width height stride picture color u v f ok g a b =
    let whole = draw_glyph-lit s x y glyph width height color u v f ok a b in
    let here : v * s.screen_width + u ≡ pixel_index s u v = sym (pixel_index-exact s ok u v a b) in
    (
      λ n m e d p q.
          ap (λ i. draw_glyph s x y glyph width height color f i) here
          ∙ whole.0 n m e d p q
          ∙ ap₂ (λ t i. if t then color else f i)
              (lit-Pictures glyph width height stride picture n m g p q) (sym here),
      λ out.
          ap (λ i. draw_glyph s x y glyph width height color f i) here
          ∙ whole.1 out
          ∙ ap f (sym here),
    )
