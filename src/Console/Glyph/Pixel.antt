-- ===== src/Console/Glyph/Pixel.antt =====
-- The pixels that draw_glyph sets.
use unos_kernel.Prelude.{
  ℕ, zero, suc, ◌+◌, ◌*◌, ◌/◌, ◌%◌, ◌^◌, ◌≤◌, ◌<◌, ◌≡◌, ◌≢◌, ◌⊎◌, refl, sym, ◌∙◌, ap, ap₂, inl, inr,
  true, false, ltb, ◌==◌, if◌then◌else◌, Bool-cases, arith,
}
use native.Mathlib.Nat.{mul-le-mul_right}
use unos_kernel.Console.Glyph.{Screen, pixel_index, put_pixel, lit, draw_row, draw_rows, draw_glyph}

-- As connect_to_framebuffer leaves it, with the pixels in reach of the 32-bit index.
pub record IsConnected (s : Screen) : Type 0 where
  pub pitch : s.screen_pitch / 4 ≡ s.screen_width
  pub small : s.screen_height * s.screen_width ≤ 2 ^ 32

below : (w a b x : ℕ) → a < b → x < w → a * w + x < b * w
below w a b x h k =
    let m : (a + 1) * w ≤ b * w = mul-le-mul_right w (omega arith) in omega (arith, m)

module _ (s : Screen) (ok : IsConnected s) where
  pub pixel_index-exact :
      (x y : ℕ)
      → x < s.screen_width
      → y < s.screen_height
      → pixel_index s x y ≡ y * s.screen_width + x
  pixel_index-exact x y h k =
      let small = ok.small in
      let b = below s.screen_width y s.screen_height x k h in
      let m : y * s.screen_width + x < 2 ^ 32 = omega arith in
      ap (λ p. (y * p + x) % 2 ^ 32) ok.pitch ∙ omega arith

  pixel_index-inj :
      (x y u v : ℕ)
      → x < s.screen_width
      → y < s.screen_height
      → u < s.screen_width
      → v < s.screen_height
      → pixel_index s x y ≡ pixel_index s u v
      → (x ≡ u) × (y ≡ v)
  pixel_index-inj x y u v a b c d e =
      let same : y * s.screen_width + x ≡ v * s.screen_width + u =
        sym (pixel_index-exact x y a b) ∙ e ∙ pixel_index-exact u v c d in
      elim (Bool-cases (ltb y v)) [
        | inl l ↦ let m = below s.screen_width y v x (ground arith) a in absurd (omega arith)
        | inr l ↦ elim (Bool-cases (ltb v y)) [
          | inl k ↦ let m = below s.screen_width v y u (ground arith) c in absurd (omega arith)
          | inr k ↦
              let row : y ≡ v = ground arith in
              let eq : y * s.screen_width ≡ v * s.screen_width = ap (λ n. n * s.screen_width) row in
              (omega arith, row)
        ]
      ]

  put_pixel-here :
      (x y color : ℕ) (f : ℕ → ℕ)
      → x < s.screen_width
      → y < s.screen_height
      → put_pixel s x y color f (pixel_index s x y) ≡ color
  unfolding put_pixel
  put_pixel-here x y color f h k =
      let a : ltb x s.screen_width ≡ true = ground arith in
      let b : ltb y s.screen_height ≡ true = ground arith in
      let c : (pixel_index s x y == pixel_index s x y) ≡ true = ground arith in rw (a, b, c) refl

  put_pixel-ne :
      (x y u v color : ℕ) (f : ℕ → ℕ)
      → u < s.screen_width
      → v < s.screen_height
      → (x ≢ u) ⊎ (y ≢ v)
      → put_pixel s x y color f (pixel_index s u v) ≡ f (pixel_index s u v)
  unfolding put_pixel
  put_pixel-ne x y u v color f h k ne = elim (Bool-cases (ltb x s.screen_width)) [
    | inl a ↦ elim (Bool-cases (ltb y s.screen_height)) [
      | inl b ↦
          let c : (pixel_index s u v == pixel_index s x y) ≡ false =
            elim (Bool-cases (pixel_index s u v == pixel_index s x y)) [
              | inl e ↦
                  clash (pixel_index-inj u v x y h k (ground arith) (ground arith) (ground arith))
                    ne
              | inr e ↦ e
            ] in
          rw (a, b, c) refl
      | inr b ↦ rw (a, b) refl
    ]
    | inr a ↦ rw a refl
  ]
    where
      clash : {P : Type 0} → (u ≡ x) × (v ≡ y) → (x ≢ u) ⊎ (y ≢ v) → P
      clash p (inl q) = absurd (q (sym p.0))
      clash p (inr q) = absurd (q (sym p.1))

module _ (s : Screen) (ok : IsConnected s) (x y : ℕ) (glyph : ℕ → ℕ) (width color u v : ℕ)
    (a : u < s.screen_width) (b : v < s.screen_height) where
  draw_row-ne :
      (left i j : ℕ) (f : ℕ → ℕ)
      → ((k : ℕ) → i ≤ k → k < i + left → (x + k ≢ u) ⊎ (y + j ≢ v))
      → draw_row s x y glyph width color left i j f (pixel_index s u v) ≡ f (pixel_index s u v)
  unfolding draw_row
  draw_row-ne zero i j f h = refl
  draw_row-ne (suc left) i j f h = elim (Bool-cases (lit glyph width i j)) [
    | inl on ↦ rw on (
        draw_row-ne left (i + 1) j (put_pixel s (x + i) (y + j) color f)
          (λ k p q. h k (omega arith) (omega arith))
        ∙ put_pixel-ne s ok (x + i) (y + j) u v color f a b (h i (omega arith) (omega arith)))
    | inr off ↦ rw off (draw_row-ne left (i + 1) j f (λ k p q. h k (omega arith) (omega arith)))
  ]

  draw_row-hit :
      (left i j n : ℕ) (f : ℕ → ℕ)
      → u ≡ x + n
      → v ≡ y + j
      → i ≤ n
      → n < i + left
      → draw_row s x y glyph width color left i j f (pixel_index s u v)
        ≡ (if lit glyph width n j then color else f (pixel_index s u v))
  unfolding draw_row
  draw_row-hit zero i j n f e d p q = absurd (omega arith)
  draw_row-hit (suc left) i j n f e d p q = elim (Bool-cases (i == n)) [
    | inl here ↦
        let same : n ≡ i = ground arith in
        let past : (k : ℕ) → i + 1 ≤ k → k < i + 1 + left → (x + k ≢ u) ⊎ (y + j ≢ v) =
          λ k m o. inl (omega arith) in
        elim (Bool-cases (lit glyph width i j)) [
          | inl on ↦
              rw (same, on)
                (draw_row-ne left (i + 1) j (put_pixel s (x + i) (y + j) color f) past
                  ∙ ap₂ (λ n m. put_pixel s n m color f (pixel_index s u v)) (omega arith) (sym d)
                  ∙ put_pixel-here s ok u v color f a b)
          | inr off ↦ rw (same, off) (draw_row-ne left (i + 1) j f past)
        ]
    | inr later ↦ elim (Bool-cases (lit glyph width i j)) [
      | inl on ↦ rw on (
          draw_row-hit left (i + 1) j n (put_pixel s (x + i) (y + j) color f) e d (ground arith)
            (omega arith)
          ∙ ap (λ m. if lit glyph width n j then color else m)
              (put_pixel-ne s ok (x + i) (y + j) u v color f a b (inl (ground arith))))
      | inr off ↦ rw off (draw_row-hit left (i + 1) j n f e d (ground arith) (omega arith))
    ]
  ]

  draw_rows-ne :
      (left j : ℕ) (f : ℕ → ℕ)
      → ((k m : ℕ) → k < width → j ≤ m → m < j + left → (x + k ≢ u) ⊎ (y + m ≢ v))
      → draw_rows s x y glyph width color left j f (pixel_index s u v) ≡ f (pixel_index s u v)
  unfolding draw_rows
  draw_rows-ne zero j f h = refl
  draw_rows-ne (suc left) j f h =
      draw_rows-ne left (j + 1) (draw_row s x y glyph width color width 0 j f)
        (λ k m o p q. h k m o (omega arith) (omega arith))
      ∙ draw_row-ne width 0 j f (λ k p q. h k j (omega arith) (omega arith) (omega arith))

  draw_rows-hit :
      (left j n m : ℕ) (f : ℕ → ℕ)
      → u ≡ x + n
      → v ≡ y + m
      → n < width
      → j ≤ m
      → m < j + left
      → draw_rows s x y glyph width color left j f (pixel_index s u v)
        ≡ (if lit glyph width n m then color else f (pixel_index s u v))
  unfolding draw_rows
  draw_rows-hit zero j n m f e d o p q = absurd (omega arith)
  draw_rows-hit (suc left) j n m f e d o p q = elim (Bool-cases (j == m)) [
    | inl here ↦
        let same : m ≡ j = ground arith in
        draw_rows-ne left (j + 1) (draw_row s x y glyph width color width 0 j f)
          (λ k r w z t. inr (omega arith))
        ∙ rw same (draw_row-hit width 0 j n f e (omega arith) (omega arith) (omega arith))
    | inr later ↦
        draw_rows-hit left (j + 1) n m (draw_row s x y glyph width color width 0 j f) e d o
          (ground arith) (omega arith)
        ∙ ap (λ t. if lit glyph width n m then color else t)
            (draw_row-ne width 0 j f (λ k r w. inr (ground arith)))
  ]

pub draw_glyph-lit :
    (s : Screen) (x y : ℕ) (glyph : ℕ → ℕ) (width height color u v : ℕ) (f : ℕ → ℕ)
    → IsConnected s
    → u < s.screen_width
    → v < s.screen_height
    → ((n m : ℕ)
        → u ≡ x + n
        → v ≡ y + m
        → n < width
        → m < height
        → draw_glyph s x y glyph width height color f (pixel_index s u v)
          ≡ (if lit glyph width n m then color else f (pixel_index s u v)))
      × ((u < x) ⊎ (x + width ≤ u) ⊎ (v < y) ⊎ (y + height ≤ v)
          → draw_glyph s x y glyph width height color f (pixel_index s u v) ≡ f (pixel_index s u v))
unfolding draw_glyph
draw_glyph-lit s x y glyph width height color u v f ok a b = (
  λ n m e d p q.
      draw_rows-hit s ok x y glyph width color u v a b height 0 n m f e d p (omega arith)
        (omega arith),
  λ out.
      draw_rows-ne s ok x y glyph width color u v a b height 0 f (λ k m p q r. apart k m p r out),
)
  where
    apart :
        (k m : ℕ)
        → k < width
        → m < 0 + height
        → (u < x) ⊎ (x + width ≤ u) ⊎ (v < y) ⊎ (y + height ≤ v)
        → (x + k ≢ u) ⊎ (y + m ≢ v)
    apart k m p q (inl r) = inl (omega arith)
    apart k m p q (inr (inl r)) = inl (omega arith)
    apart k m p q (inr (inr (inl r))) = inr (omega arith)
    apart k m p q (inr (inr (inr r))) = inr (omega arith)
