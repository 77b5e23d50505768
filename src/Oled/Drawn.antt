-- ===== src/Oled/Drawn.antt =====
-- The inner loop of ssd1306_draw_bitmap of Driver/ssd1306.c on the picture in the buffer.
use mathlib.Core.Path.{subst}
use gateway_v.Base.{
  ℕ, zero, suc, ◌+◌, ◌-◌, ◌/◌, ◌%◌, ◌≤◌, ◌<◌, ◌≡◌, refl, ◌∙◌, inl, inr, arith, Bool, true, false,
  ◌&&◌, some, ltb, leb, ◌==◌, ==_iff, if◌then◌else◌, length, bit_and, Bool-cases,
}
use gateway_v.Base.Word.{u8}
use gateway_v.Text.{Bytes}
use gateway_v.Oled.{Color}
use gateway_v.Oled.Bitmap.{next_byte, draw_columns, ssd1306_draw_pixel}
use gateway_v.Oled.Pixels.{is_white, pixel, draw_pixel-pixel}
use gateway_v.Oled.Shifted.{lit_column, source_byte, IsShifted, next_byte-IsShifted, top-shifted}

only_now :
    (on lit new old : Bool)
    → (if on && false && lit then new else if (true && on) && lit then new else old)
      ≡ (if on && true && lit then new else old)
only_now true lit new old = refl
only_now false lit new old = refl

module _ (bitmap : Bytes) (row : ℕ) where
  -- One round's effect on the picture.
  round :
      (b i x y : ℕ) (color : Color) (buffer : Bytes)
      → IsShifted bitmap row i b
      → length buffer ≡ 1024
      → x + i < 128
      → y < 64
      → (after : Bytes) × ((if bit_and b 0x80 == 0
            then some buffer
            else ssd1306_draw_pixel buffer (u8 (x + i)) y color)
          ≡ some after)
        × (length after ≡ 1024)
        × ((px py : ℕ)
            → px < 128
            → py < 64
            → pixel after px py ≡ (
                if (px == x + i && py == y) && lit_column bitmap row i
                then is_white color
                else pixel buffer px py))
  unfolding lit_column
  round b i x y color buffer s l hx hy =
      let place : u8 (x + i) ≡ x + i = omega arith in
      elim (Bool-cases (lit_column bitmap row i)) [
        | inl e ↦
            let (after, d, n, p) = draw_pixel-pixel buffer (x + i) y color l hx hy in
            rw (top-shifted (i % 8) b (source_byte bitmap row i) (omega arith) s, e, place)
              (after, d, n, λ px py hpx hpy. p px py hpx hpy ∙ ground arith)
        | inr e ↦
            rw (top-shifted (i % 8) b (source_byte bitmap row i) (omega arith) s, e)
              (buffer, refl, l, λ px py hpx hpy. ground arith)
      ]

  -- What is left of a row of pixels after the first one.
  first_column :
      (i left x px : ℕ) (on : Bool) (new old : Bool)
      → (if on
            && (leb (x + suc i) px && ltb px (x + suc i + left))
            && lit_column bitmap row (px - x)
          then new
          else if (px == x + i && on) && lit_column bitmap row i
          then new
          else old)
        ≡ (if on && (leb (x + i) px && ltb px (x + i + suc left)) && lit_column bitmap row (px - x)
            then new
            else old)
  first_column i left x px on new old = elim (Bool-cases (px == x + i)) [
    | inl e ↦
        let at : px ≡ x + i = (==_iff px (x + i)).0 e in
        let off : px - x ≡ i = omega (arith, at) in
        let later : (leb (x + suc i) px && ltb px (x + suc i + left)) ≡ false =
          ground (arith, at) in
        let now : (leb (x + i) px && ltb px (x + i + suc left)) ≡ true = ground (arith, at) in
        rw (off, later, now, e) (only_now on (lit_column bitmap row i) new old)
    | inr e ↦
        let later : (leb (x + suc i) px && ltb px (x + suc i + left))
            ≡ (leb (x + i) px && ltb px (x + i + suc left)) =
          ground (arith, e) in
        rw (later, e) refl
  ]

  -- What the inner loop makes of the picture.
  abbrev IsDrawn : ℕ → ℕ → ℕ → ℕ → Color → Bytes → Bytes → Type 0
  IsDrawn left i x y color buffer after =
      (px py : ℕ)
      → px < 128
      → py < 64
      → pixel after px py ≡ (
          if (py == y)
            && (leb (x + i) px && ltb px (x + i + left))
            && lit_column bitmap row (px - x)
          then is_white color
          else pixel buffer px py)

  abbrev Drawn : ℕ → ℕ → ℕ → ℕ → ℕ → Color → Bytes → Type 0
  Drawn left i byte x y color buffer =
      (b : ℕ) × (after : Bytes) × (draw_columns bitmap row color x y left i byte buffer
        ≡ some (b, after))
      × (length after ≡ 1024)
      × IsDrawn left i x y color buffer after

  module _ (left i byte x y : ℕ) (color : Color) (buffer : Bytes) where
    abbrev RoundResult : ℕ → Type 0
    RoundResult b =
        (after : Bytes) × ((if bit_and b 0x80 == 0
            then some buffer
            else ssd1306_draw_pixel buffer (u8 (x + i)) y color)
          ≡ some after)
        × (length after ≡ 1024)
        × ((px py : ℕ)
            → px < 128
            → py < 64
            → pixel after px py ≡ (
                if (px == x + i && py == y) && lit_column bitmap row i
                then is_white color
                else pixel buffer px py))

    IsDrawn-suc :
        (buffer1 after : Bytes)
        → ((px py : ℕ)
            → px < 128
            → py < 64
            → pixel buffer1 px py ≡ (
                if (px == x + i && py == y) && lit_column bitmap row i
                then is_white color
                else pixel buffer px py))
        → IsDrawn left (suc i) x y color buffer1 after
        → IsDrawn (suc left) i x y color buffer after
    IsDrawn-suc buffer1 after p1 p2 px py hpx hpy =
        p2 px py hpx hpy
        ∙ rw (p1 px py hpx hpy)
            (first_column i left x px (py == y) (is_white color) (pixel buffer px py))

    draw_columns-suc :
        (b b2 : ℕ) (buffer1 after : Bytes)
        → next_byte bitmap row i byte ≡ some b
        → (if bit_and b 0x80 == 0
            then some buffer
            else ssd1306_draw_pixel buffer (u8 (x + i)) y color)
          ≡ some buffer1
        → draw_columns bitmap row color x y left (suc i) b buffer1 ≡ some (b2, after)
        → draw_columns bitmap row color x y (suc left) i byte buffer ≡ some (b2, after)
    unfolding draw_columns
    draw_columns-suc b b2 buffer1 after e e1 e2 = rw (e, e1) e2

    -- The rest of the loop after a round.
    draw_columns-rest :
        (b : ℕ) (done : RoundResult b)
        → next_byte bitmap row i byte ≡ some b
        → Drawn left (suc i) b x y color done.0
        → Drawn (suc left) i byte x y color buffer
    draw_columns-rest b (buffer1, e1, l1, p1) e (b2, after, e2, l2, p2) = (
      b2,
      after,
      draw_columns-suc b b2 buffer1 after e e1 e2,
      l2,
      IsDrawn-suc buffer1 after p1 p2,
    )

    -- A round, with the rest of the loop as it goes on from there.
    draw_columns-round :
        ((b : ℕ) (buffer1 : Bytes)
          → IsShifted bitmap row i b
          → length buffer1 ≡ 1024
          → Drawn left (suc i) b x y color buffer1)
        → (b : ℕ) × (next_byte bitmap row i byte ≡ some b) × IsShifted bitmap row i b
        → length buffer ≡ 1024
        → x + i < 128
        → y < 64
        → Drawn (suc left) i byte x y color buffer
    draw_columns-round rest (b, e, s) l hx hy =
        let done : RoundResult b = round b i x y color buffer s l hx hy in
        draw_columns-rest b done e (rest b done.0 s done.2)

  -- The inner loop.
  draw_columns-pixel :
      (left i byte x y : ℕ) (color : Color) (buffer : Bytes)
      → ((k : ℕ) → i ≡ suc k → IsShifted bitmap row k byte)
      → row + (i + left + 7) / 8 ≤ length bitmap
      → length buffer ≡ 1024
      → x + i + left ≤ 128
      → y < 64
      → Drawn left i byte x y color buffer
  unfolding draw_columns
  draw_columns-pixel zero i byte x y color buffer h m l hx hy =
      (byte, buffer, refl, l, λ px py hpx hpy. ground arith)
  draw_columns-pixel (suc left) i byte x y color buffer h m l hx hy =
      draw_columns-round left i byte x y color buffer
        (λ b buffer1 s l1.
          draw_columns-pixel left (suc i) b x y color buffer1
            (λ k q. subst (λ n. IsShifted bitmap row n b) (omega (arith, q)) s) (omega (arith, m))
            l1 (omega (arith, hx)) hy)
        (next_byte-IsShifted bitmap row i byte (omega (arith, m)) h) l (omega (arith, hx)) hy

  -- A whole row.
  pub draw_row-pixel :
      (width byte x y : ℕ) (color : Color) (buffer : Bytes)
      → row + (width + 7) / 8 ≤ length bitmap
      → length buffer ≡ 1024
      → x + width ≤ 128
      → y < 64
      → (b : ℕ) × (after : Bytes) × (draw_columns bitmap row color x y width 0 byte buffer
          ≡ some (b, after))
        × (length after ≡ 1024)
        × ((px py : ℕ)
            → px < 128
            → py < 64
            → pixel after px py ≡ (
                if (py == y) && (leb x px && ltb px (x + width)) && lit_column bitmap row (px - x)
                then is_white color
                else pixel buffer px py))
  draw_row-pixel width byte x y color buffer m l hx hy =
      let (b, after, e, n, p) =
        draw_columns-pixel width 0 byte x y color buffer (λ k q. absurd (omega (arith, q)))
          (omega (arith, m)) l (omega arith) hy in
      let start : x + 0 ≡ x = omega arith in
      (b, after, e, n, λ px py hpx hpy. p px py hpx hpy ∙ rw start refl)
