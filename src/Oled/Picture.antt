-- ===== src/Oled/Picture.antt =====
-- ssd1306_draw_bitmap of Driver/ssd1306.c as a whole.
use mathlib.Core.Path.{subst}
use native.Mathlib.Nat.{suc-mul}
use gateway_v.Base.{
  ℕ, zero, suc, ◌+◌, ◌-◌, ◌*◌, ◌/◌, ◌≤◌, ◌<◌, ◌≡◌, refl, ◌∙◌, inl, inr, arith, Bool, true, false,
  ◌&&◌, some, ◌∷◌, ltb, leb, ◌==◌, ==_iff, if◌then◌else◌, length, replicate, Bool-cases,
}
use gateway_v.Base.Word.{u8}
use gateway_v.Text.{Bytes}
use gateway_v.Oled.{I2c, Oled, Color, ssd1306_burst_write}
use gateway_v.Oled.Bitmap.{draw_rows, ssd1306_sync, ssd1306_draw_bitmap}
use gateway_v.Oled.Pixels.{is_white, pixel}
use gateway_v.Oled.Shifted.{lit_column}
use gateway_v.Oled.Drawn.{draw_row-pixel}

-- The bit of a bitmap at a column and a row. A row takes whole bytes, the top bit first.
unfoldable pub lit : Bytes → ℕ → ℕ → ℕ → Bool
lit bitmap width i j = lit_column bitmap (j * ((width + 7) / 8)) i

abbrev pub in_range : ℕ → ℕ → ℕ → Bool
in_range start n k = leb start k && ltb k (start + n)

no_row : (y py : ℕ) (on l new old : Bool) → old ≡ (if in_range y 0 py && on && l then new else old)
no_row y py on l new old = ground arith

module _ (bitmap : Bytes) (width : ℕ) (color : Color) (x : ℕ) where
  -- What is left of a picture after its first row.
  first_row :
      (j left y py : ℕ) (on new old : Bool) (l : ℕ → Bool)
      → (if in_range (y + 1) left py && on && l (suc j + (py - (y + 1)))
          then new
          else if (py == y) && on && l j
          then new
          else old)
        ≡ (if in_range y (suc left) py && on && l (j + (py - y)) then new else old)
  first_row j left y py on new old l = elim (Bool-cases (py == y)) [
    | inl e ↦
        let at : py ≡ y = (==_iff py y).0 e in
        let later : in_range (y + 1) left py ≡ false = ground (arith, at) in
        let now : in_range y (suc left) py ≡ true = ground (arith, at) in
        let off : j + (py - y) ≡ j = omega (arith, at) in rw (later, now, off, e) refl
    | inr e ↦ elim (Bool-cases (ltb py y)) [
      | inl above ↦
          let later : in_range (y + 1) left py ≡ false = ground (arith, above) in
          let now : in_range y (suc left) py ≡ false = ground (arith, above) in
          rw (later, now, e) refl
      | inr below ↦
          let later : in_range (y + 1) left py ≡ in_range y (suc left) py = ground (arith, e) in
          let off : suc j + (py - (y + 1)) ≡ j + (py - y) = ground (arith, e, below) in
          rw (later, off, e) refl
    ]
  ]

  draw_rows-pixel :
      (left j byte y : ℕ) (buffer : Bytes)
      → j * ((width + 7) / 8) + left * ((width + 7) / 8) ≤ length bitmap
      → length buffer ≡ 1024
      → x + width ≤ 128
      → y + left ≤ 64
      → (after : Bytes) × (draw_rows bitmap width color x y left j byte buffer ≡ some after)
        × (length after ≡ 1024)
        × ((px py : ℕ)
            → px < 128
            → py < 64
            → pixel after px py ≡ (
                if in_range y left py
                  && in_range x width px
                  && lit bitmap width (px - x) (j + (py - y))
                then is_white color
                else pixel buffer px py))
  unfolding draw_rows lit
  draw_rows-pixel zero j byte y buffer m l hx hy = (
    buffer,
    refl,
    l,
    λ px py hpx hpy.
        no_row y py (in_range x width px) (lit bitmap width (px - x) (j + (py - y)))
          (is_white color) (pixel buffer px py),
  )
  draw_rows-pixel (suc left) j byte y buffer m l hx hy =
      let bytes = (width + 7) / 8 in
      let (b1, buffer1, e1, l1, p1) =
        draw_row-pixel bitmap (j * bytes) width byte x y color buffer
          (omega (arith, m, suc-mul left bytes)) l hx (omega arith) in
      let next : u8 (y + 1) ≡ y + 1 = omega arith in
      let (buffer2, e2, l2, p2) =
        draw_rows-pixel left (suc j) b1 (u8 (y + 1)) buffer1
          (omega (arith, m, suc-mul left bytes, suc-mul j bytes)) l1 hx (omega arith) in
      (
        buffer2,
        rw e1 e2,
        l2,
        λ px py hpx hpy.
            p2 px py hpx hpy
            ∙ rw (p1 px py hpx hpy, next)
                (first_row j left y py (in_range x width px) (is_white color) (pixel buffer px py)
                  (λ k. lit bitmap width (px - x) k)),
      )

module _ (i2c : I2c) where
  open i2c use {Panel, i2c_master_send}

  -- Where the bitmap has its rows and the picture has room for it, ssd1306_draw_bitmap sends the whole
  -- buffer as data, in which the pixels of the bitmap's set bits have the color and all others are as
  -- they were, and clears the buffer.
  pub draw_bitmap-lit :
      (o : Oled Panel) (x y width height : ℕ) (bitmap : Bytes) (color : Color)
      → length o.buffer ≡ 1024
      → height * ((width + 7) / 8) ≤ length bitmap
      → x + width ≤ 128
      → y + height ≤ 64
      → (picture : Bytes) × (ssd1306_draw_bitmap i2c o x y bitmap width height color
          ≡ some (record o {
            panel = i2c_master_send o.panel (0x40 ∷ picture);
            buffer = replicate 1024 0;
          }))
        × (length picture ≡ 1024)
        × ((px py : ℕ)
            → px < 128
            → py < 64
            → pixel picture px py ≡ (
                if in_range y height py && in_range x width px && lit bitmap width (px - x) (py - y)
                then is_white color
                else pixel o.buffer px py))
  unfolding ssd1306_draw_bitmap ssd1306_sync ssd1306_burst_write
  draw_bitmap-lit o x y width height bitmap color l m hx hy =
      let (picture, e, n, p) =
        draw_rows-pixel bitmap width color x height 0 0 y o.buffer (omega (arith, m)) l hx hy in
      (
        picture,
        rw e refl,
        n,
        λ px py hpx hpy.
            let off : 0 + (py - y) ≡ py - y = omega arith in
            subst
              (λ k. pixel picture px py ≡ (
                if in_range y height py && in_range x width px && lit bitmap width (px - x) k
                then is_white color
                else pixel o.buffer px py))
              off (p px py hpx hpy),
      )
