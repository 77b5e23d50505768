-- ===== src/Oled/Cursor.antt =====
-- Where ssd1306_send_string leaves the cursor.
use gateway_v.Base.{
  ℕ, ◌+◌, ◌*◌, ◌%◌, ◌≤◌, ◌≡◌, refl, ◌∙◌, arith, some, [], ◌∷◌, ==_of_ne, ◌==◌, map, length, All,
  Bool-cases, inl, inr,
}
use gateway_v.Base.Word.{u8}
use gateway_v.Text.{Bytes}
use gateway_v.Oled.{
  I2c, Oled, Color, black, white, max_x, max_y, data_mode, inverted, break_line,
  ssd1306_burst_write, ssd1306_goto_xy, ssd1306_go_to_next_line, ssd1306_send_char,
  ssd1306_send_char_inv, send_colored, ssd1306_send_string,
}
use gateway_v.Oled.Glyphs.{IsPrintable, columns, glyph-columns}

module _ (i2c : I2c) where
  open i2c use {Panel}

  -- The columns that a character sends in a color.
  abbrev pub colored_columns : Color → ℕ → Bytes
  colored_columns white c = columns c
  colored_columns black c = map inverted (columns c)

  abbrev pub after_char : Oled Panel → ℕ → Color → Oled Panel
  after_char o c color =
      let o1 = break_line i2c o in
      record (ssd1306_burst_write i2c o1 (colored_columns color c) data_mode) {
        current_x = u8 (o1.current_x + 1);
      }

  pub send_colored-after_char :
      (o : Oled Panel) (c : ℕ) (color : Color)
      → IsPrintable c
      → send_colored i2c o c color ≡ some (after_char o c color)
  unfolding send_colored ssd1306_send_char ssd1306_send_char_inv
  send_colored-after_char o c white p = rw (glyph-columns c p) refl
  send_colored-after_char o c black p = rw (glyph-columns c p) refl

  -- One round of the loop.
  pub send_string-cons :
      (o : Oled Panel) (c : ℕ) (s : Bytes) (color : Color)
      → IsPrintable c
      → ssd1306_send_string i2c o (c ∷ s) color
        ≡ ssd1306_send_string i2c (after_char o c color) s color
  unfolding ssd1306_send_string
  send_string-cons o c s color p =
      ground (arith, ==_of_ne c 0 (λ e. absurd (omega arith)), send_colored-after_char o c color p)

  pub record IsInside (o : Oled Panel) : Type 0 where
    pub column : o.current_x ≤ max_x
    pub line : o.current_y ≤ max_y

  -- The place of the cursor in reading order; the end of a line is the start of the next one.
  unfoldable pub place : Oled Panel → ℕ
  place o = (20 * o.current_y + o.current_x) % 160

  place-mod : (o : Oled Panel) → place o ≡ (place o + 0) % 160
  unfolding place
  place-mod o = omega arith

  after_char-IsInside :
      (o : Oled Panel) (c : ℕ) (color : Color)
      → IsInside o
      → IsInside (after_char o c color) × (place (after_char o c color) ≡ (place o + 1) % 160)
  unfolding ssd1306_burst_write ssd1306_go_to_next_line ssd1306_goto_xy place
  after_char-IsInside o c color h =
      let at = h.column in
      let on = h.line in
      elim (Bool-cases (o.current_x == max_x)) [
        | inl e ↦ rw e (record { column = omega arith; line = ground arith }, ground (e, arith))
        | inr e ↦
            rw e (record { column = ground (e, arith); line = omega arith }, ground (e, arith))
      ]

  -- From a cursor on the display, ssd1306_send_string of characters of the font in either color returns
  -- with the cursor on the display, as many places further in reading order as there are characters,
  -- where the last place is followed by the first.
  pub send_string-place :
      (o : Oled Panel) (s : Bytes) (color : Color)
      → IsInside o
      → All IsPrintable s
      → (o1 : Oled Panel) × (ssd1306_send_string i2c o s color ≡ some o1)
        × IsInside o1
        × (place o1 ≡ (place o + length s) % 160)
  unfolding ssd1306_send_string
  send_string-place o [] color h p = (o, refl, h, place-mod o)
  send_string-place o (c ∷ s) color h (p, ps) =
      let (h1, e1) = after_char-IsInside o c color h in
      let (o2, e2, h2, q2) = send_string-place (after_char o c color) s color h1 ps in
      (o2, send_string-cons o c s color p ∙ e2, h2, omega (arith, e1, q2))
