-- ===== src/Oled/Rows.antt =====
-- What print_row of Driver/ssd1306.c leaves in the display's memory.
use mathlib.Core.Path.{subst}
use gateway_v.Base.{
  ℕ, ◌+◌, ◌*◌, ◌≤◌, ◌<◌, ◌≡◌, refl, sym, ◌∙◌, arith, Bool, true, false, ◌&&◌, some, [], ◌∷◌, ltb,
  lt→ltb, ltb→lt, Bool-cases, inl, inr, le→leb, ◌==◌, if◌then◌else◌, length, get_or, get_or-beyond,
  replicate, get_or-replicate, ==_of_ne, All,
}
use gateway_v.Base.Word.{u8}
use gateway_v.Text.{Bytes}
use gateway_v.Oled.{
  I2c, Oled, white, max_x, commands, ssd1306_write, ssd1306_burst_write, ssd1306_goto_xy,
  ssd1306_clear_row, ssd1306_send_string, write_zeros,
}
use gateway_v.Oled.Info.{print_row, sprintf}
use gateway_v.Oled.Glyphs.{IsPrintable, columns, rendered, length-columns, length-rendered}
use gateway_v.Oled.Painting.{
  IsDisplay, IsAt, IsPainted, painted, IsPainted-append, IsPainted-nil, bytes-IsPainted,
  write_zeros-IsPainted,
}
use gateway_v.Oled.Cursor.{after_char, send_string-cons}

-- Memory f with a text in the first 120 columns of a row, zeros after its end.
unfoldable pub with_row : ℕ → Bytes → (ℕ → ℕ → ℕ) → ℕ → ℕ → ℕ
with_row row text f r c = if r == row && ltb c 120 then get_or (rendered text) c 0 else f r c

painted-zero :
    (row : ℕ) (bytes : Bytes) (f : ℕ → ℕ → ℕ) (r c : ℕ)
    → painted row 0 bytes f r c
      ≡ (if r == row && ltb c (length bytes) then get_or bytes c 0 else f r c)
unfolding painted
painted-zero row bytes f r c = ground arith

painted-zeros :
    (row : ℕ) (f : ℕ → ℕ → ℕ) (r c : ℕ)
    → painted row 0 (replicate 120 0) f r c ≡ (if r == row && ltb c 120 then 0 else f r c)
painted-zeros row f r c =
    rw (painted-zero row (replicate 120 0) f r c, get_or-replicate {A = ℕ} 120 c 0) refl

over_zeros :
    (b : Bool) (bytes : Bytes) (c old : ℕ)
    → length bytes ≤ 120
    → (if b && ltb c (length bytes) then get_or bytes c 0 else (if b && ltb c 120 then 0 else old))
      ≡ (if b && ltb c 120 then get_or bytes c 0 else old)
over_zeros false bytes c old l = refl
over_zeros true bytes c old l = elim (Bool-cases (ltb c (length bytes))) [
  | inl e ↦ rw (e, lt→ltb c 120 (omega (arith, ltb→lt c (length bytes) e))) refl
  | inr e ↦ rw (e, get_or-beyond bytes c 0 (ground arith)) refl
]

-- The zeros of a cleared row with the columns of a text over them.
with_row-of-painted :
    (row : ℕ) (text : Bytes) (f g h : ℕ → ℕ → ℕ)
    → length (rendered text) ≤ 120
    → ((r c : ℕ) → g r c ≡ painted row 0 (replicate 120 0) f r c)
    → ((r c : ℕ) → h r c ≡ painted row 0 (rendered text) g r c)
    → (r c : ℕ) → h r c ≡ with_row row text f r c
unfolding painted with_row
with_row-of-painted row text f g h l hg hh r c =
    hh r c
    ∙ painted-zero row (rendered text) g r c
    ∙ rw (hg r c, painted-zeros row f r c) (over_zeros (r == row) (rendered text) c (f r c) l)

painted-congr :
    (row col : ℕ) (bytes : Bytes) (f g : ℕ → ℕ → ℕ)
    → ((r c : ℕ) → f r c ≡ g r c)
    → (r c : ℕ) → painted row col bytes f r c ≡ painted row col bytes g r c
unfolding painted
painted-congr row col bytes f g h r c = rw (h r c) refl

module _ (i2c : I2c) (d : IsDisplay i2c) where
  open i2c use {Panel}
  open d use {cell, page, column, IsReady}

  -- A character that fits its row.
  char-IsPainted :
      (o : Oled Panel) (row c : ℕ)
      → IsAt i2c d o.panel row (6 * o.current_x)
      → o.current_x < 20
      → IsPrintable c
      → IsPainted i2c d o.panel (after_char i2c o c white).panel row (6 * o.current_x) (columns c)
        × ((after_char i2c o c white).current_x ≡ o.current_x + 1)
  unfolding ssd1306_burst_write
  char-IsPainted o row c a h p = rw (==_of_ne o.current_x max_x (λ e. absurd (omega arith))) (
    bytes-IsPainted i2c d (columns c) o.panel row (6 * o.current_x)
        (omega (arith, length-columns c p)) a (omega (arith, length-columns c p)),
    omega arith,
  )

  -- A text that fits its row.
  string-IsPainted :
      (s : Bytes) (o : Oled Panel) (row : ℕ)
      → IsAt i2c d o.panel row (6 * o.current_x)
      → o.current_x + length s ≤ 20
      → All IsPrintable s
      → (o1 : Oled Panel) × (ssd1306_send_string i2c o s white ≡ some o1)
        × IsPainted i2c d o.panel o1.panel row (6 * o.current_x) (rendered s)
  unfolding ssd1306_send_string rendered
  string-IsPainted [] o row a h p = (o, refl, IsPainted-nil i2c d o.panel row (6 * o.current_x) a)
  string-IsPainted (c ∷ s) o row a h (p, ps) =
      let o1 = after_char i2c o c white in
      let (b, e) = char-IsPainted o row c a (omega arith) p in
      let at = 6 * o.current_x + length (columns c) in
      let same : 6 * o1.current_x ≡ at = omega (arith, e, length-columns c p) in
      let (o2, e2, b2) =
        string-IsPainted s o1 row (subst (λ x. IsAt i2c d o1.panel row x) (sym same) b.end)
          (omega (arith, e)) ps in
      (
        o2,
        send_string-cons i2c o c s white p ∙ e2,
        IsPainted-append i2c d o.panel o1.panel o2.panel row (6 * o.current_x) (columns c)
            (rendered s) b
            (subst (λ x. IsPainted i2c d o1.panel o2.panel row x (rendered s)) same b2),
      )

  -- ssd1306_goto_xy of a place in a row.
  goto_xy-IsAt :
      (o : Oled Panel) (x row : ℕ)
      → IsReady o.panel
      → x ≤ 20
      → row ≤ 7
      → IsAt i2c d (ssd1306_goto_xy i2c o x row).panel row (6 * x)
        × ((r c : ℕ) → cell (ssd1306_goto_xy i2c o x row).panel r c ≡ cell o.panel r c)
  unfolding ssd1306_goto_xy commands ssd1306_write
  goto_xy-IsAt o x row a h k =
      let col : ℕ = u8 (x * 6) in
      let le : col < 128 = omega arith in
      (
        record {
          ready = d.window_ready o.panel col row a le k;
          at_page = d.window_page o.panel col row a le k;
          at_column = omega (arith, d.window_column o.panel col row a le k);
        },
        d.window_cell o.panel col row a le k,
      )

  -- A text of at most 19 characters of the font is shown in its row: the row's first 120 columns are
  -- those of the text and zeros after it, and the rest of the memory is as before.
  pub print_row-with_row :
      (o : Oled Panel) (row : ℕ) (text : Bytes)
      → IsReady o.panel
      → row ≤ 7
      → length text ≤ 19
      → All IsPrintable text
      → (o1 : Oled Panel) × (print_row i2c o row text ≡ some o1)
        × IsReady o1.panel
        × ((r c : ℕ) → cell o1.panel r c ≡ with_row row text (cell o.panel) r c)
  unfolding print_row sprintf ssd1306_clear_row ssd1306_goto_xy
  print_row-with_row o row text a k l p =
      let (at1, same1) = goto_xy-IsAt o 0 row a (omega arith) k in
      let o1 = ssd1306_goto_xy i2c o 0 row in
      let o2 = write_zeros i2c 120 o1 in
      let o3 = ssd1306_goto_xy i2c o2 0 row in
      let zeros = write_zeros-IsPainted i2c d 120 o1 row 0 at1 (omega arith) in
      let (at3, same3) = goto_xy-IsAt o2 0 row zeros.end.ready (omega arith) k in
      let (o4, e, shown) = string-IsPainted text o3 row at3 (omega arith) p in
      (
        o4,
        rw (lt→ltb (length text) 20 (omega arith), le→leb row 7 k) e,
        shown.end.ready,
        with_row-of-painted row text (cell o.panel) (cell o2.panel) (cell o4.panel)
            (omega (arith, length-rendered text p))
            (λ r c.
              zeros.cells r c
              ∙ painted-congr row 0 (replicate 120 0) (cell o1.panel) (cell o.panel) same1 r c)
            (λ r c.
              shown.cells r c
              ∙ painted-congr row 0 (rendered text) (cell o3.panel) (cell o2.panel) same3 r c),
      )
