-- ===== src/Oled.antt =====
-- The kernel driver of the SSD1306 display, Driver/ssd1306.c: its state, the bytes that it sends over
-- I2C, the cursor and the texts. `none` is an access out of bounds. kmalloc succeeds.
pub mod Font
pub mod Animation
pub mod Line
pub mod Info
pub mod Bitmap
pub mod Device
pub mod Painting
pub mod Glyphs
pub mod Cursor
pub mod Rows
pub mod Texts
pub mod Shown
pub mod Pixels
pub mod Shifted
pub mod Drawn
pub mod Picture
pub mod Overflow
pub mod Boot
pub mod Emulator
mod Tests
use gateway_v.Base.{
  ℕ, zero, suc, ◌+◌, ◌-◌, ◌*◌, ◌/◌, ◌%◌, ◌^◌, Bool, true, false, Option, none, some, List, [], ◌∷◌,
  ◌++◌, map, ltb, leb, ◌==◌, if◌then◌else◌, ◌>>=◌, length, get_elem?,
}
use gateway_v.Base.Word.{u8}
use gateway_v.Text.{Bytes}
use gateway_v.Oled.Font.{ssd1306_font}

abbrev pub oled_width : ℕ
oled_width = 128

abbrev pub oled_height : ℕ
oled_height = 64

abbrev pub font_x : ℕ
font_x = 6

-- OLED_WIDTH / FONT_X - 1 and OLED_HEIGHT / 8 - 1
abbrev pub max_x : ℕ
max_x = 20

abbrev pub max_y : ℕ
max_y = 7

abbrev pub buffer_bytes : ℕ
buffer_bytes = 1024

pub data Color : Type 0 where
  black white : Color

pub data WriteMode : Type 0 where
  command data_mode : WriteMode

-- The display behind the bus, and i2c_master_send of some bytes to it.
pub record I2c : Type 1 where
  pub Panel : Type 0
  pub i2c_master_send : Panel → Bytes → Panel

-- struct ssd1306, less the kernel's objects.
pub record Oled (P : Type 0) : Type 0 where
  pub panel : P
  pub current_x : ℕ
  pub current_y : ℕ
  pub buffer : Bytes

-- 0x00 for a command, 0x40 for display data.
abbrev pub control_byte : WriteMode → ℕ
control_byte command = 0x00
control_byte data_mode = 0x40

-- The row of the font for a character.
unfoldable pub glyph : ℕ → Option Bytes
glyph c = if ltb c 32 then none else get_elem? ssd1306_font (c - 32)

-- ~x of a byte.
abbrev pub inverted : ℕ → ℕ
inverted x = 255 - x

module _ (i2c : I2c) where
  open i2c use {Panel, i2c_master_send}

  unfoldable pub ssd1306_write : Oled Panel → ℕ → WriteMode → Oled Panel
  ssd1306_write o x mode = record o { panel = i2c_master_send o.panel (control_byte mode ∷ x ∷ []) }

  unfoldable pub ssd1306_burst_write : Oled Panel → Bytes → WriteMode → Oled Panel
  ssd1306_burst_write o bytes mode = record o {
    panel = i2c_master_send o.panel (control_byte mode ∷ bytes);
  }

  unfoldable pub commands : Oled Panel → List ℕ → Oled Panel
  commands o [] = o
  commands o (x ∷ l) = commands (ssd1306_write o x command) l

  -- for (i = 0; i < n; i++) ssd1306_write(oled, 0, DATA);
  unfoldable pub write_zeros : ℕ → Oled Panel → Oled Panel
  write_zeros zero o = o
  write_zeros (suc n) o = write_zeros n (ssd1306_write o 0 data_mode)

  unfoldable pub ssd1306_goto_xy : Oled Panel → ℕ → ℕ → Oled Panel
  ssd1306_goto_xy o x y =
      record (commands o (0x21 ∷ u8 (x * font_x) ∷ (oled_width - 1) ∷ 0x22 ∷ y ∷ max_y ∷ [])) {
        current_x = x;
        current_y = y;
      }

  unfoldable pub ssd1306_clear : Oled Panel → Oled Panel
  ssd1306_clear o = ssd1306_goto_xy (write_zeros 1024 o) 0 0

  unfoldable pub ssd1306_init : Oled Panel → Oled Panel
  ssd1306_init o = ssd1306_clear (
      commands o (
        0xD5 ∷ 0x80 ∷ 0xA8 ∷ 0x3F ∷ 0xD3 ∷ 0x00 ∷ 0x40 ∷ 0x8D ∷ 0x14 ∷ 0x20 ∷ 0x00 ∷ 0xA0 ∷ 0xC0
        ∷ 0xDA ∷ 0x12 ∷ 0x81 ∷ 0x7F ∷ 0xD9 ∷ 0xF1 ∷ 0xDB ∷ 0x20 ∷ 0xA4 ∷ 0xA6 ∷ 0xA0 ∷ 0x2E ∷ 0xAF
        ∷ []))

  unfoldable pub ssd1306_clear_row : Oled Panel → ℕ → Oled Panel
  ssd1306_clear_row o row =
      if leb row max_y then write_zeros (20 * font_x) (ssd1306_goto_xy o 0 row) else o

  unfoldable pub ssd1306_go_to_next_line : Oled Panel → Oled Panel
  ssd1306_go_to_next_line o =
      ssd1306_goto_xy o 0 (if o.current_y == max_y then 0 else u8 (o.current_y + 1))

  -- The line break in front of a character.
  abbrev pub break_line : Oled Panel → Oled Panel
  break_line o = if o.current_x == max_x then ssd1306_go_to_next_line o else o

  unfoldable pub ssd1306_send_char : Oled Panel → ℕ → Option (Oled Panel)
  ssd1306_send_char o c = glyph c >>= λ g.
      let o1 = break_line o in
      some (record (ssd1306_burst_write o1 g data_mode) { current_x = u8 (o1.current_x + 1) })

  unfoldable pub ssd1306_send_char_inv : Oled Panel → ℕ → Option (Oled Panel)
  ssd1306_send_char_inv o c = glyph c >>= λ g.
      let o1 = break_line o in
      some (record (ssd1306_burst_write o1 (map inverted g) data_mode) {
        current_x = u8 (o1.current_x + 1);
      })

  unfoldable pub send_colored : Oled Panel → ℕ → Color → Option (Oled Panel)
  send_colored o c white = ssd1306_send_char o c
  send_colored o c black = ssd1306_send_char_inv o c

  -- The string ends at a zero byte or at the list's end.
  unfoldable pub ssd1306_send_string : Oled Panel → Bytes → Color → Option (Oled Panel)
  ssd1306_send_string o [] color = some o
  ssd1306_send_string o (c ∷ s) color = elim (c == 0) [
    | true ↦ some o
    | false ↦ elim (send_colored o c color) [
      | none ↦ none
      | some o1 ↦ ssd1306_send_string o1 s color
    ]
  ]
