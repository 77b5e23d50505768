-- ===== src/Oled/Bitmap.antt =====
-- Drawing on the buffer of Driver/ssd1306.c: ssd1306_draw_pixel, ssd1306_draw_bitmap and ssd1306_sync.
-- `none` is an access out of bounds.
use gateway_v.Base.{
  ℕ, zero, suc, ◌+◌, ◌-◌, ◌*◌, ◌/◌, ◌%◌, ◌||◌, Option, some, ltb, ◌==◌, if◌then◌else◌, ◌>>=◌,
  bit_and, bit_or, get_elem?, set, replicate,
}
use gateway_v.Base.Word.{u8, shl}
use gateway_v.Text.{Bytes}
use gateway_v.Oled.{
  Oled, I2c, Color, black, white, data_mode, oled_width, oled_height, buffer_bytes,
  ssd1306_burst_write,
}

-- The byte of the buffer and its bit that draw_pixel addresses.
abbrev pub pixel_byte : ℕ → ℕ → ℕ
pixel_byte x y = x + (y / 8) * oled_width

-- buffer[…] |= 1 << k and buffer[…] &= ~(1 << k).
abbrev pub colored : Color → ℕ → ℕ → ℕ
colored white b k = bit_or b (shl 1 k)
colored black b k = bit_and b (255 - shl 1 k)

-- What ssd1306_draw_pixel makes of the buffer; its result, which no caller reads, is left out.
unfoldable pub ssd1306_draw_pixel : Bytes → ℕ → ℕ → Color → Option Bytes
ssd1306_draw_pixel buffer x y color =
    if ltb oled_width x || ltb oled_height y
    then some buffer
    else get_elem? buffer (pixel_byte x y) >>= λ b.
        some (set buffer (pixel_byte x y) (colored color b (y % 8)))

-- The bitmap's byte at the loop's i, or the last one shifted.
unfoldable pub next_byte : Bytes → ℕ → ℕ → ℕ → Option ℕ
next_byte bitmap row i byte =
    if bit_and i 7 == 0 then get_elem? bitmap (row + i / 8) else some (u8 (shl byte 1))

-- The inner loop with `left` rounds left, on the row of the bitmap that starts at byte `row`. The
-- byte outlives the loop.
unfoldable pub draw_columns : Bytes → ℕ → Color → ℕ → ℕ → ℕ → ℕ → ℕ → Bytes → Option (ℕ × Bytes)
draw_columns bitmap row color x y zero i byte buffer = some (byte, buffer)
draw_columns bitmap row color x y (suc left) i byte buffer = next_byte bitmap row i byte >>= λ b.
    (if bit_and b 0x80 == 0 then some buffer else ssd1306_draw_pixel buffer (u8 (x + i)) y color)
    >>= λ buffer1. draw_columns bitmap row color x y left (suc i) b buffer1

-- The outer loop with `left` rounds left.
unfoldable pub draw_rows : Bytes → ℕ → Color → ℕ → ℕ → ℕ → ℕ → ℕ → Bytes → Option Bytes
draw_rows bitmap width color x y zero j byte buffer = some buffer
draw_rows bitmap width color x y (suc left) j byte buffer =
    draw_columns bitmap (j * ((width + 7) / 8)) color x y width 0 byte buffer
    >>= λ (byte1, buffer1). draw_rows bitmap width color x (u8 (y + 1)) left (suc j) byte1 buffer1

module _ (i2c : I2c) where
  open i2c use {Panel}

  unfoldable pub ssd1306_sync : Oled Panel → Oled Panel
  ssd1306_sync o = record (ssd1306_burst_write i2c o o.buffer data_mode) {
    buffer = replicate buffer_bytes 0;
  }

  unfoldable pub ssd1306_draw_bitmap :
      Oled Panel → ℕ → ℕ → Bytes → ℕ → ℕ → Color → Option (Oled Panel)
  ssd1306_draw_bitmap o x y bitmap width height color =
      draw_rows bitmap width color x y height 0 0 o.buffer >>= λ buffer.
      some (ssd1306_sync (record o { buffer = buffer }))
