-- ===== src/Oled/Animation/BootFirst.antt =====
-- The first picture of bootAnimation in Driver/ssd1306.h, by rows of 128 pixels.
use gateway_v.Base.{List, [], ◌∷◌}
use gateway_v.Text.{Bytes}

unfoldable pub boot_first : List Bytes
boot_first =
    (0x00 ∷ 0x00 ∷ 0x00 ∷ 0x00 ∷ 0x00 ∷ 0x00 ∷ 0x00 ∷ 0x00 ∷ 0x00 ∷ 0x00 ∷ 0x00 ∷ 0x00 ∷ 0x00 ∷ 0x00
      ∷ 0x00 ∷ 0x00 ∷ [])
    ∷ (0x00 ∷ 0x00 ∷ 0x00 ∷ 0x00 ∷ 0x00 ∷ 0x00 ∷ 0x00 ∷ 0x00 ∷ 0x00 ∷ 0x00 ∷ 0x00 ∷ 0x00 ∷ 0x00
        ∷ 0x00 ∷ 0x00 ∷ 0x00 ∷ [])
    ∷ (0x00 ∷ 0x00 ∷ 0x00 ∷ 0x00 ∷ 0x00 ∷ 0x00 ∷ 0x00 ∷ 0x00 ∷ 0x00 ∷ 0x00 ∷ 0x00 ∷ 0x00 ∷ 0x00
        ∷ 0x00 ∷ 0x00 ∷ 0x00 ∷ [])
    ∷ (0x00 ∷ 0x00 ∷ 0x00 ∷ 0x00 ∷ 0x00 ∷ 0x00 ∷ 0x00 ∷ 0x00 ∷ 0x00 ∷ 0x00 ∷ 0x00 ∷ 0x00 ∷ 0x00
        ∷ 0x00 ∷ 0x00 ∷ 0x00 ∷ [])
    ∷ (0x00 ∷ 0x00 ∷ 0x00 ∷ 0x00 ∷ 0x00 ∷ 0x00 ∷ 0x00 ∷ 0x00 ∷ 0x00 ∷ 0x00 ∷ 0x00 ∷ 0x00 ∷ 0x00
        ∷ 0x00 ∷ 0x00 ∷ 0x00 ∷ [])
    ∷ (0x00 ∷ 0x00 ∷ 0x00 ∷ 0x00 ∷ 0x00 ∷ 0x00 ∷ 0x00 ∷ 0x00 ∷ 0x00 ∷ 0x00 ∷ 0x00 ∷ 0x00 ∷ 0x00
        ∷ 0x00 ∷ 0x00 ∷ 0x00 ∷ [])
    ∷ (0x00 ∷ 0x00 ∷ 0x00 ∷ 0x00 ∷ 0x00 ∷ 0x00 ∷ 0x00 ∷ 0x00 ∷ 0x00 ∷ 0x00 ∷ 0x00 ∷ 0x00 ∷ 0x00
        ∷ 0x00 ∷ 0x00 ∷ 0x00 ∷ [])
    ∷ (0x00 ∷ 0x00 ∷ 0x00 ∷ 0x00 ∷ 0x00 ∷ 0x00 ∷ 0x00 ∷ 0x00 ∷ 0x00 ∷ 0x00 ∷ 0x00 ∷ 0x00 ∷ 0x00
        ∷ 0x00 ∷ 0x00 ∷ 0x00 ∷ [])
    ∷ (0x00 ∷ 0x00 ∷ 0x00 ∷ 0x00 ∷ 0x00 ∷ 0x00 ∷ 0x00 ∷ 0x00 ∷ 0x00 ∷ 0x00 ∷ 0x00 ∷ 0x00 ∷ 0x00
        ∷ 0x00 ∷ 0x00 ∷ 0x00 ∷ [])
    ∷ (0x00 ∷ 0x00 ∷ 0x00 ∷ 0x00 ∷ 0x00 ∷ 0x00 ∷ 0x00 ∷ 0x00 ∷ 0x00 ∷ 0x00 ∷ 0x00 ∷ 0x00 ∷ 0x00
        ∷ 0x00 ∷ 0x00 ∷ 0x00 ∷ [])
    ∷ (0x00 ∷ 0x00 ∷ 0x00 ∷ 0x00 ∷ 0x00 ∷ 0x00 ∷ 0x00 ∷ 0x00 ∷ 0x00 ∷ 0x00 ∷ 0x00 ∷ 0x00 ∷ 0x00
        ∷ 0x00 ∷ 0x00 ∷ 0x00 ∷ [])
    ∷ (0x00 ∷ 0x00 ∷ 0x00 ∷ 0x00 ∷ 0x00 ∷ 0x00 ∷ 0x00 ∷ 0x00 ∷ 0x00 ∷ 0x00 ∷ 0x00 ∷ 0x00 ∷ 0x00
        ∷ 0x00 ∷ 0x00 ∷ 0x00 ∷ [])
    ∷ (0x00 ∷ 0x00 ∷ 0x00 ∷ 0x00 ∷ 0x00 ∷ 0x00 ∷ 0x00 ∷ 0x00 ∷ 0x00 ∷ 0x00 ∷ 0x00 ∷ 0x00 ∷ 0x00
        ∷ 0x00 ∷ 0x00 ∷ 0x00 ∷ [])
    ∷ (0x00 ∷ 0x00 ∷ 0x00 ∷ 0x00 ∷ 0x00 ∷ 0x00 ∷ 0x00 ∷ 0x00 ∷ 0x00 ∷ 0x00 ∷ 0x00 ∷ 0x00 ∷ 0x00
        ∷ 0x00 ∷ 0x00 ∷ 0x00 ∷ [])
    ∷ (0x00 ∷ 0x00 ∷ 0x00 ∷ 0x00 ∷ 0x00 ∷ 0x00 ∷ 0x00 ∷ 0x00 ∷ 0x00 ∷ 0x00 ∷ 0x00 ∷ 0x00 ∷ 0x00
        ∷ 0x00 ∷ 0x00 ∷ 0x00 ∷ [])
    ∷ (0x00 ∷ 0x00 ∷ 0x00 ∷ 0x00 ∷ 0x00 ∷ 0x00 ∷ 0x00 ∷ 0x01 ∷ 0xF0 ∷ 0x00 ∷ 0x00 ∷ 0x00 ∷ 0x00
        ∷ 0x00 ∷ 0x00 ∷ 0x00 ∷ [])
    ∷ (0x00 ∷ 0x00 ∷ 0x00 ∷ 0x00 ∷ 0x00 ∷ 0x00 ∷ 0x00 ∷ 0x1F ∷ 0xFE ∷ 0x00 ∷ 0x00 ∷ 0x00 ∷ 0x00
        ∷ 0x00 ∷ 0x00 ∷ 0x00 ∷ [])
    ∷ (0x00 ∷ 0x00 ∷ 0x00 ∷ 0x00 ∷ 0x00 ∷ 0x00 ∷ 0x1C ∷ 0x7F ∷ 0xFF ∷ 0x80 ∷ 0x00 ∷ 0x00 ∷ 0x00
        ∷ 0x00 ∷ 0x00 ∷ 0x00 ∷ [])
    ∷ (0x00 ∷ 0x00 ∷ 0x00 ∷ 0x00 ∷ 0x00 ∷ 0x00 ∷ 0xFF ∷ 0xFF ∷ 0xFF ∷ 0xE0 ∷ 0x00 ∷ 0x00 ∷ 0x00
        ∷ 0x00 ∷ 0x00 ∷ 0x00 ∷ [])
    ∷ (0x00 ∷ 0x00 ∷ 0x00 ∷ 0x00 ∷ 0x00 ∷ 0x03 ∷ 0xFF ∷ 0xFF ∷ 0xFF ∷ 0xF0 ∷ 0x00 ∷ 0x00 ∷ 0x00
        ∷ 0x00 ∷ 0x00 ∷ 0x00 ∷ [])
    ∷ (0x00 ∷ 0x00 ∷ 0x00 ∷ 0x00 ∷ 0x00 ∷ 0x07 ∷ 0xFF ∷ 0xC0 ∷ 0x7F ∷ 0xF8 ∷ 0x00 ∷ 0x00 ∷ 0x00
        ∷ 0x00 ∷ 0x00 ∷ 0x00 ∷ [])
    ∷ (0x00 ∷ 0x00 ∷ 0x00 ∷ 0x00 ∷ 0x00 ∷ 0x07 ∷ 0xFF ∷ 0x00 ∷ 0x0F ∷ 0xFC ∷ 0x00 ∷ 0x00 ∷ 0x00
        ∷ 0x00 ∷ 0x00 ∷ 0x00 ∷ [])
    ∷ (0x00 ∷ 0x00 ∷ 0x00 ∷ 0x00 ∷ 0x00 ∷ 0x0F ∷ 0xFC ∷ 0x1F ∷ 0x07 ∷ 0xFE ∷ 0x00 ∷ 0x00 ∷ 0x00
        ∷ 0x00 ∷ 0x00 ∷ 0x00 ∷ [])
    ∷ (0x00 ∷ 0x00 ∷ 0x00 ∷ 0x00 ∷ 0x00 ∷ 0x0F ∷ 0xF8 ∷ 0xFF ∷ 0xE3 ∷ 0xFF ∷ 0x00 ∷ 0x00 ∷ 0x00
        ∷ 0x00 ∷ 0x00 ∷ 0x00 ∷ [])
    ∷ (0x00 ∷ 0x00 ∷ 0x00 ∷ 0x00 ∷ 0x00 ∷ 0x1F ∷ 0xF9 ∷ 0x80 ∷ 0x33 ∷ 0xFF ∷ 0x00 ∷ 0x00 ∷ 0x00
        ∷ 0x00 ∷ 0x00 ∷ 0x00 ∷ [])
    ∷ (0x00 ∷ 0x00 ∷ 0x00 ∷ 0x00 ∷ 0x00 ∷ 0x1F ∷ 0xFF ∷ 0x00 ∷ 0x1F ∷ 0xFF ∷ 0x80 ∷ 0x00 ∷ 0x00
        ∷ 0x00 ∷ 0x00 ∷ 0x00 ∷ [])
    ∷ (0x00 ∷ 0x00 ∷ 0x00 ∷ 0x00 ∷ 0x00 ∷ 0x1F ∷ 0xFE ∷ 0x3F ∷ 0x8F ∷ 0xFF ∷ 0x80 ∷ 0x00 ∷ 0x00
        ∷ 0x00 ∷ 0x00 ∷ 0x00 ∷ [])
    ∷ (0x00 ∷ 0x00 ∷ 0x00 ∷ 0x00 ∷ 0x00 ∷ 0x3F ∷ 0xFF ∷ 0x60 ∷ 0xFF ∷ 0xFF ∷ 0x80 ∷ 0x00 ∷ 0x00
        ∷ 0x00 ∷ 0x00 ∷ 0x00 ∷ [])
    ∷ (0x00 ∷ 0x00 ∷ 0x00 ∷ 0x00 ∷ 0x00 ∷ 0xFF ∷ 0xFF ∷ 0xC0 ∷ 0x3F ∷ 0xFF ∷ 0x80 ∷ 0x00 ∷ 0x00
        ∷ 0x00 ∷ 0x00 ∷ 0x00 ∷ [])
    ∷ (0x00 ∷ 0x00 ∷ 0x00 ∷ 0x00 ∷ 0x01 ∷ 0xFF ∷ 0xFF ∷ 0xCE ∷ 0x3F ∷ 0xFF ∷ 0xC0 ∷ 0x00 ∷ 0x00
        ∷ 0x00 ∷ 0x00 ∷ 0x00 ∷ [])
    ∷ (0x00 ∷ 0x00 ∷ 0x00 ∷ 0x00 ∷ 0x01 ∷ 0xFF ∷ 0xFF ∷ 0xFF ∷ 0xFF ∷ 0xFF ∷ 0xF0 ∷ 0x00 ∷ 0x00
        ∷ 0x00 ∷ 0x00 ∷ 0x00 ∷ [])
    ∷ (0x00 ∷ 0x00 ∷ 0x00 ∷ 0x00 ∷ 0x03 ∷ 0xFF ∷ 0xC7 ∷ 0xFF ∷ 0xF0 ∷ 0x03 ∷ 0xFE ∷ 0x00 ∷ 0x00
        ∷ 0x00 ∷ 0x00 ∷ 0x00 ∷ [])
    ∷ (0x00 ∷ 0x00 ∷ 0x00 ∷ 0x00 ∷ 0x03 ∷ 0xFF ∷ 0xC7 ∷ 0xFF ∷ 0xE0 ∷ 0x03 ∷ 0xFF ∷ 0x00 ∷ 0x00
        ∷ 0x00 ∷ 0x00 ∷ 0x00 ∷ [])
    ∷ (0x00 ∷ 0x00 ∷ 0x00 ∷ 0x00 ∷ 0x07 ∷ 0xFF ∷ 0xC7 ∷ 0xC0 ∷ 0x60 ∷ 0x03 ∷ 0xFF ∷ 0x80 ∷ 0x00
        ∷ 0x00 ∷ 0x00 ∷ 0x00 ∷ [])
    ∷ (0x00 ∷ 0x00 ∷ 0x00 ∷ 0x00 ∷ 0x07 ∷ 0xFF ∷ 0xC7 ∷ 0x80 ∷ 0x3E ∷ 0x1F ∷ 0xFF ∷ 0xC0 ∷ 0x00
        ∷ 0x00 ∷ 0x00 ∷ 0x00 ∷ [])
    ∷ (0x00 ∷ 0x00 ∷ 0x00 ∷ 0x00 ∷ 0x07 ∷ 0xFF ∷ 0xC7 ∷ 0x00 ∷ 0x1E ∷ 0x1F ∷ 0xFF ∷ 0xC0 ∷ 0x00
        ∷ 0x00 ∷ 0x00 ∷ 0x00 ∷ [])
    ∷ (0x00 ∷ 0x00 ∷ 0x00 ∷ 0x00 ∷ 0x07 ∷ 0xFF ∷ 0xC7 ∷ 0x00 ∷ 0x0E ∷ 0x1F ∷ 0xFF ∷ 0xE0 ∷ 0x00
        ∷ 0x00 ∷ 0x00 ∷ 0x00 ∷ [])
    ∷ (0x00 ∷ 0x00 ∷ 0x00 ∷ 0x00 ∷ 0x07 ∷ 0xFF ∷ 0xC6 ∷ 0x0F ∷ 0x0E ∷ 0x1F ∷ 0xFF ∷ 0xE0 ∷ 0x00
        ∷ 0x00 ∷ 0x00 ∷ 0x00 ∷ [])
    ∷ (0x00 ∷ 0x00 ∷ 0x00 ∷ 0x00 ∷ 0x07 ∷ 0xFF ∷ 0xC6 ∷ 0x1F ∷ 0x0E ∷ 0x1F ∷ 0xFF ∷ 0xE0 ∷ 0x00
        ∷ 0x00 ∷ 0x00 ∷ 0x00 ∷ [])
    ∷ (0x00 ∷ 0x00 ∷ 0x00 ∷ 0x00 ∷ 0x07 ∷ 0xFF ∷ 0xC6 ∷ 0x1F ∷ 0x0E ∷ 0x1F ∷ 0xFF ∷ 0xE0 ∷ 0x00
        ∷ 0x00 ∷ 0x00 ∷ 0x00 ∷ [])
    ∷ (0x00 ∷ 0x00 ∷ 0x00 ∷ 0x00 ∷ 0x07 ∷ 0xFF ∷ 0xC6 ∷ 0x0F ∷ 0x0E ∷ 0x1F ∷ 0xFF ∷ 0xE0 ∷ 0x00
        ∷ 0x00 ∷ 0x00 ∷ 0x00 ∷ [])
    ∷ (0x00 ∷ 0x00 ∷ 0x00 ∷ 0x00 ∷ 0x03 ∷ 0xFF ∷ 0xC7 ∷ 0x00 ∷ 0x0E ∷ 0x1F ∷ 0xFF ∷ 0xE0 ∷ 0x00
        ∷ 0x00 ∷ 0x00 ∷ 0x00 ∷ [])
    ∷ (0x00 ∷ 0x00 ∷ 0x00 ∷ 0x00 ∷ 0x03 ∷ 0xFF ∷ 0xC7 ∷ 0x00 ∷ 0x1E ∷ 0x1F ∷ 0xFF ∷ 0xE0 ∷ 0x00
        ∷ 0x00 ∷ 0x00 ∷ 0x00 ∷ [])
    ∷ (0x00 ∷ 0x00 ∷ 0x00 ∷ 0x00 ∷ 0x01 ∷ 0xFF ∷ 0xC7 ∷ 0x80 ∷ 0x3E ∷ 0x1F ∷ 0xFF ∷ 0xC0 ∷ 0x00
        ∷ 0x00 ∷ 0x00 ∷ 0x00 ∷ [])
    ∷ (0x00 ∷ 0x00 ∷ 0x00 ∷ 0x00 ∷ 0x01 ∷ 0xFF ∷ 0xC7 ∷ 0xC0 ∷ 0x7E ∷ 0x1F ∷ 0xFF ∷ 0xC0 ∷ 0x00
        ∷ 0x00 ∷ 0x00 ∷ 0x00 ∷ [])
    ∷ (0x00 ∷ 0x00 ∷ 0x00 ∷ 0x00 ∷ 0x00 ∷ 0xFF ∷ 0xD7 ∷ 0xF9 ∷ 0xFF ∷ 0xBF ∷ 0xFF ∷ 0x80 ∷ 0x00
        ∷ 0x00 ∷ 0x00 ∷ 0x00 ∷ [])
    ∷ (0x00 ∷ 0x00 ∷ 0x00 ∷ 0x00 ∷ 0x00 ∷ 0x3F ∷ 0xFF ∷ 0xFF ∷ 0xFF ∷ 0xFF ∷ 0xFF ∷ 0x00 ∷ 0x00
        ∷ 0x00 ∷ 0x00 ∷ 0x00 ∷ [])
    ∷ (0x00 ∷ 0x00 ∷ 0x00 ∷ 0x00 ∷ 0x00 ∷ 0x1F ∷ 0xFF ∷ 0xFF ∷ 0xFF ∷ 0xFF ∷ 0xFC ∷ 0x00 ∷ 0x00
        ∷ 0x00 ∷ 0x00 ∷ 0x00 ∷ [])
    ∷ (0x00 ∷ 0x00 ∷ 0x00 ∷ 0x00 ∷ 0x00 ∷ 0x01 ∷ 0xFF ∷ 0xFF ∷ 0xFF ∷ 0xFF ∷ 0xF0 ∷ 0x00 ∷ 0x00
        ∷ 0x00 ∷ 0x00 ∷ 0x00 ∷ [])
    ∷ (0x00 ∷ 0x00 ∷ 0x00 ∷ 0x00 ∷ 0x00 ∷ 0x00 ∷ 0x00 ∷ 0x00 ∷ 0x00 ∷ 0x00 ∷ 0x00 ∷ 0x00 ∷ 0x00
        ∷ 0x00 ∷ 0x00 ∷ 0x00 ∷ [])
    ∷ (0x00 ∷ 0x00 ∷ 0x00 ∷ 0x00 ∷ 0x00 ∷ 0x00 ∷ 0x00 ∷ 0x00 ∷ 0x00 ∷ 0x00 ∷ 0x00 ∷ 0x00 ∷ 0x00
        ∷ 0x00 ∷ 0x00 ∷ 0x00 ∷ [])
    ∷ (0x00 ∷ 0x00 ∷ 0x00 ∷ 0x00 ∷ 0x00 ∷ 0x00 ∷ 0x00 ∷ 0x00 ∷ 0x00 ∷ 0x00 ∷ 0x00 ∷ 0x00 ∷ 0x00
        ∷ 0x00 ∷ 0x00 ∷ 0x00 ∷ [])
    ∷ (0x00 ∷ 0x00 ∷ 0x00 ∷ 0x00 ∷ 0x00 ∷ 0x00 ∷ 0x00 ∷ 0x00 ∷ 0x00 ∷ 0x00 ∷ 0x00 ∷ 0x00 ∷ 0x00
        ∷ 0x00 ∷ 0x00 ∷ 0x00 ∷ [])
    ∷ (0x00 ∷ 0x00 ∷ 0x00 ∷ 0x00 ∷ 0x00 ∷ 0x00 ∷ 0x00 ∷ 0x00 ∷ 0x00 ∷ 0x00 ∷ 0x00 ∷ 0x00 ∷ 0x00
        ∷ 0x00 ∷ 0x00 ∷ 0x00 ∷ [])
    ∷ (0x00 ∷ 0x00 ∷ 0x00 ∷ 0x00 ∷ 0x00 ∷ 0x00 ∷ 0x00 ∷ 0x00 ∷ 0x00 ∷ 0x00 ∷ 0x00 ∷ 0x00 ∷ 0x00
        ∷ 0x00 ∷ 0x00 ∷ 0x00 ∷ [])
    ∷ (0x00 ∷ 0x00 ∷ 0x00 ∷ 0x00 ∷ 0x00 ∷ 0x00 ∷ 0x00 ∷ 0x00 ∷ 0x00 ∷ 0x00 ∷ 0x00 ∷ 0x00 ∷ 0x00
        ∷ 0x00 ∷ 0x00 ∷ 0x00 ∷ [])
    ∷ (0x00 ∷ 0x00 ∷ 0x00 ∷ 0x00 ∷ 0x00 ∷ 0x00 ∷ 0x00 ∷ 0x00 ∷ 0x00 ∷ 0x00 ∷ 0x00 ∷ 0x00 ∷ 0x00
        ∷ 0x00 ∷ 0x00 ∷ 0x00 ∷ [])
    ∷ (0x00 ∷ 0x00 ∷ 0x00 ∷ 0x00 ∷ 0x00 ∷ 0x00 ∷ 0x00 ∷ 0x00 ∷ 0x00 ∷ 0x00 ∷ 0x00 ∷ 0x00 ∷ 0x00
        ∷ 0x00 ∷ 0x00 ∷ 0x00 ∷ [])
    ∷ (0x00 ∷ 0x00 ∷ 0x00 ∷ 0x00 ∷ 0x00 ∷ 0x00 ∷ 0x00 ∷ 0x00 ∷ 0x00 ∷ 0x00 ∷ 0x00 ∷ 0x00 ∷ 0x00
        ∷ 0x00 ∷ 0x00 ∷ 0x00 ∷ [])
    ∷ (0x00 ∷ 0x00 ∷ 0x00 ∷ 0x00 ∷ 0x00 ∷ 0x00 ∷ 0x00 ∷ 0x00 ∷ 0x00 ∷ 0x00 ∷ 0x00 ∷ 0x00 ∷ 0x00
        ∷ 0x00 ∷ 0x00 ∷ 0x00 ∷ [])
    ∷ (0x00 ∷ 0x00 ∷ 0x00 ∷ 0x00 ∷ 0x00 ∷ 0x00 ∷ 0x00 ∷ 0x00 ∷ 0x00 ∷ 0x00 ∷ 0x00 ∷ 0x00 ∷ 0x00
        ∷ 0x00 ∷ 0x00 ∷ 0x00 ∷ [])
    ∷ (0x00 ∷ 0x00 ∷ 0x00 ∷ 0x00 ∷ 0x00 ∷ 0x00 ∷ 0x00 ∷ 0x00 ∷ 0x00 ∷ 0x00 ∷ 0x00 ∷ 0x00 ∷ 0x00
        ∷ 0x00 ∷ 0x00 ∷ 0x00 ∷ [])
    ∷ (0x00 ∷ 0x00 ∷ 0x00 ∷ 0x00 ∷ 0x00 ∷ 0x00 ∷ 0x00 ∷ 0x00 ∷ 0x00 ∷ 0x00 ∷ 0x00 ∷ 0x00 ∷ 0x00
        ∷ 0x00 ∷ 0x00 ∷ 0x00 ∷ [])
    ∷ (0x00 ∷ 0x00 ∷ 0x00 ∷ 0x00 ∷ 0x00 ∷ 0x00 ∷ 0x00 ∷ 0x00 ∷ 0x00 ∷ 0x00 ∷ 0x00 ∷ 0x00 ∷ 0x00
        ∷ 0x00 ∷ 0x00 ∷ 0x00 ∷ [])
    ∷ []
