-- ===== src/Oled/Animation/BootThird.antt =====
-- The third picture of bootAnimation in Driver/ssd1306.h, by rows of 128 pixels.
use gateway_v.Base.{List, [], ◌∷◌}
use gateway_v.Text.{Bytes}

unfoldable pub boot_third : List Bytes
boot_third =
    (0x00 ∷ 0x00 ∷ 0x00 ∷ 0x00 ∷ 0x0F ∷ 0xFE ∷ 0x00 ∷ 0x00 ∷ 0x00 ∷ 0x00 ∷ 0x00 ∷ 0x00 ∷ 0x00 ∷ 0x00
      ∷ 0x00 ∷ 0x00 ∷ [])
    ∷ (0x00 ∷ 0x00 ∷ 0x00 ∷ 0x03 ∷ 0xFF ∷ 0xFF ∷ 0xF8 ∷ 0x00 ∷ 0x00 ∷ 0x00 ∷ 0x00 ∷ 0x00 ∷ 0x00
        ∷ 0x00 ∷ 0x00 ∷ 0x00 ∷ [])
    ∷ (0x00 ∷ 0x00 ∷ 0x00 ∷ 0x3F ∷ 0xFF ∷ 0xFF ∷ 0xFF ∷ 0x00 ∷ 0x00 ∷ 0x00 ∷ 0x00 ∷ 0x00 ∷ 0x00
        ∷ 0x00 ∷ 0x00 ∷ 0x00 ∷ [])
    ∷ (0x00 ∷ 0x00 ∷ 0x01 ∷ 0xFF ∷ 0xFF ∷ 0xBF ∷ 0xFF ∷ 0xE0 ∷ 0x00 ∷ 0x00 ∷ 0x00 ∷ 0x00 ∷ 0x00
        ∷ 0x00 ∷ 0x00 ∷ 0x00 ∷ [])
    ∷ (0x00 ∷ 0x00 ∷ 0x07 ∷ 0xFF ∷ 0x00 ∷ 0x00 ∷ 0x1F ∷ 0xFC ∷ 0x00 ∷ 0x00 ∷ 0x00 ∷ 0x00 ∷ 0x00
        ∷ 0x00 ∷ 0x00 ∷ 0x00 ∷ [])
    ∷ (0x00 ∷ 0x00 ∷ 0x1F ∷ 0xF0 ∷ 0x00 ∷ 0x00 ∷ 0x03 ∷ 0xFE ∷ 0x00 ∷ 0x00 ∷ 0x00 ∷ 0x00 ∷ 0x00
        ∷ 0x00 ∷ 0x00 ∷ 0x00 ∷ [])
    ∷ (0x00 ∷ 0x00 ∷ 0x0F ∷ 0xC0 ∷ 0x00 ∷ 0x00 ∷ 0x00 ∷ 0x7E ∷ 0x00 ∷ 0x00 ∷ 0x00 ∷ 0x00 ∷ 0x00
        ∷ 0x00 ∷ 0x00 ∷ 0x00 ∷ [])
    ∷ (0x00 ∷ 0x00 ∷ 0x06 ∷ 0x00 ∷ 0x0F ∷ 0xFE ∷ 0x00 ∷ 0x1C ∷ 0x00 ∷ 0x00 ∷ 0x00 ∷ 0x00 ∷ 0x00
        ∷ 0x00 ∷ 0x00 ∷ 0x00 ∷ [])
    ∷ (0x00 ∷ 0x00 ∷ 0x00 ∷ 0x01 ∷ 0xFF ∷ 0xFF ∷ 0xF0 ∷ 0x00 ∷ 0x00 ∷ 0x00 ∷ 0x00 ∷ 0x00 ∷ 0x00
        ∷ 0x00 ∷ 0x00 ∷ 0x00 ∷ [])
    ∷ (0x00 ∷ 0x00 ∷ 0x00 ∷ 0x0F ∷ 0xFF ∷ 0xFF ∷ 0xFE ∷ 0x00 ∷ 0x00 ∷ 0x00 ∷ 0x00 ∷ 0x00 ∷ 0x00
        ∷ 0x00 ∷ 0x00 ∷ 0x00 ∷ [])
    ∷ (0x00 ∷ 0x00 ∷ 0x00 ∷ 0x3F ∷ 0xE0 ∷ 0x00 ∷ 0xFF ∷ 0x80 ∷ 0x00 ∷ 0x00 ∷ 0x00 ∷ 0x00 ∷ 0x00
        ∷ 0x00 ∷ 0x00 ∷ 0x00 ∷ [])
    ∷ (0x00 ∷ 0x00 ∷ 0x00 ∷ 0x7E ∷ 0x00 ∷ 0x00 ∷ 0x0F ∷ 0xC0 ∷ 0x00 ∷ 0x00 ∷ 0x00 ∷ 0x00 ∷ 0x00
        ∷ 0x00 ∷ 0x00 ∷ 0x00 ∷ [])
    ∷ (0x00 ∷ 0x00 ∷ 0x00 ∷ 0x70 ∷ 0x00 ∷ 0x00 ∷ 0x03 ∷ 0x80 ∷ 0x00 ∷ 0x00 ∷ 0x00 ∷ 0x00 ∷ 0x00
        ∷ 0x00 ∷ 0x00 ∷ 0x00 ∷ [])
    ∷ (0x00 ∷ 0x00 ∷ 0x00 ∷ 0x00 ∷ 0x00 ∷ 0x00 ∷ 0x00 ∷ 0x00 ∷ 0x00 ∷ 0x00 ∷ 0x00 ∷ 0x00 ∷ 0x00
        ∷ 0x00 ∷ 0x00 ∷ 0x00 ∷ [])
    ∷ (0xFF ∷ 0x80 ∷ 0x00 ∷ 0x00 ∷ 0x0F ∷ 0xFE ∷ 0x00 ∷ 0x03 ∷ 0xFF ∷ 0xFF ∷ 0xFE ∷ 0x00 ∷ 0x00
        ∷ 0x00 ∷ 0x00 ∷ 0x10 ∷ [])
    ∷ (0xFF ∷ 0x80 ∷ 0x00 ∷ 0x00 ∷ 0xFF ∷ 0xFF ∷ 0xC0 ∷ 0x03 ∷ 0xFF ∷ 0xFF ∷ 0xFF ∷ 0x80 ∷ 0x00
        ∷ 0x00 ∷ 0x00 ∷ 0x0D ∷ [])
    ∷ (0xFF ∷ 0x80 ∷ 0x00 ∷ 0x03 ∷ 0xF0 ∷ 0x03 ∷ 0xF8 ∷ 0x03 ∷ 0xFF ∷ 0xFF ∷ 0xFF ∷ 0xC0 ∷ 0x00
        ∷ 0x00 ∷ 0x00 ∷ 0x00 ∷ [])
    ∷ (0xFF ∷ 0x80 ∷ 0x00 ∷ 0x03 ∷ 0x80 ∷ 0x00 ∷ 0x38 ∷ 0x03 ∷ 0xFF ∷ 0xFF ∷ 0xFF ∷ 0xE0 ∷ 0x00
        ∷ 0x00 ∷ 0x00 ∷ 0x00 ∷ [])
    ∷ (0xFF ∷ 0x80 ∷ 0x00 ∷ 0x00 ∷ 0x00 ∷ 0x00 ∷ 0x00 ∷ 0x03 ∷ 0xFF ∷ 0xFF ∷ 0xFF ∷ 0xF0 ∷ 0x00
        ∷ 0x00 ∷ 0x00 ∷ 0x00 ∷ [])
    ∷ (0xFF ∷ 0x80 ∷ 0x00 ∷ 0x00 ∷ 0x00 ∷ 0x00 ∷ 0x00 ∷ 0x03 ∷ 0xFE ∷ 0x00 ∷ 0x3F ∷ 0xF8 ∷ 0x00
        ∷ 0x00 ∷ 0x00 ∷ 0x00 ∷ [])
    ∷ (0xFF ∷ 0x80 ∷ 0x00 ∷ 0x00 ∷ 0x00 ∷ 0x00 ∷ 0x00 ∷ 0x03 ∷ 0xFE ∷ 0x00 ∷ 0x1F ∷ 0xF8 ∷ 0x00
        ∷ 0x07 ∷ 0x00 ∷ 0x00 ∷ [])
    ∷ (0xFF ∷ 0x80 ∷ 0x00 ∷ 0x00 ∷ 0x1F ∷ 0xFF ∷ 0x00 ∷ 0x03 ∷ 0xFE ∷ 0x00 ∷ 0x0F ∷ 0xF8 ∷ 0x01
        ∷ 0xFF ∷ 0xFC ∷ 0x00 ∷ [])
    ∷ (0xFF ∷ 0x80 ∷ 0x00 ∷ 0x00 ∷ 0xFF ∷ 0xFF ∷ 0xC0 ∷ 0x03 ∷ 0xFE ∷ 0x00 ∷ 0x0F ∷ 0xF8 ∷ 0x07
        ∷ 0xFF ∷ 0xFF ∷ 0x00 ∷ [])
    ∷ (0xFF ∷ 0x80 ∷ 0x00 ∷ 0x01 ∷ 0xFF ∷ 0xFF ∷ 0xF0 ∷ 0x03 ∷ 0xFE ∷ 0x00 ∷ 0x0F ∷ 0xF8 ∷ 0x0F
        ∷ 0xFF ∷ 0xFF ∷ 0x80 ∷ [])
    ∷ (0xFF ∷ 0x80 ∷ 0x00 ∷ 0x03 ∷ 0xFF ∷ 0xFF ∷ 0xF8 ∷ 0x03 ∷ 0xFE ∷ 0x00 ∷ 0x0F ∷ 0xF8 ∷ 0x1F
        ∷ 0xF0 ∷ 0xFF ∷ 0x80 ∷ [])
    ∷ (0xFF ∷ 0x80 ∷ 0x00 ∷ 0x07 ∷ 0xFE ∷ 0x1F ∷ 0xFC ∷ 0x03 ∷ 0xFE ∷ 0x00 ∷ 0x1F ∷ 0xF8 ∷ 0x1F
        ∷ 0xE0 ∷ 0x3F ∷ 0xC0 ∷ [])
    ∷ (0xFF ∷ 0x80 ∷ 0x00 ∷ 0x0F ∷ 0xF8 ∷ 0x03 ∷ 0xFE ∷ 0x03 ∷ 0xFE ∷ 0x00 ∷ 0x3F ∷ 0xF0 ∷ 0x3F
        ∷ 0xC0 ∷ 0x3F ∷ 0xC0 ∷ [])
    ∷ (0xFF ∷ 0x80 ∷ 0x00 ∷ 0x0F ∷ 0xF0 ∷ 0x01 ∷ 0xFE ∷ 0x03 ∷ 0xFF ∷ 0xFF ∷ 0xFF ∷ 0xF0 ∷ 0x00
        ∷ 0x00 ∷ 0x3F ∷ 0xC0 ∷ [])
    ∷ (0xFF ∷ 0x80 ∷ 0x00 ∷ 0x1F ∷ 0xE0 ∷ 0x01 ∷ 0xFF ∷ 0x03 ∷ 0xFF ∷ 0xFF ∷ 0xFF ∷ 0xE0 ∷ 0x00
        ∷ 0x00 ∷ 0x3F ∷ 0xC0 ∷ [])
    ∷ (0xFF ∷ 0x80 ∷ 0x00 ∷ 0x1F ∷ 0xE0 ∷ 0x00 ∷ 0xFF ∷ 0x03 ∷ 0xFF ∷ 0xFF ∷ 0xFF ∷ 0xC0 ∷ 0x00
        ∷ 0x1F ∷ 0xFF ∷ 0xC0 ∷ [])
    ∷ (0xFF ∷ 0x80 ∷ 0x00 ∷ 0x1F ∷ 0xE0 ∷ 0x00 ∷ 0xFF ∷ 0x03 ∷ 0xFF ∷ 0xFF ∷ 0xFF ∷ 0x00 ∷ 0x01
        ∷ 0xFF ∷ 0xFF ∷ 0xC0 ∷ [])
    ∷ (0xFF ∷ 0x80 ∷ 0x00 ∷ 0x1F ∷ 0xE0 ∷ 0x00 ∷ 0xFF ∷ 0x03 ∷ 0xFF ∷ 0xFF ∷ 0xFC ∷ 0x00 ∷ 0x07
        ∷ 0xFF ∷ 0xFF ∷ 0xC0 ∷ [])
    ∷ (0xFF ∷ 0x80 ∷ 0x00 ∷ 0x1F ∷ 0xE0 ∷ 0x00 ∷ 0xFF ∷ 0x03 ∷ 0xFE ∷ 0x07 ∷ 0xFE ∷ 0x00 ∷ 0x1F
        ∷ 0xFF ∷ 0xBF ∷ 0xC0 ∷ [])
    ∷ (0xFF ∷ 0x80 ∷ 0x00 ∷ 0x1F ∷ 0xE0 ∷ 0x00 ∷ 0xFF ∷ 0x03 ∷ 0xFE ∷ 0x07 ∷ 0xFE ∷ 0x00 ∷ 0x3F
        ∷ 0xF0 ∷ 0x3F ∷ 0xC0 ∷ [])
    ∷ (0xFF ∷ 0x80 ∷ 0x00 ∷ 0x1F ∷ 0xE0 ∷ 0x00 ∷ 0xFF ∷ 0x03 ∷ 0xFE ∷ 0x03 ∷ 0xFF ∷ 0x00 ∷ 0x3F
        ∷ 0xC0 ∷ 0x3F ∷ 0xC0 ∷ [])
    ∷ (0xFF ∷ 0x80 ∷ 0x00 ∷ 0x1F ∷ 0xE0 ∷ 0x01 ∷ 0xFE ∷ 0x03 ∷ 0xFE ∷ 0x01 ∷ 0xFF ∷ 0x80 ∷ 0x7F
        ∷ 0x80 ∷ 0x3F ∷ 0xC0 ∷ [])
    ∷ (0xFF ∷ 0x80 ∷ 0x00 ∷ 0x0F ∷ 0xF0 ∷ 0x01 ∷ 0xFE ∷ 0x03 ∷ 0xFE ∷ 0x01 ∷ 0xFF ∷ 0x80 ∷ 0x7F
        ∷ 0x80 ∷ 0x7F ∷ 0xC0 ∷ [])
    ∷ (0xFF ∷ 0xFF ∷ 0xFF ∷ 0x0F ∷ 0xF8 ∷ 0x03 ∷ 0xFE ∷ 0x03 ∷ 0xFE ∷ 0x00 ∷ 0xFF ∷ 0xC0 ∷ 0x7F
        ∷ 0x80 ∷ 0x7F ∷ 0xC0 ∷ [])
    ∷ (0xFF ∷ 0xFF ∷ 0xFF ∷ 0x07 ∷ 0xFE ∷ 0x0F ∷ 0xFC ∷ 0x03 ∷ 0xFE ∷ 0x00 ∷ 0x7F ∷ 0xE0 ∷ 0x7F
        ∷ 0xC1 ∷ 0xFF ∷ 0xC0 ∷ [])
    ∷ (0xFF ∷ 0xFF ∷ 0xFF ∷ 0x03 ∷ 0xFF ∷ 0xFF ∷ 0xF8 ∷ 0x03 ∷ 0xFE ∷ 0x00 ∷ 0x3F ∷ 0xF0 ∷ 0x3F
        ∷ 0xFF ∷ 0xFF ∷ 0xC0 ∷ [])
    ∷ (0xFF ∷ 0xFF ∷ 0xFF ∷ 0x01 ∷ 0xFF ∷ 0xFF ∷ 0xF0 ∷ 0x03 ∷ 0xFE ∷ 0x00 ∷ 0x3F ∷ 0xF0 ∷ 0x3F
        ∷ 0xFF ∷ 0xFF ∷ 0xC0 ∷ [])
    ∷ (0xFF ∷ 0xFF ∷ 0xFF ∷ 0x00 ∷ 0xFF ∷ 0xFF ∷ 0xC0 ∷ 0x03 ∷ 0xFE ∷ 0x00 ∷ 0x1F ∷ 0xF8 ∷ 0x1F
        ∷ 0xFF ∷ 0x9F ∷ 0xC0 ∷ [])
    ∷ (0xFF ∷ 0xFF ∷ 0xFF ∷ 0x00 ∷ 0x1F ∷ 0xFF ∷ 0x00 ∷ 0x03 ∷ 0xFE ∷ 0x00 ∷ 0x0F ∷ 0xFC ∷ 0x07
        ∷ 0xFF ∷ 0x1F ∷ 0xC0 ∷ [])
    ∷ (0x00 ∷ 0x00 ∷ 0x00 ∷ 0x00 ∷ 0x00 ∷ 0x00 ∷ 0x00 ∷ 0x00 ∷ 0x00 ∷ 0x00 ∷ 0x00 ∷ 0x00 ∷ 0x00
        ∷ 0x20 ∷ 0x00 ∷ 0x00 ∷ [])
    ∷ (0x00 ∷ 0x00 ∷ 0x00 ∷ 0x00 ∷ 0x00 ∷ 0x00 ∷ 0x00 ∷ 0x00 ∷ 0x00 ∷ 0x00 ∷ 0x00 ∷ 0x00 ∷ 0x00
        ∷ 0x00 ∷ 0x00 ∷ 0x00 ∷ [])
    ∷ (0x00 ∷ 0x00 ∷ 0x00 ∷ 0x00 ∷ 0x00 ∷ 0x00 ∷ 0x00 ∷ 0x00 ∷ 0x00 ∷ 0x00 ∷ 0x00 ∷ 0x00 ∷ 0x00
        ∷ 0x00 ∷ 0x00 ∷ 0x00 ∷ [])
    ∷ (0x00 ∷ 0x00 ∷ 0x00 ∷ 0x03 ∷ 0x80 ∷ 0x00 ∷ 0x38 ∷ 0x00 ∷ 0x00 ∷ 0x00 ∷ 0x00 ∷ 0x00 ∷ 0x00
        ∷ 0x00 ∷ 0x00 ∷ 0x00 ∷ [])
    ∷ (0x00 ∷ 0x00 ∷ 0x00 ∷ 0x03 ∷ 0xF0 ∷ 0x03 ∷ 0xF8 ∷ 0x00 ∷ 0x00 ∷ 0x00 ∷ 0x00 ∷ 0x00 ∷ 0x00
        ∷ 0x00 ∷ 0x00 ∷ 0x00 ∷ [])
    ∷ (0x00 ∷ 0x00 ∷ 0x00 ∷ 0x00 ∷ 0xFF ∷ 0xFF ∷ 0xC0 ∷ 0x00 ∷ 0x00 ∷ 0x00 ∷ 0x00 ∷ 0x00 ∷ 0x00
        ∷ 0x00 ∷ 0x00 ∷ 0x00 ∷ [])
    ∷ (0x00 ∷ 0x00 ∷ 0x00 ∷ 0x00 ∷ 0x0F ∷ 0xFE ∷ 0x00 ∷ 0x00 ∷ 0x00 ∷ 0x00 ∷ 0x00 ∷ 0x00 ∷ 0x00
        ∷ 0x00 ∷ 0x00 ∷ 0x00 ∷ [])
    ∷ (0x00 ∷ 0x00 ∷ 0x00 ∷ 0x00 ∷ 0x00 ∷ 0x00 ∷ 0x00 ∷ 0x00 ∷ 0x00 ∷ 0x00 ∷ 0x00 ∷ 0x00 ∷ 0x00
        ∷ 0x00 ∷ 0x00 ∷ 0x00 ∷ [])
    ∷ (0x00 ∷ 0x00 ∷ 0x00 ∷ 0x70 ∷ 0x00 ∷ 0x00 ∷ 0x03 ∷ 0x80 ∷ 0x00 ∷ 0x00 ∷ 0x00 ∷ 0x00 ∷ 0x00
        ∷ 0x00 ∷ 0x00 ∷ 0x00 ∷ [])
    ∷ (0x00 ∷ 0x00 ∷ 0x00 ∷ 0x7E ∷ 0x00 ∷ 0x00 ∷ 0x0F ∷ 0xC0 ∷ 0x00 ∷ 0x00 ∷ 0x00 ∷ 0x00 ∷ 0x00
        ∷ 0x00 ∷ 0x00 ∷ 0x00 ∷ [])
    ∷ (0x00 ∷ 0x00 ∷ 0x00 ∷ 0x3F ∷ 0xE0 ∷ 0x00 ∷ 0xFF ∷ 0x80 ∷ 0x00 ∷ 0x00 ∷ 0x00 ∷ 0x00 ∷ 0x00
        ∷ 0x00 ∷ 0x00 ∷ 0x00 ∷ [])
    ∷ (0x00 ∷ 0x00 ∷ 0x00 ∷ 0x0F ∷ 0xFF ∷ 0xFF ∷ 0xFE ∷ 0x00 ∷ 0x00 ∷ 0x00 ∷ 0x00 ∷ 0x00 ∷ 0x00
        ∷ 0x00 ∷ 0x00 ∷ 0x00 ∷ [])
    ∷ (0x00 ∷ 0x00 ∷ 0x00 ∷ 0x01 ∷ 0xFF ∷ 0xFF ∷ 0xF0 ∷ 0x00 ∷ 0x00 ∷ 0x00 ∷ 0x00 ∷ 0x00 ∷ 0x00
        ∷ 0x00 ∷ 0x00 ∷ 0x00 ∷ [])
    ∷ (0x00 ∷ 0x00 ∷ 0x06 ∷ 0x00 ∷ 0x0F ∷ 0xFE ∷ 0x00 ∷ 0x1C ∷ 0x00 ∷ 0x00 ∷ 0x00 ∷ 0x00 ∷ 0x00
        ∷ 0x00 ∷ 0x00 ∷ 0x00 ∷ [])
    ∷ (0x00 ∷ 0x00 ∷ 0x0F ∷ 0xC0 ∷ 0x00 ∷ 0x00 ∷ 0x00 ∷ 0x7E ∷ 0x00 ∷ 0x00 ∷ 0x00 ∷ 0x00 ∷ 0x00
        ∷ 0x00 ∷ 0x00 ∷ 0x00 ∷ [])
    ∷ (0x00 ∷ 0x00 ∷ 0x1F ∷ 0xF0 ∷ 0x00 ∷ 0x00 ∷ 0x03 ∷ 0xFE ∷ 0x00 ∷ 0x00 ∷ 0x00 ∷ 0x00 ∷ 0x00
        ∷ 0x00 ∷ 0x00 ∷ 0x00 ∷ [])
    ∷ (0x00 ∷ 0x00 ∷ 0x07 ∷ 0xFF ∷ 0x00 ∷ 0x00 ∷ 0x1F ∷ 0xFC ∷ 0x00 ∷ 0x00 ∷ 0x00 ∷ 0x00 ∷ 0x00
        ∷ 0x00 ∷ 0x00 ∷ 0x00 ∷ [])
    ∷ (0x00 ∷ 0x00 ∷ 0x01 ∷ 0xFF ∷ 0xFF ∷ 0xBF ∷ 0xFF ∷ 0xE0 ∷ 0x00 ∷ 0x00 ∷ 0x00 ∷ 0x00 ∷ 0x00
        ∷ 0x00 ∷ 0x00 ∷ 0x00 ∷ [])
    ∷ (0x00 ∷ 0x00 ∷ 0x00 ∷ 0x3F ∷ 0xFF ∷ 0xFF ∷ 0xFF ∷ 0x00 ∷ 0x00 ∷ 0x00 ∷ 0x00 ∷ 0x00 ∷ 0x00
        ∷ 0x00 ∷ 0x00 ∷ 0x00 ∷ [])
    ∷ (0x00 ∷ 0x00 ∷ 0x00 ∷ 0x03 ∷ 0xFF ∷ 0xFF ∷ 0xF8 ∷ 0x00 ∷ 0x00 ∷ 0x00 ∷ 0x00 ∷ 0x00 ∷ 0x00
        ∷ 0x00 ∷ 0x00 ∷ 0x00 ∷ [])
    ∷ (0x00 ∷ 0x00 ∷ 0x00 ∷ 0x00 ∷ 0x0F ∷ 0xFE ∷ 0x00 ∷ 0x00 ∷ 0x00 ∷ 0x00 ∷ 0x00 ∷ 0x00 ∷ 0x00
        ∷ 0x00 ∷ 0x00 ∷ 0x00 ∷ [])
    ∷ []
