-- ===== src/Oled/Animation/ShutdownSecond.antt =====
-- The second picture of shutdownAnimation in Driver/ssd1306.h, by rows of 128 pixels.
use gateway_v.Base.{List, [], ◌∷◌}
use gateway_v.Text.{Bytes}

unfoldable pub shutdown_second : List Bytes
shutdown_second =
    (0x00 ∷ 0x00 ∷ 0x00 ∷ 0x00 ∷ 0x00 ∷ 0x00 ∷ 0x00 ∷ 0x00 ∷ 0x00 ∷ 0x00 ∷ 0x00 ∷ 0x00 ∷ 0x00 ∷ 0x00
      ∷ 0x00 ∷ 0x00 ∷ [])
    ∷ (0x00 ∷ 0x00 ∷ 0x00 ∷ 0x00 ∷ 0x00 ∷ 0x00 ∷ 0x00 ∷ 0x00 ∷ 0x00 ∷ 0x00 ∷ 0x00 ∷ 0x00 ∷ 0x00
        ∷ 0x00 ∷ 0x00 ∷ 0x00 ∷ [])
    ∷ (0x00 ∷ 0x00 ∷ 0x00 ∷ 0x00 ∷ 0x00 ∷ 0x00 ∷ 0x00 ∷ 0x00 ∷ 0x00 ∷ 0x00 ∷ 0x00 ∷ 0x00 ∷ 0x00
        ∷ 0x00 ∷ 0x00 ∷ 0x00 ∷ [])
    ∷ (0x00 ∷ 0x00 ∷ 0x00 ∷ 0x00 ∷ 0x00 ∷ 0x00 ∷ 0x00 ∷ 0x00 ∷ 0x00 ∷ 0x00 ∷ 0x00 ∷ 0x00 ∷ 0x00
        ∷ 0x00 ∷ 0x00 ∷ 0x00 ∷ [])
    ∷ (0x00 ∷ 0x00 ∷ 0x00 ∷ 0x00 ∷ 0x00 ∷ 0x00 ∷ 0x00 ∷ 0x00 ∷ 0x00 ∷ 0x00 ∷ 0x00 ∷ 0x00 ∷ 0x00
        ∷ 0x00 ∷ 0x00 ∷ 0x00 ∷ [])
    ∷ (0x00 ∷ 0x00 ∷ 0x00 ∷ 0x00 ∷ 0x00 ∷ 0x00 ∷ 0x00 ∷ 0x00 ∷ 0x00 ∷ 0x00 ∷ 0x00 ∷ 0x00 ∷ 0x00
        ∷ 0x00 ∷ 0x00 ∷ 0x00 ∷ [])
    ∷ (0x00 ∷ 0x00 ∷ 0x00 ∷ 0x00 ∷ 0x00 ∷ 0x00 ∷ 0x00 ∷ 0x00 ∷ 0xFE ∷ 0x00 ∷ 0x00 ∷ 0x00 ∷ 0x00
        ∷ 0x00 ∷ 0x00 ∷ 0x00 ∷ [])
    ∷ (0x00 ∷ 0x00 ∷ 0x00 ∷ 0x00 ∷ 0x00 ∷ 0x00 ∷ 0x07 ∷ 0x00 ∷ 0x3F ∷ 0xF0 ∷ 0x00 ∷ 0x00 ∷ 0x00
        ∷ 0x00 ∷ 0x00 ∷ 0x00 ∷ [])
    ∷ (0x00 ∷ 0x00 ∷ 0x00 ∷ 0x00 ∷ 0x00 ∷ 0x03 ∷ 0xFF ∷ 0xC0 ∷ 0x1F ∷ 0xFF ∷ 0xC0 ∷ 0x00 ∷ 0x00
        ∷ 0x00 ∷ 0x00 ∷ 0x00 ∷ [])
    ∷ (0x00 ∷ 0x00 ∷ 0x00 ∷ 0x00 ∷ 0x00 ∷ 0x03 ∷ 0xFF ∷ 0xE0 ∷ 0x0F ∷ 0xFF ∷ 0xC0 ∷ 0x00 ∷ 0x00
        ∷ 0x00 ∷ 0x00 ∷ 0x00 ∷ [])
    ∷ (0x00 ∷ 0x00 ∷ 0x00 ∷ 0x00 ∷ 0x00 ∷ 0x03 ∷ 0xFF ∷ 0xE0 ∷ 0x07 ∷ 0xFF ∷ 0xC0 ∷ 0x00 ∷ 0x00
        ∷ 0x00 ∷ 0x00 ∷ 0x00 ∷ [])
    ∷ (0x00 ∷ 0x00 ∷ 0x00 ∷ 0x00 ∷ 0x00 ∷ 0x03 ∷ 0xFF ∷ 0x80 ∷ 0x07 ∷ 0xFF ∷ 0xC0 ∷ 0x00 ∷ 0x00
        ∷ 0x00 ∷ 0x00 ∷ 0x00 ∷ [])
    ∷ (0x00 ∷ 0x00 ∷ 0x00 ∷ 0x00 ∷ 0x00 ∷ 0x03 ∷ 0xFF ∷ 0x80 ∷ 0x03 ∷ 0xFF ∷ 0xC0 ∷ 0x00 ∷ 0x00
        ∷ 0x00 ∷ 0x00 ∷ 0x00 ∷ [])
    ∷ (0x00 ∷ 0x00 ∷ 0x00 ∷ 0x00 ∷ 0x00 ∷ 0x03 ∷ 0xFF ∷ 0x80 ∷ 0x03 ∷ 0xFF ∷ 0xC0 ∷ 0x00 ∷ 0x00
        ∷ 0x00 ∷ 0x00 ∷ 0x00 ∷ [])
    ∷ (0x00 ∷ 0x00 ∷ 0x00 ∷ 0x00 ∷ 0x00 ∷ 0x03 ∷ 0xFF ∷ 0x80 ∷ 0x01 ∷ 0xFF ∷ 0x80 ∷ 0x00 ∷ 0x00
        ∷ 0x00 ∷ 0x00 ∷ 0x00 ∷ [])
    ∷ (0x00 ∷ 0x00 ∷ 0x00 ∷ 0x00 ∷ 0x00 ∷ 0x03 ∷ 0xFF ∷ 0x80 ∷ 0x00 ∷ 0xFE ∷ 0x00 ∷ 0x00 ∷ 0x00
        ∷ 0x00 ∷ 0x00 ∷ 0x00 ∷ [])
    ∷ (0x00 ∷ 0x00 ∷ 0x00 ∷ 0x00 ∷ 0x00 ∷ 0x03 ∷ 0xFF ∷ 0x00 ∷ 0x00 ∷ 0x78 ∷ 0x00 ∷ 0x00 ∷ 0x00
        ∷ 0x00 ∷ 0x00 ∷ 0x00 ∷ [])
    ∷ (0x00 ∷ 0x00 ∷ 0x00 ∷ 0x00 ∷ 0x00 ∷ 0x03 ∷ 0xFE ∷ 0x00 ∷ 0x00 ∷ 0x00 ∷ 0x00 ∷ 0x00 ∷ 0x00
        ∷ 0x00 ∷ 0x00 ∷ 0x00 ∷ [])
    ∷ (0x00 ∷ 0x00 ∷ 0x00 ∷ 0x00 ∷ 0x00 ∷ 0x03 ∷ 0xFE ∷ 0x00 ∷ 0x00 ∷ 0x00 ∷ 0x00 ∷ 0x00 ∷ 0x00
        ∷ 0x00 ∷ 0x00 ∷ 0x00 ∷ [])
    ∷ (0x00 ∷ 0x00 ∷ 0x00 ∷ 0x00 ∷ 0x00 ∷ 0x03 ∷ 0xFC ∷ 0x00 ∷ 0x00 ∷ 0x00 ∷ 0x00 ∷ 0x00 ∷ 0x00
        ∷ 0x00 ∷ 0x00 ∷ 0x00 ∷ [])
    ∷ (0x00 ∷ 0x00 ∷ 0x00 ∷ 0x00 ∷ 0x00 ∷ 0x03 ∷ 0xF0 ∷ 0x00 ∷ 0x00 ∷ 0x00 ∷ 0x00 ∷ 0x00 ∷ 0x00
        ∷ 0x00 ∷ 0x00 ∷ 0x00 ∷ [])
    ∷ (0x00 ∷ 0x00 ∷ 0x00 ∷ 0x00 ∷ 0x00 ∷ 0x00 ∷ 0x00 ∷ 0x0F ∷ 0xC0 ∷ 0x00 ∷ 0x40 ∷ 0x00 ∷ 0x00
        ∷ 0x00 ∷ 0x00 ∷ 0x00 ∷ [])
    ∷ (0x00 ∷ 0x00 ∷ 0x00 ∷ 0x00 ∷ 0x00 ∷ 0x00 ∷ 0x00 ∷ 0x7F ∷ 0xF0 ∷ 0x00 ∷ 0xC0 ∷ 0x00 ∷ 0x00
        ∷ 0x00 ∷ 0x00 ∷ 0x00 ∷ [])
    ∷ (0x00 ∷ 0x00 ∷ 0x00 ∷ 0x00 ∷ 0x00 ∷ 0x00 ∷ 0x00 ∷ 0xFF ∷ 0xF8 ∷ 0x01 ∷ 0xC0 ∷ 0x00 ∷ 0x00
        ∷ 0x00 ∷ 0x00 ∷ 0x00 ∷ [])
    ∷ (0x00 ∷ 0x00 ∷ 0x00 ∷ 0x00 ∷ 0x00 ∷ 0x00 ∷ 0x01 ∷ 0xFF ∷ 0xFC ∷ 0x03 ∷ 0xC0 ∷ 0x00 ∷ 0x00
        ∷ 0x00 ∷ 0x00 ∷ 0x00 ∷ [])
    ∷ (0x00 ∷ 0x00 ∷ 0x00 ∷ 0x00 ∷ 0x00 ∷ 0x00 ∷ 0x01 ∷ 0xFF ∷ 0xFC ∷ 0x03 ∷ 0xC0 ∷ 0x00 ∷ 0x00
        ∷ 0x00 ∷ 0x00 ∷ 0x00 ∷ [])
    ∷ (0x00 ∷ 0x00 ∷ 0x00 ∷ 0x00 ∷ 0x00 ∷ 0x00 ∷ 0x01 ∷ 0xFF ∷ 0xFE ∷ 0x03 ∷ 0xC0 ∷ 0x00 ∷ 0x00
        ∷ 0x00 ∷ 0x00 ∷ 0x00 ∷ [])
    ∷ (0x00 ∷ 0x00 ∷ 0x00 ∷ 0x00 ∷ 0x00 ∷ 0x00 ∷ 0x01 ∷ 0xFF ∷ 0xFE ∷ 0x03 ∷ 0x00 ∷ 0x00 ∷ 0x00
        ∷ 0x00 ∷ 0x00 ∷ 0x00 ∷ [])
    ∷ (0x00 ∷ 0x00 ∷ 0x00 ∷ 0x00 ∷ 0x00 ∷ 0x00 ∷ 0x01 ∷ 0xFF ∷ 0xFE ∷ 0x00 ∷ 0x00 ∷ 0x00 ∷ 0x00
        ∷ 0x00 ∷ 0x00 ∷ 0x00 ∷ [])
    ∷ (0x00 ∷ 0x00 ∷ 0x00 ∷ 0x00 ∷ 0x00 ∷ 0x00 ∷ 0x01 ∷ 0xFF ∷ 0xFE ∷ 0x00 ∷ 0x00 ∷ 0x00 ∷ 0x00
        ∷ 0x00 ∷ 0x00 ∷ 0x00 ∷ [])
    ∷ (0x00 ∷ 0x00 ∷ 0x00 ∷ 0x00 ∷ 0x00 ∷ 0x00 ∷ 0x01 ∷ 0xFF ∷ 0xFE ∷ 0x00 ∷ 0x00 ∷ 0x00 ∷ 0x00
        ∷ 0x00 ∷ 0x00 ∷ 0x00 ∷ [])
    ∷ (0x00 ∷ 0x00 ∷ 0x00 ∷ 0x00 ∷ 0x00 ∷ 0x00 ∷ 0x00 ∷ 0xFF ∷ 0xFE ∷ 0x00 ∷ 0x00 ∷ 0x00 ∷ 0x00
        ∷ 0x00 ∷ 0x00 ∷ 0x00 ∷ [])
    ∷ (0x00 ∷ 0x00 ∷ 0x00 ∷ 0x00 ∷ 0x00 ∷ 0x00 ∷ 0x00 ∷ 0x3F ∷ 0xF8 ∷ 0x00 ∷ 0x00 ∷ 0x00 ∷ 0x00
        ∷ 0x00 ∷ 0x00 ∷ 0x00 ∷ [])
    ∷ (0x00 ∷ 0x00 ∷ 0x00 ∷ 0x00 ∷ 0x00 ∷ 0x00 ∷ 0x00 ∷ 0x07 ∷ 0xE0 ∷ 0x00 ∷ 0x00 ∷ 0x00 ∷ 0x00
        ∷ 0x00 ∷ 0x00 ∷ 0x00 ∷ [])
    ∷ (0x00 ∷ 0x00 ∷ 0x00 ∷ 0x00 ∷ 0x00 ∷ 0x00 ∷ 0x00 ∷ 0x00 ∷ 0x80 ∷ 0x00 ∷ 0x00 ∷ 0x00 ∷ 0x00
        ∷ 0x00 ∷ 0x00 ∷ 0x00 ∷ [])
    ∷ (0x00 ∷ 0x00 ∷ 0x00 ∷ 0x00 ∷ 0x00 ∷ 0x00 ∷ 0x00 ∷ 0x00 ∷ 0x00 ∷ 0x00 ∷ 0x00 ∷ 0x00 ∷ 0x00
        ∷ 0x00 ∷ 0x00 ∷ 0x00 ∷ [])
    ∷ (0x00 ∷ 0x00 ∷ 0x00 ∷ 0x00 ∷ 0x00 ∷ 0x00 ∷ 0x00 ∷ 0x00 ∷ 0x00 ∷ 0x00 ∷ 0x00 ∷ 0x00 ∷ 0x00
        ∷ 0x00 ∷ 0x00 ∷ 0x00 ∷ [])
    ∷ (0x00 ∷ 0x00 ∷ 0x00 ∷ 0x00 ∷ 0x00 ∷ 0x00 ∷ 0x00 ∷ 0x00 ∷ 0x00 ∷ 0x00 ∷ 0x00 ∷ 0x00 ∷ 0x00
        ∷ 0x00 ∷ 0x00 ∷ 0x00 ∷ [])
    ∷ (0x00 ∷ 0x00 ∷ 0x00 ∷ 0x00 ∷ 0x00 ∷ 0x00 ∷ 0x00 ∷ 0x00 ∷ 0x00 ∷ 0x00 ∷ 0x00 ∷ 0x00 ∷ 0x00
        ∷ 0x00 ∷ 0x00 ∷ 0x00 ∷ [])
    ∷ (0x00 ∷ 0x00 ∷ 0x7F ∷ 0xC0 ∷ 0x00 ∷ 0x00 ∷ 0x00 ∷ 0x00 ∷ 0x00 ∷ 0x00 ∷ 0x00 ∷ 0x00 ∷ 0x00
        ∷ 0x00 ∷ 0x00 ∷ 0x00 ∷ [])
    ∷ (0x00 ∷ 0x01 ∷ 0xF1 ∷ 0xE0 ∷ 0x00 ∷ 0x00 ∷ 0x00 ∷ 0x00 ∷ 0x00 ∷ 0x00 ∷ 0x00 ∷ 0x00 ∷ 0x00
        ∷ 0x00 ∷ 0x00 ∷ 0x00 ∷ [])
    ∷ (0x00 ∷ 0x03 ∷ 0x80 ∷ 0x60 ∷ 0x00 ∷ 0x00 ∷ 0xC0 ∷ 0x00 ∷ 0x00 ∷ 0x00 ∷ 0x00 ∷ 0x00 ∷ 0x00
        ∷ 0x00 ∷ 0x00 ∷ 0x00 ∷ [])
    ∷ (0x00 ∷ 0x07 ∷ 0x00 ∷ 0x00 ∷ 0x00 ∷ 0x00 ∷ 0x40 ∷ 0x00 ∷ 0x00 ∷ 0x00 ∷ 0x00 ∷ 0x00 ∷ 0x00
        ∷ 0x00 ∷ 0x00 ∷ 0x00 ∷ [])
    ∷ (0x00 ∷ 0x0E ∷ 0x00 ∷ 0x00 ∷ 0x1F ∷ 0x81 ∷ 0xF8 ∷ 0x1F ∷ 0x06 ∷ 0x03 ∷ 0x03 ∷ 0x0F ∷ 0xC0
        ∷ 0xC0 ∷ 0x30 ∷ 0x00 ∷ [])
    ∷ (0x00 ∷ 0x0E ∷ 0x00 ∷ 0x00 ∷ 0x3F ∷ 0xE1 ∷ 0xF8 ∷ 0x7F ∷ 0xC7 ∷ 0x07 ∷ 0x03 ∷ 0x1F ∷ 0xF0
        ∷ 0xC0 ∷ 0x60 ∷ 0x00 ∷ [])
    ∷ (0x00 ∷ 0x0C ∷ 0x00 ∷ 0x00 ∷ 0x00 ∷ 0x60 ∷ 0x40 ∷ 0xE0 ∷ 0xE3 ∷ 0x07 ∷ 0x86 ∷ 0x00 ∷ 0x38
        ∷ 0xE0 ∷ 0x60 ∷ 0x00 ∷ [])
    ∷ (0x00 ∷ 0x0C ∷ 0x00 ∷ 0x00 ∷ 0x00 ∷ 0x30 ∷ 0xC0 ∷ 0xC0 ∷ 0x63 ∷ 0x0D ∷ 0x86 ∷ 0x00 ∷ 0x18
        ∷ 0x60 ∷ 0xC0 ∷ 0x00 ∷ [])
    ∷ (0x00 ∷ 0x0C ∷ 0x01 ∷ 0xFE ∷ 0x1F ∷ 0x30 ∷ 0xC1 ∷ 0xC0 ∷ 0x31 ∷ 0x8D ∷ 0x86 ∷ 0x0F ∷ 0x98
        ∷ 0x70 ∷ 0xC0 ∷ 0x00 ∷ [])
    ∷ (0x00 ∷ 0x0C ∷ 0x01 ∷ 0xFE ∷ 0x7F ∷ 0xF0 ∷ 0xC1 ∷ 0xFF ∷ 0xF1 ∷ 0x98 ∷ 0xCC ∷ 0x3E ∷ 0xF8
        ∷ 0x31 ∷ 0x80 ∷ 0x00 ∷ [])
    ∷ (0x00 ∷ 0x0C ∷ 0x00 ∷ 0x0E ∷ 0x60 ∷ 0x70 ∷ 0xC1 ∷ 0xFF ∷ 0xF1 ∷ 0x98 ∷ 0xCC ∷ 0x30 ∷ 0x38
        ∷ 0x31 ∷ 0x80 ∷ 0x00 ∷ [])
    ∷ (0x00 ∷ 0x0E ∷ 0x00 ∷ 0x0C ∷ 0xE0 ∷ 0x30 ∷ 0xC1 ∷ 0xC0 ∷ 0x00 ∷ 0xD8 ∷ 0x58 ∷ 0x70 ∷ 0x18
        ∷ 0x1B ∷ 0x00 ∷ 0x00 ∷ [])
    ∷ (0x00 ∷ 0x07 ∷ 0x00 ∷ 0x1C ∷ 0xE0 ∷ 0x30 ∷ 0xC0 ∷ 0xC0 ∷ 0x20 ∷ 0xF0 ∷ 0x78 ∷ 0x30 ∷ 0x18
        ∷ 0x1B ∷ 0x00 ∷ 0x00 ∷ [])
    ∷ (0x00 ∷ 0x03 ∷ 0x80 ∷ 0x38 ∷ 0x60 ∷ 0x70 ∷ 0xE0 ∷ 0x70 ∷ 0xE0 ∷ 0x70 ∷ 0x78 ∷ 0x38 ∷ 0x38
        ∷ 0x0E ∷ 0x00 ∷ 0x00 ∷ [])
    ∷ (0x00 ∷ 0x01 ∷ 0xF1 ∷ 0xF0 ∷ 0x3F ∷ 0xBC ∷ 0x78 ∷ 0x3F ∷ 0xC0 ∷ 0x70 ∷ 0x30 ∷ 0x1F ∷ 0xDE
        ∷ 0x0E ∷ 0x00 ∷ 0x00 ∷ [])
    ∷ (0x00 ∷ 0x00 ∷ 0x7F ∷ 0xC0 ∷ 0x0E ∷ 0x08 ∷ 0x00 ∷ 0x0F ∷ 0x00 ∷ 0x00 ∷ 0x00 ∷ 0x07 ∷ 0x00
        ∷ 0x0C ∷ 0x00 ∷ 0x00 ∷ [])
    ∷ (0x00 ∷ 0x00 ∷ 0x04 ∷ 0x00 ∷ 0x00 ∷ 0x00 ∷ 0x00 ∷ 0x00 ∷ 0x00 ∷ 0x00 ∷ 0x00 ∷ 0x00 ∷ 0x00
        ∷ 0x0C ∷ 0x00 ∷ 0x00 ∷ [])
    ∷ (0x00 ∷ 0x00 ∷ 0x00 ∷ 0x00 ∷ 0x00 ∷ 0x00 ∷ 0x00 ∷ 0x00 ∷ 0x00 ∷ 0x00 ∷ 0x00 ∷ 0x00 ∷ 0x00
        ∷ 0x18 ∷ 0x00 ∷ 0x00 ∷ [])
    ∷ (0x00 ∷ 0x00 ∷ 0x00 ∷ 0x00 ∷ 0x00 ∷ 0x00 ∷ 0x00 ∷ 0x00 ∷ 0x00 ∷ 0x00 ∷ 0x00 ∷ 0x00 ∷ 0x00
        ∷ 0x18 ∷ 0x00 ∷ 0x00 ∷ [])
    ∷ (0x00 ∷ 0x00 ∷ 0x00 ∷ 0x00 ∷ 0x00 ∷ 0x00 ∷ 0x00 ∷ 0x00 ∷ 0x00 ∷ 0x00 ∷ 0x00 ∷ 0x00 ∷ 0x00
        ∷ 0x30 ∷ 0x00 ∷ 0x00 ∷ [])
    ∷ (0x00 ∷ 0x00 ∷ 0x00 ∷ 0x00 ∷ 0x00 ∷ 0x00 ∷ 0x00 ∷ 0x00 ∷ 0x00 ∷ 0x00 ∷ 0x00 ∷ 0x00 ∷ 0x00
        ∷ 0x30 ∷ 0x00 ∷ 0x00 ∷ [])
    ∷ (0x00 ∷ 0x00 ∷ 0x00 ∷ 0x00 ∷ 0x00 ∷ 0x00 ∷ 0x00 ∷ 0x00 ∷ 0x00 ∷ 0x00 ∷ 0x00 ∷ 0x00 ∷ 0x00
        ∷ 0x00 ∷ 0x00 ∷ 0x00 ∷ [])
    ∷ (0x00 ∷ 0x00 ∷ 0x00 ∷ 0x00 ∷ 0x00 ∷ 0x00 ∷ 0x00 ∷ 0x00 ∷ 0x00 ∷ 0x00 ∷ 0x00 ∷ 0x00 ∷ 0x00
        ∷ 0x00 ∷ 0x00 ∷ 0x00 ∷ [])
    ∷ (0x00 ∷ 0x00 ∷ 0x00 ∷ 0x00 ∷ 0x00 ∷ 0x00 ∷ 0x00 ∷ 0x00 ∷ 0x00 ∷ 0x00 ∷ 0x00 ∷ 0x00 ∷ 0x00
        ∷ 0x00 ∷ 0x00 ∷ 0x00 ∷ [])
    ∷ (0x00 ∷ 0x00 ∷ 0x00 ∷ 0x00 ∷ 0x00 ∷ 0x00 ∷ 0x00 ∷ 0x00 ∷ 0x00 ∷ 0x00 ∷ 0x00 ∷ 0x00 ∷ 0x00
        ∷ 0x00 ∷ 0x00 ∷ 0x00 ∷ [])
    ∷ []
