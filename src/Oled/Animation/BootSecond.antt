-- ===== src/Oled/Animation/BootSecond.antt =====
-- The second picture of bootAnimation in Driver/ssd1306.h, by rows of 128 pixels.
use gateway_v.Base.{List, [], ◌∷◌}
use gateway_v.Text.{Bytes}

unfoldable pub boot_second : List Bytes
boot_second =
    (0x00 ∷ 0x00 ∷ 0x00 ∷ 0x00 ∷ 0x00 ∷ 0x00 ∷ 0x00 ∷ 0x00 ∷ 0x00 ∷ 0x00 ∷ 0x00 ∷ 0x00 ∷ 0x00 ∷ 0x0F
      ∷ 0xC0 ∷ 0x00 ∷ [])
    ∷ (0x00 ∷ 0x00 ∷ 0x00 ∷ 0x00 ∷ 0x00 ∷ 0x00 ∷ 0x00 ∷ 0x00 ∷ 0x00 ∷ 0x00 ∷ 0x00 ∷ 0x00 ∷ 0x00
        ∷ 0x3F ∷ 0xE0 ∷ 0x00 ∷ [])
    ∷ (0x00 ∷ 0x00 ∷ 0x00 ∷ 0x00 ∷ 0x00 ∷ 0x00 ∷ 0x00 ∷ 0x00 ∷ 0x00 ∷ 0x00 ∷ 0x00 ∷ 0x00 ∷ 0x00
        ∷ 0x3F ∷ 0xF0 ∷ 0x00 ∷ [])
    ∷ (0x00 ∷ 0x00 ∷ 0x00 ∷ 0x00 ∷ 0x00 ∷ 0x00 ∷ 0x00 ∷ 0x00 ∷ 0x00 ∷ 0x00 ∷ 0x00 ∷ 0x00 ∷ 0x00
        ∷ 0x7F ∷ 0xF8 ∷ 0x00 ∷ [])
    ∷ (0x00 ∷ 0x00 ∷ 0x00 ∷ 0x00 ∷ 0x00 ∷ 0x00 ∷ 0x00 ∷ 0x00 ∷ 0x00 ∷ 0x00 ∷ 0x00 ∷ 0x00 ∷ 0x00
        ∷ 0xFF ∷ 0xF8 ∷ 0x00 ∷ [])
    ∷ (0x00 ∷ 0x00 ∷ 0x00 ∷ 0x00 ∷ 0x00 ∷ 0x00 ∷ 0x00 ∷ 0x00 ∷ 0x00 ∷ 0x00 ∷ 0x00 ∷ 0x00 ∷ 0x00
        ∷ 0xFF ∷ 0xF8 ∷ 0x00 ∷ [])
    ∷ (0x00 ∷ 0x00 ∷ 0x00 ∷ 0x00 ∷ 0x00 ∷ 0x00 ∷ 0x00 ∷ 0x00 ∷ 0x00 ∷ 0x00 ∷ 0x00 ∷ 0x00 ∷ 0x00
        ∷ 0xFF ∷ 0xF8 ∷ 0x00 ∷ [])
    ∷ (0x00 ∷ 0x00 ∷ 0x00 ∷ 0x00 ∷ 0x00 ∷ 0x00 ∷ 0x00 ∷ 0x00 ∷ 0x00 ∷ 0x00 ∷ 0x00 ∷ 0x00 ∷ 0x00
        ∷ 0xFF ∷ 0xFC ∷ 0x00 ∷ [])
    ∷ (0x00 ∷ 0x00 ∷ 0x00 ∷ 0x00 ∷ 0x00 ∷ 0x00 ∷ 0x00 ∷ 0x00 ∷ 0x00 ∷ 0x00 ∷ 0x00 ∷ 0x00 ∷ 0x00
        ∷ 0xFF ∷ 0xFC ∷ 0x00 ∷ [])
    ∷ (0x00 ∷ 0x00 ∷ 0x00 ∷ 0x00 ∷ 0x00 ∷ 0x00 ∷ 0x00 ∷ 0x00 ∷ 0x00 ∷ 0x00 ∷ 0x00 ∷ 0x00 ∷ 0x00
        ∷ 0xFE ∷ 0x7C ∷ 0x00 ∷ [])
    ∷ (0x00 ∷ 0x00 ∷ 0x00 ∷ 0x00 ∷ 0x00 ∷ 0x00 ∷ 0x00 ∷ 0x00 ∷ 0x00 ∷ 0x00 ∷ 0x00 ∷ 0x00 ∷ 0x00
        ∷ 0x9C ∷ 0x3C ∷ 0x00 ∷ [])
    ∷ (0x00 ∷ 0x00 ∷ 0x00 ∷ 0x00 ∷ 0x00 ∷ 0x00 ∷ 0x00 ∷ 0x00 ∷ 0x00 ∷ 0x00 ∷ 0x00 ∷ 0x00 ∷ 0x00
        ∷ 0x8C ∷ 0x3C ∷ 0x00 ∷ [])
    ∷ (0x00 ∷ 0x00 ∷ 0x00 ∷ 0x00 ∷ 0x00 ∷ 0x00 ∷ 0x00 ∷ 0x00 ∷ 0x00 ∷ 0x00 ∷ 0x00 ∷ 0x00 ∷ 0x00
        ∷ 0xAD ∷ 0xBC ∷ 0x00 ∷ [])
    ∷ (0x00 ∷ 0x00 ∷ 0x00 ∷ 0x00 ∷ 0x00 ∷ 0x00 ∷ 0x00 ∷ 0x00 ∷ 0x00 ∷ 0x00 ∷ 0x00 ∷ 0x00 ∷ 0x00
        ∷ 0xAD ∷ 0xBC ∷ 0x00 ∷ [])
    ∷ (0x00 ∷ 0x00 ∷ 0x07 ∷ 0x00 ∷ 0x00 ∷ 0x00 ∷ 0x00 ∷ 0x00 ∷ 0x00 ∷ 0x00 ∷ 0x00 ∷ 0x00 ∷ 0x00
        ∷ 0xA1 ∷ 0xBC ∷ 0x00 ∷ [])
    ∷ (0x00 ∷ 0x00 ∷ 0x07 ∷ 0x80 ∷ 0x00 ∷ 0x00 ∷ 0x00 ∷ 0x00 ∷ 0x00 ∷ 0x00 ∷ 0x00 ∷ 0x00 ∷ 0x00
        ∷ 0xAC ∷ 0xBC ∷ 0x00 ∷ [])
    ∷ (0xFF ∷ 0xC0 ∷ 0x0F ∷ 0x80 ∷ 0x00 ∷ 0x00 ∷ 0x00 ∷ 0x00 ∷ 0x00 ∷ 0x00 ∷ 0x00 ∷ 0x00 ∷ 0x00
        ∷ 0x9E ∷ 0x3C ∷ 0x00 ∷ [])
    ∷ (0xFF ∷ 0xC0 ∷ 0x0F ∷ 0x80 ∷ 0x00 ∷ 0x00 ∷ 0x00 ∷ 0x00 ∷ 0x00 ∷ 0x00 ∷ 0x00 ∷ 0x00 ∷ 0x00
        ∷ 0xBF ∷ 0xBC ∷ 0x00 ∷ [])
    ∷ (0xFF ∷ 0x80 ∷ 0x0F ∷ 0x80 ∷ 0x00 ∷ 0x00 ∷ 0x00 ∷ 0x00 ∷ 0x00 ∷ 0x00 ∷ 0x00 ∷ 0x00 ∷ 0x01
        ∷ 0x3F ∷ 0x9C ∷ 0x00 ∷ [])
    ∷ (0x1E ∷ 0x00 ∷ 0x07 ∷ 0x80 ∷ 0x00 ∷ 0x00 ∷ 0x00 ∷ 0x00 ∷ 0x00 ∷ 0x00 ∷ 0x00 ∷ 0x00 ∷ 0x01
        ∷ 0x3F ∷ 0xBC ∷ 0x00 ∷ [])
    ∷ (0x1E ∷ 0x00 ∷ 0x03 ∷ 0x00 ∷ 0x00 ∷ 0x00 ∷ 0x00 ∷ 0x00 ∷ 0x00 ∷ 0x00 ∷ 0x00 ∷ 0x00 ∷ 0x01
        ∷ 0xBF ∷ 0xBE ∷ 0x00 ∷ [])
    ∷ (0x1E ∷ 0x00 ∷ 0x00 ∷ 0x00 ∷ 0x00 ∷ 0x00 ∷ 0x00 ∷ 0x00 ∷ 0x00 ∷ 0x00 ∷ 0x00 ∷ 0x00 ∷ 0x01
        ∷ 0x9E ∷ 0x1E ∷ 0x00 ∷ [])
    ∷ (0x1E ∷ 0x00 ∷ 0x00 ∷ 0x00 ∷ 0x00 ∷ 0x00 ∷ 0x00 ∷ 0x00 ∷ 0x00 ∷ 0x00 ∷ 0x04 ∷ 0x00 ∷ 0x01
        ∷ 0x8C ∷ 0x1E ∷ 0x00 ∷ [])
    ∷ (0x1E ∷ 0x00 ∷ 0x00 ∷ 0x00 ∷ 0x00 ∷ 0x00 ∷ 0x00 ∷ 0x00 ∷ 0x00 ∷ 0x00 ∷ 0x01 ∷ 0x00 ∷ 0x01
        ∷ 0x80 ∷ 0x1F ∷ 0x00 ∷ [])
    ∷ (0x1E ∷ 0x00 ∷ 0x01 ∷ 0x00 ∷ 0x40 ∷ 0x80 ∷ 0x04 ∷ 0x01 ∷ 0x80 ∷ 0x00 ∷ 0x04 ∷ 0x00 ∷ 0x03
        ∷ 0x80 ∷ 0x1F ∷ 0x00 ∷ [])
    ∷ (0x1E ∷ 0x00 ∷ 0x07 ∷ 0x81 ∷ 0xE7 ∷ 0xE0 ∷ 0x1E ∷ 0x07 ∷ 0x8F ∷ 0xF3 ∷ 0xF8 ∷ 0x00 ∷ 0x03
        ∷ 0x00 ∷ 0x0F ∷ 0x80 ∷ [])
    ∷ (0x1E ∷ 0x00 ∷ 0x1F ∷ 0x87 ∷ 0xEF ∷ 0xF0 ∷ 0x7E ∷ 0x1F ∷ 0x8F ∷ 0xF3 ∷ 0xF0 ∷ 0x00 ∷ 0x07
        ∷ 0x00 ∷ 0x0F ∷ 0xC0 ∷ [])
    ∷ (0x1E ∷ 0x00 ∷ 0x3F ∷ 0x8F ∷ 0xFF ∷ 0xF0 ∷ 0xFE ∷ 0x3F ∷ 0x83 ∷ 0xE0 ∷ 0xE0 ∷ 0x00 ∷ 0x07
        ∷ 0x00 ∷ 0x0F ∷ 0xC0 ∷ [])
    ∷ (0x1E ∷ 0x00 ∷ 0x3F ∷ 0x87 ∷ 0xF9 ∷ 0xF8 ∷ 0x3E ∷ 0x1F ∷ 0x83 ∷ 0xE0 ∷ 0xC0 ∷ 0x00 ∷ 0x0F
        ∷ 0x00 ∷ 0x07 ∷ 0xE0 ∷ [])
    ∷ (0x1E ∷ 0x00 ∷ 0x07 ∷ 0x81 ∷ 0xE0 ∷ 0xF8 ∷ 0x3E ∷ 0x07 ∷ 0x81 ∷ 0xE1 ∷ 0xC0 ∷ 0x00 ∷ 0x0E
        ∷ 0x00 ∷ 0x07 ∷ 0xE0 ∷ [])
    ∷ (0x1E ∷ 0x00 ∷ 0x07 ∷ 0x81 ∷ 0xE0 ∷ 0xF8 ∷ 0x3E ∷ 0x07 ∷ 0x81 ∷ 0xF1 ∷ 0x80 ∷ 0x00 ∷ 0x1E
        ∷ 0x00 ∷ 0x06 ∷ 0xF0 ∷ [])
    ∷ (0x1E ∷ 0x00 ∷ 0x07 ∷ 0x81 ∷ 0xE0 ∷ 0x78 ∷ 0x3E ∷ 0x07 ∷ 0x80 ∷ 0xF3 ∷ 0x80 ∷ 0x00 ∷ 0x1E
        ∷ 0x00 ∷ 0x03 ∷ 0xF0 ∷ [])
    ∷ (0x1E ∷ 0x00 ∷ 0x07 ∷ 0x81 ∷ 0xE0 ∷ 0x78 ∷ 0x3E ∷ 0x07 ∷ 0x80 ∷ 0xFB ∷ 0x00 ∷ 0x00 ∷ 0x36
        ∷ 0x00 ∷ 0x03 ∷ 0x70 ∷ [])
    ∷ (0x1E ∷ 0x00 ∷ 0x07 ∷ 0x81 ∷ 0xE0 ∷ 0x78 ∷ 0x3E ∷ 0x07 ∷ 0x80 ∷ 0x7E ∷ 0x00 ∷ 0x00 ∷ 0x34
        ∷ 0x00 ∷ 0x03 ∷ 0xF8 ∷ [])
    ∷ (0x1E ∷ 0x00 ∷ 0x07 ∷ 0x81 ∷ 0xE0 ∷ 0x78 ∷ 0x3E ∷ 0x07 ∷ 0x80 ∷ 0x7E ∷ 0x00 ∷ 0x00 ∷ 0x6C
        ∷ 0x00 ∷ 0x01 ∷ 0xB8 ∷ [])
    ∷ (0x1E ∷ 0x00 ∷ 0x07 ∷ 0x81 ∷ 0xE0 ∷ 0x78 ∷ 0x3E ∷ 0x07 ∷ 0x80 ∷ 0x3E ∷ 0x00 ∷ 0x00 ∷ 0x6C
        ∷ 0x00 ∷ 0x01 ∷ 0xB8 ∷ [])
    ∷ (0x1E ∷ 0x00 ∷ 0x07 ∷ 0x81 ∷ 0xE0 ∷ 0x78 ∷ 0x3E ∷ 0x07 ∷ 0x80 ∷ 0x3E ∷ 0x00 ∷ 0x00 ∷ 0x68
        ∷ 0x00 ∷ 0x01 ∷ 0xBC ∷ [])
    ∷ (0x1E ∷ 0x00 ∷ 0x07 ∷ 0x81 ∷ 0xE0 ∷ 0x78 ∷ 0x3E ∷ 0x07 ∷ 0x80 ∷ 0x3E ∷ 0x00 ∷ 0x00 ∷ 0x78
        ∷ 0x00 ∷ 0x01 ∷ 0xBC ∷ [])
    ∷ (0x1E ∷ 0x00 ∷ 0x07 ∷ 0x81 ∷ 0xE0 ∷ 0x78 ∷ 0x3E ∷ 0x07 ∷ 0x80 ∷ 0x7F ∷ 0x00 ∷ 0x00 ∷ 0xF8
        ∷ 0x00 ∷ 0x00 ∷ 0xBC ∷ [])
    ∷ (0x1E ∷ 0x03 ∷ 0x87 ∷ 0x81 ∷ 0xE0 ∷ 0x78 ∷ 0x3E ∷ 0x07 ∷ 0x80 ∷ 0x6F ∷ 0x80 ∷ 0x00 ∷ 0xD8
        ∷ 0x00 ∷ 0x00 ∷ 0xBC ∷ [])
    ∷ (0x1E ∷ 0x03 ∷ 0x87 ∷ 0x81 ∷ 0xE0 ∷ 0x78 ∷ 0x3E ∷ 0x07 ∷ 0x80 ∷ 0xE7 ∷ 0x80 ∷ 0x00 ∷ 0xD0
        ∷ 0x00 ∷ 0x00 ∷ 0xBC ∷ [])
    ∷ (0x1E ∷ 0x03 ∷ 0x87 ∷ 0x81 ∷ 0xE0 ∷ 0x78 ∷ 0x3E ∷ 0x07 ∷ 0x80 ∷ 0xC7 ∷ 0x80 ∷ 0x00 ∷ 0xF0
        ∷ 0x00 ∷ 0x00 ∷ 0x3C ∷ [])
    ∷ (0x1E ∷ 0x03 ∷ 0x87 ∷ 0x81 ∷ 0xE0 ∷ 0x78 ∷ 0x1E ∷ 0x07 ∷ 0x81 ∷ 0xC3 ∷ 0xC0 ∷ 0x00 ∷ 0xE0
        ∷ 0x00 ∷ 0x00 ∷ 0xCC ∷ [])
    ∷ (0x1E ∷ 0x03 ∷ 0x87 ∷ 0x81 ∷ 0xE0 ∷ 0x78 ∷ 0x1F ∷ 0x0F ∷ 0x81 ∷ 0x83 ∷ 0xC0 ∷ 0x00 ∷ 0xE0
        ∷ 0x00 ∷ 0x01 ∷ 0xEC ∷ [])
    ∷ (0x1E ∷ 0x03 ∷ 0x87 ∷ 0x81 ∷ 0xE0 ∷ 0x78 ∷ 0x1F ∷ 0xFF ∷ 0x83 ∷ 0x81 ∷ 0xE0 ∷ 0x00 ∷ 0xE0
        ∷ 0x00 ∷ 0x01 ∷ 0xF4 ∷ [])
    ∷ (0x3F ∷ 0xFF ∷ 0x8F ∷ 0x83 ∷ 0xE0 ∷ 0xF8 ∷ 0x1F ∷ 0xFF ∷ 0x87 ∷ 0x81 ∷ 0xF0 ∷ 0x00 ∷ 0x30
        ∷ 0x00 ∷ 0x01 ∷ 0xF4 ∷ [])
    ∷ (0xFF ∷ 0xFF ∷ 0xBF ∷ 0xEF ∷ 0xF9 ∷ 0xFE ∷ 0x0F ∷ 0xE7 ∷ 0xEF ∷ 0xC7 ∷ 0xF8 ∷ 0x00 ∷ 0x18
        ∷ 0x00 ∷ 0x01 ∷ 0xF4 ∷ [])
    ∷ (0xFF ∷ 0xFF ∷ 0xBF ∷ 0xE7 ∷ 0xF9 ∷ 0xFE ∷ 0x07 ∷ 0x87 ∷ 0xEF ∷ 0xC7 ∷ 0xF8 ∷ 0x00 ∷ 0x4C
        ∷ 0x00 ∷ 0x01 ∷ 0xF0 ∷ [])
    ∷ (0x00 ∷ 0x00 ∷ 0x00 ∷ 0x00 ∷ 0x00 ∷ 0x00 ∷ 0x00 ∷ 0x00 ∷ 0x00 ∷ 0x00 ∷ 0x00 ∷ 0x00 ∷ 0xEE
        ∷ 0x00 ∷ 0x00 ∷ 0xE0 ∷ [])
    ∷ (0x00 ∷ 0x00 ∷ 0x00 ∷ 0x00 ∷ 0x00 ∷ 0x00 ∷ 0x00 ∷ 0x00 ∷ 0x00 ∷ 0x00 ∷ 0x00 ∷ 0x01 ∷ 0xF7
        ∷ 0x00 ∷ 0x02 ∷ 0x1C ∷ [])
    ∷ (0x00 ∷ 0x00 ∷ 0x00 ∷ 0x00 ∷ 0x00 ∷ 0x00 ∷ 0x00 ∷ 0x00 ∷ 0x00 ∷ 0x00 ∷ 0x00 ∷ 0x03 ∷ 0xF7
        ∷ 0x00 ∷ 0x03 ∷ 0x3C ∷ [])
    ∷ (0x00 ∷ 0x00 ∷ 0x00 ∷ 0x00 ∷ 0x00 ∷ 0x00 ∷ 0x00 ∷ 0x00 ∷ 0x00 ∷ 0x00 ∷ 0x00 ∷ 0x07 ∷ 0xF3
        ∷ 0x80 ∷ 0x03 ∷ 0xFC ∷ [])
    ∷ (0x00 ∷ 0x00 ∷ 0x00 ∷ 0x00 ∷ 0x00 ∷ 0x00 ∷ 0x00 ∷ 0x00 ∷ 0x00 ∷ 0x00 ∷ 0x00 ∷ 0x0F ∷ 0xFB
        ∷ 0x80 ∷ 0x03 ∷ 0xFC ∷ [])
    ∷ (0x00 ∷ 0x00 ∷ 0x00 ∷ 0x00 ∷ 0x00 ∷ 0x00 ∷ 0x00 ∷ 0x00 ∷ 0x00 ∷ 0x00 ∷ 0x00 ∷ 0x0F ∷ 0xF9
        ∷ 0x80 ∷ 0x03 ∷ 0xFE ∷ [])
    ∷ (0x00 ∷ 0x00 ∷ 0x00 ∷ 0x00 ∷ 0x00 ∷ 0x00 ∷ 0x00 ∷ 0x00 ∷ 0x00 ∷ 0x00 ∷ 0x00 ∷ 0x0F ∷ 0xFD
        ∷ 0x80 ∷ 0x03 ∷ 0xFF ∷ [])
    ∷ (0x00 ∷ 0x00 ∷ 0x00 ∷ 0x00 ∷ 0x00 ∷ 0x00 ∷ 0x00 ∷ 0x00 ∷ 0x00 ∷ 0x00 ∷ 0x00 ∷ 0x07 ∷ 0xFC
        ∷ 0x00 ∷ 0x03 ∷ 0xFF ∷ [])
    ∷ (0x00 ∷ 0x00 ∷ 0x00 ∷ 0x00 ∷ 0x00 ∷ 0x00 ∷ 0x00 ∷ 0x00 ∷ 0x00 ∷ 0x00 ∷ 0x00 ∷ 0x07 ∷ 0xFE
        ∷ 0x00 ∷ 0x03 ∷ 0xFF ∷ [])
    ∷ (0x00 ∷ 0x00 ∷ 0x00 ∷ 0x00 ∷ 0x00 ∷ 0x00 ∷ 0x00 ∷ 0x00 ∷ 0x00 ∷ 0x00 ∷ 0x00 ∷ 0x0F ∷ 0xFF
        ∷ 0x00 ∷ 0x17 ∷ 0xFE ∷ [])
    ∷ (0x00 ∷ 0x00 ∷ 0x00 ∷ 0x00 ∷ 0x00 ∷ 0x00 ∷ 0x00 ∷ 0x00 ∷ 0x00 ∷ 0x00 ∷ 0x00 ∷ 0x0F ∷ 0xFF
        ∷ 0x40 ∷ 0x37 ∷ 0xFC ∷ [])
    ∷ (0x00 ∷ 0x00 ∷ 0x00 ∷ 0x00 ∷ 0x00 ∷ 0x00 ∷ 0x00 ∷ 0x00 ∷ 0x00 ∷ 0x00 ∷ 0x00 ∷ 0x0F ∷ 0xFF
        ∷ 0x70 ∷ 0xF7 ∷ 0xF8 ∷ [])
    ∷ (0x00 ∷ 0x00 ∷ 0x00 ∷ 0x00 ∷ 0x00 ∷ 0x00 ∷ 0x00 ∷ 0x00 ∷ 0x00 ∷ 0x00 ∷ 0x00 ∷ 0x07 ∷ 0xFF
        ∷ 0x3F ∷ 0xE7 ∷ 0xF0 ∷ [])
    ∷ (0x00 ∷ 0x00 ∷ 0x00 ∷ 0x00 ∷ 0x00 ∷ 0x00 ∷ 0x00 ∷ 0x00 ∷ 0x00 ∷ 0x00 ∷ 0x00 ∷ 0x00 ∷ 0x7F
        ∷ 0x3F ∷ 0xE7 ∷ 0xE0 ∷ [])
    ∷ (0x00 ∷ 0x00 ∷ 0x00 ∷ 0x00 ∷ 0x00 ∷ 0x00 ∷ 0x00 ∷ 0x00 ∷ 0x00 ∷ 0x00 ∷ 0x00 ∷ 0x00 ∷ 0x1E
        ∷ 0x70 ∷ 0x73 ∷ 0xC0 ∷ [])
    ∷ (0x00 ∷ 0x00 ∷ 0x00 ∷ 0x00 ∷ 0x00 ∷ 0x00 ∷ 0x00 ∷ 0x00 ∷ 0x00 ∷ 0x00 ∷ 0x00 ∷ 0x00 ∷ 0x04
        ∷ 0x00 ∷ 0x03 ∷ 0x80 ∷ [])
    ∷ []
