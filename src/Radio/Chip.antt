-- ===== src/Radio/Chip.antt =====
-- What the settings rely on of the SX1278 behind the bus, by its data sheet: a write access (address
-- with the top bit set, then a byte) stores that byte, a read access returns what is stored, and
-- neither changes another register. It is asked only of registers that keep what is written; those of
-- the FIFO, the interrupt flags and the operating mode change by themselves.
use gateway_v.Base.{ℕ, ◌+◌, ◌≡◌, ◌≢◌, ◌<◌, Bool, true, ◌||◌, [], ◌∷◌, leb, ◌&&◌, ◌==◌}
use gateway_v.Radio.{Bus}

-- The frequency, amplifier, LNA, modem, preamble and payload registers, the sync word and the DIO map.
abbrev pub keeps_value : ℕ → Bool
keeps_value a =
    (leb 0x06 a && leb a 0x09)
    || (a == 0x0B
        || (a == 0x0C || ((leb 0x1D a && leb a 0x22) || (a == 0x26 || (a == 0x39 || a == 0x40)))))

pub record IsRegisterFile (bus : Bus) : Type 0 where
  pub register : bus.Chip → ℕ → ℕ
  pub register_byte : (c : bus.Chip) (a : ℕ) → register c a < 256
  pub reads :
      (c : bus.Chip) (a : ℕ) → keeps_value a ≡ true → (bus.spi_write_then_read c a).0 ≡ register c a
  pub read_keeps :
      (c : bus.Chip) (a b : ℕ)
      → keeps_value b ≡ true
      → register (bus.spi_write_then_read c a).1 b ≡ register c b
  pub written :
      (c : bus.Chip) (a v : ℕ)
      → keeps_value a ≡ true
      → v < 256
      → register (bus.spi_write c ((a + 128) ∷ v ∷ [])) a ≡ v
  pub write_keeps :
      (c : bus.Chip) (a b v : ℕ)
      → keeps_value b ≡ true
      → a < 128
      → a ≢ b
      → register (bus.spi_write c ((a + 128) ∷ v ∷ [])) b ≡ register c b
