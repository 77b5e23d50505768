-- ===== src/Radio/Session.antt =====
-- The radio from the start of the parent process to its end.
use gateway_v.Base.{
  ℕ, ◌+◌, ◌*◌, ◌/◌, ◌%◌, ◌<◌, ◌≡◌, refl, ap, true, none, some, [], ◌∷◌, arith, bit_and, bit_or,
}
use gateway_v.Base.Bits.{bit_or_disjoint, bit_and_mask, bit_and_low}
use gateway_v.Radio.{Bus, Radio, sleep_mode, rxcontinuous_mode}
use gateway_v.Radio.Registers.{goto_mode, lora_read, lora_write}
use gateway_v.Radio.Device.{ioctl}
use gateway_v.Radio.Library.{
  lora_ioctl, lora_goto_mode, lora_start, register_recv_signal_from_driver,
  unregister_recv_signal_from_driver, start_radio, sig_int,
}

-- The upper five bits of a byte, and a mode below them.
mode_byte : (x mode : ℕ) → mode < 8 → bit_or (bit_and x 0xF8) mode ≡ x / 8 % 32 * 8 + mode
mode_byte x mode h =
    let first : bit_and x 248 ≡ bit_and (x / 2) 124 * 2 = omega (arith, bit_and_low x 248) in
    let second : bit_and (x / 2) 124 ≡ bit_and (x / 2 / 2) 62 * 2 =
      omega (arith, bit_and_low (x / 2) 124) in
    let third : bit_and (x / 2 / 2) 62 ≡ bit_and (x / 2 / 2 / 2) 31 * 2 =
      omega (arith, bit_and_low (x / 2 / 2) 62) in
    let upper : bit_and x 248 ≡ x / 8 % 32 * 8 =
      omega (arith, first, second, third, bit_and_mask 5 (x / 2 / 2 / 2)) in
    rw upper (bit_or_disjoint 3 (x / 8 % 32) mode h)

module _ (bus : Bus) where
  open bus use {Chip, spi_write, spi_write_then_read}

  -- With the device opening: the start reads RegOpMode and writes it with its upper five bits kept and
  -- the mode for continuous reception below them, which is the last access to the chip, and registers
  -- the process; SIGINT then does the same with the mode for sleeping, and leaves no process
  -- registered. But SIGINT on a radio with no process registered reads through a null pointer.
  pub sig_int-start_radio :
      (r : Radio Chip) (pid : ℕ)
      → ((r1 r2 : Radio Chip) × (x1 x2 : ℕ) × (c1 c2 : Chip) × (start_radio bus true pid r
            ≡ some r1)
          × (r1.chip ≡ spi_write c1 (0x81 ∷ (x1 / 8 % 32 * 8 + rxcontinuous_mode) ∷ []))
          × ((x1, c1) ≡ spi_write_then_read r.chip 1)
          × (r1.current_mode ≡ rxcontinuous_mode)
          × (r1.task ≡ some pid)
          × (sig_int bus true r1 ≡ some r2)
          × (r2.chip ≡ spi_write c2 (0x81 ∷ (x2 / 8 % 32 * 8 + sleep_mode) ∷ []))
          × ((x2, c2) ≡ spi_write_then_read r1.chip 1)
          × (r2.current_mode ≡ sleep_mode)
          × (r2.task ≡ none))
        × (r.task ≡ none → sig_int bus true r ≡ none)
  unfolding start_radio sig_int lora_start lora_goto_mode register_recv_signal_from_driver
      unregister_recv_signal_from_driver lora_ioctl ioctl goto_mode lora_read lora_write
  sig_int-start_radio r pid =
      let a = spi_write_then_read r.chip 1 in
      let started = spi_write a.1 (0x81 ∷ bit_or (bit_and a.0 0xF8) rxcontinuous_mode ∷ []) in
      let b = spi_write_then_read started 1 in
      (
        (
          _,
          _,
          a.0,
          b.0,
          a.1,
          b.1,
          refl,
          ap (λ v. spi_write a.1 (0x81 ∷ v ∷ [])) (mode_byte a.0 rxcontinuous_mode (omega arith)),
          refl,
          refl,
          refl,
          refl,
          ap (λ v. spi_write b.1 (0x81 ∷ v ∷ [])) (mode_byte b.0 sleep_mode (omega arith)),
          refl,
          refl,
          refl,
        ),
        λ h. rw h refl,
      )
