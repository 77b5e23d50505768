-- ===== src/Radio/Registers.antt =====
-- Register access of Driver/sx1278.c and the settings made through it. The delays are left out.
use gateway_v.Base.{
  ℕ, ◌+◌, ◌-◌, ◌*◌, ◌/◌, Bool, ◌||◌, Option, some, List, [], ◌∷◌, ltb, leb, ◌==◌, if◌then◌else◌,
  bit_and, bit_or, get_elem?, ◌>>=◌,
}
use gateway_v.Base.Word.{u8, u32, shl, shr}
use gateway_v.Radio.{
  Bus, Radio, reg_op_mode, reg_fr_msb, reg_fr_mid, reg_fr_lsb, reg_pa_config, reg_ocp,
  reg_modem_config1, reg_modem_config2, reg_modem_config3, reg_sync_word, reg_pkt_rssi_value,
  reg_version, sleep_mode, standby_mode, transmit_mode, rxcontinuous_mode, rxsingle_mode, cad_mode,
  lora_ok, lora_not_found,
}

abbrev pub supported_mode : ℕ → Bool
supported_mode m =
    m == sleep_mode
    || (m == standby_mode
        || (m == transmit_mode
            || (m == rxcontinuous_mode || (m == rxsingle_mode || m == cad_mode))))

-- The spreading factor that is written.
unfoldable pub clamp_sf : ℕ → ℕ
clamp_sf sf = let top = if ltb 12 sf then 12 else sf in if ltb top 7 then 7 else top

-- The value of RegOcp for a current in milliampere, a uint8_t.
unfoldable pub ocp_value : ℕ → ℕ
ocp_value cur =
    let low = if ltb cur 45 then 45 else cur in
    let c = if ltb 240 low then 240 else low in
    let trim = if leb c 120 then (c - 45) / 5 else if leb c 240 then (c + 30) / 10 else 0 in
    u8 (bit_or trim (shl 1 5))

-- long BW[]: the bandwidths in units of 100 Hz.
abbrev pub bandwidths : List ℕ
bandwidths = 78 ∷ 104 ∷ 156 ∷ 208 ∷ 313 ∷ 417 ∷ 625 ∷ 1250 ∷ 2500 ∷ 5000 ∷ []

module _ (bus : Bus) where
  open bus use {Chip, spi_write, spi_write_then_read, garbage}

  unfoldable pub lora_write : Radio Chip → ℕ → ℕ → Radio Chip
  lora_write r address value = record r {
    chip = spi_write r.chip (bit_or address (shl 1 7) ∷ value ∷ []);
  }

  unfoldable pub lora_read : Radio Chip → ℕ → ℕ × Radio Chip
  lora_read r address =
      let (x, c) = spi_write_then_read r.chip (bit_and address 0x7f) in (x, record r { chip = c })

  -- In a mode without a case the written byte is an uninitialised local.
  unfoldable pub goto_mode : Radio Chip → ℕ → Radio Chip
  goto_mode r mode =
      let (x, r1) = lora_read r reg_op_mode in
      if supported_mode mode
      then lora_write (record r1 { current_mode = mode }) reg_op_mode (bit_or (bit_and x 0xF8) mode)
      else lora_write r1 reg_op_mode garbage

  unfoldable pub set_frequency : Radio Chip → ℕ → Radio Chip
  set_frequency r f =
      let fr = shr (u32 (f * 524288)) 5 in
      let r1 = lora_write r reg_fr_msb (bit_and (u8 (shr fr 16)) 0xff) in
      let r2 = lora_write r1 reg_fr_mid (bit_and (u8 (shr fr 8)) 0xff) in
      lora_write r2 reg_fr_lsb (bit_and (u8 fr) 0xff)

  -- LoRa_setLowDaraRateOptimization
  unfoldable pub set_low_data_rate_optimization : Radio Chip → Bool → Radio Chip
  set_low_data_rate_optimization r value =
      let (x, r1) = lora_read r reg_modem_config3 in
      lora_write r1 reg_modem_config3 (if value then bit_or x 0x08 else bit_and x 0xF7)

  -- LoRa_setAutoLDO; `none` is a bandwidth outside the array.
  unfoldable pub set_auto_ldo : Radio Chip → Option (Radio Chip)
  set_auto_ldo r = get_elem? bandwidths r.band_width >>= λ bw.
      some (set_low_data_rate_optimization r (ltb 16 (shl 1 r.spreading_factor * 10 / bw)))

  unfoldable pub set_spreading_factor : Radio Chip → ℕ → Option (Radio Chip)
  set_spreading_factor r sf =
      let (x, r1) = lora_read r reg_modem_config2 in
      set_auto_ldo
        (lora_write r1 reg_modem_config2 (u8 (bit_or (shl (clamp_sf sf) 4) (bit_and x 0x0F))))

  unfoldable pub set_power : Radio Chip → ℕ → Radio Chip
  set_power r power = lora_write r reg_pa_config (u8 power)

  unfoldable pub set_ocp : Radio Chip → ℕ → Radio Chip
  set_ocp r cur = lora_write r reg_ocp (ocp_value cur)

  -- LoRa_setTOMsb_setCRCon
  unfoldable pub set_timeout_msb_crc_on : Radio Chip → Radio Chip
  set_timeout_msb_crc_on r =
      let (x, r1) = lora_read r reg_modem_config2 in lora_write r1 reg_modem_config2 (bit_or x 0x07)

  unfoldable pub set_sync_word : Radio Chip → ℕ → Radio Chip
  set_sync_word r syncword = lora_write r reg_sync_word syncword

  unfoldable pub set_band_width : Radio Chip → ℕ → Option (Radio Chip)
  set_band_width r bw =
      let (x, r1) = lora_read r reg_modem_config1 in
      set_auto_ldo (lora_write r1 reg_modem_config1 (bit_or (bit_and x 0x0F) (u8 (shl bw 4))))

  unfoldable pub set_coding_rate : Radio Chip → ℕ → Radio Chip
  set_coding_rate r rate =
      let (x, r1) = lora_read r reg_modem_config1 in
      lora_write r1 reg_modem_config1 (bit_or (bit_and x 0xF1) (u8 (shl rate 1)))

  -- LoRa_isValid
  unfoldable pub is_valid : Radio Chip → ℕ × Radio Chip
  is_valid r =
      let (x, r1) = lora_read r reg_version in (if x == 0x12 then lora_ok else lora_not_found, r1)

  -- LoRa_getRSSI
  unfoldable pub get_rssi : Radio Chip → ℕ × Radio Chip
  get_rssi r = lora_read r reg_pkt_rssi_value
