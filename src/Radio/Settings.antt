-- ===== src/Radio/Settings.antt =====
-- What the settings of Driver/sx1278.c leave in the chip's registers.
use gateway_v.Base.{
  ℕ, ◌+◌, ◌-◌, ◌*◌, ◌/◌, ◌%◌, ◌^◌, ◌≤◌, ◌<◌, ◌≡◌, refl, ◌≢◌, sym, ◌∙◌, Bool, true, ◌&&◌, some,
  arith, ltb, leb, if◌then◌else◌, bit_and, bit_or, get_elem?-of-lt,
}
use Prim.Native.Nat.{min, max}
use mathlib.Core.Path.{ap₂}
use gateway_v.Base.Word.{u8, u32, shl, shr}
use gateway_v.Base.Bits.{
  all_below, test-all_below, byte_table, bit_or_disjoint, bit_and_mask, bit_or_low, bit_or_comm,
}
use gateway_v.Radio.{
  Bus, Radio, reg_fr_msb, reg_fr_mid, reg_fr_lsb, reg_modem_config1, reg_modem_config2,
  reg_modem_config3,
}
use gateway_v.Radio.Registers.{
  bandwidths, clamp_sf, ocp_value, lora_write, lora_read, set_frequency,
  set_low_data_rate_optimization, set_auto_ldo, set_spreading_factor, set_band_width,
  set_coding_rate,
}
use gateway_v.Radio.Chip.{IsRegisterFile, keeps_value}

-- The current in milliampere that the data sheet gives for a value of OcpTrim up to 27.
abbrev pub ocp_current : ℕ → ℕ
ocp_current trim = if leb trim 15 then 45 + 5 * trim else 10 * trim - 30

abbrev pub clamped_current : ℕ → ℕ
clamped_current cur = if ltb cur 45 then 45 else if ltb 240 cur then 240 else cur

abbrev ocp_test : ℕ → Bool
ocp_test cur =
    let trim = ocp_value cur - 32 in
    leb 32 (ocp_value cur)
    && (leb trim 27
        && (leb (ocp_current trim) (clamped_current cur)
            && ltb (clamped_current cur) (ocp_current trim + 10)))

ocp_table : all_below (λ cur. ocp_test cur) 256 ≡ true
unfolding all_below ocp_value
ocp_table = refl

-- For every requested current, RegOcp gets the enable bit and a trim value whose current is that of
-- the request, limited to 45 to 240 mA, or below it by less than 10 mA.
pub ocp_value_within :
    (cur : ℕ)
    → cur < 256
    → (32 ≤ ocp_value cur)
      × (ocp_value cur - 32 ≤ 27)
      × (ocp_current (ocp_value cur - 32) ≤ clamped_current cur)
      × (clamped_current cur < ocp_current (ocp_value cur - 32) + 10)
ocp_value_within cur h =
    let t = test-all_below (λ c. ocp_test c) 256 cur h ocp_table in ground arith

to_write_address : (a : ℕ) → a < 128 → bit_or a (shl 1 7) ≡ a + 128
to_write_address a h = omega (arith, bit_or_comm a 128, bit_or_disjoint 7 1 a h)

to_read_address : (a : ℕ) → a < 128 → bit_and a 0x7f ≡ a
to_read_address a h = omega (arith, bit_and_mask 7 a)

module _ (bus : Bus) (file : IsRegisterFile bus) where
  open bus use {Chip, spi_write, spi_write_then_read}
  open file use {register, register_byte, reads, read_keeps, written, write_keeps}

  abbrev pub reg_of : Radio Chip → ℕ → ℕ
  reg_of r a = register r.chip a

  write_self :
      (r : Radio Chip) (a v : ℕ)
      → keeps_value a ≡ true
      → a < 128
      → v < 256
      → reg_of (lora_write bus r a v) a ≡ v
  unfolding lora_write
  write_self r a v k h hv = rw (to_write_address a h) (written r.chip a v k hv)

  write_other :
      (r : Radio Chip) (a b v : ℕ)
      → keeps_value b ≡ true
      → a < 128
      → a ≢ b
      → reg_of (lora_write bus r a v) b ≡ reg_of r b
  unfolding lora_write
  write_other r a b v k h ne = rw (to_write_address a h) (write_keeps r.chip a b v k h ne)

  read_self :
      (r : Radio Chip) (a : ℕ) → keeps_value a ≡ true → a < 128 → (lora_read bus r a).0 ≡ reg_of r a
  unfolding lora_read
  read_self r a k h = rw (to_read_address a h) (reads r.chip a k)

  read_other :
      (r : Radio Chip) (a b : ℕ)
      → keeps_value b ≡ true
      → a < 128
      → reg_of (lora_read bus r a).1 b ≡ reg_of r b
  unfolding lora_read
  read_other r a b k h = rw (to_read_address a h) (read_keeps r.chip a b k)

  -- The three frequency registers hold the carrier frequency that the data sheet asks for, f MHz times
  -- 2 ^ 19 over the 32 MHz of the crystal, for every f below 1024.
  pub set_frequency_frf :
      (r : Radio Chip) (f : ℕ)
      → f < 1024
      → let r' = set_frequency bus r f in
        (reg_of r' reg_fr_msb * 65536 + reg_of r' reg_fr_mid * 256 + reg_of r' reg_fr_lsb) * 32
        ≡ f * 2 ^ 19
  unfolding set_frequency
  set_frequency_frf r f h =
      let fr = shr (u32 (f * 524288)) 5 in
      let m = bit_and (u8 (shr fr 16)) 0xff in
      let d = bit_and (u8 (shr fr 8)) 0xff in
      let l = bit_and (u8 fr) 0xff in
      let r1 = lora_write bus r reg_fr_msb m in
      let r2 = lora_write bus r1 reg_fr_mid d in
      let r3 = lora_write bus r2 reg_fr_lsb l in
      let em = bit_and_mask 8 (u8 (shr fr 16)) in
      let ed = bit_and_mask 8 (u8 (shr fr 8)) in
      let el = bit_and_mask 8 (u8 fr) in
      let e6 : reg_of r3 reg_fr_msb ≡ m =
        write_other r2 8 6 l refl (omega arith) (omega arith)
        ∙ write_other r1 7 6 d refl (omega arith) (omega arith)
        ∙ write_self r 6 m refl (omega arith) (omega arith) in
      let e7 : reg_of r3 reg_fr_mid ≡ d =
        write_other r2 8 7 l refl (omega arith) (omega arith)
        ∙ write_self r1 7 d refl (omega arith) (omega arith) in
      let e8 : reg_of r3 reg_fr_lsb ≡ l = write_self r2 8 l refl (omega arith) (omega arith) in
      rw (e6, e7, e8) (omega (arith, em, ed, el))

  -- LoRa_setLowDaraRateOptimization changes no other register of the file.
  optimization_other :
      (r : Radio Chip) (v : Bool) (b : ℕ)
      → keeps_value b ≡ true
      → b ≢ 0x26
      → reg_of (set_low_data_rate_optimization bus r v) b ≡ reg_of r b
  unfolding set_low_data_rate_optimization
  optimization_other r v b k ne =
      write_other (lora_read bus r reg_modem_config3).1 0x26 b _ k (omega arith) (λ e. ne (sym e))
      ∙ read_other r 0x26 b k (omega arith)

  auto_ldo_total :
      (r : Radio Chip)
      → r.band_width < 10
      → (v : Bool) × (set_auto_ldo bus r ≡ some (set_low_data_rate_optimization bus r v))
  unfolding set_auto_ldo
  auto_ldo_total r h =
      let (bw, e) = get_elem?-of-lt bandwidths r.band_width h in
      (ltb 16 (shl 1 r.spreading_factor * 10 / bw), rw e refl)

  clamp_sf_lem : (sf : ℕ) → clamp_sf sf ≡ min 12 (max 7 sf)
  unfolding clamp_sf
  clamp_sf_lem sf = ground arith

  -- With a bandwidth of the enumeration, setting a spreading factor returns; the upper half of
  -- RegModemConfig2 is then the factor, raised to 7 or lowered to 12, the lower half is what it was, and
  -- RegModemConfig1 is untouched.
  pub set_spreading_factor_fields :
      (r : Radio Chip) (sf : ℕ)
      → r.band_width < 10
      → (r' : Radio Chip) × (set_spreading_factor bus r sf ≡ some r')
        × (reg_of r' reg_modem_config2 ≡ min 12 (max 7 sf) * 16 + reg_of r reg_modem_config2 % 16)
        × (reg_of r' reg_modem_config1 ≡ reg_of r reg_modem_config1)
  unfolding set_spreading_factor
  set_spreading_factor_fields r sf h =
      let x = (lora_read bus r reg_modem_config2).0 in
      let r1 = (lora_read bus r reg_modem_config2).1 in
      let v = u8 (bit_or (shl (clamp_sf sf) 4) (bit_and x 0x0F)) in
      let r2 = lora_write bus r1 reg_modem_config2 v in
      let (low, done) = auto_ldo_total r2 (unfold lora_write lora_read in h) in
      let most : clamp_sf sf ≤ 12 = omega (arith, clamp_sf_lem sf) in
      let ev : v ≡ min 12 (max 7 sf) * 16 + reg_of r reg_modem_config2 % 16 = omega (
        arith,
        clamp_sf_lem sf,
        most,
        read_self r reg_modem_config2 refl (omega arith),
        bit_and_mask 4 x,
        bit_or_disjoint 4 (clamp_sf sf) (bit_and x 0x0F) (omega (arith, bit_and_mask 4 x)),
      ) in
      (
        set_low_data_rate_optimization bus r2 low,
        done,
        optimization_other r2 low reg_modem_config2 refl (omega arith)
            ∙ write_self r1 reg_modem_config2 v refl (omega arith) (omega arith)
            ∙ ev,
        optimization_other r2 low reg_modem_config1 refl (omega arith)
            ∙ write_other r1 reg_modem_config2 reg_modem_config1 v refl (omega arith) (omega arith)
            ∙ read_other r reg_modem_config2 reg_modem_config1 refl (omega arith),
      )

  upper_and_lowest : (x : ℕ) → x < 256 → bit_and x 0xF1 ≡ x / 16 * 16 + x % 2
  upper_and_lowest =
      byte_table (λ x. bit_and x 0xF1) (λ x. x / 16 * 16 + x % 2) (unfold all_below in refl)

  middle_field : (h b c : ℕ) → b < 2 → c < 8 → bit_or (h * 16 + b) (c * 2) ≡ h * 16 + c * 2 + b
  middle_field h b c hb hc =
      let halves : bit_or ((h * 16 + b) / 2) (c * 2 / 2) ≡ bit_or (h * 8) c =
        ap₂ bit_or (omega arith) (omega arith) in
      omega (arith, bit_or_low (h * 16 + b) (c * 2), halves, bit_or_disjoint 3 h c hc)

  -- Setting a bandwidth and then a coding rate, both of their enumerations, fills their two fields of
  -- RegModemConfig1 and keeps its lowest bit, the header mode.
  pub set_coding_rate-set_band_width :
      (r : Radio Chip) (bw rate : ℕ)
      → r.band_width < 10
      → bw < 10
      → rate < 5
      → (r' : Radio Chip) × (set_band_width bus r bw ≡ some r')
        × (reg_of (set_coding_rate bus r' rate) reg_modem_config1
            ≡ bw * 16 + rate * 2 + reg_of r reg_modem_config1 % 2)
  unfolding set_band_width set_coding_rate
  set_coding_rate-set_band_width r bw rate hr hb hc =
      let x = (lora_read bus r reg_modem_config1).0 in
      let r1 = (lora_read bus r reg_modem_config1).1 in
      let v = bit_or (bit_and x 0x0F) (u8 (shl bw 4)) in
      let r2 = lora_write bus r1 reg_modem_config1 v in
      let (low, done) = auto_ldo_total r2 (unfold lora_write lora_read in hr) in
      let r3 = set_low_data_rate_optimization bus r2 low in
      let fits : u8 (shl bw 4) ≡ bw * 16 = omega arith in
      let ev : v ≡ bw * 16 + reg_of r reg_modem_config1 % 16 = rw fits (
        omega (
          arith,
          read_self r reg_modem_config1 refl (omega arith),
          bit_and_mask 4 x,
          bit_or_comm (bit_and x 0x0F) (bw * 16),
          bit_or_disjoint 4 bw (bit_and x 0x0F) (omega (arith, bit_and_mask 4 x)),
        )) in
      let y = (lora_read bus r3 reg_modem_config1).0 in
      let r4 = (lora_read bus r3 reg_modem_config1).1 in
      let ey : y ≡ v =
        read_self r3 reg_modem_config1 refl (omega arith)
        ∙ optimization_other r2 low reg_modem_config1 refl (omega arith)
        ∙ write_self r1 reg_modem_config1 v refl (omega arith) (omega (arith, ev)) in
      let z = bit_or (bit_and y 0xF1) (u8 (shl rate 1)) in
      let masked : bit_and y 0xF1 ≡ bw * 16 + reg_of r reg_modem_config1 % 2 =
        upper_and_lowest y (omega (arith, ey, ev)) ∙ omega (arith, ey, ev) in
      let small : u8 (shl rate 1) ≡ rate * 2 = omega arith in
      let ez : z ≡ bw * 16 + rate * 2 + reg_of r reg_modem_config1 % 2 =
        rw (masked, small)
          (middle_field bw (reg_of r reg_modem_config1 % 2) rate (omega arith) (omega arith)) in
      (r3, done, write_self r4 reg_modem_config1 z refl (omega arith) (omega (arith, ez)) ∙ ez)
