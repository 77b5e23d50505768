-- ===== src/Radio/Tests.antt =====
-- Runs of the driver on a chip that is a plain register file, and its theorems at concrete radios.
use Prim.Native.Nat.{min, max}
use gateway_v.Base.{
  false, ℕ, ◌+◌, ◌-◌, ◌*◌, ◌%◌, ◌/◌, ◌^◌, ◌≤◌, ◌<◌, ◌≡◌, refl, ◌⊎◌, true, none, some, [], ◌∷◌, ◌++◌,
  arith, ◌==◌, if◌then◌else◌, replicate,
}
use gateway_v.Text.{Bytes, c_string}
use gateway_v.Packet.{packet_size}
use gateway_v.Radio.{
  Bus, Radio, reg_fr_msb, reg_fr_mid, reg_fr_lsb, reg_modem_config1, reg_modem_config2,
}
use gateway_v.Radio.Registers.{
  ocp_value, set_frequency, set_spreading_factor, set_band_width, set_coding_rate,
}
use gateway_v.Radio.Device.{workqueue_fn}
use gateway_v.Radio.Chip.{IsRegisterFile}
use gateway_v.Radio.Settings.{
  reg_of, ocp_current, clamped_current, ocp_value_within, set_frequency_frf,
  set_spreading_factor_fields, set_coding_rate-set_band_width,
}
use gateway_v.Radio.Filter.{IsOwn, IsRepeated, workqueue_fn-filters}
use gateway_v.Radio.Library.{start_radio, sig_int}
use gateway_v.Radio.Session.{sig_int-start_radio}
use gateway_v.Radio.{rxcontinuous_mode, sleep_mode}
use gateway_v.Radio.Probe.{Outcomes}

-- A write puts the byte behind the address into its register; a longer burst is lost.
abbrev store : (ℕ → ℕ) → Bytes → ℕ → ℕ
store c (a ∷ v ∷ []) b = if a == (b + 128) then v % 256 else c b
store c _ b = c b

abbrev register_chip : Bus
register_chip = record {
  Chip = ℕ → ℕ;
  spi_write = store;
  spi_write_then_read = λ c a. (c a % 256, c);
  garbage = 0;
}

register_chip-IsRegisterFile : IsRegisterFile register_chip
register_chip-IsRegisterFile = record {
  register = λ c a. c a % 256;
  register_byte = λ c a. omega arith;
  reads = λ c a k. refl;
  read_keeps = λ c a b k. refl;
  written = λ c a v k h. ground arith;
  write_keeps = λ c a b v k h ne. ground arith;
}

abbrev radio_on : {C : Type 0} → C → Radio C
radio_on c = record {
  chip = c;
  status = 200;
  current_mode = 5;
  frequency = 433;
  spreading_factor = 7;
  band_width = 7;
  coding_rate = 1;
  preamble = 8;
  power = 255;
  over_current_protection = 100;
  receive_buffer = replicate packet_size 0;
  transmit_buffer = (b'a' ∷ []) ++ replicate 59 0;
  cache_buffer = (b'b' ∷ b'c' ∷ []) ++ replicate 58 0;
  rssi_value = 0;
  task = some 42;
  signals = 0;
  work_pending = true;
}

abbrev idle : Radio (ℕ → ℕ)
idle = radio_on (λ a. a)

ocp_value_within_example :
    (32 ≤ ocp_value 100)
    × (ocp_value 100 - 32 ≤ 27)
    × (ocp_current (ocp_value 100 - 32) ≤ clamped_current 100)
    × (clamped_current 100 < ocp_current (ocp_value 100 - 32) + 10)
ocp_value_within_example = ocp_value_within 100 (omega arith)

set_frequency_frf_example :
    let r' = set_frequency register_chip idle 433 in
    (reg_of register_chip register_chip-IsRegisterFile r' reg_fr_msb * 65536
        + reg_of register_chip register_chip-IsRegisterFile r' reg_fr_mid * 256
        + reg_of register_chip register_chip-IsRegisterFile r' reg_fr_lsb)
      * 32
    ≡ 433 * 2 ^ 19
set_frequency_frf_example =
    set_frequency_frf register_chip register_chip-IsRegisterFile idle 433 (omega arith)

set_spreading_factor_fields_example :
    (r' : Radio (ℕ → ℕ)) × (set_spreading_factor register_chip idle 13 ≡ some r')
    × (reg_of register_chip register_chip-IsRegisterFile r' reg_modem_config2
        ≡ min 12 (max 7 13) * 16
          + reg_of register_chip register_chip-IsRegisterFile idle reg_modem_config2 % 16)
    × (reg_of register_chip register_chip-IsRegisterFile r' reg_modem_config1
        ≡ reg_of register_chip register_chip-IsRegisterFile idle reg_modem_config1)
set_spreading_factor_fields_example =
    set_spreading_factor_fields register_chip register_chip-IsRegisterFile idle 13 (omega arith)

set_coding_rate-set_band_width_example :
    (r' : Radio (ℕ → ℕ)) × (set_band_width register_chip idle 7 ≡ some r')
    × (reg_of register_chip register_chip-IsRegisterFile
          (set_coding_rate register_chip r' 4)
          reg_modem_config1
        ≡ 7 * 16
          + 4 * 2
          + reg_of register_chip register_chip-IsRegisterFile idle reg_modem_config1 % 2)
set_coding_rate-set_band_width_example =
    set_coding_rate-set_band_width register_chip register_chip-IsRegisterFile idle 7 4 (omega arith)
      (omega arith) (omega arith)

workqueue_fn-filters_example :
    let r' = workqueue_fn idle in
    (¬ (IsOwn idle ⊎ IsRepeated idle)
      → (c_string r'.receive_buffer ≡ c_string idle.cache_buffer) × (r'.signals ≡ idle.signals + 1))
    × (IsOwn idle ⊎ IsRepeated idle
        → (r'.receive_buffer ≡ idle.receive_buffer)
          × (r'.signals ≡ idle.signals)
          × (c_string r'.cache_buffer ≡ []))
workqueue_fn-filters_example = workqueue_fn-filters idle 42 refl refl

sig_int-start_radio_example :
    ((r1 r2 : Radio (ℕ → ℕ)) × (x1 x2 : ℕ) × (c1 c2 : ℕ → ℕ) × (start_radio register_chip true 42
          idle
        ≡ some r1)
      × (r1.chip ≡ store c1 (0x81 ∷ (x1 / 8 % 32 * 8 + rxcontinuous_mode) ∷ []))
      × (◌≡◌ {A = ℕ × (ℕ → ℕ)} (x1, c1) (1, λ a. a))
      × (r1.current_mode ≡ rxcontinuous_mode)
      × (r1.task ≡ some 42)
      × (sig_int register_chip true r1 ≡ some r2)
      × (r2.chip ≡ store c2 (0x81 ∷ (x2 / 8 % 32 * 8 + sleep_mode) ∷ []))
      × (◌≡◌ {A = ℕ × (ℕ → ℕ)} (x2, c2) (r1.chip 1 % 256, r1.chip))
      × (r2.current_mode ≡ sleep_mode)
      × (r2.task ≡ none))
    × (idle.task ≡ none → sig_int register_chip true idle ≡ none)
sig_int-start_radio_example = sig_int-start_radio register_chip idle 42

-- gpiod_get fails for the interrupt's line, and request_irq then does.
abbrev some_outcomes : Outcomes
some_outcomes = record {
  allocated = true;
  reset_got = true;
  dio0_got = false;
  spi_set = true;
  cdev_added = true;
  device_created = true;
  receive_allocated = true;
  transmit_allocated = true;
  cache_allocated = true;
  irq_requested = false;
}
