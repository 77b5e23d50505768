-- ===== src/Radio/Library.antt =====
-- The ioctl calls of Src/lora.c on the driver, and those with which main.c starts and ends. `opens`
-- says whether /dev/lora-0 opens; the flag of a result is false for -1.
use gateway_v.Base.{
  ℕ, ◌+◌, ◌-◌, ◌*◌, ◌/◌, ◌^◌, Bool, true, false, Option, some, if◌then◌else◌, ◌>>=◌,
}
use mathlib.Core.Option
use gateway_v.Base.Word.{u32}
use gateway_v.Radio.{Bus, Radio, sleep_mode, rxcontinuous_mode}
use gateway_v.Radio.Device.{
  Command, register_signal, cancel_signal, rssi, to_mode, band_width, spreading_factor, coding_rate,
  sync_word, power, frequency, status, ioctl,
}

module _ (bus : Bus) (opens : Bool) where
  open bus use {Chip}

  -- open, ioctl and close.
  unfoldable pub lora_ioctl : Radio Chip → Command bus → Option (Bool × Radio Chip)
  lora_ioctl r command =
      if opens then Option.map (λ r'. (true, r')) (ioctl bus r command) else some (false, r)

  unfoldable pub lora_goto_mode : Radio Chip → ℕ → Option (Bool × Radio Chip)
  lora_goto_mode r mode = lora_ioctl r (to_mode mode)

  unfoldable pub lora_start : Radio Chip → Option (Bool × Radio Chip)
  lora_start r = lora_goto_mode r rxcontinuous_mode

  unfoldable pub register_recv_signal_from_driver : ℕ → Radio Chip → Option (Bool × Radio Chip)
  register_recv_signal_from_driver pid r = lora_ioctl r (register_signal pid)

  unfoldable pub unregister_recv_signal_from_driver : Radio Chip → Option (Bool × Radio Chip)
  unregister_recv_signal_from_driver r = lora_ioctl r cancel_signal

  unfoldable pub lora_set_frequency : Radio Chip → ℕ → Option (Bool × Radio Chip)
  lora_set_frequency r f = lora_ioctl r (frequency f)

  unfoldable pub lora_set_spreading_factor : Radio Chip → ℕ → Option (Bool × Radio Chip)
  lora_set_spreading_factor r sf = lora_ioctl r (spreading_factor sf)

  unfoldable pub lora_set_power : Radio Chip → ℕ → Option (Bool × Radio Chip)
  lora_set_power r p = lora_ioctl r (power p)

  unfoldable pub lora_set_band_width : Radio Chip → ℕ → Option (Bool × Radio Chip)
  lora_set_band_width r bw = lora_ioctl r (band_width bw)

  -- The driver writes one byte into an int that holds `stack` before; -1 where the device does not open.
  unfoldable pub lora_get_rssi : ℕ → Radio Chip → Option (ℕ × Radio Chip)
  lora_get_rssi stack r = lora_ioctl r rssi >>= λ (ok, r').
      some (if ok then u32 (stack / 256 * 256 + r'.rssi_value + 2 ^ 32 - 164) else 2 ^ 32 - 1, r')

  unfoldable pub lora_set_coding_rate : Radio Chip → ℕ → Option (Bool × Radio Chip)
  lora_set_coding_rate r rate = lora_ioctl r (coding_rate rate)

  unfoldable pub lora_set_sync_word : Radio Chip → ℕ → Option (Bool × Radio Chip)
  lora_set_sync_word r word = lora_ioctl r (sync_word word)

  unfoldable pub lora_get_status : Radio Chip → Option (ℕ × Radio Chip)
  lora_get_status r =
      lora_ioctl r status >>= λ (ok, r'). some (if ok then r'.status else 2 ^ 32 - 1, r')

  -- LoRa_start and the registration, as the parent process begins.
  unfoldable pub start_radio : ℕ → Radio Chip → Option (Radio Chip)
  start_radio pid r = lora_start r >>= λ (started, r1).
      register_recv_signal_from_driver pid r1 >>= λ (registered, r2). some r2

  -- What sig_int does to the radio.
  unfoldable pub sig_int : Radio Chip → Option (Radio Chip)
  sig_int r = lora_goto_mode r sleep_mode >>= λ (slept, r1).
      unregister_recv_signal_from_driver r1 >>= λ (removed, r2). some r2
