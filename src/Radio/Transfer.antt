-- ===== src/Radio/Transfer.antt =====
-- LoRa_BurstWrite, LoRa_transmit, LoRa_receive and LoRa_init of Driver/sx1278.c. `none` is a wait for
-- channel activity detection that has used its fuel, or an access out of bounds.
use Prim.Native.Nat.{min}
use gateway_v.Base.{
  ℕ, zero, suc, ◌+◌, Bool, true, false, not, Option, none, some, ◌∷◌, ltb, ◌==◌, if◌then◌else◌,
  bit_and, bit_or, ◌>>=◌, set, replicate,
}
use gateway_v.Base.Word.{u8, shl, shr}
use gateway_v.Text.{Bytes, strlen, c_string}
use gateway_v.Packet.{packet_size}
use gateway_v.Radio.{
  Bus, Radio, reg_fifo, reg_op_mode, reg_lna, reg_fifo_add_ptr, reg_fifo_tx_base_addr,
  reg_fifo_rx_current_addr, reg_irq_flags, reg_rx_nb_bytes, reg_modem_config1, reg_symb_timeout_l,
  reg_preamble_msb, reg_preamble_lsb, reg_payload_length, reg_dio_mapping1, reg_version, sleep_mode,
  standby_mode, transmit_mode, rxcontinuous_mode, cad_mode, lora_ok, lora_not_found,
}
use gateway_v.Radio.Registers.{
  lora_write, lora_read, goto_mode, set_frequency, set_power, set_ocp, set_timeout_msb_crc_on,
  set_spreading_factor, set_auto_ldo, is_valid,
}

module _ (bus : Bus) where
  open bus use {Chip, spi_write}

  -- to_send[0] and the string behind it, as far as the first zero byte; to_send has 60 bytes.
  unfoldable pub burst_write : Radio Chip → ℕ → Bytes → Option (Radio Chip)
  burst_write r address value =
      if ltb (strlen value) packet_size
      then some (record r {
        chip = spi_write r.chip (c_string (bit_or address (shl 1 7) ∷ c_string value));
      })
      else none

  -- while (!(LoRa_Read(RegIrqFlags) >> 2 & 0x01))
  unfoldable pub wait_cad_done : ℕ → Radio Chip → Option (Radio Chip)
  wait_cad_done zero r = none
  wait_cad_done (suc fuel) r =
      let answer = lora_read bus r reg_irq_flags in
      elim (bit_and (shr answer.0 2) 0x01 == 0) [
        | true ↦ wait_cad_done fuel answer.1
        | false ↦ some answer.1
      ]

  -- Channel activity detection, until the channel is clear.
  unfoldable pub clear_channel : ℕ → Radio Chip → Option (Radio Chip)
  clear_channel zero r = none
  clear_channel (suc fuel) r = elim (wait_cad_done fuel (goto_mode bus r cad_mode)) [
    | none ↦ none
    | some r1 ↦ elim (bit_and (lora_read bus r1 reg_irq_flags).0 0x01 == 0) [
      | true ↦ some (lora_write bus (lora_read bus r1 reg_irq_flags).1 reg_irq_flags 0xFF)
      | false ↦
          clear_channel fuel (lora_write bus (lora_read bus r1 reg_irq_flags).1 reg_irq_flags 0xFF)
    ]
  ]

  -- The wait for TxDone: `rounds` is what is left of the timeout.
  unfoldable pub wait_tx_done : ℕ → Radio Chip → ℕ → Radio Chip × Bool
  wait_tx_done zero r mode = (goto_mode bus r mode, false)
  wait_tx_done (suc rounds) r mode =
      let answer = lora_read bus r reg_irq_flags in
      elim (bit_and answer.0 (shl 1 3) == 0) [
        | false ↦ (goto_mode bus (lora_write bus answer.1 reg_irq_flags 0xFF) mode, true)
        | true ↦ elim (rounds == 0) [
          | true ↦ (goto_mode bus answer.1 mode, false)
          | false ↦ wait_tx_done rounds answer.1 mode
        ]
      ]

  -- --timeout on a uint16_t: from 0 it takes 65536 rounds to come back to 0.
  abbrev pub rounds_of : ℕ → ℕ
  rounds_of timeout = if timeout == 0 then 65536 else timeout

  -- LoRa_transmit
  unfoldable pub transmit : ℕ → Radio Chip → Bytes → ℕ → ℕ → Option (Radio Chip × Bool)
  transmit fuel r payload len timeout =
      let mode = r.current_mode in
      clear_channel fuel (goto_mode bus r standby_mode) >>= λ r1.
      let (base, r2) = lora_read bus (goto_mode bus r1 standby_mode) reg_fifo_tx_base_addr in
      let r3 = lora_write bus r2 reg_fifo_add_ptr base in
      let r4 = lora_write bus r3 reg_payload_length len in
      burst_write r4 reg_fifo payload >>= λ r5.
      some (wait_tx_done (rounds_of timeout) (goto_mode bus r5 transmit_mode) mode)

  -- for (i = 0; i < min; i++) data[i] = LoRa_Read(_LoRa, RegFifo);
  unfoldable pub read_fifo : ℕ → ℕ → Bytes → Radio Chip → Bytes × Radio Chip
  read_fifo zero i buff r = (buff, r)
  read_fifo (suc left) i buff r =
      let (x, r1) = lora_read bus r reg_fifo in read_fifo left (i + 1) (set buff i x) r1

  -- LoRa_receive into a buffer: the number of bytes, the buffer and the radio.
  unfoldable pub receive : Radio Chip → Bytes → ℕ → ℕ × Bytes × Radio Chip
  receive r buff len =
      let (flags, r1) = lora_read bus (goto_mode bus r standby_mode) reg_irq_flags in
      if not (bit_and flags (shl 1 6) == 0)
      then (let (count, r3) =
            lora_read bus (lora_write bus r1 reg_irq_flags 0xFF) reg_rx_nb_bytes in
          let (at, r4) = lora_read bus r3 reg_fifo_rx_current_addr in
          let r5 = lora_write bus r4 reg_fifo_add_ptr at in
          let (filled, r6) = read_fifo (min len count) 0 (replicate packet_size 0) r5 in
          (min len count, filled, goto_mode bus r6 rxcontinuous_mode))
      else (0, buff, goto_mode bus r1 rxcontinuous_mode)

  -- LoRa_init on a chip that answered.
  unfoldable pub configure : Radio Chip → Option (ℕ × Radio Chip)
  configure r1 =
      let (op, r2) = lora_read bus (goto_mode bus r1 sleep_mode) reg_op_mode in
      let r3 = lora_write bus r2 reg_op_mode (bit_or op 0x80) in
      let r4 = set_power bus (set_frequency bus r3 r3.frequency) r3.power in
      let r5 = lora_write bus (set_ocp bus r4 r4.over_current_protection) reg_lna 0x23 in
      set_spreading_factor bus (set_timeout_msb_crc_on bus r5) r5.spreading_factor >>= λ r6.
      let (cfg, r7) = lora_read bus (lora_write bus r6 reg_symb_timeout_l 0xFF) reg_modem_config1 in
      set_auto_ldo bus (
        lora_write bus r7 reg_modem_config1
          (bit_or (bit_and cfg 0x01) (u8 (bit_or (shl r7.band_width 4) (shl r7.coding_rate 1)))))
      >>= λ r8.
          let r9 = lora_write bus r8 reg_preamble_msb (u8 (shr r8.preamble 8)) in
          let r10 = lora_write bus r9 reg_preamble_lsb (u8 r9.preamble) in
          let (dio, r11) = lora_read bus r10 reg_dio_mapping1 in
          let r12 =
            goto_mode bus (lora_write bus r11 reg_dio_mapping1 (bit_or dio 0x3F)) standby_mode in
          let (version, r13) = lora_read bus r12 reg_version in
          some (if version == 0x12 then lora_ok else lora_not_found, r13)

  -- LoRa_init behind request_irq and the reset.
  unfoldable pub init : Radio Chip → Option (ℕ × Radio Chip)
  init r =
      let (found, r1) = is_valid bus r in
      if found == lora_ok then configure r1 else some (is_valid bus r1)
