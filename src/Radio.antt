-- ===== src/Radio.antt =====
-- The kernel driver of the SX1278 radio, Driver/sx1278.c: its state and the SPI bus that it drives.
pub mod Registers
pub mod Transfer
pub mod Device
pub mod Chip
pub mod Settings
pub mod Filter
pub mod Library
pub mod Session
pub mod Probe
pub mod Unwinding
pub mod Lifetime
mod Tests
use gateway_v.Base.{ℕ, Bool, Option, List, []}
use gateway_v.Text.{Bytes}

-- What the driver takes from its surroundings: the chip behind the bus, spi_write of some bytes,
-- spi_write_then_read of one byte for one, and the byte that an uninitialised local holds.
pub record Bus : Type 1 where
  pub Chip : Type 0
  pub spi_write : Chip → Bytes → Chip
  pub spi_write_then_read : Chip → ℕ → ℕ × Chip
  pub garbage : ℕ

-- struct LoRa, less the kernel's objects. `task` is the registered process, `signals` counts the
-- SIGUSR1 it was sent, and `work_pending` says whether the work queue was scheduled.
pub record Radio (C : Type 0) : Type 0 where
  pub chip : C
  pub status : ℕ
  pub current_mode : ℕ
  pub frequency : ℕ
  pub spreading_factor : ℕ
  pub band_width : ℕ
  pub coding_rate : ℕ
  pub preamble : ℕ
  pub power : ℕ
  pub over_current_protection : ℕ
  pub receive_buffer : Bytes
  pub transmit_buffer : Bytes
  pub cache_buffer : Bytes
  pub rssi_value : ℕ
  pub task : Option ℕ
  pub signals : ℕ
  pub work_pending : Bool

-- Registers of Driver/sx1278.h.
abbrev pub reg_fifo : ℕ
reg_fifo = 0x00

abbrev pub reg_op_mode : ℕ
reg_op_mode = 0x01

abbrev pub reg_fr_msb : ℕ
reg_fr_msb = 0x06

abbrev pub reg_fr_mid : ℕ
reg_fr_mid = 0x07

abbrev pub reg_fr_lsb : ℕ
reg_fr_lsb = 0x08

abbrev pub reg_pa_config : ℕ
reg_pa_config = 0x09

abbrev pub reg_ocp : ℕ
reg_ocp = 0x0B

abbrev pub reg_lna : ℕ
reg_lna = 0x0C

abbrev pub reg_fifo_add_ptr : ℕ
reg_fifo_add_ptr = 0x0D

abbrev pub reg_fifo_tx_base_addr : ℕ
reg_fifo_tx_base_addr = 0x0E

abbrev pub reg_fifo_rx_current_addr : ℕ
reg_fifo_rx_current_addr = 0x10

abbrev pub reg_irq_flags : ℕ
reg_irq_flags = 0x12

abbrev pub reg_rx_nb_bytes : ℕ
reg_rx_nb_bytes = 0x13

abbrev pub reg_pkt_rssi_value : ℕ
reg_pkt_rssi_value = 0x1A

abbrev pub reg_modem_config1 : ℕ
reg_modem_config1 = 0x1D

abbrev pub reg_modem_config2 : ℕ
reg_modem_config2 = 0x1E

abbrev pub reg_symb_timeout_l : ℕ
reg_symb_timeout_l = 0x1F

abbrev pub reg_preamble_msb : ℕ
reg_preamble_msb = 0x20

abbrev pub reg_preamble_lsb : ℕ
reg_preamble_lsb = 0x21

abbrev pub reg_payload_length : ℕ
reg_payload_length = 0x22

abbrev pub reg_modem_config3 : ℕ
reg_modem_config3 = 0x26

abbrev pub reg_sync_word : ℕ
reg_sync_word = 0x39

abbrev pub reg_dio_mapping1 : ℕ
reg_dio_mapping1 = 0x40

abbrev pub reg_version : ℕ
reg_version = 0x42

-- enum lora_mode_t; FSTX is 2 and FSRX 4.
abbrev pub sleep_mode : ℕ
sleep_mode = 0

abbrev pub standby_mode : ℕ
standby_mode = 1

abbrev pub transmit_mode : ℕ
transmit_mode = 3

abbrev pub rxcontinuous_mode : ℕ
rxcontinuous_mode = 5

abbrev pub rxsingle_mode : ℕ
rxsingle_mode = 6

abbrev pub cad_mode : ℕ
cad_mode = 7

abbrev pub lora_ok : ℕ
lora_ok = 200

abbrev pub lora_not_found : ℕ
lora_not_found = 404
