-- ===== src/Radio/Probe.antt =====
-- sx1278_probe, sx1278_remove, board_shutdown, sx1278_init and sx1278_exit of Driver/sx1278.c: what they take
-- from the kernel and give back, and the state that the driver starts with.
use gateway_v.Base.{
  ℕ, ◌-◌, ◌^◌, Bool, true, false, Option, none, some, not, ◌||◌, ◌&&◌, ◌==◌, if◌then◌else◌, ◌>>=◌,
  replicate,
}
use gateway_v.Packet.{packet_size}
use gateway_v.Radio.{Bus, Radio, lora_ok, sleep_mode}
use gateway_v.Radio.Registers.{goto_mode}
use gateway_v.Radio.Transfer.{init}

-- What the driver holds: GPIO lines, the character device, its node, the buffers, the interrupt line,
-- the two device numbers, the class and the registration. `one_number` is a region of one number.
pub data Resource : Type 0 where
  reset_line dio0_line char_device node receive_memory transmit_memory cache_memory irq_line :
      Resource
  numbers class registration one_number : Resource

abbrev pub code : Resource → ℕ
code reset_line = 0
code dio0_line = 1
code char_device = 2
code node = 3
code receive_memory = 4
code transmit_memory = 5
code cache_memory = 6
code irq_line = 7
code numbers = 8
code class = 9
code registration = 10
code one_number = 11

-- The resources that are held, and those that were given back without being held.
pub record Ledger : Type 0 where
  pub held : Resource → Bool
  pub unheld : Resource → Bool

abbrev pub empty_ledger : Ledger
empty_ledger = record { held = λ x. false; unheld = λ x. false }

-- A call that takes a resource, and whether it succeeds.
unfoldable pub acquire : Bool → Resource → Ledger → Ledger
acquire succeeds x l = record l { held = λ y. if code x == code y then succeeds else l.held y }

unfoldable pub release : Resource → Ledger → Ledger
release x l = record {
  held = λ y. if code x == code y then false else l.held y;
  unheld = λ y. if code x == code y then not (l.held y) || l.unheld y else l.unheld y;
}

-- The labels of sx1278_probe, each falling through to the next.
unfoldable pub free_resource : Ledger → Ledger
free_resource l = release reset_line (release dio0_line l)

unfoldable pub rm_cdev : Ledger → Ledger
rm_cdev l = free_resource (release char_device l)

unfoldable pub rm_device : Ledger → Ledger
rm_device l = rm_cdev (release node l)

unfoldable pub rm_buff_rec : Ledger → Ledger
rm_buff_rec l = rm_device (release receive_memory l)

unfoldable pub rm_buff_tr : Ledger → Ledger
rm_buff_tr l = rm_buff_rec (release transmit_memory l)

unfoldable pub rm_lora : Ledger → Ledger
rm_lora l = rm_buff_tr (release cache_memory (release irq_line l))

-- Which of the calls succeed. The two of gpiod_get and device_create fail with an error pointer that
-- sx1278_probe does not look for: it goes on.
pub record Outcomes : Type 0 where
  pub allocated : Bool
  pub reset_got : Bool
  pub dio0_got : Bool
  pub spi_set : Bool
  pub cdev_added : Bool
  pub device_created : Bool
  pub receive_allocated : Bool
  pub transmit_allocated : Bool
  pub cache_allocated : Bool
  pub irq_requested : Bool

-- The result as a 32-bit pattern, and the driver's data, none where it was not allocated or is freed.
pub record Probed (C : Type 0) : Type 0 where
  pub result : ℕ
  pub ledger : Ledger
  pub radio : Option (Radio C)

-- -ENOMEM and -1
abbrev pub no_memory : ℕ
no_memory = 2 ^ 32 - 12

abbrev pub minus_one : ℕ
minus_one = 2 ^ 32 - 1

-- struct LoRa as sx1278_probe fills it: kzalloc clears the rest.
unfoldable pub probed_radio : {C : Type 0} → C → Radio C
probed_radio c = record {
  chip = c;
  status = 0;
  current_mode = 0;
  frequency = 433;
  spreading_factor = 7;
  band_width = 7;
  coding_rate = 1;
  preamble = 8;
  power = 0xFF;
  over_current_protection = 100;
  receive_buffer = replicate packet_size 0;
  transmit_buffer = replicate packet_size 0;
  cache_buffer = replicate packet_size 0;
  rssi_value = 0;
  task = none;
  signals = 0;
  work_pending = false;
}

module _ (bus : Bus) where
  open bus use {Chip}

  unfoldable pub failed : Ledger → Option (Probed Chip)
  failed l = some (record { result = minus_one; ledger = l; radio = none })

  -- LoRa_init with request_irq. The pulse on the reset line is the chip's.
  unfoldable pub start_chip : Bool → Ledger → Radio Chip → Option (ℕ × Ledger × Radio Chip)
  start_chip false l r = some (minus_one, l, r)
  start_chip true l r = init bus r >>= λ (x, r1). some (x, acquire true irq_line l, r1)

  -- From the buffers on.
  unfoldable pub probe_memory : Outcomes → Ledger → Chip → Option (Probed Chip)
  probe_memory s l c =
      let l1 = acquire true receive_memory l in
      let l2 = acquire true transmit_memory l1 in
      let l3 = acquire true cache_memory l2 in
      if s.receive_allocated
      then if s.transmit_allocated
        then if s.cache_allocated
          then (start_chip s.irq_requested l3 (probed_radio c) >>= λ (x, l4, r).
              (if x == lora_ok
                then some
                    (record { result = 0; ledger = l4; radio = some (goto_mode bus r sleep_mode) })
                else failed (rm_lora l4)))
          else failed (rm_buff_tr l2)
        else failed (rm_buff_rec l1)
      else failed (rm_device l)

  -- Without its class device_create fails.
  unfoldable pub probe : Outcomes → Ledger → Chip → Option (Probed Chip)
  probe s l c =
      let l1 = acquire (s.dio0_got) dio0_line (acquire (s.reset_got) reset_line l) in
      let l2 = acquire true char_device l1 in
      let l3 = acquire (s.device_created && l2.held class) node l2 in
      if s.allocated
      then if s.spi_set
        then if s.cdev_added then probe_memory s l3 c else failed (free_resource l1)
        else failed (free_resource l1)
      else some (record { result = no_memory; ledger = l; radio = none })

  -- sx1278_remove where the driver's data is set.
  unfoldable pub remove : Ledger → Radio Chip → Ledger × Radio Chip
  remove l r =
      let r1 = goto_mode bus r sleep_mode in
      let l1 = release cache_memory (release transmit_memory (release receive_memory l)) in
      let l2 = release irq_line (release reset_line (release dio0_line l1)) in
      (release one_number (release char_device (release node l2)), record r1 { task = none })

  unfoldable pub board_shutdown : Radio Chip → Radio Chip
  board_shutdown r = goto_mode bus r sleep_mode

-- sx1278_init: whether the numbers, the class and the registration were given. class_create fails with
-- an error pointer, which is taken for a class.
unfoldable pub module_init : Bool → Bool → Bool → Ledger → ℕ × Ledger
module_init false class_created registered l = (minus_one, l)
module_init true class_created false l = (
  minus_one,
  release numbers (release class (acquire class_created class (acquire true numbers l))),
)
module_init true class_created true l =
    (0, acquire true registration (acquire class_created class (acquire true numbers l)))

unfoldable pub module_exit : Ledger → Ledger
module_exit l = release numbers (release class (release registration l))
