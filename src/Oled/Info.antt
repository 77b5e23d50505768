-- ===== src/Oled/Info.antt =====
-- The lines that Driver/ssd1306.c shows: the nodes, the network, the time, the temperature and the radio.
use gateway_v.Base.{
  ℕ, ◌+◌, ◌-◌, ◌*◌, ◌/◌, ◌%◌, ◌^◌, Bool, true, false, Option, none, some, [], ◌∷◌, ◌++◌, ltb, ◌==◌,
  if◌then◌else◌, ◌>>=◌, length,
}
use gateway_v.Text.{Bytes, dec_digits, print_int}
use gateway_v.Gateway.State.{NodeInfo, Mode, auto, manual}
use gateway_v.Radio.{Bus, Radio, lora_ok, lora_not_found}
use gateway_v.Radio.Registers.{is_valid}
use gateway_v.Oled.Line
use gateway_v.Oled.{Oled, I2c, white, ssd1306_goto_xy, ssd1306_clear_row, ssd1306_send_string}

-- The 32-bit pattern of -n.
abbrev pub negative : ℕ → ℕ
negative n = 2 ^ 32 - n

-- sprintf of a text into a char array of some size: the text and its terminator fit or the write is
-- out of bounds.
unfoldable pub sprintf : ℕ → Bytes → Option Bytes
sprintf size text = if ltb (length text) size then some text else none

-- The texts around the values.
abbrev pub manager_prefix : Bytes
manager_prefix = b'M' ∷ b'a' ∷ b'n' ∷ b'a' ∷ b'g' ∷ b'e' ∷ b'r' ∷ b':' ∷ 32 ∷ []

abbrev pub node_suffix : Bytes
node_suffix = 32 ∷ b'n' ∷ b'o' ∷ b'd' ∷ b'e' ∷ []

abbrev pub last_id_prefix : Bytes
last_id_prefix = b'L' ∷ b'a' ∷ b's' ∷ b't' ∷ 32 ∷ b'I' ∷ b'D' ∷ b':' ∷ 32 ∷ []

abbrev pub brightness_prefix : Bytes
brightness_prefix =
    b'B' ∷ b'r' ∷ b'i' ∷ b'g' ∷ b'h' ∷ b't' ∷ b'n' ∷ b'e' ∷ b's' ∷ b's' ∷ b':' ∷ 32 ∷ []

abbrev pub manager_text : ℕ → Bytes
manager_text n = manager_prefix ++ print_int n ++ node_suffix

abbrev pub last_id_text : ℕ → Bytes
last_id_text id = last_id_prefix ++ print_int id

abbrev pub brightness_text : ℕ → Bytes
brightness_text n = brightness_prefix ++ print_int n

abbrev pub mode_text : Mode → Bytes
mode_text auto = (b'M' ∷ b'o' ∷ b'd' ∷ b'e' ∷ b':' ∷ 32 ∷ b'A' ∷ b'u' ∷ b't' ∷ b'o' ∷ [])
mode_text manual =
    (b'M' ∷ b'o' ∷ b'd' ∷ b'e' ∷ b':' ∷ 32 ∷ b'M' ∷ b'a' ∷ b'n' ∷ b'u' ∷ b'a' ∷ b'l' ∷ [])

abbrev pub cpu_text : ℕ → Bytes
cpu_text t =
    (b'C' ∷ b'P' ∷ b'U' ∷ 32 ∷ b'T' ∷ b'e' ∷ b'm' ∷ b'p' ∷ b':' ∷ 32 ∷ [])
    ++ print_int t
    ++ (b'*' ∷ b'C' ∷ [])

-- sprintf("%2d") of a number below 100.
abbrev pub two_places : ℕ → Bytes
two_places n = if ltb n 10 then 32 ∷ dec_digits 1 n else dec_digits 2 n

-- struct kern_time
pub record KernTime : Type 0 where
  pub hour : ℕ
  pub min : ℕ

-- get_time_of_day, with the nanoseconds that ktime_get_real gives.
unfoldable pub get_time_of_day : ℕ → KernTime
get_time_of_day nanoseconds =
    let seconds = nanoseconds / 1000000000 + 7 * 3600 in
    record { hour = (seconds / 3600) % 24; min = (seconds / 60) % 60 }

abbrev pub time_text : KernTime → Bytes
time_text t =
    (b'W' ∷ b'a' ∷ b'l' ∷ b'l' ∷ 32 ∷ b'T' ∷ b'i' ∷ b'm' ∷ b'e' ∷ b':' ∷ 32 ∷ [])
    ++ two_places t.hour
    ++ (b':' ∷ [])
    ++ two_places t.min

-- What dev_get_by_name and in_dev_get find: no device, a device without an IPv4 configuration, or the
-- four bytes of its address.
pub data Interface : Type 0 where
  no_device unconfigured : Interface
  address : ℕ → ℕ → ℕ → ℕ → Interface

-- sprintf("IP: %pI4")
abbrev pub ip_text : ℕ → ℕ → ℕ → ℕ → Bytes
ip_text a b c d =
    (b'I' ∷ b'P' ∷ b':' ∷ 32 ∷ [])
    ++ dec_digits 3 a
    ++ (b'.' ∷ [])
    ++ dec_digits 3 b
    ++ (b'.' ∷ [])
    ++ dec_digits 3 c
    ++ (b'.' ∷ [])
    ++ dec_digits 3 d

abbrev pub wifi_disable_text : Bytes
wifi_disable_text =
    (b'W' ∷ b'I' ∷ b'F' ∷ b'I' ∷ 32 ∷ b'i' ∷ b's' ∷ 32 ∷ b'd' ∷ b'i' ∷ b's' ∷ b'a' ∷ b'b' ∷ b'l'
      ∷ b'e' ∷ b'!' ∷ [])

-- The file of the temperature: filp_open gives NULL, the read fails, or it gives some bytes.
pub data Thermal : Type 0 where
  not_opened unreadable : Thermal
  content : Bytes → Thermal

-- int / 1000 of a 32-bit pattern, which C rounds toward zero.
unfoldable pub thousandth : ℕ → ℕ
thousandth w = if ltb w (2 ^ 31) then w / 1000 else (2 ^ 32 - (2 ^ 32 - w) / 1000) % 2 ^ 32

abbrev pub lora_text : ℕ → Bytes
lora_text status =
    if status == lora_ok
    then (b'L' ∷ b'o' ∷ b'R' ∷ b'a' ∷ 32 ∷ b'i' ∷ b's' ∷ 32 ∷ b'O' ∷ b'k' ∷ b'a' ∷ b'y' ∷ b'!' ∷ [])
    else (b'L' ∷ b'o' ∷ b'R' ∷ b'a' ∷ 32 ∷ b'i' ∷ b's' ∷ 32 ∷ b'D' ∷ b'i' ∷ b's' ∷ b'a' ∷ b'b'
        ∷ b'l' ∷ b'e' ∷ b'd' ∷ b'!' ∷ [])

-- getLoRa_stt of Driver/sx1278.c on file->private_data, NULL being none.
unfoldable pub get_lora_stt : (bus : Bus) → Option (Radio bus.Chip) → ℕ × Option (Radio bus.Chip)
get_lora_stt bus none = (lora_not_found, none)
get_lora_stt bus (some r) = let (status, r1) = is_valid bus r in (status, some r1)

module _ (i2c : I2c) where
  open i2c use {Panel}

  -- sprintf into a buffer of 20 bytes, ssd1306_clear_row, ssd1306_goto_xy(oled, 0, line) and
  -- ssd1306_send_string, which several functions do.
  unfoldable pub print_row : Oled Panel → ℕ → Bytes → Option (Oled Panel)
  print_row o line text = sprintf 20 text >>= λ buff.
      ssd1306_send_string i2c (ssd1306_goto_xy i2c (ssd1306_clear_row i2c o line) 0 line) buff white

  unfoldable pub show_lastest_node_info : Oled Panel → NodeInfo → Option (Oled Panel)
  show_lastest_node_info o node =
      print_row o Line.number_of_node (manager_text node.node_count) >>= λ o1.
      print_row o1 Line.last_id_handled (last_id_text node.id) >>= λ o2.
      print_row o2 Line.brightness (brightness_text node.illuminance) >>= λ o3.
      print_row o3 Line.mode (mode_text node.mode)

  -- The result and the display afterwards.
  unfoldable pub get_network_ip_by_name : Oled Panel → Interface → ℕ → Option (ℕ × Oled Panel)
  get_network_ip_by_name o no_device line =
      ssd1306_send_string i2c (ssd1306_goto_xy i2c (ssd1306_clear_row i2c o line) 0 line)
        wifi_disable_text white
      >>= λ o1. some (negative 1, o1)
  get_network_ip_by_name o (address a b c d) line =
      print_row o line (ip_text a b c d) >>= λ o1. some (0, o1)
  get_network_ip_by_name o unconfigured line = some (negative 1, o)

  unfoldable pub print_time : Oled Panel → ℕ → ℕ → Option (Oled Panel)
  print_time o nanoseconds line = sprintf 20 (time_text (get_time_of_day nanoseconds)) >>= λ buff.
      ssd1306_send_string i2c (ssd1306_goto_xy i2c o 0 line) buff white

  -- kstrtoint is the kernel's: none where it fails. The buffer for the text has the 10 bytes that the
  -- file was read into.
  unfoldable pub get_cpu_temperature_and_print :
      (Bytes → Option ℕ) → Oled Panel → Thermal → ℕ → Option (ℕ × Oled Panel)
  get_cpu_temperature_and_print kstrtoint o not_opened line = some (negative 12, o)
  get_cpu_temperature_and_print kstrtoint o unreadable line = some (negative 1, o)
  get_cpu_temperature_and_print kstrtoint o (content a) line = elim (kstrtoint a) [
    | none ↦ some (negative 22, o)
    | some t ↦ sprintf 10 (cpu_text (thousandth t)) >>= λ text.
        ssd1306_send_string i2c (ssd1306_goto_xy i2c (ssd1306_clear_row i2c o line) 0 line) text
          white
        >>= λ o1. some (0, o1)
  ]

  module _ (bus : Bus) where
    open bus use {Chip}

    -- The radio is what the opened file's private_data points to; `opens` says whether filp_open gives
    -- a file.
    unfoldable pub get_lora_status_and_print :
        Oled Panel → Bool → Option (Radio Chip) → ℕ → Option (ℕ × Oled Panel × Option (Radio Chip))
    get_lora_status_and_print o false radio line = some (negative 12, o, radio)
    get_lora_status_and_print o true radio line =
        let (status, radio1) = get_lora_stt bus radio in
        print_row o line (lora_text status) >>= λ o1. some (status, o1, radio1)

    -- What the work queue's function finds.
    pub record Findings : Type 0 where
      pub interface : Interface
      pub nanoseconds : ℕ
      pub thermal : Thermal
      pub lora_opens : Bool

    unfoldable pub getinfo :
        (Bytes → Option ℕ)
        → Oled Panel
        → Findings
        → Option (Radio Chip)
        → Option (Oled Panel × Option (Radio Chip))
    getinfo kstrtoint o f radio = get_network_ip_by_name o f.interface Line.wifi >>= λ (x, o1).
        print_time o1 f.nanoseconds Line.wall_time >>= λ o2.
        get_cpu_temperature_and_print kstrtoint o2 f.thermal Line.cpu_temp >>= λ (y, o3).
        get_lora_status_and_print o3 f.lora_opens radio Line.lora >>= λ (z, o4, radio1).
        some (o4, radio1)
