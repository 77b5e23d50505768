-- ===== src/Oled/Line.antt =====
-- line_t of Driver/ssd1306.h: the rows of the display.
use gateway_v.Base.{ℕ}

abbrev pub lora : ℕ
lora = 0

abbrev pub wifi : ℕ
wifi = 1

abbrev pub wall_time : ℕ
wall_time = 2

abbrev pub cpu_temp : ℕ
cpu_temp = 3

abbrev pub number_of_node : ℕ
number_of_node = 4

abbrev pub last_id_handled : ℕ
last_id_handled = 5

abbrev pub brightness : ℕ
brightness = 6

abbrev pub mode : ℕ
mode = 7
