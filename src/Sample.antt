-- ===== src/Sample.antt =====
-- A concrete platform for the tests: fixed-point numbers stand for floats, printed and scanned as ints.
use gateway_v.Base.{ℕ, [], ◌∷◌}
use gateway_v.Text.{print_int}
use gateway_v.Gateway.Response.{scan_int}
use gateway_v.Node.{Node, Platform, zero_times}

abbrev blank : ℕ → Node ℕ
blank i = record {
  current_mode = i;
  id = 0;
  light_sensor_value = 9;
  illuminance = 9;
  voltage = 9;
  current = 9;
  working_time = zero_times;
}

abbrev pub pi : Platform
pi = record {
  Float = ℕ;
  zero_float = 0;
  print_f2 = print_int;
  print_f6 = print_int;
  scan_float = scan_int;
  stale = blank;
  past_file = 0 ∷ 7 ∷ [];
  firebase_key = b'k' ∷ [];
}
