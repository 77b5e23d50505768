-- ===== src/Oled/Device.antt =====
-- The operations of Driver/ssd1306.c on /dev/oled, what its probe and shutdown show, and
-- put_data_to_screen of Src/oled.c.
use gateway_v.Base.{
  ℕ, ◌-◌, Bool, true, false, Option, none, some, List, [], ◌∷◌, ◌++◌, ltb, ◌==◌, if◌then◌else◌,
  ◌>>=◌, length, take, drop, replicate,
}
use gateway_v.Text.{Bytes, strlen}
use gateway_v.Gateway.State.{NodeInfo}
use gateway_v.Oled.{
  Oled, I2c, white, command, oled_width, oled_height, buffer_bytes, ssd1306_write, ssd1306_clear,
  ssd1306_goto_xy, ssd1306_send_string, ssd1306_init,
}
use gateway_v.Oled.Animation.{boot_animation, shutdown_animation}
use gateway_v.Oled.Bitmap.{ssd1306_draw_bitmap}
use gateway_v.Oled.Info.{negative, show_lastest_node_info}

-- The commands of oled_ioctl; PUT_NODE_INFO comes with what copy_from_user reads, none where it fails.
pub data Ioctl : Type 0 where
  put_node_info : Option NodeInfo → Ioctl
  other : Ioctl

-- The buffer after memset(buffer, 0, 16) and copy_from_user of `size` bytes, of which it copies
-- `copied` and pads with zeros.
unfoldable pub user_copied : Bytes → Bytes → ℕ → Option Bytes
user_copied buffer user copied =
    if ltb (length buffer) (length user)
    then none
    else some (
        take copied user
        ++ replicate (length user - copied) 0
        ++ drop (length user) (replicate 16 0 ++ drop 16 buffer))

abbrev pub boot_text : Bytes
boot_text = b'L' ∷ b'o' ∷ b'R' ∷ b'a' ∷ 32 ∷ b'G' ∷ b'a' ∷ b't' ∷ b'e' ∷ b'w' ∷ b'a' ∷ b'y' ∷ []

abbrev pub wait_text : Bytes
wait_text =
    b'P' ∷ b'l' ∷ b'e' ∷ b'a' ∷ b's' ∷ b'e' ∷ 32 ∷ b'W' ∷ b'a' ∷ b'i' ∷ b't' ∷ 32 ∷ b'.' ∷ b'.'
    ∷ b'.' ∷ b'!' ∷ []

abbrev pub good_bye_text : Bytes
good_bye_text = b'G' ∷ b'o' ∷ b'o' ∷ b'd' ∷ b'B' ∷ b'y' ∷ b'e' ∷ b'!' ∷ []

module _ (i2c : I2c) where
  open i2c use {Panel}

  -- A buffer without a terminator is read out of bounds.
  unfoldable pub oled_write : Oled Panel → Bytes → ℕ → Option (ℕ × Oled Panel)
  oled_write o user copied = user_copied o.buffer user copied >>= λ buffer.
      let o1 = record o { buffer = buffer } in
      if ltb copied (length user)
      then some (negative 14, o1)
      else if strlen buffer == length buffer
      then none
      else ssd1306_send_string i2c o1 buffer white >>= λ o2. some (length user, o2)

  unfoldable pub oled_ioctl : Oled Panel → Ioctl → Option (ℕ × Oled Panel)
  oled_ioctl o (put_node_info none) = some (negative 1, o)
  oled_ioctl o (put_node_info (some node)) =
      show_lastest_node_info i2c o node >>= λ o1. some (0, o1)
  oled_ioctl o other = some (0, o)

  -- put_data_to_screen; `fd` says whether /dev/oled opens.
  unfoldable pub put_data_to_screen : Oled Panel → Bool → NodeInfo → Option (ℕ × Oled Panel)
  put_data_to_screen o false node = some (negative 1, o)
  put_data_to_screen o true node =
      oled_ioctl o (put_node_info (some node)) >>= λ (x, o1). some (0, o1)

  -- ssd1306_draw_bitmap of each picture of an animation.
  unfoldable pub animate : Oled Panel → List Bytes → Option (Oled Panel)
  animate o [] = some o
  animate o (picture ∷ l) =
      ssd1306_draw_bitmap i2c o 0 0 picture oled_width oled_height white >>= λ o1. animate o1 l

  -- What oled_probe sends where its steps succeed. kzalloc clears the buffer and the cursor.
  unfoldable pub oled_probe : Panel → Option (Oled Panel)
  oled_probe panel =
      animate
        (ssd1306_init i2c (record {
          panel = panel;
          current_x = 0;
          current_y = 0;
          buffer = replicate buffer_bytes 0;
        }))
        boot_animation
      >>= λ o1.
          ssd1306_send_string i2c (ssd1306_goto_xy i2c (ssd1306_clear i2c o1) 4 0) boot_text white
          >>= λ o2. ssd1306_send_string i2c (ssd1306_goto_xy i2c o2 0 2) wait_text white

  unfoldable pub board_shutdown : Oled Panel → Option (Oled Panel)
  board_shutdown o = animate (ssd1306_clear i2c o) shutdown_animation >>= λ o1.
      ssd1306_send_string i2c (ssd1306_goto_xy i2c (ssd1306_clear i2c o1) 7 3) good_bye_text white
      >>= λ o2. some (ssd1306_write i2c o2 0xAE command)

  -- The bytes that oled_remove sends.
  unfoldable pub oled_remove : Oled Panel → Oled Panel
  oled_remove o = ssd1306_write i2c (ssd1306_clear i2c o) 0xAE command
