-- ===== src/Oled/Tests.antt =====
-- Runs of the display driver on an emulated display, and its theorems at concrete values.
use gateway_v.Base.{
  ℕ, ◌+◌, ◌-◌, ◌%◌, ◌≤◌, ◌<◌, ◌≡◌, refl, ◌↔◌, ◌⊎◌, arith, true, ◌&&◌, Option, none, some, List, All,
  [], ◌∷◌, if◌then◌else◌, length, replicate,
}
use gateway_v.Text.{Bytes}
use gateway_v.Gateway.State.{NodeInfo, auto}
use gateway_v.Oled.{Oled, white, black, ssd1306_send_string}
use gateway_v.Oled.Info.{content, get_cpu_temperature_and_print}
use gateway_v.Oled.Line
use gateway_v.Oled.Bitmap.{ssd1306_draw_pixel, ssd1306_draw_bitmap}
use gateway_v.Oled.Device.{put_data_to_screen, animate}
use gateway_v.Oled.Emulator.{Emulator, idle, memory, emulator, emulator_display, IsIdle}
use gateway_v.Oled.Cursor.{IsInside, place, send_string-place}
use gateway_v.Oled.Shown.{node_screen, put_data_to_screen-node_screen}
use gateway_v.Oled.Pixels.{pixel, draw_pixel-none}
use gateway_v.Oled.Picture.{lit, in_range, draw_bitmap-lit}
use gateway_v.Oled.Boot.{IsPicture, Frames, shows, animate-Frames}
use gateway_v.Oled.Animation.{picture, boot_animation}
use gateway_v.Oled.Animation.BootFirst.{boot_first}
use gateway_v.Oled.Animation.BootSecond.{boot_second}
use gateway_v.Oled.Animation.BootThird.{boot_third}
use gateway_v.Oled.Animation.BootFourth.{boot_fourth}
use gateway_v.Oled.Overflow.{get_cpu_temperature_and_print-none}

-- A display full of ones, its buffer cleared and the cursor at the end of the first line.
abbrev some_oled : Oled Emulator
some_oled = record {
  panel =
      idle (record { cells = λ r c. 0xFF; page = 0; column = 0; first_page = 0; first_column = 0 });
  current_x = 19;
  current_y = 0;
  buffer = replicate 1024 0;
}

abbrev some_node : NodeInfo
some_node = record { id = 12; mode = auto; node_count = 3; illuminance = 80 }

put_data_to_screen-node_screen_example :
    (o1 : Oled Emulator) × (put_data_to_screen emulator some_oled true some_node ≡ some (0, o1))
    × IsIdle o1.panel
    × ((r c : ℕ)
        → (memory o1.panel).cells r c ≡ node_screen some_node (memory some_oled.panel).cells r c)
put_data_to_screen-node_screen_example =
    put_data_to_screen-node_screen emulator emulator_display some_oled some_node tt
      (record { count = omega arith; id_positive = omega arith; light = omega arith })

abbrev some_text : Bytes
some_text = b'L' ∷ b'o' ∷ b'R' ∷ b'a' ∷ []

send_string-place_example :
    (o1 : Oled Emulator) × (ssd1306_send_string emulator some_oled some_text black ≡ some o1)
    × IsInside emulator o1
    × (place emulator o1 ≡ (place emulator some_oled + 4) % 160)
send_string-place_example =
    send_string-place emulator some_oled some_text black
      (record { column = omega arith; line = omega arith })
      (
        (omega arith, omega arith),
        (
          (omega arith, omega arith),
          ((omega arith, omega arith), ((omega arith, omega arith), tt)),
        ),
      )

draw_pixel-none_example :
    (ssd1306_draw_pixel (replicate 1024 0) 128 60 white ≡ none)
    ↔ ((128 ≤ 128) × (60 ≤ 64) × ((◌≡◌ {A = ℕ} 60 64) ⊎ ((◌≡◌ {A = ℕ} 128 128) × (56 ≤ 60))))
draw_pixel-none_example = draw_pixel-none (replicate 1024 0) 128 60 white refl

-- Eleven columns and two rows: two bytes to a row.
abbrev some_bitmap : Bytes
some_bitmap = 0xA5 ∷ 0x40 ∷ 0x81 ∷ 0xE0 ∷ []

draw_bitmap-lit_example :
    (picture : Bytes) × (ssd1306_draw_bitmap emulator some_oled 3 6 some_bitmap 11 2 white
      ≡ some (record some_oled {
        panel = emulator.i2c_master_send some_oled.panel (0x40 ∷ picture);
        buffer = replicate 1024 0;
      }))
    × (length picture ≡ 1024)
    × ((px py : ℕ)
        → px < 128
        → py < 64
        → pixel picture px py ≡ (
            if in_range 6 2 py && in_range 3 11 px && lit some_bitmap 11 (px - 3) (py - 6)
            then true
            else pixel (replicate 1024 0) px py))
draw_bitmap-lit_example =
    draw_bitmap-lit emulator some_oled 3 6 11 2 some_bitmap white refl (omega arith) (omega arith)
      (omega arith)

abbrev some_kstrtoint : Bytes → Option ℕ
some_kstrtoint [] = none
some_kstrtoint (c ∷ s) = some 48312

get_cpu_temperature_and_print-none_example :
    (get_cpu_temperature_and_print emulator some_kstrtoint some_oled
        (content some_text)
        Line.cpu_temp
      ≡ none)
    ↔ ((a : Bytes) × (t : ℕ) × (content some_text ≡ content a) × (some_kstrtoint a ≡ some t))
get_cpu_temperature_and_print-none_example =
    get_cpu_temperature_and_print-none emulator some_kstrtoint some_oled (content some_text)
      Line.cpu_temp

boot_animation-IsPicture : All IsPicture boot_animation
unfolding boot_animation picture boot_first boot_second boot_third boot_fourth
boot_animation-IsPicture = (refl, (refl, (refl, (refl, tt))))

animate-Frames_example :
    (frames : List Bytes) × (animate emulator some_oled boot_animation
      ≡ some (record some_oled {
        panel = shows emulator some_oled.panel frames;
        buffer = replicate 1024 0;
      }))
    × Frames boot_animation frames
animate-Frames_example =
    animate-Frames emulator boot_animation some_oled boot_animation-IsPicture refl
