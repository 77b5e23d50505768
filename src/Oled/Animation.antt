-- ===== src/Oled/Animation.antt =====
-- bootAnimation and shutdownAnimation of Driver/ssd1306.h: pictures of 64 rows of 16 bytes.
pub mod BootFirst
pub mod BootSecond
pub mod BootThird
pub mod BootFourth
pub mod ShutdownFirst
pub mod ShutdownSecond
use gateway_v.Base.{List, [], ◌∷◌, ◌++◌}
use gateway_v.Text.{Bytes}
use gateway_v.Oled.Animation.BootFirst.{boot_first}
use gateway_v.Oled.Animation.BootSecond.{boot_second}
use gateway_v.Oled.Animation.BootThird.{boot_third}
use gateway_v.Oled.Animation.BootFourth.{boot_fourth}
use gateway_v.Oled.Animation.ShutdownFirst.{shutdown_first}
use gateway_v.Oled.Animation.ShutdownSecond.{shutdown_second}

-- The bytes of a picture, row after row.
unfoldable pub picture : List Bytes → Bytes
picture [] = []
picture (r ∷ rows) = r ++ picture rows

unfoldable pub boot_animation : List Bytes
boot_animation =
    picture boot_first ∷ picture boot_second ∷ picture boot_third ∷ picture boot_fourth ∷ []

unfoldable pub shutdown_animation : List Bytes
shutdown_animation = picture shutdown_first ∷ picture shutdown_second ∷ []
