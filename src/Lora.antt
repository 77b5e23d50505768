-- ===== src/Lora.antt =====
-- The calls of Src/lora.c on the character device /dev/lora-0. The flag that each takes first says
-- whether open succeeds; `none` is the result -1, with nothing written or read.
use gateway_v.Base.{Bool, true, false, Option, none, some, ◌++◌, drop, length}
use gateway_v.Text.{Bytes, c_string}

-- What lora_transmit hands to write: the buffer up to its first zero byte; without one, strlen goes on
-- in `past`, the memory behind the buffer.
unfoldable pub lora_transmit : Bool → Bytes → Bytes → Option Bytes
lora_transmit true past buff = some (c_string (buff ++ past))
lora_transmit false past buff = none

-- lora_receive reads into the front of the buffer.
unfoldable pub lora_receive : Bool → Bytes → Bytes → Option Bytes
lora_receive true buff content = some (content ++ drop (length content) buff)
lora_receive false buff content = none
