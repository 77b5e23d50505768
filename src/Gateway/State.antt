-- ===== src/Gateway/State.antt =====
-- What the parent process keeps and shares: struct device_command and struct handling of
-- Inc/gateway.h, struct node_info of Inc/oled.h and the globals of main.c.
use gateway_v.Base.{
  ℕ, ◌≡◌, ◌⊎◌, true, false, Bool, Option, none, some, if◌then◌else◌, List, ◌∷◌, [], ◌++◌,
}
use gateway_v.Text.{Bytes}
use gateway_v.Node.{TimeSet}
use gateway_v.Registry.{Registry}

-- `data_to_send` is the string that the buffer holds.
pub record DeviceCommand : Type 0 where
  pub request : ℕ
  pub ack : ℕ
  pub data_to_send : Bytes
  pub id_to_handler : ℕ
  pub user_set : TimeSet

pub record Handling : Type 0 where
  pub id_handling : ℕ
  pub status : ℕ

abbrev pub not_done : ℕ
not_done = 0

abbrev pub handled : ℕ
handled = 1

pub data Mode : Type 0 where
  auto manual : Mode

pub record NodeInfo : Type 0 where
  pub id : ℕ
  pub mode : Mode
  pub node_count : ℕ
  pub illuminance : ℕ

pub record Clock : Type 0 where
  pub hour : ℕ
  pub min : ℕ
  pub sec : ℕ

-- `index` is the main loop's i. `air`, `to_client` and `screen` collect what was handed to the radio
-- driver, to the client process and to the display; `lora_opens` says whether /dev/lora-0 opens,
-- `past_packet` is the memory behind the buffer of a packet, and
-- `rx_content` is what a read of it gives. `blocked` says whether SIGUSR1 is masked, `oled_opens` whether
-- /dev/oled opens, and `answers` whether the client process has a thread that sends, as recv_thread
-- leaves it from the accepted connection to "exit".
pub record World (F : Type 0) : Type 0 where
  pub registry : Registry F
  pub command : DeviceCommand
  pub handling : Handling
  pub index : ℕ
  pub rx_sig : Bool
  pub socket_flag : Bool
  pub sock_status : Bool
  pub blocked : Bool
  pub lora_opens : Bool
  pub past_packet : Bytes
  pub oled_opens : Bool
  pub answers : Bool
  pub rx_content : Bytes
  pub air : List Bytes
  pub to_client : List Bytes
  pub screen : List NodeInfo

-- Nobody is told anything, or there is a thread that sends it.
abbrev pub IsAttended : {F : Type 0} → World F → Type 0
IsAttended w = (w.sock_status ≡ false) ⊎ (w.answers ≡ true)

-- memset, sprintf, ack = 0, kill(pid, SIGUSR2) and the wait for ack: the sending thread has written the
-- text out by the time the wait ends. Without one nobody sets ack, and the wait does not end: `none`.
unfoldable pub deliver : {F : Type 0} → World F → Bytes → Option (World F)
deliver w text =
    if w.answers
    then some (record w {
      command = record w.command { data_to_send = text; ack = 1 };
      to_client = w.to_client ++ (text ∷ []);
    })
    else none
