-- ===== src/Node.antt =====
-- A managed node: struct time_set, struct LoRa_node and the constants of Inc/gateway.h, LoRa_init of
-- Src/lora.c, and the records of Src/firebase.c that are sent for a node. Ints and unsigned ints are
-- their 32-bit patterns. Floating point, the memory that the program does not initialise and the
-- database's key come from `Platform`.
mod Tests
use Prim.Native.Char.{code}
use Prim.Native.String.{String}
use gateway_v.Base.{ℕ, zero, suc, ◌+◌, ◌*◌, ◌^◌, Option, List, [], ◌∷◌, ◌++◌}
use gateway_v.Text.{Bytes, dec_digits}

abbrev pub add_device_cmd : ℕ
add_device_cmd = 0

abbrev pub data_available : ℕ
data_available = 1

abbrev pub got_sock : ℕ
got_sock = 2

abbrev pub ctl_sock : ℕ
ctl_sock = 3

abbrev pub remove_device_cmd : ℕ
remove_device_cmd = 4

abbrev pub disconnected : ℕ
disconnected = 5

abbrev pub mode_manual : ℕ
mode_manual = 6

abbrev pub mode_auto : ℕ
mode_auto = 7

abbrev pub request_data : ℕ
request_data = 2

abbrev pub response_data : ℕ
response_data = 3

pub record TimeSet : Type 0 where
  pub h_start_0 : ℕ
  pub h_stop_0 : ℕ
  pub m_start_0 : ℕ
  pub m_stop_0 : ℕ
  pub h_start_50 : ℕ
  pub h_stop_50 : ℕ
  pub m_start_50 : ℕ
  pub m_stop_50 : ℕ
  pub h_start_75 : ℕ
  pub h_stop_75 : ℕ
  pub m_start_75 : ℕ
  pub m_stop_75 : ℕ
  pub h_start_100 : ℕ
  pub h_stop_100 : ℕ
  pub m_start_100 : ℕ
  pub m_stop_100 : ℕ

abbrev pub zero_times : TimeSet
zero_times = record {
  h_start_0 = 0;
  h_stop_0 = 0;
  m_start_0 = 0;
  m_stop_0 = 0;
  h_start_50 = 0;
  h_stop_50 = 0;
  m_start_50 = 0;
  m_stop_50 = 0;
  h_start_75 = 0;
  h_stop_75 = 0;
  m_start_75 = 0;
  m_stop_75 = 0;
  h_start_100 = 0;
  h_stop_100 = 0;
  m_start_100 = 0;
  m_stop_100 = 0;
}

pub record Node (F : Type 0) : Type 0 where
  pub current_mode : ℕ
  pub id : ℕ
  pub light_sensor_value : ℕ
  pub illuminance : ℕ
  pub voltage : F
  pub current : F
  pub working_time : TimeSet

-- sizeof(struct LoRa_node), which is packed: six words and sixteen ints.
abbrev pub node_size : ℕ
node_size = 88

-- What the program takes from its surroundings: the type float with its %.2f, %f and sscanf's %f, the
-- old contents of the cell that realloc adds at an index, the memory behind the buffer that
-- setup_node reads the file into, and the database's key.
pub record Platform : Type 1 where
  pub Float : Type 0
  pub zero_float : Float
  pub print_f2 : Float → Bytes
  pub print_f6 : Float → Bytes
  pub scan_float : Bytes → Option (Float × Bytes)
  pub stale : ℕ → Node Float
  pub past_file : Bytes
  pub firebase_key : Bytes

abbrev pub codes : String → Bytes
codes String.[] = []
codes (String.◌∷◌ c s) = code c ∷ codes s

-- sprintf("%u").
unfoldable pub print_uint : ℕ → Bytes
unfolding dec_digits
print_uint n = dec_digits 10 n

-- A request to the database: PATCH with a body, or DELETE.
pub data DbRequest : Type 0 where
  patch : Bytes → Bytes → DbRequest
  delete : Bytes → DbRequest

module _ (env : Platform) where
  open env use {Float, zero_float, print_f2, firebase_key}

  -- A cell that calloc has cleared.
  abbrev pub zero_node : Node Float
  zero_node = record {
    current_mode = 0;
    id = 0;
    light_sensor_value = 0;
    illuminance = 0;
    voltage = zero_float;
    current = zero_float;
    working_time = zero_times;
  }

  -- LoRa_init leaves the working times as they are.
  unfoldable pub lora_init : Node Float → ℕ → Node Float
  lora_init node new_id = record node {
    id = new_id;
    current_mode = mode_auto;
    current = zero_float;
    illuminance = 0;
    light_sensor_value = 0;
    voltage = zero_float;
  }

  pub node_url : ℕ → Bytes
  unfolding print_uint
  node_url id =
      codes "https://lora-mesher-default-rtdb.firebaseio.com/"
      ++ (print_uint id ++ (codes ".json?auth=" ++ firebase_key))

  pub db_update_data : Node Float → DbRequest
  unfolding print_uint node_url
  db_update_data node = patch (node_url node.id) (
      codes "{\"Light intensity\": "
      ++ (print_uint node.light_sensor_value
          ++ (codes ", \"Illuminance\": "
              ++ (print_uint node.illuminance
                  ++ (codes ", \"Source Voltage\": "
                      ++ (print_f2 node.voltage
                          ++ (codes ", \"Source Current\": "
                              ++ (print_f2 node.current ++ codes "}"))))))))

  pub db_add_node : Node Float → DbRequest
  unfolding db_update_data
  db_add_node node = db_update_data node

  pub db_remove_node : Node Float → DbRequest
  unfolding node_url
  db_remove_node node = delete (node_url node.id)
