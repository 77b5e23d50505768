-- ===== src/Gateway/Request.antt =====
-- The requests of the client process: the case split of main.c's scan loop, and the packets sent.
use mathlib.Core.Option
use gateway_v.Base.{
  ℕ, zero, suc, ◌-◌, Bool, true, false, Option, none, some, List, [], ◌∷◌, ◌++◌, ltb, ◌==◌,
  if◌then◌else◌, ◌>>=◌, length, replicate, get_elem?, set,
}
use gateway_v.Base.Word.{u8}
use gateway_v.Text.{Bytes, print_int}
use gateway_v.Packet.{Packet, gateway_id, data_size, format_pkt}
use gateway_v.Lora.{lora_transmit}
use gateway_v.Node.{
  TimeSet, Node, Platform, codes, add_device_cmd, data_available, got_sock, ctl_sock,
  remove_device_cmd, mode_manual, mode_auto,
}
use gateway_v.Registry.{Registry, search, add_device, remove_device}
use gateway_v.Gateway.State.{World, Clock, deliver}

-- Numbers as "%d %d …" prints them.
abbrev pub join_ints : ℕ → List ℕ → Bytes
join_ints x [] = print_int x
join_ints x (y ∷ l) = print_int x ++ (32 ∷ join_ints y l)

abbrev pub clock_text : Clock → Bytes
clock_text t = join_ints t.hour (t.min ∷ t.sec ∷ [])

abbrev pub times_text : TimeSet → Bytes
times_text t = join_ints t.h_start_0 (
    t.m_start_0 ∷ t.h_stop_0 ∷ t.m_stop_0 ∷ t.h_start_50 ∷ t.m_start_50 ∷ t.h_stop_50 ∷ t.m_stop_50
    ∷ t.h_start_75 ∷ t.m_start_75 ∷ t.h_stop_75 ∷ t.m_stop_75 ∷ t.h_start_100 ∷ t.m_start_100
    ∷ t.h_stop_100 ∷ t.m_stop_100 ∷ [])

-- The packet that the gateway fills: the text goes into 50 cleared bytes, its terminator included.
unfoldable pub gateway_packet : ℕ → ℕ → Bytes → Option Packet
gateway_packet type destination text =
    if ltb (length text) data_size
    then some (record {
      uid = gateway_id;
      destination_id = destination;
      pkt_type = type;
      data_length = u8 (length text);
      payload = text ++ replicate (data_size - length text) 0;
    })
    else none

unfoldable pub transmit : {F : Type 0} → World F → Bytes → World F
transmit w buff = elim (lora_transmit w.lora_opens w.past_packet buff) [
  | none ↦ w
  | some written ↦ record w { air = w.air ++ (written ∷ []) }
]

-- sprintf, format_pkt and lora_transmit, as the main loop writes them out three times.
unfoldable pub send_packet : {F : Type 0} → World F → ℕ → ℕ → Bytes → Option (World F)
send_packet w type destination text =
    gateway_packet type destination text >>= λ p. Option.map (transmit w) (format_pkt p)

abbrev failed_text : Bytes
failed_text = codes "Failed"

abbrev pub reply_text : ℕ → ℕ → Bool → Bytes
reply_text command id ok = if ok then join_ints command (id ∷ []) else failed_text

unfoldable pub serve_add : (env : Platform) → World env.Float → Option (World env.Float)
serve_add env w =
    let id = w.command.id_to_handler in
    add_device env w.registry id >>= λ (r, ok).
    deliver (record w { registry = r }) (reply_text add_device_cmd id ok)

unfoldable pub serve_remove : (env : Platform) → World env.Float → Option (World env.Float)
serve_remove env w =
    let id = w.command.id_to_handler in
    remove_device env w.registry id >>= λ (r, ok).
    deliver (record w { registry = r }) (reply_text remove_device_cmd id ok)

-- scan_node_list, node_count rounds of it: `none` for a cell out of bounds or a wait without end.
unfoldable pub scan_node_list : {F : Type 0} → ℕ → List (Node F) → World F → Option (World F)
scan_node_list zero cells w = some w
scan_node_list (suc n) [] w = none
scan_node_list (suc n) (c ∷ cells) w = elim (deliver w (join_ints add_device_cmd (c.id ∷ []))) [
  | none ↦ none
  | some w' ↦ scan_node_list n cells w'
]

unfoldable pub data_text : (env : Platform) → Node env.Float → Bytes
data_text env c =
    join_ints data_available (c.id ∷ c.light_sensor_value ∷ c.illuminance ∷ [])
    ++ (32
        ∷ (env.print_f6 c.voltage
            ++ (32 ∷ (env.print_f6 c.current ++ (32 ∷ print_int c.current_mode)))))

-- scand_node_data
unfoldable pub scan_node_data :
    (env : Platform) → ℕ → List (Node env.Float) → World env.Float → Option (World env.Float)
scan_node_data env zero cells w = some w
scan_node_data env (suc n) [] w = none
scan_node_data env (suc n) (c ∷ cells) w = elim (deliver w (data_text env c)) [
  | none ↦ none
  | some w' ↦ scan_node_data env n cells w'
]

unfoldable pub serve_got_sock : (env : Platform) → World env.Float → Option (World env.Float)
serve_got_sock env w =
    let r = w.registry in
    scan_node_list r.node_count r.cells w >>= λ listed.
    scan_node_data env r.node_count r.cells listed >>= λ sent.
    some (record sent { sock_status = true })

abbrev pub set_times : {F : Type 0} → Registry F → ℕ → Node F → TimeSet → Registry F
set_times r i node t = record r { cells = set r.cells i (record node { working_time = t }) }

unfoldable pub serve_manual : {F : Type 0} → World F → Option (World F)
serve_manual w = search w.registry w.command.id_to_handler >>= λ found. elim found [
  | none ↦ some w
  | some i ↦ get_elem? w.registry.cells i >>= λ node.
      send_packet (record w { registry = set_times w.registry i node w.command.user_set })
        mode_manual node.id (times_text w.command.user_set)
]

unfoldable pub serve_auto : {F : Type 0} → World F → Clock → Option (World F)
serve_auto w now = search w.registry w.command.id_to_handler >>= λ found. elim found [
  | none ↦ some w
  | some i ↦
      get_elem? w.registry.cells i >>= λ node. send_packet w mode_auto node.id (clock_text now)
]

unfoldable pub serve : (env : Platform) → World env.Float → Clock → Option (World env.Float)
serve env w now =
    let request = w.command.request in
    if request == add_device_cmd
    then serve_add env w
    else if request == remove_device_cmd
    then serve_remove env w
    else if request == got_sock
    then serve_got_sock env w
    else if request == ctl_sock
    then some (record w { sock_status = false })
    else if request == mode_manual
    then serve_manual w
    else if request == mode_auto
    then serve_auto w now
    else some w

-- The body of `if (socket_flag)`.
unfoldable pub handle_request :
    (env : Platform) → World env.Float → Clock → Option (World env.Float)
handle_request env w now = serve env w now >>= λ w'. some (record w' { socket_flag = false })
