-- ===== src/Gateway/Tests.antt =====
-- Runs of the parent process, and its theorems at concrete states.
use gateway_v.Base.{
  ℕ, zero, suc, ◌+◌, ◌≤◌, ◌<◌, ◌≡◌, refl, Bool, true, false, none, some, List, [], ◌∷◌, ◌++◌, arith,
  replicate, inl, inr, All, length,
}
use gateway_v.Base.Word.{IsU32}
use gateway_v.Text.{c_string, strlen, dec_digits, print_int, skip_spaces}
use gateway_v.Packet.{Packet, data_size, gateway_id, format_pkt}
use gateway_v.Packet.RoundTrip.{IsPacket, header, format_pkt_eq}
use gateway_v.Node.{
  Node, mode_auto, zero_node, zero_times, mode_manual, remove_device_cmd, response_data,
}
use gateway_v.Registry.{Registry, ids, index_of}
use gateway_v.Registry.Search.{IsValid, contains}
use gateway_v.Sample.{pi}
use gateway_v.Gateway.State.{World, Clock, not_done}
use gateway_v.Gateway.Request.{handle_request}
use gateway_v.Gateway.Response.{
  Reading, scan_reading, scan_int, scan_sign, scan_unsigned, span_digits, find_u8, handler_rx_data,
}
use gateway_v.Gateway.Round.{Event, quiet, posted, radio_and_posted, scan_loop, poll_node}
use gateway_v.Gateway.Poll.{IsPolled, poll_node-IsPolled}
use gateway_v.Gateway.Sound.{IsSound, IsReady, IsServed, requested}
use gateway_v.Gateway.Stale.{poll_node-handle_request}
use gateway_v.Gateway.Heard.{IsHeard, handler_rx_data-IsHeard}
use gateway_v.Gateway.Running.{IsEvent, IsRunning, pending, requests_in}
use gateway_v.Gateway.Scan.{IsScanned, scan_loop-IsScanned}
use gateway_v.Gateway.Served.{handle_request-IsServed}
use gateway_v.Gateway.Received.{
  IsAccepted, handler_rx_data-IsAccepted, handler_rx_data-ignores, handler_rx_data-hangs,
}

abbrev node : ℕ → Node ℕ
node i = record (zero_node pi) { id = i }

abbrev two_nodes : Registry ℕ
two_nodes = record {
  node_count = 2;
  cells = node 20021164 ∷ node 20021165 ∷ [];
  allocated = 176;
  file = some [];
  requests = [];
}

-- A client asks for manual operation of node 20021165; node 20021164 was polled.
abbrev start : World ℕ
start = record {
  registry = two_nodes;
  command = record {
    request = mode_manual;
    ack = 0;
    data_to_send = [];
    id_to_handler = 20021165;
    user_set = zero_times;
  };
  handling = record { id_handling = 20021164; status = not_done };
  index = 1;
  rx_sig = false;
  socket_flag = true;
  sock_status = true;
  blocked = false;
  lora_opens = true;
  past_packet = 7 ∷ [];
  oled_opens = true;
  answers = true;
  rx_content = [];
  air = [];
  to_client = [];
  screen = [];
}

abbrev noon : Clock
noon = record { hour = 12; min = 0; sec = 5 }

two_nodes-IsValid : IsValid two_nodes
two_nodes-IsValid = record {
  counted = refl;
  small = omega arith;
  distinct = ((omega arith, tt), (tt, tt));
}

two_nodes-IsU32 : All IsU32 (ids two_nodes.cells)
two_nodes-IsU32 = omega arith

poll_node-IsPolled_example : IsPolled start noon (poll_node start noon)
poll_node-IsPolled_example =
    poll_node-IsPolled start noon two_nodes-IsValid two_nodes-IsU32 (omega arith) refl

two_nodes-IsSound : IsSound two_nodes
unfolding print_int dec_digits
two_nodes-IsSound = record {
  valid = two_nodes-IsValid;
  printable = omega arith;
  words = two_nodes-IsU32;
}

start-IsReady : IsReady start
unfolding print_int dec_digits
start-IsReady = record {
  sound = two_nodes-IsSound;
  id_printable = omega arith;
  id_word = omega arith;
  room = omega arith;
  times_fit = omega arith;
  safe = inl (omega arith);
  answers = refl;
}

handle_request-IsServed_example :
    (f : IsServed start
      (requested mode_manual 20021165 (20021164 ∷ 20021165 ∷ []))
      (handle_request pi start noon))
    × (f.after.socket_flag ≡ false)
handle_request-IsServed_example = handle_request-IsServed pi start noon start-IsReady

-- "1 2 3 4 6" from node 20021164.
abbrev response : Packet
response = record {
  uid = 20021164;
  destination_id = gateway_id;
  pkt_type = response_data;
  data_length = 9;
  payload = (49 ∷ 32 ∷ 50 ∷ 32 ∷ 51 ∷ 32 ∷ 52 ∷ 32 ∷ 54 ∷ []) ++ replicate 41 0;
}

-- The same from a node that is not in the list.
abbrev strange : Packet
strange = record response { uid = 7 }

response-IsPacket : IsPacket response
response-IsPacket = record {
  uid_fits = omega arith;
  destination_fits = omega arith;
  type_fits = omega arith;
  length_fits = omega arith;
  payload_size = refl;
  zero_padded = refl;
}

strange-IsPacket : IsPacket strange
strange-IsPacket = record {
  uid_fits = omega arith;
  destination_fits = omega arith;
  type_fits = omega arith;
  length_fits = omega arith;
  payload_size = refl;
  zero_padded = refl;
}

packed_response : format_pkt response ≡ some (header response ++ response.payload)
packed_response = format_pkt_eq response response-IsPacket

packed_strange : format_pkt strange ≡ some (header strange ++ strange.payload)
packed_strange = format_pkt_eq strange strange-IsPacket

abbrev readings : Reading ℕ
readings = record { light = 1; ill = 2; vol = 3; curr = 4; mode = 6 }

read_response : scan_reading pi (c_string response.payload) ≡ some readings
unfolding scan_reading scan_int scan_sign scan_unsigned span_digits c_string skip_spaces
read_response = refl

ended : strlen response.payload < data_size
unfolding strlen
ended = omega arith

listed :
    (contains (ids two_nodes.cells) 20021164 ≡ true) × (contains (ids two_nodes.cells) 7 ≡ false)
unfolding contains
listed = (refl, refl)

handler_rx_data-IsAccepted_example :
    IsAccepted pi start response readings
      (handler_rx_data pi start (header response ++ response.payload))
handler_rx_data-IsAccepted_example =
    handler_rx_data-IsAccepted pi start response (header response ++ response.payload) readings
      two_nodes-IsValid (omega arith) response-IsPacket packed_response refl refl listed.0 ended
      read_response (inr refl)

handler_rx_data-ignores_example :
    (ok : Bool) × (handler_rx_data pi start (header strange ++ strange.payload) ≡ some (start, ok))
handler_rx_data-ignores_example =
    handler_rx_data-ignores pi start strange (header strange ++ strange.payload) two_nodes-IsValid
      (omega arith) strange-IsPacket packed_strange (inr (inr listed.1))

numbered : ℕ → List (Node ℕ)
numbered zero = []
numbered (suc n) = node (1000 + n) ∷ numbered n

-- A list of 300 nodes with ids from 1299 down to 1000.
abbrev crowded : World ℕ
crowded = record start { registry = record two_nodes { node_count = 300; cells = numbered 300 } }

unlisted : index_of 256 crowded.registry.cells 7 ≡ none
unfolding index_of numbered
unlisted = refl

crowded_cells : crowded.registry.node_count ≡ length crowded.registry.cells
unfolding numbered
crowded_cells = refl

handler_rx_data-hangs_example :
    (find_u8 1000 0 crowded.registry 7 ≡ none)
    × (handler_rx_data pi crowded (header strange ++ strange.payload) ≡ none)
handler_rx_data-hangs_example =
    handler_rx_data-hangs pi crowded strange (header strange ++ strange.payload) 1000 crowded_cells
      (omega arith) strange-IsPacket packed_strange refl refl unlisted

-- The first of the two nodes is to be removed while the index stands at the second and the file does
-- not open.
abbrev removing : World ℕ
removing = record start {
  registry = record two_nodes { file = none };
  command = record start.command { request = remove_device_cmd; id_to_handler = 20021164 };
}

removing-IsSound : IsSound removing.registry
unfolding print_int dec_digits
removing-IsSound = record {
  valid = record { counted = refl; small = omega arith; distinct = ((omega arith, tt), (tt, tt)) };
  printable = omega arith;
  words = two_nodes-IsU32;
}

poll_node-handle_request_example :
    (w' : World ℕ) × (handle_request pi removing noon ≡ some w')
    × (w'.registry.node_count ≤ w'.index)
    × (poll_node w' noon ≡ none)
poll_node-handle_request_example =
    poll_node-handle_request pi removing noon noon removing-IsSound refl refl refl listed.0 refl
      (omega arith)

-- A request for automatic operation, then one for manual operation together with a response of the
-- polled node, then nothing.
events : ℕ → Event
events zero = radio_and_posted (header response ++ response.payload) mode_manual 20021165 zero_times
events (suc zero) = posted mode_auto 20021164 zero_times
events (suc (suc k)) = quiet

events-IsEvent : (k : ℕ) → IsEvent (events k)
unfolding events print_int dec_digits
events-IsEvent zero = omega arith
events-IsEvent (suc zero) = omega arith
events-IsEvent (suc (suc k)) = tt

start-IsRunning : IsRunning start
unfolding print_int dec_digits
start-IsRunning = record {
  sound = two_nodes-IsSound;
  safe = λ e. omega arith;
  id_printable = omega arith;
  id_word = omega arith;
  times_fit = omega arith;
  content = omega arith;
  unblocked = refl;
  answers = refl;
}

few_requests : start.registry.node_count + pending start + requests_in 4 events ≤ 255
unfolding events
few_requests = omega arith

scan_loop-IsScanned_example : IsScanned pi noon start (scan_loop pi noon 4 events start)
scan_loop-IsScanned_example =
    scan_loop-IsScanned pi noon 4 events start start-IsRunning events-IsEvent few_requests

handler_rx_data-IsHeard_example :
    IsHeard start (handler_rx_data pi start (header strange ++ strange.payload))
handler_rx_data-IsHeard_example =
    handler_rx_data-IsHeard pi start (header strange ++ strange.payload) two_nodes-IsSound
      (omega arith) refl (omega arith) (inr refl)
