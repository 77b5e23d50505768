-- ===== src/Gateway/Round.antt =====
-- The main loop of main.c's parent process: poll a node, scan for signals, report a silent node.
use gateway_v.Base.{
  ℕ, zero, suc, ◌+◌, ◌-◌, true, false, Option, none, some, ◌∷◌, [], not, ◌&&◌, ltb, ◌==◌,
  if◌then◌else◌, ◌>>=◌, get_elem?,
}
use gateway_v.Text.{Bytes}
use gateway_v.Node.{Platform, TimeSet, request_data, disconnected}
use gateway_v.Gateway.State.{World, Clock, not_done, handled, deliver}
use gateway_v.Gateway.Request.{join_ints, clock_text, send_packet, handle_request}
use gateway_v.Gateway.Response.{get_data_from_node}

-- SCAN_DURATION
abbrev pub scan_duration : ℕ
scan_duration = 60000

-- What reaches the process before one turn of the scan loop: the radio's signal, with what the driver
-- then holds, a request of the client process, or both; or nothing.
pub data Event : Type 0 where
  quiet : Event
  radio : Bytes → Event
  posted : ℕ → ℕ → TimeSet → Event
  radio_and_posted : Bytes → ℕ → ℕ → TimeSet → Event

-- The signal handlers sig_usr and handler: they set a flag.
unfoldable pub deliver_event : {F : Type 0} → World F → Event → World F
deliver_event w quiet = w
deliver_event w (radio content) = record w { rx_sig = true; rx_content = content }
deliver_event w (posted request id times) = record w {
  socket_flag = true;
  command = record w.command { request = request; id_to_handler = id; user_set = times };
}
deliver_event w (radio_and_posted content request id times) = record w {
  rx_sig = true;
  rx_content = content;
  socket_flag = true;
  command = record w.command { request = request; id_to_handler = id; user_set = times };
}

-- i = (i == node_count - 1) ? 0 : (i + 1)
abbrev pub next_index : ℕ → ℕ → ℕ
next_index i count = if i == (count - 1) then 0 else i + 1

-- The request to the node at `index`.
unfoldable pub poll_node : {F : Type 0} → World F → Clock → Option (World F)
poll_node w now =
    if ltb 0 w.registry.node_count
    then (get_elem? w.registry.cells w.index >>= λ node.
        send_packet (record w { handling = record { id_handling = node.id; status = not_done } })
          request_data node.id (clock_text now)
        >>= λ w'. some (record w' { index = next_index w.index w.registry.node_count }))
    else some w

module _ (env : Platform) (now : Clock) where
  open env use {Float}

  -- if (rx_sig) get_data_from_node(share_device, &raspi);
  unfoldable pub serve_radio : World Float → Option (World Float)
  serve_radio w = if w.rx_sig then get_data_from_node env w else some w

  unfoldable pub serve_socket : World Float → Option (World Float)
  serve_socket w = if w.socket_flag then handle_request env w now else some w

  -- while (--timeout): the turns left, with what arrives before each.
  unfoldable pub scan_loop : ℕ → (ℕ → Event) → World Float → Option (World Float)
  scan_loop zero events w = some w
  scan_loop (suc left) events w0 =
      let w = deliver_event w0 (events left) in
      let turn = serve_radio w >>= serve_socket in
      elim (w.handling.status == handled) [
        | true ↦ some w
        | false ↦ elim turn [ none ↦ none | some w' ↦ scan_loop left events w' ]
      ]

  -- Behind the scan loop: a client hears of a node that has not answered.
  unfoldable pub report_silent : World Float → Option (World Float)
  report_silent w =
      if not (w.handling.status == handled) && (w.sock_status && ltb 0 w.registry.node_count)
      then deliver w (join_ints disconnected (w.handling.id_handling ∷ []))
      else some w

  -- One turn of the main loop.
  unfoldable pub main_round : (ℕ → Event) → World Float → Option (World Float)
  main_round events w =
      poll_node w now >>= λ w1. scan_loop (scan_duration - 1) events w1 >>= λ w2. report_silent w2
