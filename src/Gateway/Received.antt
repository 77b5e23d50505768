-- ===== src/Gateway/Received.antt =====
-- A response of a node, from its packet to the list, the display and the client.
use gateway_v.Base.{
  ℕ, ◌≤◌, ◌<◌, ◌≡◌, refl, ◌≢◌, ◌↔◌, ◌⊎◌, ap, sym, ◌∙◌, Bool, true, false, Option, none, some, [],
  ◌∷◌, ◌++◌, arith, ◌==◌, if◌then◌else◌, length, get_elem?, get_or, set, Bool-cases, inl, inr,
  ==_of_ne,
}
use mathlib.Core.Path.{subst}
use gateway_v.Base.Word.{u8}
use gateway_v.Text.{Bytes, strlen, c_string}
use gateway_v.Packet.{Packet, gateway_id, data_size, format_pkt, unpack_pkt}
use gateway_v.Packet.RoundTrip.{IsPacket, header, format_pkt_eq, unpack_pkt-format_pkt}
use gateway_v.Node.{Node, Platform, mode_manual, response_data, data_available}
use gateway_v.Registry.{ids, index_of}
use gateway_v.Registry.Search.{IsValid, contains, index_of-found, index_of-eq-none}
use gateway_v.Gateway.State.{World, auto, manual, handled, deliver, IsAttended}
use gateway_v.Gateway.Request.{join_ints}
use gateway_v.Gateway.Response.{
  Reading, scan_reading, store_reading, find_u8, index_of_u8, show, report, mark_handled, accept,
  handler_rx_data,
}
use gateway_v.Gateway.Sender.{index_of_u8-found, index_of_u8-missing, find_u8-endless}
use gateway_v.Gateway.Sound.{ids-set}

module _ (env : Platform) where
  open env use {Float}

  -- The world after the node at index i was updated by a packet.
  pub record IsAccepted (w : World Float) (p : Packet) (x : Reading Float)
      (call : Option (World Float × Bool)) : Type 0 where
    pub after : World Float
    pub i : ℕ
    pub node : Node Float
    pub returns : call ≡ some (after, true)
    pub found : get_elem? w.registry.cells i ≡ some node
    pub sender : node.id ≡ p.uid
    pub stored : after.registry ≡ record w.registry {
      cells = set w.registry.cells i (record {
        current_mode = x.mode;
        id = p.uid;
        light_sensor_value = x.light;
        illuminance = x.ill;
        voltage = x.vol;
        current = x.curr;
        working_time = node.working_time;
      });
    }
    pub same_ids : ids after.registry.cells ≡ ids w.registry.cells
    pub shown : after.screen ≡ (
        if w.oled_opens
        then w.screen
          ++ (record {
            id = p.uid;
            mode = if x.mode == mode_manual then manual else auto;
            node_count = w.registry.node_count;
            illuminance = u8 x.ill;
          }
              ∷ [])
        else w.screen)
    pub reported : after.to_client ≡ (
        if w.sock_status
        then w.to_client
          ++ ((join_ints data_available (p.uid ∷ []) ++ (32 ∷ c_string p.payload)) ∷ [])
        else w.to_client)
    pub answered :
        (after.handling.status ≡ handled)
        ↔ ((w.handling.status ≡ handled) ⊎ (p.uid ≡ w.handling.id_handling))

  -- The client process after it was told.
  abbrev pub told : World Float → ℕ → Bytes → World Float
  told w id text =
      if w.sock_status
      then record w {
        command = record w.command {
          data_to_send = join_ints data_available (id ∷ []) ++ (32 ∷ text);
          ack = 1;
        };
        to_client = w.to_client ++ ((join_ints data_available (id ∷ []) ++ (32 ∷ text)) ∷ []);
      }
      else w

  pub report_lem :
      (w : World Float) (id : ℕ) (text : Bytes)
      → IsAttended w
      → report env w id text ≡ some (told w id text)
  unfolding report deliver
  report_lem w id text (inl off) = rw off refl
  report_lem w id text (inr on) = elim (Bool-cases w.sock_status) [
    | inl e ↦ rw (e, on) refl
    | inr e ↦ rw e refl
  ]

  pub told-registry :
      (w : World Float) (id : ℕ) (text : Bytes) → (told w id text).registry ≡ w.registry
  told-registry w id text = ground arith

  mark_handled-registry : (w : World Float) (id : ℕ) → (mark_handled env w id).registry ≡ w.registry
  unfolding mark_handled
  mark_handled-registry w id = ground arith

  pub show-registry : (w : World Float) (x : Node Float) → (show env w x).registry ≡ w.registry
  unfolding show
  show-registry w x = ground arith

  pub show-IsAttended :
      (w : World Float) (x : Node Float) → IsAttended w → IsAttended (show env w x)
  unfolding show
  show-IsAttended w x h = elim (Bool-cases w.oled_opens) [ inl e ↦ rw e h | inr e ↦ rw e h ]

  accept-IsAccepted :
      (w : World Float) (p : Packet) (x : Reading Float) (i : ℕ) (node : Node Float)
      → get_elem? w.registry.cells i ≡ some node
      → node.id ≡ p.uid
      → strlen p.payload < data_size
      → scan_reading env (c_string p.payload) ≡ some x
      → IsAttended w
      → IsAccepted w p x (accept env w p i)
  unfolding accept show mark_handled
  accept-IsAccepted w p x i node got same ended read attended =
      let stored = store_reading node x in
      let w1 = record w {
        registry = record w.registry { cells = set w.registry.cells i stored };
      } in
      let w2 = show env w1 stored in
      let reports =
        report_lem w2 node.id (c_string p.payload) (show-IsAttended w1 stored attended) in
      record {
        after = mark_handled env (told w2 node.id (c_string p.payload)) p.uid;
        i = i;
        node = node;
        returns = ground (arith, got, read, ended, reports);
        found = got;
        sender = same;
        stored =
            mark_handled-registry (told w2 node.id (c_string p.payload)) p.uid
            ∙ told-registry w2 node.id (c_string p.payload)
            ∙ show-registry w1 stored
            ∙ ap
                (λ name. record w.registry {
                  cells = set w.registry.cells i (record stored { id = name });
                })
                same;
        same_ids = ground (arith, ids-set w.registry.cells i node stored got refl);
        shown = ground arith;
        reported = ground arith;
        answered = ground arith;
      }

  first_byte :
      (p : Packet) (b : Bytes) → IsPacket p → format_pkt p ≡ some b → get_or b 0 0 ≡ p.pkt_type
  first_byte p b v e =
      let eb : header p ++ p.payload ≡ b = cc (format_pkt_eq p v) in ap (λ l. get_or l 0 0) (sym eb)

  unpacked : (p : Packet) (b : Bytes) → IsPacket p → format_pkt p ≡ some b → unpack_pkt b ≡ some p
  unpacked p b v e =
      let (b', made, size, read) = unpack_pkt-format_pkt p v in
      let same : b' ≡ b = cc in rw same at read

  handler-accept :
      (w : World Float) (p : Packet) (b : Bytes) (i : ℕ)
      → get_or b 0 0 ≡ response_data
      → unpack_pkt b ≡ some p
      → p.destination_id ≡ gateway_id
      → index_of_u8 w.registry p.uid ≡ some (some i)
      → handler_rx_data env w b ≡ accept env w p i
  unfolding handler_rx_data
  handler-accept w p b i first read dest found = ground (arith, first, read, dest, found)

  -- A response in the gateway's format, to the gateway, from a node of a list of at most 256, whose data
  -- ends in a zero byte and holds five readable values, while no client is connected or the client
  -- process answers: the handler returns 0, stores the five values in that sender's node and changes
  -- nothing else of the list, shows them if the display opens, passes them on to a connected client, and marks the request as handled exactly if the
  -- sender is the node that was asked, or it was handled before.
  pub handler_rx_data-IsAccepted :
      (w : World Float) (p : Packet) (b : Bytes) (x : Reading Float)
      → IsValid w.registry
      → w.registry.node_count ≤ 256
      → IsPacket p
      → format_pkt p ≡ some b
      → p.pkt_type ≡ response_data
      → p.destination_id ≡ gateway_id
      → contains (ids w.registry.cells) p.uid ≡ true
      → strlen p.payload < data_size
      → scan_reading env (c_string p.payload) ≡ some x
      → IsAttended w
      → IsAccepted w p x (handler_rx_data env w b)
  handler_rx_data-IsAccepted w p b x v few h e type dest known ended read attended =
      let (i, node, found, got, named, below) = index_of-found w.registry.cells p.uid known in
      let here : index_of w.registry.node_count w.registry.cells p.uid ≡ some i =
        rw (v.counted) found in
      subst (λ call. IsAccepted w p x call)
        (sym (
          handler-accept w p b i (first_byte p b h e ∙ type) (unpacked p b h e) dest
            (index_of_u8-found w.registry p.uid i v.counted few here)))
        (accept-IsAccepted w p x i node got named ended read attended)

  handler-other :
      (w : World Float) (p : Packet) (b : Bytes)
      → unpack_pkt b ≡ some p
      → get_or b 0 0 ≡ p.pkt_type
      → (p.pkt_type ≢ response_data)
        ⊎ (p.destination_id ≢ gateway_id)
        ⊎ (index_of_u8 w.registry p.uid ≡ some none)
      → (ok : Bool) × (handler_rx_data env w b ≡ some (w, ok))
  unfolding handler_rx_data
  handler-other w p b read first (inl type) =
      (false, rw (handler_rx_data, first, ==_of_ne p.pkt_type response_data type) refl)
  handler-other w p b read first (inr (inl dest)) =
      elim (Bool-cases (get_or b 0 0 == response_data)) [
        | inl t ↦
            (true, rw (handler_rx_data, t, read, ==_of_ne p.destination_id gateway_id dest) refl)
        | inr f ↦ (false, rw (handler_rx_data, f) refl)
      ]
  handler-other w p b read first (inr (inr missing)) =
      elim (Bool-cases (get_or b 0 0 == response_data)) [
        | inl t ↦ elim (Bool-cases (p.destination_id == gateway_id)) [
          | inl d ↦ (true, rw (handler_rx_data, t, read, d, missing) refl)
          | inr d ↦ (true, rw (handler_rx_data, t, read, d) refl)
        ]
        | inr f ↦ (false, rw (handler_rx_data, f) refl)
      ]

  -- A packet in the gateway's format that is no response, or not for the gateway, or from an id that is
  -- not in a list of at most 255: the handler returns and changes nothing.
  pub handler_rx_data-ignores :
      (w : World Float) (p : Packet) (b : Bytes)
      → IsValid w.registry
      → w.registry.node_count ≤ 255
      → IsPacket p
      → format_pkt p ≡ some b
      → (p.pkt_type ≢ response_data)
        ⊎ (p.destination_id ≢ gateway_id)
        ⊎ (contains (ids w.registry.cells) p.uid ≡ false)
      → (ok : Bool) × (handler_rx_data env w b ≡ some (w, ok))
  handler_rx_data-ignores w p b v few h e why =
      handler-other w p b (unpacked p b h e) (first_byte p b h e) (elim why [
        | inl type ↦ inl type
        | inr (inl dest) ↦ inr (inl dest)
        | inr (inr fresh) ↦ inr (
            inr (
              index_of_u8-missing w.registry p.uid v.counted few
                (rw (v.counted) (index_of-eq-none w.registry.cells p.uid fresh))))
      ])

  -- With more than 255 nodes, each in its cell, and a response to the gateway whose sender is not among
  -- the first 256: however many rounds it is given, the handler's search does not end, as its uint8_t
  -- index never reaches the node count; so the handler does not return.
  pub handler_rx_data-hangs :
      (w : World Float) (p : Packet) (b : Bytes) (rounds : ℕ)
      → w.registry.node_count ≡ length w.registry.cells
      → 255 < w.registry.node_count
      → IsPacket p
      → format_pkt p ≡ some b
      → p.pkt_type ≡ response_data
      → p.destination_id ≡ gateway_id
      → index_of 256 w.registry.cells p.uid ≡ none
      → (find_u8 rounds 0 w.registry p.uid ≡ none) × (handler_rx_data env w b ≡ none)
  unfolding handler_rx_data index_of_u8
  handler_rx_data-hangs w p b rounds n many h e type dest missing =
      let endless = find_u8-endless 257 0 w.registry p.uid n many (omega arith) missing in
      (
        find_u8-endless rounds 0 w.registry p.uid n many (omega arith) missing,
        ground (arith, first_byte p b h e, unpacked p b h e, endless),
      )
