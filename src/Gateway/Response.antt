-- ===== src/Gateway/Response.antt =====
-- A node's response: handler_rx_data and get_data_from_node of main.c.
use mathlib.Core.Option
use gateway_v.Base.{
  ℕ, zero, suc, ◌+◌, ◌-◌, ◌*◌, ◌^◌, Bool, true, false, Option, none, some, [], ◌∷◌, ◌++◌, ltb, leb,
  ◌==◌, if◌then◌else◌, ◌>>=◌, get_elem?, get_or, set, replicate,
}
use gateway_v.Base.Word.{u8, u32}
use gateway_v.Text.{Bytes, strlen, c_string, is_digit, skip_spaces}
use gateway_v.Packet.{Packet, gateway_id, packet_size, data_size, unpack_pkt}
use gateway_v.Lora.{lora_receive}
use gateway_v.Node.{Node, Platform, data_available, mode_manual, response_data}
use gateway_v.Registry.{Registry}
use gateway_v.Gateway.State.{World, auto, manual, handled, deliver}
use gateway_v.Gateway.Request.{join_ints}

-- The digits in front, and what stands behind them.
unfoldable pub span_digits : ℕ → Bytes → ℕ × Bytes
span_digits acc [] = (acc, [])
span_digits acc (c ∷ s) = if is_digit c then span_digits (acc * 10 + (c - b'0')) s else (acc, c ∷ s)

unfoldable pub scan_unsigned : Bytes → Option (ℕ × Bytes)
scan_unsigned [] = none
scan_unsigned (c ∷ s) = if is_digit c then some (span_digits 0 (c ∷ s)) else none

negate : ℕ × Bytes → ℕ × Bytes
negate (n, s) = (u32 (2 ^ 32 - u32 n), s)

unfoldable pub scan_sign : Bytes → Option (ℕ × Bytes)
unfolding scan_unsigned negate
scan_sign [] = none
scan_sign (c ∷ s) =
    if c == b'-'
    then Option.map negate (scan_unsigned s)
    else if c == b'+'
    then scan_unsigned s
    else scan_unsigned (c ∷ s)

-- One %d of sscanf: the 32-bit pattern, and the text behind it.
unfoldable pub scan_int : Bytes → Option (ℕ × Bytes)
unfolding scan_sign
scan_int s = scan_sign (skip_spaces s)

pub record Reading (F : Type 0) : Type 0 where
  pub light : ℕ
  pub ill : ℕ
  pub vol : F
  pub curr : F
  pub mode : ℕ

-- sscanf(data, "%d %d %f %f %d", …) == 5
unfoldable pub scan_reading : (env : Platform) → Bytes → Option (Reading env.Float)
unfolding scan_int
scan_reading env s0 = scan_int s0 >>= λ (light, s1). scan_int s1 >>= λ (ill, s2).
    env.scan_float s2 >>= λ (vol, s3). env.scan_float s3 >>= λ (curr, s4).
    scan_int s4 >>= λ (mode, s5).
    some (record { light = u32 light; ill = u32 ill; vol = vol; curr = curr; mode = u32 mode })

abbrev pub store_reading : {F : Type 0} → Node F → Reading F → Node F
store_reading node x = record node {
  light_sensor_value = x.light;
  illuminance = x.ill;
  voltage = x.vol;
  current = x.curr;
  current_mode = x.mode;
}

-- for (uint8_t i = 0; i < node_count; i++) if (newLoRa[i].id == id), from the index i on: `none` where
-- the loop has not ended after as many rounds, or looks behind the cells.
unfoldable pub find_u8 : {F : Type 0} → ℕ → ℕ → Registry F → ℕ → Option (Option ℕ)
find_u8 zero i r id = none
find_u8 (suc rounds) i r id =
    let later = find_u8 rounds (u8 (i + 1)) r id in
    if ltb i r.node_count
    then elim (get_elem? r.cells i) [
      | none ↦ none
      | some node ↦ if node.id == id then some (some i) else later
    ]
    else some none

-- 257 rounds: an index that has not come to its end by then has been every uint8_t.
abbrev pub u8_rounds : ℕ
u8_rounds = 257

unfoldable pub index_of_u8 : {F : Type 0} → Registry F → ℕ → Option (Option ℕ)
index_of_u8 r id = find_u8 u8_rounds 0 r id

module _ (env : Platform) where
  open env use {Float}

  -- put_data_to_screen
  unfoldable pub show : World Float → Node Float → World Float
  show w node =
      if w.oled_opens
      then record w {
        screen =
            w.screen
            ++ (record {
              id = node.id;
              mode = if node.current_mode == mode_manual then manual else auto;
              node_count = w.registry.node_count;
              illuminance = u8 node.illuminance;
            }
                ∷ []);
      }
      else w

  unfoldable pub report : World Float → ℕ → Bytes → Option (World Float)
  report w id text =
      if w.sock_status
      then deliver w (join_ints data_available (id ∷ []) ++ (32 ∷ text))
      else some w

  unfoldable pub mark_handled : World Float → ℕ → World Float
  mark_handled w uid =
      if uid == w.handling.id_handling
      then record w { handling = record w.handling { status = handled } }
      else w

  -- What is done for the node at index i that sent the packet. Data without a terminator is read past
  -- its end.
  unfoldable pub accept : World Float → Packet → ℕ → Option (World Float × Bool)
  accept w p i = get_elem? w.registry.cells i >>= λ node.
      if leb data_size (strlen p.payload)
      then none
      else elim (scan_reading env (c_string p.payload)) [
        | none ↦ some (w, false)
        | some x ↦
            (let stored = store_reading node x in
              let w1 = record w {
                registry = record w.registry { cells = set w.registry.cells i stored };
              } in
              report (show w1 stored) stored.id (c_string p.payload) >>= λ told.
              some (mark_handled told p.uid, true))
      ]

  -- handler_rx_data; the flag is false for its result -1.
  unfoldable pub handler_rx_data : World Float → Bytes → Option (World Float × Bool)
  handler_rx_data w buff =
      if get_or buff 0 0 == response_data
      then (unpack_pkt buff >>= λ p.
          if p.destination_id == gateway_id
          then (index_of_u8 w.registry p.uid >>= λ found. elim found [
            | none ↦ some (w, true)
            | some i ↦ accept w p i
          ])
          else some (w, true))
      else some (w, false)

  -- The local buffer of get_data_from_node: cleared, then read into.
  unfoldable pub fetch : World Float → Bytes
  fetch w =
      let cleared = replicate packet_size 0 in
      elim (lora_receive w.lora_opens cleared w.rx_content) [ none ↦ cleared | some buff ↦ buff ]

  -- get_data_from_node: its early return leaves the signal masked.
  unfoldable pub get_data_from_node : World Float → Option (World Float)
  get_data_from_node w =
      if w.handling.status == handled
      then some (record w { blocked = true; rx_sig = false })
      else (handler_rx_data (record w { blocked = true }) (fetch w) >>= λ (w', ok).
          some (record w' { blocked = false; rx_sig = false }))
