-- ===== src/Packet.antt =====
-- LoRa packets: struct LoRa_packet and the constants of Inc/gateway.h, format_pkt of Src/lora.c, and
-- the unpacking with which handler_rx_data of main.c begins. `none` is an access out of bounds.
pub mod Copy
pub mod RoundTrip
pub mod Wire
pub mod Ended
mod Tests
use gateway_v.Base.{
  ℕ, zero, suc, ◌+◌, ◌<◌, ◌≡◌, Option, none, some, List, [], ◌∷◌, ltb, if◌then◌else◌, length,
  get_elem?, get_or, set, replicate, bit_and, bit_or,
}
use gateway_v.Base.Word.{u8, u32, shl, shr}
use gateway_v.Text.{Bytes}

abbrev pub base_data : ℕ
base_data = 10

abbrev pub packet_size : ℕ
packet_size = 60

abbrev pub gateway_id : ℕ
gateway_id = 20021163

-- PACKET_SIZE - BASE_DATA, the size of the data field.
abbrev pub data_size : ℕ
data_size = 50

pub record Packet : Type 0 where
  pub uid : ℕ
  pub destination_id : ℕ
  pub pkt_type : ℕ
  pub data_length : ℕ
  pub payload : Bytes

-- for (i = …; i < n; i++) dst[dst_off + i] = src[src_off + i], with `left` rounds to go.
pub copy_loop : ℕ → ℕ → Bytes → ℕ → Bytes → ℕ → Option Bytes
copy_loop zero i src src_off dst dst_off = some dst
copy_loop (suc left) i src src_off dst dst_off = elim (get_elem? src (src_off + i)) [
  | none ↦ none
  | some x ↦
      if ltb (dst_off + i) (length dst)
      then copy_loop left (i + 1) src src_off (set dst (dst_off + i) x) dst_off
      else none
]

-- The four bytes of an id, most significant first, as format_pkt stores them.
abbrev pub byte3 : ℕ → ℕ
byte3 x = u8 (shr x 24)

abbrev pub byte2 : ℕ → ℕ
byte2 x = u8 (bit_and (shr x 16) 0xff)

abbrev pub byte1 : ℕ → ℕ
byte1 x = u8 (bit_and (shr x 8) 0xff)

abbrev pub byte0 : ℕ → ℕ
byte0 x = u8 (bit_and x 0xff)

-- The buffer in front of the data loop.
pub write_header : Packet → Bytes → Bytes
write_header p b0 =
    let b1 : Bytes = set b0 0 p.pkt_type in
    let b2 : Bytes = set b1 1 (byte3 p.uid) in
    let b3 : Bytes = set b2 2 (byte2 p.uid) in
    let b4 : Bytes = set b3 3 (byte1 p.uid) in
    let b5 : Bytes = set b4 4 (byte0 p.uid) in
    let b6 : Bytes = set b5 5 (byte3 p.destination_id) in
    let b7 : Bytes = set b6 6 (byte2 p.destination_id) in
    let b8 : Bytes = set b7 7 (byte1 p.destination_id) in
    let b9 : Bytes = set b8 8 (byte0 p.destination_id) in set b9 9 p.data_length

-- The buffer that format_pkt fills.
unfoldable pub format_pkt : Packet → Option Bytes
unfolding write_header copy_loop
format_pkt p =
    copy_loop p.data_length 0 p.payload 0 (write_header p (replicate packet_size 0)) base_data

-- buff[i] << 24 | buff[i + 1] << 16 | buff[i + 2] << 8 | buff[i + 3], cast to uint32_t.
unfoldable pub read_id : Bytes → ℕ → ℕ
read_id buff i = u32 (
    bit_or
      (bit_or (bit_or (shl (get_or buff i 0) 24) (shl (get_or buff (i + 1) 0) 16))
        (shl (get_or buff (i + 2) 0) 8))
      (get_or buff (i + 3) 0))

-- How handler_rx_data fills its packet from the receive buffer.
unfoldable pub unpack_pkt : Bytes → Option Packet
unfolding read_id copy_loop
unpack_pkt buff = elim (copy_loop (get_or buff 9 0) 0 buff base_data (replicate data_size 0) 0) [
  | none ↦ none
  | some filled ↦ some (record {
    uid = read_id buff 1;
    destination_id = read_id buff 5;
    pkt_type = get_or buff 0 0;
    data_length = get_or buff 9 0;
    payload = filled;
  })
]
