-- ===== src/Packet/Tests.antt =====
-- Runs of the packing and unpacking of packets, and their theorems at a concrete packet.
use gateway_v.Base.{
  ◌≤◌, ◌<◌, ◌≡◌, refl, ◌↔◌, none, some, [], ◌∷◌, ◌++◌, arith, length, replicate, take, get_or, All,
  true,
}
use gateway_v.Text.{Bytes}
use gateway_v.Text.Terminated.{IsNonzero}
use gateway_v.Lora.{lora_transmit}
use gateway_v.Packet.{
  Packet, packet_size, data_size, gateway_id, format_pkt, unpack_pkt, copy_loop, write_header,
}
use gateway_v.Packet.RoundTrip.{IsPacket, header, unpack_pkt-format_pkt, unpack_pkt-eq-none_iff}
use gateway_v.Packet.Wire.{transmit-header_iff, transmit-format_pkt}

-- A request for data to node 20021164, with the time 9 8 7.
abbrev request : Packet
request = record {
  uid = gateway_id;
  destination_id = 20021164;
  pkt_type = 2;
  data_length = 5;
  payload = (57 ∷ 32 ∷ 56 ∷ 32 ∷ 55 ∷ []) ++ replicate 45 0;
}

-- The same, to node 300: two bytes of that id are zero.
abbrev short_request : Packet
short_request = record request { destination_id = 300 }

request-IsPacket : IsPacket request
request-IsPacket = record {
  uid_fits = omega arith;
  destination_fits = omega arith;
  type_fits = omega arith;
  length_fits = omega arith;
  payload_size = refl;
  zero_padded = refl;
}

short_request-IsPacket : IsPacket short_request
short_request-IsPacket = record {
  uid_fits = omega arith;
  destination_fits = omega arith;
  type_fits = omega arith;
  length_fits = omega arith;
  payload_size = refl;
  zero_padded = refl;
}

abbrev request_buffer : Bytes
request_buffer = header request ++ request.payload

packed_request : format_pkt request ≡ some request_buffer
unfolding format_pkt write_header copy_loop
packed_request = refl

packed_short_request :
    format_pkt short_request ≡ some (header short_request ++ short_request.payload)
unfolding format_pkt write_header copy_loop
packed_short_request = refl

-- A response whose length byte is 51.
abbrev long_response : Bytes
long_response = 3 ∷ 1 ∷ 49 ∷ 129 ∷ 172 ∷ 1 ∷ 49 ∷ 129 ∷ 171 ∷ 51 ∷ replicate 50 49

overrun : unpack_pkt long_response ≡ none
unfolding unpack_pkt copy_loop
overrun = refl

unpack_pkt-format_pkt_example :
    (b : Bytes) × (format_pkt request ≡ some b)
    × (length b ≡ packet_size)
    × (unpack_pkt b ≡ some request)
unpack_pkt-format_pkt_example = unpack_pkt-format_pkt request request-IsPacket

unpack_pkt-eq-none_iff_example :
    (unpack_pkt long_response ≡ none) ↔ (data_size < get_or long_response 9 0)
unpack_pkt-eq-none_iff_example = unpack_pkt-eq-none_iff long_response refl

transmit-header_iff_example :
    (written : Bytes) × (lora_transmit true (7 ∷ []) (header short_request ++ short_request.payload)
      ≡ some written)
    × ((10 ≤ length written) ↔ All IsNonzero (header short_request))
transmit-header_iff_example =
    transmit-header_iff short_request (header short_request ++ short_request.payload) (7 ∷ [])
      short_request-IsPacket packed_short_request

header-IsNonzero : All IsNonzero (header request)
header-IsNonzero = omega arith

data-IsNonzero : All IsNonzero (take request.data_length request.payload)
data-IsNonzero = omega arith

transmit-format_pkt_example :
    lora_transmit true (7 ∷ []) request_buffer
    ≡ some (header request ++ take request.data_length request.payload)
transmit-format_pkt_example =
    transmit-format_pkt request request_buffer (7 ∷ []) request-IsPacket (omega arith)
      header-IsNonzero data-IsNonzero packed_request
