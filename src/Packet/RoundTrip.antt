-- ===== src/Packet/RoundTrip.antt =====
-- format_pkt followed by the unpacking of handler_rx_data.
use gateway_v.Base.{
  ℕ, ◌+◌, ◌-◌, ◌*◌, ◌^◌, ◌≤◌, ◌<◌, ◌≡◌, refl, ap, sym, ◌∙◌, none, some, [], ◌∷◌, ◌++◌, arith,
  length, take, drop, replicate, bit_or, get_or, length-append, length-take, length-drop, ◌↔◌,
}
use mathlib.Core.Path.{subst}
use native.Mathlib.Decide.{dec_lt}
use gateway_v.Base.Word.{IsByte, IsU32, u32, shl, shr}
use gateway_v.Base.Bits.{bit_or_disjoint, bit_and_mask}
use gateway_v.Text.{Bytes}
use gateway_v.Packet.{
  Packet, packet_size, data_size, byte0, byte1, byte2, byte3, format_pkt, read_id, unpack_pkt,
  copy_loop,
}
use gateway_v.Packet.Copy.{copy_loop-take, copy_loop-overrun, drop-replicate, take-append-drop}

-- What the callers of format_pkt set up: fields in their widths, a data field of 50 bytes that is zero
-- behind the data.
pub record IsPacket (p : Packet) : Type 0 where
  pub uid_fits : IsU32 p.uid
  pub destination_fits : IsU32 p.destination_id
  pub type_fits : IsByte p.pkt_type
  pub length_fits : p.data_length ≤ data_size
  pub payload_size : length p.payload ≡ data_size
  pub zero_padded : drop p.data_length p.payload ≡ replicate (data_size - p.data_length) 0

abbrev pub header : Packet → Bytes
header p =
    p.pkt_type
    ∷ byte3 p.uid
    ∷ byte2 p.uid
    ∷ byte1 p.uid
    ∷ byte0 p.uid
    ∷ byte3 p.destination_id
    ∷ byte2 p.destination_id
    ∷ byte1 p.destination_id
    ∷ byte0 p.destination_id
    ∷ p.data_length
    ∷ []

-- The buffer of a packet: ten bytes of header, then the data field.
pub format_pkt_eq : (p : Packet) → IsPacket p → format_pkt p ≡ some (header p ++ p.payload)
unfolding format_pkt
format_pkt_eq p v =
    copy_loop-take p.data_length 0 [] p.payload (header p) (replicate data_size 0) 0 10 refl refl
      (omega (arith, v.length_fits, v.payload_size)) v.length_fits
    ∙ ap (λ l. some (header p ++ (take p.data_length p.payload ++ l)))
        (drop-replicate p.data_length data_size 0 ∙ sym v.zero_padded)
    ∙ ap (λ l. some (header p ++ l)) (take-append-drop p.data_length p.payload)

assemble :
    (a b c d : ℕ)
    → IsByte a
    → IsByte b
    → IsByte c
    → IsByte d
    → u32 (bit_or (bit_or (bit_or (shl a 24) (shl b 16)) (shl c 8)) d)
      ≡ a * 2 ^ 24 + b * 2 ^ 16 + c * 2 ^ 8 + d
assemble a b c d ha hb hc hd =
    let e1 : bit_or (a * 2 ^ 24) (b * 2 ^ 16) ≡ (a * 256 + b) * 2 ^ 16 =
      omega (arith, bit_or_disjoint 24 a (b * 2 ^ 16)) in
    let e2 : bit_or ((a * 256 + b) * 2 ^ 16) (c * 2 ^ 8) ≡ (a * 65536 + b * 256 + c) * 2 ^ 8 =
      omega (arith, bit_or_disjoint 16 (a * 256 + b) (c * 2 ^ 8)) in
    rw (e1, e2, bit_or_disjoint 8 (a * 65536 + b * 256 + c) d hd) (omega arith)

split_u32 : (x : ℕ) → IsU32 x → byte3 x * 2 ^ 24 + byte2 x * 2 ^ 16 + byte1 x * 2 ^ 8 + byte0 x ≡ x
split_u32 x h = omega (arith, bit_and_mask 8 (shr x 16), bit_and_mask 8 (shr x 8), bit_and_mask 8 x)

read_id_eq :
    (buff : Bytes) (i x : ℕ)
    → IsU32 x
    → get_or buff i 0 ≡ byte3 x
    → get_or buff (i + 1) 0 ≡ byte2 x
    → get_or buff (i + 2) 0 ≡ byte1 x
    → get_or buff (i + 3) 0 ≡ byte0 x
    → read_id buff i ≡ x
unfolding read_id
read_id_eq buff i x h e3 e2 e1 e0 =
    rw (e3, e2, e1, e0)
      (assemble (byte3 x) (byte2 x) (byte1 x) (byte0 x) (omega arith) (omega arith) (omega arith)
          (omega arith)
        ∙ split_u32 x h)

-- The data field that the unpacking fills from a packet's buffer.
unpacked_payload :
    (p : Packet)
    → IsPacket p
    → copy_loop p.data_length 0 (header p ++ p.payload) 10 (replicate data_size 0) 0
      ≡ some p.payload
unpacked_payload p v =
    copy_loop-take p.data_length 0 (header p) p.payload [] (replicate data_size 0) 10 0 refl refl
      (omega (arith, v.length_fits, v.payload_size)) v.length_fits
    ∙ ap (λ l. some (take p.data_length p.payload ++ l))
        (drop-replicate p.data_length data_size 0 ∙ sym v.zero_padded)
    ∙ ap (λ l. some l) (take-append-drop p.data_length p.payload)

unpack_pkt_eq : (p : Packet) → IsPacket p → unpack_pkt (header p ++ p.payload) ≡ some p
unfolding unpack_pkt
unpack_pkt_eq p v =
    rw
      (
        unpacked_payload p v,
        read_id_eq (header p ++ p.payload) 1 p.uid v.uid_fits refl refl refl refl,
        read_id_eq (header p ++ p.payload) 5 p.destination_id v.destination_fits refl refl refl
            refl,
      )
      refl

-- A packet with its fields in range and at most 50 bytes of data is written within its buffer of 60
-- bytes, and unpacking that buffer gives the packet back.
pub unpack_pkt-format_pkt :
    (p : Packet)
    → IsPacket p
    → (b : Bytes) × (format_pkt p ≡ some b) × (length b ≡ packet_size) × (unpack_pkt b ≡ some p)
unpack_pkt-format_pkt p v = (
  header p ++ p.payload,
  format_pkt_eq p v,
  omega (arith, length-append (header p) p.payload, v.payload_size),
  unpack_pkt_eq p v,
)

-- A data length that fits: the data is copied, with zeros behind it.
pub copy_within :
    (n : ℕ) (b : Bytes)
    → length b ≡ packet_size
    → n ≤ data_size
    → copy_loop n 0 b 10 (replicate data_size 0) 0
      ≡ some (take n (drop 10 b) ++ drop n (replicate data_size 0))
copy_within n b e h =
    subst
      (λ l.
        copy_loop n 0 l 10 (replicate data_size 0) 0
        ≡ some (take n (drop 10 b) ++ drop n (replicate data_size 0)))
      (take-append-drop 10 b)
      (copy_loop-take n 0 (take 10 b) (drop 10 b) [] (replicate data_size 0) 10 0
        (omega (arith, length-take 10 b)) refl (omega (arith, length-drop 10 b)) h)

-- Unpacking a receive buffer of 60 bytes leaves the data field exactly where the length byte, which
-- the sender chose, is above 50.
pub unpack_pkt-eq-none_iff :
    (b : Bytes) → length b ≡ packet_size → (unpack_pkt b ≡ none) ↔ (data_size < get_or b 9 0)
unfolding unpack_pkt
unpack_pkt-eq-none_iff b e = (within, λ h. rw (overrun h, unpack_pkt) refl)
  where
    overrun :
        data_size < get_or b 9 0 → copy_loop (get_or b 9 0) 0 b 10 (replicate data_size 0) 0 ≡ none
    overrun h =
        copy_loop-overrun (get_or b 9 0) 0 b (replicate data_size 0) 10 0 (omega arith)
          (omega arith)

    within : unpack_pkt b ≡ none → data_size < get_or b 9 0
    within h = elim (dec_lt data_size (get_or b 9 0)) [
      | yes p ↦ p
      | no p ↦ let q = copy_within (get_or b 9 0) b e (omega arith) in ground (arith, q)
    ]
