-- ===== src/Packet/Ended.antt =====
-- Data of fewer than 50 bytes ends in a zero byte when it is unpacked.
use gateway_v.Base.{
  ℕ, suc, ◌-◌, ◌≤◌, ◌<◌, ◌≡◌, refl, some, [], ◌∷◌, ◌++◌, arith, length, take, drop, replicate,
  get_or, length-take,
}
use gateway_v.Text.{Bytes, strlen}
use gateway_v.Packet.{Packet, packet_size, data_size, read_id, unpack_pkt}
use gateway_v.Packet.Copy.{drop-replicate}
use gateway_v.Packet.RoundTrip.{copy_within}

strlen-le : (s t : Bytes) → strlen (s ++ (0 ∷ t)) ≤ length s
unfolding strlen
strlen-le [] t = omega arith
strlen-le (c ∷ s) t = ground (arith, strlen-le s t)

strlen-padded :
    (n : ℕ) (s : Bytes)
    → n < data_size
    → strlen (take n s ++ drop n (replicate data_size 0)) < data_size
strlen-padded n s h =
    let e : data_size - n ≡ suc (data_size - n - 1) = omega arith in
    rw (drop-replicate n data_size 0, e)
      (omega (arith, strlen-le (take n s) (replicate (data_size - n - 1) 0), length-take n s))

-- A receive buffer of 60 bytes with a length byte below 50 unpacks, and its data ends in a zero byte.
pub unpack_pkt-ended :
    (b : Bytes)
    → length b ≡ packet_size
    → get_or b 9 0 < data_size
    → (p : Packet) × (unpack_pkt b ≡ some p) × (strlen p.payload < data_size)
unfolding unpack_pkt
unpack_pkt-ended b e h =
    let q = copy_within (get_or b 9 0) b e (omega arith) in
    (
      record {
        uid = read_id b 1;
        destination_id = read_id b 5;
        pkt_type = get_or b 0 0;
        data_length = get_or b 9 0;
        payload = take (get_or b 9 0) (drop 10 b) ++ drop (get_or b 9 0) (replicate data_size 0);
      },
      rw (unpack_pkt, q) refl,
      strlen-padded (get_or b 9 0) (drop 10 b) h,
    )
