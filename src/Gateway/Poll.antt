-- ===== src/Gateway/Poll.antt =====
-- Polling a node: the packet that goes out and the round-robin index.
use gateway_v.Base.{
  ℕ, zero, suc, ◌+◌, ◌-◌, ◌%◌, ◌<◌, ◌≡◌, refl, sym, true, Option, some, List, [], ◌∷◌, ◌++◌, arith,
  ◌==◌, length, get_elem?, get_elem?-of-lt, replicate, ◌↔◌, ◌∙◌, ap, take, take-append, All-append,
  drop, All, Bool-cases, inl, inr, length-append, length-replicate,
}
use native.Mathlib.Nat.{mod-eq_of_lt}
use gateway_v.Base.Word.{u8, IsU32, IsByte}
use gateway_v.Text.{Bytes, print_int, c_string}
use mathlib.Core.Path.{subst}
use gateway_v.Text.Decimal.{length-print_int, IsPlain, print_int-IsPlain}
use gateway_v.Text.Terminated.{IsNonzero}
use gateway_v.Packet.Wire.{transmit-header_iff, transmit-format_pkt}
use gateway_v.Packet.{Packet, gateway_id, data_size, format_pkt, unpack_pkt}
use gateway_v.Packet.RoundTrip.{IsPacket, header, unpack_pkt-format_pkt}
use gateway_v.Lora.{lora_transmit}
use gateway_v.Node.{Node, request_data}
use gateway_v.Registry.{ids}
use gateway_v.Registry.Search.{IsValid}
use gateway_v.Gateway.State.{World, Clock, not_done}
use gateway_v.Gateway.Request.{join_ints, clock_text, gateway_packet, transmit, send_packet}
use gateway_v.Gateway.Round.{poll_node, next_index}

drop-append : (n : ℕ) (s t : Bytes) → length s ≡ n → drop n (s ++ t) ≡ t
drop-append zero [] t e = refl
drop-append zero (c ∷ s) t e = absurd (omega arith)
drop-append (suc n) [] t e = absurd (omega arith)
drop-append (suc n) (c ∷ s) t e = drop-append n s t (omega arith)

-- The packet for a text.
abbrev pub packet_for : ℕ → ℕ → Bytes → Packet
packet_for type destination text = record {
  uid = gateway_id;
  destination_id = destination;
  pkt_type = type;
  data_length = length text;
  payload = text ++ replicate (data_size - length text) 0;
}

packet_for-IsPacket :
    (type destination : ℕ) (text : Bytes)
    → IsByte type
    → IsU32 destination
    → length text < data_size
    → IsPacket (packet_for type destination text)
packet_for-IsPacket type destination text ht hd hl = record {
  uid_fits = omega arith;
  destination_fits = hd;
  type_fits = ht;
  length_fits = omega arith;
  payload_size = omega (
    arith,
    length-append text (replicate (data_size - length text) 0),
    length-replicate {A = ℕ} (data_size - length text) 0,
  );
  zero_padded = drop-append (length text) text (replicate (data_size - length text) 0) refl;
}

gateway_packet_eq :
    (type destination : ℕ) (text : Bytes)
    → length text < data_size
    → gateway_packet type destination text ≡ some (packet_for type destination text)
unfolding gateway_packet
gateway_packet_eq type destination text h =
    let e : u8 (length text) ≡ length text = omega arith in ground (arith, e)

-- What send_packet does with a text that fits: one buffer goes out, which unpacks to its packet.
pub send_packet_eq :
    {F : Type 0} (w : World F) (type destination : ℕ) (text : Bytes)
    → IsByte type
    → IsU32 destination
    → length text < data_size
    → (b : Bytes) × (send_packet w type destination text ≡ some (transmit w b))
      × (format_pkt (packet_for type destination text) ≡ some b)
      × (unpack_pkt b ≡ some (packet_for type destination text))
unfolding send_packet
send_packet_eq w type destination text ht hd hl =
    let (b, made, size, read) =
      unpack_pkt-format_pkt (packet_for type destination text)
        (packet_for-IsPacket type destination text ht hd hl) in
    (b, rw (gateway_packet_eq type destination text hl, made) refl, made, read)

pub clock_text-lt : (t : Clock) → length (clock_text t) < data_size
clock_text-lt t = omega (
  arith,
  length-print_int t.hour,
  length-print_int t.min,
  length-print_int t.sec,
  length-append (print_int t.hour) (32 ∷ join_ints t.min (t.sec ∷ [])),
  length-append (print_int t.min) (32 ∷ print_int t.sec),
)

next_index-mod : (i n : ℕ) → i < n → next_index i n ≡ (i + 1) % n
next_index-mod i n h = elim (Bool-cases (i == (n - 1))) [
  | inl e ↦ rw e (let last : i + 1 ≡ n = ground arith in rw last (grind arith))
  | inr e ↦ rw e (let below : i + 1 < n = ground arith in sym (mod-eq_of_lt below))
]

pub All-get_elem? :
    {F : Type 0} (P : ℕ → Type 0) (cells : List (Node F)) (i : ℕ) (node : Node F)
    → All P (ids cells)
    → get_elem? cells i ≡ some node
    → P node.id
All-get_elem? P [] i node h e = cc
All-get_elem? P (c ∷ cells) zero node h e = let same : c.id ≡ node.id = cc in rw same at (h.0)
All-get_elem? P (c ∷ cells) (suc i) node h e = All-get_elem? P cells i node h.1 e

print_int-IsNonzero : (x : ℕ) → All IsNonzero (print_int x)
print_int-IsNonzero x = plain (print_int x) (print_int-IsPlain x)
  where
    plain : (s : Bytes) → All IsPlain s → All IsNonzero s
    plain [] h = tt
    plain (c ∷ s) h = (h.0.0, plain s h.1)

clock_text-IsNonzero : (t : Clock) → All IsNonzero (clock_text t)
clock_text-IsNonzero t =
    All-append IsNonzero (print_int t.hour) (32 ∷ join_ints t.min (t.sec ∷ []))
      (print_int-IsNonzero t.hour)
      (
        omega arith,
        All-append IsNonzero (print_int t.min) (32 ∷ print_int t.sec) (print_int-IsNonzero t.min)
            (omega arith, print_int-IsNonzero t.sec),
      )

-- The driver gets header and text exactly where no byte of the header is zero.
written_whole :
    (type destination : ℕ) (text b past : Bytes)
    → IsByte type
    → IsU32 destination
    → length text < data_size
    → All IsNonzero text
    → format_pkt (packet_for type destination text) ≡ some b
    → (c_string (b ++ past) ≡ header (packet_for type destination text) ++ text)
      ↔ All IsNonzero (header (packet_for type destination text))
unfolding lora_transmit
written_whole type destination text b past ht hd hl hz made =
    let p = packet_for type destination text in
    let v = packet_for-IsPacket type destination text ht hd hl in
    let (written, handed, long) = transmit-header_iff p b past v made in
    let same : c_string (b ++ past) ≡ written = cc in
    let body : take (length text) p.payload ≡ text =
      take-append (length text) text (replicate (data_size - length text) 0) refl in
    (
      λ e. long.0 (omega (arith, ap length same, ap length e)),
      λ h.
          let full =
            transmit-format_pkt p b past v hl h (subst (λ s. All IsNonzero s) (sym body) hz) made in
          let whole : c_string (b ++ past) ≡ header p ++ take (length text) p.payload = cc in
          whole ∙ ap (λ s. header p ++ s) body,
    )

-- A poll that went out: to the node at the index, with the time of day.
pub record IsPolled {F : Type 0} (w : World F) (now : Clock) (call : Option (World F))
    : Type 0 where
  pub after : World F
  pub node : Node F
  pub buffer : Bytes
  pub returns : call ≡ some after
  pub addressed : get_elem? w.registry.cells w.index ≡ some node
  pub packet : unpack_pkt buffer ≡ some (packet_for request_data node.id (clock_text now))
  pub written : Bytes
  pub sent : after.air ≡ w.air ++ (written ∷ [])
  pub front : written ≡ c_string (buffer ++ w.past_packet)
  pub whole :
      (written ≡ header (packet_for request_data node.id (clock_text now)) ++ clock_text now)
      ↔ All IsNonzero (header (packet_for request_data node.id (clock_text now)))
  pub waits : after.handling ≡ record { id_handling = node.id; status = not_done }
  pub next : after.index ≡ (w.index + 1) % w.registry.node_count
  pub keeps : after.registry ≡ w.registry

-- With the index in range and the radio's device opening, a poll fills a buffer that unpacks to the
-- request to the node at the index, with that node's id and the time, and hands the driver what stands
-- in front of the first zero byte: header and time exactly where no byte of the header is zero. It
-- then waits for that node, and goes on to the next index, cyclically.
pub poll_node-IsPolled :
    {F : Type 0} (w : World F) (now : Clock)
    → IsValid w.registry
    → All IsU32 (ids w.registry.cells)
    → w.index < w.registry.node_count
    → w.lora_opens ≡ true
    → IsPolled w now (poll_node w now)
unfolding poll_node transmit lora_transmit
poll_node-IsPolled w now v u below opens =
    let (node, got) = get_elem?-of-lt w.registry.cells w.index (omega (arith, v.counted)) in
    let waiting = record w { handling = record { id_handling = node.id; status = not_done } } in
    let (b, sends, made, read) =
      send_packet_eq waiting request_data node.id (clock_text now) (omega arith)
        (All-get_elem? IsU32 w.registry.cells w.index node u got) (clock_text-lt now) in
    record {
      after = record (transmit waiting b) { index = next_index w.index w.registry.node_count };
      node = node;
      buffer = b;
      returns = ground (arith, got, sends);
      addressed = got;
      packet = read;
      written = c_string (b ++ w.past_packet);
      sent = rw opens refl;
      front = refl;
      whole =
          written_whole request_data node.id (clock_text now) b w.past_packet (omega arith)
            (All-get_elem? IsU32 w.registry.cells w.index node u got) (clock_text-lt now)
            (clock_text-IsNonzero now) made;
      waits = rw opens refl;
      next = next_index-mod w.index w.registry.node_count below;
      keeps = rw opens refl;
    }
