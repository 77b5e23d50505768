-- ===== src/Packet/Wire.antt =====
-- What lora_transmit of Src/lora.c hands to the driver: the packet's buffer up to its first zero byte.
use gateway_v.Base.{
  ℕ, ◌-◌, ◌<◌, replicate, zero, suc, ◌≤◌, ◌≡◌, refl, ◌∙◌, ap, some, [], ◌∷◌, ◌++◌, arith, length,
  take, All, drop, ◌↔◌, true, sym,
}
use mathlib.Core.Path.{subst}
use mathlib.Core.List.{append-nil, append_assoc}
use gateway_v.Text.{Bytes, strlen, c_string}
use gateway_v.Text.Terminated.{IsNonzero, c_string-append, length-c_string}
use gateway_v.Lora.{lora_transmit}
use gateway_v.Packet.{Packet, data_size, format_pkt}
use gateway_v.Packet.RoundTrip.{IsPacket, header, format_pkt_eq}
use gateway_v.Packet.Copy.{take-append-drop}

-- The first n bytes get through exactly where none of them is zero.
le-strlen_iff : (n : ℕ) (s : Bytes) → n ≤ length s → (n ≤ strlen s) ↔ All IsNonzero (take n s)
unfolding strlen
le-strlen_iff zero s h = (λ _. tt, λ _. omega arith)
le-strlen_iff (suc n) [] h = absurd (omega arith)
le-strlen_iff (suc n) (c ∷ s) h =
    let ih = le-strlen_iff n s (omega arith) in
    (λ g. (λ e. ground arith, ih.0 (ground arith)), λ g. ground (arith, g.0, ih.1 g.1))

header_iff :
    (p : Packet)
    → IsPacket p
    → (past : Bytes)
    → (10 ≤ length (c_string ((header p ++ p.payload) ++ past))) ↔ All IsNonzero (header p)
header_iff p v past =
    let b = (header p ++ p.payload) ++ past in
    let long : 10 ≤ length b = omega arith in rw (length-c_string b) (le-strlen_iff 10 b long)

-- Whatever lies behind the buffer, the driver is handed the whole header of a packet exactly where no byte of it is zero: neither the
-- type, nor the data length, nor a byte of either id.
pub transmit-header_iff :
    (p : Packet) (b past : Bytes)
    → IsPacket p
    → format_pkt p ≡ some b
    → (written : Bytes) × (lora_transmit true past b ≡ some written)
      × ((10 ≤ length written) ↔ All IsNonzero (header p))
unfolding lora_transmit
transmit-header_iff p b past v e =
    let eb : header p ++ p.payload ≡ b = cc (format_pkt_eq p v) in
    subst
      (λ t.
        (written : Bytes) × (lora_transmit true past t ≡ some written)
        × ((10 ≤ length written) ↔ All IsNonzero (header p)))
      eb (c_string ((header p ++ p.payload) ++ past), refl, header_iff p v past)

c_string-zeros-append : (k : ℕ) (past : Bytes) → 0 < k → c_string (replicate k 0 ++ past) ≡ []
unfolding c_string strlen
c_string-zeros-append zero past h = absurd (omega arith)
c_string-zeros-append (suc k) past h = refl

-- A packet with fewer than 50 bytes of data and no zero byte in its header nor in its data reaches the
-- driver whole, whatever lies behind the buffer: header and data, and nothing else.
pub transmit-format_pkt :
    (p : Packet) (b past : Bytes)
    → IsPacket p
    → p.data_length < data_size
    → All IsNonzero (header p)
    → All IsNonzero (take p.data_length p.payload)
    → format_pkt p ≡ some b
    → lora_transmit true past b ≡ some (header p ++ take p.data_length p.payload)
unfolding lora_transmit
transmit-format_pkt p b past v short hh hd e =
    let eb : header p ++ p.payload ≡ b = cc (format_pkt_eq p v) in
    let joined : (header p ++ p.payload) ++ past ≡ header p ++ (p.payload ++ past) =
      append_assoc (header p) p.payload past in
    rw (← eb, joined, c_string-append (header p) (p.payload ++ past) hh)
      (ap (λ l. some (header p ++ l)) tail)
  where
    tail : c_string (p.payload ++ past) ≡ take p.data_length p.payload
    tail =
        ap (λ l. c_string (l ++ past)) (sym (take-append-drop p.data_length p.payload))
        ∙ ap c_string
            (append_assoc (take p.data_length p.payload) (drop p.data_length p.payload) past)
        ∙ c_string-append (take p.data_length p.payload) (drop p.data_length p.payload ++ past) hd
        ∙ ap (λ l. take p.data_length p.payload ++ c_string (l ++ past)) (v.zero_padded)
        ∙ ap (λ l. take p.data_length p.payload ++ l)
            (c_string-zeros-append (data_size - p.data_length) past (omega arith))
        ∙ append-nil (take p.data_length p.payload)
