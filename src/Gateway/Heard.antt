-- ===== src/Gateway/Heard.antt =====
-- Whatever the radio delivers: a buffer whose data fits is handled to the end.
use gateway_v.Base.{
  ℕ, ◌≤◌, ◌<◌, ◌≡◌, refl, ◌∙◌, Bool, true, false, Option, none, some, arith, ◌==◌, length,
  get_elem?, get_or, set, ◌>>=◌, Bool-cases, Option-cases, inl, inr,
}
use gateway_v.Text.{Bytes, strlen, c_string}
use gateway_v.Packet.{Packet, packet_size, data_size, gateway_id}
use gateway_v.Packet.Ended.{unpack_pkt-ended}
use gateway_v.Node.{Node, Platform, response_data}
use gateway_v.Registry.{ids}
use gateway_v.Registry.Search.{contains, index_of-found, index_of-eq-none}
use gateway_v.Gateway.State.{World, IsAttended}
use gateway_v.Gateway.Response.{
  scan_reading, store_reading, index_of_u8, show, mark_handled, accept, handler_rx_data,
}
use gateway_v.Gateway.Sender.{index_of_u8-found, index_of_u8-missing}
use gateway_v.Gateway.Received.{told, report_lem, told-registry, show-registry, show-IsAttended}
use gateway_v.Gateway.Sound.{IsSound, set-IsSound}

-- What the radio's handler leaves alone.
abbrev pub Steady : {F : Type 0} → World F → World F → Type 0
Steady w w' =
    (w'.index ≡ w.index)
    × (w'.command.id_to_handler ≡ w.command.id_to_handler)
    × (w'.command.user_set ≡ w.command.user_set)
    × (w'.rx_content ≡ w.rx_content)
    × (w'.blocked ≡ w.blocked)
    × (w'.socket_flag ≡ w.socket_flag)
    × (w'.registry.node_count ≡ w.registry.node_count)
    × (w'.answers ≡ w.answers)
    × (w'.command.request ≡ w.command.request)

pub steady : {F : Type 0} (w : World F) → Steady w w
steady w = (refl, refl, refl, refl, refl, refl, refl, refl, refl)

pub record IsHeard {F : Type 0} (w : World F) (call : Option (World F × Bool)) : Type 0 where
  pub after : World F
  pub ok : Bool
  pub returns : call ≡ some (after, ok)
  pub sound : IsSound after.registry
  pub same : Steady w after

module _ (env : Platform) where
  open env use {Float}

  unmoved : (w : World Float) (ok : Bool) → IsSound w.registry → IsHeard w (some (w, ok))
  unmoved w ok s = record { after = w; ok = ok; returns = refl; sound = s; same = steady w }

  told-Steady : (w : World Float) (id : ℕ) (text : Bytes) → Steady w (told env w id text)
  told-Steady w id text = elim (Bool-cases w.sock_status) [
    | inl e ↦ rw e (steady w)
    | inr e ↦ rw e (steady w)
  ]

  show-Steady : (w : World Float) (x : Node Float) → Steady w (show env w x)
  unfolding show
  show-Steady w x = elim (Bool-cases w.oled_opens) [
    | inl e ↦ rw e (steady w)
    | inr e ↦ rw e (steady w)
  ]

  mark_handled-Steady :
      (w : World Float) (id : ℕ)
      → Steady w (mark_handled env w id) × ((mark_handled env w id).registry ≡ w.registry)
  unfolding mark_handled
  mark_handled-Steady w id = ground arith

  Steady-trans : (a b c : World Float) → Steady b c → Steady a b → Steady a c
  Steady-trans a b c k h = (
    k.0 ∙ h.0,
    k.1 ∙ h.1,
    k.2 ∙ h.2,
    k.3 ∙ h.3,
    k.4 ∙ h.4,
    k.5 ∙ h.5,
    k.6 ∙ h.6,
    k.7 ∙ h.7,
    k.8 ∙ h.8,
  )

  accept-IsHeard :
      (w : World Float) (p : Packet) (i : ℕ) (node : Node Float)
      → IsSound w.registry
      → get_elem? w.registry.cells i ≡ some node
      → strlen p.payload < data_size
      → IsAttended w
      → IsHeard w (accept env w p i)
  unfolding accept
  accept-IsHeard w p i node s got ended attended =
      elim (Option-cases (scan_reading env (c_string p.payload))) [
        | inl e ↦ record {
          after = w;
          ok = false;
          returns = ground (arith, got, e, ended);
          sound = s;
          same = steady w;
        }
        | inr (x, e) ↦
            let stored = store_reading node x in
            let w1 = record w {
              registry = record w.registry { cells = set w.registry.cells i stored };
            } in
            let w2 = show env w1 stored in
            let w3 = told env w2 stored.id (c_string p.payload) in
            let reports =
              report_lem env w2 stored.id (c_string p.payload)
                (show-IsAttended env w1 stored attended) in
            let marked = mark_handled-Steady w3 p.uid in
            record {
              after = mark_handled env w3 p.uid;
              ok = true;
              returns = ground (arith, got, e, ended, reports);
              sound =
                  rw
                    (
                      marked.1,
                      told-registry env w2 stored.id (c_string p.payload),
                      show-registry env w1 stored,
                    )
                    (set-IsSound w.registry i node stored s got refl);
              same = Steady-trans w w3 (mark_handled env w3 p.uid) marked.0 (
                  Steady-trans w w2 w3 (told-Steady w2 stored.id (c_string p.payload))
                    (Steady-trans w w1 w2 (show-Steady w1 stored) (steady w)));
            }
      ]

  found_or_missing :
      (w : World Float) (p : Packet)
      → IsSound w.registry
      → w.registry.node_count ≤ 255
      → strlen p.payload < data_size
      → IsAttended w
      → IsHeard w (
          index_of_u8 w.registry p.uid >>= λ found. elim found [
            | none ↦ some (w, true)
            | some i ↦ accept env w p i
          ])
  found_or_missing w p s few ended attended =
      elim (Bool-cases (contains (ids w.registry.cells) p.uid)) [
        | inl e ↦
            let (i, node, found, got, same, below) = index_of-found w.registry.cells p.uid e in
            rw
              (index_of_u8-found w.registry p.uid i s.valid.counted (omega (arith, few))
                (rw (s.valid.counted) found))
              (accept-IsHeard w p i node s got ended attended)
        | inr e ↦
            rw
              (index_of_u8-missing w.registry p.uid s.valid.counted few
                (rw (s.valid.counted) (index_of-eq-none w.registry.cells p.uid e)))
              (unmoved w true s)
      ]

  -- Whatever 60 bytes the radio delivers, with a length byte below 50, while no client is connected or
  -- the client process answers: the handler returns, the list
  -- of at most 255 nodes stays sound and as long as it was, and the loop's index, the posted request
  -- and the signal mask stay.
  pub handler_rx_data-IsHeard :
      (w : World Float) (b : Bytes)
      → IsSound w.registry
      → w.registry.node_count ≤ 255
      → length b ≡ packet_size
      → get_or b 9 0 < data_size
      → IsAttended w
      → IsHeard w (handler_rx_data env w b)
  unfolding handler_rx_data
  handler_rx_data-IsHeard w b s few size fits attended =
      let (p, read, ended) = unpack_pkt-ended b size fits in
      elim (Bool-cases (get_or b 0 0 == response_data)) [
        | inl t ↦ elim (Bool-cases (p.destination_id == gateway_id)) [
          | inl d ↦ rw (t, read, d) (found_or_missing w p s few ended attended)
          | inr d ↦ rw (t, read, d) (unmoved w true s)
        ]
        | inr t ↦ rw t (unmoved w false s)
      ]
