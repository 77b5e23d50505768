-- ===== src/Gateway/Commanded.antt =====
-- Requests that put a node into manual or automatic operation.
use gateway_v.Base.{
  ℕ, ◌<◌, ◌≡◌, refl, sym, true, false, none, some, arith, length, Bool-cases, inl, inr,
}
use mathlib.Core.Path.{subst}
use gateway_v.Base.Word.{IsU32}
use gateway_v.Lora.{lora_transmit}
use gateway_v.Text.{Bytes}
use gateway_v.Packet.{data_size}
use gateway_v.Node.{Platform, mode_manual, mode_auto}
use gateway_v.Registry.{ids, search}
use gateway_v.Registry.Search.{contains, index_of-found, search-found, search-missing}
use gateway_v.Gateway.State.{World, Clock}
use gateway_v.Gateway.Request.{
  clock_text, times_text, send_packet, transmit, serve_manual, serve_auto, set_times,
}
use gateway_v.Gateway.Poll.{send_packet_eq, All-get_elem?, clock_text-lt}
use gateway_v.Gateway.Sound.{IsSound, IsReady, IsServed}
use gateway_v.Gateway.Sound.{Kept, kept, Kept-trans, ids-set, set-IsSound, IsNamed}

module _ (env : Platform) where
  open env use {Float}

  pub stays-IsServed : (w : World Float) → IsReady w → IsServed w (ids w.registry.cells) (some w)
  stays-IsServed w h = record {
    after = w;
    returns = refl;
    sound = h.sound;
    lists = refl;
    grows = omega arith;
    same = kept w;
  }

  transmit-keeps :
      (w : World Float) (b : Bytes) → ((transmit w b).registry ≡ w.registry) × Kept w (transmit w b)
  unfolding transmit lora_transmit
  transmit-keeps w b = elim (Bool-cases w.lora_opens) [
    | inl e ↦ rw e (refl, kept w)
    | inr e ↦ rw e (refl, kept w)
  ]

  -- A packet sent from a world with a sound list.
  send_packet-IsServed :
      (w w1 : World Float) (type destination : ℕ) (text : Bytes)
      → IsSound w1.registry
      → w1.registry.node_count ≡ w.registry.node_count
      → ids w1.registry.cells ≡ ids w.registry.cells
      → Kept w w1
      → type < 256
      → IsU32 destination
      → length text < data_size
      → IsServed w (ids w.registry.cells) (send_packet w1 type destination text)
  send_packet-IsServed w w1 type destination text s n l k ht hd hl =
      let (b, sends, made, read) = send_packet_eq w1 type destination text ht hd hl in
      let (same_registry, same) = transmit-keeps w1 b in
      record {
        after = transmit w1 b;
        returns = sends;
        sound = rw same_registry s;
        lists = rw same_registry l;
        grows = rw same_registry (omega arith);
        same = Kept-trans w w1 (transmit w1 b) same k;
      }

  named :
      (w : World Float)
      → IsReady w
      → contains (ids w.registry.cells) w.command.id_to_handler ≡ true
      → IsNamed w
  named w h e =
      let (i, node, found, got, same, below) =
        index_of-found w.registry.cells w.command.id_to_handler e in
      let here = search-found w.registry w.command.id_to_handler i h.sound.valid found in
      record { i = i; node = node; found = here; got = got }

  unnamed :
      (w : World Float)
      → IsReady w
      → contains (ids w.registry.cells) w.command.id_to_handler ≡ false
      → search w.registry w.command.id_to_handler ≡ some none
  unnamed w h e = search-missing w.registry w.command.id_to_handler h.sound.valid e

  serve_manual-named :
      (w : World Float) (n : IsNamed w)
      → serve_manual w
        ≡ send_packet
            (record w { registry = set_times w.registry n.i n.node w.command.user_set })
            mode_manual
            n.node.id
            (times_text w.command.user_set)
  unfolding serve_manual
  serve_manual-named w n = ground (arith, n.found, n.got)

  serve_auto-named :
      (w : World Float) (now : Clock) (n : IsNamed w)
      → serve_auto w now ≡ send_packet w mode_auto n.node.id (clock_text now)
  unfolding serve_auto
  serve_auto-named w now n = ground (arith, n.found, n.got)

  serve-unnamed :
      (w : World Float) (now : Clock)
      → IsReady w
      → contains (ids w.registry.cells) w.command.id_to_handler ≡ false
      → (serve_manual w ≡ some w) × (serve_auto w now ≡ some w)
  unfolding serve_manual serve_auto
  serve-unnamed w now h e = (ground (arith, unnamed w h e), ground (arith, unnamed w h e))

  pub serve_manual-IsServed :
      (w : World Float) (now : Clock)
      → IsReady w
      → IsServed w (ids w.registry.cells) (serve_manual w)
  serve_manual-IsServed w now h =
      elim (Bool-cases (contains (ids w.registry.cells) w.command.id_to_handler)) [
        | inl e ↦
            let n = named w h e in
            subst (λ call. IsServed w (ids w.registry.cells) call) (sym (serve_manual-named w n))
              (send_packet-IsServed w
                (record w { registry = set_times w.registry n.i n.node w.command.user_set })
                mode_manual n.node.id (times_text w.command.user_set)
                (set-IsSound w.registry n.i n.node
                  (record (n.node) { working_time = w.command.user_set }) h.sound n.got refl)
                refl
                (ids-set w.registry.cells n.i n.node
                  (record (n.node) { working_time = w.command.user_set }) n.got refl)
                (kept w) (omega arith)
                (All-get_elem? IsU32 w.registry.cells n.i n.node h.sound.words n.got) h.times_fit)
        | inr e ↦
            subst (λ call. IsServed w (ids w.registry.cells) call) (sym (serve-unnamed w now h e).0)
              (stays-IsServed w h)
      ]

  pub serve_auto-IsServed :
      (w : World Float) (now : Clock)
      → IsReady w
      → IsServed w (ids w.registry.cells) (serve_auto w now)
  serve_auto-IsServed w now h =
      elim (Bool-cases (contains (ids w.registry.cells) w.command.id_to_handler)) [
        | inl e ↦
            let n = named w h e in
            subst (λ call. IsServed w (ids w.registry.cells) call) (sym (serve_auto-named w now n))
              (send_packet-IsServed w w mode_auto n.node.id (clock_text now) h.sound refl refl
                (kept w) (omega arith)
                (All-get_elem? IsU32 w.registry.cells n.i n.node h.sound.words n.got)
                (clock_text-lt now))
        | inr e ↦
            subst (λ call. IsServed w (ids w.registry.cells) call) (sym (serve-unnamed w now h e).1)
              (stays-IsServed w h)
      ]
