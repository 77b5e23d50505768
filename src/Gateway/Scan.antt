-- ===== src/Gateway/Scan.antt =====
-- The scan loop: it returns, in every order of the signals that reach it.
use gateway_v.Base.{
  ℕ, zero, suc, ◌+◌, ◌≤◌, ◌<◌, ◌≡◌, refl, sym, ◌∙◌, Bool, true, false, Option, some, arith, ◌==◌,
  length, get_or, ◌>>=◌, if-both, Bool-cases, inl, inr,
}
use mathlib.Core.Path.{subst}
use gateway_v.Packet.{packet_size, data_size}
use gateway_v.Node.{Platform}
use gateway_v.Gateway.State.{World, Clock, handled}
use gateway_v.Gateway.Request.{handle_request}
use gateway_v.Gateway.Response.{fetch, get_data_from_node, handler_rx_data}
use gateway_v.Gateway.Round.{Event, deliver_event, serve_radio, serve_socket, scan_loop}
use gateway_v.Gateway.Sound.{IsSound}
use gateway_v.Gateway.Served.{handle_request-IsServed}
use gateway_v.Gateway.Heard.{Steady, handler_rx_data-IsHeard}
use gateway_v.Gateway.Running.{
  IsContent, IsEvent, requests_in, pending, IsRunning, deliver_event-IsRunning,
  deliver_event-pending, if-cases, traded, IsTurned, received,
}

module _ (env : Platform) (now : Clock) where
  open env use {Float}

  fetched :
      (w : World Float)
      → IsContent w.rx_content
      → (length (fetch env w) ≡ packet_size) × (get_or (fetch env w) 9 0 < data_size)
  unfolding fetch
  fetched w h = received w.lora_opens w.rx_content h

  heard-IsRunning :
      (w w' : World Float)
      → IsRunning w
      → IsSound w'.registry
      → Steady (record w { blocked = true }) w'
      → IsTurned w w.socket_flag (some (record w' { blocked = false; rx_sig = false }))
  heard-IsRunning w w' h s k = record {
    after = record w' { blocked = false; rx_sig = false };
    returns = refl;
    running = record {
      sound = s;
      safe = rw (k.5, k.8) (h.safe);
      id_printable = rw (k.1) (h.id_printable);
      id_word = rw (k.1) (h.id_word);
      times_fit = rw (k.2) (h.times_fit);
      content = rw (k.3) (h.content);
      unblocked = refl;
      answers = k.7 ∙ h.answers;
    };
    same_index = k.0;
    flag_now = k.5;
    bounded = rw (k.5, k.6) (omega arith);
  }

  get_data_from_node-heard :
      (w w' : World Float) (ok : Bool)
      → (w.handling.status == handled) ≡ false
      → handler_rx_data env (record w { blocked = true }) (fetch env w) ≡ some (w', ok)
      → get_data_from_node env w ≡ some (record w' { blocked = false; rx_sig = false })
  unfolding get_data_from_node
  get_data_from_node-heard w w' ok waits e = rw (get_data_from_node, waits, e) refl

  serve_radio-IsTurned :
      (w : World Float)
      → IsRunning w
      → w.registry.node_count ≤ 255
      → (w.handling.status == handled) ≡ false
      → IsTurned w w.socket_flag (serve_radio env now w)
  unfolding serve_radio
  serve_radio-IsTurned w h few waits =
      let got = fetched w h.content in
      let f =
        handler_rx_data-IsHeard env (record w { blocked = true }) (fetch env w) h.sound few got.0
          got.1 (inr (h.answers)) in
      let t = heard-IsRunning w f.after h f.sound f.same in
      if-both (λ call. IsTurned w w.socket_flag call) w.rx_sig
        (subst (λ call. IsTurned w w.socket_flag call)
          (sym (get_data_from_node-heard w f.after f.ok waits f.returns)) t)
        (record {
          after = w;
          returns = refl;
          running = h;
          same_index = refl;
          flag_now = refl;
          bounded = omega arith;
        })

  served-IsRunning :
      (w : World Float)
      → IsRunning w
      → w.registry.node_count ≤ 255
      → w.socket_flag ≡ true
      → IsTurned w false (handle_request env w now)
  served-IsRunning w h few set_flag =
      let (f, cleared_flag) = handle_request-IsServed env w now (record {
        sound = h.sound;
        id_printable = h.id_printable;
        id_word = h.id_word;
        room = omega arith;
        times_fit = h.times_fit;
        safe = inl (h.safe set_flag);
        answers = h.answers;
      }) in
      record {
        after = f.after;
        returns = f.returns;
        running = record {
          sound = f.sound;
          safe = λ e. absurd (let off = cleared_flag in cc);
          id_printable = rw (f.same.2) (h.id_printable);
          id_word = rw (f.same.2) (h.id_word);
          times_fit = rw (f.same.3) (h.times_fit);
          content = rw (f.same.4) (h.content);
          unblocked = f.same.5 ∙ h.unblocked;
          answers = f.same.6 ∙ h.answers;
        };
        same_index = f.same.0;
        flag_now = cleared_flag;
        bounded =
            traded f.after.registry.node_count w.registry.node_count f.after.socket_flag
              w.socket_flag cleared_flag set_flag f.grows;
      }

  serve_socket-IsTurned :
      (w : World Float)
      → IsRunning w
      → w.registry.node_count ≤ 255
      → IsTurned w false (serve_socket env now w)
  unfolding serve_socket
  serve_socket-IsTurned w h few =
      if-cases (λ call. IsTurned w false call) w.socket_flag (handle_request env w now) (some w)
        (served-IsRunning w h few)
        (λ e. record {
          after = w;
          returns = refl;
          running = h;
          same_index = refl;
          flag_now = e;
          bounded = omega arith;
        })

  turn-IsTurned :
      (w : World Float)
      → IsRunning w
      → w.registry.node_count + pending w ≤ 255
      → (w.handling.status == handled) ≡ false
      → IsTurned w false (serve_radio env now w >>= serve_socket env now)
  turn-IsTurned w h few waits =
      let t = serve_radio-IsTurned w h (omega arith) waits in
      let u = serve_socket-IsTurned t.after t.running (omega (arith, t.bounded)) in
      record {
        after = u.after;
        returns = rw (t.returns) (u.returns);
        running = u.running;
        same_index = u.same_index ∙ t.same_index;
        flag_now = u.flag_now;
        bounded = omega (arith, u.bounded, t.bounded);
      }

  -- A scan that returned, with the loop's invariant and index.
  pub record IsScanned (w : World Float) (call : Option (World Float)) : Type 0 where
    pub after : World Float
    pub returns : call ≡ some after
    pub running : IsRunning after
    pub same_index : after.index ≡ w.index

  -- From a sound list, with SIGUSR1 not blocked and a client process that answers all along, and any
  -- order of radio signals and requests between the turns, of which each fits and none removes a node,
  -- a pending one included: as long as the nodes and the requests together are at most 255, the scan
  -- loop returns, the list is sound, SIGUSR1 is not blocked, and the loop's index is what it was.
  pub scan_loop-IsScanned :
      (turns : ℕ) (events : ℕ → Event) (w : World Float)
      → IsRunning w
      → ((k : ℕ) → IsEvent (events k))
      → w.registry.node_count + pending w + requests_in turns events ≤ 255
      → IsScanned w (scan_loop env now turns events w)
  unfolding scan_loop
  scan_loop-IsScanned zero events w h v few = record {
    after = w;
    returns = refl;
    running = h;
    same_index = refl;
  }
  scan_loop-IsScanned (suc left) events w0 h v few =
      let w = deliver_event w0 (events left) in
      let g = deliver_event-IsRunning w0 (events left) h (v left) in
      let (bound, index) = deliver_event-pending w0 (events left) in
      elim (Bool-cases (w.handling.status == handled)) [
        | inl e ↦ record {
          after = w;
          returns = rw (scan_loop, e) refl;
          running = g;
          same_index = index;
        }
        | inr e ↦
            let t = turn-IsTurned w g (omega (arith, bound)) e in
            let rest =
              scan_loop-IsScanned left events t.after t.running v
                (omega (arith, bound, t.bounded)) in
            record {
              after = rest.after;
              returns = rw (scan_loop, e, t.returns) (rest.returns);
              running = rest.running;
              same_index = rest.same_index ∙ t.same_index ∙ index;
            }
      ]
