-- ===== src/Gateway/Served.antt =====
-- The requests of the client process: they return, and keep the list of nodes valid.
use gateway_v.Base.{
  ℕ, List, true, inl, inr, ◌≡◌, refl, Bool, false, Option, some, arith, ◌==◌, if◌then◌else◌,
  if-both,
}
use gateway_v.Node.{
  Platform, add_device_cmd, remove_device_cmd, got_sock, ctl_sock, mode_manual, mode_auto,
}
use gateway_v.Gateway.State.{World, Clock}
use gateway_v.Gateway.Request.{serve, serve_remove, handle_request}
use gateway_v.Registry.{ids}
use gateway_v.Registry.Spec.{remove_id}
use gateway_v.Gateway.Sound.{IsReady, IsServed, requested}
use gateway_v.Gateway.Sound.{kept}
use gateway_v.Gateway.Membership.{
  serve_add-IsServed, serve_remove-IsServed, serve_got_sock-IsServed,
}
use gateway_v.Gateway.Commanded.{stays-IsServed, serve_manual-IsServed, serve_auto-IsServed}

module _ (env : Platform) where
  open env use {Float}

  closed :
      (w : World Float)
      → IsReady w
      → IsServed w (ids w.registry.cells) (some (record w { sock_status = false }))
  closed w h = record {
    after = record w { sock_status = false };
    returns = refl;
    sound = h.sound;
    lists = refl;
    grows = omega arith;
    same = kept w;
  }

  both :
      (w : World Float) (b : Bool) {x y : Option (World Float)}
      → IsServed w (ids w.registry.cells) x
      → IsServed w (ids w.registry.cells) y
      → IsServed w (ids w.registry.cells) (if b then x else y)
  both w b hx hy = if-both (λ call. IsServed w (ids w.registry.cells) call) b hx hy

  either :
      (w : World Float) (b : Bool) {l k : List ℕ} {x y : Option (World Float)}
      → (b ≡ true → IsServed w l x)
      → IsServed w k y
      → IsServed w (if b then l else k) (if b then x else y)
  either w true hx hy = hx refl
  either w false hx hy = hy

  removable :
      (w : World Float)
      → IsReady w
      → (w.command.request == remove_device_cmd) ≡ true
      → IsServed w (remove_id w.command.id_to_handler (ids w.registry.cells)).0 (serve_remove env w)
  removable w h e = elim (h.safe) [
    | inl other ↦ absurd (other (ground arith))
    | inr safe ↦ serve_remove-IsServed env w h safe
  ]

  serve-IsServed :
      (w : World Float) (now : Clock)
      → IsReady w
      → IsServed w
          (requested w.command.request w.command.id_to_handler (ids w.registry.cells))
          (serve env w now)
  unfolding serve
  serve-IsServed w now h =
      either w (w.command.request == add_device_cmd) (λ e. serve_add-IsServed env w h)
        (either w (w.command.request == remove_device_cmd) (removable w h) (
          both w (w.command.request == got_sock) (serve_got_sock-IsServed env w h) (
            both w (w.command.request == ctl_sock) (closed w h) (
              both w (w.command.request == mode_manual) (serve_manual-IsServed env w now h) (
                both w (w.command.request == mode_auto) (serve_auto-IsServed env w now h)
                  (stays-IsServed env w h))))))

  -- With a client process that answers, a request that fits, other than one that takes a node out from
  -- among several, is served to the end: the ids are those of the list with the id added, with it
  -- removed, or as they were, as the request asks, and the list is valid; the request flag is
  -- cleared, and the loop's index, the node it waits for and the signal mask stay.
  pub handle_request-IsServed :
      (w : World Float) (now : Clock)
      → IsReady w
      → (f : IsServed w
          (requested w.command.request w.command.id_to_handler (ids w.registry.cells))
          (handle_request env w now))
        × (f.after.socket_flag ≡ false)
  unfolding handle_request
  handle_request-IsServed w now h =
      let f = serve-IsServed w now h in
      (
        record {
          after = record (f.after) { socket_flag = false };
          returns = rw (f.returns) refl;
          sound = f.sound;
          lists = f.lists;
          grows = f.grows;
          same = f.same;
        },
        refl,
      )
