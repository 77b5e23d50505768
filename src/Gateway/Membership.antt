-- ===== src/Gateway/Membership.antt =====
-- Requests that add or remove a node, and the list that a new client is sent.
use gateway_v.Base.{
  ℕ, suc, ◌++◌, ◌≤◌, ◌<◌, ◌⊎◌, inl, inr, true, false, ◌≡◌, refl, ap, sym, ◌∙◌, Bool, Option, some,
  List, [], ◌∷◌, arith, length, All, All-append,
}
use gateway_v.Base.Word.{IsU32}
use gateway_v.Node.{Node, Platform, add_device_cmd, remove_device_cmd}
use gateway_v.Registry.{Registry, ids, add_device, remove_device}
use gateway_v.Registry.File.{IsPrintable}
use gateway_v.Registry.Spec.{IsRefined, insert_id, remove_id, remove_first}
use gateway_v.Registry.Add.{add_device-IsRefined}
use gateway_v.Registry.Remove.{remove_device_outcomes}
use gateway_v.Gateway.State.{World, deliver}
use gateway_v.Gateway.Request.{
  join_ints, data_text, reply_text, serve_add, serve_remove, scan_node_list, scan_node_data,
  serve_got_sock,
}
use gateway_v.Gateway.Sound.{IsSound, IsReady, IsServed, All-insert_id}
use gateway_v.Gateway.Sound.{Kept, kept, Kept-trans, length-insert_id}
use gateway_v.Registry.Search.{length-ids, contains}
use gateway_v.Registry.Shift.{length-remove_first}
use mathlib.Core.Path.{subst}
use gateway_v.Text.{Bytes}

module _ (env : Platform) where
  open env use {Float}

  add-IsRefined :
      (w : World Float)
      → IsReady w
      → IsRefined w.registry
          (insert_id w.command.id_to_handler (ids w.registry.cells))
          (add_device env w.registry w.command.id_to_handler)
  add-IsRefined w h =
      add_device-IsRefined env w.registry w.command.id_to_handler h.sound.valid h.room (
        All-append IsPrintable (ids w.registry.cells) (w.command.id_to_handler ∷ [])
          h.sound.printable (h.id_printable, tt))

  refined-IsSound :
      {r : Registry Float} {expected : List ℕ × Bool} {call : Option (Registry Float × Bool)}
      (f : IsRefined r expected call)
      → All IsPrintable expected.0
      → All IsU32 expected.0
      → IsSound f.after
  refined-IsSound f p u =
      let same = ap (λ (o : List ℕ × Bool). o.0) f.same_ids in
      record { valid = f.valid; printable = rw same p; words = rw same u }

  refined-length :
      {r : Registry Float} {expected : List ℕ × Bool} {call : Option (Registry Float × Bool)}
      (f : IsRefined r expected call)
      → length f.after.cells ≡ length expected.0
  refined-length f =
      sym (length-ids f.after.cells) ∙ ap length (ap (λ (o : List ℕ × Bool). o.0) f.same_ids)

  -- A text for a client process that answers.
  pub deliver_lem :
      (w : World Float) (text : Bytes)
      → w.answers ≡ true
      → (w' : World Float) × (deliver w text ≡ some w') × (w'.registry ≡ w.registry) × Kept w w'
  unfolding deliver
  deliver_lem w text h = (
    record w {
      command = record w.command { data_to_send = text; ack = 1 };
      to_client = w.to_client ++ (text ∷ []);
    },
    rw h refl,
    refl,
    kept w,
  )

  nil-of-length : {A : Type 0} (l : List A) → length l ≡ 0 → l ≡ []
  nil-of-length [] h = refl
  nil-of-length (x ∷ l) h = absurd (omega arith)

  clash :
      (w : World Float)
      → contains (ids w.registry.cells) w.command.id_to_handler ≡ true
      → 1 < w.registry.node_count
      → (contains (ids w.registry.cells) w.command.id_to_handler ≡ false)
        ⊎ (w.registry.node_count ≡ 1)
      → ⊥
  clash w known several (inl fresh) = absurd (cc)
  clash w known several (inr one) = omega arith

  w_counted : (w : World Float) → IsReady w → w.registry.node_count ≡ length (ids w.registry.cells)
  w_counted w h = h.sound.valid.counted ∙ sym (length-ids w.registry.cells)

  pub serve_add-IsServed :
      (w : World Float)
      → IsReady w
      → IsServed w (insert_id w.command.id_to_handler (ids w.registry.cells)).0 (serve_add env w)
  unfolding serve_add
  serve_add-IsServed w h =
      let f = add-IsRefined w h in
      let told =
        deliver_lem (record w { registry = f.after })
          (reply_text add_device_cmd w.command.id_to_handler f.result) h.answers in
      record {
        after = told.0;
        returns = rw (f.returns) (told.1);
        sound = rw (told.2) (
            refined-IsSound f
              (All-insert_id IsPrintable (ids w.registry.cells) w.command.id_to_handler
                h.sound.printable h.id_printable)
              (All-insert_id IsU32 (ids w.registry.cells) w.command.id_to_handler h.sound.words
                h.id_word));
        lists = rw (told.2) (ap (λ (o : List ℕ × Bool). o.0) f.same_ids);
        grows = rw (told.2) (
            omega (
              arith,
              f.valid.counted,
              w_counted w h,
              refined-length f,
              length-insert_id (ids w.registry.cells) w.command.id_to_handler,
            ));
        same = told.3;
      }

  -- The reply to a removal that left the list r'.
  removal-IsServed :
      (w : World Float) (r' : Registry Float) (ok : Bool)
      → w.answers ≡ true
      → remove_device env w.registry w.command.id_to_handler ≡ some (r', ok)
      → IsSound r'
      → r'.node_count ≤ suc w.registry.node_count
      → IsServed w (ids r'.cells) (serve_remove env w)
  unfolding serve_remove
  removal-IsServed w r' ok answers e s n =
      let told =
        deliver_lem (record w { registry = r' })
          (reply_text remove_device_cmd w.command.id_to_handler ok) answers in
      record {
        after = told.0;
        returns = rw e (told.1);
        sound = rw (told.2) s;
        lists = rw (told.2) refl;
        grows = rw (told.2) n;
        same = told.3;
      }

  pub serve_remove-IsServed :
      (w : World Float)
      → IsReady w
      → (contains (ids w.registry.cells) w.command.id_to_handler ≡ false)
        ⊎ (w.registry.node_count ≡ 1)
      → IsServed w (remove_id w.command.id_to_handler (ids w.registry.cells)).0 (serve_remove env w)
  serve_remove-IsServed w h safe =
      let x = w.command.id_to_handler in
      elim (remove_device_outcomes env w.registry x h.sound.valid) [
        | inl (fresh, returned) ↦
            rw fresh (removal-IsServed w w.registry false h.answers returned h.sound (omega arith))
        | inr (inl (known, one, after, returned, valid, gone, file)) ↦
            let bare : after.cells ≡ [] =
              nil-of-length after.cells (omega (arith, gone, valid.counted)) in
            let left : remove_first x (ids w.registry.cells) ≡ [] =
              nil-of-length (remove_first x (ids w.registry.cells)) (
                omega (
                  arith,
                  one,
                  w_counted w h,
                  length-remove_first (ids w.registry.cells) x known,
                )) in
            rw (known, left)
              (subst (λ l. IsServed w l (serve_remove env w)) (ap ids bare)
                (removal-IsServed w after true h.answers returned
                  (record { valid = valid; printable = rw bare tt; words = rw bare tt })
                  (omega (arith, gone))))
        | inr (inr (inl cut)) ↦ absurd (clash w cut.0 cut.1 safe)
        | inr (inr (inr cut)) ↦ absurd (clash w cut.0 cut.1 safe)
      ]

  scan_node_list-keeps :
      (cells : List (Node Float)) (w : World Float)
      → w.answers ≡ true
      → (w' : World Float) × (scan_node_list (length cells) cells w ≡ some w')
        × (w'.registry ≡ w.registry)
        × Kept w w'
  unfolding scan_node_list
  scan_node_list-keeps [] w h = (w, refl, refl, kept w)
  scan_node_list-keeps (c ∷ cells) w h =
      let told = deliver_lem w (join_ints add_device_cmd (c.id ∷ [])) h in
      let (w', returns, same, keeps) = scan_node_list-keeps cells told.0 (told.3.6 ∙ h) in
      (w', ground (arith, told.1, returns), same ∙ told.2, Kept-trans w told.0 w' keeps told.3)

  scan_node_data-keeps :
      (cells : List (Node Float)) (w : World Float)
      → w.answers ≡ true
      → (w' : World Float) × (scan_node_data env (length cells) cells w ≡ some w')
        × (w'.registry ≡ w.registry)
        × Kept w w'
  unfolding scan_node_data
  scan_node_data-keeps [] w h = (w, refl, refl, kept w)
  scan_node_data-keeps (c ∷ cells) w h =
      let told = deliver_lem w (data_text env c) h in
      let (w', returns, same, keeps) = scan_node_data-keeps cells told.0 (told.3.6 ∙ h) in
      (w', ground (arith, told.1, returns), same ∙ told.2, Kept-trans w told.0 w' keeps told.3)

  pub serve_got_sock-IsServed :
      (w : World Float) → IsReady w → IsServed w (ids w.registry.cells) (serve_got_sock env w)
  unfolding serve_got_sock
  serve_got_sock-IsServed w h =
      let n = h.sound.valid.counted in
      let (w1, list, same1, keeps1) = scan_node_list-keeps w.registry.cells w h.answers in
      let (w2, values, same2, keeps2) =
        scan_node_data-keeps w.registry.cells w1 (keeps1.6 ∙ h.answers) in
      let listed : scan_node_list w.registry.node_count w.registry.cells w ≡ some w1 =
        subst (λ k. scan_node_list k w.registry.cells w ≡ some w1) (sym n) list in
      let sent : scan_node_data env w.registry.node_count w.registry.cells w1 ≡ some w2 =
        subst (λ k. scan_node_data env k w.registry.cells w1 ≡ some w2) (sym n) values in
      record {
        after = record w2 { sock_status = true };
        returns = ground (arith, listed, sent);
        sound = rw (same2, same1) (h.sound);
        lists = rw (same2, same1) refl;
        grows = rw (same2, same1) (omega arith);
        same = Kept-trans w w1 (record w2 { sock_status = true }) keeps2 keeps1;
      }
