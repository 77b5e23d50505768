-- ===== src/Gateway/Stale.antt =====
-- The round-robin index after the removal of a node.
use gateway_v.Base.{
  ℕ, ◌-◌, ◌*◌, ◌/◌, take, inl, inr, zero, suc, ◌+◌, ◌≤◌, ◌<◌, ◌≡◌, refl, ap, true, false, none,
  some, List, [], ◌∷◌, arith, lt→ltb, length, get_elem?,
}
use gateway_v.Node.{Platform, node_size, remove_device_cmd}
use gateway_v.Registry.{ids}
use gateway_v.Registry.Search.{contains, length-ids}
use gateway_v.Registry.Spec.{remove_first}
use gateway_v.Registry.Remove.{remove_device_outcomes}
use gateway_v.Registry.Shift.{length-remove_first}
use gateway_v.Gateway.State.{World, Clock}
use gateway_v.Gateway.Request.{reply_text, serve_remove, serve, handle_request}
use gateway_v.Gateway.Round.{poll_node}
use gateway_v.Gateway.Sound.{IsSound}
use gateway_v.Gateway.Membership.{deliver_lem}

get_elem?-beyond : {A : Type 0} (l : List A) (i : ℕ) → length l ≤ i → get_elem? l i ≡ none
get_elem?-beyond [] i h = refl
get_elem?-beyond (x ∷ l) zero h = absurd (omega arith)
get_elem?-beyond (x ∷ l) (suc i) h = get_elem?-beyond l i (omega arith)

length-take-of : {A : Type 0} (n : ℕ) (l : List A) → length (take n l) ≤ length l
length-take-of zero l = omega arith
length-take-of (suc n) [] = omega arith
length-take-of (suc n) (x ∷ l) = omega (arith, length-take-of n l)

poll_node-out :
    {F : Type 0} (w : World F) (now : Clock)
    → 0 < w.registry.node_count
    → length w.registry.cells ≤ w.index
    → poll_node w now ≡ none
unfolding poll_node
poll_node-out w now some_node out =
    rw (lt→ltb 0 w.registry.node_count some_node, get_elem?-beyond w.registry.cells w.index out)
      refl

module _ (env : Platform) where
  open env use {Float}

  -- A sound list of more than one node whose file does not open, the index at the last one, a client
  -- process that answers, and a request that removes a listed node: the request is served, the index
  -- is then not below the node count, and the next poll reads the list out of bounds.
  pub poll_node-handle_request :
      (w : World Float) (now later : Clock)
      → IsSound w.registry
      → w.answers ≡ true
      → w.registry.file ≡ none
      → w.command.request ≡ remove_device_cmd
      → contains (ids w.registry.cells) w.command.id_to_handler ≡ true
      → w.index + 1 ≡ w.registry.node_count
      → 1 < w.registry.node_count
      → (w' : World Float) × (handle_request env w now ≡ some w')
        × (w'.registry.node_count ≤ w'.index)
        × (poll_node w' later ≡ none)
  unfolding handle_request serve serve_remove
  poll_node-handle_request w now later s answers closed requested known last several =
      let x = w.command.id_to_handler in
      elim (remove_device_outcomes env w.registry x s.valid) [
        | inl (fresh, returned) ↦ absurd (cc)
        | inr (inl gone) ↦ absurd (omega (arith, gone.1))
        | inr (inr (inl (listed, more, shut, after, returned, counted, left, file))) ↦
            let told =
              deliver_lem env (record w { registry = after }) (reply_text remove_device_cmd x true)
                answers in
            let w' = record (told.0) { socket_flag = false } in
            let first_ids = remove_first x (ids w.registry.cells) in
            let short : length after.cells ≤ w.index = omega (
              arith,
              s.valid.counted,
              length-ids after.cells,
              length-ids w.registry.cells,
              ap length left,
              length-take-of ((w.registry.node_count - 1) * 4 / node_size) first_ids,
              length-remove_first (ids w.registry.cells) x known,
            ) in
            (
              w',
              ground (arith, requested, returned, told.1),
              rw (told.2, told.3.0) (omega (arith, counted)),
              poll_node-out w' later (rw (told.2) (omega (arith, counted)))
                  (rw (told.2, told.3.0) short),
            )
        | inr (inr (inr lost)) ↦ let opened = lost.3 in absurd (cc)
      ]
