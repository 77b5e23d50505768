-- ===== src/Registry/Remove.antt =====
-- remove_device: which removals return, and what they leave.
use gateway_v.Base.{
  ℕ, zero, suc, List, ◌==◌, ◌-◌, ◌*◌, ◌/◌, ◌≤◌, ◌<◌, ◌≡◌, refl, ap, sym, ◌∙◌, true, false, Option,
  none, some, [], ◌∷◌, ◌++◌, arith, length, take, Bool, Bool-cases, Option-cases, inl, inr, ◌⊎◌,
}
use Prim.Native.Nat.add
use mathlib.Core.Option
use mathlib.Core.Path.{subst}
use gateway_v.Text.{Bytes}
use gateway_v.Node.{Node, Platform, node_size, db_remove_node}
use gateway_v.Registry.{
  Registry, ids, shift_down, remove_device, sync_list_to_file, node_texts, one_node,
}
use gateway_v.Registry.Search.{
  IsValid, Distinct, contains, length-ids, search-missing, search-found, index_of-found,
}
use gateway_v.Registry.Spec.{remove_first}
use gateway_v.Registry.Shift.{drop_node, shift_down-index_of, ids-drop_node, length-remove_first}

node_texts-short :
    {F : Type 0} (n : ℕ) (cells : List (Node F)) → length cells < n → node_texts n cells ≡ none
unfolding node_texts
node_texts-short zero cells h = absurd (omega arith)
node_texts-short (suc n) [] h = refl
node_texts-short (suc n) (c ∷ cells) h = elim (Option-cases (one_node c.id)) [
  | inl e ↦ ground arith
  | inr (text, e) ↦ ground (arith, node_texts-short n cells (omega arith))
]

length-take-le : {A : Type 0} (n : ℕ) (l : List A) → length (take n l) ≤ n
length-take-le zero l = omega arith
length-take-le (suc n) [] = omega arith
length-take-le (suc n) (x ∷ l) = omega (arith, length-take-le n l)

module _ (env : Platform) where
  open env use {Float}

  -- What remove_device leaves of the list before the file is written: the nodes without the first one
  -- with the id, as many of them as fit the new block.
  abbrev pub removed : Registry Float → ℕ → Node Float → Registry Float
  removed r x node = record r {
    node_count = r.node_count - 1;
    cells = take ((r.node_count - 1) * 4 / node_size) (drop_node x r.cells);
    allocated = (r.node_count - 1) * 4;
    requests = r.requests ++ (db_remove_node env node ∷ []);
  }

  remove_device-known :
      (r : Registry Float) (x : ℕ)
      → IsValid r
      → contains (ids r.cells) x ≡ true
      → (node : Node Float) × (node.id ≡ x)
        × (remove_device env r x
            ≡ Option.map (λ r'. (r', true)) (sync_list_to_file (removed r x node)))
  unfolding remove_device
  remove_device-known r x v known =
      let (i, node, found, got, named, below) = index_of-found r.cells x known in
      let here = search-found r x i v found in
      let shifted : take (r.node_count - 1) (shift_down (r.node_count - 1 - i) i r.cells)
          ≡ drop_node x r.cells =
        rw (v.counted) (
          ap (λ j. take (length r.cells - 1) (shift_down (length r.cells - 1 - i) j r.cells))
            (sym (add.zero i))
          ∙ shift_down-index_of r.cells [] x i found (length r.cells - 1) (omega arith)) in
      (node, named, ground (arith, here, got, shifted, v.counted))

  remove_device-unknown :
      (r : Registry Float) (x : ℕ)
      → IsValid r
      → contains (ids r.cells) x ≡ false
      → remove_device env r x ≡ some (r, false)
  unfolding remove_device
  remove_device-unknown r x v fresh = let missing = search-missing r x v fresh in ground arith

  some_node :
      (r : Registry Float) (x : ℕ) → IsValid r → contains (ids r.cells) x ≡ true → 0 < r.node_count
  some_node r x v known =
      omega (arith, v.counted, length-remove_first (ids r.cells) x known, length-ids r.cells)

  -- Writing the file after a removal, with the file not opening, with the last node gone, and else.
  sync-unopened : (r : Registry Float) → r.file ≡ none → sync_list_to_file r ≡ some r
  unfolding sync_list_to_file
  sync-unopened r e = rw e refl

  sync-emptied :
      (r : Registry Float) (old : Bytes)
      → r.file ≡ some old
      → r.node_count ≡ 0
      → sync_list_to_file r ≡ some (record r { file = some [] })
  unfolding sync_list_to_file
  sync-emptied r old e z = rw (e, z) refl

  sync-short :
      (r : Registry Float) (old : Bytes)
      → r.file ≡ some old
      → length r.cells < r.node_count
      → sync_list_to_file r ≡ none
  unfolding sync_list_to_file
  sync-short r old e h =
      let short = node_texts-short r.node_count r.cells h in ground (arith, e, short)

  one_or_more : {n : ℕ} → 0 < n → (n ≡ 1) ⊎ (1 < n)
  one_or_more {n} h = elim (Bool-cases (n == 1)) [
    | inl e ↦ inl (ground arith)
    | inr e ↦ inr (ground arith)
  ]

  -- The outcomes of remove_device: an id that is not listed; the only node; one of several nodes while
  -- the file does not open; and one of several nodes while it opens.
  abbrev pub Refused : Registry Float → ℕ → Option (Registry Float × Bool) → Type 0
  Refused r x call = (contains (ids r.cells) x ≡ false) × (call ≡ some (r, false))

  abbrev pub Emptied : Registry Float → ℕ → Option (Registry Float × Bool) → Type 0
  Emptied r x call =
      (contains (ids r.cells) x ≡ true)
      × (r.node_count ≡ 1)
      × (after : Registry Float) × (call ≡ some (after, true))
      × IsValid after
      × (after.node_count ≡ 0)
      × (after.file ≡ Option.map (λ _. []) r.file)

  abbrev pub CutShort : Registry Float → ℕ → Option (Registry Float × Bool) → Type 0
  CutShort r x call =
      (contains (ids r.cells) x ≡ true)
      × (1 < r.node_count)
      × (r.file ≡ none)
      × (after : Registry Float) × (call ≡ some (after, true))
      × (after.node_count ≡ r.node_count - 1)
      × (ids after.cells ≡ take ((r.node_count - 1) * 4 / node_size) (remove_first x (ids r.cells)))
      × (after.file ≡ none)

  abbrev pub OutOfBounds : Registry Float → ℕ → Option (Registry Float × Bool) → Type 0
  OutOfBounds r x call =
      (contains (ids r.cells) x ≡ true)
      × (1 < r.node_count)
      × (old : Bytes) × (r.file ≡ some old)
      × (call ≡ none)

  abbrev pub Removal : Registry Float → ℕ → Option (Registry Float × Bool) → Type 0
  Removal r x call = Refused r x call ⊎ Emptied r x call ⊎ CutShort r x call ⊎ OutOfBounds r x call

  ids-take : (n : ℕ) (cells : List (Node Float)) → ids (take n cells) ≡ take n (ids cells)
  ids-take zero cells = refl
  ids-take (suc n) [] = refl
  ids-take (suc n) (c ∷ cells) = ap (λ l. c.id ∷ l) (ids-take n cells)

  removed-one :
      (r : Registry Float) (x : ℕ) (node : Node Float)
      → r.node_count ≡ 1
      → remove_device env r x ≡ Option.map (λ r'. (r', true)) (sync_list_to_file (removed r x node))
      → (after : Registry Float) × (remove_device env r x ≡ some (after, true))
        × IsValid after
        × (after.node_count ≡ 0)
        × (after.file ≡ Option.map (λ _. []) r.file)
  removed-one r x node one known =
      let gone : (removed r x node).node_count ≡ 0 = omega arith in
      let bare : (removed r x node).cells ≡ [] = rw one refl in
      elim (Option-cases r.file) [
        | inl e ↦ (
          removed r x node,
          known ∙ ap (Option.map (λ r'. (r', true))) (sync-unopened (removed r x node) e),
          record {
            counted = omega (arith, gone, ap length bare);
            small = omega arith;
            distinct = subst (λ l. Distinct (ids l)) (sym bare) tt;
          },
          gone,
          rw e refl,
        )
        | inr (old, e) ↦ (
          record (removed r x node) { file = some [] },
          known ∙ ap (Option.map (λ r'. (r', true))) (sync-emptied (removed r x node) old e gone),
          record {
            counted = omega (arith, gone, ap length bare);
            small = omega arith;
            distinct = subst (λ l. Distinct (ids l)) (sym bare) tt;
          },
          gone,
          rw e refl,
        )
      ]

  -- On a valid list, whatever it holds: an id that is not listed is refused and changes nothing; the
  -- only node is taken out, which leaves a valid list of none and, if the file opens, an empty file;
  -- one of several nodes is taken out while the file does not open, and the block then holds only the
  -- first nodes of those that node_count still counts; and while the file opens, taking out one of
  -- several nodes reads the ids for the file behind that block.
  pub remove_device_outcomes :
      (r : Registry Float) (x : ℕ) → IsValid r → Removal r x (remove_device env r x)
  remove_device_outcomes r x v = elim (Bool-cases (contains (ids r.cells) x)) [
    | inr fresh ↦ inl (fresh, remove_device-unknown r x v fresh)
    | inl e ↦
        let (node, named, known) = remove_device-known r x v e in
        elim (one_or_more (some_node r x v e)) [
          | inl one ↦
              let (after, returns, valid, gone, file) = removed-one r x node one known in
              inr (inl (e, one, after, returns, valid, gone, file))
          | inr several ↦ elim (Option-cases r.file) [
            | inl closed ↦ inr (
                inr (
                  inl (
                    e,
                    several,
                    closed,
                    removed r x node,
                    known
                        ∙ ap (Option.map (λ r'. (r', true)))
                            (sync-unopened (removed r x node) closed),
                    refl,
                    ids-take ((r.node_count - 1) * 4 / node_size) (drop_node x r.cells)
                        ∙ ap (take ((r.node_count - 1) * 4 / node_size)) (ids-drop_node r.cells x),
                    closed,
                  )))
            | inr (old, opened) ↦ inr (
                inr (
                  inr (
                    e,
                    several,
                    old,
                    opened,
                    known
                        ∙ ap (Option.map (λ r'. (r', true))) (
                            sync-short (removed r x node) old opened (
                              omega (
                                arith,
                                several,
                                length-take-le ((r.node_count - 1) * 4 / node_size)
                                    (drop_node x r.cells),
                              ))),
                  )))
          ]
        ]
  ]
