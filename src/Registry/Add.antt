-- ===== src/Registry/Add.antt =====
-- add_device adds an id at the end unless it is there.
use gateway_v.Base.{
  ℕ, ◌+◌, ◌*◌, ◌<◌, ◌^◌, ◌≡◌, refl, ap, ◌∙◌, true, false, some, List, [], ◌∷◌, ◌++◌, arith, ◌==◌,
  if◌then◌else◌, length, All, Bool-cases, inl, inr, length-append,
}
use mathlib.Core.Option
use gateway_v.Node.{Node, Platform, node_size, zero_node, lora_init, db_add_node}
use gateway_v.Registry.{Registry, ids, add_device, sync_list_to_file}
use gateway_v.Registry.Search.{
  IsValid, contains, ids-append, search-missing, search-found, index_of-found, All-of-contains,
  Distinct-snoc,
}
use gateway_v.Registry.File.{IsPrintable, file_text, sync_list_to_file_eq}
use gateway_v.Registry.Spec.{insert_id, IsRefined}

module _ (env : Platform) where
  open env use {Float, stale}

  -- The node that a call stores: calloc's cell for the first one, realloc's for another.
  abbrev pub new_node : Registry Float → ℕ → Node Float
  new_node r x =
      if r.node_count == 0
      then lora_init env (zero_node env) x
      else lora_init env (stale r.node_count) x

  abbrev stored : Registry Float → ℕ → Registry Float
  stored r x = record r {
    node_count = r.node_count + 1;
    cells = r.cells ++ (new_node r x ∷ []);
    allocated = (r.node_count + 1) * node_size;
    requests = r.requests ++ (db_add_node env (new_node r x) ∷ []);
  }

  new_node-id : (r : Registry Float) (x : ℕ) → (new_node r x).id ≡ x
  unfolding lora_init
  new_node-id r x = ground arith

  nil-of-length : {A : Type 0} (l : List A) → length l ≡ 0 → l ≡ []
  nil-of-length [] h = refl
  nil-of-length (x ∷ l) h = absurd (omega arith)

  -- Both ways to store a node, before the file is written.
  add_device-stored :
      (r : Registry Float) (x : ℕ)
      → IsValid r
      → r.node_count + 1 < 2 ^ 32
      → contains (ids r.cells) x ≡ false
      → add_device env r x ≡ Option.map (λ r'. (r', true)) (sync_list_to_file (stored r x))
  unfolding add_device
  add_device-stored r x v small fresh =
      let missing = search-missing r x v fresh in
      elim (Bool-cases (r.node_count == 0)) [
        | inl e ↦ ground (arith, nil-of-length r.cells)
        | inr e ↦ ground arith
      ]

  ids-stored : (r : Registry Float) (x : ℕ) → ids (stored r x).cells ≡ ids r.cells ++ (x ∷ [])
  ids-stored r x =
      ids-append r.cells (new_node r x ∷ []) ∙ ap (λ y. ids r.cells ++ (y ∷ [])) (new_node-id r x)

  stored-IsValid :
      (r : Registry Float) (x : ℕ)
      → IsValid r
      → r.node_count + 1 < 2 ^ 32
      → contains (ids r.cells) x ≡ false
      → IsValid (stored r x)
  stored-IsValid r x v small fresh = record {
    counted = omega (arith, v.counted, length-append r.cells (new_node r x ∷ []));
    small = small;
    distinct =
        rw (ids-stored r x)
          (Distinct-snoc (ids r.cells) x v.distinct (All-of-contains (ids r.cells) x fresh));
  }

  -- The list that a successful call leaves.
  abbrev pub added : Registry Float → ℕ → Registry Float
  added r x = record (stored r x) {
    file = Option.map (λ _. file_text (ids r.cells ++ (x ∷ []))) r.file;
  }

  pub ids-added : (r : Registry Float) (x : ℕ) → ids (added r x).cells ≡ ids r.cells ++ (x ∷ [])
  ids-added r x = ids-stored r x

  pub added-IsValid :
      (r : Registry Float) (x : ℕ)
      → IsValid r
      → r.node_count + 1 < 2 ^ 32
      → contains (ids r.cells) x ≡ false
      → IsValid (added r x)
  added-IsValid r x v small fresh =
      let w = stored-IsValid r x v small fresh in
      record { counted = w.counted; small = w.small; distinct = w.distinct }

  pub add_device-new :
      (r : Registry Float) (x : ℕ)
      → IsValid r
      → r.node_count + 1 < 2 ^ 32
      → All IsPrintable (ids r.cells ++ (x ∷ []))
      → contains (ids r.cells) x ≡ false
      → add_device env r x ≡ some (added r x, true)
  add_device-new r x v small printable fresh =
      add_device-stored r x v small fresh
      ∙ ap (Option.map (λ r'. (r', true))) (
          sync_list_to_file_eq (stored r x) (stored-IsValid r x v small fresh).counted
            (rw (ids-stored r x) printable))
      ∙ ap (λ l. some (record (stored r x) { file = Option.map (λ _. file_text l) r.file }, true))
          (ids-stored r x)

  pub add_device-known :
      (r : Registry Float) (x : ℕ)
      → IsValid r
      → contains (ids r.cells) x ≡ true
      → add_device env r x ≡ some (r, false)
  unfolding add_device
  add_device-known r x v known =
      let (i, node, found, got, named, below) = index_of-found r.cells x known in
      let here = search-found r x i v found in ground arith

  -- On a valid list whose texts fit, add_device always returns; it adds the id at the end and returns
  -- 0 exactly where the id is not there yet, keeps the list valid, and rewrites the file to match.
  pub add_device-IsRefined :
      (r : Registry Float) (x : ℕ)
      → IsValid r
      → r.node_count + 1 < 2 ^ 32
      → All IsPrintable (ids r.cells ++ (x ∷ []))
      → IsRefined r (insert_id x (ids r.cells)) (add_device env r x)
  add_device-IsRefined r x v small printable = elim (Bool-cases (contains (ids r.cells) x)) [
    | inl e ↦ rw e (record {
      after = r;
      result = false;
      returns = add_device-known r x v e;
      same_ids = refl;
      valid = v;
      file_shows = refl;
    })
    | inr e ↦ rw e (record {
      after = added r x;
      result = true;
      returns = add_device-new r x v small printable e;
      same_ids = ap (λ l. (l, true)) (ids-stored r x);
      valid = added-IsValid r x v small e;
      file_shows = refl;
    })
  ]
