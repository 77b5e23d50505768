-- ===== src/Registry/File.antt =====
-- The node file: what sync_list_to_file writes, and that setup_node reads it back.
use gateway_v.Base.{ℕ, ◌≤◌, ◌≡◌, refl, some, List, [], ◌∷◌, ◌++◌, arith, length, All, length-append}
use mathlib.Core.Option
use mathlib.Core.List.{append_assoc}
use gateway_v.Text.{Bytes, print_int}
use gateway_v.Node.{Node}
use gateway_v.Registry.{Registry, ids, one_node, node_texts, sync_list_to_file}

-- The id's text fits one_node with its space and terminator.
abbrev pub IsPrintable : ℕ → Type 0
IsPrintable id = length (print_int id) ≤ 9

abbrev pub file_text : List ℕ → Bytes
file_text [] = []
file_text (x ∷ l) = print_int x ++ (32 ∷ file_text l)

pub one_node_eq : (id : ℕ) → IsPrintable id → one_node id ≡ some (print_int id ++ (32 ∷ []))
unfolding one_node
one_node_eq id h = ground (arith, length-append (print_int id) (32 ∷ []))

module _ {F : Type 0} where
  pub node_texts_eq :
      (cells : List (Node F))
      → All IsPrintable (ids cells)
      → node_texts (length cells) cells ≡ some (file_text (ids cells))
  unfolding node_texts
  node_texts_eq [] h = refl
  node_texts_eq (c ∷ cells) h = ground (
    arith,
    one_node_eq c.id h.0,
    node_texts_eq cells h.1,
    append_assoc (print_int c.id) (32 ∷ []) (file_text (ids cells)),
  )

  empty_text : (cells : List (Node F)) → length cells ≡ 0 → file_text (ids cells) ≡ []
  empty_text [] h = refl
  empty_text (c ∷ cells) h = absurd (omega arith)

  -- What a file that can be opened holds afterwards.
  pub sync_list_to_file_eq :
      (r : Registry F)
      → r.node_count ≡ length r.cells
      → All IsPrintable (ids r.cells)
      → sync_list_to_file r
        ≡ some (record r { file = Option.map (λ _. file_text (ids r.cells)) r.file })
  unfolding sync_list_to_file
  sync_list_to_file_eq r e h =
      let texts : node_texts r.node_count r.cells ≡ some (file_text (ids r.cells)) =
        rw e (node_texts_eq r.cells h) in
      ground (arith, texts, empty_text r.cells)
