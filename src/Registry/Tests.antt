-- ===== src/Registry/Tests.antt =====
-- Runs of the node list, and its theorems at concrete lists.
use gateway_v.Base.{ℕ, ◌≡◌, refl, some, none, [], ◌∷◌, All, arith}
use gateway_v.Text.{print_int, dec_digits}
use gateway_v.Node.{Node, zero_node, codes}
use gateway_v.Sample.{pi}
use gateway_v.Registry.{Registry, add_device, remove_device, setup_node, ids, one_node}
use gateway_v.Registry.Search.{IsValid}
use gateway_v.Registry.File.{IsPrintable, file_text}
use gateway_v.Registry.Spec.{IsRefined, insert_id}
use gateway_v.Registry.Add.{add_device-IsRefined}
use gateway_v.Registry.Remove.{Removal, remove_device_outcomes, removed}
use gateway_v.Registry.Setup.{setup_node-file_text}

abbrev empty : Registry ℕ
empty = record { node_count = 0; cells = []; allocated = 0; file = some []; requests = [] }

abbrev node : ℕ → Node ℕ
node i = record (zero_node pi) { id = i }

abbrev two_nodes : Registry ℕ
two_nodes = record {
  node_count = 2;
  cells = node 20021164 ∷ node 20021165 ∷ [];
  allocated = 176;
  file = some [];
  requests = [];
}

two_nodes-IsValid : IsValid two_nodes
two_nodes-IsValid = record {
  counted = refl;
  small = omega arith;
  distinct = ((omega arith, tt), (tt, tt));
}

one_node_overflow : (one_node 999999999 ≡ some (codes "999999999 ")) × (one_node 1000000000 ≡ none)
unfolding one_node print_int dec_digits
one_node_overflow = (refl, refl)

printable : All IsPrintable (20021164 ∷ 20021165 ∷ 7 ∷ [])
unfolding print_int dec_digits
printable = omega arith

add_device-IsRefined_example :
    IsRefined two_nodes (insert_id 7 (20021164 ∷ 20021165 ∷ [])) (add_device pi two_nodes 7)
add_device-IsRefined_example =
    add_device-IsRefined pi two_nodes 7 two_nodes-IsValid (omega arith) printable

remove_device_outcomes_example : Removal pi two_nodes 20021164 (remove_device pi two_nodes 20021164)
remove_device_outcomes_example = remove_device_outcomes pi two_nodes 20021164 two_nodes-IsValid

-- The same nodes while the file does not open, and that list after the first node was removed.
abbrev unsaved : Registry ℕ
unsaved = record two_nodes { file = none }

abbrev one_left : Registry ℕ
one_left = removed pi unsaved 20021164 (node 20021164)

abbrev saved : Registry ℕ
saved = record empty { file = some (file_text (20021164 ∷ 20021165 ∷ 7 ∷ [])) }

setup_node-file_text_example :
    (r' : Registry ℕ) × (setup_node pi saved ≡ some r')
    × (ids r'.cells ≡ 20021164 ∷ 20021165 ∷ 7 ∷ [])
    × IsValid r'
    × (r'.file ≡ saved.file)
setup_node-file_text_example =
    setup_node-file_text pi (20021164 ∷ 20021165 ∷ 7 ∷ []) saved (7 ∷ []) refl refl refl refl
      (omega arith) printable (omega arith) (omega arith)
