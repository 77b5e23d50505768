-- ===== src/Registry.antt =====
-- The list of managed nodes of main.c: node_count, the array newLoRa and the node file, with
-- add_device, remove_device, setup_node and sync_list_to_file. A result `none` is an access out of
-- bounds; `false` is the C result -1.
pub mod Search
pub mod Add
pub mod Spec
pub mod Setup
pub mod Shift
pub mod Remove
pub mod File
mod Tests
use gateway_v.Base.{
  ℕ, zero, suc, ◌+◌, ◌-◌, ◌*◌, ◌^◌, ◌≤◌, ◌<◌, ◌≡◌, Bool, true, false, Option, none, some, List, [],
  ◌∷◌, ◌++◌, ◌>>=◌, ltb, leb, ◌/◌, ◌==◌, if◌then◌else◌, length, get_elem?, set, take,
}
use mathlib.Core.Option
use gateway_v.Base.Word.{u32}
use gateway_v.Text.{Bytes, print_int, atoi, tokens}
use gateway_v.Node.{
  Node, Platform, DbRequest, node_size, zero_node, lora_init, db_add_node, db_remove_node,
}

-- `cells` are the nodes that lie in the block newLoRa points at as a whole, and `allocated` the bytes
-- that were asked for it; node_count may be more than there are cells. The file is
-- `none` where it cannot be opened.
pub record Registry (F : Type 0) : Type 0 where
  pub node_count : ℕ
  pub cells : List (Node F)
  pub allocated : ℕ
  pub file : Option Bytes
  pub requests : List DbRequest

-- for (i = 0; i < node_count; i++) if (newLoRa[i].id == id): the first index with that id.
unfoldable pub index_of : {F : Type 0} → ℕ → List (Node F) → ℕ → Option ℕ
index_of zero cells id = none
index_of (suc n) [] id = none
index_of (suc n) (c ∷ cells) id =
    if c.id == id then some 0 else Option.map (λ i. suc i) (index_of n cells id)

-- The same over the whole list: `none` where it looks for the id behind the last cell.
unfoldable pub search : {F : Type 0} → Registry F → ℕ → Option (Option ℕ)
search r id = elim (index_of r.node_count r.cells id) [
  | some i ↦ some (some i)
  | none ↦ if leb r.node_count (length r.cells) then some none else none
]

-- sprintf(one_node, "%d ", id) into eleven bytes, its terminator included.
unfoldable pub one_node : ℕ → Option Bytes
one_node id =
    let text : Bytes = print_int id ++ (32 ∷ []) in if ltb (length text) 11 then some text else none

-- The loop that writes each node's text.
unfoldable pub node_texts : {F : Type 0} → ℕ → List (Node F) → Option Bytes
node_texts zero cells = some []
node_texts (suc n) [] = none
node_texts (suc n) (c ∷ cells) = elim (one_node c.id) [
  | none ↦ none
  | some text ↦ Option.map (λ rest. text ++ rest) (node_texts n cells)
]

unfoldable pub sync_list_to_file : {F : Type 0} → Registry F → Option (Registry F)
sync_list_to_file r = elim r.file [
  | none ↦ some r
  | some old ↦
      if ltb 0 r.node_count
      then Option.map (λ text. record r { file = some text }) (node_texts r.node_count r.cells)
      else some (record r { file = some [] })
]

-- for (j = i; j < node_count - 1; j++) newLoRa[j] = newLoRa[j + 1], with `left` rounds to go; its
-- caller sees to it that there are node_count cells.
unfoldable pub shift_down : {F : Type 0} → ℕ → ℕ → List (Node F) → List (Node F)
shift_down zero j cells = cells
shift_down (suc left) j cells = elim (get_elem? cells (j + 1)) [
  | none ↦ cells
  | some next ↦ shift_down left (j + 1) (set cells j next)
]

abbrev with_result : {F : Type 0} → Bool → Option (Registry F) → Option (Registry F × Bool)
with_result ok r = Option.map (λ r'. (r', ok)) r

module _ (env : Platform) where
  open env use {Float, stale, past_file}

  unfoldable pub add_device : Registry Float → ℕ → Option (Registry Float × Bool)
  add_device r new_id =
      if r.node_count == 0
      then (let node = lora_init env (zero_node env) new_id in
          with_result true (
            sync_list_to_file (record r {
              node_count = 1;
              cells = node ∷ [];
              allocated = node_size;
              requests = r.requests ++ (db_add_node env node ∷ []);
            })))
      else search r new_id >>= λ found. elim found [
        | some i ↦ some (r, false)
        | none ↦
            (let node = lora_init env (stale r.node_count) new_id in
              with_result true (
                sync_list_to_file (record r {
                  node_count = u32 (r.node_count + 1);
                  cells = r.cells ++ (node ∷ []);
                  allocated = u32 (r.node_count + 1) * node_size;
                  requests = r.requests ++ (db_add_node env node ∷ []);
                })))
      ]

  -- realloc is asked for node_count * sizeof(uint32_t) bytes, and the cells that do not fit in them are
  -- given back.
  unfoldable pub remove_device : Registry Float → ℕ → Option (Registry Float × Bool)
  remove_device r device_id = search r device_id >>= λ found. elim found [
    | none ↦ some (r, false)
    | some i ↦ get_elem? r.cells i >>= λ node.
        if leb r.node_count (length r.cells)
        then with_result true (
            sync_list_to_file (record r {
              node_count = r.node_count - 1;
              cells =
                  take ((r.node_count - 1) * 4 / node_size)
                    (take (r.node_count - 1) (shift_down (r.node_count - 1 - i) i r.cells));
              allocated = (r.node_count - 1) * 4;
              requests = r.requests ++ (db_remove_node env node ∷ []);
            }))
        else none
  ]

  unfoldable pub add_all : Registry Float → List Bytes → Option (Registry Float)
  add_all r [] = some r
  add_all r (token ∷ rest) = elim (add_device r (atoi token)) [
    | none ↦ none
    | some (r', ok) ↦ add_all r' rest
  ]

  -- The buffer has no terminator of its own: strtok reads on into the memory behind it.
  unfoldable pub setup_node : Registry Float → Option (Registry Float)
  unfolding add_all
  setup_node r = elim r.file [
    | none ↦ some r
    | some content ↦
        if ltb 0 (length content) then add_all r (tokens (content ++ past_file)) else some r
  ]

-- What the list promises: node_count counts the cells, no two of which have one id.
abbrev pub ids : {F : Type 0} → List (Node F) → List ℕ
ids [] = []
ids (c ∷ cells) = c.id ∷ ids cells
