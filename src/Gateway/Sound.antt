-- ===== src/Gateway/Sound.antt =====
-- Lists of nodes that are sound, requests that fit, and calls that keep a list sound.
use gateway_v.Base.{
  ℕ, zero, suc, ◌+◌, ◌<◌, ◌^◌, ◌≡◌, refl, ◌≢◌, ◌⊎◌, true, false, ◌==◌, if◌then◌else◌, ap, sym, ◌∙◌,
  Option, some, List, [], ◌∷◌, length, get_elem?, set, All, All-append, Bool-cases, arith, ◌≤◌,
  length-append, length-set, inl, inr,
}
use gateway_v.Base.Word.{IsU32}
use gateway_v.Packet.{data_size}
use gateway_v.Node.{Node, add_device_cmd, remove_device_cmd}
use gateway_v.Registry.{Registry, ids, search}
use gateway_v.Registry.Search.{IsValid, contains}
use gateway_v.Registry.File.{IsPrintable}
use gateway_v.Registry.Spec.{insert_id, remove_id}
use gateway_v.Gateway.State.{World}
use gateway_v.Gateway.Request.{times_text}

module _ {F : Type 0} where
  pub ids-set :
      (cells : List (Node F)) (i : ℕ) (node node' : Node F)
      → get_elem? cells i ≡ some node
      → node'.id ≡ node.id
      → ids (set cells i node') ≡ ids cells
  ids-set [] i node node' e n = refl
  ids-set (c ∷ cells) zero node node' e n =
      let same : c ≡ node = cc in ap (λ x. x ∷ ids cells) (n ∙ ap (λ (o : Node F). o.id) (sym same))
  ids-set (c ∷ cells) (suc i) node node' e n = ap (λ l. c.id ∷ l) (ids-set cells i node node' e n)

-- A list of nodes that is valid, with ids that are uint32_t and whose texts fit the file's buffer.
pub record IsSound {F : Type 0} (r : Registry F) : Type 0 where
  pub valid : IsValid r
  pub printable : All IsPrintable (ids r.cells)
  pub words : All IsU32 (ids r.cells)

-- A request that takes no node out from among several: other than that it may be any.
abbrev pub IsSafe : {F : Type 0} → World F → Type 0
IsSafe w =
    (w.command.request ≢ remove_device_cmd)
    ⊎ (contains (ids w.registry.cells) w.command.id_to_handler ≡ false)
    ⊎ (w.registry.node_count ≡ 1)

-- What a request may carry: an id in range whose text fits, room in the list, times that fit the data
-- field of a packet, and a client process that answers.
pub record IsReady {F : Type 0} (w : World F) : Type 0 where
  pub sound : IsSound w.registry
  pub id_printable : IsPrintable w.command.id_to_handler
  pub id_word : IsU32 w.command.id_to_handler
  pub room : w.registry.node_count + 1 < 2 ^ 32
  pub times_fit : length (times_text w.command.user_set) < data_size
  pub safe : IsSafe w
  pub answers : w.answers ≡ true

-- What a request leaves alone: the loop's index, the poll, the posted id and times, what came from
-- the radio, and whether the client process answers.
abbrev pub Kept : {F : Type 0} → World F → World F → Type 0
Kept w w' =
    (w'.index ≡ w.index)
    × (w'.handling ≡ w.handling)
    × (w'.command.id_to_handler ≡ w.command.id_to_handler)
    × (w'.command.user_set ≡ w.command.user_set)
    × (w'.rx_content ≡ w.rx_content)
    × (w'.blocked ≡ w.blocked)
    × (w'.answers ≡ w.answers)

pub kept : {F : Type 0} (w : World F) → Kept w w
kept w = (refl, refl, refl, refl, refl, refl, refl)

pub Kept-trans : {F : Type 0} (a b c : World F) → Kept b c → Kept a b → Kept a c
Kept-trans a b c k h = (k.0 ∙ h.0, k.1 ∙ h.1, k.2 ∙ h.2, k.3 ∙ h.3, k.4 ∙ h.4, k.5 ∙ h.5, k.6 ∙ h.6)

-- The ids that a request leaves of a list of ids.
abbrev pub requested : ℕ → ℕ → List ℕ → List ℕ
requested request id l =
    if request == add_device_cmd
    then (insert_id id l).0
    else if request == remove_device_cmd
    then (remove_id id l).0
    else l

-- A call that returned with a sound list of the expected ids, at most one more than before.
pub record IsServed {F : Type 0} (w : World F) (expected : List ℕ) (call : Option (World F))
    : Type 0 where
  pub after : World F
  pub returns : call ≡ some after
  pub sound : IsSound after.registry
  pub lists : ids after.registry.cells ≡ expected
  pub grows : after.registry.node_count ≤ suc w.registry.node_count
  pub same : Kept w after

pub length-insert_id : (l : List ℕ) (x : ℕ) → length (insert_id x l).0 ≤ suc (length l)
length-insert_id l x = elim (Bool-cases (contains l x)) [
  | inl e ↦ rw e (omega arith)
  | inr e ↦ rw e (omega (arith, length-append l (x ∷ [])))
]

pub All-insert_id {κ} :
    (P : ℕ → Type κ) (l : List ℕ) (x : ℕ) → All P l → P x → All P (insert_id x l).0
All-insert_id P l x h hx = elim (Bool-cases (contains l x)) [
  | inl e ↦ rw e h
  | inr e ↦ rw e (All-append P l (x ∷ []) h (hx, tt))
]

-- A node of a sound list is written over, its id aside.
pub set-IsSound :
    {F : Type 0} (r : Registry F) (i : ℕ) (node node' : Node F)
    → IsSound r
    → get_elem? r.cells i ≡ some node
    → node'.id ≡ node.id
    → IsSound (record r { cells = set r.cells i node' })
set-IsSound r i node node' s got named =
    let same = ids-set r.cells i node node' got named in
    record {
      valid = record {
        counted = omega (arith, s.valid.counted, length-set r.cells i node');
        small = s.valid.small;
        distinct = rw same (s.valid.distinct);
      };
      printable = rw same (s.printable);
      words = rw same (s.words);
    }

-- The node that the command names.
pub record IsNamed {F : Type 0} (w : World F) : Type 0 where
  pub i : ℕ
  pub node : Node F
  pub found : search w.registry w.command.id_to_handler ≡ some (some i)
  pub got : get_elem? w.registry.cells i ≡ some node
