-- ===== src/Registry/Spec.antt =====
-- The abstract list of ids: what add_device and remove_device do to it, and the node file that shows it.
use gateway_v.Base.{ℕ, ◌≡◌, Bool, true, false, Option, List, [], ◌∷◌, ◌++◌, ◌==◌, if◌then◌else◌}
use mathlib.Core.Option
use gateway_v.Registry.{Registry, ids}
use gateway_v.Registry.Search.{IsValid, contains}
use gateway_v.Registry.File.{file_text}

abbrev pub insert_id : ℕ → List ℕ → List ℕ × Bool
insert_id x l = if contains l x then (l, false) else (l ++ (x ∷ []), true)

unfoldable pub remove_first : ℕ → List ℕ → List ℕ
remove_first x [] = []
remove_first x (y ∷ l) = if y == x then l else y ∷ remove_first x l

abbrev pub remove_id : ℕ → List ℕ → List ℕ × Bool
remove_id x l = if contains l x then (remove_first x l, true) else (l, false)

-- A call that returned the list r' and its result, where the abstract operation gives `expected`: the
-- ids and the result agree, the list is valid, and the file, if it opens, lists the new ids after a
-- change and is untouched otherwise.
pub record IsRefined {F : Type 0} (r : Registry F) (expected : List ℕ × Bool)
    (call : Option (Registry F × Bool)) : Type 0 where
  pub after : Registry F
  pub result : Bool
  pub returns : call ≡ Option.some (after, result)
  pub same_ids : (ids after.cells, result) ≡ expected
  pub valid : IsValid after
  pub file_shows :
      after.file ≡ (if result then Option.map (λ _. file_text expected.0) r.file else r.file)
