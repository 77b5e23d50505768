-- ===== src/Registry/Shift.antt =====
-- Shifting the array down over a node, and the ids that this leaves.
use gateway_v.Base.{
  ℕ, zero, suc, ◌+◌, ◌-◌, ◌≡◌, refl, ◌≢◌, ap, true, some, List, [], ◌∷◌, ◌++◌, arith, ◌==◌,
  if◌then◌else◌, length, get_elem?, set, take, All, Bool-cases, inl, inr, Option-cases,
  length-append, take-append,
}
use mathlib.Core.List.{append_assoc, append-nil}
use gateway_v.Node.{Node}
use gateway_v.Registry.{ids, index_of, shift_down}
use gateway_v.Registry.Search.{Distinct, contains}
use gateway_v.Registry.Spec.{remove_first}

module _ {F : Type 0} where
  pub get_elem?-at :
      (pre s : List (Node F)) (x : Node F) (n : ℕ)
      → length pre ≡ n
      → get_elem? (pre ++ (x ∷ s)) n ≡ some x
  get_elem?-at [] s x zero e = refl
  get_elem?-at [] s x (suc n) e = absurd (omega arith)
  get_elem?-at (y ∷ pre) s x zero e = absurd (omega arith)
  get_elem?-at (y ∷ pre) s x (suc n) e = get_elem?-at pre s x n (omega arith)

  pub set-at :
      (pre s : List (Node F)) (x y : Node F) (n : ℕ)
      → length pre ≡ n
      → set (pre ++ (y ∷ s)) n x ≡ pre ++ (x ∷ s)
  set-at [] s x y zero e = refl
  set-at [] s x y (suc n) e = absurd (omega arith)
  set-at (z ∷ pre) s x y zero e = absurd (omega arith)
  set-at (z ∷ pre) s x y (suc n) e = ap (λ l. z ∷ l) (set-at pre s x y n (omega arith))

  -- The shift loop overwrites the cell at j by those behind it.
  pub shift_down-drop :
      (s pre : List (Node F)) (x : Node F) (j n : ℕ)
      → length pre ≡ j
      → n ≡ length pre + length s
      → take n (shift_down (length s) j (pre ++ (x ∷ s))) ≡ pre ++ s
  unfolding shift_down
  shift_down-drop [] pre x j n e h = rw (append-nil pre) (take-append n pre (x ∷ []) (omega arith))
  shift_down-drop (y ∷ s) pre x j n e h =
      let later =
        shift_down-drop s (pre ++ (y ∷ [])) y (j + 1) n (omega (arith, length-append pre (y ∷ [])))
          (omega (arith, length-append pre (y ∷ []))) in
      ground (
        arith,
        later,
        get_elem?-at (pre ++ (x ∷ [])) s y (j + 1) (omega (arith, length-append pre (x ∷ []))),
        set-at pre (y ∷ s) y x j e,
        append_assoc pre (x ∷ []) (y ∷ s),
        append_assoc pre (y ∷ []) (y ∷ s),
        append_assoc pre (y ∷ []) s,
      )

  unfoldable pub drop_node : ℕ → List (Node F) → List (Node F)
  drop_node x [] = []
  drop_node x (c ∷ cells) = if c.id == x then cells else c ∷ drop_node x cells

  -- The index is that of the first node with the id, so the loop takes that node out.
  pub shift_down-index_of :
      (s pre : List (Node F)) (x i : ℕ)
      → index_of (length s) s x ≡ some i
      → (n : ℕ) → n ≡ length pre + length s - 1
      → take n (shift_down (length s - 1 - i) (length pre + i) (pre ++ s)) ≡ pre ++ drop_node x s
  unfolding index_of drop_node
  shift_down-index_of [] pre x i h n e = cc
  shift_down-index_of (c ∷ s) pre x i h n e = elim (Bool-cases (c.id == x)) [
    | inl hit ↦
        let first : i ≡ 0 = ground arith in
        ground (arith, shift_down-drop s pre c (length pre) n refl (omega arith))
    | inr miss ↦ elim (Option-cases (index_of (length s) s x)) [
      | inl missing ↦ absurd (ground arith)
      | inr (k, found) ↦
          let next : i ≡ suc k = ground arith in
          ground (
            arith,
            shift_down-index_of s (pre ++ (c ∷ [])) x k found n
                (omega (arith, length-append pre (c ∷ []))),
            length-append pre (c ∷ []),
            append_assoc pre (c ∷ []) s,
            append_assoc pre (c ∷ []) (drop_node x s),
          )
    ]
  ]

  pub ids-drop_node : (s : List (Node F)) (x : ℕ) → ids (drop_node x s) ≡ remove_first x (ids s)
  unfolding drop_node remove_first
  ids-drop_node [] x = refl
  ids-drop_node (c ∷ s) x = ground (arith, ids-drop_node s x)

pub All-remove_first {κ} :
    (P : ℕ → Type κ) (l : List ℕ) (x : ℕ) → All P l → All P (remove_first x l)
unfolding remove_first
All-remove_first P [] x h = h
All-remove_first P (y ∷ l) x h = elim (Bool-cases (y == x)) [
  | inl e ↦ rw e h.1
  | inr e ↦ rw e (h.0, All-remove_first P l x h.1)
]

pub Distinct-remove_first : (l : List ℕ) (x : ℕ) → Distinct l → Distinct (remove_first x l)
unfolding remove_first
Distinct-remove_first [] x h = h
Distinct-remove_first (y ∷ l) x h = elim (Bool-cases (y == x)) [
  | inl e ↦ rw e h.1
  | inr e ↦ rw e (All-remove_first (λ z. z ≢ y) l x h.0, Distinct-remove_first l x h.1)
]

pub length-remove_first :
    (l : List ℕ) (x : ℕ) → contains l x ≡ true → suc (length (remove_first x l)) ≡ length l
unfolding remove_first contains
length-remove_first [] x h = cc
length-remove_first (y ∷ l) x h = elim (Bool-cases (y == x)) [
  | inl e ↦ rw e refl
  | inr e ↦ rw e (ap suc (length-remove_first l x (ground arith)))
]
