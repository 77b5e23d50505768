-- ===== src/Gateway/Sender.antt =====
-- Looking for a response's sender with an index that is a uint8_t: index_of_u8.
use gateway_v.Base.{
  ℕ, zero, suc, ◌+◌, ◌≤◌, ◌<◌, ◌≡◌, refl, ap, ◌∙◌, false, none, some, List, [], ◌∷◌, arith, ◌==◌,
  length, drop, get_elem?, get_elem?-of-lt, Bool-cases, Option-cases, inl, inr,
}
use gateway_v.Base.Word.{u8}
use gateway_v.Node.{Node}
use gateway_v.Registry.{Registry, index_of}
use gateway_v.Gateway.Response.{find_u8, index_of_u8}

drop-get_elem? :
    {A : Type 0} (i : ℕ) (l : List A) (x : A)
    → get_elem? l i ≡ some x
    → drop i l ≡ x ∷ drop (suc i) l
drop-get_elem? zero [] x h = cc
drop-get_elem? zero (y ∷ l) x h = cc
drop-get_elem? (suc i) [] x h = cc
drop-get_elem? (suc i) (y ∷ l) x h = drop-get_elem? i l x h

drop-at :
    {A : Type 0} (i : ℕ) (l : List A) (x : A)
    → get_elem? l i ≡ some x
    → drop i l ≡ x ∷ drop (i + 1) l
drop-at i l x h =
    let next : suc i ≡ i + 1 = omega arith in drop-get_elem? i l x h ∙ ap (λ k. x ∷ drop k l) next

module _ {F : Type 0} where
  index_of-lt : (n : ℕ) (cells : List (Node F)) (x k : ℕ) → index_of n cells x ≡ some k → 0 < n
  unfolding index_of
  index_of-lt zero cells x k h = cc
  index_of-lt (suc n) cells x k h = omega arith

  -- From an index of the list on, over nodes that all have their cells.
  find_u8-found :
      (left rounds i : ℕ) (r : Registry F) (x k : ℕ)
      → r.node_count ≡ length r.cells
      → r.node_count ≤ 256
      → i + left ≡ r.node_count
      → left < rounds
      → index_of left (drop i r.cells) x ≡ some k
      → find_u8 rounds i r x ≡ some (some (i + k))
  unfolding find_u8 index_of
  find_u8-found zero rounds i r x k n few here fuel e = cc
  find_u8-found (suc left) zero i r x k n few here fuel e = absurd (omega arith)
  find_u8-found (suc left) (suc rounds) i r x k n few here fuel e =
      let (node, got) = get_elem?-of-lt r.cells i (omega arith) in
      let opened = drop-at i r.cells node got in
      elim (Bool-cases (node.id == x)) [
        | inl hit ↦ ground (arith, got, opened)
        | inr miss ↦ elim (Option-cases (index_of left (drop (i + 1) r.cells) x)) [
          | inl missing ↦ absurd (ground (arith, opened))
          | inr (j, found) ↦
              let more = index_of-lt left (drop (i + 1) r.cells) x j found in
              let next : u8 (i + 1) ≡ i + 1 = omega arith in
              let later =
                find_u8-found left rounds (i + 1) r x j n few (omega arith) (omega arith) found in
              ground (arith, got, opened, next, later)
        ]
      ]

  find_u8-missing :
      (left rounds i : ℕ) (r : Registry F) (x : ℕ)
      → r.node_count ≡ length r.cells
      → r.node_count ≤ 255
      → i + left ≡ r.node_count
      → left < rounds
      → index_of left (drop i r.cells) x ≡ none
      → find_u8 rounds i r x ≡ some none
  unfolding find_u8 index_of
  find_u8-missing zero zero i r x n few here fuel e = absurd (omega arith)
  find_u8-missing zero (suc rounds) i r x n few here fuel e = ground arith
  find_u8-missing (suc left) zero i r x n few here fuel e = absurd (omega arith)
  find_u8-missing (suc left) (suc rounds) i r x n few here fuel e =
      let (node, got) = get_elem?-of-lt r.cells i (omega arith) in
      let opened = drop-at i r.cells node got in
      elim (Bool-cases (node.id == x)) [
        | inl hit ↦ absurd (ground (arith, opened))
        | inr miss ↦ elim (Option-cases (index_of left (drop (i + 1) r.cells) x)) [
          | inl missing ↦
              let next : u8 (i + 1) ≡ i + 1 = omega arith in
              let later =
                find_u8-missing left rounds (i + 1) r x n few (omega arith) (omega arith) missing in
              ground (arith, got, opened, next, later)
          | inr (j, found) ↦ absurd (ground (arith, opened))
        ]
      ]

  pub index_of_u8-found :
      (r : Registry F) (x i : ℕ)
      → r.node_count ≡ length r.cells
      → r.node_count ≤ 256
      → index_of r.node_count r.cells x ≡ some i
      → index_of_u8 r x ≡ some (some i)
  unfolding index_of_u8
  index_of_u8-found r x i n few e =
      let found = find_u8-found r.node_count 257 0 r x i n few (omega arith) (omega arith) e in
      let zero_plus : 0 + i ≡ i = omega arith in cc

  pub index_of_u8-missing :
      (r : Registry F) (x : ℕ)
      → r.node_count ≡ length r.cells
      → r.node_count ≤ 255
      → index_of r.node_count r.cells x ≡ none
      → index_of_u8 r x ≡ some none
  unfolding index_of_u8
  index_of_u8-missing r x n few e =
      find_u8-missing r.node_count 257 0 r x n few (omega arith) (omega arith) e

  index_of-passes :
      (n i : ℕ) (cells : List (Node F)) (x : ℕ) (node : Node F)
      → index_of n cells x ≡ none
      → i < n
      → get_elem? cells i ≡ some node
      → (node.id == x) ≡ false
  unfolding index_of
  index_of-passes zero i cells x node e h got = absurd (omega arith)
  index_of-passes (suc n) i [] x node e h got = cc
  index_of-passes (suc n) zero (c ∷ cells) x node e h got = ground arith
  index_of-passes (suc n) (suc i) (c ∷ cells) x node e h got =
      elim (Option-cases (index_of n cells x)) [
        | inl missing ↦ index_of-passes n i cells x node missing (omega arith) got
        | inr (j, found) ↦ absurd (ground arith)
      ]

  -- However many rounds it gets, the loop over more than 255 nodes does not end.
  pub find_u8-endless :
      (rounds i : ℕ) (r : Registry F) (x : ℕ)
      → r.node_count ≡ length r.cells
      → 255 < r.node_count
      → i < 256
      → index_of 256 r.cells x ≡ none
      → find_u8 rounds i r x ≡ none
  unfolding find_u8
  find_u8-endless zero i r x n many h e = refl
  find_u8-endless (suc rounds) i r x n many h e =
      let (node, got) = get_elem?-of-lt r.cells i (omega arith) in
      let passes = index_of-passes 256 i r.cells x node e h got in
      let later = find_u8-endless rounds (u8 (i + 1)) r x n many (omega arith) e in
      ground (arith, got, passes, later)
