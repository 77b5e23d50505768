-- ===== src/Registry/Search.antt =====
-- The search loop of main.c over the nodes, and the invariant of the list.
use gateway_v.Base.{
  ℕ, suc, ◌<◌, ◌^◌, ◌≡◌, refl, ◌≢◌, sym, ap, Bool, true, false, none, some, List, [], ◌∷◌, ◌++◌,
  arith, ◌==◌, ◌||◌, length, get_elem?, All, Bool-cases, inl, inr,
}
use gateway_v.Node.{Node}
use gateway_v.Registry.{Registry, index_of, search, ids}

abbrev pub Distinct : List ℕ → Type 0
Distinct [] = Unit
Distinct (x ∷ l) = All (λ y. y ≢ x) l × Distinct l

pub record IsValid {F : Type 0} (r : Registry F) : Type 0 where
  pub counted : r.node_count ≡ length r.cells
  pub small : r.node_count < 2 ^ 32
  pub distinct : Distinct (ids r.cells)

-- The abstract view of the list: ids in order, with membership.
unfoldable pub contains : List ℕ → ℕ → Bool
contains [] x = false
contains (y ∷ l) x = y == x || contains l x

module _ {F : Type 0} where
  pub length-ids : (cells : List (Node F)) → length (ids cells) ≡ length cells
  length-ids [] = refl
  length-ids (c ∷ cells) = ap suc (length-ids cells)

  pub ids-append : (a b : List (Node F)) → ids (a ++ b) ≡ ids a ++ ids b
  ids-append [] b = refl
  ids-append (c ∷ a) b = ap (λ l. c.id ∷ l) (ids-append a b)

  pub index_of-eq-none :
      (cells : List (Node F)) (id : ℕ)
      → contains (ids cells) id ≡ false
      → index_of (length cells) cells id ≡ none
  unfolding contains index_of
  index_of-eq-none [] id h = refl
  index_of-eq-none (c ∷ cells) id h = ground (arith, index_of-eq-none cells id)

  -- A found index is in range and names a node with the id.
  pub index_of-found :
      (cells : List (Node F)) (id : ℕ)
      → contains (ids cells) id ≡ true
      → (i : ℕ) × (node : Node F) × (index_of (length cells) cells id ≡ some i)
        × (get_elem? cells i ≡ some node)
        × (node.id ≡ id)
        × (i < length cells)
  unfolding contains index_of
  index_of-found [] id h = cc
  index_of-found (c ∷ cells) id h = elim (Bool-cases (c.id == id)) [
    | inl e ↦ (0, c, ground arith, refl, ground arith, omega arith)
    | inr e ↦
        let (i, node, found, got, named, below) = index_of-found cells id (ground arith) in
        (suc i, node, ground (arith, found), got, named, omega arith)
  ]

module _ {F : Type 0} where
  -- The search over a valid list.
  pub search-missing :
      (r : Registry F) (id : ℕ)
      → IsValid r
      → contains (ids r.cells) id ≡ false
      → search r id ≡ some none
  unfolding search
  search-missing r id v fresh =
      let missing : index_of r.node_count r.cells id ≡ none =
        rw (v.counted) (index_of-eq-none r.cells id fresh) in
      ground (arith, v.counted, missing)

  pub search-found :
      (r : Registry F) (id i : ℕ)
      → IsValid r
      → index_of (length r.cells) r.cells id ≡ some i
      → search r id ≡ some (some i)
  unfolding search
  search-found r id i v found =
      let here : index_of r.node_count r.cells id ≡ some i = rw (v.counted) found in ground arith

pub All-of-contains : (l : List ℕ) (x : ℕ) → contains l x ≡ false → All (λ y. y ≢ x) l
unfolding contains
All-of-contains [] x h = tt
All-of-contains (y ∷ l) x h = (ground arith, All-of-contains l x (ground arith))

All-snoc : (l : List ℕ) (x y : ℕ) → All (λ z. z ≢ y) l → x ≢ y → All (λ z. z ≢ y) (l ++ (x ∷ []))
All-snoc [] x y h n = (n, tt)
All-snoc (z ∷ l) x y h n = (h.0, All-snoc l x y h.1 n)

pub Distinct-snoc :
    (l : List ℕ) (x : ℕ) → Distinct l → All (λ y. y ≢ x) l → Distinct (l ++ (x ∷ []))
Distinct-snoc [] x d h = (tt, tt)
Distinct-snoc (y ∷ l) x d h = (All-snoc l x y d.0 (λ e. h.0 (sym e)), Distinct-snoc l x d.1 h.1)
