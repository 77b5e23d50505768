-- ===== src/Registry/Setup.antt =====
-- setup_node rebuilds the list from the file that sync_list_to_file wrote.
use gateway_v.Base.{
  ℕ, ◌+◌, ◌<◌, ◌^◌, ◌≡◌, refl, ◌≢◌, ap, sym, ◌∙◌, true, false, Option, none, some, List, [], ◌∷◌,
  ◌++◌, map, arith, length, All, length-append,
}
use mathlib.Core.Option
use mathlib.Core.List.{append_assoc, append-nil}
use gateway_v.Base.Word.{IsU32}
use gateway_v.Text.{Bytes, print_int, atoi, tokens}
use gateway_v.Text.Decimal.{atoi-print_int, print_int-IsPlain, print_int-ne-nil}
use gateway_v.Text.Tokens.{spaced, IsToken, tokens-spaced}
use gateway_v.Node.{Platform}
use gateway_v.Registry.{Registry, ids, add_device, add_all, setup_node}
use gateway_v.Registry.Search.{IsValid, Distinct, contains}
use gateway_v.Registry.File.{IsPrintable, file_text}
use gateway_v.Registry.Add.{added, ids-added, added-IsValid, add_device-new}

Distinct-contains : (a l : List ℕ) (x : ℕ) → Distinct (a ++ (x ∷ l)) → contains a x ≡ false
unfolding contains
Distinct-contains [] l x h = refl
Distinct-contains (y ∷ a) l x h = ground (arith, Distinct-contains a l x h.1, All-middle a h.0)
  where
    All-middle : (b : List ℕ) → All (λ z. z ≢ y) (b ++ (x ∷ l)) → x ≢ y
    All-middle [] g = g.0
    All-middle (z ∷ b) g = All-middle b g.1

All-prefix {κ} :
    (P : ℕ → Type κ) (a l : List ℕ) (x : ℕ) → All P (a ++ (x ∷ l)) → All P (a ++ (x ∷ []))
All-prefix P [] l x h = (h.0, tt)
All-prefix P (y ∷ a) l x h = (h.0, All-prefix P a l x h.1)

module _ (env : Platform) where
  open env use {Float, past_file}

  -- The file after the tokens of l were added.
  abbrev file_after : Registry Float → List ℕ → Option Bytes
  file_after r [] = r.file
  file_after r (x ∷ l) = Option.map (λ _. file_text (ids r.cells ++ (x ∷ l))) r.file

  record IsLoaded (r : Registry Float) (l : List ℕ) (call : Option (Registry Float)) : Type 0 where
    after : Registry Float
    returns : call ≡ some after
    same_ids : ids after.cells ≡ ids r.cells ++ l
    valid : IsValid after
    file : after.file ≡ file_after r l

  map-map :
      (f g : Bytes → Bytes) (o : Option Bytes)
      → Option.map f (Option.map g o) ≡ Option.map (λ x. f (g x)) o
  map-map f g none = refl
  map-map f g (some x) = refl

  ids-then :
      (r : Registry Float) (x : ℕ) (l : List ℕ)
      → ids (added env r x).cells ++ l ≡ ids r.cells ++ (x ∷ l)
  ids-then r x l = rw (ids-added env r x) (append_assoc (ids r.cells) (x ∷ []) l)

  file_after-added :
      (r : Registry Float) (x : ℕ) (l : List ℕ)
      → file_after (added env r x) l ≡ file_after r (x ∷ l)
  file_after-added r x [] = refl
  file_after-added r x (y ∷ l) =
      map-map _ _ r.file ∙ ap (λ t. Option.map (λ _. file_text t) r.file) (ids-then r x (y ∷ l))

  add_all-IsLoaded :
      (l : List ℕ) (r : Registry Float)
      → IsValid r
      → Distinct (ids r.cells ++ l)
      → All IsPrintable (ids r.cells ++ l)
      → All IsU32 l
      → r.node_count + length l < 2 ^ 32
      → IsLoaded r l (add_all env r (map print_int l))
  unfolding add_all
  add_all-IsLoaded [] r v d p u small = record {
    after = r;
    returns = refl;
    same_ids = sym (append-nil (ids r.cells));
    valid = v;
    file = refl;
  }
  add_all-IsLoaded (x ∷ l) r v d p u small =
      let fresh = Distinct-contains (ids r.cells) l x d in
      let step : add_device env r (atoi (print_int x)) ≡ some (added env r x, true) =
        rw (atoi-print_int x u.0) (
          add_device-new env r x v (omega arith) (All-prefix IsPrintable (ids r.cells) l x p)
            fresh) in
      let rest =
        add_all-IsLoaded l (added env r x) (added-IsValid env r x v (omega arith) fresh)
          (rw (ids-then r x l) d) (rw (ids-then r x l) p) u.1 (omega arith) in
      rw (step, add_all)
        (record {
          after = rest.after;
          returns = rest.returns;
          same_ids = rest.same_ids ∙ ids-then r x l;
          valid = rest.valid;
          file = rest.file ∙ file_after-added r x l;
        })

  file_text-spaced : (l : List ℕ) → file_text l ≡ spaced (map print_int l)
  file_text-spaced [] = refl
  file_text-spaced (x ∷ l) = ap (λ t. print_int x ++ (32 ∷ t)) (file_text-spaced l)

  ids-IsToken : (l : List ℕ) → All IsToken (map print_int l)
  ids-IsToken [] = tt
  ids-IsToken (x ∷ l) = ((print_int-ne-nil x, print_int-IsPlain x), ids-IsToken l)

  -- Started with no node and a file that lists distinct ids, each followed by a space, with a zero
  -- byte behind the buffer it is read into: setup_node leaves a valid list of those ids in that order,
  -- and the file as it was.
  pub setup_node-file_text :
      (l : List ℕ) (r : Registry Float) (past : Bytes)
      → r.node_count ≡ 0
      → r.cells ≡ []
      → r.file ≡ some (file_text l)
      → past_file ≡ 0 ∷ past
      → Distinct l
      → All IsPrintable l
      → All IsU32 l
      → length l < 2 ^ 32
      → (r' : Registry Float) × (setup_node env r ≡ some r')
        × (ids r'.cells ≡ l)
        × IsValid r'
        × (r'.file ≡ r.file)
  unfolding setup_node
  setup_node-file_text [] r past e0 e1 ef ep d p u small = (
    r,
    ground arith,
    rw e1 refl,
    record { counted = rw (e0, e1) refl; small = omega arith; distinct = rw e1 tt },
    refl,
  )
  setup_node-file_text (x ∷ l) r past e0 e1 ef ep d p u small =
      let start : IsValid r = record {
        counted = rw (e0, e1) refl;
        small = omega arith;
        distinct = rw e1 tt;
      } in
      let loaded = add_all-IsLoaded (x ∷ l) r start (rw e1 d) (rw e1 p) u (omega arith) in
      let all_ids : ids loaded.after.cells ≡ x ∷ l = rw (loaded.same_ids, e1) refl in
      let read : tokens (file_text (x ∷ l) ++ past_file) ≡ map print_int (x ∷ l) =
        rw (ep, file_text-spaced (x ∷ l))
          (tokens-spaced (map print_int (x ∷ l)) past (ids-IsToken (x ∷ l))) in
      let long : 0 < length (file_text (x ∷ l)) =
        omega (arith, length-append (print_int x) (32 ∷ file_text l)) in
      (
        loaded.after,
        ground (arith, loaded.returns, read, long),
        all_ids,
        loaded.valid,
        rw (loaded.file, e1, ef) refl,
      )
