-- ===== src/Packet/Copy.antt =====
-- The copy loop of format_pkt and handler_rx_data: what it stores, and when it leaves its arrays.
use gateway_v.Base.{
  ℕ, zero, suc, ◌+◌, ◌-◌, ◌≤◌, ◌<◌, ◌≡◌, refl, ap, ◌∙◌, none, some, [], ◌∷◌, ◌++◌, arith, length,
  get_elem?, set, take, drop, length-set, Option-cases, inl, inr, replicate, length-append,
}
use mathlib.Core.List.{append_assoc}
use gateway_v.Text.{Bytes}
use gateway_v.Packet.{copy_loop}

get_elem?-append :
    (pre s : Bytes) (x n : ℕ) → length pre ≡ n → get_elem? (pre ++ (x ∷ s)) n ≡ some x
get_elem?-append [] s x zero e = refl
get_elem?-append [] s x (suc n) e = absurd (omega arith)
get_elem?-append (y ∷ pre) s x zero e = absurd (omega arith)
get_elem?-append (y ∷ pre) s x (suc n) e = get_elem?-append pre s x n (omega arith)

set-append :
    (pre s : Bytes) (x y n : ℕ) → length pre ≡ n → set (pre ++ (y ∷ s)) n x ≡ pre ++ (x ∷ s)
set-append [] s x y zero e = refl
set-append [] s x y (suc n) e = absurd (omega arith)
set-append (z ∷ pre) s x y zero e = absurd (omega arith)
set-append (z ∷ pre) s x y (suc n) e = ap (λ l. z ∷ l) (set-append pre s x y n (omega arith))

-- Within both arrays the loop replaces the next `n` bytes of `dst` by those of `src`.
pub copy_loop-take :
    (n i : ℕ) (spre s dpre d : Bytes) (src_off dst_off : ℕ)
    → length spre ≡ src_off + i
    → length dpre ≡ dst_off + i
    → n ≤ length s
    → n ≤ length d
    → copy_loop n i (spre ++ s) src_off (dpre ++ d) dst_off ≡ some (dpre ++ (take n s ++ drop n d))
unfolding copy_loop
copy_loop-take zero i spre s dpre d so do' es ed hs hd = refl
copy_loop-take (suc n) i spre [] dpre d so do' es ed hs hd = absurd (omega arith)
copy_loop-take (suc n) i spre (x ∷ s) dpre [] so do' es ed hs hd = absurd (omega arith)
copy_loop-take (suc n) i spre (x ∷ s) dpre (y ∷ d) so do' es ed hs hd =
    let later =
      copy_loop-take n (i + 1) (spre ++ (x ∷ [])) s (dpre ++ (x ∷ [])) d so do'
        (omega (arith, length-append spre (x ∷ []))) (omega (arith, length-append dpre (x ∷ [])))
        (omega arith) (omega arith) in
    ground (
      arith,
      later,
      get_elem?-append spre s x (so + i) es,
      set-append dpre d x y (do' + i) ed,
      length-append dpre (y ∷ d),
      append_assoc spre (x ∷ []) s,
      append_assoc dpre (x ∷ []) d,
      append_assoc dpre (x ∷ []) (take n s ++ drop n d),
    )

-- A loop that runs past the end of its destination is out of bounds.
pub copy_loop-overrun :
    (n i : ℕ) (src dst : Bytes) (src_off dst_off : ℕ)
    → dst_off + i ≤ length dst
    → length dst < dst_off + i + n
    → copy_loop n i src src_off dst dst_off ≡ none
unfolding copy_loop
copy_loop-overrun zero i src dst so do' h k = absurd (omega arith)
copy_loop-overrun (suc n) i src dst so do' h k = elim (Option-cases (get_elem? src (so + i))) [
  | inl e ↦ rw (e, copy_loop) refl
  | inr (x, e) ↦
      rw (e, copy_loop)
        (ground (
          arith,
          copy_loop-overrun n (i + 1) src (set dst (do' + i) x) so do',
          length-set dst (do' + i) x,
        ))
]

pub drop-replicate : (n k x : ℕ) → drop n (replicate k x) ≡ replicate (k - n) x
drop-replicate zero k x = let e : k ≡ k - 0 = omega arith in ap (λ m. replicate m x) e
drop-replicate (suc n) zero x = let e : 0 ≡ 0 - suc n = omega arith in ap (λ m. replicate m x) e
drop-replicate (suc n) (suc k) x =
    let e : k - n ≡ suc k - suc n = omega arith in drop-replicate n k x ∙ ap (λ m. replicate m x) e

pub take-append-drop : (n : ℕ) (xs : Bytes) → take n xs ++ drop n xs ≡ xs
take-append-drop zero xs = refl
take-append-drop (suc n) [] = refl
take-append-drop (suc n) (x ∷ xs) = rw (take-append-drop n xs)
