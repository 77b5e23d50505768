-- ===== src/Text/Terminated.antt =====
-- Strings in buffers: what stands in front of the first zero byte.
use Prim.Native.Nat.add
use gateway_v.Base.{
  ℕ, zero, suc, ◌+◌, ◌≡◌, refl, ap, [], ◌∷◌, ◌++◌, arith, length, take, replicate, All, ◌≢◌, ◌==◌,
  Bool-cases, inl, inr,
}
use gateway_v.Text.{Bytes, strlen, c_string}

abbrev pub IsNonzero : ℕ → Type 0
IsNonzero c = c ≢ 0

pub strlen-append : (s t : Bytes) → All IsNonzero s → strlen (s ++ t) ≡ length s + strlen t
unfolding strlen
strlen-append [] t h = omega arith
strlen-append (c ∷ s) t h = ground (arith, h.0, strlen-append s t h.1)

pub take-length-append : (s t : Bytes) (n : ℕ) → take (length s + n) (s ++ t) ≡ s ++ take n t
take-length-append [] t n = ap (λ m. take m t) (add.zero n)
take-length-append (c ∷ s) t n = rw (add.suc) (ap (λ l. c ∷ l) (take-length-append s t n))

pub c_string-append : (s t : Bytes) → All IsNonzero s → c_string (s ++ t) ≡ s ++ c_string t
unfolding c_string
c_string-append s t h = rw (strlen-append s t h) (take-length-append s t (strlen t))

strlen-zeros : (n : ℕ) → strlen (replicate n 0) ≡ 0
unfolding strlen
strlen-zeros zero = refl
strlen-zeros (suc n) = refl

pub c_string-zeros : (n : ℕ) → c_string (replicate n 0) ≡ []
unfolding c_string
c_string-zeros n = rw (strlen-zeros n)

pub length-c_string : (s : Bytes) → length (c_string s) ≡ strlen s
unfolding c_string strlen
length-c_string [] = refl
length-c_string (c ∷ s) = ground (arith, length-c_string s)

pub c_string-IsNonzero : (s : Bytes) → All IsNonzero (c_string s)
unfolding c_string strlen
c_string-IsNonzero [] = tt
c_string-IsNonzero (c ∷ s) = elim (Bool-cases (c == 0)) [
  | inl e ↦ rw e tt
  | inr e ↦ rw e (λ h. ground arith, c_string-IsNonzero s)
]
