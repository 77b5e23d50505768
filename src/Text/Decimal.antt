-- ===== src/Text/Decimal.antt =====
-- atoi reads back what %d prints.
use gateway_v.Base.{
  ℕ, zero, suc, ◌+◌, ◌-◌, ◌*◌, ◌/◌, ◌%◌, ◌^◌, ◌≤◌, ◌<◌, ◌≡◌, refl, ◌≢◌, [], ◌∷◌, ◌++◌, arith, ltb,
  All, All-append, Bool-cases, inl, inr, length, length-append,
}
use native.Mathlib.Nat.{pow-suc}
use gateway_v.Base.Word.{u32, IsU32}
use gateway_v.Text.{Bytes, dec_digits, print_int, scan_digits, atoi}

abbrev pub IsDigit : ℕ → Type 0
IsDigit c = (b'0' ≤ c) × (c ≤ b'9')

append-cons-ne-nil : (s : Bytes) (c : ℕ) → s ++ (c ∷ []) ≢ []
append-cons-ne-nil [] c = λ h. cc
append-cons-ne-nil (d ∷ s) c = λ h. cc

pub dec_digits-IsDigit : (f n : ℕ) → All IsDigit (dec_digits f n)
unfolding dec_digits
dec_digits-IsDigit zero n = tt
dec_digits-IsDigit (suc f) n = elim (Bool-cases (ltb n 10)) [
  | inl e ↦ rw e (ground arith)
  | inr e ↦ rw e (
      All-append IsDigit (dec_digits f (n / 10)) ((b'0' + n % 10) ∷ [])
        (dec_digits-IsDigit f (n / 10)) (omega arith))
]

scan_digits-append :
    (acc : ℕ) (xs ys : Bytes)
    → All IsDigit xs
    → scan_digits acc (xs ++ ys) ≡ scan_digits (scan_digits acc xs) ys
unfolding scan_digits
scan_digits-append acc [] ys h = refl
scan_digits-append acc (x ∷ xs) ys h =
    ground (arith, scan_digits-append (acc * 10 + (x - b'0')) xs ys)

pub scan_digits-dec_digits : (f n : ℕ) → n < 10 ^ f → scan_digits 0 (dec_digits f n) ≡ n
unfolding dec_digits scan_digits
scan_digits-dec_digits zero n h = omega arith
scan_digits-dec_digits (suc f) n h = ground (
  arith,
  pow-suc 10 f,
  scan_digits-dec_digits f (n / 10) (omega (arith, pow-suc 10 f)),
  scan_digits-append 0 (dec_digits f (n / 10)) ((b'0' + n % 10) ∷ [])
      (dec_digits-IsDigit f (n / 10)),
)

atoi-digits : (s : Bytes) → All IsDigit s → atoi s ≡ u32 (scan_digits 0 s)
unfolding atoi scan_digits
atoi-digits [] h = refl
atoi-digits (c ∷ s) h = ground arith

atoi-minus : (s : Bytes) → atoi (b'-' ∷ s) ≡ u32 (2 ^ 32 - u32 (scan_digits 0 s))
unfolding atoi
atoi-minus s = refl

-- Reading a printed int gives its 32-bit pattern back.
pub atoi-print_int : (w : ℕ) → IsU32 w → atoi (print_int w) ≡ w
unfolding print_int
atoi-print_int w h = elim (Bool-cases (ltb w (2 ^ 31))) [
  | inl e ↦
      rw (e, atoi-digits (dec_digits 10 w) (dec_digits-IsDigit 10 w))
        (omega (arith, scan_digits-dec_digits 10 w (omega arith)))
  | inr e ↦
      let high : 2 ^ 31 ≤ w = ground arith in
      rw (e, atoi-minus (dec_digits 10 (2 ^ 32 - w)))
        (omega (arith, scan_digits-dec_digits 10 (2 ^ 32 - w) (omega arith)))
]

pub length-dec_digits : (f n : ℕ) → length (dec_digits f n) ≤ f
unfolding dec_digits
length-dec_digits zero n = omega arith
length-dec_digits (suc f) n = ground (
  arith,
  length-dec_digits f (n / 10),
  length-append (dec_digits f (n / 10)) ((b'0' + n % 10) ∷ []),
)

-- An int has no more than eleven characters, its sign included.
pub length-print_int : (w : ℕ) → length (print_int w) ≤ 11
unfolding print_int
length-print_int w = ground (arith, length-dec_digits 10 w, length-dec_digits 10 (2 ^ 32 - w))

-- A character that neither ends a string nor splits one.
abbrev pub IsPlain : ℕ → Type 0
IsPlain c = (c ≢ 0) × (c ≢ 32)

All-IsPlain : (s : Bytes) → All IsDigit s → All IsPlain s
All-IsPlain [] h = tt
All-IsPlain (c ∷ s) h = ((omega arith, omega arith), All-IsPlain s h.1)

pub print_int-IsPlain : (w : ℕ) → All IsPlain (print_int w)
unfolding print_int
print_int-IsPlain w = elim (Bool-cases (ltb w (2 ^ 31))) [
  | inl e ↦ rw e (All-IsPlain (dec_digits 10 w) (dec_digits-IsDigit 10 w))
  | inr e ↦ rw e (
    (omega arith, omega arith),
    All-IsPlain (dec_digits 10 (2 ^ 32 - w)) (dec_digits-IsDigit 10 (2 ^ 32 - w)),
  )
]

dec_digits-ne-nil : (f n : ℕ) → dec_digits (suc f) n ≢ []
unfolding dec_digits
dec_digits-ne-nil f n = ground (arith, append-cons-ne-nil (dec_digits f (n / 10)) (b'0' + n % 10))

pub print_int-ne-nil : (w : ℕ) → print_int w ≢ []
unfolding print_int
print_int-ne-nil w = elim (Bool-cases (ltb w (2 ^ 31))) [
  | inl e ↦ rw e (dec_digits-ne-nil 9 w)
  | inr e ↦ rw e (λ h. cc)
]
