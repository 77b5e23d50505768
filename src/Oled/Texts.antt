-- ===== src/Oled/Texts.antt =====
-- The texts about a node fit their row and are in the font.
use gateway_v.Base.{
  ℕ, zero, suc, ◌+◌, ◌/◌, ◌%◌, ◌^◌, ◌≤◌, ◌<◌, ◌≡◌, refl, arith, Bool, true, [], ◌∷◌, ◌++◌, List,
  ltb, lt→ltb, leb, ◌&&◌, length, length-append, All, All-append, Bool-cases, inl, inr,
}
use native.Mathlib.Nat.{pow-suc}
use gateway_v.Text.{Bytes, dec_digits, print_int}
use gateway_v.Text.Decimal.{IsDigit, dec_digits-IsDigit}
use gateway_v.Gateway.State.{Mode, auto, manual}
use gateway_v.Oled.Info.{
  manager_text, last_id_text, brightness_text, mode_text, manager_prefix, node_suffix,
  last_id_prefix, brightness_prefix, manager_prefix, node_suffix, last_id_prefix, brightness_prefix,
}
use gateway_v.Oled.Glyphs.{IsPrintable}

All-weaken {ℓ κ μ} :
    {A : Type ℓ} (P : A → Type κ) (Q : A → Type μ)
    → ((x : A) → P x → Q x)
    → (l : List A) → All P l
    → All Q l
All-weaken P Q f [] h = tt
All-weaken P Q f (x ∷ l) (h, hs) = (f x h, All-weaken P Q f l hs)

length-dec_digits : (f n k : ℕ) → 0 < k → n < 10 ^ k → length (dec_digits f n) ≤ k
unfolding dec_digits
length-dec_digits zero n k p h = omega arith
length-dec_digits (suc f) n zero p h = absurd (omega arith)
length-dec_digits (suc f) n (suc zero) p h = rw (lt→ltb n 10 (omega arith)) (omega arith)
length-dec_digits (suc f) n (suc (suc k)) p h = elim (Bool-cases (ltb n 10)) [
  | inl e ↦ rw e (omega arith)
  | inr e ↦ rw e (
      omega (
        arith,
        length-append (dec_digits f (n / 10)) ((b'0' + n % 10) ∷ []),
        length-dec_digits f (n / 10) (suc k) (omega arith) (omega (arith, pow-suc 10 (suc k))),
      ))
]

-- What a row of the display can show.
pub record IsLine (text : Bytes) : Type 0 where
  pub short : length text ≤ 19
  pub printable : All IsPrintable text

number-IsPrintable : (n : ℕ) → n < 2 ^ 31 → All IsPrintable (print_int n)
unfolding print_int
number-IsPrintable n h = rw (lt→ltb n (2 ^ 31) h) (
    All-weaken IsDigit IsPrintable (λ c (l, u). (omega arith, omega arith)) (dec_digits 10 n)
      (dec_digits-IsDigit 10 n))

length-print_int : (n k : ℕ) → 0 < k → n < 10 ^ k → n < 2 ^ 31 → length (print_int n) ≤ k
unfolding print_int
length-print_int n k p l h = rw (lt→ltb n (2 ^ 31) h) (length-dec_digits 10 n k p l)

unfoldable pub all_printable : Bytes → Bool
all_printable [] = true
all_printable (c ∷ s) = (leb 32 c && ltb c 127) && all_printable s

pub all_printable-IsPrintable : (s : Bytes) → all_printable s ≡ true → All IsPrintable s
unfolding all_printable
all_printable-IsPrintable [] h = tt
all_printable-IsPrintable (c ∷ s) h =
    ((ground arith, ground arith), all_printable-IsPrintable s (ground arith))

-- A value after its prefix.
prefix-IsLine :
    (xs ys : Bytes)
    → length xs + length ys ≤ 19
    → all_printable xs ≡ true
    → All IsPrintable ys
    → IsLine (xs ++ ys)
prefix-IsLine xs ys l p q = record {
  short = omega (arith, length-append xs ys);
  printable = All-append IsPrintable xs ys (all_printable-IsPrintable xs p) q;
}

-- The texts of show_lastest_node_info fit: five digits for the count of nodes, ten for the id.
pub manager_text-IsLine : (n : ℕ) → n < 100000 → IsLine (manager_text n)
unfolding all_printable
manager_text-IsLine n h =
    prefix-IsLine manager_prefix (print_int n ++ node_suffix)
      (omega (
        arith,
        length-append (print_int n) node_suffix,
        length-print_int n 5 (omega arith) h (omega arith),
      ))
      refl
      (All-append IsPrintable (print_int n) node_suffix (number-IsPrintable n (omega arith))
        (all_printable-IsPrintable node_suffix refl))

pub last_id_text-IsLine : (n : ℕ) → n < 2 ^ 31 → IsLine (last_id_text n)
unfolding all_printable
last_id_text-IsLine n h =
    prefix-IsLine last_id_prefix (print_int n)
      (omega (arith, length-print_int n 10 (omega arith) (omega arith) h)) refl
      (number-IsPrintable n h)

pub brightness_text-IsLine : (n : ℕ) → n < 256 → IsLine (brightness_text n)
unfolding all_printable
brightness_text-IsLine n h =
    prefix-IsLine brightness_prefix (print_int n)
      (omega (arith, length-print_int n 3 (omega arith) (omega arith) (omega arith))) refl
      (number-IsPrintable n (omega arith))

pub mode_text-IsLine : (m : Mode) → IsLine (mode_text m)
unfolding all_printable
mode_text-IsLine auto = record {
  short = omega arith;
  printable = all_printable-IsPrintable (mode_text auto) refl;
}
mode_text-IsLine manual = record {
  short = omega arith;
  printable = all_printable-IsPrintable (mode_text manual) refl;
}
