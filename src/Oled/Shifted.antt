-- ===== src/Oled/Shifted.antt =====
-- The byte that the inner loop of ssd1306_draw_bitmap of Driver/ssd1306.c shifts through a row of the bitmap.
use gateway_v.Base.{
  ap, ℕ, zero, suc, ◌+◌, ◌-◌, ◌*◌, ◌/◌, ◌%◌, ◌<◌, ◌≡◌, refl, ◌∙◌, ◌≢◌, inl, inr, arith, Bool, not,
  some, ◌==◌, length, get_or, get_elem?-get_or, bit_and, Bool-cases,
}
use gateway_v.Base.Word.{u8, shl}
use Prim.Native.Nat.{min}
use gateway_v.Base.Bits.{bit, bit_and_low, bit_and_mask}
use gateway_v.Text.{Bytes}
use gateway_v.Oled.Bitmap.{next_byte}

-- A byte shifted some places to the left.
pub shifted : ℕ → ℕ → ℕ
shifted zero b = b
shifted (suc m) b = shifted m b * 2

bit_and-double : (b m n : ℕ) → bit_and (b / 2) m ≡ n → bit_and b (m * 2) ≡ n * 2
bit_and-double b m n h =
    let half : m * 2 / 2 ≡ m = omega arith in
    let low : bit_and b (m * 2) ≡ bit_and (b / 2) (m * 2 / 2) * 2 + min (b % 2) (m * 2 % 2) =
      bit_and_low b (m * 2) in
    omega (arith, rw half at low, h)

sixteenth : (b : ℕ) → b / 2 / 2 / 2 / 2 ≡ b / 16
sixteenth b = omega arith

eighth : (b : ℕ) → b / 2 / 2 / 2 ≡ b / 8
eighth b = omega arith

seven_halves : (b : ℕ) → b / 2 / 2 / 2 / 2 / 2 / 2 / 2 ≡ b / 128
seven_halves b = eighth (b / 2 / 2 / 2 / 2) ∙ rw (sixteenth b) (omega arith)

seven_doubles : (q : ℕ) → q * 2 * 2 * 2 * 2 * 2 * 2 * 2 ≡ q * 128
seven_doubles q = omega arith

bit_and-top : (b : ℕ) → bit_and b 128 ≡ b / 128 % 2 * 128
bit_and-top b =
    let q = b / 2 / 2 / 2 / 2 / 2 / 2 / 2 % 2 in
    bit_and-double b 64 (q * 2 * 2 * 2 * 2 * 2 * 2) (
      bit_and-double (b / 2) 32 (q * 2 * 2 * 2 * 2 * 2) (
        bit_and-double (b / 2 / 2) 16 (q * 2 * 2 * 2 * 2) (
          bit_and-double (b / 2 / 2 / 2) 8 (q * 2 * 2 * 2) (
            bit_and-double (b / 2 / 2 / 2 / 2) 4 (q * 2 * 2) (
              bit_and-double (b / 2 / 2 / 2 / 2 / 2) 2 (q * 2) (
                bit_and-double (b / 2 / 2 / 2 / 2 / 2 / 2) 1 q
                  (bit_and_mask 1 (b / 2 / 2 / 2 / 2 / 2 / 2 / 2))))))))
    ∙ seven_doubles q
    ∙ ap (λ n. n % 2 * 128) (seven_halves b)

-- The top bit of a shifted byte is a lower bit of the byte.
pub top-shifted :
    (m b source : ℕ)
    → m < 8
    → b % 256 ≡ shifted m source % 256
    → (bit_and b 0x80 == 0) ≡ not (bit (7 - m) source)
unfolding shifted bit
top-shifted zero b s h e = ground (arith, bit_and-top b)
top-shifted (suc zero) b s h e = ground (arith, bit_and-top b)
top-shifted (suc (suc zero)) b s h e = ground (arith, bit_and-top b)
top-shifted (suc (suc (suc zero))) b s h e = ground (arith, bit_and-top b)
top-shifted (suc (suc (suc (suc zero)))) b s h e = ground (arith, bit_and-top b)
top-shifted (suc (suc (suc (suc (suc zero))))) b s h e = ground (arith, bit_and-top b)
top-shifted (suc (suc (suc (suc (suc (suc zero)))))) b s h e = ground (arith, bit_and-top b)
top-shifted (suc (suc (suc (suc (suc (suc (suc zero))))))) b s h e = ground (arith, bit_and-top b)
top-shifted (suc (suc (suc (suc (suc (suc (suc (suc m)))))))) b s h e = absurd (omega arith)

module _ (bitmap : Bytes) (row : ℕ) where
  -- The byte of a row of the bitmap that has a column, and the column's bit.
  abbrev pub source_byte : ℕ → ℕ
  source_byte i = get_or bitmap (row + i / 8) 0

  unfoldable pub lit_column : ℕ → Bool
  lit_column i = bit (7 - i % 8) (source_byte i)

  -- The loop's byte at a column.
  abbrev pub IsShifted : ℕ → ℕ → Type 0
  IsShifted i b = b % 256 ≡ shifted (i % 8) (source_byte i) % 256

  IsShifted-next :
      (i byte : ℕ)
      → i % 8 ≢ 0
      → ((k : ℕ) → i ≡ suc k → IsShifted k byte)
      → IsShifted i (u8 (shl byte 1))
  unfolding shifted
  IsShifted-next zero byte n h = absurd (n refl)
  IsShifted-next (suc k) byte n h =
      let place : suc k % 8 ≡ suc (k % 8) = omega arith in
      let same_byte : suc k / 8 ≡ k / 8 = omega arith in
      rw (place, same_byte) (omega (arith, h k refl))

  pub next_byte-IsShifted :
      (i byte : ℕ)
      → row + i / 8 < length bitmap
      → ((k : ℕ) → i ≡ suc k → IsShifted k byte)
      → (b : ℕ) × (next_byte bitmap row i byte ≡ some b) × IsShifted i b
  unfolding next_byte shifted
  next_byte-IsShifted i byte l h = elim (Bool-cases (bit_and i 7 == 0)) [
    | inl e ↦
        let start : i % 8 ≡ 0 = ground (arith, bit_and_mask 3 i, e) in
        rw (e, get_elem?-get_or bitmap (row + i / 8) 0 l, start) (source_byte i, refl, refl)
    | inr e ↦
        rw e (u8 (shl byte 1), refl, IsShifted-next i byte (ground (arith, bit_and_mask 3 i, e)) h)
  ]
