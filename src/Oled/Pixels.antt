-- ===== src/Oled/Pixels.antt =====
-- What ssd1306_draw_pixel of Driver/ssd1306.c does to the picture in the buffer, and where it leaves the
-- buffer.
use gateway_v.Base.{
  ℕ, ◌+◌, ◌-◌, ◌*◌, ◌/◌, ◌%◌, ◌≤◌, ◌<◌, ◌≡◌, refl, ◌∙◌, ◌↔◌, ◌⊎◌, inl, inr, arith, Bool, true,
  false, not, ◌&&◌, none, some, ltb, ◌==◌, ==_iff, if◌then◌else◌, length, get_or, set,
  get_or-set_self, get_or-set_ne, length-set, get_elem?-get_or, get_elem?-beyond, Bool-cases,
  ltb→lt,
}
use gateway_v.Base.Word.{shl}
use gateway_v.Base.Bits.{all_below, test-all_below, bit, bit-bit_or, bit-bit_and}
use gateway_v.Text.{Bytes}
use gateway_v.Oled.{Color, black, white}
use gateway_v.Oled.Bitmap.{pixel_byte, colored, ssd1306_draw_pixel}

abbrev pub is_white : Color → Bool
is_white white = true
is_white black = false

-- The picture in a buffer: page y / 8 has eight rows of pixels, the lowest bit on top.
unfoldable pub pixel : Bytes → ℕ → ℕ → Bool
pixel buffer x y = bit (y % 8) (get_or buffer (x + y / 8 * 128) 0)

same : Bool → Bool → Bool
same true b = b
same false b = not b

same-eq : (a b : Bool) → same a b ≡ true → a ≡ b
unfolding same
same-eq true true h = refl
same-eq true false h = cc
same-eq false true h = cc
same-eq false false h = refl

mask : Color → ℕ → ℕ
mask white k = shl 1 k
mask black k = 255 - shl 1 k

mask_bit : Color → ℕ → ℕ → Bool
mask_bit white j k = j == k
mask_bit black j k = not (j == k)

mask_row : Color → ℕ → Bool
mask_row color k = all_below (λ j. same (bit j (mask color k)) (mask_bit color j k)) 8

mask_table : (color : Color) → all_below (mask_row color) 8 ≡ true
unfolding all_below bit same mask mask_bit mask_row
mask_table white = refl
mask_table black = refl

bit-mask : (color : Color) (j k : ℕ) → j < 8 → k < 8 → bit j (mask color k) ≡ mask_bit color j k
unfolding mask_row
bit-mask color j k hj hk = same-eq (bit j (mask color k)) (mask_bit color j k) (
    test-all_below (λ i. same (bit i (mask color k)) (mask_bit color i k)) 8 j hj
      (test-all_below (mask_row color) 8 k hk (mask_table color)))

bit-colored :
    (color : Color) (b j k : ℕ)
    → j < 8
    → k < 8
    → bit j (colored color b k) ≡ (if j == k then is_white color else bit j b)
unfolding mask mask_bit
bit-colored white b j k hj hk =
    ground (arith, bit-bit_or j b (mask white k), bit-mask white j k hj hk)
bit-colored black b j k hj hk =
    ground (arith, bit-bit_and j b (mask black k), bit-mask black j k hj hk)

draw_pixel-set :
    (buffer : Bytes) (x y : ℕ) (color : Color)
    → length buffer ≡ 1024
    → x < 128
    → y < 64
    → ssd1306_draw_pixel buffer x y color
      ≡ some
          (set buffer (pixel_byte x y) (colored color (get_or buffer (pixel_byte x y) 0) (y % 8)))
unfolding ssd1306_draw_pixel
draw_pixel-set buffer x y color l hx hy =
    rw (get_elem?-get_or buffer (x + y / 8 * 128) 0 (omega (arith, l))) (ground arith)

-- In one byte of the buffer the row tells the pixels apart.
same_byte :
    (px py x y : ℕ)
    → px + py / 8 * 128 ≡ x + y / 8 * 128
    → px < 128
    → x < 128
    → (px == x && py == y) ≡ (py % 8 == y % 8)
same_byte px py x y at hpx hx = ground arith

other_byte :
    (px py x y : ℕ) → (pixel_byte px py == pixel_byte x y) ≡ false → (px == x && py == y) ≡ false
other_byte px py x y e = ground arith

pixel-set :
    (buffer : Bytes) (x y px py : ℕ) (color : Color)
    → length buffer ≡ 1024
    → x < 128
    → y < 64
    → px < 128
    → py < 64
    → pixel
        (set buffer (pixel_byte x y) (colored color (get_or buffer (pixel_byte x y) 0) (y % 8)))
        px
        py
      ≡ (if px == x && py == y then is_white color else pixel buffer px py)
unfolding pixel
pixel-set buffer x y px py color l hx hy hpx hpy =
    let old = get_or buffer (pixel_byte x y) 0 in
    let value = colored color old (y % 8) in
    elim (Bool-cases (pixel_byte px py == pixel_byte x y)) [
      | inl e ↦
          let at : px + py / 8 * 128 ≡ x + y / 8 * 128 =
            (==_iff (pixel_byte px py) (pixel_byte x y)).0 e in
          rw
            (
              at,
              get_or-set_self buffer (pixel_byte x y) value 0 (omega (arith, l)),
              bit-colored color old (py % 8) (y % 8) (omega arith) (omega arith),
            )
            (rw (same_byte px py x y at hpx hx) refl)
      | inr e ↦
          rw (get_or-set_ne buffer (pixel_byte x y) (pixel_byte px py) value 0 (ground (arith, e)))
            (rw (other_byte px py x y e) refl)
    ]

-- Inside the picture, drawing a pixel colors it, keeps every other pixel and the buffer's length.
pub draw_pixel-pixel :
    (buffer : Bytes) (x y : ℕ) (color : Color)
    → length buffer ≡ 1024
    → x < 128
    → y < 64
    → (after : Bytes) × (ssd1306_draw_pixel buffer x y color ≡ some after)
      × (length after ≡ 1024)
      × ((px py : ℕ)
          → px < 128
          → py < 64
          → pixel after px py ≡ (if px == x && py == y then is_white color else pixel buffer px py))
draw_pixel-pixel buffer x y color l hx hy =
    let value = colored color (get_or buffer (pixel_byte x y) 0) (y % 8) in
    let after = set buffer (pixel_byte x y) value in
    (
      after,
      draw_pixel-set buffer x y color l hx hy,
      length-set buffer (pixel_byte x y) value ∙ l,
      λ px py hpx hpy. pixel-set buffer x y px py color l hx hy hpx hpy,
    )

-- With a buffer of 1024 bytes, ssd1306_draw_pixel leaves it exactly for y = 64 and x up to 128, and for
-- x = 128 and y from 56 to 64.
pub draw_pixel-none :
    (buffer : Bytes) (x y : ℕ) (color : Color)
    → length buffer ≡ 1024
    → (ssd1306_draw_pixel buffer x y color ≡ none)
      ↔ ((x ≤ 128) × (y ≤ 64) × ((y ≡ 64) ⊎ ((x ≡ 128) × (56 ≤ y))))
unfolding ssd1306_draw_pixel
draw_pixel-none buffer x y color l = elim (Bool-cases (ltb (pixel_byte x y) 1024)) [
  | inl e ↦
      rw
        (get_elem?-get_or buffer (x + y / 8 * 128) 0
          (omega (arith, ltb→lt (pixel_byte x y) 1024 e, l)))
        (λ h. ground arith, λ h. ground arith)
  | inr e ↦
      rw (get_elem?-beyond buffer (x + y / 8 * 128) (ground (arith, e, l)))
        (λ h. ground arith, λ h. ground arith)
]
