-- ===== src/Oled/Boot.antt =====
-- The animations of oled_probe and board_shutdown of Driver/ssd1306.c.
use gateway_v.Base.{
  ℕ, ◌+◌, ◌*◌, ◌/◌, ◌%◌, zero, suc, ◌<◌, ◌≡◌, refl, ◌∙◌, false, arith, some, List, [], ◌∷◌, length,
  replicate, get_or, length-replicate, All, ap,
}
use gateway_v.Base.Bits.{bit}
use gateway_v.Text.{Bytes}
use gateway_v.Oled.{I2c, Oled, white}
use gateway_v.Oled.Device.{animate}
use gateway_v.Oled.Pixels.{pixel}
use gateway_v.Oled.Picture.{lit, draw_bitmap-lit}

-- A picture of the display's size.
abbrev pub IsPicture : Bytes → Type 0
IsPicture bitmap = length bitmap ≡ 1024

-- A frame of the display whose pixels are the bits of a picture of 64 rows of 16 bytes.
abbrev pub IsFrame : Bytes → Bytes → Type 0
IsFrame bitmap frame =
    (length frame ≡ 1024)
    × ((px py : ℕ) → px < 128 → py < 64 → pixel frame px py ≡ lit bitmap 128 px py)

-- One frame for each picture, in order.
abbrev pub Frames : List Bytes → List Bytes → Type 0
Frames [] [] = Unit
Frames [] (frame ∷ frames) = ⊥
Frames (bitmap ∷ rest) [] = ⊥
Frames (bitmap ∷ rest) (frame ∷ frames) = IsFrame bitmap frame × Frames rest frames

get_or-zeros : (n k : ℕ) → get_or {A = ℕ} (replicate n 0) k 0 ≡ 0
get_or-zeros zero k = refl
get_or-zeros (suc n) zero = refl
get_or-zeros (suc n) (suc k) = get_or-zeros n k

bit-zero : (k : ℕ) → bit k 0 ≡ false
unfolding bit
bit-zero zero = refl
bit-zero (suc k) = bit-zero k

pixel-zeros : (n px py : ℕ) → pixel (replicate n 0) px py ≡ false
unfolding pixel
pixel-zeros n px py = rw (get_or-zeros n (px + py / 8 * 128)) (bit-zero (py % 8))

module _ (i2c : I2c) where
  open i2c use {Panel, i2c_master_send}

  -- The panel after some frames were sent as data.
  abbrev pub shows : Panel → List Bytes → Panel
  shows panel [] = panel
  shows panel (frame ∷ frames) = shows (i2c_master_send panel (0x40 ∷ frame)) frames

  -- From a cleared buffer, an animation of pictures of the display's size sends the panel exactly one
  -- frame for each picture, in order, in which each of the 128 by 64 pixels is the picture's bit
  -- there, and nothing else; the buffer is then cleared and the cursor where it was.
  pub animate-Frames :
      (pictures : List Bytes) (o : Oled Panel)
      → All IsPicture pictures
      → o.buffer ≡ replicate 1024 0
      → (frames : List Bytes) × (animate i2c o pictures
          ≡ some (record o { panel = shows o.panel frames; buffer = replicate 1024 0 }))
        × Frames pictures frames
  unfolding animate
  animate-Frames [] o p l = ([], rw (← l) refl, tt)
  animate-Frames (bitmap ∷ rest) o (p, ps) l =
      let (frame, e, n, h) =
        draw_bitmap-lit i2c o 0 0 128 64 bitmap white
          (ap length l ∙ length-replicate {A = ℕ} 1024 0) (omega (arith, p)) (omega arith)
          (omega arith) in
      let (frames, e1, shown) =
        animate-Frames rest
          (record o { panel = i2c_master_send o.panel (0x40 ∷ frame); buffer = replicate 1024 0 })
          ps refl in
      (
        frame ∷ frames,
        rw e e1,
        (
          (
            n,
            λ px py hx hy.
                let dark : pixel o.buffer px py ≡ false =
                  ap (λ b. pixel b px py) l ∙ pixel-zeros 1024 px py in
                let here = h px py hx hy in ground (arith, dark, here),
          ),
          shown,
        ),
      )
