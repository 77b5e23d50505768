-- ===== src/Oled/Glyphs.antt =====
-- The characters of ssd1306_font and the columns that a text makes of them.
use gateway_v.Base.{
  zero, suc, ℕ, ◌-◌, ◌*◌, ◌≤◌, ◌<◌, ◌≡◌, refl, arith, Bool, true, false, none, some, List, [], ◌∷◌,
  ◌++◌, ◌==◌, ==_iff, length, length-append, get_elem?, get_or, All, Option-cases, inl, inr,
}
use gateway_v.Base.Bits.{all_below, test-all_below}
use gateway_v.Text.{Bytes}
use gateway_v.Oled.{font_x, glyph}
use gateway_v.Oled.Font.{ssd1306_font}

abbrev pub IsPrintable : ℕ → Type 0
IsPrintable c = (32 ≤ c) × (c < 127)

-- The columns of a text, glyph after glyph.
unfoldable pub rendered : Bytes → Bytes
rendered [] = []
rendered (c ∷ s) = get_or ssd1306_font (c - 32) [] ++ rendered s

has_columns : ℕ → Bool
has_columns k = elim (get_elem? ssd1306_font k) [ none ↦ false | some g ↦ length g == font_x ]

font_table : all_below has_columns 95 ≡ true
unfolding all_below has_columns ssd1306_font
font_table = refl

get_or-of-get_elem? {ℓ} :
    {A : Type ℓ} (l : List A) (i : ℕ) (x d : A) → get_elem? l i ≡ some x → get_or l i d ≡ x
get_or-of-get_elem? [] i x d h = cc
get_or-of-get_elem? (y ∷ l) zero x d h = cc
get_or-of-get_elem? (y ∷ l) (suc i) x d h = get_or-of-get_elem? l i x d h

-- A row of the font as get_elem? gives it.
abbrev pub IsRow : ℕ → Bytes → Type 0
IsRow k g = (get_elem? ssd1306_font k ≡ some g) × (length g ≡ 6)

IsRow-of-has_columns : (k : ℕ) → has_columns k ≡ true → (g : Bytes) × IsRow k g
unfolding has_columns
IsRow-of-has_columns k t = elim (Option-cases (get_elem? ssd1306_font k)) [
  | inl e ↦ absurd (ground (t, e, arith))
  | inr (g, e) ↦ (g, (e, ground (t, e, arith, ==_iff (length g) 6)))
]

font-IsRow : (k : ℕ) → k < 95 → IsRow k (get_or ssd1306_font k [])
font-IsRow k h =
    let (g, (e, l)) = IsRow-of-has_columns k (test-all_below has_columns 95 k h font_table) in
    rw (get_or-of-get_elem? ssd1306_font k g [] e) (e, l)

-- The columns of a character.
abbrev pub columns : ℕ → Bytes
columns c = get_or ssd1306_font (c - 32) []

pub length-columns : (c : ℕ) → IsPrintable c → length (columns c) ≡ 6
length-columns c (l, h) = (font-IsRow (c - 32) (omega arith)).1

pub glyph-columns : (c : ℕ) → IsPrintable c → glyph c ≡ some (columns c)
unfolding glyph
glyph-columns c (l, h) = ground ((font-IsRow (c - 32) (omega arith)).0, arith)

pub length-rendered : (s : Bytes) → All IsPrintable s → length (rendered s) ≡ length s * 6
unfolding rendered
length-rendered [] p = refl
length-rendered (c ∷ s) (p, ps) =
    omega (arith, length-append (columns c) (rendered s), length-columns c p, length-rendered s ps)
