-- ===== src/Text.antt =====
-- What the program uses of the C library's strings: strlen, strncmp, strtok(…, " "), atoi and the
-- conversion %d of sprintf. A char buffer is a list of byte values; a string ends at its first 0,
-- or, where the buffer has none, at the buffer's end.
pub mod Decimal
pub mod Terminated
pub mod Tokens
use gateway_v.Base.{
  ℕ, zero, suc, ◌+◌, ◌-◌, ◌*◌, ◌/◌, ◌%◌, ◌^◌, Bool, true, false, ◌&&◌, ◌||◌, List, [], ◌∷◌, ◌++◌,
  ltb, leb, ◌==◌, if◌then◌else◌, take,
}
use gateway_v.Base.Word.{u32}

abbrev pub Bytes : Type 0
Bytes = List ℕ

unfoldable pub strlen : Bytes → ℕ
strlen [] = 0
strlen (c ∷ s) = if c == 0 then 0 else suc (strlen s)

-- The bytes in front of the terminator.
unfoldable pub c_string : Bytes → Bytes
unfolding strlen
c_string s = take (strlen s) s

-- strncmp(a, b, n) == 0: no difference before the n-th byte or a common terminator. A buffer's end
-- counts as a terminator.
unfoldable pub strncmp_eq : Bytes → Bytes → ℕ → Bool
strncmp_eq a b zero = true
strncmp_eq [] [] (suc n) = true
strncmp_eq [] (d ∷ b) (suc n) = d == 0
strncmp_eq (c ∷ a) [] (suc n) = c == 0
strncmp_eq (c ∷ a) (d ∷ b) (suc n) = c == d && (c == 0 || strncmp_eq a b n)

-- The decimal digits of a number below 10 ^ f, most significant first.
unfoldable pub dec_digits : ℕ → ℕ → Bytes
dec_digits zero n = []
dec_digits (suc f) n =
    let rest = dec_digits f (n / 10) in
    if ltb n 10 then (b'0' + n) ∷ [] else rest ++ ((b'0' + n % 10) ∷ [])

-- sprintf("%d") of an argument with the given 32-bit pattern; ten digits are enough.
unfoldable pub print_int : ℕ → Bytes
print_int w = if ltb w (2 ^ 31) then dec_digits 10 w else b'-' ∷ dec_digits 10 (2 ^ 32 - w)

abbrev pub is_digit : ℕ → Bool
is_digit c = leb b'0' c && leb c b'9'

abbrev pub is_space : ℕ → Bool
is_space c = c == 32 || (leb 9 c && leb c 13)

unfoldable pub scan_digits : ℕ → Bytes → ℕ
scan_digits acc [] = acc
scan_digits acc (c ∷ s) = if is_digit c then scan_digits (acc * 10 + (c - b'0')) s else acc

unfoldable pub scan_signed : Bytes → ℕ
unfolding scan_digits
scan_signed [] = 0
scan_signed (c ∷ s) =
    if c == b'-'
    then u32 (2 ^ 32 - u32 (scan_digits 0 s))
    else if c == b'+'
    then u32 (scan_digits 0 s)
    else u32 (scan_digits 0 (c ∷ s))

unfoldable pub skip_spaces : Bytes → Bytes
skip_spaces [] = []
skip_spaces (c ∷ s) = if is_space c then skip_spaces s else c ∷ s

-- atoi, as the 32-bit pattern of its int. C leaves a number out of range undefined; here it is
-- reduced.
unfoldable pub atoi : Bytes → ℕ
unfolding scan_signed skip_spaces
atoi s = scan_signed (skip_spaces s)

-- Strtok drops empty tokens.
unfoldable pub emit_token : Bytes → List Bytes → List Bytes
emit_token [] rest = rest
emit_token (c ∷ s) rest = (c ∷ s) ∷ rest

unfoldable pub tokens_from : Bytes → Bytes → List Bytes
unfolding emit_token
tokens_from current [] = emit_token current []
tokens_from current (c ∷ s) =
    let after = tokens_from [] s in
    let longer = tokens_from (current ++ (c ∷ [])) s in
    if c == 0 then emit_token current [] else if c == 32 then emit_token current after else longer

-- The tokens that strtok(s, " ") and then strtok(NULL, " ") give, up to its NULL.
unfoldable pub tokens : Bytes → List Bytes
unfolding tokens_from
tokens s = tokens_from [] s
