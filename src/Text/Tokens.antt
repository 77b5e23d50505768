-- ===== src/Text/Tokens.antt =====
-- strtok splits a text whose tokens each end in a space.
use gateway_v.Base.{◌≡◌, refl, ◌≢◌, List, [], ◌∷◌, ◌++◌, arith, All}
use mathlib.Core.List.{append_assoc, append-nil}
use gateway_v.Text.{Bytes, tokens, tokens_from, emit_token}
use gateway_v.Text.Decimal.{IsPlain}

pub emit_token-ne-nil : (s : Bytes) (rest : List Bytes) → s ≢ [] → emit_token s rest ≡ s ∷ rest
unfolding emit_token
emit_token-ne-nil [] rest h = absurd (h refl)
emit_token-ne-nil (c ∷ s) rest h = refl

-- Reading a token up to the space behind it.
pub tokens_from-append :
    (current s rest : Bytes)
    → All IsPlain s
    → tokens_from current (s ++ (32 ∷ rest)) ≡ emit_token (current ++ s) (tokens_from [] rest)
unfolding tokens_from
tokens_from-append current [] rest h = rw (append-nil current)
tokens_from-append current (c ∷ s) rest h = ground (
  arith,
  h.0,
  tokens_from-append (current ++ (c ∷ [])) s rest h.1,
  append_assoc current (c ∷ []) s,
)

-- Reading the last token, up to the terminator.
pub tokens_from-last :
    (current s past : Bytes)
    → All IsPlain s
    → tokens_from current (s ++ (0 ∷ past)) ≡ emit_token (current ++ s) []
unfolding tokens_from
tokens_from-last current [] past h = rw (append-nil current) refl
tokens_from-last current (c ∷ s) past h =
    ground (
      arith,
      h.0,
      tokens_from-last (current ++ (c ∷ [])) s past h.1,
      append_assoc current (c ∷ []) s,
    )

-- The texts of a list, with a space behind each.
abbrev pub spaced : List Bytes → Bytes
spaced [] = []
spaced (s ∷ rest) = s ++ (32 ∷ spaced rest)

abbrev pub IsToken : Bytes → Type 0
IsToken s = (s ≢ []) × All IsPlain s

tokens_from-spaced :
    (l : List Bytes) (past : Bytes) → All IsToken l → tokens_from [] (spaced l ++ (0 ∷ past)) ≡ l
unfolding tokens_from emit_token
tokens_from-spaced [] past h = refl
tokens_from-spaced (s ∷ l) past h = rw (
  append_assoc s (32 ∷ spaced l) (0 ∷ past),
  tokens_from-append [] s (spaced l ++ (0 ∷ past)) h.0.1,
  emit_token-ne-nil s _ h.0.0,
  tokens_from-spaced l past h.1,
)

-- strtok gives back the tokens of a terminated text that has a space behind each.
pub tokens-spaced :
    (l : List Bytes) (past : Bytes) → All IsToken l → tokens (spaced l ++ (0 ∷ past)) ≡ l
unfolding tokens
tokens-spaced l past h = tokens_from-spaced l past h
