-- ===== src/Prelude/Runes.antt =====
-- UTF-8 as the Unicode standard and `unicode/utf8` have it: which byte may follow, and the runes that
-- `range` gives of a string.
use aikido.Prelude.{
  ℕ, zero, suc, ◌+◌, ◌-◌, ◌*◌, ◌/◌, ◌%◌, Bool, ◌&&◌, ◌||◌, Option, none, some, List, [], ◌∷◌, ◌++◌,
  Bytes, leb, ◌==◌, if◌then◌else◌, length, map, ◌≡◌, refl,
}

-- how many continuation bytes are due, and the range of the next
pub record Expect : Type 0 where
  pub due : ℕ
  pub low : ℕ
  pub high : ℕ

abbrev pub any_next : ℕ → Expect
any_next n = record { due = n; low = 0x80; high = 0xBF }

abbrev pub within : ℕ → ℕ → ℕ → Bool
within lo hi c = leb lo c && leb c hi

-- what the first byte of a rune asks for
unfoldable pub lead : ℕ → Option Expect
lead c =
    if leb c 0x7F
    then some (any_next 0)
    else if within 0xC2 0xDF c
    then some (any_next 1)
    else if c == 0xE0
    then some (record { due = 2; low = 0xA0; high = 0xBF })
    else if c == 0xED
    then some (record { due = 2; low = 0x80; high = 0x9F })
    else if within 0xE1 0xEF c
    then some (any_next 2)
    else if c == 0xF0
    then some (record { due = 3; low = 0x90; high = 0xBF })
    else if within 0xF1 0xF3 c
    then some (any_next 3)
    else if c == 0xF4
    then some (record { due = 3; low = 0x80; high = 0x8F })
    else none

unfoldable pub follow : ℕ → Expect → ℕ → Option Expect
unfolding lead
follow zero x c = lead c
follow (suc n) x c = if within x.low x.high c then some (any_next n) else none

abbrev pub lead_bits : ℕ → ℕ
lead_bits c =
    if leb c 0x7F
    then c
    else if leb c 0xDF
    then c - 0xC0
    else if leb c 0xEF
    then c - 0xE0
    else c - 0xF0

abbrev pub rune_error : ℕ
rune_error = 0xFFFD

-- the continuation bytes that are due, with the bits and the bytes read so far
unfoldable pub decode_tail : ℕ → Expect → ℕ → ℕ → Bytes → ℕ × ℕ
decode_tail zero x bits n s = (bits, n)
decode_tail (suc d) x bits n [] = (rune_error, 1)
decode_tail (suc d) x bits n (c ∷ s) =
    let rest = decode_tail d (any_next d) (bits * 64 + (c - 0x80)) (n + 1) s in
    if within x.low x.high c then rest else (rune_error, 1)

-- `utf8.DecodeRuneInString`
unfoldable pub decode_rune : Bytes → ℕ × ℕ
unfolding lead decode_tail
decode_rune [] = (rune_error, 0)
decode_rune (c ∷ s) = elim (lead c) [
  | none ↦ (rune_error, 1)
  | some x ↦ decode_tail x.due x (lead_bits c) 1 s
]

-- `for i, r := range s` from the byte `i` on, with the bytes that still belong to the last rune
unfoldable pub range_from : ℕ → ℕ → Bytes → List (ℕ × ℕ)
unfolding decode_rune
range_from i skip [] = []
range_from i (suc k) (c ∷ s) = range_from (suc i) k s
range_from i zero (c ∷ s) =
    (i, (decode_rune (c ∷ s)).0) ∷ range_from (suc i) ((decode_rune (c ∷ s)).1 - 1) s

abbrev pub range : Bytes → List (ℕ × ℕ)
range s = range_from 0 0 s

-- `[]rune(s)`
abbrev pub runes : Bytes → List ℕ
runes s = map (λ p. p.1) (range s)

-- `unicode.IsSpace`
abbrev pub is_rune_space : ℕ → Bool
is_rune_space r =
    within 9 13 r
    || r == 0x20
    || r == 0x85
    || r == 0xA0
    || r == 0x1680
    || within 0x2000 0x200A r
    || r == 0x2028
    || r == 0x2029
    || r == 0x202F
    || r == 0x205F
    || r == 0x3000

-- `utf8.RuneCountInString`
abbrev pub rune_count : Bytes → ℕ
rune_count s = length (range s)

-- `string(r)` of a rune that is a code point
unfoldable pub encode_rune : ℕ → Bytes
encode_rune c =
    if leb c 0x7F
    then c ∷ []
    else if leb c 0x7FF
    then (0xC0 + c / 64) ∷ (0x80 + c % 64) ∷ []
    else if leb c 0xFFFF
    then (0xE0 + c / 4096) ∷ (0x80 + c / 64 % 64) ∷ (0x80 + c % 64) ∷ []
    else (0xF0 + c / 262144) ∷ (0x80 + c / 4096 % 64) ∷ (0x80 + c / 64 % 64) ∷ (0x80 + c % 64) ∷ []

-- `string(rs)` of a slice of runes
abbrev pub encode : List ℕ → Bytes
encode [] = []
encode (r ∷ rs) = encode_rune r ++ encode rs

two_runes : runes (b'a' ∷ 0xE2 ∷ 0x82 ∷ 0xAC ∷ []) ≡ b'a' ∷ 0x20AC ∷ []
unfolding range_from decode_rune decode_tail lead
two_runes = refl

invalid_bytes : range (0xE2 ∷ 0x82 ∷ b'a' ∷ []) ≡ (0, 0xFFFD) ∷ (1, 0xFFFD) ∷ (2, b'a') ∷ []
unfolding range_from decode_rune decode_tail lead
invalid_bytes = refl

encoded : encode (b'a' ∷ 0x20AC ∷ []) ≡ b'a' ∷ 0xE2 ∷ 0x82 ∷ 0xAC ∷ []
unfolding encode_rune
encoded = refl
