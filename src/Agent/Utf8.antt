-- ===== src/Agent/Utf8.antt =====
-- `isBinary` of agent/tools_builtin.go, with `utf8.Valid` as the table of the Unicode standard.
use aikido.Prelude.{
  ℕ, Bool, true, false, not, ◌||◌, none, some, [], ◌∷◌, Bytes, ◌==◌, take, has_byte, ◌≡◌, refl,
}
use aikido.Prelude.Runes.{Expect, any_next, follow}

unfoldable pub valid_from : Expect → Bytes → Bool
unfolding follow
valid_from x [] = x.due == 0
valid_from x (c ∷ s) = elim (follow x.due x c) [ none ↦ false | some y ↦ valid_from y s ]

unfoldable pub utf8_valid : Bytes → Bool
unfolding valid_from
utf8_valid s = valid_from (any_next 0) s

abbrev pub binary_window : ℕ
binary_window = 8192

unfoldable pub is_binary : Bytes → Bool
is_binary b = has_byte 0 (take binary_window b) || not (utf8_valid b)

euro : utf8_valid (0xE2 ∷ 0x82 ∷ 0xAC ∷ []) ≡ true
unfolding utf8_valid
euro = refl

surrogate : utf8_valid (0xED ∷ 0xA0 ∷ 0x80 ∷ []) ≡ false
unfolding utf8_valid
surrogate = refl

cut_short : is_binary (b'a' ∷ 0xE2 ∷ 0x82 ∷ []) ≡ true
unfolding is_binary utf8_valid has_byte
cut_short = refl
