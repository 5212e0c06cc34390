-- ===== src/Replies/Text.antt =====
-- The texts of internal/cloudevents/reply/handlers: their runes, their bytes in UTF-8, `strings.TrimSpace`, and
-- `truncateUTF8Runes`. A text is a list of code points, so one that is valid UTF-8.
use yip_yap_foss.Prelude.{
  codes, ℕ, suc, ◌+◌, ◌==◌, ltb, leb, Bool, ◌&&◌, ◌||◌, String, List, [], ◌∷◌, all, if◌then◌else◌,
}

-- `utf8.RuneCountInString`.
unfoldable pub rune_count : String → ℕ
rune_count String.[] = 0
rune_count (String.◌∷◌ c s) = suc (rune_count s)

-- `utf8.RuneLen`.
abbrev pub rune_len : ℕ → ℕ
rune_len c = if ltb c 0x80 then 1 else if ltb c 0x800 then 2 else if ltb c 0x10000 then 3 else 4

-- `len` of a text with these runes.
unfoldable pub byte_len : List ℕ → ℕ
byte_len [] = 0
byte_len (c ∷ cs) = rune_len c + byte_len cs

-- `unicode.IsSpace`.
unfoldable pub is_space : ℕ → Bool
is_space c =
    (leb 9 c && leb c 13)
    || (c == 32)
    || (c == 0x85)
    || (c == 0xa0)
    || (c == 0x1680)
    || (leb 0x2000 c && leb c 0x200a)
    || (c == 0x2028)
    || (c == 0x2029)
    || (c == 0x202f)
    || (c == 0x205f)
    || (c == 0x3000)

-- `strings.TrimSpace(s) == ""`.
unfoldable pub is_white : String → Bool
unfolding is_space
is_white s = all is_space (codes s)

unfoldable pub trim_left : List ℕ → List ℕ
unfolding is_space
trim_left [] = []
trim_left (c ∷ cs) = let rest = trim_left cs in if is_space c then rest else c ∷ cs

unfoldable pub trim_right : List ℕ → List ℕ
unfolding is_space
trim_right [] = []
trim_right (c ∷ cs) = if is_space c && all is_space cs then [] else c ∷ trim_right cs

-- `len(strings.TrimSpace(s))`.
unfoldable pub trimmed_len : String → ℕ
unfolding trim_left trim_right byte_len
trimmed_len s = byte_len (trim_right (trim_left (codes s)))

-- The loop of `truncateUTF8Runes`, with the bytes that are out already.
unfoldable pub take_runes : ℕ → ℕ → List ℕ → List ℕ
take_runes max used [] = []
take_runes max used (c ∷ cs) =
    let rest = take_runes max (used + rune_len c) cs in
    if ltb max (used + rune_len c) then [] else c ∷ rest

-- `truncateUTF8Runes`.
unfoldable pub truncate_runes : List ℕ → ℕ → List ℕ
unfolding take_runes byte_len
truncate_runes s max = if leb max 0 || leb (byte_len s) max then s else take_runes max 0 s
