-- ===== src/Bus/Subjects.antt =====
-- internal/bus/channel.go: `subjectMatches`. A text is read by its code points.
use Prim.Native.Char.{Char, code}
use yip_yap_foss.Prelude.{
  ◌==◌, Bool, true, false, not, ◌||◌, String, str_eq, List, [], ◌∷◌, if◌then◌else◌,
}

-- A character before the first token.
abbrev push_char : Char → List String → List String
push_char c [] = (String.◌∷◌ c String.[]) ∷ []
push_char c (token ∷ rest) = (String.◌∷◌ c token) ∷ rest

-- `strings.Split(s, ".")`.
unfoldable pub split_dots : String → List String
split_dots String.[] = String.[] ∷ []
split_dots (String.◌∷◌ c s) =
    let rest = split_dots s in if (code c == b'.') then String.[] ∷ rest else push_char c rest

-- `strings.ContainsAny(pattern, "*>")`.
unfoldable pub has_wildcard : String → Bool
has_wildcard String.[] = false
has_wildcard (String.◌∷◌ c s) = (code c == b'*') || (code c == b'>') || has_wildcard s

abbrev is_nonempty : List String → Bool
is_nonempty [] = false
is_nonempty (_ ∷ _) = true

-- The loop over the tokens of the pattern, with the tokens of the subject that are left, and the test after it.
unfoldable pub match_tokens : List String → List String → Bool
match_tokens [] subject = not (is_nonempty subject)
match_tokens (token ∷ pattern) [] = false
match_tokens (token ∷ pattern) (s ∷ subject) =
    let rest = match_tokens pattern subject in
    if str_eq token ">"
    then true
    else if str_eq token "*"
    then rest
    else if not (str_eq token s)
    then false
    else rest

-- `subjectMatches`.
unfoldable pub subject_matches : String → String → Bool
unfolding match_tokens split_dots has_wildcard
subject_matches pattern subject =
    if str_eq pattern subject
    then true
    else if not (has_wildcard pattern)
    then false
    else match_tokens (split_dots pattern) (split_dots subject)
