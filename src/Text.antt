-- ===== src/Text.antt =====
-- What the settings form needs of text: strings.TrimSpace, strings.Split and strings.Join, and the
-- comma-separated fields of parseCSV in global/settings.go. A text is a list of characters.
pub mod Fields
pub mod Trim
use Prim.Native.Char.{Char, code}
use Prim.Native.String.{[], ◌∷◌, ◌++◌}
use croissant.Base.{
  ℕ, ◌+◌, Bool, true, false, not, ◌&&◌, ◌||◌, List, String, leb, ltb, ◌==◌, nat_eq, string_eq,
  if◌then◌else◌, map, filter,
}

abbrev pub is_blank : String → Bool
is_blank [] = true
is_blank (c ∷ s) = false

-- The bytes of a character in UTF-8.
abbrev utf8_len : Char → ℕ
utf8_len c =
    let n = code c in
    if ltb n 0x80 then 1 else if ltb n 0x800 then 2 else if ltb n 0x1_0000 then 3 else 4

-- len(s), which counts bytes.
unfoldable pub byte_len : String → ℕ
byte_len [] = 0
byte_len (c ∷ s) = utf8_len c + byte_len s

-- unicode.IsSpace
unfoldable pub is_space : Char → Bool
is_space c =
    let n = code c in
    leb 9 n && leb n 13
    || n == 32
    || n == 0x85
    || n == 0xA0
    || n == 0x1680
    || leb 0x2000 n && leb n 0x200A
    || n == 0x2028
    || n == 0x2029
    || n == 0x202F
    || n == 0x205F
    || n == 0x3000

unfoldable pub is_comma : Char → Bool
is_comma c = code c == b','

unfoldable pub trim_left : String → String
trim_left [] = []
trim_left (c ∷ s) = let rest = trim_left s in if is_space c then rest else c ∷ s

-- A character that nothing but spaces follows is left out if it is one too.
abbrev pub put_before : Char → String → String
put_before c s = if is_blank s && is_space c then [] else c ∷ s

unfoldable pub trim_right : String → String
trim_right [] = []
trim_right (c ∷ s) = put_before c (trim_right s)

unfoldable pub trim_space : String → String
unfolding trim_left trim_right
trim_space s = trim_left (trim_right s)

abbrev pub onto_first : Char → List String → List String
onto_first c List.[] = List.[]
onto_first c (List.◌∷◌ p ps) = List.◌∷◌ (c ∷ p) ps

-- strings.Split(s, ","): at least one part.
unfoldable pub split : String → List String
unfolding is_comma
split [] = List.◌∷◌ [] List.[]
split (c ∷ s) = let parts = split s in if is_comma c then List.◌∷◌ [] parts else onto_first c parts

-- strings.Join(parts, ", ")
unfoldable pub join : List String → String
join List.[] = []
join (List.◌∷◌ p List.[]) = p
join (List.◌∷◌ p (List.◌∷◌ q ps)) = p ++ (", " ++ join (List.◌∷◌ q ps))

-- The loop of parseCSV over the parts.
abbrev pub keep_filled : List String → List String
keep_filled parts = filter (λ p. not (is_blank p)) (map trim_space parts)

unfoldable pub fields : String → List String
unfolding split trim_space
fields value = keep_filled (split value)

-- parseCSV of SettingsHandler, on the field's value. Its nil and its empty slice are both the empty list.
unfoldable pub parse_csv : String → List String
unfolding fields trim_space
parse_csv value =
    let trimmed = trim_space value in if trimmed == "" then List.[] else fields trimmed
