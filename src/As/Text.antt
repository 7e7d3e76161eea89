-- ===== src/As/Text.antt =====
-- as/src/assembler.cc: lines, comments and the parts of a line. A `std::string` is its bytes.
use irid.Base.{ℕ, Bool, false, ◌&&◌, ◌||◌, List, [], ◌∷◌, ◌++◌, ◌==◌, leb, if◌then◌else◌}
use irid.Base.Bytes.{Bytes}

-- `isspace` in the C locale.
unfoldable pub isspace : ℕ → Bool
isspace c = c == b' ' || leb 9 c && leb c 13

-- `lstrip_string`; a text of spaces is left as it is.
unfoldable pub strip_left : Bytes → Bytes
strip_left [] = []
strip_left (c ∷ cs) = let rest = strip_left cs in if isspace c then rest else c ∷ cs

unfoldable pub lstrip_string : Bytes → Bytes
lstrip_string text = elim (strip_left text) [ [] ↦ text | c ∷ cs ↦ c ∷ cs ]

-- The text without the spaces at its end.
unfoldable pub strip_right : Bytes → Bytes
strip_right [] = []
strip_right (c ∷ cs) = elim (strip_right cs) [
  | [] ↦ if isspace c then [] else c ∷ []
  | d ∷ ds ↦ c ∷ d ∷ ds
]

-- `rstrip_string`, whose loop does not look at the first byte: a text that has no other byte but spaces
-- behind it is left as it is. For an empty text the loop looks at the byte in front of it, which is taken not
-- to be a space, and yields an empty text.
unfoldable pub rstrip_string : Bytes → Bytes
rstrip_string [] = []
rstrip_string (c ∷ cs) = elim (strip_right cs) [ [] ↦ c ∷ cs | d ∷ ds ↦ c ∷ d ∷ ds ]

-- `strip_string`.
unfoldable pub strip_string : Bytes → Bytes
strip_string text = lstrip_string (rstrip_string text)

-- `starts_with` and `ends_with`, of a byte.
abbrev pub starts_with : ℕ → Bytes → Bool
starts_with b [] = false
starts_with b (c ∷ cs) = c == b

abbrev pub ends_with : ℕ → Bytes → Bool
ends_with b [] = false
ends_with b (c ∷ []) = c == b
ends_with b (c ∷ d ∷ cs) = ends_with b (d ∷ cs)

-- `in_string` behind a byte: 0, or the quote that has begun it. Either quote ends it.
unfoldable pub quoted : ℕ → ℕ → ℕ
quoted in_string c =
    if c == b'"' || c == b'\'' then (if in_string == 0 then c else 0) else in_string

-- The loop of `remove_comments`.
unfoldable pub cut_comment : ℕ → Bytes → Bytes
cut_comment in_string [] = []
cut_comment in_string (c ∷ cs) =
    let inside = quoted in_string c in
    let rest = cut_comment inside cs in if inside == 0 && c == b';' then [] else c ∷ rest

-- `remove_comments`.
unfoldable pub remove_comments : Bytes → Bytes
remove_comments line = if starts_with b';' (strip_string line) then [] else cut_comment 0 line

-- `split_lines`.
unfoldable pub split_lines : Bytes → List Bytes
split_lines [] = [] ∷ []
split_lines (c ∷ cs) =
    let rest = split_lines cs in
    if c == b'\n' then [] ∷ rest else elim rest [ [] ↦ (c ∷ []) ∷ [] | l ∷ ls ↦ (c ∷ l) ∷ ls ]

-- The text without a comma at its end.
unfoldable pub drop_comma : Bytes → Bytes
drop_comma [] = []
drop_comma (c ∷ []) = if c == b',' then [] else c ∷ []
drop_comma (c ∷ d ∷ cs) = c ∷ drop_comma (d ∷ cs)

-- The loop of `split_string_parts`; `part` is `buffered_part`. The offsets of the parts only serve messages.
unfoldable pub split_from : ℕ → Bytes → Bytes → List Bytes
split_from in_string part [] = part ∷ []
split_from in_string part (c ∷ cs) =
    let inside = quoted in_string c in
    let longer = split_from inside (part ++ (c ∷ [])) cs in
    let same = split_from inside part cs in
    let next = split_from inside [] cs in
    if inside == 0 && isspace c
    then elim part [ [] ↦ same | p ∷ ps ↦ drop_comma (p ∷ ps) ∷ next ]
    else longer

-- `split_string_parts`.
unfoldable pub split_string_parts : Bytes → List Bytes
split_string_parts line = split_from 0 [] line
