-- ===== src/As/Assembler.antt =====
-- as/src/assembler.cc: labels, directives and the lines of a source. `read_file_to_string` is a parameter of
-- what uses it, `none` for a file that cannot be opened, where the assembler ends with a message.
use irid.Base.{
  true, false, ◌||◌, zero, suc, ℕ, ◌+◌, ◌^◌, Bool, not, ◌&&◌, List, [], ◌∷◌, ◌++◌, Option, none,
  some, ◌==◌, leb, ltb, if◌then◌else◌, ok, stop, length, map,
}
use irid.Base.Bytes.{Bytes, codes}
use irid.Base.Results.{◌>>=◌, or_stop}
use irid.Tools.Contents.{put_fill}
use irid.As.Text.{
  starts_with, ends_with, lstrip_string, rstrip_string, remove_comments, split_lines,
  split_string_parts,
}
use irid.As.Numbers.{
  Assembling, crash, error, out_of_fuel, is_negative, size_of_int, parse_int, parse_string, init,
}
use irid.As.Symbols.{is_valid_start_symbol_char, is_valid_symbol, all_symbol_chars, entry}
use irid.As.State.{
  Assembler, NamedValue, initial, invalid_origin, size, low, insert_code, find_label,
}
use irid.As.Instructions.{Handler, parse_instruction}

-- Whether a label can have the name, and whether it is a local one.
unfoldable pub label_is_local : Bytes → Bytes → Assembling Bool
label_is_local last [] = stop error
label_is_local last (c ∷ cs) =
    if not (all_symbol_chars cs)
    then stop error
    else if c == b'@'
    then elim last [ [] ↦ stop error | l ∷ ls ↦ ok true ]
    else if is_valid_start_symbol_char c
    then ok false
    else stop error

-- `parse_label`; a label that is there already is searched for by the name as it is written.
unfoldable pub parse_label : Bytes → Assembler → Assembling Assembler
parse_label line s =
    let name = init (lstrip_string line) in
    label_is_local s.last_label name >>= λ is_local. elim (find_label s.labels name) [
      | some offset ↦ stop error
      | none ↦
          let whole = if is_local then s.last_label ++ name else name in
          ok (record s {
            labels = s.labels ++ (record { name = whole; offset = s.pos } ∷ []);
            last_label = if is_local then s.last_label else name;
          })
    ]

-- `directive_org`.
unfoldable pub directive_org : Handler
directive_org (directive ∷ part ∷ parts) s = parse_int part >>= λ value.
    let addr = size_of_int value in
    let lower = if ltb addr s.origin then addr else s.origin in
    ok (record s { pos = addr; origin = if s.origin == invalid_origin then addr else lower })
directive_org parts s = stop error

-- `directive_string`.
unfoldable pub directive_string : Handler
directive_string (directive ∷ part ∷ []) s = parse_string part >>= λ value.
    insert_code value s.pos s >>= λ s'.
    let end = size (s.pos + length value) in
    insert_code (0 ∷ []) end (record s' { pos = size (end + 1) })
directive_string parts s = stop error

-- `directive_byte`.
unfoldable pub directive_byte : Handler
directive_byte (directive ∷ part ∷ []) s = parse_int part >>= λ value.
    if not (is_negative value) && ltb 255 value
    then stop error
    else insert_code (low value ∷ []) s.pos (record s { pos = size (s.pos + 1) })
directive_byte parts s = stop error

-- `directive_resv`; there is no memory for a negative number of bytes.
unfoldable pub directive_resv : Handler
directive_resv (directive ∷ part ∷ []) s = parse_int part >>= λ bytes_to_resv.
    if is_negative bytes_to_resv || leb (2 ^ 63) (s.pos + bytes_to_resv)
    then stop crash
    else ok (record s { code = put_fill 0 s.pos bytes_to_resv s.code; pos = s.pos + bytes_to_resv })
directive_resv parts s = stop error

-- `directive_value`.
unfoldable pub directive_value : Handler
directive_value (directive ∷ name ∷ part ∷ []) s =
    if is_valid_symbol name
    then (parse_int part >>= λ value.
        ok (record s { values = s.values ++ (record { name = name; value = value } ∷ []) }))
    else stop error
directive_value parts s = stop error

-- `directive_export`.
unfoldable pub directive_export : Handler
directive_export (directive ∷ name ∷ []) s =
    if is_valid_symbol name
    then ok (record s { exports = s.exports ++ (name ∷ []) })
    else stop error
directive_export parts s = stop error

-- `directive_valuefile`; `values_of` yields the values that an assembler has after the file of that name.
unfoldable pub directive_valuefile : (Bytes → Assembling (List NamedValue)) → Handler
directive_valuefile values_of (directive ∷ part ∷ []) s = parse_string part >>= λ path.
    values_of path >>= λ values. ok (record s { values = s.values ++ values })
directive_valuefile values_of parts s = stop error

-- `register_directive_methods`.
abbrev pub directives : (Bytes → Assembling (List NamedValue)) → List (Bytes × Handler)
directives values_of =
    (codes "org", directive_org)
    ∷ (codes "string", directive_string)
    ∷ (codes "byte", directive_byte)
    ∷ (codes "resv", directive_resv)
    ∷ (codes "value", directive_value)
    ∷ (codes "valuefile", directive_valuefile values_of)
    ∷ (codes "export", directive_export)
    ∷ []

-- `parse_directive`.
unfoldable pub parse_directive : (Bytes → Assembling (List NamedValue)) → Handler
parse_directive values_of ((c ∷ directive) ∷ parts) s =
    elim (entry (directives values_of) directive) [
      | none ↦ stop error
      | some method ↦ method ((c ∷ directive) ∷ parts) s
    ]
parse_directive values_of parts s = stop crash

-- One line of `assemble`, which is not empty.
unfoldable pub assemble_line :
    (Bytes → Assembling (List NamedValue)) → Bytes → Assembler → Assembling Assembler
assemble_line values_of line s =
    if ends_with b':' line
    then parse_label line s
    else if starts_with b'.' (lstrip_string line)
    then parse_directive values_of (split_string_parts line) s
    else parse_instruction (split_string_parts line) s

-- One line of `assemble_only_values`.
unfoldable pub value_line :
    (Bytes → Assembling (List NamedValue)) → Bytes → Assembler → Assembling Assembler
value_line values_of line s =
    if starts_with b'.' (lstrip_string line)
    then parse_directive values_of (split_string_parts line) s
    else ok s

-- The loop over the lines.
unfoldable pub each_line :
    (Bytes → Assembler → Assembling Assembler) → List Bytes → Assembler → Assembling Assembler
each_line one [] s = ok s
each_line one ([] ∷ lines) s = each_line one lines s
each_line one ((c ∷ cs) ∷ lines) s = one (c ∷ cs) s >>= each_line one lines

-- The lines of a source as `assemble` reads them.
abbrev pub source_lines : Bytes → List Bytes
source_lines source = map (λ line. rstrip_string (remove_comments line)) (split_lines source)

module _ (read_file : Bytes → Option Bytes) where
  -- `assemble_only_values` on a file, with files that name files nested at most that deep.
  unfoldable pub values_of : ℕ → Bytes → Assembling (List NamedValue)
  values_of zero path = stop out_of_fuel
  values_of (suc n) path = or_stop error (read_file path) >>= λ source.
      each_line (value_line (values_of n)) (source_lines source) initial >>= λ s. ok (s.values)

  -- `assemble`.
  unfoldable pub assemble : ℕ → Bytes → Assembling Assembler
  assemble n source = each_line (assemble_line (values_of n)) (source_lines source) initial
