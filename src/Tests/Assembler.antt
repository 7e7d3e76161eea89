-- ===== src/Tests/Assembler.antt =====
-- The assembler on small sources.
use irid.Base.{
  get_elem?-bound, Bool, ℕ, zero, suc, ◌<◌, ◌≡◌, ◌≢◌, refl, List, [], ◌∷◌, Option, none, some, ok,
  stop, arith, get_elem?, length, All,
}
use irid.Base.Bytes.{Bytes, codes, equal}
use irid.Tools.Contents.{put}
use irid.Emul.Cpu.{CpuState, u16}
use irid.Emul.Instructions.{Operation}
use irid.Emul.Decode.{Instruction, fetch}
use irid.As.Text.{
  isspace, strip_left, lstrip_string, strip_right, rstrip_string, strip_string, quoted, cut_comment,
  remove_comments, split_lines, drop_comma, split_from, split_string_parts,
}
use irid.As.Numbers.{
  digit, digits, number, prefixed, skip_spaces, strtol, checked, parse_int, init, out_of_fuel,
}
use irid.As.Symbols.{
  is_valid_start_symbol_char, is_valid_symbol_char, all_symbol_chars, is_valid_symbol,
  try_parse_register, entry, instruction_id_from_mnemonic,
}
use irid.As.State.{
  Assembler, Label, initial, insert_code, move_label, insert_instruction, qualified, add_link_point,
  find_value, resolve_address_or_link, find_label, link, link_all, as_raw_binary,
}
use irid.As.Instructions.{
  register, known_instruction, address, insert_immediate, insert_value, ins_no_arguments,
  ins_dest_and_any, ins_addr, parse_instruction,
}
use irid.As.Assembler.{label_is_local, parse_label, assemble, source_lines}
use irid.As.Meaning.{
  taken_instruction, line_instruction, in_language, is_documented, is_unsigned, meant, immediate,
  number_of,
}
use irid.As.Encoding.{Loaded}
use irid.As.Encoding.Fetched.{parse_instruction-fetch}
use irid.As.Links.Raw.{PointsTo, Clear, as_raw_binary-PointsTo}
use irid.As.Links.Jumps.{point, linked_jump, misplaced_jump}
use irid.As.Labels.{
  label_name, label_at, label_at_instruction, second_label_stays, local_label_again,
}
use irid.As.Files.Nested.{Names, Mentions, Ranked, assemble-ends}

-- A processor with the code in its memory, that is to go on at an address.
abbrev loaded_at : Bytes → ℕ → CpuState
loaded_at code at = record {
  reg = λ r. at;
  mem = λ a. elim (get_elem? code a) [ none ↦ 0 | some b ↦ b ];
  total_size = length code;
}

loaded_at-Loaded : (code : Bytes) (at : ℕ) → Loaded code (loaded_at code at)
loaded_at-Loaded code at i b h = (get_elem?-bound code i h, rw (loaded_at, h) refl)

-- `mov r1, 300` behind two bytes.
abbrev mov_line : List Bytes
mov_line = codes "mov" ∷ codes "r1" ∷ codes "300" ∷ []

abbrev two_bytes : Assembler
two_bytes = record initial { code = 7 ∷ 8 ∷ []; pos = 2 }

abbrev mov_assembled : Assembler
mov_assembled = record initial { code = 7 ∷ 8 ∷ 0 ∷ 0 ∷ 0x16 ∷ 1 ∷ 44 ∷ 1 ∷ []; pos = 8 }

mov_is_assembled : parse_instruction mov_line two_bytes ≡ ok mov_assembled
unfolding parse_instruction entry equal ins_dest_and_any known_instruction
    instruction_id_from_mnemonic register try_parse_register insert_value is_valid_symbol
    is_valid_start_symbol_char parse_int strtol skip_spaces isspace prefixed number digits digit
    checked insert_immediate insert_instruction insert_code move_label put
mov_is_assembled = refl

mov_names : line_instruction mov_line two_bytes ≡ ok (Instruction.operation_imm Operation.mov 1 300)
unfolding line_instruction in_language is_documented is_unsigned taken_instruction meant immediate
    number_of entry equal register try_parse_register is_valid_symbol is_valid_start_symbol_char
    parse_int strtol skip_spaces isspace prefixed number digits digit checked
mov_names = refl

parse_instruction-fetch_example :
    fetch (loaded_at mov_assembled.code 4) ≡ ok (Instruction.operation_imm Operation.mov 1 300)
parse_instruction-fetch_example =
    parse_instruction-fetch mov_line two_bytes mov_assembled (loaded_at mov_assembled.code 4)
      mov_names mov_is_assembled (loaded_at-Loaded mov_assembled.code 4) refl (omega arith)

-- A jump to a label at 8.
abbrev at_start : Assembler
at_start = record initial { labels = label_at (codes "end") 8 ∷ [] }

abbrev jump_assembled : Assembler
jump_assembled = record at_start {
  link_points = point (codes "end") 1 at_start ∷ [];
  code = 0x30 ∷ 0 ∷ 0 ∷ 0 ∷ [];
  pos = 4;
}

abbrev jump_linked : Assembler
jump_linked = record jump_assembled { code = 0x30 ∷ 8 ∷ 0 ∷ 0 ∷ [] }

jump_is_assembled : ins_addr (codes "jmp" ∷ codes "end" ∷ []) at_start ≡ ok jump_assembled
unfolding ins_addr address is_valid_symbol is_valid_start_symbol_char is_valid_symbol_char
    all_symbol_chars resolve_address_or_link find_value add_link_point qualified
    instruction_id_from_mnemonic entry equal insert_instruction insert_code put
jump_is_assembled = refl

jump_is_linked : link (point (codes "end") 1 at_start) jump_assembled ≡ ok jump_linked
unfolding link find_label equal insert_code put
jump_is_linked = refl

linked_jump_example :
    (offset : ℕ) × (find_label jump_assembled.labels (codes "end") ≡ some offset)
    × (fetch (loaded_at jump_linked.code 0) ≡ ok (Instruction.jmp (u16 offset)))
unfolding instruction_id_from_mnemonic entry equal is_valid_symbol is_valid_start_symbol_char
    is_valid_symbol_char all_symbol_chars find_value qualified
linked_jump_example =
    linked_jump (codes "jmp") (codes "end") (codes "end") 0x30 Instruction.jmp at_start
      jump_assembled jump_assembled jump_linked (point (codes "end") 1 at_start)
      (loaded_at jump_linked.code 0) refl refl (omega arith) refl refl refl (omega arith)
      jump_is_assembled refl (λ i lt. refl) jump_is_linked (loaded_at-Loaded jump_linked.code 0)
      refl refl

-- The same behind one byte.
abbrev one_byte : Assembler
one_byte = record at_start { code = 7 ∷ []; pos = 1 }

abbrev late_jump : Assembler
late_jump = record one_byte {
  link_points = point (codes "end") 1 one_byte ∷ [];
  code = 7 ∷ 0 ∷ 0 ∷ 0 ∷ 0x30 ∷ 0 ∷ 0 ∷ 0 ∷ [];
  pos = 8;
}

abbrev late_linked : Assembler
late_linked = record late_jump { code = 7 ∷ 0 ∷ 8 ∷ 0 ∷ 0x30 ∷ 0 ∷ 0 ∷ 0 ∷ [] }

late_jump_is_assembled : ins_addr (codes "jmp" ∷ codes "end" ∷ []) one_byte ≡ ok late_jump
unfolding ins_addr address is_valid_symbol is_valid_start_symbol_char is_valid_symbol_char
    all_symbol_chars resolve_address_or_link find_value add_link_point qualified
    instruction_id_from_mnemonic entry equal insert_instruction insert_code move_label put
late_jump_is_assembled = refl

late_jump_is_linked : link (point (codes "end") 1 one_byte) late_jump ≡ ok late_linked
unfolding link find_label equal insert_code put
late_jump_is_linked = refl

misplaced_jump_example : fetch (loaded_at late_linked.code 4) ≡ ok (Instruction.jmp 0)
unfolding instruction_id_from_mnemonic entry equal is_valid_symbol is_valid_start_symbol_char
    is_valid_symbol_char all_symbol_chars find_value qualified
misplaced_jump_example =
    misplaced_jump (codes "jmp") (codes "end") (codes "end") 0x30 Instruction.jmp one_byte late_jump
      late_jump late_linked (point (codes "end") 1 one_byte) (loaded_at late_linked.code 4) refl
      refl (omega arith) refl refl refl (omega arith) late_jump_is_assembled refl (λ i lt. refl)
      late_jump_is_linked (loaded_at-Loaded late_linked.code 4) refl refl

raw_jump : as_raw_binary jump_assembled ≡ ok jump_linked.code
unfolding as_raw_binary link_all link find_label equal insert_code put
raw_jump = refl

as_raw_binary-PointsTo_example :
    All (PointsTo at_start.labels jump_linked.code) jump_assembled.link_points
    × ((i : ℕ)
        → i < 4
        → Clear i jump_assembled.link_points
        → get_elem? jump_linked.code i ≡ get_elem? jump_assembled.code i)
as_raw_binary-PointsTo_example = as_raw_binary-PointsTo jump_assembled raw_jump (tt, tt, tt)

-- `here:` and `there:` in front of a `ret`, behind one byte.
abbrev labelled : Assembler
labelled = record initial {
  labels = label_at (codes "here") 1 ∷ [];
  last_label = codes "here";
  code = 7 ∷ [];
  pos = 1;
}

abbrev unlabelled : Assembler
unlabelled = record initial { code = 7 ∷ []; pos = 1 }

abbrev twice_labelled : Assembler
twice_labelled = record labelled {
  labels = label_at (codes "here") 1 ∷ label_at (codes "there") 1 ∷ [];
  last_label = codes "there";
}

abbrev returned : List Label → Bytes → Assembler
returned labels last = record initial {
  labels = labels;
  last_label = last;
  code = 7 ∷ 0 ∷ 0 ∷ 0 ∷ 0x35 ∷ 0 ∷ 0 ∷ 0 ∷ [];
  pos = 8;
}

parse_here : parse_label (codes "here:") unlabelled ≡ ok labelled
unfolding parse_label label_is_local lstrip_string strip_left isspace init all_symbol_chars
    is_valid_symbol_char is_valid_start_symbol_char find_label equal
parse_here = refl

parse_there : parse_label (codes "there:") labelled ≡ ok twice_labelled
unfolding parse_label label_is_local lstrip_string strip_left isspace init all_symbol_chars
    is_valid_symbol_char is_valid_start_symbol_char find_label equal
parse_there = refl

ret_behind_one :
    parse_instruction (codes "ret" ∷ []) labelled
    ≡ ok (returned (label_at (codes "here") 4 ∷ []) (codes "here"))
unfolding parse_instruction entry equal ins_no_arguments instruction_id_from_mnemonic
    insert_instruction insert_code move_label put
ret_behind_one = refl

ret_behind_two :
    parse_instruction (codes "ret" ∷ []) twice_labelled
    ≡ ok (returned (label_at (codes "here") 4 ∷ label_at (codes "there") 1 ∷ []) (codes "there"))
unfolding parse_instruction entry equal ins_no_arguments instruction_id_from_mnemonic
    insert_instruction insert_code move_label put
ret_behind_two = refl

ret_taken : taken_instruction (codes "ret" ∷ []) labelled ≡ ok Instruction.ret
unfolding taken_instruction meant entry equal
ret_taken = refl

label_at_instruction_example :
    (is_local : Bool) × (label_is_local [] (codes "here") ≡ ok is_local)
    × (label_at (codes "here") 4 ∷ [] ≡ label_at (label_name is_local [] (codes "here")) 4 ∷ [])
    × (fetch (loaded_at (returned [] []).code 4) ≡ ok Instruction.ret)
unfolding lstrip_string strip_left isspace init
label_at_instruction_example =
    label_at_instruction (codes "here:") (codes "ret" ∷ []) unlabelled labelled
      (returned (label_at (codes "here") 4 ∷ []) (codes "here")) (loaded_at (returned [] []).code 4)
      parse_here ret_taken ret_behind_one tt (loaded_at-Loaded (returned [] []).code 4) refl
      (omega arith)

second_label_stays_example :
    (name name' : Bytes) × (label_at (codes "here") 4 ∷ label_at (codes "there") 1 ∷ []
      ≡ label_at name 4 ∷ label_at name' 1 ∷ [])
second_label_stays_example =
    second_label_stays (codes "here:") (codes "there:") (codes "ret" ∷ []) unlabelled labelled
      twice_labelled
      (returned (label_at (codes "here") 4 ∷ label_at (codes "there") 1 ∷ []) (codes "there"))
      parse_here parse_there ret_behind_two tt

-- A local label behind `here`.
abbrev with_local_label : Assembler
with_local_label = record labelled {
  labels = label_at (codes "here") 1 ∷ label_at (codes "here@x") 1 ∷ [];
}

parse_local_label : parse_label (codes "@x:") labelled ≡ ok with_local_label
unfolding parse_label label_is_local lstrip_string strip_left isspace init all_symbol_chars
    is_valid_symbol_char is_valid_start_symbol_char find_label equal
parse_local_label = refl

local_label_again_example : (u : Assembler) × (parse_label (codes "@x:") with_local_label ≡ ok u)
unfolding lstrip_string strip_left isspace init
local_label_again_example =
    local_label_again (codes "@x:") labelled with_local_label refl parse_local_label

-- A file with one value, which is there under every name.
abbrev values_text : Bytes
values_text = codes ".value n 5"

abbrev always : Bytes → Option Bytes
always path = some values_text

abbrev naming_text : Bytes
naming_text = codes ".valuefile \"v\""

values_lines : source_lines values_text ≡ values_text ∷ []
unfolding remove_comments cut_comment quoted rstrip_string strip_right strip_string lstrip_string
    strip_left isspace split_lines
values_lines = refl

values_parts : split_string_parts values_text ≡ codes ".value" ∷ codes "n" ∷ codes "5" ∷ []
unfolding split_string_parts split_from quoted isspace drop_comma
values_parts = refl

no_file :
    (i : ℕ) (line directive part : Bytes)
    → get_elem? (values_text ∷ []) i ≡ some line
    → split_string_parts line ≢ directive ∷ part ∷ []
no_file zero line directive part is parts =
    let e : values_text ≡ line = cc in
    let three : split_string_parts line ≡ codes ".value" ∷ codes "n" ∷ codes "5" ∷ [] =
      rw (← e) values_parts in
    cc
no_file (suc i) line directive part is parts = cc

always-Ranked : Ranked always (λ path. 0)
unfolding Ranked Mentions Names
always-Ranked path text other found (i, line, is, (directive, part, parts, named)) =
    let same : values_text ≡ text = cc in
    let there : get_elem? (source_lines values_text) i ≡ some line = rw same is in
    absurd (no_file i line directive part (rw values_lines at there) parts)

assemble-ends_example : assemble always 1 naming_text ≢ stop out_of_fuel
assemble-ends_example =
    assemble-ends always (λ path. 0) 1 naming_text always-Ranked (λ path mentioned. omega arith)
