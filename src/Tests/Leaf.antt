-- ===== src/Tests/Leaf.antt =====
-- The compiler's first passes on small sources and small registers of types.
use irid.Base.{
  zero, suc, suc, false, ℕ, ◌+◌, ◌≤◌, ◌<◌, ◌≡◌, ◌⊎◌, refl, List, [], ◌∷◌, ◌++◌, some, ok, stop,
  arith, get_elem?, length,
}
use irid.Base.Bytes.{Bytes, codes, equal}
use irid.Lc.Stop.{Compiling, crash}
use irid.Lc.Preproc.{preproc_remove_comments, preproc_replace_tabs}
use irid.Lc.Preproc.Laws.{
  Blanked, remove_comments_total, remove_comments-crash, Expanded, replace_tabs-Expanded,
}
use irid.Lc.Tokens.{
  TokType, Tok, isalpha, isdigit, isxdigit, isstartsymchar, issymchar, span, until_quote, single,
  punctuation, lex, tnew, tokenize_from, keyword_type, replace_sym, replace_syms_with_kw,
  tokens_tokenize,
}
use irid.Lc.Tokens.Order.{Ordered, Ends, tokens_tokenize-Ordered, tokens_tokenize_total}
use irid.Lc.Types.{
  TypeId, Field, LeafType, integer, pointer, struct, array, Types, type_at, sum_fields, size_step,
  type_size, find_field, field_offset, register_add_pointer,
}
use irid.Lc.Types.Size.{WellFounded, Fits, type_size_total, field_offset_bounds}
use irid.Lc.Types.Register.{add_pointer-WellFounded}

abbrev commented : Bytes
commented = b'a' ∷ b'/' ∷ b'/' ∷ b'x' ∷ b'\n' ∷ []

remove_comments_total_example :
    (new : Bytes) × (preproc_remove_comments commented ≡ ok new) × Blanked false commented new
remove_comments_total_example = remove_comments_total commented refl

remove_comments-crash_example :
    preproc_remove_comments ((b'a' ∷ b'\n' ∷ b'b' ∷ []) ++ (b'/' ∷ b'/' ∷ b'x' ∷ [])) ≡ stop crash
remove_comments-crash_example =
    remove_comments-crash (b'a' ∷ b'\n' ∷ b'b' ∷ []) (b'x' ∷ []) ((λ e. cc), tt)

replace_tabs-Expanded_example :
    Expanded (codes "\tx") (preproc_replace_tabs (codes "\tx")).1
    × ((preproc_replace_tabs (codes "\tx")).0 ≡ length (preproc_replace_tabs (codes "\tx")).1)
replace_tabs-Expanded_example = replace_tabs-Expanded (codes "\tx")

-- `let n = 12;`, as tokens.
abbrev assignment : Bytes
assignment = codes "let n = 12;"

abbrev assignment_tokens : List Tok
assignment_tokens =
    record { pos = 0; len = 3; type = TokType.kw_let }
    ∷ record { pos = 4; len = 1; type = TokType.sym }
    ∷ record { pos = 6; len = 1; type = TokType.eq }
    ∷ record { pos = 8; len = 2; type = TokType.num }
    ∷ record { pos = 10; len = 1; type = TokType.semicolon }
    ∷ record { pos = 11; len = 0; type = TokType.null }
    ∷ []

tokenize_assignment : tokens_tokenize assignment ≡ ok assignment_tokens
unfolding isalpha isdigit isxdigit isstartsymchar issymchar span until_quote single punctuation lex
    tnew tokenize_from keyword_type replace_sym replace_syms_with_kw tokens_tokenize equal
tokenize_assignment = refl

tokens_tokenize-Ordered_example :
    Ordered 0 assignment_tokens (length assignment) × Ends assignment_tokens (length assignment)
tokens_tokenize-Ordered_example = tokens_tokenize-Ordered assignment tokenize_assignment

tokens_tokenize_total_example :
    ((toks : List Tok) × (tokens_tokenize assignment ≡ ok toks))
    ⊎ (tokens_tokenize assignment ≡ stop crash)
tokens_tokenize_total_example = tokens_tokenize_total assignment

-- A 16-bit integer, a pointer to it, an array of four of them, and a structure with two of these.
abbrev word : LeafType
word = integer (codes "i16") 16

abbrev pair_fields : List Field
pair_fields = record { type = 1; name = codes "p" } ∷ record { type = 2; name = codes "a" } ∷ []

abbrev small_types : Types
small_types =
    word
    ∷ pointer (codes "i16") 0
    ∷ array (codes "i16") 0 4
    ∷ struct (codes "pair") pair_fields
    ∷ []

small_types-WellFounded : WellFounded small_types
small_types-WellFounded zero h = (_, refl, tt)
small_types-WellFounded (suc zero) h = (_, refl, tt)
small_types-WellFounded (suc (suc zero)) h = (_, refl, omega arith)
small_types-WellFounded (suc (suc (suc zero))) h = (_, refl, (omega arith, (omega arith, tt)))
small_types-WellFounded (suc (suc (suc (suc id)))) h = absurd (omega arith)

type_size_total_example : (n : ℕ) × (type_size 4 small_types 3 ≡ ok n)
type_size_total_example =
    type_size_total 4 small_types 3 small_types-WellFounded (omega arith) (omega arith)

abbrev sizes : TypeId → Compiling ℕ
sizes = type_size 4 small_types

field_a : find_field pair_fields (codes "a") ≡ some 2
unfolding find_field equal
field_a = refl

size_a : sizes 2 ≡ ok 8
unfolding type_at sum_fields size_step type_size
size_a = refl

size_pair : sum_fields sizes pair_fields ≡ ok 10
unfolding type_at sum_fields size_step type_size
size_pair = refl

offset_a : field_offset sizes pair_fields (codes "a") ≡ ok 2
unfolding type_at sum_fields size_step type_size field_offset equal
offset_a = refl

pair-Fits : Fits sizes pair_fields 10
unfolding type_at sum_fields size_step type_size
pair-Fits = (2, refl, omega arith, (8, refl, omega arith, tt))

field_offset_bounds_example : 2 + 8 ≤ 10
field_offset_bounds_example =
    field_offset_bounds sizes pair_fields (codes "a") 10 pair-Fits (omega arith) field_a size_a
      size_pair offset_a

add_pointer-WellFounded_example :
    (id : TypeId) × (types' : Types) × (n : Bytes) × (register_add_pointer small_types 3
      ≡ ok (id, types'))
    × (get_elem? types' id ≡ some (pointer n 3))
    × WellFounded types'
    × ((k : TypeId) → k < length small_types → get_elem? types' k ≡ get_elem? small_types k)
add_pointer-WellFounded_example =
    add_pointer-WellFounded small_types 3 small_types-WellFounded (omega arith)
