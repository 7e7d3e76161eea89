-- ===== src/As/Files/Methods.antt =====
-- as/src/assembler.cc: instructions name no files.
use irid.Base.{◌++◌, ℕ, Bool, true, false, List, [], ◌∷◌, ok, stop}
use irid.Base.Bytes.{Bytes}
use irid.As.Numbers.{error, parse_int, parse_string, checked, character, strtol, unescape}
use irid.As.State.{
  Assembler, insert_code, insert_instruction, qualified, add_link_point, find_value,
  resolve_address_or_link,
}
use irid.As.Instructions.{
  Handler, register, known_instruction, address, insert_immediate, insert_value, insert_count,
  ins_no_arguments, ins_dest_and_any, ins_dest_and_r8, ins_dest_and_addr, ins_addr, ins_register,
  ins_load_and_store,
}
use irid.As.Files.Outcome.{
  Returns, error-Returns, crash-Returns, ok-Returns, if-Returns, or_stop-Returns, >>=-Returns,
  option-Returns,
}

pub checked-Returns : (v : Bool × ℕ) → Returns (checked v)
unfolding checked
checked-Returns (true, n) = if-Returns _ _ _ (error-Returns _) (ok-Returns _)
checked-Returns (false, n) = if-Returns _ _ _ (error-Returns _) (ok-Returns n)

pub character-Returns : (text : Bytes) → Returns (character text)
unfolding character
character-Returns [] = error-Returns _
character-Returns (a ∷ []) = error-Returns _
character-Returns (a ∷ b ∷ []) = error-Returns _
character-Returns (a ∷ b ∷ c ∷ []) = if-Returns _ _ _ (error-Returns _) (ok-Returns _)
character-Returns (a ∷ b ∷ c ∷ d ∷ []) = if-Returns _ _ _ (ok-Returns _) (error-Returns _)
character-Returns (a ∷ b ∷ c ∷ d ∷ e ∷ text) = error-Returns _

pub parse_int-Returns : (text : Bytes) → Returns (parse_int text)
unfolding parse_int
parse_int-Returns text =
    if-Returns _ _ _ (if-Returns _ _ _ (character-Returns text) (error-Returns _))
      (option-Returns (strtol text) _ _ (error-Returns _) checked-Returns)

pub parse_string-Returns : (text : Bytes) → Returns (parse_string text)
unfolding parse_string
parse_string-Returns text =
    if-Returns _ _ _ (option-Returns (unescape _) _ _ (error-Returns _) ok-Returns)
      (error-Returns _)

pub insert_code-Returns :
    (bytes : Bytes) (at : ℕ) (s : Assembler) → Returns (insert_code bytes at s)
unfolding insert_code
insert_code-Returns bytes at s = if-Returns _ _ _ (ok-Returns _) (crash-Returns _)

pub insert_instruction-Returns :
    (bytes : Bytes) (s : Assembler) → Returns (insert_instruction bytes s)
unfolding insert_instruction
insert_instruction-Returns bytes s = insert_code-Returns _ _ _

pub qualified-Returns : (symbol : Bytes) (s : Assembler) → Returns (qualified symbol s)
unfolding qualified
qualified-Returns [] s = ok-Returns _
qualified-Returns (c ∷ cs) s = if-Returns _ _ _ (by_label s.last_label (c ∷ cs)) (ok-Returns _)
  where
    by_label :
        (last symbol : Bytes)
        → Returns {A = Bytes} (elim last [ [] ↦ stop error | l ∷ ls ↦ ok (s.last_label ++ symbol) ])
    by_label [] symbol = error-Returns _
    by_label (l ∷ ls) symbol = ok-Returns _

pub add_link_point-Returns :
    (symbol : Bytes) (offset : ℕ) (s : Assembler) → Returns (add_link_point symbol offset s)
unfolding add_link_point
add_link_point-Returns symbol offset s =
    >>=-Returns _ _ (qualified-Returns symbol s) (λ name. ok-Returns _)

pub resolve-Returns :
    (symbol : Bytes) (offset : ℕ) (s : Assembler)
    → Returns (resolve_address_or_link symbol offset s)
unfolding resolve_address_or_link
resolve-Returns symbol offset s =
    option-Returns (find_value s.values symbol) _ _
      (>>=-Returns _ _ (add_link_point-Returns symbol offset s) (λ s'. ok-Returns _))
      (λ value. ok-Returns _)

pub register-Returns : (text : Bytes) → Returns (register text)
unfolding register
register-Returns text = or_stop-Returns _

pub known_instruction-Returns : (mnemonic : Bytes) → Returns (known_instruction mnemonic)
unfolding known_instruction
known_instruction-Returns mnemonic = if-Returns _ _ _ (crash-Returns _) (ok-Returns _)

pub address-Returns : (text : Bytes) (behind : ℕ) (s : Assembler) → Returns (address text behind s)
unfolding address
address-Returns text behind s =
    if-Returns _ _ _ (resolve-Returns text _ s)
      (>>=-Returns _ _ (parse_int-Returns text) (λ addr. ok-Returns _))

-- A method never runs out of files.
abbrev pub Safe : Handler → Type 0
Safe method = (parts : List Bytes) (s : Assembler) → Returns (method parts s)

pub no_arguments-Safe : Safe ins_no_arguments
unfolding ins_no_arguments
no_arguments-Safe [] s = crash-Returns _
no_arguments-Safe (mnemonic ∷ []) s = insert_instruction-Returns _ s
no_arguments-Safe (mnemonic ∷ part ∷ parts) s = error-Returns _

pub insert_value-Returns :
    (id dest : ℕ) (source : Bytes) (s : Assembler) → Returns (insert_value id dest source s)
unfolding insert_value insert_immediate
insert_value-Returns id dest source s =
    if-Returns _ _ _
      (>>=-Returns _ _ (resolve-Returns source _ s) (λ (addr, s'). insert_instruction-Returns _ s'))
      (>>=-Returns _ _ (parse_int-Returns source) (λ value.
        if-Returns _ _ _ (insert_instruction-Returns _ s) (insert_instruction-Returns _ s)))

pub dest_and_any-Safe : Safe ins_dest_and_any
unfolding ins_dest_and_any
dest_and_any-Safe [] s = crash-Returns _
dest_and_any-Safe (mnemonic ∷ []) s = error-Returns _
dest_and_any-Safe (mnemonic ∷ dest ∷ []) s = error-Returns _
dest_and_any-Safe (mnemonic ∷ dest ∷ source ∷ part ∷ parts) s = error-Returns _
dest_and_any-Safe (mnemonic ∷ dest ∷ source ∷ []) s =
    >>=-Returns _ _ (known_instruction-Returns mnemonic) (λ id.
      >>=-Returns _ _ (register-Returns dest) (λ r.
        option-Returns _ _ _ (insert_value-Returns id r source s)
          (λ p. insert_instruction-Returns _ s)))

pub dest_and_r8-Safe : Safe ins_dest_and_r8
unfolding ins_dest_and_r8 insert_count
dest_and_r8-Safe [] s = crash-Returns _
dest_and_r8-Safe (mnemonic ∷ []) s = error-Returns _
dest_and_r8-Safe (mnemonic ∷ dest ∷ []) s = error-Returns _
dest_and_r8-Safe (mnemonic ∷ dest ∷ source ∷ parts) s =
    >>=-Returns _ _ (known_instruction-Returns mnemonic) (λ id.
      >>=-Returns _ _ (register-Returns dest) (λ r.
        option-Returns _ _ _
          (>>=-Returns _ _ (parse_int-Returns source)
            (λ value. if-Returns _ _ _ (error-Returns _) (insert_instruction-Returns _ s)))
          (λ p. insert_instruction-Returns _ s)))

pub dest_and_addr-Safe : Safe ins_dest_and_addr
unfolding ins_dest_and_addr
dest_and_addr-Safe [] s = crash-Returns _
dest_and_addr-Safe (mnemonic ∷ []) s = error-Returns _
dest_and_addr-Safe (mnemonic ∷ dest ∷ []) s = error-Returns _
dest_and_addr-Safe (mnemonic ∷ dest ∷ text ∷ part ∷ parts) s = error-Returns _
dest_and_addr-Safe (mnemonic ∷ dest ∷ text ∷ []) s = >>=-Returns _ _ (register-Returns dest) (λ r.
    >>=-Returns _ _ (address-Returns text 2 s) (λ (addr, s'). insert_instruction-Returns _ s'))

pub addr-Safe : Safe ins_addr
unfolding ins_addr
addr-Safe [] s = crash-Returns _
addr-Safe (mnemonic ∷ []) s = error-Returns _
addr-Safe (mnemonic ∷ text ∷ parts) s =
    >>=-Returns _ _ (address-Returns text 1 s) (λ (addr, s'). insert_instruction-Returns _ s')

pub register-Safe : Safe ins_register
unfolding ins_register
register-Safe [] s = crash-Returns _
register-Safe (mnemonic ∷ []) s = error-Returns _
register-Safe (mnemonic ∷ reg ∷ parts) s =
    >>=-Returns _ _ (register-Returns reg) (λ r. insert_instruction-Returns _ s)

pub load_and_store-Safe : (id id' : ℕ) → Safe (ins_load_and_store id id')
unfolding ins_load_and_store
load_and_store-Safe id id' [] s = crash-Returns _
load_and_store-Safe id id' (mnemonic ∷ []) s = error-Returns _
load_and_store-Safe id id' (mnemonic ∷ reg ∷ []) s = error-Returns _
load_and_store-Safe id id' (mnemonic ∷ reg ∷ text ∷ parts) s =
    >>=-Returns _ _ (register-Returns reg) (λ r.
      option-Returns _ _ _
        (>>=-Returns _ _ (address-Returns text 2 s) (λ (addr, s'). insert_instruction-Returns _ s'))
        (λ p. insert_instruction-Returns _ s))
