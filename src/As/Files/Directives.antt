-- ===== src/As/Files/Directives.antt =====
-- as/src/assembler.cc: labels, and directives that name no file.
use irid.Base.{
  not, ◌==◌, Bool-cases, All, ◌≡◌, true, false, List, [], ◌∷◌, some, Option-cases, inl, inr,
}
use irid.Base.Bytes.{Bytes, equal}
use irid.As.Symbols.{entry, all_symbol_chars, is_valid_start_symbol_char}
use irid.As.Text.{lstrip_string}
use irid.As.Numbers.{init}
use irid.As.State.{Assembler}
use irid.As.Instructions.{Handler, parse_instruction, instructions}
use irid.As.Assembler.{
  label_is_local, parse_label, directive_org, directive_string, directive_byte, directive_resv,
  directive_value, directive_export,
}
use irid.As.Files.Outcome.{
  Returns, error-Returns, crash-Returns, ok-Returns, if-Returns, >>=-Returns, option-Returns,
}
use irid.As.Files.Methods.{
  Safe, parse_int-Returns, parse_string-Returns, insert_code-Returns, no_arguments-Safe,
  dest_and_any-Safe, dest_and_r8-Safe, dest_and_addr-Safe, addr-Safe, register-Safe,
  load_and_store-Safe,
}

-- A property of every entry of a table holds of the entry that is found.
pub entry_All :
    (P : Handler → Type 0) (table : List (Bytes × Handler)) (name : Bytes) {method : Handler}
    → All (λ e. P e.1) table
    → entry table name ≡ some method
    → P method
unfolding entry
entry_All P [] name all h = cc
entry_All P ((name', m) ∷ table) name {method} (p, all) h = elim (Bool-cases (equal name' name)) [
  | inl here ↦ let found : m ≡ method = cc (rw here at h) in rw (← found) p
  | inr there ↦ entry_All P table name all (rw there at h)
]

pub instructions-Safe : All (λ e. Safe e.1) instructions
instructions-Safe = (
  no_arguments-Safe,
  (
    no_arguments-Safe,
    (
      no_arguments-Safe,
      (
        no_arguments-Safe,
        (
          no_arguments-Safe,
          (
            no_arguments-Safe,
            (
              dest_and_any-Safe,
              (
                dest_and_any-Safe,
                (
                  dest_and_any-Safe,
                  (
                    dest_and_any-Safe,
                    (
                      dest_and_any-Safe,
                      (
                        dest_and_any-Safe,
                        (
                          dest_and_any-Safe,
                          (
                            dest_and_any-Safe,
                            (
                              dest_and_any-Safe,
                              (
                                register-Safe,
                                (
                                  register-Safe,
                                  (
                                    dest_and_r8-Safe,
                                    (
                                      dest_and_r8-Safe,
                                      (
                                        dest_and_addr-Safe,
                                        (
                                          load_and_store-Safe 0x17 0x23,
                                          (
                                            load_and_store-Safe 0x18 0x24,
                                            (addr-Safe, (addr-Safe, (addr-Safe, tt))),
                                          ),
                                        ),
                                      ),
                                    ),
                                  ),
                                ),
                              ),
                            ),
                          ),
                        ),
                      ),
                    ),
                  ),
                ),
              ),
            ),
          ),
        ),
      ),
    ),
  ),
)

pub parse_instruction-Safe : Safe parse_instruction
unfolding parse_instruction
parse_instruction-Safe [] s = crash-Returns _
parse_instruction-Safe (mnemonic ∷ parts) s = elim (Option-cases (entry instructions mnemonic)) [
  | inl missing ↦ rw (parse_instruction, missing) (error-Returns _)
  | inr (method, found) ↦
      rw (parse_instruction, found)
        (entry_All Safe instructions mnemonic instructions-Safe found (mnemonic ∷ parts) s)
]

pub is_local-Returns : (last name : Bytes) → Returns (label_is_local last name)
unfolding label_is_local
is_local-Returns last [] = error-Returns _
is_local-Returns [] (c ∷ cs) = if-Returns (not (all_symbol_chars cs)) _ _ (error-Returns _) (
    if-Returns (c == b'@') _ _ (error-Returns _)
      (if-Returns (is_valid_start_symbol_char c) _ _ (ok-Returns false) (error-Returns _)))
is_local-Returns (l ∷ ls) (c ∷ cs) = if-Returns (not (all_symbol_chars cs)) _ _ (error-Returns _) (
    if-Returns (c == b'@') _ _ (ok-Returns true)
      (if-Returns (is_valid_start_symbol_char c) _ _ (ok-Returns false) (error-Returns _)))

pub label-Returns : (line : Bytes) (s : Assembler) → Returns (parse_label line s)
unfolding parse_label
label-Returns line s =
    >>=-Returns _ _ (is_local-Returns s.last_label (init (lstrip_string line)))
      (λ is_local. option-Returns _ _ _ (ok-Returns _) (λ offset. error-Returns _))

pub org-Safe : Safe directive_org
unfolding directive_org
org-Safe [] s = error-Returns _
org-Safe (directive ∷ []) s = error-Returns _
org-Safe (directive ∷ part ∷ parts) s =
    >>=-Returns _ _ (parse_int-Returns part) (λ value. ok-Returns _)

pub string-Safe : Safe directive_string
unfolding directive_string
string-Safe [] s = error-Returns _
string-Safe (directive ∷ []) s = error-Returns _
string-Safe (directive ∷ part ∷ part' ∷ parts) s = error-Returns _
string-Safe (directive ∷ part ∷ []) s =
    >>=-Returns _ _ (parse_string-Returns part) (λ value.
      >>=-Returns _ _ (insert_code-Returns value s.pos s) (λ s'. insert_code-Returns _ _ _))

pub byte-Safe : Safe directive_byte
unfolding directive_byte
byte-Safe [] s = error-Returns _
byte-Safe (directive ∷ []) s = error-Returns _
byte-Safe (directive ∷ part ∷ part' ∷ parts) s = error-Returns _
byte-Safe (directive ∷ part ∷ []) s =
    >>=-Returns _ _ (parse_int-Returns part)
      (λ value. if-Returns _ _ _ (error-Returns _) (insert_code-Returns _ _ _))

pub resv-Safe : Safe directive_resv
unfolding directive_resv
resv-Safe [] s = error-Returns _
resv-Safe (directive ∷ []) s = error-Returns _
resv-Safe (directive ∷ part ∷ part' ∷ parts) s = error-Returns _
resv-Safe (directive ∷ part ∷ []) s =
    >>=-Returns _ _ (parse_int-Returns part)
      (λ value. if-Returns _ _ _ (crash-Returns _) (ok-Returns _))

pub value-Safe : Safe directive_value
unfolding directive_value
value-Safe [] s = error-Returns _
value-Safe (directive ∷ []) s = error-Returns _
value-Safe (directive ∷ name ∷ []) s = error-Returns _
value-Safe (directive ∷ name ∷ part ∷ part' ∷ parts) s = error-Returns _
value-Safe (directive ∷ name ∷ part ∷ []) s =
    if-Returns _ _ _ (>>=-Returns _ _ (parse_int-Returns part) (λ value. ok-Returns _))
      (error-Returns _)

pub export-Safe : Safe directive_export
unfolding directive_export
export-Safe [] s = error-Returns _
export-Safe (directive ∷ []) s = error-Returns _
export-Safe (directive ∷ name ∷ part ∷ parts) s = error-Returns _
export-Safe (directive ∷ name ∷ []) s = if-Returns _ _ _ (ok-Returns _) (error-Returns _)
