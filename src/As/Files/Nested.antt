-- ===== src/As/Files/Nested.antt =====
-- as/src/assembler.cc: `.valuefile`, where no file names itself through other files.
use irid.Base.{
  All, get_elem?, ℕ, zero, suc, ◌<◌, ◌≡◌, ◌≢◌, refl, List, [], ◌∷◌, Option, some, ok, stop, arith,
  Option-cases, inl, inr,
}
use irid.Base.Bytes.{Bytes}
use irid.As.Symbols.{entry}
use irid.As.Text.{split_string_parts}
use irid.As.Numbers.{Assembling, out_of_fuel, parse_string}
use irid.As.State.{initial, Assembler, NamedValue}
use irid.As.Instructions.{Handler}
use irid.As.Assembler.{
  directive_valuefile, directives, parse_directive, assemble_line, value_line, each_line,
  source_lines, values_of, assemble,
}
use irid.As.Files.Outcome.{
  Result-cases, Returns, error-Returns, crash-Returns, ok-Returns, if-Returns, >>=-Returns,
}
use irid.As.Files.Methods.{Safe, parse_string-Returns}
use irid.As.Files.Directives.{
  entry_All, parse_instruction-Safe, label-Returns, org-Safe, string-Safe, byte-Safe, resv-Safe,
  value-Safe, export-Safe,
}

-- The parts of a line name the file.
unfoldable pub Names : List Bytes → Bytes → Type 0
Names parts path =
    (directive part : Bytes) × (parts ≡ directive ∷ part ∷ []) × (parse_string part ≡ ok path)

module _ (values : Bytes → Assembling (List NamedValue)) where
  -- A directive that names no file for which files run out.
  Reads : Handler → Type 0
  Reads method =
      (parts : List Bytes) (s : Assembler)
      → ((path : Bytes) → Names parts path → Returns (values path))
      → Returns (method parts s)

  Safe-Reads : {method : Handler} → Safe method → Reads method
  unfolding Reads
  Safe-Reads safe parts s named = safe parts s

  valuefile-Reads : Reads (directive_valuefile values)
  unfolding Reads directive_valuefile Names
  valuefile-Reads [] s named = error-Returns _
  valuefile-Reads (directive ∷ []) s named = error-Returns _
  valuefile-Reads (directive ∷ part ∷ part' ∷ parts) s named = error-Returns _
  valuefile-Reads (directive ∷ part ∷ []) s named = elim (Result-cases (parse_string part)) [
    | inl (path, e) ↦
        rw e (>>=-Returns _ _ (named path (directive, part, refl, e)) (λ vs. ok-Returns _))
    | inr (why, e) ↦ λ h. parse_string-Returns part (cc (rw e at h))
  ]

  directives-Reads : All (λ e. Reads e.1) (directives values)
  directives-Reads = (
    Safe-Reads org-Safe,
    (
      Safe-Reads string-Safe,
      (
        Safe-Reads byte-Safe,
        (
          Safe-Reads resv-Safe,
          (Safe-Reads value-Safe, (valuefile-Reads, (Safe-Reads export-Safe, tt))),
        ),
      ),
    ),
  )

  directive-Reads : Reads (parse_directive values)
  unfolding Reads parse_directive
  directive-Reads [] s named = crash-Returns _
  directive-Reads ([] ∷ parts) s named = crash-Returns _
  directive-Reads ((c ∷ directive) ∷ parts) s named =
      elim (Option-cases (entry (directives values) directive)) [
        | inl missing ↦ rw (parse_directive, missing) (error-Returns _)
        | inr (method, found) ↦
            rw (parse_directive, found)
              (entry_All Reads (directives values) directive directives-Reads found
                ((c ∷ directive) ∷ parts) s named)
      ]

  value_line-Returns :
      (line : Bytes) (s : Assembler)
      → ((path : Bytes) → Names (split_string_parts line) path → Returns (values path))
      → Returns (value_line values line s)
  unfolding value_line Reads
  value_line-Returns line s named =
      if-Returns _ _ _ (directive-Reads (split_string_parts line) s named) (ok-Returns _)

  assemble_line-Returns :
      (line : Bytes) (s : Assembler)
      → ((path : Bytes) → Names (split_string_parts line) path → Returns (values path))
      → Returns (assemble_line values line s)
  unfolding assemble_line Reads
  assemble_line-Returns line s named = if-Returns _ _ _ (label-Returns line s) (
      if-Returns _ _ _ (directive-Reads (split_string_parts line) s named)
        (parse_instruction-Safe _ s))

each_line-Returns :
    (one : Bytes → Assembler → Assembling Assembler) (lines : List Bytes) (s : Assembler)
    → ((i : ℕ) (line : Bytes) (s : Assembler)
        → get_elem? lines i ≡ some line
        → Returns (one line s))
    → Returns (each_line one lines s)
unfolding each_line
each_line-Returns one [] s each = ok-Returns _
each_line-Returns one ([] ∷ lines) s each =
    each_line-Returns one lines s (λ i line s' is. each (suc i) line s' is)
each_line-Returns one ((c ∷ cs) ∷ lines) s each =
    >>=-Returns _ _ (each 0 (c ∷ cs) s refl)
      (λ s'. each_line-Returns one lines s' (λ i line s'' is. each (suc i) line s'' is))

module _ (read_file : Bytes → Option Bytes) where
  -- A line of the source names the file.
  unfoldable pub Mentions : Bytes → Bytes → Type 0
  Mentions source path =
      (i : ℕ) × (line : Bytes) × (get_elem? (source_lines source) i ≡ some line)
      × Names (split_string_parts line) path

  -- The files that a file names have a smaller rank than it.
  unfoldable pub Ranked : (Bytes → ℕ) → Type 0
  Ranked rank =
      (path source other : Bytes)
      → read_file path ≡ some source
      → Mentions source other
      → rank other < rank path

  values_of-Returns :
      (rank : Bytes → ℕ)
      → Ranked rank
      → (n : ℕ) (path : Bytes) → rank path < n
      → Returns (values_of read_file n path)
  unfolding values_of Ranked Mentions
  values_of-Returns rank ranked zero path h = absurd (omega arith)
  values_of-Returns rank ranked (suc n) path h = elim (Option-cases (read_file path)) [
    | inl missing ↦ rw missing (error-Returns _)
    | inr (source, found) ↦ rw found (
        >>=-Returns _ _
          (each_line-Returns (value_line (values_of read_file n)) (source_lines source) initial
            (λ i line s is. value_line-Returns (values_of read_file n) line s (λ other names.
              let less = ranked path source other found (i, line, is, names) in
              values_of-Returns rank ranked n other (omega (arith, less)))))
          (λ s. ok-Returns _))
  ]

  -- Where files of values do not name themselves through other files, and a fuel above the rank of every file
  -- that the source names is given, the assembler ends: with its result, an error or a crash.
  pub assemble-ends :
      (rank : Bytes → ℕ) (n : ℕ) (source : Bytes)
      → Ranked rank
      → ((path : Bytes) → Mentions source path → rank path < n)
      → assemble read_file n source ≢ stop out_of_fuel
  unfolding assemble Mentions
  assemble-ends rank n source ranked below =
      each_line-Returns (assemble_line (values_of read_file n)) (source_lines source) initial
        (λ i line s is.
          assemble_line-Returns (values_of read_file n) line s
            (λ path names. values_of-Returns rank ranked n path (below path (i, line, is, names))))
