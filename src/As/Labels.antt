-- ===== src/As/Labels.antt =====
-- as/src/assembler.cc: labels in front of instructions, and local labels.
use mathlib.Core.List.{append_assoc}
use irid.Base.{
  ℕ, ◌+◌, ◌≤◌, ◌%◌, ◌≡◌, ◌≢◌, ◌∙◌, refl, ap, Bool, true, false, List, [], ◌∷◌, ◌++◌, none, ok, stop,
  arith, length, length-append, ◌==◌, if◌then◌else◌, Bool-cases, Option-cases, inl, inr, All,
}
use irid.Base.Bytes.{Bytes, equal, equal_iff}
use irid.Base.Results.{>>=-eq-ok}
use irid.As.Text.{starts_with, lstrip_string}
use irid.As.Numbers.{Assembling, error, init}
use irid.As.Symbols.{all_symbol_chars}
use irid.As.State.{Assembler, Label, aligned, move_label, find_label}
use irid.As.Instructions.{parse_instruction}
use irid.As.Assembler.{label_is_local, parse_label}
use irid.Emul.Cpu.{CpuState}
use irid.Emul.Registers.{ip}
use irid.Emul.Decode.{Instruction, fetch}
use irid.As.Meaning.{taken_instruction}
use irid.As.Encoding.{labels_behind, Loaded, Encodes-fetch}
use irid.As.Encoding.Fetched.{parse_instruction-Encodes}

-- No label stands at the position.
abbrev pub NoneAt : ℕ → List Label → Type 0
NoneAt pos ls = All (λ l. l.offset ≢ pos) ls

abbrev pub label_at : Bytes → ℕ → Label
label_at name offset = record { name = name; offset = offset }

move_label-append :
    (ls rest : List Label) (name : Bytes) (pos to : ℕ)
    → NoneAt pos ls
    → move_label pos to (ls ++ (label_at name pos ∷ rest)) ≡ ls ++ (label_at name to ∷ rest)
unfolding move_label
move_label-append [] rest name pos to none_at =
    let e : (pos == pos) ≡ true = ground arith in rw e refl
move_label-append (l ∷ ls) rest name pos to (ne, none_at) =
    let e : (l.offset == pos) ≡ false = ground arith in
    rw (e, move_label-append ls rest name pos to none_at) refl

-- The name of a label: a local one goes behind the name of the label before.
abbrev pub label_name : Bool → Bytes → Bytes → Bytes
label_name is_local last text = if is_local then last ++ text else text

-- What a label adds.
record Added (line : Bytes) (s t : Assembler) : Type 0 where
  is_local : Bool
  local_is : label_is_local s.last_label (init (lstrip_string line)) ≡ ok is_local
  name : Bytes
  name_is : name ≡ label_name is_local s.last_label (init (lstrip_string line))
  labels : t.labels ≡ s.labels ++ (label_at name s.pos ∷ [])
  pos : t.pos ≡ s.pos

parse_label-Added :
    (line : Bytes) (s : Assembler) {t : Assembler} → parse_label line s ≡ ok t → Added line s t
unfolding parse_label
parse_label-Added line s h =
    let text = init (lstrip_string line) in
    let (is_local, e, next) = >>=-eq-ok (label_is_local s.last_label text) _ h in
    elim (Option-cases (find_label s.labels text)) [
      | inl missing ↦
          let last = rw missing at next in
          record {
            is_local = is_local;
            local_is = e;
            name = label_name is_local s.last_label text;
            name_is = refl;
            labels = cc;
            pos = cc;
          }
      | inr (offset, found) ↦ cc (rw found at next)
    ]

labels_behind-append :
    (s t : Assembler) (rest : List Label) (name : Bytes)
    → t.labels ≡ s.labels ++ (label_at name s.pos ∷ rest)
    → t.pos ≡ s.pos
    → NoneAt s.pos s.labels
    → labels_behind t ≡ s.labels ++ (label_at name (aligned s.pos) ∷ rest)
labels_behind-append s t rest name labels pos free = elim (Bool-cases (s.pos % 4 == 0)) [
  | inl four ↦ rw (labels, pos, four) refl
  | inr odd ↦ rw (labels, pos, odd) (move_label-append s.labels rest name s.pos _ free)
]

-- A label and an instruction behind it: the label, local to the one before it if it starts with an at sign, is the
-- next address that is a multiple of four, if no other label stands at the position, and the other labels stay. A
-- processor that goes on at the label, with the code in its memory, fetches the instruction that the line is taken
-- as.
pub label_at_instruction :
    (line : Bytes) (parts : List Bytes) (s t u : Assembler) (c : CpuState) {i : Instruction}
    → parse_label line s ≡ ok t
    → taken_instruction parts t ≡ ok i
    → parse_instruction parts t ≡ ok u
    → NoneAt s.pos s.labels
    → Loaded u.code c
    → c.reg ip ≡ aligned s.pos
    → aligned s.pos + 4 ≤ 65536
    → (is_local : Bool) × (label_is_local s.last_label (init (lstrip_string line)) ≡ ok is_local)
      × (u.labels
          ≡ s.labels
            ++ (label_at
                  (label_name is_local s.last_label (init (lstrip_string line)))
                  (aligned s.pos)
                ∷ []))
      × (fetch c ≡ ok i)
label_at_instruction line parts s t u c {i} labelled taken assembled free loaded at fits =
    let added = parse_label-Added line s labelled in
    let (j, is, encodes) = parse_instruction-Encodes parts t u assembled in
    let same : j ≡ i = cc in
    (
      added.is_local,
      added.local_is,
      rw (← added.name_is)
          (encodes.labels ∙ labels_behind-append s t [] added.name added.labels added.pos free),
      rw (← same) (Encodes-fetch t u j c encodes loaded (rw added.pos at) (rw added.pos fits)),
    )

-- Of two labels in front of an instruction, where no other label stands, the first one becomes the next address that
-- is a multiple of four, and the second one stays where the bytes before the instruction end.
pub second_label_stays :
    (line line' : Bytes) (parts : List Bytes) (s t t' u : Assembler)
    → parse_label line s ≡ ok t
    → parse_label line' t ≡ ok t'
    → parse_instruction parts t' ≡ ok u
    → NoneAt s.pos s.labels
    → (name name' : Bytes) × (u.labels
        ≡ s.labels ++ (label_at name (aligned s.pos) ∷ label_at name' s.pos ∷ []))
second_label_stays line line' parts s t t' u first second assembled free =
    let added = parse_label-Added line s first in
    let added' = parse_label-Added line' t second in
    let (i, is, encodes) = parse_instruction-Encodes parts t' u assembled in
    (
      added.name,
      added'.name,
      encodes.labels
          ∙ labels_behind-append s t' (label_at added'.name s.pos ∷ []) added.name
              (added'.labels ∙ rw (added.labels, added.pos) (append_assoc s.labels _ _))
              (added'.pos ∙ added.pos) free,
    )

local-shape :
    (last : Bytes) (c : ℕ) (cs : Bytes) {is_local : Bool}
    → (c == b'@') ≡ true
    → label_is_local last (c ∷ cs) ≡ ok is_local
    → (is_local ≡ true) × ((l : ℕ) × (ls : Bytes) × (last ≡ l ∷ ls))
unfolding label_is_local
local-shape last c cs at h = elim (Bool-cases (all_symbol_chars cs)) [
  | inr other ↦ cc (rw other at h)
  | inl valid ↦ shape last (rw (valid, at) at h)
]
  where
    shape :
        (last : Bytes) {is_local : Bool}
        → ◌≡◌ {A = Assembling Bool} (elim last [ [] ↦ stop error | l ∷ ls ↦ ok true ]) (ok is_local)
        → (is_local ≡ true) × ((l : ℕ) × (ls : Bytes) × (last ≡ l ∷ ls))
    shape [] h = cc
    shape (l ∷ ls) h = (cc, (l, ls, refl))

equal-longer : (l : ℕ) (ls text : Bytes) → equal ((l ∷ ls) ++ text) text ≡ false
equal-longer l ls text = elim (Bool-cases (equal ((l ∷ ls) ++ text) text)) [
  | inr other ↦ other
  | inl same ↦
      let e = ap length ((equal_iff ((l ∷ ls) ++ text) text).0 same) in
      absurd (omega (arith, length-append (l ∷ ls) text))
]

find_label-append :
    (ls : List Label) (l : Label) (name : Bytes)
    → find_label ls name ≡ none
    → equal l.name name ≡ false
    → find_label (ls ++ (l ∷ [])) name ≡ none
unfolding find_label
find_label-append [] l name missing other = rw other refl
find_label-append (k ∷ ls) l name missing other = elim (Bool-cases (equal k.name name)) [
  | inl same ↦ cc (rw same at missing)
  | inr differs ↦ rw differs (find_label-append ls l name (rw differs at missing) other)
]

declares :
    (text : Bytes) (s : Assembler)
    → label_is_local s.last_label (init (lstrip_string text)) ≡ ok true
    → find_label s.labels (init (lstrip_string text)) ≡ none
    → (u : Assembler) × (parse_label text s ≡ ok u)
unfolding parse_label
declares text s local missing = (
  record s {
    labels = s.labels ++ (label_at (s.last_label ++ init (lstrip_string text)) s.pos ∷ []);
    last_label = s.last_label;
  },
  rw (local, missing) refl,
)

parse_local :
    (text : Bytes) (c : ℕ) (cs : Bytes) (s t : Assembler)
    → (c == b'@') ≡ true
    → init (lstrip_string text) ≡ c ∷ cs
    → parse_label text s ≡ ok t
    → (u : Assembler) × (parse_label text t ≡ ok u)
unfolding parse_label
parse_local text c cs s t at is h =
    let (is_local, e, next) = >>=-eq-ok (label_is_local s.last_label (c ∷ cs)) _ (rw is at h) in
    let (yes_local, (l, ls, last)) = local-shape s.last_label c cs at e in
    elim (Option-cases (find_label s.labels (c ∷ cs))) [
      | inr (offset, found) ↦ cc (rw found at next)
      | inl missing ↦
          let ends = rw (missing, yes_local) at next in
          let same : t.last_label ≡ s.last_label = cc in
          let labels : t.labels ≡ s.labels ++ (label_at (s.last_label ++ (c ∷ cs)) s.pos ∷ []) =
            cc in
          let longer : equal (s.last_label ++ (c ∷ cs)) (c ∷ cs) ≡ false =
            rw last (equal-longer l ls (c ∷ cs)) in
          let still : find_label t.labels (c ∷ cs) ≡ none = rw labels (
            find_label-append s.labels (label_at (s.last_label ++ (c ∷ cs)) s.pos) (c ∷ cs) missing
              longer) in
          let local : label_is_local t.last_label (c ∷ cs) ≡ ok true =
            rw (same, e, yes_local) refl in
          declares text t (rw is local) (rw is still)
    ]

-- A local label can be declared again behind the same label.
pub local_label_again :
    (line : Bytes) (s t : Assembler)
    → starts_with b'@' (init (lstrip_string line)) ≡ true
    → parse_label line s ≡ ok t
    → (u : Assembler) × (parse_label line t ≡ ok u)
local_label_again line s t at h = by_first (init (lstrip_string line)) refl at
  where
    by_first :
        (text : Bytes)
        → init (lstrip_string line) ≡ text
        → starts_with b'@' text ≡ true
        → (u : Assembler) × (parse_label line t ≡ ok u)
    by_first [] is at = cc
    by_first (c ∷ cs) is at = parse_local line c cs s t at is h
