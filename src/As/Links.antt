-- ===== src/As/Links.antt =====
-- as/src/assembler.cc: `link`, which writes the offset of a label into the code.
pub mod Raw
pub mod Jumps
use irid.Base.{
  ◌≤◌, ◌∙◌, ℕ, ◌+◌, ◌^◌, ◌<◌, ◌≡◌, ◌≢◌, refl, true, false, List, [], ◌∷◌, some, none, ltb, ok, stop,
  arith, get_elem?, length, Bool-cases, Option-cases, inl, inr, if◌then◌else◌,
}
use irid.Base.Bytes.{Bytes}
use irid.Base.Results.{◌>>=◌, >>=-eq-ok}
use irid.Tools.Contents.{put}
use irid.Tools.Writes.{get_elem?-put_here, get_elem?-put_elsewhere, put-longer}
use irid.As.State.{Assembler, LinkPoint, size, low, high, insert_code, find_label, link}

-- What a link leaves behind.
pub record Linked (p : LinkPoint) (s t : Assembler) : Type 0 where
  pub offset : ℕ
  pub found : find_label s.labels p.symbol ≡ some offset
  pub labels : t.labels ≡ s.labels
  pub code : t.code ≡ put (high offset ∷ []) (p.offset + 1) (put (low offset ∷ []) p.offset s.code)

insert_code-ok :
    (bytes : Bytes) (at : ℕ) (s : Assembler) {t : Assembler}
    → insert_code bytes at s ≡ ok t
    → (at + length bytes < 2 ^ 63) × (t.code ≡ put bytes at s.code) × (t.labels ≡ s.labels)
unfolding insert_code
insert_code-ok bytes at s h = elim (Bool-cases (ltb (at + length bytes) (2 ^ 63))) [
  | inl fits ↦ let e = rw fits at h in (ground arith, cc, cc)
  | inr large ↦ let e = rw large at h in cc
]

pub link-Linked : (p : LinkPoint) (s : Assembler) {t : Assembler} → link p s ≡ ok t → Linked p s t
unfolding link
link-Linked p s {t} h = elim (Option-cases (find_label s.labels p.symbol)) [
  | inl missing ↦ cc (rw (missing, link) at h)
  | inr (offset, found) ↦
      let (k, first, last) =
        >>=-eq-ok (insert_code (low offset ∷ []) p.offset s) _ (rw (found, link) at h) in
      let (small, code, labels) = insert_code-ok (low offset ∷ []) p.offset s first in
      let next : size (p.offset + 1) ≡ p.offset + 1 = omega arith in
      let (_, code', labels') = insert_code-ok (high offset ∷ []) (size (p.offset + 1)) k last in
      record {
        offset = offset;
        found = found;
        labels = labels' ∙ labels;
        code = rw (code', next, code) refl;
      }
]

-- The two bytes of the label's offset are there, and no other byte changes.
pub Linked-low :
    (p : LinkPoint) (s t : Assembler) (l : Linked p s t)
    → get_elem? t.code p.offset ≡ some (low l.offset)
Linked-low p s t l =
    let first = put (low l.offset ∷ []) p.offset s.code in
    let (longer, reached) = put-longer (low l.offset ∷ []) p.offset s.code in
    rw l.code (
      get_elem?-put_elsewhere (high l.offset) (p.offset + 1) first p.offset (omega (arith, reached))
        (ground arith)
      ∙ get_elem?-put_here (low l.offset) p.offset s.code)

pub Linked-high :
    (p : LinkPoint) (s t : Assembler) (l : Linked p s t)
    → get_elem? t.code (p.offset + 1) ≡ some (high l.offset)
Linked-high p s t l = rw l.code (get_elem?-put_here (high l.offset) (p.offset + 1) _)

pub Linked-other :
    (p : LinkPoint) (s t : Assembler) (l : Linked p s t) (i : ℕ)
    → i < length s.code
    → i ≢ p.offset
    → i ≢ p.offset + 1
    → get_elem? t.code i ≡ get_elem? s.code i
Linked-other p s t l i inside ne ne' =
    let (longer, reached) = put-longer (low l.offset ∷ []) p.offset s.code in
    rw l.code (
      get_elem?-put_elsewhere (high l.offset) (p.offset + 1) _ i (omega (arith, longer)) ne'
      ∙ get_elem?-put_elsewhere (low l.offset) p.offset s.code i inside ne)

pub Linked-longer : (p : LinkPoint) (s t : Assembler) → Linked p s t → length s.code ≤ length t.code
Linked-longer p s t l =
    let (longer, _) = put-longer (low l.offset ∷ []) p.offset s.code in
    let (longer', _) =
      put-longer (high l.offset ∷ []) (p.offset + 1) (put (low l.offset ∷ []) p.offset s.code) in
    rw l.code (omega (arith, longer, longer'))
