-- ===== src/As/Links/Raw.antt =====
-- as/src/assembler.cc: `as_raw_binary`.
use mathlib.Core.Path.{subst}
use irid.Base.{
  get_elem?-bound, ℕ, ◌+◌, ◌<◌, ◌≡◌, ◌≢◌, ◌∙◌, List, [], ◌∷◌, some, ok, arith, get_elem?, length,
  All,
}
use irid.Base.Bytes.{Bytes}
use irid.Base.Results.{>>=-eq-ok}
use irid.As.State.{
  Assembler, Label, LinkPoint, low, high, find_label, link, link_all, as_raw_binary,
}
use irid.As.Links.{link-Linked, Linked-low, Linked-high, Linked-other, Linked-longer}

-- The offset of the label that the point names is at the point.
abbrev pub PointsTo : List Label → Bytes → LinkPoint → Type 0
PointsTo labels raw p =
    (offset : ℕ) × (find_label labels p.symbol ≡ some offset)
    × (get_elem? raw p.offset ≡ some (low offset))
    × (get_elem? raw (p.offset + 1) ≡ some (high offset))

-- No byte of a point is at `i`.
abbrev pub Clear : ℕ → List LinkPoint → Type 0
Clear i ps = All (λ p. (i ≢ p.offset) × (i ≢ p.offset + 1)) ps

-- No two points have a byte in common.
abbrev pub Apart : List LinkPoint → Type 0
Apart [] = Unit {0}
Apart (p ∷ ps) = Clear p.offset ps × Clear (p.offset + 1) ps × Apart ps

record AllLinked (ps : List LinkPoint) (s t : Assembler) : Type 0 where
  points : Apart ps → All (PointsTo s.labels t.code) ps
  others : (i : ℕ) → i < length s.code → Clear i ps → get_elem? t.code i ≡ get_elem? s.code i

link_all-AllLinked :
    (ps : List LinkPoint) (s t : Assembler) → link_all ps s ≡ ok t → AllLinked ps s t
unfolding link_all
link_all-AllLinked [] s t h = record { points = λ apart. tt; others = λ i inside clear. cc }
link_all-AllLinked (p ∷ ps) s t h =
    let (k, first, last) = >>=-eq-ok (link p s) (link_all ps) h in
    let one = link-Linked p s first in
    let rest = link_all-AllLinked ps k t last in
    let labels : k.labels ≡ s.labels = one.labels in
    let longer = Linked-longer p s k one in
    record {
      points = λ (clear, clear', apart). (
        (
          one.offset,
          one.found,
          rest.others p.offset (get_elem?-bound k.code p.offset (Linked-low p s k one)) clear
              ∙ Linked-low p s k one,
          rest.others (p.offset + 1) (get_elem?-bound k.code (p.offset + 1) (Linked-high p s k one))
                clear'
              ∙ Linked-high p s k one,
        ),
        subst (λ ls. All (PointsTo ls t.code) ps) labels (rest.points apart),
      );
      others = λ i inside ((ne, ne'), clear).
          rest.others i (omega (arith, longer)) clear ∙ Linked-other p s k one i inside ne ne';
    }

-- A raw binary holds, at every point where a label is used, the offset of that label, the low byte first, if
-- no two such points overlap; every other byte is as it was assembled. So every label that is used is there.
pub as_raw_binary-PointsTo :
    (s : Assembler) {raw : Bytes}
    → as_raw_binary s ≡ ok raw
    → Apart s.link_points
    → All (PointsTo s.labels raw) s.link_points
      × ((i : ℕ) → i < length s.code → Clear i s.link_points → get_elem? raw i ≡ get_elem? s.code i)
unfolding as_raw_binary
as_raw_binary-PointsTo s {raw} h apart =
    let (t, first, last) = >>=-eq-ok (link_all s.link_points s) _ h in
    let all = link_all-AllLinked s.link_points s t first in
    let is : t.code ≡ raw = cc in
    (rw (← is) (all.points apart), λ i inside clear. rw (← is) (all.others i inside clear))
