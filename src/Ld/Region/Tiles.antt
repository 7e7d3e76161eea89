-- ===== src/Ld/Region/Tiles.antt =====
-- Chains whose regions stand one behind the other, and what an insertion makes of them.
use irid.Base.{
  ℕ, ◌≤◌, ◌≡◌, refl, false, not, ◌&&◌, [], ◌∷◌, ◌++◌, inl, inr, arith, ◌==◌, if◌then◌else◌,
  Bool-cases, ok,
}
use irid.Ld.Store.{Ptr, Store, null, free}
use irid.Ld.Region.{region_insert}
use irid.Ld.Region.Block.{Block, Slots, has, head_or, Seg}
use irid.Ld.Region.Insert.{Chained, IsNew}
use irid.Ld.Region.Refines.{Covers, end, in_front, rest, free_rest, inserted, insert-inserted}

-- The regions cover the addresses from `lo` to `hi`, in order and with no gap or overlap.
abbrev pub Tiles : ℕ → Slots → ℕ → Type 0
Tiles lo [] hi = lo ≡ hi
Tiles lo ((p, b) ∷ xs) hi = (b.start ≡ lo) × Tiles (end b) xs hi

pub Tiles-le : (lo : ℕ) (xs : Slots) {hi : ℕ} → Tiles lo xs hi → lo ≤ hi
Tiles-le lo [] t = omega arith
Tiles-le lo ((p, b) ∷ xs) t = omega (arith, Tiles-le (end b) xs t.1)

-- Where the regions `xs ++ ys` tile, so do both parts, and other regions can take the place of `ys`.
Tiles-split :
    (lo : ℕ) (xs ys : Slots) (hi : ℕ)
    → Tiles lo (xs ++ ys) hi
    → (mid : ℕ) × Tiles mid ys hi
      × ((zs : Slots) (hi' : ℕ) → Tiles mid zs hi' → Tiles lo (xs ++ zs) hi')
Tiles-split lo [] ys hi t = (lo, t, λ zs hi' t'. t')
Tiles-split lo ((p, b) ∷ xs) ys hi t =
    let (mid, there, other) = Tiles-split (end b) xs ys hi t.1 in
    (mid, there, λ zs hi' t'. (t.0, other zs hi' t'))

-- Where the regions that are reached after an insertion end.
abbrev pub end_after : (b c : Block) → ℕ → ℕ
end_after b c hi = if c.start == b.start && not (end c == end b) then hi else end b

-- If the regions of a chain tile the addresses up to `hi`, those that are reached after block `c` was
-- put into a block `b` that covers it tile the addresses up to `end_after b c hi`, which is at most `hi`.
inserted-Tiles :
    (into new fresh : Ptr) (b c : Block) (xs ys : Slots) (lo hi : ℕ)
    → Tiles lo (xs ++ ((into, b) ∷ ys)) hi
    → Covers b c
    → Tiles lo (inserted into new fresh b c xs ys) (end_after b c hi) × (end_after b c hi ≤ hi)
inserted-Tiles into new fresh b c xs ys lo hi t covers =
    let (mid, (here, behind), put) = Tiles-split lo xs ((into, b) ∷ ys) hi t in
    let le = Tiles-le (end b) ys behind in
    elim (Bool-cases (c.start == b.start)) [
      | inl h ↦ elim (Bool-cases (end c == end b)) [
        | inl k ↦ rw (h, k) (put ((new, c) ∷ []) (end b) (ground arith, ground arith), le)
        | inr k ↦
            let gap : end (rest b c) ≡ end b = ground arith in
            rw (h, k)
              (
                put ((new, c) ∷ (into, rest b c) ∷ ys) hi (ground arith, (refl, rw gap behind)),
                omega arith,
              )
      ]
      | inr h ↦ elim (Bool-cases (end c == end b)) [
        | inl k ↦
            rw (h, k)
              (
                put ((into, in_front b c) ∷ (new, c) ∷ []) (end b)
                    (here, (ground arith, ground arith)),
                le,
              )
        | inr k ↦
            rw (h, k)
              (
                put ((into, in_front b c) ∷ (new, c) ∷ (fresh, free_rest b c) ∷ []) (end b)
                    (here, (ground arith, (refl, ground arith))),
                le,
              )
      ]
    ]

module _ {s : Store} {first into new : Ptr} {xs ys : Slots} {b c : Block}
    (chain : Chained s first xs into b ys) (is_new : IsNew s new c)
    (new_out : has new (xs ++ ((into, b) ∷ ys)) ≡ false) (is_free : b.kind ≡ free)
    (covers : Covers b c) where
  -- Where the regions of a chain lie one behind the other from `lo` to `hi`, and block `c` goes into a free block
  -- `b` that covers it, `region_insert` succeeds, and the regions that are reached along `next` afterwards lie one
  -- behind the other from `lo` to `end_after b c hi`, which is at most `hi`.
  pub region_insert-Tiles :
      (lo hi : ℕ)
      → Tiles lo (xs ++ ((into, b) ∷ ys)) hi
      → (t : Store) × (zs : Slots) × (region_insert into new s ≡ ok (0, t))
        × Seg t.cells null (head_or null zs) zs
        × Tiles lo zs (end_after b c hi)
        × (end_after b c hi ≤ hi)
  region_insert-Tiles lo hi tiles =
      let (t, done, reached) = insert-inserted chain is_new new_out is_free covers in
      let (tiles', le) = inserted-Tiles into new s.fresh b c xs ys lo hi tiles covers in
      (t, inserted into new s.fresh b c xs ys, done, reached, tiles', le)
