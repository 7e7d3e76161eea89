-- ===== src/Ld/Region/Refines.antt =====
-- ld_region_insert against its effect on the list of blocks.
use irid.Base.{
  ℕ, ◌+◌, ◌-◌, ◌≤◌, ◌≡◌, refl, ◌∙◌, ◌↔◌, true, false, not, none, ok, [], ◌∷◌, ◌++◌, inl, inr, arith,
  ◌==◌, if◌then◌else◌, Bool-cases,
}
use irid.Ld.Store.{Ptr, null, free, Store, load}
use irid.Ld.Store.Access.{load-ok}
use irid.Ld.Region.{contains, region_insert, insert_middle, insert_end, insert_begin, insert_over}
use irid.Ld.Region.Block.{Block, region, Slots, has, head_or, Seg, Seg-head}
use irid.Ld.Region.Chain
use irid.Ld.Region.Insert.{
  Chained, IsNew, middle-Seg, end-Seg, begin-Seg, over-Seg, middle-Succeeds, end-Succeeds,
  begin-Succeeds, over-Succeeds,
}

abbrev pub end : Block → ℕ
end b = b.start + b.size

-- The addresses of `c` are among those of `b`.
pub record Covers (b c : Block) : Type 0 where
  pub low : b.start ≤ c.start
  pub high : end c ≤ end b

-- What is left of the free block `b` in front of `c`, and behind it.
abbrev pub in_front : Block → Block → Block
in_front b c = record b { size = c.start - b.start }

abbrev pub rest : Block → Block → Block
rest b c = record b { start = end c; size = end b - end c }

abbrev pub free_rest : Block → Block → Block
free_rest b c = record { kind = free; start = end c; size = end b - end c; section = none }

-- The regions that can be reached along `next` after block `c`, at `new`, was put into the free
-- block `b`, at `into`, with `xs` in front of it and `ys` behind it. Only in the third case are the
-- regions `ys` still reached.
abbrev pub inserted : (into new fresh : Ptr) → (b c : Block) → Slots → Slots → Slots
inserted into new fresh b c xs ys =
    if not (c.start == b.start)
    then (if not (end c == end b)
        then xs ++ ((into, in_front b c) ∷ (new, c) ∷ (fresh, free_rest b c) ∷ [])
        else xs ++ ((into, in_front b c) ∷ (new, c) ∷ []))
    else (if not (end c == end b)
        then xs ++ ((new, c) ∷ (into, rest b c) ∷ ys)
        else xs ++ ((new, c) ∷ []))

head_or-append :
    (p : Ptr) (d : Block) (xs zs : Slots) → head_or p xs ≡ head_or null (xs ++ ((p, d) ∷ zs))
head_or-append p d [] zs = refl
head_or-append p d (x ∷ xs) zs = refl

pub contains_iff :
    (n p n' p' : Ptr) (b c : Block) → (contains (region n p b) (region n' p' c) ≡ true) ↔ Covers b c
unfolding contains
contains_iff n p n' p' b c = (λ h. ground arith, λ h. ground arith)

module _ {s : Store} {first into new : Ptr} {xs ys : Slots} {b c : Block}
    (chain : Chained s first xs into b ys) (is_new : IsNew s new c)
    (new_out : has new (xs ++ ((into, b) ∷ ys)) ≡ false) where
  loads :
      (load into s ≡ ok (region chain.next chain.prev b, s))
      × (load new s ≡ ok (region null null c, s))
  loads = (
    load-ok s chain.here.ne_null chain.here.holds,
    load-ok s is_new.here.ne_null is_new.here.holds,
  )

  -- A region that does not fit, or that would go into an allocated one, is refused with 1, and
  -- nothing changes.
  pub insert_refused :
      (contains (region chain.next chain.prev b) (region null null c) ≡ false)
      → region_insert into new s ≡ ok (1, s)
  unfolding region_insert
  insert_refused h = rw (loads.0, loads.1) (ground arith)

  module _ (is_free : b.kind ≡ free) (covers : Covers b c) where
    contained : contains (region chain.next chain.prev b) (region null null c) ≡ true
    contained = (contains_iff chain.next chain.prev null null b c).1 covers

    abbrev Reached : Slots → Type 0
    Reached zs =
        (t : Store) × (region_insert into new s ≡ ok (0, t)) × Seg t.cells null (head_or null zs) zs

    first_is : (d : Block) (zs : Slots) → first ≡ head_or null (xs ++ ((into, d) ∷ zs))
    first_is d zs = Seg-head chain.before ∙ head_or-append into d xs zs

    insert-middle :
        (c.start == b.start) ≡ false
        → (end c == end b) ≡ false
        → Reached (xs ++ ((into, in_front b c) ∷ (new, c) ∷ (s.fresh, free_rest b c) ∷ []))
    unfolding region_insert
    insert-middle h k =
        let n = end b - end c in
        let e1 : b.size - (c.start - b.start + c.size) ≡ n = ground arith in
        let e2 : b.size - (c.size + n) ≡ c.start - b.start = ground arith in
        (
          Chain.store_after s (insert_middle into new n s),
          rw (loads.0, loads.1, contained, e1)
              (ground (arith, middle-Succeeds chain is_new new_out n)),
          rw (← first_is (in_front b c) ((new, c) ∷ (s.fresh, free_rest b c) ∷ []))
              (rw e2 at (middle-Seg chain is_new new_out n)),
        )

    insert-end :
        (c.start == b.start) ≡ false
        → (end c == end b) ≡ true
        → Reached (xs ++ ((into, in_front b c) ∷ (new, c) ∷ []))
    unfolding region_insert
    insert-end h k =
        let e : b.size - c.size ≡ c.start - b.start = ground arith in
        (
          Chain.store_after s (insert_end into new s),
          rw (loads.0, loads.1, contained) (ground (arith, end-Succeeds chain is_new new_out)),
          rw (← first_is (in_front b c) ((new, c) ∷ [])) (rw e at (end-Seg chain is_new new_out)),
        )

    insert-begin :
        (c.start == b.start) ≡ true
        → (end c == end b) ≡ false
        → Reached (xs ++ ((new, c) ∷ (into, rest b c) ∷ ys))
    unfolding region_insert
    insert-begin h k =
        let e1 : b.size - c.size ≡ end b - end c = ground arith in
        let e2 : b.start + c.size ≡ end c = ground arith in
        (
          Chain.store_after s (insert_begin into new s),
          rw (loads.0, loads.1, contained) (ground (arith, begin-Succeeds chain is_new new_out)),
          rw (← head_or-append new c xs ((into, rest b c) ∷ ys))
              (rw (e1, e2) at (begin-Seg chain is_new new_out)),
        )

    insert-over :
        (c.start == b.start) ≡ true → (end c == end b) ≡ true → Reached (xs ++ ((new, c) ∷ []))
    unfolding region_insert
    insert-over h k = (
      Chain.store_after s (insert_over into new s),
      rw (loads.0, loads.1, contained) (ground (arith, over-Succeeds chain is_new new_out)),
      rw (← head_or-append new c xs []) (over-Seg chain is_new new_out),
    )

    -- Putting block `c` into a free block `b` that covers it succeeds, and afterwards exactly the
    -- regions `inserted` are reached along `next`, from the first of them.
    pub insert-inserted :
        (t : Store) × (region_insert into new s ≡ ok (0, t))
        × (let zs = inserted into new s.fresh b c xs ys in Seg t.cells null (head_or null zs) zs)
    insert-inserted = elim (Bool-cases (c.start == b.start)) [
      | inl h ↦ elim (Bool-cases (end c == end b)) [
        | inl k ↦ rw (h, k) (insert-over h k)
        | inr k ↦ rw (h, k) (insert-begin h k)
      ]
      | inr h ↦ elim (Bool-cases (end c == end b)) [
        | inl k ↦ rw (h, k) (insert-end h k)
        | inr k ↦ rw (h, k) (insert-middle h k)
      ]
    ]
