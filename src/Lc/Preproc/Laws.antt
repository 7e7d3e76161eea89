-- ===== src/Lc/Preproc/Laws.antt =====
-- What comments and tabs become.
use irid.Base.{
  ◌*◌, refl, ◌++◌, ◌+◌, if◌then◌else◌, sym, length, stop, not, ℕ, ◌≡◌, ◌≢◌, Bool, true, false, [],
  ◌∷◌, ◌==◌, ok, inl, inr, arith, Bool-cases,
}
use irid.Base.Bytes.{Bytes}
use irid.Base.Results.{>>=-eq-ok}
use irid.Lc.Preproc.{
  tab_count, crash, preproc_replace_tabs, replace_from, tab, newline, space, at_comment,
  remove_from, preproc_remove_comments,
}

-- `new` has the bytes of `old`, but for bytes of a comment, which are spaces; a comment runs from two
-- slashes to the end of its line. `inside` says that a comment has begun before.
pub data Blanked : Bool → Bytes → Bytes → Type 0 where
  done : Blanked false [] []
  code :
      {c : ℕ} {cs ds : Bytes}
      → at_comment c cs ≡ false
      → Blanked false cs ds
      → Blanked false (c ∷ cs) (c ∷ ds)
  begin :
      {c : ℕ} {cs ds : Bytes}
      → at_comment c cs ≡ true
      → Blanked true cs ds
      → Blanked false (c ∷ cs) (space ∷ ds)
  comment :
      {c : ℕ} {cs ds : Bytes}
      → c ≢ newline
      → Blanked true cs ds
      → Blanked true (c ∷ cs) (space ∷ ds)
  end :
      {c : ℕ} {cs ds : Bytes}
      → c ≡ newline
      → Blanked false cs ds
      → Blanked true (c ∷ cs) (newline ∷ ds)

remove_from-Blanked :
    (inside : Bool) (old : Bytes) {new : Bytes}
    → remove_from inside old ≡ ok new
    → Blanked inside old new
unfolding remove_from
remove_from-Blanked true [] h = cc
remove_from-Blanked false [] {new} h = let e : [] ≡ new = cc in rw (← e) done
remove_from-Blanked false (c ∷ cs) {new} h = elim (Bool-cases (at_comment c cs)) [
  | inl is ↦
      let (rest, at, later) = >>=-eq-ok (remove_from true cs) _ (rw is at h) in
      let e : space ∷ rest ≡ new = cc in rw (← e) (begin is (remove_from-Blanked true cs at))
  | inr isnt ↦
      let (rest, at, later) = >>=-eq-ok (remove_from false cs) _ (rw isnt at h) in
      let e : c ∷ rest ≡ new = cc in rw (← e) (code isnt (remove_from-Blanked false cs at))
]
remove_from-Blanked true (c ∷ cs) {new} h = elim (Bool-cases (c == newline)) [
  | inl is ↦
      let (rest, at, later) = >>=-eq-ok (remove_from false cs) _ (rw is at h) in
      let line : c ≡ newline = ground arith in
      let e : newline ∷ rest ≡ new = cc (line) in
      rw (← e) (end line (remove_from-Blanked false cs at))
  | inr isnt ↦
      let (rest, at, later) = >>=-eq-ok (remove_from true cs) _ (rw isnt at h) in
      let e : space ∷ rest ≡ new = cc in
      rw (← e) (comment (λ e. ground arith) (remove_from-Blanked true cs at))
]

-- What is left of a source is the source with its comments blanked.
pub remove_comments-Blanked :
    (source : Bytes) {new : Bytes}
    → preproc_remove_comments source ≡ ok new
    → Blanked false source new
unfolding preproc_remove_comments
remove_comments-Blanked source = remove_from-Blanked false source

-- A newline ends the source.
abbrev pub EndsLine : Bytes → Type 0
EndsLine [] = ⊥
EndsLine (c ∷ []) = c ≡ newline
EndsLine (c ∷ d ∷ cs) = EndsLine (d ∷ cs)

remove_from-ok :
    (inside : Bool) (c : ℕ) (cs : Bytes)
    → EndsLine (c ∷ cs)
    → (new : Bytes) × (remove_from inside (c ∷ cs) ≡ ok new)
unfolding remove_from
remove_from-ok true c [] e = (c ∷ [], rw e)
remove_from-ok false c [] e = (c ∷ [], refl)
remove_from-ok true c (d ∷ cs) e =
    let (new, at) = remove_from-ok (not (c == newline)) d cs e in
    ((if not (c == newline) then space else c) ∷ new, ground (arith, at))
remove_from-ok false c (d ∷ cs) e =
    let (new, at) = remove_from-ok (at_comment c (d ∷ cs)) d cs e in
    ((if at_comment c (d ∷ cs) then space else c) ∷ new, ground (arith, at))

-- Comments are removed from every source whose last byte is a newline, and what is left is the source
-- with its comments blanked.
pub remove_comments_total :
    (source : Bytes)
    → EndsLine source
    → (new : Bytes) × (preproc_remove_comments source ≡ ok new) × Blanked false source new
unfolding preproc_remove_comments
remove_comments_total [] e = elim e [ ]
remove_comments_total (c ∷ cs) e =
    let (new, at) = remove_from-ok false c cs e in (new, at, remove_from-Blanked false (c ∷ cs) at)

-- No byte is a newline.
abbrev pub OneLine : Bytes → Type 0
OneLine [] = Unit {0}
OneLine (c ∷ cs) = (c ≢ newline) × OneLine cs

remove_from-crash : (text : Bytes) → OneLine text → remove_from true text ≡ stop crash
unfolding remove_from
remove_from-crash [] h = refl
remove_from-crash (c ∷ cs) (ne, h) = ground (arith, remove_from-crash cs h)

comment-crash : (text : Bytes) → OneLine text → remove_from false (b'/' ∷ b'/' ∷ text) ≡ stop crash
unfolding remove_from
comment-crash text h = rw (remove_from-crash text h)

-- A comment that no newline ends makes the compiler read past the end of the source, whatever stands before it.
pub remove_comments-crash :
    (front text : Bytes)
    → OneLine text
    → preproc_remove_comments (front ++ (b'/' ∷ b'/' ∷ text)) ≡ stop crash
unfolding preproc_remove_comments
remove_comments-crash front text h = behind false front
  where
    behind :
        (inside : Bool) (front : Bytes)
        → remove_from inside (front ++ (b'/' ∷ b'/' ∷ text)) ≡ stop crash
    behind true [] =
        remove_from-crash (b'/' ∷ b'/' ∷ text)
          ((λ e. absurd (omega arith)), ((λ e. absurd (omega arith)), h))
    behind false [] = comment-crash text h
    behind true (c ∷ cs) = rw (remove_from, behind (not (c == newline)) cs) refl
    behind false (c ∷ cs) =
        rw (remove_from, behind (at_comment c (cs ++ (b'/' ∷ b'/' ∷ text))) cs) refl

-- What a source is with four spaces for each tab.
pub data Expanded : Bytes → Bytes → Type 0 where
  done : Expanded [] []
  byte : {c : ℕ} {cs ds : Bytes} → c ≢ tab → Expanded cs ds → Expanded (c ∷ cs) (c ∷ ds)
  spaces :
      {c : ℕ} {cs ds : Bytes}
      → c ≡ tab
      → Expanded cs ds
      → Expanded (c ∷ cs) (space ∷ space ∷ space ∷ space ∷ ds)

replace_from-Expanded : (source : Bytes) → Expanded source (replace_from source)
unfolding replace_from
replace_from-Expanded [] = done
replace_from-Expanded (c ∷ cs) = elim (Bool-cases (c == tab)) [
  | inl is ↦ rw is (spaces (ground arith) (replace_from-Expanded cs))
  | inr isnt ↦ rw isnt (byte (λ e. ground arith) (replace_from-Expanded cs))
]

length-replace_from :
    (source : Bytes) → length (replace_from source) ≡ length source + tab_count source * 3
unfolding replace_from tab_count
length-replace_from [] = refl
length-replace_from (c ∷ cs) = ground (arith, length-replace_from cs)

-- The new buffer holds the source with four spaces for each tab, and its computed size is exactly the
-- number of bytes that are written to it.
pub replace_tabs-Expanded :
    (source : Bytes)
    → Expanded source (preproc_replace_tabs source).1
      × ((preproc_replace_tabs source).0 ≡ length (preproc_replace_tabs source).1)
unfolding preproc_replace_tabs
replace_tabs-Expanded source = (replace_from-Expanded source, sym (length-replace_from source))
