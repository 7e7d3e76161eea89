-- ===== src/Lc/Compiler/Keeps.antt =====
-- Code that adds blocks behind those that stand there, and none of them for a local variable.
pub mod Args
pub mod Calls
pub mod Assign
pub mod Statements
use mathlib.Core.List.{append_assoc}
use irid.Base.{
  ℕ, ◌≡◌, refl, Bool, true, false, List, [], ◌∷◌, ◌++◌, Option, none, some, Result, ok, stop,
  if◌then◌else◌, and_then, ◌==◌, All,
}
use irid.Base.Bytes.{codes, Bytes}
use irid.Lc.Stop.{Stop, Compiling}
use irid.Lc.Tokens.{Tok}
use irid.Lc.Types.{TypeId, type_at, Types, register_resolve}
use irid.Lc.Emit.Blocks.{Block}
use irid.Lc.Parser.{ParsedType}
use irid.Lc.Compiler.Values.{
  Draft, immediate, string, local, global, op, addr, index, with_cast, base_of, or_crash,
  resolve_type, find_var,
}
use irid.Lc.Compiler.{
  add_pointer, find_variable, Context, Compile, set_types, ce, found_type, make_real_type,
  add_block, alloc_local, new_label,
}

-- The block is not that of a local variable.
abbrev pub NotLocal : Block → Type 0
NotLocal (Block.local l) = ⊥
NotLocal _ = Unit {0}

-- The function has the blocks in front, and no blocks of local variables behind them.
abbrev pub First : List Block → Context → Type 0
First b s = (behind : List Block) × (s.func.blocks ≡ b ++ behind) × All NotLocal behind

pub All-append : (xs ys : List Block) → All NotLocal xs → All NotLocal ys → All NotLocal (xs ++ ys)
All-append [] ys all all' = all'
All-append (x ∷ xs) ys (h, all) all' = (h, All-append xs ys all all')

-- A run that, where it ends well, leaves the blocks in front and no block of a local behind them.
pub data Kept {A : Type 0} (b : List Block) : Result Stop (A × Context) → Type 0 where
  kept : {a : A} {s : Context} → First b s → Kept b (ok (a, s))
  stopped : {why : Stop} → Kept b (stop why)

pub ok_pair :
    {A B : Type 0} {a a' : A} {b b' : B}
    → ◌≡◌ {A = Result Stop (A × B)} (ok (a, b)) (ok (a', b'))
    → (a ≡ a') × (b ≡ b')
ok_pair e = (cc, cc)

module _ (b : List Block) where
  pub Kept-bind :
      {A B : Type 0} {r : Result Stop (A × Context)} {k : A → Compile B}
      → Kept b r
      → ((a : A) (s : Context) → First b s → Kept b (k a s))
      → Kept b (and_then r k)
  Kept-bind (kept {a} {s} first) next = next a s first
  Kept-bind stopped next = stopped

  -- What a run that ended well has left.
  pub Kept-ok :
      {A : Type 0} {r : Result Stop (A × Context)} {a : A} {s : Context}
      → r ≡ ok (a, s)
      → Kept b r
      → First b s
  Kept-ok e (kept {a} {s} first) = let same : s ≡ _ = (ok_pair e).1 in rw same at first
  Kept-ok e stopped = cc

  -- The same, for what holds of every run that stops.
  pub Kept-then :
      {A B : Type 0} (P : Result Stop (B × Context) → Type 0) {r : Result Stop (A × Context)}
      {k : A → Compile B}
      → ((why : Stop) → P (stop why))
      → Kept b r
      → ((a : A) (s : Context) → First b s → P (k a s))
      → P (and_then r k)
  Kept-then P stops (kept {a} {s} first) next = next a s first
  Kept-then P stops (stopped {why}) next = stops why

  module _ {A : Type 0} where
    pub Kept-if :
        (t : Bool) (m n : Compile A) {s : Context}
        → Kept b (m s)
        → Kept b (n s)
        → Kept b ((if t then m else n) s)
    Kept-if true m n hm hn = hm
    Kept-if false m n hm hn = hn

    pub Kept-option :
        {X : Type 0} (o : Option X) (m : Compile A) (k : X → Compile A) {s : Context}
        → Kept b (m s)
        → ((x : X) → Kept b (k x s))
        → Kept b ((elim o as (λ _. Compile A) [ none ↦ m | some x ↦ k x ]) s)
    Kept-option none m k hm hk = hm
    Kept-option (some x) m k hm hk = hk x

    pub ce-Kept : (place : Option Tok) (s : Context) → Kept b (ce {A = A} place s)
    unfolding ce
    ce-Kept none s = stopped
    ce-Kept (some place) s = stopped

    pub types_read :
        (r : Compiling A) (s : Context)
        → First b s
        → Kept {A = A} b (elim r [ stop why ↦ stop why | ok a ↦ ok (a, s) ])
    types_read (stop why) s first = stopped
    types_read (ok a) s first = kept first

    pub types_changed :
        (r : Compiling (A × Types)) (s : Context)
        → First b s
        → Kept {A = A} b
            (elim r [ stop why ↦ stop why | ok (a, types) ↦ ok (a, set_types s types) ])
    types_changed (stop why) s first = stopped
    types_changed (ok (a, types)) s first = kept first

  found_type-Kept :
      (parsed : ParsedType) (found : Option TypeId) (s : Context)
      → First b s
      → Kept b (found_type parsed found s)
  unfolding found_type
  found_type-Kept parsed none s first = ce-Kept (some parsed.place) s
  found_type-Kept parsed (some named) s first =
      Kept-bind (Kept-if parsed.is_pointer _ _ (types_changed _ s first) (kept first))
        λ base s' first'. Kept-if (parsed.count == 0) _ _ (kept first') (types_changed _ s' first')

  pub make_real_type-Kept :
      (parsed : ParsedType) (s : Context) → First b s → Kept b (make_real_type parsed s)
  unfolding make_real_type
  make_real_type-Kept parsed s first =
      found_type-Kept parsed (register_resolve s.compiler.types parsed.name) s first

  pub add_block-Kept :
      (block : Block) (s : Context) → NotLocal block → First b s → Kept b (add_block block s)
  unfolding add_block
  add_block-Kept block s other (behind, e, all) = kept (
    behind ++ (block ∷ []),
    rw (e, append_assoc) refl,
    All-append behind (block ∷ []) all (other, tt),
  )

  pub alloc_local-Kept :
      (type : TypeId) (name : Bytes) (has_decl : Bool) (s : Context)
      → First b s
      → Kept b (alloc_local type name has_decl s)
  unfolding alloc_local
  alloc_local-Kept type name has_decl s first = kept first

  pub new_label-Kept : (c : ℕ) (s : Context) → First b s → Kept b (new_label c s)
  unfolding new_label
  new_label-Kept c s first = kept first

  pub add_pointer-Kept : (base : TypeId) (s : Context) → First b s → Kept b (add_pointer base s)
  add_pointer-Kept base s first = types_changed _ s first

  pub or_crash-Kept : {A : Type 0} (o : Option A) (s : Context) → First b s → Kept b (or_crash o s)
  or_crash-Kept none s first = stopped
  or_crash-Kept (some a) s first = kept first

  pub resolve_type-Kept : (value : Draft) (s : Context) → First b s → Kept b (resolve_type value s)
  unfolding resolve_type
  resolve_type-Kept (immediate n) s first = kept first
  resolve_type-Kept (string id) s first =
      Kept-bind (or_crash-Kept (register_resolve s.compiler.types (codes "char")) s first)
        λ char s₁ f₁. Kept-bind (add_pointer-Kept char s₁ f₁) λ type s₂ f₂. kept f₂
  resolve_type-Kept (local l offset none deref) s first = kept first
  resolve_type-Kept (local l offset (some type) deref) s first = kept first
  resolve_type-Kept (global l offset none deref) s first = kept first
  resolve_type-Kept (global l offset (some type) deref) s first = kept first
  resolve_type-Kept (op type left right) s first = resolve_type-Kept left s first
  resolve_type-Kept (addr l) s first =
      Kept-bind (add_pointer-Kept l.type s first) λ type s₁ f₁. kept f₁
  resolve_type-Kept (index var offset size deref) s first =
      Kept-bind (resolve_type-Kept var s first) λ found s₁ f₁. Kept-option found _ _ (kept f₁) λ id.
        Kept-bind (types_read (type_at s₁.compiler.types id) s₁ f₁)
          λ type s₂ f₂. Kept-option (base_of type) _ _ stopped λ base. kept f₂
  resolve_type-Kept (with_cast type value) s first = resolve_type-Kept value s first

  pub find_var-Kept : (name : Bytes) (s : Context) → First b s → Kept b (find_var name s)
  unfolding find_var
  find_var-Kept name s first =
      Kept-option (find_variable s.func.locals name) _ _
        (Kept-option (find_variable s.compiler.globals name) _ _ (kept first) λ v. kept first)
        λ v. kept first
