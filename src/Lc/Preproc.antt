-- ===== src/Lc/Preproc.antt =====
-- lc/src/preproc.c: comments and tabs. The source is its bytes without the NUL that ends it.
pub mod Laws
use irid.Base.{
  not, false, length, ℕ, zero, suc, ◌+◌, ◌*◌, Bool, ◌&&◌, List, [], ◌∷◌, ◌++◌, ◌==◌, if◌then◌else◌,
  ok, stop,
}
use irid.Base.Bytes.{Bytes}
use irid.Base.Results.{◌>>=◌}
use irid.Lc.Stop.{Compiling, crash}

abbrev pub newline : ℕ
newline = b'\n'

abbrev pub tab : ℕ
tab = b'\t'

abbrev pub space : ℕ
space = b' '

-- Two slashes at the head; past the end there is the NUL.
abbrev pub at_comment : ℕ → Bytes → Bool
at_comment c [] = false
at_comment c (d ∷ cs) = c == b'/' && d == b'/'

-- The loop of `preproc_remove_comments`; `inside` says that `q` has still to reach the end of the line.
-- Without a newline `q` runs past the end of the source.
unfoldable pub remove_from : Bool → Bytes → Compiling Bytes
remove_from inside [] = if inside then stop crash else ok []
remove_from inside (c ∷ cs) =
    let blank = if inside then not (c == newline) else at_comment c cs in
    remove_from blank cs >>= λ rest. ok ((if blank then space else c) ∷ rest)

-- `preproc_remove_comments`.
unfoldable pub preproc_remove_comments : Bytes → Compiling Bytes
unfolding remove_from
preproc_remove_comments source = remove_from false source

-- The first loop of `preproc_replace_tabs`: the number of tabs.
unfoldable pub tab_count : Bytes → ℕ
tab_count [] = 0
tab_count (c ∷ cs) = (if c == tab then 1 else 0) + tab_count cs

-- The second loop: what is written to the new buffer.
unfoldable pub replace_from : Bytes → Bytes
replace_from [] = []
replace_from (c ∷ cs) =
    (if c == tab then space ∷ space ∷ space ∷ space ∷ [] else c ∷ []) ++ replace_from cs

-- `preproc_replace_tabs`: the size of the buffer, without the 16 bytes more, and what is in it.
unfoldable pub preproc_replace_tabs : Bytes → ℕ × Bytes
unfolding tab_count replace_from
preproc_replace_tabs source = (length source + tab_count source * 3, replace_from source)
