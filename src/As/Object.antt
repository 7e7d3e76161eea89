-- ===== src/As/Object.antt =====
-- as/src/assembler.cc: `as_object`, the object file of what was assembled.
mod Named
pub mod Loaded
use irid.Base.{ℕ, List, [], ◌∷◌, Option, none, some, ◌==◌, if◌then◌else◌, false, ok, stop}
use irid.Base.Bytes.{Bytes, codes}
use irid.Base.Results.{◌>>=◌, or_stop}
use irid.As.Numbers.{Assembling, error, crash}
use irid.As.State.{Assembler, Label, LinkPoint, invalid_origin, find_label}
use irid.Tools.Builder.{
  SectionBuilder, set_origin, add_link, add_export, add_symbol, build_section, build_file,
}

-- The builder with the code, the name and the flag; the origin, unless it is set, is arbitrary.
abbrev pub builder : ℕ → Assembler → SectionBuilder
builder arbitrary s = record {
  origin_set = false;
  flag = 0;
  origin = arbitrary;
  code = s.code;
  name = codes "code";
  strings = [];
  symbols = [];
  links = [];
  exports = [];
}

-- The loops over the link points, the exported names and the labels.
unfoldable pub add_links : List LinkPoint → SectionBuilder → SectionBuilder
add_links [] b = b
add_links (p ∷ ps) b = add_links ps (add_link p.symbol p.offset b)

unfoldable pub add_exports : List Label → List Bytes → SectionBuilder → Assembling SectionBuilder
add_exports labels [] b = ok b
add_exports labels (name ∷ names) b = or_stop error (find_label labels name) >>= λ offset.
    add_exports labels names (add_export name offset b)

unfoldable pub add_symbols : List Label → SectionBuilder → SectionBuilder
add_symbols [] b = b
add_symbols (l ∷ ls) b = add_symbols ls (add_symbol l.name l.offset b)

-- `as_object`.
unfoldable pub as_object : ℕ → Assembler → Assembling Bytes
as_object arbitrary s =
    let start = builder arbitrary s in
    let b = if s.origin == invalid_origin then start else set_origin s.origin start in
    add_exports s.labels s.exports (add_links s.link_points b) >>= λ b'.
    or_stop crash (build_section (add_symbols s.labels b')) >>= λ bytes.
    ok (build_file (bytes ∷ []))
