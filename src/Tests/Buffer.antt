-- ===== src/Tests/Buffer.antt =====
-- A write behind the end of an empty buffer.
use irid.Base.{◌≡◌, refl, [], ◌∷◌, ok, arith}
use irid.Tools.Contents.{put}
use irid.Tools.Bytebuffer.{Bytebuffer, empty, contents, insert_range}
use irid.Tools.Bytebuffer.Refines.{IsBuffer, insert_range-contents}

empty-IsBuffer : IsBuffer empty
empty-IsBuffer = record { fits = omega arith; zeros = λ i le lt. absurd (omega arith) }

insert_range-contents_example :
    (b' : Bytebuffer) × (insert_range (1 ∷ 2 ∷ []) 3 empty ≡ ok b')
    × IsBuffer b'
    × (contents b' ≡ put (1 ∷ 2 ∷ []) 3 (contents empty))
insert_range-contents_example = insert_range-contents (1 ∷ 2 ∷ []) 3 empty empty-IsBuffer refl
