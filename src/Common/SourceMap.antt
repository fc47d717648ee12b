-- ===== src/Common/SourceMap.antt =====
-- crates/cobol-common/src/source_map.rs: the registry of the files of a compilation.
use rust_cobol.Prelude.{
  ℕ, ◌+◌, ◌^◌, ◌<◌, ◌≡◌, refl, Option, none, some, List, [], ◌∷◌, ◌++◌, arith, ◌==◌, if◌then◌else◌,
  length, get_elem?, length-append, get_elem?-append_last, get_elem?-length,
}
use rust_cobol.Prelude.Text.{Text}
use rust_cobol.Prelude.Words.{u32}
use rust_cobol.Common.Span.{FileId}
use rust_cobol.Common.Source
use rust_cobol.Common.Source.{SourceFile}

pub record SourceMap : Type 0 where
  pub files : List SourceFile

abbrev pub empty : SourceMap
empty = record { files = [] }

-- The new map and the id of the file.
unfoldable pub add_file : SourceMap → Text → List ℕ → SourceMap × FileId
add_file m name content =
    let id = u32 (length m.files) in
    (record { files = m.files ++ Source.new id name content ∷ [] }, id)

unfoldable pub get_file : SourceMap → FileId → Option SourceFile
get_file m id = get_elem? m.files id

unfoldable pub file_count : SourceMap → ℕ
file_count m = length m.files

-- The loop of a compilation that adds its files one after another.
unfoldable pub add_files : SourceMap → List (Text × List ℕ) → SourceMap
add_files m [] = m
add_files m ((name, content) ∷ rest) = add_files (add_file m name content).0 rest

-- While fewer than 2^32 files are registered, adding a file gives an id that no earlier file has:
-- the id finds the new file, which records that id, every other id finds what it found before, and
-- the count grows by one.
pub get_file-add_file :
    (m : SourceMap) (name : Text) (content : List ℕ) (k : FileId)
    → file_count m < 2 ^ 32
    → let (m', id) = add_file m name content in
      (get_file m id ≡ none)
      × (get_file m' k ≡ (if k == id then some (Source.new id name content) else get_file m k))
      × (file_count m' ≡ file_count m + 1)
unfolding add_file get_file file_count
get_file-add_file m name content k h =
    let e : u32 (length m.files) ≡ length m.files = omega arith in
    rw e (
      get_elem?-length m.files (length m.files) (omega arith),
      get_elem?-append_last m.files (Source.new (length m.files) name content) k,
      omega (arith, length-append m.files (Source.new (length m.files) name content ∷ [])),
    )

-- A registered file stands at the place that its id names.
abbrev pub IsIndexed : SourceMap → Type 0
IsIndexed m = (k : FileId) (f : SourceFile) → get_file m k ≡ some f → f.id ≡ k

id-new : (id : FileId) (name : Text) (content : List ℕ) → (Source.new id name content).id ≡ id
unfolding Source.new
id-new id name content = refl

add_file-IsIndexed :
    (m : SourceMap) (name : Text) (content : List ℕ)
    → file_count m < 2 ^ 32
    → IsIndexed m
    → IsIndexed (add_file m name content).0
add_file-IsIndexed m name content w h k f e =
    let (_, at, _) = get_file-add_file m name content k w in
    let id = (add_file m name content).1 in ground (arith, at, e, h k f, id-new id name content)

add_files-IsIndexed_from :
    (fs : List (Text × List ℕ)) (m : SourceMap)
    → file_count m + length fs < 2 ^ 32
    → IsIndexed m
    → IsIndexed (add_files m fs)
unfolding add_files
add_files-IsIndexed_from [] m w h = h
add_files-IsIndexed_from ((name, content) ∷ fs) m w h =
    let (_, _, count) = get_file-add_file m name content 0 (omega arith) in
    add_files-IsIndexed_from fs (add_file m name content).0 (omega (arith, count))
      (add_file-IsIndexed m name content (omega arith) h)

-- However a compilation registers its files, fewer than 2^32 in all, each file that an id finds
-- records that very id.
pub id-get_file :
    (fs : List (Text × List ℕ)) (k : FileId) (f : SourceFile)
    → length fs < 2 ^ 32
    → get_file (add_files empty fs) k ≡ some f
    → f.id ≡ k
unfolding get_file file_count
id-get_file fs k f w = add_files-IsIndexed_from fs empty (omega arith) (λ j g e. cc) k f
