-- ===== src/Common/Source.antt =====
-- crates/cobol-common/src/source.rs: a source file and the line and column of a byte offset.
use rust_cobol.Prelude.{
  ℕ, zero, suc, ◌+◌, ◌-◌, ◌^◌, ◌≤◌, ◌<◌, min, ◌≡◌, refl, inl, inr, List, [], ◌∷◌, arith, ltb, ◌==◌,
  if◌then◌else◌, Bool-cases, length, take, get_or,
}
use rust_cobol.Prelude.Text.{Text}
use rust_cobol.Prelude.Words.{u32}
use rust_cobol.Common.Span.{FileId}

-- The content is the file's UTF-8 bytes.
pub record SourceFile : Type 0 where
  pub id : FileId
  pub name : Text
  pub content : List ℕ
  pub line_starts : List ℕ

-- The loop of `compute_line_starts`, from byte `i` on.
starts_from : ℕ → List ℕ → List ℕ
starts_from i [] = []
starts_from i (b ∷ bs) =
    let rest = starts_from (i + 1) bs in if b == 10 then u32 (i + 1) ∷ rest else rest

compute_line_starts : List ℕ → List ℕ
compute_line_starts content = 0 ∷ starts_from 0 content

unfoldable pub new : FileId → Text → List ℕ → SourceFile
unfolding compute_line_starts starts_from
new id name content = record {
  id = id;
  name = name;
  content = content;
  line_starts = compute_line_starts content;
}

-- `slice::binary_search` on a sorted slice: the index of the value, or where it would be put in.
pub data Search : Type 0 where
  ok : ℕ → Search
  err : ℕ → Search

next : Search → Search
next (ok i) = ok (suc i)
next (err i) = err (suc i)

binary_search : List ℕ → ℕ → Search
binary_search [] v = err 0
binary_search (x ∷ xs) v =
    if x == v then ok 0 else if ltb v x then err 0 else next (binary_search xs v)

-- The match on the search's result.
line_of : Search → ℕ
line_of (ok idx) = idx
line_of (err idx) = idx - 1

line_idx : List ℕ → ℕ → ℕ
unfolding line_of binary_search next
line_idx starts offset = line_of (binary_search starts offset)

-- `line_starts` is never empty, so the index is in range (`line_col-scan` shows it).
unfoldable pub line_col : SourceFile → ℕ → ℕ × ℕ
unfolding line_idx
line_col f offset =
    let o = min offset (length f.content) in
    let line = line_idx f.line_starts (u32 o) in (line + 1, o - get_or f.line_starts line 0 + 1)

unfoldable pub line_count : SourceFile → ℕ
line_count f = length f.line_starts

-- An independent reading: walk the bytes, and at each line feed go to the start of the next line.
unfoldable pub scan : List ℕ → ℕ × ℕ → ℕ × ℕ
scan [] p = p
scan (b ∷ bs) (l, c) = scan bs (if b == 10 then (l + 1, 1) else (l, c + 1))

unfoldable pub newlines : List ℕ → ℕ
newlines [] = 0
newlines (b ∷ bs) = (if b == 10 then 1 else 0) + newlines bs

line_of-next-next : (s : Search) → line_of (next (next s)) ≡ suc (line_of (next s))
unfolding line_of next
line_of-next-next (ok i) = refl
line_of-next-next (err i) = omega arith

-- Past the second start the search goes on behind the first.
line_idx_past :
    (x y : ℕ) (r : List ℕ) (o : ℕ)
    → x < o
    → y ≤ o
    → line_idx (x ∷ y ∷ r) o ≡ suc (line_idx (y ∷ r) o)
unfolding line_idx
line_idx_past x y r o h k = ground (arith, line_of-next-next (binary_search r o))

-- Every start that the loop finds from byte `i` on lies behind `i`.
binary_search_above :
    (i : ℕ) (bs : List ℕ) (o : ℕ)
    → o ≤ i
    → i + length bs < 2 ^ 32
    → binary_search (starts_from i bs) o ≡ err 0
unfolding binary_search starts_from
binary_search_above i [] o k w = refl
binary_search_above i (b ∷ bs) o k w = ground (arith, binary_search_above (i + 1) bs o)

line_idx_first :
    (s i : ℕ) (bs : List ℕ) (o : ℕ)
    → s ≤ o
    → o ≤ i
    → i + length bs < 2 ^ 32
    → line_idx (s ∷ starts_from i bs) o ≡ 0
unfolding line_idx
line_idx_first s i bs o h k w = ground (arith, binary_search_above i bs o k w)

-- From byte `i` of a line that starts at `s`, `m` bytes on.
line_col_from :
    (bs : List ℕ) (m i s l o : ℕ)
    → s ≤ i
    → i + m ≡ o
    → m ≤ length bs
    → i + length bs < 2 ^ 32
    → let starts = s ∷ starts_from i bs in
      scan (take m bs) (l, i - s + 1)
      ≡ (line_idx starts o + l, o - get_or starts (line_idx starts o) 0 + 1)
unfolding scan starts_from
line_col_from bs zero i s l o h e n w =
    rw (line_idx_first s i bs o (omega arith) (omega arith) w) (ground arith)
line_col_from [] (suc m) i s l o h e n w = absurd (omega arith)
line_col_from (b ∷ bs) (suc m) i s l o h e n w = elim (Bool-cases (b == 10)) [
  | inl nl ↦ ground (
    arith,
    line_idx_past s (i + 1) (starts_from (i + 1) bs) o,
    line_col_from bs m (i + 1) (i + 1) (l + 1) o,
  )
  | inr other ↦ ground (arith, line_col_from bs m (i + 1) s l o)
]

-- For every file of less than 2^32 bytes the line and column of an offset, by binary search in the
-- table of line starts, are those of a walk over the bytes before it that counts line feeds; an
-- offset past the end gives the position of the end.
pub line_col-scan :
    (id : FileId) (name : Text) (content : List ℕ) (offset : ℕ)
    → length content < 2 ^ 32
    → line_col (new id name content) offset
      ≡ scan (take (min offset (length content)) content) (1, 1)
unfolding line_col new
line_col-scan id name content offset w =
    let o = min offset (length content) in ground (arith, line_col_from content o 0 0 1 o)

starts_from-newlines : (i : ℕ) (bs : List ℕ) → length (starts_from i bs) ≡ newlines bs
unfolding starts_from newlines
starts_from-newlines i [] = refl
starts_from-newlines i (b ∷ bs) = ground (arith, starts_from-newlines (i + 1) bs)

-- A file has one line more than it has line feeds.
pub line_count-newlines :
    (id : FileId) (name : Text) (content : List ℕ)
    → line_count (new id name content) ≡ newlines content + 1
unfolding line_count new
line_count-newlines id name content = omega (arith, starts_from-newlines 0 content)
