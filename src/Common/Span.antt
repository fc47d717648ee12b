-- ===== src/Common/Span.antt =====
-- crates/cobol-common/src/span.rs: byte ranges of a source file.
use rust_cobol.Prelude.{
  ℕ, ◌-◌, ◌≤◌, ◌≡◌, refl, ◌↔◌, Bool, ◌&&◌, arith, leb, ◌==◌, if◌then◌else◌, min, max, Option, none,
  some,
}

-- `FileId` is a newtype over u32.
abbrev pub FileId : Type 0
FileId = ℕ

pub record Span : Type 0 where
  pub start : ℕ
  pub end : ℕ
  pub file_id : FileId

-- The debug assertion of `Span::new`: `none` is its panic in a debug build.
unfoldable pub new : ℕ → ℕ → FileId → Option Span
new start end file_id =
    if leb start end then some (record { start = start; end = end; file_id = file_id }) else none

abbrev pub dummy : Span
dummy = record { start = 0; end = 0; file_id = 0 }

-- The assertion that both spans are of one file is a debug build's; what follows it is here.
unfoldable pub merge : Span → Span → Span
merge s other = record {
  start = min s.start other.start;
  end = max s.end other.end;
  file_id = s.file_id;
}

-- `saturating_sub`
unfoldable pub len : Span → ℕ
len s = s.end - s.start

unfoldable pub is_empty : Span → Bool
is_empty s = s.start == s.end

-- `==`, as `#[derive(PartialEq)]` gives it.
abbrev pub span_eq : Span → Span → Bool
span_eq a b = a.start == b.start && (a.end == b.end && a.file_id == b.file_id)

-- One span lies within another.
abbrev pub Within : Span → Span → Type 0
Within inner outer = (outer.start ≤ inner.start) × (inner.end ≤ outer.end)

-- The merge of two spans is the least span that both lie within: both lie within a third span
-- exactly when their merge does. It keeps the file of the first.
pub Within-merge :
    (a b c : Span)
    → ((Within (merge a b) c) ↔ (Within a c × Within b c)) × ((merge a b).file_id ≡ a.file_id)
unfolding merge
Within-merge a b c = ((λ h. omega arith, λ h. omega arith), refl)

-- A span that `new` admits, merged with another such span, is again one that `new` admits, and its
-- length is at most the sum of the lengths and the gap between the two.
pub new-merge :
    (a b : Span)
    → a.start ≤ a.end
    → b.start ≤ b.end
    → (new (merge a b).start (merge a b).end a.file_id ≡ some (merge a b))
      × (len a ≤ len (merge a b))
      × (len b ≤ len (merge a b))
unfolding new merge len
new-merge a b h k = (ground arith, omega arith, omega arith)
