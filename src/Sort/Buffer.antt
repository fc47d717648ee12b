-- ===== src/Sort/Buffer.antt =====
-- crates/cobol-runtime/src/sort_merge.rs: the sort buffers behind RELEASE, SORT and RETURN.
use rust_cobol.Prelude.{
  ℕ, zero, suc, ◌+◌, ◌*◌, ◌/◌, ◌^◌, ◌≤◌, ◌<◌, min, ◌≡◌, refl, Option, none, some, List, [], ◌∷◌,
  ◌++◌, arith, leb, ◌==◌, if◌then◌else◌, length, get_elem?, set, take, drop,
}
use rust_cobol.Prelude.Words.{u32}
use mathlib.Core.Option
use rust_cobol.Sort.Compare.{SortKey, Record}
use rust_cobol.Sort.Stable.{sort_by}
use rust_cobol.Sort.Records.{chunks, by_keys, write_back}

pub record SortBuffer : Type 0 where
  pub bytes : List ℕ  -- the field `data`
  pub record_len : ℕ
  pub record_count : ℕ
  pub read_index : ℕ

-- `SORT_BUFFERS`
abbrev pub Buffers : Type 0
Buffers = List (Option SortBuffer)

abbrev pub fresh : ℕ → SortBuffer
fresh record_len = record { bytes = []; record_len = record_len; record_count = 0; read_index = 0 }

-- The first empty slot, or a new one at the end, and its index.
unfoldable pub place : SortBuffer → Buffers → Buffers × ℕ
place buf [] = (some buf ∷ [], 0)
place buf (none ∷ s) = (some buf ∷ s, 0)
place buf (some b ∷ s) = let (s', i) = place buf s in (some b ∷ s', suc i)

unfoldable pub init : Buffers → ℕ → Buffers × ℕ
init s record_len = let (s', i) = place (fresh record_len) s in (s', u32 i)

-- `buffers.get_mut(id)` where it finds a buffer.
unfoldable pub buffer_at : Buffers → ℕ → Option SortBuffer
buffer_at s id = elim (get_elem? s id) [ none ↦ none | some slot ↦ slot ]

unfoldable pub release_into : SortBuffer → Record → SortBuffer
release_into buf rec = record buf { bytes = buf.bytes ++ rec; record_count = buf.record_count + 1 }

unfoldable pub release : Buffers → ℕ → Record → Buffers
release s id rec = elim (buffer_at s id) [
  | none ↦ s
  | some buf ↦ set s id (some (release_into buf rec))
]

-- `none` is the panic of `chunks_exact` on a record length of 0.
unfoldable pub sort_buffer : SortBuffer → List SortKey → Option SortBuffer
sort_buffer buf keys =
    if leb buf.record_count 1
    then some (record buf { read_index = 0 })
    else if buf.record_len == 0
    then none
    else (let records = chunks (length buf.bytes / buf.record_len) buf.record_len buf.bytes in
        some (record buf { bytes = write_back (sort_by (by_keys keys) records); read_index = 0 }))

unfoldable pub sort : Buffers → ℕ → List SortKey → Option Buffers
sort s id keys = elim (buffer_at s id) [
  | none ↦ some s
  | some buf ↦ Option.map (λ buf'. set s id (some buf')) (sort_buffer buf keys)
]

-- The status, and the bytes that are copied out, if any.
unfoldable pub return_from : SortBuffer → ℕ → ℕ × Option (List ℕ) × SortBuffer
return_from buf record_len =
    let offset = buf.read_index * buf.record_len in
    let copy_len = min record_len buf.record_len in
    let copied =
      if leb (offset + copy_len) (length buf.bytes)
      then some (take copy_len (drop offset buf.bytes))
      else none in
    if leb buf.record_count buf.read_index
    then (10, none, buf)
    else (0, copied, record buf { read_index = buf.read_index + 1 })

unfoldable pub return_record : Buffers → ℕ → ℕ → ℕ × Option (List ℕ) × Buffers
return_record s id record_len = elim (buffer_at s id) [
  | none ↦ (10, none, s)
  | some buf ↦
      let (status, copied, buf') = return_from buf record_len in
      (status, copied, set s id (some buf'))
]

-- A free of an index past the end does nothing.
unfoldable pub free : Buffers → ℕ → Buffers
free s id = set s id none

-- The RELEASE statements of an INPUT PROCEDURE, and the RETURN statements of an OUTPUT PROCEDURE.
unfoldable pub release_each : Buffers → ℕ → List Record → Buffers
release_each s id [] = s
release_each s id (r ∷ rs) = release_each (release s id r) id rs

unfoldable pub return_each : ℕ → ℕ → Buffers → ℕ → List (ℕ × Option (List ℕ))
return_each zero record_len s id = []
return_each (suc k) record_len s id =
    let (status, copied, s') = return_record s id record_len in
    (status, copied) ∷ return_each k record_len s' id

-- The same on one buffer.
unfoldable pub release_all : SortBuffer → List Record → SortBuffer
release_all buf [] = buf
release_all buf (r ∷ rs) = release_all (release_into buf r) rs

unfoldable pub return_all : ℕ → ℕ → SortBuffer → List (ℕ × Option (List ℕ))
return_all zero record_len buf = []
return_all (suc k) record_len buf =
    let (status, copied, buf') = return_from buf record_len in
    (status, copied) ∷ return_all k record_len buf'

place_lem :
    (buf : SortBuffer) (s : Buffers) (k : ℕ)
    → let (s', i) = place buf s in
      (buffer_at s i ≡ none)
      × (buffer_at s' k ≡ (if k == i then some buf else buffer_at s k))
      × (i ≤ length s)
unfolding place buffer_at
place_lem buf [] zero = (refl, refl, omega arith)
place_lem buf [] (suc k) = (refl, ground arith, omega arith)
place_lem buf (none ∷ s) zero = (refl, refl, omega arith)
place_lem buf (none ∷ s) (suc k) = (refl, ground arith, omega arith)
place_lem buf (some b ∷ s) zero =
    let ih = place_lem buf s zero in (ih.0, ground arith, omega (arith, ih.2))
place_lem buf (some b ∷ s) (suc k) =
    let ih = place_lem buf s k in (ih.0, ground (arith, ih.1), omega (arith, ih.2))

-- While fewer than 2^32 slots are in use, `init` hands out the index of a slot that held no buffer:
-- it holds an empty one of the record length afterwards, and every other slot keeps what it held.
pub init-free :
    (s : Buffers) (record_len k : ℕ)
    → length s < 2 ^ 32
    → let (s', id) = init s record_len in
      (buffer_at s id ≡ none)
      × (buffer_at s' k ≡ (if k == id then some (fresh record_len) else buffer_at s k))
unfolding init
init-free s record_len k h =
    let (free_slot, at, bound) = place_lem (fresh record_len) s k in
    let e : u32 (place (fresh record_len) s).1 ≡ (place (fresh record_len) s).1 =
      omega (arith, bound) in
    rw e (free_slot, at)

buffer_at-set :
    (s : Buffers) (id k : ℕ) (o : Option SortBuffer)
    → id < length s
    → buffer_at (set s id o) k ≡ (if k == id then o else buffer_at s k)
unfolding buffer_at
buffer_at-set [] id k o h = absurd (omega arith)
buffer_at-set (x ∷ s) zero zero o h =
    elim o
      as (λ o'.
        (elim (some o') as (λ q. Option SortBuffer) [ none ↦ none | some slot ↦ slot ]) ≡ o') [
          | none ↦ refl
          | some b ↦ refl
        ]
buffer_at-set (x ∷ s) zero (suc k) o h = ground arith
buffer_at-set (x ∷ s) (suc id) zero o h = ground arith
buffer_at-set (x ∷ s) (suc id) (suc k) o h = ground (arith, buffer_at-set s id k o (omega arith))
