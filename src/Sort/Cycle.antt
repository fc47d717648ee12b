-- ===== src/Sort/Cycle.antt =====
-- crates/cobol-runtime/src/sort_merge.rs: a SORT statement with INPUT and OUTPUT PROCEDURE, from the
-- empty buffer to the end of the records.
use rust_cobol.Prelude.{
  drop-drop, take-append, drop-append, ℕ, zero, suc, ◌+◌, ◌-◌, ◌*◌, ◌/◌, ◌≤◌, ◌<◌, min, ◌≡◌, refl,
  sym, ap, ◌∙◌, inl, inr, true, false, Option, none, some, List, [], ◌∷◌, ◌++◌, arith, leb, ◌==◌,
  leb→le, set, ◌^◌, Bool-cases, length, take, drop, length-append, length-drop,
}
use native.Mathlib.Nat.{mul-div_cancel}
use mathlib.Core.List.{append_assoc, append-nil}
use rust_cobol.Sort.Compare.{SortKey, Record}
use rust_cobol.Sort.Stable.{sort_by, length-sort_by}
use rust_cobol.Sort.Records.{by_keys, write_back, AllLong, chunks-write_back, sort_by-AllLong}
use rust_cobol.Sort.Buffer.{
  SortBuffer, Buffers, init, init-free, buffer_at, release, sort, return_record, release_each,
  return_each, fresh, release_into, sort_buffer, return_from, release_all, return_all,
}

release_all-bytes :
    (rs : List Record) (buf : SortBuffer)
    → let b = release_all buf rs in
      (b.bytes ≡ buf.bytes ++ write_back rs)
      × (b.record_count ≡ buf.record_count + length rs)
      × (b.record_len ≡ buf.record_len)
unfolding release_all write_back release_into
release_all-bytes [] buf = (sym (append-nil buf.bytes), omega arith, refl)
release_all-bytes (r ∷ rs) buf =
    let (bytes, count, len) = release_all-bytes rs (release_into buf r) in
    (bytes ∙ append_assoc buf.bytes r (write_back rs), omega (arith, count), len)

-- What RETURN is to give, `k` times, for a list of records: each with status 0, then status 10.
abbrev pub delivered : List Record → ℕ → List (ℕ × Option (List ℕ))
delivered rs zero = []
delivered [] (suc k) = (10, none) ∷ delivered [] k
delivered (r ∷ rs) (suc k) = (0, some r) ∷ delivered rs k

-- A sorted buffer of the records `all`, each of `n` bytes, of which `i` have been returned.
abbrev pub reading : ℕ → List Record → ℕ → SortBuffer
reading n all i = record {
  bytes = write_back all;
  record_len = n;
  record_count = length all;
  read_index = i;
}

return_from-next :
    (n : ℕ) (all rest : List Record) (i : ℕ) (r : Record)
    → 0 < n
    → length r ≡ n
    → i < length all
    → drop (i * n) (write_back all) ≡ r ++ write_back rest
    → return_from (reading n all i) n ≡ (0, some r, reading n all (i + 1))
unfolding return_from
return_from-next n all rest i r p h lt d =
    let more : leb (length all) i ≡ false = ground arith in
    let cut : min n n ≡ n = omega arith in
    let size : length (write_back all) - i * n ≡ n + length (write_back rest) = omega (
      arith,
      length-drop (i * n) (write_back all),
      ap (λ (t : List ℕ). length t) d,
      length-append r (write_back rest),
      h,
    ) in
    let inside : leb (i * n + n) (length (write_back all)) ≡ true = ground (arith, size) in
    let first : take n (r ++ write_back rest) ≡ r = rw (← h) (take-append r (write_back rest)) in
    rw (more, cut, inside, d, first)

return_from-end :
    (n : ℕ) (all : List Record) (i : ℕ)
    → length all ≤ i
    → return_from (reading n all i) n ≡ (10, none, reading n all i)
unfolding return_from
return_from-end n all i h = let e : leb (length all) i ≡ true = ground arith in rw e

drop-next :
    (n i : ℕ) (r : Record) (xs rest : List ℕ)
    → length r ≡ n
    → drop (i * n) xs ≡ r ++ rest
    → drop ((i + 1) * n) xs ≡ rest
drop-next n i r xs rest h d =
    let e : (i + 1) * n ≡ i * n + n = omega arith in
    rw (e, drop-drop (i * n) n xs, d, ← h) (drop-append r rest)

return_all-delivered :
    (k n : ℕ) (all rest : List Record) (i : ℕ)
    → 0 < n
    → AllLong n rest
    → i + length rest ≡ length all
    → drop (i * n) (write_back all) ≡ write_back rest
    → return_all k n (reading n all i) ≡ delivered rest k
unfolding return_all write_back
return_all-delivered zero n all rest i p a l d = refl
return_all-delivered (suc k) n all [] i p a l d =
    let e = return_from-end n all i (omega arith) in
    rw e (ap (λ t. (10, none) ∷ t) (return_all-delivered k n all [] i p a l d))
return_all-delivered (suc k) n all (r ∷ rest) i p (h, a) l d =
    let e = return_from-next n all rest i r p h (omega arith) d in
    rw e (
      ap (λ t. (0, some r) ∷ t)
        (return_all-delivered k n all rest (i + 1) p a (omega arith)
          (drop-next n i r (write_back all) (write_back rest) h d)))

release_all-index :
    (rs : List Record) (buf : SortBuffer) → (release_all buf rs).read_index ≡ buf.read_index
unfolding release_all release_into
release_all-index [] buf = refl
release_all-index (r ∷ rs) buf = release_all-index rs (release_into buf r)

released : (n : ℕ) (rs : List Record) → release_all (fresh n) rs ≡ reading n rs 0
released n rs =
    let (bytes, count, len) = release_all-bytes rs (fresh n) in
    let count' : (release_all (fresh n) rs).record_count ≡ length rs = omega (arith, count) in
    let index = release_all-index rs (fresh n) in
    λ i. record {
      bytes = bytes i;
      record_len = len i;
      record_count = count' i;
      read_index = index i;
    }

reading_eq :
    (n : ℕ) (bytes : List ℕ) (count : ℕ) (all : List Record)
    → bytes ≡ write_back all
    → count ≡ length all
    → ◌≡◌ {A = SortBuffer}
        (record { bytes = bytes; record_len = n; record_count = count; read_index = 0 })
        (reading n all 0)
reading_eq n bytes count all b c =
    λ i. record { bytes = b i; record_len = n; record_count = c i; read_index = 0 }

sort_few : (keys : List SortKey) (rs : List Record) → length rs ≤ 1 → sort_by (by_keys keys) rs ≡ rs
unfolding sort_by
sort_few keys [] h = refl
sort_few keys (r ∷ []) h = refl
sort_few keys (r ∷ s ∷ rs) h = absurd (omega arith)

sort_buffer-reading :
    (rs : List Record) (n : ℕ) (keys : List SortKey)
    → 0 < n
    → AllLong n rs
    → sort_buffer (reading n rs 0) keys ≡ some (reading n (sort_by (by_keys keys) rs) 0)
unfolding sort_buffer
sort_buffer-reading rs n keys p a =
    let same = length-sort_by (by_keys keys) rs in
    let (cut, size) = chunks-write_back n rs a in
    let count : length (write_back rs) / n ≡ length rs = rw size (mul-div_cancel (length rs) p) in
    let positive : (n == 0) ≡ false = ground arith in
    elim (Bool-cases (leb (length rs) 1)) [
      | inl few ↦ rw few (ap (λ t. some (reading n t 0)) (sym (sort_few keys rs (leb→le _ _ few))))
      | inr many ↦
          rw (many, positive, count, cut)
            (ap some (
              reading_eq n (write_back (sort_by (by_keys keys) rs)) (length rs)
                (sort_by (by_keys keys) rs) refl (sym same)))
    ]

buffer_at-set_self :
    (s : Buffers) (id : ℕ) (buf buf' : SortBuffer)
    → buffer_at s id ≡ some buf
    → buffer_at (set s id (some buf')) id ≡ some buf'
unfolding buffer_at
buffer_at-set_self [] id buf buf' h = cc
buffer_at-set_self (x ∷ s) zero buf buf' h = refl
buffer_at-set_self (x ∷ s) (suc id) buf buf' h = buffer_at-set_self s id buf buf' h

release_at :
    (s : Buffers) (id : ℕ) (buf : SortBuffer) (r : Record)
    → buffer_at s id ≡ some buf
    → release s id r ≡ set s id (some (release_into buf r))
unfolding release
release_at s id buf r h = rw (h, release) refl

release_each-at :
    (rs : List Record) (s : Buffers) (id : ℕ) (buf : SortBuffer)
    → buffer_at s id ≡ some buf
    → buffer_at (release_each s id rs) id ≡ some (release_all buf rs)
unfolding release_each release_all
release_each-at [] s id buf h = h
release_each-at (r ∷ rs) s id buf h = release_each-at rs (release s id r) id (release_into buf r) (
    ap (λ x. buffer_at x id) (release_at s id buf r h)
    ∙ buffer_at-set_self s id buf (release_into buf r) h)

sort_at :
    (s : Buffers) (id : ℕ) (keys : List SortKey) (buf buf' : SortBuffer)
    → buffer_at s id ≡ some buf
    → sort_buffer buf keys ≡ some buf'
    → sort s id keys ≡ some (set s id (some buf'))
unfolding sort
sort_at s id keys buf buf' h e = rw (h, e, sort) refl

return_at :
    (n : ℕ) (s : Buffers) (id : ℕ) (buf : SortBuffer)
    → buffer_at s id ≡ some buf
    → return_record s id n
      ≡ (let (status, copied, buf') = return_from buf n in (status, copied, set s id (some buf')))
unfolding return_record
return_at n s id buf h = rw (h, return_record) refl

return_each-at :
    (k n : ℕ) (s : Buffers) (id : ℕ) (buf : SortBuffer)
    → buffer_at s id ≡ some buf
    → return_each k n s id ≡ return_all k n buf
unfolding return_each return_all
return_each-at zero n s id buf h = refl
return_each-at (suc k) n s id buf h =
    let (status, copied, buf') = return_from buf n in
    rw (return_at n s id buf h) (
      ap (λ t. (status, copied) ∷ t)
        (return_each-at k n (set s id (some buf')) id buf' (buffer_at-set_self s id buf buf' h)))

-- A SORT statement over records of `n` bytes each, while fewer than 2^32 buffers are in use: after
-- the RELEASE of `rs` into the buffer that `init` hands out the sort goes through, and `k` RETURNs
-- from it then give the records in the stable sorted order, each with status 0, and status 10 (at
-- end) once they are used up.
pub sort_cycle :
    (s : Buffers) (rs : List Record) (n : ℕ) (keys : List SortKey) (k : ℕ)
    → length s < 2 ^ 32
    → 0 < n
    → AllLong n rs
    → let (started, id) = init s n in
      (sorted : Buffers) × (sort (release_each started id rs) id keys ≡ some sorted)
      × (return_each k n sorted id ≡ delivered (sort_by (by_keys keys) rs) k)
sort_cycle s rs n keys k room p a =
    let started = (init s n).0 in
    let id = (init s n).1 in
    let all = sort_by (by_keys keys) rs in
    let same : length all ≡ length rs = length-sort_by (by_keys keys) rs in
    let self : (id == id) ≡ true = ground arith in
    let at : buffer_at started id ≡ some (fresh n) = (init-free s n id room).1 ∙ rw self refl in
    let filled = release_each-at rs started id (fresh n) at in
    (
      set (release_each started id rs) id (some (reading n all 0)),
      sort_at (release_each started id rs) id keys (release_all (fresh n) rs) (reading n all 0)
          filled (rw (released n rs) (sort_buffer-reading rs n keys p a)),
      return_each-at k n (set (release_each started id rs) id (some (reading n all 0))) id
            (reading n all 0)
            (buffer_at-set_self (release_each started id rs) id (release_all (fresh n) rs)
              (reading n all 0) filled)
          ∙ return_all-delivered k n all all 0 p (sort_by-AllLong keys n rs a) (omega arith)
              (let e : 0 * n ≡ 0 = omega arith in rw e),
    )
