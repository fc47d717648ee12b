-- ===== src/Threads/Exclusion.antt =====
-- crates/cobol-runtime/src/threading.rs: a mutex has one holder.
pub mod Steps
use rust_cobol.Prelude.{
  ℕ, zero, suc, ◌+◌, ◌≤◌, ◌<◌, ◌≡◌, refl, sym, ap, ◌∙◌, ◌↔◌, ◌⊎◌, inl, inr, Bool, true, false, ◌&&◌,
  Option, none, some, List, [], ◌∷◌, ◌++◌, arith, ltb, ◌==◌, if◌then◌else◌, Option-cases, length,
  get_elem?, set, get_or,
}
use rust_cobol.Threads.Mutex.{
  Thread, Machine, Event, idle, locking, holding, unlocking, thread_at, compare_exchange,
  cobol_mutex_create, cobol_mutex_destroy, lock_get, lock_try, unlock_get, unlock_store, step,
  run_events, start, obeys, disciplined, cell_of, create, destroy, get_to_lock, get_to_unlock,
  try_lock, store,
}

-- A thread owns a cell from the exchange that set it to the store that clears it.
abbrev pub owns : ℕ → Thread → ℕ
owns c idle = 0
owns c (locking d) = 0
owns c (holding d) = if d == c then 1 else 0
owns c (unlocking d) = if d == c then 1 else 0

unfoldable pub holders : ℕ → List Thread → ℕ
holders c [] = 0
holders c (t ∷ ts) = owns c t + holders c ts

abbrev bit : Bool → ℕ
bit true = 1
bit false = 0

-- The number of holders of each cell is what the cell says.
abbrev pub IsExclusive : Machine → Type 0
IsExclusive m = (c : ℕ) → holders c m.threads ≡ bit (get_or m.cells c false)

holders-set :
    (ts : List Thread) (i c : ℕ) (t : Thread)
    → (holders c (set ts i t) + owns c (get_or ts i idle) ≡ holders c ts + owns c t)
      ⊎ ((set ts i t ≡ ts) × (get_or ts i idle ≡ idle))
unfolding holders
holders-set [] i c t = inr (refl, refl)
holders-set (x ∷ ts) zero c t = inl (omega arith)
holders-set (x ∷ ts) (suc i) c t = ground (arith, holders-set ts i c t)

get_or-set :
    (cells : List Bool) (i c : ℕ) (b : Bool)
    → get_or (set cells i b) c false
      ≡ (if i == c && ltb i (length cells) then b else get_or cells c false)
get_or-set [] i c b = ground arith
get_or-set (x ∷ cells) zero zero b = ground arith
get_or-set (x ∷ cells) zero (suc c) b = ground arith
get_or-set (x ∷ cells) (suc i) zero b = ground arith
get_or-set (x ∷ cells) (suc i) (suc c) b = ground (arith, get_or-set cells i c b)

get_or-clear :
    (cells : List Bool) (i c : ℕ)
    → get_or (set cells i false) c false ≡ (if i == c then false else get_or cells c false)
get_or-clear [] i c = ground arith
get_or-clear (x ∷ cells) zero zero = ground arith
get_or-clear (x ∷ cells) zero (suc c) = ground arith
get_or-clear (x ∷ cells) (suc i) zero = ground arith
get_or-clear (x ∷ cells) (suc i) (suc c) = ground (arith, get_or-clear cells i c)

get_or-append :
    (cells : List Bool) (c : ℕ) → get_or (cells ++ false ∷ []) c false ≡ get_or cells c false
get_or-append [] zero = refl
get_or-append [] (suc c) = refl
get_or-append (x ∷ cells) zero = refl
get_or-append (x ∷ cells) (suc c) = get_or-append cells c

get_or-get_elem? :
    (cells : List Bool) (c : ℕ) (b : Bool)
    → get_elem? cells c ≡ some b
    → (get_or cells c false ≡ b) × (c < length cells)
get_or-get_elem? [] c b e = absurd (cc (e))
get_or-get_elem? (x ∷ cells) zero b e = ground (arith, e)
get_or-get_elem? (x ∷ cells) (suc c) b e =
    let (v, l) = get_or-get_elem? cells c b e in (v, omega (arith, l))

-- What one thread's change of place does to the holders of a cell.
holders-set-owns :
    (ts : List Thread) (i c : ℕ) (t : Thread)
    → owns c t ≡ owns c (get_or ts i idle)
    → holders c (set ts i t) ≡ holders c ts
holders-set-owns ts i c t h = elim (holders-set ts i c t) [
  | inl e ↦ omega (arith, e, h)
  | inr (e, missing) ↦ ap (λ x. holders c x) e
]

abbrev is_idle : Thread → Bool
is_idle idle = true
is_idle (locking c) = false
is_idle (holding c) = false
is_idle (unlocking c) = false

holders-set_at :
    (ts : List Thread) (i c : ℕ) (t x : Thread)
    → get_or ts i idle ≡ x
    → is_idle x ≡ false
    → holders c (set ts i t) + owns c x ≡ holders c ts + owns c t
holders-set_at ts i c t x e h = elim (holders-set ts i c t) [
  | inl sum ↦ omega (arith, sum, ap (λ y. owns c y) e)
  | inr (same, missing) ↦ absurd (ground (arith, ap is_idle (sym e ∙ missing), h))
]
