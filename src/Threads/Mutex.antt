-- ===== src/Threads/Mutex.antt =====
-- crates/cobol-runtime/src/threading.rs: the registry of mutexes, and threads that lock and unlock
-- them in any interleaving.
use rust_cobol.Prelude.{
  ℕ, ◌+◌, ◌%◌, ◌^◌, Bool, true, false, ◌&&◌, Option, none, some, List, [], ◌∷◌, ◌++◌, ◌==◌,
  if◌then◌else◌, length, get_elem?, set, replicate, get_or,
}

-- Each handle's `Arc<AtomicBool>`, as the index of its cell.
pub record MutexRegistry : Type 0 where
  pub next_handle : ℕ
  pub mutexes : List (ℕ × ℕ)

unfoldable pub new : MutexRegistry
new = record { next_handle = 1; mutexes = [] }

-- `mutexes.get(&handle).cloned()`
unfoldable pub cell_of : ℕ → List (ℕ × ℕ) → Option ℕ
cell_of handle [] = none
cell_of handle ((h, c) ∷ m) = if h == handle then some c else cell_of handle m

unfoldable pub remove : ℕ → List (ℕ × ℕ) → List (ℕ × ℕ)
remove handle [] = []
remove handle ((h, c) ∷ m) = if h == handle then remove handle m else (h, c) ∷ remove handle m

-- Where a thread stands in `cobol_mutex_lock` and `cobol_mutex_unlock`, with the mutex that it locked
-- last.
pub data Thread : Type 0 where
  idle : Thread
  locking holding unlocking : ℕ → Thread

pub record Machine : Type 0 where
  pub registry : MutexRegistry
  pub cells : List Bool
  pub threads : List Thread

abbrev pub thread_at : Machine → ℕ → Thread
thread_at m t = get_or m.threads t idle

-- `compare_exchange(false, true)`: whether it was successful, and the cells.
unfoldable pub compare_exchange : List Bool → ℕ → Bool × List Bool
compare_exchange cells c = elim (get_elem? cells c) [
  | none ↦ (false, cells)
  | some locked ↦ if locked then (false, cells) else (true, set cells c true)
]

-- A new mutex has a new handle and a new cell, unlocked. The handle is a u64.
unfoldable pub cobol_mutex_create : Machine → Machine
cobol_mutex_create m = record m {
  registry = record {
    next_handle = (m.registry.next_handle + 1) % 2 ^ 64;
    mutexes =
        (m.registry.next_handle, length m.cells) ∷ remove m.registry.next_handle m.registry.mutexes;
  };
  cells = m.cells ++ false ∷ [];
}

-- The cell outlives the handle while a thread still has it.
unfoldable pub cobol_mutex_destroy : ℕ → Machine → Machine
cobol_mutex_destroy handle m = record m {
  registry = record m.registry { mutexes = remove handle m.registry.mutexes };
}

abbrev to_lock : ℕ → Machine → Option ℕ → Machine
to_lock t m none = m
to_lock t m (some c) = record m { threads = set m.threads t (locking c) }

-- The first part of `cobol_mutex_lock`, under the registry's lock, which any thread outside another
-- call can make: it is not asked what the thread holds.
unfoldable pub lock_get : ℕ → ℕ → Machine → Machine
lock_get t handle m = elim (thread_at m t) [
  | idle ↦ to_lock t m (cell_of handle m.registry.mutexes)
  | locking c ↦ m
  | holding c ↦ to_lock t m (cell_of handle m.registry.mutexes)
  | unlocking c ↦ m
]

abbrev taken : ℕ → ℕ → Machine → Bool × List Bool → Machine
taken t c m (success, cells) =
    if success then record m { cells = cells; threads = set m.threads t (holding c) } else m

-- One round of its loop.
unfoldable pub lock_try : ℕ → Machine → Machine
lock_try t m = elim (thread_at m t) [
  | idle ↦ m
  | locking c ↦ taken t c m (compare_exchange m.cells c)
  | holding c ↦ m
  | unlocking c ↦ m
]

abbrev to_unlock : ℕ → Machine → Option ℕ → Machine
to_unlock t m none = m
to_unlock t m (some c) = record m { threads = set m.threads t (unlocking c) }

-- The first part of `cobol_mutex_unlock`, which any thread outside another call can make.
unfoldable pub unlock_get : ℕ → ℕ → Machine → Machine
unlock_get t handle m = elim (thread_at m t) [
  | idle ↦ to_unlock t m (cell_of handle m.registry.mutexes)
  | locking c ↦ m
  | holding c ↦ to_unlock t m (cell_of handle m.registry.mutexes)
  | unlocking c ↦ m
]

-- `m.store(false)`
unfoldable pub unlock_store : ℕ → Machine → Machine
unlock_store t m = elim (thread_at m t) [
  | idle ↦ m
  | locking c ↦ m
  | holding c ↦ m
  | unlocking c ↦ record m { cells = set m.cells c false; threads = set m.threads t idle }
]

-- The atomic steps, each by one thread.
pub data Event : Type 0 where
  create : Event
  destroy : ℕ → Event
  get_to_lock get_to_unlock : (t handle : ℕ) → Event
  try_lock store : (t : ℕ) → Event

unfoldable pub step : Event → Machine → Machine
step create m = cobol_mutex_create m
step (destroy handle) m = cobol_mutex_destroy handle m
step (get_to_lock t handle) m = lock_get t handle m
step (try_lock t) m = lock_try t m
step (get_to_unlock t handle) m = unlock_get t handle m
step (store t) m = unlock_store t m

unfoldable pub run_events : List Event → Machine → Machine
run_events [] m = m
run_events (e ∷ es) m = run_events es (step e m)

abbrev pub start : ℕ → Machine
start n = record { registry = new; cells = []; threads = replicate n idle }

abbrev may_unlock : Thread → Option ℕ → Bool
may_unlock idle none = true
may_unlock idle (some d) = false
may_unlock (locking c) o = true
may_unlock (holding c) none = true
may_unlock (holding c) (some d) = d == c
may_unlock (unlocking c) o = true

abbrev may_lock : Thread → Option ℕ → Bool
may_lock (holding c) (some d) = false
may_lock _ o = true

-- The contract of the calls: `cobol_mutex_unlock` is made for the mutex that the calling thread has
-- locked, `cobol_mutex_lock` by a thread that holds no mutex, or either for an invalid handle.
unfoldable pub obeys : Event → Machine → Bool
obeys (get_to_lock t handle) m = may_lock (thread_at m t) (cell_of handle m.registry.mutexes)
obeys (get_to_unlock t handle) m = may_unlock (thread_at m t) (cell_of handle m.registry.mutexes)
obeys _ m = true

unfoldable pub disciplined : List Event → Machine → Bool
disciplined [] m = true
disciplined (e ∷ es) m = obeys e m && disciplined es (step e m)
