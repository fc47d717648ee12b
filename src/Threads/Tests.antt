-- ===== src/Threads/Tests.antt =====
-- crates/cobol-runtime/src/threading.rs: tests and instances at concrete inputs.
use rust_cobol.Prelude.{◌≤◌, ◌≡◌, refl, ◌↔◌, true, false, List, [], ◌∷◌, get_or}
use rust_cobol.Threads.Mutex.{
  Event, create, get_to_lock, get_to_unlock, try_lock, store, run_events, start, step, new,
  cobol_mutex_create, cell_of, remove, lock_get, lock_try, unlock_get, unlock_store,
  compare_exchange, obeys, disciplined,
}
use rust_cobol.Threads.Exclusion.{holders}
use rust_cobol.Threads.Exclusion.Steps.{run_events-IsExclusive}

-- Two threads lock the first mutex; the second of them goes on when the first has unlocked it.
abbrev contended : List Event
contended =
    create
    ∷ get_to_lock 0 1
    ∷ get_to_lock 1 1
    ∷ try_lock 0
    ∷ try_lock 1
    ∷ get_to_unlock 0 1
    ∷ store 0
    ∷ try_lock 1
    ∷ []

run_events-IsExclusive_example :
    let m = run_events contended (start 2) in
    (holders 0 m.threads ≤ 1) × ((get_or m.cells 0 false ≡ true) ↔ (holders 0 m.threads ≡ 1))
unfolding disciplined obeys step new cobol_mutex_create cell_of remove lock_get lock_try unlock_get
    unlock_store compare_exchange
run_events-IsExclusive_example = run_events-IsExclusive 2 contended 0 refl

second_holds : holders 0 (run_events contended (start 2)).threads ≡ 1
unfolding holders run_events step new cobol_mutex_create cell_of remove lock_get lock_try unlock_get
    unlock_store compare_exchange
second_holds = refl
