-- ===== src/Threads/Exclusion/Steps.antt =====
-- crates/cobol-runtime/src/threading.rs: each step keeps a mutex to one holder.
use rust_cobol.Prelude.{
  ℕ, zero, suc, ◌≤◌, ◌≡◌, refl, sym, ap, ◌∙◌, ◌↔◌, Bool, true, false, Option, none, some, List, [],
  ◌∷◌, arith, ◌==◌, get_elem?, set, get_or,
}
use rust_cobol.Threads.Mutex.{
  Thread, Machine, Event, idle, locking, holding, unlocking, thread_at, compare_exchange,
  cobol_mutex_create, cobol_mutex_destroy, lock_get, lock_try, unlock_get, unlock_store, step,
  run_events, start, obeys, disciplined, cell_of, create, destroy, get_to_lock, get_to_unlock,
  try_lock, store,
}
use rust_cobol.Threads.Exclusion.{
  owns, holders, bit, IsExclusive, get_or-set, get_or-clear, get_or-append, get_or-get_elem?,
  holders-set-owns, holders-set_at,
}

create-IsExclusive : (m : Machine) → IsExclusive m → IsExclusive (cobol_mutex_create m)
unfolding cobol_mutex_create
create-IsExclusive m h c = h c ∙ ap bit (sym (get_or-append m.cells c))

lock_get-IsExclusive :
    (t handle : ℕ) (m : Machine)
    → obeys (get_to_lock t handle) m ≡ true
    → IsExclusive m
    → IsExclusive (lock_get t handle m)
unfolding lock_get obeys
lock_get-IsExclusive t handle m ok h =
    go (thread_at m t) (cell_of handle m.registry.mutexes) refl refl
  where
    go :
        (x : Thread) (o : Option ℕ)
        → thread_at m t ≡ x
        → cell_of handle m.registry.mutexes ≡ o
        → IsExclusive (lock_get t handle m)
    go idle none e f = rw (e, f, lock_get) h
    go idle (some c) e f =
        rw (e, f, lock_get)
          (λ k. holders-set-owns m.threads t k (locking c) (ap (λ y. owns k y) (sym e)) ∙ h k)
    go (locking c) o e f = rw (e, lock_get) h
    go (holding c) none e f = rw (e, f, lock_get) h
    go (holding c) (some d) e f = absurd (cc (ok, e, f))
    go (unlocking c) o e f = rw (e, lock_get) h

same_owner : (k c d : ℕ) → (d == c) ≡ true → owns k (unlocking d) ≡ owns k (holding c)
same_owner k c d e = ground (arith, e)

unlock_get-IsExclusive :
    (t handle : ℕ) (m : Machine)
    → obeys (get_to_unlock t handle) m ≡ true
    → IsExclusive m
    → IsExclusive (unlock_get t handle m)
unfolding unlock_get obeys
unlock_get-IsExclusive t handle m ok h =
    go (thread_at m t) (cell_of handle m.registry.mutexes) refl refl
  where
    go :
        (x : Thread) (o : Option ℕ)
        → thread_at m t ≡ x
        → cell_of handle m.registry.mutexes ≡ o
        → IsExclusive (unlock_get t handle m)
    go idle none e f = rw (e, f, unlock_get) h
    go idle (some d) e f = absurd (cc (ok, e, f))
    go (locking c) o e f = rw (e, unlock_get) h
    go (holding c) none e f = rw (e, f, unlock_get) h
    go (holding c) (some d) e f =
        rw (e, f, unlock_get)
          (λ k.
            holders-set-owns m.threads t k (unlocking d)
              (same_owner k c d (cc (ok, e, f)) ∙ ap (λ y. owns k y) (sym e))
            ∙ h k)
    go (unlocking c) o e f = rw (e, unlock_get) h

exchange_missing :
    (cells : List Bool) (c : ℕ)
    → get_elem? cells c ≡ none
    → compare_exchange cells c ≡ (false, cells)
unfolding compare_exchange
exchange_missing cells c h = rw (h, compare_exchange) refl

exchange_failed :
    (cells : List Bool) (c : ℕ)
    → get_elem? cells c ≡ some true
    → compare_exchange cells c ≡ (false, cells)
unfolding compare_exchange
exchange_failed cells c h = rw (h, compare_exchange) refl

exchanged :
    (cells : List Bool) (c : ℕ)
    → get_elem? cells c ≡ some false
    → compare_exchange cells c ≡ (true, set cells c true)
unfolding compare_exchange
exchanged cells c h = rw (h, compare_exchange) refl

lock_try-IsExclusive : (t : ℕ) (m : Machine) → IsExclusive m → IsExclusive (lock_try t m)
unfolding lock_try
lock_try-IsExclusive t m h = go (thread_at m t) refl
  where
    try :
        (c : ℕ) (o : Option Bool)
        → thread_at m t ≡ locking c
        → get_elem? m.cells c ≡ o
        → IsExclusive (lock_try t m)
    try c none e f = rw (e, exchange_missing m.cells c f, lock_try) h
    try c (some true) e f = rw (e, exchange_failed m.cells c f, lock_try) h
    try c (some false) e f =
        let (v, l) = get_or-get_elem? m.cells c false f in
        rw (e, exchanged m.cells c f, lock_try)
          (λ k. ground (
            arith,
            h k,
            v,
            l,
            holders-set_at m.threads t k (holding c) (locking c) e refl,
            get_or-set m.cells c k true,
          ))

    go : (x : Thread) → thread_at m t ≡ x → IsExclusive (lock_try t m)
    go idle e = rw (e, lock_try) h
    go (locking c) e = try c (get_elem? m.cells c) e refl
    go (holding c) e = rw (e, lock_try) h
    go (unlocking c) e = rw (e, lock_try) h

unlock_store-IsExclusive : (t : ℕ) (m : Machine) → IsExclusive m → IsExclusive (unlock_store t m)
unfolding unlock_store
unlock_store-IsExclusive t m h = go (thread_at m t) refl
  where
    go : (x : Thread) → thread_at m t ≡ x → IsExclusive (unlock_store t m)
    go idle e = rw (e, unlock_store) h
    go (locking c) e = rw (e, unlock_store) h
    go (holding c) e = rw (e, unlock_store) h
    go (unlocking c) e =
        rw (e, unlock_store)
          (λ k. ground (
            arith,
            h k,
            holders-set_at m.threads t k idle (unlocking c) e refl,
            get_or-clear m.cells c k,
          ))

step-IsExclusive :
    (e : Event) (m : Machine) → obeys e m ≡ true → IsExclusive m → IsExclusive (step e m)
unfolding step cobol_mutex_destroy
step-IsExclusive create m ok h = create-IsExclusive m h
step-IsExclusive (destroy handle) m ok h = h
step-IsExclusive (get_to_lock t handle) m ok h = lock_get-IsExclusive t handle m ok h
step-IsExclusive (try_lock t) m ok h = lock_try-IsExclusive t m h
step-IsExclusive (get_to_unlock t handle) m ok h = unlock_get-IsExclusive t handle m ok h
step-IsExclusive (store t) m ok h = unlock_store-IsExclusive t m h

run_events-IsExclusive_from :
    (es : List Event) (m : Machine)
    → disciplined es m ≡ true
    → IsExclusive m
    → IsExclusive (run_events es m)
unfolding run_events disciplined
run_events-IsExclusive_from [] m ok h = h
run_events-IsExclusive_from (e ∷ es) m ok h =
    run_events-IsExclusive_from es (step e m) (ground (arith, ok))
      (step-IsExclusive e m (ground (arith, ok)) h)

start-IsExclusive : (n : ℕ) → IsExclusive (start n)
unfolding holders
start-IsExclusive zero c = refl
start-IsExclusive (suc n) c = omega (arith, start-IsExclusive n c)

-- However the steps of any number of threads interleave, with mutexes made and destroyed at any
-- time, if a thread locks a mutex only while it holds none and unlocks no mutex but the one that it
-- locked, each mutex has at most one holder, a thread between the exchange that locked it and the
-- store that unlocks it, and it is marked as locked exactly while it has one.
pub run_events-IsExclusive :
    (n : ℕ) (es : List Event) (c : ℕ)
    → disciplined es (start n) ≡ true
    → let m = run_events es (start n) in
      (holders c m.threads ≤ 1) × ((get_or m.cells c false ≡ true) ↔ (holders c m.threads ≡ 1))
run_events-IsExclusive n es c ok =
    let exclusive : holders c (run_events es (start n)).threads
        ≡ bit (get_or (run_events es (start n)).cells c false) =
      run_events-IsExclusive_from es (start n) ok (start-IsExclusive n) c in
    ground (arith, exclusive)
