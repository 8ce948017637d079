-- ===== src/Threads/Lock/Ownership.antt =====
-- A lock as its owner and the threads that wait for it.
use cs350project.Prelude.{
  ℕ, ◌≡◌, refl, ◌==◌, Bool, true, false, if◌then◌else◌, List, [], ◌∷◌, ◌++◌, Option, none, some,
  Bool-cases, inl, inr,
}
use cs350project.Threads.Lock.{free, busy, Lock, acquire, release}

pub data View : Type 0 where
  unheld : View
  held : ℕ → List ℕ → View

-- A lock that is free has no owner and no waiting thread, and a busy one has an owner.
pub data Shows : Lock → View → Type 0 where
  shows_free : Shows (record { status = free; owner = none; wait_queue = [] }) unheld
  shows_held :
      (t : ℕ) (ts : List ℕ)
      → Shows (record { status = busy; owner = some t; wait_queue = ts }) (held t ts)

-- What `Acquire` promises, and whether the thread sleeps: a free lock is taken, the owner has it
-- already, and any other thread queues up behind those that wait.
abbrev pub acquired : ℕ → View → View × Bool
acquired t unheld = (held t [], false)
acquired t (held u us) = if t == u then (held u us, false) else (held u (us ++ (t ∷ [])), true)

-- What `Release` promises, and the thread that it makes ready: the owner hands the lock to the first
-- thread that waits or frees it, and any other thread changes nothing.
abbrev pub released : ℕ → View → View × Option ℕ
released t unheld = (unheld, none)
released t (held u []) = if t == u then (unheld, none) else (held u [], none)
released t (held u (w ∷ ws)) = if t == u then (held w ws, some w) else (held u (w ∷ ws), none)

-- `Acquire` of a lock that is free or has an owner does what the specification says, and the caller
-- sleeps exactly when the specification says so.
pub lock_acquire_refines :
    (t : ℕ) (l : Lock) (x : View)
    → Shows l x
    → Shows ((acquire t l).0) ((acquired t x).0) × ((acquire t l).1 ≡ (acquired t x).1)
unfolding acquire
lock_acquire_refines t _ _ shows_free = (shows_held t [], refl)
lock_acquire_refines t _ _ (shows_held u us) = elim (Bool-cases (t == u)) [
  | inl own ↦ rw own (shows_held u us, refl)
  | inr other ↦ rw other (shows_held u (us ++ (t ∷ [])), refl)
]

-- `Release` of a lock that is free or has an owner does what the specification says, and makes ready
-- exactly the thread that the specification names.
pub lock_release_refines :
    (t : ℕ) (l : Lock) (x : View)
    → Shows l x
    → Shows ((release t l).0) ((released t x).0) × ((release t l).1 ≡ (released t x).1)
unfolding release
lock_release_refines t _ _ shows_free = (shows_free, refl)
lock_release_refines t _ _ (shows_held u []) = elim (Bool-cases (t == u)) [
  | inl own ↦ rw own (shows_free, refl)
  | inr other ↦ rw other (shows_held u [], refl)
]
lock_release_refines t _ _ (shows_held u (w ∷ ws)) = elim (Bool-cases (t == u)) [
  | inl own ↦ rw own (shows_held w ws, refl)
  | inr other ↦ rw other (shows_held u (w ∷ ws), refl)
]
