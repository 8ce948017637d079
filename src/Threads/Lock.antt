-- ===== src/Threads/Lock.antt =====
-- The classes `Lock` and `Condition` of threads/synch.cc. Interrupts are off inside of each operation but
-- the loop of `Broadcast`, so each is one step, and a round of that loop is one; a step that ends in
-- `Sleep` says so.
pub mod Ownership
pub mod Wakeup
pub mod Woken
pub mod Progress
pub mod Broadcast
use cs350project.Prelude.{
  ℕ, zero, suc, ◌==◌, Bool, true, false, not, ◌&&◌, if◌then◌else◌, List, [], ◌∷◌, ◌++◌, length,
  Option, none, some,
}

pub data LockStatus : Type 0 where
  free : LockStatus
  busy : LockStatus

-- A thread is a number, `none` the null pointer.
pub record Lock : Type 0 where
  pub status : LockStatus
  pub owner : Option ℕ
  pub wait_queue : List ℕ

abbrev pub new_lock : Lock
new_lock = record { status = free; owner = none; wait_queue = [] }

abbrev pub is : ℕ → Option ℕ → Bool
is t none = false
is t (some u) = t == u

abbrev pub acquire_from : LockStatus → ℕ → Lock → Lock × Bool
acquire_from free t l = (record l { status = busy; owner = some t }, false)
acquire_from busy t l = (record l { wait_queue = l.wait_queue ++ (t ∷ []) }, true)

-- `Lock::Acquire` by the thread `t`, and whether it goes to sleep
unfoldable pub acquire : ℕ → Lock → Lock × Bool
acquire t l = if is t l.owner then (l, false) else acquire_from l.status t l

abbrev pub hand_over : List ℕ → Lock → Lock × Option ℕ
hand_over [] l = (record l { status = free; owner = none }, none)
hand_over (t ∷ ts) l = (record l { owner = some t; wait_queue = ts }, some t)

-- `Lock::Release` by the thread `t`, and the thread that it makes ready
unfoldable pub release : ℕ → Lock → Lock × Option ℕ
release t l = if is t l.owner then hand_over l.wait_queue l else (l, none)

-- `waiting_lock` is a lock's number, `none` the null pointer.
pub record Condition : Type 0 where
  pub waiting_lock : Option ℕ
  pub wait_queue : List ℕ

abbrev pub new_condition : Condition
new_condition = record { waiting_lock = none; wait_queue = [] }

-- One condition and the locks, with the threads that were made ready since.
pub record Kernel : Type 0 where
  pub locks : ℕ → Lock
  pub condition : Condition
  pub ready : List ℕ

abbrev pub made_ready : Option ℕ → List ℕ → List ℕ
made_ready none ready = ready
made_ready (some t) ready = ready ++ (t ∷ [])

abbrev pub put_lock : (ℕ → Lock) → ℕ → Lock → ℕ → Lock
put_lock locks i l j = if i == j then l else locks j

-- The end of `Wait` before its `Sleep`: the thread is queued and gives up the lock.
abbrev pub park : ℕ → ℕ → Kernel → Kernel
park t lock k =
    let (l, woken) = release t (k.locks lock) in
    record k {
      condition = record {
        waiting_lock = some lock;
        wait_queue = k.condition.wait_queue ++ (t ∷ []);
      };
      locks = put_lock k.locks lock l;
      ready = made_ready woken k.ready;
    }

abbrev pub wait_on : Option ℕ → ℕ → ℕ → Kernel → Kernel × Bool
wait_on none t lock k = (park t lock k, true)
wait_on (some i) t lock k = if i == lock then (park t lock k, true) else (k, false)

-- `Condition::Wait` up to its `Sleep`, and whether the thread sleeps; it acquires the lock when it
-- is woken.
unfoldable pub wait : ℕ → Option ℕ → Kernel → Kernel × Bool
wait t none k = (k, false)
wait t (some lock) k = wait_on k.condition.waiting_lock t lock k

-- `waitingLock != conditionLock`, of pointers
abbrev pub same_lock : Option ℕ → Option ℕ → Bool
same_lock none none = true
same_lock (some i) (some j) = i == j
same_lock _ _ = false

abbrev pub waiting_for : List ℕ → Option ℕ → Option ℕ
waiting_for [] lock = none
waiting_for (t ∷ ts) lock = lock

abbrev pub signal_queue : List ℕ → Option ℕ → Kernel → Kernel
signal_queue [] lock k = k
signal_queue (t ∷ ts) lock k =
    if same_lock k.condition.waiting_lock lock
    then record k {
      condition = record {
        waiting_lock = waiting_for ts k.condition.waiting_lock;
        wait_queue = ts;
      };
      ready = k.ready ++ (t ∷ []);
    }
    else k

-- `Condition::Signal`
unfoldable pub signal : Option ℕ → Kernel → Kernel
signal lock k = signal_queue k.condition.wait_queue lock k

-- The tests of `Condition::Broadcast`, with interrupts off, and whether it goes on to its loop.
unfoldable pub broadcast_starts : Option ℕ → Kernel → Bool
broadcast_starts none k = false
broadcast_starts (some lock) k = same_lock (some lock) k.condition.waiting_lock

-- What another thread can do where interrupts are on: each operation of a lock or of the condition is one
-- step. A `Broadcast` of another thread is signals too. Whatever else makes a thread ready is `awakens`.
pub data Move : Kernel → Kernel → Type 0 where
  acquires :
      (t i : ℕ) (k : Kernel)
      → Move k (record k { locks = put_lock k.locks i (acquire t (k.locks i)).0 })
  releases :
      (t i : ℕ) (k : Kernel)
      → Move k (record k {
        locks = put_lock k.locks i (release t (k.locks i)).0;
        ready = made_ready (release t (k.locks i)).1 k.ready;
      })
  waits : (t : ℕ) (lock : Option ℕ) (k : Kernel) → Move k (wait t lock k).0
  signals : (lock : Option ℕ) (k : Kernel) → Move k (signal lock k)
  awakens : (t : ℕ) (k : Kernel) → Move k (record k { ready = k.ready ++ (t ∷ []) })

-- The loop of `Broadcast`, with interrupts on: `n` calls of `Signal`, with moves of other threads before,
-- between and behind them. A round's test of the queue changes nothing; others can move between it and
-- the round's `Signal`.
pub data Rounds (lock : ℕ) (k : Kernel) : ℕ → Kernel → Type 0 where
  entered : Rounds lock k 0 k
  round : {n : ℕ} {k' : Kernel} → Rounds lock k n k' → Rounds lock k (suc n) (signal (some lock) k')
  other : {n : ℕ} {k' k'' : Kernel} → Rounds lock k n k' → Move k' k'' → Rounds lock k n k''
