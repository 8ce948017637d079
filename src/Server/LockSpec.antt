-- ===== src/Server/LockSpec.antt =====
-- What a lock of the server is meant to be: unheld, or held with a queue of waiters in the order of
-- their requests.
use cs350project.Prelude.{
  ◌≡◌, refl, ◌⊎◌, inl, inr, pos, in_range, if◌then◌else◌, true, false, arith, Option, none, some,
  List, [], ◌∷◌, ◌++◌,
}
use cs350project.Server.State.{
  LockStatus, free, busy, ServerThread, Waiter, ServerLock, num_boxes, null_thread, thread_eq,
}

pub data LockView : Type 0 where
  unheld : LockView
  held : ServerThread → List Waiter → LockView

abbrev pub queue_of : Option (List Waiter) → List Waiter
queue_of none = []
queue_of (some q) = q

abbrev pub view_by : LockStatus → ServerThread → List Waiter → LockView
view_by free owner queue = unheld
view_by busy owner queue = held owner queue

abbrev pub view : ServerLock → LockView
view l = view_by l.lock_status l.lock_owner (queue_of l.wait_queue)

abbrev pub thread_of : Waiter → ServerThread
thread_of w = record { machine_id = w.machine; mailbox_num = w.box }

pub data Grant : Type 0 where
  granted already_owner queued : Grant

-- A request for the lock by the thread of `w`.
abbrev pub request : Waiter → LockView → LockView × Grant
request w unheld = (held (thread_of w) [], granted)
request w (held owner queue) =
    if thread_eq (thread_of w) owner
    then (held owner queue, already_owner)
    else (held owner (queue ++ w ∷ []), queued)

-- What becomes of the lock when its holder gives it up: the first waiter holds it next.
abbrev pub give_up : List Waiter → LockView
give_up [] = unheld
give_up (w ∷ queue) = held (thread_of w) queue

pub data Released : Type 0 where
  refused free_now : Released
  handed_to : Waiter → Released

abbrev pub given_up : List Waiter → Released
given_up [] = free_now
given_up (w ∷ queue) = handed_to w

-- A release by thread `t`.
abbrev pub release : ServerThread → LockView → LockView × Released
release t unheld = (unheld, refused)
release t (held owner queue) =
    if thread_eq t owner then (give_up queue, given_up queue) else (held owner queue, refused)

-- A thread with one of the ten mailboxes.
abbrev pub IsProper : ServerThread → Type 0
IsProper t = in_range t.mailbox_num num_boxes ≡ true

pub IsProper-ne-null : (t : ServerThread) → IsProper t → thread_eq t null_thread ≡ false
unfolding thread_eq
IsProper-ne-null t p = ground arith

-- A waiter of a lock: `putMsgLock` gives it the first of the strings.
abbrev pub IsLockWaiter : Waiter → Type 0
IsLockWaiter w = IsProper (thread_of w) × (w.string_index ≡ pos 0)

abbrev pub AllLockWaiters : List Waiter → Type 0
AllLockWaiters [] = Unit {0}
AllLockWaiters (w ∷ queue) = IsLockWaiter w × AllLockWaiters queue

-- The wait queue exists; a free lock has no owner and no waiter, and a busy one has a proper owner.
abbrev pub FitsStatus : LockStatus → ServerThread → List Waiter → Type 0
FitsStatus free owner queue = (owner ≡ null_thread) × (queue ≡ [])
FitsStatus busy owner queue = IsProper owner × AllLockWaiters queue

abbrev pub IsHealthy : ServerLock → Type 0
IsHealthy l =
    (queue : List Waiter) × (l.wait_queue ≡ some queue)
    × FitsStatus l.lock_status l.lock_owner queue

pub LockStatus-cases : (status : LockStatus) → (status ≡ free) ⊎ (status ≡ busy)
LockStatus-cases free = inl refl
LockStatus-cases busy = inr refl

pub AllLockWaiters-snoc :
    (queue : List Waiter) (w : Waiter)
    → AllLockWaiters queue
    → IsLockWaiter w
    → AllLockWaiters (queue ++ w ∷ [])
AllLockWaiters-snoc [] w h p = (p, tt)
AllLockWaiters-snoc (x ∷ queue) w h p = (h.0, AllLockWaiters-snoc queue w h.1 p)
