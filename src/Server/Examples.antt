-- ===== src/Server/Examples.antt =====
-- The server's theorems at concrete requests.
use cs350project.Prelude.{
  ◌++◌, ℕ, ◌≡◌, refl, ℤ, pos, minus_one, Bool, true, false, some, List, [], ◌∷◌, replicate, set,
  take, arith,
}
use cs350project.Server.State.{
  lit, busy, ServerThread, Waiter, ServerLock, ServerCond, ServerMon, Headers, Env, Server, done,
  crashed, thread_eq, sender, validate_lock_index,
}
use cs350project.Server.Locks.{
  fresh_lock, waiter_of, create_lock_server, acquire_server, release_server,
}
use cs350project.Server.Conditions.{wait_server, broadcast_server}
use cs350project.Server.Wire.{show_int, show_digits, is_space, request_text, read_int}
use cs350project.Server.Requests.{read_call-request_text}
use cs350project.Server.Monitors.{destroy_monitor_server}
use cs350project.Server.Dispatch.{read_call, unused_lock, unused_cond, unused_mon}
use cs350project.Server.Replies.{Answerable, reply_mail}
use cs350project.Server.LockSpec.{request, release, view}
use cs350project.Server.Updates.{Updated}
use cs350project.Server.Acquire
use cs350project.Server.Acquire.{acquire_refines}
use cs350project.Server.Release
use cs350project.Server.Release.{release_refines, to_owner}
use cs350project.Server.Creation.{at_once, after, create_twice}
use cs350project.Server.Destruction.{release_drops_waiters}
use cs350project.Server.Broadcast.{wait_after_broadcast_crashes}
use cs350project.Server.MonitorLaws.{MonInUse, destroy_monitor_keeps}

abbrev env : Env
env = record { peer_runs = λ m. true; stray_index = pos 0; stray_bytes = []; stray_value = pos 0 }

-- A request of machine 1 from mailbox 0.
abbrev request_of_one : Headers
request_of_one = record {
  pkt_to = pos 0;
  pkt_from = pos 1;
  mail_to = pos 0;
  mail_from = pos 0;
  mail_length = 20;
}

abbrev thread : ℕ → ServerThread
thread m = record { machine_id = pos m; mailbox_num = pos 0 }

abbrev waiter_two : Waiter
waiter_two = record { machine = pos 2; box = pos 0; from_box = pos 0; string_index = pos 0 }

-- A lock that the thread holds and machine 2 waits for, a condition and a monitor.
abbrev held_by : ServerThread → List Waiter → Bool → ServerLock
held_by t queue doomed = record {
  num = pos 0;
  delete_flag = doomed;
  is_deleted = false;
  lock_status = busy;
  name = some (1 ∷ []);
  wait_queue = some queue;
  queue_size = pos 0;
  lock_owner = t;
}

abbrev cond : ℤ → Bool → ServerCond
cond i waits = record unused_cond { has_waiting_lock = waits; waiting_lock_index = i }

abbrev mon : List ℤ → ServerMon
mon values = record unused_mon { values = some values }

abbrev server : ServerLock → ServerCond → List ℤ → Server
server l c values = record {
  locks = l ∷ [];
  lock_count = 1;
  mons = mon values ∷ unused_mon ∷ [];
  mon_count = 1;
  conds = c ∷ [];
  cond_count = 1;
  hdr = request_of_one;
  outbox = [];
  sys_code1 = 0;
  sys_code2 = 0;
  name = [];
  env = env;
}

answerable : Answerable env request_of_one
answerable = record { runs = refl; has_box = refl }

-- Machine 1 asks for a lock that machine 3 holds.
abbrev contended : Server
contended = server (held_by (thread 3) (waiter_two ∷ []) false) (cond (pos 0) false) []

acquire_refines_example :
    (s' : Server) × (acquire_server (pos 0) contended ≡ done tt s')
    × Updated contended 0
        (request
          (waiter_of (pos 0) contended)
          (view (held_by (thread 3) (waiter_two ∷ []) false))).0
        (Acquire.answer
          (request
            (waiter_of (pos 0) contended)
            (view (held_by (thread 3) (waiter_two ∷ []) false))).1
          request_of_one)
        s'
acquire_refines_example =
    acquire_refines contended 0 (held_by (thread 3) (waiter_two ∷ []) false)
      (record { created = refl; stored = refl; alive = refl })
      (waiter_two ∷ [], refl, (refl, ((refl, refl), tt))) answerable

-- Machine 1 releases a lock that machine 2 waits for.
abbrev owned : Server
owned = server (held_by (thread 1) (waiter_two ∷ []) false) (cond (pos 0) false) []

release_refines_example :
    (s' : Server) × (release_server (pos 0) owned ≡ done tt s')
    × Updated owned 0
        (release (sender owned) (view (held_by (thread 1) (waiter_two ∷ []) false))).0
        (Release.answer
          (release (sender owned) (view (held_by (thread 1) (waiter_two ∷ []) false))).1
          (thread 1)
          request_of_one)
        s'
release_refines_example =
    release_refines owned 0 (held_by (thread 1) (waiter_two ∷ []) false)
      (record { created = refl; stored = refl; alive = refl })
      (waiter_two ∷ [], refl, (refl, ((refl, refl), tt))) answerable refl

-- The first lock, under a name of one byte, in an empty table.
abbrev empty : Server
empty = record owned { locks = replicate 50 unused_lock; lock_count = 0 }

abbrev with_first : Server
with_first = record empty {
  locks = set (replicate 50 unused_lock) 0 (fresh_lock (1 ∷ []) 0 unused_lock);
  lock_count = 1;
}

first_creation : create_lock_server (1 ∷ []) empty ≡ done (pos 0) with_first
unfolding create_lock_server
first_creation = refl

-- Another lock is created in between.
abbrev with_second : Server
with_second = record with_first {
  locks = set with_first.locks 1 (fresh_lock (2 ∷ []) 1 unused_lock);
  lock_count = 2;
}

second_creation : create_lock_server (2 ∷ []) with_first ≡ done (pos 1) with_second
unfolding create_lock_server
second_creation = refl

create_twice_example : create_lock_server (1 ∷ []) with_second ≡ done (pos 0) with_second
create_twice_example =
    create_twice (1 ∷ []) empty with_first with_second (pos 0) refl (omega arith) first_creation
      (after (2 ∷ []) (pos 1) at_once (omega arith) second_creation) (omega arith)

-- Machine 1 releases a lock that is to be destroyed, and that machine 2 waits for.
abbrev doomed : Server
doomed = server (held_by (thread 1) (waiter_two ∷ []) true) (cond (pos 0) false) []

thread_one : thread_eq (thread 1) (thread 1) ≡ true
unfolding thread_eq
thread_one = refl

release_drops_waiters_example :
    (s' : Server) × (release_server (pos 0) doomed ≡ done tt s')
    × (s'.outbox
        ≡ reply_mail
            (to_owner (thread 1) request_of_one)
            (lit "Released, the lock is also deleted.")
          ∷ [])
    × (validate_lock_index s' (pos 0) ≡ false)
release_drops_waiters_example =
    release_drops_waiters doomed 0 (held_by (thread 1) (waiter_two ∷ []) true)
      (record { created = refl; stored = refl; alive = refl }) answerable thread_one refl

-- Machine 1 waits with a lock that machine 3 holds.
abbrev strange : Server
strange = server (held_by (thread 3) [] false) (cond (pos 0) false) []

-- Machine 2 waits on the condition, with the lock that machine 1 holds and broadcasts with.
abbrev signalling : Server
signalling =
    server (held_by (thread 1) [] false)
      (record (cond (pos 0) true) { wait_queue = some (waiter_two ∷ []) }) []

wait_after_broadcast_crashes_example :
    (s' : Server) × (broadcast_server (pos 0) (pos 0) signalling ≡ done tt s')
    × (wait_server (pos 0) (pos 0) (record s' { hdr = request_of_one }) ≡ crashed)
wait_after_broadcast_crashes_example =
    wait_after_broadcast_crashes signalling 0 0 (held_by (thread 1) [] false)
      (record (cond (pos 0) true) { wait_queue = some (waiter_two ∷ []) }) (waiter_two ∷ [])
      request_of_one (record { created = refl; stored = refl; alive = refl }) ([], refl, (refl, tt))
      refl (record { created = refl; stored = refl; alive = refl; waiters = refl }) refl refl refl
      answerable (refl, refl, tt) thread_one

abbrev storing : List ℤ → Server
storing values = server unused_lock (cond (pos 0) false) values

same_first_digit : take 1 (show_int (pos 42)) ≡ take 1 (show_int (pos 4))
unfolding show_int show_digits
same_first_digit = refl

destroy_monitor_keeps_example :
    (s' : Server) × (destroy_monitor_server (pos 0) (storing (pos 42 ∷ [])) ≡ done tt s')
    × MonInUse s' 0 (mon (pos 42 ∷ [])) (pos 42 ∷ [])
destroy_monitor_keeps_example =
    destroy_monitor_keeps (storing (pos 42 ∷ [])) 0 (mon (pos 42 ∷ [])) (pos 42 ∷ [])
      (record { created = refl; stored = refl; alive = refl; array = refl }) answerable
      (omega arith)

letter_c : is_space b'C' ≡ false
unfolding is_space
letter_c = refl

letter_w : is_space b'W' ≡ false
unfolding is_space
letter_w = refl

read_call-request_text_example :
    (read_call 0 0 [] (request_text b'C' b'W' [] (pos 12) (pos 3) minus_one) ≡ record {
      code1 = b'C';
      code2 = b'W';
      name = [];
      index1 = pos 12;
      rest = some (b' ' ∷ (show_int (pos 3) ++ (b' ' ∷ show_int minus_one)));
    })
    × (read_int (some (b' ' ∷ (show_int (pos 3) ++ (b' ' ∷ show_int minus_one))))
        ≡ (pos 3, some (b' ' ∷ show_int minus_one)))
    × (read_int (some (b' ' ∷ show_int minus_one)) ≡ (minus_one, some []))
read_call-request_text_example =
    read_call-request_text 0 0 b'C' b'W' [] [] (pos 12) (pos 3) minus_one letter_c letter_w refl
      (omega arith) (omega arith) (omega arith)
