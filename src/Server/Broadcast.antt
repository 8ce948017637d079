-- ===== src/Server/Broadcast.antt =====
-- `Broadcast_server` with waiters, and what it leaves to the next wait on the condition.
use cs350project.Prelude.{
  ℕ, ◌≡◌, refl, ap, ◌∙◌, eqb_ℤ, eqb_ℤ_refl, pos, minus_one, true, false, some, List, [], set,
  get_elem?, get_elem?-set_self, lt_length_of_get, length,
}
use cs350project.Server.State.{
  null_thread, lit, busy, M, ◌>>=◌, branch, or_crash, get_cond, get_lock, put_cond,
  send_message_to_client, Waiter, ServerLock, ServerCond, Headers, Env, Server, done, crashed,
  thread_eq, validate_condition_index,
}
use cs350project.Server.Conditions.{
  restore_sender, broadcast_valid, broadcast_checks, wait_server, signal_all, broadcast_server,
}
use cs350project.Server.LockSpec.{IsHealthy}
use cs350project.Server.Replies.{Answerable, replied, send_message_to_client_lem}
use cs350project.Server.Updates.{InUse, InUse-valid}
use cs350project.Server.Waiting.{CondInUse, CondInUse-valid, wait_of_flagged_crashes}
use cs350project.Server.Rounds.{AllAnswerable, queued, bind_done, back, read_cond, all_signalled}

-- A condition of which the index of the waiting lock was reset, but not the flag.
abbrev emptied : ServerCond → ServerCond
emptied c = record (queued c []) { waiting_lock_index = minus_one }

read_lock :
    {A : Type 0} (t : Server) (i : ℕ) (l : ServerLock) (f : ServerLock → M A)
    → get_elem? t.locks i ≡ some l
    → (get_lock (pos i) >>= f) t ≡ f l t
read_lock t i l f h = bind_done (get_lock (pos i)) f t t l (ap (λ o. or_crash o t) h)

abbrev drained : Server → ℕ → ServerCond → Server
drained t k c = record t { conds = set t.conds k (emptied c) }

valid_goes :
    (s t : Server) (i k : ℕ) (c : ServerCond) (queue : List Waiter)
    → get_elem? s.conds k ≡ some (queued c queue)
    → signal_all (length queue) (pos i) (pos k) s ≡ done tt t
    → get_elem? t.conds k ≡ some (queued c [])
    → broadcast_valid (pos i) (pos k) s ≡ done tt (drained t k c)
unfolding broadcast_valid
valid_goes s t i k c queue stored went stored' =
    read_cond s.env null_thread i k c s (queued c queue) (λ d. or_crash d.wait_queue >>= all) stored
    ∙ (bind_done (signal_all (length queue) (pos i) (pos k)) (λ _. get_cond (pos k) >>= reset) s t
          tt went
        ∙ read_cond s.env null_thread i k c t (queued c []) reset stored')
  where
    reset : ServerCond → M (Unit {0})
    reset after = put_cond (pos k) (record after { waiting_lock_index = minus_one })

    all : List Waiter → M (Unit {0})
    all q = signal_all (length q) (pos i) (pos k) >>= λ _. get_cond (pos k) >>= reset

checks_go :
    (s t : Server) (i k : ℕ) (l : ServerLock) (c : ServerCond)
    → InUse s i l
    → validate_condition_index s (pos k) ≡ true
    → c.waiting_lock_index ≡ pos i
    → broadcast_valid (pos i) (pos k) s ≡ done tt t
    → broadcast_checks (pos i) (pos k) l c s ≡ done tt t
unfolding broadcast_checks
checks_go s t i k l c u valid index went =
    let lock_valid = InUse-valid s i l u in
    rw lock_valid (
      rw valid (
        rw index (
          read_lock s i l
            (λ waiting.
              branch (eqb_ℤ waiting.num l.num) (broadcast_valid (pos i) (pos k))
                (send_message_to_client (lit "No permission to broadcast!")))
            u.stored
          ∙ rw (eqb_ℤ_refl l.num) went)))

broadcast_goes :
    (s : Server) (i k : ℕ) (l : ServerLock) (c : ServerCond) (queue : List Waiter)
    → InUse s i l
    → IsHealthy l
    → l.lock_status ≡ busy
    → CondInUse s k (queued c queue) queue
    → c.waiting_lock_index ≡ pos i
    → Answerable s.env s.hdr
    → AllAnswerable s.env queue
    → (s' : Server) × (broadcast_server (pos i) (pos k) s ≡ done tt s')
      × CondInUse s' k (emptied c) []
      × (m : ServerLock) × InUse s' i m
      × (m.lock_owner ≡ l.lock_owner)
unfolding broadcast_server
broadcast_goes s i k l c queue u healthy taken v index a heard =
    let (t, went, w) =
      all_signalled s.env l.lock_owner i k c s queue
        (record {
          lock = l;
          in_use = u;
          healthy = healthy;
          is_held = (taken, refl);
          cond = v;
          same_env = refl;
        })
        heard in
    let valid = CondInUse-valid s k (queued c queue) queue v in
    let checked =
      checks_go s (drained t k c) i k l (queued c queue) u valid index
        (valid_goes s t i k c queue v.stored went w.cond.stored) in
    let t1 = back s.env l.lock_owner i k c s.hdr 12 (drained t k c) in
    let said =
      send_message_to_client_lem (lit "Broadcasted!") t1
        (record {
          runs = ap (λ (e : Env). e.peer_runs s.hdr.pkt_from) w.same_env ∙ a.runs;
          has_box = a.has_box;
        })
        refl in
    (
      replied (lit "Broadcasted!") t1,
      read_lock s i l
            (λ d.
              get_cond (pos k) >>= λ e. broadcast_checks (pos i) (pos k) d e >>= λ _. finish s.hdr)
            u.stored
          ∙ (read_cond s.env l.lock_owner i k c s (queued c queue)
                (λ e. broadcast_checks (pos i) (pos k) l e >>= λ _. finish s.hdr) v.stored
              ∙ (bind_done (broadcast_checks (pos i) (pos k) l (queued c queue)) (λ _. finish s.hdr)
                    s (drained t k c) tt checked
                  ∙ said)),
      record {
        created = w.cond.created;
        stored =
            get_elem?-set_self t.conds k (emptied c)
              (lt_length_of_get t.conds k (queued c []) w.cond.stored);
        alive = v.alive;
        waiters = refl;
      },
      w.lock,
      record { created = w.in_use.created; stored = w.in_use.stored; alive = w.in_use.alive },
      w.is_held.1,
    )
  where
    finish : Headers → M (Unit {0})
    finish h = restore_sender h 12 >>= λ _. send_message_to_client (lit "Broadcasted!")

-- Take a healthy lock that is held, and a condition in use that is not to be destroyed and has that lock as
-- its waiting lock, with any waiters, and let replies to all of them and to the sender be possible. A
-- broadcast with the lock then succeeds, and the next wait on the condition, by the holder of the lock and
-- with the lock, makes the server read outside of the lock table.
pub wait_after_broadcast_crashes :
    (s : Server) (i k : ℕ) (l : ServerLock) (c : ServerCond) (queue : List Waiter) (hdr : Headers)
    → InUse s i l
    → IsHealthy l
    → l.lock_status ≡ busy
    → CondInUse s k c queue
    → c.has_waiting_lock ≡ true
    → c.waiting_lock_index ≡ pos i
    → c.delete_flag ≡ false
    → Answerable s.env s.hdr
    → AllAnswerable s.env queue
    → thread_eq l.lock_owner (record { machine_id = hdr.pkt_from; mailbox_num = hdr.mail_from })
      ≡ true
    → (s' : Server) × (broadcast_server (pos i) (pos k) s ≡ done tt s')
      × (wait_server (pos i) (pos k) (record s' { hdr = hdr }) ≡ crashed)
wait_after_broadcast_crashes s i k l c queue hdr u healthy taken v flag index kept a heard owns =
    let whole : c ≡ queued c queue = ap (λ q. record c { wait_queue = q }) v.waiters in
    let v' : CondInUse s k (queued c queue) queue = record {
      created = v.created;
      stored = v.stored ∙ ap some whole;
      alive = v.alive;
      waiters = refl;
    } in
    let (s', went, w, m, in_use, owner) =
      broadcast_goes s i k l c queue u healthy taken v' index a heard in
    (
      s',
      went,
      wait_of_flagged_crashes (record s' { hdr = hdr }) i k m (emptied c) []
          (record { created = in_use.created; stored = in_use.stored; alive = in_use.alive })
          (record { created = w.created; stored = w.stored; alive = w.alive; waiters = refl })
          (rw owner owns) kept flag refl,
    )
