-- ===== src/Server/Acquire.antt =====
-- `Acquire_server` implements a request for the lock.
use mathlib.Core.List.{append-nil}
use cs350project.Prelude.{
  ℕ, ◌≡◌, refl, inl, inr, pos, true, false, some, List, [], ◌∷◌, ◌++◌, set, set_same, arith, subst,
  Bool-cases,
}
use cs350project.Server.State.{
  lit, LockStatus, free, busy, ServerLock, Headers, Mail, Server, done, thread_eq, sender,
}
use cs350project.Server.Locks.{waiter_of, swap_header, put_msg_lock, acquire_server}
use cs350project.Server.Replies.{Answerable, reply_mail, replied, send_message_to_client_lem}
use cs350project.Server.LockSpec.{
  Grant, granted, already_owner, queued, request, view, IsHealthy, IsProper-ne-null, FitsStatus,
  LockStatus-cases, AllLockWaiters-snoc,
}
use cs350project.Server.Updates.{InUse, InUse-valid, Updated}

-- The reply to a request for the lock.
abbrev pub answer : Grant → Headers → List Mail
answer granted h = reply_mail h (lit "You got the lock!") ∷ []
answer already_owner h = reply_mail h (lit "Lock is yours. Done nothing.") ∷ []
answer queued h = []

abbrev taken : Server → ℕ → ServerLock → Server
taken s i l = record s {
  locks = set s.locks i (record l { lock_status = busy; lock_owner = sender s });
}

module _ (s : Server) (i : ℕ) (l : ServerLock) (u : InUse s i l) (h : IsHealthy l)
    (a : Answerable s.env s.hdr) where
  acquire_own :
      thread_eq (sender s) l.lock_owner ≡ true
      → acquire_server (pos i) s ≡ done tt (replied (lit "Lock is yours. Done nothing.") s)
  unfolding acquire_server
  acquire_own e = ground (
    arith,
    InUse-valid s i l u,
    send_message_to_client_lem (lit "Lock is yours. Done nothing.") s a,
  )

  acquire_free :
      thread_eq (sender s) l.lock_owner ≡ false
      → l.lock_status ≡ free
      → acquire_server (pos i) s ≡ done tt (replied (lit "You got the lock!") (taken s i l))
  unfolding acquire_server
  acquire_free e f = ground (
    arith,
    InUse-valid s i l u,
    send_message_to_client_lem (lit "You got the lock!") (taken s i l) a,
  )

  acquire_busy :
      thread_eq (sender s) l.lock_owner ≡ false
      → l.lock_status ≡ busy
      → acquire_server (pos i) s
        ≡ done tt (record (swap_header s) {
          locks = set s.locks i (record l { wait_queue = some (h.0 ++ waiter_of (pos 0) s ∷ []) });
        })
  unfolding acquire_server put_msg_lock
  acquire_busy e f = ground (arith, InUse-valid s i l u, h.1)

  fits : {status : LockStatus} → l.lock_status ≡ status → FitsStatus status l.lock_owner h.0
  fits e = subst (λ status. FitsStatus status l.lock_owner h.0) e h.2

  -- On a lock in use that is healthy, a request is granted, queued or answered as the specification
  -- says: the lock then looks as it says, the replies are those of its answer, and no other table
  -- changes, for a sender that can be answered.
  pub acquire_refines :
      (s' : Server) × (acquire_server (pos i) s ≡ done tt s')
      × Updated s i
          (request (waiter_of (pos 0) s) (view l)).0
          (answer (request (waiter_of (pos 0) s) (view l)).1 s.hdr)
          s'
  acquire_refines = elim (LockStatus-cases l.lock_status) [
    | inl f ↦
        let fit = fits f in
        (
          replied (lit "You got the lock!") (taken s i l),
          acquire_free (ground (arith, IsProper-ne-null (sender s) a.has_box)) f,
          record {
            lock = record l { lock_status = busy; lock_owner = sender s };
            locks = refl;
            viewed = ground arith;
            healthy = (h.0, h.1, ground arith);
            alive = u.alive;
            outbox = ground arith;
            lock_count = refl;
            conds = refl;
            mons = refl;
            cond_count = refl;
            env = refl;
          },
        )
    | inr b ↦ elim (Bool-cases (thread_eq (sender s) l.lock_owner)) [
      | inl own ↦ (
        replied (lit "Lock is yours. Done nothing.") s,
        acquire_own own,
        record {
          lock = l;
          locks = set_same s.locks i l u.stored;
          viewed = ground arith;
          healthy = h;
          alive = u.alive;
          outbox = ground arith;
          lock_count = refl;
          conds = refl;
          mons = refl;
          cond_count = refl;
          env = refl;
        },
      )
      | inr other ↦ (
        _,
        acquire_busy other b,
        let fit = fits b in
            record {
              lock = record l { wait_queue = some (h.0 ++ waiter_of (pos 0) s ∷ []) };
              locks = refl;
              viewed = ground (arith, h.1);
              healthy = (
                h.0 ++ waiter_of (pos 0) s ∷ [],
                refl,
                rw b (fit.0, AllLockWaiters-snoc h.0 (waiter_of (pos 0) s) fit.1 (a.has_box, refl)),
              );
              alive = u.alive;
              outbox = ground (arith, append-nil s.outbox);
              lock_count = refl;
              conds = refl;
              mons = refl;
              cond_count = refl;
              env = refl;
            },
      )
    ]
  ]
