-- ===== src/Server/Release.antt =====
-- `Release_server` implements a release of the lock, unless the lock is to be destroyed.
use mathlib.Core.List.{append_assoc}
use cs350project.Prelude.{
  ℕ, ◌≡◌, refl, inl, inr, pos, ◌-ℤ◌, true, false, some, List, [], ◌∷◌, ◌++◌, set, set_same, arith,
  subst, Bool-cases,
}
use cs350project.Server.State.{
  lit, LockStatus, busy, Waiter, ServerThread, ServerLock, Headers, Mail, Server, done, thread_eq,
  string_arr, sender,
}
use cs350project.Server.Locks.{owned_by, unowned, release_server}
use cs350project.Server.Replies.{
  Answerable, reply_mail, replied, send_lem, send_message_to_client_lem,
}
use cs350project.Server.LockSpec.{
  Released, refused, free_now, handed_to, release, view, IsHealthy, IsProper-ne-null, FitsStatus,
  LockStatus-cases, IsLockWaiter, AllLockWaiters,
}
use cs350project.Server.Updates.{InUse, InUse-valid, Updated}

-- The header that `Release_server` writes the owner into before it replies.
abbrev pub to_owner : ServerThread → Headers → Headers
to_owner t h = record h { pkt_to = t.machine_id; mail_to = t.mailbox_num }

-- The message to the waiter that gets the lock.
abbrev pub grant_mail : Waiter → Mail
grant_mail w = record {
  machine = w.machine;
  box = w.box;
  from_box = w.from_box;
  length = 18;
  text = lit "You got the lock!";
}

abbrev pub answer : Released → ServerThread → Headers → List Mail
answer refused owner h = reply_mail h (lit "No permission to release!") ∷ []
answer free_now owner h = reply_mail (to_owner owner h) (lit "You released the lock!") ∷ []
answer (handed_to w) owner h =
    reply_mail (to_owner owner h) (lit "Released. Another thread took it.") ∷ grant_mail w ∷ []

abbrev pub with_owner : Server → ServerLock → Server
with_owner s l = record s { hdr = to_owner l.lock_owner s.hdr }

abbrev freed_lock : Server → ℕ → ServerLock → Server
freed_lock s i l = record (with_owner s l) { locks = set s.locks i (unowned l) }

abbrev next_lock : ServerLock → Waiter → List Waiter → ServerLock
next_lock l w rest =
    owned_by w (record l { wait_queue = some rest; queue_size = l.queue_size -ℤ pos 1 })

-- Just before the message to the new owner leaves.
abbrev addressed : Server → ℕ → ServerLock → Waiter → List Waiter → Server
addressed s i l w rest =
    let t : Server = replied (lit "Released. Another thread took it.") (with_owner s l) in
    record t {
      locks = set s.locks i (next_lock l w rest);
      hdr = record t.hdr {
        pkt_to = w.machine;
        mail_to = w.box;
        mail_from = w.from_box;
        mail_length = 18;
      };
    }

abbrev handed : Server → ℕ → ServerLock → Waiter → List Waiter → Server
handed s i l w rest =
    let t : Server = addressed s i l w rest in record t { outbox = t.outbox ++ grant_mail w ∷ [] }

module _ (s : Server) (i : ℕ) (l : ServerLock) (u : InUse s i l) (h : IsHealthy l)
    (a : Answerable s.env s.hdr) where
  release_refused :
      thread_eq (sender s) l.lock_owner ≡ false
      → release_server (pos i) s ≡ done tt (replied (lit "No permission to release!") s)
  unfolding release_server
  release_refused e =
      ground (
        arith,
        InUse-valid s i l u,
        send_message_to_client_lem (lit "No permission to release!") s a,
      )

  release_last :
      thread_eq (sender s) l.lock_owner ≡ true
      → l.delete_flag ≡ false
      → h.0 ≡ []
      → release_server (pos i) s
        ≡ done tt (replied (lit "You released the lock!") (freed_lock s i l))
  unfolding release_server
  release_last e f q = ground (
    arith,
    InUse-valid s i l u,
    h.1,
    send_message_to_client_lem (lit "You released the lock!") (freed_lock s i l)
        (record { runs = a.runs; has_box = a.has_box }),
  )

  release_handed :
      thread_eq (sender s) l.lock_owner ≡ true
      → l.delete_flag ≡ false
      → (w : Waiter) (rest : List Waiter) → h.0 ≡ w ∷ rest
      → IsLockWaiter w
      → release_server (pos i) s ≡ done tt (handed s i l w rest)
  unfolding release_server string_arr
  release_handed e f w rest q k = ground (
    arith,
    InUse-valid s i l u,
    h.1,
    send_message_to_client_lem (lit "Released. Another thread took it.") (with_owner s l)
        (record { runs = a.runs; has_box = a.has_box }),
    send_lem (lit "You got the lock!") (addressed s i l w rest) k.0 refl,
  )

  fits : {status : LockStatus} → l.lock_status ≡ status → FitsStatus status l.lock_owner h.0
  fits e = subst (λ status. FitsStatus status l.lock_owner h.0) e h.2

  abbrev Refines : Type 0
  Refines =
      (s' : Server) × (release_server (pos i) s ≡ done tt s')
      × Updated s i (release (sender s) (view l)).0
          (answer (release (sender s) (view l)).1 l.lock_owner s.hdr) s'

  refused_case : thread_eq (sender s) l.lock_owner ≡ false → Refines
  refused_case e = (
    replied (lit "No permission to release!") s,
    release_refused e,
    record {
      lock = l;
      locks = set_same s.locks i l u.stored;
      viewed = ground arith;
      healthy = h;
      alive = u.alive;
      outbox = ground arith;
      lock_count = refl;
      conds = refl;
      mons = refl;
      cond_count = refl;
      env = refl;
    },
  )

  -- An owner of the lock holds it.
  own-busy : thread_eq (sender s) l.lock_owner ≡ true → l.lock_status ≡ busy
  own-busy e = elim (LockStatus-cases l.lock_status) [
    | inl f ↦ absurd (let fit = fits f in ground (arith, IsProper-ne-null (sender s) a.has_box))
    | inr b ↦ b
  ]

  own_case :
      l.delete_flag ≡ false
      → thread_eq (sender s) l.lock_owner ≡ true
      → (queue : List Waiter) → h.0 ≡ queue
      → Refines
  own_case d e [] q =
      let b = own-busy e in
      (
        replied (lit "You released the lock!") (freed_lock s i l),
        release_last e d q,
        record {
          lock = unowned l;
          locks = refl;
          viewed = ground (arith, h.1);
          healthy = (h.0, h.1, (refl, q));
          alive = u.alive;
          outbox = ground (arith, h.1);
          lock_count = refl;
          conds = refl;
          mons = refl;
          cond_count = refl;
          env = refl;
        },
      )
  own_case d e (w ∷ rest) q =
      let b = own-busy e in
      let waiters = subst AllLockWaiters q (fits b).1 in
      (
        handed s i l w rest,
        release_handed e d w rest q waiters.0,
        record {
          lock = next_lock l w rest;
          locks = refl;
          viewed = ground (arith, h.1);
          healthy = (rest, refl, rw b ((waiters.0).0, waiters.1));
          alive = u.alive;
          outbox = ground (
            arith,
            h.1,
            append_assoc s.outbox
                (reply_mail (to_owner l.lock_owner s.hdr) (lit "Released. Another thread took it.")
                  ∷ [])
                (grant_mail w ∷ []),
          );
          lock_count = refl;
          conds = refl;
          mons = refl;
          cond_count = refl;
          env = refl;
        },
      )

  -- On a lock in use that is not to be destroyed, and that is healthy, the owner's release hands the
  -- lock to the first waiter or frees it, and anybody else's is refused: the lock then looks as the
  -- specification says, the replies are those of its answer, and no other table changes, for a
  -- sender that can be answered.
  pub release_refines :
      l.delete_flag ≡ false
      → (s' : Server) × (release_server (pos i) s ≡ done tt s')
        × Updated s i
            (release (sender s) (view l)).0
            (answer (release (sender s) (view l)).1 l.lock_owner s.hdr)
            s'
  release_refines d = elim (Bool-cases (thread_eq (sender s) l.lock_owner)) [
    | inl own ↦ own_case d own h.0 refl
    | inr other ↦ refused_case other
  ]
