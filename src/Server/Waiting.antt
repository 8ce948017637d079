-- ===== src/Server/Waiting.antt =====
-- `Wait_server`: what the fall-through of its error branches does, and its uses of the lock table.
use cs350project.Prelude.{
  ℕ, ◌≡◌, ltb, pos, minus_one, true, false, some, List, [], ◌∷◌, ◌++◌, set, get_elem?, arith,
}
use cs350project.Server.State.{
  Waiter, ServerLock, ServerCond, Server, crashed, thread_eq, sender, validate_condition_index,
}
use cs350project.Server.Locks.{unowned, waiter_of}
use cs350project.Server.Conditions.{wait_server, wait_checks, check_waiting_lock}
use cs350project.Server.Updates.{InUse, InUse-valid}

pub record CondInUse (s : Server) (k : ℕ) (c : ServerCond) (queue : List Waiter) : Type 0 where
  pub created : ltb k s.cond_count ≡ true
  pub stored : get_elem? s.conds k ≡ some c
  pub alive : c.is_deleted ≡ false
  pub waiters : c.wait_queue ≡ some queue

pub CondInUse-valid :
    (s : Server) (k : ℕ) (c : ServerCond) (queue : List Waiter)
    → CondInUse s k c queue
    → validate_condition_index s (pos k) ≡ true
unfolding validate_condition_index
CondInUse-valid s k c queue u = ground arith

module _ (s : Server) (i k : ℕ) (l : ServerLock) (c : ServerCond) (queue : List Waiter)
    (u : InUse s i l) (v : CondInUse s k c queue) where
  abbrev parked_cond : Server → ServerCond
  parked_cond t = record c { wait_queue = some (queue ++ waiter_of (pos 1) t ∷ []) }

  abbrev parked : Server → Server
  parked t = record t {
    locks = set t.locks i (unowned l);
    conds = set t.conds k (parked_cond t);
    hdr = record t.hdr {
      pkt_to = s.hdr.pkt_to;
      mail_to = s.hdr.mail_to;
      mail_from = s.hdr.mail_from;
    };
  }

  -- When the holder of a lock in use waits on a condition in use that is not to be destroyed, has
  -- a waiting lock and has -1 for its index, the server reads outside of the lock table.
  pub wait_of_flagged_crashes :
      thread_eq l.lock_owner (sender s) ≡ true
      → c.delete_flag ≡ false
      → c.has_waiting_lock ≡ true
      → c.waiting_lock_index ≡ minus_one
      → wait_server (pos i) (pos k) s ≡ crashed
  unfolding wait_server wait_checks check_waiting_lock
  wait_of_flagged_crashes e d f w =
      ground (arith, InUse-valid s i l u, CondInUse-valid s k c queue v)
