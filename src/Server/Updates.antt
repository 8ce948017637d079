-- ===== src/Server/Updates.antt =====
-- A lock in use, and what a call on it changes in the tables of the server.
use cs350project.Prelude.{ℕ, ◌≡◌, pos, ltb, true, false, some, List, ◌++◌, get_elem?, set, arith}
use cs350project.Server.State.{ServerLock, Mail, Server, validate_lock_index}
use cs350project.Server.LockSpec.{LockView, view, IsHealthy}

-- Lock `i` is in use: created, and not destroyed.
pub record InUse (s : Server) (i : ℕ) (l : ServerLock) : Type 0 where
  pub created : ltb i s.lock_count ≡ true
  pub stored : get_elem? s.locks i ≡ some l
  pub alive : l.is_deleted ≡ false

-- Lock `i` is now `lock`, which looks as `v`; the replies of `mails` are out, and nothing else of the
-- tables has changed.
pub record Updated (s : Server) (i : ℕ) (v : LockView) (mails : List Mail) (s' : Server)
    : Type 0 where
  pub lock : ServerLock
  pub locks : s'.locks ≡ set s.locks i lock
  pub viewed : view lock ≡ v
  pub healthy : IsHealthy lock
  pub alive : lock.is_deleted ≡ false
  pub outbox : s'.outbox ≡ s.outbox ++ mails
  pub lock_count : s'.lock_count ≡ s.lock_count
  pub conds : s'.conds ≡ s.conds
  pub mons : s'.mons ≡ s.mons
  pub cond_count : s'.cond_count ≡ s.cond_count
  pub env : s'.env ≡ s.env

pub InUse-valid :
    (s : Server) (i : ℕ) (l : ServerLock) → InUse s i l → validate_lock_index s (pos i) ≡ true
unfolding validate_lock_index
InUse-valid s i l u = ground arith
