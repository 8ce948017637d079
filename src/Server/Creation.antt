-- ===== src/Server/Creation.antt =====
-- `CreateLock_server`: one lock for each name, at a stable index.
use cs350project.Prelude.{
  ℕ, zero, suc, ◌+◌, ◌<◌, ◌≡◌, refl, ap, ◌∙◌, ◌⊎◌, inl, inr, get_of_lt, ℤ, pos, leb, Bool, true,
  false, Option, some, List, [], ◌∷◌, set, length, get_elem?, arith, subst, length-set,
}
use cs350project.Server.State.{ServerLock, Server, done, crashed, max_lock_count}
use cs350project.Server.Tables.{Search, found, missing, freed, eq_bytes, search_name}
use cs350project.Server.Locks.{fresh_lock, create_lock_server}

pub eq_bytes_refl : (a : List ℕ) → eq_bytes a a ≡ true
unfolding eq_bytes
eq_bytes_refl [] = refl
eq_bytes_refl (x ∷ a) = ground (arith, eq_bytes_refl a)

module _ {ℓ} {A : Type ℓ} (name_of : A → Option (List ℕ)) (deleted : A → Bool) (name : List ℕ) where
  abbrev search : ℕ → ℕ → List A → Search
  search = search_name name_of deleted name

  -- A new entry behind those that were searched in vain is found there.
  pub search-set :
      (n i : ℕ) (entries : List A) (e : A)
      → search n i entries ≡ missing
      → n < length entries
      → name_of e ≡ some name
      → deleted e ≡ false
      → search (suc n) i (set entries n e) ≡ found (i + n)
  unfolding search_name
  search-set zero i [] e m lt q d = absurd (omega arith)
  search-set zero i (x ∷ entries) e m lt q d = ground (arith, eq_bytes_refl name)
  search-set (suc n) i [] e m lt q d = absurd (omega arith)
  search-set (suc n) i (x ∷ entries) e m lt q d = ground (arith, search-set n (i + 1) entries e)

-- The state after a lock was added under a new name.
abbrev created : List ℕ → Server → ServerLock → Server
created name s old = record s {
  locks = set s.locks s.lock_count (fresh_lock name s.lock_count old);
  lock_count = s.lock_count + 1;
}

abbrev find_lock : List ℕ → Server → Search
find_lock name s =
    search_name (λ (l : ServerLock). l.name) (λ l. l.is_deleted) name s.lock_count 0 s.locks

Search-cases : (r : Search) → ((i : ℕ) × (r ≡ found i)) ⊎ ((r ≡ missing) ⊎ (r ≡ freed))
Search-cases (found i) = inl (i, refl)
Search-cases missing = inr (inl refl)
Search-cases freed = inr (inr refl)

-- A name that a live lock has is given that lock's index, and nothing changes.
create_found :
    (name : List ℕ) (s : Server) (i : ℕ)
    → leb max_lock_count s.lock_count ≡ false
    → find_lock name s ≡ found i
    → create_lock_server name s ≡ done (pos i) s
unfolding create_lock_server
create_found name s i room e = rw (room, e)

create_missing :
    (name : List ℕ) (s : Server) (old : ServerLock)
    → leb max_lock_count s.lock_count ≡ false
    → find_lock name s ≡ missing
    → get_elem? s.locks s.lock_count ≡ some old
    → create_lock_server name s ≡ done (pos s.lock_count) (created name s old)
unfolding create_lock_server
create_missing name s old room e stored = rw (room, e) (ground arith)

create_freed_lem :
    (name : List ℕ) (s : Server)
    → leb max_lock_count s.lock_count ≡ false
    → find_lock name s ≡ freed
    → create_lock_server name s ≡ crashed
unfolding create_lock_server
create_freed_lem name s room m = rw (room, m)

find_created :
    (name : List ℕ) (s : Server) (old : ServerLock)
    → find_lock name s ≡ missing
    → s.lock_count < length s.locks
    → find_lock name (created name s old) ≡ found s.lock_count
find_created name s old m lt =
    let next : s.lock_count + 1 ≡ suc s.lock_count = omega arith in
    let here : 0 + s.lock_count ≡ s.lock_count = omega arith in
    rw next (
      search-set (λ (l : ServerLock). l.name) (λ l. l.is_deleted) name s.lock_count 0 s.locks
        (fresh_lock name s.lock_count old) m lt refl refl
      ∙ ap found here)

-- Further calls of `CreateLock_server` that return, under any names, each while the table has room.
pub data Creates (s : Server) : Server → Type 0 where
  at_once : Creates s s
  after :
      {t u : Server} (name : List ℕ) (j : ℤ)
      → Creates s t
      → t.lock_count < 50
      → create_lock_server name t ≡ done j u
      → Creates s u

-- A lock that was found is found again, when there is one more lock behind those that were searched.
search-further :
    (name : List ℕ) (n i k : ℕ) (locks : List ServerLock) (e : ServerLock)
    → search (λ (l : ServerLock). l.name) (λ l. l.is_deleted) name n i locks ≡ found k
    → search (λ (l : ServerLock). l.name) (λ l. l.is_deleted) name (suc n) i (set locks n e)
      ≡ found k
unfolding search_name
search-further name zero i k locks e h = absurd (cc)
search-further name (suc n) i k [] e h = absurd (cc)
search-further name (suc n) i k (x ∷ locks) e h =
    ground (arith, h, search-further name n (i + 1) k locks e)

-- What a call of `CreateLock_server` that returns does to a table with room: nothing, or it adds a lock.
Created : List ℕ → Server → Server → Type 0
Created name s s' =
    (s ≡ s')
    ⊎ ((old : ServerLock) × (find_lock name s ≡ missing)
        × (s.lock_count < length s.locks)
        × (created name s old ≡ s'))

create-cases :
    (name : List ℕ) (s s' : Server) (i : ℤ)
    → length s.locks ≡ 50
    → s.lock_count < 50
    → create_lock_server name s ≡ done i s'
    → Created name s s'
unfolding Created
create-cases name s s' i size room e =
    let full : leb max_lock_count s.lock_count ≡ false = ground arith in
    elim (Search-cases (find_lock name s)) [
      | inl (j, f) ↦ inl (cc (e, create_found name s j full f))
      | inr (inl m) ↦
          let (old, stored) = get_of_lt s.locks s.lock_count (omega arith) in
          inr (old, m, omega arith, cc (e, create_missing name s old full m stored))
      | inr (inr m) ↦ absurd (cc (e, create_freed_lem name s full m))
    ]

found-created :
    (name other : List ℕ) (s : Server) (old : ServerLock) (k : ℕ)
    → find_lock name s ≡ found k
    → find_lock name (created other s old) ≡ found k
found-created name other s old k h =
    let next : s.lock_count + 1 ≡ suc s.lock_count = omega arith in
    rw next (search-further name s.lock_count 0 k s.locks (fresh_lock other s.lock_count old) h)

abbrev Finds : List ℕ → ℕ → Server → Type 0
Finds name k s = (length s.locks ≡ 50) × (find_lock name s ≡ found k)

Created-Finds :
    (name other : List ℕ) (s s' : Server) (k : ℕ)
    → Created other s s'
    → Finds name k s
    → Finds name k s'
unfolding Created
Created-Finds name other s s' k (inl same) h = subst (Finds name k) same h
Created-Finds name other s s' k (inr (old, m, lt, same)) (size, h) =
    subst (Finds name k) same
      (length-set s.locks s.lock_count _ ∙ size, found-created name other s old k h)

Creates-Finds :
    (name : List ℕ) (s : Server) (k : ℕ) {t : Server}
    → Creates s t
    → Finds name k s
    → Finds name k t
Creates-Finds name s k at_once h = h
Creates-Finds name s k (after {t} {u} other j c room e) h =
    let ih = Creates-Finds name s k c h in
    Created-Finds name other t u k (create-cases other t u j ih.0 room e) ih

created-Finds :
    (name : List ℕ) (s s' : Server) (i : ℤ)
    → length s.locks ≡ 50
    → s.lock_count < 50
    → create_lock_server name s ≡ done i s'
    → (k : ℕ) × (i ≡ pos k) × Finds name k s'
created-Finds name s s' i size room e =
    let full : leb max_lock_count s.lock_count ≡ false = ground arith in
    elim (Search-cases (find_lock name s)) [
      | inl (k, f) ↦
          let first = create_found name s k full f in
          let same : s ≡ s' = cc (e, first) in
          (k, cc (e, first), subst (Finds name k) same (size, f))
      | inr (inl m) ↦
          let (old, stored) = get_of_lt s.locks s.lock_count (omega arith) in
          let first = create_missing name s old full m stored in
          let same : created name s old ≡ s' = cc (e, first) in
          (
            s.lock_count,
            cc (e, first),
            subst (Finds name s.lock_count) same
                (length-set s.locks s.lock_count _ ∙ size, find_created name s old m (omega arith)),
          )
      | inr (inr m) ↦ absurd (cc (e, create_freed_lem name s full m))
    ]

-- In a table of fifty locks with room, a lock that was created under a name is what the name is given after
-- any further creations, under whatever names, as long as there is room: a second request with the name
-- returns the same index and creates nothing.
pub create_twice :
    (name : List ℕ) (s s' t : Server) (i : ℤ)
    → length s.locks ≡ 50
    → s.lock_count < 50
    → create_lock_server name s ≡ done i s'
    → Creates s' t
    → t.lock_count < 50
    → create_lock_server name t ≡ done i t
create_twice name s s' t i size room e c room' =
    let (k, at, here) = created-Finds name s s' i size room e in
    let (size', found_there) = Creates-Finds name s' k c here in
    rw at (create_found name t k (ground arith) found_there)
