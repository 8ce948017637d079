-- ===== src/Table/Laws.antt =====
-- The operations of `Table` against each other.
use cs350project.Prelude.{
  ℕ, ◌<◌, ◌≡◌, Bool-cases, inl, inr, ◌↔◌, refl, subst, Bool, true, false, ltb, eqb_ℤ, if◌then◌else◌,
  ℤ, pos, negsuc, minus_one, Option, none, some, length, set, get_or, arith, tests, get_or-set,
}
use cs350project.Bitmap.{BitMap, num_clear, find, test, clear}
use cs350project.Bitmap.Laws.{IsSized}
use cs350project.Bitmap.Access.{test-clear}
use cs350project.Bitmap.Search.{Allocated, find_allocates, find_full}
use cs350project.Table.{Table, get, put, remove, stored, removed}

pub record IsTable (t : Table) : Type 0 where
  pub sized : IsSized t.map
  pub bits : t.map.num_bits ≡ t.size
  pub slots : length t.elements ≡ t.size

-- What `Put` changes, once the bitmap has given it the slot `i`.
get-stored :
    (t : Table) (b' : BitMap) (i f : ℕ) (other : ℤ)
    → IsTable t
    → Allocated t.map b' i
    → get (record t { map = b'; elements = set t.elements i f }) other
      ≡ (if eqb_ℤ (pos i) other then some f else get t other)
unfolding get
get-stored t b' i f (negsuc n) h a = refl
get-stored t b' i f (pos j) h a =
    let slot = get_or-set t.elements i j f 0 (omega (arith, a.inside, h.bits, h.slots)) in
    ground (arith, slot, a.others_keep j, a.now_set, a.inside)

get-free :
    (t : Table) (b' : BitMap) (i : ℕ) → IsTable t → Allocated t.map b' i → get t (pos i) ≡ some 0
unfolding get
get-free t b' i h a = ground (arith, a.was_clear)

stored-pos :
    (t t' : Table) (f i : ℕ) (r : BitMap × ℤ)
    → stored t f r ≡ (t', pos i)
    → (map : BitMap) × (r ≡ (map, pos i))
      × (record t { map = map; elements = set t.elements i f } ≡ t')
stored-pos t t' f i (map, negsuc n) h = absurd (cc)
stored-pos t t' f i (map, pos k) h = (map, ground arith, ground arith)

-- In a well-formed table, a `Put` that returns a slot found nothing there, and afterwards `Get`
-- returns the pointer from that slot and what it returned before from every other index.
pub get-put :
    (t t' : Table) (f i : ℕ) (other : ℤ)
    → IsTable t
    → put t f ≡ (t', pos i)
    → (get t (pos i) ≡ some 0)
      × (get t' other ≡ (if eqb_ℤ (pos i) other then some f else get t other))
unfolding put
get-put t t' f i other h e =
    let (map, found, same) = stored-pos t t' f i (find t.map) e in
    let a = find_allocates t.map map i h.sized found in
    (
      get-free t map i h a,
      subst (λ t'. get t' other ≡ (if eqb_ℤ (pos i) other then some f else get t other)) same
          (get-stored t map i f other h a),
    )

stored_fails :
    (t : Table) (f : ℕ) (r : BitMap × ℤ)
    → (stored t f r ≡ (t, minus_one)) ↔ (r ≡ (t.map, minus_one))
stored_fails t f (map, negsuc n) = ground arith
stored_fails t f (map, pos i) = ground arith

-- A `Put` returns -1 and changes nothing exactly when the bitmap has no clear bit.
pub put_fails : (t : Table) (f : ℕ) → (put t f ≡ (t, minus_one)) ↔ (num_clear t.map ≡ 0)
unfolding put
put_fails t f = ground (arith, stored_fails t f (find t.map), find_full t.map)

-- What `Remove` returns and changes.
abbrev Removal : (t t' : Table) (i other : ℤ) (f : ℕ) → Type 0
Removal t t' i other f =
    (get t i ≡ some f) × (get t' other ≡ (if eqb_ℤ i other then some 0 else get t other))

get-unused : (t : Table) (i : ℕ) → test t.map (pos i) ≡ some false → get t (pos i) ≡ some 0
unfolding get
get-unused t i u = ground arith

get-outside : (t : Table) (i : ℕ) → ltb i t.size ≡ false → get t (pos i) ≡ some 0
unfolding get
get-outside t i ge = ground arith

get-negsuc :
    (t : Table) (n : ℕ) (other : ℤ)
    → get t other ≡ (if eqb_ℤ (negsuc n) other then some 0 else get t other)
unfolding get
get-negsuc t n (pos j) = refl
get-negsuc t n (negsuc m) = ground arith

nothing_removed :
    (t : Table) (i : ℕ) (other : ℤ) → get t (pos i) ≡ some 0 → Removal t t (pos i) other 0
unfolding get
nothing_removed t i (pos j) h = (h, ground (arith, h))
nothing_removed t i (negsuc j) h = (h, refl)

get-emptied :
    (t : Table) (map : BitMap) (i : ℕ) (other : ℤ)
    → IsTable t
    → i < t.size
    → test t.map (pos i) ≡ some true
    → clear t.map (pos i) ≡ some map
    → Removal t
        (record t { map = map; elements = set t.elements i 0 })
        (pos i)
        other
        (get_or t.elements i 0)
unfolding get
get-emptied t map i (negsuc j) h lt used cleared = (ground arith, refl)
get-emptied t map i (pos j) h lt used cleared =
    let slot = get_or-set t.elements i j 0 0 (omega (arith, h.slots)) in
    let bits = test-clear t.map map (pos i) (pos j) h.sized cleared in
    (ground arith, ground (arith, slot, bits))

removed_lem :
    (t t' : Table) (i : ℕ) (other : ℤ) (f : ℕ) (used : Option Bool) (map : Option BitMap)
    → IsTable t
    → i < t.size
    → test t.map (pos i) ≡ used
    → clear t.map (pos i) ≡ map
    → removed t i used ≡ some (t', f)
    → Removal t t' (pos i) other f
removed_lem t t' i other f none map h lt u c e = absurd (cc)
removed_lem t t' i other f (some false) map h lt u c e =
    subst {A = Table × ℕ} (λ p. Removal t (p.0) (pos i) other (p.1)) (ground arith)
      (nothing_removed t i other (get-unused t i u))
removed_lem t t' i other f (some true) none h lt u c e = absurd (cc)
removed_lem t t' i other f (some true) (some map) h lt u c e =
    subst {A = Table × ℕ} (λ p. Removal t (p.0) (pos i) other (p.1)) (ground arith)
      (get-emptied t map i other h lt u c)

-- In a well-formed table, a `Remove` that passes the assertions returns what `Get` would, and
-- afterwards `Get` returns null for that index and what it returned before for every other index.
pub get-remove :
    (t t' : Table) (i other : ℤ) (f : ℕ)
    → IsTable t
    → remove t i ≡ some (t', f)
    → Removal t t' i other f
unfolding remove get
get-remove t t' (negsuc n) other f h e =
    subst {A = Table × ℕ} (λ p. Removal t (p.0) (negsuc n) other (p.1)) (ground arith)
      (refl, get-negsuc t n other)
get-remove t t' (pos i) other f h e = elim (Bool-cases (ltb i t.size)) [
  | inl lt ↦ removed_lem t t' i other f _ _ h (omega tests) refl refl (ground (arith, e, lt))
  | inr ge ↦
      subst {A = Table × ℕ} (λ p. Removal t (p.0) (pos i) other (p.1)) (ground (arith, e, ge))
        (nothing_removed t i other (get-outside t i ge))
]
