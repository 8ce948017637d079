-- ===== src/Server/Tables.antt =====
-- network/nettest.cc: the search by name with which the three create calls begin.
use cs350project.Prelude.{
  ℕ, zero, suc, ◌+◌, ◌==◌, if◌then◌else◌, Bool, true, false, Option, none, some, List, [], ◌∷◌,
}

-- `freed` is a `strcmp` with a name that was deleted.
pub data Search : Type 0 where
  found : ℕ → Search
  missing : Search
  freed : Search

-- `strcmp(a, b) == 0`
unfoldable pub eq_bytes : List ℕ → List ℕ → Bool
eq_bytes [] [] = true
eq_bytes [] (b ∷ bs) = false
eq_bytes (a ∷ as') [] = false
eq_bytes (a ∷ as') (b ∷ bs) = if a == b then eq_bytes as' bs else false

-- for (i = i; i < i + n; ++i) if (strcmp(name, table[i].name) == 0 && !table[i].isDeleted) return i;
unfoldable pub search_name {ℓ} :
    {A : Type ℓ} → (A → Option (List ℕ)) → (A → Bool) → List ℕ → ℕ → ℕ → List A → Search
unfolding eq_bytes
search_name name_of deleted name zero i entries = missing
search_name name_of deleted name (suc n) i [] = missing
search_name name_of deleted name (suc n) i (e ∷ entries) =
    let rest = search_name name_of deleted name n (i + 1) entries in
    elim (name_of e) [
      | none ↦ freed
      | some other ↦ if eq_bytes name other then (if deleted e then rest else found i) else rest
    ]
