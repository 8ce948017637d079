-- ===== src/Threads/Lock/Woken.antt =====
-- Threads that were made ready, in their order.
use mathlib.Core.List.{append_assoc}
use cs350project.Prelude.{ℕ, ◌≡◌, ap, ◌∙◌, List, [], ◌∷◌, ◌++◌, Option, none, some}
use cs350project.Threads.Lock.{made_ready}

-- The first list is in the second, in its order, perhaps with others in between.
pub data Within : List ℕ → List ℕ → Type 0 where
  nothing : Within [] []
  more : {ts us : List ℕ} → Within ts us → (u : ℕ) → Within ts (us ++ (u ∷ []))
  also : {ts us : List ℕ} → Within ts us → (t : ℕ) → Within (ts ++ (t ∷ [])) (us ++ (t ∷ []))

-- Since `before`, the threads of `gone` were made ready, in their order.
pub record Woken (before gone ready : List ℕ) : Type 0 where
  pub fresh : List ℕ
  pub appended : ready ≡ before ++ fresh
  pub within : Within gone fresh

pub Woken-more :
    (before gone ready : List ℕ) (t : ℕ)
    → Woken before gone ready
    → Woken before gone (ready ++ (t ∷ []))
Woken-more before gone ready t w = record {
  fresh = w.fresh ++ (t ∷ []);
  appended = ap (λ r. r ++ (t ∷ [])) w.appended ∙ append_assoc before w.fresh (t ∷ []);
  within = more w.within t;
}

pub Woken-also :
    (before gone ready : List ℕ) (t : ℕ)
    → Woken before gone ready
    → Woken before (gone ++ (t ∷ [])) (ready ++ (t ∷ []))
Woken-also before gone ready t w = record {
  fresh = w.fresh ++ (t ∷ []);
  appended = ap (λ r. r ++ (t ∷ [])) w.appended ∙ append_assoc before w.fresh (t ∷ []);
  within = also w.within t;
}

pub Woken-made :
    (before gone ready : List ℕ) (o : Option ℕ)
    → Woken before gone ready
    → Woken before gone (made_ready o ready)
Woken-made before gone ready none w = w
Woken-made before gone ready (some t) w = Woken-more before gone ready t w
