-- ===== src/Arg/Parse/Required/Cases.antt =====
-- Case lemmas for the results of an assignment in arg.c.
use autolock.Base.{ℕ, ◌≡◌, refl, ◌⊎◌, inl, inr}
use autolock.Arg.{Store, Stop}
use autolock.Arg.Assign.{Assigned, Bad, done, bad, stop}

pub Assigned-cases :
    (a : Assigned)
    → ((n : ℕ) × (s : Store) × (a ≡ done n s))
      ⊎ (((b : Bad) × (a ≡ bad b)) ⊎ ((e : Stop) × (a ≡ stop e)))
Assigned-cases (done n s) = inl (n, s, refl)
Assigned-cases (bad b) = inr (inl (b, refl))
Assigned-cases (stop e) = inr (inr (e, refl))
