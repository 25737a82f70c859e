-- ===== src/Stats/Values.antt =====
-- When a computation of stats.c that can end the program has a value.
use autolock.Base.{Bool, true, false, Option, none, some, ◌≡◌, refl, ap, ◌∙◌, ◌↔◌, arith}
use autolock.Stats.{Exec, value, died, outside, running, die_assert, element, ◌>>=◌}

module _ {A : Type 0} where
  abbrev get_value : A → Exec A → A
  get_value a (value b) = b
  get_value a died = a
  get_value a outside = a
  get_value a running = a

  pub value_inj : {a b : A} → value a ≡ value b → a ≡ b
  value_inj {a} h = ap (get_value a) h

  pub die_assert-value :
      (b : Bool) (x : Exec A) (a : A) → (die_assert b x ≡ value a) ↔ ((b ≡ true) × (x ≡ value a))
  die_assert-value true x a = (λ h. (refl, h), λ h. h.1)
  die_assert-value false x a = (λ h. absurd (ground arith), λ h. absurd (ground arith))

  pub element-value : (o : Option A) (a : A) → (element o ≡ value a) ↔ (o ≡ some a)
  element-value none a = (λ h. absurd (ground arith), λ h. absurd (ground arith))
  element-value (some b) a = (λ h. ap some (value_inj h), λ h. ap element h)

pub bind-value :
    {A B : Type 0} (m : Exec A) (f : A → Exec B) (b : B)
    → (m >>= f ≡ value b) ↔ ((a : A) × (m ≡ value a) × (f a ≡ value b))
bind-value (value a) f b = (λ h. (a, refl, h), λ (a', e, h). ap f (value_inj e) ∙ h)
bind-value died f b = (λ h. absurd (ground arith), λ (a', e, h). absurd (ground arith))
bind-value outside f b = (λ h. absurd (ground arith), λ (a', e, h). absurd (ground arith))
bind-value running f b = (λ h. absurd (ground arith), λ (a', e, h). absurd (ground arith))
