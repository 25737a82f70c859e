-- ===== src/Cptltkt/Others.antt =====
-- What the steps of other threads leave of a thread's part.
use autolock.Base.{ℕ, suc, ◌≤◌, ◌<◌, ◌≡◌, ◌≢◌, refl, ◌∙◌, ◌⊎◌, inl, inr, arith, true, Option}
use autolock.Cptltkt.Invariant.{
  Phase, out, waiting, arrived, taking, asking, lined, granted, holding, leaving, passed, released,
  in_queue, owns, View, Rest, First, Local,
}

-- The thread that its socket has granted.
pub owns-First :
    (v : View) (k : ℕ) (p : Phase) (turn req next : ℕ)
    → owns p ≡ true
    → Local v k p turn req next
    → First v turn × (in_queue p ≡ true)
owns-First v k out turn req next q o = absurd (ground arith)
owns-First v k waiting turn req next q o = absurd (ground arith)
owns-First v k arrived turn req next q o = (o.0, refl)
owns-First v k taking turn req next q o = (o.0, refl)
owns-First v k asking turn req next q o = (o.0, refl)
owns-First v k lined turn req next q o = (o.0, refl)
owns-First v k granted turn req next q o = (o.0, refl)
owns-First v k holding turn req next q o = (o.0, refl)
owns-First v k leaving turn req next q o = (o.0, refl)
owns-First v k passed turn req next q o = (o.0, refl)
owns-First v k released turn req next q o = (o.0, refl)

pub in_queue-bounds :
    (v : View) (k : ℕ) (p : Phase) (turn req next : ℕ)
    → in_queue p ≡ true
    → Local v k p turn req next
    → (v.granted ≤ turn) × (turn < v.asked)
in_queue-bounds v k out turn req next q o = absurd (ground arith)
in_queue-bounds v k waiting turn req next q o = (o.0, o.1)
in_queue-bounds v k arrived turn req next q o = omega (arith, o.0.0, o.0.1)
in_queue-bounds v k taking turn req next q o = omega (arith, o.0.0, o.0.1)
in_queue-bounds v k asking turn req next q o = omega (arith, o.0.0, o.0.1)
in_queue-bounds v k lined turn req next q o = omega (arith, o.0.0, o.0.1)
in_queue-bounds v k granted turn req next q o = omega (arith, o.0.0, o.0.1)
in_queue-bounds v k holding turn req next q o = omega (arith, o.0.0, o.0.1)
in_queue-bounds v k leaving turn req next q o = omega (arith, o.0.0, o.0.1)
in_queue-bounds v k passed turn req next q o = omega (arith, o.0.0, o.0.1)
in_queue-bounds v k released turn req next q o = omega (arith, o.0.0, o.0.1)

-- Another thread comes to the same socket, with `x` as the new word.
module _ (v : View) (x k : ℕ) where
  abbrev pub one_more : View
  one_more = record v { requests = x; asked = suc v.asked }

  later : {turn : ℕ} → First v turn → First one_more turn
  later f = (f.0, omega (arith, f.1))

  pub one_more-Local :
      (p : Phase) (turn req next : ℕ) → Local v k p turn req next → Local one_more k p turn req next
  one_more-Local out turn req next o = tt
  one_more-Local waiting turn req next o = (o.0, omega (arith, o.1), o.2, o.3)
  one_more-Local arrived turn req next o = (later o.0, o.1)
  one_more-Local taking turn req next o = (later o.0, o.1)
  one_more-Local asking turn req next o = (later o.0, o.1)
  one_more-Local lined turn req next (f, a, b, c) = (later f, a, b, c)
  one_more-Local granted turn req next (f, a, b, c, d) = (later f, a, b, c, d)
  one_more-Local holding turn req next (f, a, b) = (later f, a, b)
  one_more-Local leaving turn req next (f, a, b, c) = (later f, a, b, c)
  one_more-Local passed turn req next (f, a, b) = (later f, a, b)
  one_more-Local released turn req next (f, a, b) = (later f, a, b)

-- The thread that the same socket has granted changes the socket, and may grant the next.
module _ (v u : View) (k : ℕ) (asked : u.asked ≡ v.asked)
    (change : (u.granted ≡ v.granted) ⊎ ((u.granted ≡ suc v.granted) × Rest u k)) where
  behind :
      (turn req : ℕ)
      → turn ≢ v.granted
      → Local v k waiting turn req 0
      → Local u k waiting turn req 0
  behind turn req ne (le, lt, q, r) = elim change [
    | inl same ↦ (omega (arith, same, le), omega (arith, asked, lt), q, λ e. absurd (ne (e ∙ same)))
    | inr (next, rest) ↦ (rw next (above le ne), omega (arith, asked, lt), q, λ e. rest)
  ]
    where
      above : v.granted ≤ turn → turn ≢ v.granted → suc v.granted ≤ turn
      above le ne = ground (arith, le, ne)

  pub behind-Local :
      (p : Phase) (turn req next : ℕ)
      → (in_queue p ≡ true → turn ≢ v.granted)
      → Local v k p turn req next
      → Local u k p turn req next
  behind-Local out turn req next ne o = tt
  behind-Local waiting turn req next ne o = behind turn req (ne refl) o
  behind-Local arrived turn req next ne o = absurd (ne refl o.0.0)
  behind-Local taking turn req next ne o = absurd (ne refl o.0.0)
  behind-Local asking turn req next ne o = absurd (ne refl o.0.0)
  behind-Local lined turn req next ne o = absurd (ne refl o.0.0)
  behind-Local granted turn req next ne o = absurd (ne refl o.0.0)
  behind-Local holding turn req next ne o = absurd (ne refl o.0.0)
  behind-Local leaving turn req next ne o = absurd (ne refl o.0.0)
  behind-Local passed turn req next ne o = absurd (ne refl o.0.0)
  behind-Local released turn req next ne o = absurd (ne refl o.0.0)

-- A thread of another socket, which has the lock, changes who has it.
module _ (v : View) (k served : ℕ) (cur : Option ℕ)
    (not_ours : v.queued ≡ true → v.number ≢ v.served) where
  abbrev pub moved : View
  moved = record v { served = served; cur = cur }

  pub moved-Rest : Rest v k → Rest moved k
  moved-Rest (inl f) = inl f
  moved-Rest (inr o) = absurd (not_ours o.1.0 o.1.1)

  pub moved-Local :
      (p : Phase) (turn req next : ℕ) → Local v k p turn req next → Local moved k p turn req next
  moved-Local out turn req next o = tt
  moved-Local waiting turn req next o = (o.0, o.1, o.2, λ e. moved-Rest (o.3 e))
  moved-Local arrived turn req next (f, r) = (f, moved-Rest r)
  moved-Local taking turn req next o = absurd (not_ours o.1.1.0 o.1.1.1)
  moved-Local asking turn req next o = o
  moved-Local lined turn req next o = o
  moved-Local granted turn req next o = absurd (not_ours o.2 o.4)
  moved-Local holding turn req next o = absurd (not_ours o.2.0 o.2.1)
  moved-Local leaving turn req next o = absurd (not_ours o.3.0 o.3.1)
  moved-Local passed turn req next o = absurd (not_ours o.2.1.0 o.2.1.1)
  moved-Local released turn req next o = o
