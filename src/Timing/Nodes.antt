-- ===== src/Timing/Nodes.antt =====
-- The list of the statistics of interpose-timing.h, with what is counted of the nodes and of the output, and the
-- invariant.
use autolock.Base.{
  ℕ, ltb, ◌&&◌, ◌+◌, ◌≡◌, refl, sym, ap, ◌∙◌, arith, Bool, true, false, List, [], ◌∷◌, ◌==◌, ==_iff,
  one_if, update, Bool-cases, inl, inr,
}
use mathlib.Core.Path.{subst}
use autolock.Timing.{
  Pointer, null, end_list, node, is_same, Pc, outside, adding, fault, trying, Walker, waiting,
  walking, System, ThreadStats, Report, thread_stats_out, put_out,
}

-- How often a thread stands in a list.
abbrev pub count : ℕ → List ℕ → ℕ
count j [] = 0
count j (i ∷ is) = one_if (i == j) + count j is

-- How often the destructor has gone through the node of a thread, how often of these the thread had
-- counted a call, and how often something was printed for it.
abbrev pub visits : ℕ → List (ℕ × ThreadStats) → ℕ
visits j [] = 0
visits j (v ∷ vs) = one_if (v.0 == j) + visits j vs

abbrev pub has_calls : ThreadStats → Bool
has_calls st = ltb 0 (st.num_calls_trylock + st.num_calls_lock + st.num_calls_unlock)

abbrev pub called_visits : ℕ → List (ℕ × ThreadStats) → ℕ
called_visits j [] = 0
called_visits j (v ∷ vs) = one_if (v.0 == j && has_calls v.1) + called_visits j vs

abbrev pub prints : ℕ → List (ℕ × Report) → ℕ
prints j [] = 0
prints j (r ∷ rs) = one_if (r.0 == j) + prints j rs

pub prints-put_out :
    (j i : ℕ) (st : ThreadStats) (out : List (ℕ × Report))
    → prints j (put_out i (thread_stats_out st) out)
      ≡ one_if (i == j && has_calls st) + prints j out
unfolding thread_stats_out
prints-put_out j i st out = ground arith

-- The threads whose nodes follow one another from a pointer up to NULL.
pub data Chain (next : ℕ → Pointer) : Pointer → List ℕ → Type 0 where
  done : Chain next null []
  link : {i : ℕ} {is : List ℕ} → Chain next (next i) is → Chain next (node i) (i ∷ is)

abbrev pub current : Walker → Pointer → Pointer
current waiting p = p
current (walking p) q = p

-- What is known of a thread inside I_thread_stats_add.
abbrev pub At : Pointer → ThreadStats → Bool → Pc → Type 0
At q st h outside = h ≡ h
At q st h adding = (h ≡ false) × (has_calls st ≡ false)
At q st h (trying p) = (h ≡ false) × (has_calls st ≡ false) × (q ≡ p) × (is_same p end_list ≡ false)
At q st h fault = h ≡ h

abbrev pub Closed : Walker → Pointer → Type 0
Closed waiting p = p ≡ p
Closed (walking q) p = p ≡ end_list

pub record Inv (s : System) : Type 0 where
  pub rest : List ℕ
  pub chain : Chain s.next (current s.walker s.head) rest
  pub counts : (j : ℕ) → visits j s.visited + count j rest ≡ one_if (s.threads j).has_stats
  pub printed : (j : ℕ) → prints j s.output ≡ called_visits j s.visited
  pub locals : (j : ℕ) → At (s.next j) (s.stats j) (s.threads j).has_stats (s.threads j).pc
  pub closed : Closed s.walker s.head

pub is_same-eq : (p q : Pointer) → is_same p q ≡ true → p ≡ q
is_same-eq null null e = refl
is_same-eq end_list end_list e = refl
is_same-eq (node i) (node j) e = ap node ((==_iff i j).0 e)
is_same-eq p q e = absurd (ground (arith, e))

-- A node that is not in the list may be written.
pub Chain-update :
    {next : ℕ → Pointer} {p : Pointer} {is : List ℕ} (i : ℕ) (q : Pointer)
    → Chain next p is
    → count i is ≡ 0
    → Chain (update next i q) p is
Chain-update i q done none_there = done
Chain-update {next} i q (link {i = k} {is} c) none_there = elim (Bool-cases (i == k)) [
  | inl e ↦ absurd (ground (arith, e, none_there))
  | inr e ↦ link (
      subst (λ p. Chain (update next i q) p is) (kept e)
        (Chain-update i q c (ground (arith, none_there))))
]
  where
    kept : (i == k) ≡ false → next k ≡ update next i q k
    kept e = rw e refl

pub Closed-waiting :
    (w : Walker) (p : Pointer) → Closed w p → is_same p end_list ≡ false → w ≡ waiting
Closed-waiting waiting p c ne = refl
Closed-waiting (walking q) p c ne = absurd (clash (sym ne ∙ ap (λ x. is_same x end_list) c))
  where
    clash : false ≡ true → ⊥
    clash z = ground (arith, z)
