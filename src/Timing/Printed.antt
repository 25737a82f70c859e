-- ===== src/Timing/Printed.antt =====
-- What the destructor of interpose-timing.h prints: the list of the statistics as it goes through it.
use autolock.Base.{ℕ, zero, suc, ◌≤◌, ◌≡◌, refl, ap, ◌∙◌, arith, List, [], ◌∷◌, one_if}
use mathlib.Core.Path.{subst}
use autolock.Timing.{
  Pointer, null, node, Walker, waiting, walking, System, ThreadStats, destroy, Reach,
}
use autolock.Timing.Nodes.{count, visits, called_visits, prints, Chain, done, link, current, Inv}
use autolock.Timing.Visits.{Reach-Inv}

-- The destructor alone.
abbrev pub run_destroy : ℕ → System → System
run_destroy zero s = s
run_destroy (suc k) s = run_destroy k (destroy s.walker s)

walks :
    {next : ℕ → Pointer} {p : Pointer} {is : List ℕ}
    → Chain next p is
    → (s : System) → s.next ≡ next
    → s.walker ≡ walking p
    → (k : ℕ) × ((run_destroy k s).walker ≡ walking null)
unfolding destroy
walks done s same w = (0, w)
walks (link {i} c) s same w =
    let (k, e) = walks c (destroy (walking (node i)) s) same (ap (λ f. walking (f i)) same) in
    (suc k, ap (λ x. (run_destroy k (destroy x s)).walker) w ∙ e)

ends :
    (s : System)
    → (w : Walker) → s.walker ≡ w
    → Inv s
    → (k : ℕ) × ((run_destroy k s).walker ≡ walking null)
unfolding destroy
ends s waiting q inv =
    let c = subst (λ w. Chain s.next (current w s.head) inv.rest) q inv.chain in
    let (k, e) = walks c (destroy waiting s) refl refl in
    (suc k, ap (λ x. (run_destroy k (destroy x s)).walker) q ∙ e)
ends s (walking p) q inv =
    walks (subst (λ w. Chain s.next (current w s.head) inv.rest) q inv.chain) s refl q

called_visits-le : (j : ℕ) (vs : List (ℕ × ThreadStats)) → called_visits j vs ≤ visits j vs
called_visits-le j [] = omega arith
called_visits-le j (v ∷ vs) = ground (arith, called_visits-le j vs)

-- In every reachable state, with any number of threads and in every interleaving with the destructor:
-- the destructor has gone through the statistics of a thread at most once, and only if the thread
-- has put them into the list; when it is through, it has gone through those of every such thread;
-- left alone it gets through. For a thread, as many lines of the table, or lines that it has no
-- times, have been printed as the destructor has gone through its statistics with a counted call of
-- any of the three functions, which is at most once.
pub destroy-prints :
    {s : System}
    → Reach s
    → ((j : ℕ) → visits j s.visited ≤ one_if (s.threads j).has_stats)
      × (s.walker ≡ walking null → (j : ℕ) → visits j s.visited ≡ one_if (s.threads j).has_stats)
      × ((j : ℕ) → prints j s.output ≡ called_visits j s.visited)
      × ((j : ℕ) → prints j s.output ≤ one_if (s.threads j).has_stats)
      × ((k : ℕ) × ((run_destroy k s).walker ≡ walking null))
destroy-prints {s} r =
    let inv = Reach-Inv r in
    (
      λ j. omega (arith, inv.counts j),
      λ w j. omega (
        arith,
        inv.counts j,
        none_left j (subst (λ w. Chain s.next (current w s.head) inv.rest) w inv.chain),
      ),
      inv.printed,
      λ j. omega (arith, inv.printed j, called_visits-le j s.visited, inv.counts j),
      ends s s.walker refl inv,
    )
  where
    none_left : {next : ℕ → Pointer} {is : List ℕ} (j : ℕ) → Chain next null is → count j is ≡ 0
    none_left j done = refl
