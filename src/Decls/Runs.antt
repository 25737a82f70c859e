-- ===== src/Decls/Runs.antt =====
-- Which declarations `run_decls` of func-decl-utils.c runs, and which names it does not find.
use autolock.Base.{
  ◌+◌, ◌*◌, ◌≤◌, ◌≡◌, Bool, true, false, not, ◌&&◌, ◌||◌, List, [], ◌∷◌, length, arith,
  if◌then◌else◌,
}
use autolock.Arg.{Text}
use autolock.Decls.{build_tail, build_re, match_one, DeclState}

build_tail-length : (t : Text) → length (build_tail t) ≤ 2 * length t + 1
unfolding build_tail
build_tail-length [] = omega arith
build_tail-length (c ∷ cs) = ground (arith, build_tail-length cs)

-- The expression for a name, with its terminator, fits in the buffer of `strlen * 2 + 3` bytes.
pub build_re-fits : (t : Text) → length (build_re t) + 1 ≤ length t * 2 + 3
unfolding build_re
build_re-fits t = omega (arith, build_tail-length t)

module _ (re_compile : Text → Bool) (re_exec : Text → Text → Bool) where
  -- A name matches one of the declarations.
  abbrev pub matches : Text → List Text → Bool
  matches n [] = false
  matches n (d ∷ ds) = re_exec (build_re n) d || matches n ds

  -- A name lets a declaration run that comes behind `before`: it matches, and if it has no
  -- wildcard it has matched none before.
  abbrev pub wants : List Text → Text → Text → Bool
  wants before d n = re_exec (build_re n) d && not (match_one n && matches n before)

  abbrev pub wanted : List Text → Text → List Text → Bool
  wanted before d [] = false
  wanted before d (n ∷ ns) = wants before d n || wanted before d ns

  abbrev pub chosen : List Text → List Text → List Text → List Text
  chosen before [] names = []
  chosen before (d ∷ ds) names =
      if wanted before d names
      then d ∷ chosen (d ∷ before) ds names
      else chosen (d ∷ before) ds names

  abbrev pub unmatched : List Text → List Text → List Text
  unmatched ds [] = []
  unmatched ds (n ∷ ns) = if matches n ds then unmatched ds ns else n ∷ unmatched ds ns

  -- The state of a name behind the declarations `before`, the last one first.
  abbrev IsState : List Text → Text → DeclState → Type 0
  IsState [] n s = (s.name ≡ n) × (s.ran ≡ false) × (s.did_one ≡ false) × (s.re_built ≡ false)
  IsState (d ∷ ds) n s =
      (s.name ≡ n) × (s.ran ≡ matches n (d ∷ ds)) × (s.did_one ≡ match_one n) × (s.re_built ≡ true)

  abbrev IsStates : List Text → List Text → List DeclState → Type 0
  IsStates before [] [] = Unit
  IsStates before [] (s ∷ ss) = ⊥
  IsStates before (n ∷ ns) [] = ⊥
  IsStates before (n ∷ ns) (s ∷ ss) = IsState before n s × IsStates before ns ss

  -- Every name gives an expression that `regcomp` accepts.
  abbrev pub all_compile : List Text → Bool
  all_compile [] = true
  all_compile (n ∷ ns) = re_compile (build_re n) && all_compile ns

  abbrev after : List Text → List Text → List Text
  after before [] = before
  after before (d ∷ ds) = after (d ∷ before) ds
