-- ===== src/Decls.antt =====
-- The choice of the tests and benchmarks to run by their names, of
-- user-dev/src/util/func-decl-utils.c. The expressions are a parameter: whether
-- `regcomp` accepts the text of one, and whether `regexec` then matches a name.
pub mod Runs
mod Tests
use autolock.Base.{
  ℕ, Bool, true, false, not, Option, none, some, ◌&&◌, ◌||◌, List, [], ◌∷◌, ◌++◌, ◌==◌,
  if◌then◌else◌,
}
use autolock.Base.Exec.{Exec, value, die_assert, ◌>>=◌}
use autolock.Arg.{Text}

-- `build_re_wildcard_matcher`: the expression behind its `^`, up to the next `*` and from there on.
pub build_tail : Text → Text
build_tail [] = b'$' ∷ []
build_tail (c ∷ cs) = if c == b'*' then b'.' ∷ b'*' ∷ build_tail cs else c ∷ build_tail cs

unfoldable pub build_re : Text → Text
unfolding build_tail
build_re decl_to_run = b'^' ∷ build_tail decl_to_run

-- `decl_did_one`, unless the loop came to a `*`.
pub match_one : Text → Bool
match_one [] = true
match_one (c ∷ cs) = if c == b'*' then false else match_one cs

-- A name to run with its bits: decl_did_one, decl_re_built, decl_ran.
pub record DeclState : Type 0 where
  pub name : Text
  pub did_one : Bool
  pub re_built : Bool
  pub ran : Bool

abbrev pub build : DeclState → DeclState
build d =
    if d.re_built then d else record d { re_built = true; did_one = d.did_one || match_one d.name }

module _ (re_compile : Text → Bool) (re_exec : Text → Text → Bool) where
  -- `safe_re_compile` ends the program where the expression has to be built and is none.
  abbrev pub compiles : DeclState → Bool
  compiles d = (d.ran && d.did_one) || d.re_built || re_compile (build_re d.name)

  abbrev pub is_match : DeclState → Text → Bool
  is_match d decl_name = re_exec (build_re d.name) decl_name

  -- One turn of the loop of `should_run_decl`, with the expression built: the new state, and whether it has hit.
  pub try_decl : DeclState → Text → DeclState × Bool
  try_decl d decl_name =
      if d.ran && d.did_one
      then (d, false)
      else if is_match d decl_name
      then (record (build d) { ran = true }, true)
      else (build d, false)

  pub should_run_decl : Text → List DeclState → Exec (List DeclState × Bool)
  unfolding try_decl
  should_run_decl decl_name [] = value ([], false)
  should_run_decl decl_name (d ∷ ds) = die_assert (compiles d) (
      should_run_decl decl_name ds >>= λ r.
      value ((try_decl d decl_name).0 ∷ r.0, (try_decl d decl_name).1 || r.1))

  -- The loop of `run_decls`: the declarations that are run, in order, and the last states.
  pub run_loop : List Text → List DeclState → Exec (List Text × List DeclState)
  unfolding should_run_decl
  run_loop [] ds = value ([], ds)
  run_loop (n ∷ ns) ds = should_run_decl n ds >>= λ r.
      run_loop ns r.0 >>= λ q. value (if r.1 then n ∷ q.0 else q.0, q.1)

-- `memset` of the states
pub start : List Text → List DeclState
start [] = []
start (n ∷ ns) = record { name = n; did_one = false; re_built = false; ran = false } ∷ start ns

-- The names that are printed as not found.
pub unable_to_find : List DeclState → List Text
unable_to_find [] = []
unable_to_find (d ∷ ds) = if d.ran then unable_to_find ds else d.name ∷ unable_to_find ds

-- `run_decls`: the declarations that are run, in order, and the names reported as not found; with
-- no list of names (NULL) every declaration is run.
unfoldable pub run_decls :
    (Text → Bool)
    → (Text → Text → Bool)
    → List Text
    → Option (List Text)
    → Exec (List Text × List Text)
unfolding run_loop start unable_to_find
run_decls re_compile re_exec decls none = value (decls, [])
run_decls re_compile re_exec decls (some decls_to_run) =
    run_loop re_compile re_exec decls (start decls_to_run) >>= λ r. value (r.0, unable_to_find r.1)
