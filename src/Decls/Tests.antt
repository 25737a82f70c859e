-- ===== src/Decls/Tests.antt =====
-- Runs of func-decl-utils.c on a few names, and its theorems on them.
use autolock.Base.{◌≡◌, refl, some, Bool, List, [], ◌∷◌, ◌==◌, if◌then◌else◌, get_or, ◌++◌, not}
use autolock.Base.Exec.{value, died}
use autolock.Arg.{Text, str_eq}
use autolock.Decls.{build_re, match_one, run_decls}

-- Enough of `regexec` for the names below: a literal, or `.*` in front of a second letter.
abbrev re_exec : Text → Text → Bool
re_exec p cs =
    if get_or p 1 0 == b'.'
    then get_or p 3 0 == get_or cs 1 0
    else str_eq p (b'^' ∷ cs ++ b'$' ∷ [])

-- `regcomp` refuses `^[$` only.
abbrev re_compile : Text → Bool
re_compile p = not (get_or p 1 0 == b'[')

-- `ab`, `ac`, `b`, and again `ab`
abbrev decls : List Text
decls = (b'a' ∷ b'b' ∷ []) ∷ (b'a' ∷ b'c' ∷ []) ∷ (b'b' ∷ []) ∷ (b'a' ∷ b'b' ∷ []) ∷ []

-- `*c`, `ab`, `z`
abbrev names : List Text
names = (b'*' ∷ b'c' ∷ []) ∷ (b'a' ∷ b'b' ∷ []) ∷ (b'z' ∷ []) ∷ []

names_run :
    run_decls re_compile re_exec decls (some names)
    ≡ value ((b'a' ∷ b'b' ∷ []) ∷ (b'a' ∷ b'c' ∷ []) ∷ [], (b'z' ∷ []) ∷ [])
unfolding run_decls build_re match_one str_eq
names_run = refl

-- A name that is no expression ends the program, if there is a declaration.
no_expression :
    (run_decls re_compile re_exec decls (some ((b'[' ∷ []) ∷ names)) ≡ died)
    × (run_decls re_compile re_exec [] (some ((b'[' ∷ []) ∷ [])) ≡ value ([], (b'[' ∷ []) ∷ []))
unfolding run_decls build_re match_one str_eq
no_expression = (refl, refl)
