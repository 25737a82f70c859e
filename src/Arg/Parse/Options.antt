-- ===== src/Arg/Parse/Options.antt =====
-- The option loop of arg.c on a flag that is repeated, and what it leaves of the descriptors.
use mathlib.Core.Option
use mathlib.Core.Path.{subst}
use autolock.Base.{
  Bool-cases, ==_iff, ◌==◌, ℕ, zero, suc, ◌+◌, ◌%◌, ◌^◌, ◌<◌, ◌≡◌, ◌≢◌, refl, sym, ap, ◌∙◌, true,
  some, List, [], ◌∷◌, arith, inl, inr, update,
}
use autolock.Arg.{Text, increment, ArgOption, Parser, Store}
use autolock.Arg.Assign.{FloatOps, assign_arg, assign_type, done, write}
use autolock.Arg.Assign.Integers.{IsSize, NamesFit, assign_arg-type}
use autolock.Arg.Parse.{mark, find_option, find_flag, mark_option, mark_flag, is_flag, options}

find_option-mark :
    (x : Text) (ds : List ArgOption)
    → find_option x (mark_option x ds) ≡ Option.map mark (find_option x ds)
unfolding find_option mark_option
find_option-mark x [] = refl
find_option-mark x (d ∷ ds) = ground (arith, find_option-mark x ds)

-- A flag finds the descriptor that it found before, with the mark.
find_flag-mark :
    (x : Text) (ps : List Parser) → find_flag x (mark_flag x ps) ≡ Option.map mark (find_flag x ps)
unfolding find_flag mark_flag
find_flag-mark x [] = refl
find_flag-mark x (p ∷ ps) = ground (arith, find_option-mark x p.args, find_flag-mark x ps)

abbrev pub repeat_flag : ℕ → Text → List Text → List Text
repeat_flag zero x rest = rest
repeat_flag (suc k) x rest = x ∷ repeat_flag k x rest

-- One more.
bump : ArgOption → Store → Store
bump d s = write d ((s.num d.dest + 1) % 2 ^ 64) s

bumps : ℕ → ArgOption → Store → Store
bumps zero d s = s
bumps (suc k) d s = bumps k d (bump d s)

mark-type : (d : ArgOption) → d.type ≡ increment → (mark d).type ≡ increment
unfolding mark
mark-type d t = t

mark-NamesFit : (d : ArgOption) → NamesFit d → NamesFit (mark d)
unfolding mark
mark-NamesFit d n = n

bumps-rest :
    (k : ℕ) (d : ArgOption) (s : Store)
    → ((bumps k d s).text ≡ s.text) × ((bumps k d s).rest_args ≡ s.rest_args)
unfolding bumps bump
bumps-rest zero d s = (refl, refl)
bumps-rest (suc k) d s = bumps-rest k d (bump d s)

bumps-mark : (k : ℕ) (d : ArgOption) (s : Store) → bumps k (mark d) s ≡ bumps k d s
unfolding bumps bump mark
bumps-mark zero d s = refl
bumps-mark (suc k) d s = bumps-mark k d (bump d s)

mod-eq_of_lt_lem : (v m : ℕ) → v < m → (v + 0) % m ≡ v
mod-eq_of_lt_lem v m h = grind arith

update_self : (f : ℕ → ℕ) (i v : ℕ) → update f i v i ≡ v
update_self f i v = ground arith

wrap : (sz v : ℕ) → IsSize sz → (v + 1) % 2 ^ 64 % 256 ^ sz ≡ (v + 1) % 256 ^ sz
wrap sz v (inl e) = rw e (omega arith)
wrap sz v (inr (inl e)) = rw e (omega arith)
wrap sz v (inr (inr (inl e))) = rw e (omega arith)
wrap sz v (inr (inr (inr e))) = rw e (omega arith)

mod_small : (sz v : ℕ) → IsSize sz → v % 256 ^ sz < 256 ^ sz
mod_small sz v (inl e) = rw e (omega arith)
mod_small sz v (inr (inl e)) = rw e (omega arith)
mod_small sz v (inr (inr (inl e))) = rw e (omega arith)
mod_small sz v (inr (inr (inr e))) = rw e (omega arith)

shift : (sz v k : ℕ) → IsSize sz → ((v + 1) % 256 ^ sz + k) % 256 ^ sz ≡ (v + suc k) % 256 ^ sz
shift sz v k (inl e) = rw e (omega arith)
shift sz v k (inr (inl e)) = rw e (omega arith)
shift sz v k (inr (inr (inl e))) = rw e (omega arith)
shift sz v k (inr (inr (inr e))) = rw e (omega arith)

-- Counting up wraps at the size of the variable, and touches no other one.
bumps-num :
    (k : ℕ) (d : ArgOption) (s : Store)
    → IsSize d.dest_sz
    → s.num d.dest < 256 ^ d.dest_sz
    → (bumps k d s).num d.dest ≡ (s.num d.dest + k) % 256 ^ d.dest_sz
unfolding bumps bump
bumps-num zero d s size h = sym (mod-eq_of_lt_lem (s.num d.dest) (256 ^ d.dest_sz) h)
bumps-num (suc k) d s size h =
    bumps-num k d (bump d s) size
      (subst (λ v. v < 256 ^ d.dest_sz) (sym next) (mod_small d.dest_sz (s.num d.dest + 1) size))
    ∙ ap (λ v. (v + k) % 256 ^ d.dest_sz) next
    ∙ shift d.dest_sz (s.num d.dest) k size
  where
    next : (bump d s).num d.dest ≡ (s.num d.dest + 1) % 256 ^ d.dest_sz
    next = update_self s.num d.dest _ ∙ wrap d.dest_sz (s.num d.dest) size

assign_arg-increment :
    (fp : FloatOps) (d : ArgOption) (rest : List Text) (s : Store)
    → d.type ≡ increment
    → NamesFit d
    → assign_arg fp d rest s ≡ done 0 (bump d s)
unfolding assign_type bump
assign_arg-increment fp d rest s t n = assign_arg-type fp d rest s n ∙ rw t refl

options-increment :
    (fp : FloatOps) (x : Text) (rest : List Text) (ps : List Parser) (s : Store) (d : ArgOption)
    → is_flag x ≡ true
    → find_flag x ps ≡ some d
    → d.type ≡ increment
    → NamesFit d
    → options fp zero (x ∷ rest) ps s ≡ options fp zero rest (mark_flag x ps) (bump d s)
unfolding options
options-increment fp x rest ps s d f e t n = ground (arith, assign_arg-increment fp d rest s t n)

-- What a flag given k times leaves: the descriptors with its marks.
abbrev pub marks : ℕ → Text → List Parser → List Parser
marks zero x ps = ps
marks (suc k) x ps = marks k x (mark_flag x ps)

options-bumps :
    (fp : FloatOps) (k : ℕ) (x : Text) (rest : List Text) (ps : List Parser) (s : Store)
    (d : ArgOption)
    → is_flag x ≡ true
    → find_flag x ps ≡ some d
    → d.type ≡ increment
    → NamesFit d
    → options fp zero (repeat_flag k x rest) ps s
      ≡ options fp zero rest (marks k x ps) (bumps k d s)
unfolding bumps
options-bumps fp zero x rest ps s d f e t n = refl
options-bumps fp (suc k) x rest ps s d f e t n =
    options-increment fp x (repeat_flag k x rest) ps s d f e t n
    ∙ options-bumps fp k x rest (mark_flag x ps) (bump d s) (mark d) f
        (find_flag-mark x ps ∙ ap (Option.map mark) e) (mark-type d t) (mark-NamesFit d n)
    ∙ ap (options fp zero rest (marks k x (mark_flag x ps))) (bumps-mark k d (bump d s))

bumps-other :
    (k : ℕ) (d : ArgOption) (s : Store) (a : ℕ) → a ≢ d.dest → (bumps k d s).num a ≡ s.num a
unfolding bumps bump
bumps-other zero d s a h = refl
bumps-other (suc k) d s a h = bumps-other k d (bump d s) a h ∙ update-other s.num d.dest _ a h
  where
    update-other : (f : ℕ → ℕ) (i v j : ℕ) → j ≢ i → update f i v j ≡ f j
    update-other f i v j ne = ground arith

-- An increment option of 1, 2, 4 or 8 bytes, whose names fit in the buffer of concat_args, whose
-- variable has a value of that size, and which is
-- given k times in a row under a name by which the parsers find it, adds k to its variable, modulo
-- the size, leaves every other variable alone, and the option loop goes on behind it.
pub increment_counts :
    (fp : FloatOps) (k : ℕ) (x : Text) (rest : List Text) (ps : List Parser) (s : Store)
    (d : ArgOption)
    → is_flag x ≡ true
    → find_flag x ps ≡ some d
    → d.type ≡ increment
    → NamesFit d
    → IsSize d.dest_sz
    → s.num d.dest < 256 ^ d.dest_sz
    → (s' : Store) × (options fp zero (repeat_flag k x rest) ps s
        ≡ options fp zero rest (marks k x ps) s')
      × ((a : ℕ) → s'.num a ≡ update s.num d.dest ((s.num d.dest + k) % 256 ^ d.dest_sz) a)
      × (s'.text ≡ s.text)
      × (s'.rest_args ≡ s.rest_args)
increment_counts fp k x rest ps s d f e t n size h =
    let (texts, rests) = bumps-rest k d s in
    (bumps k d s, options-bumps fp k x rest ps s d f e t n, counted, texts, rests)
  where
    counted :
        (a : ℕ) → (bumps k d s).num a ≡ update s.num d.dest ((s.num d.dest + k) % 256 ^ d.dest_sz) a
    counted a = elim (Bool-cases (d.dest == a)) [
      | inl q ↦ ground (arith, bumps-num k d s size h, ap (bumps k d s).num ((==_iff _ _).0 q))
      | inr q ↦ ground (arith, bumps-other k d s a)
    ]
