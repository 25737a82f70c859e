-- ===== src/Spin/Comparisons.antt =====
-- The locks of user-dev/src/autolock-impls/locks/spin-comparisons.h: the instances of lock-base.h
-- that are compared with one another, in the order of I_LOCK_COMPARISONS.
use autolock.Base.{
  ◌↔◌, ℕ, ◌+◌, ◌≡◌, refl, sym, ap, ◌∙◌, Bool, true, false, not, arith, ◌&&◌, List, [], ◌∷◌,
  if◌then◌else◌,
}
use autolock.Spin.{Config}

-- The names that I_decl_new_lock declares.
pub data LockName : Type 0 where
  spin_autolock spin_normlock yield_autolock yield_normlock : LockName
  backoff_autolock backoff_normlock backoff_yield_autolock backoff_yield_normlock : LockName
  backoff_yield_futex_autolock backoff_yield_futex_normlock : LockName
  backoff_futex_autolock backoff_futex_normlock futex_autolock futex_normlock : LockName
  yield_futex_autolock yield_futex_normlock : LockName

-- The four flags in the order of their `#define`s.
abbrev flags : Bool → Bool → Bool → Bool → Config
flags autolock backoff yield futex = record {
  with_autolock = autolock;
  with_yield = yield;
  with_backoff = backoff;
  with_futex = futex;
  interpose = false;
}

-- The flags that are defined where a name is declared.
pub config : LockName → Config
config spin_autolock = flags true false false false
config spin_normlock = flags false false false false
config yield_autolock = flags true false true false
config yield_normlock = flags false false true false
config backoff_autolock = flags true true false false
config backoff_normlock = flags false true false false
config backoff_yield_autolock = flags true true true false
config backoff_yield_normlock = flags false true true false
config backoff_yield_futex_autolock = flags true true true true
config backoff_yield_futex_normlock = flags false true true true
config backoff_futex_autolock = flags true true false true
config backoff_futex_normlock = flags false true false true
config futex_autolock = flags true false false true
config futex_normlock = flags false false false true
config yield_futex_autolock = flags true false true true
config yield_futex_normlock = flags false false true true

-- I_LOCK_COMPARISONS
abbrev pub lock_comparisons : List LockName
lock_comparisons =
    spin_autolock ∷ spin_normlock ∷ yield_autolock ∷ yield_normlock ∷ backoff_autolock
    ∷ backoff_normlock ∷ backoff_yield_autolock ∷ backoff_yield_normlock
    ∷ backoff_yield_futex_autolock ∷ backoff_yield_futex_normlock ∷ backoff_futex_autolock
    ∷ backoff_futex_normlock ∷ futex_autolock ∷ futex_normlock ∷ yield_futex_autolock
    ∷ yield_futex_normlock ∷ []

-- How often a list has a lock whose flags are those of `c`.
abbrev same : Bool → Bool → Bool
same true b = b
same false b = not b

abbrev has_flags : Config → Config → Bool
has_flags c d =
    same c.with_autolock d.with_autolock
    && same c.with_backoff d.with_backoff
    && same c.with_yield d.with_yield
    && same c.with_futex d.with_futex

pub count : Config → List LockName → ℕ
unfolding config
count c [] = 0
count c (l ∷ ls) = if has_flags c (config l) then 1 + count c ls else count c ls

-- The lock with given flags.
lock_name : Bool → Bool → Bool → Bool → LockName
lock_name true false false false = spin_autolock
lock_name false false false false = spin_normlock
lock_name true false true false = yield_autolock
lock_name false false true false = yield_normlock
lock_name true true false false = backoff_autolock
lock_name false true false false = backoff_normlock
lock_name true true true false = backoff_yield_autolock
lock_name false true true false = backoff_yield_normlock
lock_name true true true true = backoff_yield_futex_autolock
lock_name false true true true = backoff_yield_futex_normlock
lock_name true true false true = backoff_futex_autolock
lock_name false true false true = backoff_futex_normlock
lock_name true false false true = futex_autolock
lock_name false false false true = futex_normlock
lock_name true false true true = yield_futex_autolock
lock_name false false true true = yield_futex_normlock

abbrev name_of : Config → LockName
name_of c = lock_name c.with_autolock c.with_backoff c.with_yield c.with_futex

name_of-config : (l : LockName) → name_of (config l) ≡ l
unfolding lock_name config
name_of-config spin_autolock = refl
name_of-config l = ground arith

config-flags : (a b y f : Bool) → config (lock_name a b y f) ≡ flags a b y f
unfolding lock_name config
config-flags a b y f = ground arith

count-flags : (a b y f : Bool) → count (flags a b y f) lock_comparisons ≡ 1
unfolding count
count-flags a b y f = ground arith

-- Each of the sixteen combinations of flags of lock-base.h is the configuration of exactly one of
-- the locks, and of exactly one entry of I_LOCK_COMPARISONS: no comparison is missing or twice.
comparisons_complete :
    (c : Config)
    → c.interpose ≡ false
    → ((l : LockName) × ((l' : LockName) → (config l' ≡ c) ↔ (l' ≡ l)))
      × (count c lock_comparisons ≡ 1)
comparisons_complete c h = (
  (
    name_of c,
    λ l'. (
      λ e. sym (name_of-config l') ∙ ap name_of e,
      λ e. ap config e ∙ config-flags _ _ _ _ ∙ whole,
    ),
  ),
  ap (λ d. count d lock_comparisons) (sym whole) ∙ count-flags _ _ _ _,
)
  where
    whole : flags c.with_autolock c.with_backoff c.with_yield c.with_futex ≡ c
    whole = ground arith
