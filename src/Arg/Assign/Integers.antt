-- ===== src/Arg/Assign/Integers.antt =====
-- What an integer option of arg.c stores for a number written in decimal.
use autolock.Base.{
  length, List, Bool-cases, sym, ap, ℕ, ◌/◌, ◌^◌, ◌≤◌, ◌<◌, ◌≡◌, refl, Bool, true, false, some, [],
  ◌∷◌, arith, ltb, leb, if◌then◌else◌, ◌⊎◌, inl, inr, ◌∙◌, not, get_or, ◌==◌,
}
use autolock.Arg.{Text, integer, ArgOption, Store, overflow}
use autolock.Base.Exec.{value}
use autolock.Arg.Help.{names_len, concat_args}
use autolock.Arg.Help.Names.{join, concat_args-join}
use autolock.Arg.Number.{strtoull, strtoll, negate}
use autolock.Arg.Number.Decimal.{
  decimal, Digits, decimal-Digits, strtoull-decimal, strtoll-decimal, strtoll-minus,
}
use autolock.Arg.Assign.{
  FloatOps, assign_type, assign_arg, Assigned, done, write, warn, overflows, store_checked,
  store_integer, assign_integer, is_hex,
}

-- The sizes that the code knows.
abbrev pub IsSize : ℕ → Type 0
IsSize sz = (sz ≡ 1) ⊎ (sz ≡ 2) ⊎ (sz ≡ 4) ⊎ (sz ≡ 8)

-- What is stored for the 64-bit pattern `v`, and with which warning.
abbrev pub stores : ArgOption → ℕ → Bool → Store → Assigned
stores d v bad s = done 1 (if bad then warn overflow (write d v s) else write d v s)

overflows-unsigned :
    (n : ℕ)
    → (overflows 8 true false n ≡ not (ltb n (2 ^ 8)))
      × (overflows 16 true false n ≡ not (ltb n (2 ^ 16)))
      × (overflows 32 true false n ≡ not (ltb n (2 ^ 32)))
unfolding overflows
overflows-unsigned n = (ground arith, ground arith, ground arith)

overflows-signed :
    (n : ℕ)
    → n < 2 ^ 63
    → (overflows 8 false false n ≡ not (ltb n (2 ^ 7)))
      × (overflows 16 false false n ≡ not (ltb n (2 ^ 15)))
      × (overflows 32 false false n ≡ not (ltb n (2 ^ 31)))
unfolding overflows
overflows-signed n h = (ground arith, ground arith, ground arith)

overflows-minus :
    (n : ℕ)
    → n ≤ 2 ^ 63
    → (overflows 8 false true (negate n) ≡ not (leb n (2 ^ 7)))
      × (overflows 16 false true (negate n) ≡ not (leb n (2 ^ 15)))
      × (overflows 32 false true (negate n) ≡ not (leb n (2 ^ 31)))
unfolding overflows
overflows-minus n h = (ground arith, ground arith, ground arith)

-- Where the integer is stored depends on the size only through the width that is checked.
store_integer-size :
    (d : ArgOption) (minus : Bool) (v : ℕ) (s : Store) (bad : Bool)
    → (d.dest_sz ≡ 1 → overflows 8 d.is_unsigned minus v ≡ bad)
    → (d.dest_sz ≡ 2 → overflows 16 d.is_unsigned minus v ≡ bad)
    → (d.dest_sz ≡ 4 → overflows 32 d.is_unsigned minus v ≡ bad)
    → (d.dest_sz ≡ 8 → false ≡ bad)
    → IsSize d.dest_sz
    → store_integer d minus v s ≡ stores d v bad s
unfolding store_integer store_checked
store_integer-size d minus v s bad h1 h2 h4 h8 (inl e) = ground (arith, h1 e)
store_integer-size d minus v s bad h1 h2 h4 h8 (inr (inl e)) = ground (arith, h2 e)
store_integer-size d minus v s bad h1 h2 h4 h8 (inr (inr (inl e))) = ground (arith, h4 e)
store_integer-size d minus v s bad h1 h2 h4 h8 (inr (inr (inr e))) = ground (arith, h8 e)

-- A printed number has no hexadecimal prefix and no sign.
plain_text : (cs : Text) → Digits cs → (is_hex cs ≡ false) × ((get_or cs 0 0 == b'-') ≡ false)
plain_text [] h = (refl, refl)
plain_text (c ∷ []) h = (ground arith, ground arith)
plain_text (c ∷ x ∷ cs) h = (ground arith, ground arith)

minus_text : (cs : Text) → (is_hex (b'-' ∷ cs) ≡ false) × ((get_or (b'-' ∷ cs) 0 0 == b'-') ≡ true)
minus_text cs = (refl, refl)

assign_integer-read :
    (d : ArgOption) (x : Text) (v : ℕ) (minus : Bool) (s : Store)
    → is_hex x ≡ false
    → (get_or x 0 0 == b'-') ≡ minus
    → (if d.is_unsigned then strtoull 10 x else strtoll 10 x) ≡ some v
    → assign_integer d x s ≡ store_integer d minus v s
unfolding assign_integer
assign_integer-read d x v minus s hx hm hv = ground arith

assign-unsigned :
    (d : ArgOption) (n : ℕ) (s : Store)
    → d.is_unsigned ≡ true
    → IsSize d.dest_sz
    → n < 2 ^ 64
    → assign_integer d (decimal n) s ≡ stores d n (not (ltb n (256 ^ d.dest_sz))) s
assign-unsigned d n s u size h =
    assign_integer-read d (decimal n) n false s (plain_text (decimal n) (decimal-Digits n)).0
      (plain_text (decimal n) (decimal-Digits n)).1 (rw u (strtoull-decimal n h))
    ∙ store_integer-size d false n s (not (ltb n (256 ^ d.dest_sz)))
        (λ e. rw (u, e) (overflows-unsigned n).0) (λ e. rw (u, e) (overflows-unsigned n).1)
        (λ e. rw (u, e) (overflows-unsigned n).2) (λ e. rw e (ground arith)) size

assign-signed :
    (d : ArgOption) (n : ℕ) (s : Store)
    → d.is_unsigned ≡ false
    → IsSize d.dest_sz
    → n < 2 ^ 63
    → (assign_integer d (decimal n) s ≡ stores d n (not (ltb n (256 ^ d.dest_sz / 2))) s)
      × (assign_integer d (b'-' ∷ decimal n) s
          ≡ stores d (negate n) (not (leb n (256 ^ d.dest_sz / 2))) s)
assign-signed d n s u size h = (
  assign_integer-read d (decimal n) n false s (plain_text (decimal n) (decimal-Digits n)).0
        (plain_text (decimal n) (decimal-Digits n)).1 (rw u (strtoll-decimal n h))
      ∙ store_integer-size d false n s (not (ltb n (256 ^ d.dest_sz / 2)))
          (λ e. rw (u, e) (overflows-signed n h).0) (λ e. rw (u, e) (overflows-signed n h).1)
          (λ e. rw (u, e) (overflows-signed n h).2) (λ e. rw e (ground arith)) size,
  assign_integer-read d (b'-' ∷ decimal n) (negate n) true s refl refl
        (rw u (strtoll-minus n (omega arith)))
      ∙ store_integer-size d true (negate n) s (not (leb n (256 ^ d.dest_sz / 2)))
          (λ e. rw (u, e) (overflows-minus n (omega arith)).0)
          (λ e. rw (u, e) (overflows-minus n (omega arith)).1)
          (λ e. rw (u, e) (overflows-minus n (omega arith)).2) (λ e. rw e (ground arith)) size,
)

-- The numbers that strtoull or strtoll reads, and those that an option of its size holds.
abbrev pub readable : ArgOption → ℕ
readable d = if d.is_unsigned then 2 ^ 64 else 2 ^ 63

abbrev pub holds : ArgOption → ℕ
holds d = if d.is_unsigned then 256 ^ d.dest_sz else 256 ^ d.dest_sz / 2

assign_integer-decimal :
    (d : ArgOption) (n : ℕ) (s : Store)
    → IsSize d.dest_sz
    → n < readable d
    → (assign_integer d (decimal n) s ≡ stores d n (not (ltb n (holds d))) s)
      × ((d.is_unsigned ≡ true)
          ⊎ (assign_integer d (b'-' ∷ decimal n) s
              ≡ stores d (negate n) (not (leb n (256 ^ d.dest_sz / 2))) s))
assign_integer-decimal d n s size h = elim (Bool-cases d.is_unsigned) [
  | inl u ↦ (
    assign-unsigned d n s u size (rw u at h)
        ∙ ap (λ b. stores d n (not (ltb n (if b then 256 ^ d.dest_sz else 256 ^ d.dest_sz / 2))) s)
            (sym u),
    inl u,
  )
  | inr u ↦
      let (plus, minus) = assign-signed d n s u size (rw u at h) in
      (
        plus
            ∙ ap
                (λ b.
                  stores d n (not (ltb n (if b then 256 ^ d.dest_sz else 256 ^ d.dest_sz / 2))) s)
                (sym u),
        inr minus,
      )
]

-- The names of an option fit in the buffer of concat_args.
abbrev pub NamesFit : ArgOption → Type 0
NamesFit d = length (join b'|' d.args_begin) < names_len

pub assign_arg-type :
    (fp : FloatOps) (d : ArgOption) (argv : List Text) (s : Store)
    → NamesFit d
    → assign_arg fp d argv s ≡ assign_type fp d.type d argv s
unfolding assign_arg
assign_arg-type fp d argv s n = rw (fits, assign_arg) refl
  where
    short : ltb (length (join b'|' d.args_begin)) names_len ≡ true
    short = ground (arith, n)

    fits : concat_args d.args_begin ≡ value (join b'|' d.args_begin)
    fits = concat_args-join d.args_begin ∙ rw short refl

assign_arg-integer :
    (fp : FloatOps) (d : ArgOption) (x : Text) (rest : List Text) (s : Store)
    → NamesFit d
    → d.type ≡ integer
    → assign_arg fp d (x ∷ rest) s ≡ assign_integer d x s
unfolding assign_type
assign_arg-integer fp d x rest s n t = assign_arg-type fp d (x ∷ rest) s n ∙ rw t refl

-- An integer option of 1, 2, 4 or 8 bytes, whose names fit in the buffer of concat_args, that is given in decimal an n which is below 2^64 if the
-- option is unsigned and below 2^63 if it is signed stores the low bytes of n, and warns exactly if n
-- is outside the range of its type. A signed one that is given -n stores the low bytes of the two's
-- complement, and warns in the same way.
pub assign-decimal :
    (fp : FloatOps) (d : ArgOption) (n : ℕ) (rest : List Text) (s : Store)
    → d.type ≡ integer
    → NamesFit d
    → IsSize d.dest_sz
    → n < readable d
    → (assign_arg fp d (decimal n ∷ rest) s ≡ stores d n (not (ltb n (holds d))) s)
      × ((d.is_unsigned ≡ true)
          ⊎ (assign_arg fp d ((b'-' ∷ decimal n) ∷ rest) s
              ≡ stores d (negate n) (not (leb n (256 ^ d.dest_sz / 2))) s))
assign-decimal fp d n rest s t names size h =
    let (plus, minus) = assign_integer-decimal d n s size h in
    (
      assign_arg-integer fp d (decimal n) rest s names t ∙ plus,
      elim minus [
        | inl u ↦ inl u
        | inr m ↦ inr (assign_arg-integer fp d (b'-' ∷ decimal n) rest s names t ∙ m)
      ],
    )
