-- ===== src/Arg/Number/Decimal.antt =====
-- Decimal numbers as arg.c reads them back, against a printer.
use autolock.Base.{
  ℕ, zero, suc, ◌+◌, ◌*◌, ◌/◌, ◌%◌, ◌^◌, ◌≤◌, ◌<◌, ◌≡◌, ◌≢◌, refl, sym, Bool, true, false, Option,
  none, some, [], ◌∷◌, ◌++◌, arith, ltb, inl, inr, ◌∙◌, ap, Bool-cases, ltb→lt,
}
use autolock.Arg.{Text}
use autolock.Arg.Number.{
  scan, digit_value, skip_spaces, skip_prefix, convert, signed_text, to_signed, to_unsigned,
  strtoull, strtoll, negate,
}

-- `%lu`: the digits of n, on fuel above n.
digits : ℕ → ℕ → Text
digits zero n = []
digits (suc f) n = elim (ltb n 10) [
  | true ↦ (b'0' + n) ∷ []
  | false ↦ digits f (n / 10) ++ (b'0' + n % 10) ∷ []
]

pub decimal : ℕ → Text
unfolding digits
decimal n = digits (suc n) n

digit_value-digit : (d : ℕ) → d < 10 → digit_value (b'0' + d) ≡ d
digit_value-digit d h = ground arith

-- A text of digits.
abbrev pub Digits : Text → Type 0
Digits [] = Unit
Digits (c ∷ cs) = (b'0' ≤ c) × (c ≤ b'9') × Digits cs

Digits-append : (xs : Text) (d : ℕ) → Digits xs → d < 10 → Digits (xs ++ (b'0' + d) ∷ [])
Digits-append [] d h lt = omega arith
Digits-append (x ∷ xs) d h lt = (h.0, h.1, Digits-append xs d h.2 lt)

digits-Digits : (f n : ℕ) → Digits (digits f n)
unfolding digits
digits-Digits zero n = tt
digits-Digits (suc f) n = elim (Bool-cases (ltb n 10)) [
  | inl q ↦ rw (q, digits) (ground arith)
  | inr q ↦
      rw (q, digits)
        (Digits-append (digits f (n / 10)) (n % 10) (digits-Digits f (n / 10)) (omega arith))
]

scan-append :
    (acc : Option ℕ) (xs : Text) (d : ℕ) (m : ℕ)
    → d < 10
    → scan 10 acc xs ≡ some m
    → Digits xs
    → scan 10 acc (xs ++ (b'0' + d) ∷ []) ≡ some (m * 10 + d)
unfolding scan
scan-append acc [] d m lt e h = ground arith
scan-append acc (x ∷ xs) d m lt e h = ground (
  arith,
  scan-append (some (elim acc [ none ↦ digit_value x | some k ↦ k * 10 + digit_value x ])) xs d m
      lt,
)

scan_one : (n : ℕ) → n < 10 → scan 10 none ((b'0' + n) ∷ []) ≡ some n
unfolding scan
scan_one n h = ground arith

scan-digits : (f n : ℕ) → n < f → scan 10 none (digits f n) ≡ some n
unfolding digits
scan-digits zero n h = absurd (omega arith)
scan-digits (suc f) n h = elim (Bool-cases (ltb n 10)) [
  | inl q ↦ rw (q, digits) (scan_one n (ltb→lt n 10 q))
  | inr q ↦
      rw (q, digits)
        (last (
          scan-append none (digits f (n / 10)) (n % 10) (n / 10) (omega arith)
            (scan-digits f (n / 10) (ground arith)) (digits-Digits f (n / 10))))
]
  where
    last :
        scan 10 none (digits f (n / 10) ++ (b'0' + n % 10) ∷ []) ≡ some (n / 10 * 10 + n % 10)
        → scan 10 none (digits f (n / 10) ++ (b'0' + n % 10) ∷ []) ≡ some n
    last e = e ∙ ap some (omega arith)

-- A printed number begins with a digit, and with no hexadecimal prefix.
first_digit : (c : ℕ) (cs : Text) → Digits (c ∷ cs) → skip_spaces (c ∷ cs) ≡ c ∷ cs
unfolding skip_spaces
first_digit c cs h = ground arith

skip_prefix_ten : (cs : Text) → skip_prefix 10 cs ≡ cs
unfolding skip_prefix
skip_prefix_ten [] = refl
skip_prefix_ten (a ∷ []) = refl
skip_prefix_ten (a ∷ b ∷ []) = refl
skip_prefix_ten (a ∷ b ∷ c ∷ cs) = refl

convert-decimal :
    (to : Bool → ℕ → ℕ) (minus : Bool) (n : ℕ) → convert to 10 minus (decimal n) ≡ some (to minus n)
unfolding convert decimal
convert-decimal to minus n =
    rw (skip_prefix_ten (digits (suc n) n), scan-digits (suc n) n (omega arith))

signed_text-Digits :
    (to : Bool → ℕ → ℕ) (cs : Text)
    → cs ≢ []
    → Digits cs
    → signed_text to 10 (skip_spaces cs) ≡ convert to 10 false cs
unfolding signed_text skip_spaces
signed_text-Digits to [] ne h = absurd (ne refl)
signed_text-Digits to (c ∷ cs) ne h = rw (first_digit c cs h) (ground arith)

pub decimal-Digits : (n : ℕ) → Digits (decimal n)
unfolding decimal
decimal-Digits n = digits-Digits (suc n) n

decimal-ne-nil : (n : ℕ) → decimal n ≢ []
unfolding decimal scan
decimal-ne-nil n h = cc (sym (ap (scan 10 none) h) ∙ scan-digits (suc n) n (omega arith))

-- `strtoull` and `strtoll` read a printed number back, and `strtoll` its negation.
pub strtoull-decimal : (n : ℕ) → n < 2 ^ 64 → strtoull 10 (decimal n) ≡ some n
unfolding strtoull
strtoull-decimal n h =
    signed_text-Digits to_unsigned (decimal n) (decimal-ne-nil n) (decimal-Digits n)
    ∙ convert-decimal to_unsigned false n
    ∙ ap some (ground arith)

pub strtoll-decimal : (n : ℕ) → n < 2 ^ 63 → strtoll 10 (decimal n) ≡ some n
unfolding strtoll
strtoll-decimal n h =
    signed_text-Digits to_signed (decimal n) (decimal-ne-nil n) (decimal-Digits n)
    ∙ convert-decimal to_signed false n
    ∙ ap some (ground arith)

pub strtoll-minus : (n : ℕ) → n ≤ 2 ^ 63 → strtoll 10 (b'-' ∷ decimal n) ≡ some (negate n)
unfolding strtoll
strtoll-minus n h = convert-decimal to_signed true n ∙ ap some (ground arith)
