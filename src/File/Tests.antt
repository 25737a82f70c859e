-- ===== src/File/Tests.antt =====
-- Calls of file-util.c on a small system, whose file has five bytes, which moves a byte at a time,
-- and which blocks a few times first; and the theorems at its states.
use autolock.Base.{
  ℕ, ℤ, pos, negsuc, zero, suc, ◌+◌, ◌-◌, ◌<◌, ◌≤◌, ◌≡◌, refl, sym, ap, arith, Option, none, some,
  List, [], ◌∷◌, ◌++◌, update, append_nil,
}
use mathlib.Core.Path.{subst}
use autolock.Arg.{Text}
use autolock.File.Ending.{Ending, returned, died, failed, running, Os, eagain}
use autolock.File.Loops.{ensure_open2, ensure_open3, ensure_read, ensure_write}
use autolock.File.Reading.{load, IsReader, IsRead, ensure_read-IsRead}
use autolock.File.Writing.{IsWriter, IsWritten, ensure_write-IsWritten}
use autolock.File.Errors.{AllChecked, calls-AllChecked}
use autolock.File.Opening.{IsOpened, ensure_open-IsOpened}

-- Bytes remaining in the file, how often calls still block, the memory, and what was written.
abbrev World : Type 0
World = ℕ × ℕ × (ℕ → ℕ) × List ℕ

abbrev read : ℕ → ℕ → ℕ → World → ℤ × World
read fd buf count (l, suc b, m, s) = (negsuc 0, (l, b, m, s))
read fd buf zero (l, zero, m, s) = (pos 0, (l, zero, m, s))
read fd buf (suc c) (zero, zero, m, s) = (pos 0, (zero, zero, m, s))
read fd buf (suc c) (suc l, zero, m, s) = (pos 1, (l, zero, update m buf (10 - suc l), s))

abbrev write : ℕ → ℕ → ℕ → World → ℤ × World
write fd buf count (l, suc b, m, s) = (negsuc 0, (l, b, m, s))
write fd buf zero (l, zero, m, s) = (pos 0, (l, zero, m, s))
write fd buf (suc c) (l, zero, m, s) = (pos 1, (l, zero, m, s ++ (m buf ∷ [])))

abbrev once_free : World → ℤ × World
once_free (l, suc b, m, s) = (negsuc 0, (l, b, m, s))
once_free (l, zero, m, s) = (pos 3, (l, zero, m, s))

abbrev system : Os World
system = record {
  errno = λ w. eagain;
  open2 = λ path flags. once_free;
  open3 = λ path flags mode. once_free;
  read = read;
  write = write;
  stat = λ path buf. once_free;
  fstat = λ fd buf. once_free;
  access = λ path mode. once_free;
  close = λ fd. once_free;
  fopen = λ path mode w. (some 64, w);
  fdopen = λ fd mode w. (some 64, w);
  fread = λ ptr size count fp w. (count, w);
  fwrite = λ ptr size count fp w. (count, w);
  fclose = λ fp. once_free;
}

-- The same, but with errors that are not EAGAIN.
abbrev broken : Os World
broken = record system { errno = λ w. 5 }

abbrev world : World
world = (5, 2, (λ a. 0), [])

pos_inj : (m n : ℕ) → pos m ≡ pos n → m ≡ n
pos_inj m n h = ap get h
  where
    get : ℤ → ℕ
    get (pos n) = n
    get (negsuc n) = n

reader : IsReader World system 3
reader = record {
  rest = λ w. w.0;
  content = λ w i. 10 + i - w.0;
  byte = λ w. w.2;
  again = λ w. w.1;
  read-moves = moves;
  read-blocks = blocks;
}
  where
    moves :
        (buf count n : ℕ) (w : World)
        → (read 3 buf count w).0 ≡ pos n
        → let w' = (read 3 buf count w).1 in
          (n ≤ count)
          × (w'.0 + n ≡ w.0)
          × (w'.1 ≤ w.1)
          × ((n ≡ 0) → (0 < count) → w.0 ≡ 0)
          × ((i : ℕ) → 10 + i - w'.0 ≡ 10 + (n + i) - w.0)
          × ((i : ℕ) → i < n → w'.2 (buf + i) ≡ 10 + i - w.0)
          × ((a : ℕ) → a < buf → w'.2 a ≡ w.2 a)
    moves buf count n (l, suc b, m, s) q = absurd (ground arith)
    moves buf zero n (l, zero, m, s) q = (
      omega (arith, pos_inj 0 n q),
      omega (arith, pos_inj 0 n q),
      omega arith,
      (λ e h. absurd (omega arith)),
      (λ i. omega (arith, pos_inj 0 n q)),
      (λ i lt. absurd (omega (arith, pos_inj 0 n q))),
      λ a lt. refl,
    )
    moves buf (suc c) n (zero, zero, m, s) q = (
      omega (arith, pos_inj 0 n q),
      omega (arith, pos_inj 0 n q),
      omega arith,
      (λ e h. refl),
      (λ i. omega (arith, pos_inj 0 n q)),
      (λ i lt. absurd (omega (arith, pos_inj 0 n q))),
      λ a lt. refl,
    )
    moves buf (suc c) n (suc l, zero, m, s) q = (
      omega (arith, pos_inj 1 n q),
      omega (arith, pos_inj 1 n q),
      omega arith,
      (λ e h. absurd (omega (arith, pos_inj 1 n q))),
      (λ i. omega (arith, pos_inj 1 n q)),
      (λ i lt. ground (arith, pos_inj 1 n q)),
      λ a lt. ground arith,
    )

    blocks :
        (buf count n : ℕ) (w : World)
        → (read 3 buf count w).0 ≡ negsuc n
        → eagain ≡ eagain
        → let w' = (read 3 buf count w).1 in
          (w'.1 < w.1)
          × (w'.0 ≡ w.0)
          × ((i : ℕ) → 10 + i - w'.0 ≡ 10 + i - w.0)
          × ((a : ℕ) → w'.2 a ≡ w.2 a)
    blocks buf count n (l, suc b, m, s) q e = (omega arith, refl, (λ i. refl), λ a. refl)
    blocks buf zero n (l, zero, m, s) q e = absurd (ground arith)
    blocks buf (suc c) n (zero, zero, m, s) q e = absurd (ground arith)
    blocks buf (suc c) n (suc l, zero, m, s) q e = absurd (ground arith)

writer : IsWriter World system 3
unfolding load
writer = record {
  written = λ w. w.3;
  byte = λ w. w.2;
  again = λ w. w.1;
  write-moves = moves;
  write-blocks = blocks;
}
  where
    moves :
        (buf count n : ℕ) (w : World)
        → (write 3 buf count w).0 ≡ pos n
        → (n ≤ count) × ((write 3 buf count w).1.3 ≡ w.3 ++ load w.2 buf n)
    moves buf count n (l, suc b, m, s) q = absurd (ground arith)
    moves buf zero n (l, zero, m, s) q =
        subst (λ k. (k ≤ 0) × (s ≡ s ++ load m buf k)) (pos_inj 0 n q)
          (omega arith, sym (append_nil s))
    moves buf (suc c) n (l, zero, m, s) q =
        subst (λ k. (k ≤ suc c) × (s ++ (m buf ∷ []) ≡ s ++ load m buf k)) (pos_inj 1 n q)
          (omega arith, load_one)
      where
        load_one : s ++ (m buf ∷ []) ≡ s ++ load m buf 1
        load_one = refl

    blocks :
        (buf count n : ℕ) (w : World)
        → (write 3 buf count w).0 ≡ negsuc n
        → eagain ≡ eagain
        → let w' = (write 3 buf count w).1 in (w'.1 < w.1) × (w'.3 ≡ w.3) × (w'.2 ≡ w.2)
    blocks buf count n (l, suc b, m, s) q e = (omega arith, refl, refl)
    blocks buf zero n (l, zero, m, s) q e = absurd (ground arith)
    blocks buf (suc c) n (l, zero, m, s) q e = absurd (ground arith)

frees :
    (path : Text) (flags n : ℕ) (w : World)
    → (once_free w).0 ≡ negsuc n
    → eagain ≡ eagain
    → (once_free w).1.1 < w.1
frees path flags n (l, suc b, m, s) q e = omega arith
frees path flags n (l, zero, m, s) q e = absurd (ground arith)

-- What a call returned, and the bytes of memory from 100 on, or what was written.
abbrev show : (World → List ℕ) → Ending World ℕ → Option ℕ × List ℕ
show f (returned n w) = (some n, f w)
show f (died e w) = (none, f w)
show f (failed e w) = (none, f w)
show f (running w) = (none, f w)

-- Reads stop at the count, or at the end of the file; an error ends the program.
read_values :
    (show (λ w. load w.2 100 5) (ensure_read system 3 100 3 8 0 world)
      ≡ (some 3, 5 ∷ 6 ∷ 7 ∷ 0 ∷ 0 ∷ []))
    × (show (λ w. load w.2 100 6) (ensure_read system 3 100 9 12 0 world)
        ≡ (some 5, 5 ∷ 6 ∷ 7 ∷ 8 ∷ 9 ∷ 0 ∷ []))
    × (ensure_read broken 3 100 3 8 0 world ≡ died 5 (5, 1, (λ a. 0), []))
unfolding ensure_read load
read_values = (refl, refl, refl)

-- One byte of three is written, and three are reported.
write_values :
    show (λ w. w.3) (ensure_write system 3 100 3 4 0 (5, 2, (λ a. a), [])) ≡ (some 3, 100 ∷ [])
unfolding ensure_write
write_values = refl

open_values :
    (ensure_open2 system 3 [] 0 world ≡ returned (pos 3) (5, 0, (λ a. 0), []))
    × (ensure_open3 broken 3 [] 0 0 world ≡ died 5 (5, 1, (λ a. 0), []))
unfolding ensure_open2 ensure_open3
open_values = (refl, refl)

ensure_read-IsRead_example :
    IsRead system 3 reader 100 4 world (ensure_read system 3 100 4 7 0 world)
unfolding reader
ensure_read-IsRead_example =
    ensure_read-IsRead system 3 reader 100 4 7 world (omega arith) (omega arith)

ensure_write-IsWritten_example :
    IsWritten system 3 writer 100 3 world (ensure_write system 3 100 3 4 0 world)
unfolding writer
ensure_write-IsWritten_example =
    ensure_write-IsWritten system 3 writer 100 3 4 world (omega arith) (omega arith)

ensure_open-IsOpened_example :
    IsOpened system (ensure_open2 system 3 [] 0 world)
    × IsOpened system (ensure_open3 system 3 [] 0 0 world)
ensure_open-IsOpened_example =
    ensure_open-IsOpened system (λ w. w.1) frees [] 0 0 3 world (omega arith)

calls-AllChecked_example : AllChecked broken world [] [] 0 420 3 100 8 1
calls-AllChecked_example = calls-AllChecked broken world [] [] 0 420 3 100 8 1
