-- ===== src/Arg/Parse/Required/Owing.antt =====
-- The descriptors that the last loop of `parseArguments` of arg.c checks, and how they stand to the
-- ones that the main parser had before its positional arguments.
use mathlib.Core.Path.{subst}
use mathlib.Core.List.{append_assoc}
use autolock.Base.{
  zero, suc, ◌≡◌, ◌≢◌, refl, sym, ap, ◌∙◌, false, ◌||◌, Option, none, some, List, [], ◌∷◌, ◌++◌,
  arith, Bool-cases, ◌⊎◌, inl, inr, ◌==◌, if◌then◌else◌,
}
use autolock.Arg.{Text, ArgOption, Parser, Store, Stop, kind_num}
use autolock.Arg.Assign.{FloatOps, assign_arg}
use autolock.Arg.Parse.{
  any_missing, any_parser_missing, finish, front, back, is_positional, run_main, reassemble,
  take_rest, positionals, Placed, placed, halted, hangs, strays, parsed, mark_next, assign_rest,
}
use autolock.Arg.Parse.Required.Cases.{Assigned-cases}

-- The descriptors before the first positional one, and that one.
abbrev pub lead : List ArgOption → List ArgOption
lead [] = []
lead (d ∷ ds) = if is_positional d then d ∷ [] else d ∷ lead ds

abbrev pub AllOptions : (ArgOption → Type 0) → List ArgOption → Type 0
AllOptions P [] = Unit
AllOptions P (d ∷ ds) = P d × AllOptions P ds

abbrev pub NotOwed : ArgOption → Type 0
NotOwed d = d.required ≢ 1

abbrev pub AllParsers : (Parser → Type 0) → List Parser → Type 0
AllParsers P [] = Unit
AllParsers P (p ∷ ps) = P p × AllParsers P ps

any_missing-lead : (ds : List ArgOption) → any_missing ds ≡ false → AllOptions NotOwed (lead ds)
unfolding any_missing
any_missing-lead [] h = tt
any_missing-lead (d ∷ ds) h = elim (Bool-cases (is_positional d)) [
  | inl q ↦ rw q (ground arith)
  | inr q ↦ rw q (ground arith, any_missing-lead ds (ground arith))
]

head_of : List ArgOption → Option ArgOption
head_of [] = none
head_of (d ∷ ds) = some d

head_owed :
    (d : ArgOption) (qs : List ArgOption) → any_missing qs ≡ false → head_of qs ≡ some d → NotOwed d
unfolding any_missing head_of
head_owed d [] h e = cc
head_owed d (q ∷ qs) h e = ground arith

front-lead :
    (ds qs : List ArgOption)
    → any_missing (front ds ++ qs) ≡ false
    → head_of qs ≡ head_of (back ds)
    → AllOptions NotOwed (lead ds)
unfolding any_missing front back head_of
front-lead [] qs h e = tt
front-lead (d ∷ ds) qs h e = elim (Bool-cases (is_positional d)) [
  | inl p ↦ rw p (head_owed d qs (ground arith) (ground arith), tt)
  | inr p ↦ rw p (ground arith, front-lead ds qs (ground arith) (ground arith))
]

head_of-moved :
    (passed : List ArgOption) (d : ArgOption) (ds es : List ArgOption)
    → head_of ((passed ++ d ∷ []) ++ es) ≡ head_of (passed ++ d ∷ ds)
unfolding head_of
head_of-moved [] d ds es = refl
head_of-moved (p ∷ ps) d ds es = refl

positionals-head :
    (fp : FloatOps) (argv : List Text) (passed left : List ArgOption) (last : ArgOption) (s : Store)
    (passed' left' : List ArgOption) (last' : ArgOption) (argv' : List Text) (s' : Store)
    → positionals fp argv passed left last s ≡ placed passed' left' last' argv' s'
    → head_of (passed' ++ left') ≡ head_of (passed ++ left)
unfolding positionals
positionals-head fp [] passed left last s passed' left' last' argv' s' e = ground arith
positionals-head fp (x ∷ xs) passed [] last s passed' left' last' argv' s' e = ground arith
positionals-head fp (x ∷ xs) passed (d ∷ ds) last s passed' left' last' argv' s' e =
    elim (Bool-cases (kind_num d.kind == 2)) [
      | inr k ↦ ground arith
      | inl k ↦ elim (Assigned-cases (assign_arg fp d (x ∷ xs) s)) [
        | inr a ↦ absurd (ground (arith, a))
        | inl (zero, s1, a) ↦ absurd (ground arith)
        | inl (suc n, s1, a) ↦
            positionals-head fp xs (passed ++ d ∷ []) (mark_next ds last).0 (mark_next ds last).1 s1
              passed' left' last' argv' s' (ground arith)
            ∙ head_of-moved passed d ds (mark_next ds last).0
      ]
    ]

assign_rest-head :
    (fp : FloatOps) (passed left : List ArgOption) (last : ArgOption) (argv : List Text) (s : Store)
    (passed' left' : List ArgOption) (last' : ArgOption) (argv' : List Text) (s' : Store)
    → assign_rest fp passed left last argv s ≡ placed passed' left' last' argv' s'
    → head_of (passed' ++ left') ≡ head_of (passed ++ left)
unfolding assign_rest
assign_rest-head fp passed [] last argv s passed' left' last' argv' s' e = absurd (ground arith)
assign_rest-head fp passed (d ∷ ds) last argv s passed' left' last' argv' s' e =
    elim (Assigned-cases (assign_arg fp d argv s)) [
      | inr a ↦ absurd (ground (arith, a))
      | inl (n, s1, a) ↦ ground (arith, head_of-moved passed d ds (mark_next ds last).0)
    ]

take_rest-head :
    (fp : FloatOps) (passed left : List ArgOption) (last : ArgOption) (argv : List Text) (s : Store)
    (passed' left' : List ArgOption) (last' : ArgOption) (argv' : List Text) (s' : Store)
    → take_rest fp (placed passed left last argv s) ≡ placed passed' left' last' argv' s'
    → head_of (passed' ++ left') ≡ head_of (passed ++ left)
unfolding take_rest
take_rest-head fp passed left last argv s passed' left' last' argv' s' e =
    ground (arith, assign_rest-head fp passed left last argv s passed' left' last' argv' s')

any_missing-append :
    (before after : List Parser)
    → any_parser_missing (before ++ after) ≡ (any_parser_missing before || any_parser_missing after)
unfolding any_parser_missing
any_missing-append [] after = refl
any_missing-append (p ∷ ps) after = ground (arith, any_missing-append ps after)

parsers-lead :
    (ps : List Parser)
    → any_parser_missing ps ≡ false
    → AllParsers (λ p. AllOptions NotOwed (lead p.args)) ps
unfolding any_parser_missing
parsers-lead [] h = tt
parsers-lead (p ∷ ps) h = (any_missing-lead p.args (ground arith), parsers-lead ps (ground arith))

Placed-cases :
    (r : Placed)
    → ((ps : List ArgOption) × (qs : List ArgOption) × (l : ArgOption) × (xs : List Text)
        × (s : Store) × (r ≡ placed ps qs l xs s))
      ⊎ (((e : Stop) × (r ≡ halted e)) ⊎ ((r ≡ hangs) ⊎ (r ≡ strays)))
Placed-cases (placed ps qs l xs s) = inl (ps, qs, l, xs, s, refl)
Placed-cases (halted e) = inr (inl (e, refl))
Placed-cases hangs = inr (inr (inl refl))
Placed-cases strays = inr (inr (inr refl))

abbrev pub NoneOwed : List Parser → Type 0
NoneOwed = AllParsers (λ p. AllOptions NotOwed (lead p.args))

NoneOwed-append :
    (before : List Parser) (p : Parser) (after : List Parser)
    → NoneOwed before
    → AllOptions NotOwed (lead p.args)
    → NoneOwed after
    → NoneOwed (before ++ p ∷ after)
NoneOwed-append [] p after hb hp ha = (hp, ha)
NoneOwed-append (b ∷ bs) p after hb hp ha = (hb.0, NoneOwed-append bs p after hb.1 hp ha)

finish-parsed :
    (ps ps' : List Parser) (s s' : Store)
    → finish ps s ≡ parsed ps' s'
    → any_parser_missing ps ≡ false
unfolding finish
finish-parsed ps ps' s s' e = ground arith

-- The parsers round the main one, and the main one with its positional arguments put together.
reassembled-NoneOwed :
    (before : List Parser) (p : Parser) (ps : List Parser) (qs : List ArgOption) (l : ArgOption)
    → any_parser_missing (before ++ record p { args = front p.args ++ qs; last = l } ∷ ps) ≡ false
    → head_of qs ≡ head_of (back p.args)
    → NoneOwed (before ++ p ∷ ps)
unfolding any_parser_missing
reassembled-NoneOwed before p ps qs l h e =
    NoneOwed-append before p ps (parsers-lead before (ground (arith, parts)))
      (front-lead p.args qs (ground (arith, parts)) e) (parsers-lead ps (ground (arith, parts)))
  where
    parts : any_parser_missing (before ++ record p { args = front p.args ++ qs; last = l } ∷ ps) ≡ (
        any_parser_missing before
        || any_parser_missing (record p { args = front p.args ++ qs; last = l } ∷ ps))
    parts = any_missing-append before (record p { args = front p.args ++ qs; last = l } ∷ ps)

-- Only a run of the loop that comes to its end can go on to parse.
take_rest-parsed :
    (fp : FloatOps) (before : List Parser) (p : Parser) (ps : List Parser) (r : Placed)
    (ps' : List Parser) (s' : Store)
    → reassemble before p ps (take_rest fp r) ≡ parsed ps' s'
    → (p1 : List ArgOption) × (q1 : List ArgOption) × (l1 : ArgOption) × (x1 : List Text)
      × (s1 : Store) × (r ≡ placed p1 q1 l1 x1 s1)
unfolding reassemble take_rest
take_rest-parsed fp before p ps (placed p1 q1 l1 x1 s1) ps' s' e = (p1, q1, l1, x1, s1, refl)
take_rest-parsed fp before p ps (halted r) ps' s' e = absurd (ground arith)
take_rest-parsed fp before p ps hangs ps' s' e = absurd (ground arith)
take_rest-parsed fp before p ps strays ps' s' e = absurd (ground arith)

reassemble-parsed :
    (before : List Parser) (p : Parser) (ps : List Parser) (r : Placed) (ps' : List Parser)
    (s' : Store)
    → reassemble before p ps r ≡ parsed ps' s'
    → (p1 : List ArgOption) × (q1 : List ArgOption) × (l1 : ArgOption) × (x1 : List Text)
      × (s1 : Store) × (r ≡ placed p1 q1 l1 x1 s1)
unfolding reassemble
reassemble-parsed before p ps (placed p1 q1 l1 x1 s1) ps' s' e = (p1, q1, l1, x1, s1, refl)
reassemble-parsed before p ps (halted r) ps' s' e = absurd (ground arith)
reassemble-parsed before p ps hangs ps' s' e = absurd (ground arith)
reassemble-parsed before p ps strays ps' s' e = absurd (ground arith)

reassemble-NoneOwed :
    (fp : FloatOps) (before : List Parser) (p : Parser) (ps : List Parser) (argv : List Text)
    (s : Store) (ps' : List Parser) (s' : Store)
    → reassemble before p ps (take_rest fp (positionals fp argv [] (back p.args) p.last s))
      ≡ parsed ps' s'
    → NoneOwed (before ++ p ∷ ps)
unfolding reassemble
reassemble-NoneOwed fp before p ps argv s ps' s' e =
    let (p1, q1, l1, x1, s1, r1) = take_rest-parsed fp before p ps _ ps' s' e in
    let (p2, q2, l2, x2, s2, r2) =
      reassemble-parsed before p ps (take_rest fp (placed p1 q1 l1 x1 s1)) ps' s'
        (ap (λ r. reassemble before p ps (take_rest fp r)) (sym r1) ∙ e) in
    reassembled-NoneOwed before p ps (p2 ++ q2) l2
      (finish-parsed (before ++ record p { args = front p.args ++ (p2 ++ q2); last = l2 } ∷ ps) ps'
        s2 s'
        (ap (reassemble before p ps) (sym r2)
          ∙ ap (λ r. reassemble before p ps (take_rest fp r)) (sym r1)
          ∙ e))
      (take_rest-head fp p1 q1 l1 x1 s1 p2 q2 l2 x2 s2 r2
        ∙ positionals-head fp argv [] (back p.args) p.last s p1 q1 l1 x1 s1 r1)

pub run_main-NoneOwed :
    (fp : FloatOps) (before ps : List Parser) (argv : List Text) (s : Store) (ps' : List Parser)
    (s' : Store)
    → run_main fp before ps argv s ≡ parsed ps' s'
    → NoneOwed (before ++ ps)
unfolding run_main
run_main-NoneOwed fp before [] argv s ps' s' e = absurd (ground arith)
run_main-NoneOwed fp before (p ∷ ps) argv s ps' s' e = elim (Bool-cases p.main) [
  | inl m ↦ reassemble-NoneOwed fp before p ps argv s ps' s' (ground arith)
  | inr m ↦
      subst NoneOwed (append_assoc before (p ∷ []) ps)
        (run_main-NoneOwed fp (before ++ p ∷ []) ps argv s ps' s' (ground arith))
]
