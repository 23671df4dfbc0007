-- ===== src/Dhcp/Server/ConfigArgs.antt =====
-- `getargs` of mydhcpserver.c on a line of the config file.
use unix_sys_prog.Base.{
  ℕ, zero, suc, ◌+◌, ◌≤◌, ◌<◌, ◌≡◌, ◌⊎◌, inl, inr, refl, true, false, ◌||◌, ◌==◌, ltb, List, [],
  ◌∷◌, update, ok, arith, length, ap, ==_of_ne, update_other,
}
use unix_sys_prog.Args.Getargs.{Text, skip_blanks, skip_word}
use unix_sys_prog.Args.Words.{
  Each, Holds, Holds-same, count, drop_blanks_cases, drop_word_cases, length-drop,
  length-drop_blanks, no_words, one_word, skip_blanks_lem, skip_word_lem, take_word, word_and_rest,
  words,
}
use unix_sys_prog.Args.Split.{before_cut}
use unix_sys_prog.Dhcp.Server.Config.{getargs}

-- A round that finds no word.
nothing_left :
    (fuel argc p q : ℕ) (t : Text)
    → skip_blanks (suc fuel) p t ≡ ok q t
    → t q ≡ 0
    → getargs (suc fuel) argc p t ≡ ok [] t
unfolding getargs
nothing_left fuel argc p q t run ends = rw run (rw ends refl)

-- A round whose word is the last that is stored.
last_word :
    (fuel argc p q after : ℕ) (t : Text)
    → skip_blanks (suc fuel) p t ≡ ok q t
    → (t q == 0) ≡ false
    → skip_word (suc fuel) q t ≡ ok after t
    → (ltb 2 (argc + 1) || (t after == 0)) ≡ true
    → getargs (suc fuel) argc p t ≡ ok (q ∷ []) t
unfolding getargs
last_word fuel argc p q after t run filled run2 end = rw run (rw filled (rw run2 (rw end refl)))

-- A round before another one.
more_words :
    (fuel argc p q after : ℕ) (t t' : Text) (argv : List ℕ)
    → skip_blanks (suc fuel) p t ≡ ok q t
    → (t q == 0) ≡ false
    → skip_word (suc fuel) q t ≡ ok after t
    → (ltb 2 (argc + 1) || (t after == 0)) ≡ false
    → getargs fuel (argc + 1) (after + 1) (update t after 0) ≡ ok argv t'
    → getargs (suc fuel) argc p t ≡ ok (q ∷ argv) t'
unfolding getargs
more_words fuel argc p q after t t' argv run filled run2 more run3 =
    rw run (rw filled (rw run2 (rw more (rw run3 refl))))

two_cases : (n : ℕ) → n ≤ 2 → (n ≤ 1) ⊎ (n ≡ 2)
two_cases zero r = inl (omega arith)
two_cases (suc zero) r = inl (omega arith)
two_cases (suc (suc n)) r = inr (omega (arith, r))

-- Of a line with two words at most all are stored, and of a longer one three pointers.
abbrev pub Stores : ℕ → ℕ → List ℕ → Text → List ℕ → Text → Type 0
Stores argc p cs t argv t' =
    ((argc + count (words cs) ≤ 2) × Each t' argv (words cs)
      ⊎ (2 < argc + count (words cs)) × (argc + length argv ≡ 3))
    × ((a : ℕ) → a < p → t' a ≡ t a)

-- `getargs` ends on every line, and never stores more than three pointers: with `argc` of them stored
-- before, at most two, it stores one for each word if these are two at most with those, and
-- otherwise up to the third. `argv` has three entries. The fuel is above the length of the line.
pub getargs-Stores :
    (fuel argc p : ℕ) (cs : List ℕ) (t : Text)
    → Holds t p cs
    → length cs < fuel
    → argc ≤ 2
    → (argv : List ℕ) × (t' : Text) × (getargs fuel argc p t ≡ ok argv t')
      × Stores argc p cs t argv t'
unfolding count
getargs-Stores zero argc p cs t h f r = absurd (omega arith)
getargs-Stores (suc fuel) argc p cs t h f r =
    let (q, run, held, le) = skip_blanks_lem (suc fuel) p cs t h f in
    elim (drop_blanks_cases cs) [
      | inl e ↦
          let none_left : words cs ≡ [] = no_words cs e in
          let ends : t q ≡ 0 = rw e at held in
          (
            [],
            t,
            nothing_left fuel argc p q t run ends,
            (rw none_left (inl (omega (arith, r), tt)), λ a n. refl),
          )
      | inr (c, ds, e, n) ↦
          let here : Holds t q (c ∷ ds) = rw e at held in
          let shorter : length (c ∷ ds) < suc fuel =
            omega (arith, length-drop_blanks cs, ap length e, f) in
          let (after, run2, held2, le2, kept) =
            skip_word_lem (suc fuel) q (c ∷ ds) t here shorter in
          let filled : (t q == 0) ≡ false = rw (here.0) (==_of_ne c 0 here.1) in
          elim (drop_word_cases (c ∷ ds)) [
            | inl e2 ↦
                let all : words cs ≡ take_word (c ∷ ds) ∷ [] = one_word cs c ds e n e2 in
                let ends : t after ≡ 0 = rw e2 at held2 in
                let end = last_word fuel argc p q after t run filled run2 (ground (arith, ends)) in
                (
                  q ∷ [],
                  t,
                  end,
                  (
                    rw all (elim (two_cases argc r) [
                      | inl less ↦ inl (omega (arith, less), (kept t ends (λ a lt. refl), tt))
                      | inr two ↦ inr (omega (arith, two), omega (arith, two))
                    ]),
                    λ a lt. refl,
                  ),
                )
            | inr (d, rest, e2, b) ↦
                let all : words cs ≡ take_word (c ∷ ds) ∷ words rest =
                  word_and_rest cs c ds d rest e n e2 b in
                let next : Holds t after (d ∷ rest) = rw e2 at held2 in
                let blank : (t after == 0) ≡ false = rw (next.0) (==_of_ne d 0 next.1) in
                elim (two_cases argc r) [
                  | inr two ↦
                      let end =
                        last_word fuel argc p q after t run filled run2 (ground (arith, two)) in
                      (
                        q ∷ [],
                        t,
                        end,
                        (rw all (inr (omega (arith, two), omega (arith, two))), λ a lt. refl),
                      )
                  | inl less ↦
                      let cut : Text = update t after 0 in
                      let tail : Holds cut (after + 1) rest =
                        Holds-same t cut (after + 1) rest
                          (λ a lt. update_other t after 0 a (ground arith)) next.2 in
                      let (argv, t', run3, both) =
                        getargs-Stores fuel (argc + 1) (after + 1) rest cut tail
                          (omega (arith, length-drop (c ∷ ds) rest d e2, shorter))
                          (omega (arith, less)) in
                      let (stored, same) = both in
                      let (ends, before) = before_cut t t' after same in
                      let more : (ltb 2 (argc + 1) || (t after == 0)) ≡ false =
                        ground (arith, less, blank) in
                      (
                        q ∷ argv,
                        t',
                        more_words fuel argc p q after t t' argv run filled run2 more run3,
                        (
                          rw all (elim stored [
                            | inl (few, each) ↦
                                inl (omega (arith, few), (kept t' ends before, each))
                            | inr (many, three) ↦ inr (omega (arith, many), omega (arith, three))
                          ]),
                          λ a lt. before a (omega (arith, lt, le, le2)),
                        ),
                      )
                ]
          ]
    ]
