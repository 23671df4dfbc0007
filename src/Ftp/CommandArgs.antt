-- ===== src/Ftp/CommandArgs.antt =====
-- `getargs` of myftp/myftpc.c on a line.
use unix_sys_prog.Base.{
  ℕ, zero, suc, ◌+◌, ◌<◌, ◌≡◌, ◌≢◌, inl, inr, refl, false, ◌==◌, List, [], ◌∷◌, update, ok, arith,
  length, ap, All, ==_of_ne, update_other,
}
use unix_sys_prog.Args.Getargs.{skip_blanks, skip_word}
use unix_sys_prog.Args.Words.{
  Each, Holds, Holds-same, count, drop_blanks_cases, drop_word_cases, length-drop,
  length-drop_blanks, no_words, one_word, skip_blanks_lem, skip_word_lem, some_room, take_word,
  word_and_rest, words,
}
use unix_sys_prog.Args.Split.{before_cut}
use unix_sys_prog.Args.Strings.{
  text_of, read_strings, text_of-Holds, read_strings_lem, Short-below, words-Short,
}
use unix_sys_prog.Args.Getargs
use unix_sys_prog.Ftp.Command.{getargs, buf_len, nargs}

-- A round that finds no word.
nothing_left :
    (fuel room p q : ℕ) (t : Getargs.Text)
    → skip_blanks (suc fuel) p t ≡ ok q t
    → t q ≡ 0
    → getargs (suc fuel) room p t ≡ ok [] t
unfolding getargs
nothing_left fuel room p q t run ends = rw run (rw ends refl)

-- A round whose word ends the line: the null pointer behind it needs an entry too.
last_word :
    (fuel room left p q after : ℕ) (t : Getargs.Text)
    → room ≡ suc left
    → 0 < left
    → skip_blanks (suc fuel) p t ≡ ok q t
    → (t q == 0) ≡ false
    → skip_word (suc fuel) q t ≡ ok after t
    → t after ≡ 0
    → getargs (suc fuel) room p t ≡ ok (q ∷ []) t
unfolding getargs
last_word fuel room left p q after t e lt run filled run2 end =
    let some_left : (left == 0) ≡ false = ground (arith, lt) in
    rw e (rw run (rw filled (rw run2 (rw end (rw some_left refl)))))

-- A round before another one.
more_words :
    (fuel room left p q after : ℕ) (t t' : Getargs.Text) (argv : List ℕ)
    → room ≡ suc left
    → skip_blanks (suc fuel) p t ≡ ok q t
    → (t q == 0) ≡ false
    → skip_word (suc fuel) q t ≡ ok after t
    → (t after == 0) ≡ false
    → getargs fuel left (after + 1) (update t after 0) ≡ ok argv t'
    → getargs (suc fuel) room p t ≡ ok (q ∷ argv) t'
unfolding getargs
more_words fuel room left p q after t t' argv e run filled run2 more run3 =
    rw e (rw run (rw filled (rw run2 (rw more (rw run3 refl)))))

getargs-words :
    (fuel room p : ℕ) (cs : List ℕ) (t : Getargs.Text)
    → Holds t p cs
    → length cs < fuel
    → count (words cs) < room
    → (argv : List ℕ) × (t' : Getargs.Text) × (getargs fuel room p t ≡ ok argv t')
      × Each t' argv (words cs)
      × ((a : ℕ) → a < p → t' a ≡ t a)
unfolding count
getargs-words zero room p cs t h f r = absurd (omega arith)
getargs-words (suc fuel) room p cs t h f r =
    let (q, run, held, le) = skip_blanks_lem (suc fuel) p cs t h f in
    elim (drop_blanks_cases cs) [
      | inl e ↦
          let none_left : words cs ≡ [] = no_words cs e in
          let ends : t q ≡ 0 = rw e at held in
          ([], t, nothing_left fuel room p q t run ends, rw none_left tt, λ a n. refl)
      | inr (c, ds, e, n) ↦
          let here : Holds t q (c ∷ ds) = rw e at held in
          let shorter : length (c ∷ ds) < suc fuel =
            omega (arith, length-drop_blanks cs, ap length e, f) in
          let (after, run2, held2, le2, kept) =
            skip_word_lem (suc fuel) q (c ∷ ds) t here shorter in
          let filled : (t q == 0) ≡ false = rw (here.0) (==_of_ne c 0 here.1) in
          elim (drop_word_cases (c ∷ ds)) [
            | inl e2 ↦
                let all : words cs ≡ take_word (c ∷ ds) ∷ [] = one_word cs c ds e n e2 in
                let (left, enough, m) = some_room room 1 (rw all at r) in
                let ends : t after ≡ 0 = rw e2 at held2 in
                (
                  q ∷ [],
                  t,
                  last_word fuel room left p q after t enough (omega (arith, m)) run filled run2
                      ends,
                  rw all (kept t ends (λ a lt. refl), tt),
                  λ a lt. refl,
                )
            | inr (d, rest, e2, b) ↦
                let all : words cs ≡ take_word (c ∷ ds) ∷ words rest =
                  word_and_rest cs c ds d rest e n e2 b in
                let (left, enough, m) = some_room room (suc (count (words rest))) (rw all at r) in
                let next : Holds t after (d ∷ rest) = rw e2 at held2 in
                let cut : Getargs.Text = update t after 0 in
                let tail : Holds cut (after + 1) rest =
                  Holds-same t cut (after + 1) rest
                    (λ a lt. update_other t after 0 a (ground arith)) next.2 in
                let (argv, t', run3, each, same) =
                  getargs-words fuel left (after + 1) rest cut tail
                    (omega (arith, length-drop (c ∷ ds) rest d e2, shorter)) m in
                let (ends, before) = before_cut t t' after same in
                (
                  q ∷ argv,
                  t',
                  more_words fuel room left p q after t t' argv enough run filled run2
                      (rw (next.0) (==_of_ne d 0 next.1)) run3,
                  rw all (kept t' ends before, each),
                  λ a lt. before a (omega (arith, lt, le, le2)),
                )
          ]
    ]

-- The words that the client reads through the pointers.
pub getargs-read_strings :
    (cs : List ℕ)
    → length cs < buf_len
    → All (λ c. c ≢ 0) cs
    → count (words cs) < nargs
    → (argv : List ℕ) × (t : Getargs.Text) × (getargs buf_len nargs 0 (text_of cs) ≡ ok argv t)
      × (read_strings buf_len t argv ≡ words cs)
getargs-read_strings cs short no_zero few =
    let (argv, t, run, each, same) =
      getargs-words buf_len nargs 0 cs (text_of cs)
        (text_of-Holds cs 0 (text_of cs) (λ a. ap (text_of cs) (omega arith)) no_zero) short few in
    (
      argv,
      t,
      run,
      read_strings_lem buf_len t argv (words cs) each
          (Short-below (length cs) buf_len (words cs) short (words-Short cs)),
    )
