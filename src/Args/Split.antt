-- ===== src/Args/Split.antt =====
-- `getargs` splits a line into its words.
use unix_sys_prog.Base.{
  ℕ, zero, suc, ◌+◌, ◌≤◌, ◌<◌, ◌≡◌, ◌⊎◌, inl, inr, refl, false, ◌==◌, List, [], ◌∷◌, update, ok,
  fault, arith, length, ap, ◌∙◌, ==_of_ne, update_self, update_other,
}
use unix_sys_prog.Args.Getargs.{Text, skip_blanks, skip_word, getargs}
use unix_sys_prog.Args.Words.{
  Each, Holds, Holds-same, count, drop_blanks_cases, drop_word_cases, length-drop,
  length-drop_blanks, no_words, one_word, skip_blanks_lem, skip_word_lem, some_room, take_word,
  word_and_rest, words,
}

-- A round that stores the word at `q`, which ends at `after` with a blank.
one_more :
    (fuel room left p q after : ℕ) (t t' : Text) (argv : List ℕ)
    → room ≡ suc left
    → skip_blanks (suc fuel) p t ≡ ok q t
    → (t q == 0) ≡ false
    → skip_word (suc fuel) q t ≡ ok after t
    → (t after == 0) ≡ false
    → getargs fuel left (after + 1) (update t after 0) ≡ ok argv t'
    → getargs (suc fuel) room p t ≡ ok (q ∷ argv) t'
unfolding getargs
one_more fuel room left p q after t t' argv enough run filled run2 more run3 =
    rw enough (rw run (rw filled (rw run2 (rw more (rw run3 refl)))))

-- A memory that the rest of the line left as it was, up to the zero at `after`.
pub before_cut :
    (t t' : Text) (after : ℕ)
    → ((a : ℕ) → a < after + 1 → t' a ≡ update t after 0 a)
    → (t' after ≡ 0) × ((a : ℕ) → a < after → t' a ≡ t a)
before_cut t t' after same = (
  same after (omega arith) ∙ update_self t after 0,
  λ a lt. same a (omega (arith, lt)) ∙ update_other t after 0 a (ground arith),
)

-- What `getargs` stores for the line `cs` at `p`, and the memory it leaves.
abbrev pub Splits : ℕ → ℕ → ℕ → List ℕ → Text → Type 0
Splits fuel room p cs t =
    (argv : List ℕ) × (t' : Text) × (getargs fuel room p t ≡ ok argv t')
    × Each t' argv (words cs)
    × ((a : ℕ) → a < p → t' a ≡ t a)

pub getargs-words :
    (fuel room p : ℕ) (cs : List ℕ) (t : Text)
    → Holds t p cs
    → length cs < fuel
    → count (words cs) ≤ room
    → Splits fuel room p cs t
unfolding getargs count
getargs-words zero room p cs t h f r = absurd (omega arith)
getargs-words (suc fuel) room p cs t h f r =
    let (q, run, held, le) = skip_blanks_lem (suc fuel) p cs t h f in
    elim (drop_blanks_cases cs) [
      | inl e ↦
          let none_left : words cs ≡ [] = no_words cs e in
          let ends : t q ≡ 0 = rw e at held in
          ([], t, simp (run, ends), rw none_left tt, λ a n. refl)
      | inr (c, ds, e, n) ↦
          let here : Holds t q (c ∷ ds) = rw e at held in
          let shorter : length (c ∷ ds) < suc fuel =
            omega (arith, length-drop_blanks cs, ap length e, f) in
          let (after, run2, held2, le2, kept) =
            skip_word_lem (suc fuel) q (c ∷ ds) t here shorter in
          let filled : (t q == 0) ≡ false = rw (here.0) (==_of_ne c 0 here.1) in
          elim (drop_word_cases (c ∷ ds)) [
            | inl e2 ↦
                let all : words cs ≡ take_word (c ∷ ds) ∷ [] = one_word cs c ds e n e2 in
                let (left, enough, m) = some_room room 0 (rw all at r) in
                let ends : t after ≡ 0 = rw e2 at held2 in
                (
                  q ∷ [],
                  t,
                  simp (run, filled, enough, run2, ends),
                  rw all (kept t ends (λ a lt. refl), tt),
                  λ a lt. refl,
                )
            | inr (d, rest, e2, b) ↦
                let all : words cs ≡ take_word (c ∷ ds) ∷ words rest =
                  word_and_rest cs c ds d rest e n e2 b in
                let (left, enough, m) = some_room room (count (words rest)) (rw all at r) in
                let next : Holds t after (d ∷ rest) = rw e2 at held2 in
                let cut : Text = update t after 0 in
                let tail : Holds cut (after + 1) rest =
                  Holds-same t cut (after + 1) rest
                    (λ a lt. update_other t after 0 a (ground arith)) next.2 in
                let (argv, t', run3, each, same) =
                  getargs-words fuel left (after + 1) rest cut tail
                    (omega (arith, length-drop (c ∷ ds) rest d e2, shorter)) m in
                let (ends, before) = before_cut t t' after same in
                (
                  q ∷ argv,
                  t',
                  one_more fuel room left p q after t t' argv enough run filled run2
                      (rw (next.0) (==_of_ne d 0 next.1)) run3,
                  rw all (kept t' ends before, each),
                  λ a lt. before a (omega (arith, lt, le, le2)),
                )
          ]
    ]

-- A round that finds a word, with no entry of `argv` left.
no_room :
    (fuel room p q : ℕ) (t : Text)
    → room ≡ 0
    → skip_blanks (suc fuel) p t ≡ ok q t
    → (t q == 0) ≡ false
    → getargs (suc fuel) room p t ≡ fault
unfolding getargs
no_room fuel room p q t e run filled = rw e (rw run (rw filled refl))

-- A round that stores a word, before one that fails.
fault_later :
    (fuel room left p q after : ℕ) (t : Text)
    → room ≡ suc left
    → skip_blanks (suc fuel) p t ≡ ok q t
    → (t q == 0) ≡ false
    → skip_word (suc fuel) q t ≡ ok after t
    → (t after == 0) ≡ false
    → getargs fuel left (after + 1) (update t after 0) ≡ fault
    → getargs (suc fuel) room p t ≡ fault
unfolding getargs
fault_later fuel room left p q after t enough run filled run2 more run3 =
    rw enough (rw run (rw filled (rw run2 (rw more (rw run3 refl)))))

room_cases : (n : ℕ) → (n ≡ 0) ⊎ (m : ℕ) × (n ≡ suc m)
room_cases zero = inl refl
room_cases (suc n) = inr (n, refl)

-- A line with more words than `argv` has entries makes `getargs` store behind the last.
pub getargs_overflow :
    (fuel room p : ℕ) (cs : List ℕ) (t : Text)
    → Holds t p cs
    → length cs < fuel
    → room < count (words cs)
    → getargs fuel room p t ≡ fault
unfolding count
getargs_overflow zero room p cs t h f r = absurd (omega arith)
getargs_overflow (suc fuel) room p cs t h f r =
    let (q, run, held, le) = skip_blanks_lem (suc fuel) p cs t h f in
    elim (drop_blanks_cases cs) [
      | inl e ↦ absurd (omega (arith, rw (no_words cs e) at r))
      | inr (c, ds, e, n) ↦
          let here : Holds t q (c ∷ ds) = rw e at held in
          let shorter : length (c ∷ ds) < suc fuel =
            omega (arith, length-drop_blanks cs, ap length e, f) in
          let (after, run2, held2, le2, kept) =
            skip_word_lem (suc fuel) q (c ∷ ds) t here shorter in
          let filled : (t q == 0) ≡ false = rw (here.0) (==_of_ne c 0 here.1) in
          elim (room_cases room) [
            | inl none ↦ no_room fuel room p q t none run filled
            | inr (left, enough) ↦ elim (drop_word_cases (c ∷ ds)) [
              | inl e2 ↦ absurd (omega (arith, enough, rw (one_word cs c ds e n e2) at r))
              | inr (d, rest, e2, b) ↦
                  let next : Holds t after (d ∷ rest) = rw e2 at held2 in
                  let cut : Text = update t after 0 in
                  let tail : Holds cut (after + 1) rest =
                    Holds-same t cut (after + 1) rest
                      (λ a lt. update_other t after 0 a (ground arith)) next.2 in
                  let run3 =
                    getargs_overflow fuel left (after + 1) rest cut tail
                      (omega (arith, length-drop (c ∷ ds) rest d e2, shorter))
                      (omega (arith, enough, rw (word_and_rest cs c ds d rest e n e2 b) at r)) in
                  fault_later fuel room left p q after t enough run filled run2
                    (rw (next.0) (==_of_ne d 0 next.1)) run3
            ]
          ]
    ]
