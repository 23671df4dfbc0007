-- ===== src/Args/Examples.antt =====
-- The line " ab", tab, "c", split into its two words.
use unix_sys_prog.Base.{ℕ, ◌≡◌, refl, List, [], ◌∷◌, ◌==◌, if◌then◌else◌, ok, fault, arith, Run}
use unix_sys_prog.Args.Getargs.{Text, is_blank, skip_blanks, skip_word, getargs}
use unix_sys_prog.Args.Words.{Holds, words, in_front, count}
use unix_sys_prog.Args.Split.{Splits, getargs-words, getargs_overflow}

abbrev line : List ℕ
line = 32 ∷ 97 ∷ 98 ∷ 9 ∷ 99 ∷ []

abbrev line_at_100 : Text
line_at_100 a =
    if a == 100
    then 32
    else if a == 101
    then 97
    else if a == 102
    then 98
    else if a == 103
    then 9
    else if a == 104
    then 99
    else 0

line-Holds : Holds line_at_100 100 line
line-Holds = (
  refl,
  omega arith,
  (refl, omega arith, (refl, omega arith, (refl, omega arith, (refl, omega arith, refl)))),
)

abbrev stored : Run Text (List ℕ) → List ℕ
stored (ok argv t) = argv
stored _ = []

getargs_test : stored (getargs 6 16 100 line_at_100) ≡ 101 ∷ 104 ∷ []
unfolding getargs skip_blanks skip_word is_blank
getargs_test = refl

words_test : words line ≡ (97 ∷ 98 ∷ []) ∷ (99 ∷ []) ∷ []
unfolding words in_front is_blank
words_test = refl

getargs-words_example : Splits 6 16 100 line line_at_100
unfolding words in_front is_blank count
getargs-words_example =
    getargs-words 6 16 100 line line_at_100 line-Holds (omega arith) (omega arith)

getargs_overflow_example : getargs 6 1 100 line_at_100 ≡ fault
unfolding words in_front is_blank count
getargs_overflow_example =
    getargs_overflow 6 1 100 line line_at_100 line-Holds (omega arith) (omega arith)
