-- ===== src/Args/Words.antt =====
-- The words of a line, and what the two inner loops of `getargs` do on it.
use unix_sys_prog.Base.{
  ℕ, zero, suc, ◌+◌, ◌≤◌, ◌<◌, ◌≡◌, ◌≢◌, ◌⊎◌, inl, inr, refl, true, false, if◌then◌else◌, List, [],
  ◌∷◌, ok, arith, length, Bool-cases, ap, sym, ◌∙◌, ==_of_ne,
}
use unix_sys_prog.Args.Getargs.{Text, is_blank, skip_blanks, skip_word}

-- At `p` stands the string `cs` with a zero behind it.
abbrev pub Holds : Text → ℕ → List ℕ → Type 0
Holds t p [] = t p ≡ 0
Holds t p (c ∷ cs) = (t p ≡ c) × (c ≢ 0) × Holds t (p + 1) cs

-- The pointers lead to the strings, one to one.
abbrev pub Each : Text → List ℕ → List (List ℕ) → Type 0
Each t [] [] = Unit
Each t (p ∷ ps) (w ∷ ws) = Holds t p w × Each t ps ws
Each t _ _ = false ≡ true

-- A character in front of a line, whose words are `ws`.
unfoldable pub in_front : ℕ → List ℕ → List (List ℕ) → List (List ℕ)
in_front c (d ∷ ds) (w ∷ ws) = if is_blank d then (c ∷ []) ∷ w ∷ ws else (c ∷ w) ∷ ws
in_front c _ ws = (c ∷ []) ∷ ws

-- The words of a line: its longest parts without a blank.
unfoldable pub words : List ℕ → List (List ℕ)
words [] = []
words (c ∷ cs) = let ws = words cs in if is_blank c then ws else in_front c cs ws

unfoldable pub count : List (List ℕ) → ℕ
count [] = 0
count (w ∷ ws) = suc (count ws)

unfoldable pub drop_blanks : List ℕ → List ℕ
drop_blanks [] = []
drop_blanks (c ∷ cs) = let ds = drop_blanks cs in if is_blank c then ds else c ∷ cs

unfoldable pub take_word : List ℕ → List ℕ
take_word [] = []
take_word (c ∷ cs) = let w = take_word cs in if is_blank c then [] else c ∷ w

unfoldable pub drop_word : List ℕ → List ℕ
drop_word [] = []
drop_word (c ∷ cs) = let ds = drop_word cs in if is_blank c then c ∷ cs else ds

pub length-drop_blanks : (cs : List ℕ) → length (drop_blanks cs) ≤ length cs
unfolding drop_blanks
length-drop_blanks [] = omega arith
length-drop_blanks (c ∷ cs) = ground (arith, length-drop_blanks cs)

pub length-drop_word : (cs : List ℕ) → length (drop_word cs) ≤ length cs
unfolding drop_word
length-drop_word [] = omega arith
length-drop_word (c ∷ cs) = ground (arith, length-drop_word cs)

pub words-drop_blanks : (cs : List ℕ) → words (drop_blanks cs) ≡ words cs
unfolding words drop_blanks
words-drop_blanks [] = refl
words-drop_blanks (c ∷ cs) = ground (arith, words-drop_blanks cs)

pub drop_blanks_cases :
    (cs : List ℕ)
    → (drop_blanks cs ≡ [])
      ⊎ (c : ℕ) × (ds : List ℕ) × (drop_blanks cs ≡ c ∷ ds) × (is_blank c ≡ false)
unfolding drop_blanks
drop_blanks_cases [] = inl refl
drop_blanks_cases (c ∷ cs) = elim (Bool-cases (is_blank c)) [
  | inl b ↦ rw b (drop_blanks_cases cs)
  | inr n ↦ rw n (inr (c, cs, refl, n))
]

pub drop_word_cases :
    (cs : List ℕ)
    → (drop_word cs ≡ []) ⊎ (c : ℕ) × (ds : List ℕ) × (drop_word cs ≡ c ∷ ds) × (is_blank c ≡ true)
unfolding drop_word
drop_word_cases [] = inl refl
drop_word_cases (c ∷ cs) = elim (Bool-cases (is_blank c)) [
  | inl b ↦ rw b (inr (c, cs, refl, b))
  | inr n ↦ rw n (drop_word_cases cs)
]

pub in_front_blank :
    (c d : ℕ) (ds : List ℕ) (ws : List (List ℕ))
    → is_blank d ≡ true
    → in_front c (d ∷ ds) ws ≡ (c ∷ []) ∷ ws
unfolding in_front
in_front_blank c d ds [] b = refl
in_front_blank c d ds (w ∷ ws) b = rw b refl

-- A line that starts with a word.
pub words-take_word :
    (c : ℕ) (cs : List ℕ)
    → is_blank c ≡ false
    → words (c ∷ cs) ≡ take_word (c ∷ cs) ∷ words (drop_word (c ∷ cs))
unfolding words in_front take_word drop_word
words-take_word c [] n = simp n
words-take_word c (d ∷ ds) n = elim (Bool-cases (is_blank d)) [
  | inl b ↦ rw n (rw b (rw b (in_front_blank c d ds (words ds) b)))
  | inr m ↦
      let tail = words-take_word d ds m in
      let rest : in_front d ds (words ds) ≡ (d ∷ take_word ds) ∷ words (drop_word ds) =
        simp m at tail in
      simp (n, m, rest)
]

pub zero_not_blank : is_blank 0 ≡ false
unfolding is_blank
zero_not_blank = refl

pub skip_blanks_lem :
    (fuel p : ℕ) (cs : List ℕ) (t : Text)
    → Holds t p cs
    → length cs < fuel
    → (q : ℕ) × (skip_blanks fuel p t ≡ ok q t) × Holds t q (drop_blanks cs) × (p ≤ q)
unfolding skip_blanks drop_blanks
skip_blanks_lem zero p cs t h f = absurd (omega arith)
skip_blanks_lem (suc fuel) p [] t h f = (p, simp (h, zero_not_blank), h, omega arith)
skip_blanks_lem (suc fuel) p (c ∷ cs) t h f = elim (Bool-cases (is_blank c)) [
  | inl b ↦
      let (q, run, held, le) = skip_blanks_lem fuel (p + 1) cs t h.2 (omega arith) in
      (q, simp (h.0, b) run, rw b held, omega (arith, le))
  | inr n ↦ (p, simp (h.0, n), rw n h, omega arith)
]

pub skip_word_lem :
    (fuel p : ℕ) (cs : List ℕ) (t : Text)
    → Holds t p cs
    → length cs < fuel
    → (q : ℕ) × (skip_word fuel p t ≡ ok q t)
      × Holds t q (drop_word cs)
      × (p ≤ q)
      × ((t' : Text) → t' q ≡ 0 → ((a : ℕ) → a < q → t' a ≡ t a) → Holds t' p (take_word cs))
unfolding skip_word take_word drop_word
skip_word_lem zero p cs t h f = absurd (omega arith)
skip_word_lem (suc fuel) p [] t h f = (p, simp h, h, omega arith, λ t' z same. z)
skip_word_lem (suc fuel) p (c ∷ cs) t h f = elim (Bool-cases (is_blank c)) [
  | inl b ↦ (p, simp (h.0, b, ==_of_ne c 0 h.1), rw b h, omega arith, λ t' z same. rw b z)
  | inr n ↦
      let (q, run, held, le, kept) = skip_word_lem fuel (p + 1) cs t h.2 (omega arith) in
      (
        q,
        simp (h.0, n, ==_of_ne c 0 h.1) run,
        rw n held,
        omega (arith, le),
        λ t' z same. rw n ((same p (omega (arith, le)) ∙ h.0, h.1, kept t' z same)),
      )
]

-- A memory that is the same from `p` on holds the same string.
pub Holds-same :
    (t t' : Text) (p : ℕ) (cs : List ℕ)
    → ((a : ℕ) → p ≤ a → t' a ≡ t a)
    → Holds t p cs
    → Holds t' p cs
Holds-same t t' p [] same h = same p (omega arith) ∙ h
Holds-same t t' p (c ∷ cs) same h = (
  same p (omega arith) ∙ h.0,
  h.1,
  Holds-same t t' (p + 1) cs (λ a le. same a (omega (arith, le))) h.2,
)

pub length-drop : (cs ds : List ℕ) (c : ℕ) → drop_word cs ≡ c ∷ ds → length ds < length cs
length-drop cs ds c e = omega (arith, length-drop_word cs, ap length e)

pub no_words : (cs : List ℕ) → drop_blanks cs ≡ [] → words cs ≡ []
unfolding words
no_words cs e = sym (words-drop_blanks cs) ∙ ap words e

-- The words of a line that starts, after its blanks, with a word and ends with it.
pub one_word :
    (cs : List ℕ) (c : ℕ) (ds : List ℕ)
    → drop_blanks cs ≡ c ∷ ds
    → is_blank c ≡ false
    → drop_word (c ∷ ds) ≡ []
    → words cs ≡ take_word (c ∷ ds) ∷ []
unfolding words
one_word cs c ds e n e2 =
    sym (words-drop_blanks cs)
    ∙ ap words e
    ∙ words-take_word c ds n
    ∙ ap (λ xs. take_word (c ∷ ds) ∷ words xs) e2

-- The words of a line in which a blank stands behind the first word.
pub word_and_rest :
    (cs : List ℕ) (c : ℕ) (ds : List ℕ) (d : ℕ) (rest : List ℕ)
    → drop_blanks cs ≡ c ∷ ds
    → is_blank c ≡ false
    → drop_word (c ∷ ds) ≡ d ∷ rest
    → is_blank d ≡ true
    → words cs ≡ take_word (c ∷ ds) ∷ words rest
unfolding words
word_and_rest cs c ds d rest e n e2 b =
    sym (words-drop_blanks cs)
    ∙ ap words e
    ∙ words-take_word c ds n
    ∙ ap (λ xs. take_word (c ∷ ds) ∷ words xs) e2
    ∙ rw b refl

pub some_room : (n k : ℕ) → suc k ≤ n → (m : ℕ) × (n ≡ suc m) × (k ≤ m)
some_room zero k h = absurd (omega arith)
some_room (suc n) k h = (n, refl, omega arith)
