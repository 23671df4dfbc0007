-- ===== src/Args/Strings.antt =====
-- Strings in a memory of characters: a line that is put there, and the words that the pointers of
-- `getargs` lead to.
use unix_sys_prog.Base.{
  ℕ, zero, suc, ◌+◌, ◌≤◌, ◌<◌, ◌≡◌, ◌≢◌, inl, inr, refl, List, [], ◌∷◌, Bool, true, false, ◌&&◌,
  arith, length, All, Bool-cases, ==_of_ne, ◌==◌, if◌then◌else◌,
}
use unix_sys_prog.Args.Getargs.{Text, is_blank}
use unix_sys_prog.Args.Words.{Holds, Each, words, in_front}

-- `strcmp(a, b) == 0`
unfoldable pub same : List ℕ → List ℕ → Bool
same [] [] = true
same (a ∷ v) (b ∷ w) = (a == b) && same v w
same _ _ = false

-- The string at `p`.
unfoldable pub read_string : ℕ → Text → ℕ → List ℕ
read_string zero t p = []
read_string (suc fuel) t p = if t p == 0 then [] else t p ∷ read_string fuel t (p + 1)

unfoldable pub read_strings : ℕ → Text → List ℕ → List (List ℕ)
read_strings fuel t [] = []
read_strings fuel t (p ∷ ps) = read_string fuel t p ∷ read_strings fuel t ps

-- The memory with this line at address 0.
unfoldable pub text_of : List ℕ → Text
text_of [] a = 0
text_of (c ∷ cs) zero = c
text_of (c ∷ cs) (suc a) = text_of cs a

pub text_of-Holds :
    (l : List ℕ) (p : ℕ) (t : Text)
    → ((a : ℕ) → t (p + a) ≡ text_of l a)
    → All (λ c. c ≢ 0) l
    → Holds t p l
unfolding text_of
text_of-Holds [] p t same n = ground (arith, same 0)
text_of-Holds (c ∷ cs) p t same n = (
  ground (arith, same 0),
  n.0,
  text_of-Holds cs (p + 1) t (λ a. ground (arith, same (suc a))) n.1,
)

read_string_lem :
    (fuel : ℕ) (t : Text) (p : ℕ) (w : List ℕ)
    → Holds t p w
    → length w < fuel
    → read_string fuel t p ≡ w
unfolding read_string
read_string_lem zero t p w h f = absurd (omega arith)
read_string_lem (suc fuel) t p [] h f = rw h refl
read_string_lem (suc fuel) t p (c ∷ w) h f =
    simp (h.0, ==_of_ne c 0 h.1, read_string_lem fuel t (p + 1) w h.2 (omega (arith, f)))

pub read_strings_lem :
    (fuel : ℕ) (t : Text) (argv : List ℕ) (ws : List (List ℕ))
    → Each t argv ws
    → All (λ w. length w < fuel) ws
    → read_strings fuel t argv ≡ ws
unfolding read_strings
read_strings_lem fuel t [] [] e f = refl
read_strings_lem fuel t [] (w ∷ ws) e f = cc
read_strings_lem fuel t (p ∷ ps) [] e f = cc
read_strings_lem fuel t (p ∷ ps) (w ∷ ws) e f =
    simp (read_string_lem fuel t p w e.0 f.0, read_strings_lem fuel t ps ws e.1 f.1)

-- No word of the list is longer than this.
abbrev pub Short : ℕ → List (List ℕ) → Type 0
Short n = All (λ w. length w ≤ n)

pub Short-below : (n m : ℕ) (ws : List (List ℕ)) → n < m → Short n ws → All (λ w. length w < m) ws
Short-below n m [] le h = tt
Short-below n m (w ∷ ws) le h = (omega (arith, h.0), Short-below n m ws le h.1)

Short-suc : (n : ℕ) (ws : List (List ℕ)) → Short n ws → Short (suc n) ws
Short-suc n [] h = tt
Short-suc n (w ∷ ws) h = (omega (arith, h.0), Short-suc n ws h.1)

in_front-Short :
    (n c : ℕ) (cs : List ℕ) (ws : List (List ℕ)) → Short n ws → Short (suc n) (in_front c cs ws)
unfolding in_front
in_front-Short n c [] ws h = (omega arith, Short-suc n ws h)
in_front-Short n c (d ∷ ds) [] h = (omega arith, tt)
in_front-Short n c (d ∷ ds) (w ∷ ws) h = elim (Bool-cases (is_blank d)) [
  | inl b ↦ rw b (omega arith, (omega (arith, h.0), Short-suc n ws h.1))
  | inr m ↦ rw m (omega (arith, h.0), Short-suc n ws h.1)
]

pub words-Short : (cs : List ℕ) → Short (length cs) (words cs)
unfolding words
words-Short [] = tt
words-Short (c ∷ cs) = elim (Bool-cases (is_blank c)) [
  | inl b ↦ rw b (Short-suc (length cs) (words cs) (words-Short cs))
  | inr m ↦ rw m (in_front-Short (length cs) c cs (words cs) (words-Short cs))
]

-- The line without its last character, the newline.
unfoldable pub drop_last : List ℕ → List ℕ
drop_last [] = []
drop_last (c ∷ []) = []
drop_last (c ∷ d ∷ cs) = c ∷ drop_last (d ∷ cs)

pub length-drop_last : (l : List ℕ) → length (drop_last l) ≤ length l
unfolding drop_last
length-drop_last [] = omega arith
length-drop_last (c ∷ []) = omega arith
length-drop_last (c ∷ d ∷ cs) = omega (arith, length-drop_last (d ∷ cs))
