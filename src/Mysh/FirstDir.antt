-- ===== src/Mysh/FirstDir.antt =====
-- What `search_path` of mysh/execline.c gives for a PATH of some directories and a last one.
use unix_sys_prog.Base.{
  ℕ, zero, suc, ◌-◌, ◌≤◌, ◌<◌, ◌∙◌, length-append, append_assoc, eq_of_==, ◌≡◌, refl, ap, Bool,
  false, List, [], ◌∷◌, ◌++◌, Option, some, ◌==◌, ltb, if◌then◌else◌, length, ◌∉◌, arith, All,
  Bool-cases, inl, inr,
}
use unix_sys_prog.Mysh.Search.{
  Text, path_max, Lookup, found, null, fault, colon, last_name, overrun, in_name, scan, search_from,
  search_path,
}

-- The value of PATH with some directories and a last one.
abbrev pub path_of : List Text → Text → Text
path_of [] last = last
path_of (d ∷ ds) last = d ++ b':' ∷ path_of ds last

-- The file in the first of some directories that has it, or else `missing`.
abbrev pub first_dir : (Text → Bool) → Text → Lookup → List Text → Lookup
first_dir stat arg missing [] = missing
first_dir stat arg missing (d ∷ ds) =
    let full = d ++ b'/' ∷ arg in if stat full then found full else first_dir stat arg missing ds

-- What the search comes to at the last directory, by the byte behind the copy.
abbrev pub at_last : (Text → Bool) → Text → Text → ℕ → Lookup
at_last stat arg last slack =
    let full = last ++ b'/' ∷ arg in
    if slack == b':'
    then (if stat full then found full else fault)
    else if slack == 0
    then null
    else fault

-- A directory's name has no colon and no zero, and its file fits the array.
abbrev pub IsEntry : Text → Text → Type 0
IsEntry arg d = (b':' ∉ d) × (0 ∉ d) × (length (d ++ b'/' ∷ arg) < path_max)

scan-colon : (d rest : Text) → b':' ∉ d → 0 ∉ d → scan (d ++ b':' ∷ rest) ≡ colon d rest
unfolding scan
scan-colon [] rest o z = refl
scan-colon (c ∷ cs) rest o z =
    let other : (c == b':') ≡ false = ground arith in
    let more : (c == 0) ≡ false = ground arith in
    rw other (rw more (ap (in_name c) (scan-colon cs rest (ground arith) (ground arith))))

scan-last_name : (d : Text) → b':' ∉ d → 0 ∉ d → scan (d ++ 0 ∷ []) ≡ last_name d
unfolding scan
scan-last_name [] o z = refl
scan-last_name (c ∷ cs) o z =
    let other : (c == b':') ≡ false = ground arith in
    let more : (c == 0) ≡ false = ground arith in
    rw other (rw more (ap (in_name c) (scan-last_name cs (ground arith) (ground arith))))

scan-overrun :
    (d : Text) (slack : ℕ)
    → b':' ∉ d
    → 0 ∉ d
    → (slack == b':') ≡ false
    → (slack == 0) ≡ false
    → scan (d ++ slack ∷ []) ≡ overrun
unfolding scan
scan-overrun [] slack o z a b = rw a (rw b refl)
scan-overrun (c ∷ cs) slack o z a b =
    let other : (c == b':') ≡ false = ground arith in
    let more : (c == 0) ≡ false = ground arith in
    rw other (rw more (ap (in_name c) (scan-overrun cs slack (ground arith) (ground arith) a b)))

module _ (stat : Text → Bool) (arg : Text) where
  search_more :
      (fuel : ℕ) (d rest : Text)
      → IsEntry arg d
      → search_from stat arg (suc fuel) (d ++ b':' ∷ rest) ≡ (
          if stat (d ++ b'/' ∷ arg)
          then found (d ++ b'/' ∷ arg)
          else search_from stat arg fuel rest)
  unfolding search_from
  search_more fuel d rest (o, z, fits) =
      let room : ltb (path_max - 1) (length (d ++ b'/' ∷ arg)) ≡ false = ground arith in
      rw (scan-colon d rest o z, search_from) (rw room refl)

  search_end :
      (fuel : ℕ) (last : Text)
      → IsEntry arg last
      → search_from stat arg (suc fuel) (last ++ 0 ∷ []) ≡ null
  unfolding search_from
  search_end fuel last (o, z, fits) =
      let room : ltb (path_max - 1) (length (last ++ b'/' ∷ arg)) ≡ false = ground arith in
      rw (scan-last_name last o z, search_from)
        (rw room (elim (Bool-cases (stat (last ++ b'/' ∷ arg))) [
          | inl there ↦ rw there refl
          | inr missing ↦ rw missing refl
        ]))

  search_behind : (fuel : ℕ) → search_from stat arg (suc fuel) [] ≡ fault
  unfolding search_from scan
  search_behind fuel = refl

  search_overrun :
      (fuel : ℕ) (last : Text) (slack : ℕ)
      → IsEntry arg last
      → (slack == b':') ≡ false
      → (slack == 0) ≡ false
      → search_from stat arg (suc fuel) (last ++ slack ∷ []) ≡ fault
  unfolding search_from
  search_overrun fuel last slack (o, z, fits) a b =
      rw (scan-overrun last slack o z a b, search_from) refl

  search_last :
      (fuel : ℕ) (last : Text) (slack : ℕ)
      → IsEntry arg last
      → search_from stat arg (suc (suc fuel)) (last ++ slack ∷ []) ≡ at_last stat arg last slack
  search_last fuel last slack entry = elim (Bool-cases (slack == b':')) [
    | inl two ↦ rw (eq_of_== slack b':' two) (
        search_more (suc fuel) last [] entry
        ∙ ap (λ r. if stat (last ++ b'/' ∷ arg) then found (last ++ b'/' ∷ arg) else r)
            (search_behind fuel))
    | inr other ↦ elim (Bool-cases (slack == 0)) [
      | inl stop ↦ rw (eq_of_== slack 0 stop) (search_end (suc fuel) last entry)
      | inr go ↦ rw other (rw go (search_overrun (suc fuel) last slack entry other go))
    ]
  ]

  search_from-first_dir :
      (fuel : ℕ) (ds : List Text) (last : Text) (slack : ℕ)
      → All (IsEntry arg) ds
      → IsEntry arg last
      → suc (length ds) < fuel
      → search_from stat arg fuel (path_of ds last ++ slack ∷ [])
        ≡ first_dir stat arg (at_last stat arg last slack) ds
  search_from-first_dir zero ds last slack all fits lt = absurd (omega arith)
  search_from-first_dir (suc zero) ds last slack all fits lt = absurd (omega arith)
  search_from-first_dir (suc (suc fuel)) [] last slack all fits lt =
      search_last fuel last slack fits
  search_from-first_dir (suc (suc fuel)) (d ∷ ds) last slack (here, all) fits lt =
      ap (search_from stat arg (suc (suc fuel)))
        (append_assoc d (b':' ∷ path_of ds last) (slack ∷ []))
      ∙ search_more (suc fuel) d (path_of ds last ++ slack ∷ []) here
      ∙ ap (λ r. if stat (d ++ b'/' ∷ arg) then found (d ++ b'/' ∷ arg) else r)
          (search_from-first_dir (suc fuel) ds last slack all fits (omega (arith, lt)))

  length-path_of :
      (ds : List Text) (last : Text) (slack : ℕ)
      → suc (length ds) ≤ length (path_of ds last ++ slack ∷ [])
  length-path_of [] last slack = omega (arith, length-append last (slack ∷ []))
  length-path_of (d ∷ ds) last slack = omega (
    arith,
    length-append (d ++ b':' ∷ path_of ds last) (slack ∷ []),
    length-append d (b':' ∷ path_of ds last),
    length-append (path_of ds last) (slack ∷ []),
    length-path_of ds last slack,
  )

  -- For a command's name without a slash, and PATH set to some directories and a last one, search_path
  -- gives the file in the first of the directories before the last that has it. If none of them
  -- has it, the byte behind the copy of PATH decides, which the code never writes: NULL if it is a
  -- zero, even where the last directory has the file; if it is a colon, the file in the last
  -- directory, or a read behind the copy where that has none; a read behind the copy otherwise. The
  -- names of the directories have no colon and no zero, and the files' fit the array.
  pub search_path-first_dir :
      (home : Option Text) (realpath : Text → Option Text) (ds : List Text) (last : Text)
      (slack : ℕ)
      → b'/' ∉ arg
      → All (IsEntry arg) ds
      → IsEntry arg last
      → search_path (some (path_of ds last)) home realpath stat slack arg
        ≡ first_dir stat arg (at_last stat arg last slack) ds
  unfolding search_path
  search_path-first_dir home realpath ds last slack plain all fits = rw plain (
      search_from-first_dir (suc (length (path_of ds last ++ slack ∷ []))) ds last slack all fits
        (omega (arith, length-path_of ds last slack)))
