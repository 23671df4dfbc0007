-- ===== src/Mysh/Search.antt =====
-- `search_path` and `normalize_path` of mysh/execline.c: the file that a command's name stands for.
-- `getenv`, `realpath` and `stat` are parameters, and `malloc` succeeds. The copy of PATH is a block of
-- bytes: the text without its zero, and one byte that holds what `malloc` left in it. A read behind
-- that byte is a fault, and so is a write behind the path_max characters of `fullpath` or `relpath`.
use unix_sys_prog.Base.{
  ℕ, zero, suc, ◌+◌, ◌-◌, ◌≡◌, refl, Bool, List, [], ◌∷◌, ◌++◌, Option, none, some, ◌==◌, ltb,
  if◌then◌else◌, length, has, Bool-cases, inl, inr, ◌⊎◌,
}

abbrev pub Text : Type 0
Text = List ℕ

-- `path_max`
abbrev pub path_max : ℕ
path_max = 4096

-- What `search_path` returns: a path, or NULL.
pub data Lookup : Type 0 where
  found : Text → Lookup
  null : Lookup
  fault : Lookup
  out_of_fuel : Lookup

-- What `strchr(p, ':')` and the copy of the name from `p` find in the block: a colon, with the name
-- before it and the bytes behind it; a name that ends with a zero; or the end of the block.
pub data Entry : Type 0 where
  colon : Text → Text → Entry
  last_name : Text → Entry
  overrun : Entry

abbrev pub in_name : ℕ → Entry → Entry
in_name c (colon name rest) = colon (c ∷ name) rest
in_name c (last_name name) = last_name (c ∷ name)
in_name c overrun = overrun

unfoldable pub scan : Text → Entry
scan [] = overrun
scan (c ∷ cs) =
    let later = scan cs in
    if c == b':' then colon [] cs else if c == 0 then last_name [] else in_name c later

abbrev from_option : Option Text → Lookup
from_option none = null
from_option (some path) = found path

module _ (home : Option Text) (realpath : Text → Option Text) where
  unfoldable pub normalize_path : Text → Lookup
  normalize_path [] = from_option (realpath [])
  normalize_path (c ∷ cs) =
      if c == b'~'
      then (elim home [
        | none ↦ null
        | some h ↦
            if ltb (path_max - 1) (length h + length (c ∷ cs))
            then null
            else from_option (realpath (h ++ cs))
      ])
      else from_option (realpath (c ∷ cs))

-- `normalize_path` returns a path or NULL.
abbrev pub Returns : Lookup → Type 0
Returns r = (r ≡ null) ⊎ (full : Text) × (r ≡ found full)

from_option-Returns : (o : Option Text) → Returns (from_option o)
from_option-Returns none = inl refl
from_option-Returns (some full) = inr (full, refl)

pub normalize_path-Returns :
    (home : Option Text) (realpath : Text → Option Text) (p : Text)
    → Returns (normalize_path home realpath p)
unfolding normalize_path
normalize_path-Returns home realpath [] = from_option-Returns (realpath [])
normalize_path-Returns none realpath (c ∷ cs) = elim (Bool-cases (c == b'~')) [
  | inl tilde ↦ rw tilde (inl refl)
  | inr n ↦ rw n (from_option-Returns (realpath (c ∷ cs)))
]
normalize_path-Returns (some h) realpath (c ∷ cs) = elim (Bool-cases (c == b'~')) [
  | inr n ↦ rw n (from_option-Returns (realpath (c ∷ cs)))
  | inl tilde ↦ rw tilde (elim (Bool-cases (ltb (path_max - 1) (length h + length (c ∷ cs)))) [
    | inl long ↦ rw long (inl refl)
    | inr fits ↦ rw fits (from_option-Returns (realpath (h ++ cs)))
  ])
]

-- `strcat` of the name, a slash and `arg`, and `stat` of the result.
abbrev pub try : (Text → Bool) → Text → Lookup → Lookup → Lookup
try stat full there missing =
    if ltb (path_max - 1) (length full) then fault else if stat full then there else missing

module _ (stat : Text → Bool) (arg : Text) where
  -- The loop over the entries of PATH, from the bytes at `p`. The last lines give NULL where no colon
  -- was found.
  unfoldable pub search_from : ℕ → Text → Lookup
  search_from zero p = out_of_fuel
  search_from (suc fuel) p = elim (scan p) [
    | overrun ↦ fault
    | colon name rest ↦
        let full = name ++ b'/' ∷ arg in try stat full (found full) (search_from fuel rest)
    | last_name name ↦ try stat (name ++ b'/' ∷ arg) null null
  ]

-- `slack` is the byte of the copy behind the text.
unfoldable pub search_path :
    Option Text → Option Text → (Text → Option Text) → (Text → Bool) → ℕ → Text → Lookup
search_path path home realpath stat slack arg =
    if has b'/' arg then normalize_path home realpath arg else elim path [
      | none ↦ null
      | some p ↦ search_from stat arg (suc (length (p ++ slack ∷ []))) (p ++ slack ∷ [])
    ]
