-- ===== src/Mysh/SearchExamples.antt =====
-- A command that stands only in the last directory of PATH, with a zero behind the copy of PATH.
use unix_sys_prog.Base.{◌≡◌, refl, Bool, [], ◌∷◌, none, some, arith}
use unix_sys_prog.Mysh.Search.{Text, null, search_path}
use unix_sys_prog.Mysh.FirstDir.{search_path-first_dir, path_of}
use unix_sys_prog.Args.Strings.{same}

abbrev bin : Text
bin = b'/' ∷ b'b' ∷ b'i' ∷ b'n' ∷ []

abbrev opt : Text
opt = b'/' ∷ b'o' ∷ b'p' ∷ b't' ∷ []

abbrev ls : Text
ls = b'l' ∷ b's' ∷ []

-- The only file.
abbrev in_opt : Text → Bool
in_opt p = same p (b'/' ∷ b'o' ∷ b'p' ∷ b't' ∷ b'/' ∷ b'l' ∷ b's' ∷ [])

search_path-first_dir_example :
    search_path (some (path_of (bin ∷ []) opt)) none (λ p. none) in_opt 0 ls ≡ null
unfolding same
search_path-first_dir_example =
    search_path-first_dir in_opt ls none (λ p. none) (bin ∷ []) opt 0 refl
      ((refl, refl, omega arith), tt) (refl, refl, omega arith)
