-- ===== src/Mycp/Copy.antt =====
-- `main` of mycp/mycp.c. The system calls are a parameter, and so are the first characters of the lines
-- of the terminal; where these end, the question is asked without end. A read that fails makes the
-- `write` behind it fail, whose length is then -1. What is printed is left out.
use unix_sys_prog.Base.{
  ℕ, zero, suc, ◌+◌, Bool, true, false, not, List, [], ◌∷◌, Option, none, some, Cmd, out_of_fuel,
  pure, get, put, modify, ◌>>=◌, ◌>>◌, ◌==◌, ltb, leb, int_limit, crash, if◌then◌else◌, length,
}

abbrev pub Text : Type 0
Text = List ℕ

-- `open` with `O_CREAT | O_EXCL`.
pub data Created (W : Type 0) : Type 0 where
  created : ℕ → W → Created W
  exists : Created W
  refused : Created W

pub record System (W : Type 0) : Type 0 where
  pub open_read : Text → W → Option (ℕ × W)
  pub open_new : Text → W → Created W
  pub open_over : Text → W → Option (ℕ × W)
  pub fstat : ℕ → W → Option ℕ
  -- `read` of READBLK bytes, one
  pub read : ℕ → W → Option (Text × W)
  pub write : ℕ → Text → W → Option W
  pub close : ℕ → W → W

-- The answer to the question whether to overwrite; nothing where the input ends.
unfoldable pub overwrite : List ℕ → Option Bool
overwrite [] = none
overwrite (c ∷ cs) = if c == b'y' then some true else if c == b'n' then some false else overwrite cs

module _ {W : Type 0} (sys : System W) where
  abbrev pub close : ℕ → Cmd W (Unit {0})
  close fd = modify (sys.close fd)

  -- Both files are closed, and the result is given.
  abbrev pub finish : ℕ → ℕ → Bool → Cmd W Bool
  finish fd1 fd2 result = do close fd1; close fd2; pure result

  -- The loop that copies, from the offset `pos`, an `int`.
  unfoldable pub copy_blocks : ℕ → ℕ → ℕ → ℕ → ℕ → Cmd W Bool
  copy_blocks fd1 fd2 zero size pos = λ _. out_of_fuel
  copy_blocks fd1 fd2 (suc fuel) size pos = if not (ltb pos size) then finish fd1 fd2 true else do
    w ← get
    elim (sys.read fd1 w) [
      | none ↦ finish fd1 fd2 false
      | some block ↦ elim (sys.write fd2 block.0 block.1) [
        | none ↦ do put block.1; finish fd1 fd2 false
        | some w' ↦ do
          put w'
          if leb int_limit (pos + length block.0)
              then crash
              else copy_blocks fd1 fd2 fuel size (pos + length block.0)
      ]
    ]

  unfoldable pub copy : ℕ → ℕ → ℕ → Cmd W Bool
  copy fuel fd1 fd2 = do
    w ← get
    elim (sys.fstat fd1 w) [
      | none ↦ finish fd1 fd2 false
      | some size ↦ copy_blocks fd1 fd2 fuel size 0
    ]

  -- The file exists: the user is asked.
  unfoldable pub open_existing : ℕ → Text → ℕ → Option Bool → Cmd W Bool
  open_existing fuel dst fd1 none = λ _. out_of_fuel
  open_existing fuel dst fd1 (some false) = do close fd1; pure false
  open_existing fuel dst fd1 (some true) = do
    w ← get
    elim (sys.open_over dst w) [
      | none ↦ pure false
      | some file ↦ do put file.1; copy fuel fd1 file.0
    ]

  -- Everything after the source is open.
  unfoldable pub copy_to : ℕ → Text → List ℕ → ℕ → Cmd W Bool
  copy_to fuel dst answers fd1 = do
    w ← get
    elim (sys.open_new dst w) [
      | created fd2 w' ↦ do put w'; copy fuel fd1 fd2
      | exists ↦ open_existing fuel dst fd1 (overwrite answers)
      | refused ↦ pure false
    ]

  -- `main`; the result is whether it returns 0.
  unfoldable pub mycp : ℕ → List Text → List ℕ → Cmd W Bool
  mycp fuel (command ∷ src ∷ dst ∷ []) answers = do
    w ← get
    elim (sys.open_read src w) [
      | none ↦ pure false
      | some file ↦ do put file.1; copy_to fuel dst answers file.0
    ]
  mycp fuel _ answers = pure false
