-- ===== src/Mycp/Whole.antt =====
-- What the copy command leaves in the destination.
use unix_sys_prog.Base.{
  ℕ, zero, suc, ◌+◌, ◌<◌, ◌≡◌, refl, ap, sym, ◌∙◌, ◌⊎◌, inl, inr, Bool, true, false, List, [], ◌∷◌,
  ◌++◌, some, Run, ok, ltb, leb, int_limit, length, take, drop, take-drop, append_nil,
  nil_of_length, append_assoc, length-drop, length-take, arith, Bool-cases,
}
use unix_sys_prog.Mycp.Copy.{
  Text, created, exists, System, overwrite, copy_blocks, copy, open_existing, copy_to, mycp,
}

module _ {W : Type 0} (sys : System W) where
  -- Two open files: what is left of the one, and what the other holds.
  pub record AreFiles (fd1 fd2 : ℕ) (rest content : W → Text) : Type 0 where
    pub read_one :
        (w : W)
        → 0 < length (rest w)
        → (w' : W) × (sys.read fd1 w ≡ some (take 1 (rest w), w'))
          × (rest w' ≡ drop 1 (rest w))
          × (content w' ≡ content w)
    pub write_all :
        (w : W) (bs : Text)
        → (w' : W) × (sys.write fd2 bs w ≡ some w')
          × (content w' ≡ content w ++ bs)
          × (rest w' ≡ rest w)

  module _ (fd1 fd2 : ℕ) (rest content : W → Text) (files : AreFiles fd1 fd2 rest content) where
    -- All bytes were copied, and both files closed.
    abbrev pub Copied : W → Run W Bool → Type 0
    Copied w run =
        (v : W) × (run ≡ ok true (sys.close fd2 (sys.close fd1 v)))
        × (content v ≡ content w ++ rest w)

    copied_join :
        (w w1 w2 v : W)
        → content v ≡ content w2 ++ rest w2
        → content w2 ≡ content w1 ++ take 1 (rest w)
        → content w1 ≡ content w
        → rest w2 ≡ drop 1 (rest w)
        → content v ≡ content w ++ rest w
    copied_join w w1 w2 v all stored kept left =
        all
        ∙ ap (λ t. t ++ rest w2) (stored ∙ ap (λ t. t ++ take 1 (rest w)) kept)
        ∙ append_assoc (content w) (take 1 (rest w)) (rest w2)
        ∙ ap (λ t. content w ++ t) (ap (λ t. take 1 (rest w) ++ t) left ∙ take-drop 1 (rest w))

    copy_blocks-Copied :
        (fuel size pos : ℕ) (w : W)
        → size ≡ pos + length (rest w)
        → size < int_limit
        → length (rest w) < fuel
        → Copied w (copy_blocks sys fd1 fd2 fuel size pos w)
    unfolding copy_blocks
    copy_blocks-Copied zero size pos w e small lt = absurd (omega arith)
    copy_blocks-Copied (suc fuel) size pos w e small lt = elim (Bool-cases (ltb pos size)) [
      | inr end ↦ (
        w,
        rw end refl,
        sym (append_nil (content w))
            ∙ ap (λ t. content w ++ t) (sym (nil_of_length (rest w) (ground arith))),
      )
      | inl more ↦
          let (w1, read, left, kept) = files.read_one w (ground arith) in
          let (w2, written, stored, same) = files.write_all w1 (take 1 (rest w)) in
          let one : length (take 1 (rest w)) ≡ 1 = length-take 1 (rest w) (ground arith) in
          let no_overflow : leb int_limit (pos + 1) ≡ false = ground arith in
          let size_left : length (rest w2) + 1 ≡ length (rest w) =
            ap (λ t. length t + 1) (same ∙ left) ∙ length-drop 1 (rest w) (ground arith) in
          let (v, run, all) =
            copy_blocks-Copied fuel size (pos + 1) w2 (omega (arith, size_left)) small
              (omega (arith, size_left)) in
          (
            v,
            rw more (rw read (rw written (rw one (rw no_overflow run)))),
            copied_join w w1 w2 v all stored kept (same ∙ left),
          )
    ]

  -- How the destination comes to be open: as a new file, or as an old one that the user lets go.
  abbrev pub Opens : Text → List ℕ → W → ℕ → W → Type 0
  Opens dst answers w fd2 w' =
      (sys.open_new dst w ≡ created fd2 w')
      ⊎ (sys.open_new dst w ≡ exists)
        × (overwrite answers ≡ some true)
        × (sys.open_over dst w ≡ some (fd2, w'))

  -- `mycp SRC DST` copies a file: if the source opens, and the destination as a new file or, after the
  -- answer y, as an old one, then it returns 0, and the destination, which was empty, holds the bytes
  -- of the source, all of them and in their order; both files are closed. The calls on the two
  -- files succeed, they are different files, the source's length fits an int, and the fuel is above
  -- it.
  pub mycp-Copied :
      (fuel fd1 fd2 : ℕ) (rest content : W → Text) (command src dst : Text) (answers : List ℕ)
      (w w1 w2 : W)
      → AreFiles fd1 fd2 rest content
      → sys.open_read src w ≡ some (fd1, w1)
      → Opens dst answers w1 fd2 w2
      → sys.fstat fd1 w2 ≡ some (length (rest w2))
      → length (rest w2) < int_limit
      → content w2 ≡ []
      → length (rest w2) < fuel
      → (v : W) × (mycp sys fuel (command ∷ src ∷ dst ∷ []) answers w
          ≡ ok true (sys.close fd2 (sys.close fd1 v)))
        × (content v ≡ rest w2)
  unfolding mycp copy_to open_existing copy
  mycp-Copied fuel fd1 fd2 rest content command src dst answers w w1 w2 files opened opens size
        small empty enough =
      let (v, run, all) =
        copy_blocks-Copied fd1 fd2 rest content files fuel (length (rest w2)) 0 w2 (omega arith)
          small enough in
      let whole = all ∙ ap (λ t. t ++ rest w2) empty in
      elim opens [
        | inl fresh ↦ (v, rw opened (rw fresh (rw size run)), whole)
        | inr (old, yes_given, over) ↦
            (v, rw opened (rw old (rw yes_given (rw over (rw size run)))), whole)
      ]
