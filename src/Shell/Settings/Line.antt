-- ===== src/Shell/Settings/Line.antt =====
-- shell/settings.c: a line of the file, its end included, and what is cut from it.
use ardopb.Base.{
  ℕ, zero, suc, ◌≤◌, ◌<◌, ◌≡◌, refl, arith, some, List, [], ◌∷◌, ◌++◌, length, ◌==◌, Bool-cases,
  inl, inr,
}
use ardopb.Shell.Settings.{is_space, trim_left, keep, trim_right, trim}
use ardopb.Shell.Settings.File.{strchr, fgets}
use ardopb.Shell.Settings.Trim.{Lacks, keep-Lacks}

-- A text with no end of line but at its end.
abbrev pub IsLine : List ℕ → Type 0
IsLine [] = Unit
IsLine (c ∷ cs) = (c ≡ b'\n' → cs ≡ []) × IsLine cs

-- Its parts are such texts.
module _ (c : ℕ) where
  strchr-nothing : (xs : List ℕ) → xs ≡ [] → (strchr c xs).0 ≡ []
  unfolding strchr
  strchr-nothing xs h = rw h refl

  pub strchr-IsLine : (xs : List ℕ) → IsLine xs → IsLine (strchr c xs).0
  unfolding strchr
  strchr-IsLine [] h = tt
  strchr-IsLine (x ∷ xs) h = elim (Bool-cases (x == c)) [
    | inl e ↦ rw e tt
    | inr e ↦ rw e ((λ nl. strchr-nothing xs (h.0 nl)), strchr-IsLine xs h.1)
  ]

  -- What lacks a character before the first NUL or comment sign still does.
  pub strchr-keeps_Lacks : (d : ℕ) (xs : List ℕ) → Lacks d xs → Lacks d (strchr c xs).0
  unfolding strchr
  strchr-keeps_Lacks d [] h = tt
  strchr-keeps_Lacks d (x ∷ xs) h = elim (Bool-cases (x == c)) [
    | inl e ↦ rw e tt
    | inr e ↦ rw e (h.0, strchr-keeps_Lacks d xs h.1)
  ]

  pub strchr-behind_Lacks :
      (d : ℕ) (xs ys : List ℕ) → Lacks d xs → (strchr c xs).1 ≡ some ys → Lacks d ys
  unfolding strchr
  strchr-behind_Lacks d [] ys h e = absurd (cc e)
  strchr-behind_Lacks d (x ∷ xs) ys h e = elim (Bool-cases (x == c)) [
    | inl k ↦
        (let same : some xs ≡ some ys = ground (arith, k, e) in
          let ys_xs : ys ≡ xs = cc same in rw ys_xs h.1)
    | inr k ↦ strchr-behind_Lacks d xs ys h.1 (ground (arith, k, e))
  ]

trim_left-IsLine : (xs : List ℕ) → IsLine xs → IsLine (trim_left xs)
unfolding trim_left
trim_left-IsLine [] h = tt
trim_left-IsLine (c ∷ cs) h = elim (Bool-cases (is_space c)) [
  | inl e ↦ rw e (trim_left-IsLine cs h.1)
  | inr e ↦ rw e h
]

keep-newline :
    (c : ℕ) (cs : List ℕ)
    → (c ≡ b'\n' → cs ≡ [])
    → Lacks b'\n' (trim_right cs)
    → Lacks b'\n' (keep c (trim_right cs))
unfolding keep trim_right is_space
keep-newline c [] h l = ground arith
keep-newline c (d ∷ ds) h l = keep-Lacks b'\n' c (trim_right (d ∷ ds)) (λ e. absurd (cc (h e))) l

trim_right-IsLine : (xs : List ℕ) → IsLine xs → Lacks b'\n' (trim_right xs)
unfolding trim_right
trim_right-IsLine [] h = tt
trim_right-IsLine (c ∷ cs) h = keep-newline c cs h.0 (trim_right-IsLine cs h.1)

pub trim-IsLine : (xs : List ℕ) → IsLine xs → Lacks b'\n' (trim xs)
unfolding trim
trim-IsLine xs h = trim_right-IsLine (trim_left xs) (trim_left-IsLine xs h)

-- What `fgets` reads is a line.
pub fgets-IsLine : (room : ℕ) (file : List ℕ) → IsLine (fgets room file).0
unfolding fgets
fgets-IsLine zero file = tt
fgets-IsLine (suc room) [] = tt
fgets-IsLine (suc room) (c ∷ cs) = elim (Bool-cases (c == b'\n')) [
  | inl e ↦ rw e ((λ nl. refl), tt)
  | inr e ↦ rw e ((λ nl. absurd (ground (arith, e, nl))), fgets-IsLine room cs)
]

pub fgets-line :
    (room : ℕ) (line rest : List ℕ)
    → Lacks b'\n' line
    → length line < room
    → fgets room (line ++ b'\n' ∷ rest) ≡ (line ++ b'\n' ∷ [], rest)
unfolding fgets
fgets-line zero line rest h k = absurd (omega arith)
fgets-line (suc room) [] rest h k = ground arith
fgets-line (suc room) (c ∷ cs) rest h k =
    ground (arith, h.0, fgets-line room cs rest h.1 (omega arith))

-- A line is at least one character of what is left of the file.
fgets-shorter : (room : ℕ) (file : List ℕ) → length (fgets room file).1 ≤ length file
unfolding fgets
fgets-shorter zero file = omega arith
fgets-shorter (suc room) [] = omega arith
fgets-shorter (suc room) (c ∷ cs) = grind (arith, fgets-shorter room cs)

pub fgets-progress :
    (room c : ℕ) (cs : List ℕ) → length (fgets (suc room) (c ∷ cs)).1 < length (c ∷ cs)
unfolding fgets
fgets-progress room c cs = grind (arith, fgets-shorter room cs)
