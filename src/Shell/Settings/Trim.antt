-- ===== src/Shell/Settings/Trim.antt =====
-- shell/settings.c: what `trim` and `strchr` leave of a text.
use ardopb.Base.{
  ℕ, ◌≡◌, ◌≢◌, refl, arith, false, none, some, List, [], ◌∷◌, ◌++◌, ◌==◌, Bool-cases, inl, inr,
}
use ardopb.Shell.Settings.{is_space, trim_left, keep, trim_right, trim}
use ardopb.Shell.Settings.File.{strchr}

abbrev pub Lacks : ℕ → List ℕ → Type 0
Lacks c [] = Unit
Lacks c (x ∷ xs) = (x ≢ c) × Lacks c xs

abbrev pub BeginsWell : List ℕ → Type 0
BeginsWell [] = Unit
BeginsWell (c ∷ cs) = is_space c ≡ false

pub record IsTrimmed (s : List ℕ) : Type 0 where
  pub begins_well : BeginsWell s
  pub ends_well : trim_right s ≡ s

keep-append : (c : ℕ) (xs : List ℕ) (d : ℕ) (ds : List ℕ) → keep c (xs ++ d ∷ ds) ≡ c ∷ xs ++ d ∷ ds
unfolding keep
keep-append c [] d ds = refl
keep-append c (x ∷ xs) d ds = refl

keep-plain : (d : ℕ) (q : List ℕ) → is_space d ≡ false → keep d q ≡ d ∷ q
unfolding keep
keep-plain d [] h = rw h refl
keep-plain d (x ∷ xs) h = refl

-- A character that is no space keeps those in front of it.
pub trim_right-append :
    (xs : List ℕ) (d : ℕ) (ds : List ℕ)
    → is_space d ≡ false
    → trim_right (xs ++ d ∷ ds) ≡ xs ++ d ∷ trim_right ds
unfolding trim_right
trim_right-append [] d ds h = keep-plain d (trim_right ds) h
trim_right-append (c ∷ cs) d ds h =
    rw (trim_right-append cs d ds h) (keep-append c cs d (trim_right ds))

pub trim_right-newline : (xs : List ℕ) → trim_right (xs ++ b'\n' ∷ []) ≡ trim_right xs
unfolding trim_right keep is_space
trim_right-newline [] = refl
trim_right-newline (c ∷ cs) = rw (trim_right-newline cs) refl

trim_right-keep : (c : ℕ) (q : List ℕ) → trim_right q ≡ q → trim_right (keep c q) ≡ keep c q
unfolding trim_right keep
trim_right-keep c [] h = elim (Bool-cases (is_space c)) [
  | inl e ↦ rw e refl
  | inr e ↦ rw (e, e) refl
]
trim_right-keep c (d ∷ ds) h = rw h refl

trim_right-twice : (xs : List ℕ) → trim_right (trim_right xs) ≡ trim_right xs
unfolding trim_right
trim_right-twice [] = refl
trim_right-twice (c ∷ cs) = trim_right-keep c (trim_right cs) (trim_right-twice cs)

keep-BeginsWell : (c : ℕ) (q : List ℕ) → is_space c ≡ false → BeginsWell (keep c q)
unfolding keep
keep-BeginsWell c [] h = rw h h
keep-BeginsWell c (d ∷ ds) h = h

trim_right-BeginsWell : (xs : List ℕ) → BeginsWell xs → BeginsWell (trim_right xs)
unfolding trim_right
trim_right-BeginsWell [] h = tt
trim_right-BeginsWell (c ∷ cs) h = keep-BeginsWell c (trim_right cs) h

trim_left-BeginsWell : (xs : List ℕ) → BeginsWell (trim_left xs)
unfolding trim_left
trim_left-BeginsWell [] = tt
trim_left-BeginsWell (c ∷ cs) = elim (Bool-cases (is_space c)) [
  | inl e ↦ rw e (trim_left-BeginsWell cs)
  | inr e ↦ rw e e
]

pub trim_left-same : (xs : List ℕ) → BeginsWell xs → trim_left xs ≡ xs
unfolding trim_left
trim_left-same [] h = refl
trim_left-same (c ∷ cs) h = rw h refl

pub trim-IsTrimmed : (xs : List ℕ) → IsTrimmed (trim xs)
unfolding trim
trim-IsTrimmed xs = record {
  begins_well = trim_right-BeginsWell (trim_left xs) (trim_left-BeginsWell xs);
  ends_well = trim_right-twice (trim_left xs);
}

pub trim-same : (xs : List ℕ) → IsTrimmed xs → trim xs ≡ xs
unfolding trim
trim-same xs h = rw (trim_left-same xs h.begins_well) h.ends_well

-- Characters that a text lacks are lacked by its parts.
module _ (c : ℕ) where
  pub keep-Lacks : (d : ℕ) (q : List ℕ) → d ≢ c → Lacks c q → Lacks c (keep d q)
  unfolding keep
  keep-Lacks d [] h l = elim (Bool-cases (is_space d)) [ inl e ↦ rw e tt | inr e ↦ rw e (h, tt) ]
  keep-Lacks d (x ∷ xs) h l = (h, l)

  trim_left-Lacks : (xs : List ℕ) → Lacks c xs → Lacks c (trim_left xs)
  unfolding trim_left
  trim_left-Lacks [] h = tt
  trim_left-Lacks (d ∷ ds) h = elim (Bool-cases (is_space d)) [
    | inl e ↦ rw e (trim_left-Lacks ds h.1)
    | inr e ↦ rw e h
  ]

  trim_right-Lacks : (xs : List ℕ) → Lacks c xs → Lacks c (trim_right xs)
  unfolding trim_right
  trim_right-Lacks [] h = tt
  trim_right-Lacks (d ∷ ds) h = keep-Lacks d (trim_right ds) h.0 (trim_right-Lacks ds h.1)

  pub trim-Lacks : (xs : List ℕ) → Lacks c xs → Lacks c (trim xs)
  unfolding trim
  trim-Lacks xs h = trim_right-Lacks (trim_left xs) (trim_left-Lacks xs h)

  pub Lacks-append : (xs ys : List ℕ) → Lacks c xs → Lacks c ys → Lacks c (xs ++ ys)
  Lacks-append [] ys h k = k
  Lacks-append (x ∷ xs) ys h k = (h.0, Lacks-append xs ys h.1 k)

  pub strchr-absent : (xs : List ℕ) → Lacks c xs → strchr c xs ≡ (xs, none)
  unfolding strchr
  strchr-absent [] h = refl
  strchr-absent (x ∷ xs) h = ground (arith, h.0, strchr-absent xs h.1)

  pub strchr-first : (xs ys : List ℕ) → Lacks c xs → strchr c (xs ++ c ∷ ys) ≡ (xs, some ys)
  unfolding strchr
  strchr-first [] ys h = ground arith
  strchr-first (x ∷ xs) ys h = ground (arith, h.0, strchr-first xs ys h.1)

  pub strchr-Lacks : (xs : List ℕ) → Lacks c (strchr c xs).0
  unfolding strchr
  strchr-Lacks [] = tt
  strchr-Lacks (x ∷ xs) = elim (Bool-cases (x == c)) [
    | inl e ↦ rw e tt
    | inr e ↦ rw e ((λ same. absurd (ground (arith, e, same))), strchr-Lacks xs)
  ]

-- What is not found is not there.
pub absent-Lacks : (c : ℕ) (xs : List ℕ) → (strchr c xs).1 ≡ none → Lacks c xs
unfolding strchr
absent-Lacks c [] h = tt
absent-Lacks c (x ∷ xs) h = elim (Bool-cases (x == c)) [
  | inl e ↦ absurd (ground (arith, e, h))
  | inr e ↦ ((λ same. absurd (ground (arith, e, same))), absent-Lacks c xs (ground (arith, e, h)))
]
