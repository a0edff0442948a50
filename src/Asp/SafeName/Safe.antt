-- ===== src/Asp/SafeName/Safe.antt =====
-- A name that is accepted stays in its directory and is written as it is reported.
use mathlib.Core.List.{append_assoc}
use ardopb.Base.{
  ◌⊎◌, ℕ, zero, suc, ◌+◌, ◌-◌, ◌≤◌, ◌≡◌, ◌≢◌, refl, sym, arith, false, some, List, [], ◌∷◌, ◌++◌,
  map, length, take, length-append, length-take, length-map, Bool-cases, inl, inr,
}
use ardopb.Asp.SafeName.{
  is_separator, after_last, scrub, is_edge, keep, trim_start, trim_end, safe_name,
}

abbrev pub All {κ} : (ℕ → Type κ) → List ℕ → Type κ
All P [] = Unit
All P (c ∷ p) = P c × All P p

abbrev NotSeparator : ℕ → Type 0
NotSeparator c = is_separator c ≡ false

-- A character that every file system takes as it is.
abbrev pub IsPlain : ℕ → Type 0
IsPlain c =
    (0x20 ≤ c)
    × (c ≢ 0x7f)
    × (c ≢ b'/')
    × (c ≢ b'\\')
    × (c ≢ b':')
    × (c ≢ b'<')
    × (c ≢ b'>')
    × (c ≢ b'"')
    × (c ≢ b'|')
    × (c ≢ b'?')
    × (c ≢ b'*')

scrub-IsPlain : (c : ℕ) → NotSeparator c → IsPlain (scrub c)
scrub-IsPlain c h = ground (arith, h)

module _ {κ} (P : ℕ → Type κ) where
  All-append : (xs ys : List ℕ) → All P xs → All P ys → All P (xs ++ ys)
  All-append [] ys p q = q
  All-append (x ∷ xs) ys p q = (p.0, All-append xs ys p.1 q)

  All-take : (n : ℕ) (xs : List ℕ) → All P xs → All P (take n xs)
  All-take zero xs p = tt
  All-take (suc n) [] p = tt
  All-take (suc n) (x ∷ xs) p = (p.0, All-take n xs p.1)

after_last-NotSeparator :
    (found p : List ℕ) → All NotSeparator found → All NotSeparator (after_last (found ++ p) p)
unfolding after_last
after_last-NotSeparator found [] h = All-append NotSeparator found [] h tt
after_last-NotSeparator found (c ∷ p) h = elim (Bool-cases (is_separator c)) [
  | inl e ↦ rw e (after_last-NotSeparator [] p tt)
  | inr e ↦
      rw (e, sym (append_assoc found (c ∷ []) p))
        (after_last-NotSeparator (found ++ (c ∷ [])) p
          (All-append NotSeparator found (c ∷ []) h (e, tt)))
]

scrub-All : (xs : List ℕ) → All NotSeparator xs → All IsPlain (map scrub xs)
scrub-All [] h = tt
scrub-All (c ∷ p) h = (scrub-IsPlain c h.0, scrub-All p h.1)

module _ {κ} (P : ℕ → Type κ) where
  trim_start-All : (xs : List ℕ) → All P xs → All P (trim_start xs)
  unfolding trim_start
  trim_start-All [] h = tt
  trim_start-All (c ∷ p) h = elim (Bool-cases (is_edge c)) [
    | inl e ↦ rw e (trim_start-All p h.1)
    | inr e ↦ rw e h
  ]

  trim_end-All : (xs : List ℕ) → All P xs → All P (trim_end xs)
  unfolding trim_end
  trim_end-All [] h = tt
  trim_end-All (c ∷ p) h = kept (trim_end p) (trim_end-All p h.1)
    where
      kept : (q : List ℕ) → All P q → All P (keep c q)
      kept [] k = elim (Bool-cases (is_edge c)) [ inl e ↦ rw e tt | inr e ↦ rw e (h.0, tt) ]
      kept (d ∷ rest) k = (h.0, k)

abbrev pub BeginsWell : List ℕ → Type 0
BeginsWell [] = Unit
BeginsWell (c ∷ p) = is_edge c ≡ false

abbrev pub EndsWell : List ℕ → Type 0
EndsWell [] = Unit
EndsWell (c ∷ []) = is_edge c ≡ false
EndsWell (c ∷ d ∷ rest) = EndsWell (d ∷ rest)

trim_start-BeginsWell : (xs : List ℕ) → BeginsWell (trim_start xs)
unfolding trim_start
trim_start-BeginsWell [] = tt
trim_start-BeginsWell (c ∷ p) = elim (Bool-cases (is_edge c)) [
  | inl e ↦ rw e (trim_start-BeginsWell p)
  | inr e ↦ rw e e
]

keep-BeginsWell : (c : ℕ) (q : List ℕ) → is_edge c ≡ false → BeginsWell (keep c q)
keep-BeginsWell c [] h = rw h h
keep-BeginsWell c (d ∷ rest) h = h

trim_end-BeginsWell : (xs : List ℕ) → BeginsWell xs → BeginsWell (trim_end xs)
unfolding trim_end
trim_end-BeginsWell [] h = tt
trim_end-BeginsWell (c ∷ p) h = keep-BeginsWell c (trim_end p) h

keep-EndsWell : (c : ℕ) (q : List ℕ) → EndsWell q → EndsWell (keep c q)
keep-EndsWell c [] h = elim (Bool-cases (is_edge c)) [ inl e ↦ rw e tt | inr e ↦ rw e e ]
keep-EndsWell c (d ∷ rest) h = h

trim_end-EndsWell : (xs : List ℕ) → EndsWell (trim_end xs)
unfolding trim_end
trim_end-EndsWell [] = tt
trim_end-EndsWell (c ∷ p) = keep-EndsWell c (trim_end p) (trim_end-EndsWell p)

length-trim_start : (xs : List ℕ) → length (trim_start xs) ≤ length xs
unfolding trim_start
length-trim_start [] = omega arith
length-trim_start (c ∷ p) = ground (arith, length-trim_start p)

length-keep : (c : ℕ) (q : List ℕ) → length (keep c q) ≤ suc (length q)
length-keep c [] = ground arith
length-keep c (d ∷ rest) = omega arith

length-trim_end : (xs : List ℕ) → length (trim_end xs) ≤ length xs
unfolding trim_end
length-trim_end [] = omega arith
length-trim_end (c ∷ p) = omega (arith, length-trim_end p, length-keep c (trim_end p))

-- A name for a new file: some plain characters that a buffer has room for, with no dot or space at
-- either end.
pub record IsSafe (cap : ℕ) (name : List ℕ) : Type 0 where
  pub plain : All IsPlain name
  pub begins : BeginsWell name
  pub ends : EndsWell name
  pub some_left : length name ≢ 0
  pub fits : length name + 1 ≤ cap

-- The name before a device's name is told apart.
module _ (name : List ℕ) (cap : ℕ) where
  cleaned : List ℕ
  cleaned = map scrub (take (cap - 1) (after_last name name))

  trimmed : List ℕ
  trimmed = trim_end (trim_start cleaned)

  length-trimmed : length trimmed ≤ cap - 1
  unfolding trimmed cleaned
  length-trimmed = omega (
    arith,
    length-trim_end (trim_start (map scrub (take (cap - 1) (after_last name name)))),
    length-trim_start (map scrub (take (cap - 1) (after_last name name))),
    length-map (take (cap - 1) (after_last name name)) scrub,
    length-take (cap - 1) (after_last name name),
  )

  trimmed-IsSafe : 2 ≤ cap → length trimmed ≢ 0 → IsSafe cap trimmed
  unfolding trimmed cleaned
  trimmed-IsSafe h k = record {
    plain = trim_end-All IsPlain _ (
        trim_start-All IsPlain _
          (scrub-All _ (All-take NotSeparator (cap - 1) _ (after_last-NotSeparator [] name tt))));
    begins = trim_end-BeginsWell _ (trim_start-BeginsWell _);
    ends = trim_end-EndsWell _;
    some_left = k;
    fits = omega (arith, length-trimmed);
  }

  -- What is accepted is this name, or with an underscore.
  safe_name_out :
      (out : List ℕ)
      → safe_name name cap ≡ some out
      → (2 ≤ cap)
        × (length trimmed ≢ 0)
        × ((out ≡ trimmed) ⊎ ((out ≡ trimmed ++ (b'_' ∷ [])) × (length trimmed + 2 ≤ cap)))
  unfolding safe_name trimmed cleaned
  safe_name_out out e = ground (arith, e)

EndsWell-append : (xs : List ℕ) (c : ℕ) → is_edge c ≡ false → EndsWell (xs ++ (c ∷ []))
EndsWell-append [] c h = h
EndsWell-append (x ∷ []) c h = h
EndsWell-append (x ∷ y ∷ xs) c h = EndsWell-append (y ∷ xs) c h

BeginsWell-append :
    (xs : List ℕ) (c : ℕ) → BeginsWell xs → is_edge c ≡ false → BeginsWell (xs ++ (c ∷ []))
BeginsWell-append [] c h k = k
BeginsWell-append (x ∷ xs) c h k = h

underscored-IsSafe :
    (cap : ℕ) (name : List ℕ)
    → IsSafe cap name
    → length name + 2 ≤ cap
    → IsSafe cap (name ++ (b'_' ∷ []))
underscored-IsSafe cap name s h = record {
  plain = All-append IsPlain name (b'_' ∷ []) s.plain (omega arith);
  begins = BeginsWell-append name b'_' s.begins refl;
  ends = EndsWell-append name b'_' refl;
  some_left = omega (arith, length-append name (b'_' ∷ []));
  fits = omega (arith, length-append name (b'_' ∷ []));
}

-- A name that is accepted has only plain characters, no separator of any system among them, neither
-- begins nor ends in a dot or a space, is not empty and fits the buffer.
pub safe_name-IsSafe :
    (name : List ℕ) (cap : ℕ) (out : List ℕ) → safe_name name cap ≡ some out → IsSafe cap out
safe_name-IsSafe name cap out e =
    let o = safe_name_out name cap out e in
    let safe = trimmed-IsSafe name cap o.0 o.1 in
    elim o.2 [
      | inl same ↦ rw same safe
      | inr longer ↦ rw longer.0 (underscored-IsSafe cap (trimmed name cap) safe longer.1)
    ]
