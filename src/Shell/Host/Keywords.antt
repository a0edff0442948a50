-- ===== src/Shell/Host/Keywords.antt =====
-- The words that a fault and a command begin with.
use ardopb.Base.{
  ℕ, ◌≡◌, ◌∙◌, inl, inr, refl, arith, Bool, true, false, some, List, [], ◌∷◌, ◌++◌, take, text,
  bytes_eq, ◌==◌, not, ◌||◌, ◌&&◌, length, bytes_eq_sound, Bool-cases,
}
use mathlib.Core.List.{append-nil}
use ardopb.Shell.Host.{split_line, cut_at_space, to_upper}
use ardopb.Shell.Host.Actions.{Keyword, my_aux, find_keyword, keywords}
use ardopb.Shell.Host.Replies.{is_fault}

-- Whether two texts differ at a place that both have.
differs : List ℕ → List ℕ → Bool
differs [] ys = false
differs (x ∷ xs) [] = false
differs (x ∷ xs) (y ∷ ys) = not (x == y) || differs xs ys

differs-append :
    (xs ys rest : List ℕ)
    → differs xs ys ≡ true
    → bytes_eq (take (length ys) (xs ++ rest)) ys ≡ false
unfolding differs bytes_eq
differs-append [] ys rest h = cc
differs-append (x ∷ xs) [] rest h = cc
differs-append (x ∷ xs) (y ∷ ys) rest h = ground (arith, differs-append xs ys rest)

-- No keyword begins like a fault.
all_differ : List (List ℕ × Keyword) → Bool
unfolding differs
all_differ [] = true
all_differ ((name, k) ∷ rest) = differs name (text "FAULT") && all_differ rest

find_keyword-all_differ :
    (word : List ℕ) (table : List (List ℕ × Keyword)) (k : Keyword)
    → all_differ table ≡ true
    → find_keyword word table ≡ some k
    → (s : List ℕ) → is_fault (word ++ s) ≡ false
unfolding find_keyword all_differ is_fault text
find_keyword-all_differ word [] k plain h s = cc
find_keyword-all_differ word ((name, j) ∷ rest) k plain h s =
    elim (Bool-cases (bytes_eq word name)) [
      | inl e ↦
          rw (bytes_eq_sound word name e)
            (differs-append name (text "FAULT") s (ground (arith, plain)))
      | inr e ↦ find_keyword-all_differ word rest k (ground (arith, plain)) (rw e at h) s
    ]

pub find_keyword-plain :
    (word : List ℕ) (k : Keyword)
    → find_keyword word keywords ≡ some k
    → (s : List ℕ) → is_fault (word ++ s) ≡ false
unfolding keywords all_differ differs text
find_keyword-plain word k = find_keyword-all_differ word keywords k refl

pub fault_shape : (s : List ℕ) → is_fault s ≡ true → (w : List ℕ) × (s ≡ 70 ∷ 65 ∷ 85 ∷ 76 ∷ 84 ∷ w)
unfolding is_fault text
fault_shape [] h = cc
fault_shape (a ∷ []) h = ground arith
fault_shape (a ∷ b ∷ []) h = ground arith
fault_shape (a ∷ b ∷ c ∷ []) h = ground arith
fault_shape (a ∷ b ∷ c ∷ d ∷ []) h = ground arith
fault_shape (a ∷ b ∷ c ∷ d ∷ e ∷ w) h = (w, ground arith)

split_line-fault : (w : List ℕ) → is_fault (split_line (70 ∷ 65 ∷ 85 ∷ 76 ∷ 84 ∷ w)).0 ≡ true
unfolding is_fault text split_line cut_at_space to_upper
split_line-fault w = refl

pub found-plain :
    (orig : List ℕ) (k : Keyword)
    → find_keyword (split_line orig).0 keywords ≡ some k
    → is_fault orig ≡ false
found-plain orig k h = elim (Bool-cases (is_fault orig)) [
  | inl e ↦
      let shape = fault_shape orig e in
      let word = (split_line orig).0 in
      let faulty : is_fault word ≡ true = rw shape.1 (split_line-fault shape.0) in
      let plain = find_keyword-plain word k h [] in absurd (cc (faulty, plain, append-nil word))
  | inr e ↦ e
]

abbrev is_my_aux : Keyword → Bool
is_my_aux k = elim k [ my_aux ↦ true | _ ↦ false ]

-- No other word than MYAUX stands for its keyword.
names_my_aux : List (List ℕ × Keyword) → Bool
names_my_aux [] = true
names_my_aux ((name, k) ∷ rest) =
    (not (is_my_aux k) || bytes_eq name (text "MYAUX")) && names_my_aux rest

find_keyword-names_my_aux :
    (word : List ℕ) (table : List (List ℕ × Keyword)) (k : Keyword)
    → names_my_aux table ≡ true
    → is_my_aux k ≡ true
    → find_keyword word table ≡ some k
    → word ≡ text "MYAUX"
unfolding find_keyword names_my_aux
find_keyword-names_my_aux word [] k n a h = absurd (cc h)
find_keyword-names_my_aux word ((name, j) ∷ rest) k n a h = elim (Bool-cases (bytes_eq word name)) [
  | inl e ↦
      let found : some j ≡ some k = rw e at h in
      let same : j ≡ k = cc found in
      let aux : is_my_aux j ≡ true = rw same a in
      bytes_eq_sound word name e ∙ bytes_eq_sound name (text "MYAUX") (ground (arith, n, aux))
  | inr e ↦ find_keyword-names_my_aux word rest k (ground (arith, n)) a (rw e at h)
]

pub find_keyword-my_aux :
    (word : List ℕ) → find_keyword word keywords ≡ some my_aux → word ≡ text "MYAUX"
unfolding keywords names_my_aux text bytes_eq
find_keyword-my_aux word h = find_keyword-names_my_aux word keywords my_aux refl refl h
