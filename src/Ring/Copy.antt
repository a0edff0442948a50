-- ===== src/Ring/Copy.antt =====
-- What the copies do, cell by cell.
use native.Mathlib.Nat.{mod-add-mod, mod-eq_of_lt, mod-eq-sub-mod, mod-lt}
use ardopb.Base.{
  le_or_lt, ℕ, ◌+◌, ◌-◌, ◌%◌, ◌≤◌, ◌<◌, ◌≡◌, ◌≢◌, inl, inr, refl, ap, sym, ◌∙◌, arith, List, ◌++◌,
  length, take, drop, get_elem?, length-append, length-take, length-drop, get_elem?-append_left,
  get_elem?-append_right, get_elem?-take, get_elem?-drop, take_all, min,
}
use ardopb.Ring.{store, put, get}

module _ {ℓ} {A : Type ℓ} where
  pub length-store :
      (off : ℕ) (xs buf : List A)
      → off + length xs ≤ length buf
      → length (store off xs buf) ≡ length buf
  unfolding store
  length-store off xs buf h = omega (
    arith,
    length-append (take off buf) (xs ++ drop (off + length xs) buf),
    length-append xs (drop (off + length xs) buf),
    length-take off buf,
    length-drop (off + length xs) buf,
  )

  pub store_inside :
      (off i : ℕ) (xs buf : List A)
      → off + length xs ≤ length buf
      → i < length xs
      → get_elem? (store off xs buf) (off + i) ≡ get_elem? xs i
  unfolding store
  store_inside off i xs buf h k =
      get_elem?-append_right (take off buf) _ (off + i) i (omega (arith, length-take off buf))
      ∙ get_elem?-append_left xs (drop (off + length xs) buf) i k

  pub store_inside_first :
      (i : ℕ) (xs buf : List A)
      → 0 + length xs ≤ length buf
      → i < length xs
      → get_elem? (store 0 xs buf) i ≡ get_elem? xs i
  unfolding store
  store_inside_first i xs buf h k = get_elem?-append_left xs (drop (0 + length xs) buf) i k

  pub store_before :
      (off i : ℕ) (xs buf : List A)
      → off + length xs ≤ length buf
      → i < off
      → get_elem? (store off xs buf) i ≡ get_elem? buf i
  unfolding store
  store_before off i xs buf h k =
      get_elem?-append_left (take off buf) _ i (omega (arith, length-take off buf))
      ∙ get_elem?-take off i buf k

  pub store_behind :
      (off i : ℕ) (xs buf : List A)
      → off + length xs ≤ length buf
      → off + length xs ≤ i
      → get_elem? (store off xs buf) i ≡ get_elem? buf i
  unfolding store
  store_behind off i xs buf h k =
      get_elem?-append_right (take off buf) _ i (i - off) (omega (arith, length-take off buf))
      ∙ get_elem?-append_right xs _ (i - off) (i - off - length xs) (omega arith)
      ∙ get_elem?-drop (off + length xs) (i - off - length xs) buf
      ∙ ap (λ j. get_elem? buf j) (omega arith)

-- The index of a counter that is less than one round ahead.
mod_before_end : (cap at k : ℕ) → at % cap + k < cap → (at + k) % cap ≡ at % cap + k
mod_before_end cap at k h = sym (mod-add-mod at cap k) ∙ mod-eq_of_lt h

mod_past_end : (cap at k : ℕ) → k < cap → cap ≤ at % cap + k → (at + k) % cap ≡ at % cap + k - cap
mod_past_end cap at k h e =
    sym (mod-add-mod at cap k)
    ∙ mod-eq-sub-mod e
    ∙ mod-eq_of_lt (omega (arith, mod-lt at {m = cap} (omega arith)))

-- A copy in is one run, or two where it goes past the end.
module _ {ℓ} {A : Type ℓ} (cap at : ℕ) (src buf : List A) where
  put_flat :
      length src ≢ 0 → at % cap + length src ≤ cap → put cap at src buf ≡ store (at % cap) src buf
  unfolding put
  put_flat z h = ground (arith, take_all (min (cap - at % cap) (length src)) src (omega arith))

  put_wrapped :
      cap < at % cap + length src
      → at % cap ≤ cap
      → put cap at src buf
        ≡ store 0 (drop (cap - at % cap) src) (store (at % cap) (take (cap - at % cap) src) buf)
  unfolding put
  put_wrapped h k = rw e (ground arith)
    where
      e : min (cap - at % cap) (length src) ≡ cap - at % cap
      e = omega arith

  put_empty : length src ≡ 0 → put cap at src buf ≡ buf
  unfolding put
  put_empty z = ground arith

-- The first of two runs fills the buffer to its end.
module _ {ℓ} {A : Type ℓ} (cap at : ℕ) (src buf : List A) where
  length-first_run :
      cap < at % cap + length src → length (take (cap - at % cap) src) ≡ cap - at % cap
  length-first_run w = omega (arith, length-take (cap - at % cap) src)

  length-second_run : length (drop (cap - at % cap) src) ≡ length src - (cap - at % cap)
  length-second_run = length-drop (cap - at % cap) src

  length-after_first :
      cap < at % cap + length src
      → length buf ≡ cap
      → at % cap < cap
      → length (store (at % cap) (take (cap - at % cap) src) buf) ≡ cap
  length-after_first w l o = length-store (at % cap) _ buf (omega (arith, length-first_run w)) ∙ l

-- An index is inside a buffer that is not empty.
pub in_round : (cap at : ℕ) → 0 < cap → at % cap < cap
in_round cap at h = mod-lt at h

module _ {ℓ} {A : Type ℓ} (cap at : ℕ) (src buf : List A) where
  pub length-put :
      length buf ≡ cap → length src ≤ cap → at % cap < cap → length (put cap at src buf) ≡ cap
  length-put l h o = elim (le_or_lt (at % cap + length src) cap) [
    | inr wraps ↦ rw (put_wrapped cap at src buf wraps (omega arith)) (
        omega (
          arith,
          length-store 0 (drop (cap - at % cap) src)
              (store (at % cap) (take (cap - at % cap) src) buf),
          length-after_first cap at src buf wraps l o,
          length-second_run cap at src buf,
        ))
    | inl flat ↦ elim (le_or_lt (length src) 0) [
      | inl none ↦ rw (put_empty cap at src buf (omega arith)) l
      | inr some ↦
          rw (put_flat cap at src buf (omega arith) flat)
            (omega (arith, length-store (at % cap) src buf))
    ]
  ]

  -- A copy in writes the cells from its counter on.
  pub put_inside :
      (i : ℕ)
      → length buf ≡ cap
      → length src ≤ cap
      → i < length src
      → get_elem? (put cap at src buf) ((at + i) % cap) ≡ get_elem? src i
  put_inside i l h k = elim (le_or_lt (at % cap + length src) cap) [
    | inl flat ↦
        rw (put_flat cap at src buf (omega arith) flat, mod_before_end cap at i (omega arith))
          (store_inside (at % cap) i src buf (omega arith) k)
    | inr wraps ↦
        rw (put_wrapped cap at src buf wraps (omega (arith, o)))
          (elim (le_or_lt cap (at % cap + i)) [
            | inr near ↦ rw (mod_before_end cap at i near) (
                store_behind 0 (at % cap + i) _ _
                  (omega (
                    arith,
                    length-second_run cap at src buf,
                    length-after_first cap at src buf wraps l o,
                    o,
                  ))
                  (omega (arith, length-second_run cap at src buf, o))
                ∙ store_inside (at % cap) i (take (cap - at % cap) src) buf
                    (omega (arith, length-first_run cap at src buf wraps, o))
                    (omega (arith, length-first_run cap at src buf wraps, o))
                ∙ get_elem?-take (cap - at % cap) i src (omega arith))
            | inl far ↦ rw (mod_past_end cap at i (omega arith) far) (
                store_inside_first (at % cap + i - cap) _ _
                  (omega (
                    arith,
                    length-second_run cap at src buf,
                    length-after_first cap at src buf wraps l o,
                    o,
                  ))
                  (omega (arith, length-second_run cap at src buf, o))
                ∙ get_elem?-drop (cap - at % cap) (at % cap + i - cap) src
                ∙ ap (λ j. get_elem? src j) (omega (arith, o)))
          ])
  ]
    where
      o : at % cap < cap
      o = mod-lt at (omega arith)

  beside :
      (i : ℕ)
      → length buf ≡ cap
      → length src ≤ i
      → i < cap
      → at % cap + length src ≤ cap
      → get_elem? (store (at % cap) src buf) ((at + i) % cap) ≡ get_elem? buf ((at + i) % cap)
  beside i l h k flat = elim (le_or_lt cap (at % cap + i)) [
    | inr near ↦
        rw (mod_before_end cap at i near)
          (store_behind (at % cap) (at % cap + i) src buf (omega arith) (omega arith))
    | inl far ↦
        rw (mod_past_end cap at i k far)
          (store_before (at % cap) (at % cap + i - cap) src buf (omega arith) (omega arith))
  ]

  -- And it leaves the others of the round.
  pub put_outside :
      (i : ℕ)
      → length buf ≡ cap
      → length src ≤ i
      → i < cap
      → get_elem? (put cap at src buf) ((at + i) % cap) ≡ get_elem? buf ((at + i) % cap)
  put_outside i l h k = elim (le_or_lt (at % cap + length src) cap) [
    | inl flat ↦ elim (le_or_lt (length src) 0) [
      | inl none ↦ rw (put_empty cap at src buf (omega arith)) refl
      | inr some ↦ rw (put_flat cap at src buf (omega arith) flat) (beside i l h k flat)
    ]
    | inr wraps ↦
        rw
          (
            put_wrapped cap at src buf wraps (omega (arith, o)),
            mod_past_end cap at i k (omega arith),
          )
          (store_behind 0 (at % cap + i - cap) _ _
              (omega (
                arith,
                length-second_run cap at src buf,
                length-after_first cap at src buf wraps l o,
                o,
              ))
              (omega (arith, length-second_run cap at src buf, o))
            ∙ store_before (at % cap) (at % cap + i - cap) _ buf
                (omega (arith, length-first_run cap at src buf wraps, o)) (omega arith))
  ]
    where
      o : at % cap < cap
      o = mod-lt at (omega arith)

-- A copy out is one run, or two where it goes past the end.
module _ {ℓ} {A : Type ℓ} (cap at n : ℕ) (buf : List A) where
  get_flat : at % cap + n ≤ cap → get cap at n buf ≡ take n (drop (at % cap) buf)
  unfolding get
  get_flat h = rw e (ground arith)
    where
      e : min (cap - at % cap) n ≡ n
      e = omega arith

  get_wrapped :
      cap < at % cap + n
      → at % cap ≤ cap
      → get cap at n buf
        ≡ take (cap - at % cap) (drop (at % cap) buf) ++ take (n - (cap - at % cap)) buf
  unfolding get
  get_wrapped h k = rw e (ground arith)
    where
      e : min (cap - at % cap) n ≡ cap - at % cap
      e = omega arith

  length-tail_run :
      length buf ≡ cap → length (take (cap - at % cap) (drop (at % cap) buf)) ≡ cap - at % cap
  length-tail_run l =
      omega (arith, length-take (cap - at % cap) (drop (at % cap) buf), length-drop (at % cap) buf)

module _ {ℓ} {A : Type ℓ} (cap at n : ℕ) (buf : List A) where
  pub length-get : length buf ≡ cap → n ≤ cap → at % cap < cap → length (get cap at n buf) ≡ n
  length-get l h o = elim (le_or_lt (at % cap + n) cap) [
    | inl flat ↦
        rw (get_flat cap at n buf flat)
          (omega (arith, length-take n (drop (at % cap) buf), length-drop (at % cap) buf))
    | inr wraps ↦ rw (get_wrapped cap at n buf wraps (omega arith)) (
        omega (
          arith,
          length-append (take (cap - at % cap) (drop (at % cap) buf))
              (take (n - (cap - at % cap)) buf),
          length-tail_run cap at n buf l,
          length-take (n - (cap - at % cap)) buf,
        ))
  ]

  -- A copy out reads the cells from its counter on.
  pub get_cell :
      (i : ℕ)
      → length buf ≡ cap
      → n ≤ cap
      → i < n
      → get_elem? (get cap at n buf) i ≡ get_elem? buf ((at + i) % cap)
  get_cell i l h k = elim (le_or_lt (at % cap + n) cap) [
    | inl flat ↦
        rw (get_flat cap at n buf flat, mod_before_end cap at i (omega arith))
          (get_elem?-take n i _ k ∙ get_elem?-drop (at % cap) i buf)
    | inr wraps ↦
        rw (get_wrapped cap at n buf wraps (omega (arith, o))) (elim (le_or_lt cap (at % cap + i)) [
          | inr near ↦ rw (mod_before_end cap at i near) (
              get_elem?-append_left _ _ i (omega (arith, length-tail_run cap at n buf l))
              ∙ get_elem?-take (cap - at % cap) i _ (omega arith)
              ∙ get_elem?-drop (at % cap) i buf)
          | inl far ↦ rw (mod_past_end cap at i (omega arith) far) (
              get_elem?-append_right _ _ i (at % cap + i - cap)
                (omega (arith, o, length-tail_run cap at n buf l))
              ∙ get_elem?-take (n - (cap - at % cap)) (at % cap + i - cap) buf (omega (arith, o)))
        ])
  ]
    where
      o : at % cap < cap
      o = mod-lt at (omega arith)
