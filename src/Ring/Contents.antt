-- ===== src/Ring/Contents.antt =====
-- What a copy in and a copy out do to the cells between the two counters.
use native.Mathlib.Nat.{add-mod_right}
use ardopb.Base.{
  le_or_lt, ℕ, ◌+◌, ◌-◌, ◌%◌, ◌≤◌, ◌<◌, ◌≡◌, inl, inr, refl, ap, sym, ◌∙◌, arith, List, ◌++◌,
  length, get_elem?, length-append, get_elem?-append_left, get_elem?-append_right, same_cells,
}
use ardopb.Ring.{put, get}
use ardopb.Ring.Copy.{in_round, length-put, put_inside, put_outside, length-get, get_cell}

module _ {ℓ} {A : Type ℓ} where
  same_up_to :
      (n : ℕ) (xs ys : List A)
      → length xs ≡ n
      → length ys ≡ n
      → ((i : ℕ) → i < n → get_elem? xs i ≡ get_elem? ys i)
      → xs ≡ ys
  same_up_to n xs ys h k e = same_cells xs ys (omega arith) (λ i b. e i (omega arith))

module _ {ℓ} {A : Type ℓ} (cap r k : ℕ) (src buf : List A) where
  -- The cells in use are behind those written, one round on.
  used_cell :
      (i : ℕ)
      → length buf ≡ cap
      → k + length src ≤ cap
      → i < k
      → get_elem? (put cap (r + k) src buf) ((r + i) % cap) ≡ get_elem? buf ((r + i) % cap)
  used_cell i l h b =
      rw e (put_outside cap (r + k) src buf (cap - k + i) l (omega arith) (omega arith))
    where
      e : (r + i) % cap ≡ (r + k + (cap - k + i)) % cap
      e = sym (add-mod_right (r + i) cap) ∙ ap (λ (j : ℕ). j % cap) (omega arith)

  new_cell :
      (i : ℕ)
      → length buf ≡ cap
      → k + length src ≤ cap
      → k ≤ i
      → i < k + length src
      → get_elem? (put cap (r + k) src buf) ((r + i) % cap) ≡ get_elem? src (i - k)
  new_cell i l h b c = rw e (put_inside cap (r + k) src buf (i - k) l (omega arith) (omega arith))
    where
      e : (r + i) % cap ≡ (r + k + (i - k)) % cap
      e = ap (λ (j : ℕ). j % cap) (omega arith)

module _ {ℓ} {A : Type ℓ} (cap r k : ℕ) (src buf : List A) where
  length-put_at :
      length buf ≡ cap → 0 < cap → k + length src ≤ cap → length (put cap (r + k) src buf) ≡ cap
  length-put_at l z h = length-put cap (r + k) src buf l (omega arith) (in_round cap (r + k) z)

  -- A copy in behind the cells in use disturbs no part of them.
  pub get-put_before :
      (n : ℕ)
      → length buf ≡ cap
      → 0 < cap
      → k + length src ≤ cap
      → n ≤ k
      → get cap r n (put cap (r + k) src buf) ≡ get cap r n buf
  get-put_before n l z h c =
      same_up_to n _ _ (length-get cap r n _ (length-put_at l z h) (omega arith) (in_round cap r z))
        (length-get cap r n buf l (omega arith) (in_round cap r z))
        λ i b.
          get_cell cap r n _ i (length-put_at l z h) (omega arith) b
          ∙ used_cell cap r k src buf i l h (omega arith)
          ∙ sym (get_cell cap r n buf i l (omega arith) b)

  -- And is appended to them.
  pub get-put :
      length buf ≡ cap
      → 0 < cap
      → k + length src ≤ cap
      → get cap r (k + length src) (put cap (r + k) src buf) ≡ get cap r k buf ++ src
  get-put l z h =
      same_up_to (k + length src) _ _
        (length-get cap r (k + length src) _ (length-put_at l z h) h (in_round cap r z))
        (omega (arith, length-append (get cap r k buf) src, held))
        λ i b. get_cell cap r (k + length src) _ i (length-put_at l z h) h b ∙ elim (le_or_lt k i) [
          | inr old ↦
              used_cell cap r k src buf i l h old
              ∙ sym (get_cell cap r k buf i l (omega arith) old)
              ∙ sym (get_elem?-append_left (get cap r k buf) src i (omega (arith, held)))
          | inl new ↦
              new_cell cap r k src buf i l h new b
              ∙ sym (get_elem?-append_right (get cap r k buf) src i (i - k) (omega (arith, held)))
        ]
    where
      held : length (get cap r k buf) ≡ k
      held = length-get cap r k buf l (omega arith) (in_round cap r z)

module _ {ℓ} {A : Type ℓ} (cap at : ℕ) (src buf : List A) where
  -- What is copied in is copied out again.
  pub get-put_self :
      length buf ≡ cap
      → 0 < cap
      → length src ≤ cap
      → get cap at (length src) (put cap at src buf) ≡ src
  get-put_self l z h =
      same_up_to (length src) _ _ (length-get cap at (length src) _ kept h (in_round cap at z)) refl
        λ i b. get_cell cap at (length src) _ i kept h b ∙ put_inside cap at src buf i l h b
    where
      kept : length (put cap at src buf) ≡ cap
      kept = length-put cap at src buf l h (in_round cap at z)

module _ {ℓ} {A : Type ℓ} (cap r n k : ℕ) (buf : List A) where
  -- A copy out may be made in two parts.
  pub get_split :
      length buf ≡ cap
      → 0 < cap
      → n + k ≤ cap
      → get cap r (n + k) buf ≡ get cap r n buf ++ get cap (r + n) k buf
  get_split l z h =
      same_up_to (n + k) _ _ (length-get cap r (n + k) buf l h (in_round cap r z))
        (omega (
          arith,
          length-append (get cap r n buf) (get cap (r + n) k buf),
          first,
          length-get cap (r + n) k buf l (omega arith) (in_round cap (r + n) z),
        ))
        λ i b. get_cell cap r (n + k) buf i l h b ∙ elim (le_or_lt n i) [
          | inr near ↦
              sym (get_cell cap r n buf i l (omega arith) near)
              ∙ sym (get_elem?-append_left (get cap r n buf) _ i (omega (arith, first)))
          | inl far ↦
              ap (λ j. get_elem? buf (j % cap)) (omega arith)
              ∙ sym (get_cell cap (r + n) k buf (i - n) l (omega arith) (omega arith))
              ∙ sym (get_elem?-append_right (get cap r n buf) _ i (i - n) (omega (arith, first)))
        ]
    where
      first : length (get cap r n buf) ≡ n
      first = length-get cap r n buf l (omega arith) (in_round cap r z)
