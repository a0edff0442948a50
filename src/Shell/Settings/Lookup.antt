-- ===== src/Shell/Settings/Lookup.antt =====
-- shell/settings.c: a setting that was set is found, and the others stay as they were.
use ardopb.Base.{
  ℕ, suc, ◌≡◌, ◌≢◌, refl, sym, ◌∙◌, ap, arith, true, false, Option, none, some, List, [], ◌∷◌, ◌++◌,
  length, get_elem?, leb, ◌==◌, ◌||◌, bytes_eq, bytes_eq_sound, snprintf, if◌then◌else◌, Bool-cases,
  inl, inr,
}
use ardopb.Shell.Settings.{
  Setting, Settings, key_max, value_max, settings_max, keys, find_key, get, replace_value,
  set_value,
}
use ardopb.Shell.Settings.Store.{set_fits}

bytes_eq_refl : (xs : List ℕ) → bytes_eq xs xs ≡ true
unfolding bytes_eq
bytes_eq_refl [] = refl
bytes_eq_refl (x ∷ xs) = ground (arith, bytes_eq_refl xs)

-- The value at a key, in the order of the items.
lookup : List Setting → List ℕ → Option (List ℕ) → Option (List ℕ)
lookup [] key fallback = fallback
lookup (e ∷ es) key fallback =
    let later = lookup es key fallback in if bytes_eq e.key key then some e.value else later

value_at : Option Setting → Option (List ℕ) → Option (List ℕ)
value_at found fallback = elim found [ none ↦ fallback | some e ↦ some e.value ]

module _ (key : List ℕ) (fallback : Option (List ℕ)) where
  value_at-find :
      (es : List Setting)
      → value_at (get_elem? es (find_key (keys es) key)) fallback ≡ lookup es key fallback
  unfolding find_key lookup value_at
  value_at-find [] = refl
  value_at-find (e ∷ es) = elim (Bool-cases (bytes_eq e.key key)) [
    | inl h ↦ rw h refl
    | inr h ↦ rw h (value_at-find es)
  ]

  get-lookup : (s : Settings) → get s key fallback ≡ lookup s.item key fallback
  unfolding get value_at
  get-lookup s = value_at-find s.item

other_key : (a b c : List ℕ) → bytes_eq a b ≡ false → bytes_eq a c ≡ true → bytes_eq b c ≡ false
other_key a b c h k = elim (Bool-cases (bytes_eq b c)) [
  | inr e ↦ e
  | inl e ↦
      let same : a ≡ b = bytes_eq_sound a c k ∙ sym (bytes_eq_sound b c e) in
      absurd (cc (h, ap (λ x. bytes_eq x b) same, bytes_eq_refl b))
]

-- The item at the index of a key is replaced, or a new one is put at the end.
module _ (key value : List ℕ) (fallback : Option (List ℕ)) where
  abbrev updated : List ℕ → Option (List ℕ) → Option (List ℕ)
  updated k old = if bytes_eq key k then some (snprintf value_max value) else old

  -- An item in front with another key.
  updated_behind :
      (e : Setting) (k : List ℕ) (new old : Option (List ℕ))
      → bytes_eq e.key key ≡ false
      → new ≡ updated k old
      → (if bytes_eq e.key k then some e.value else new)
        ≡ updated k (if bytes_eq e.key k then some e.value else old)
  updated_behind e k new old h n = elim (Bool-cases (bytes_eq e.key k)) [
    | inl same ↦ rw (same, other_key e.key key k h same) refl
    | inr other ↦ rw other n
  ]

  lookup-replace :
      (es : List Setting) (k : List ℕ)
      → find_key (keys es) key ≢ length es
      → lookup (replace_value (find_key (keys es) key) value es) k fallback
        ≡ updated k (lookup es k fallback)
  unfolding find_key lookup replace_value
  lookup-replace [] k h = absurd (h refl)
  lookup-replace (e ∷ es) k h = elim (Bool-cases (bytes_eq e.key key)) [
    | inl same ↦
        (let n : e.key ≡ key = bytes_eq_sound e.key key same in
          rw (same, n)
            (elim (Bool-cases (bytes_eq key k)) [ inl j ↦ rw j refl | inr j ↦ rw j refl ]))
    | inr other ↦
        rw other (updated_behind e k _ _ other (lookup-replace es k (λ q. h (rw other (ap suc q)))))
  ]

  lookup-append :
      (es : List Setting) (k : List ℕ) (e : Setting)
      → e.key ≡ key
      → e.value ≡ snprintf value_max value
      → find_key (keys es) key ≡ length es
      → lookup (es ++ e ∷ []) k fallback ≡ updated k (lookup es k fallback)
  unfolding find_key lookup
  lookup-append [] k e n v h = rw (n, v) refl
  lookup-append (x ∷ xs) k e n v h = elim (Bool-cases (bytes_eq x.key key)) [
    | inl same ↦ absurd (ground (arith, same, h))
    | inr other ↦ updated_behind x k _ _ other (lookup-append xs k e n v (ground (arith, other, h)))
  ]

-- A setting that was set is found under its key, and every other key has the value that it had.
pub get-set_value :
    (s : Settings) (key value k : List ℕ) (fallback : Option (List ℕ))
    → (set_value key value s).1 ≡ true
    → get (set_value key value s).0 k fallback
      ≡ (if bytes_eq key k then some value else get s k fallback)
unfolding set_value
get-set_value s key value k fallback done =
    elim (Bool-cases
      ((length key == 0) || leb key_max (length key) || leb value_max (length value))) [
        | inl bad ↦ absurd (ground (arith, bad, done))
        | inr good ↦
            let fit : snprintf value_max value ≡ value =
              set_fits value_max value (ground (arith, good)) in
            let same : updated key value fallback k (lookup s.item k fallback)
                ≡ (if bytes_eq key k then some value else get s k fallback) =
              rw (fit, get-lookup k fallback s) refl in
            elim (Bool-cases (find_key (keys s.item) key == length s.item)) [
              | inr known ↦
                  rw (good, known)
                    (get-lookup k fallback _
                      ∙ lookup-replace key value fallback s.item k
                          (λ e. absurd (ground (arith, known, e)))
                      ∙ same)
              | inl new ↦ elim (Bool-cases (leb settings_max (length s.item))) [
                | inl full ↦ absurd (ground (arith, good, new, full, done))
                | inr room ↦
                    rw (good, new, room)
                      (get-lookup k fallback _
                        ∙ lookup-append key value fallback s.item k
                            (record {
                              key = snprintf key_max key;
                              value = snprintf value_max value;
                            })
                            (set_fits key_max key (ground (arith, good))) refl (ground (arith, new))
                        ∙ same)
              ]
            ]
      ]
