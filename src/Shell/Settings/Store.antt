-- ===== src/Shell/Settings/Store.antt =====
-- shell/settings.c: what holds of the items in every store that was loaded.
use mathlib.Core.List.{append-nil, append_assoc}
use ardopb.Base.{
  ℕ, zero, suc, ◌-◌, ◌≤◌, ◌<◌, ◌≡◌, ◌≢◌, refl, sym, ◌∙◌, arith, true, false, List, [], ◌∷◌, ◌++◌,
  length, take_all, length-append, length-map, ◌==◌, snprintf, Bool-cases, le_or_lt, inl, inr,
}
use ardopb.Shell.Settings.{
  Setting, Settings, key_max, value_max, settings_max, keys, find_key, replace_value, set_value,
}
use ardopb.Shell.Settings.Trim.{Lacks, IsTrimmed}

-- A value that can stand on a line of the file.
pub record IsValue (s : List ℕ) : Type 0 where
  pub no_nul : Lacks 0 s
  pub no_newline : Lacks b'\n' s
  pub no_comment : Lacks b'#' s
  pub trimmed : IsTrimmed s

pub record IsEntry (key value : List ℕ) : Type 0 where
  pub key_value : IsValue key
  pub value_value : IsValue value
  pub no_equals : Lacks b'=' key
  pub key_ne_nil : length key ≢ 0
  pub key_fits : length key < key_max
  pub value_fits : length value < value_max

abbrev pub All : List Setting → Type 0
All [] = Unit
All (e ∷ es) = IsEntry e.key e.value × All es

-- None of the keys is among those before it.
abbrev pub New : List (List ℕ) → List (List ℕ) → Type 0
New prev [] = Unit
New prev (k ∷ ks) = (find_key prev k ≡ length prev) × New (prev ++ k ∷ []) ks

pub record IsStore (es : List Setting) : Type 0 where
  pub entries : All es
  pub distinct : New [] (keys es)
  pub fits : length es ≤ settings_max

new_value :
    {key old : List ℕ} (value : List ℕ)
    → IsValue value
    → length value < value_max
    → IsEntry key old
    → IsEntry key value
new_value value v f h = record {
  key_value = h.key_value;
  value_value = v;
  no_equals = h.no_equals;
  key_ne_nil = h.key_ne_nil;
  key_fits = h.key_fits;
  value_fits = f;
}

All-append : (es : List Setting) (e : Setting) → All es → IsEntry e.key e.value → All (es ++ e ∷ [])
All-append [] e h k = (k, tt)
All-append (x ∷ xs) e h k = (h.0, All-append xs e h.1 k)

New-append :
    (prev ks : List (List ℕ)) (k : List ℕ)
    → New prev ks
    → find_key (prev ++ ks) k ≡ length (prev ++ ks)
    → New prev (ks ++ k ∷ [])
New-append prev [] k h e = (rw (sym (append-nil prev)) e, tt)
New-append prev (x ∷ xs) k h e =
    (h.0, New-append (prev ++ x ∷ []) xs k h.1 (rw (append_assoc prev (x ∷ []) xs) e))

pub keys-append : (es : List Setting) (e : Setting) → keys (es ++ e ∷ []) ≡ keys es ++ e.key ∷ []
keys-append [] e = refl
keys-append (x ∷ xs) e = rw (keys-append xs e) refl

pub set_fits : (n : ℕ) (s : List ℕ) → length s < n → snprintf n s ≡ s
unfolding snprintf
set_fits n s h = take_all (n - 1) s (omega arith)

module _ (value : List ℕ) where
  replace_value-keys : (i : ℕ) (es : List Setting) → keys (replace_value i value es) ≡ keys es
  unfolding replace_value
  replace_value-keys i [] = refl
  replace_value-keys zero (e ∷ es) = refl
  replace_value-keys (suc i) (e ∷ es) = rw (replace_value-keys i es) refl

  length-replace_value : (i : ℕ) (es : List Setting) → length (replace_value i value es) ≡ length es
  unfolding replace_value
  length-replace_value i [] = refl
  length-replace_value zero (e ∷ es) = refl
  length-replace_value (suc i) (e ∷ es) = rw (length-replace_value i es) refl

  replace_value-All :
      (i : ℕ) (es : List Setting)
      → IsValue value
      → length value < value_max
      → All es
      → All (replace_value i value es)
  unfolding replace_value
  replace_value-All i [] v f h = tt
  replace_value-All zero (e ∷ es) v f h =
      rw (set_fits value_max value f) (new_value value v f h.0, h.1)
  replace_value-All (suc i) (e ∷ es) v f h = (h.0, replace_value-All i es v f h.1)

module _ (key value : List ℕ) (s : Settings) (h : IsEntry key value) where
  -- A new key goes to the end.
  pub set_value-new :
      find_key (keys s.item) key ≡ length s.item
      → length s.item < settings_max
      → set_value key value s
        ≡ (record s { item = s.item ++ record { key = key; value = value } ∷ [] }, true)
  unfolding set_value
  set_value-new new room =
      rw (set_fits key_max key h.key_fits, set_fits value_max value h.value_fits)
        (ground (arith, h.key_ne_nil, h.key_fits, h.value_fits, new, room))

  set_value-full :
      find_key (keys s.item) key ≡ length s.item
      → settings_max ≤ length s.item
      → set_value key value s ≡ (s, false)
  unfolding set_value
  set_value-full new full = ground (arith, h.key_ne_nil, h.key_fits, h.value_fits, new, full)

  set_value-known :
      find_key (keys s.item) key ≢ length s.item
      → set_value key value s
        ≡ (record s { item = replace_value (find_key (keys s.item) key) value s.item }, true)
  unfolding set_value
  set_value-known known = ground (arith, h.key_ne_nil, h.key_fits, h.value_fits, known)

  pub set_value-IsStore : IsStore s.item → IsStore (set_value key value s).0.item
  set_value-IsStore store = elim (Bool-cases (find_key (keys s.item) key == length s.item)) [
    | inr e ↦
        let i = find_key (keys s.item) key in
        rw (set_value-known (λ same. absurd (ground (arith, e, same)))) (record {
          entries = replace_value-All value i s.item h.value_value h.value_fits store.entries;
          distinct = rw (replace_value-keys value i s.item) store.distinct;
          fits = rw (length-replace_value value i s.item) store.fits;
        })
    | inl e ↦
        let new : find_key (keys s.item) key ≡ length s.item = ground (arith, e) in
        elim (le_or_lt settings_max (length s.item)) [
          | inl full ↦ rw (set_value-full new full) store
          | inr room ↦ rw (set_value-new new room) (record {
            entries = All-append s.item _ store.entries h;
            distinct = rw (keys-append s.item (record { key = key; value = value })) (
                New-append [] (keys s.item) key store.distinct
                  (new ∙ sym (length-map s.item Setting.key)));
            fits =
                omega
                  (arith, room, length-append s.item (record { key = key; value = value } ∷ []));
          })
        ]
  ]
