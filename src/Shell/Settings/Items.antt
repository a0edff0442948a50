-- ===== src/Shell/Settings/Items.antt =====
-- shell/settings.c: the lines that print the items are loaded as these items.
use mathlib.Core.List.{append_assoc, append-nil}
use ardopb.Base.{
  ℕ, zero, suc, ◌+◌, ◌≤◌, ◌<◌, ◌≡◌, ◌≢◌, refl, sym, ◌∙◌, arith, List, [], ◌∷◌, ◌++◌, length,
  length-append, length-map,
}
use ardopb.Shell.Settings.{Setting, Settings, settings_max, is_space, keys, find_key, trim}
use ardopb.Shell.Settings.File.{
  strchr, line_room, load_setting, load_cut, load_body, load_line, load_loop, print_items,
}
use ardopb.Shell.Settings.Store.{IsEntry, All, New, keys-append, set_value-new}
use ardopb.Shell.Settings.Trim.{
  Lacks, BeginsWell, trim_right-append, trim_right-newline, trim_left-same, trim-same, Lacks-append,
  strchr-absent, strchr-first,
}
use ardopb.Shell.Settings.Line.{fgets-line}

abbrev item_line : List ℕ → List ℕ → List ℕ
item_line key value = key ++ b'=' ∷ (value ++ b'\n' ∷ [])

begins-append : (key rest : List ℕ) → length key ≢ 0 → BeginsWell key → BeginsWell (key ++ rest)
begins-append [] rest h b = absurd (h refl)
begins-append (c ∷ cs) rest h b = b

-- The line of an entry, in the steps of `load_line`.
module _ (key value : List ℕ) (h : IsEntry key value) where
  item_line-Lacks :
      (c : ℕ) → b'=' ≢ c → b'\n' ≢ c → Lacks c key → Lacks c value → Lacks c (item_line key value)
  item_line-Lacks c e n k v =
      Lacks-append c key (b'=' ∷ (value ++ b'\n' ∷ [])) k
        (e, Lacks-append c value (b'\n' ∷ []) v (n, tt))

  uncommented : (strchr b'#' (strchr 0 (item_line key value)).0).0 ≡ item_line key value
  uncommented =
      rw
        (
          strchr-absent 0 (item_line key value) (
              item_line-Lacks 0 (omega arith) (omega arith) h.key_value.no_nul
                h.value_value.no_nul),
          strchr-absent b'#' (item_line key value) (
              item_line-Lacks b'#' (omega arith) (omega arith) h.key_value.no_comment
                h.value_value.no_comment),
        )
        refl

  trim-item_line : trim (item_line key value) ≡ key ++ b'=' ∷ value
  unfolding trim is_space
  trim-item_line =
      rw
        (
          trim_left-same (item_line key value) (
              begins-append key (b'=' ∷ (value ++ b'\n' ∷ [])) h.key_ne_nil
                h.key_value.trimmed.begins_well),
          trim_right-append key b'=' (value ++ b'\n' ∷ []) refl,
          trim_right-newline value,
          h.value_value.trimmed.ends_well,
        )
        refl

  load_line-item : (s : Settings) → load_line (item_line key value) s ≡ load_setting key value s
  unfolding load_line load_body load_cut
  load_line-item s =
      rw
        (
          uncommented,
          trim-item_line,
          strchr-first b'=' key value h.no_equals,
          trim-same key h.key_value.trimmed,
          trim-same value h.value_value.trimmed,
        )
        (ground (arith, length-append key (b'=' ∷ value)))

  load_setting-new :
      (s : Settings)
      → find_key (keys s.item) key ≡ length s.item
      → length s.item < settings_max
      → load_setting key value s
        ≡ record s { item = s.item ++ record { key = key; value = value } ∷ [] }
  unfolding load_setting
  load_setting-new s new room =
      rw (set_value-new key value s h new room)
        (ground (arith, h.key_ne_nil, h.key_fits, h.value_fits))

  body_length : length (key ++ b'=' ∷ value) < line_room
  body_length = omega (arith, length-append key (b'=' ∷ value), h.key_fits, h.value_fits)

  no_newline_inside : Lacks b'\n' (key ++ b'=' ∷ value)
  no_newline_inside =
      Lacks-append b'\n' key (b'=' ∷ value) h.key_value.no_newline
        (omega arith, h.value_value.no_newline)

-- One item is read and the loop goes on behind it.
item_lines :
    (key value rest : List ℕ)
    → key ++ b'=' ∷ (value ++ b'\n' ∷ rest) ≡ (key ++ b'=' ∷ value) ++ b'\n' ∷ rest
item_lines key value rest = sym (append_assoc key (b'=' ∷ value) (b'\n' ∷ rest))

pub load_loop-line :
    (rounds : ℕ) (line rest : List ℕ) (s : Settings)
    → Lacks b'\n' line
    → length line < line_room
    → load_loop (suc rounds) (line ++ b'\n' ∷ rest) s
      ≡ load_loop rounds rest (load_line (line ++ b'\n' ∷ []) s)
unfolding load_loop
load_loop-line rounds [] rest s h k = rw (fgets-line line_room [] rest h k) refl
load_loop-line rounds (c ∷ cs) rest s h k = rw (fgets-line line_room (c ∷ cs) rest h k) refl

load_loop-nothing : (rounds : ℕ) (s : Settings) → load_loop rounds [] s ≡ s
unfolding load_loop
load_loop-nothing zero s = refl
load_loop-nothing (suc rounds) s = refl

load_loop-item :
    (rounds : ℕ) (key value rest : List ℕ) (s : Settings)
    → IsEntry key value
    → find_key (keys s.item) key ≡ length s.item
    → length s.item < settings_max
    → load_loop (suc rounds) (key ++ b'=' ∷ (value ++ b'\n' ∷ rest)) s
      ≡ load_loop rounds rest
          (record s { item = s.item ++ record { key = key; value = value } ∷ [] })
load_loop-item rounds key value rest s h new room =
    rw
      (
        item_lines key value rest,
        load_loop-line rounds (key ++ b'=' ∷ value) rest s (no_newline_inside key value h)
            (body_length key value h),
        sym (item_lines key value []),
        load_line-item key value h s,
        load_setting-new key value h s new room,
      )
      refl

pub load_loop-items :
    (rounds : ℕ) (es : List Setting) (s : Settings)
    → All es
    → New (keys s.item) (keys es)
    → length s.item + length es ≤ settings_max
    → length (print_items es) ≤ rounds
    → load_loop rounds (print_items es) s ≡ record s { item = s.item ++ es }
unfolding print_items
load_loop-items rounds [] s h new f r = rw (append-nil s.item) (load_loop-nothing rounds s)
load_loop-items zero (e ∷ es) s h new f r =
    absurd (omega (arith, length-append e.key (b'=' ∷ (e.value ++ b'\n' ∷ print_items es))))
load_loop-items (suc rounds) (e ∷ es) s h new f r =
    rw
      (
        load_loop-item rounds e.key e.value (print_items es) s h.0
            (new.0 ∙ length-map s.item Setting.key) (omega arith),
        load_loop-items rounds es (record s { item = s.item ++ e ∷ [] }) h.1
            (rw (keys-append s.item e) new.1) (omega (arith, length-append s.item (e ∷ [])))
            (omega (
              arith,
              length-append e.key (b'=' ∷ (e.value ++ b'\n' ∷ print_items es)),
              length-append e.value (b'\n' ∷ print_items es),
            )),
        append_assoc s.item (e ∷ []) es,
      )
      refl
