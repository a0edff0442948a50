-- ===== src/Shell/Settings/Loaded.antt =====
-- shell/settings.c: what is loaded, from any file whatever, can be printed.
use ardopb.Base.{
  ℕ, zero, suc, ◌-◌, ◌≤◌, ◌≡◌, refl, arith, Option, none, some, List, [], ◌∷◌, length, leb, ◌==◌,
  ◌||◌, Bool-cases, inl, inr,
}
use ardopb.Shell.Settings.{Settings, no_settings, key_max, value_max, trim, set_value}
use ardopb.Shell.Settings.File.{
  strchr, fgets, line_room, load_setting, load_cut, load_body, load_line, load_loop, load,
}
use ardopb.Shell.Settings.Store.{IsValue, IsStore, set_value-IsStore}
use ardopb.Shell.Settings.Trim.{Lacks, trim-IsTrimmed, trim-Lacks, strchr-Lacks}
use ardopb.Shell.Settings.Line.{
  IsLine, strchr-IsLine, strchr-keeps_Lacks, strchr-behind_Lacks, trim-IsLine, fgets-progress,
  fgets-IsLine,
}

record IsClean (s : List ℕ) : Type 0 where
  clean_nul : Lacks 0 s
  clean_newline : Lacks b'\n' s
  clean_comment : Lacks b'#' s

trim-IsValue : (s : List ℕ) → IsClean s → IsValue (trim s)
trim-IsValue s h = record {
  no_nul = trim-Lacks 0 s h.clean_nul;
  no_newline = trim-Lacks b'\n' s h.clean_newline;
  no_comment = trim-Lacks b'#' s h.clean_comment;
  trimmed = trim-IsTrimmed s;
}

-- What is loaded can be printed.
module _ (s : Settings) (store : IsStore s.item) where
  load_setting-IsStore :
      (key value : List ℕ)
      → IsValue key
      → IsValue value
      → Lacks b'=' key
      → IsStore (load_setting key value s).item
  unfolding load_setting
  load_setting-IsStore key value k v e =
      elim (Bool-cases
        ((length key == 0) || leb key_max (length key) || leb value_max (length value))) [
          | inl bad ↦ rw bad store
          | inr good ↦
              let added =
                set_value-IsStore key value s
                  (record {
                    key_value = k;
                    value_value = v;
                    no_equals = e;
                    key_ne_nil = λ z. absurd (ground (arith, good, z));
                    key_fits = ground (arith, good);
                    value_fits = ground (arith, good);
                  })
                  store in
              rw good (elim (Bool-cases (set_value key value s).1) [
                | inl done ↦ rw done added
                | inr full ↦ rw full added
              ])
        ]

  load_cut-IsStore :
      (key : List ℕ) (value : Option (List ℕ))
      → IsClean key
      → Lacks b'=' key
      → ((v : List ℕ) → value ≡ some v → IsClean v)
      → IsStore (load_cut (key, value) s).item
  unfolding load_cut
  load_cut-IsStore key none k e v = store
  load_cut-IsStore key (some w) k e v =
      load_setting-IsStore (trim key) (trim w) (trim-IsValue key k) (trim-IsValue w (v w refl))
        (trim-Lacks b'=' key e)

  load_body-IsStore : (body : List ℕ) → IsClean body → IsStore (load_body body s).item
  unfolding load_body
  load_body-IsStore body h = elim (Bool-cases (length body == 0)) [
    | inl e ↦ rw e store
    | inr e ↦ rw e (
        load_cut-IsStore (strchr b'=' body).0 (strchr b'=' body).1
          (record {
            clean_nul = strchr-keeps_Lacks b'=' 0 body h.clean_nul;
            clean_newline = strchr-keeps_Lacks b'=' b'\n' body h.clean_newline;
            clean_comment = strchr-keeps_Lacks b'=' b'#' body h.clean_comment;
          })
          (strchr-Lacks b'=' body)
          (λ v e. record {
            clean_nul = strchr-behind_Lacks b'=' 0 body v h.clean_nul e;
            clean_newline = strchr-behind_Lacks b'=' b'\n' body v h.clean_newline e;
            clean_comment = strchr-behind_Lacks b'=' b'#' body v h.clean_comment e;
          }))
  ]

  load_line-IsStore : (line : List ℕ) → IsLine line → IsStore (load_line line s).item
  unfolding load_line
  load_line-IsStore line h =
      let string = (strchr 0 line).0 in
      let code = (strchr b'#' string).0 in
      load_body-IsStore (trim code) (record {
        clean_nul = trim-Lacks 0 code (strchr-keeps_Lacks b'#' 0 string (strchr-Lacks 0 line));
        clean_newline = trim-IsLine code (strchr-IsLine b'#' string (strchr-IsLine 0 line h));
        clean_comment = trim-Lacks b'#' code (strchr-Lacks b'#' string);
      })

load_loop-IsStore :
    (rounds : ℕ) (file : List ℕ) (s : Settings)
    → IsStore s.item
    → IsStore (load_loop rounds file s).item
unfolding load_loop
load_loop-IsStore zero file s h = h
load_loop-IsStore (suc rounds) [] s h = h
load_loop-IsStore (suc rounds) (c ∷ cs) s h =
    let line = fgets line_room (c ∷ cs) in
    load_loop-IsStore rounds line.1 (load_line line.0 s)
      (load_line-IsStore s h line.0 (fgets-IsLine line_room (c ∷ cs)))

pub load-IsStore : (file : Option (List ℕ)) → IsStore (load file).item
unfolding load
load-IsStore none = record { entries = tt; distinct = tt; fits = omega arith }
load-IsStore (some file) =
    load_loop-IsStore (length file) file no_settings
      (record { entries = tt; distinct = tt; fits = omega arith })

-- As many rounds as the file is long are enough: more of them load the same.
load_loop_enough :
    (n m : ℕ) (file : List ℕ) (s : Settings)
    → length file ≤ n
    → length file ≤ m
    → load_loop n file s ≡ load_loop m file s
unfolding load_loop
load_loop_enough zero zero file s h k = refl
load_loop_enough zero (suc m) [] s h k = refl
load_loop_enough zero (suc m) (c ∷ cs) s h k = absurd (omega arith)
load_loop_enough (suc n) zero [] s h k = refl
load_loop_enough (suc n) zero (c ∷ cs) s h k = absurd (omega arith)
load_loop_enough (suc n) (suc m) [] s h k = refl
load_loop_enough (suc n) (suc m) (c ∷ cs) s h k =
    let line = fgets line_room (c ∷ cs) in
    let shorter = fgets-progress (line_room - 1) c cs in
    load_loop_enough n m line.1 (load_line line.0 s) (omega arith) (omega arith)
