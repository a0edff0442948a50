-- ===== src/Shell/Host.antt =====
-- shell/host.c: the words of the host protocol. A command line is its characters before the NUL; `none`
-- stands for a command without parameters.
pub mod Commands
pub mod Actions
pub mod Silent
pub mod DataFrames
pub mod Replies
pub mod Keywords
pub mod Faults
use ardopb.Base.{
  ℕ, zero, suc, ◌+◌, ◌-◌, ◌*◌, ◌%◌, ◌^◌, Bool, true, false, not, ◌&&◌, ◌||◌, Option, none, some,
  List, [], ◌∷◌, ◌++◌, map, length, take, ltb, leb, ◌==◌, if◌then◌else◌, text, decimal, bytes_eq,
}
use ardopb.Base.Int.{ℤ, pos, negsuc}
use ardopb.Codec.StationId.{is_space}
use ardopb.Link.Bandwidth.{
  ArqBandwidth, forced_200, forced_500, forced_1000, forced_2000, max_200, max_500, max_1000,
  max_2000, undefined,
}
use ardopb.Link.State.{
  LinkState, disc, iss_con_req, iss_con_ack, iss, irs_con_ack, irs_data, idle, irs_to_iss,
  irs_from_iss, fec_send, Mode, arq, fec, rxo,
}

unfoldable pub bandwidth_name : ArqBandwidth → List ℕ
bandwidth_name forced_200 = text "200FORCED"
bandwidth_name forced_500 = text "500FORCED"
bandwidth_name forced_1000 = text "1000FORCED"
bandwidth_name forced_2000 = text "2000FORCED"
bandwidth_name max_200 = text "200MAX"
bandwidth_name max_500 = text "500MAX"
bandwidth_name max_1000 = text "1000MAX"
bandwidth_name max_2000 = text "2000MAX"
bandwidth_name undefined = text "UNDEFINED"

unfoldable pub mode_name : Mode → List ℕ
mode_name arq = text "ARQ"
mode_name fec = text "FEC"
mode_name rxo = text "RXO"

-- The first value whose name is the word.
unfoldable pub named {ℓ} : {A : Type ℓ} → (A → List ℕ) → List ℕ → List A → Option A
named name word [] = none
named name word (a ∷ rest) =
    let later = named name word rest in if bytes_eq word (name a) then some a else later

unfoldable pub bandwidth_for_name : List ℕ → Option ArqBandwidth
bandwidth_for_name word = named bandwidth_name word (
    forced_200 ∷ forced_500 ∷ forced_1000 ∷ forced_2000 ∷ max_200 ∷ max_500 ∷ max_1000 ∷ max_2000
    ∷ undefined ∷ [])

unfoldable pub mode_for_name : List ℕ → Option Mode
mode_for_name word = named mode_name word (arq ∷ fec ∷ rxo ∷ [])

unfoldable pub state_name : LinkState → List ℕ
state_name disc = text "DISC"
state_name iss_con_req = text "ISS"
state_name iss_con_ack = text "ISS"
state_name iss = text "ISS"
state_name irs_con_ack = text "IRS"
state_name irs_data = text "IRS"
state_name irs_from_iss = text "IRS"
state_name idle = text "IDLE"
state_name irs_to_iss = text "IRStoISS"
state_name fec_send = text "FECSEND"

unfoldable pub is_connected : LinkState → Bool
is_connected s =
    not (bytes_eq (state_name s) (text "DISC")) && not (bytes_eq (state_name s) (text "FECSEND"))

-- `toupper` in the C locale.
unfoldable pub to_upper : ℕ → ℕ
to_upper c = if leb b'a' c && leb c b'z' then c - 32 else c

-- The text before the first space, and what follows it, if there is one.
unfoldable pub cut_at_space : List ℕ → List ℕ × Option (List ℕ)
cut_at_space [] = ([], none)
cut_at_space (c ∷ cs) =
    let rest = cut_at_space cs in if c == b' ' then ([], some cs) else (c ∷ rest.0, rest.1)

unfoldable pub skip_spaces : List ℕ → List ℕ
skip_spaces [] = []
skip_spaces (c ∷ cs) = if c == b' ' then skip_spaces cs else c ∷ cs

-- The keyword and the parameters of a line, upper case.
unfoldable pub split_line : List ℕ → List ℕ × Option (List ℕ)
split_line line =
    let cut = cut_at_space (map to_upper line) in
    let params : Option (List ℕ) = elim cut.1 [
      | none ↦ none
      | some rest ↦ (let p = skip_spaces rest in if length p == 0 then none else some p)
    ] in
    (cut.0, params)

-- `strtol` in base 10: white space, a sign, and digits.
unfoldable pub skip_white : List ℕ → List ℕ
skip_white [] = []
skip_white (c ∷ cs) = if is_space c then skip_white cs else c ∷ cs

unfoldable pub is_digit : ℕ → Bool
is_digit c = leb b'0' c && leb c b'9'

-- Whether a digit was seen, the value, and what is left.
unfoldable pub digits : Bool → ℕ → List ℕ → Bool × ℕ × List ℕ
digits seen value [] = (seen, value, [])
digits seen value (c ∷ cs) =
    let rest = digits true (value * 10 + (c - b'0')) cs in
    if is_digit c then rest else (seen, value, c ∷ cs)

unfoldable pub signed : List ℕ → Bool × List ℕ
signed [] = (false, [])
signed (c ∷ cs) =
    if c == b'-' then (true, cs) else if c == b'+' then (false, cs) else (false, c ∷ cs)

unfoldable pub negated : Bool → ℕ → ℤ
negated minus value = if minus && ltb 0 value then negsuc (value - 1) else pos value

-- A `long` of 64 bits: a value outside it is the nearest limit.
unfoldable pub clamp_long : ℤ → ℤ
clamp_long (pos n) = if ltb n (2 ^ 63) then pos n else pos (2 ^ 63 - 1)
clamp_long (negsuc n) = if ltb n (2 ^ 63) then negsuc n else negsuc (2 ^ 63 - 1)

-- Whether a digit was there, the value, 0 without one, and what is left.
unfoldable pub strtol : List ℕ → Bool × ℤ × List ℕ
strtol s =
    let after = signed (skip_white s) in
    let read = digits false 0 after.1 in (read.0, clamp_long (negated after.0 read.1), read.2)

-- A number that is the whole text.
unfoldable pub whole_number : List ℕ → Option ℤ
whole_number s = let read = strtol s in if read.0 && (length read.2 == 0) then some read.1 else none

-- `(int)` of a `long`.
unfoldable pub int_of_long : ℤ → ℤ
int_of_long (pos n) =
    let w = n % 2 ^ 32 in if ltb w (2 ^ 31) then pos w else negsuc (2 ^ 32 - 1 - w)
int_of_long (negsuc n) =
    let w = n % 2 ^ 32 in if ltb w (2 ^ 31) then negsuc w else pos (2 ^ 32 - 1 - w)

-- `atoi`, which the C library takes as `(int)strtol`.
unfoldable pub atoi : List ℕ → ℤ
atoi s = int_of_long (strtol s).1

-- `%d` and `%ld`.
unfoldable pub print_int : ℤ → List ℕ
print_int (pos n) = decimal n
print_int (negsuc n) = b'-' ∷ decimal (suc n)
