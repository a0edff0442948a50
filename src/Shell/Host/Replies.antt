-- ===== src/Shell/Host/Replies.antt =====
-- The replies of the commands for settings, and of those that the link hears: a fault has changed nothing.
use ardopb.Base.{
  ℕ, ◌≡◌, refl, arith, Bool, true, false, Option, none, some, List, [], ◌++◌, take, text, bytes_eq,
}
use ardopb.Codec.StationId
use ardopb.Link.State.{Config, Mode}
use ardopb.Shell.Host.{mode_for_name, cut_at_space}
use ardopb.Shell.Host.Actions.{
  call_parsed, arq_call, disconnect_link, identify, fec_send, set_mode_to, protocolmode,
}
use ardopb.Shell.Host.Commands.{
  set_config, mycall, gridsquare, myaux, arqbw, fecmode, fecrepeats, datatosend, do_bool, flag,
  do_range, busydet, arqtimeout, idletimeout, cwid, state_query,
}
use ardopb.Shell.Runtime.{Modem, Runtime}

unfoldable pub is_fault : List ℕ → Bool
unfolding bytes_eq text
is_fault s = bytes_eq (take 5 s) (text "FAULT")

module _ {W : Type 0} (p : Option (List ℕ)) (r : Runtime W) where
  pub mycall-fault : is_fault (mycall p r).1 ≡ true → (mycall p r).0 ≡ r
  unfolding mycall is_fault text
  mycall-fault h = ground arith

  pub gridsquare-fault : is_fault (gridsquare p r).1 ≡ true → (gridsquare p r).0 ≡ r
  unfolding gridsquare is_fault text
  gridsquare-fault h = ground arith

  pub arqbw-fault : is_fault (arqbw p r).1 ≡ true → (arqbw p r).0 ≡ r
  unfolding arqbw is_fault text
  arqbw-fault h = ground arith

  pub fecmode-fault : is_fault (fecmode p r).1 ≡ true → (fecmode p r).0 ≡ r
  unfolding fecmode is_fault text
  fecmode-fault h = ground arith

  pub fecrepeats-fault : is_fault (fecrepeats p r).1 ≡ true → (fecrepeats p r).0 ≡ r
  unfolding fecrepeats is_fault text
  fecrepeats-fault h = ground arith

  pub cwid-fault : is_fault (cwid p r).1 ≡ true → (cwid p r).0 ≡ r
  unfolding cwid is_fault text
  cwid-fault h = ground arith

  pub flag-fault :
      (kw : List ℕ) (get : Config → Bool) (put : Bool → Config → Config)
      → ((s : List ℕ) → is_fault (kw ++ s) ≡ false)
      → is_fault (flag kw get put p r).1 ≡ true
      → (flag kw get put p r).0 ≡ r
  unfolding flag do_bool
  flag-fault kw get put plain h =
      ground (arith, plain (text " now TRUE"), plain (text " now FALSE"))

  pub datatosend-fault :
      (kw : List ℕ)
      → ((s : List ℕ) → is_fault (kw ++ s) ≡ false)
      → is_fault (datatosend kw p r).1 ≡ true
      → (datatosend kw p r).0 ≡ r
  unfolding datatosend
  datatosend-fault kw plain h = ground (arith, plain (text " now 0"))

  pub busydet-fault : is_fault (busydet p r).1 ≡ true → (busydet p r).0 ≡ r
  unfolding busydet do_range is_fault text
  busydet-fault h = ground arith

  pub arqtimeout-fault : is_fault (arqtimeout p r).1 ≡ true → (arqtimeout p r).0 ≡ r
  unfolding arqtimeout do_range is_fault text
  arqtimeout-fault h = ground arith

  pub idletimeout-fault : is_fault (idletimeout p r).1 ≡ true → (idletimeout p r).0 ≡ r
  unfolding idletimeout do_range is_fault text
  idletimeout-fault h = ground arith

  -- MYAUX is the exception: its fault leaves no auxiliary call.
  pub myaux-fault :
      is_fault (myaux p r).1 ≡ true → (myaux p r).0 ≡ set_config (λ c. record c { auxcalls = [] }) r
  unfolding myaux is_fault text
  myaux-fault h = ground arith

  pub state_query-same : (state_query p r).0 ≡ r
  unfolding state_query
  state_query-same = ground arith

module _ {W : Type 0} (modem : Modem W) (now : ℕ) (r : Runtime W) where
  pub call_parsed-fault :
      (orig target : List ℕ) (parsed : StationId.Parsed)
      → is_fault orig ≡ false
      → is_fault (call_parsed modem orig target parsed now r).1 ≡ true
      → (call_parsed modem orig target parsed now r).0 ≡ r
  unfolding call_parsed
  call_parsed-fault orig target parsed plain h = ground arith

  pub arq_call-fault :
      (orig : List ℕ) (p : Option (List ℕ))
      → is_fault orig ≡ false
      → is_fault (arq_call modem orig p now r).1 ≡ true
      → (arq_call modem orig p now r).0 ≡ r
  unfolding arq_call
  arq_call-fault orig none plain h = refl
  arq_call-fault orig (some p) plain h =
      let target = (cut_at_space p).0 in
      call_parsed-fault orig target (StationId.from_str_slice target) plain h

  pub disconnect_link-fault :
      is_fault (disconnect_link modem now r).1 ≡ true → (disconnect_link modem now r).0 ≡ r
  unfolding disconnect_link is_fault text
  disconnect_link-fault h = ground arith

  pub identify-fault : is_fault (identify modem now r).1 ≡ true → (identify modem now r).0 ≡ r
  unfolding identify is_fault text
  identify-fault h = ground arith

  pub fec_send-fault :
      (p : Option (List ℕ))
      → is_fault (fec_send modem p now r).1 ≡ true
      → (fec_send modem p now r).0 ≡ r
  unfolding fec_send is_fault text
  fec_send-fault p h = ground arith

  pub set_mode_to-fault :
      (p : List ℕ) (m : Option Mode)
      → is_fault (set_mode_to modem p m now r).1 ≡ true
      → (set_mode_to modem p m now r).0 ≡ r
  unfolding set_mode_to is_fault text
  set_mode_to-fault p m h = ground arith

  pub protocolmode-fault :
      (p : Option (List ℕ))
      → is_fault (protocolmode modem p now r).1 ≡ true
      → (protocolmode modem p now r).0 ≡ r
  unfolding protocolmode
  protocolmode-fault none h = refl
  protocolmode-fault (some p) h = set_mode_to-fault p (mode_for_name p) h
