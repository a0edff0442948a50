-- ===== src/Shell/Host/Faults.antt =====
-- A command that is answered by a fault.
use ardopb.Base.{
  take-append-drop, drop, sym, ap, ◌∙◌, ℕ, ◌-◌, ◌≡◌, ◌⊎◌, inl, inr, refl, arith, true, false,
  Option, none, some, List, [], ◌++◌, take, text, snprintf, ◌==◌, Bool-cases,
}
use ardopb.Shell.Host.{split_line}
use ardopb.Shell.Host.Actions.{
  Keyword, abort, arqcall, disconnect, break_link, send_id, fec_send_cmd, my_call, grid_square,
  my_aux, arq_bw, protocol_mode, fec_mode, fec_repeats, data_to_send, purge_buffer, listen,
  auto_break, fsk_only, use_600_modes, enable_ping_ack, query_state, version, rdy, initialize,
  busy_det, arq_timeout, idle_timeout, cw_id, find_keyword, keywords, dispatch, dispatch_found,
  answer, host_command,
}
use ardopb.Shell.Host.Commands.{max_line, set_config}
use ardopb.Shell.Runtime.{Modem, Runtime}
use ardopb.Shell.Host.Keywords.{fault_shape, find_keyword-plain, found-plain, find_keyword-my_aux}
use ardopb.Shell.Host.Replies.{
  is_fault, state_query-same, mycall-fault, gridsquare-fault, arqbw-fault, fecmode-fault,
  fecrepeats-fault, cwid-fault, flag-fault, datatosend-fault, busydet-fault, arqtimeout-fault,
  idletimeout-fault, myaux-fault, arq_call-fault, disconnect_link-fault, identify-fault,
  fec_send-fault, protocolmode-fault,
}

module _ {W : Type 0} (modem : Modem W) (now : ℕ) (r : Runtime W) where
  -- What a fault may leave: all as it was, or no auxiliary calls where `OfAux` holds.
  abbrev Unheard : Type 0 → Runtime W × List ℕ → Type 0
  Unheard OfAux done =
      is_fault done.1 ≡ true
      → (done.0 ≡ r) ⊎ OfAux × (done.0 ≡ set_config (λ c. record c { auxcalls = [] }) r)

  dispatch-fault :
      (id orig : List ℕ) (k : Keyword) (kw : List ℕ) (p : Option (List ℕ))
      → is_fault orig ≡ false
      → ((s : List ℕ) → is_fault (kw ++ s) ≡ false)
      → Unheard (k ≡ my_aux) (dispatch modem id orig k kw p now r)
  unfolding dispatch is_fault text
  dispatch-fault id orig abort kw p o plain h = cc
  dispatch-fault id orig arqcall kw p o plain h = inl (arq_call-fault modem now r orig p o h)
  dispatch-fault id orig disconnect kw p o plain h = inl (disconnect_link-fault modem now r h)
  dispatch-fault id orig break_link kw p o plain h = cc
  dispatch-fault id orig send_id kw p o plain h = inl (identify-fault modem now r h)
  dispatch-fault id orig fec_send_cmd kw p o plain h = inl (fec_send-fault modem now r p h)
  dispatch-fault id orig my_call kw p o plain h = inl (mycall-fault p r h)
  dispatch-fault id orig grid_square kw p o plain h = inl (gridsquare-fault p r h)
  dispatch-fault id orig my_aux kw p o plain h = inr (refl, myaux-fault p r h)
  dispatch-fault id orig arq_bw kw p o plain h = inl (arqbw-fault p r h)
  dispatch-fault id orig protocol_mode kw p o plain h = inl (protocolmode-fault modem now r p h)
  dispatch-fault id orig fec_mode kw p o plain h = inl (fecmode-fault p r h)
  dispatch-fault id orig fec_repeats kw p o plain h = inl (fecrepeats-fault p r h)
  dispatch-fault id orig data_to_send kw p o plain h = inl (datatosend-fault p r kw plain h)
  dispatch-fault id orig purge_buffer kw p o plain h = cc
  dispatch-fault id orig listen kw p o plain h = inl (
      flag-fault p r (text "LISTEN") (λ c. c.listening) (λ b c. record c { listening = b })
        (λ s. refl) h)
  dispatch-fault id orig auto_break kw p o plain h = inl (
      flag-fault p r (text "AUTOBREAK") (λ c. c.auto_break) (λ b c. record c { auto_break = b })
        (λ s. refl) h)
  dispatch-fault id orig fsk_only kw p o plain h = inl (
      flag-fault p r (text "FSKONLY") (λ c. c.fsk_only) (λ b c. record c { fsk_only = b })
        (λ s. refl) h)
  dispatch-fault id orig use_600_modes kw p o plain h = inl (
      flag-fault p r (text "USE600MODES") (λ c. c.use_600_modes)
        (λ b c. record c { use_600_modes = b }) (λ s. refl) h)
  dispatch-fault id orig enable_ping_ack kw p o plain h = inl (
      flag-fault p r (text "ENABLEPINGACK") (λ c. c.enable_ping_ack)
        (λ b c. record c { enable_ping_ack = b }) (λ s. refl) h)
  dispatch-fault id orig query_state kw p o plain h = inl (state_query-same p r)
  dispatch-fault id orig version kw p o plain h = inl refl
  dispatch-fault id orig rdy kw p o plain h = inl refl
  dispatch-fault id orig initialize kw p o plain h = inl refl
  dispatch-fault id orig busy_det kw p o plain h = inl (busydet-fault p r h)
  dispatch-fault id orig arq_timeout kw p o plain h = inl (arqtimeout-fault p r h)
  dispatch-fault id orig idle_timeout kw p o plain h = inl (idletimeout-fault p r h)
  dispatch-fault id orig cw_id kw p o plain h = inl (cwid-fault p r h)

  dispatch_found-fault :
      (id orig : List ℕ) (k : Option Keyword)
      → find_keyword (split_line orig).0 keywords ≡ k
      → Unheard
          ((split_line orig).0 ≡ text "MYAUX")
          (dispatch_found modem id orig k (split_line orig).0 (split_line orig).1 now r)
  unfolding dispatch_found
  dispatch_found-fault id orig none e h = inl refl
  dispatch_found-fault id orig (some k) e h =
      let words = split_line orig in
      elim (dispatch-fault id orig k words.0 words.1 (found-plain orig k e)
        (find_keyword-plain words.0 k e) h) [
          | inl same ↦ inl same
          | inr (aux, cleared) ↦ inr (find_keyword-my_aux words.0 (e ∙ ap some aux), cleared)
        ]

-- What is a fault when it is cut is one.
is_fault-take : (n : ℕ) (s : List ℕ) → is_fault (take n s) ≡ true → is_fault s ≡ true
unfolding is_fault text
is_fault-take n s h =
    let shape = fault_shape (take n s) h in
    let whole : s ≡ take n s ++ drop n s = sym (take-append-drop n s) in
    ap is_fault (whole ∙ ap (λ (t : List ℕ). t ++ drop n s) shape.1)

-- A command line that is answered by a fault has changed nothing, unless its first word is MYAUX: then it may have
-- cleared the auxiliary calls, and has changed nothing else.
pub host_command-fault :
    {W : Type 0} (modem : Modem W) (id line : List ℕ) (now cap : ℕ) (r : Runtime W)
    → is_fault (host_command modem id line now cap r).1 ≡ true
    → ((host_command modem id line now cap r).0 ≡ r)
      ⊎ ((split_line (snprintf max_line line)).0 ≡ text "MYAUX")
        × ((host_command modem id line now cap r).0
            ≡ set_config (λ c. record c { auxcalls = [] }) r)
unfolding host_command answer snprintf
host_command-fault modem id line now cap r h = elim (Bool-cases (cap == 0)) [
  | inl e ↦ inl (ground arith)
  | inr e ↦
      let orig = snprintf max_line line in
      let found = find_keyword (split_line orig).0 keywords in
      let whole =
        is_fault-take (cap - 1)
          (dispatch_found modem id orig found (split_line orig).0 (split_line orig).1 now r).1
          (rw e at h) in
      let unheard = dispatch_found-fault modem now r id orig found refl whole in rw e unheard
]
