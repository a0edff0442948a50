-- ===== src/Shell/Calls.antt =====
-- The runtime under any calls of its main loop and any lines of its host.
use ardopb.Base.{
  ℕ, ◌≡◌, ◌≢◌, refl, arith, Bool, true, false, not, ◌||◌, ◌==◌, length, some, List, [], ◌∷◌,
}
use ardopb.Link.State
use ardopb.Link.State.{HostCmd}
use ardopb.Shell.Host.Actions.{host_command, inject}
use ardopb.Shell.Host.Silent.{Silent, host_command-keeps}
use ardopb.Shell.Runtime.{Modem, Runtime}
use ardopb.Shell.Runtime.Calls.{
  observe, set_telemetry, set_capture, init, runtime_rx, runtime_timer, runtime_host, pull_tx,
}
use ardopb.Shell.Runtime.Keying.{Keying, Alternates, key_told}
use ardopb.Shell.Runtime.OnAir.{
  observe-Keying, runtime_rx-Keying, runtime_timer-Keying, runtime_host-Keying, pull_tx-Keying,
}
use ardopb.Shell.Runtime.Current.{
  observe-Told, runtime_rx-Told, runtime_timer-IsCurrent, runtime_host-IsCurrent, pull_tx-Told,
}
use ardopb.Shell.Runtime.Reports.{Told, IsCurrent}

pub data Call : Type 0 where
  hears : (samples : List ℕ) (now : ℕ) → Call
  serviced : (now : ℕ) → Call
  commanded : HostCmd → (now : ℕ) → Call
  asked : (line : List ℕ) (now cap : ℕ) → Call
  drained : (calls max : ℕ) → Call
  observed_by : ℕ → Call
  measures : Bool → Call
  captures : Bool → Call

module _ {W : Type 0} (modem : Modem W) (id : List ℕ) where
  unfoldable pub apply : Call → Runtime W → Runtime W
  apply (hears samples now) r = runtime_rx modem samples now r
  apply (serviced now) r = runtime_timer modem now r
  apply (commanded cmd now) r = runtime_host modem cmd now r
  apply (asked line now cap) r = (host_command modem id line now cap r).0
  apply (drained calls max) r = (pull_tx modem calls max r).0
  apply (observed_by observer) r = observe observer r
  apply (measures on) r = set_telemetry on r
  apply (captures on) r = set_capture on r

  unfoldable pub apply_all : List Call → Runtime W → Runtime W
  apply_all [] r = r
  apply_all (c ∷ cs) r = apply_all cs (apply c r)

  Silent-Keying : (r t : Runtime W) → Silent r t → Keying false r → Keying false t
  Silent-Keying r t s k = ground arith

  apply-Keying : (c : Call) (r : Runtime W) → Keying false r → Keying false (apply c r)
  unfolding apply set_telemetry set_capture inject
  apply-Keying (hears samples now) r k = runtime_rx-Keying modem samples now r k
  apply-Keying (serviced now) r k = runtime_timer-Keying modem now r k
  apply-Keying (commanded cmd now) r k = runtime_host-Keying modem cmd now r k
  apply-Keying (asked line now cap) r k =
      host_command-keeps modem (Keying false) (λ cmd t q h. runtime_host-Keying modem cmd t q h)
        Silent-Keying id line now cap r k
  apply-Keying (drained calls max) r k = (pull_tx-Keying modem calls max r k).0
  apply-Keying (observed_by observer) r k = observe-Keying observer r k
  apply-Keying (measures on) r k = ground arith
  apply-Keying (captures on) r k = ground arith

  apply_all-Keying :
      (cs : List Call) (r : Runtime W) → Keying false r → Keying false (apply_all cs r)
  unfolding apply_all
  apply_all-Keying [] r k = k
  apply_all-Keying (c ∷ cs) r k = apply_all-Keying cs (apply c r) (apply-Keying c r k)

module _ {W : Type 0} where
  init-Keying :
      (rslens : List ℕ) (radio : W) (r : Runtime W) → init rslens radio ≡ some r → Keying false r
  unfolding init
  init-Keying rslens radio r e = ground arith

samples-keyed :
    (samples : List ℕ) (key : Bool)
    → (samples ≢ [] → key ≡ true)
    → (length samples == 0 || key) ≡ true
samples-keyed [] key h = refl
samples-keyed (s ∷ ss) key h = ground (arith, h (λ (e : s ∷ ss ≡ []). cc))

-- Whatever calls the main loop makes and whatever lines the host sends, from a fresh runtime on: what is reported for
-- the observers of the key, first that it is down, alternates; the last report is what it is; it is down
-- while a transmission is in progress; and samples are handed out only while it is down.
pub runtime-Keying :
    {W : Type 0} (modem : Modem W) (id rslens : List ℕ) (radio : W) (r : Runtime W)
    (calls : List Call) (deep max : ℕ)
    → init rslens radio ≡ some r
    → let t = apply_all modem id calls r in
      let pulled = pull_tx modem deep max t in
      Alternates t.log
      × (key_told t.log ≡ t.ptt_keyed)
      × ((not t.tx_active || t.ptt_keyed) ≡ true)
      × ((length pulled.1 == 0 || pulled.0.ptt_keyed) ≡ true)
runtime-Keying modem id rslens radio r calls deep max e =
    let t = apply_all modem id calls r in
    let k = apply_all-Keying modem id calls r (init-Keying rslens radio r e) in
    let p = (pull_tx-Keying modem deep max t k).1 in
    (
      k.alternates,
      k.told,
      ground arith,
      samples-keyed (pull_tx modem deep max t).1 (pull_tx modem deep max t).0.ptt_keyed p,
    )

module _ {W : Type 0} (modem : Modem W) (id : List ℕ) where
  Silent-Told : (r t : Runtime W) → Silent r t → Told r → Told t
  Silent-Told r t s k = ground arith

  apply-Told : (c : Call) (r : Runtime W) → Told r → Told (apply modem id c r)
  unfolding apply set_telemetry set_capture inject
  apply-Told (hears samples now) r k = runtime_rx-Told modem samples now r k
  apply-Told (serviced now) r k = (runtime_timer-IsCurrent modem now r k).0
  apply-Told (commanded cmd now) r k = (runtime_host-IsCurrent modem cmd now r k).0
  apply-Told (asked line now cap) r k =
      host_command-keeps modem Told (λ cmd t q h. (runtime_host-IsCurrent modem cmd t q h).0)
        Silent-Told id line now cap r k
  apply-Told (drained calls max) r k = pull_tx-Told modem calls max r k
  apply-Told (observed_by observer) r k = observe-Told observer r k
  apply-Told (measures on) r k = k
  apply-Told (captures on) r k = k

  apply_all-Told : (cs : List Call) (r : Runtime W) → Told r → Told (apply_all modem id cs r)
  unfolding apply_all
  apply_all-Told [] r k = k
  apply_all-Told (c ∷ cs) r k = apply_all-Told cs (apply modem id c r) (apply-Told c r k)

module _ {W : Type 0} where
  init-Told : (rslens : List ℕ) (radio : W) (r : Runtime W) → init rslens radio ≡ some r → Told r
  unfolding init State.init
  init-Told rslens radio r e = ground arith

-- Whatever calls the main loop makes and whatever lines the host sends, from a fresh runtime on: after the next
-- timer service the state, the mode, the width and the length of the queue that were last reported for the observers
-- are those of the link.
pub runtime-IsCurrent :
    {W : Type 0} (modem : Modem W) (id rslens : List ℕ) (radio : W) (r : Runtime W)
    (calls : List Call) (now : ℕ)
    → init rslens radio ≡ some r
    → IsCurrent (runtime_timer modem now (apply_all modem id calls r))
runtime-IsCurrent modem id rslens radio r calls now e =
    runtime_timer-IsCurrent modem now (apply_all modem id calls r)
      (apply_all-Told modem id calls r (init-Told rslens radio r e))
