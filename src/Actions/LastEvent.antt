-- ===== src/Actions/LastEvent.antt =====
-- getDistributeEventFromLog and getDelegateNameFromTopic of indexprotocol/actions/hermes.go.
use iotex_analytics.Common.{
  ℕ, zero, suc, ◌≡◌, ◌≢◌, sym, false, Option-cases, refl, ap, ◌∙◌, inl, inr, Option, none, some,
  List, [], ◌∷◌, ◌++◌, length, get_elem?, All, Go, ok, err, abort, panic, bind_go, ◌==◌, arith,
}
use iotex_analytics.Actions.Tables.{ContractLog}
use iotex_analytics.Actions.Distribution.{
  Abi, DistributeEvent, distribute_event, events_back, get_distribute_event_from_log,
  get_delegate_name_from_topic,
}

-- What a log leads to, after those behind it.
abbrev or_before :
    Go (Option DistributeEvent) → Go (Option DistributeEvent) → Go (Option DistributeEvent)
or_before here before = bind_go here (λ found. elim found [ some e ↦ ok (some e) | none ↦ before ])

or_before-none : (m : Go (Option DistributeEvent)) → or_before m (ok none) ≡ m
or_before-none (ok none) = refl
or_before-none (ok (some e)) = refl
or_before-none (err e) = refl
or_before-none (abort x) = refl

or_before_assoc :
    (a b c : Go (Option DistributeEvent))
    → or_before a (or_before b c) ≡ or_before (or_before a b) c
or_before_assoc (ok none) b c = refl
or_before_assoc (ok (some e)) b c = refl
or_before_assoc (err e) b c = refl
or_before_assoc (abort x) b c = refl

abbrev step_back :
    Abi → Option ContractLog → Go (Option DistributeEvent) → Go (Option DistributeEvent)
step_back abi none before = panic
step_back abi (some l) before = or_before (distribute_event abi l) before

step_back_assoc :
    (abi : Abi) (o : Option ContractLog) (before first : Go (Option DistributeEvent))
    → step_back abi o (or_before before first) ≡ or_before (step_back abi o before) first
step_back_assoc abi none before first = refl
step_back_assoc abi (some l) before first = or_before_assoc (distribute_event abi l) before first

events_back-suc :
    (abi : Abi) (logs : List ContractLog) (n : ℕ)
    → events_back abi logs (suc n) ≡ step_back abi (get_elem? logs n) (events_back abi logs n)
unfolding events_back
events_back-suc abi logs n = elim (Option-cases (get_elem? logs n)) [
  | inl e ↦ rw (e, events_back) refl
  | inr (l, e) ↦ rw (e, events_back) refl
]

-- The first log is the last one to be asked.
events_back-cons :
    (abi : Abi) (l : ContractLog) (ls : List ContractLog) (n : ℕ)
    → events_back abi (l ∷ ls) (suc n) ≡ or_before (events_back abi ls n) (distribute_event abi l)
unfolding events_back
events_back-cons abi l ls zero = or_before-none (distribute_event abi l)
events_back-cons abi l ls (suc n) =
    events_back-suc abi (l ∷ ls) (suc n)
    ∙ ap (step_back abi (get_elem? ls n)) (events_back-cons abi l ls n)
    ∙ step_back_assoc abi (get_elem? ls n) (events_back abi ls n) (distribute_event abi l)
    ∙ ap (λ q. or_before q (distribute_event abi l)) (sym (events_back-suc abi ls n))

from_logs-cons :
    (abi : Abi) (l : ContractLog) (ls : List ContractLog)
    → get_distribute_event_from_log abi (l ∷ ls)
      ≡ or_before (get_distribute_event_from_log abi ls) (distribute_event abi l)
unfolding get_distribute_event_from_log
from_logs-cons abi l ls = events_back-cons abi l ls (length ls)

-- Logs that are no distributions.
abbrev pub HasNone : Abi → List ContractLog → Type 0
HasNone abi = All (λ l. distribute_event abi l ≡ ok none)

from_logs-none :
    (abi : Abi) (logs : List ContractLog)
    → HasNone abi logs
    → get_distribute_event_from_log abi logs ≡ ok none
unfolding get_distribute_event_from_log events_back
from_logs-none abi [] h = refl
from_logs-none abi (l ∷ ls) (h, hs) = from_logs-cons abi l ls ∙ rw (from_logs-none abi ls hs) h

from_logs-found :
    (abi : Abi) (before logs : List ContractLog) (e : DistributeEvent)
    → get_distribute_event_from_log abi logs ≡ ok (some e)
    → get_distribute_event_from_log abi (before ++ logs) ≡ ok (some e)
from_logs-found abi [] logs e h = h
from_logs-found abi (l ∷ before) logs e h =
    from_logs-cons abi l (before ++ logs) ∙ rw (from_logs-found abi before logs e h) refl

-- Of the logs of a receipt, the last one that is a distribution gives the event: when the logs behind
-- it are none and it has an event, getDistributeEventFromLog returns that event, whatever the logs
-- before it are. When no log is a distribution, it returns that there is none.
pub get_distribute_event_from_log-last :
    (abi : Abi) (before behind : List ContractLog) (l : ContractLog) (e : DistributeEvent)
    → HasNone abi behind
    → distribute_event abi l ≡ ok (some e)
    → (get_distribute_event_from_log abi (before ++ l ∷ behind) ≡ ok (some e))
      × (get_distribute_event_from_log abi behind ≡ ok none)
get_distribute_event_from_log-last abi before behind l e h found = (
  from_logs-found abi before (l ∷ behind) e
      (from_logs-cons abi l behind ∙ rw (from_logs-none abi behind h) found),
  from_logs-none abi behind h,
)

-- A name without a zero byte is read up to the zero byte behind it. A topic without a zero byte, as
-- that of a name of 32 bytes, panics.
pub get_delegate_name_from_topic_lem :
    (name rest : List ℕ)
    → All (λ b. b ≢ 0) name
    → (get_delegate_name_from_topic (name ++ 0 ∷ rest) ≡ ok name)
      × (get_delegate_name_from_topic name ≡ panic)
unfolding get_delegate_name_from_topic
get_delegate_name_from_topic_lem [] rest h = (refl, refl)
get_delegate_name_from_topic_lem (b ∷ bs) rest (h, hs) =
    let (named, panics) = get_delegate_name_from_topic_lem bs rest hs in
    let nonzero : (b == 0) ≡ false = ground (arith, h) in
    (rw nonzero (rw named refl), rw nonzero (rw panics refl))
