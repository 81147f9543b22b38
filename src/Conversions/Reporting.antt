-- ===== src/Conversions/Reporting.antt =====
-- apps/api/src/conversions/conversions.service.ts: how the pending events are pushed to the ad
-- platform. Its connector is a parameter, that answers or throws for an event.
use ad_link.Common.{
  ℕ, ◌+◌, Bool, true, false, ◌&&◌, Option, none, some, String, List, [], ◌∷◌, Text, ◌==◌, string_eq,
  find?, filter, update_where, length, take,
}
use ad_link.Core.Enums.{ConversionState, is_pending, IdentifierType}
use ad_link.Db.{AdAccount, EventId, of_lead, of_deal, ConversionEvent, ContactIdentifier}
use ad_link.Conversions.{Store, event_eq}

pub record UserData : Type 0 where
  pub phone : Option Text
  pub email : Option Text

abbrev pub is_phone : IdentifierType → Bool
is_phone IdentifierType.phone = true
is_phone IdentifierType.email = false

abbrev pub is_email : IdentifierType → Bool
is_email IdentifierType.phone = false
is_email IdentifierType.email = true

-- `rows.find(...)?.hash`
unfoldable pub hash_of : (IdentifierType → Bool) → List ContactIdentifier → Option Text
hash_of p rows = elim (find? (λ i. p i.type) rows) [ none ↦ none | some i ↦ some i.hash ]

-- The contact of the outcome.
unfoldable pub contact_of : EventId → Store → Option String
contact_of (of_lead id) s = elim (find? (λ l. l.id == id) s.leads) [
  | none ↦ none
  | some l ↦ l.contact_id
]
contact_of (of_deal id) s = elim (find? (λ d. d.id == id) s.deals) [
  | none ↦ none
  | some d ↦ d.contact_id
]

unfoldable pub user_data_for : EventId → Store → UserData
user_data_for id s = elim (contact_of id s) [
  | none ↦ record { phone = none; email = none }
  | some contact ↦
      let rows = filter (λ i. i.contact_id == contact) s.identifiers in
      record { phone = hash_of is_phone rows; email = hash_of is_email rows }
]

-- The verdict on a pushed event: what the connector answers, or that it (or the vault) throws.
pub data Verdict : Type 0 where
  answered : Bool → Verdict
  threw : Verdict

abbrev pub state_of : Verdict → ConversionState
state_of (answered true) = ConversionState.accepted
state_of (answered false) = ConversionState.rejected
state_of threw = ConversionState.rejected

pub record Pushed : Type 0 where
  pub sent : ℕ
  pub accepted : ℕ
  pub rejected : ℕ

-- The verdict is counted.
abbrev pub count : Verdict → Pushed → Pushed
count (answered true) r = record r { accepted = 1 + r.accepted }
count (answered false) r = record r { rejected = 1 + r.rejected }
count threw r = record r { rejected = 1 + r.rejected }

-- `update` by the event's key.
abbrev pub set_state : EventId → ConversionState → List ConversionEvent → List ConversionEvent
set_state id state = update_where (λ v. v.event_id == id) (λ v. record v { state = state })

module _ (push_conversion : Option (AdAccount → ConversionEvent → UserData → Verdict)) where
  -- One round of the loop; the connector need not have the method.
  unfoldable pub push_one :
      Store → ConversionEvent → List ConversionEvent × Pushed → List ConversionEvent × Pushed
  push_one s ev (events, r) = elim (find? (λ a. a.id == ev.ad_account_id) s.accounts) [
    | none ↦ (events, r)
    | some acc ↦ elim push_conversion [
      | none ↦ (events, r)
      | some call ↦
          let verdict = call acc ev (user_data_for ev.event_id s) in
          (set_state ev.event_id (state_of verdict) events, count verdict r)
    ]
  ]

  unfoldable pub push_all :
      Store → List ConversionEvent → List ConversionEvent × Pushed → List ConversionEvent × Pushed
  push_all s [] acc = acc
  push_all s (ev ∷ evs) acc = push_all s evs (push_one s ev acc)

  abbrev pub pending_of : String → List ConversionEvent → List ConversionEvent
  pending_of tenant_id events =
      take 500 (filter (λ v. v.tenant_id == tenant_id && is_pending v.state) events)

  unfoldable pub push : String → Store → Store × Pushed
  push tenant_id s =
      let pending = pending_of tenant_id s.events in
      let (events, r) =
        push_all s pending
          (s.events, record { sent = length pending; accepted = 0; rejected = 0 }) in
      (record s { events = events }, r)
