-- ===== src/Conversions.antt =====
-- apps/api/src/conversions/conversions.service.ts: the outcomes that become events to report.
use ad_link.Common.{
  ℕ, ◌+◌, Bool, true, false, ◌&&◌, ◌||◌, Option, none, some, String, List, [], ◌∷◌, ◌++◌, Text, ◌≡◌,
  refl, ◌==◌, string_eq, Eq, ◌↔◌, eq_iff, arith, if◌then◌else◌, find?, any, filter, update_where,
  length, take, map, leb, is_some, is_text, get_or, contains, add, lookup, insert, dict_of, keys,
  sort,
}
use ad_link.Core.Enums.{
  MatchStatus, is_matched, CanonicalStatus, is_won, is_qualified, ConversionType, ConversionState,
  is_pending, IdentifierType,
}
use ad_link.Db.{
  AdAccount, Campaign, AdSet, Ad, Lead, Deal, EventId, of_lead, of_deal, ConversionEvent,
  CrmConnection, ContactIdentifier,
}
pub mod Events
pub mod Outcomes
pub mod Reporting
pub mod Push
mod Tests

pub record Store : Type 0 where
  pub accounts : List AdAccount
  pub campaigns : List Campaign
  pub ad_sets : List AdSet
  pub ads : List Ad
  pub connections : List CrmConnection
  pub leads : List Lead
  pub deals : List Deal
  pub identifiers : List ContactIdentifier
  pub events : List ConversionEvent

abbrev pub same_event : EventId → EventId → Bool
same_event (of_lead a) (of_lead b) = a == b
same_event (of_deal a) (of_deal b) = a == b
same_event _ _ = false

pub same_event_iff : (a b : EventId) → (same_event a b ≡ true) ↔ (a ≡ b)
same_event_iff (of_lead a) (of_lead b) = ground (arith, eq_iff a b)
same_event_iff (of_deal a) (of_deal b) = ground (arith, eq_iff a b)
same_event_iff (of_lead a) (of_deal b) = ground arith
same_event_iff (of_deal a) (of_lead b) = ground arith

instance abbrev pub event_eq : Eq EventId
event_eq = record { same = same_event; same_iff = same_event_iff }

-- `ad.adSet.campaign.adAccountId`
unfoldable pub account_of : List AdSet → List Campaign → Ad → Option String
account_of ad_sets campaigns ad = elim (find? (λ a. a.id == ad.ad_set_id) ad_sets) [
  | none ↦ none
  | some set ↦ elim (find? (λ c. c.id == set.campaign_id) campaigns) [
    | none ↦ none
    | some campaign ↦ some campaign.ad_account_id
  ]
]

-- The accounts of the tenant that opted in.
abbrev pub opted_in : String → List AdAccount → List String
opted_in tenant_id accounts =
    map (λ a. a.id) (filter (λ a. a.tenant_id == tenant_id && a.feedback_opt_in) accounts)

-- The entries of `accountByAd`: the ads of those accounts.
unfoldable pub ad_accounts :
    String → List String → List AdSet → List Campaign → List Ad → List (String × String)
ad_accounts tenant_id acc_ids ad_sets campaigns [] = []
ad_accounts tenant_id acc_ids ad_sets campaigns (ad ∷ ads) =
    let rest = ad_accounts tenant_id acc_ids ad_sets campaigns ads in
    elim (account_of ad_sets campaigns ad) [
      | none ↦ rest
      | some acc ↦
          if ad.tenant_id == tenant_id && contains acc_ids acc then (ad.id, acc) ∷ rest else rest
    ]

-- `_min.createdAt` of the tenant's connections.
unfoldable pub crm_floor : String → List CrmConnection → Option ℕ
crm_floor tenant_id [] = none
crm_floor tenant_id (c ∷ cs) =
    let rest = crm_floor tenant_id cs in
    if c.tenant_id == tenant_id
    then (elim rest [
      | none ↦ some c.created_at
      | some t ↦ if leb c.created_at t then some c.created_at else some t
    ])
    else rest

-- `createdAt: floor ? { gte: floor } : undefined`
abbrev pub not_before : Option ℕ → ℕ → Bool
not_before none t = true
not_before (some floor) t = leb floor t

abbrev pub older_lead : Lead → Lead → Bool
older_lead a b = leb a.created_at b.created_at

pub record ContactLead : Type 0 where
  pub lead_id : String
  pub ad_id : String
  pub leadgen_id : Option String

-- The `where` of the query for the leads.
abbrev pub is_attributed : String → List String → Option ℕ → Lead → Bool
is_attributed tenant_id ad_ids floor l =
    l.tenant_id == tenant_id
    && (contains ad_ids (get_or l.ad_id "") && is_some l.ad_id)
    && (is_matched l.match_status && (is_some l.contact_id && not_before floor l.created_at))

-- `contactLead`: the last of the leads of every contact.
abbrev pub contact_entry : Lead → String × ContactLead
contact_entry l = (
  get_or l.contact_id "",
  record { lead_id = l.id; ad_id = get_or l.ad_id ""; leadgen_id = l.leadgen_id },
)

abbrev pub contact_leads : String → List String → Option ℕ → List Lead → List (String × ContactLead)
contact_leads tenant_id ad_ids floor leads =
    dict_of []
      (map contact_entry (sort older_lead (filter (is_attributed tenant_id ad_ids floor) leads)))

abbrev pub is_outcome : String → List String → Option ℕ → Deal → Bool
is_outcome tenant_id contact_ids floor d =
    d.tenant_id == tenant_id
    && ((is_some d.contact_id && contains contact_ids (get_or d.contact_id ""))
        && not_before floor d.created_at)

-- `new Set(...)`
unfoldable pub set_of : List String → List String → List String
set_of xs [] = xs
set_of xs (k ∷ ks) = set_of (add xs k) ks

abbrev pub qualified_contacts : List Deal → List String
qualified_contacts deals = set_of [] (
    map (λ d. get_or d.contact_id "")
      (filter (λ d. is_qualified d.canonical || is_won d.canonical) deals))

-- The arguments of one call of `createEvent`.
pub record NewEvent : Type 0 where
  pub ad_account_id : String
  pub type : ConversionType
  pub event_id : EventId
  pub leadgen_id : Option String
  pub value : Option ℕ
  pub currency : Option String

unfoldable pub create_event : String → NewEvent → List ConversionEvent → List ConversionEvent × Bool
create_event tenant_id e events = elim (find? (λ v. v.event_id == e.event_id) events) [
  | some existing ↦ (events, false)
  | none ↦ (
    events
        ++ record {
          tenant_id = tenant_id;
          ad_account_id = e.ad_account_id;
          type = e.type;
          event_id = e.event_id;
          leadgen_id = e.leadgen_id;
          value = e.value;
          currency = e.currency;
          state = ConversionState.pending;
        }
          ∷ [],
    true,
  )
]

-- The calls of the first loop: one for each qualified contact.
unfoldable pub qualified_events :
    List (String × String) → List (String × ContactLead) → List String → List NewEvent
qualified_events account_by_ad leads [] = []
qualified_events account_by_ad leads (contact_id ∷ contacts) =
    let rest = qualified_events account_by_ad leads contacts in
    elim (lookup contact_id leads) [
      | none ↦ rest
      | some cl ↦
          record {
            ad_account_id = get_or (lookup cl.ad_id account_by_ad) "";
            type = ConversionType.qualified_lead;
            event_id = of_lead cl.lead_id;
            leadgen_id = cl.leadgen_id;
            value = none;
            currency = none;
          }
          ∷ rest
    ]

-- The calls of the second loop: one for each deal that is won.
unfoldable pub purchase_events :
    List (String × String) → List (String × ContactLead) → List Deal → List NewEvent
purchase_events account_by_ad leads [] = []
purchase_events account_by_ad leads (d ∷ deals) =
    let rest = purchase_events account_by_ad leads deals in
    elim (lookup (get_or d.contact_id "") leads) [
      | none ↦ rest
      | some cl ↦
          record {
            ad_account_id = get_or (lookup cl.ad_id account_by_ad) "";
            type = ConversionType.purchase;
            event_id = of_deal d.id;
            leadgen_id = cl.leadgen_id;
            value = some (get_or d.amount 0);
            currency = d.currency;
          }
          ∷ rest
    ]

unfoldable pub create_events :
    String → List NewEvent → List ConversionEvent → List ConversionEvent × ℕ
create_events tenant_id [] events = (events, 0)
create_events tenant_id (e ∷ es) events =
    let (events', fresh) = create_event tenant_id e events in
    let (events'', created) = create_events tenant_id es events' in
    (events'', if fresh then 1 + created else created)

-- An early return: without an element of the list there is nothing to do.
abbrev pub unless_empty : List String → List NewEvent → List NewEvent
unless_empty [] calls = []
unless_empty (x ∷ xs) calls = calls

-- All the calls of one run, in their order.
unfoldable pub wanted : String → Store → List NewEvent
wanted tenant_id s =
    let acc_ids = opted_in tenant_id s.accounts in
    let account_by_ad = dict_of [] (ad_accounts tenant_id acc_ids s.ad_sets s.campaigns s.ads) in
    let floor = crm_floor tenant_id s.connections in
    let leads = contact_leads tenant_id (keys account_by_ad) floor s.leads in
    let deals = filter (is_outcome tenant_id (keys leads) floor) s.deals in
    unless_empty acc_ids (
      unless_empty (keys account_by_ad) (
        qualified_events account_by_ad leads (qualified_contacts deals)
        ++ purchase_events account_by_ad leads (filter (λ d. is_won d.canonical) deals)))

unfoldable pub generate : String → Store → Store × ℕ
generate tenant_id s =
    let (events, created) = create_events tenant_id (wanted tenant_id s) s.events in
    (record s { events = events }, created)
