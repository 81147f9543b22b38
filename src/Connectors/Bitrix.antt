-- ===== src/Connectors/Bitrix.antt =====
-- apps/api/src/connectors/crm/bitrix24.connector.ts. A row of the REST API is a record of the fields
-- that the connector reads. Moments and amounts come decoded; the addresses are arguments.
use ad_link.Common.{
  ℕ, Option, none, some, String, List, [], ◌∷◌, Text, string_eq, if◌then◌else◌, get_or, truthy,
  is_text, map, find?, head?, append_text,
}
use ad_link.Core.Enums.{LeadSource}
use ad_link.CrmSync.{RawContact, RawLead, RawDeal, RawDealStageHistory, CrmConnector}
use ad_link.Connectors.{Page, failed, last, more, Outcome, follow, rows_of, map_option, when_truthy}

-- An answer: refused, or rows (none where `result` is no array) and where the next page starts.
pub data Response (R : Type 0) : Type 0 where
  not_ok : Response R
  page : Option (List R) → Option ℕ → Response R

abbrev pub rest_page : {R : Type 0} → Response R → Page R ℕ
rest_page not_ok = failed
rest_page (page rows none) = last (get_or rows [])
rest_page (page rows (some next)) = more (get_or rows []) next

-- `paged`
unfoldable pub paged : {R : Type 0} → (ℕ → ℕ → Response R) → Outcome R
paged fetch = follow (λ i start. rest_page (fetch i start)) 1000 0 0 []

pub record HistoryItem : Type 0 where
  pub owner_id : Option String
  pub stage_id : Option String

-- The rows of the history that name a deal and a stage.
unfoldable pub transitions : List HistoryItem → List RawDealStageHistory
transitions [] = []
transitions (item ∷ items) =
    let rest = transitions items in
    elim item.owner_id [
      | none ↦ rest
      | some deal ↦ elim item.stage_id [
        | none ↦ rest
        | some stage ↦ record { deal_external_id = deal; stage_external_id = stage } ∷ rest
      ]
    ]

abbrev pub history_page : Response HistoryItem → Page RawDealStageHistory ℕ
history_page not_ok = failed
history_page (page items none) = last (transitions (get_or items []))
history_page (page items (some next)) = more (transitions (get_or items [])) next

-- `fetchDealStageHistory`
unfoldable pub fetch_deal_stage_history :
    (ℕ → ℕ → Response HistoryItem) → Option (List RawDealStageHistory)
fetch_deal_stage_history fetch =
    rows_of (follow (λ i start. history_page (fetch i start)) 2000 0 0 [])

pub record BitrixDeal : Type 0 where
  pub id : String
  pub contact_id : Option String
  pub stage_id : String
  pub opportunity : Option ℕ
  pub currency_id : Option String
  pub date_create : ℕ
  pub closed : Option String
  pub closedate : Option ℕ

abbrev pub deal_of : BitrixDeal → RawDeal
deal_of d = record {
  external_id = d.id;
  contact_external_id = when_truthy d.contact_id;
  stage_external_id = d.stage_id;
  amount = d.opportunity;
  currency = when_truthy d.currency_id;
  created_at = d.date_create;
  won_at = if is_text d.closed "Y" then d.closedate else none;
}

-- A contact that a deal is bound to.
pub record BoundContact : Type 0 where
  pub contact_id : Option String
  pub is_primary : Option String

-- `items.find(primary) ?? items[0]`
abbrev pub primary_of : List BoundContact → Option BoundContact
primary_of items = elim (find? (λ i. is_text i.is_primary "Y") items) [
  | some i ↦ some i
  | none ↦ head? items
]

abbrev pub contact_of : List BoundContact → Option String
contact_of items = elim (primary_of items) [ none ↦ none | some i ↦ when_truthy i.contact_id ]

module _ (bound : String → Option (List BoundContact)) where
  -- A deal without a contact is given the one that it is bound to; none where the request throws.
  unfoldable pub recover : RawDeal → Option RawDeal
  recover d = if truthy d.contact_external_id then some d else (elim (bound d.external_id) [
    | none ↦ none
    | some items ↦
        if truthy (contact_of items)
        then some (record d { contact_external_id = contact_of items })
        else some d
  ])

  unfoldable pub recover_all : List RawDeal → Option (List RawDeal)
  recover_all [] = some []
  recover_all (d ∷ ds) =
      let rest = recover_all ds in
      elim (recover d) [
        | none ↦ none
        | some d' ↦ elim rest [ none ↦ none | some ds' ↦ some (d' ∷ ds') ]
      ]

  -- `fetchDeals`
  unfoldable pub fetch_deals : (ℕ → ℕ → Response BitrixDeal) → Option (List RawDeal)
  fetch_deals fetch = elim (rows_of (paged fetch)) [
    | none ↦ none
    | some rows ↦ recover_all (map deal_of rows)
  ]

abbrev pub nonempty : List (Option Text) → List Text
nonempty [] = []
nonempty (none ∷ vs) = nonempty vs
nonempty (some [] ∷ vs) = nonempty vs
nonempty (some (c ∷ s) ∷ vs) = (c ∷ s) ∷ nonempty vs

-- `multi`: the values of a multi-field; none where it is no array
abbrev pub multi : Option (List (Option Text)) → List Text
multi none = []
multi (some values) = nonempty values

-- `[name, lastName].filter(Boolean).join(' ')`
abbrev pub joined_name : Option String → Option String → Option String
joined_name name last_name =
    if truthy name
    then if truthy last_name
      then some (append_text (get_or name "") (append_text " " (get_or last_name "")))
      else name
    else when_truthy last_name

pub record BitrixContact : Type 0 where
  pub id : String
  pub name : Option String
  pub last_name : Option String
  pub phone : Option (List (Option Text))
  pub email : Option (List (Option Text))

abbrev pub person_of : BitrixContact → RawContact
person_of c = record {
  external_id = c.id;
  person = record {
    name = joined_name c.name c.last_name;
    phones = some (multi c.phone);
    emails = some (multi c.email);
  };
}

pub record BitrixLead : Type 0 where
  pub id : String
  pub title : Option String
  pub name : Option String
  pub last_name : Option String
  pub phone : Option (List (Option Text))
  pub email : Option (List (Option Text))
  pub date_create : ℕ
  pub utm_source : Option String
  pub utm_medium : Option String
  pub utm_campaign : Option String
  pub utm_content : Option String
  pub utm_term : Option String

abbrev pub name_or_title : Option String → Option String → Option String
name_or_title none title = when_truthy title
name_or_title (some name) title = some name

-- `fetchLeads` on one row; `utm` is undefined just where no tag is there.
abbrev pub lead_of : BitrixLead → RawLead
lead_of l = record {
  source = LeadSource.crm;
  external_id = some l.id;
  leadgen_id = none;
  ad_external_id = none;
  fbclid = none;
  utm_source = when_truthy l.utm_source;
  utm_medium = when_truthy l.utm_medium;
  utm_campaign = when_truthy l.utm_campaign;
  utm_content = when_truthy l.utm_content;
  utm_term = when_truthy l.utm_term;
  person = record {
    name = name_or_title (joined_name l.name l.last_name) l.title;
    phones = some (multi l.phone);
    emails = some (multi l.email);
  };
  created_at = l.date_create;
}

-- The answers of a portal, one stream of pages for each method.
pub record Portal : Type 0 where
  pub contacts : ℕ → ℕ → Response BitrixContact
  pub leads : ℕ → ℕ → Response BitrixLead
  pub deals : ℕ → ℕ → Response BitrixDeal
  pub history : ℕ → ℕ → Response HistoryItem
  pub bound : String → Option (List BoundContact)

unfoldable pub bitrix_connector : Portal → CrmConnector
bitrix_connector portal = record {
  contacts = map_option (map person_of) (rows_of (paged portal.contacts));
  leads = map_option (map lead_of) (rows_of (paged portal.leads));
  history = some (fetch_deal_stage_history portal.history);
  deals = fetch_deals portal.bound portal.deals;
}
