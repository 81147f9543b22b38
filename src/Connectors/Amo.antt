-- ===== src/Connectors/Amo.antt =====
-- apps/api/src/connectors/crm/amocrm.connector.ts and crm-connector.registry.ts. A row of the REST API is
-- a record of the fields that the connector reads. The addresses are arguments, and a moment in seconds
-- becomes one in milliseconds.
use ad_link.Common.{
  ℕ, ◌+◌, ◌*◌, Bool, true, false, Option, none, some, String, List, [], ◌∷◌, ◌++◌, Text, ◌==◌,
  text_eq, eqb, if◌then◌else◌, get_or, map, find?, head?,
}
use ad_link.Core.Enums.{CrmProvider}
use ad_link.CrmSync.{RawContact, RawDeal, CrmConnector}
use ad_link.Connectors.{Page, failed, last, more, Outcome, follow, rows_of, map_option}
use ad_link.Connectors.Bitrix.{Portal, bitrix_connector}

-- An answer: refused, without content (204), or rows, with a flag that there is a next page.
pub data Response (R : Type 0) : Type 0 where
  not_ok no_content : Response R
  page : Option (List R) → Bool → Response R

-- The body of the loop, on the page with this number.
abbrev pub amo_page : {R : Type 0} → ℕ → Response R → Page R ℕ
amo_page n not_ok = failed
amo_page n no_content = last []
amo_page n (page rows false) = last (get_or rows [])
amo_page n (page rows true) = more (get_or rows []) (n + 1)

-- `paged`
unfoldable pub paged : {R : Type 0} → (ℕ → ℕ → Response R) → Outcome R
paged fetch = follow (λ i n. amo_page n (fetch i n)) 1000 0 1 []

-- `fetchStages`: the stages of all pipelines
pub record RawStage : Type 0 where
  pub external_id : String
  pub name : String

unfoldable pub stages_of : List (Option (List RawStage)) → List RawStage
stages_of [] = []
stages_of (none ∷ pipelines) = stages_of pipelines
stages_of (some stages ∷ pipelines) = stages ++ stages_of pipelines

pub record CustomField : Type 0 where
  pub field_code : Text
  pub values : Option (List Text)

abbrev pub nonempty : List Text → List Text
nonempty [] = []
nonempty ([] ∷ vs) = nonempty vs
nonempty ((c ∷ s) ∷ vs) = (c ∷ s) ∷ nonempty vs

-- `field`: the values of the first field with this code
abbrev pub field_values : Option (List CustomField) → Text → List Text
field_values fields code' = elim (find? (λ f. f.field_code == code') (get_or fields [])) [
  | none ↦ []
  | some f ↦ nonempty (get_or f.values [])
]

-- "PHONE" and "EMAIL"
abbrev pub phone_code : Text
phone_code = 80 ∷ 72 ∷ 79 ∷ 78 ∷ 69 ∷ []

abbrev pub email_code : Text
email_code = 69 ∷ 77 ∷ 65 ∷ 73 ∷ 76 ∷ []

pub record AmoContact : Type 0 where
  pub id : String
  pub name : Option String
  pub custom_fields_values : Option (List CustomField)

abbrev pub contact_of : AmoContact → RawContact
contact_of c = record {
  external_id = c.id;
  person = record {
    name = c.name;
    phones = some (field_values c.custom_fields_values phone_code);
    emails = some (field_values c.custom_fields_values email_code);
  };
}

pub record LinkedContact : Type 0 where
  pub id : String
  pub is_main : Bool

pub record AmoLead : Type 0 where
  pub id : String
  pub contacts : Option (List LinkedContact)
  pub status_id : String
  pub price : Option ℕ
  pub created_at : ℕ
  pub closed_at : Option ℕ

-- `mainContact`
abbrev pub main_contact : Option (List LinkedContact) → Option String
main_contact contacts = elim (find? (λ c. c.is_main) (get_or contacts [])) [
  | some c ↦ some c.id
  | none ↦ map_option (λ c. c.id) (head? (get_or contacts []))
]

-- `closed_at ? iso(closed_at) : undefined`, the moment in milliseconds
abbrev pub closed_moment : Option ℕ → Option ℕ
closed_moment none = none
closed_moment (some t) = if eqb t 0 then none else some (t * 1000)

abbrev pub deal_of : AmoLead → RawDeal
deal_of l = record {
  external_id = l.id;
  contact_external_id = main_contact l.contacts;
  stage_external_id = l.status_id;
  amount = l.price;
  currency = none;
  created_at = l.created_at * 1000;
  won_at = closed_moment l.closed_at;
}

-- The answers of an account, one stream of pages for each method.
pub record AmoAccount : Type 0 where
  pub contacts : ℕ → ℕ → Response AmoContact
  pub leads : ℕ → ℕ → Response AmoLead

-- The inquiry is the deal: `fetchLeads` has none, and there is no method for the history.
unfoldable pub amo_connector : AmoAccount → CrmConnector
amo_connector account = record {
  contacts = map_option (map contact_of) (rows_of (paged account.contacts));
  leads = some [];
  history = none;
  deals = map_option (map deal_of) (rows_of (paged account.leads));
}

-- `CrmConnectorRegistry.resolve`: none where it throws
unfoldable pub resolve : Portal → AmoAccount → CrmProvider → Option CrmConnector
resolve portal account CrmProvider.bitrix24 = some (bitrix_connector portal)
resolve portal account CrmProvider.amocrm = some (amo_connector account)
resolve portal account _ = none
