-- ===== src/Db.antt =====
-- The rows of the database tables (packages/db/prisma/schema.prisma), as far as the services of
-- apps/api/src read and write them. A table is the list of its rows, in the order in which an
-- unordered query returns them; every theorem is about every order. A moment is a number of
-- milliseconds and a date a number of days, both since 1970 in UTC.
use ad_link.Common.{ℕ, ◌/◌, Bool, Option, String, List, Text, string_eq}
use ad_link.Core.Enums.{
  CanonicalStatus, LeadSource, IdentifierType, MatchMethod, MatchStatus, ConversionType,
  ConversionState, CrmProvider, SyncState,
}

abbrev pub day_ms : ℕ
day_ms = 86400000

-- The date of a moment.
abbrev pub day_of : ℕ → ℕ
day_of t = t / day_ms

pub record Lead : Type 0 where
  pub id : String
  pub tenant_id : String
  pub contact_id : Option String
  pub source : LeadSource
  pub external_id : Option String
  pub leadgen_id : Option String
  pub fbclid : Option String
  pub utm_source : Option String
  pub utm_medium : Option String
  pub utm_campaign : Option String
  pub utm_content : Option String
  pub utm_term : Option String
  pub created_at : ℕ
  pub ad_id : Option String
  pub match_method : Option MatchMethod
  pub match_status : MatchStatus
  pub confidence : Option ℕ

pub record AdAccount : Type 0 where
  pub id : String
  pub tenant_id : String
  pub external_id : String
  pub currency : String
  pub feedback_opt_in : Bool
  pub created_at : ℕ

pub record Campaign : Type 0 where
  pub id : String
  pub tenant_id : String
  pub ad_account_id : String
  pub external_id : String
  pub name : String
  pub status : Option String
  pub effective_status : Option String

pub record AdSet : Type 0 where
  pub id : String
  pub tenant_id : String
  pub campaign_id : String
  pub external_id : String
  pub name : String
  pub status : Option String
  pub effective_status : Option String

pub record Ad : Type 0 where
  pub id : String
  pub tenant_id : String
  pub ad_set_id : String
  pub external_id : String
  pub name : String
  pub status : Option String
  pub effective_status : Option String
  pub creative_id : Option String

-- A row of AdInsightDaily; the spend in units of 10⁻⁶.
pub record Insight : Type 0 where
  pub tenant_id : String
  pub ad_id : String
  pub date : ℕ
  pub spend : ℕ
  pub currency : String
  pub impressions : ℕ
  pub clicks : ℕ

pub record Contact : Type 0 where
  pub id : String
  pub tenant_id : String
  pub name : Option String

pub record ContactIdentifier : Type 0 where
  pub tenant_id : String
  pub contact_id : String
  pub type : IdentifierType
  pub normalized : Text
  pub hash : Text

-- The amount in units of 10⁻².
pub record Deal : Type 0 where
  pub id : String
  pub tenant_id : String
  pub contact_id : Option String
  pub external_id : String
  pub stage_external_id : String
  pub stage_history : List String
  pub canonical : CanonicalStatus
  pub amount : Option ℕ
  pub currency : Option String
  pub created_at : ℕ
  pub won_at : Option ℕ

-- The key of an event, one for each outcome: `QL:` and a lead's id, or `PUR:` and a deal's id.
pub data EventId : Type 0 where
  of_lead of_deal : String → EventId

pub record ConversionEvent : Type 0 where
  pub tenant_id : String
  pub ad_account_id : String
  pub type : ConversionType
  pub event_id : EventId
  pub leadgen_id : Option String
  pub value : Option ℕ
  pub currency : Option String
  pub state : ConversionState

pub record CrmConnection : Type 0 where
  pub id : String
  pub tenant_id : String
  pub client_id : String
  pub provider : CrmProvider
  pub external_ref : String
  pub auth_ref : String
  pub revenue_field : Option String
  pub last_sync_at : Option ℕ
  pub sync_state : SyncState
  pub created_at : ℕ

pub record StageMapping : Type 0 where
  pub tenant_id : String
  pub crm_connection_id : String
  pub external_stage_id : String
  pub external_stage_name : String
  pub canonical : CanonicalStatus
