-- ===== src/Connectors/Meta.antt =====
-- apps/api/src/connectors/meta/meta.connector.ts. A row of the Graph API is a record of the fields that
-- the connector reads; a number comes as a text, and `Number` on it is a parameter, in the units of
-- MetaSync. The addresses are arguments.
use ad_link.Common.{
  ℕ, ◌/◌, Bool, true, false, Option, none, some, String, List, [], Text, ◌==◌, string_eq, leb, eqb,
  if◌then◌else◌, get_or, truthy, map,
}
use ad_link.Core.Enums.{ConversionType}
use ad_link.MetaSync.{RawAd, RawAdSet, RawCampaign, RawInsight, DateRange, AdConnector}
use ad_link.Connectors.{
  Page, failed, last, more, Outcome, thrown, done, cut, follow, rows_of, map_option, when_truthy,
}

-- An answer of the Graph API: refused, or rows and the address of the next page.
pub data Response (R : Type 0) : Type 0 where
  not_ok : Response R
  page : Option (List R) → Option String → Response R

-- The body of the loop; the loop goes on while the address is not empty.
abbrev pub graph_page : {R : Type 0} → Response R → Page R String
graph_page not_ok = failed
graph_page (page rows none) = last (get_or rows [])
graph_page (page rows (some url)) =
    if url == "" then last (get_or rows []) else more (get_or rows []) url

abbrev pub rounds : ℕ
rounds = 1000

module _ {R : Type 0} (fetch : ℕ → String → Response R) where
  abbrev pub ask : ℕ → String → Page R String
  ask i url = graph_page (fetch i url)

  -- `pagedGet`
  unfoldable pub paged_get : String → Outcome R
  paged_get url = if url == "" then done [] 0 else follow ask rounds 0 url []

-- `guard >= 1000` after the loop
abbrev pub warns : {R : Type 0} → Outcome R → Bool
warns thrown = false
warns (done rows pages) = leb rounds pages
warns (cut rows) = true

pub record GraphCreative : Type 0 where
  pub id : Option String
  pub name : Option Text

pub record GraphAd : Type 0 where
  pub id : String
  pub name : String
  pub status : Option String
  pub effective_status : Option String
  pub creative : Option GraphCreative

pub record GraphAdSet : Type 0 where
  pub id : String
  pub name : String
  pub status : Option String
  pub effective_status : Option String
  pub ads : Option (Option (List GraphAd))

pub record GraphCampaign : Type 0 where
  pub id : String
  pub name : String
  pub status : Option String
  pub effective_status : Option String
  pub adsets : Option (Option (List GraphAdSet))

-- `edge?.data ?? []`
abbrev pub edge : {A : Type 0} → Option (Option (List A)) → List A
edge none = []
edge (some none) = []
edge (some (some rows)) = rows

abbrev pub creative_id : Option GraphCreative → Option String
creative_id none = none
creative_id (some c) = c.id

abbrev pub creative_name : Option GraphCreative → Option Text
creative_name none = none
creative_name (some c) = c.name

abbrev pub ad_of : GraphAd → RawAd
ad_of a = record {
  external_id = a.id;
  name = a.name;
  status = a.status;
  effective_status = a.effective_status;
  creative_external_id = creative_id a.creative;
  creative_name = creative_name a.creative;
}

abbrev pub ad_set_of : GraphAdSet → RawAdSet
ad_set_of s = record {
  external_id = s.id;
  name = s.name;
  status = s.status;
  effective_status = s.effective_status;
  ads = map ad_of (edge s.ads);
}

abbrev pub campaign_of : GraphCampaign → RawCampaign
campaign_of c = record {
  external_id = c.id;
  name = c.name;
  status = c.status;
  effective_status = c.effective_status;
  ad_sets = map ad_set_of (edge c.adsets);
}

pub record GraphInsight : Type 0 where
  pub ad_id : String
  pub date_start : ℕ
  pub spend : Option Text
  pub impressions : Option Text
  pub clicks : Option Text

-- `Number(text ?? 0)`
abbrev pub number_or : (Text → ℕ) → Option Text → ℕ
number_or number none = 0
number_or number (some t) = number t

module _ (number money : Text → ℕ) (currency : String) where
  abbrev pub insight_of : GraphInsight → RawInsight
  insight_of r = record {
    ad_external_id = r.ad_id;
    date = r.date_start;
    spend = number_or money r.spend;
    currency = currency;
    impressions = number_or number r.impressions;
    clicks = number_or number r.clicks;
  }

  -- `fetchAdHierarchy` and `fetchInsights`, at the addresses that they build
  unfoldable pub meta_connector :
      (ℕ → String → Response GraphCampaign)
      → (ℕ → String → Response GraphInsight)
      → String
      → (DateRange → String)
      → AdConnector
  meta_connector campaigns insights campaigns_url insights_url = record {
    hierarchy = map_option (map campaign_of) (rows_of (paged_get campaigns campaigns_url));
    insights =
        λ range. map_option (map insight_of) (rows_of (paged_get insights (insights_url range)));
  }

-- `ConversionPayload` and the event that is sent for it.
pub record ConversionPayload : Type 0 where
  pub type : ConversionType
  pub event_id : String
  pub leadgen_id : Option String
  pub value : Option ℕ
  pub currency : Option String
  pub phone : Option String
  pub email : Option String
  pub occurred_at : ℕ

pub record CapiEvent : Type 0 where
  pub event_name : String
  pub event_time : ℕ
  pub event_id : String
  pub em : Option String
  pub ph : Option String
  pub lead_id : Option String
  pub custom_data : Option (ℕ × String)

abbrev pub event_name_of : ConversionType → String
event_name_of ConversionType.purchase = "Purchase"
event_name_of ConversionType.lead = "Lead"
event_name_of ConversionType.qualified_lead = "Lead"

-- The value is sent with its currency, and not at all where it is 0.
abbrev pub custom_data_of : Option ℕ → Option String → Option (ℕ × String)
custom_data_of none currency = none
custom_data_of (some v) currency = if eqb v 0 then none else some (v, get_or currency "USD")

abbrev pub event_of : ConversionPayload → CapiEvent
event_of ev = record {
  event_name = event_name_of ev.type;
  event_time = ev.occurred_at / 1000;
  event_id = ev.event_id;
  em = when_truthy ev.email;
  ph = when_truthy ev.phone;
  lead_id = when_truthy ev.leadgen_id;
  custom_data = custom_data_of ev.value ev.currency;
}

-- `pushConversion`: what is sent, if anything, and whether it was accepted. `post` says whether Meta
-- answered with a success.
unfoldable pub push_conversion :
    Option String → (CapiEvent → Bool) → ConversionPayload → Option CapiEvent × Bool
push_conversion dataset_id post ev =
    if truthy dataset_id then (some (event_of ev), post (event_of ev)) else (none, false)
