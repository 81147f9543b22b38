-- ===== src/Metrics.antt =====
-- apps/api/src/metrics/metrics.service.ts: what its reports share, the floors of the connections, the
-- exchange rates and the touch models. A rate is a number of 10⁻⁸.
pub mod Touch
pub mod Performance
pub mod Cohorts
pub mod Weeks
pub mod Vintage
pub mod Creatives
mod Tests
use ad_link.Common.{
  ℕ, ◌+◌, ◌-◌, ◌*◌, ◌/◌, ◌%◌, ◌^◌, Bool, true, false, ◌&&◌, Option, none, some, String, List, [],
  ◌∷◌, ◌==◌, string_eq, ltb, leb, if◌then◌else◌, get_or, is_some, filter, find?, map, contains,
  keys, lookup, insert, sort,
}
use ad_link.Core.Enums.{is_matched}
use ad_link.Db.{day_ms, day_of, Ad, AdSet, Campaign, AdAccount, Lead, Deal, Insight, CrmConnection}

-- A row of the query for the ads, with what its `include` brings.
pub record AdRow : Type 0 where
  pub ad : Ad
  pub ad_set : AdSet
  pub campaign : Campaign
  pub account : AdAccount

pub record FxRate : Type 0 where
  pub base : String
  pub quote : String
  pub rate : ℕ
  pub date : ℕ

pub record Tenant : Type 0 where
  pub id : String
  pub report_currency : String

pub record Store : Type 0 where
  pub tenants : List Tenant
  pub ads : List AdRow
  pub accounts : List AdAccount
  pub connections : List CrmConnection
  pub insights : List Insight
  pub leads : List Lead
  pub deals : List Deal
  pub rates : List FxRate

-- A range of dates, both ends included.
pub record Range : Type 0 where
  pub from : ℕ
  pub to : ℕ

-- `new Date(`${from}T00:00:00.000Z`)` and `new Date(`${to}T23:59:59.999Z`)`
abbrev pub first_moment : Range → ℕ
first_moment r = r.from * day_ms

abbrev pub last_moment : Range → ℕ
last_moment r = r.to * day_ms + 86399999

-- `_min` of the moments
unfoldable pub least : List ℕ → Option ℕ
least [] = none
least (t ∷ ts) = elim (least ts) [ none ↦ some t | some u ↦ if leb t u then some t else some u ]

-- UTC midnight of the day.
abbrev pub day_start : Option ℕ → Option ℕ
day_start none = none
day_start (some t) = some (day_of t * day_ms)

abbrev pub later_of : ℕ → Option ℕ → ℕ
later_of start none = start
later_of start (some floor) = if ltb start floor then floor else start

abbrev pub meta_floor : String → Store → Option ℕ
meta_floor tenant_id s =
    day_start (least (map (λ a. a.created_at) (filter (λ a. a.tenant_id == tenant_id) s.accounts)))

abbrev pub crm_floor : String → Store → Option ℕ
crm_floor tenant_id s =
    day_start
      (least (map (λ c. c.created_at) (filter (λ c. c.tenant_id == tenant_id) s.connections)))

-- `createdAt: floor ? { gte: floor } : undefined`
abbrev pub not_before : Option ℕ → ℕ → Bool
not_before none t = true
not_before (some floor) t = leb floor t

abbrev pub report_currency : String → Store → String
report_currency tenant_id s = elim (find? (λ t. t.id == tenant_id) s.tenants) [
  | none ↦ "USD"
  | some t ↦ t.report_currency
]

abbrev pub latest_first : FxRate → FxRate → Bool
latest_first a b = leb b.date a.date

-- The key `${base}>${quote}`, as the pair; the first rate in the order is kept.
unfoldable pub rate_of : String → String → List FxRate → Option ℕ
rate_of base quote [] = none
rate_of base quote (r ∷ rates) =
    if r.base == base && r.quote == quote then some r.rate else rate_of base quote rates

abbrev pub fx_unit : ℕ
fx_unit = 10 ^ 8

-- `convert`: an amount times the latest rate, or times 1 where there is none.
abbrev pub convert : Store → String → ℕ → String → ℕ
convert s report amount from =
    if from == report
    then amount * fx_unit
    else amount * get_or (rate_of from report (sort latest_first s.rates)) fx_unit

-- `Math.round(n * 100) / 100` on units of 10⁻¹⁴: to the nearest 10⁻², half goes up.
abbrev pub round : ℕ → ℕ
round n = (n + 500000000000) / 1000000000000 * 1000000000000

pub data TouchModel : Type 0 where
  first_touch last_touch : TouchModel

abbrev pub older_lead : Lead → Lead → Bool
older_lead a b = leb a.created_at b.created_at

-- One round of the loop for `contactAd`.
abbrev pub touch : TouchModel → String → String → List (String × String) → List (String × String)
touch first_touch contact_id ad_id m =
    if contains (keys m) contact_id then m else insert contact_id ad_id m
touch last_touch contact_id ad_id m = insert contact_id ad_id m

unfoldable pub contact_ads :
    TouchModel → List Lead → List (String × String) → List (String × String)
contact_ads model [] m = m
contact_ads model (l ∷ leads) m =
    contact_ads model leads (touch model (get_or l.contact_id "") (get_or l.ad_id "") m)

-- The matched leads with an ad and a contact since the CRM was connected, the oldest first.
abbrev pub is_touch : String → Option ℕ → Lead → Bool
is_touch tenant_id floor l =
    l.tenant_id == tenant_id
    && (is_some l.ad_id
        && (is_matched l.match_status && (is_some l.contact_id && not_before floor l.created_at)))

abbrev pub contact_ad : TouchModel → String → Store → List (String × String)
contact_ad model tenant_id s =
    contact_ads model
      (sort older_lead (filter (is_touch tenant_id (crm_floor tenant_id s)) s.leads)) []
