-- ===== src/Matching/Candidates.antt =====
-- apps/api/src/matching/matching.service.ts: the tables, and the ads that the signals of a lead name.
use ad_link.Common.{
  ℕ, Bool, ◌&&◌, not, Option, none, some, String, List, [], ◌∷◌, ◌++◌, ◌==◌, string_eq, eqb, ltb,
  leb, if◌then◌else◌, get_or, head?, is_some, truthy, is_text, filter, find?, map, contains, add,
  sort,
}
use ad_link.Core.Enums.{MatchMethod, leadgen_id, phone, utm}
use ad_link.Core.Matching.{MatchCandidate}
use ad_link.Db.{Lead, Ad, Insight, day_of}

-- What the `detail` of an audit row records.
pub data Detail : Type 0 where
  candidates : List MatchCandidate → Detail
  chosen_ad : String → Detail

pub record MatchAudit : Type 0 where
  pub tenant_id : String
  pub lead_id : String
  pub method : MatchMethod
  pub confidence : ℕ
  pub resolved_by : String
  pub detail : Detail

pub record Store : Type 0 where
  pub leads : List Lead
  pub ads : List Ad
  pub insights : List Insight
  pub audits : List MatchAudit

abbrev pub candidate : MatchMethod → String → Option ℕ → MatchCandidate
candidate method ad_id confidence = record {
  method = method;
  ad_id = ad_id;
  confidence = confidence;
}

-- 1. The ad that a Meta Lead Ad carries since its ingest.
unfoldable pub by_leadgen : Lead → List MatchCandidate
by_leadgen lead =
    if truthy lead.leadgen_id && truthy lead.ad_id
    then candidate leadgen_id (get_or lead.ad_id "") none ∷ []
    else []

-- The condition on a lead of the same contact that has an ad.
abbrev pub is_sibling : String → Lead → Lead → Bool
is_sibling tenant_id lead l =
    l.tenant_id == tenant_id
    && is_text l.contact_id (get_or lead.contact_id "")
    && is_some l.ad_id
    && not (l.id == lead.id)

abbrev pub sibling_candidate : Option Lead → List MatchCandidate
sibling_candidate none = []
sibling_candidate (some sibling) =
    if truthy sibling.ad_id then candidate phone (get_or sibling.ad_id "") none ∷ [] else []

-- 2. The ad of another lead of the same contact.
unfoldable pub by_sibling : String → Lead → List Lead → List MatchCandidate
by_sibling tenant_id lead leads =
    if truthy lead.contact_id
    then sibling_candidate (find? (is_sibling tenant_id lead) leads)
    else []

-- A row of the ads in question with a spend.
abbrev pub is_spent : List String → Insight → Bool
is_spent ad_ids i = contains ad_ids i.ad_id && ltb 0 i.spend

-- `groupBy` on the ad: the ads of the rows, each once.
unfoldable pub ads_of : List Insight → List String
unfolding add
ads_of [] = []
ads_of (i ∷ is) = add (ads_of is) i.ad_id

-- The one ad of a list with exactly one.
abbrev pub only : List String → Option String
only [] = none
only (a ∷ []) = some a
only (a ∷ b ∷ l) = none

abbrev pub by_spend_desc : Insight → Insight → Bool
by_spend_desc a b = leb b.spend a.spend

unfoldable pub disambiguate_by_spend : List String → ℕ → List Insight → Option String
disambiguate_by_spend ad_ids lead_at insights =
    let day = day_of lead_at in
    let same_day =
      sort by_spend_desc (filter (λ i. is_spent ad_ids i && eqb i.date day) insights) in
    elim (head? same_day) [
      | some top ↦ some top.ad_id
      | none ↦ only (ads_of (filter (is_spent ad_ids) insights))
    ]

-- The ads by the name that `utm_content` gives: none, one, or several.
unfoldable pub by_name : List Ad → ℕ → List Insight → List MatchCandidate
by_name [] lead_at insights = []
by_name (a ∷ []) lead_at insights = candidate utm a.id (some 90) ∷ []
by_name (a ∷ b ∷ more) lead_at insights =
    let winner = disambiguate_by_spend (map (λ x. x.id) (a ∷ b ∷ more)) lead_at insights in
    if truthy winner
    then candidate utm (get_or winner "") (some 80) ∷ []
    else candidate utm a.id none ∷ []

-- 3. The ad that `utm_content` names, by its external id or by its name.
unfoldable pub by_utm : String → Lead → List Ad → List Insight → List MatchCandidate
by_utm tenant_id lead ads insights =
    if truthy lead.utm_content
    then elim (find? (λ a. a.tenant_id == tenant_id && is_text lead.utm_content a.external_id)
        ads) [
          | some by_id ↦ candidate utm by_id.id (some 95) ∷ []
          | none ↦
              by_name
                (filter (λ a. a.tenant_id == tenant_id && is_text lead.utm_content a.name) ads)
                lead.created_at insights
        ]
    else []

unfoldable pub candidates_of : String → Lead → Store → List MatchCandidate
candidates_of tenant_id lead s =
    by_leadgen lead ++ (by_sibling tenant_id lead s.leads ++ by_utm tenant_id lead s.ads s.insights)
