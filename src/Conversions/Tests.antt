-- ===== src/Conversions/Tests.antt =====
-- Runs of the model of apps/api/src/conversions/conversions.service.ts on one won deal.
use ad_link.Common.{
  ◌+◌, true, Option, none, some, [], ◌∷◌, ◌≡◌, ◌⊎◌, inl, inr, refl, Elem, map, IsDistinct, length,
  insert, dict_of, lookup, sort, insert_sorted, add, subst, sym,
}
use ad_link.Core.Enums.{
  CanonicalStatus, LeadSource, MatchStatus, ConversionType, ConversionState, CrmProvider, SyncState,
}
use ad_link.Db.{AdAccount, Lead, Deal, of_lead, of_deal, ConversionEvent}
use ad_link.Conversions.{
  Store, event_eq, generate, wanted, create_events, create_event, ad_accounts, account_of,
  crm_floor, set_of, qualified_events, purchase_events,
}
use ad_link.Conversions.Reporting.{
  Verdict, answered, UserData, push, push_all, push_one, pending_of,
}
use ad_link.Conversions.Events.{event_ids, generate_idem, generate-IsDistinct}
use ad_link.Conversions.Outcomes.{IsReportable, generate-IsReportable}
use ad_link.Conversions.Push.{settle, push-settles}

abbrev won_deal : Deal
won_deal = record {
  id = "d";
  tenant_id = "t";
  contact_id = some "c";
  external_id = "d";
  stage_external_id = "w";
  stage_history = [];
  canonical = CanonicalStatus.won;
  amount = some 100;
  currency = some "USD";
  created_at = 20;
  won_at = none;
}

abbrev a_lead : Lead
a_lead = record {
  id = "l";
  tenant_id = "t";
  contact_id = some "c";
  source = LeadSource.website;
  external_id = none;
  leadgen_id = none;
  fbclid = none;
  utm_source = none;
  utm_medium = none;
  utm_campaign = none;
  utm_content = none;
  utm_term = none;
  created_at = 20;
  ad_id = some "a";
  match_method = none;
  match_status = MatchStatus.matched;
  confidence = none;
}

abbrev store : Store
store = record {
  accounts =
      record {
        id = "acc";
        tenant_id = "t";
        external_id = "x";
        currency = "USD";
        feedback_opt_in = true;
        created_at = 0;
      }
      ∷ [];
  campaigns =
      record {
        id = "camp";
        tenant_id = "t";
        ad_account_id = "acc";
        external_id = "x";
        name = "n";
        status = none;
        effective_status = none;
      }
      ∷ [];
  ad_sets =
      record {
        id = "set";
        tenant_id = "t";
        campaign_id = "camp";
        external_id = "x";
        name = "n";
        status = none;
        effective_status = none;
      }
      ∷ [];
  ads =
      record {
        id = "a";
        tenant_id = "t";
        ad_set_id = "set";
        external_id = "x";
        name = "n";
        status = none;
        effective_status = none;
        creative_id = none;
      }
      ∷ [];
  connections =
      record {
        id = "crm";
        tenant_id = "t";
        client_id = "k";
        provider = CrmProvider.bitrix24;
        external_ref = "";
        auth_ref = "";
        revenue_field = none;
        last_sync_at = none;
        sync_state = SyncState.ok;
        created_at = 10;
      }
      ∷ [];
  leads = a_lead ∷ [];
  deals = won_deal ∷ [];
  identifiers = [];
  events = [];
}

abbrev purchase : ConversionEvent
purchase = record {
  tenant_id = "t";
  ad_account_id = "acc";
  type = ConversionType.purchase;
  event_id = of_deal "d";
  leadgen_id = none;
  value = some 100;
  currency = some "USD";
  state = ConversionState.pending;
}

abbrev qualified_lead : ConversionEvent
qualified_lead = record {
  tenant_id = "t";
  ad_account_id = "acc";
  type = ConversionType.qualified_lead;
  event_id = of_lead "l";
  leadgen_id = none;
  value = none;
  currency = none;
  state = ConversionState.pending;
}

-- A won deal gives two events.
generate_run : generate "t" store ≡ (record store { events = qualified_lead ∷ purchase ∷ [] }, 2)
unfolding generate wanted create_events create_event ad_accounts account_of crm_floor set_of
    qualified_events purchase_events insert dict_of lookup sort insert_sorted add
generate_run = refl

generate_idem_example : generate "t" (generate "t" store).0 ≡ ((generate "t" store).0, 0)
generate_idem_example = generate_idem "t" store

generate-IsDistinct_run :
    IsDistinct (event_ids (generate "t" store).0.events)
    × (length (generate "t" store).0.events ≡ 0 + (generate "t" store).1)
generate-IsDistinct_run = generate-IsDistinct "t" store tt

generate-IsReportable_example : Elem purchase [] ⊎ IsReportable "t" store purchase
generate-IsReportable_example =
    generate-IsReportable "t" store purchase
      (subst (λ p. Elem purchase p.0.events) (sym generate_run) (inr (inl refl)))

abbrev accepting : Option (AdAccount → ConversionEvent → UserData → Verdict)
accepting = some (λ acc ev user. answered true)

abbrev generated : Store
generated = record store { events = qualified_lead ∷ purchase ∷ [] }

push_run : (push accepting "t" generated).1 ≡ record { sent = 2; accepted = 2; rejected = 0 }
unfolding push push_all push_one
push_run = refl

push-settles_example :
    (push accepting "t" generated).0.events
    ≡ map (settle accepting generated (pending_of accepting "t" generated.events)) generated.events
push-settles_example = push-settles accepting "t" generated (refl, (refl, tt))
