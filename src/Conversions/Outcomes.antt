-- ===== src/Conversions/Outcomes.antt =====
-- Which outcomes `generate` of apps/api/src/conversions/conversions.service.ts reports.
use ad_link.Common.{
  lookup-All, dict_of-All, All-of_Elem, All-map, ℕ, Bool, true, ◌&&◌, ◌||◌, Option, none, some,
  String, List, [], ◌∷◌, ◌≡◌, refl, sym, ap, ◌∙◌, subst, ◌⊎◌, inl, inr, ◌==◌, string_eq, eq_iff,
  arith, contains, filter, keys, lookup, dict_of, lookup-eq-none_iff, Elem, Elem-filter,
  Elem-of_sort, All, All-append, Option-cases, Bool-cases, get_or, is_some, add,
}
use ad_link.Core.Enums.{is_won, is_qualified, is_matched}
use ad_link.Db.{AdAccount, Campaign, AdSet, Ad, Lead, Deal, of_lead, of_deal, ConversionEvent}
use ad_link.Conversions.{
  Store, opted_in, ad_accounts, account_of, crm_floor, not_before, older_lead, ContactLead,
  is_attributed, contact_entry, contact_leads, is_outcome, set_of, qualified_contacts, NewEvent,
  qualified_events, purchase_events, unless_empty, wanted, generate,
}
use ad_link.Conversions.Events.{new_row, create_events-Elem}

-- The account of the tenant opted in.
pub record IsOptedIn (tenant_id id : String) (s : Store) : Type 0 where
  pub account : AdAccount
  pub listed : Elem account s.accounts
  pub named : account.id ≡ id
  pub owned : account.tenant_id ≡ tenant_id
  pub consents : account.feedback_opt_in ≡ true

opted_in-IsOptedIn :
    (tenant_id id : String) (s : Store)
    → contains (opted_in tenant_id s.accounts) id ≡ true
    → IsOptedIn tenant_id id s
opted_in-IsOptedIn tenant_id id s h = seek s.accounts (λ a m. m) h
  where
    seek :
        (accounts : List AdAccount)
        → ((a : AdAccount) → Elem a accounts → Elem a s.accounts)
        → contains (opted_in tenant_id accounts) id ≡ true
        → IsOptedIn tenant_id id s
    seek [] sub k = absurd (cc k)
    seek (a ∷ accounts) sub k = elim (Bool-cases (a.tenant_id == tenant_id && a.feedback_opt_in)) [
      | inr out ↦ seek accounts (λ b m. sub b (inr m)) (ground arith)
      | inl in_ ↦ elim (Bool-cases (a.id == id)) [
        | inr other ↦ seek accounts (λ b m. sub b (inr m)) (ground arith)
        | inl same ↦ record {
          account = a;
          listed = sub a (inl refl);
          named = (eq_iff a.id id).0 same;
          owned = (eq_iff a.tenant_id tenant_id).0 (ground arith);
          consents = ground arith;
        }
      ]
    ]

ad_accounts-opted_in :
    (tenant_id : String) (acc_ids : List String) (ad_sets : List AdSet) (campaigns : List Campaign)
    (ads : List Ad)
    → All (λ e. contains acc_ids e.1 ≡ true) (ad_accounts tenant_id acc_ids ad_sets campaigns ads)
unfolding ad_accounts
ad_accounts-opted_in tenant_id acc_ids ad_sets campaigns [] = tt
ad_accounts-opted_in tenant_id acc_ids ad_sets campaigns (ad ∷ ads) =
    let rest = ad_accounts-opted_in tenant_id acc_ids ad_sets campaigns ads in
    elim (Option-cases (account_of ad_sets campaigns ad)) [
      | inl miss ↦ rw (miss, ad_accounts) rest
      | inr (acc, hit) ↦ elim (Bool-cases (ad.tenant_id == tenant_id && contains acc_ids acc)) [
        | inl fits ↦ rw (hit, fits, ad_accounts) (ground arith, rest)
        | inr no_ ↦ rw (hit, no_, ad_accounts) rest
      ]
    ]

set_of-All :
    (P : String → Type 0) (xs ks : List String) → All P xs → All P ks → All P (set_of xs ks)
unfolding set_of add
set_of-All P xs [] h k = h
set_of-All P xs (j ∷ ks) h (p, k) = elim (Bool-cases (contains xs j)) [
  | inl there ↦ set_of-All P (add xs j) ks (rw there h) k
  | inr fresh ↦ set_of-All P (add xs j) ks (rw fresh (All-append P xs (j ∷ []) h (p, tt))) k
]

same_contact :
    (a b : Option String) → is_some a ≡ true → is_some b ≡ true → get_or a "" ≡ get_or b "" → a ≡ b
same_contact (some x) (some y) h k e = ap some e
same_contact none b h k e = absurd (cc h)
same_contact (some x) none h k e = absurd (cc k)

module _ (tenant_id : String) (s : Store) where
  abbrev account_by_ad : List (String × String)
  account_by_ad =
      dict_of [] (ad_accounts tenant_id (opted_in tenant_id s.accounts) s.ad_sets s.campaigns s.ads)

  -- The least moment that counts.
  abbrev pub floor : Option ℕ
  floor = crm_floor tenant_id s.connections

  abbrev attributed : Lead → Bool
  attributed = is_attributed tenant_id (keys account_by_ad) floor

  abbrev leads : List (String × ContactLead)
  leads = contact_leads tenant_id (keys account_by_ad) floor s.leads

  abbrev outcome : Deal → Bool
  outcome = is_outcome tenant_id (keys leads) floor

  -- What stands behind an event: an account that opted in, a matched lead, and a deal of the same
  -- contact that is qualified (won, for a purchase), all of the tenant, and the two no older than
  -- the connection of the CRM.
  pub record IsReportable (v : ConversionEvent) : Type 0 where
    pub tenant : v.tenant_id ≡ tenant_id
    pub account : IsOptedIn tenant_id v.ad_account_id s
    pub lead : Lead
    pub lead_listed : Elem lead s.leads
    pub lead_owned : lead.tenant_id ≡ tenant_id
    pub lead_matched : is_matched lead.match_status ≡ true
    pub lead_fresh : not_before floor lead.created_at ≡ true
    pub deal : Deal
    pub deal_listed : Elem deal s.deals
    pub deal_owned : deal.tenant_id ≡ tenant_id
    pub deal_fresh : not_before floor deal.created_at ≡ true
    pub contact : deal.contact_id ≡ lead.contact_id
    pub outcome :
        ((v.event_id ≡ of_lead lead.id)
          × ((is_qualified deal.canonical || is_won deal.canonical) ≡ true))
        ⊎ ((v.event_id ≡ of_deal deal.id) × (is_won deal.canonical ≡ true))

  -- The lead of an entry.
  abbrev HasLead : String × ContactLead → Type 0
  HasLead e = (l : Lead) × Elem l s.leads × (attributed l ≡ true) × (e ≡ contact_entry l)

  leads-HasLead : All HasLead leads
  leads-HasLead = dict_of-All HasLead [] _ tt (
      All-map HasLead contact_entry _ (
        All-of_Elem (λ l. HasLead (contact_entry l)) _
          (λ l m.
            let (there, fits) = Elem-filter attributed l s.leads (Elem-of_sort older_lead l _ m) in
            (l, there, fits, refl))))

  account_by_ad-opted_in :
      All (λ e. contains (opted_in tenant_id s.accounts) e.1 ≡ true) account_by_ad
  account_by_ad-opted_in =
      dict_of-All _ [] _ tt (ad_accounts-opted_in tenant_id _ s.ad_sets s.campaigns s.ads)

  lead-IsOptedIn :
      (l : Lead)
      → attributed l ≡ true
      → IsOptedIn tenant_id (get_or (lookup (get_or l.ad_id "") account_by_ad) "") s
  lead-IsOptedIn l fits = elim (Option-cases (lookup (get_or l.ad_id "") account_by_ad)) [
    | inl miss ↦
        absurd (ground (arith, (lookup-eq-none_iff (get_or l.ad_id "") account_by_ad).0 miss))
    | inr (acc, hit) ↦ rw hit (
        opted_in-IsOptedIn tenant_id acc s
          (lookup-All _ _ acc account_by_ad account_by_ad-opted_in hit))
  ]

  -- Is the event of a call reportable?
  abbrev Reports : NewEvent → Type 0
  Reports e = IsReportable (new_row tenant_id e)

  -- The deal of a contact.
  abbrev HasDeal : (Deal → Bool) → String → Type 0
  HasDeal p k =
      (d : Deal) × Elem d s.deals × (outcome d ≡ true) × (p d ≡ true) × (get_or d.contact_id "" ≡ k)

  -- A call for a contact's deal and its lead.
  call-IsReportable :
      (d : Deal) (l : Lead) (cl : ContactLead) (v : ConversionEvent)
      → Elem d s.deals
      → outcome d ≡ true
      → Elem l s.leads
      → attributed l ≡ true
      → (get_or d.contact_id "", cl) ≡ contact_entry l
      → v.tenant_id ≡ tenant_id
      → v.ad_account_id ≡ get_or (lookup cl.ad_id account_by_ad) ""
      → (((v.event_id ≡ of_lead cl.lead_id)
            × ((is_qualified d.canonical || is_won d.canonical) ≡ true))
          ⊎ ((v.event_id ≡ of_deal d.id) × (is_won d.canonical ≡ true)))
      → IsReportable v
  call-IsReportable d l cl v there out listed fits entry owned acc kind =
      let same_lead : cl ≡ (contact_entry l).1 = ap (λ e. e.1) entry in
      record {
        tenant = owned;
        account =
            subst (λ i. IsOptedIn tenant_id i s)
              (sym (acc ∙ ap (λ c. get_or (lookup c.ad_id account_by_ad) "") same_lead))
              (lead-IsOptedIn l fits);
        lead = l;
        lead_listed = listed;
        lead_owned = (eq_iff l.tenant_id tenant_id).0 (ground arith);
        lead_matched = ground arith;
        lead_fresh = ground arith;
        deal = d;
        deal_listed = there;
        deal_owned = (eq_iff d.tenant_id tenant_id).0 (ground arith);
        deal_fresh = ground arith;
        contact =
            same_contact d.contact_id l.contact_id (ground arith) (ground arith)
              (ap (λ e. e.0) entry);
        outcome = elim kind [
          | inl (e, q) ↦ inl (e ∙ ap (λ c. of_lead c.lead_id) same_lead, q)
          | inr k ↦ inr k
        ];
      }

  qualified_events-Reports :
      (contacts : List String)
      → All (HasDeal (λ d. is_qualified d.canonical || is_won d.canonical)) contacts
      → All Reports (qualified_events account_by_ad leads contacts)
  unfolding qualified_events
  qualified_events-Reports [] h = tt
  qualified_events-Reports (k ∷ contacts) ((d, there, out, q, key), h) =
      elim (Option-cases (lookup k leads)) [
        | inl miss ↦ rw (miss, qualified_events) (qualified_events-Reports contacts h)
        | inr (cl, hit) ↦
            let (l, listed, fits, entry) = lookup-All HasLead k cl leads leads-HasLead hit in
            rw (hit, qualified_events)
              (
                call-IsReportable d l cl _ there out listed fits (ap (λ c. (c, cl)) key ∙ entry)
                    refl refl (inl (refl, q)),
                qualified_events-Reports contacts h,
              )
      ]

  purchase_events-Reports :
      (deals : List Deal)
      → All (λ d. Elem d s.deals × (outcome d ≡ true) × (is_won d.canonical ≡ true)) deals
      → All Reports (purchase_events account_by_ad leads deals)
  unfolding purchase_events
  purchase_events-Reports [] h = tt
  purchase_events-Reports (d ∷ deals) ((there, out, w), h) =
      elim (Option-cases (lookup (get_or d.contact_id "") leads)) [
        | inl miss ↦ rw (miss, purchase_events) (purchase_events-Reports deals h)
        | inr (cl, hit) ↦
            let (l, listed, fits, entry) = lookup-All HasLead _ cl leads leads-HasLead hit in
            rw (hit, purchase_events)
              (
                call-IsReportable d l cl _ there out listed fits entry refl refl (inr (refl, w)),
                purchase_events-Reports deals h,
              )
      ]

  unless_empty-All :
      (P : NewEvent → Type 0) (xs : List String) (es : List NewEvent)
      → All P es
      → All P (unless_empty xs es)
  unless_empty-All P [] es h = tt
  unless_empty-All P (x ∷ xs) es h = h

  abbrev active : Deal → Bool
  active d = is_qualified d.canonical || is_won d.canonical

  contacts-HasDeal : All (HasDeal active) (qualified_contacts (filter outcome s.deals))
  contacts-HasDeal = set_of-All (HasDeal active) [] _ tt (
      All-map (HasDeal active) (λ d. get_or d.contact_id "") _
        (All-of_Elem (λ d. HasDeal active (get_or d.contact_id "")) _
          (λ d m.
            let (m', q) = Elem-filter active d _ m in
            let (there, out) = Elem-filter outcome d s.deals m' in (d, there, out, q, refl))))

  wanted-Reports : All Reports (wanted tenant_id s)
  unfolding wanted
  wanted-Reports = unless_empty-All Reports (opted_in tenant_id s.accounts) _ (
      unless_empty-All Reports (keys account_by_ad) _ (
        All-append Reports _ _ (qualified_events-Reports _ contacts-HasDeal) (
          purchase_events-Reports _ (
            All-of_Elem (λ d. Elem d s.deals × (outcome d ≡ true) × (is_won d.canonical ≡ true)) _
              (λ d m.
                let (m', w) = Elem-filter (λ d. is_won d.canonical) d _ m in
                let (there, out) = Elem-filter outcome d s.deals m' in (there, out, w))))))

  -- Only what may be reported is reported: an event after `generate` was there before, or belongs to
  -- an account of the tenant that opted in, and a matched lead and a qualified (for a purchase: won)
  -- deal of one contact stand behind it, none from before the CRM was connected.
  pub generate-IsReportable :
      (v : ConversionEvent)
      → Elem v (generate tenant_id s).0.events
      → Elem v s.events ⊎ IsReportable v
  unfolding generate
  generate-IsReportable v m =
      create_events-Elem tenant_id IsReportable (wanted tenant_id s) s.events v wanted-Reports m
