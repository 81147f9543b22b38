-- ===== src/Connectors/Complete.antt =====
-- Each connector of apps/api/src/connectors reads all that its server has, up to its bound on pages.
use ad_link.Common.{
  ℕ, ◌≤◌, ◌<◌, false, some, String, List, [], ◌++◌, ◌≡◌, ◌≢◌, inl, inr, refl, sym, ap, ◌∙◌, arith,
  subst, ◌==◌, string_eq, eq_iff, Bool-cases, leb, leb→le, leb→lt, map, append-nil,
}
use ad_link.Connectors.{Page, Outcome, done, cut, follow}
use ad_link.Connectors.Paging.{Chain, follow-Chain, follow-cut, Chain-follow}
use ad_link.Connectors.Meta
use ad_link.Connectors.Bitrix
use ad_link.Connectors.Amo

-- What a bounded loop gives: everything that the server has, where it has no more pages than the bound;
-- else, with no error, a proper beginning of it; and it is done only with everything.
pub record IsRead {R C : Type 0} (ask : ℕ → C → Page R C) (rounds : ℕ) (cursor : C)
    (outcome : Outcome R) : Type 0 where
  pub whole :
      (rows : List R) (pages : ℕ)
      → Chain ask 0 cursor rows pages
      → pages ≤ rounds
      → outcome ≡ done rows pages
  pub beginning :
      (rows : List R) (pages : ℕ)
      → Chain ask 0 cursor rows pages
      → rounds < pages
      → (first rest : List R) × (outcome ≡ cut first) × (rows ≡ first ++ rest)
  pub only :
      (read : List R) (requests : ℕ)
      → outcome ≡ done read requests
      → (pages : ℕ) × Chain ask 0 cursor read pages × (pages ≤ rounds)

follow-IsRead :
    {R C : Type 0} (ask : ℕ → C → Page R C) (rounds : ℕ) (cursor : C)
    → IsRead ask rounds cursor (follow ask rounds 0 cursor [])
follow-IsRead ask rounds cursor = record {
  whole = λ rows pages c h.
      follow-Chain ask rounds 0 cursor [] rows pages c h ∙ ap (done rows) (omega arith);
  beginning = λ rows pages c h. follow-cut ask rounds 0 cursor [] rows pages c h;
  only = λ read requests h.
      let (rows, pages, c, le, eq) = Chain-follow ask rounds 0 cursor [] read requests h in
      (pages, subst (λ t. Chain ask 0 cursor t pages) (sym eq) c, le);
}

-- A list of Bitrix24 that has at most a thousand pages, each of them answered, is read whole, with one
-- request for a page; of a longer one a beginning is read, with no error; and an answer that does not
-- stop at the bound is the whole list.
pub bitrix_paged-IsRead :
    {R : Type 0} (fetch : ℕ → ℕ → Bitrix.Response R)
    → IsRead (λ i start. Bitrix.rest_page (fetch i start)) 1000 0 (Bitrix.paged fetch)
unfolding Bitrix.paged
bitrix_paged-IsRead fetch = follow-IsRead _ 1000 0

-- So are the lists of amoCRM, from the page 1 on.
pub amo_paged-IsRead :
    {R : Type 0} (fetch : ℕ → ℕ → Amo.Response R)
    → IsRead (λ i n. Amo.amo_page n (fetch i n)) 1000 1 (Amo.paged fetch)
unfolding Amo.paged
amo_paged-IsRead fetch = follow-IsRead _ 1000 1

-- And those of the Graph API, from an address that is not empty.
pub paged_get-IsRead :
    {R : Type 0} (fetch : ℕ → String → Meta.Response R) (url : String)
    → url ≢ ""
    → IsRead (Meta.ask fetch) 1000 url (Meta.paged_get fetch url)
unfolding Meta.paged_get
paged_get-IsRead fetch url filled =
    let named : (url == "") ≡ false = ground (arith, eq_iff url "") in
    rw (named, Meta.paged_get) (follow-IsRead (Meta.ask fetch) 1000 url)

-- Where amoCRM has at most a thousand pages of deals, the sync is given every deal of every page, in
-- order; where it has more, and each of them is answered, it is given a beginning of them, as if they
-- were all.
pub amo_connector-deals :
    (account : Amo.AmoAccount) (rows : List Amo.AmoLead) (pages : ℕ)
    → Chain (λ i n. Amo.amo_page n (account.leads i n)) 0 1 rows pages
    → (first rest : List Amo.AmoLead) × ((Amo.amo_connector account).deals
        ≡ some (map Amo.deal_of first))
      × (rows ≡ first ++ rest)
      × (pages ≤ 1000 → rest ≡ [])
unfolding Amo.amo_connector
amo_connector-deals account rows pages c =
    let r = amo_paged-IsRead account.leads in
    elim (Bool-cases (leb pages 1000)) [
      | inl few ↦
          let read = r.whole rows pages c (leb→le pages 1000 few) in
          (rows, [], rw read refl, sym (append-nil rows), λ _. refl)
      | inr many ↦
          let (first, rest, read, split) = r.beginning rows pages c (leb→lt pages 1000 many) in
          (first, rest, rw read refl, split, λ h. absurd (ground arith))
    ]
