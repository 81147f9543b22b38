-- ===== src/Conversions/Push.antt =====
-- The events that `push` of apps/api/src/conversions/conversions.service.ts reports.
use ad_link.Common.{
  ℕ, suc, Bool, false, ◌&&◌, Option, none, some, String, List, [], ◌∷◌, ◌≡◌, refl, ◌==◌, string_eq,
  arith, find?, map, contains, IsDistinct, Option-cases, Bool-cases, filter, take, sym, ap, ◌∙◌,
  subst, inl, inr, if◌then◌else◌, zero,
}
use ad_link.Core.Enums.{is_pending}
use ad_link.Db.{EventId, ConversionEvent, AdAccount}
use ad_link.Conversions.{Store, event_eq, same_event_iff}
use ad_link.Conversions.Reporting.{
  UserData, Verdict, state_of, Pushed, count, set_state, push_one, push_all, pending_of, push,
  user_data_for,
}
use ad_link.Conversions.Events.{event_ids}

-- A part of the events has distinct ids too.
contains-filter :
    (p : ConversionEvent → Bool) (id : EventId) (vs : List ConversionEvent)
    → contains (event_ids vs) id ≡ false
    → contains (event_ids (filter p vs)) id ≡ false
contains-filter p id [] h = refl
contains-filter p id (v ∷ vs) h = ground (arith, contains-filter p id vs)

IsDistinct-filter :
    (p : ConversionEvent → Bool) (vs : List ConversionEvent)
    → IsDistinct (event_ids vs)
    → IsDistinct (event_ids (filter p vs))
IsDistinct-filter p [] d = tt
IsDistinct-filter p (v ∷ vs) (h, d) = elim (Bool-cases (p v)) [
  | inl e ↦ rw e (contains-filter p v.event_id vs h, IsDistinct-filter p vs d)
  | inr e ↦ rw e (IsDistinct-filter p vs d)
]

contains-take :
    (n : ℕ) (id : EventId) (vs : List ConversionEvent)
    → contains (event_ids vs) id ≡ false
    → contains (event_ids (take n vs)) id ≡ false
contains-take zero id vs h = refl
contains-take (suc n) id [] h = refl
contains-take (suc n) id (v ∷ vs) h = ground (arith, contains-take n id vs)

IsDistinct-take :
    (n : ℕ) (vs : List ConversionEvent)
    → IsDistinct (event_ids vs)
    → IsDistinct (event_ids (take n vs))
IsDistinct-take zero vs d = tt
IsDistinct-take (suc n) [] d = tt
IsDistinct-take (suc n) (v ∷ vs) (h, d) = (contains-take n v.event_id vs h, IsDistinct-take n vs d)

same_event_sym : (a b : EventId) → (a == b) ≡ (b == a)
same_event_sym a b = ground (arith, same_event_iff a b, same_event_iff b a)

module _ (push_conversion : Option (AdAccount → ConversionEvent → UserData → Verdict)) where
  -- The verdict on an event, none where the account or the connector's method is missing.
  unfoldable pub verdict_on : Store → ConversionEvent → Option Verdict
  verdict_on s ev = elim (find? (λ a. a.id == ev.ad_account_id) s.accounts) [
    | none ↦ none
    | some acc ↦ elim push_conversion [
      | none ↦ none
      | some call ↦ some (call acc ev (user_data_for ev.event_id s))
    ]
  ]

  -- What becomes of a row: it gets the state of the verdict on the event of its id among these.
  unfoldable pub settle : Store → List ConversionEvent → ConversionEvent → ConversionEvent
  settle s [] v = v
  settle s (ev ∷ evs) v =
      if ev.event_id == v.event_id
      then (elim (verdict_on s ev) [
        | none ↦ v
        | some verdict ↦ record v { state = state_of verdict }
      ])
      else settle s evs v

  push_one-none :
      (s : Store) (ev : ConversionEvent) (acc : List ConversionEvent × Pushed)
      → verdict_on s ev ≡ none
      → push_one push_conversion s ev acc ≡ acc
  unfolding push_one verdict_on
  push_one-none s ev acc e =
      elim (Option-cases (find? (λ a. a.id == ev.ad_account_id) s.accounts)) [
        | inl miss ↦ rw (miss, push_one)
        | inr (a, hit) ↦ elim (Option-cases push_conversion) [
          | inl c ↦ rw (hit, push_one, c)
          | inr (call, c) ↦ absurd (cc (rw (hit, c, verdict_on) at e))
        ]
      ]

  push_one-some :
      (s : Store) (ev : ConversionEvent) (events : List ConversionEvent) (r : Pushed) (w : Verdict)
      → verdict_on s ev ≡ some w
      → push_one push_conversion s ev (events, r)
        ≡ (set_state ev.event_id (state_of w) events, count w r)
  unfolding push_one verdict_on
  push_one-some s ev events r w e =
      elim (Option-cases (find? (λ a. a.id == ev.ad_account_id) s.accounts)) [
        | inl miss ↦ absurd (cc (rw (miss, verdict_on) at e))
        | inr (a, hit) ↦ elim (Option-cases push_conversion) [
          | inl c ↦ absurd (cc (rw (hit, c, verdict_on) at e))
          | inr (call, c) ↦
              let same : call a ev (user_data_for ev.event_id s) ≡ w =
                cc (rw (hit, c, verdict_on) at e) in
              rw (hit, push_one, c) (rw same refl)
        ]
      ]

  settle-absent :
      (s : Store) (evs : List ConversionEvent) (v : ConversionEvent)
      → contains (event_ids evs) v.event_id ≡ false
      → settle s evs v ≡ v
  unfolding settle
  settle-absent s [] v h = refl
  settle-absent s (ev ∷ evs) v h = elim (Bool-cases (ev.event_id == v.event_id)) [
    | inl e ↦ absurd (ground (arith, h, e))
    | inr e ↦ rw (e, settle) (settle-absent s evs v (ground (arith, h, e)))
  ]

  settle_all-none :
      (s : Store) (ev : ConversionEvent) (evs events : List ConversionEvent)
      → verdict_on s ev ≡ none
      → contains (event_ids evs) ev.event_id ≡ false
      → map (settle s evs) events ≡ map (settle s (ev ∷ evs)) events
  unfolding settle
  settle_all-none s ev evs [] n h = refl
  settle_all-none s ev evs (v ∷ vs) n h = elim (Bool-cases (ev.event_id == v.event_id)) [
    | inl e ↦
        let same : ev.event_id ≡ v.event_id = (same_event_iff ev.event_id v.event_id).0 e in
        rw (
          e,
          n,
          settle-absent s evs v (subst (λ i. contains (event_ids evs) i ≡ false) same h),
          settle_all-none s ev evs vs n h,
        )
    | inr e ↦ rw (e, settle_all-none s ev evs vs n h)
  ]

  settle_all-some :
      (s : Store) (ev : ConversionEvent) (evs events : List ConversionEvent) (w : Verdict)
      → verdict_on s ev ≡ some w
      → contains (event_ids evs) ev.event_id ≡ false
      → map (settle s evs) (set_state ev.event_id (state_of w) events)
        ≡ map (settle s (ev ∷ evs)) events
  unfolding settle
  settle_all-some s ev evs [] w n h = refl
  settle_all-some s ev evs (v ∷ vs) w n h = elim (Bool-cases (ev.event_id == v.event_id)) [
    | inl e ↦
        let same : ev.event_id ≡ v.event_id = (same_event_iff ev.event_id v.event_id).0 e in
        let later : contains (event_ids evs) v.event_id ≡ false =
          subst (λ i. contains (event_ids evs) i ≡ false) same h in
        rw (same_event_sym v.event_id ev.event_id, e, n, settle_all-some s ev evs vs w n h)
          (ap (λ x. x ∷ map (settle s (ev ∷ evs)) vs)
            (settle-absent s evs (record v { state = state_of w }) later))
    | inr e ↦ rw (same_event_sym v.event_id ev.event_id, e, settle_all-some s ev evs vs w n h) refl
  ]

  map-settle-nil : (s : Store) (events : List ConversionEvent) → map (settle s []) events ≡ events
  unfolding settle
  map-settle-nil s [] = refl
  map-settle-nil s (v ∷ vs) = ap (λ t. v ∷ t) (map-settle-nil s vs)

  push_all-settles :
      (s : Store) (evs events : List ConversionEvent) (r : Pushed)
      → IsDistinct (event_ids evs)
      → (push_all push_conversion s evs (events, r)).0 ≡ map (settle s evs) events
  unfolding push_all
  push_all-settles s [] events r d = sym (map-settle-nil s events)
  push_all-settles s (ev ∷ evs) events r (h, d) = elim (Option-cases (verdict_on s ev)) [
    | inl n ↦
        ap (λ p. (push_all push_conversion s evs p).0) (push_one-none s ev (events, r) n)
        ∙ push_all-settles s evs events r d
        ∙ settle_all-none s ev evs events n h
    | inr (w, n) ↦
        ap (λ p. (push_all push_conversion s evs p).0) (push_one-some s ev events r w n)
        ∙ push_all-settles s evs _ _ d
        ∙ settle_all-some s ev evs events w n h
  ]

  -- Every pending event of the tenant, of the first 500, gets the state of the connector's verdict on
  -- it, provided that its account is there; no other event changes, and none is lost.
  pub push-settles :
      (tenant_id : String) (s : Store)
      → IsDistinct (event_ids s.events)
      → (push push_conversion tenant_id s).0.events
        ≡ map (settle s (pending_of push_conversion tenant_id s.events)) s.events
  unfolding push
  push-settles tenant_id s d =
      push_all-settles s (pending_of push_conversion tenant_id s.events) s.events _ (
        IsDistinct-take 500 _
          (IsDistinct-filter (λ v. v.tenant_id == tenant_id && is_pending v.state) s.events d))
