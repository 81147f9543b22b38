-- ===== src/Conversions/Events.antt =====
-- The events that `generate` of apps/api/src/conversions/conversions.service.ts creates.
use ad_link.Common.{
  ◌+◌, true, false, none, some, String, List, [], ◌∷◌, ◌++◌, ◌≡◌, refl, sym, ap, ◌⊎◌, inl, inr,
  ◌==◌, arith, find?, contains, contains-append, IsDistinct, length, length-append, map,
  Option-cases, Elem, Elem-append_cases, All, subst,
}
use ad_link.Core.Enums.{ConversionState}
use ad_link.Db.{EventId, ConversionEvent}
use ad_link.Conversions.{
  Store, event_eq, same_event_iff, NewEvent, create_event, create_events, wanted, generate,
}

abbrev pub event_ids : List ConversionEvent → List EventId
event_ids = map (λ v. v.event_id)

-- The row that is created.
abbrev pub new_row : String → NewEvent → ConversionEvent
new_row tenant_id e = record {
  tenant_id = tenant_id;
  ad_account_id = e.ad_account_id;
  type = e.type;
  event_id = e.event_id;
  leadgen_id = e.leadgen_id;
  value = e.value;
  currency = e.currency;
  state = ConversionState.pending;
}

find?-contains :
    (id : EventId) (events : List ConversionEvent)
    → find? (λ v. v.event_id == id) events ≡ none
    → contains (event_ids events) id ≡ false
find?-contains id [] h = refl
find?-contains id (v ∷ vs) h = ground (arith, find?-contains id vs)

find?-contains-some :
    (id : EventId) (events : List ConversionEvent) (v : ConversionEvent)
    → find? (λ v. v.event_id == id) events ≡ some v
    → contains (event_ids events) id ≡ true
find?-contains-some id [] v h = cc
find?-contains-some id (w ∷ vs) v h = ground (arith, find?-contains-some id vs v)

contains-find? :
    (id : EventId) (events : List ConversionEvent)
    → contains (event_ids events) id ≡ true
    → (v : ConversionEvent) × (find? (λ v. v.event_id == id) events ≡ some v)
contains-find? id events h = elim (Option-cases (find? (λ v. v.event_id == id) events)) [
  | inl miss ↦ absurd (cc (h, find?-contains id events miss))
  | inr hit ↦ hit
]

event_ids-append :
    (xs ys : List ConversionEvent) → event_ids (xs ++ ys) ≡ event_ids xs ++ event_ids ys
event_ids-append [] ys = refl
event_ids-append (x ∷ xs) ys = ap (λ t. x.event_id ∷ t) (event_ids-append xs ys)

module _ (tenant_id : String) where
  pub create_event-old :
      (e : NewEvent) (events : List ConversionEvent) (v : ConversionEvent)
      → find? (λ v. v.event_id == e.event_id) events ≡ some v
      → create_event tenant_id e events ≡ (events, false)
  unfolding create_event
  create_event-old e events v hit = rw (hit, create_event)

  pub create_event-new :
      (e : NewEvent) (events : List ConversionEvent)
      → find? (λ v. v.event_id == e.event_id) events ≡ none
      → create_event tenant_id e events ≡ (events ++ new_row tenant_id e ∷ [], true)
  unfolding create_event
  create_event-new e events miss = rw (miss, create_event)

  -- An event is there after it is created, and so are those that were there.
  create_event-contains :
      (e : NewEvent) (events : List ConversionEvent)
      → contains (event_ids (create_event tenant_id e events).0) e.event_id ≡ true
  create_event-contains e events =
      elim (Option-cases (find? (λ v. v.event_id == e.event_id) events)) [
        | inl miss ↦
            rw (create_event-new e events miss, event_ids-append events (new_row tenant_id e ∷ []))
              (ground (
                arith,
                contains-append (event_ids events) (e.event_id ∷ []) e.event_id,
                same_event_iff e.event_id e.event_id,
              ))
        | inr (v, hit) ↦
            rw (create_event-old e events v hit) (find?-contains-some e.event_id events v hit)
      ]

  create_event-keeps :
      (e : NewEvent) (events : List ConversionEvent) (id : EventId)
      → contains (event_ids events) id ≡ true
      → contains (event_ids (create_event tenant_id e events).0) id ≡ true
  create_event-keeps e events id h =
      elim (Option-cases (find? (λ v. v.event_id == e.event_id) events)) [
        | inl miss ↦
            rw (create_event-new e events miss, event_ids-append events (new_row tenant_id e ∷ []))
              (ground (arith, contains-append (event_ids events) (e.event_id ∷ []) id))
        | inr (v, hit) ↦ rw (create_event-old e events v hit) h
      ]

  create_events-keeps :
      (es : List NewEvent) (events : List ConversionEvent) (id : EventId)
      → contains (event_ids events) id ≡ true
      → contains (event_ids (create_events tenant_id es events).0) id ≡ true
  unfolding create_events
  create_events-keeps [] events id h = h
  create_events-keeps (e ∷ es) events id h =
      create_events-keeps es _ id (create_event-keeps e events id h)

  -- Every call leaves its event.
  pub create_events-contains :
      (es : List NewEvent) (events : List ConversionEvent)
      → All (λ e. contains (event_ids (create_events tenant_id es events).0) e.event_id ≡ true) es
  unfolding create_events
  create_events-contains [] events = tt
  create_events-contains (e ∷ es) events = (
    create_events-keeps es _ e.event_id (create_event-contains e events),
    create_events-contains es _,
  )

  create_events-known :
      (es : List NewEvent) (events : List ConversionEvent)
      → All (λ e. contains (event_ids events) e.event_id ≡ true) es
      → create_events tenant_id es events ≡ (events, 0)
  unfolding create_events
  create_events-known [] events h = refl
  create_events-known (e ∷ es) events (k, h) =
      let (v, hit) = contains-find? e.event_id events k in
      rw (create_event-old e events v hit, create_events-known es events h)

  -- Generation is idempotent: a second run, on what the first one leaves, creates nothing and
  -- changes nothing.
  pub generate_idem :
      (s : Store) → generate tenant_id (generate tenant_id s).0 ≡ ((generate tenant_id s).0, 0)
  unfolding generate wanted
  generate_idem s =
      ap (λ p. (record s { events = p.0 }, p.1))
        (create_events-known (wanted tenant_id s) _
          (create_events-contains (wanted tenant_id s) s.events))

  IsDistinct-snoc :
      (events : List ConversionEvent) (e : NewEvent)
      → contains (event_ids events) e.event_id ≡ false
      → IsDistinct (event_ids events)
      → IsDistinct (event_ids (events ++ new_row tenant_id e ∷ []))
  IsDistinct-snoc [] e h d = (refl, tt)
  IsDistinct-snoc (v ∷ vs) e h (p, d) = (
    rw (event_ids-append vs (new_row tenant_id e ∷ [])) (
        ground (
          arith,
          contains-append (event_ids vs) (e.event_id ∷ []) v.event_id,
          same_event_iff v.event_id e.event_id,
          same_event_iff e.event_id v.event_id,
        )),
    IsDistinct-snoc vs e (ground arith) d,
  )

  create_events-IsDistinct :
      (es : List NewEvent) (events : List ConversionEvent)
      → IsDistinct (event_ids events)
      → IsDistinct (event_ids (create_events tenant_id es events).0)
        × (length (create_events tenant_id es events).0
            ≡ length events + (create_events tenant_id es events).1)
  unfolding create_events
  create_events-IsDistinct [] events d = (d, omega arith)
  create_events-IsDistinct (e ∷ es) events d =
      elim (Option-cases (find? (λ v. v.event_id == e.event_id) events)) [
        | inl miss ↦
            let grown : List ConversionEvent = events ++ new_row tenant_id e ∷ [] in
            let (d', l) =
              create_events-IsDistinct es grown
                (IsDistinct-snoc events e (find?-contains e.event_id events miss) d) in
            rw (create_event-new e events miss)
              (d', ground (arith, l, length-append events (new_row tenant_id e ∷ [])))
        | inr (v, hit) ↦ rw (create_event-old e events v hit) (create_events-IsDistinct es events d)
      ]

  -- No outcome is reported twice: the events keep distinct ids, and the answer is the number of
  -- events that are new.
  pub generate-IsDistinct :
      (s : Store)
      → IsDistinct (event_ids s.events)
      → IsDistinct (event_ids (generate tenant_id s).0.events)
        × (length (generate tenant_id s).0.events ≡ length s.events + (generate tenant_id s).1)
  unfolding generate
  generate-IsDistinct s d = create_events-IsDistinct (wanted tenant_id s) s.events d

  -- An event that was not there is the row of a call.
  pub create_events-Elem :
      (P : ConversionEvent → Type 0) (es : List NewEvent) (events : List ConversionEvent)
      (v : ConversionEvent)
      → All (λ e. P (new_row tenant_id e)) es
      → Elem v (create_events tenant_id es events).0
      → Elem v events ⊎ P v
  unfolding create_events
  create_events-Elem P [] events v h m = inl m
  create_events-Elem P (e ∷ es) events v (p, h) m =
      elim (Option-cases (find? (λ v. v.event_id == e.event_id) events)) [
        | inr (w, hit) ↦ create_events-Elem P es events v h (
            subst (λ q. Elem v (create_events tenant_id es q.0).0) (create_event-old e events w hit)
              m)
        | inl miss ↦
            let grown : List ConversionEvent = events ++ new_row tenant_id e ∷ [] in
            elim (create_events-Elem P es grown v h (
              subst (λ q. Elem v (create_events tenant_id es q.0).0)
                (create_event-new e events miss) m)) [
                  | inr q ↦ inr q
                  | inl there ↦ elim (Elem-append_cases v events (new_row tenant_id e ∷ []) there) [
                    | inl old ↦ inl old
                    | inr (inl same) ↦ inr (subst P (sym same) p)
                    | inr (inr m) ↦ absurd m
                  ]
                ]
      ]
