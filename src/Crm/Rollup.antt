-- ===== src/Crm/Rollup.antt =====
-- What `rollupCanonical` of apps/api/src/crm/canonical.ts answers.
use ad_link.Common.{
  Bool, true, false, Option, none, some, String, List, [], ◌∷◌, ◌++◌, ◌≡◌, ◌≢◌, ◌↔◌, ◌⊎◌, inl, inr,
  refl, arith, Elem, Elem-append_left, any, lookup, string_eq, Bool-cases, Option-cases, get_or, ap,
  sym,
}
use ad_link.Core.Enums.{CanonicalStatus, lead, qualified, won, is_won, is_qualified}
use ad_link.Crm.{Mapping, reached, rollup_canonical}

-- One of the stages is mapped to the status.
abbrev pub Reached : CanonicalStatus → List String → Mapping → Type 0
Reached c stages mapping = (s : String) × Elem s stages × (lookup s mapping ≡ some c)

module _ (test : CanonicalStatus → Bool) (c : CanonicalStatus)
    (only : (d : CanonicalStatus) → test d ≡ true → d ≡ c) (self : test c ≡ true) where
  any_sound :
      (stages : List String) (mapping : Mapping)
      → any test (reached stages mapping) ≡ true
      → Reached c stages mapping
  unfolding reached
  any_sound [] mapping h = cc
  any_sound (s ∷ stages) mapping h = elim (Option-cases (lookup s mapping)) [
    | inl miss ↦ let (t, k, e) = any_sound stages mapping (rw miss at h) in (t, inr k, e)
    | inr (d, hit) ↦ elim (Bool-cases (test d)) [
      | inl e ↦ (s, inl refl, rw (hit, only d e))
      | inr e ↦ let (t, k, f) = any_sound stages mapping (rw (hit, e) at h) in (t, inr k, f)
    ]
  ]

  any_complete :
      (stages : List String) (mapping : Mapping)
      → Reached c stages mapping
      → any test (reached stages mapping) ≡ true
  unfolding reached
  any_complete [] mapping (s, k, e) = absurd k
  any_complete (t ∷ stages) mapping (s, inl same, e) = rw (← same, e, self)
  any_complete (t ∷ stages) mapping (s, inr k, e) =
      let ih = any_complete stages mapping (s, k, e) in ground arith

won_iff :
    (stages : List String) (mapping : Mapping)
    → (any is_won (reached stages mapping) ≡ true) ↔ Reached won stages mapping
won_iff stages mapping = (
  any_sound is_won won (λ d h. ground arith) refl stages mapping,
  any_complete is_won won (λ d h. ground arith) refl stages mapping,
)

qualified_iff :
    (stages : List String) (mapping : Mapping)
    → (any is_qualified (reached stages mapping) ≡ true) ↔ Reached qualified stages mapping
qualified_iff stages mapping = (
  any_sound is_qualified qualified (λ d h. ground arith) refl stages mapping,
  any_complete is_qualified qualified (λ d h. ground arith) refl stages mapping,
)

get_or-eq :
    (o : Option CanonicalStatus) (c : CanonicalStatus) → get_or o lead ≡ c → c ≢ lead → o ≡ some c
get_or-eq none c e n = absurd (n (sym e))
get_or-eq (some d) c e n = ap some e

-- The status against the stages that were reached.
pub record IsRolledUp (stages : List String) (mapping : Mapping) (current : String)
    (c : CanonicalStatus) : Type 0 where
  pub won_iff : (c ≡ won) ↔ Reached won stages mapping
  pub qualified_iff :
      (c ≡ qualified) ↔ (Reached qualified stages mapping × (¬ Reached won stages mapping))
  pub otherwise :
      ¬ Reached won stages mapping
      → ¬ Reached qualified stages mapping
      → c ≡ get_or (lookup current mapping) lead

-- The rule for a deal whose current stage is among its stages: WON exactly if it was ever in a stage
-- that is mapped to WON; QUALIFIED exactly if it was ever in one mapped to QUALIFIED and never in
-- one mapped to WON; otherwise what its current stage is mapped to, or LEAD.
pub rollup_canonical-IsRolledUp :
    (stages : List String) (mapping : Mapping) (current : String)
    → Elem current stages
    → IsRolledUp stages mapping current (rollup_canonical stages mapping current)
unfolding rollup_canonical
rollup_canonical-IsRolledUp stages mapping current here =
    elim (Bool-cases (any is_won (reached stages mapping))) [
      | inl w ↦
          let reach = (won_iff stages mapping).0 w in
          rw w (record {
            won_iff = (λ _. reach, λ _. refl);
            qualified_iff = (λ e. cc, λ k. absurd (k.1 reach));
            otherwise = λ n _. absurd (n reach);
          })
      | inr w ↦
          let never : ¬ Reached won stages mapping = λ r. cc (w, (won_iff stages mapping).1 r) in
          elim (Bool-cases (any is_qualified (reached stages mapping))) [
            | inl q ↦
                let reach = (qualified_iff stages mapping).0 q in
                rw (w, q)
                  (record {
                    won_iff = (λ e. cc, λ r. absurd (never r));
                    qualified_iff = (λ _. (reach, never), λ _. refl);
                    otherwise = λ _ n. absurd (n reach);
                  })
            | inr q ↦
                let unqualified : ¬ Reached qualified stages mapping =
                  λ r. cc (q, (qualified_iff stages mapping).1 r) in
                rw (w, q)
                  (record {
                    won_iff = (
                      λ e. (current, here, get_or-eq (lookup current mapping) won e (λ k. cc)),
                      λ r. absurd (never r),
                    );
                    qualified_iff = (
                      λ e. absurd (
                          unqualified (
                            current,
                            here,
                            get_or-eq (lookup current mapping) qualified e (λ k. cc),
                          )),
                      λ r. absurd (unqualified r.0),
                    );
                    otherwise = λ _ _. refl;
                  })
          ]
    ]

Bool-ext : (a b : Bool) → (a ≡ true → b ≡ true) → (b ≡ true → a ≡ true) → a ≡ b
Bool-ext true b h k = sym (h refl)
Bool-ext false b h k = ground arith

Reached-mono :
    (c : CanonicalStatus) (xs ys : List String) (mapping : Mapping)
    → ((s : String) → Elem s xs → Elem s ys)
    → Reached c xs mapping
    → Reached c ys mapping
Reached-mono c xs ys mapping sub (s, k, e) = (s, sub s k, e)

-- Only the set of stages counts: two histories with the same stages, in any order and with any
-- repetitions, give one status.
pub rollup_canonical_set :
    (xs ys : List String) (mapping : Mapping) (current : String)
    → ((s : String) → Elem s xs → Elem s ys)
    → ((s : String) → Elem s ys → Elem s xs)
    → rollup_canonical xs mapping current ≡ rollup_canonical ys mapping current
unfolding rollup_canonical
rollup_canonical_set xs ys mapping current sub sup =
    let same_won : any is_won (reached xs mapping) ≡ any is_won (reached ys mapping) =
      Bool-ext _ _
        (λ h.
          (won_iff ys mapping).1 (Reached-mono won xs ys mapping sub ((won_iff xs mapping).0 h)))
        (λ h.
          (won_iff xs mapping).1 (Reached-mono won ys xs mapping sup ((won_iff ys mapping).0 h))) in
    let same_qualified : any is_qualified (reached xs mapping)
        ≡ any is_qualified (reached ys mapping) =
      Bool-ext _ _
        (λ h.
          (qualified_iff ys mapping).1
            (Reached-mono qualified xs ys mapping sub ((qualified_iff xs mapping).0 h)))
        (λ h.
          (qualified_iff xs mapping).1
            (Reached-mono qualified ys xs mapping sup ((qualified_iff ys mapping).0 h))) in
    rw (same_won, same_qualified)

-- A deal that was WON stays WON when it passes through more stages and moves to another one. (Its
-- stage before the move is among its stages.)
pub rollup_canonical-won :
    (stages more : List String) (mapping : Mapping) (before after : String)
    → Elem before stages
    → rollup_canonical stages mapping before ≡ won
    → rollup_canonical (stages ++ more) mapping after ≡ won
unfolding rollup_canonical
rollup_canonical-won stages more mapping before after here e =
    let spec = rollup_canonical-IsRolledUp stages mapping before here in
    let w = (won_iff (stages ++ more) mapping).1 (
      Reached-mono won stages (stages ++ more) mapping (λ s k. Elem-append_left s stages more k)
        (spec.won_iff.0 e)) in
    rw w

-- A deal that was QUALIFIED is QUALIFIED or WON when it passes through more stages and moves to
-- another one. (Its stage before the move is among its stages.)
pub rollup_canonical-qualified :
    (stages more : List String) (mapping : Mapping) (before after : String)
    → Elem before stages
    → rollup_canonical stages mapping before ≡ qualified
    → (rollup_canonical (stages ++ more) mapping after ≡ qualified)
      ⊎ (rollup_canonical (stages ++ more) mapping after ≡ won)
unfolding rollup_canonical
rollup_canonical-qualified stages more mapping before after here e =
    let spec = rollup_canonical-IsRolledUp stages mapping before here in
    let q = (qualified_iff (stages ++ more) mapping).1 (
      Reached-mono qualified stages (stages ++ more) mapping
        (λ s k. Elem-append_left s stages more k) (spec.qualified_iff.0 e).0) in
    elim (Bool-cases (any is_won (reached (stages ++ more) mapping))) [
      | inl w ↦ inr (rw w)
      | inr w ↦ inl (rw (w, q))
    ]
