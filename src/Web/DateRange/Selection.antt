-- ===== src/Web/DateRange/Selection.antt =====
-- What a user can select in the panel of apps/web/src/components/date-range-picker.tsx.
use ad_link.Common.{
  ℕ, ◌≤◌, ◌<◌, true, Option, none, some, List, [], ◌∷◌, ◌≡◌, inl, inr, refl, arith, subst, ltb,
  get_or, Bool-cases, if◌then◌else◌,
}
use ad_link.Web.DateRange.{
  Panel, pick_day, Action, pick, back, forward, act, acts, apply_custom, opened, mark, between,
}

-- The ends of the selection are in order, and there is no end without a start.
abbrev pub InOrder : Option ℕ → Option ℕ → Type 0
InOrder none none = Unit
InOrder none (some t) = ⊥
InOrder (some f) none = Unit
InOrder (some f) (some t) = f ≤ t

abbrev pub IsOrdered : Panel → Type 0
IsOrdered p = InOrder p.from p.to

pick_day-InOrder :
    (d : ℕ) (p : Panel) (from to : Option ℕ) → p.from ≡ from → p.to ≡ to → IsOrdered (pick_day d p)
unfolding pick_day
pick_day-InOrder d p none to e g = rw (e, pick_day) tt
pick_day-InOrder d p (some f) (some t) e g = rw (e, g, pick_day) tt
pick_day-InOrder d p (some f) none e g = elim (Bool-cases (ltb d f)) [
  | inl k ↦ rw (e, g, k, pick_day) (rw g tt)
  | inr k ↦ rw (e, g, k, pick_day) (rw e (ground arith))
]

act-IsOrdered : (a : Action) (p : Panel) → IsOrdered p → IsOrdered (act a p)
unfolding act
act-IsOrdered (pick d) p h = pick_day-InOrder d p p.from p.to refl refl
act-IsOrdered back p h = h
act-IsOrdered forward p h = h

acts-IsOrdered : (as' : List Action) (p : Panel) → IsOrdered p → IsOrdered (acts as' p)
unfolding acts
acts-IsOrdered [] p h = h
acts-IsOrdered (a ∷ as') p h = acts-IsOrdered as' (act a p) (act-IsOrdered a p h)

InOrder-le : (a : ℕ) (to : Option ℕ) → InOrder (some a) to → a ≤ get_or to a
InOrder-le a none o = omega arith
InOrder-le a (some t) o = o

between_bounds :
    (f t : ℕ) (to : Option ℕ) (d : ℕ)
    → t ≡ get_or to f
    → (between (some f) to d ≡ true → (f < d) × (d < t))
      × ((f < d) × (d < t) → between (some f) to d ≡ true)
between_bounds f t none d e = ((λ h. absurd (cc h)), λ (h, k). absurd (omega (arith, e, h, k)))
between_bounds f t (some u) d e = ((λ h. ground arith), λ (h, k). ground arith)

apply_custom-InOrder :
    (p : Panel) (from to : Option ℕ) (f t : ℕ)
    → p.from ≡ from
    → p.to ≡ to
    → InOrder from to
    → apply_custom p ≡ some (f, t)
    → (f ≤ t)
      × ((d : ℕ)
          → (between p.from p.to d ≡ true → (f < d) × (d < t))
            × ((f < d) × (d < t) → between p.from p.to d ≡ true))
unfolding apply_custom
apply_custom-InOrder p none to f t e g o h = absurd (cc (rw (e, apply_custom) at h))
apply_custom-InOrder p (some a) to f t e g o h =
    let starts : a ≡ f = cc (rw (e, g, apply_custom) at h) in
    let ends : get_or to a ≡ t = cc (rw (e, g, apply_custom) at h) in
    (
      subst (λ x. x ≤ t) starts (subst (λ y. a ≤ y) ends (InOrder-le a to o)),
      λ d. rw (e, g, ← starts, ← ends) (between_bounds a (get_or to a) to d refl),
    )

-- Whatever is clicked, the range that the panel reports has its ends in order, and a day is shown as
-- inside of it exactly where it is strictly between them.
pub acts-reports :
    (from to : Option ℕ) (now : ℕ) (as' : List Action) (f t : ℕ)
    → InOrder from to
    → apply_custom (acts as' (opened from to now)) ≡ some (f, t)
    → (f ≤ t)
      × ((d : ℕ)
          → ((mark (acts as' (opened from to now)) now d).in_range ≡ true → (f < d) × (d < t))
            × ((f < d) × (d < t) → (mark (acts as' (opened from to now)) now d).in_range ≡ true))
unfolding mark
acts-reports from to now as' f t o h =
    let p = acts as' (opened from to now) in
    apply_custom-InOrder p p.from p.to f t refl refl (acts-IsOrdered as' (opened from to now) o) h

-- Two clicks on a panel without a selection, or with a whole one, select the days between them, and a
-- second click on an earlier day starts again.
pub pick_day-pick_day :
    (a b : ℕ) (p : Panel)
    → p.from ≡ none
    → apply_custom (pick_day b (pick_day a p)) ≡ some (if ltb b a then (b, b) else (a, b))
unfolding apply_custom pick_day
pick_day-pick_day a b p e =
    let first : pick_day a p ≡ record p { from = some a; to = none } = rw (e, pick_day) refl in
    rw first (elim (Bool-cases (ltb b a)) [
      | inl k ↦ rw (k, pick_day) refl
      | inr k ↦ rw (k, pick_day) refl
    ])
