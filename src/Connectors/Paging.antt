-- ===== src/Connectors/Paging.antt =====
-- What the paging loops of apps/api/src/connectors read: the whole chain of pages that the server gives,
-- where the rounds are enough, and else its beginning.
use ad_link.Common.{
  ℕ, zero, suc, ◌+◌, ◌≤◌, ◌<◌, List, [], ◌++◌, ◌≡◌, ◌⊎◌, inl, inr, refl, sym, ap, ◌∙◌, arith,
  append_assoc, append-nil,
}
use ad_link.Connectors.{Page, failed, last, more, done, cut, follow}

module _ {R C : Type 0} (ask : ℕ → C → Page R C) where
  -- From the request `i` on at this cursor, the server has these rows, in so many pages.
  pub data Chain : ℕ → C → List R → ℕ → Type 0 where
    ends :
        {i : ℕ} {cursor : C} {rows : List R} {pages : ℕ}
        → ask i cursor ≡ last rows
        → pages ≡ 1
        → Chain i cursor rows pages
    goes :
        {i : ℕ} {cursor next : C} {rows here rest : List R} {pages n : ℕ}
        → ask i cursor ≡ more here next
        → Chain (i + 1) next rest n
        → rows ≡ here ++ rest
        → pages ≡ n + 1
        → Chain i cursor rows pages

  -- Enough rounds read everything, in order.
  pub follow-Chain :
      (rounds i : ℕ) (cursor : C) (out rows : List R) (pages : ℕ)
      → Chain i cursor rows pages
      → pages ≤ rounds
      → follow ask rounds i cursor out ≡ done (out ++ rows) (i + pages)
  unfolding follow
  follow-Chain zero i cursor out rows pages (ends e p) h = absurd (omega arith)
  follow-Chain zero i cursor out rows pages (goes e c r p) h = absurd (omega arith)
  follow-Chain (suc k) i cursor out rows pages (ends e p) h = rw (e, p, follow) refl
  follow-Chain (suc k) i cursor out rows pages (goes {next} {here} {rest} {n} e c r p) h =
      let tail = follow-Chain k (i + 1) next (out ++ here) rest n c (omega arith) in
      rw (e, follow)
        (tail
          ∙ ap (λ t. done t (i + 1 + n)) (append_assoc out here rest ∙ ap (λ t. out ++ t) (sym r))
          ∙ ap (done (out ++ rows)) (omega arith))

  -- Fewer rounds read the beginning, and the loop does not throw.
  pub follow-cut :
      (rounds i : ℕ) (cursor : C) (out rows : List R) (pages : ℕ)
      → Chain i cursor rows pages
      → rounds < pages
      → (first rest : List R) × (follow ask rounds i cursor out ≡ cut (out ++ first))
        × (rows ≡ first ++ rest)
  unfolding follow
  follow-cut zero i cursor out rows pages c h = ([], rows, ap cut (sym (append-nil out)), refl)
  follow-cut (suc k) i cursor out rows pages (ends e p) h = absurd (omega arith)
  follow-cut (suc k) i cursor out rows pages (goes {next} {here} {rest} {n} e c r p) h =
      let (first, left, read, split) =
        follow-cut k (i + 1) next (out ++ here) rest n c (omega arith) in
      (
        here ++ first,
        left,
        rw (e, follow) (read ∙ ap cut (append_assoc out here first)),
        r ∙ ap (λ t. here ++ t) split ∙ sym (append_assoc here first left),
      )

  -- And the loop is done only with a whole chain.
  pub Chain-follow :
      (rounds i : ℕ) (cursor : C) (out read : List R) (requests : ℕ)
      → follow ask rounds i cursor out ≡ done read requests
      → (rows : List R) × (pages : ℕ) × Chain i cursor rows pages
        × (pages ≤ rounds)
        × (read ≡ out ++ rows)
  unfolding follow
  Chain-follow zero i cursor out read requests h = absurd (cc h)
  Chain-follow (suc k) i cursor out read requests h = elim (Page-cases (ask i cursor)) [
    | inl e ↦ absurd (cc (rw (e, follow) at h))
    | inr (inl (rows, e)) ↦ (rows, 1, ends e refl, omega arith, cc (rw (e, follow) at h))
    | inr (inr (here, next, e)) ↦
        let (rest, n, c, le, eq) =
          Chain-follow k (i + 1) next (out ++ here) read requests (rw (e, follow) at h) in
        (here ++ rest, n + 1, goes e c refl refl, omega arith, eq ∙ append_assoc out here rest)
  ]
    where
      Page-cases :
          (p : Page R C)
          → (p ≡ failed)
            ⊎ (((rows : List R) × (p ≡ last rows))
                ⊎ ((rows : List R) × (next : C) × (p ≡ more rows next)))
      Page-cases failed = inl refl
      Page-cases (last rows) = inr (inl (rows, refl))
      Page-cases (more rows next) = inr (inr (rows, next, refl))
