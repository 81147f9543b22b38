-- ===== src/CrmSync/Runs.antt =====
-- How a sync of apps/api/src/ingest/crm-sync.service.ts leaves the connection and its run.
use ad_link.Common.{
  ℕ, Bool, true, false, ◌&&◌, Option, String, List, [], ◌∷◌, Text, ◌≡◌, ◌≢◌, ◌⊎◌, inl, inr, refl,
  arith, ◌==◌, string_eq, eq_iff, any, All, Bool-cases,
}
use ad_link.Core.Enums.{SyncState}
use ad_link.Db.{CrmConnection}
use ad_link.CrmSync.{
  CrmConnector, SyncRun, Store, set_sync_state, set_synced, finish, settle, sync, pull, begin,
  floor_day, load_mappings,
}

-- The connection of this id has this state.
abbrev pub ConnectionIs : String → SyncState → List CrmConnection → Type 0
ConnectionIs id state = All (λ c. (c.id ≢ id) ⊎ (c.sync_state ≡ state))

-- The run of this id has this state.
abbrev pub RunIs : String → SyncState → List SyncRun → Type 0
RunIs id state = All (λ r. (r.id ≢ id) ⊎ (r.state ≡ state))

ne_of : (x y : String) → (x == y) ≡ false → x ≢ y
ne_of x y h = λ e. ground (arith, h, (eq_iff x y).1 e)

set_sync_state-ConnectionIs :
    (id : String) (state : SyncState) (cs : List CrmConnection)
    → ConnectionIs id state (set_sync_state id state cs)
set_sync_state-ConnectionIs id state [] = tt
set_sync_state-ConnectionIs id state (c ∷ cs) = elim (Bool-cases (c.id == id)) [
  | inl e ↦ rw e (inr refl, set_sync_state-ConnectionIs id state cs)
  | inr e ↦ rw e (inl (ne_of c.id id e), set_sync_state-ConnectionIs id state cs)
]

set_synced-ConnectionIs :
    (id : String) (now : ℕ) (cs : List CrmConnection)
    → ConnectionIs id SyncState.ok (set_synced id now cs)
set_synced-ConnectionIs id now [] = tt
set_synced-ConnectionIs id now (c ∷ cs) = elim (Bool-cases (c.id == id)) [
  | inl e ↦ rw e (inr refl, set_synced-ConnectionIs id now cs)
  | inr e ↦ rw e (inl (ne_of c.id id e), set_synced-ConnectionIs id now cs)
]

finish-RunIs :
    (id : String) (state : SyncState) (rs : List SyncRun) → RunIs id state (finish id state rs)
finish-RunIs id state [] = tt
finish-RunIs id state (r ∷ rs) = elim (Bool-cases (r.id == id)) [
  | inl e ↦ rw e (inr refl, finish-RunIs id state rs)
  | inr e ↦ rw e (inl (ne_of r.id id e), finish-RunIs id state rs)
]

-- The answer, the connection and the run agree.
abbrev pub IsSettled : String → String → Store × Bool → Type 0
IsSettled id run r =
    ((r.1 ≡ true) × ConnectionIs id SyncState.ok r.0.connections × RunIs run SyncState.ok r.0.runs)
    ⊎ ((r.1 ≡ false)
        × ConnectionIs id SyncState.failed r.0.connections
        × RunIs run SyncState.failed r.0.runs)

module _ (sha256 : Text → Text) (id_of : ℕ → String) (tenant_id : String) where
  settle-IsSettled :
      (id run : String) (now : ℕ) (s : Store) (fine : Bool)
      → IsSettled id run (settle sha256 id_of tenant_id id run now (s, fine))
  unfolding settle
  settle-IsSettled id run now s fine =
      elim (Bool-cases (fine && any (λ c. c.id == id) s.connections)) [
        | inl e ↦ rw e (
            inl (
              refl,
              set_synced-ConnectionIs id now s.connections,
              finish-RunIs run SyncState.ok s.runs,
            ))
        | inr e ↦ rw e (
            inr (
              refl,
              set_sync_state-ConnectionIs id SyncState.failed s.connections,
              finish-RunIs run SyncState.failed s.runs,
            ))
      ]

  -- A sync never leaves the connection or its run RUNNING: where it returns, both are OK, and where
  -- it throws, whatever the connector did, both are FAILED.
  pub sync-IsSettled :
      (connector : CrmConnector) (id : String) (floor : Option ℕ) (now : ℕ) (s : Store)
      → IsSettled id (id_of s.drawn) (sync sha256 id_of tenant_id connector id floor now s)
  unfolding sync
  sync-IsSettled connector id floor now s =
      let (s', fine) =
        pull sha256 id_of tenant_id (floor_day floor) (load_mappings id s.mappings) connector
          (begin sha256 id_of tenant_id id s) in
      settle-IsSettled id (id_of s.drawn) now s' fine
