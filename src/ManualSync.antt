-- ===== src/ManualSync.antt =====
-- netbox_sync/application/manual_sync.py: a confirmed plan and one guarded execution of it.
pub mod Laws
use infra_sync.Prelude.{
  ℕ, String, Bool, true, false, not, ◌&&◌, ◌||◌, Option, none, some, List, ◌==◌, if◌then◌else◌,
  Result, ok, err,
}
use infra_sync.Config.{SourceConfig}
use infra_sync.Confirmation.{ConfirmationClaims, ConfirmationError, Entry, issue, consume}

-- What the service reads of a plan.
pub record Plan : Type 0 where
  pub apply_allowed : Bool
  pub digest : String
  pub planner_version : String
  pub source_fingerprint : String
  pub target_fingerprint : String

-- The codes of `ManualSyncError`; `confirmation` carries one of `ConfirmationError`, and
-- `passed_on` is an exception of the loader or the planner, which the service does not catch.
pub data ManualSyncError : Type 0 where
  source_not_found source_disabled plan_blocked plan_stale outcome_uncertain : ManualSyncError
  confirmation : ConfirmationError → ManualSyncError
  passed_on : ManualSyncError

-- How an executor ends: a `ManualSyncError` passes through, any other exception is uncertain.
pub data Ending : Type 0 where
  returned raised_other : Ending
  raised : ManualSyncError → Ending

pub record Service (W : Type 0) : Type 0 where
  pub sha256 : String → String
  pub token_hex : W → String × W
  pub now : W → ℕ × W
  pub load : String → W → Result ManualSyncError (Option SourceConfig) × W
  pub build_plan : SourceConfig → W → Result ManualSyncError Plan × W
  pub execute : SourceConfig → Plan → W → Ending × W

pub record State (W : Type 0) : Type 0 where
  pub entries : List Entry
  pub world : W

module _ {W : Type 0} (service : Service W) (ttl maximum : ℕ) where
  open service use {sha256, token_hex, now, load, build_plan, execute}

  abbrev pub checked :
      Result ManualSyncError (Option SourceConfig) → Result ManualSyncError SourceConfig
  checked (err e) = err e
  checked (ok none) = err source_not_found
  checked (ok (some source)) = if not source.enabled then err source_disabled else ok source

  unfoldable pub enabled_source : String → W → Result ManualSyncError SourceConfig × W
  enabled_source source_instance w = let (r, w') = load source_instance w in (checked r, w')

  abbrev pub claims_of : SourceConfig → Plan → ConfirmationClaims
  claims_of source plan = record {
    source_instance = source.source_instance;
    source_id = source.id;
    plan_digest = plan.digest;
    planner_version = plan.planner_version;
    source_fingerprint = plan.source_fingerprint;
    target_fingerprint = plan.target_fingerprint;
  }

  abbrev pub wrapped : {A : Type 0} → Result ConfirmationError A → Result ManualSyncError A
  wrapped (ok a) = ok a
  wrapped (err e) = err (confirmation e)

  -- `self._confirmations.issue(claims)`
  unfoldable pub issue_token :
      ConfirmationClaims → State W → Result ManualSyncError String × State W
  issue_token claims s =
      let (token, w) = token_hex s.world in
      let (time, w') = now w in
      let (r, entries) = issue sha256 ttl maximum token time claims s.entries in
      (wrapped r, record { entries = entries; world = w' })

  abbrev pub prepared :
      String
      → SourceConfig
      → Result ManualSyncError Plan
      → State W
      → Result ManualSyncError String × State W
  prepared expected_digest source (err e) s = (err e, s)
  prepared expected_digest source (ok plan) s =
      if not plan.apply_allowed
      then (err plan_blocked, s)
      else if not (plan.digest == expected_digest)
      then (err plan_stale, s)
      else issue_token (claims_of source plan) s

  abbrev pub planned :
      String
      → Result ManualSyncError SourceConfig
      → State W
      → Result ManualSyncError String × State W
  planned expected_digest (err e) s = (err e, s)
  planned expected_digest (ok source) s =
      let (r, w) = build_plan source s.world in
      prepared expected_digest source r (record s { world = w })

  unfoldable pub prepare :
      (source_instance expected_digest : String) → State W → Result ManualSyncError String × State W
  unfolding enabled_source issue_token
  prepare source_instance expected_digest s =
      let (r, w) = enabled_source source_instance s.world in
      planned expected_digest r (record s { world = w })

  -- The plan is the one that was confirmed.
  unfoldable pub is_confirmed : ConfirmationClaims → SourceConfig → Plan → Bool
  is_confirmed claims source plan =
      plan.apply_allowed
      && source.id == claims.source_id
      && plan.digest == claims.plan_digest
      && plan.planner_version == claims.planner_version
      && plan.source_fingerprint == claims.source_fingerprint
      && plan.target_fingerprint == claims.target_fingerprint

  abbrev pub ended : Plan → Ending → Result ManualSyncError String
  ended plan returned = ok plan.digest
  ended plan (raised e) = err e
  ended plan raised_other = err outcome_uncertain

  abbrev pub replanned :
      ConfirmationClaims
      → SourceConfig
      → Result ManualSyncError Plan
      → State W
      → Result ManualSyncError String × State W
  replanned claims source (err e) s = (err e, s)
  replanned claims source (ok plan) s =
      if not (is_confirmed claims source plan)
      then (err plan_stale, s)
      else (let (ending, w) = execute source plan s.world in
          (ended plan ending, record s { world = w }))

  abbrev pub reloaded :
      ConfirmationClaims
      → Result ManualSyncError SourceConfig
      → State W
      → Result ManualSyncError String × State W
  reloaded claims (err e) s = (err e, s)
  reloaded claims (ok source) s =
      let (r, w) = build_plan source s.world in replanned claims source r (record s { world = w })

  abbrev pub consumed :
      String
      → Result ConfirmationError ConfirmationClaims
      → State W
      → Result ManualSyncError String × State W
  consumed source_instance (err e) s = (err (confirmation e), s)
  consumed source_instance (ok claims) s =
      let (r, w) = enabled_source source_instance s.world in
      reloaded claims r (record s { world = w })

  -- The result is the digest of the plan that was applied.
  unfoldable pub apply :
      (source_instance token : String) → State W → Result ManualSyncError String × State W
  unfolding enabled_source is_confirmed
  apply source_instance token s =
      let (time, w) = now s.world in
      let (r, entries) = consume sha256 token source_instance time s.entries in
      consumed source_instance r (record { entries = entries; world = w })
