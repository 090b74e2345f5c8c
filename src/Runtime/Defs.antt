-- ===== src/Runtime/Defs.antt =====
-- src/rwkv_agent/state_runtime.py: the runtime's state, and the creation, forking and release of
-- persistent states. The lock makes each method one step.
use rwkv_agent.Base.{
  ℕ, zero, suc, ◌+◌, String, Bool, true, false, not, ◌||◌, List, [], ◌∷◌, map, Option, none, some,
  ltb, if◌then◌else◌, same, string_dec, length, is_empty, any, select, Dict, lookup, insert, tally,
  strip, is_unique, mentions, is_blank, ℤ, M, ok, raise, pure, fail, ◌>>=◌, ◌>>◌, raise_if,
  on_error, ignore_key_error, read, modify, for_each, or_fail, library_error, value_error,
  runtime_error, Error,
}
use rwkv_agent.Backend.{Backend}
use rwkv_agent.Decoding.{Text}
use rwkv_agent.Scheduler.Requests.{Scheduler, RequestState}
use rwkv_agent.Scheduler.Requests
use rwkv_agent.Scheduler.Prefill
use rwkv_agent.Registry
use rwkv_agent.Registry.{
  Registry, PersistentState, on_scheduler, clean_owner, require, ensure_capacity, add,
  release_records, cleanup_expired,
}

-- `TokenizerProtocol`; `encode` gives nothing where it raises.
pub record Tokenizer : Type 0 where
  pub encode : String → Option (List ℤ)
  pub decode : List ℤ → Text

pub record Description : Type 0 where
  pub state_id : String
  pub owner_id : String
  pub parent_state_id : Option String
  pub branch : String
  pub seen_tokens : ℕ

-- `text[:n]`
unfoldable pub truncate : ℕ → String → String
truncate zero s = String.[]
truncate (suc n) String.[] = String.[]
truncate (suc n) (String.◌∷◌ c s) = String.◌∷◌ c (truncate n s)

abbrev pub or_default : String → String → String
or_default s default = if is_blank s then default else s

module _ ⦃B : Backend⦄ where
  -- `new_id n` is the n-th identity that `uuid.uuid4()` gives.
  pub record Runtime : Type 0 where
    pub registry : Registry
    pub tokenizer : Tokenizer
    pub context_limit : ℕ
    pub eos_token_id : ℤ
    pub busy : List String
    pub metrics : Dict String ℕ
    pub new_id : ℕ → String
    pub ids_used : ℕ

  abbrev pub on_registry : {A : Type 0} → M Registry A → M Runtime A
  on_registry m s = elim (m s.registry) [
    | ok a q ↦ ok a (record s { registry = q })
    | raise e q ↦ raise e (record s { registry = q })
  ]

  abbrev pub scheduled : {A : Type 0} → M Scheduler A → M Runtime A
  scheduled m = on_registry (on_scheduler m)

  unfoldable pub bump : String → ℕ → M Runtime (Unit {0})
  bump name n = modify (λ s. record s { metrics = tally string_dec name n s.metrics })

  unfoldable pub new_state_id : M Runtime String
  new_state_id s = ok (s.new_id s.ids_used) (record s { ids_used = s.ids_used + 1 })

  unfoldable pub encode : String → M Runtime (List ℤ)
  encode text = do
    raise_if (is_blank text) value_error
    s ← read
    tokens ← or_fail (s.tokenizer.encode text) library_error
    raise_if (is_empty tokens) value_error
    raise_if (ltb s.context_limit (length tokens)) value_error
    pure tokens

  unfoldable pub cleanup : M Runtime (List String)
  cleanup = do
    s ← read
    expired ← on_registry (cleanup_expired s.busy)
    if is_empty expired then pure expired else do
      bump "expired" (length expired)
      bump "expired_grouped" 1
      bump "released" (length expired)
      pure expired

  unfoldable pub ensure_available : List PersistentState → M Runtime (Unit {0})
  ensure_available records = do
    s ← read
    raise_if (any (λ r. mentions r.state_id s.busy) records) runtime_error

  abbrev pub describe : PersistentState → ℕ → Description
  describe r seen = record {
    state_id = r.state_id;
    owner_id = r.owner_id;
    parent_state_id = r.parent_state_id;
    branch = r.branch;
    seen_tokens = seen;
  }

  abbrev pub new_record : String → String → Option String → String → ℕ → PersistentState
  new_record state_id owner parent branch now = record {
    state_id = state_id;
    owner_id = owner;
    parent_state_id = parent;
    branch = branch;
    created_at = now;
    last_used_at = now;
  }

  abbrev pub touch : ℕ → PersistentState → Registry → Registry
  touch now r s = elim (lookup string_dec r.state_id s.records) [
    | none ↦ s
    | some r' ↦ record s {
      records = insert string_dec r.state_id (record r' { last_used_at = now }) s.records;
    }
  ]

  unfoldable pub touch_all : List PersistentState → M Runtime (Unit {0})
  touch_all rs = do s ← read; for_each rs (λ r. on_registry (modify (touch s.registry.now r)))

  unfoldable pub has_state : String → String → Bool → M Runtime Bool
  has_state owner_id state_id refresh = do
    owner ← on_registry (clean_owner owner_id)
    cleanup >>= λ _. pure tt
    λ s. elim (on_registry (require state_id owner) s) [
      | ok r s' ↦ if refresh then (touch_all (r ∷ []) >> pure true) s' else ok true s'
      | raise e s' ↦ elim e [ Error.key_error ↦ ok false s' | other ↦ raise other s' ]
    ]

  unfoldable pub prefill : String → String → String → M Runtime Description
  prefill owner_id prompt branch = do
    owner ← on_registry (clean_owner owner_id)
    tokens ← encode prompt
    cleanup >>= λ _. pure tt
    on_registry (ensure_capacity 1)
    state_id ← new_state_id
    s ← read
    on_error
        (do
          scheduled (Requests.admit state_id tokens) >>= λ _. pure tt
          scheduled (Prefill.prefill (some (state_id ∷ []))) >>= λ _. pure tt)
        (ignore_key_error (scheduled (Requests.release state_id)) >> bump "failed" 1)
    let r = new_record state_id owner none (truncate 80 (or_default branch "root")) s.registry.now
    on_registry (add r)
    bump "created" 1
    q ← scheduled (Requests.request state_id)
    pure (describe r q.seen_tokens)

  unfoldable pub add_children :
      String → String → ℕ → List String → List RequestState → M Runtime (List Description)
  add_children owner parent now [] [] = pure []
  add_children owner parent now [] (c ∷ cs) = fail value_error
  add_children owner parent now (label ∷ labels) [] = fail value_error
  add_children owner parent now (label ∷ labels) (c ∷ cs) = do
    let r = new_record c.request_id owner (some parent) (truncate 80 label) now
    on_registry (add r)
    rest ← add_children owner parent now labels cs
    pure (describe r c.seen_tokens ∷ rest)

  unfoldable pub new_state_ids : List String → M Runtime (List String)
  new_state_ids [] = pure []
  new_state_ids (label ∷ labels) = do id ← new_state_id; ids ← new_state_ids labels; pure (id ∷ ids)

  unfoldable pub fork : String → String → List String → M Runtime (List Description)
  fork owner_id parent_state_id branches = do
    owner ← on_registry (clean_owner owner_id)
    let labels = map strip branches
    raise_if (is_empty labels || any is_blank labels) value_error
    raise_if (not (is_unique labels)) value_error
    cleanup >>= λ _. pure tt
    parent ← on_registry (require parent_state_id owner)
    ensure_available (parent ∷ [])
    on_registry (ensure_capacity (length labels))
    state_ids ← new_state_ids labels
    children ← on_error (scheduled (Requests.fork parent.state_id state_ids)) (bump "failed" 1)
    s ← read
    output ← add_children owner parent.state_id s.registry.now labels children
    touch_all (parent ∷ [])
    bump "forked" (length output)
    pure output

  unfoldable pub require_all : String → List String → M Runtime (List PersistentState)
  require_all owner [] = pure []
  require_all owner (id ∷ ids) = do
    r ← on_registry (require id owner)
    rs ← require_all owner ids
    pure (r ∷ rs)

  unfoldable pub release : String → List String → M Runtime (List String)
  release owner_id state_ids = do
    owner ← on_registry (clean_owner owner_id)
    let ids = map strip state_ids
    raise_if (is_empty ids || any is_blank ids) value_error
    raise_if (not (is_unique ids)) value_error
    cleanup >>= λ _. pure tt
    records ← require_all owner ids
    ensure_available records
    on_registry (release_records records)
    bump "released" (length records)
    pure ids

  abbrev pub owned_by : String → Dict String PersistentState → List PersistentState
  owned_by owner records = select (λ r. same r.owner_id owner) (map (λ e. e.1) records)

  -- The number of released states, and the busy ones that were passed over.
  unfoldable pub release_owner : String → M Runtime (ℕ × List String)
  release_owner owner_id = do
    owner ← on_registry (clean_owner owner_id)
    s ← read
    let records = owned_by owner s.registry.records
    let busy = select (λ r. mentions r.state_id s.busy) records
    let free = select (λ r. not (mentions r.state_id s.busy)) records
    if is_empty free
        then pure tt
        else do on_registry (release_records free); bump "released" (length free)
    pure (length free, map (λ r. r.state_id) busy)

  unfoldable pub close : M Runtime (Unit {0})
  close = do s ← read; raise_if (not (is_empty s.busy)) runtime_error; on_registry Registry.clear
