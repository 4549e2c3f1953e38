-- ===== src/State/RulesetInvariant.antt =====
-- The invariant of one reconstructed ruleset, and the updates of one (src/state.rs).
use landlock_observability.Prelude.{
  ℕ, ◌≤◌, ◌≡◌, refl, Bool, true, false, Option, none, some, arith, ℕ_discrete,
}
use landlock_observability.Map.{get, Entries, Entries-alter}
use landlock_observability.Event.Ids.{RulesetId}
use landlock_observability.Event.Kinds.{
  CreateRulesetEvent, AddRulePathBeneathEvent, AddRuleNetPortEvent, FreeRulesetEvent,
}
use landlock_observability.State.Facts.{
  LifecycleState, marked_allocated, update_max, update_latest_timestamp,
}
use landlock_observability.State.Rulesets.{
  FilesystemRuleState, NetworkRuleState, FilesystemTarget, FilesystemTarget-discrete, RulesetState,
  ruleset_state_new, note_used, note_created, note_path_rule, note_port_rule, note_freed,
  merged_path_rule, merged_port_rule,
}

abbrev pub is_some {ℓ} : {A : Type ℓ} → Option A → Bool
is_some none = false
is_some (some a) = true

abbrev pub is_deallocated : LifecycleState → Bool
is_deallocated LifecycleState.allocated = false
is_deallocated LifecycleState.deallocated = true

-- A number that may be unknown is at most another.
abbrev pub AtMost : Option ℕ → ℕ → Type 0
AtMost none n = Unit
AtMost (some m) n = m ≤ n

-- A ruleset is deallocated exactly if a free event gave a final version and a timestamp, the final
-- version is an observed one, and the handled rights are known exactly if the creation was seen.
pub record FactsFit (id : RulesetId) (r : RulesetState) : Type 0 where
  pub own_id : r.id ≡ id
  pub final_known : is_some r.final_version ≡ is_deallocated r.lifecycle
  pub free_known : is_some r.free_timestamp ≡ is_deallocated r.lifecycle
  pub final_bounded : AtMost r.final_version r.max_observed_version
  pub fs_known : is_some r.handled_fs ≡ is_some r.creation_timestamp
  pub net_known : is_some r.handled_net ≡ is_some r.creation_timestamp
  pub scoped_known : is_some r.scoped ≡ is_some r.creation_timestamp

abbrev pub AtTarget : FilesystemTarget → FilesystemRuleState → Type 0
AtTarget t rule = (rule.device ≡ t.device) × (rule.inode ≡ t.inode)

abbrev pub AtPort : ℕ → NetworkRuleState → Type 0
AtPort port rule = rule.port ≡ port

-- And each rule is stored under the target that it names.
pub record RulesetFits (id : RulesetId) (r : RulesetState) : Type 0 where
  pub facts : FactsFit id r
  pub path_rules : Entries FilesystemTarget-discrete AtTarget r.filesystem_rules
  pub port_rules : Entries ℕ_discrete AtPort r.network_rules

pub new-Fits :
    (id : RulesetId) (v : ℕ) → RulesetFits id (ruleset_state_new id LifecycleState.allocated v)
unfolding get
new-Fits id v = record {
  facts = ground arith;
  path_rules = λ t rule e. cc;
  port_rules = λ p rule e. cc;
}

pub used-Fits :
    (id : RulesetId) (v : ℕ) (r : RulesetState) → RulesetFits id r → RulesetFits id (note_used v r)
unfolding note_used marked_allocated
used-Fits id v r h = record {
  facts = ground (arith, h.facts);
  path_rules = h.path_rules;
  port_rules = h.port_rules;
}

created-path_rules :
    (e : CreateRulesetEvent) (r : RulesetState)
    → (note_created e r).filesystem_rules ≡ r.filesystem_rules
unfolding note_created
created-path_rules e r = ground arith

created-port_rules :
    (e : CreateRulesetEvent) (r : RulesetState) → (note_created e r).network_rules ≡ r.network_rules
unfolding note_created
created-port_rules e r = ground arith

created-facts :
    (id : RulesetId) (e : CreateRulesetEvent) (r : RulesetState)
    → FactsFit id r
    → FactsFit id (note_created e r)
unfolding note_created marked_allocated
created-facts id e r h = ground arith

pub created-Fits :
    (id : RulesetId) (e : CreateRulesetEvent) (r : RulesetState)
    → RulesetFits id r
    → RulesetFits id (note_created e r)
created-Fits id e r h = record {
  facts = created-facts id e r h.facts;
  path_rules = rw (created-path_rules e r) h.path_rules;
  port_rules = rw (created-port_rules e r) h.port_rules;
}

pub path_rule-Fits :
    (id : RulesetId) (e : AddRulePathBeneathEvent) (r : RulesetState)
    → RulesetFits id r
    → RulesetFits id (note_path_rule e r)
unfolding note_path_rule merged_path_rule marked_allocated
path_rule-Fits id e r h = record {
  facts = ground (arith, h.facts);
  path_rules =
      Entries-alter FilesystemTarget-discrete AtTarget
        (record { device = e.device; inode = e.inode }) _ _ r.filesystem_rules (refl, refl)
        (λ rule k. ground arith) h.path_rules;
  port_rules = h.port_rules;
}

pub port_rule-Fits :
    (id : RulesetId) (e : AddRuleNetPortEvent) (r : RulesetState)
    → RulesetFits id r
    → RulesetFits id (note_port_rule e r)
unfolding note_port_rule merged_port_rule marked_allocated
port_rule-Fits id e r h = record {
  facts = ground (arith, h.facts);
  path_rules = h.path_rules;
  port_rules =
      Entries-alter ℕ_discrete AtPort e.port _ _ r.network_rules refl (λ rule k. ground arith)
        h.port_rules;
}

-- `FreeRuleset` also makes the facts of a ruleset that was allocated with no final version fit.
pub freed-Fits :
    (id : RulesetId) (e : FreeRulesetEvent) (r : RulesetState)
    → RulesetFits id r
    → RulesetFits id (note_freed e r)
unfolding note_freed update_max update_latest_timestamp
freed-Fits id e r h = record {
  facts = ground (arith, h.facts);
  path_rules = h.path_rules;
  port_rules = h.port_rules;
}

pub freed_new-Fits :
    (id : RulesetId) (e : FreeRulesetEvent)
    → RulesetFits id
        (note_freed e (ruleset_state_new id LifecycleState.deallocated e.ruleset_version))
unfolding note_freed update_max update_latest_timestamp get
freed_new-Fits id e = record {
  facts = ground arith;
  path_rules = λ t rule h. cc;
  port_rules = λ p rule h. cc;
}
