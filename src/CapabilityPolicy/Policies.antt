-- ===== src/CapabilityPolicy/Policies.antt =====
-- src/aep/capability_policy.py: `_validated_policy`, `_unique_refs` and the order of the policies.
-- `is_semver` is `SEMVER_PATTERN.fullmatch`.
use agent_engineering_platfo.Prelude.{
  ℕ, String, Bool, true, false, not, ◌&&◌, ◌||◌, Option, none, some, List, [], ◌∷◌, str_eq,
  String_eq, ltb, nat_eq, contains, if◌then◌else◌,
}
use agent_engineering_platfo.Action.{Error, value_error, type_error}
use agent_engineering_platfo.Outcome.{Outcome, returned, raised, ◌>>=◌, ◌>>◌, ensure}
use agent_engineering_platfo.Json.{Json, null, str, arr, obj, Items, nil, cons, Fields, get}
use agent_engineering_platfo.Store.State.{is_text, text_lt}
use agent_engineering_platfo.CapabilityPolicy.{
  PolicyScope, platform, workspace, workflow, task, agent, tool, PolicyDecision, allow,
  require_approval, deny, ApplicablePolicy, Rule, PolicyRef, Policy,
}

-- `_SCOPE_ORDER`
abbrev pub scope_order : PolicyScope → ℕ
scope_order platform = 0
scope_order workspace = 1
scope_order workflow = 2
scope_order task = 3
scope_order agent = 4
scope_order tool = 5

-- `_require_text`, for a text
abbrev pub require_text : String → Outcome Error (Unit {0})
require_text t = ensure (not (str_eq t "")) value_error

abbrev pub mapping : Json → Outcome Error Fields
mapping (obj f) = returned f
mapping _ = raised value_error

abbrev pub text : Json → Outcome Error String
text (str s) = if str_eq s "" then raised value_error else returned s
text _ = raised value_error

-- `_EFFECT_DECISION`; a list or a dict has no hash.
unfoldable pub effect_of : Json → Outcome Error PolicyDecision
effect_of (str s) =
    if str_eq s "allow"
    then returned allow
    else if str_eq s "require-approval"
    then returned require_approval
    else if str_eq s "deny"
    then returned deny
    else raised value_error
effect_of (arr _) = raised type_error
effect_of (obj _) = raised type_error
effect_of _ = raised value_error

-- The non-empty texts of a list.
unfoldable pub texts_of : Items → Outcome Error (List String)
texts_of nil = returned []
texts_of (cons v vs) = do t ← text v; rest ← texts_of vs; returned (t ∷ rest)

unfoldable pub all_different : List String → Bool
all_different [] = true
all_different (t ∷ ts) = not (contains ts t) && all_different ts

-- A non-empty list of non-empty texts, each once.
unfoldable pub capabilities_of : Json → Outcome Error (List String)
capabilities_of (arr (cons v vs)) = do
  texts ← texts_of (cons v vs)
  ensure (all_different texts) value_error
  returned texts
capabilities_of _ = raised value_error

unfoldable pub reason_of : Json → Outcome Error (Option String)
reason_of null = returned none
reason_of v = do t ← text v; returned (some t)

unfoldable pub conditions_of : Json → Outcome Error (Option Fields)
conditions_of null = returned none
conditions_of v = do f ← mapping v; returned (some f)

-- A turn of the loop over the rules.
unfoldable pub validated_rule : Json → Outcome Error Rule
validated_rule v = do
  rule ← mapping v
  effect ← effect_of (get "effect" rule)
  capabilities ← capabilities_of (get "capabilities" rule)
  reason ← reason_of (get "reason" rule)
  conditions ← conditions_of (get "conditions" rule)
  returned (record {
    effect = effect;
    capabilities = capabilities;
    conditions = conditions;
    reason = reason;
  })

unfoldable pub validated_rules : Items → Outcome Error (List Rule)
validated_rules nil = returned []
validated_rules (cons v vs) = do
  rule ← validated_rule v
  rules ← validated_rules vs
  returned (rule ∷ rules)

-- The rules, a non-empty list.
unfoldable pub rules_of : Json → Outcome Error (List Rule)
rules_of (arr (cons v vs)) = validated_rules (cons v vs)
rules_of _ = raised value_error

module _ (is_semver : String → Bool) where
  unfoldable pub version_of : Json → Outcome Error String
  version_of (str s) = if is_semver s then returned s else raised value_error
  version_of _ = raised value_error

  -- `_validated_policy`
  unfoldable pub validated_policy : ApplicablePolicy → Outcome Error Policy
  validated_policy binding = do
    ensure (is_text "aep.dev/v1alpha1" (get "apiVersion" binding.resource)) value_error
    ensure (is_text "Policy" (get "kind" binding.resource)) value_error
    metadata ← mapping (get "metadata" binding.resource)
    name ← text (get "name" metadata)
    version ← version_of (get "version" metadata)
    spec ← mapping (get "spec" binding.resource)
    ensure (is_text "pre-execution-capability" (get "type" spec)) value_error
    rules ← rules_of (get "rules" spec)
    returned (record {
      scope = binding.scope;
      resource = binding.resource;
      ref = record { name = name; version = version };
      rules = rules;
    })

  unfoldable pub validated_policies : List ApplicablePolicy → Outcome Error (List Policy)
  validated_policies [] = returned []
  validated_policies (binding ∷ bindings) = do
    policy ← validated_policy binding
    policies ← validated_policies bindings
    returned (policy ∷ policies)

-- The order of the sorted policies: by scope, name and version.
unfoldable pub comes_before : Policy → Policy → Bool
comes_before p q =
    ltb (scope_order p.scope) (scope_order q.scope)
    || (nat_eq (scope_order p.scope) (scope_order q.scope)
        && (text_lt p.ref.name q.ref.name
            || (str_eq p.ref.name q.ref.name && text_lt p.ref.version q.ref.version)))

unfoldable pub insert_policy : Policy → List Policy → List Policy
insert_policy p [] = p ∷ []
insert_policy p (q ∷ qs) =
    let rest = insert_policy p qs in if comes_before q p then q ∷ rest else p ∷ q ∷ qs

-- `sorted(…)`: equal keys keep their order.
unfoldable pub sorted_policies : List Policy → List Policy
sorted_policies [] = []
sorted_policies (p ∷ ps) = insert_policy p (sorted_policies ps)

abbrev pub same_ref : PolicyRef → PolicyRef → Bool
same_ref r s = str_eq r.name s.name && str_eq r.version s.version

unfoldable pub has_ref : PolicyRef → List PolicyRef → Bool
has_ref r [] = false
has_ref r (s ∷ refs) = same_ref s r || has_ref r refs

-- `_unique_refs`, with the references that were seen
unfoldable pub unique_refs : List PolicyRef → List Policy → List PolicyRef
unique_refs seen [] = []
unique_refs seen (p ∷ ps) =
    let rest = unique_refs (p.ref ∷ seen) ps in if has_ref p.ref seen then rest else p.ref ∷ rest
