-- ===== src/Store/Leases.antt =====
-- Claims and leases of `InMemoryRuntimeObjectStore` (src/aep/runtime_store.py). Instants are texts
-- that are compared by code points.
use agent_engineering_platfo.Prelude.{
  String, Bool, true, false, not, ◌&&◌, Option, none, some, str_eq, String_eq, if◌then◌else◌,
}
use agent_engineering_platfo.Action.{
  ok, value_error, status_conflict, Action, guard, read, ◌>>=◌, ◌>>◌,
}
use agent_engineering_platfo.Dict.{lookup, insert, delete}
use agent_engineering_platfo.Json.{Fields}
use agent_engineering_platfo.Store.State.{Store, Lease, text_lt}
use agent_engineering_platfo.Store.Objects.{update_status}

unfoldable pub claim_at : Option Fields → String → Fields → Action Store (Bool × Fields)
claim_at (some existing) key value s = (ok (false, existing), s)
claim_at none key value s = (ok (true, value), record s { claims = insert key value s.claims })

unfoldable pub claim : String → Fields → Action Store (Bool × Fields)
claim deterministic_key value = do
  guard (not (str_eq deterministic_key "")) value_error
  s ← read
  claim_at (lookup deterministic_key s.claims) deterministic_key value

-- The caller holds the lease, and it has not expired.
abbrev pub owns : Option Lease → String → String → Bool
owns none owner_id now = false
owns (some lease) owner_id now = str_eq lease.owner_id owner_id && text_lt now lease.expires_at

-- Another owner holds the lease, and it has not expired.
abbrev pub held_by_other : Option Lease → String → String → Bool
held_by_other none owner_id now = false
held_by_other (some lease) owner_id now =
    not (str_eq lease.owner_id owner_id) && text_lt now lease.expires_at

abbrev pub set_lease : String → String → String → Store → Store
set_lease key owner_id expires_at s = record s {
  leases = insert key (record { owner_id = owner_id; expires_at = expires_at }) s.leases;
}

unfoldable pub acquire_lease : String → String → String → String → Store → Bool × Store
acquire_lease key owner_id now expires_at s =
    if held_by_other (lookup key s.leases) owner_id now
    then (false, s)
    else (true, set_lease key owner_id expires_at s)

unfoldable pub renew_lease : String → String → String → String → Store → Bool × Store
renew_lease key owner_id now expires_at s =
    if owns (lookup key s.leases) owner_id now
    then (true, set_lease key owner_id expires_at s)
    else (false, s)

abbrev pub is_owner : Option Lease → String → Bool
is_owner none owner_id = false
is_owner (some lease) owner_id = str_eq lease.owner_id owner_id

unfoldable pub release_lease : String → String → Store → Bool × Store
release_lease key owner_id s =
    if is_owner (lookup key s.leases) owner_id
    then (true, record s { leases = delete key s.leases })
    else (false, s)

unfoldable pub update_status_with_lease :
    String
    → String
    → String
    → String
    → String
    → Option String
    → Option String
    → Fields
    → String
    → Action Store Fields
update_status_with_lease object_id status lease_key owner_id now expected updated_at changes clock =
    do
      s ← read
      guard (owns (lookup lease_key s.leases) owner_id now) status_conflict
      update_status object_id status expected updated_at changes clock
