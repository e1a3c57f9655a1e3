-- ===== src/Store/History.antt =====
-- What lasts in the store, whatever calls come after.
use mathlib.Core.Path.{subst}
use agent_engineering_platfo.Prelude.{
  String, ◌≡◌, refl, some, List, arith, eq_iff, str_eq, String_eq, Bool-cases, inl, inr,
}
use agent_engineering_platfo.Dict.{lookup, lookup-insert}
use agent_engineering_platfo.Json.{Json, Fields, get}
use agent_engineering_platfo.Store.State.{Store, save, text_or, index}
use agent_engineering_platfo.Store.Objects.{insert_object}
use agent_engineering_platfo.Store.Evolution.{Evolves, Evolves-refl, Evolves-trans}
use agent_engineering_platfo.Store.Evolution.Stable.{Stable}
use agent_engineering_platfo.Store.Calls.{Call, run, run_stable}

-- The object that stood under the id has evolved into one that stands there now.
pub record Kept (i : String) (v : Fields) (s : Store) : Type 0 where
  pub now : Fields
  pub found : lookup i s.objects ≡ some now
  pub evolved : Evolves v now

Kept-Stable : (i : String) (v : Fields) → Stable (Kept i v)
unfolding insert_object index save
Kept-Stable i v = record {
  inserted = λ key x s o new_key new_id h. record {
    now = h.now;
    found = ground (
      arith,
      lookup-insert (text_or "" (get "id" x)) i x s.objects,
      eq_iff (text_or "" (get "id" x)) i,
      h.found,
    );
    evolved = h.evolved;
  };
  saved = λ j x w s found change h. elim (Bool-cases (str_eq j i)) [
    | inl same ↦ record {
      now = w;
      found = rw (lookup-insert j i w s.objects, same) refl;
      evolved =
          let e : x ≡ h.now = cc (found, h.found, (eq_iff j i).0 same) in
          Evolves-trans h.evolved (subst (λ u. Evolves u w) e change);
    }
    | inr other ↦ record {
      now = h.now;
      found = rw (lookup-insert j i w s.objects, other) h.found;
      evolved = h.evolved;
    }
  ];
  leased = λ leases s h. record { now = h.now; found = h.found; evolved = h.evolved };
  claimed = λ claims s h. record { now = h.now; found = h.found; evolved = h.evolved };
}

-- The id to which a deterministic key is bound.
abbrev IsBoundTo : String → String → Store → Type 0
IsBoundTo key i s = lookup key s.deterministic_keys ≡ some i

IsBoundTo-Stable : (key i : String) → Stable (IsBoundTo key i)
unfolding insert_object index save
IsBoundTo-Stable key i = record {
  inserted = λ k x s o new_key new_id h.
      ground
        (arith, lookup-insert k key (text_or "" (get "id" x)) s.deterministic_keys, eq_iff k key);
  saved = λ j x w s found change h. h;
  leased = λ leases s h. h;
  claimed = λ claims s h. h;
}

module _ (render : Json → String) (calls : List Call) (s : Store) where
  -- Whatever calls follow, by whatever clients, and whether they return or raise, a stored object
  -- stays stored under its id; its identity fields (those of every runtime object, and for a
  -- TaskExecution its workflow, task, attempt and dependencies) keep their values; and where its
  -- status is terminal, so does every other field but `taskExecutionIds`.
  pub run-Kept :
      (i : String) (v : Fields) → lookup i s.objects ≡ some v → Kept i v (run render calls s)
  run-Kept i v found =
      run_stable render (Kept i v) (Kept-Stable i v) calls s
        (record { now = v; found = found; evolved = Evolves-refl v })

  pub run-IsBoundTo : (key i : String) → IsBoundTo key i s → IsBoundTo key i (run render calls s)
  run-IsBoundTo key i = run_stable render (IsBoundTo key i) (IsBoundTo-Stable key i) calls s
