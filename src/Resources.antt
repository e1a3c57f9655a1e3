-- ===== src/Resources.antt =====
-- src/aep/resource_loader.py: references, resources and the collection of a workspace's resources.
use agent_engineering_platfo.Prelude.{
  String, ◌≡◌, Bool, true, ◌&&◌, Option, none, some, List, [], ◌∷◌, arith, str_eq, ◌↔◌, eq_iff, Eq,
  if◌then◌else◌,
}
use agent_engineering_platfo.Dict.{Dict, lookup, insert}
use agent_engineering_platfo.Json.{Json, Fields, get, has, to_text}

pub record ResourceRef : Type 0 where
  pub kind : String
  pub name : String
  pub version : String

abbrev pub ref_eq : ResourceRef → ResourceRef → Bool
ref_eq a b = str_eq a.kind b.kind && str_eq a.name b.name && str_eq a.version b.version

pub ref_eq_iff : (a b : ResourceRef) → (ref_eq a b ≡ true) ↔ (a ≡ b)
ref_eq_iff a b =
    ground (arith, eq_iff a.kind b.kind, eq_iff a.name b.name, eq_iff a.version b.version)

instance abbrev pub Ref_eq : Eq ResourceRef
Ref_eq = record { beq = ref_eq; beq_iff = ref_eq_iff }

pub record Resource : Type 0 where
  pub ref : ResourceRef
  pub path : String
  pub fields : Fields
  pub references : List ResourceRef

pub record ResourceCollection : Type 0 where
  pub workspace : Resource
  pub resources : List Resource

-- `{resource.ref: resource for resource in …}`: the last of equal references stays.
unfoldable pub indexed : List Resource → Dict ResourceRef Resource → Dict ResourceRef Resource
indexed [] index = index
indexed (r ∷ rs) index = indexed rs (insert r.ref r index)

-- `ResourceCollection.get`
unfoldable pub get_resource : ResourceCollection → ResourceRef → Option Resource
get_resource c ref = lookup ref (indexed c.resources [])

-- `ResourceCollection.by_kind`
unfoldable pub by_kind : String → List Resource → List Resource
by_kind kind [] = []
by_kind kind (r ∷ rs) =
    let rest = by_kind kind rs in if str_eq r.ref.kind kind then r ∷ rest else rest

-- `ResourceRef.from_mapping`; `none` where a key is missing.
unfoldable pub from_mapping : (Json → String) → Fields → Option ResourceRef
from_mapping render f =
    if has "kind" f && has "name" f && has "version" f
    then some (record {
      kind = to_text render (get "kind" f);
      name = to_text render (get "name" f);
      version = to_text render (get "version" f);
    })
    else none
