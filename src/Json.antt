-- ===== src/Json.antt =====
-- JSON values, and the dict of a runtime object (`dict[str, Any]`). Numbers are integers, as in every
-- field that the modelled code reads.
use agent_engineering_platfo.Prelude.{
  ℕ, String, ◌≡◌, refl, Bool, false, ◌||◌, arith, str_eq, eq_iff, if◌then◌else◌,
}

mutual
  pub data Json : Type 0 where
    null : Json
    bool : Bool → Json
    int : ℕ → Json
    negative : ℕ → Json
    str : String → Json
    arr : Items → Json
    obj : Fields → Json

  pub data Items : Type 0 where
    nil : Items
    cons : Json → Items → Items

  pub data Fields : Type 0 where
    end : Fields
    field : String → Json → Fields → Fields

-- str(value), where `render` is Python's `str` on a value that is no text
abbrev pub to_text : (Json → String) → Json → String
to_text render (str s) = s
to_text render v = render v

-- value.get(key): `None` stands for a missing key too
unfoldable pub get : String → Fields → Json
get k end = null
get k (field j v f) = if str_eq j k then v else get k f

-- key in value
unfoldable pub has : String → Fields → Bool
has k end = false
has k (field j v f) = str_eq j k || has k f

-- value[key] = v
unfoldable pub set : String → Json → Fields → Fields
set k v end = field k v end
set k v (field j w f) = if str_eq j k then field j v f else field j w (set k v f)

-- value.pop(key, None)
unfoldable pub pop : String → Fields → Fields
pop k end = end
pop k (field j w f) = let rest = pop k f in if str_eq j k then rest else field j w rest

-- value.update(changes)
unfoldable pub update : Fields → Fields → Fields
update f end = f
update f (field k v c) = update (set k v f) c

-- value.setdefault(key, v)
unfoldable pub set_default : String → Json → Fields → Fields
set_default k v f = if has k f then f else set k v f

pub get-set :
    (k j : String) (v : Json) (f : Fields) → get j (set k v f) ≡ (if str_eq k j then v else get j f)
unfolding get set
get-set k j v end = refl
get-set k j v (field i w f) = ground (arith, eq_iff k j, eq_iff i k, eq_iff i j, get-set k j v f)

pub has-set : (k j : String) (v : Json) (f : Fields) → has j (set k v f) ≡ (str_eq k j || has j f)
unfolding has set
has-set k j v end = refl
has-set k j v (field i w f) = ground (arith, eq_iff k j, eq_iff i k, eq_iff i j, has-set k j v f)

pub get-pop : (k j : String) (f : Fields) → get j (pop k f) ≡ (if str_eq k j then null else get j f)
unfolding get pop
get-pop k j end = ground arith
get-pop k j (field i w f) = ground (arith, eq_iff k j, eq_iff i k, eq_iff i j, get-pop k j f)

-- A key that the changes lack keeps its value.
pub get-update_absent : (j : String) (f c : Fields) → has j c ≡ false → get j (update f c) ≡ get j f
unfolding has update
get-update_absent j f end h = refl
get-update_absent j f (field k v c) h =
    ground (arith, get-update_absent j (set k v f) c, get-set k j v f)

pub get_absent : (j : String) (f : Fields) → has j f ≡ false → get j f ≡ null
unfolding get has
get_absent j end h = refl
get_absent j (field k v f) h = ground (arith, get_absent j f)

pub get-set_default :
    (k j : String) (v : Json) (f : Fields)
    → str_eq k j ≡ false
    → get j (set_default k v f) ≡ get j f
unfolding set_default
get-set_default k j v f h = ground (arith, get-set k j v f)

pub ruleset json_laws = (get-set, get-pop)
