-- ===== src/Json.antt =====
-- JSON values, as JSON.parse and the JSONB columns give them. A number is held by the text that
-- JavaScript prints for it, since the code never computes with one.
use tanden_trust_audit_poc.Base.{
  Bool, String, String-discrete, Option, none, some, if◌then◌else◌, str_eq,
}

mutual
  pub data Json : Type 0 where
    null : Json
    bool : Bool → Json
    num : String → Json
    str : String → Json
    arr : Items → Json
    obj : Fields → Json

  pub data Items : Type 0 where
    nil : Items
    cons : Json → Items → Items

  pub data Fields : Type 0 where
    end : Fields
    field : String → Json → Fields → Fields

-- `fields[key]`, where `none` is undefined.
unfoldable pub get_field : String → Fields → Option Json
get_field key end = none
get_field key (field k v rest) = if str_eq k key then some v else get_field key rest

pub Json-discrete : Discrete Json
Json-discrete = hlevel String-discrete
