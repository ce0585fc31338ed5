-- ===== src/Api/Authorization.antt =====
-- The admin key and `/authz/:address` of dike-services/src/api/server.ts. `trim` and `toUpperCase` are parameters.
use dike_monolith.Prelude.{
  Bool, false, not, ◌&&◌, Option, none, some, List, [], ◌∷◌, String, ◌==◌, string_eq, if◌then◌else◌,
  keep, or_else,
}
use dike_monolith.Prelude.Dict.{lookup}
use dike_monolith.Store.Values.{SqlValue}
use dike_monolith.Store.Upserts.{Columns, includes}
use dike_monolith.Store.Database.{Database}

unfoldable pub matches_admin_key : Option String → Option String → Bool
matches_admin_key (some expected) (some header) =
    not (expected == "") && (not (header == "") && header == expected)
matches_admin_key _ _ = false

abbrev pub admin_paths : List String
admin_paths = "/metrics" ∷ "/admin/stats" ∷ "/admin/governance" ∷ "/admin/timelock" ∷ []

-- The status that the hook replies with, if it does not let the request through.
unfoldable pub pre_handler : Option String → String → Option String → Option String
pre_handler admin_api_key path api_key =
    if not (includes admin_paths path)
    then none
    else if matches_admin_key admin_api_key api_key
    then none
    else some "admin api key required"

-- A row of `governance_lists`.
pub record ListEntry : Type 0 where
  pub kind : String
  pub address : String
  pub approved : Bool

-- `getAdminGovernance`, without the modules. The order of the rows does not matter to its reader.
unfoldable pub lists_of : String → List ((String × (String × String)) × Bool) → List ListEntry
lists_of network [] = []
lists_of network (((n, (kind, address)), approved) ∷ rows) =
    let rest = lists_of network rows in
    if n == network
    then (record { kind = kind; address = address; approved = approved }) ∷ rest
    else rest

unfoldable pub config_of : String → Database → Columns
config_of network db = or_else (lookup network db.governance_config) []

-- What the manifest names.
pub record Authorities : Type 0 where
  pub network : String
  pub admin : String
  pub governance_authority : String

pub record Authorization : Type 0 where
  pub address : String
  pub can_create : Bool
  pub can_resolve : Bool
  pub can_council : Bool
  pub can_admin : Bool

module _ (trim to_upper : String → String) where
  unfoldable pub normalize_address : String → String
  normalize_address s = to_upper (trim s)

  -- A column that is no text is blank.
  unfoldable pub column_address : Option SqlValue → String
  column_address (some (SqlValue.text s)) = normalize_address s
  column_address _ = ""

  unfoldable pub approved_addresses : String → List ListEntry → List String
  approved_addresses kind [] = []
  approved_addresses kind (e ∷ es) =
      let rest = approved_addresses kind es in
      if e.approved && e.kind == kind then normalize_address e.address ∷ rest else rest

  unfoldable pub admin_addresses : Authorities → Database → List String
  admin_addresses a db =
      keep (λ s. not (s == ""))
        (normalize_address a.admin
          ∷ (normalize_address a.governance_authority
              ∷ (column_address (lookup "timelock" (config_of a.network db))
                  ∷ (column_address (lookup "pause_authority" (config_of a.network db)) ∷ []))))

  unfoldable pub authorize : Authorities → Database → String → Authorization
  authorize a db given =
      let address = normalize_address given in
      record {
        address = address;
        can_create =
            includes (approved_addresses "creator" (lists_of a.network db.governance_lists))
              address;
        can_resolve = not (address == "");
        can_council =
            includes (approved_addresses "member" (lists_of a.network db.governance_lists)) address;
        can_admin = includes (admin_addresses a db) address;
      }
