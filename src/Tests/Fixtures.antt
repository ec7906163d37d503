-- ===== src/Tests/Fixtures.antt =====
-- A manager over a list of rows, and the requests and bindings of the tests.
use guild_net.Prelude.{
  true, false, none, some, List, [], ◌∷◌, ◌++◌, ◌≡◌, ◌≢◌, Text, codes, is_empty,
}
use guild_net.Json.{str, null, Row, obj, to_members}
use guild_net.Model.{
  DatabaseInstance, ColumnDef, Table, PermissionBinding, role_viewer, role_editor, role_maintainer,
  col_string,
}
use guild_net.Rbac.{RbacStore, new_rbac_store, grant, table_scope, db_scope}
use guild_net.Http.{Method, Request}
use guild_net.DbManager.{Result, ok, fail, DbManager}
use guild_net.Wire.{Wire}
use guild_net.DbApi.{DbApi}
use guild_net.DbApi.Views.{PagesGrow}

abbrev pub email : ColumnDef
email = record {
  name = codes "email";
  col_type = col_string;
  required = false;
  unique = false;
  indexed = false;
  default = null;
  enum = [];
  regex = [];
  mask = true;
}

abbrev pub users : Table
users = record {
  id = codes "users";
  database_id = [];
  name = codes "users";
  primary_key = codes "id";
  ttl = 0;
  schema = email ∷ [];
  created_at = [];
}

abbrev pub ann : Row
ann = (codes "id", str (codes "1")) ∷ (codes "email", str (codes "a@x")) ∷ []

abbrev pub instance_of : Text → DatabaseInstance
instance_of id = record {
  id = id;
  org_id = [];
  name = id;
  description = [];
  replication = 0;
  shards = 0;
  primary_region = [];
  created_at = [];
}

abbrev pub memory : DbManager (List Row)
memory = record {
  list_databases = λ s org. (s, ok []);
  create_database = λ s org db name desc. (s, ok (instance_of db));
  get_database = λ s org db. ok (instance_of db);
  delete_database = λ s org db. ([], none);
  get_tables = λ s org db. (s, ok (users ∷ []));
  create_table = λ s org db t. (s, none);
  update_table_schema = λ s org db t schema pk. (s, none);
  query_rows = λ s org db t pk limit cursor forward. ok (s, []);
  insert_rows = λ s org db t rows. (s ++ rows, ok []);
  update_row = λ s org db t id changes. (s, none);
  delete_row = λ s org db t id. ([], none);
  list_audit = λ s org db limit. ok [];
  ping = λ s. none;
}

one_page :
    (s : List Row) (rows : List Row) (next : Text)
    → ◌≡◌ {A = Result (List Row × Text)} (ok (s, [])) (ok (rows, next))
    → is_empty next ≡ false
    → rows ≢ []
one_page s rows [] e h = cc
one_page s rows (c ∷ next) e h = cc

pub memory-PagesGrow : PagesGrow memory
memory-PagesGrow = record {
  page = λ s org db t pk limit cursor forward rows next. one_page s rows next;
}

abbrev pub binding_for : Text → Text → Text → PermissionBinding
binding_for principal scope role = record {
  principal = principal;
  scope = scope;
  role = role;
  created_at = [];
}

abbrev pub vic_views : PermissionBinding
vic_views = binding_for (codes "user:vic") (table_scope (codes "users")) role_viewer

abbrev pub max_maintains : PermissionBinding
max_maintains = binding_for (codes "user:max") (db_scope (codes "shop")) role_maintainer

abbrev pub staff : RbacStore
staff = grant vic_views (grant max_maintains new_rbac_store)

-- what every body decodes to in the tests
abbrev pub wire : Wire
wire = record {
  database_req = λ b. record { id = b; name = []; description = [] };
  table_req = λ b. none;
  schema_req = λ b. none;
  binding_req = λ b. some (binding_for (codes "user:eve") (db_scope (codes "bank")) role_editor);
  import_req = λ b. fail [];
  any_value = λ b. some (obj (to_members ann));
  any_row = λ b. some ann;
  any_rows = λ b. ok (ann ∷ []);
  csv_records = λ b. ok [];
  is_rfc3339 = λ t. false;
  sprint_float = λ n. [];
  marshal = λ v. [];
}

abbrev pub shop : DbApi (List Row)
shop = record { manager = some (ann ∷ []); org_id = codes "acme"; rbac = staff; ops = [] }

abbrev pub request : Method → Text → Request
request method who = record {
  method = method;
  path = [];
  debug_principal = who;
  content_type = [];
  query = λ key. [];
  body = [];
}
