-- ===== src/Platform/SeckeyMysql.antt =====
-- src/mysql_seckey.cc and include/mysql_seckey.hpp with the rows of include/struct_seckey.h: what is
-- asked of the database. MySQL's X DevAPI and JsonCpp are parameters. A `char` array or a view that
-- is passed as a `const char *` is read up to its first zero; without one the read is undefined.
pub mod Strings
pub mod Statements
use security_transmission_pl.Base.{
  ℕ, zero, suc, Bool, true, false, Option, none, some, List, [], ◌∷◌, ◌++◌, if◌then◌else◌, ◌==◌,
}
use security_transmission_pl.Platform.Json.{Json}
use security_transmission_pl.Platform.Tables.{
  DbInfo, TableName, seckey_info, seckey_node, RowSeckeyInfo, RowSeckeyNode, RowOf, mysqlx_prefix,
  user_key, password_key, hostname_key, schema_key, seckey_info_text, seckey_node_text, star_text,
  key_id_column, create_time_column, state_column, client_id_column, server_id_column,
  seckey_column, id_column, name_column, authcode_column, node_desc_column,
}
use security_transmission_pl.Base.Result.{Result, ok, throws, undefined, ◌>>=◌}

pub record SelectInventory : Type 0 where
  pub where_text : List ℕ
  pub limit : ℕ

-- `std::string_view`: its bytes, and the bytes that stand behind them in memory.
pub record StringView : Type 0 where
  pub bytes : List ℕ
  pub behind : List ℕ

-- A `const char *` read as a string.
unfoldable pub c_string : List ℕ → Result (List ℕ)
c_string [] = undefined
c_string (zero ∷ bytes) = ok []
c_string (suc c ∷ bytes) = c_string bytes >>= λ str. ok (suc c ∷ str)

-- What is passed to `values`, and the two kinds of statement.
pub data Value : Type 0 where
  text : List ℕ → Value
  boolean : Bool → Value

pub record TableSelect : Type 0 where
  pub table : List ℕ
  pub projection : List ℕ
  pub condition : Option (List ℕ)
  pub row_limit : Option ℕ

pub record TableInsert : Type 0 where
  pub table : List ℕ
  pub columns : List (List ℕ)
  pub values : List Value

-- The X DevAPI: a session for a URL, and a statement that is executed in it on a schema, with the
-- database before and after it.
pub record Mysqlx (Db Row : Type 0) : Type 0 where
  pub open_session : List ℕ → Db → Result (Unit {0})
  pub execute_select : List ℕ → List ℕ → TableSelect → Db → Result (List Row)
  pub execute_insert : List ℕ → List ℕ → TableInsert → Db → Result Db

pub record SeckeyMysql : Type 0 where
  pub url_text : List ℕ
  pub schema_text : List ℕ

-- `url_` after both constructors.
abbrev pub url_of : List ℕ → List ℕ → List ℕ → List ℕ
url_of user password host = mysqlx_prefix ++ (user ++ (58 ∷ (password ++ (64 ∷ host))))

-- `SeckeyMysql(db_info)`
unfoldable pub of_db_info : DbInfo → SeckeyMysql
of_db_info i = record {
  url_text = url_of i.user_name i.password i.host_name;
  schema_text = i.data_base;
}

-- `SeckeyMysql(json_file)`
unfoldable pub of_json_file : {Root : Type 0} → Json Root → StringView → Result SeckeyMysql
of_json_file json file = do
  path ← c_string (file.bytes ++ file.behind)
  root ← json.parse_file path
  user ← json.as_string root user_key
  password ← json.as_string root password_key
  host ← json.as_string root hostname_key
  schema ← json.as_string root schema_key
  ok (record { url_text = url_of user password host; schema_text = schema })

unfoldable pub url : SeckeyMysql → List ℕ
url m = m.url_text

unfoldable pub schema_name : SeckeyMysql → List ℕ
schema_name m = m.schema_text

unfoldable pub set_schema_name : List ℕ → SeckeyMysql → SeckeyMysql
set_schema_name name m = record m { schema_text = name }

unfoldable pub set_url : List ℕ → SeckeyMysql → SeckeyMysql
set_url url m = record m { url_text = url }

-- `InitTableImpl`: the table's name in the database.
unfoldable pub init_table : TableName → List ℕ
init_table seckey_info = seckey_info_text
init_table seckey_node = seckey_node_text

-- `table.select("*")`
abbrev pub select_all : List ℕ → TableSelect
select_all table = record {
  table = table;
  projection = star_text;
  condition = none;
  row_limit = none;
}

abbrev pub is_empty : List ℕ → Bool
is_empty [] = true
is_empty (c ∷ cs) = false

-- `SelectSetImpl`
unfoldable pub select_set : SelectInventory → TableSelect → TableSelect
select_set i s =
    let t = if is_empty i.where_text then s else record s { condition = some i.where_text } in
    if i.limit == 0 then t else record t { row_limit = some i.limit }

module _ {Db Row : Type 0} (x : Mysqlx Db Row) where
  -- The four `Select`s: by a view of the name or by the enumeration, without and with an inventory.
  unfoldable pub select_view : StringView → SeckeyMysql → Db → Result (List Row)
  select_view name m db = do
    _ ← x.open_session m.url_text db
    table ← c_string (name.bytes ++ name.behind)
    x.execute_select m.url_text m.schema_text (select_all table) db

  unfoldable pub select_table : TableName → SeckeyMysql → Db → Result (List Row)
  unfolding init_table
  select_table name m db = do
    _ ← x.open_session m.url_text db
    x.execute_select m.url_text m.schema_text (select_all (init_table name)) db

  unfoldable pub select_view_of :
      StringView → SelectInventory → SeckeyMysql → Db → Result (List Row)
  unfolding select_set
  select_view_of name i m db = do
    _ ← x.open_session m.url_text db
    table ← c_string (name.bytes ++ name.behind)
    x.execute_select m.url_text m.schema_text (select_set i (select_all table)) db

  unfoldable pub select_table_of :
      TableName → SelectInventory → SeckeyMysql → Db → Result (List Row)
  unfolding init_table select_set
  select_table_of name i m db = do
    _ ← x.open_session m.url_text db
    x.execute_select m.url_text m.schema_text (select_set i (select_all (init_table name))) db

  -- `Insert`. The pointers that it passes are read before the statement is executed.
  unfoldable pub insert : (table : TableName) → RowOf table → SeckeyMysql → Db → Result Db
  unfolding init_table
  insert seckey_info value m db = do
    _ ← x.open_session m.url_text db
    key_id ← c_string value.key_id
    create_time ← c_string value.create_time
    client_id ← c_string value.client_id
    server_id ← c_string value.server_id
    x.execute_insert m.url_text m.schema_text
        (record {
          table = init_table seckey_info;
          columns =
              key_id_column ∷ create_time_column ∷ state_column ∷ client_id_column
              ∷ server_id_column ∷ seckey_column ∷ [];
          values =
              text key_id
              ∷ text create_time
              ∷ boolean value.state
              ∷ text client_id
              ∷ text server_id
              ∷ text value.seckey
              ∷ [];
        })
        db
  insert seckey_node value m db = do
    _ ← x.open_session m.url_text db
    id ← c_string value.id
    create_time ← c_string value.create_time
    authcode ← c_string value.authcode
    x.execute_insert m.url_text m.schema_text
        (record {
          table = init_table seckey_node;
          columns =
              id_column ∷ name_column ∷ create_time_column ∷ authcode_column ∷ state_column
              ∷ node_desc_column ∷ [];
          values =
              text id
              ∷ text value.name
              ∷ text create_time
              ∷ text authcode
              ∷ boolean value.state
              ∷ text value.node_desc
              ∷ [];
        })
        db
