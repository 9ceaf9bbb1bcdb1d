-- ===== src/Platform/Tables.antt =====
-- The rows of the database in include/struct_seckey.h, and the names that the code gives to the
-- database: those of its tables and columns, and the keys of its settings.
use security_transmission_pl.Base.{ℕ, Bool, List, [], ◌∷◌}

pub record DbInfo : Type 0 where
  pub host_name : List ℕ
  pub user_name : List ℕ
  pub password : List ℕ
  pub data_base : List ℕ

pub data TableName : Type 0 where
  seckey_info seckey_node : TableName

-- The arrays with all their bytes.
pub record RowSeckeyInfo : Type 0 where
  pub key_id : List ℕ
  pub create_time : List ℕ
  pub state : Bool
  pub client_id : List ℕ
  pub server_id : List ℕ
  pub seckey : List ℕ

pub record RowSeckeyNode : Type 0 where
  pub id : List ℕ
  pub name : List ℕ
  pub create_time : List ℕ
  pub authcode : List ℕ
  pub state : Bool
  pub node_desc : List ℕ

-- The type that `Insert` takes for a table, which its `static_assert`s fix.
abbrev pub RowOf : TableName → Type 0
RowOf seckey_info = RowSeckeyInfo
RowOf seckey_node = RowSeckeyNode

-- "mysqlx://"
abbrev pub mysqlx_prefix : List ℕ
mysqlx_prefix = 109 ∷ 121 ∷ 115 ∷ 113 ∷ 108 ∷ 120 ∷ 58 ∷ 47 ∷ 47 ∷ []

-- "user"
abbrev pub user_key : List ℕ
user_key = 117 ∷ 115 ∷ 101 ∷ 114 ∷ []

-- "password"
abbrev pub password_key : List ℕ
password_key = 112 ∷ 97 ∷ 115 ∷ 115 ∷ 119 ∷ 111 ∷ 114 ∷ 100 ∷ []

-- "hostname"
abbrev pub hostname_key : List ℕ
hostname_key = 104 ∷ 111 ∷ 115 ∷ 116 ∷ 110 ∷ 97 ∷ 109 ∷ 101 ∷ []

-- "schema"
abbrev pub schema_key : List ℕ
schema_key = 115 ∷ 99 ∷ 104 ∷ 101 ∷ 109 ∷ 97 ∷ []

-- "seckey_info"
abbrev pub seckey_info_text : List ℕ
seckey_info_text = 115 ∷ 101 ∷ 99 ∷ 107 ∷ 101 ∷ 121 ∷ 95 ∷ 105 ∷ 110 ∷ 102 ∷ 111 ∷ []

-- "seckey_node"
abbrev pub seckey_node_text : List ℕ
seckey_node_text = 115 ∷ 101 ∷ 99 ∷ 107 ∷ 101 ∷ 121 ∷ 95 ∷ 110 ∷ 111 ∷ 100 ∷ 101 ∷ []

-- "*"
abbrev pub star_text : List ℕ
star_text = 42 ∷ []

-- The columns of the two tables.
-- "key_id"
abbrev pub key_id_column : List ℕ
key_id_column = 107 ∷ 101 ∷ 121 ∷ 95 ∷ 105 ∷ 100 ∷ []

-- "create_time"
abbrev pub create_time_column : List ℕ
create_time_column = 99 ∷ 114 ∷ 101 ∷ 97 ∷ 116 ∷ 101 ∷ 95 ∷ 116 ∷ 105 ∷ 109 ∷ 101 ∷ []

-- "state"
abbrev pub state_column : List ℕ
state_column = 115 ∷ 116 ∷ 97 ∷ 116 ∷ 101 ∷ []

-- "client_id"
abbrev pub client_id_column : List ℕ
client_id_column = 99 ∷ 108 ∷ 105 ∷ 101 ∷ 110 ∷ 116 ∷ 95 ∷ 105 ∷ 100 ∷ []

-- "server_id"
abbrev pub server_id_column : List ℕ
server_id_column = 115 ∷ 101 ∷ 114 ∷ 118 ∷ 101 ∷ 114 ∷ 95 ∷ 105 ∷ 100 ∷ []

-- "seckey"
abbrev pub seckey_column : List ℕ
seckey_column = 115 ∷ 101 ∷ 99 ∷ 107 ∷ 101 ∷ 121 ∷ []

-- "id"
abbrev pub id_column : List ℕ
id_column = 105 ∷ 100 ∷ []

-- "name"
abbrev pub name_column : List ℕ
name_column = 110 ∷ 97 ∷ 109 ∷ 101 ∷ []

-- "authcode"
abbrev pub authcode_column : List ℕ
authcode_column = 97 ∷ 117 ∷ 116 ∷ 104 ∷ 99 ∷ 111 ∷ 100 ∷ 101 ∷ []

-- "node_desc"
abbrev pub node_desc_column : List ℕ
node_desc_column = 110 ∷ 111 ∷ 100 ∷ 101 ∷ 95 ∷ 100 ∷ 101 ∷ 115 ∷ 99 ∷ []
