-- ===== src/Tests/Stores.antt =====
-- The table of keys, and the database.
use security_transmission_pl.Base.{ℕ, suc, ◌<◌, ◌≡◌, refl, true, false, none, some, [], ◌∷◌, arith}
use security_transmission_pl.Base.Result.{ok}
use security_transmission_pl.Platform.Tables.{TableName, RowSeckeyInfo, RowSeckeyNode}
use security_transmission_pl.Platform.SeckeyShm.{
  SeckeyShm, ShmNodeSeckey, same_seckey, blank_node, new_shm,
}
use security_transmission_pl.Platform.SeckeyShm.Table.{Call, Answer, calls, Holds, calls-table}
use security_transmission_pl.Platform.SeckeyMysql.{Mysqlx, SeckeyMysql, insert}
use security_transmission_pl.Platform.SeckeyMysql.Strings.{padded, Fits}
use security_transmission_pl.Platform.SeckeyMysql.Statements.{insert-padded}

abbrev node : ℕ → ShmNodeSeckey
node n = record blank_node { seckey_id = n; status = true }

calls-table_example :
    (s : SeckeyShm ShmNodeSeckey) × (calls 1 same_seckey
        (Call.finds (node 4)
          ∷ Call.writes (node 4)
          ∷ Call.writes (node 5)
          ∷ Call.finds (node 4)
          ∷ [])
        (new_shm 1 blank_node)
      ≡ some (
        Answer.found none ∷ Answer.wrote true ∷ Answer.wrote false ∷ Answer.found (some 0) ∷ [],
        s,
      ))
    × Holds 1 same_seckey s (node 4 ∷ [])
unfolding same_seckey
calls-table_example =
    calls-table 1 same_seckey blank_node
      (Call.finds (node 4) ∷ Call.writes (node 4) ∷ Call.writes (node 5) ∷ Call.finds (node 4) ∷ [])

-- A database that counts its rows.
abbrev counting : Mysqlx ℕ ℕ
counting = record {
  open_session = λ url db. ok tt;
  execute_select = λ url schema statement db. ok (db ∷ []);
  execute_insert = λ url schema statement db. ok (suc db);
}

abbrev info_row : RowSeckeyInfo
info_row = record {
  key_id = 49 ∷ [];
  create_time = 50 ∷ [];
  state = true;
  client_id = 65 ∷ [];
  server_id = 83 ∷ [];
  seckey = 9 ∷ [];
}

abbrev node_row : RowSeckeyNode
node_row = record {
  id = 65 ∷ [];
  name = 66 ∷ [];
  create_time = 50 ∷ [];
  authcode = 51 ∷ [];
  state = true;
  node_desc = [];
}

abbrev database : SeckeyMysql
database = record { url_text = []; schema_text = [] }

one_byte : (n c : ℕ) → 1 < n → 0 < c → Fits n (c ∷ [])
one_byte n c room some_byte = (room, (λ e. omega (arith, e, some_byte), tt))

insert-padded_example :
    (insert counting TableName.seckey_info
        (record info_row {
          key_id = padded 10 (49 ∷ []);
          create_time = padded 11 (50 ∷ []);
          client_id = padded 5 (65 ∷ []);
          server_id = padded 5 (83 ∷ []);
        })
        database
        3
      ≡ ok 4)
    × (insert counting TableName.seckey_node
          (record node_row {
            id = padded 5 (65 ∷ []);
            create_time = padded 11 (50 ∷ []);
            authcode = padded 13 (51 ∷ []);
          })
          database
          3
        ≡ ok 4)
insert-padded_example =
    insert-padded counting database 3 info_row node_row refl
      (
        one_byte 10 49 (omega arith) (omega arith),
        one_byte 11 50 (omega arith) (omega arith),
        one_byte 5 65 (omega arith) (omega arith),
        one_byte 5 83 (omega arith) (omega arith),
      )
      (
        one_byte 5 65 (omega arith) (omega arith),
        one_byte 11 50 (omega arith) (omega arith),
        one_byte 13 51 (omega arith) (omega arith),
      )
