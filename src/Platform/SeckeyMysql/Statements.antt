-- ===== src/Platform/SeckeyMysql/Statements.antt =====
-- What the database is asked for by `Select` and `Insert`.
use security_transmission_pl.Base.{ℕ, ◌≡◌, refl, List, [], ◌∷◌, ◌++◌}
use security_transmission_pl.Base.Result.{ok}
use security_transmission_pl.Platform.Tables
use security_transmission_pl.Platform.Tables.{
  TableName, seckey_info, seckey_node, RowSeckeyInfo, RowSeckeyNode, RowOf,
}
use security_transmission_pl.Platform.SeckeyMysql.{
  c_string, SeckeyMysql, SelectInventory, StringView, text, boolean, Mysqlx, init_table, select_set,
  select_view, select_table, select_view_of, select_table_of, insert,
}
use security_transmission_pl.Platform.SeckeyMysql.Strings.{padded, Fits, c_string-padded}

module _ {Db Row : Type 0} (x : Mysqlx Db Row) where
  table_named :
      (table : TableName) (rest : List ℕ)
      → c_string (init_table table ++ 0 ∷ rest) ≡ ok (init_table table)
  unfolding init_table c_string
  table_named seckey_info rest = refl
  table_named seckey_node rest = refl

  -- A table is selected alike by its enumerator and by its name in a view that ends in a zero, and an
  -- inventory without a condition and with the limit 0 selects as no inventory does.
  pub select_agree :
      (table : TableName) (rest : List ℕ) (i : SelectInventory) (m : SeckeyMysql) (db : Db)
      → let view : StringView = record { bytes = init_table table; behind = 0 ∷ rest } in
        let everything : SelectInventory = record { where_text = []; limit = 0 } in
        (select_view x view m db ≡ select_table x table m db)
        × (select_view_of x view i m db ≡ select_table_of x table i m db)
        × (select_table_of x table everything m db ≡ select_table x table m db)
        × (select_view_of x view everything m db ≡ select_view x view m db)
  unfolding select_view select_view_of select_table select_table_of select_set
  select_agree table rest i m db =
      let named = table_named table rest in (rw named refl, rw named refl, refl, refl)

  -- When the session can be opened, rows whose arrays hold strings with room for a zero are inserted
  -- in one statement, on the table of the row's type, with the strings themselves in the order of
  -- the columns.
  pub insert-padded :
      (m : SeckeyMysql) (db : Db) (i : RowSeckeyInfo) (n : RowSeckeyNode)
      → x.open_session m.url_text db ≡ ok tt
      → Fits 10 i.key_id × Fits 11 i.create_time × Fits 5 i.client_id × Fits 5 i.server_id
      → Fits 5 n.id × Fits 11 n.create_time × Fits 13 n.authcode
      → (insert x seckey_info
            (record i {
              key_id = padded 10 i.key_id;
              create_time = padded 11 i.create_time;
              client_id = padded 5 i.client_id;
              server_id = padded 5 i.server_id;
            })
            m
            db
          ≡ x.execute_insert m.url_text m.schema_text
              (record {
                table = Tables.seckey_info_text;
                columns =
                    Tables.key_id_column ∷ Tables.create_time_column ∷ Tables.state_column
                    ∷ Tables.client_id_column ∷ Tables.server_id_column ∷ Tables.seckey_column ∷ [];
                values =
                    text i.key_id
                    ∷ text i.create_time
                    ∷ boolean i.state
                    ∷ text i.client_id
                    ∷ text i.server_id
                    ∷ text i.seckey
                    ∷ [];
              })
              db)
        × (insert x seckey_node
              (record n {
                id = padded 5 n.id;
                create_time = padded 11 n.create_time;
                authcode = padded 13 n.authcode;
              })
              m
              db
            ≡ x.execute_insert m.url_text m.schema_text
                (record {
                  table = Tables.seckey_node_text;
                  columns =
                      Tables.id_column ∷ Tables.name_column ∷ Tables.create_time_column
                      ∷ Tables.authcode_column ∷ Tables.state_column ∷ Tables.node_desc_column ∷ [];
                  values =
                      text n.id
                      ∷ text n.name
                      ∷ text n.create_time
                      ∷ text n.authcode
                      ∷ boolean n.state
                      ∷ text n.node_desc
                      ∷ [];
                })
                db)
  unfolding insert init_table
  insert-padded m db i n opened (k, t, c, s) (d, t', a) = (
    rw (opened, c_string-padded 10 i.key_id k)
        (rw (c_string-padded 11 i.create_time t)
          (rw (c_string-padded 5 i.client_id c) (rw (c_string-padded 5 i.server_id s) refl))),
    rw (opened, c_string-padded 5 n.id d)
        (rw (c_string-padded 11 n.create_time t') (rw (c_string-padded 13 n.authcode a) refl)),
  )
