-- ===== src/Database.antt =====
-- internal/database: the row of the table `proxies` (models/proxy.go), and the opening of the
-- database (connection.go).
use go_forward_proxy.Base.{ℕ, String}
use go_forward_proxy.Base.Int.{ℤ}
use go_forward_proxy.Base.Result.{Exec, pure, wrapping, ◌>>=◌, ◌>>◌}
use go_forward_proxy.Services.Interface.{Time}

pub record Proxy : Type 0 where
  pub id : ℕ
  pub proxy_str : String
  pub api_key : String
  pub service_type : String
  pub min_time_reset : ℤ
  pub last_reset_at : Time
  pub created_at : Time

-- The calls that `InitDB` makes of os, path/filepath and database/sql.
pub record Storage (Disk Db : Type 0) : Type 0 where
  -- `filepath.Dir`
  pub dir : String → String
  -- `os.MkdirAll(dir, 0755)`
  pub mkdir_all : String → Exec Disk Unit
  -- `sql.Open("sqlite", path)`
  pub open_sqlite : String → Exec Disk Db
  -- `db.Exec(statement)`
  pub exec : Db → String → Exec Disk Unit

abbrev pub create_table_sql : String
create_table_sql =
    "CREATE TABLE IF NOT EXISTS proxies (id INTEGER PRIMARY KEY AUTOINCREMENT, proxy_str TEXT NOT NULL, api_key TEXT NOT NULL, service_type TEXT NOT NULL, min_time_reset INTEGER NOT NULL, last_reset_at DATETIME NOT NULL, created_at DATETIME NOT NULL DEFAULT CURRENT_TIMESTAMP);"

module _ {Disk Db : Type 0} (st : Storage Disk Db) where
  unfoldable pub init_db : String → Exec Disk Db
  init_db db_path = do
    wrapping "failed to create database directory" (st.mkdir_all (st.dir db_path))
    db ← wrapping "failed to connect to database" (st.open_sqlite db_path)
    wrapping "failed to enable WAL mode" (st.exec db "PRAGMA journal_mode=WAL")
    wrapping "failed to create table" (st.exec db create_table_sql)
    pure db
