-- ===== src/World.antt =====
-- What the proxy manager uses and does not implement: database/sql over SQLite, the packages time
-- and net, and the package pkg/dumbproxy. Each call is a parameter.
pub mod Sqlite
pub mod Rows
use go_forward_proxy.Base.{ℕ, String, Bool, Option, List}
use go_forward_proxy.Base.Int.{ℤ}
use go_forward_proxy.Base.Result.{Result, Exec}
use go_forward_proxy.Services.Interface.{Time}
use go_forward_proxy.Database.{Proxy}

pub record World : Type 1 where
  -- what is outside of the program, as far as its calls depend on it or change it
  pub Env : Type 0
  -- `auth.NewAuth(url, logger)`, and `Close` of the provider that it returns
  pub Auth : Type 0
  pub new_auth : String → Exec Env Auth
  pub close_auth : Auth → Env → Env
  -- `dialer.ProxyDialerFromURL(url, &net.Dialer{})`
  pub Dialer : Type 0
  pub proxy_dialer_from_url : String → Result Dialer
  -- `net.Listen("tcp", addr)`, `Server.Serve` in its goroutine, `Server.Shutdown` and `Close`
  pub Listener : Type 0
  pub listen : String → Exec Env Listener
  pub serve : Listener → Env → Env
  pub shutdown : Listener → Exec Env Unit
  pub close_listener : Listener → Env → Env
  -- `time.Now()`
  pub now : Env → Time × Env
  -- Go's `float64`: `Duration.Seconds()`, the conversion of an `int`, and `>=`
  pub Float : Type 0
  pub seconds : ℤ → Float
  pub float64 : ℤ → Float
  pub ge : Float → Float → Bool
  -- the database, and the statements that the program sends to it
  pub Db : Type 0
  -- `SELECT id FROM proxies WHERE api_key = ? LIMIT 1`; `none` is `sql.ErrNoRows`
  pub select_id_by_key : String → Db → Result (Option ℕ)
  -- `INSERT INTO proxies (proxy_str, api_key, service_type, min_time_reset, last_reset_at,
  -- created_at) VALUES (…)`, with the result of `LastInsertId`
  pub insert_proxy : String → String → String → ℤ → Time → Time → Exec Db (Result ℕ)
  -- `UPDATE proxies SET proxy_str = ?, min_time_reset = ?, last_reset_at = ? WHERE id = ?`
  pub update_proxy : String → ℤ → Time → ℕ → Exec Db Unit
  -- `UPDATE proxies SET proxy_str = ?, last_reset_at = ? WHERE id = ?`
  pub update_reset : String → Time → ℕ → Exec Db Unit
  -- `DELETE FROM proxies WHERE id = ?`
  pub delete_proxy : ℕ → Exec Db Unit
  -- `SELECT … FROM proxies WHERE id = ?` and its `Scan`
  pub select_by_id : ℕ → Db → Result Proxy
  -- `SELECT … FROM proxies ORDER BY id`: the rows that `rows.Next` yields, each with its `Scan`
  pub select_ordered : Db → Result (List (Result Proxy))
  -- the same statement with no order
  pub select_all : Db → Result (List (Result Proxy))
