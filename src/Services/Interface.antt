-- ===== src/Services/Interface.antt =====
-- internal/proxyservices/interface.go: what a proxy service returns and offers.
use go_forward_proxy.Base.{String}
use go_forward_proxy.Base.Int.{ℤ}
use go_forward_proxy.Base.Result.{Exec}

-- A `time.Time`, in nanoseconds from a fixed origin.
abbrev pub Time : Type 0
Time = ℤ

pub record ProxyInfo : Type 0 where
  pub proxy_str : String
  pub service_type : String
  pub next_reset_after : ℤ
  pub expires_at : Time

-- The calls of a service change the state of what is outside of the program.
pub record ProxyService (Env : Type 0) : Type 0 where
  pub get_current_proxy : String → Exec Env ProxyInfo
  pub get_new_proxy : String → Exec Env ProxyInfo
  pub get_service_type : String
