-- ===== src/Services/Http.antt =====
-- What the services use of net/http, encoding/json and time. None of it is the program's code, so
-- it is a parameter of the services.
use go_forward_proxy.Base.{String, Bool}
use go_forward_proxy.Base.Int.{ℤ}
use go_forward_proxy.Base.Result.{Result, Exec}
use go_forward_proxy.Services.Interface.{Time}

-- `tmproxyRequest` (tmproxy.go). A zero is left out of the JSON (`omitempty`).
pub record TmproxyRequest : Type 0 where
  pub api_key : String
  pub id_location : ℤ
  pub id_isp : ℤ

-- `tmproxyNewProxyResponse`
pub record TmproxyNewProxyResponse : Type 0 where
  pub code : ℤ
  pub message : String
  pub username : String
  pub password : String
  pub https : String
  pub socks5 : String
  pub next_request : ℤ
  pub expired_at : String

-- `tmproxyCurrentProxyResponse`
pub record TmproxyCurrentProxyResponse : Type 0 where
  pub code : ℤ
  pub message : String
  pub next_request : ℤ
  pub expired_at : String
  pub https : String
  pub username : String
  pub password : String

-- `kiotproxyNewProxyResponse` (kiotproxy.go)
pub record KiotproxyNewProxyResponse : Type 0 where
  pub success : Bool
  pub code : ℤ
  pub message : String
  pub http : String
  pub socks5 : String

-- `kiotproxyCurrentProxyResponse`
pub record KiotproxyCurrentProxyResponse : Type 0 where
  pub success : Bool
  pub code : ℤ
  pub message : String
  pub next_request_at : ℤ
  pub expiration_at : ℤ
  pub http : String
  pub ttc : ℤ

pub record Http (Env : Type 0) : Type 1 where
  pub Request : Type 0
  pub Body : Type 0
  -- `json.Marshal` of a request
  pub marshal : TmproxyRequest → Result String
  -- `http.NewRequest(method, url, body)`
  pub new_request : String → String → String → Result Request
  -- `req.Header.Set(key, value)`
  pub set_header : String → String → Request → Request
  -- `httpClient.Do(req)` and the body of its response
  pub send : Request → Exec Env Body
  -- `json.NewDecoder(resp.Body).Decode(&…)`, for each type of response
  pub decode_tm_new : Body → Result TmproxyNewProxyResponse
  pub decode_tm_current : Body → Result TmproxyCurrentProxyResponse
  pub decode_kiot_new : Body → Result KiotproxyNewProxyResponse
  pub decode_kiot_current : Body → Result KiotproxyCurrentProxyResponse
  -- `time.Parse(layout, value)`
  pub parse_time : String → String → Result Time
