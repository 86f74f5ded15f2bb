-- ===== src/Dumbproxy/Calls.antt =====
-- What the providers of authentication use and the repository does not implement: net/url, os,
-- encoding/base64 and the packages for htpasswd files, bcrypt, HMAC and Redis. Each call is a
-- parameter.
use go_forward_proxy.Base.{String, Bool, Option, List}
use go_forward_proxy.Base.Int.{ℤ}
use go_forward_proxy.Base.Bytes.{Bytes}
use go_forward_proxy.Base.Result.{Result, Exec}
use go_forward_proxy.Services.Interface.{Time}
use go_forward_proxy.Dumbproxy.Http.{Request, Writer}

-- `url.URL`, as far as the providers read it
pub record Url : Type 0 where
  pub scheme : String
  pub user : String
  pub host : String
  pub path : String
  pub raw_path : String
  pub raw_query : String

pub record Calls : Type 1 where
  pub Env : Type 0
  -- `url.Parse`, `url.QueryUnescape`, `strings.ToLower`, `strconv.Atoi` is in Base
  pub parse_url : String → Result Url
  pub unescape : String → Result String
  pub to_lower : String → String
  -- the host of `net.SplitHostPort(hostport)`; `none` is any of its errors
  pub split_host : String → Option String
  -- `base64.StdEncoding.DecodeString` as a text; `none` is any of its errors
  pub decode_base64 : String → Option String
  -- `bcrypt.GenerateFromPassword(password, bcrypt.MinCost)`, which draws a salt
  pub bcrypt : String → Exec Env String
  -- `htpasswd.NewFromReader(reader, DefaultSystems, …)` of a text, and `Match`
  pub File : Type 0
  pub new_from_reader : String → Result File
  pub match : File → String → String → Bool
  -- the parsers of `htpasswd.DefaultSystems`, where `none` is a nil matcher, and `MatchesPassword`
  pub Matcher : Type 0
  pub default_systems : List (String → Result (Option Matcher))
  pub matches_password : Matcher → String → Bool
  -- `os.Open`, `Stat().ModTime()`, reading to the end, and `Close`
  pub Handle : Type 0
  pub open_file : String → Exec Env Handle
  pub mod_time : Handle → Exec Env Time
  pub read_all : Handle → Exec Env String
  pub close_file : Handle → Env → Env
  -- the lines of a `bufio.Scanner`, with its error if it has one, and `bytes.TrimSpace`
  pub scan_lines : Handle → Env → (List Bytes × Option String) × Env
  pub trim_space : Bytes → Bytes
  -- `os.Getenv`, `hex.DecodeString`, `time.Now()`, `time.ParseDuration`
  pub getenv : String → Env → String
  pub decode_hex : String → Result Bytes
  pub now : Env → Time × Env
  pub parse_duration : String → Result ℤ
  -- `go auth.reloadLoop(interval)`
  pub go_reload_loop : ℤ → Env → Env
  -- `base64.RawURLEncoding`: `DecodeString` to bytes, and an encoder; and the HMAC with SHA-256 of a message
  pub decode_raw_url : String → Option Bytes
  pub encode_raw_url : Bytes → String
  pub hmac_sha256 : Bytes → Bytes → Bytes
  -- the bytes of a text, and the text of bytes
  pub bytes : String → Bytes
  pub text_of : Bytes → String
  -- the clients of Redis: `ParseURL` and `NewClient`, those for a cluster, `Get` and `Close`
  pub Client : Type 0
  pub new_client : String → Result Client
  pub new_cluster_client : String → Result Client
  pub redis_get : Client → String → Exec Env String
  pub redis_close : Client → Exec Env Unit
  -- `multierror.Append(err, e)`, by the messages
  pub append_error : Option String → String → String
  -- `httputil.ReverseProxy`, with what `Rewrite` is made from, and its `ServeHTTP`
  pub ReverseProxy : Type 0
  pub new_reverse_proxy : Url → Bool → String → ReverseProxy
  pub serve_http : ReverseProxy → Request → Writer → Env → Writer × Env
  -- `%q`
  pub quoted : String → String
  -- `strconv.ParseBool`, where an error gives false
  pub parse_bool : String → Bool
