-- ===== src/Dumbproxy/Dialers/Optimistic.antt =====
-- dialer/optimistic.go: a dialer that does not wait for the answer of the upstream. Its connection
-- sends the request with the first bytes that are written, and reads the answer when it is first
-- read from.
use Prim.Native.String.{◌++◌}
use mathlib.Core.List.{◌++◌ as ◌+++◌}
use go_forward_proxy.Base.{
  ℕ, ◌-◌, String, ◌≡◌, refl, ap, ◌∙◌, Bool, true, false, Option, none, some, List, [], ◌∷◌, ◌==◌,
  str_eq, arith, if◌then◌else◌,
}
use go_forward_proxy.Base.Bytes.{Bytes, length}
use go_forward_proxy.Base.Decimal.{format_nat}
use go_forward_proxy.Base.Result.{Result, ok, err}
use go_forward_proxy.Dumbproxy.Dialers.Upstream.{
  UpstreamNet, UpstreamUrl, Userinfo, Read, read_head, is_tcp, HttpProxyDialer, connect_request,
  response_status, secured,
}
use go_forward_proxy.Dumbproxy.Handler.Pending.{
  PendingWrite, wrap_pending_write, Write, pending_write, stream_write, write_each, concat, counts,
  write_each-stream,
}

-- `futureH1ProxiedConn`, but for the connection
pub record FutureConn : Type 0 where
  pub address : String
  pub userinfo : Option Userinfo
  pub r_done : Bool
  pub w_done : Bool
  pub r_err : Option String
  pub w_err : Option String

abbrev pub future_conn : Option Userinfo → String → FutureConn
future_conn userinfo address = record {
  address = address;
  userinfo = userinfo;
  r_done = false;
  w_done = false;
  r_err = none;
  w_err = none;
}

-- What the answer of the upstream comes to: nothing, or the error of the reads.
unfoldable pub answer_error : Result ℕ → Option String
answer_error (err e) = some ("reading proxy response failed: " ++ e)
answer_error (ok code) =
    if code == 200 then none else some ("bad status code from proxy: " ++ format_nat code)

module _ (net : UpstreamNet) where
  or_port : String → String → String
  or_port port default_port = if str_eq port "" then default_port else port

  abbrev dialer_of : UpstreamUrl → String → Option net.TlsConfig → HttpProxyDialer net
  dialer_of u port tls_config = record {
    address = net.join_host_port u.hostname port;
    tls_config = tls_config;
    userinfo = u.user;
  }

  -- `OptimisticHTTPProxyDialerFromURL`; the dialer has the fields of `HTTPProxyDialer`
  unfoldable pub optimistic_dialer_from_url : UpstreamUrl → Result (HttpProxyDialer net)
  unfolding or_port
  optimistic_dialer_from_url u =
      let scheme = net.to_lower u.scheme in
      if str_eq scheme "http+optimistic"
      then ok (dialer_of u (or_port u.port "80") none)
      else if str_eq scheme "https+optimistic"
      then elim (net.tls_config_from_url u) [
        | err e ↦ err ("TLS configuration failed: " ++ e)
        | ok config ↦ ok (dialer_of u (or_port u.port "443") (some config))
      ]
      else err "unsupported proxy type"

  -- `DialContext`
  unfoldable pub optimistic_dial :
      HttpProxyDialer net → String → String → net.E → Result (net.Conn × FutureConn) × net.E
  optimistic_dial d network address env =
      let (r, env') = net.next_dial d.address env in
      let dialled : Result (net.Conn × FutureConn) = elim r [
        | err e ↦ err ("proxy dialer is unable to make connection: " ++ e)
        | ok conn ↦ ok (secured net d conn, future_conn d.userinfo address)
      ] in
      if is_tcp network then (dialled, env') else (err "only \"tcp\" network is supported", env)

  -- the bytes of a text
  module _ (bytes : String → Bytes) where
    -- `Write`, over that of the connection
    unfoldable pub future_write :
        {E : Type 0} → Write E → Bytes → FutureConn → E → (ℕ × Option String) × FutureConn × E
    future_write write b c env =
        let prologue = bytes (connect_request net c.userinfo c.address) in
        let ((n, e), env₀) = write (prologue +++ b) env in
        let (r, env₁) = write b env in
        let sent : FutureConn = record c {
          w_done = true;
          w_err = e;
          address = "";
          userinfo = none;
        } in
        elim c.w_err [
          | some x ↦ ((0, some x), c, env)
          | none ↦ if c.w_done then (r, c, env₁) else ((n - length prologue, e), sent, env₀)
        ]

    -- the writes one after another to a connection that takes all bytes
    unfoldable pub future_each : List Bytes → FutureConn → Bytes → List (ℕ × Option String) × Bytes
    future_each [] c stream = ([], stream)
    future_each (b ∷ bs) c stream =
        let (r, c', stream') = future_write stream_write b c stream in
        let (rs, stream'') = future_each bs c' stream' in (r ∷ rs, stream'')

    -- The two connections are at the same point.
    abbrev Matches : FutureConn → PendingWrite → Type 0
    Matches c p =
        (c.w_done ≡ p.done)
        × (c.w_err ≡ p.w_err)
        × (c.w_done ≡ false → p.data_left ≡ bytes (connect_request net c.userinfo c.address))

    future_write-pending_write :
        {E : Type 0} (write : Write E) (b : Bytes) (c : FutureConn) (p : PendingWrite) (env : E)
        → Matches c p
        → let (r, c', env') = future_write write b c env in
          let (r', p', env'') = pending_write write b p env in
          (r ≡ r') × (env' ≡ env'') × Matches c' p'
    unfolding future_write pending_write
    future_write-pending_write write b c p env h = ground (arith, h)

    future_each-write_each :
        (bs : List Bytes) (c : FutureConn) (p : PendingWrite) (stream : Bytes)
        → Matches c p
        → future_each bs c stream ≡ write_each bs p stream
    unfolding future_each write_each
    future_each-write_each [] c p stream h = refl
    future_each-write_each (b ∷ bs) c p stream h =
        let (r, c', stream') = future_write stream_write b c stream in
        let (r', p', stream'') = pending_write stream_write b p stream in
        let (e, f, m) = future_write-pending_write stream_write b c p stream h in
        ap (λ t. let (rs, s) = future_each bs c' t in (r ∷ rs, s)) f
        ∙ ap (λ (x : List (ℕ × Option String) × Bytes). (r ∷ x.0, x.1))
            (future_each-write_each bs c' p' stream'' m)
        ∙ ap (λ x. let (rs, s) = write_each bs p' stream'' in (x ∷ rs, s)) e

    -- On a connection that takes all bytes, what is written to an optimistic connection goes to the
    -- upstream behind one request for the address, the one that `HTTPProxyDialer` sends, and each
    -- write returns the number of its own bytes, without an error.
    pub future_each-stream :
        (userinfo : Option Userinfo) (address : String) (b : Bytes) (bs : List Bytes)
        (stream : Bytes)
        → future_each (b ∷ bs) (future_conn userinfo address) stream ≡ (
          counts (b ∷ bs),
          stream +++ (bytes (connect_request net userinfo address) +++ concat (b ∷ bs)),
        )
    future_each-stream userinfo address b bs stream =
        let request = bytes (connect_request net userinfo address) in
        future_each-write_each (b ∷ bs) (future_conn userinfo address) (wrap_pending_write request)
          stream (refl, refl, λ h. refl)
        ∙ write_each-stream request b bs stream

  -- The connection's own `Read`, with room for so many bytes, by what there is to read.
  module _ (read : ℕ → List Read → (Bytes × Option String) × List Read) where
    abbrev pub Reading : Type 0
    Reading = (Bytes × Option String) × FutureConn × List Read

    -- what follows the answer
    unfoldable pub read_answered : ℕ → FutureConn → List Read → Option String → Reading
    read_answered n c rest (some e) = (([], some e), record c { r_err = some e }, rest)
    read_answered n c rest none =
        let (r, rest') = read n rest in (r, record c { r_done = true }, rest')

    abbrev with_head : ℕ → FutureConn → Option (Result Bytes × List Read) → Option Reading
    with_head n c none = none
    with_head n c (some (head, rest)) =
        some (read_answered n c rest (answer_error (response_status net head)))

    -- `Read`; no result is the wait for an answer that does not come.
    unfoldable pub future_read : ℕ → FutureConn → List Read → Option Reading
    unfolding read_answered
    future_read n c rs =
        let (r, rs') = read n rs in
        elim c.r_err [
          | some e ↦ some (([], some e), c, rs)
          | none ↦ if c.r_done then some (r, c, rs') else with_head n c (read_head [] rs)
        ]

    onto_reads :
        Bytes × Option String
        → Option (List (Bytes × Option String))
        → Option (List (Bytes × Option String))
    onto_reads r none = none
    onto_reads r (some rs) = some (r ∷ rs)

    after_read :
        (next : FutureConn → List Read → Option (List (Bytes × Option String)))
        → Option Reading
        → Option (List (Bytes × Option String))
    unfolding onto_reads
    after_read next none = none
    after_read next (some (r, c, rs)) = onto_reads r (next c rs)

    -- the reads one after another
    unfoldable pub future_reads :
        List ℕ → FutureConn → List Read → Option (List (Bytes × Option String))
    unfolding after_read
    future_reads [] c rs = some []
    future_reads (n ∷ ns) c rs = after_read (future_reads ns) (future_read n c rs)

    -- the reads of the connection itself, and reads that all give one error
    unfoldable pub plain_reads : List ℕ → List Read → List (Bytes × Option String)
    plain_reads [] rs = []
    plain_reads (n ∷ ns) rs = let (r, rs') = read n rs in r ∷ plain_reads ns rs'

    unfoldable pub failing_reads : List ℕ → String → List (Bytes × Option String)
    failing_reads [] e = []
    failing_reads (n ∷ ns) e = ([], some e) ∷ failing_reads ns e

    -- what the client is to read behind the answer
    unfoldable pub expected_reads :
        List ℕ → List Read → Option String → List (Bytes × Option String)
    expected_reads ns rest none = plain_reads ns rest
    expected_reads ns rest (some e) = failing_reads ns e

    done-reads :
        (ns : List ℕ) (c : FutureConn) (rs : List Read)
        → c.r_err ≡ none
        → c.r_done ≡ true
        → future_reads ns c rs ≡ some (plain_reads ns rs)
    unfolding future_reads future_read plain_reads after_read onto_reads
    done-reads [] c rs e d = refl
    done-reads (n ∷ ns) c rs e d =
        let (r, rs') = read n rs in ground (arith, e, d, done-reads ns c rs' e d)

    failed-reads :
        (ns : List ℕ) (c : FutureConn) (rs : List Read) (x : String)
        → c.r_err ≡ some x
        → future_reads ns c rs ≡ some (failing_reads ns x)
    unfolding future_reads future_read failing_reads after_read onto_reads
    failed-reads [] c rs x e = refl
    failed-reads (n ∷ ns) c rs x e = ground (arith, e, failed-reads ns c rs x e)

    answered-reads :
        (n : ℕ) (ns : List ℕ) (c : FutureConn) (rest : List Read) (e : Option String)
        → c.r_err ≡ none
        → let (r, c', rs') = read_answered n c rest e in
          onto_reads r (future_reads ns c' rs') ≡ some (expected_reads (n ∷ ns) rest e)
    unfolding read_answered expected_reads onto_reads plain_reads failing_reads
    answered-reads n ns c rest none h =
        let rs' = (read n rest).1 in
        ground (arith, done-reads ns (record c { r_done = true }) rs' h refl)
    answered-reads n ns c rest (some x) h =
        ground (arith, failed-reads ns (record c { r_err = some x }) rest x refl)

    -- Where the upstream has an answer, an optimistic connection gives to read what comes behind the
    -- answer of status 200, as the connection itself would; behind any other answer every read has
    -- the error of that answer, and none of the bytes behind it is given to the client.
    pub future_reads-expected :
        (userinfo : Option Userinfo) (address : String) (n : ℕ) (ns : List ℕ) (rs : List Read)
        (head : Result Bytes) (rest : List Read)
        → read_head [] rs ≡ some (head, rest)
        → future_reads (n ∷ ns) (future_conn userinfo address) rs
          ≡ some (expected_reads (n ∷ ns) rest (answer_error (response_status net head)))
    unfolding future_reads future_read after_read
    future_reads-expected userinfo address n ns rs head rest h =
        let c = future_conn userinfo address in
        let e = answer_error (response_status net head) in
        ap (λ x. after_read (future_reads ns) (with_head n c x)) h
        ∙ answered-reads n ns c rest e refl
