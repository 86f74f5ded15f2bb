-- ===== src/Dumbproxy/Handler/Adapters.antt =====
-- handler/adapter.go: the wrappers that make ends of a tunnel of bodies, response writers and
-- pipes, and what a tunnel between two of them does.
use go_forward_proxy.Base.{ℕ, String, ◌≡◌, refl, Option, none, some, []}
use go_forward_proxy.Base.Bytes.{Bytes, length}
use go_forward_proxy.Dumbproxy.Handler.Pending.{Write}
use go_forward_proxy.Dumbproxy.Forward.{copy_and_close_write}

-- `Read` with room for so many bytes: the bytes, and the error if there is one; and `Close`.
abbrev pub Read : Type 0 → Type 0
Read E = ℕ → E → (Bytes × Option String) × E

abbrev pub Close : Type 0 → Type 0
Close E = E → Option String × E

-- `io.ReadWriteCloser`, with `CloseWrite` where there is one
pub record Stream (E : Type 0) : Type 0 where
  pub read : Read E
  pub write : Write E
  pub close : Close E
  pub close_write : Option (Close E)

-- `io.Copy` to an end from another one
abbrev pub Copy : Type 0 → Type 0
Copy E = Stream E → Stream E → Close E

module _ {E : Type 0} where
  -- `f.Flush()` where the writer is a flusher
  abbrev flushed : Option (E → E) → E → E
  flushed none env = env
  flushed (some f) env = f env

  unfoldable pub wrap_h2 : Read E → Close E → Write E → Option (E → E) → Stream E
  wrap_h2 read close write flush = record {
    read = read;
    write = λ p env.
        let ((n, e), env₁) = write p env in
        elim e [ some x ↦ ((n, some x), env₁) | none ↦ ((n, none), flushed flush env₁) ];
    close = close;
    close_write = none;
  }

  unfoldable pub wrap_h1_req_body : Read E → Close E → Stream E
  wrap_h1_req_body read close = record {
    read = read;
    write = λ p env. ((length p, none), env);
    close = close;
    close_write = some (λ env. (none, env));
  }

  -- the pipe's end, by `Write` and `Close` of the `io.PipeWriter`
  unfoldable pub h1_req_body_pipe : Write E → Close E → Stream E
  h1_req_body_pipe write close = record {
    read = λ n env. (([], some "EOF"), env);
    write = write;
    close = close;
    close_write = some close;
  }

  unfoldable pub wrap_h1_resp_writer : Write E → Option (E → E) → Stream E
  wrap_h1_resp_writer write flush = record {
    read = λ n env. (([], some "EOF"), env);
    write = λ p env. let (r, env₁) = write p env in (r, flushed flush env₁);
    close = λ env. (none, env);
    close_write = none;
  }

  unfoldable pub wrap_socks : Read E → Write E → Stream E
  wrap_socks read write = record {
    read = read;
    write = write;
    close = λ env. (none, env);
    close_write = none;
  }

  abbrev changes : Close E → E → E
  changes close env = (close env).1

  abbrev changes_if : Option (Close E) → Option (E → E)
  changes_if none = none
  changes_if (some close) = some (changes close)

  -- one direction of `PairConnections`
  unfoldable pub half : Copy E → (dst src : Stream E) → Close E
  half copy dst src =
      copy_and_close_write (copy dst src) (changes_if dst.close_write) (changes dst.close)

  -- What io promises: nothing is written, and there is no error, where the source is at its end.
  pub record CopyLaws (copy : Copy E) : Type 0 where
    pub at_end :
        (dst src : Stream E)
        → ((n : ℕ) (env : E) → src.read n env ≡ (([], some "EOF"), env))
        → (env : E) → copy dst src env ≡ (none, env)

  module _ (copy : Copy E) (laws : CopyLaws copy) where
    -- The forwarding of the bytes that were rescued from the client's buffer copies them to the
    -- upstream and leaves its connection open, and reads nothing from it.
    pub half-rescued :
        (read : Read E) (close : Close E) (write : Write E) (flush : Option (E → E)) (env : E)
        → let rescued = wrap_h1_req_body read close in
          let upstream = wrap_h1_resp_writer write flush in
          (half copy upstream rescued env ≡ copy upstream rescued env)
          × (half copy rescued upstream env ≡ (none, env))
    unfolding half copy_and_close_write wrap_h1_req_body wrap_h1_resp_writer
    half-rescued read close write flush env =
        let rescued = wrap_h1_req_body read close in
        let upstream = wrap_h1_resp_writer write flush in
        (refl, laws.at_end rescued upstream (λ n e. refl) env)

    -- The body of a request goes through the pipe, which is closed behind it, so that the transport
    -- sees its end; what the other direction does is to close nothing and to write nothing.
    pub half-request :
        (read : Read E) (close : Close E) (write : Write E) (pipe_close : Close E) (env : E)
        → let body = wrap_h1_req_body read close in
          let pipe = h1_req_body_pipe write pipe_close in
          (half copy pipe body env
            ≡ (let (e, env₁) = copy pipe body env in (e, (pipe_close env₁).1)))
          × (half copy body pipe env ≡ (none, env))
    unfolding half copy_and_close_write wrap_h1_req_body h1_req_body_pipe
    half-request read close write pipe_close env =
        let body = wrap_h1_req_body read close in
        let pipe = h1_req_body_pipe write pipe_close in
        (refl, laws.at_end body pipe (λ n e. refl) env)
