-- ===== src/Rpc/Wiring.antt =====
-- The options and the life of the gRPC server, pkg/rpc/server.go, and the options of the client,
-- pkg/rpc/client.go. Interceptors and dial options are of types `U`, `S` and `D`.
use gkit_go.Prelude.{Bool, true, false, Option, none, some, List, [], ◌∷◌, ◌++◌, ◌≡◌, refl}

-- `serverOptions`
pub record ServerOptions (U S : Type 0) : Type 0 where
  pub unary_interceptors : List U
  pub stream_interceptors : List S
  pub enable_reflection : Bool

-- The server options.
pub data ServerOption (U S : Type 0) : Type 0 where
  with_unary_interceptors : List U → ServerOption U S
  with_stream_interceptors : List S → ServerOption U S
  with_reflection : ServerOption U S

-- `clientOptions`
pub record ClientOptions (U S D : Type 0) : Type 0 where
  pub unary_interceptors : List U
  pub stream_interceptors : List S
  pub dial_opts : List D

-- The client options.
pub data ClientOption (U S D : Type 0) : Type 0 where
  with_client_unary_interceptors : List U → ClientOption U S D
  with_client_stream_interceptors : List S → ClientOption U S D
  with_dial_options : List D → ClientOption U S D

module _ {U S : Type 0} where
  unfoldable pub apply_server_option : ServerOption U S → ServerOptions U S → ServerOptions U S
  apply_server_option (with_unary_interceptors us) o = record o {
    unary_interceptors = o.unary_interceptors ++ us;
  }
  apply_server_option (with_stream_interceptors ss) o = record o {
    stream_interceptors = o.stream_interceptors ++ ss;
  }
  apply_server_option with_reflection o = record o { enable_reflection = true }

  unfoldable pub apply_server_options :
      List (ServerOption U S) → ServerOptions U S → ServerOptions U S
  unfolding apply_server_option
  apply_server_options [] o = o
  apply_server_options (opt ∷ opts) o = apply_server_options opts (apply_server_option opt o)

  -- `NewServer`: the options that the server is made with.
  unfoldable pub new_server : List (ServerOption U S) → ServerOptions U S
  unfolding apply_server_options
  new_server opts =
      apply_server_options opts
        (record { unary_interceptors = []; stream_interceptors = []; enable_reflection = true })

-- What a dial is given, in its order.
pub data DialOption (U S D : Type 0) : Type 0 where
  insecure_credentials : DialOption U S D
  chain_unary : List U → DialOption U S D
  chain_stream : List S → DialOption U S D
  given : D → DialOption U S D

module _ {U S D : Type 0} where
  unfoldable pub apply_client_option :
      ClientOption U S D → ClientOptions U S D → ClientOptions U S D
  apply_client_option (with_client_unary_interceptors us) o = record o {
    unary_interceptors = o.unary_interceptors ++ us;
  }
  apply_client_option (with_client_stream_interceptors ss) o = record o {
    stream_interceptors = o.stream_interceptors ++ ss;
  }
  apply_client_option (with_dial_options ds) o = record o { dial_opts = o.dial_opts ++ ds }

  unfoldable pub apply_client_options :
      List (ClientOption U S D) → ClientOptions U S D → ClientOptions U S D
  unfolding apply_client_option
  apply_client_options [] o = o
  apply_client_options (opt ∷ opts) o = apply_client_options opts (apply_client_option opt o)

  abbrev pub given_all : List D → List (DialOption U S D)
  given_all [] = []
  given_all (d ∷ ds) = given d ∷ given_all ds

  -- `Dial`: what the client is made with.
  unfoldable pub dial : List (ClientOption U S D) → List (DialOption U S D)
  unfolding apply_client_options
  dial opts =
      let o =
        apply_client_options opts
          (record { unary_interceptors = []; stream_interceptors = []; dial_opts = [] }) in
      (insecure_credentials
        ∷ chain_unary o.unary_interceptors
        ∷ chain_stream o.stream_interceptors
        ∷ [])
      ++ given_all o.dial_opts

-- How the select of `Serve` ends: with the end of the context, or of the server.
pub data Ended (E : Type 0) : Type 0 where
  context_done : Ended E
  server_returned : Option E → Ended E

-- `Serve`: whether the server was stopped gracefully, and the error, if any.
unfoldable pub serve : {E : Type 0} → Option E → Ended E → Bool × Option E
serve (some e) ended = (false, some e)
serve none context_done = (true, none)
serve none (server_returned err) = (false, err)

-- Options in two groups give what they give one group after the other: interceptors run in the order
-- in which the options name them.
module _ {U S : Type 0} where
  apply_server_options-append :
      (opts opts' : List (ServerOption U S)) (o : ServerOptions U S)
      → apply_server_options (opts ++ opts') o
        ≡ apply_server_options opts' (apply_server_options opts o)
  unfolding apply_server_options
  apply_server_options-append [] opts' o = refl
  apply_server_options-append (opt ∷ opts) opts' o =
      apply_server_options-append opts opts' (apply_server_option opt o)

  -- No option turns the reflection off.
  reflection_stays :
      (opts : List (ServerOption U S)) (o : ServerOptions U S)
      → o.enable_reflection ≡ true
      → (apply_server_options opts o).enable_reflection ≡ true
  unfolding apply_server_options apply_server_option
  reflection_stays [] o e = e
  reflection_stays (with_unary_interceptors us ∷ opts) o e =
      reflection_stays opts (record o { unary_interceptors = o.unary_interceptors ++ us }) e
  reflection_stays (with_stream_interceptors ss ∷ opts) o e =
      reflection_stays opts (record o { stream_interceptors = o.stream_interceptors ++ ss }) e
  reflection_stays (with_reflection ∷ opts) o e =
      reflection_stays opts (record o { enable_reflection = true }) refl
