-- ===== src/Api/Incoming.antt =====
-- internal/api/h_incoming.go: the endpoint that runs transformer scripts. `bcrypt` is the check of a hash,
-- `lua` the Lua machine, and `timed_out` says whether the timeout comes before the script's end.
use howk.Prelude.{
  ℕ, ◌≡◌, refl, sym, subst, ◌∙◌, Bool, true, false, ◌&&◌, List, ◌++◌, Option, none, some, ltb,
  if◌then◌else◌, length,
}
use howk.Prelude.Text.{Bytes, codes}
use howk.HotState.{TtlConfig}
use howk.Effects.{M, Env, World, ◌>>=◌, pure}
use howk.Transformer.{
  TransformerScript, Registry, Files, TransformerConfig, load, load_passwd, passwd_dirs_of,
}
use howk.Transformer.Auth.{AuthConfig, check}
use howk.Transformer.Names.{load-IsFiled}
use howk.Transformer.Engine.{
  Sources, Program, TransformerError, syntax_error, runtime_error, timeout, internal, Execution,
  failed, executed, execute,
}
use howk.Api.{Response, respond, error_body, webhooks_body}

-- The parts of a request: `body` is `none` if it cannot be read; a header has its first value.
pub record IncomingRequest : Type 0 where
  pub script_name : Bytes
  pub basic_auth : Option (Bytes × Bytes)
  pub body : Option Bytes
  pub headers : List (Bytes × Bytes)

-- `transformerErrToHTTP`.
unfoldable pub error_response : TransformerError → Response
error_response e = elim e.kind [
  | syntax_error ↦ respond 422 (error_body (codes "script syntax error: " ++ e.message))
  | runtime_error ↦ respond 422 (error_body (codes "script runtime error: " ++ e.message))
  | timeout ↦ respond 504 (error_body (codes "script execution timed out"))
  | internal ↦ respond 500 (error_body (codes "script execution failed"))
]

unfoldable execution_response : Execution → Response
unfolding error_response
execution_response (failed e) = error_response e
execution_response (executed refs) = respond 200 (webhooks_body refs)

-- Whether the caller may run the script.
unfoldable pub is_admitted :
    (Bytes → Bytes → Bool) → Option AuthConfig → Option (Bytes × Bytes) → Bool
is_admitted bcrypt none credentials = true
is_admitted bcrypt (some a) none = false
is_admitted bcrypt (some a) (some (username, password)) = check bcrypt a username password

-- `MaxBytesReader`: a limit of zero is none.
abbrev is_too_large : ℕ → Bytes → Bool
is_too_large max body = ltb 0 max && ltb max (length body)

module _ (c : TtlConfig) (s : Sources) (bcrypt : Bytes → Bytes → Bool)
    (lua : TransformerScript → Bytes → List (Bytes × Bytes) → Program) (max : ℕ)
    (timed_out : Bool) where
  unfoldable pub run_script : TransformerScript → IncomingRequest → Option Bytes → M Response
  unfolding execution_response
  run_script script req none = pure (respond 400 (error_body (codes "failed to read request body")))
  run_script script req (some body) =
      if is_too_large max body
      then pure (respond 413 (error_body (codes "request body too large")))
      else (execute c s script (lua script body req.headers) timed_out >>= λ e.
          pure (execution_response e))

  unfoldable pub with_script : IncomingRequest → Option TransformerScript → M Response
  unfolding run_script is_admitted
  with_script req none = pure (respond 404 (error_body (codes "script not found")))
  with_script req (some script) =
      if is_admitted bcrypt script.auth req.basic_auth
      then run_script script req req.body
      else pure (respond 401 (error_body (codes "invalid credentials")))

  -- `handleIncoming`; a server without transformers has no registry.
  unfoldable pub handle_incoming : Option Registry → IncomingRequest → M Response
  unfolding with_script
  handle_incoming none req =
      pure (respond 404 (error_body (codes "transformer feature not enabled")))
  handle_incoming (some registry) req = with_script req (registry req.script_name)

  is_admitted-refuses :
      (a : AuthConfig) (credentials : Option (Bytes × Bytes))
      → ((user password : Bytes)
          → credentials ≡ some (user, password)
          → check bcrypt a user password ≡ false)
      → is_admitted bcrypt (some a) credentials ≡ false
  unfolding is_admitted
  is_admitted-refuses a none n = refl
  is_admitted-refuses a (some (user, password)) n = n user password refl

  -- If the passwd files have credentials for a script of the registry, a request for it that carries
  -- no name and password, or some that do not check, is answered with 401, and nothing is
  -- published or written, whatever the script would do.
  pub guarded_script_needs_credentials :
      (fs : Files) (tc : TransformerConfig) (script : TransformerScript) (a : AuthConfig)
      (req : IncomingRequest) (env : Env) (w : World)
      → (load fs tc).1 req.script_name ≡ some script
      → load_passwd fs (passwd_dirs_of tc) req.script_name ≡ some a
      → ((user password : Bytes)
          → req.basic_auth ≡ some (user, password)
          → check bcrypt a user password ≡ false)
      → let (r, w') = handle_incoming (some (load fs tc).1) req env w in (r.status ≡ 401) × (w' ≡ w)
  unfolding handle_incoming with_script pure
  guarded_script_needs_credentials fs tc script a req env w e p n = rw e (
      rw
        (subst (λ x. is_admitted bcrypt x req.basic_auth ≡ false)
          (sym ((load-IsFiled fs tc req.script_name script e).loaded ∙ p))
          (is_admitted-refuses a req.basic_auth n))
        (refl, refl))
