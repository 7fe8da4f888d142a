-- ===== src/Ftps/Defaults.antt =====
-- `serverOptsWithDefaults` of ftps/server.go.
use ftps_qftp_server.Prelude.{zero, suc, ◌≡◌, ◌≢◌, refl, Option, none, some, [], ◌∷◌, arith}
use ftps_qftp_server.Prelude.Int.{ℤ, pos, negsuc}
use ftps_qftp_server.Text.{Bytes, bytes_eq, codes}
use ftps_qftp_server.Text.Equality.{bytes_eq-ne_false}
use ftps_qftp_server.Ftps.Server.{
  ServerOpts, text_or, port_or, logger_or, with_defaults, no_opts, server_opts_with_defaults,
}

text_or-ne : (text d : Bytes) → d ≢ [] → text_or text d ≢ []
unfolding text_or bytes_eq
text_or-ne [] d h = h
text_or-ne (c ∷ text) d h = λ e. ground (arith, e)

text_or-keeps : (text d : Bytes) → text ≢ [] → text_or text d ≡ text
unfolding text_or
text_or-keeps text d h = rw (bytes_eq-ne_false text [] h) refl

port_or-again : (p d : ℤ) → port_or (port_or p d) d ≡ port_or p d
unfolding port_or
port_or-again (pos zero) (pos zero) = refl
port_or-again (pos zero) (pos (suc d)) = refl
port_or-again (pos zero) (negsuc d) = refl
port_or-again (pos (suc n)) d = refl
port_or-again (negsuc n) d = refl

port_or-ne : (p : ℤ) → port_or p (pos 3000) ≢ pos 0
unfolding port_or
port_or-ne (pos zero) = λ e. ground (arith, e)
port_or-ne (pos (suc n)) = λ e. ground (arith, e)
port_or-ne (negsuc n) = λ e. ground (arith, e)

logger_or-ne : {L : Type 0} (l : Option L) (d : L) → logger_or l d ≢ none
unfolding logger_or
logger_or-ne none d = λ e. ground (arith, e)
logger_or-ne (some l) d = λ e. ground (arith, e)

logger_or-again : {L : Type 0} (l : Option L) (d : L) → logger_or (logger_or l d) d ≡ logger_or l d
unfolding logger_or
logger_or-again none d = refl
logger_or-again (some l) d = refl

text_or-again : (text d : Bytes) → d ≢ [] → text_or (text_or text d) d ≡ text_or text d
text_or-again text d h = text_or-keeps (text_or text d) d (text_or-ne text d h)

module _ {F A L : Type 0} (std_logger : L) where
  with_defaults-again :
      (opts : ServerOpts F A L)
      → with_defaults std_logger (with_defaults std_logger opts) ≡ with_defaults std_logger opts
  unfolding with_defaults codes
  with_defaults-again opts =
      rw
        (
          text_or-again opts.name (codes "Go FTP Server") (λ e. ground (arith, e)),
          text_or-again opts.hostname (codes "::") (λ e. ground (arith, e)),
          text_or-again opts.welcome_message (codes "Welcome to the Go FTP Server")
              (λ e. ground (arith, e)),
          port_or-again opts.port (pos 3000),
          logger_or-again opts.logger std_logger,
        )
        refl

  with_defaults-filled :
      (opts : ServerOpts F A L)
      → (let filled = with_defaults std_logger opts in
          (filled.name ≢ [])
          × (filled.hostname ≢ [])
          × (filled.welcome_message ≢ [])
          × (filled.port ≢ pos 0)
          × (filled.logger ≢ none))
  unfolding with_defaults codes
  with_defaults-filled opts = (
    text_or-ne opts.name (codes "Go FTP Server") (λ e. ground (arith, e)),
    text_or-ne opts.hostname (codes "::") (λ e. ground (arith, e)),
    text_or-ne opts.welcome_message (codes "Welcome to the Go FTP Server") (λ e. ground (arith, e)),
    port_or-ne opts.port,
    logger_or-ne opts.logger std_logger,
  )

  -- Behind `serverOptsWithDefaults` the name, the host and the welcome message are not empty, the port
  -- is not 0 and there is a logger, also for nil options.
  pub server_opts-filled :
      (opts : Option (ServerOpts F A L))
      → (let filled = server_opts_with_defaults std_logger opts in
          (filled.name ≢ [])
          × (filled.hostname ≢ [])
          × (filled.welcome_message ≢ [])
          × (filled.port ≢ pos 0)
          × (filled.logger ≢ none))
  unfolding server_opts_with_defaults
  server_opts-filled none = with_defaults-filled no_opts
  server_opts-filled (some opts) = with_defaults-filled opts

  -- A second pass of `serverOptsWithDefaults` changes nothing.
  pub server_opts-again :
      (opts : Option (ServerOpts F A L))
      → server_opts_with_defaults std_logger (some (server_opts_with_defaults std_logger opts))
        ≡ server_opts_with_defaults std_logger opts
  unfolding server_opts_with_defaults
  server_opts-again none = with_defaults-again no_opts
  server_opts-again (some opts) = with_defaults-again opts
