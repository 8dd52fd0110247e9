-- ===== src/Connect/Failure.antt =====
-- What PHP code sees of a connection that cannot be opened.
use php_clickhouse.Base.{◌≡◌, ◌≢◌, ◌⊎◌, inl, inr, refl, none, some}
use php_clickhouse.Errors.{
  Exception, server_exception, Outcome-cases, throws, PhpException, ce_ch_server_exception,
  ce_ch_connection_exception,
}
use php_clickhouse.Errors.Translation.{connect_failed-class}
use php_clickhouse.Connection.{fresh}
use php_clickhouse.Connect.{
  ConnectConfig, Connector, options_of, factory_connect, connected, client_connect,
}

-- Where no exception was pending and the library leaves none, a connect gives a connection that is not broken and leaves
-- no exception; or it gives none, the library threw, and the exception that is pending has its text: a ServerException
-- if the server sent it, and a ConnectionException for any other.
pub client_connect-cases :
    (lib : Connector) (cfg : ConnectConfig)
    → lib.leaves (options_of cfg) ≡ none
    → let q = client_connect lib cfg none in
      ((q.0 ≡ some fresh) × (q.1 ≡ none))
      ⊎ ((q.0 ≡ none)
          × ((e : Exception) × (lib.connects
                  (options_of cfg)
                  (factory_connect cfg.tls cfg.tls_verify)
                ≡ throws e)
              × (x : PhpException) × (q.1 ≡ some x)
              × (x.message ≡ e.what)
              × (((x.cls ≡ ce_ch_server_exception) × (e.kind ≡ server_exception))
                  ⊎ ((x.cls ≡ ce_ch_connection_exception) × (e.kind ≢ server_exception)))))
unfolding client_connect connected
client_connect-cases lib cfg h =
    elim (Outcome-cases (lib.connects (options_of cfg) (factory_connect cfg.tls cfg.tls_verify))) [
      | inl (a, eq) ↦ rw (eq, h) (inl (refl, refl))
      | inr (e, eq) ↦
          let (x, is_x, text, cls) = connect_failed-class e in
          rw (eq, h) (inr (refl, (e, refl, x, is_x, text, cls)))
    ]
