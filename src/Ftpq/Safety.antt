-- ===== src/Ftpq/Safety.antt =====
-- Over a whole sub-connection: the driver is used behind a password and below the root only.
use ftps_qftp_server.Prelude.{ap, ◌≡◌, refl, ◌⊎◌, inl, inr, Option, List, [], All}
use ftps_qftp_server.Text.{Bytes, bytes_eq}
use ftps_qftp_server.Ftps.Confined.{
  IsConfinedEvent, IsConfined, IsConfined-base, IsConfined-law, root-IsInTree,
}
use ftps_qftp_server.Ftps.Login.{
  HasLogin, IsLoginFirst, IsAdmitted, IsAdmitted-law, IsGuarded, IsGuarded-law,
}
use ftps_qftp_server.Ftps.User.{IsGenuine, IsGenuineSession, IsGenuine-base, IsGenuine-law}
use ftps_qftp_server.Ftpq.State.{
  StreamId, QuicConn, QuicEnv, SubSession, SubOutcome, finished, crashed, blocked,
}
use ftps_qftp_server.Ftpq.Server.{new_sub_conn, new_sub_session}
use ftps_qftp_server.Ftpq.Dispatch.{receive_line, serve}
use ftps_qftp_server.Ftpq.View.{view, view_trace, SubPost}
use ftps_qftp_server.Ftpq.Invariant.{SubKeeps}
use ftps_qftp_server.Ftpq.Invariant.Serve.{receive_line-SubKeeps, receive_line_open, serve-SubKeeps}

SubPost-map :
    {W A : Type 0} (I J : SubSession W → Type 0)
    → ((s : SubSession W) → I s → J s)
    → (o : SubOutcome W A) → SubPost I o
    → SubPost J o
SubPost-map I J f (finished a s) h = f s h
SubPost-map I J f (crashed fault s) h = f s h
SubPost-map I J f (blocked s) h = f s h

module _ {W : Type 0} (env : QuicEnv W) where
  -- Whatever lines a client sends on a new control stream, and however its input ends, every path that
  -- the sub-connection hands to the driver is an absolute path of names, none of them empty, "." or
  -- "..", except that the source of a rename may be the empty path.
  pub sub_serve_confined :
      (conn : QuicConn) (stream_id : StreamId) (w : W) (lines : List Bytes) (failure : Option Bytes)
      → SubPost
          (λ s. All IsConfinedEvent (view_trace s.trace))
          (serve env lines failure (new_sub_session conn stream_id w))
  unfolding new_sub_session new_sub_conn
  sub_serve_confined conn stream_id w lines failure =
      SubPost-map (λ s. IsConfined (view s)) _ (λ s h. h.events) _
        ((serve-SubKeeps IsConfined-base env (receive_line-SubKeeps IsConfined-law env) lines
            failure).at
          _ (record { tree = root-IsInTree; events = tt }))

  receive_line-IsGuarded : (line : Bytes) → SubKeeps IsGuarded (receive_line env line)
  unfolding bytes_eq
  receive_line-IsGuarded line = record { at = λ s h. at_user s h h.login }
    where
      at_user :
          (s : SubSession W)
          → IsGuarded (view s)
          → (s.user ≡ []) ⊎ HasLogin (view_trace s.trace)
          → SubPost (λ t. IsGuarded (view t)) (receive_line env line s)
      at_user s h (inl u) = receive_line_open IsGuarded-law env line s (ap (λ n. bytes_eq n []) u) h
      at_user s h (inr login) =
          SubPost-map (λ t. IsAdmitted (view t)) _
            (λ t k. record { tree = k.tree; login = inr k.login; order = k.order }) _
            ((receive_line-SubKeeps IsAdmitted-law env line).at s
              (record { tree = h.tree; login = login; order = h.order }))

  -- Whatever lines a client sends on a new control stream, and however its input ends, before each call
  -- of the driver the auth has accepted a password on this stream for a user whose name is not empty: a
  -- login on one stream does not serve another.
  pub sub_serve-IsLoginFirst :
      (conn : QuicConn) (stream_id : StreamId) (w : W) (lines : List Bytes) (failure : Option Bytes)
      → SubPost
          (λ s. IsLoginFirst (view_trace s.trace))
          (serve env lines failure (new_sub_session conn stream_id w))
  unfolding new_sub_session new_sub_conn
  sub_serve-IsLoginFirst conn stream_id w lines failure =
      SubPost-map (λ s. IsGuarded (view s)) _ (λ s h. h.order) _
        ((serve-SubKeeps IsGuarded-law env receive_line-IsGuarded lines failure).at _
          (record { tree = root-IsInTree; login = inl refl; order = tt }))

  -- Whatever lines a client sends on a new control stream, and however its input ends, the user of the
  -- sub-connection is empty or a name for which the auth accepted a password on this stream.
  pub sub_serve-IsGenuine :
      (conn : QuicConn) (stream_id : StreamId) (w : W) (lines : List Bytes) (failure : Option Bytes)
      → SubPost
          (λ s. IsGenuine s.user (view_trace s.trace))
          (serve env lines failure (new_sub_session conn stream_id w))
  unfolding new_sub_session new_sub_conn
  sub_serve-IsGenuine conn stream_id w lines failure =
      SubPost-map (λ s. IsGenuineSession (view s)) _ (λ s h. h.genuine) _
        ((serve-SubKeeps IsGenuine-base env (receive_line-SubKeeps IsGenuine-law env) lines
            failure).at
          _ (record { tree = root-IsInTree; genuine = inl refl }))
