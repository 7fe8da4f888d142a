-- ===== src/Ftps/Sequences.antt =====
-- ftps/cmd.go: commands that work together, RNFR with RNTO, REST with RETR and STOR, USER with PASS.
use ftps_qftp_server.Prelude.{ℕ, ◌<◌, ◌^◌, ◌≡◌, ◌≢◌, refl, true, false, List, [], ◌∷◌, inl, inr}
use ftps_qftp_server.Prelude.Int.{pos}
use ftps_qftp_server.Text.{Bytes}
use ftps_qftp_server.Number.{format_nat}
use ftps_qftp_server.Number.RoundTrip.{parse_int-format_nat}
use ftps_qftp_server.Driver.{ok, Result-cases, DriverCall, rename_call, put_file_call}
use ftps_qftp_server.Ftps.State.{Socket, Event, called, Env, Session, Outcome, done, panic, ◌>>◌}
use ftps_qftp_server.Ftps.Connection.{build_path, write_message}
use ftps_qftp_server.Ftps.Commands.Files.{execute_rnfr, execute_rnto, rename_to}
use ftps_qftp_server.Ftps.Commands.Transfer.{
  execute_rest, answer_rest, execute_retr, retrieve, execute_stor, store,
}
use ftps_qftp_server.Ftps.Commands.Control.{execute_pass}
use ftps_qftp_server.Ftps.Invariant.{Post}

-- The calls of the driver, the newest first.
abbrev pub driver_calls : List Event → List (DriverCall Socket)
driver_calls [] = []
driver_calls (called c ∷ trace) = c ∷ driver_calls trace
driver_calls (_ ∷ trace) = driver_calls trace

module _ {W : Type 0} (env : Env W) (s : Session W) where
  -- RNFR and RNTO together make one call of the driver, from the path that RNFR named to the path that
  -- RNTO named, and whatever the driver answers no name stays pending.
  pub rename_pair :
      (from to : Bytes)
      → Post
          (λ t.
            (driver_calls t.trace
              ≡ rename_call (build_path s.conn from) (build_path s.conn to) ∷ driver_calls s.trace)
            × (t.rename_from ≡ []))
          ((execute_rnfr from >> execute_rnto env to) s)
  unfolding execute_rnfr execute_rnto rename_to write_message build_path
  rename_pair from to =
      elim (Result-cases (env.rename (build_path s.conn from) (build_path s.conn to) s.world).0) [
        | inl (a, e) ↦ rw e (refl, refl)
        | inr (x, e) ↦ rw e (refl, refl)
      ]

  -- Behind RETR the position is 0 and the next upload does not append, whatever the driver answers and
  -- also where the transfer panics.
  pub retr_resets :
      (path : Bytes)
      → Post (λ t. (t.last_file_pos ≡ pos 0) × (t.append_data ≡ false)) (execute_retr env path s)
  unfolding execute_retr
  retr_resets path = deferred (retrieve env (build_path s.conn path) s)
    where
      deferred :
          (o : Outcome W Unit)
          → Post
              (λ t. (t.last_file_pos ≡ pos 0) × (t.append_data ≡ false))
              (elim o [
                | done a t ↦ done a (record t {
                  conn = record t.conn { last_file_pos = pos 0; append_data = false };
                })
                | panic fault t ↦ panic fault (record t {
                  conn = record t.conn { last_file_pos = pos 0; append_data = false };
                })
              ])
      deferred (done a t) = (refl, refl)
      deferred (panic fault t) = (refl, refl)

  -- REST with a number below 2 ^ 63 and then STOR make one call of the driver, which appends to the
  -- file, and the position that REST set is still there behind STOR.
  pub rest_stor :
      (n : ℕ) (path : Bytes)
      → n < 2 ^ 63
      → Post
          (λ t.
            (driver_calls t.trace
              ≡ put_file_call (build_path s.conn path) s.data_conn true ∷ driver_calls s.trace)
            × (t.last_file_pos ≡ pos n)
            × (t.append_data ≡ false))
          ((execute_rest (format_nat n) >> execute_stor env path) s)
  unfolding execute_rest answer_rest execute_stor store write_message build_path
  rest_stor n path h =
      rw (parse_int-format_nat n h)
        (elim (Result-cases (env.put_file (build_path s.conn path) s.data_conn true s.world).0) [
          | inl (a, e) ↦ rw e (refl, refl, refl)
          | inr (x, e) ↦ rw e (refl, refl, refl)
        ])

  -- A password that the auth does not accept leaves the user and the requested name as they were.
  pub pass_refused :
      (pass : Bytes)
      → (env.check_passwd s.req_user pass s.world).0 ≢ ok true
      → Post (λ t. (t.user ≡ s.user) × (t.req_user ≡ s.req_user)) (execute_pass env pass s)
  unfolding execute_pass write_message
  pass_refused pass h = elim (Result-cases (env.check_passwd s.req_user pass s.world).0) [
    | inl (true, e) ↦ absurd (h e)
    | inl (false, e) ↦ rw e (refl, refl)
    | inr (x, e) ↦ rw e (refl, refl)
  ]
