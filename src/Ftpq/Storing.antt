-- ===== src/Ftpq/Storing.antt =====
-- STOR of ftpq/cmd.go: what it does with its two words.
use ftps_qftp_server.Prelude.{
  ◌∙◌, ℕ, ◌<◌, ◌%◌, ◌^◌, ap, ◌≡◌, refl, sym, true, false, some, [], ◌∷◌, ◌++◌, arith, Bool, List,
  ◌⊎◌, inl, inr,
}
use mathlib.Core.Path.{subst}
use ftps_qftp_server.Ftpq.Lock.{with_lock_free}
use ftps_qftp_server.Prelude.Int.{ℤ, pos, bits64}
use ftps_qftp_server.Text.{Bytes, codes}
use ftps_qftp_server.Text.Split.{Lacks, split_two_lacking, split_two-append}
use ftps_qftp_server.Number.{parse_int, fine, Status, format_int}
use ftps_qftp_server.Driver.{Result, ok, err, put_file_call}
use ftps_qftp_server.Ftps.State.{Reply, single, index_out_of_range}
use ftps_qftp_server.Ftpq.Replies.{replies, WaitsSilently, get_receive-WaitsSilently}
use ftps_qftp_server.Ftpq.State.{
  StreamId, tag, logged_response, wrote_reply, driver_called, QuicEnv, SubSession, SubOutcome,
  finished, crashed, blocked, Q, ◌>>=◌,
}
use ftps_qftp_server.Ftpq.SubConn.{
  write_message, build_path, get_receive_data_stream, find_stream, has_stream,
}
use ftps_qftp_server.Ftpq.Commands.Transfer.{
  check_words, check_stream, is_bad_stream, is_other_stream, received_stream, first_word, store,
  store_words, receive_file, execute_stor,
}

-- The replies of a STOR without a path up to the call of getReceiveDataStream: that two words are
-- needed, that the number is no stream's where it is none, and the start of the transfer.
abbrev pub replies_before : Bool → List Reply → List Reply
replies_before false rs =
    single 150 (codes "Data transfer starting")
    ∷ single 501 (codes "Stream ID and path seperated by a blank needed.")
    ∷ rs
replies_before true rs =
    single 150 (codes "Data transfer starting")
    ∷ single 501
        (codes "Stream ID has not a valid value for a unidirectional stream from the client.")
    ∷ single 501 (codes "Stream ID and path seperated by a blank needed.")
    ∷ rs

-- A panic on the second word behind the given replies, and behind one more if no stream was found, or
-- a wait behind the given replies, with the mutex held.
abbrev pub FailsOnPath : {W A : Type 0} → List Reply → SubOutcome W A → Type 0
FailsOnPath rs (finished a t) = ⊥
FailsOnPath rs (crashed fault t) =
    (fault ≡ index_out_of_range)
    × ((replies t.trace ≡ rs)
        ⊎ (replies t.trace ≡ single 425 (codes "Can't open data stream.") ∷ rs))
FailsOnPath rs (blocked t) = (t.shared.locked ≡ true) × (replies t.trace ≡ rs)

bind_finished :
    {W A B : Type 0} (m : Q W A) (f : A → Q W B) (s : SubSession W) (a : A) (t : SubSession W)
    → m s ≡ finished a t
    → (m >>= f) s ≡ f a t
bind_finished m f s a t e =
    ap
      (λ o. elim o [
        | finished a s' ↦ f a s'
        | crashed fault s' ↦ crashed fault s'
        | blocked s' ↦ blocked s'
      ])
      e

fits_64 : (id : ℕ) → id < 2 ^ 64 → id ≡ bits64 (pos id)
fits_64 id h = omega (arith, h)

module _ {W : Type 0} (env : QuicEnv W) where
  on_received :
      (word : Bytes) (rs : List Reply) (r : Result StreamId) (s : SubSession W)
      → replies s.trace ≡ rs
      → FailsOnPath rs ((received_stream r >>= store_words env (word ∷ [])) s)
  unfolding received_stream store_words write_message
  on_received word rs (ok id) s h = (refl, inl h)
  on_received word rs (err e) s h =
      (refl, inr (ap (λ l. single 425 (codes "Can't open data stream.") ∷ l) h))

  on_outcome :
      (word : Bytes) (rs : List Reply) (o : SubOutcome W (Result StreamId))
      → WaitsSilently rs o
      → FailsOnPath rs (elim o [
        | finished r t ↦ (received_stream r >>= store_words env (word ∷ [])) t
        | crashed fault t ↦ crashed fault t
        | blocked t ↦ blocked t
      ])
  on_outcome word rs (finished r t) h = on_received word rs r t h
  on_outcome word rs (crashed fault t) h = absurd h
  on_outcome word rs (blocked t) h = h

  one_word :
      (word : Bytes) (bad : Bool) (n : ℤ) (status : Status) (s : SubSession W)
      → is_bad_stream (n, status) ≡ bad
      → FailsOnPath
          (replies_before bad (replies s.trace))
          (receive_file env (word ∷ []) (n, status) s)
  unfolding receive_file check_words check_stream write_message
  one_word word false n status s e = rw e (
      on_outcome word (replies_before false (replies s.trace)) _
        (get_receive-WaitsSilently env _ (bits64 n) _ refl))
  one_word word true n status s e = rw e (
      on_outcome word (replies_before true (replies s.trace)) _
        (get_receive-WaitsSilently env _ (bits64 n) _ refl))

  -- A STOR whose parameter holds no blank, and so no path, never comes to its end. It replies 501 for
  -- the missing word, 501 again exactly if the number is none of a stream that a client opens to send,
  -- and 150; then it waits for ever, with the mutex held, or it panics on the second word, which ends
  -- the whole server, with no further reply or with 425 behind those.
  pub stor_without_path :
      (param : Bytes) (s : SubSession W)
      → Lacks b' ' param
      → FailsOnPath
          (replies_before (is_bad_stream (parse_int param)) (replies s.trace))
          (execute_stor env param s)
  unfolding execute_stor first_word
  stor_without_path param s h =
      subst
        (λ words.
          FailsOnPath (replies_before (is_bad_stream (parse_int param)) (replies s.trace))
            (receive_file env words (parse_int (first_word words)) s))
        (sym (split_two_lacking param b' ' h))
        (one_word param (is_bad_stream (parse_int param)) (parse_int param).0 (parse_int param).1 s
          refl)

  get_known :
      (id : StreamId) (s : SubSession W)
      → s.shared.locked ≡ false
      → has_stream id s.shared.data_receive_streams ≡ true
      → get_receive_data_stream env id s ≡ finished (ok id) s
  unfolding get_receive_data_stream find_stream
  get_known id s free e = with_lock_free (find_stream env id) s free ∙ rw e refl

  -- The state behind a STOR that the driver took `n` bytes of.
  abbrev pub stored : SubSession W → Bytes → StreamId → ℤ → SubSession W
  stored s path id n = record {
    sub = record s.sub { append_data = false };
    shared = s.shared;
    world = (env.put_file (build_path s.sub path) (some id) s.append_data s.world).1;
    trace =
        wrote_reply (single 226 (codes "OK, received " ++ (format_int n ++ codes " bytes")))
        ∷ logged_response (tag s.sub) 226
            (codes "OK, received " ++ (format_int n ++ codes " bytes"))
        ∷ driver_called (put_file_call (build_path s.sub path) (some id) s.append_data)
        ∷ wrote_reply (single 150 (codes "Data transfer starting"))
        ∷ logged_response (tag s.sub) 150 (codes "Data transfer starting")
        ∷ s.trace;
  }

  receive_known :
      (word path : Bytes) (id : StreamId) (n : ℤ) (s : SubSession W)
      → id % 4 ≡ 2
      → id < 2 ^ 64
      → s.shared.locked ≡ false
      → has_stream id s.shared.data_receive_streams ≡ true
      → (env.put_file (build_path s.sub path) (some id) s.append_data s.world).0 ≡ ok n
      → receive_file env (word ∷ path ∷ []) (pos id, fine) s ≡ finished tt (stored s path id n)
  unfolding receive_file check_words check_stream is_bad_stream is_other_stream received_stream
      store_words store write_message
  receive_known word path id n s fits small free known answer =
      let opened : SubSession W = record s {
        trace =
            wrote_reply (single 150 (codes "Data transfer starting"))
            ∷ logged_response (tag s.sub) 150 (codes "Data transfer starting")
            ∷ s.trace;
      } in
      let found =
        subst (λ k. get_receive_data_stream env k opened ≡ finished (ok id) opened)
          (fits_64 id small) (get_known id opened free known) in
      rw fits (
        bind_finished (get_receive_data_stream env (bits64 (pos id)))
          (λ r. received_stream r >>= store_words env (word ∷ path ∷ [])) opened (ok id) opened
          found
        ∙ rw answer refl)

  -- A STOR of a stream that the session knows, with the mutex free, hands that stream and the path that
  -- buildPath makes of the rest of the parameter to the driver, at the end of the file if APPE or REST
  -- came before; it answers 150 and then 226 with the bytes that the driver took, and the next STOR
  -- does not append.
  pub stor_stores :
      (word path : Bytes) (id : StreamId) (n : ℤ) (s : SubSession W)
      → Lacks b' ' word
      → parse_int word ≡ (pos id, fine)
      → id % 4 ≡ 2
      → id < 2 ^ 64
      → s.shared.locked ≡ false
      → has_stream id s.shared.data_receive_streams ≡ true
      → (env.put_file (build_path s.sub path) (some id) s.append_data s.world).0 ≡ ok n
      → execute_stor env (word ++ b' ' ∷ path) s ≡ finished tt (stored s path id n)
  unfolding execute_stor first_word
  stor_stores word path id n s lacks parsed fits small free known answer =
      ap (λ words. receive_file env words (parse_int (first_word words)) s)
        (split_two-append word path b' ' lacks)
      ∙ (ap (λ number. receive_file env (word ∷ path ∷ []) number s) parsed
          ∙ receive_known word path id n s fits small free known answer)
