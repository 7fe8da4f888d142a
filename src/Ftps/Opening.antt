-- ===== src/Ftps/Opening.antt =====
-- ftps/cmd.go, ftps/conn.go and ftps/socket.go: the ports and the sockets of data connections.
use mathlib.Core.List.{reverse, reverse-append, reverse-reverse}
use ftps_qftp_server.Prelude.{
  ℕ, suc, ◌+◌, ◌*◌, ◌^◌, ◌≤◌, ◌<◌, ◌≡◌, refl, ap, ◌∙◌, false, List, [], ◌∷◌, ◌++◌, All, All-append,
  arith, if◌then◌else◌, some,
}
use ftps_qftp_server.Prelude.Int.{pos, wrap64, ◌+ℤ◌, ◌-ℤ◌, ◌*ℤ◌, ℤ}
use ftps_qftp_server.Text.{Bytes, bytes_eq, codes}
use ftps_qftp_server.Text.Scan.{
  skip_space, width, width_two, width_three, is_space, is_space_two, is_space_three, trim_space,
}
use ftps_qftp_server.Text.Split.{Lacks, split, split-append, split_lacking}
use ftps_qftp_server.Number.{format_nat, format_int}
use ftps_qftp_server.Number.RoundTrip.{IsDigit, format_nat-IsDigit, parse_int-format_nat}
use ftps_qftp_server.Driver.{Result, ok, err}
use ftps_qftp_server.Ftps.State.{
  Socket, tcp, single, wrote, opened, print_event, print_response_event, Env, Session, done, ◌>>=◌,
  pure,
}
use ftps_qftp_server.Ftps.Connection.{write_message, draw_port, port_in_range, passive_port}
use ftps_qftp_server.Ftps.Socket.{new_active_socket, join_host_port}
use ftps_qftp_server.Ftps.Commands.Ports.{
  port_of_parts, connect_port, execute_port, answer_active, data_connection_failed,
}

pub All-reverse : {A : Type 0} (P : A → Type 0) (xs : List A) → All P xs → All P (reverse xs)
All-reverse P [] h = tt
All-reverse P (x ∷ xs) (hx, hxs) =
    rw (reverse-append (x ∷ []) xs)
      (All-append P (reverse xs) (x ∷ []) (All-reverse P xs hxs) (hx, tt))

skip_digit : (s : Bytes) → All IsDigit s → skip_space is_space_two is_space_three 0 s ≡ s
unfolding skip_space width width_two width_three is_space is_space_two is_space_three
skip_digit [] h = refl
skip_digit (c ∷ []) h = ground arith
skip_digit (c ∷ d ∷ []) h = ground arith
skip_digit (c ∷ d ∷ e ∷ s) h = ground arith

skip_digit_back :
    (s : Bytes)
    → All IsDigit s
    → skip_space (λ d c. is_space_two c d) (λ e d c. is_space_three c d e) 0 s ≡ s
unfolding skip_space width width_two width_three is_space is_space_two is_space_three
skip_digit_back [] h = refl
skip_digit_back (c ∷ []) h = ground arith
skip_digit_back (c ∷ d ∷ []) h = ground arith
skip_digit_back (c ∷ d ∷ e ∷ s) h = ground arith

trim_space-digits : (s : Bytes) → All IsDigit s → trim_space s ≡ s
unfolding trim_space
trim_space-digits s h =
    rw (skip_digit s h, skip_digit_back (reverse s) (All-reverse IsDigit s h)) (reverse-reverse s)

digits-Lacks : (b : ℕ) (s : Bytes) → b < b'0' → All IsDigit s → Lacks b s
digits-Lacks b [] k h = tt
digits-Lacks b (c ∷ s) k (hc, h) = ((λ e. absurd (omega (arith, e))), digits-Lacks b s k h)

split-range :
    (low high : ℕ)
    → split (format_nat low ++ b'-' ∷ format_nat high) b'-' ≡ format_nat low ∷ format_nat high ∷ []
split-range low high =
    split-append (format_nat low) (format_nat high) b'-'
      (digits-Lacks b'-' (format_nat low) (omega arith) (format_nat-IsDigit low))
    ∙ ap (λ t. format_nat low ∷ t)
        (split_lacking (format_nat high) b'-'
          (digits-Lacks b'-' (format_nat high) (omega arith) (format_nat-IsDigit high)))

difference : (low n : ℕ) → low + n < 2 ^ 16 → wrap64 (pos (low + n) -ℤ pos low) ≡ pos n
unfolding wrap64 ◌-ℤ◌
difference low n h = ground arith

sum : (low k : ℕ) → low + k < 2 ^ 16 → wrap64 (pos low +ℤ pos k) ≡ pos (low + k)
unfolding wrap64 ◌+ℤ◌
sum low k h = ground arith

port_sum :
    (one two : ℕ)
    → one < 256
    → two < 256
    → wrap64 (wrap64 (pos one *ℤ pos 256) +ℤ pos two) ≡ pos (one * 256 + two)
unfolding wrap64 ◌+ℤ◌ ◌*ℤ◌
port_sum one two h k = ground arith

port_of_parts-format_nat :
    (one two : ℕ)
    → one < 256
    → two < 256
    → port_of_parts (format_nat one) (format_nat two) ≡ pos (one * 256 + two)
unfolding port_of_parts
port_of_parts-format_nat one two h k =
    rw (parse_int-format_nat one (omega arith), parse_int-format_nat two (omega arith))
      (port_sum one two h k)

range-ne : (low high : Bytes) → bytes_eq (low ++ b'-' ∷ high) [] ≡ false
unfolding bytes_eq
range-ne [] high = refl
range-ne (c ∷ low) high = refl

module _ {W : Type 0} (env : Env W) (s : Session W) where
  range-drawn :
      (low n : ℕ)
      → low + suc n < 2 ^ 16
      → port_in_range env (format_nat low ∷ format_nat (low + suc n) ∷ []) s
        ≡ done
            (wrap64 (pos low +ℤ pos (env.intn (suc n) s.world).0))
            (record s { world = (env.intn (suc n) s.world).1 })
  unfolding port_in_range draw_port
  range-drawn low n h =
      rw
        (
          trim_space-digits (format_nat low) (format_nat-IsDigit low),
          trim_space-digits (format_nat (low + suc n)) (format_nat-IsDigit (low + suc n)),
          parse_int-format_nat low (omega arith),
          parse_int-format_nat (low + suc n) (omega arith),
          difference low (suc n) h,
        )
        refl

  -- With the option PassivePorts "low-high", for numbers low < high < 2 ^ 16, and a random number below
  -- its bound, `PassivePort` draws one number and returns a port from low on and below high: the upper
  -- end of the range is never used.
  pub passive_port_range :
      (low n : ℕ)
      → low + suc n < 2 ^ 16
      → s.server.passive_ports ≡ format_nat low ++ b'-' ∷ format_nat (low + suc n)
      → (env.intn (suc n) s.world).0 < suc n
      → (port : ℕ) × (passive_port env s
          ≡ done (pos port) (record s { world = (env.intn (suc n) s.world).1 }))
        × (low ≤ port)
        × (port < low + suc n)
  unfolding passive_port
  passive_port_range low n h e k = (
    low + (env.intn (suc n) s.world).0,
    ap
          (λ ports.
            (if bytes_eq ports [] then pure (pos 0) else port_in_range env (split ports b'-')) s)
          e
        ∙ rw (range-ne (format_nat low) (format_nat (low + suc n)), split-range low (low + suc n))
            (range-drawn low n h
              ∙ ap (λ p. done p (record s { world = (env.intn (suc n) s.world).1 }))
                  (sum low (env.intn (suc n) s.world).0 (omega arith))),
    omega arith,
    omega arith,
  )

split-port :
    (a b c d : Bytes) (one two : ℕ)
    → Lacks b',' a
    → Lacks b',' b
    → Lacks b',' c
    → Lacks b',' d
    → split
        (a
          ++ b','
            ∷ (b ++ b',' ∷ (c ++ b',' ∷ (d ++ b',' ∷ (format_nat one ++ b',' ∷ format_nat two)))))
        b','
      ≡ a ∷ b ∷ c ∷ d ∷ format_nat one ∷ format_nat two ∷ []
split-port a b c d one two ha hb hc hd =
    rw
      (
        split-append a
            (b ++ b',' ∷ (c ++ b',' ∷ (d ++ b',' ∷ (format_nat one ++ b',' ∷ format_nat two)))) b','
            ha,
        split-append b (c ++ b',' ∷ (d ++ b',' ∷ (format_nat one ++ b',' ∷ format_nat two))) b','
            hb,
        split-append c (d ++ b',' ∷ (format_nat one ++ b',' ∷ format_nat two)) b',' hc,
        split-append d (format_nat one ++ b',' ∷ format_nat two) b',' hd,
        split-append (format_nat one) (format_nat two) b','
            (digits-Lacks b',' (format_nat one) (omega arith) (format_nat-IsDigit one)),
        split_lacking (format_nat two) b','
            (digits-Lacks b',' (format_nat two) (omega arith) (format_nat-IsDigit two)),
      )
      refl

-- The state behind a PORT to a host and a port, by what the dialling came to.
abbrev pub dialled : {W : Type 0} → Session W → Bytes → ℤ → W → Result ℕ → Session W
dialled s host port w (ok h) =
    let message = codes "Connection established (" ++ (format_int port ++ codes ")") in
    let socket : Socket = record {
      transport = tcp h;
      host = host;
      port = port;
      passive = false;
      secure = false;
    } in
    record {
      conn = record s.conn { data_conn = some socket };
      world = w;
      trace =
          wrote (single 200 message)
          ∷ print_response_event s.session_id 200 message
          ∷ opened socket
          ∷ print_event s.session_id
              (codes "Opening active data connection to " ++ join_host_port host (format_int port))
          ∷ s.trace;
    }
dialled s host port w (err e) = record {
  conn = s.conn;
  world = w;
  trace =
      wrote (single 425 (codes "Data connection failed"))
      ∷ print_response_event s.session_id 425 (codes "Data connection failed")
      ∷ print_event s.session_id e
      ∷ print_event s.session_id
          (codes "Opening active data connection to " ++ join_host_port host (format_int port))
      ∷ s.trace;
}

module _ {W : Type 0} (env : Env W) where
  active_dialled :
      (host : Bytes) (port : ℤ) (s : Session W) (r : Result ℕ)
      → (env.dial (join_host_port host (format_int port)) s.world).0 ≡ r
      → (new_active_socket env host port >>= answer_active port) s
        ≡ done tt
            (dialled s host port (env.dial (join_host_port host (format_int port)) s.world).1 r)
  unfolding new_active_socket answer_active data_connection_failed write_message
  active_dialled host port s (ok h) e = rw e refl
  active_dialled host port s (err x) e = rw e refl

  -- PORT with four parts of an address, none with a comma, and with two bytes in decimal dials that
  -- address once, at the port that the two bytes make. If that gives a connection, the connection is the
  -- new data connection, active and without TLS, and 200 is replied; if it gives an error, the error is
  -- logged, 425 is replied, and the data connection is as it was.
  pub port_connects :
      (a b c d : Bytes) (one two : ℕ) (s : Session W) (r : Result ℕ)
      → Lacks b',' a
      → Lacks b',' b
      → Lacks b',' c
      → Lacks b',' d
      → one < 256
      → two < 256
      → (env.dial
          (join_host_port
            (a ++ b'.' ∷ (b ++ b'.' ∷ (c ++ b'.' ∷ d)))
            (format_int (pos (one * 256 + two))))
          s.world).0
        ≡ r
      → execute_port env
          (a
            ++ b','
              ∷ (b ++ b',' ∷ (c ++ b',' ∷ (d ++ b',' ∷ (format_nat one ++ b',' ∷ format_nat two)))))
          s
        ≡ done tt (
            dialled s
              (a ++ b'.' ∷ (b ++ b'.' ∷ (c ++ b'.' ∷ d)))
              (pos (one * 256 + two))
              (env.dial
                (join_host_port
                  (a ++ b'.' ∷ (b ++ b'.' ∷ (c ++ b'.' ∷ d)))
                  (format_int (pos (one * 256 + two))))
                s.world).1
              r)
  unfolding execute_port connect_port
  port_connects a b c d one two s r ha hb hc hd h k e =
      ap (λ parts. connect_port env parts s) (split-port a b c d one two ha hb hc hd)
      ∙ (ap
            (λ port.
              (new_active_socket env (a ++ b'.' ∷ (b ++ b'.' ∷ (c ++ b'.' ∷ d))) port
                  >>= answer_active port)
                s)
            (port_of_parts-format_nat one two h k)
          ∙ active_dialled (a ++ b'.' ∷ (b ++ b'.' ∷ (c ++ b'.' ∷ d))) (pos (one * 256 + two)) s r
              e)
