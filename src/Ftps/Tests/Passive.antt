-- ===== src/Ftps/Tests/Passive.antt =====
-- A passive socket that was connected, and then written to.
use ftps_qftp_server.Prelude.{refl, some, none, false}
use ftps_qftp_server.Prelude.Int.{pos}
use ftps_qftp_server.Driver.{ok}
use ftps_qftp_server.Ftps.PassiveSocket.{
  DataNetwork, PassiveSocket, fresh_socket, IsReached, listens, accepts, writes, end_accept,
  use_conn, use_free, write, read, read_from, close, IsSound, IsAnswered, passive_socket-IsSound,
}
use ftps_qftp_server.Ftps.Tests.{World, bob}

abbrev net : DataNetwork World
net = record {
  accept = λ w. (ok 7, w);
  read_conn = λ c n w. (ok bob, w);
  write_conn = λ c bytes w. (ok (pos 2), w);
  copy_conn = λ c reader w. (ok (pos 2), w);
  close_conn = λ c w. (ok tt, w);
}

abbrev connected : PassiveSocket
connected = record { conn = some 7; err = none; accepting = false; listening = false }

connected-IsReached : IsReached net connected tt
unfolding end_accept write use_conn use_free
connected-IsReached =
    writes connected tt tt bob (ok (pos 2)) (accepts fresh_socket tt (listens tt) refl) refl

passive_socket-IsSound_example :
    IsSound connected
    × (IsAnswered false (read net 3 connected tt)
        × (IsAnswered false (write net bob connected tt)
            × (IsAnswered false (read_from net 5 connected tt)
                × IsAnswered false (close net connected tt))))
passive_socket-IsSound_example = passive_socket-IsSound net connected tt 3 bob 5 connected-IsReached
