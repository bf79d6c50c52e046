-- ===== src/Tests/Calling.antt =====
-- A client that sends two requests and loses the connection.
use sftp_go.Base.{◌≡◌, ◌+◌, ◌-◌, ◌^◌, refl, true, arith, List, [], ◌∷◌}
use sftp_go.Wire.{unmarshal_uint32, unmarshal_uint32_safe}
use sftp_go.Server.Errors.{eof}
use sftp_go.ClientConn.{
  packet, failed, connection_lost, new_client_conn, find_channel, set_channel, delete_channel,
  deliver, put_channel, get_channel, broadcast_all, broadcast_err, dispatch_request, deliver_to,
  receive, Happening, dispatches, receives, disconnects, happen, happen_all, take_ids,
}
use sftp_go.ClientConn.Table.{got, waiting, Distinct, take_ids-Distinct}
use sftp_go.ClientConn.Once.{happen_all-got, happen_all-got_closed}

-- The second request is answered, the first is not, and the third comes too late.
abbrev lost : List Happening
lost =
    dispatches 10 1
    ∷ dispatches 20 2
    ∷ receives 101 (0 ∷ 0 ∷ 0 ∷ 2 ∷ 9 ∷ [])
    ∷ disconnects eof
    ∷ dispatches 30 3
    ∷ []

happen_all-got_example :
    got 10 (happen_all lost new_client_conn).sent_results
      + waiting 10 (happen_all lost new_client_conn).inflight
    ≡ 1
happen_all-got_example = happen_all-got lost 10 (omega arith)

results :
    (happen_all lost new_client_conn).sent_results
    ≡ (20, packet 101 (0 ∷ 0 ∷ 0 ∷ 2 ∷ 9 ∷ []))
      ∷ (10, failed connection_lost)
      ∷ (30, failed connection_lost)
      ∷ []
unfolding happen_all happen dispatch_request put_channel set_channel receive unmarshal_uint32_safe
    unmarshal_uint32 deliver_to get_channel find_channel delete_channel deliver broadcast_err
    broadcast_all new_client_conn
results = refl

is_over : (happen_all lost new_client_conn).is_closed ≡ true
unfolding happen_all happen dispatch_request put_channel set_channel receive unmarshal_uint32_safe
    unmarshal_uint32 deliver_to get_channel find_channel delete_channel deliver broadcast_err
    broadcast_all new_client_conn
is_over = refl

happen_all-got_closed_example : got 30 (happen_all lost new_client_conn).sent_results ≡ 1
happen_all-got_closed_example = happen_all-got_closed lost 30 (omega arith) is_over

take_ids-Distinct_example : Distinct (take_ids 3 (2 ^ 32 - 2))
take_ids-Distinct_example = take_ids-Distinct 3 (2 ^ 32 - 2) (omega arith)
