-- ===== src/Mq/Sender.antt =====
-- send-log-entry.cpp: the sockets of a sender, and the packets that it sends.
use wacs.Prelude.{
  ℕ, zero, suc, ℤ, pos, not, Option, none, some, [], ◌∷◌, ◌++◌, map, eq_ℤ, if◌then◌else◌, ◌^◌, ◌-◌,
}
use wacs.Layout.{Bytes, LogEntry, le_bytes, from_le, byte_at}
use wacs.LogEntries.{hton_log_entry}
use wacs.ErrorCodes.{errcode_nn_connect}
use wacs.Mq.{Nn, negative, af_sp, nn_bus, nn_sol_socket, nn_linger}

-- A `LogEntry` in memory, without padding.
unfoldable pub log_entry_bytes : LogEntry → Bytes
unfolding le_bytes
log_entry_bytes e = le_bytes 2 e.device_id ++ (le_bytes 2 e.ssi_signal ++ e.sa)

-- `((LogEntry *) p)`, where `past` is what stands behind the bytes.
unfoldable pub log_entry_at : (Bytes → ℕ → ℕ) → Bytes → LogEntry
unfolding from_le byte_at
log_entry_at past b = record {
  device_id = from_le (map (byte_at past b) (0 ∷ 1 ∷ []));
  ssi_signal = from_le (map (byte_at past b) (2 ∷ 3 ∷ []));
  sa = map (byte_at past b) (4 ∷ 5 ∷ 6 ∷ 7 ∷ 8 ∷ 9 ∷ []);
}

module _ (N : Nn) where
  -- openSocketLog: the code, the socket and the end point. The second test of the end point never
  -- succeeds.
  unfoldable pub open_socket_log : Bytes → N.State → ℤ × Option (ℤ × ℤ) × N.State
  open_socket_log message_url s =
      let (h, s1) = N.socket af_sp nn_bus s in
      if negative h
      then (errcode_nn_connect, none, s1)
      else let (_, s2) = N.setsockopt h nn_sol_socket nn_linger (le_bytes 4 (2 ^ 32 - 1)) s1 in
        let (e, s3) = N.connect h message_url s2 in
        if negative e then (errcode_nn_connect, none, s3) else (pos 0, some (h, e), N.poll h 100 s3)

  -- closeSocketLog
  unfoldable pub close_socket_log : ℤ → ℤ → N.State → ℤ × N.State
  close_socket_log h e s = let (r, s1) = N.shutdown h e s in let (_, s2) = N.close h s1 in (r, s2)

  -- The loop of sendLogEntrySocket: what nn_send answers is only logged.
  unfoldable pub send_packets : ℤ → Bytes → ℕ → N.State → N.State
  send_packets h packet zero s = s
  send_packets h packet (suc n) s = send_packets h packet n (N.send h packet s).1

  -- sendLogEntrySocket; a negative number of repeats sends nothing, as 0 does.
  unfoldable pub send_log_entry_socket : ℤ → LogEntry → ℕ → N.State → ℤ × N.State
  unfolding send_packets hton_log_entry log_entry_bytes
  send_log_entry_socket h value repeats s =
      (pos 0, N.poll h 100 (send_packets h (log_entry_bytes (hton_log_entry value)) repeats s))

  -- sendLogEntry
  unfoldable pub send_log_entry : Bytes → LogEntry → ℕ → N.State → ℤ × N.State
  unfolding open_socket_log send_log_entry_socket close_socket_log
  send_log_entry message_url value repeats s =
      let (r, o, s1) = open_socket_log message_url s in
      if not (eq_ℤ r (pos 0)) then (r, s1) else elim o [
        | none ↦ (r, s1)
        | some (h, e) ↦ close_socket_log h e (send_log_entry_socket h value repeats s1).1
      ]
