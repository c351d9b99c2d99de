-- ===== src/Tests/Queue.antt =====
-- The message queue and the writer at concrete inputs, over a library that keeps messages in memory.
use wacs.Prelude.{
  ℕ, ◌≡◌, ◌≢◌, ◌↔◌, ◌≤◌, refl, true, false, ℤ, pos, negsuc, some, List, [], ◌∷◌, ◌++◌, length,
  replicate, arith,
}
use wacs.Layout.{Bytes, LogEntry}
use wacs.LogEntries.{hton_log_entry, ntoh_log_entry}
use wacs.Mq.{Nn, negative}
use wacs.Mq.Nano.{
  Nano, new, socket, connect, setsockoption, recv_msg, recv_string, nano_subscriber, nano_pub_sub,
}
use wacs.Mq.Sender.{log_entry_bytes, log_entry_at, send_log_entry_socket}
use wacs.Mq.Results.{SetsErrno, subscribes, nano_subscriber-error, recv_string-topic}
use wacs.Mq.Sent.{Accepts, send_log_entry_socket-bounds, log_entry_at-sent}
use wacs.Tests.Setup.{mac1, past}

-- The messages that wait, the messages that were sent, and errno.
pub record Loop : Type 0 where
  pub waiting : List Bytes
  pub posted : List Bytes
  pub code : ℤ

-- 110 is ETIMEDOUT.
unfoldable pub take_message : Loop → ℤ × Bytes × Loop
take_message l = elim l.waiting [
  | [] ↦ (negsuc 0, [], record l { code = pos 110 })
  | m ∷ ms ↦ (pos (length m), m, record l { waiting = ms })
]

unfoldable pub loop_nn : Nn
unfolding take_message
loop_nn = record {
  State = Loop;
  errno = λ l. l.code;
  socket = λ f p l. (pos 3, l);
  connect = λ h a l. (pos 1, l);
  bind = λ h a l. (pos 1, l);
  getsockopt = λ h level o l. (pos 0, [], l);
  setsockopt = λ h level o v l. (pos 0, l);
  send = λ h b l. (pos (length b), record l { posted = l.posted ++ b ∷ [] });
  recv = λ h n l. take_message l;
  poll = λ h t l. l;
  shutdown = λ h e l. (pos 0, l);
  close = λ h l. (pos 0, l);
}

take_message-errno :
    (l : Loop) → negative (take_message l).0 ≡ true → (take_message l).2.code ≢ pos 0
unfolding take_message
take_message-errno l h e = ground (arith, h, e)

loop-SetsErrno : SetsErrno loop_nn
unfolding loop_nn
loop-SetsErrno = record {
  after_connect = λ h a s e. absurd (ground (arith, e));
  after_setsockopt = λ h l o v s e. absurd (ground (arith, e));
}

loop-Accepts : Accepts loop_nn
unfolding loop_nn
loop-Accepts = record {
  sent = λ (l : Loop). l.posted;
  send_sent = λ h b s ok. refl;
  send_failed = λ h b s bad. absurd (ground (arith, bad));
  poll_sent = λ h t s. refl;
}

unfoldable pub loop : List Bytes → loop_nn.State
unfolding loop_nn
loop ms = record { waiting = ms; posted = []; code = pos 0 }

abbrev pub entry : LogEntry
entry = record { device_id = 1; ssi_signal = 65461; sa = mac1 }

abbrev nano : Nano loop_nn
nano = (new (pos 1), loop ((1 ∷ 2 ∷ []) ∷ []))

nano_subscriber-error_example :
    ((nano_subscriber loop_nn [] (1 ∷ []) (loop [])).1.0.error ≡ pos 0) ↔ (
      (negative (subscribes loop_nn loop-SetsErrno (1 ∷ []) (loop [])).0 ≡ false)
      × (negative (connect loop_nn [] (subscribes loop_nn loop-SetsErrno (1 ∷ []) (loop [])).1).0
          ≡ false))
nano_subscriber-error_example = nano_subscriber-error loop_nn loop-SetsErrno [] (1 ∷ []) (loop [])

topic_ok :
    negative
      (recv_msg loop_nn (nano_subscriber loop_nn [] (1 ∷ []) (loop ((1 ∷ 2 ∷ []) ∷ []))).1).0.0
    ≡ false
unfolding recv_msg nano_subscriber nano_pub_sub setsockoption connect socket new loop_nn loop
    take_message
topic_ok = refl

topic_got :
    (recv_msg loop_nn (nano_subscriber loop_nn [] (1 ∷ []) (loop ((1 ∷ 2 ∷ []) ∷ []))).1).0.1
    ≡ (1 ∷ []) ++ 2 ∷ []
unfolding recv_msg nano_subscriber nano_pub_sub setsockoption connect socket new loop_nn loop
    take_message
topic_got = refl

recv_string-topic_example :
    ((recv_string loop_nn (nano_subscriber loop_nn [] (1 ∷ []) (loop ((1 ∷ 2 ∷ []) ∷ []))).1).0
      ≡ some (2 ∷ []))
    × ((recv_string loop_nn
          (nano_subscriber loop_nn [] (1 ∷ []) (loop ((1 ∷ 2 ∷ []) ∷ []))).1).1.0.error
        ≡ pos 0)
recv_string-topic_example =
    recv_string-topic loop_nn [] (1 ∷ []) (2 ∷ []) (loop ((1 ∷ 2 ∷ []) ∷ [])) topic_ok topic_got

send_log_entry_socket-bounds_example :
    ((send_log_entry_socket loop_nn (pos 3) entry 2 (loop [])).0 ≡ pos 0)
    × ((k : ℕ) × (k ≤ 2)
        × (loop-Accepts.sent (send_log_entry_socket loop_nn (pos 3) entry 2 (loop [])).1
            ≡ loop-Accepts.sent (loop []) ++ replicate k (log_entry_bytes (hton_log_entry entry))))
send_log_entry_socket-bounds_example =
    send_log_entry_socket-bounds loop_nn loop-Accepts (pos 3) entry 2 (loop [])

log_entry_at-sent_example :
    ntoh_log_entry (log_entry_at past (log_entry_bytes (hton_log_entry entry))) ≡ entry
log_entry_at-sent_example = log_entry_at-sent past entry (omega arith) (omega arith) refl
