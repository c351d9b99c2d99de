-- ===== src/Mq/Sent.antt =====
-- What a sender sends, and that a receiver reads the same entry.
use wacs.Prelude.{
  ℕ, suc, zero, ◌^◌, ◌≤◌, ◌<◌, ◌≡◌, refl, ap, ◌∙◌, sym, true, false, ℤ, pos, List, [], ◌∷◌, ◌++◌,
  replicate, length, arith, Bool-cases, inl, inr,
}
use wacs.Layout.{Bytes, LogEntry, swap16, le_bytes, from_le, byte_at}
use wacs.LogEntries.{hton_log_entry, ntoh_log_entry}
use wacs.Mq.{Nn, negative}
use wacs.Mq.Sender.{log_entry_bytes, log_entry_at, send_packets, send_log_entry_socket}

-- The messages that the library has accepted: nn_send that succeeds adds its message, and one that
-- fails adds none, and nn_poll does not either.
pub record Accepts (N : Nn) : Type 1 where
  pub sent : N.State → List Bytes
  pub send_sent :
      (h : ℤ) (b : Bytes) (s : N.State)
      → negative (N.send h b s).0 ≡ false
      → sent (N.send h b s).1 ≡ sent s ++ b ∷ []
  pub send_failed :
      (h : ℤ) (b : Bytes) (s : N.State)
      → negative (N.send h b s).0 ≡ true
      → sent (N.send h b s).1 ≡ sent s
  pub poll_sent : (h : ℤ) (t : ℕ) (s : N.State) → sent (N.poll h t s) ≡ sent s

append_one :
    (ms : List Bytes) (b : Bytes) (k : ℕ)
    → (ms ++ b ∷ []) ++ replicate k b ≡ ms ++ replicate (suc k) b
append_one [] b k = refl
append_one (m ∷ ms) b k = ap (λ t. m ∷ t) (append_one ms b k)

append_none : (ms : List Bytes) → ms ++ [] ≡ ms
append_none [] = refl
append_none (m ∷ ms) = ap (λ t. m ∷ t) (append_none ms)

module _ (N : Nn) (A : Accepts N) (h : ℤ) where
  some_sent :
      (b : Bytes) (n : ℕ) (s : N.State)
      → (k : ℕ) × (k ≤ n) × (A.sent (send_packets N h b n s) ≡ A.sent s ++ replicate k b)
  unfolding send_packets
  some_sent b zero s = (0, omega arith, sym (append_none (A.sent s)))
  some_sent b (suc n) s =
      let (k, few, e) = some_sent b n (N.send h b s).1 in
      elim (Bool-cases (negative (N.send h b s).0)) [
        | inl bad ↦
            (k, omega (arith, few), e ∙ ap (λ ms. ms ++ replicate k b) (A.send_failed h b s bad))
        | inr ok ↦ (
          suc k,
          omega (arith, few),
          e ∙ ap (λ ms. ms ++ replicate k b) (A.send_sent h b s ok) ∙ append_one (A.sent s) b k,
        )
      ]

  all_sent :
      ((b : Bytes) (s : N.State) → negative (N.send h b s).0 ≡ false)
      → (b : Bytes) (n : ℕ) (s : N.State)
      → A.sent (send_packets N h b n s) ≡ A.sent s ++ replicate n b
  unfolding send_packets
  all_sent works b zero s = sym (append_none (A.sent s))
  all_sent works b (suc n) s =
      all_sent works b n (N.send h b s).1
      ∙ ap (λ ms. ms ++ replicate n b) (A.send_sent h b s (works b s))
      ∙ append_one (A.sent s) b n

  -- sendLogEntrySocket answers 0 whatever happens, and at most the asked number of copies of the packet
  -- in the network's byte order has been sent, and nothing else.
  pub send_log_entry_socket-bounds :
      (e : LogEntry) (n : ℕ) (s : N.State)
      → ((send_log_entry_socket N h e n s).0 ≡ pos 0)
        × ((k : ℕ) × (k ≤ n)
            × (A.sent (send_log_entry_socket N h e n s).1
                ≡ A.sent s ++ replicate k (log_entry_bytes (hton_log_entry e))))
  unfolding send_log_entry_socket
  send_log_entry_socket-bounds e n s =
      let (k, few, p) = some_sent (log_entry_bytes (hton_log_entry e)) n s in
      (
        refl,
        (k, few, A.poll_sent h 100 (send_packets N h (log_entry_bytes (hton_log_entry e)) n s) ∙ p),
      )

  -- Where nn_send succeeds, exactly the asked number of copies has been sent.
  pub send_log_entry_socket-sends :
      ((b : Bytes) (s : N.State) → negative (N.send h b s).0 ≡ false)
      → (e : LogEntry) (n : ℕ) (s : N.State)
      → A.sent (send_log_entry_socket N h e n s).1
        ≡ A.sent s ++ replicate n (log_entry_bytes (hton_log_entry e))
  unfolding send_log_entry_socket
  send_log_entry_socket-sends works e n s =
      let b = log_entry_bytes (hton_log_entry e) in
      A.poll_sent h 100 (send_packets N h b n s) ∙ all_sent works b n s

there_and_back : (x : ℕ) → x < 2 ^ 16 → swap16 (from_le (le_bytes 2 (swap16 x))) ≡ x
unfolding swap16 from_le le_bytes
there_and_back x small = omega (arith, small)

sent_at :
    (past : Bytes → ℕ → ℕ) (device signal : ℕ) (sa : Bytes)
    → device < 2 ^ 16
    → signal < 2 ^ 16
    → length sa ≡ 6
    → ntoh_log_entry
        (log_entry_at past (le_bytes 2 (swap16 device) ++ (le_bytes 2 (swap16 signal) ++ sa)))
      ≡ record { device_id = device; ssi_signal = signal; sa = sa }
unfolding ntoh_log_entry log_entry_at byte_at le_bytes
sent_at past device signal (a ∷ b ∷ c ∷ d ∷ e ∷ f ∷ []) small_device small_signal six = λ i.
    record {
      device_id = there_and_back device small_device i;
      ssi_signal = there_and_back signal small_signal i;
      sa = a ∷ b ∷ c ∷ d ∷ e ∷ f ∷ [];
    }
sent_at past device signal _ small_device small_signal six = absurd (omega (arith, six))

-- The entry whose packet is sent is what a receiver has after it has swapped the bytes back, for
-- fields in the range of their types and an address of six bytes, whatever memory holds.
pub log_entry_at-sent :
    (past : Bytes → ℕ → ℕ) (e : LogEntry)
    → e.device_id < 2 ^ 16
    → e.ssi_signal < 2 ^ 16
    → length e.sa ≡ 6
    → ntoh_log_entry (log_entry_at past (log_entry_bytes (hton_log_entry e))) ≡ e
unfolding log_entry_bytes hton_log_entry
log_entry_at-sent past e small_device small_signal six =
    sent_at past e.device_id e.ssi_signal e.sa small_device small_signal six

swap16-lt : (x : ℕ) → swap16 x < 2 ^ 16
unfolding swap16
swap16-lt x = omega arith

two_bytes : (x : ℕ) → x < 2 ^ 16 → from_le (le_bytes 2 x) ≡ x
unfolding from_le le_bytes
two_bytes x small = omega (arith, small)

bytes_at :
    (past : Bytes → ℕ → ℕ) (device signal : ℕ) (sa : Bytes)
    → device < 2 ^ 16
    → signal < 2 ^ 16
    → length sa ≡ 6
    → log_entry_at past (le_bytes 2 device ++ (le_bytes 2 signal ++ sa))
      ≡ record { device_id = device; ssi_signal = signal; sa = sa }
unfolding log_entry_at byte_at le_bytes
bytes_at past device signal (a ∷ b ∷ c ∷ d ∷ e ∷ f ∷ []) small_device small_signal six = λ i.
    record {
      device_id = two_bytes device small_device i;
      ssi_signal = two_bytes signal small_signal i;
      sa = a ∷ b ∷ c ∷ d ∷ e ∷ f ∷ [];
    }
bytes_at past device signal _ small_device small_signal six = absurd (omega (arith, six))

-- The packet of an entry is read from its bytes.
pub packet_at :
    (past : Bytes → ℕ → ℕ) (e : LogEntry)
    → length e.sa ≡ 6
    → log_entry_at past (log_entry_bytes (hton_log_entry e)) ≡ hton_log_entry e
unfolding log_entry_bytes hton_log_entry
packet_at past e six =
    bytes_at past (swap16 e.device_id) (swap16 e.ssi_signal) e.sa (swap16-lt e.device_id)
      (swap16-lt e.ssi_signal) six
