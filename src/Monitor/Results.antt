-- ===== src/Monitor/Results.antt =====
-- What a manager sees of the writer.
use wacs.Prelude.{
  ℕ, ◌≡◌, refl, ap, true, Bool, not, ◌&&◌, Option, none, some, List, [], ◌∷◌, All, pos, ◌/◌, ◌%◌,
  ◌^◌, ℤ,
}
use wacs.Layout.{Bytes, LogEntry}
use wacs.LogEntries.Scan.{mactostr}
use wacs.Db.Query.{bytes_eq}
use wacs.Monitor.{MonitoringParams, Host, put_packet, clear, get_ip, get_database_file_size}
use wacs.Monitor.Objects.{
  Registration, Agent, get, other, integer, octets, can_ronly, snmp_err_noerror, snmp_err_generr,
  Value, handle_databasefilename, handle_ip, handle_port, handle_starttime, handle_requestsperhour,
  handle_lastmac, handle_lastssisignal, handle_totalmac, handle_databasefilesize, handle_memorypeak,
  handle_memorycurrent, handle_errorcount,
}
use wacs.Monitor.Agent.{init_mibs}

-- The parameters without the address, which is looked up when it is asked for.
unfoldable pub without_ip : MonitoringParams → MonitoringParams
without_ip c = record c { ip = [] }

-- A registration for reading: a GET succeeds with a value and leaves the parameters but for the
-- address, and any other request is refused without one.
abbrev pub IsReadOnly : Host → MonitoringParams → Registration → Type 0
IsReadOnly h c r =
    (r.access ≡ can_ronly)
    × ((r.handler h get c).0 ≡ snmp_err_noerror)
    × ((v : Value) × ((r.handler h get c).1 ≡ some v))
    × (without_ip (r.handler h get c).2 ≡ without_ip c)
    × (r.handler h other c ≡ (snmp_err_generr, none, c))

-- All objects of the agent are read only: on any host and with any parameters, a GET of each gives a
-- value and changes nothing but the stored address, and any other request gives an error and changes
-- nothing.
pub init_mibs-IsReadOnly :
    (h : Host) (c : MonitoringParams) → All (λ r. IsReadOnly h c r) (init_mibs [])
unfolding init_mibs without_ip handle_databasefilename handle_ip handle_port handle_starttime
    handle_requestsperhour handle_lastmac handle_lastssisignal handle_totalmac
    handle_databasefilesize handle_memorypeak handle_memorycurrent handle_errorcount get_ip
    get_database_file_size
init_mibs-IsReadOnly h c = (
  (refl, refl, (octets c.databasefilename, refl), refl, refl),
  (
    (refl, refl, (octets h.if_ip_address, refl), refl, refl),
    (
      (refl, refl, (integer (pos c.port), refl), refl, refl),
      (
        (refl, refl, (integer (pos c.starttime), refl), refl, refl),
        (
          (refl, refl, (integer c.requestsperhour, refl), refl, refl),
          (
            (refl, refl, (octets c.lastmac, refl), refl, refl),
            (
              (refl, refl, (integer (pos c.lastssisignal), refl), refl, refl),
              (
                (refl, refl, (integer c.totalmac, refl), refl, refl),
                (
                  (
                    refl,
                    refl,
                    (integer (pos (h.file_size c.databasefilename / 1024 % 2 ^ 32)), refl),
                    refl,
                    refl,
                  ),
                  (
                    (refl, refl, (integer (pos (h.peak_rss / 1024 % 2 ^ 32)), refl), refl, refl),
                    (
                      (
                        refl,
                        refl,
                        (integer (pos (h.current_rss / 1024 % 2 ^ 32)), refl),
                        refl,
                        refl,
                      ),
                      ((refl, refl, (integer c.errorcount, refl), refl, refl), tt),
                    ),
                  ),
                ),
              ),
            ),
          ),
        ),
      ),
    ),
  ),
)

-- No registration of the list has the identifier.
unfoldable pub absent : List ℕ → Agent → Bool
unfolding bytes_eq
absent o [] = true
absent o (r ∷ rs) = not (bytes_eq o r.oid) && absent o rs

unfoldable pub distinct : Agent → Bool
unfolding absent
distinct [] = true
distinct (r ∷ rs) = absent r.oid rs && distinct rs

init_mibs-distinct : distinct (init_mibs []) ≡ true
unfolding init_mibs distinct absent bytes_eq
init_mibs-distinct = refl

-- What happens to the parameters while the writer runs: a packet is put, or the address is asked for.
pub data Use : Type 0 where
  packet : Option LogEntry → Use
  ip_request : Host → Use

unfoldable pub used : List Use → MonitoringParams → MonitoringParams
unfolding put_packet get_ip
used [] c = c
used (packet e ∷ us) c = used us (put_packet e c)
used (ip_request h ∷ us) c = used us (get_ip h c)

-- The counters that no code counts.
abbrev counters : MonitoringParams → ℤ × ℤ × ℤ
counters c = (c.requestsperhour, c.totalmac, c.errorcount)

used-counters : (us : List Use) (c : MonitoringParams) → counters (used us c) ≡ counters c
unfolding used put_packet get_ip
used-counters [] c = refl
used-counters (packet none ∷ us) c = used-counters us c
used-counters (packet (some e) ∷ us) c = used-counters us (put_packet (some e) c)
used-counters (ip_request h ∷ us) c = used-counters us (get_ip h c)

-- However many packets are put after a clear, a GET of the requests per hour, of the number of
-- addresses or of the number of errors answers 0: nothing counts them.
pub counters-stay :
    (h : Host) (now : ℕ) (us : List Use) (c : MonitoringParams)
    → ((handle_requestsperhour h get (used us (clear now c))).1 ≡ some (integer (pos 0)))
      × ((handle_totalmac h get (used us (clear now c))).1 ≡ some (integer (pos 0)))
      × ((handle_errorcount h get (used us (clear now c))).1 ≡ some (integer (pos 0)))
unfolding handle_requestsperhour handle_totalmac handle_errorcount clear
counters-stay h now us c =
    let kept = used-counters us (clear now c) in
    (
      ap (λ k. some (integer k.0)) kept,
      ap (λ k. some (integer k.1)) kept,
      ap (λ k. some (integer k.2)) kept,
    )

-- The packet that was put last.
unfoldable pub last_packet : Option LogEntry → List Use → Option LogEntry
last_packet l [] = l
last_packet l (packet none ∷ us) = last_packet l us
last_packet l (packet (some e) ∷ us) = last_packet (some e) us
last_packet l (ip_request h ∷ us) = last_packet l us

unfoldable pub shown_mac : Option LogEntry → Bytes
unfolding mactostr
shown_mac none = []
shown_mac (some e) = mactostr e.sa

used-lastmac :
    (us : List Use) (l : Option LogEntry) (c : MonitoringParams)
    → c.lastmac ≡ shown_mac l
    → (used us c).lastmac ≡ shown_mac (last_packet l us)
unfolding used last_packet put_packet get_ip shown_mac
used-lastmac [] l c e = e
used-lastmac (packet none ∷ us) l c e = used-lastmac us l c e
used-lastmac (packet (some p) ∷ us) l c e = used-lastmac us (some p) (put_packet (some p) c) refl
used-lastmac (ip_request h ∷ us) l c e = used-lastmac us l (get_ip h c) e

-- After a clear and any packets and requests, a GET of the last address answers the address of the
-- packet that was put last, as text, and an empty text before the first packet.
pub handle_lastmac-last :
    (h : Host) (now : ℕ) (us : List Use) (c : MonitoringParams)
    → (handle_lastmac h get (used us (clear now c))).1
      ≡ some (octets (shown_mac (last_packet none us)))
unfolding handle_lastmac clear shown_mac
handle_lastmac-last h now us c = ap (λ m. some (octets m)) (used-lastmac us none (clear now c) refl)
