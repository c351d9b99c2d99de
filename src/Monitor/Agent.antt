-- ===== src/Monitor/Agent.antt =====
-- The registrations of the objects, and init_mibs.
use wacs.Prelude.{[], ◌∷◌, ◌++◌}
use wacs.Monitor.Objects.{
  Agent, can_ronly, wacs_oid, handle_databasefilename, handle_ip, handle_port, handle_starttime,
  handle_requestsperhour, handle_lastmac, handle_lastssisignal, handle_totalmac,
  handle_databasefilesize, handle_memorypeak, handle_memorycurrent, handle_errorcount,
}

unfoldable pub init_databasefilename : Agent → Agent
unfolding handle_databasefilename
init_databasefilename a =
    a
    ++ (record {
      name =
          b'd' ∷ b'a' ∷ b't' ∷ b'a' ∷ b'b' ∷ b'a' ∷ b's' ∷ b'e' ∷ b'f' ∷ b'i' ∷ b'l' ∷ b'e' ∷ b'n'
          ∷ b'a' ∷ b'm' ∷ b'e' ∷ [];
      handler = handle_databasefilename;
      oid = wacs_oid ++ 1 ∷ 1 ∷ [];
      access = can_ronly;
    })
      ∷ []

unfoldable pub init_ip : Agent → Agent
unfolding handle_ip
init_ip a =
    a
    ++ (record {
      name = b'i' ∷ b'p' ∷ [];
      handler = handle_ip;
      oid = wacs_oid ++ 1 ∷ 2 ∷ [];
      access = can_ronly;
    })
      ∷ []

unfoldable pub init_port : Agent → Agent
unfolding handle_port
init_port a =
    a
    ++ (record {
      name = b'p' ∷ b'o' ∷ b'r' ∷ b't' ∷ [];
      handler = handle_port;
      oid = wacs_oid ++ 1 ∷ 3 ∷ [];
      access = can_ronly;
    })
      ∷ []

unfoldable pub init_starttime : Agent → Agent
unfolding handle_starttime
init_starttime a =
    a
    ++ (record {
      name = b's' ∷ b't' ∷ b'a' ∷ b'r' ∷ b't' ∷ b't' ∷ b'i' ∷ b'm' ∷ b'e' ∷ [];
      handler = handle_starttime;
      oid = wacs_oid ++ 2 ∷ 4 ∷ [];
      access = can_ronly;
    })
      ∷ []

unfoldable pub init_requestsperhour : Agent → Agent
unfolding handle_requestsperhour
init_requestsperhour a =
    a
    ++ (record {
      name =
          b'r' ∷ b'e' ∷ b'q' ∷ b'u' ∷ b'e' ∷ b's' ∷ b't' ∷ b's' ∷ b'p' ∷ b'e' ∷ b'r' ∷ b'h' ∷ b'o'
          ∷ b'u' ∷ b'r' ∷ [];
      handler = handle_requestsperhour;
      oid = wacs_oid ++ 2 ∷ 5 ∷ [];
      access = can_ronly;
    })
      ∷ []

unfoldable pub init_lastmac : Agent → Agent
unfolding handle_lastmac
init_lastmac a =
    a
    ++ (record {
      name = b'l' ∷ b'a' ∷ b's' ∷ b't' ∷ b'm' ∷ b'a' ∷ b'c' ∷ [];
      handler = handle_lastmac;
      oid = wacs_oid ++ 2 ∷ 6 ∷ [];
      access = can_ronly;
    })
      ∷ []

unfoldable pub init_lastssisignal : Agent → Agent
unfolding handle_lastssisignal
init_lastssisignal a =
    a
    ++ (record {
      name =
          b'l' ∷ b'a' ∷ b's' ∷ b't' ∷ b's' ∷ b's' ∷ b'i' ∷ b's' ∷ b'i' ∷ b'g' ∷ b'n' ∷ b'a' ∷ b'l'
          ∷ [];
      handler = handle_lastssisignal;
      oid = wacs_oid ++ 2 ∷ 7 ∷ [];
      access = can_ronly;
    })
      ∷ []

unfoldable pub init_totalmac : Agent → Agent
unfolding handle_totalmac
init_totalmac a =
    a
    ++ (record {
      name = b't' ∷ b'o' ∷ b't' ∷ b'a' ∷ b'l' ∷ b'm' ∷ b'a' ∷ b'c' ∷ [];
      handler = handle_totalmac;
      oid = wacs_oid ++ 2 ∷ 8 ∷ [];
      access = can_ronly;
    })
      ∷ []

unfoldable pub init_databasefilesize : Agent → Agent
unfolding handle_databasefilesize
init_databasefilesize a =
    a
    ++ (record {
      name =
          b'd' ∷ b'a' ∷ b't' ∷ b'a' ∷ b'b' ∷ b'a' ∷ b's' ∷ b'e' ∷ b'f' ∷ b'i' ∷ b'l' ∷ b'e' ∷ b's'
          ∷ b'i' ∷ b'z' ∷ b'e' ∷ [];
      handler = handle_databasefilesize;
      oid = wacs_oid ++ 2 ∷ 9 ∷ [];
      access = can_ronly;
    })
      ∷ []

unfoldable pub init_memorypeak : Agent → Agent
unfolding handle_memorypeak
init_memorypeak a =
    a
    ++ (record {
      name = b'm' ∷ b'e' ∷ b'm' ∷ b'o' ∷ b'r' ∷ b'y' ∷ b'p' ∷ b'e' ∷ b'a' ∷ b'k' ∷ [];
      handler = handle_memorypeak;
      oid = wacs_oid ++ 2 ∷ 10 ∷ [];
      access = can_ronly;
    })
      ∷ []

unfoldable pub init_memorycurrent : Agent → Agent
unfolding handle_memorycurrent
init_memorycurrent a =
    a
    ++ (record {
      name =
          b'm' ∷ b'e' ∷ b'm' ∷ b'o' ∷ b'r' ∷ b'y' ∷ b'c' ∷ b'u' ∷ b'r' ∷ b'r' ∷ b'e' ∷ b'n' ∷ b't'
          ∷ [];
      handler = handle_memorycurrent;
      oid = wacs_oid ++ 2 ∷ 11 ∷ [];
      access = can_ronly;
    })
      ∷ []

unfoldable pub init_errorcount : Agent → Agent
unfolding handle_errorcount
init_errorcount a =
    a
    ++ (record {
      name = b'e' ∷ b'r' ∷ b'r' ∷ b'o' ∷ b'r' ∷ b'c' ∷ b'o' ∷ b'u' ∷ b'n' ∷ b't' ∷ [];
      handler = handle_errorcount;
      oid = wacs_oid ++ 2 ∷ 12 ∷ [];
      access = can_ronly;
    })
      ∷ []

unfoldable pub init_mibs : Agent → Agent
unfolding init_databasefilename init_ip init_port init_starttime init_requestsperhour init_lastmac
    init_lastssisignal init_totalmac init_databasefilesize init_memorypeak init_memorycurrent
    init_errorcount
init_mibs a = init_errorcount (
    init_memorycurrent (
      init_memorypeak (
        init_databasefilesize (
          init_totalmac (
            init_lastssisignal (
              init_lastmac (
                init_requestsperhour
                  (init_starttime (init_port (init_ip (init_databasefilename a)))))))))))
