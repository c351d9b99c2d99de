-- ===== src/ErrorCodes/Descriptions.antt =====
-- getErrorDescription of errorcodes.cpp. A message is named as its macro is.
use wacs.Prelude.{◌≡◌, ◌⊎◌, ℤ, Option, none, some, List, [], ◌∷◌, eq_ℤ, if◌then◌else◌}
use wacs.ErrorCodes.{
  errcode_command, errcode_config, errcode_exec, errcode_fork, errcode_get_addrinfo,
  errcode_lmdb_close, errcode_lmdb_get, errcode_lmdb_open, errcode_lmdb_put, errcode_lmdb_txn_begin,
  errcode_lmdb_txn_commit, errcode_nn_accept, errcode_nn_bind, errcode_nn_connect,
  errcode_nn_free_msg, errcode_nn_recv, errcode_nn_send, errcode_nn_set_socket_option,
  errcode_nn_shutdown, errcode_nn_socket, errcode_nn_subscribe, errcode_no_config,
  errcode_no_memory, errcode_not_implemented, errcode_parse_command, errcode_socket_bind,
  errcode_socket_connect, errcode_socket_create, errcode_socket_listen, errcode_socket_read,
  errcode_socket_send, errcode_socket_set_options, errcode_socket_write, errcode_stop,
}

pub data Message : Type 0 where
  err_command err_parse_command err_lmdb_txn_begin err_lmdb_txn_commit err_lmdb_open err_lmdb_put
        err_lmdb_get err_nn_socket err_nn_connect err_nn_bind err_nn_subscribe err_nn_shutdown
        err_nn_recv err_nn_send err_nn_set_socket_option err_nn_free_msg err_stop err_no_config
        err_no_memory err_socket_send err_not_implemented err_get_addrinfo err_socket_create
        err_socket_set_options err_socket_bind err_socket_connect err_socket_listen err_socket_read
        err_socket_write err_nn_accept err_fork err_exec err_config :
      Message

-- The cases of the switch; ERR_OK and every other code have the empty text.
abbrev cases : List (ℤ × Message)
cases =
    (errcode_command, err_command)
    ∷ (errcode_parse_command, err_parse_command)
    ∷ (errcode_lmdb_txn_begin, err_lmdb_txn_begin)
    ∷ (errcode_lmdb_txn_commit, err_lmdb_txn_commit)
    ∷ (errcode_lmdb_open, err_lmdb_open)
    ∷ (errcode_lmdb_close, err_lmdb_open)
    ∷ (errcode_lmdb_put, err_lmdb_put)
    ∷ (errcode_lmdb_get, err_lmdb_get)
    ∷ (errcode_nn_socket, err_nn_socket)
    ∷ (errcode_nn_connect, err_nn_connect)
    ∷ (errcode_nn_bind, err_nn_bind)
    ∷ (errcode_nn_subscribe, err_nn_subscribe)
    ∷ (errcode_nn_shutdown, err_nn_shutdown)
    ∷ (errcode_nn_recv, err_nn_recv)
    ∷ (errcode_nn_send, err_nn_send)
    ∷ (errcode_nn_set_socket_option, err_nn_set_socket_option)
    ∷ (errcode_nn_free_msg, err_nn_free_msg)
    ∷ (errcode_stop, err_stop)
    ∷ (errcode_no_config, err_no_config)
    ∷ (errcode_no_memory, err_no_memory)
    ∷ (errcode_socket_send, err_socket_send)
    ∷ (errcode_not_implemented, err_not_implemented)
    ∷ (errcode_get_addrinfo, err_get_addrinfo)
    ∷ (errcode_socket_create, err_socket_create)
    ∷ (errcode_socket_set_options, err_socket_set_options)
    ∷ (errcode_socket_bind, err_socket_bind)
    ∷ (errcode_socket_connect, err_socket_connect)
    ∷ (errcode_socket_listen, err_socket_listen)
    ∷ (errcode_socket_read, err_socket_read)
    ∷ (errcode_socket_write, err_socket_write)
    ∷ (errcode_nn_accept, err_nn_accept)
    ∷ (errcode_fork, err_fork)
    ∷ (errcode_exec, err_exec)
    ∷ (errcode_config, err_config)
    ∷ []

unfoldable pub in_cases : ℤ → List (ℤ × Message) → Option Message
in_cases c [] = none
in_cases c ((k, m) ∷ rest) = let later = in_cases c rest in if eq_ℤ c k then some m else later

unfoldable pub get_error_description : ℤ → Option Message
unfolding in_cases
get_error_description c = in_cases c cases

-- The code that a message is for.
unfoldable pub code_of : Message → ℤ
code_of err_command = errcode_command
code_of err_parse_command = errcode_parse_command
code_of err_lmdb_txn_begin = errcode_lmdb_txn_begin
code_of err_lmdb_txn_commit = errcode_lmdb_txn_commit
code_of err_lmdb_open = errcode_lmdb_open
code_of err_lmdb_put = errcode_lmdb_put
code_of err_lmdb_get = errcode_lmdb_get
code_of err_nn_socket = errcode_nn_socket
code_of err_nn_connect = errcode_nn_connect
code_of err_nn_bind = errcode_nn_bind
code_of err_nn_subscribe = errcode_nn_subscribe
code_of err_nn_shutdown = errcode_nn_shutdown
code_of err_nn_recv = errcode_nn_recv
code_of err_nn_send = errcode_nn_send
code_of err_nn_set_socket_option = errcode_nn_set_socket_option
code_of err_nn_free_msg = errcode_nn_free_msg
code_of err_stop = errcode_stop
code_of err_no_config = errcode_no_config
code_of err_no_memory = errcode_no_memory
code_of err_socket_send = errcode_socket_send
code_of err_not_implemented = errcode_not_implemented
code_of err_get_addrinfo = errcode_get_addrinfo
code_of err_socket_create = errcode_socket_create
code_of err_socket_set_options = errcode_socket_set_options
code_of err_socket_bind = errcode_socket_bind
code_of err_socket_connect = errcode_socket_connect
code_of err_socket_listen = errcode_socket_listen
code_of err_socket_read = errcode_socket_read
code_of err_socket_write = errcode_socket_write
code_of err_nn_accept = errcode_nn_accept
code_of err_fork = errcode_fork
code_of err_exec = errcode_exec
code_of err_config = errcode_config

-- The code is the one that the message is for, or ERRCODE_LMDB_CLOSE with the message of a failure
-- to open.
abbrev IsFor : ℤ × Message → Type 0
IsFor x = (x.0 ≡ code_of x.1) ⊎ ((x.0 ≡ errcode_lmdb_close) × (x.1 ≡ err_lmdb_open))
