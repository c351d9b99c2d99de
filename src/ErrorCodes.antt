-- ===== src/ErrorCodes.antt =====
-- The result codes of errorcodes.h. `Descriptions` has their messages.
pub mod Descriptions
use wacs.Prelude.{ℤ, pos, negsuc}

abbrev pub err_ok : ℤ
err_ok = pos 0

abbrev pub errcode_wrong_param : ℤ
errcode_wrong_param = negsuc 2

abbrev pub errcode_lmdb_txn_begin : ℤ
errcode_lmdb_txn_begin = negsuc 9

abbrev pub errcode_lmdb_txn_commit : ℤ
errcode_lmdb_txn_commit = negsuc 10

abbrev pub errcode_lmdb_open : ℤ
errcode_lmdb_open = negsuc 11

abbrev pub errcode_lmdb_close : ℤ
errcode_lmdb_close = negsuc 12

abbrev pub errcode_lmdb_put : ℤ
errcode_lmdb_put = negsuc 13

abbrev pub errcode_lmdb_put_probe : ℤ
errcode_lmdb_put_probe = negsuc 14

abbrev pub errcode_no_memory : ℤ
errcode_no_memory = negsuc 41

abbrev pub errcode_not_implemented : ℤ
errcode_not_implemented = negsuc 42

abbrev pub errcode_nn_connect : ℤ
errcode_nn_connect = negsuc 20

abbrev pub errcode_nn_bind : ℤ
errcode_nn_bind = negsuc 21

abbrev pub errcode_nn_shutdown : ℤ
errcode_nn_shutdown = negsuc 23

abbrev pub errcode_no_config : ℤ
errcode_no_config = negsuc 40

abbrev pub errcode_database_no_connection : ℤ
errcode_database_no_connection = negsuc 79

abbrev pub errcode_database_statement_fail : ℤ
errcode_database_statement_fail = negsuc 80

abbrev pub errcode_command : ℤ
errcode_command = negsuc 0

abbrev pub errcode_parse_command : ℤ
errcode_parse_command = negsuc 1

abbrev pub errcode_lmdb_get : ℤ
errcode_lmdb_get = negsuc 15

abbrev pub errcode_nn_socket : ℤ
errcode_nn_socket = negsuc 19

abbrev pub errcode_nn_subscribe : ℤ
errcode_nn_subscribe = negsuc 22

abbrev pub errcode_nn_recv : ℤ
errcode_nn_recv = negsuc 24

abbrev pub errcode_nn_send : ℤ
errcode_nn_send = negsuc 25

abbrev pub errcode_nn_set_socket_option : ℤ
errcode_nn_set_socket_option = negsuc 26

abbrev pub errcode_nn_free_msg : ℤ
errcode_nn_free_msg = negsuc 27

abbrev pub errcode_nn_accept : ℤ
errcode_nn_accept = negsuc 28

abbrev pub errcode_stop : ℤ
errcode_stop = negsuc 39

abbrev pub errcode_socket_send : ℤ
errcode_socket_send = negsuc 49

abbrev pub errcode_get_addrinfo : ℤ
errcode_get_addrinfo = negsuc 50

abbrev pub errcode_socket_create : ℤ
errcode_socket_create = negsuc 51

abbrev pub errcode_socket_set_options : ℤ
errcode_socket_set_options = negsuc 52

abbrev pub errcode_socket_bind : ℤ
errcode_socket_bind = negsuc 53

abbrev pub errcode_socket_connect : ℤ
errcode_socket_connect = negsuc 54

abbrev pub errcode_socket_listen : ℤ
errcode_socket_listen = negsuc 55

abbrev pub errcode_socket_read : ℤ
errcode_socket_read = negsuc 56

abbrev pub errcode_socket_write : ℤ
errcode_socket_write = negsuc 57

abbrev pub errcode_fork : ℤ
errcode_fork = negsuc 59

abbrev pub errcode_exec : ℤ
errcode_exec = negsuc 60

abbrev pub errcode_config : ℤ
errcode_config = negsuc 61

abbrev pub errcode_wsa_error : ℤ
errcode_wsa_error = negsuc 62

abbrev pub errcode_no_nobile_subscribers : ℤ
errcode_no_nobile_subscribers = negsuc 69
