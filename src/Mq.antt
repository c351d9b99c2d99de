-- ===== src/Mq.antt =====
-- The message queue: NanoMessage.cpp, the wrapper of the nanomsg library, and send-log-entry.cpp. The
-- library is a parameter: its state and one operation for each function that the code calls, with
-- the result of the call. What a pointer is filled with is beside the result.
pub mod Nano
pub mod Sender
pub mod Results
pub mod Sent
use wacs.Prelude.{ℕ, ℤ, pos, negsuc, Option, List, [], ltb_ℤ, Bool}
use wacs.Layout.{Bytes}

pub record Nn : Type 1 where
  pub State : Type 0
  pub errno : State → ℤ
  pub socket : ℤ → ℤ → State → ℤ × State
  pub connect : ℤ → Bytes → State → ℤ × State
  pub bind : ℤ → Bytes → State → ℤ × State
  pub getsockopt : ℤ → ℤ → ℤ → State → ℤ × Bytes × State
  pub setsockopt : ℤ → ℤ → ℤ → Bytes → State → ℤ × State
  pub send : ℤ → Bytes → State → ℤ × State
  -- At most so many bytes, or a whole message for NN_MSG.
  pub recv : ℤ → Option ℕ → State → ℤ × Bytes × State
  pub poll : ℤ → ℕ → State → State
  pub shutdown : ℤ → ℤ → State → ℤ × State
  pub close : ℤ → State → ℤ × State

-- `r < 0`
abbrev pub negative : ℤ → Bool
negative r = ltb_ℤ r (pos 0)

-- AF_SP, NN_PUB and NN_SUB, NN_SUB_SUBSCRIBE and NN_BUS
abbrev pub af_sp : ℤ
af_sp = pos 1

abbrev pub nn_pub : ℤ
nn_pub = pos 32

abbrev pub nn_sub : ℤ
nn_sub = pos 33

abbrev pub nn_sub_subscribe : ℤ
nn_sub_subscribe = pos 1

abbrev pub nn_bus : ℤ
nn_bus = pos 112

-- NN_SOL_SOCKET is 0, NN_LINGER is 1 and NN_RCVTIMEO is 5.
abbrev pub nn_sol_socket : ℤ
nn_sol_socket = pos 0

abbrev pub nn_linger : ℤ
nn_linger = pos 1

abbrev pub nn_rcvtimeo : ℤ
nn_rcvtimeo = pos 5

-- The numbers of Linux; ETERM is the library's.
abbrev pub eintr : ℤ
eintr = pos 4

abbrev pub ebadf : ℤ
ebadf = pos 9

abbrev pub emsgsize : ℤ
emsgsize = pos 90

abbrev pub eterm : ℤ
eterm = pos 156384765
