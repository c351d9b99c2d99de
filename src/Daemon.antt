-- ===== src/Daemon.antt =====
-- daemonize.cpp on the systems that have fork: the name of the file of the process number, and how the
-- process leaves its terminal. The system is a parameter; a call of fork answers in one process.
use wacs.Prelude.{
  ℕ, zero, suc, ◌≡◌, false, Bool, ℤ, pos, [], ◌∷◌, ◌++◌, length, ltb, ltb_ℤ, if◌then◌else◌, arith,
}
use wacs.Layout.{Bytes}

pub record Os : Type 1 where
  pub State : Type 0
  pub fork : State → ℤ × State
  pub setsid : State → ℤ × State
  -- SIGCHLD and SIGHUP
  pub ignore_signals : State → State
  pub umask : ℕ → State → State
  pub chdir : Bytes → State → State
  pub open_max : State → ℕ
  pub close : ℕ → State → State
  pub set_descriptor_limit : ℕ → State → ℤ × State
  pub write_pid : Bytes → State → Bool × State
  pub daemon_run : State → State
  pub daemon_done : State → State

-- The members of `Daemonize`.
pub record Daemonize : Type 0 where
  pub working_directory : Bytes
  pub max_file_descriptors : ℕ
  pub pid_file_name : Bytes

-- "/var/run/"
abbrev pub def_pid_path : Bytes
def_pid_path = b'/' ∷ b'v' ∷ b'a' ∷ b'r' ∷ b'/' ∷ b'r' ∷ b'u' ∷ b'n' ∷ b'/' ∷ []

-- ".pid"
abbrev pub dot_pid : Bytes
dot_pid = b'.' ∷ b'p' ∷ b'i' ∷ b'd' ∷ []

-- The members as the constructor sets them. It tests the member, which is empty, for the argument.
unfoldable pub new_daemonize : Bytes → Bytes → ℕ → Bytes → Daemonize
new_daemonize daemon_name working_directory max_file_descriptors pid_file_name =
    let member : Bytes = [] in
    record {
      working_directory = working_directory;
      max_file_descriptors = max_file_descriptors;
      pid_file_name =
          if ltb 0 (length member) then pid_file_name else def_pid_path ++ (daemon_name ++ dot_pid);
    }

-- How init leaves a process: it exits, with success or failure, or it has run and returns.
pub data Left : Type 0 where
  exit_success exit_failure returned : Left

module _ (O : Os) where
  -- The loop that closes the descriptors down to 1.
  unfoldable pub close_all : ℕ → O.State → O.State
  close_all zero s = s
  close_all (suc n) s = close_all n (O.close (suc n) s)

  -- setFdLimit and setPidFile
  unfoldable pub set_fd_limit : ℕ → O.State → ℤ × O.State
  set_fd_limit value s = O.set_descriptor_limit value s

  unfoldable pub set_pid_file : Daemonize → O.State → Bool × O.State
  set_pid_file d s = O.write_pid d.pid_file_name s

  -- What init does in the last process.
  unfoldable pub run_detached : Daemonize → O.State → O.State
  unfolding close_all set_fd_limit set_pid_file
  run_detached d s =
      let s1 = O.chdir d.working_directory (O.umask 0 s) in
      let s2 = close_all (O.open_max s1) s1 in
      let s3 =
        if ltb 0 d.max_file_descriptors then (set_fd_limit d.max_file_descriptors s2).1 else s2 in
      O.daemon_done (O.daemon_run (set_pid_file d s3).1)

  -- Daemonize::init
  unfoldable pub init : Daemonize → O.State → Left × O.State
  init d s =
      let (pid, s1) = O.fork s in
      if ltb_ℤ pid (pos 0)
      then (exit_failure, s1)
      else if ltb_ℤ (pos 0) pid
      then (exit_success, s1)
      else let (sid, s2) = O.setsid s1 in
        if ltb_ℤ sid (pos 0)
        then (exit_failure, s2)
        else let s3 = O.ignore_signals s2 in
          let (pid2, s4) = O.fork s3 in
          if ltb_ℤ pid2 (pos 0)
          then (exit_failure, s4)
          else if ltb_ℤ (pos 0) pid2
          then (exit_success, s4)
          else (returned, run_detached d s4)

  -- The second fork.
  abbrev pub second_fork : O.State → ℤ × O.State
  second_fork s = O.fork (O.ignore_signals (O.setsid (O.fork s).1).1)

  -- The daemon runs only in a child of a child that leads a session of its own, and it is detached there:
  -- where init returns, both forks have answered 0 and setsid has not failed, and the state is that
  -- of the last process after it has run.
  pub init-returned :
      (d : Daemonize) (s : O.State)
      → (init d s).0 ≡ returned
      → ((O.fork s).0 ≡ pos 0)
        × (ltb_ℤ (O.setsid (O.fork s).1).0 (pos 0) ≡ false)
        × ((second_fork s).0 ≡ pos 0)
        × ((init d s).1 ≡ run_detached d (second_fork s).1)
  unfolding init
  init-returned d s h = ground (arith, h)
