-- ===== src/Client/SendTest.antt =====
-- sendTest of wacsc.cpp: packets for the given addresses.
use wacs.Prelude.{
  ℕ, zero, suc, Bool, false, not, Option, none, some, List, [], ◌∷◌, ℤ, pos, eq_ℤ, if◌then◌else◌,
}
use wacs.Layout.{Bytes, LogEntry}
use wacs.LogEntries.Scan.{Scanner, strtomacaddress}
use wacs.ErrorCodes.{errcode_wrong_param}
use wacs.Mq.{Nn}
use wacs.Mq.Sender.{send_log_entry}

-- The fields of `WacscConfig` that the command reads; the 16-bit fields are bit patterns.
pub record SendConfig : Type 0 where
  pub message_url : Bytes
  pub mac : List Bytes
  pub device_id : ℕ
  pub ssi_signal : ℕ
  pub repeats : ℕ

-- How a loop over the addresses goes on: it has gone through all and the last answer is kept, or the
-- command returns.
pub data Passed : Type 0 where
  through : Option ℤ → Passed
  returns : ℤ → Passed

module _ (N : Nn) (scan : Scanner) (config : SendConfig) where
  -- One pass over the addresses. A list of Booleans says at which of its packets a signal has set the
  -- interrupt flag, and what is left of it is handed on. `none` is an answer that is not set.
  unfoldable pub send_each :
      List Bytes → Option ℤ → List Bool → N.State → Passed × List Bool × N.State
  unfolding strtomacaddress send_log_entry
  send_each [] r flags s = (through r, flags, s)
  send_each (m ∷ ms) r flags s =
      let (size, sa) = strtomacaddress scan m in
      let value : LogEntry = record {
        device_id = config.device_id;
        ssi_signal = config.ssi_signal;
        sa = sa;
      } in
      let (r', s') = send_log_entry N config.message_url value config.repeats s in
      let flag : Bool = elim flags [ [] ↦ false | b ∷ bs ↦ b ] in
      let later : List Bool = elim flags [ [] ↦ [] | b ∷ bs ↦ bs ] in
      let rest = send_each ms (some r') later s' in
      if not (eq_ℤ size (pos 6))
      then (returns errcode_wrong_param, flags, s)
      else if flag
      then (returns (pos 0), later, s')
      else rest

  -- The passes that are left.
  unfoldable pub send_passes : ℕ → Option ℤ → List Bool → N.State → Passed × N.State
  unfolding send_each
  send_passes zero r flags s = (through r, s)
  send_passes (suc n) r flags s =
      let (p, flags', s') = send_each config.mac r flags s in
      elim p [ through r' ↦ send_passes n r' flags' s' | returns c ↦ (returns c, s') ]

  -- sendTest: `none` is an answer that is not set, where there are no addresses or no repeats.
  unfoldable pub send_test : List Bool → N.State → Option ℤ × N.State
  unfolding send_passes
  send_test flags s =
      let (p, s') = send_passes config.repeats none flags s in
      (elim p [ through r ↦ r | returns c ↦ some c ], s')
