-- ===== src/Server/RateLimits.antt =====
-- tad/server/rate_limits.py: how many messages, and how many bytes of them, pass in a window of time.
pub mod Tables
pub mod Bounds
use tad_blockchain.Base.{
  ℕ, ◌+◌, Bool, true, false, not, ◌&&◌, ◌||◌, none, some, [], ltb, leb, ◌==◌, if◌then◌else◌, length,
}
use tad_blockchain.Base.Dict.{Dict, lookup, insert}
use tad_blockchain.Server.MessageTypes.{is_message_type}
use tad_blockchain.Server.RateLimits.Tables.{
  RlSettings, limits_of, total_size, non_tx_freq, non_tx_max_total_size,
}
use tad_blockchain.Types.Bytes.{Bytes}

pub record RateLimiter : Type 0 where
  pub incoming : Bool
  pub current_minute : ℕ
  pub message_counts : Dict ℕ
  pub message_cumulative_sizes : Dict ℕ
  pub percentage_of_limit : ℕ
  pub non_tx_message_counts : ℕ
  pub non_tx_cumulative_size : ℕ

-- A `Counter` counts 0 of what it does not have.
abbrev pub counted : ℕ → Dict ℕ → ℕ
counted key counter = elim (lookup key counter) [ some n ↦ n | none ↦ 0 ]

abbrev pub init : Bool → ℕ → ℕ → RateLimiter
init incoming minute percentage_of_limit = record {
  incoming = incoming;
  current_minute = minute;
  message_counts = [];
  message_cumulative_sizes = [];
  percentage_of_limit = percentage_of_limit;
  non_tx_message_counts = 0;
  non_tx_cumulative_size = 0;
}

-- Another minute than that of the message before: all counts start again. (The minute is the number
-- of the window of `reset_seconds` in which the clock is.)
abbrev pub reset : ℕ → RateLimiter → RateLimiter
reset minute self =
    if minute == self.current_minute
    then self
    else init self.incoming minute self.percentage_of_limit

-- The four counts after a message of so many bytes.
pub record NewCounts : Type 0 where
  pub message_counts : ℕ
  pub cumulative_size : ℕ
  pub non_tx_count : ℕ
  pub non_tx_size : ℕ

abbrev pub new_counts : RateLimiter → ℕ → ℕ → Bool → NewCounts
new_counts self message_type size is_other = record {
  message_counts = counted message_type self.message_counts + 1;
  cumulative_size = counted message_type self.message_cumulative_sizes + size;
  non_tx_count = if is_other then self.non_tx_message_counts + 1 else self.non_tx_message_counts;
  non_tx_size =
      if is_other then self.non_tx_cumulative_size + size else self.non_tx_cumulative_size;
}

-- What the `finally` block stores.
abbrev pub commit : RateLimiter → ℕ → NewCounts → RateLimiter
commit self message_type new = record self {
  message_counts = insert message_type new.message_counts self.message_counts;
  message_cumulative_sizes = insert message_type new.cumulative_size self.message_cumulative_sizes;
  non_tx_message_counts = new.non_tx_count;
  non_tx_cumulative_size = new.non_tx_size;
}

-- `scaled percentage limit` is the greatest integer up to the product of the floats `limit` and
-- `percentage / 100`: an integer exceeds the one where it exceeds the other.
module _ (scaled : ℕ → ℕ → ℕ) where
  -- The tests of the `try` block.
  unfoldable pub is_allowed : ℕ → RlSettings → Bool → ℕ → NewCounts → Bool
  is_allowed percentage limits is_other size new =
      not (
        is_other
        && (ltb (scaled percentage non_tx_freq) new.non_tx_count
            || ltb (scaled percentage non_tx_max_total_size) new.non_tx_size))
      && leb new.message_counts (scaled percentage limits.frequency)
      && leb size limits.max_size
      && leb new.cumulative_size (scaled percentage (total_size limits))

  -- A message of a known type.
  unfoldable pub check_message : RateLimiter → ℕ → ℕ → Bool × RateLimiter
  unfolding is_allowed limits_of
  check_message self message_type size =
      let (limits, is_other) = limits_of message_type in
      let new = new_counts self message_type size is_other in
      let ret = is_allowed self.percentage_of_limit limits is_other size new in
      (ret, if self.incoming || ret then commit self message_type new else self)

  -- Whether the message passes, and the limiter after it.
  unfoldable pub process_msg_and_check : RateLimiter → ℕ → ℕ → Bytes → Bool × RateLimiter
  unfolding check_message
  process_msg_and_check self minute message_type message_data =
      if is_message_type message_type
      then check_message (reset minute self) message_type (length message_data)
      else (true, reset minute self)
