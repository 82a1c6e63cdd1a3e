-- ===== src/Server/RateLimits/Bounds.antt =====
-- A limiter of outgoing messages counts no more than the limits allow in a window.
use mathlib.Core.Path.{subst}
use tad_blockchain.Base.{
  ℕ, ◌+◌, ◌≤◌, ◌≡◌, ◌⊎◌, refl, ◌∙◌, Bool, true, false, ◌||◌, arith, ◌==◌, if◌then◌else◌, length,
  ==_iff, Bool-cases, inl, inr,
}
use tad_blockchain.Base.Dict.{Dict, insert, lookup-insert}
use tad_blockchain.Server.MessageTypes.{is_message_type}
use tad_blockchain.Server.RateLimits.{
  RateLimiter, NewCounts, counted, init, reset, new_counts, commit, is_allowed, check_message,
  process_msg_and_check,
}
use tad_blockchain.Server.RateLimits.Tables.{
  RlSettings, limits_of, total_size, non_tx_freq, non_tx_max_total_size,
}
use tad_blockchain.Types.Bytes.{Bytes}

counted-insert :
    (t key value : ℕ) (counter : Dict ℕ)
    → counted t (insert key value counter) ≡ (if key == t then value else counted t counter)
counted-insert t key value counter = ground (arith, lookup-insert t key value counter)

-- A count within a bound for each key stays so.
insert-bounded :
    (bound : ℕ → ℕ) (key value : ℕ) (counter : Dict ℕ)
    → value ≤ bound key
    → ((t : ℕ) → counted t counter ≤ bound t)
    → (t : ℕ) → counted t (insert key value counter) ≤ bound t
insert-bounded bound key value counter new old t =
    rw (counted-insert t key value counter) (elim (Bool-cases (key == t)) [
      | inl same ↦ rw same (subst (λ k. value ≤ bound k) ((==_iff key t).0 same) new)
      | inr differ ↦ rw differ (old t)
    ])

module _ (scaled : ℕ → ℕ → ℕ) where
  -- The counts of every kind of message, and of those that are not about transactions, are within
  -- their limits.
  pub record IsWithin (s : RateLimiter) : Type 0 where
    pub counts :
        (t : ℕ)
        → counted t s.message_counts ≤ scaled s.percentage_of_limit (limits_of t).0.frequency
    pub sizes :
        (t : ℕ)
        → counted t s.message_cumulative_sizes
          ≤ scaled s.percentage_of_limit (total_size (limits_of t).0)
    pub non_tx_count : s.non_tx_message_counts ≤ scaled s.percentage_of_limit non_tx_freq
    pub non_tx_size : s.non_tx_cumulative_size ≤ scaled s.percentage_of_limit non_tx_max_total_size

  pub init-IsWithin : (incoming : Bool) (minute p : ℕ) → IsWithin (init incoming minute p)
  init-IsWithin incoming minute p = record {
    counts = λ t. omega arith;
    sizes = λ t. omega arith;
    non_tx_count = omega arith;
    non_tx_size = omega arith;
  }

  reset-IsWithin : (minute : ℕ) (s : RateLimiter) → IsWithin s → IsWithin (reset minute s)
  reset-IsWithin minute s within = elim (Bool-cases (minute == s.current_minute)) [
    | inl same ↦ rw same within
    | inr new ↦ rw new (init-IsWithin s.incoming minute s.percentage_of_limit)
  ]

  allowed_parts :
      (p : ℕ) (limits : RlSettings) (is_other : Bool) (size : ℕ) (new : NewCounts)
      → is_allowed scaled p limits is_other size new ≡ true
      → (new.message_counts ≤ scaled p limits.frequency)
        × (new.cumulative_size ≤ scaled p (total_size limits))
        × ((is_other ≡ false)
            ⊎ ((new.non_tx_count ≤ scaled p non_tx_freq)
                × (new.non_tx_size ≤ scaled p non_tx_max_total_size)))
  unfolding is_allowed
  allowed_parts p limits true size new allowed = (
    ground (arith, allowed),
    ground (arith, allowed),
    inr (ground (arith, allowed), ground (arith, allowed)),
  )
  allowed_parts p limits false size new allowed =
      (ground (arith, allowed), ground (arith, allowed), inl refl)

  commit-IsWithin :
      (s : RateLimiter) (message_type size : ℕ) (is_other : Bool)
      → IsWithin s
      → is_allowed scaled s.percentage_of_limit
          (limits_of message_type).0
          is_other
          size
          (new_counts s message_type size is_other)
        ≡ true
      → IsWithin (commit s message_type (new_counts s message_type size is_other))
  commit-IsWithin s message_type size is_other within allowed =
      let new = new_counts s message_type size is_other in
      let p = s.percentage_of_limit in
      let (count_ok, size_ok, others) =
        allowed_parts p (limits_of message_type).0 is_other size new allowed in
      record {
        counts =
            insert-bounded (λ t. scaled p (limits_of t).0.frequency) message_type new.message_counts
              s.message_counts count_ok within.counts;
        sizes =
            insert-bounded (λ t. scaled p (total_size (limits_of t).0)) message_type
              new.cumulative_size s.message_cumulative_sizes size_ok within.sizes;
        non_tx_count = elim others [ inl tx ↦ rw tx within.non_tx_count | inr (low, small) ↦ low ];
        non_tx_size = elim others [ inl tx ↦ rw tx within.non_tx_size | inr (low, small) ↦ small ];
      }

  if_allowed :
      (incoming ret : Bool) (after before : RateLimiter)
      → incoming ≡ false
      → (ret ≡ true → IsWithin after)
      → IsWithin before
      → IsWithin (if incoming || ret then after else before)
  if_allowed true ret after before outgoing committed within = absurd cc
  if_allowed false true after before outgoing committed within = committed refl
  if_allowed false false after before outgoing committed within = within

  check_message-IsWithin :
      (s : RateLimiter) (message_type size : ℕ)
      → s.incoming ≡ false
      → IsWithin s
      → IsWithin (check_message scaled s message_type size).1
  unfolding check_message
  check_message-IsWithin s message_type size outgoing within =
      if_allowed s.incoming
        (is_allowed scaled s.percentage_of_limit (limits_of message_type).0
          (limits_of message_type).1 size
          (new_counts s message_type size (limits_of message_type).1))
        (commit s message_type (new_counts s message_type size (limits_of message_type).1)) s
        outgoing (commit-IsWithin s message_type size (limits_of message_type).1 within) within

  reset-incoming : (minute : ℕ) (s : RateLimiter) → (reset minute s).incoming ≡ s.incoming
  reset-incoming minute s = elim (Bool-cases (minute == s.current_minute)) [
    | inl same ↦ rw same refl
    | inr new ↦ rw new refl
  ]

  -- A limiter of outgoing messages whose counts are within the limits keeps them within, whatever
  -- message it is asked about and when.
  pub process_msg_and_check-IsWithin :
      (s : RateLimiter) (minute message_type : ℕ) (blob : Bytes)
      → s.incoming ≡ false
      → IsWithin s
      → IsWithin (process_msg_and_check scaled s minute message_type blob).1
  unfolding process_msg_and_check
  process_msg_and_check-IsWithin s minute message_type blob outgoing within =
      elim (Bool-cases (is_message_type message_type)) [
        | inl known ↦ rw known (
            check_message-IsWithin (reset minute s) message_type (length blob)
              (reset-incoming minute s ∙ outgoing) (reset-IsWithin minute s within))
        | inr unknown ↦ rw unknown (reset-IsWithin minute s within)
      ]

  if_incoming :
      (incoming ret : Bool) (key : ℕ) (after before : RateLimiter)
      → incoming ≡ true
      → counted key (if incoming || ret then after else before).message_counts
        ≡ counted key after.message_counts
  if_incoming true ret key after before e = refl
  if_incoming false ret key after before e = absurd cc

  check_message-counted :
      (s : RateLimiter) (message_type size : ℕ)
      → s.incoming ≡ true
      → counted message_type (check_message scaled s message_type size).1.message_counts
        ≡ counted message_type s.message_counts + 1
  unfolding check_message
  check_message-counted s message_type size incoming =
      let new = new_counts s message_type size (limits_of message_type).1 in
      if_incoming s.incoming
        (is_allowed scaled s.percentage_of_limit (limits_of message_type).0
          (limits_of message_type).1 size new)
        message_type (commit s message_type new) s incoming
      ∙ counted-insert message_type message_type new.message_counts s.message_counts
      ∙ ground arith

  -- A limiter of incoming messages counts every message of a known kind, whether it passes or not,
  -- from 0 in a new window.
  pub process_msg_and_check-counted :
      (s : RateLimiter) (minute message_type : ℕ) (blob : Bytes)
      → s.incoming ≡ true
      → is_message_type message_type ≡ true
      → counted message_type
          (process_msg_and_check scaled s minute message_type blob).1.message_counts
        ≡ (if minute == s.current_minute then counted message_type s.message_counts + 1 else 1)
  unfolding process_msg_and_check
  process_msg_and_check-counted s minute message_type blob incoming known = rw known (
      check_message-counted (reset minute s) message_type (length blob)
        (reset-incoming minute s ∙ incoming)
      ∙ elim (Bool-cases (minute == s.current_minute)) [
        | inl same ↦ rw same refl
        | inr new ↦ rw new refl
      ])
