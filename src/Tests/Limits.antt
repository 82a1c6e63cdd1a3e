-- ===== src/Tests/Limits.antt =====
-- Five handshakes of 100 bytes pass in a window; the sixth does not.
use tad_blockchain.Base.{
  ℕ, zero, suc, ◌+◌, ◌*◌, ◌/◌, ◌≡◌, refl, Bool, true, false, ◌==◌, if◌then◌else◌,
}
use tad_blockchain.Server.MessageTypes.{code, handshake, request_ses_hashes}
use tad_blockchain.Server.RateLimits.{RateLimiter, init, counted, process_msg_and_check}
use tad_blockchain.Server.RateLimits.Tables.{limits_of}
use tad_blockchain.Server.RateLimits.Bounds.{
  IsWithin, init-IsWithin, process_msg_and_check-IsWithin, process_msg_and_check-counted,
}
use tad_blockchain.Types.Bytes.{Bytes, to_bytes}

abbrev scaled : ℕ → ℕ → ℕ
scaled percentage limit = limit * percentage / 100

abbrev payload : Bytes
payload = to_bytes 100 0

abbrev handshakes : ℕ → RateLimiter → RateLimiter
handshakes zero s = s
handshakes (suc n) s = handshakes n (process_msg_and_check scaled s 7 (code handshake) payload).1

abbrev after_five : Bool → RateLimiter
after_five incoming = handshakes 5 (init incoming 7 100)

fifth_passes : (process_msg_and_check scaled (handshakes 4 (init false 7 100)) 7 1 payload).0 ≡ true
unfolding process_msg_and_check to_bytes
fifth_passes = refl

sixth_refused : (process_msg_and_check scaled (after_five false) 7 1 payload).0 ≡ false
unfolding process_msg_and_check to_bytes
sixth_refused = refl

next_window : (process_msg_and_check scaled (after_five false) 8 1 payload).0 ≡ true
unfolding process_msg_and_check to_bytes
next_window = refl

-- A kind of message that is in neither table is not of those that are counted together.
not_listed : (limits_of (code request_ses_hashes)).1 ≡ false
unfolding limits_of
not_listed = refl

process_msg_and_check-IsWithin_example :
    IsWithin scaled (process_msg_and_check scaled (init false 7 100) 7 1 payload).1
process_msg_and_check-IsWithin_example =
    process_msg_and_check-IsWithin scaled (init false 7 100) 7 1 payload refl
      (init-IsWithin scaled false 7 100)

process_msg_and_check-counted_example :
    counted 1 (process_msg_and_check scaled (after_five true) 7 1 payload).1.message_counts ≡ (
      if 7 == (after_five true).current_minute
      then counted 1 (after_five true).message_counts + 1
      else 1)
unfolding process_msg_and_check to_bytes
process_msg_and_check-counted_example =
    process_msg_and_check-counted scaled (after_five true) 7 1 payload refl refl
