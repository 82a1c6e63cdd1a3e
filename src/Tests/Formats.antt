-- ===== src/Tests/Formats.antt =====
-- The binary format at a small type.
use tad_blockchain.Base.{◌≡◌, ◌↔◌, refl, true, [], ◌∷◌, arith, some, none}
use tad_blockchain.Base.Result.{ok, raise, value_error, assertion_error}
use tad_blockchain.Util.Streamable.{
  StreamType, uint, bool, optional, list_of, no_fields, field, Value, from_blob, stream,
}
use tad_blockchain.Util.Streamable.Canonical.{from_blob-stream}
use tad_blockchain.Util.Streamable.Roundtrip.{Fits}
use tad_blockchain.Types.Bytes.{Bytes, from_bytes}

abbrev flags_type : StreamType
flags_type = field (uint 4) (field (list_of (optional bool)) no_fields)

abbrev flags_blob : Bytes
flags_blob = 0 ∷ 0 ∷ 1 ∷ 5 ∷ 0 ∷ 0 ∷ 0 ∷ 2 ∷ 1 ∷ 1 ∷ 0 ∷ []

abbrev flags : Value flags_type
flags = (261, (some true ∷ none ∷ [], tt))

flags_parsed : from_blob flags_type flags_blob ≡ ok flags
unfolding from_blob from_bytes
flags_parsed = refl

-- A byte that is no Boolean, and one byte too many.
bad_flag : from_blob bool (2 ∷ []) ≡ raise value_error
unfolding from_blob from_bytes
bad_flag = refl

left_over : from_blob bool (1 ∷ 1 ∷ []) ≡ raise assertion_error
unfolding from_blob from_bytes
left_over = refl

from_blob-stream_example :
    (from_blob flags_type flags_blob ≡ ok flags)
    ↔ ((stream flags_type flags ≡ ok flags_blob) × Fits flags_type flags)
from_blob-stream_example = from_blob-stream flags_type flags_blob flags (omega arith)
