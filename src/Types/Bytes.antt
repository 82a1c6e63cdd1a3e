-- ===== src/Types/Bytes.antt =====
-- Byte strings, and 32-byte strings as the numbers that they are in big-endian order: the
-- program compares hashes, joins them and reads them as integers, and no more.
use tad_blockchain.Base.{ℕ, zero, suc, ◌+◌, ◌*◌, ◌/◌, ◌%◌, ◌^◌, List, [], ◌∷◌}

abbrev pub Bytes : Type 0
Bytes = List ℕ

abbrev pub Bytes32 : Type 0
Bytes32 = ℕ

-- `n.to_bytes(width, "big")` of a number that fits.
unfoldable pub to_bytes : ℕ → ℕ → Bytes
to_bytes zero n = []
to_bytes (suc width) n = (n / 256 ^ width % 256) ∷ to_bytes width n

-- The bytes read so far as a number, and the next ones.
unfoldable pub from_bytes_onto : ℕ → Bytes → ℕ
from_bytes_onto acc [] = acc
from_bytes_onto acc (b ∷ bs) = from_bytes_onto (acc * 256 + b) bs

-- `int.from_bytes(blob, "big", signed=False)`
unfoldable pub from_bytes : Bytes → ℕ
unfolding from_bytes_onto
from_bytes = from_bytes_onto 0
