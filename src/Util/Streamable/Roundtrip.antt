-- ===== src/Util/Streamable/Roundtrip.antt =====
-- from_bytes accepts exactly what stream writes.
use mathlib.Core.List.{append_assoc}
use tad_blockchain.Base.{
  ℕ, ◌^◌, ◌<◌, ◌≡◌, refl, sym, ◌∙◌, ap, arith, Bool, true, false, none, some, List, [], ◌∷◌, ◌++◌,
  length, if◌then◌else◌,
}
use tad_blockchain.Base.Result.{Result, ok, Returns, Returns-ok}
use tad_blockchain.Types.Bytes.{Bytes, to_bytes, from_bytes}
use tad_blockchain.Util.Streamable.{
  StreamType, uint, bool, optional, bytes, sized, list_of, no_fields, field, Value, read,
  parse_bool, parse_uint, parse_items, parse_bytes, parse_list, parse_optional, parse, write_uint32,
  stream_items, stream,
}
use tad_blockchain.Util.Streamable.Digits.{from_bytes-to_bytes, length-to_bytes}

abbrev pub All {ℓ} : {A : Type ℓ} → (A → Type 0) → List A → Type 0
All P [] = Unit
All P (x ∷ xs) = P x × All P xs

-- A value that its type can hold: integers and byte strings have their width, and sizes have 32 bits.
abbrev pub Fits : (t : StreamType) → Value t → Type 0
Fits (uint w) n = n < 256 ^ w
Fits bool b = Unit
Fits (optional t) none = Unit
Fits (optional t) (some item) = Fits t item
Fits bytes item = length item < 256 ^ 4
Fits (sized n) item = length item ≡ n
Fits (list_of t) items = (length items < 256 ^ 4) × All (Fits t) items
Fits no_fields item = Unit
Fits (field t rest) item = Fits t item.0 × Fits rest item.1

-- Reading what was written, with anything behind it, gives the value and leaves the rest.
abbrev Rereads : {A : Type 0} → (Bytes → Result (A × Bytes)) → A → Bytes → Type 0
Rereads parser item b = (rest : Bytes) → parser (b ++ rest) ≡ ok (item, rest)

read-append : (b rest : Bytes) → read (length b) (b ++ rest) ≡ ok (b, rest)
unfolding read
read-append [] rest = refl
read-append (x ∷ b) rest = rw (read-append b rest) refl

parse_uint-to_bytes :
    (w n : ℕ) (rest : Bytes) → n < 256 ^ w → parse_uint w (to_bytes w n ++ rest) ≡ ok (n, rest)
unfolding parse_uint
parse_uint-to_bytes w n rest fits =
    let whole : read w (to_bytes w n ++ rest) ≡ ok (to_bytes w n, rest) =
      ap (λ k. read k (to_bytes w n ++ rest)) (sym (length-to_bytes w n))
      ∙ read-append (to_bytes w n) rest in
    rw (whole, from_bytes-to_bytes w n fits) refl

pub write_uint32_lem : (n : ℕ) → n < 256 ^ 4 → write_uint32 n ≡ ok (to_bytes 4 n)
unfolding write_uint32
write_uint32_lem n fits = ground arith

parse_items-append :
    {A : Type 0} (parser : Bytes → Result (A × Bytes)) (streamer : A → Result Bytes)
    (P : A → Type 0)
    → ((x : A) → P x → Returns (streamer x) (Rereads parser x))
    → (items : List A) → All P items
    → Returns (stream_items streamer items) (Rereads (parse_items (length items) parser) items)
unfolding parse_items stream_items
parse_items-append parser streamer P one [] fits = λ rest. refl
parse_items-append parser streamer P one (x ∷ items) (here, later) =
    let (first, done, again) = Returns-ok (streamer x) _ (one x here) in
    let (others, done', again') =
      Returns-ok (stream_items streamer items) _
        (parse_items-append parser streamer P one items later) in
    rw (done, done', Returns) (λ rest. rw (append_assoc, again (others ++ rest), again' rest) refl)

parse_bool-byte :
    (b : Bool) (rest : Bytes) → parse_bool ((if b then 1 else 0) ∷ rest) ≡ ok (b, rest)
unfolding parse_bool from_bytes
parse_bool-byte true rest = refl
parse_bool-byte false rest = refl

pub one_byte : (b : Bool) → to_bytes 1 (if b then 1 else 0) ≡ (if b then 1 else 0) ∷ []
unfolding to_bytes
one_byte true = refl
one_byte false = refl

pub parse-stream :
    (t : StreamType) (item : Value t)
    → Fits t item
    → Returns (stream t item) (Rereads (parse t) item)
unfolding parse stream parse_optional parse_bytes parse_list
parse-stream (uint w) n fits = λ rest. parse_uint-to_bytes w n rest fits
parse-stream bool b fits = λ rest. rw (one_byte b) (parse_bool-byte b rest)
parse-stream (optional t) none fits = λ rest. rw (parse_bool-byte false rest) refl
parse-stream (optional t) (some item) fits =
    let (inner, done, again) = Returns-ok (stream t item) _ (parse-stream t item fits) in
    rw (done, Returns) (λ rest. rw (parse_bool-byte true (inner ++ rest), again rest) refl)
parse-stream bytes item fits =
    rw (write_uint32_lem (length item) fits, Returns)
      (λ rest.
        rw (append_assoc, parse_uint-to_bytes 4 (length item) (item ++ rest) fits)
          (read-append item rest))
parse-stream (sized n) item fits = λ rest. rw (sym fits) (read-append item rest)
parse-stream (list_of t) items (short, each) =
    let (elements, done, again) =
      Returns-ok (stream_items (stream t) items) _
        (parse_items-append (parse t) (stream t) (Fits t) (parse-stream t) items each) in
    rw (write_uint32_lem (length items) short, done, Returns)
      (λ rest.
        rw (append_assoc, parse_uint-to_bytes 4 (length items) (elements ++ rest) short)
          (again rest))
parse-stream no_fields item fits = λ rest. refl
parse-stream (field t others) item (here, later) =
    let (first, done, again) = Returns-ok (stream t item.0) _ (parse-stream t item.0 here) in
    let (second, done', again') =
      Returns-ok (stream others item.1) _ (parse-stream others item.1 later) in
    rw (done, done', Returns) (λ rest. rw (append_assoc, again (second ++ rest), again' rest) refl)
