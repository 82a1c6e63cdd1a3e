-- ===== src/Util/Streamable/Canonical.antt =====
-- What parses is what stream writes: no value has two encodings.
use mathlib.Core.List.{append-nil, append_assoc}
use mathlib.Core.Path.{subst}
use tad_blockchain.Base.{
  ℕ, zero, suc, ◌^◌, ◌<◌, ◌≡◌, ◌↔◌, refl, sym, ◌∙◌, ap, arith, Bool, true, false, none, some, [],
  ◌∷◌, ◌++◌, ◌==◌, length, if◌then◌else◌,
}
use tad_blockchain.Base.Result.{
  Result, ok, ◌>>=◌, ◌>>◌, assert, Returns-ok, IfReturns, IfReturns-bind, IfReturns-mono,
  IfReturns-ok, ok-injective,
}
use tad_blockchain.Types.Bytes.{Bytes, to_bytes, from_bytes}
use tad_blockchain.Util.Streamable.{
  StreamType, uint, bool, optional, bytes, sized, list_of, no_fields, field, Value, read,
  parse_bool, parse_uint, parse_items, parse_bytes, parse_list, parse_optional, parse, write_uint32,
  stream_items, stream, from_blob,
}
use tad_blockchain.Util.Streamable.Digits.{IsBytes, to_bytes-from_bytes, from_bytes-lt}
use tad_blockchain.Util.Streamable.Roundtrip.{All, Fits, parse-stream, one_byte, write_uint32_lem}

-- The bytes split into an encoding of the value, which its type can hold, and the rest.
abbrev Encodes : {A : Type 0} → (A → Result Bytes) → (A → Type 0) → Bytes → A × Bytes → Type 0
Encodes streamer P b r = (p : Bytes) × (streamer r.0 ≡ ok p) × (b ≡ p ++ r.1) × P r.0

IsBytes-append : (p rest : Bytes) → IsBytes (p ++ rest) → IsBytes p × IsBytes rest
IsBytes-append [] rest fine = (tt, fine)
IsBytes-append (x ∷ p) rest (small, fine) =
    let (left, right) = IsBytes-append p rest fine in ((small, left), right)

IsBytes-rest : (b p rest : Bytes) → b ≡ p ++ rest → IsBytes b → IsBytes rest
IsBytes-rest b p rest split fine = (IsBytes-append p rest (subst IsBytes split fine)).1

read_lem : (n : ℕ) (b : Bytes) → IfReturns (read n b) (λ r. (length r.0 ≡ n) × (b ≡ r.0 ++ r.1))
unfolding read
read_lem zero b = (refl, refl)
read_lem (suc n) [] = tt
read_lem (suc n) (x ∷ b) =
    IfReturns-bind (read n b) _ _ _ (read_lem n b) (λ r h. (ap suc h.0, ap (λ l. x ∷ l) h.1))

parse_uint_lem :
    (w : ℕ) (b : Bytes)
    → IsBytes b
    → IfReturns (parse_uint w b) (λ r. (b ≡ to_bytes w r.0 ++ r.1) × (r.0 < 256 ^ w))
unfolding parse_uint
parse_uint_lem w b fine = IfReturns-bind (read w b) _ _ _ (read_lem w b) (λ r h.
    let (own, _) = IsBytes-append r.0 r.1 (subst IsBytes h.1 fine) in
    let digits : to_bytes w (from_bytes r.0) ≡ r.0 =
      ap (λ k. to_bytes k (from_bytes r.0)) (sym h.0) ∙ to_bytes-from_bytes r.0 own in
    (rw digits h.1, subst (λ k. from_bytes r.0 < 256 ^ k) h.0 (from_bytes-lt r.0 own)))

parse_bool_lem :
    (b : Bytes) → IsBytes b → IfReturns (parse_bool b) (λ r. b ≡ (if r.0 then 1 else 0) ∷ r.1)
unfolding parse_bool read from_bytes
parse_bool_lem [] fine = tt
parse_bool_lem (x ∷ b) fine = ground arith

module _ {A : Type 0} (parser : Bytes → Result (A × Bytes)) (streamer : A → Result Bytes)
    (P : A → Type 0)
    (one : (b : Bytes) → IsBytes b → IfReturns (parser b) (Encodes streamer P b)) where
  parse_items_lem :
      (n : ℕ) (b : Bytes)
      → IsBytes b
      → IfReturns
          (parse_items n parser b)
          (λ r. (length r.0 ≡ n) × Encodes (stream_items streamer) (All P) b r)
  unfolding parse_items stream_items
  parse_items_lem zero b fine = (refl, ([], refl, refl, tt))
  parse_items_lem (suc n) b fine = IfReturns-bind (parser b) _ _ _ (one b fine) (λ r h.
      let (p, written, split, good) = h in
      IfReturns-bind (parse_items n parser r.1) _ _ _
        (parse_items_lem n r.1 (IsBytes-rest b p r.1 split fine))
        (λ r' h'.
          let (size, (p', written', split', good')) = h' in
          (
            ap suc size,
            (
              p ++ p',
              rw (written, written') refl,
              split ∙ ap (λ l. p ++ l) split' ∙ sym (append_assoc p p' r'.1),
              (good, good'),
            ),
          )))

  parse_list_lem :
      (b : Bytes)
      → IsBytes b
      → IfReturns (parse_list parser b) (
          Encodes
            (λ items. write_uint32 (length items) >>= λ size.
              stream_items streamer items >>= λ elements. ok (size ++ elements))
            (λ items. (length items < 256 ^ 4) × All P items)
            b)
  unfolding parse_list
  parse_list_lem b fine = IfReturns-bind (parse_uint 4 b) _ _ _ (parse_uint_lem 4 b fine) (λ r h.
      IfReturns-mono (parse_items r.0 parser r.1) _ _
        (parse_items_lem r.0 r.1 (IsBytes-rest b (to_bytes 4 r.0) r.1 h.0 fine))
        (λ r' h'.
          let (size, (p, written, split, good)) = h' in
          let small : length r'.0 < 256 ^ 4 = rw size h.1 in
          (
            to_bytes 4 r.0 ++ p,
            rw (write_uint32_lem (length r'.0) small, written, size) refl,
            h.0 ∙ ap (λ l. to_bytes 4 r.0 ++ l) split ∙ sym (append_assoc (to_bytes 4 r.0) p r'.1),
            (small, good),
          )))

-- The rest of an optional value after its first byte.
optional_lem :
    (t : StreamType) (b : Bytes) (present : Bool) (left : Bytes)
    → b ≡ (if present then 1 else 0) ∷ left
    → IfReturns (parse t left) (Encodes (stream t) (Fits t) left)
    → IfReturns
        (elim present [ false ↦ ok (none, left) | true ↦ parse t left >>= λ r. ok (some r.0, r.1) ])
        (Encodes (stream (optional t)) (Fits (optional t)) b)
unfolding stream
optional_lem t b false left split inner = (0 ∷ [], refl, split, tt)
optional_lem t b true left split inner = IfReturns-bind (parse t left) _ _ _ inner (λ r h.
    let (p, written, split', good) = h in
    (1 ∷ p, rw written refl, split ∙ ap (λ l. 1 ∷ l) split', good))

parse-Encodes :
    (t : StreamType) (b : Bytes) → IsBytes b → IfReturns (parse t b) (Encodes (stream t) (Fits t) b)
unfolding parse stream parse_bytes parse_optional
parse-Encodes (uint w) b fine =
    IfReturns-mono (parse_uint w b) _ _ (parse_uint_lem w b fine)
      (λ r h. (to_bytes w r.0, refl, h.0, h.1))
parse-Encodes bool b fine =
    IfReturns-mono (parse_bool b) _ _ (parse_bool_lem b fine)
      (λ r h. ((if r.0 then 1 else 0) ∷ [], ap ok (one_byte r.0), h, tt))
parse-Encodes (optional t) b fine =
    IfReturns-bind (parse_bool b) _ _ _ (parse_bool_lem b fine) (λ r h.
      optional_lem t b r.0 r.1 h
        (parse-Encodes t r.1 (IsBytes-rest b ((if r.0 then 1 else 0) ∷ []) r.1 h fine)))
parse-Encodes bytes b fine = IfReturns-bind (parse_uint 4 b) _ _ _ (parse_uint_lem 4 b fine) (λ r h.
    IfReturns-mono (read r.0 r.1) _ _ (read_lem r.0 r.1) (λ r' h'.
      let small : length r'.0 < 256 ^ 4 = rw h'.0 h.1 in
      (
        to_bytes 4 r.0 ++ r'.0,
        rw (write_uint32_lem (length r'.0) small, h'.0) refl,
        h.0 ∙ ap (λ l. to_bytes 4 r.0 ++ l) h'.1 ∙ sym (append_assoc (to_bytes 4 r.0) r'.0 r'.1),
        small,
      )))
parse-Encodes (sized n) b fine =
    IfReturns-mono (read n b) _ _ (read_lem n b) (λ r h. (r.0, refl, h.1, h.0))
parse-Encodes (list_of t) b fine =
    parse_list_lem (parse t) (stream t) (Fits t) (parse-Encodes t) b fine
parse-Encodes no_fields b fine = ([], refl, refl, tt)
parse-Encodes (field t others) b fine =
    IfReturns-bind (parse t b) _ _ _ (parse-Encodes t b fine) (λ r h.
      let (p, written, split, good) = h in
      IfReturns-bind (parse others r.1) _ _ _
        (parse-Encodes others r.1 (IsBytes-rest b p r.1 split fine))
        (λ r' h'.
          let (p', written', split', good') = h' in
          (
            p ++ p',
            rw (written, written') refl,
            split ∙ ap (λ l. p ++ l) split' ∙ sym (append_assoc p p' r'.1),
            (good, good'),
          )))

nothing_left :
    (t : StreamType) (blob : Bytes) (item : Value t) (left : Bytes)
    → Encodes (stream t) (Fits t) blob (item, left)
    → IfReturns (assert (length left == 0) >> ok item) (λ v. (stream t v ≡ ok blob) × Fits t v)
nothing_left t blob item [] (p, written, split, good) =
    (written ∙ ap ok (sym (split ∙ append-nil p)), good)
nothing_left t blob item (x ∷ left) h =
    let more : (suc (length left) == 0) ≡ false = ground arith in rw more tt

-- from_bytes returns an item exactly for the bytes that stream writes for it, where the item is one
-- that its type can hold: each such item is read back, and no item has a second encoding.
pub from_blob-stream :
    (t : StreamType) (blob : Bytes) (item : Value t)
    → IsBytes blob
    → (from_blob t blob ≡ ok item) ↔ ((stream t item ≡ ok blob) × Fits t item)
unfolding from_blob
from_blob-stream t blob item fine = (there, back)
  where
    there : from_blob t blob ≡ ok item → (stream t item ≡ ok blob) × Fits t item
    there e =
        IfReturns-ok (from_blob t blob) item (λ v. (stream t v ≡ ok blob) × Fits t v) e
          (IfReturns-bind (parse t blob) _ _ _ (parse-Encodes t blob fine)
            (λ r h. nothing_left t blob r.0 r.1 h))

    back : (stream t item ≡ ok blob) × Fits t item → from_blob t blob ≡ ok item
    back (written, good) =
        let (p, done, again) = Returns-ok (stream t item) _ (parse-stream t item good) in
        let same : p ≡ blob = ok-injective (sym done ∙ written) in
        let whole : parse t blob ≡ ok (item, []) =
          ap (parse t) (sym (append-nil p ∙ same)) ∙ again [] in
        rw whole refl
