-- ===== src/FullNode/SyncStore/Peers.antt =====
-- Which peers the sync store names for a block, against the history of what was told to it.
use tad_blockchain.Base.{
  ℕ, ◌≡◌, ◌∙◌, ap, refl, Bool, true, false, not, ◌&&◌, ◌||◌, Option, none, some, List, [], ◌∷◌,
  arith, ◌==◌, Bool-cases, Option-cases, inl, inr, if◌then◌else◌,
}
use tad_blockchain.Base.Dict.{Dict, lookup, insert, lookup-insert}
use tad_blockchain.Base.Result.{Result, ok, ◌>>=◌, Returns, Returns-ok, Returns-mono}
use tad_blockchain.Base.Sets.{Set, member, add, remove, member-add, member-remove}
use tad_blockchain.FullNode.SyncStore.{
  SyncStore, create, peer_has_block, clear_sync_info, peer_disconnected, get_peers_that_have_peak,
  with_peer, add_all, collect, forget_peer,
}
use tad_blockchain.Types.Bytes.{Bytes32}

-- The calls that change what the store knows of peers.
pub data Event : Type 0 where
  has_block : Bytes32 → ℕ → ℕ → ℕ → Bool → Event
  cleared : Event
  disconnected : ℕ → Event

abbrev pub handle : Event → SyncStore → Result SyncStore
handle (has_block header_hash peer_id weight height new_peak) s =
    ok (peer_has_block s header_hash peer_id weight height new_peak)
handle cleared s = ok (clear_sync_info s)
handle (disconnected node_id) s = peer_disconnected s node_id

-- The store after a history, whose latest event comes first.
abbrev pub run : List Event → Result SyncStore
run [] = ok create
run (event ∷ earlier) = run earlier >>= handle event

-- Whether a peer has told of a block since the store was last cleared and the peer last left.
abbrev pub told : List Event → ℕ → Bytes32 → Bool
told [] p h = false
told (has_block header_hash peer_id weight height new_peak ∷ earlier) p h =
    (header_hash == h && peer_id == p) || told earlier p h
told (cleared ∷ earlier) p h = false
told (disconnected node_id ∷ earlier) p h = not (node_id == p) && told earlier p h

abbrev pub any : (ℕ → Bool) → List ℕ → Bool
any test [] = false
any test (x ∷ xs) = test x || any test xs

abbrev in_peers : ℕ → Option Set → Bool
in_peers p none = false
in_peers p (some peers) = member p peers

abbrev holds : Dict Set → ℕ → Bytes32 → Bool
holds d p h = in_peers p (lookup h d)

in_peers-with_peer :
    (p q : ℕ) (old : Option Set) → member p (with_peer old q) ≡ (q == p || in_peers p old)
in_peers-with_peer p q none = refl
in_peers-with_peer p q (some peers) = member-add q p peers

holds-insert :
    (d : Dict Set) (new h : Bytes32) (q p : ℕ)
    → holds (insert new (with_peer (lookup new d) q) d) p h ≡ ((new == h && q == p) || holds d p h)
holds-insert d new h q p = elim (Bool-cases (new == h)) [
  | inl same ↦
      let e : new ≡ h = ground arith in
      rw (lookup-insert h new (with_peer (lookup new d) q) d, same, e)
        (in_peers-with_peer p q (lookup h d))
  | inr differ ↦ rw (lookup-insert h new (with_peer (lookup new d) q) d, differ) refl
]

member-add_all :
    (p : ℕ) (peers ids : Set) → member p (add_all peers ids) ≡ (member p peers || member p ids)
member-add_all p [] ids = refl
member-add_all p (q ∷ peers) ids =
    rw (member-add_all p peers (add q ids), member-add q p ids) (ground arith)

member-collect :
    (p : ℕ) (d : Dict Set) (hs : List Bytes32) (ids : Set)
    → member p (collect d hs ids) ≡ (member p ids || any (holds d p) hs)
unfolding collect
member-collect p d [] ids = ground arith
member-collect p d (h ∷ hs) ids = elim (Option-cases (lookup h d)) [
  | inl unseen ↦ rw (unseen, member-collect p d hs ids) refl
  | inr (peers, seen) ↦
      rw (seen, member-collect p d hs (add_all peers ids), member-add_all p peers ids)
        (ground arith)
]

abbrev without : ℕ → Set → Set
without q peers = if member q peers then remove q peers else peers

member-without :
    (q p : ℕ) (peers : Set) → member p (without q peers) ≡ (not (q == p) && member p peers)
member-without q p peers = elim (Bool-cases (member q peers)) [
  | inl here ↦ rw here (member-remove q p peers)
  | inr out ↦ rw out (elim (Bool-cases (q == p)) [
    | inl same ↦ let e : q ≡ p = ground arith in rw (same, ← e, out) refl
    | inr differ ↦ rw differ refl
  ])
]

forget_peer-holds :
    (q : ℕ) (d : Dict Set)
    → Returns
        (forget_peer q d)
        (λ d'. (p : ℕ) (h : Bytes32) → holds d' p h ≡ (not (q == p) && holds d p h))
unfolding forget_peer
forget_peer-holds q [] = λ p h. ground arith
forget_peer-holds q (entry ∷ rest) =
    let peers = without q entry.1 in
    let gone : member q peers ≡ false =
      member-without q q entry.1 ∙ (let e : (q == q) ≡ true = ground arith in rw e refl) in
    let (rest', done, rest_holds) = Returns-ok (forget_peer q rest) _ (forget_peer-holds q rest) in
    rw (gone, done, Returns)
      (λ p h. elim (Bool-cases (entry.0 == h)) [
        | inl same ↦ rw same (member-without q p entry.1)
        | inr differ ↦ rw differ (rest_holds p h)
      ])

-- What the store holds is what the history tells.
abbrev Agrees : List Event → SyncStore → Type 0
Agrees events s = (p : ℕ) (h : Bytes32) → holds s.peak_to_peer p h ≡ told events p h

handle-Agrees :
    (event : Event) (earlier : List Event) (s : SyncStore)
    → Agrees earlier s
    → Returns (handle event s) (Agrees (event ∷ earlier))
unfolding peer_has_block clear_sync_info peer_disconnected
handle-Agrees (has_block header_hash peer_id weight height new_peak) earlier s agrees = λ p h.
    holds-insert s.peak_to_peer header_hash h peer_id p
    ∙ ap (λ old. (header_hash == h && peer_id == p) || old) (agrees p h)
handle-Agrees cleared earlier s agrees = λ p h. refl
handle-Agrees (disconnected node_id) earlier s agrees =
    let (d, done, d_holds) =
      Returns-ok (forget_peer node_id s.peak_to_peer) _
        (forget_peer-holds node_id s.peak_to_peer) in
    rw (done, Returns) (λ p h. d_holds p h ∙ ap (λ old. not (node_id == p) && old) (agrees p h))

run-Agrees : (events : List Event) → Returns (run events) (Agrees events)
run-Agrees [] = λ p h. refl
run-Agrees (event ∷ earlier) =
    let (s, done, agrees) = Returns-ok (run earlier) _ (run-Agrees earlier) in
    rw done (handle-Agrees event earlier s agrees)

any_eq : (f g : ℕ → Bool) (xs : List ℕ) → ((x : ℕ) → f x ≡ g x) → any f xs ≡ any g xs
any_eq f g [] same = refl
any_eq f g (x ∷ xs) same = rw (same x, any_eq f g xs same) refl

-- No history makes a call raise, and a peer is among those that get_peers_that_have_peak names
-- exactly when the history tells of it and one of the header hashes asked for.
pub get_peers_that_have_peak-told :
    (events : List Event)
    → Returns (run events) (λ s.
      (hs : List Bytes32) (p : ℕ)
      → member p (get_peers_that_have_peak s hs) ≡ any (told events p) hs)
unfolding get_peers_that_have_peak
get_peers_that_have_peak-told events =
    Returns-mono (run events) (Agrees events) _
      (λ s agrees hs p.
        member-collect p s.peak_to_peer hs []
        ∙ any_eq (holds s.peak_to_peer p) (told events p) hs (agrees p))
      (run-Agrees events)
