-- ===== src/FullNode/SyncStore/Heaviest.antt =====
-- get_heaviest_peak, on every store, and get_peak_of_each_peer beside it.
use tad_blockchain.Base.{
  ℕ, ◌≤◌, ◌≡◌, ◌⊎◌, ◌∙◌, refl, Option, none, some, [], ◌∷◌, arith, ltb, Bool-cases, List-cases, inl,
  inr,
}
use tad_blockchain.Base.Dict.{Dict, contains}
use tad_blockchain.Base.Result.{Result, ok, raise, assertion_error}
use tad_blockchain.Base.Sets.{Set}
use tad_blockchain.FullNode.SyncStore.{
  Peak, SyncStore, get_heaviest_peak, get_peak_of_each_peer, heaviest_of, live_peaks,
  clear_sync_info,
}

-- A peak in the list that is told of by a peer.
abbrev pub Among : Dict Peak → Peak → Type 0
Among [] peak = ⊥
Among (entry ∷ rest) peak = (entry.1 ≡ peak) ⊎ Among rest peak

-- What get_heaviest_peak answers, by the peaks that get_peak_of_each_peer keeps: the heaviest of
-- them, none where no peer has told of a peak, and an exception where some have but none is kept.
abbrev pub HeaviestOf : SyncStore → Result (Option Peak) → Type 0
HeaviestOf s (ok none) = s.peer_to_peak ≡ []
HeaviestOf s (ok (some best)) =
    Among (get_peak_of_each_peer s) best
    × ((peak : Peak) → Among (get_peak_of_each_peer s) peak → peak.weight ≤ best.weight)
HeaviestOf s (raise assertion_error) = (s.peer_to_peak ≡ [] → ⊥) × (get_peak_of_each_peer s ≡ [])
HeaviestOf s (raise e) = ⊥

-- The heaviest of the peaks that are left and the one found before.
abbrev Best : Option Peak → Dict Peak → Option Peak → Type 0
Best none peaks none = peaks ≡ []
Best (some old) peaks none = ⊥
Best none peaks (some best) =
    Among peaks best × ((peak : Peak) → Among peaks peak → peak.weight ≤ best.weight)
Best (some old) peaks (some best) =
    (((old ≡ best) ⊎ Among peaks best) × (old.weight ≤ best.weight))
    × ((peak : Peak) → Among peaks peak → peak.weight ≤ best.weight)

none_heavier :
    (peak best : Peak) (key : ℕ) (peaks : Dict Peak)
    → peak.weight ≤ best.weight
    → ((p : Peak) → Among peaks p → p.weight ≤ best.weight)
    → (p : Peak) → Among ((key, peak) ∷ peaks) p
    → p.weight ≤ best.weight
none_heavier peak best key peaks le top p (inl e) = rw (← e) le
none_heavier peak best key peaks le top p (inr among) = top p among

Best-take :
    (peak : Peak) (key : ℕ) (peaks : Dict Peak) (best : Option Peak)
    → Best (some peak) peaks best
    → Best none ((key, peak) ∷ peaks) best
Best-take peak key peaks none found = absurd found
Best-take peak key peaks (some best) ((from, le), top) =
    (from, none_heavier peak best key peaks le top)

Best-over :
    (old peak : Peak) (key : ℕ) (peaks : Dict Peak) (best : Option Peak)
    → old.weight ≤ peak.weight
    → Best (some peak) peaks best
    → Best (some old) ((key, peak) ∷ peaks) best
Best-over old peak key peaks none le found = absurd found
Best-over old peak key peaks (some best) le ((from, le'), top) =
    ((inr from, omega arith), none_heavier peak best key peaks le' top)

Best-keep :
    (old peak : Peak) (key : ℕ) (peaks : Dict Peak) (best : Option Peak)
    → peak.weight ≤ old.weight
    → Best (some old) peaks best
    → Best (some old) ((key, peak) ∷ peaks) best
Best-keep old peak key peaks none le found = absurd found
Best-keep old peak key peaks (some best) le ((from, le'), top) = (
  (elim from [ inl e ↦ inl e | inr among ↦ inr (inr among) ], le'),
  none_heavier peak best key peaks (omega arith) top,
)

heaviest_of-Best :
    (told : Dict Set) (peaks : Dict Peak) (old : Option Peak)
    → Best old (live_peaks told peaks) (heaviest_of told peaks old)
unfolding heaviest_of live_peaks
heaviest_of-Best told [] none = refl
heaviest_of-Best told [] (some old) = ((inl refl, omega arith), λ peak among. absurd among)
heaviest_of-Best told (entry ∷ rest) none = elim (Bool-cases (contains entry.1.header_hash told)) [
  | inr unseen ↦ rw unseen (heaviest_of-Best told rest none)
  | inl seen ↦ rw seen (Best-take entry.1 entry.0 _ _ (heaviest_of-Best told rest (some entry.1)))
]
heaviest_of-Best told (entry ∷ rest) (some old) =
    elim (Bool-cases (contains entry.1.header_hash told)) [
      | inr unseen ↦ rw unseen (heaviest_of-Best told rest (some old))
      | inl seen ↦ elim (Bool-cases (ltb old.weight entry.1.weight)) [
        | inl heavier ↦
            rw (seen, heavier)
              (Best-over old entry.1 entry.0 _ _ (ground arith)
                (heaviest_of-Best told rest (some entry.1)))
        | inr lighter ↦
            rw (seen, lighter)
              (Best-keep old entry.1 entry.0 _ _ (ground arith)
                (heaviest_of-Best told rest (some old)))
      ]
    ]

outcome :
    (s : SyncStore) (entry : ℕ × Peak) (rest : Dict Peak) (best : Option Peak)
    → s.peer_to_peak ≡ entry ∷ rest
    → Best none (get_peak_of_each_peer s) best
    → HeaviestOf s (elim best [ none ↦ raise assertion_error | some b ↦ ok (some b) ])
outcome s entry rest none some_told found = (λ none_told. cc, found)
outcome s entry rest (some best) some_told found = found

-- On every store get_heaviest_peak returns none where no peer has told of a peak; else the heaviest
-- of the peaks that get_peak_of_each_peer returns, where there is one; else it raises
-- `AssertionError`.
pub get_heaviest_peak-HeaviestOf : (s : SyncStore) → HeaviestOf s (get_heaviest_peak s)
unfolding get_heaviest_peak get_peak_of_each_peer
get_heaviest_peak-HeaviestOf s = elim (List-cases s.peer_to_peak) [
  | inl none_told ↦
      let answer : get_heaviest_peak s ≡ ok none = rw none_told refl in rw answer none_told
  | inr (entry, rest, some_told) ↦
      let best = heaviest_of s.peak_to_peer s.peer_to_peak none in
      let answer : get_heaviest_peak s
          ≡ elim best [ none ↦ raise assertion_error | some b ↦ ok (some b) ] =
        rw some_told refl in
      rw answer
        (outcome s entry rest best some_told (heaviest_of-Best s.peak_to_peer s.peer_to_peak none))
]

live_peaks-none : (peaks : Dict Peak) → live_peaks [] peaks ≡ []
unfolding live_peaks
live_peaks-none [] = refl
live_peaks-none (entry ∷ rest) = live_peaks-none rest

heaviest_of-none : (peaks : Dict Peak) → heaviest_of [] peaks none ≡ none
unfolding heaviest_of
heaviest_of-none [] = refl
heaviest_of-none (entry ∷ rest) = heaviest_of-none rest

-- Once a peer has told of a peak, get_heaviest_peak raises `AssertionError` right after
-- clear_sync_info, where its caller waits for none; so no peak is kept then.
pub get_heaviest_peak-clear_sync_info :
    (s : SyncStore) (entry : ℕ × Peak) (rest : Dict Peak)
    → s.peer_to_peak ≡ entry ∷ rest
    → (get_heaviest_peak (clear_sync_info s) ≡ raise assertion_error)
      × (get_peak_of_each_peer (clear_sync_info s) ≡ [])
unfolding get_heaviest_peak get_peak_of_each_peer clear_sync_info
get_heaviest_peak-clear_sync_info s entry rest told =
    let best = heaviest_of [] s.peer_to_peak none in
    let answer : get_heaviest_peak (clear_sync_info s)
        ≡ elim best [ none ↦ raise assertion_error | some b ↦ ok (some b) ] =
      rw told refl in
    (answer ∙ (rw (heaviest_of-none s.peer_to_peak) refl), live_peaks-none s.peer_to_peak)
