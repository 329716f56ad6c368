-- ===== src/Snapshots/Ordered.antt =====
-- The buffer stays sorted and short, and a search finds the first snapshot that is not too old.
use jam_server_prototype.Common.{
  ℕ, ◌-◌, ◌≤◌, ◌<◌, ◌≡◌, ◌≢◌, inl, inr, refl, ap, Option, none, some, List, [], ◌∷◌, ◌++◌, ltb,
  Bool-cases, arith,
}
use jam_server_prototype.Snapshots.{
  window, insert_at, drop_before, add_snapshot, first_from, found, to_found, find_snapshot,
}

module _ {S : Type 0} where
  -- All times are at least a bound, and each is at least the one before.
  abbrev pub SortedFrom : ℕ → List (ℕ × S) → Type 0
  SortedFrom bound [] = Unit {0}
  SortedFrom bound ((t, x) ∷ buffer) = (bound ≤ t) × SortedFrom t buffer

  -- Times never fall along the buffer.
  abbrev pub IsSorted : List (ℕ × S) → Type 0
  IsSorted buffer = SortedFrom 0 buffer

  SortedFrom-mono :
      (a b : ℕ) (buffer : List (ℕ × S)) → a ≤ b → SortedFrom b buffer → SortedFrom a buffer
  SortedFrom-mono a b [] h s = tt
  SortedFrom-mono a b ((t, x) ∷ buffer) h s = (omega (arith, s.0), s.1)

  SortedFrom-insert_at :
      (bound timestamp : ℕ) (s : S) (buffer : List (ℕ × S))
      → bound ≤ timestamp
      → SortedFrom bound buffer
      → SortedFrom bound (insert_at timestamp s buffer)
  unfolding insert_at
  SortedFrom-insert_at bound timestamp s [] h o = (h, tt)
  SortedFrom-insert_at bound timestamp s ((t, x) ∷ buffer) h o =
      elim (Bool-cases (ltb timestamp t)) [
        | inl e ↦ rw e (h, (ground arith, o.1))
        | inr e ↦ rw e (o.0, SortedFrom-insert_at t timestamp s buffer (ground arith) o.1)
      ]

  SortedFrom-drop_before :
      (bound cutoff : ℕ) (buffer : List (ℕ × S))
      → SortedFrom bound buffer
      → SortedFrom bound (drop_before cutoff buffer)
  unfolding drop_before
  SortedFrom-drop_before bound cutoff [] o = tt
  SortedFrom-drop_before bound cutoff ((t, x) ∷ buffer) o = elim (Bool-cases (ltb t cutoff)) [
    | inl e ↦
        rw e (SortedFrom-drop_before bound cutoff buffer (SortedFrom-mono bound t buffer o.0 o.1))
    | inr e ↦ rw e (o.0, SortedFrom-drop_before t cutoff buffer o.1)
  ]

  -- After the snapshots that are too old are gone, all times are at least the cutoff.
  SortedFrom-cutoff :
      (bound cutoff : ℕ) (buffer : List (ℕ × S))
      → SortedFrom bound buffer
      → SortedFrom cutoff (drop_before cutoff buffer)
  unfolding drop_before
  SortedFrom-cutoff bound cutoff [] o = tt
  SortedFrom-cutoff bound cutoff ((t, x) ∷ buffer) o = elim (Bool-cases (ltb t cutoff)) [
    | inl e ↦ rw e (SortedFrom-cutoff t cutoff buffer o.1)
    | inr e ↦ rw e (ground arith, SortedFrom-drop_before t cutoff buffer o.1)
  ]

  -- `AddSnapshot` keeps the buffer sorted, and leaves no snapshot that is older by more than the
  -- window than the one it adds.
  pub add_snapshot-IsSorted :
      (timestamp : ℕ) (s : S) (buffer : List (ℕ × S))
      → IsSorted buffer
      → IsSorted (add_snapshot timestamp s buffer)
        × SortedFrom (timestamp - window) (add_snapshot timestamp s buffer)
  unfolding add_snapshot
  add_snapshot-IsSorted timestamp s buffer o =
      let inserted = SortedFrom-insert_at 0 timestamp s buffer (omega arith) o in
      (
        SortedFrom-drop_before 0 (timestamp - window) (insert_at timestamp s buffer) inserted,
        SortedFrom-cutoff 0 (timestamp - window) (insert_at timestamp s buffer) inserted,
      )

  abbrev pub AllBefore : ℕ → List (ℕ × S) → Type 0
  AllBefore timestamp [] = Unit {0}
  AllBefore timestamp ((t, x) ∷ buffer) = (t < timestamp) × AllBefore timestamp buffer

  -- What a search for a time should answer on a sorted buffer: the entry at which the buffer splits
  -- into those before the time and those no earlier than the entry; none if all are before the time.
  abbrev pub FirstFrom : ℕ → List (ℕ × S) → Option (ℕ × S) → Type 0
  FirstFrom timestamp buffer none = AllBefore timestamp buffer
  FirstFrom timestamp buffer (some (t, x)) =
      (older : List (ℕ × S)) × (newer : List (ℕ × S)) × (buffer ≡ older ++ (t, x) ∷ newer)
      × AllBefore timestamp older
      × (timestamp ≤ t)
      × SortedFrom t newer

  FirstFrom-skip :
      (timestamp t : ℕ) (x : S) (buffer : List (ℕ × S)) (r : Option (ℕ × S))
      → t < timestamp
      → FirstFrom timestamp buffer r
      → FirstFrom timestamp ((t, x) ∷ buffer) r
  FirstFrom-skip timestamp t x buffer none h f = (h, f)
  FirstFrom-skip timestamp t x buffer (some (u, y)) h (older, newer, e, before, from, sorted) =
      ((t, x) ∷ older, newer, ap (◌∷◌ (t, x)) e, (h, before), from, sorted)

  first_from-FirstFrom :
      (bound timestamp : ℕ) (buffer : List (ℕ × S))
      → SortedFrom bound buffer
      → FirstFrom timestamp buffer (first_from timestamp buffer)
  unfolding first_from
  first_from-FirstFrom bound timestamp [] o = tt
  first_from-FirstFrom bound timestamp ((t, x) ∷ buffer) o = elim (Bool-cases (ltb t timestamp)) [
    | inl e ↦
        rw (e, first_from)
          (FirstFrom-skip timestamp t x buffer (first_from timestamp buffer) (ground arith)
            (first_from-FirstFrom t timestamp buffer o.1))
    | inr e ↦ rw (e, first_from) ([], buffer, refl, tt, ground arith, o.1)
  ]

  find_snapshot-first :
      (timestamp t : ℕ) (x : S) (buffer : List (ℕ × S))
      → first_from timestamp buffer ≡ some (t, x)
      → find_snapshot timestamp buffer ≡ found t x
  unfolding find_snapshot first_from
  find_snapshot-first timestamp t x [] e = cc
  find_snapshot-first timestamp t x (entry ∷ buffer) e = ap to_found e

  -- On a sorted buffer that is not empty, the search answers the earliest snapshot that is not
  -- before the time, and `missing` exactly when every snapshot is.
  pub find_snapshot_lem :
      (timestamp : ℕ) (entry : ℕ × S) (buffer : List (ℕ × S))
      → IsSorted (entry ∷ buffer)
      → (r : Option (ℕ × S)) × (find_snapshot timestamp (entry ∷ buffer) ≡ to_found r)
        × FirstFrom timestamp (entry ∷ buffer) r
  unfolding find_snapshot
  find_snapshot_lem timestamp entry buffer o = (
    first_from timestamp (entry ∷ buffer),
    refl,
    first_from-FirstFrom 0 timestamp (entry ∷ buffer) o,
  )

  -- No snapshot of the buffer has this time.
  abbrev pub NoneAt : ℕ → List (ℕ × S) → Type 0
  NoneAt timestamp [] = Unit {0}
  NoneAt timestamp ((t, x) ∷ buffer) = (t ≢ timestamp) × NoneAt timestamp buffer

  first_from-added :
      (cutoff timestamp : ℕ) (s : S) (buffer : List (ℕ × S))
      → cutoff ≤ timestamp
      → NoneAt timestamp buffer
      → first_from timestamp (drop_before cutoff (insert_at timestamp s buffer))
        ≡ some (timestamp, s)
  unfolding first_from drop_before insert_at
  first_from-added cutoff timestamp s [] h n = ground arith
  first_from-added cutoff timestamp s ((t, x) ∷ buffer) h n =
      ground (arith, first_from-added cutoff timestamp s buffer h n.1)

  -- A snapshot that was just added under a new time is the one that a search for that time finds.
  pub find_snapshot-add_snapshot :
      (timestamp : ℕ) (s : S) (buffer : List (ℕ × S))
      → NoneAt timestamp buffer
      → find_snapshot timestamp (add_snapshot timestamp s buffer) ≡ found timestamp s
  unfolding add_snapshot
  find_snapshot-add_snapshot timestamp s buffer n =
      find_snapshot-first timestamp timestamp s _
        (first_from-added (timestamp - window) timestamp s buffer (omega arith) n)
