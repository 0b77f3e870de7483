-- ===== src/Firewall/Bandwidth.antt =====
-- Firewall.TrackBandwidth and SetUserBandwidthLimit of firewall.go. Times are nanoseconds, and
-- the byte counts that the server passes are lengths, so they are not negative. A limit that is
-- not positive is 0 here, since the code treats all such values alike.
use native.Mathlib.Nat.{add_assoc}
use stealthlink.Prelude.{
  Bool, Bool-cases, List, Option, String, [], ap, arith, bytes_eq, eq_iff, false, if◌then◌else◌,
  inl, inr, insert, lookup, lookup-insert_ne, lookup-insert_self, ltb, nat_eq, none, not, some,
  str_eq, string_eq, sym, true, ℕ, ◌&&◌, ◌+◌, ◌↔◌, ◌∙◌, ◌∷◌, ◌≡◌, ◌≤◌, ◌⊎◌,
}
use mathlib.Core.Path.{subst}

pub record BandwidthTracker : Type 0 where
  pub bytes_used : ℕ
  pub limit : ℕ
  pub window_start : ℕ

abbrev pub Trackers : Type 0
Trackers = List (String × BandwidthTracker)

abbrev second : ℕ
second = 1000000000

abbrev tracker_or_new : ℕ → ℕ → Option BandwidthTracker → BandwidthTracker
tracker_or_new limit now none = record { bytes_used = 0; limit = limit; window_start = now }
tracker_or_new limit now (some t) = t

-- time.Since(windowStart) > time.Second
unfoldable pub roll_window : BandwidthTracker → ℕ → BandwidthTracker
roll_window t now =
    if ltb (t.window_start + second) now then record t { bytes_used = 0; window_start = now } else t

abbrev pub within_limit : BandwidthTracker → Bool
within_limit t = not (ltb 0 t.limit && ltb t.limit t.bytes_used)

-- The clock is read once here; the source reads it up to three times in a call.
unfoldable pub track_bandwidth : ℕ → Trackers → String → ℕ → ℕ → Trackers × Bool
unfolding roll_window
track_bandwidth default_limit ts id bytes now =
    let rolled = roll_window (tracker_or_new default_limit now (lookup id ts)) now in
    let used = record rolled { bytes_used = rolled.bytes_used + bytes } in
    (insert id used ts, within_limit used)

unfoldable pub set_user_bandwidth_limit : Trackers → String → ℕ → ℕ → Trackers
set_user_bandwidth_limit ts id limit now =
    insert id (record (tracker_or_new 0 now (lookup id ts)) { limit = limit }) ts

-- Calls for any users, in the order in which they take the lock.
unfoldable pub track_all : ℕ → Trackers → List (String × ℕ × ℕ) → Trackers
track_all default_limit ts [] = ts
track_all default_limit ts ((id, bytes, now) ∷ calls) =
    track_all default_limit (track_bandwidth default_limit ts id bytes now).0 calls

abbrev pub bytes_of : String → List (String × ℕ × ℕ) → ℕ
bytes_of id [] = 0
bytes_of id ((j, bytes, now) ∷ calls) = (if str_eq j id then bytes else 0) + bytes_of id calls

-- All of the user's calls come within the window that began at `start`.
abbrev pub InWindow : String → ℕ → List (String × ℕ × ℕ) → Type 0
InWindow id start [] = Unit {0}
InWindow id start ((j, bytes, now) ∷ calls) =
    (j ≡ id → now ≤ start + second) × InWindow id start calls

tracked :
    (d : ℕ) (ts : Trackers) (id : String) (bytes now used limit start : ℕ)
    → lookup id ts ≡ some (record { bytes_used = used; limit = limit; window_start = start })
    → now ≤ start + second
    → (lookup id (track_bandwidth d ts id bytes now).0
        ≡ some (record { bytes_used = used + bytes; limit = limit; window_start = start }))
      × ((track_bandwidth d ts id bytes now).1 ≡ not (ltb 0 limit && ltb limit (used + bytes)))
unfolding track_bandwidth
tracked d ts id bytes now used limit start h k =
    let rolled : roll_window (tracker_or_new d now (lookup id ts)) now
        ≡ record { bytes_used = used; limit = limit; window_start = start } =
      unfold roll_window in ground (arith, h) in
    (
      lookup-insert_self id _ ts
          ∙ ap (λ (t : BandwidthTracker). some (record t { bytes_used = t.bytes_used + bytes }))
              rolled,
      ap (λ (t : BandwidthTracker). within_limit (record t { bytes_used = t.bytes_used + bytes }))
          rolled,
    )

untouched :
    (d : ℕ) (ts : Trackers) (id j : String) (bytes now : ℕ)
    → str_eq j id ≡ false
    → lookup id (track_bandwidth d ts j bytes now).0 ≡ lookup id ts
unfolding track_bandwidth
untouched d ts id j bytes now h = lookup-insert_ne j id _ ts h

window_total :
    (d : ℕ) (ts : Trackers) (id : String) (used limit start : ℕ) (calls : List (String × ℕ × ℕ))
    → lookup id ts ≡ some (record { bytes_used = used; limit = limit; window_start = start })
    → InWindow id start calls
    → lookup id (track_all d ts calls)
      ≡ some (record { bytes_used = used + bytes_of id calls; limit = limit; window_start = start })
unfolding track_all
window_total d ts id used limit start [] h w = ground arith
window_total d ts id used limit start ((j, bytes, now) ∷ calls) h w =
    elim (Bool-cases (str_eq j id)) [
      | inl same ↦
          let e : j ≡ id = (eq_iff j id).0 same in
          let more : lookup id (track_bandwidth d ts j bytes now).0
              ≡ some (record { bytes_used = used + bytes; limit = limit; window_start = start }) =
            subst
              (λ (o : String).
                lookup id (track_bandwidth d ts o bytes now).0
                ≡ some (record { bytes_used = used + bytes; limit = limit; window_start = start }))
              (sym e) (tracked d ts id bytes now used limit start h (w.0 e)).0 in
          rw (same, ← add_assoc used bytes (bytes_of id calls))
            (window_total d (track_bandwidth d ts j bytes now).0 id (used + bytes) limit start calls
              more w.1)
      | inr differs ↦
          let sum : used + bytes_of id calls ≡ used + (0 + bytes_of id calls) = omega arith in
          rw (differs, ← sum)
            (window_total d (track_bandwidth d ts j bytes now).0 id used limit start calls
              (untouched d ts id j bytes now differs ∙ h) w.1)
    ]

-- Within one window a call answers true exactly if the user has no limit, or all bytes of the
-- window so far and its own are within it, whatever other users do in between.
pub track_bandwidth_window :
    (d : ℕ) (ts : Trackers) (id : String) (used limit start bytes now : ℕ)
    (calls : List (String × ℕ × ℕ))
    → lookup id ts ≡ some (record { bytes_used = used; limit = limit; window_start = start })
    → InWindow id start calls
    → now ≤ start + second
    → ((track_bandwidth d (track_all d ts calls) id bytes now).1 ≡ true)
      ↔ ((limit ≡ 0) ⊎ (used + bytes_of id calls + bytes ≤ limit))
track_bandwidth_window d ts id used limit start bytes now calls h w k =
    let total = window_total d ts id used limit start calls h w in
    let answer =
      (tracked d (track_all d ts calls) id bytes now (used + bytes_of id calls) limit start total
        k).1 in
    ((λ e. ground (arith, answer, e)), λ e. ground (arith, answer, e))
