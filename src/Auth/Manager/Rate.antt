-- ===== src/Auth/Manager/Rate.antt =====
-- The rate limit of auth.go.
use stealthlink.Prelude.{
  Bool-cases, List, Option-cases, String, [], ap, arith, beq_refl, bytes_eq, eq_iff, false,
  if◌then◌else◌, inl, inr, leb, lookup, lookup-insert, nat_eq, none, some, str_eq, string_eq, sym,
  true, ℕ, ◌+◌, ◌<◌, ◌∙◌, ◌∷◌, ◌≡◌, ◌≤◌, ◌⊎◌,
}
use mathlib.Core.Path.{subst}
use stealthlink.Auth.Manager.{RateEntry, minute, check_rate_limit}

abbrev Rates : Type 0
Rates = List (String × RateEntry)

-- Attempts of any addresses, with their times, in the order in which they take the lock.
unfoldable pub attempts : Rates → List (String × ℕ) → Rates
attempts rates [] = rates
attempts rates ((ip, now) ∷ as') = attempts (check_rate_limit rates ip now).0 as'

abbrev pub attempts_of : String → List (String × ℕ) → ℕ
attempts_of ip [] = 0
attempts_of ip ((other, now) ∷ as') = (if str_eq other ip then 1 else 0) + attempts_of ip as'

-- All of the attempts of `ip` come before the end of its window.
abbrev pub Within : String → ℕ → List (String × ℕ) → Type 0
Within ip end [] = Unit {0}
Within ip end ((other, now) ∷ as') = (other ≡ ip → now ≤ end) × Within ip end as'

-- An attempt opens a window if the address has no entry, or one whose window is over.
abbrev pub Opens : Rates → String → ℕ → Type 0
Opens rates ip now =
    (lookup ip rates ≡ none)
    ⊎ ((entry : RateEntry) × (lookup ip rates ≡ some entry) × (entry.reset_at < now))

check-Opens :
    (rates : Rates) (ip : String) (now : ℕ)
    → Opens rates ip now
    → (lookup ip (check_rate_limit rates ip now).0
        ≡ some (record { count = 1; reset_at = now + minute }))
      × ((check_rate_limit rates ip now).1 ≡ true)
unfolding check_rate_limit
check-Opens rates ip now h =
    let opened = lookup-insert ip ip (record { count = 1; reset_at = now + minute }) rates in
    elim h [
      | inl fresh ↦ ground (arith, fresh, beq_refl ip, opened)
      | inr (entry, old, over) ↦ ground (arith, old, over, beq_refl ip, opened)
    ]

check-Counts :
    (rates : Rates) (ip : String) (now c end : ℕ)
    → lookup ip rates ≡ some (record { count = c; reset_at = end })
    → now ≤ end
    → (lookup ip (check_rate_limit rates ip now).0
        ≡ some (record { count = c + 1; reset_at = end }))
      × ((check_rate_limit rates ip now).1 ≡ leb (c + 1) 1000)
unfolding check_rate_limit
check-Counts rates ip now c end h k =
    ground
      (arith, h, beq_refl ip, lookup-insert ip ip (record { count = c + 1; reset_at = end }) rates)

check_leaves :
    (rates : Rates) (ip other : String) (now : ℕ)
    → str_eq other ip ≡ false
    → lookup ip (check_rate_limit rates other now).0 ≡ lookup ip rates
unfolding check_rate_limit
check_leaves rates ip other now h =
    let opens = lookup-insert other ip (record { count = 1; reset_at = now + minute }) rates in
    elim (Option-cases (lookup other rates)) [
      | inl fresh ↦ ground (arith, fresh, opens)
      | inr (entry, old) ↦ ground (
        arith,
        old,
        opens,
        lookup-insert other ip (record entry { count = entry.count + 1 }) rates,
      )
    ]

window_counts :
    (rates : Rates) (ip : String) (c end : ℕ) (as' : List (String × ℕ))
    → lookup ip rates ≡ some (record { count = c; reset_at = end })
    → Within ip end as'
    → lookup ip (attempts rates as')
      ≡ some (record { count = c + attempts_of ip as'; reset_at = end })
unfolding attempts
window_counts rates ip c end [] h w = ground arith
window_counts rates ip c end ((other, now) ∷ as') h w = elim (Bool-cases (str_eq other ip)) [
  | inl same ↦
      let e : other ≡ ip = (eq_iff other ip).0 same in
      let one_more : lookup ip (check_rate_limit rates other now).0
          ≡ some (record { count = c + 1; reset_at = end }) =
        subst
          (λ (o : String).
            lookup ip (check_rate_limit rates o now).0
            ≡ some (record { count = c + 1; reset_at = end }))
          (sym e) (check-Counts rates ip now c end h (w.0 e)).0 in
      let sum : c + 1 + attempts_of ip as' ≡ c + (1 + attempts_of ip as') = omega arith in
      rw (same, ← sum)
        (window_counts (check_rate_limit rates other now).0 ip (c + 1) end as' one_more w.1)
  | inr differs ↦
      let sum : c + attempts_of ip as' ≡ c + (0 + attempts_of ip as') = omega arith in
      rw (differs, ← sum)
        (window_counts (check_rate_limit rates other now).0 ip c end as'
          (check_leaves rates ip other now differs ∙ h) w.1)
]

-- From an attempt that opens a window for an address, with no entry or one whose window is over,
-- to the end of the new window, a minute later, next attempt of that address passes
-- exactly if it is among the first 1000 of the window, whatever other addresses do in between.
pub window_limit :
    (rates : Rates) (ip : String) (start now : ℕ) (as' : List (String × ℕ))
    → Opens rates ip start
    → Within ip (start + minute) as'
    → now ≤ start + minute
    → (check_rate_limit (attempts (check_rate_limit rates ip start).0 as') ip now).1
      ≡ leb (2 + attempts_of ip as') 1000
window_limit rates ip start now as' h w k =
    let (opened, _) = check-Opens rates ip start h in
    let counted =
      window_counts (check_rate_limit rates ip start).0 ip 1 (start + minute) as' opened w in
    (check-Counts _ ip now (1 + attempts_of ip as') (start + minute) counted k).1
    ∙ ap (λ (n : ℕ). leb n 1000) (omega arith)
