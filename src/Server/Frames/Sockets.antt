-- ===== src/Server/Frames/Sockets.antt =====
-- Which sockets of a session of frames in server.go are open.
use stealthlink.Prelude.{
  ==_iff, Bool, Bool-cases, List, [], ap, arith, bytes_eq, delete, false, get_elem?, inl, inr,
  insert, is_open, is_open-without, lookup, lookup-delete, lookup-insert, lookup-insert_self,
  nat_eq, none, refl, some, string_eq, suc, true, without, zero, ℕ, ◌++◌, ◌==◌, ◌||◌, ◌∙◌, ◌∷◌, ◌≡◌,
  ◌≢◌, ◌⊎◌,
}
use stealthlink.Wire.Frames.{UdpPayload}
use stealthlink.Server.Frames.{Task, close_all, connect_task, udp_task, register_task}
use stealthlink.Server.Frames.Steps.{remove_at}

-- A task is about to give the socket to an association, or to close it.
abbrev pub registering : ℕ → List Task → Bool
registering n [] = false
registering n (register_task m p ∷ tasks) = m == n || registering n tasks
registering n (connect_task payload ∷ tasks) = registering n tasks
registering n (udp_task payload ∷ tasks) = registering n tasks

-- Every open socket is one that an association has or that a task is registering.
abbrev pub Tidy : List (ℕ × ℕ) → List Task → List ℕ → Type 0
Tidy associations tasks sockets =
    (n : ℕ)
    → is_open n sockets ≡ true
    → ((id : ℕ) × (lookup id associations ≡ some n)) ⊎ (registering n tasks ≡ true)

registering-append :
    (n : ℕ) (tasks : List Task) (t : Task)
    → registering n (tasks ++ (t ∷ [])) ≡ (registering n tasks || registering n (t ∷ []))
registering-append n [] t = refl
registering-append n (register_task m p ∷ tasks) t = ground (arith, registering-append n tasks t)
registering-append n (connect_task payload ∷ tasks) t = registering-append n tasks t
registering-append n (udp_task payload ∷ tasks) t = registering-append n tasks t

-- A socket that a task was registering before one task is taken is that task's, or still is.
registering-remove_at :
    (n i : ℕ) (tasks : List Task)
    → registering n tasks ≡ true
    → (registering n (remove_at i tasks) ≡ true)
      ⊎ ((p : UdpPayload) × (get_elem? tasks i ≡ some (register_task n p)))
registering-remove_at n i [] h = cc
registering-remove_at n zero (register_task m p ∷ tasks) h = elim (Bool-cases (m == n)) [
  | inl same ↦ inr (p, ap (λ k. some (register_task k p)) ((==_iff m n).0 same))
  | inr differs ↦ inl (ground (arith, h, differs))
]
registering-remove_at n zero (connect_task payload ∷ tasks) h = inl h
registering-remove_at n zero (udp_task payload ∷ tasks) h = inl h
registering-remove_at n (suc i) (register_task m p ∷ tasks) h = elim (Bool-cases (m == n)) [
  | inl same ↦ inl (ground (arith, same))
  | inr differs ↦ elim (registering-remove_at n i tasks (ground (arith, h, differs))) [
    | inl kept ↦ inl (ground (arith, kept))
    | inr taken ↦ inr taken
  ]
]
registering-remove_at n (suc i) (connect_task payload ∷ tasks) h = registering-remove_at n i tasks h
registering-remove_at n (suc i) (udp_task payload ∷ tasks) h = registering-remove_at n i tasks h

is_open-close_all :
    (n : ℕ) (associations : List (ℕ × ℕ)) (sockets : List ℕ)
    → is_open n (close_all associations sockets) ≡ true
    → (is_open n sockets ≡ true) × ((id : ℕ) → lookup id associations ≢ some n)
unfolding close_all
is_open-close_all n [] sockets h = (h, λ id e. cc)
is_open-close_all n ((j, k) ∷ associations) sockets h =
    let (still, no_other) = is_open-close_all n associations (without k sockets) h in
    elim (Bool-cases (k == n)) [
      | inl same ↦ absurd (ground (arith, is_open-without n k sockets, still, same))
      | inr differs ↦ (
        ground (arith, is_open-without n k sockets, still, differs),
        λ id e. ground (arith, no_other id, e, differs),
      )
    ]

module _ (associations : List (ℕ × ℕ)) (tasks : List Task) (sockets : List ℕ)
    (tidy : Tidy associations tasks sockets) where
  pub add-Tidy : (t : Task) → Tidy associations (tasks ++ (t ∷ [])) sockets
  add-Tidy t n h = elim (tidy n h) [
    | inl held ↦ inl held
    | inr soon ↦ inr (ground (arith, registering-append n tasks t, soon))
  ]

  pub listen-Tidy :
      (socket : ℕ) (p : UdpPayload)
      → Tidy associations (tasks ++ (register_task socket p ∷ [])) (socket ∷ sockets)
  listen-Tidy socket p n h = elim (Bool-cases (socket == n)) [
    | inl same ↦ inr (ground (arith, registering-append n tasks (register_task socket p), same))
    | inr differs ↦ add-Tidy (register_task socket p) n (ground (arith, h, differs))
  ]

  pub close-Tidy :
      (id socket : ℕ)
      → lookup id associations ≡ some socket
      → Tidy (delete id associations) tasks (without socket sockets)
  close-Tidy id socket found n h = elim (Bool-cases (socket == n)) [
    | inl same ↦ absurd (ground (arith, h, is_open-without n socket sockets, same))
    | inr differs ↦ elim (tidy n (ground (arith, h, is_open-without n socket sockets, differs))) [
      | inl (j, held) ↦
          inl (j, ground (arith, lookup-delete id j associations, held, found, differs))
      | inr soon ↦ inr soon
    ]
  ]

  pub clear-Tidy : Tidy [] tasks (close_all associations sockets)
  clear-Tidy n h =
      let (still, unheld) = is_open-close_all n associations sockets h in
      elim (tidy n still) [ inl (j, held) ↦ absurd (unheld j held) | inr soon ↦ inr soon ]

-- As Tidy, while the task of one socket runs.
abbrev pub TidyBut : ℕ → List (ℕ × ℕ) → List Task → List ℕ → Type 0
TidyBut socket associations tasks sockets =
    (n : ℕ)
    → is_open n sockets ≡ true
    → (socket == n) ≡ false
    → ((id : ℕ) × (lookup id associations ≡ some n)) ⊎ (registering n tasks ≡ true)

module _ (associations : List (ℕ × ℕ)) (tasks : List Task) (sockets : List ℕ) where
  pub take_other-Tidy :
      (i : ℕ)
      → Tidy associations tasks sockets
      → ((n : ℕ) (p : UdpPayload) → get_elem? tasks i ≢ some (register_task n p))
      → Tidy associations (remove_at i tasks) sockets
  take_other-Tidy i tidy other n h = elim (tidy n h) [
    | inl held ↦ inl held
    | inr soon ↦ elim (registering-remove_at n i tasks soon) [
      | inl kept ↦ inr kept
      | inr (p, taken) ↦ absurd (other n p taken)
    ]
  ]

  pub take_register-Tidy :
      (i socket : ℕ) (p : UdpPayload)
      → Tidy associations tasks sockets
      → get_elem? tasks i ≡ some (register_task socket p)
      → TidyBut socket associations (remove_at i tasks) sockets
  take_register-Tidy i socket p tidy e n h differs = elim (tidy n h) [
    | inl held ↦ inl held
    | inr soon ↦ elim (registering-remove_at n i tasks soon) [
      | inl kept ↦ inr kept
      | inr (q, taken) ↦ absurd (ground (arith, e, taken, differs))
    ]
  ]

  pub register_new-Tidy :
      (socket id : ℕ)
      → TidyBut socket associations tasks sockets
      → lookup id associations ≡ none
      → Tidy (insert id socket associations) tasks sockets
  register_new-Tidy socket id tidy free n h = elim (Bool-cases (socket == n)) [
    | inl same ↦
        let e : socket ≡ n = (==_iff socket n).0 same in
        inl (id, lookup-insert_self id socket associations ∙ ap some e)
    | inr differs ↦ elim (tidy n h differs) [
      | inl (j, held) ↦ inl (j, ground (arith, lookup-insert id j socket associations, held, free))
      | inr soon ↦ inr soon
    ]
  ]

  pub register_old-Tidy :
      (socket : ℕ)
      → TidyBut socket associations tasks sockets
      → Tidy associations tasks (without socket sockets)
  register_old-Tidy socket tidy n h = elim (Bool-cases (socket == n)) [
    | inl same ↦ absurd (ground (arith, h, is_open-without n socket sockets, same))
    | inr differs ↦ tidy n (ground (arith, h, is_open-without n socket sockets, differs)) differs
  ]
