-- ===== src/Prelude/Handles.antt =====
-- Connections and sockets as numbers: the list of those that are open, and one without one of them.
use Prim.Native.Nat.{ℕ}
use mathlib.Core.Path.{◌≡◌}
use mathlib.Core.Bool.{Bool, false, ◌||◌}
use mathlib.Core.List.{List, [], ◌∷◌}
use native.Mathlib.Omega.{arith}
use package.stealthlink.Prelude.Tests.{◌==◌, if◌then◌else◌}

abbrev pub is_open : ℕ → List ℕ → Bool
is_open n [] = false
is_open n (m ∷ sockets) = m == n || is_open n sockets

abbrev pub without : ℕ → List ℕ → List ℕ
without n [] = []
without n (m ∷ sockets) = if m == n then without n sockets else m ∷ without n sockets

pub is_open-without :
    (n k : ℕ) (sockets : List ℕ)
    → is_open n (without k sockets) ≡ (if k == n then false else is_open n sockets)
is_open-without n k [] = ground arith
is_open-without n k (m ∷ sockets) = ground (arith, is_open-without n k sockets)
