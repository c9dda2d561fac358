-- ===== src/Prelude/Calls.antt =====
-- What the clerks' loops give: the calls that they have made, and their result.
use mathlib.Core.Path.{◌≡◌}
use mathlib.Core.List.{List, [], ◌∷◌}

-- The calls that are made, each with the server and the arguments, and the result.
abbrev pub called {ℓ ℓ'} :
    {Server : Type ℓ} {Args : Type ℓ} {R : Type ℓ'}
    → Server
    → Args
    → List (Server × Args) × R
    → List (Server × Args) × R
called server args (calls, result) = ((server, args) ∷ calls, result)

-- All calls have the same arguments.
abbrev pub AllCarry {ℓ} : {Server : Type ℓ} {Args : Type ℓ} → Args → List (Server × Args) → Type ℓ
AllCarry args [] = Unit
AllCarry args ((server, a) ∷ calls) = (a ≡ args) × AllCarry args calls
