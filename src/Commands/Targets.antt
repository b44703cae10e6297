-- ===== src/Commands/Targets.antt =====
-- What `Bootstrap` connects to.
use dfi.Prelude.{ℕ, ◌==◌, false, [], ◌∷◌, ◌≡◌}
use dfi.Dht.Address.{Bytes}

-- The separator is not in the text.
unfoldable pub Lacks : ℕ → Bytes → Type 0
Lacks sep [] = Unit
Lacks sep (c ∷ cs) = ((c == sep) ≡ false) × Lacks sep cs
