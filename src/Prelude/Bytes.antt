-- ===== src/Prelude/Bytes.antt =====
-- `len` of a Go string: the bytes of its UTF-8 form.
use Prim.Native.Nat.{ℕ, ◌+◌}
use mathlib.Core.List.{[], ◌∷◌}
use adlts_core_engine.Prelude.Tests.{ltb, if◌then◌else◌}
use adlts_core_engine.Prelude.GoStrings.{Text}

unfoldable pub rune_length : ℕ → ℕ
rune_length c = if ltb c 0x80 then 1 else if ltb c 0x800 then 2 else if ltb c 0x10000 then 3 else 4

unfoldable pub byte_length : Text → ℕ
unfolding rune_length
byte_length [] = 0
byte_length (c ∷ s) = rune_length c + byte_length s
