-- ===== src/Base/Text.antt =====
-- The standard library's `String`.
use Prim.Native.Nat.{ℕ, ◌+◌, ◌<◌}
use mathlib.Core.Path.{◌≡◌}
use mathlib.Core.List.{List, [], ◌∷◌}
use native.Mathlib.Omega.{arith}
use par_buffer_pool.Base.Tests.{ltb, if◌then◌else◌}
use par_buffer_pool.Base.Lists.{total, push, total-append}

-- A `String` as its `char`s, and its `len()`: the bytes of its UTF-8.
abbrev pub Text : Type 0
Text = List ℕ

unfoldable pub len_utf8 : ℕ → ℕ
len_utf8 c = if ltb c 0x80 then 1 else if ltb c 0x800 then 2 else if ltb c 0x10000 then 3 else 4

abbrev pub len : Text → ℕ
len row = total len_utf8 row

pub ascii : (c : ℕ) → c < 0x80 → len_utf8 c ≡ 1
unfolding len_utf8
ascii c h = ground arith

pub len-push : (row : Text) (c : ℕ) → len (push row c) ≡ len row + len_utf8 c
len-push row c = omega (arith, total-append len_utf8 row (c ∷ []))
