-- ===== src/Apm/Connections/Pending.antt =====
-- The requests whose bodies are being read, by number: the closures of `readBody`.
use polyglot_infinity.Prelude.{
  ℕ, ◌≡◌, Option, none, some, List, [], ◌∷◌, ◌++◌, arith, if◌then◌else◌, ◌==◌, Text,
}

pub record Conn : Type 0 where
  pub method : Text
  pub url : Text
  pub chunks : List (List ℕ)

abbrev pub Table : Type 0
Table = List (ℕ × Conn)

unfoldable pub find : ℕ → Table → Option Conn
find i [] = none
find i ((j, c) ∷ t) = if j == i then some c else find i t

unfoldable pub remove : ℕ → Table → Table
remove i [] = []
remove i ((j, c) ∷ t) = let rest = remove i t in if j == i then rest else (j, c) ∷ rest

unfoldable pub put : ℕ → Conn → Table → Table
unfolding remove
put i c t = (i, c) ∷ remove i t

-- `chunks.push(chunk)`.
abbrev pub add_chunk : List ℕ → Conn → Conn
add_chunk b c = record c { chunks = c.chunks ++ b ∷ [] }

pub find-remove : (i j : ℕ) (t : Table) → find j (remove i t) ≡ (if i == j then none else find j t)
unfolding find remove
find-remove i j [] = ground arith
find-remove i j ((k, c) ∷ t) = ground (arith, find-remove i j t)

pub find-put :
    (i j : ℕ) (c : Conn) (t : Table) → find j (put i c t) ≡ (if i == j then some c else find j t)
unfolding find put
find-put i j c t = ground (arith, find-remove i j t)
