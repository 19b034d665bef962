-- ===== src/Crlf/Tests.antt =====
-- A text of two lines.
use linux_practice.Base.{ℕ, List, [], ◌∷◌}

abbrev lines : List ℕ
lines = b'a' ∷ 10 ∷ b'b' ∷ 10 ∷ []
