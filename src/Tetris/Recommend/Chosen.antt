-- ===== src/Tetris/Recommend/Chosen.antt =====
-- Which placement `modified_recommend` leaves in `recommendR`, `recommendY` and `recommendX`.
use sogang_university.Shared.{ℕ, ◌≡◌}
use sogang_university.Shared.{true}
use sogang_university.Shared.Int.{ℤ}
use sogang_university.Tetris.Field.{Field}
use sogang_university.Tetris.Recommend.{Advice, landing}
use sogang_university.Tetris.Recommend.Best.{playable}

-- The same placement is advised.
abbrev Keeps : Advice → Advice → Type 0
Keeps g h = (h.r ≡ g.r) × (h.y ≡ g.y) × (h.x ≡ g.x)

module _ (outside : ℤ → ℤ → ℕ) where
  -- The advice is the pair `t`, at the row in which the shape lands there.
  abbrev pub Advises : Field → ℕ → Advice → ℕ × ℤ → Type 0
  Advises f shape g t =
      (playable outside f shape t ≡ true)
      × (g.r ≡ t.0)
      × (g.x ≡ t.1)
      × (g.y ≡ (landing outside f shape t).y)
