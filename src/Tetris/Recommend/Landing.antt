-- ===== src/Tetris/Recommend/Landing.antt =====
-- Where a shape comes down: the loop over `Y` of `modified_recommend`, which is `DrawShadow`'s too.
use sogang_university.Shared.{ℕ, zero, suc, ◌+◌, ◌≤◌, ◌<◌, ◌≡◌, refl, ◌⊎◌, inl, inr, arith, dec_lt}
use sogang_university.Shared.{Bool, true, false, ◌&&◌, ◌||◌, Bool-cases, List, [], ◌∷◌, leb}
use sogang_university.Shared.Int.{ℤ, pos, pos_part, ltb_ℤ}
use sogang_university.Tetris.Blocks.{height, positions, block_cell}
use sogang_university.Tetris.Field.{Field, Place, is_solid, check_cells, check_to_move}
use sogang_university.Tetris.Recommend.{land, landing}

any : (ℕ × ℕ → Bool) → List (ℕ × ℕ) → Bool
any test [] = false
any test (c ∷ cells) = test c || any test cells

below_4 : (P : ℕ → Type 0) → P 0 → P 1 → P 2 → P 3 → (n : ℕ) → n < 4 → P n
below_4 P a b c d zero l = a
below_4 P a b c d (suc zero) l = b
below_4 P a b c d (suc (suc zero)) l = c
below_4 P a b c d (suc (suc (suc zero))) l = d
below_4 P a b c d (suc (suc (suc (suc n)))) l = absurd (omega (arith, l))

-- Every shape has a cell in every rotation.
abbrev HasSolid : ℕ → ℕ → Type 0
HasSolid shape rotation =
    any (is_solid (record { shape = shape; rotation = rotation; y = pos 0; x = pos 0 })) positions
    ≡ true

has_solid : (shape rotation : ℕ) → shape < 7 → rotation < 4 → HasSolid shape rotation
unfolding any block_cell
has_solid zero r l m = below_4 (HasSolid 0) refl refl refl refl r m
has_solid (suc zero) r l m = below_4 (HasSolid 1) refl refl refl refl r m
has_solid (suc (suc zero)) r l m = below_4 (HasSolid 2) refl refl refl refl r m
has_solid (suc (suc (suc n))) r l m =
    below_4 (λ k. HasSolid (suc (suc (suc k))) r) (below_4 (HasSolid 3) refl refl refl refl r m)
      (below_4 (HasSolid 4) refl refl refl refl r m) (below_4 (HasSolid 5) refl refl refl refl r m)
      (below_4 (HasSolid 6) refl refl refl refl r m) n (omega (arith, l))

module _ (outside : ℤ → ℤ → ℕ) (f : Field) (shape rotation : ℕ) (x : ℤ) where
  abbrev pub lowered : ℕ → Place
  lowered n = record { shape = shape; rotation = rotation; y = pos n; x = x }

  -- `q` is the shape at row `n` moved down as far as `CheckToMove` lets it, one row at a time.
  pub record Sinks (n : ℕ) (q : Place) : Type 0 where
    pub row : ℕ
    pub place : q ≡ lowered row
    pub lower : n ≤ row
    pub free : (m : ℕ) → n < m → m ≤ row → check_to_move outside f (lowered m) ≡ true
    pub stops : (height ≤ row) ⊎ (check_to_move outside f (lowered (row + 1)) ≡ false)

  land-Sinks : (fuel n : ℕ) → height < n + fuel → Sinks n (land outside fuel f (lowered n))
  unfolding land
  land-Sinks zero n h = record {
    row = n;
    place = refl;
    lower = omega arith;
    free = λ m a b. absurd (omega arith);
    stops = inl (omega arith);
  }
  land-Sinks (suc fuel) n h =
      elim (Bool-cases (ltb_ℤ (pos n) (pos height) && check_to_move outside f (lowered (n + 1)))) [
        | inl e ↦
            let rest = land-Sinks fuel (n + 1) (omega arith) in
            record {
              row = rest.row;
              place = rw e rest.place;
              lower = omega (arith, rest.lower);
              free = λ m a b. elim (dec_lt (n + 1) m) [
                | yes later ↦ rest.free m later b
                | no other ↦ let first : m ≡ n + 1 = omega arith in rw first (ground arith)
              ];
              stops = rest.stops;
            }
        | inr e ↦ record {
          row = n;
          place = rw e;
          lower = omega arith;
          free = λ m a b. absurd (omega arith);
          stops = ground arith;
        }
      ]

  pub landing-Sinks : Sinks 0 (landing outside f shape (rotation, x))
  unfolding landing
  landing-Sinks = land-Sinks (height + 1) 0 (omega arith)

  -- No shape fits at a row below the last.
  low_cells :
      (row : ℕ) (cells : List (ℕ × ℕ))
      → height ≤ row
      → any (is_solid (lowered row)) cells ≡ true
      → check_cells outside f (lowered row) cells ≡ false
  unfolding any check_cells
  low_cells row [] l h = ground (arith, h)
  low_cells row ((i, j) ∷ cells) l h = elim (Bool-cases (is_solid (lowered row) (i, j))) [
    | inl e ↦
        let low : leb (pos_part (pos height)) (row + i) ≡ true = ground (arith, l) in
        ground (arith, e, low, l)
    | inr e ↦ let rest = low_cells row cells l in ground (arith, e, h, rest)
  ]

  -- `q` is the shape at row `n` moved down, through rows in which it fits, to the last before the first
  -- row in which it does not fit.
  pub record Lands (n : ℕ) (q : Place) : Type 0 where
    pub row : ℕ
    pub place : q ≡ lowered row
    pub lower : n ≤ row
    pub free : (m : ℕ) → n < m → m ≤ row → check_to_move outside f (lowered m) ≡ true
    pub stops : check_to_move outside f (lowered (row + 1)) ≡ false

  -- The search lands a shape that starts in row 0: it comes down through rows in which it fits, as
  -- far as they go, and stops at the first row in which it does not fit. The loop ends.
  pub landing-Lands : shape < 7 → rotation < 4 → Lands 0 (landing outside f shape (rotation, x))
  unfolding check_to_move
  landing-Lands a b =
      let k = landing-Sinks in
      record {
        row = k.row;
        place = k.place;
        lower = k.lower;
        free = k.free;
        stops = elim k.stops [
          | inl low ↦
              low_cells (k.row + 1) positions (omega (arith, low)) (has_solid shape rotation a b)
          | inr stop ↦ stop
        ];
      }
